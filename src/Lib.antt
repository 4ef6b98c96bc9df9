-- ===== src/Lib.antt =====
-- Shadowroller is a server that rolls dice for the players of a Shadowrun game and keeps the history
-- of the game's events in Redis. This library models the server's own logic in Go, under server/.
--
-- The parts, and how they interact:
-- * Roll (server/roll): Roll.Generator is the task that turns random bytes into dice and sends them
--   through a channel, and Roll.Roller is what the handlers do with the dice that they receive.
-- * Id (server/id) and Player (server/player): ids from the clock, and the players of a game.
-- * Event (server/event): the five kinds of events and their share state, Parse in Event.Codec, and
--   ValidID and the fields scanned by regular expressions in Event.Scan.
-- * Update (server/update): the packets that tell the players of a change, and in Update.Filter the
--   text with which some of a channel's subscribers are told to skip one.
-- * Game.Share (server/game/eventShare.go): who may see an event, and the packets that each change of
--   an event publishes. Game.Subscribe (server/game/subscribe.go): the channels of a player.
--   Game.History (server/game/eventManager.go): the pipelines of Redis commands that keep the history
--   and publish the packets.
--   Game.Players (server/game/game.go, server/game/playerManager.go): a game, its GMs and its players.
--   Game.Connections (server/game/playerManager.go): who is told that a player is online.
-- * Redis (server/redis): what the server uses of the Redis library as the record Client, with errors of the
--   connection; Redis.Retry (server/redis/redis.go) and Redis.Fields (server/redis/structToMap.go).
--   Redis.Memory is a client in memory, for the tests.
-- * Session (server/session): the sessions and their life in Redis.
-- * Lookup (server/auth/auth.go): LogPlayerIn, and what is read of events (server/event/event.go), of
--   players (server/player/player.go) and of games (server/game/game.go).
-- * Routes (server/routes): Routes.Args is what the handlers share, from server/http/handler.go and
--   its neighbours; Routes.Edits, Routes.Rolls, Routes.Initiative, Routes.Events, Routes.Players and
--   Routes.Auth are the handlers of event.go, game.go, initiative.go, player.go and auth.go.
--   A handler is an action (Action): it reads and changes what is stored in Redis, and is done or
--   ends in a panic, which Http.Halt turns into the answer.
-- * Routes.Frontend (server/routes/frontend.go): the files of the web client, by paths of bytes
--   (Common.Bytes): which file is opened, by which path, with which headers.
-- * Routes.Subscription (server/routes/gameSubscription.go): which updates are written to a stream.
-- * Delivery puts these together: an event changes, packets are published, Redis hands them to the
--   subscribers, and each player's stream skips those that name the player.
-- * Errs (server/errs) and Http (server/http): errors with their codes, handlers that halt by a panic
--   and the middleware that answers it, the router of all middleware (Http.Router), session ids, addresses, the rate limit, and the wrapped
--   response.
-- * Shutdown (server/shutdown): the task that cancels the running parts and waits for them.
-- Common has the shared types, tests, lists, texts and association lists.
--
-- How the code corresponds to the definitions: a definition has the name of the Go function, in
-- snake case. A panic is `none` of an Option or a constructor of a result type, and an error that is
-- returned is a value. A method that changes its receiver returns the changed value. Go's `int` is ℤ
-- where it may be negative and ℕ where it never is; times and ids are ℕ, below the overflow of `int64`.
-- Channels of dice are lists of the values that they deliver before they are closed. Texts are lists of
-- code points; the value of a request's header is a text with one character for each byte.
-- Ids of events are below 2 ^ 53, where Redis' scores hold them exactly.
--
-- The loop of `ExplodingSixes` takes fuel, one for each die that is left and one more, which is enough
-- since each round uses up a die; RetryWatchTxn goes down from the number of its tries;
-- every other loop goes over a list.
--
-- Parameters: Redis' publish and subscribe (Game.Subscribe.PubSub), sorted sets
-- (Game.History.Stored.SortedSet), sets and hashes (Game.Players.Redis, and Redis.Client with the
-- errors) and counters (Http.RateLimit.Counters), encoding/json
-- (Delivery.Packets.Encoder, Event.Codec.Json, Game.History.Stored.EventText), and regexp and strconv
-- (Event.Scan.Scanner), with what their documentation says as fields of these records or of the
-- records of hypotheses beside them.
--
-- The libraries that the handlers run on are the fields of Routes.Args.Env. Scan of go-redis and the
-- decoding of a request's body are functions that are arguments. The file system and the printing of
-- paths are the fields of Routes.Frontend.Files.
--
-- Not modelled: the deadlines of contexts inside a Redis call, an error of encoding an answer, logging,
-- tracing, configuration, the debugging tasks under server/routes, the migrations
-- under server/task, and the web client under web/. The operations of Game.Players, Game.History and
-- Game.Connections are taken on a Redis that answers, and what is said of several changes of
-- Game.Connections is said of messages that are sent in the order of the changes; the handlers run the pipelines of Game.History
-- with errors.
pub mod Common
pub mod Roll
pub mod Id
pub mod Player
pub mod Event
pub mod Update
pub mod Game
pub mod Routes
pub mod Delivery
pub mod Errs
pub mod Redis
pub mod Action
pub mod Session
pub mod Lookup
pub mod Shutdown
pub mod Http
