-- ===== src/Lookup/Games.antt =====
-- server/game/game.go: the players and the description of a game, and server/auth/auth.go. `client.Watch`
-- of go-redis on a function is the parameter `watch`; the function changes what is stored and the
-- variable that it appends to.
pub mod Loaded
pub mod Members
use Prim.Native.String
use shadowroller.Common.{
  ℕ, zero, suc, Bool, true, false, ◌||◌, List, [], ◌∷◌, ◌++◌, Option, none, some, String, str_eq,
  ◌==◌, if◌then◌else◌,
}
use shadowroller.Common.Dict.{Dict, lookup, assign}
use shadowroller.Errs.{Err, bad_request, not_found, no_access, wrap, plain}
use shadowroller.Errs.Answer.{Answer, ok, err}
use shadowroller.Errs.Is.{is_not_found, is_bad_request}
use shadowroller.Player.{Player, Info, info}
use shadowroller.Redis.{Client, Reply, nil_reply, failed, reply, answer}
use shadowroller.Redis.Retry.{
  Try, committed, tx_failed, error, Retried, success, failed_at, no_more_retries, retry_watch_txn,
}
use shadowroller.Lookup.Players.{get_player, get_by_username}

-- `game.Info`
pub record GameInfo : Type 0 where
  pub id : String
  pub players : Dict Info
  pub gms : List String

-- The loop of `GetInfo` over the players.
infos : Dict Info → List Player → Dict Info
infos result [] = result
infos result (plr ∷ plrs) = infos (assign plr.id (info plr) result) plrs

with_message : {A : Type 0} → String → Answer A → Answer A
with_message message (ok a) = ok a
with_message message (err e) = err (wrap e message)

-- An error of a kind that is passed on, and another that is wrapped.
unless_not_found : {A : Type 0} → String → Answer A → Answer A
unless_not_found message (ok a) = ok a
unless_not_found message (err e) = if is_not_found e then err e else err (wrap e message)

-- `retries` is `config.RedisRetries`.
module _ (redis : Client) (scan : Dict String → Option Player) (retries : ℕ)
    (watch : (redis.Store × List Player → Try × (redis.Store × List Player))
      → redis.Store × List Player
      → Try × (redis.Store × List Player)) where
  -- The loop over the ids of the players, which appends to the variable `players`.
  load_players : List String → List Player → redis.Store → Try × List Player
  load_players [] plrs s = (committed, plrs)
  load_players (id ∷ ids) plrs s = elim (get_player redis scan id s) [
    | err e ↦ (error (wrap e "getting info on player"), plrs)
    | ok plr ↦ load_players ids (plrs ++ (plr ∷ [])) s
  ]

  load_members : Reply (List String) → List Player → redis.Store → Try × List Player
  unfolding load_players
  load_members nil_reply plrs s = (error not_found, plrs)
  load_members (failed e) plrs s = (error (wrap e "getting players:gameID"), plrs)
  load_members (reply []) plrs s = (error not_found, plrs)
  load_members (reply (id ∷ ids)) plrs s = load_players (id ∷ ids) plrs s

  -- The function `watched`, on what is stored and the variable `players`.
  watched : String → redis.Store × List Player → Try × (redis.Store × List Player)
  unfolding load_members
  watched game_id (s, plrs) =
      let (t, plrs') = load_members (redis.smembers (String.◌++◌ "players:" game_id) s) plrs s in
      (t, (s, plrs'))

  retried : {S : Type 0} → Retried × (S × List Player) → Answer (List Player)
  retried (success, (s, plrs)) = ok plrs
  retried (failed_at e try, x) =
      if is_not_found e then err (wrap e "try") else err (wrap (wrap e "try") "running transaction")
  retried (no_more_retries, x) = err (plain "running transaction: no more retries")

  unfoldable pub get_players : String → redis.Store → Answer (List Player)
  unfolding watched retried
  get_players game_id s = retried (retry_watch_txn (watch (watched game_id)) retries (s, []))

  -- `Exists`, with its error.
  game_present : String → redis.Store → Answer Bool
  unfolding with_message
  game_present game_id s =
      with_message "checking if game exists"
        (elim (answer (redis.exists (String.◌++◌ "game:" game_id) s)) [
          | ok count ↦ ok (count == 1)
          | err e ↦ err e
        ])

  -- The rest of `GetInfo`, once the players are known.
  info_with : String → List Player → redis.Store → Answer GameInfo
  unfolding infos with_message
  info_with game_id plrs s =
      elim (with_message "getting gms for game"
        (answer (redis.smembers (String.◌++◌ "gms:" game_id) s))) [
          | err e ↦ err (wrap e "getting GMs in game")
          | ok gms ↦ ok (record { id = game_id; players = infos [] plrs; gms = gms })
        ]

  present : String → Answer Bool → redis.Store → Answer GameInfo
  unfolding info_with
  present game_id (err e) s = err (wrap e "checking if game really exists")
  present game_id (ok false) s = err (wrap bad_request "game does not exist")
  present game_id (ok true) s = info_with game_id [] s

  checked : String → List Player → redis.Store → Answer GameInfo
  unfolding present game_present info_with
  checked game_id [] s = present game_id (game_present game_id s) s
  checked game_id (plr ∷ plrs) s = info_with game_id (plr ∷ plrs) s

  unfoldable pub get_info : String → redis.Store → Answer GameInfo
  unfolding checked unless_not_found
  get_info game_id s = elim (unless_not_found "getting players in game" (get_players game_id s)) [
    | err e ↦ err e
    | ok plrs ↦ checked game_id plrs s
  ]

  -- Whether the player is in the game.
  member : GameInfo → Player → Answer (GameInfo × Player)
  member found plr = elim (lookup plr.id found.players) [
    | none ↦ err (wrap no_access "player to game")
    | some i ↦ ok (found, plr)
  ]

  joined : Player → Answer GameInfo → Answer (GameInfo × Player)
  unfolding member
  joined plr (ok found) = member found plr
  joined plr (err e) =
      if is_not_found e || is_bad_request e
      then err (wrap not_found "game")
      else err (wrap e "fetching game info")

  -- `LogPlayerIn`
  unfoldable pub log_player_in : String → String → redis.Store → Answer (GameInfo × Player)
  unfolding joined
  log_player_in game_id username s = elim (get_by_username redis scan username s) [
    | err e ↦
        if is_not_found e then err (wrap not_found "player") else err (wrap e "getting player")
    | ok plr ↦ joined plr (get_info game_id s)
  ]
