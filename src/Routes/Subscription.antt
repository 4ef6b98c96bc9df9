-- ===== src/Routes/Subscription.antt =====
-- server/routes/gameSubscription.go: which updates are written to a player's stream.
use shadowroller.Common.{Bool, true, false, ◌&&◌, List, [], ◌∷◌, String, str_eq, if◌then◌else◌}
use shadowroller.Update.Filter.{parse_exclude}
use shadowroller.Game.Share.{Message}
use shadowroller.Game.Subscribe.{PubSub, channels}

-- The inner text, and whether to send it.
unfoldable pub should_send_update : Message → String → Bool → String × Bool
should_send_update message player_id is_gm =
    let e = parse_exclude message.payload in
    if e.found
    then if str_eq e.exclude_id player_id
      then (e.inner, false)
      else if is_gm && e.exclude_gms
      then (e.inner, false)
      else (e.inner, true)
    else (e.inner, true)

-- The loop of `handleSubscription` over the updates, while the stream is open and writable: the
-- texts that are written.
unfoldable pub write_updates : String → Bool → List Message → List String
write_updates player_id is_gm [] = []
write_updates player_id is_gm (m ∷ ms) =
    let (inner, should_send) = should_send_update m player_id is_gm in
    if should_send
    then inner ∷ write_updates player_id is_gm ms
    else write_updates player_id is_gm ms

-- What a subscribed player is sent of the messages that are published.
unfoldable pub received : PubSub → String → String → Bool → List Message → List String
received pubsub game_id player_id is_gm ms =
    write_updates player_id is_gm (pubsub.deliver (channels game_id player_id is_gm) ms)
