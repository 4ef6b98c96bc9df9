-- ===== src/Game/Subscribe.antt =====
-- server/game/subscribe.go: the channels of a player's subscription. Redis' publish and subscribe
-- is the parameter `PubSub`.
pub mod Members
use shadowroller.Common.{◌≡◌, Bool, true, false, ◌||◌, List, [], ◌∷◌, String, str_eq, if◌then◌else◌}
use shadowroller.Game.Share.{Message, game_channel, player_channel, gms_channel}

unfoldable pub channels : String → String → Bool → List String
channels game_id player_id is_gm =
    game_channel game_id
    ∷ player_channel game_id player_id
    ∷ (if is_gm then gms_channel game_id ∷ [] else [])

abbrev pub contains : String → List String → Bool
contains a [] = false
contains a (b ∷ bs) = str_eq a b || contains a bs

-- What a subscriber of the given channels receives of the messages that are published while it is
-- subscribed: those of its channels, each once, in the order of publishing.
pub record PubSub : Type 0 where
  pub deliver : List String → List Message → List Message
  pub deliver-nil : (subs : List String) → deliver subs [] ≡ []
  pub deliver-cons :
      (subs : List String) (m : Message) (ms : List Message)
      → deliver subs (m ∷ ms)
        ≡ (if contains m.channel subs then m ∷ deliver subs ms else deliver subs ms)
