-- ===== src/Game/Share/Channels.antt =====
-- server/game/eventShare.go: the channels of one game are told apart, as long as no player has the
-- id "gms".
use Prim.Native.String.{String, ◌++◌}
use text.Mathlib.TextLemmas.{append_cancel_left, append-nil, nil≢cons, cons-append}
use shadowroller.Common.{◌≡◌, ap, ◌∙◌, ◌≢◌, ◌↔◌, Bool, true, false, str_eq, eq_iff, arith}
use shadowroller.Game.Share.{game_channel, player_channel, gms_channel}

pub eq_of_iff : (a b : Bool) → ((a ≡ true) ↔ (b ≡ true)) → a ≡ b
eq_of_iff a b h = ground arith

pub str_eq_of_ne : (s t : String) → s ≢ t → str_eq s t ≡ false
str_eq_of_ne s t h = ground (arith, eq_iff s t)

longer : (g p : String) → g ≢ g ++ (":" ++ p)
longer g p e =
    nil≢cons (append_cancel_left g "" (":" ++ p) (append-nil g ∙ e) ∙ cons-append ":" "" p)

pub game-ne-player : (g p : String) → game_channel g ≢ player_channel g p
unfolding game_channel player_channel
game-ne-player g p e = longer g p (append_cancel_left "update:" g _ e)

pub game-ne-gms : (g : String) → game_channel g ≢ gms_channel g
unfolding game_channel gms_channel
game-ne-gms g e = longer g "gms" (append_cancel_left "update:" g _ e)

pub player-ne-gms : (g p : String) → p ≢ "gms" → player_channel g p ≢ gms_channel g
unfolding player_channel gms_channel
player-ne-gms g p h e = h (
    append_cancel_left ":" p "gms"
      (append_cancel_left g (":" ++ p) ":gms" (append_cancel_left "update:" _ _ e)))

pub player-injective : (g p q : String) → player_channel g p ≡ player_channel g q → p ≡ q
unfolding player_channel
player-injective g p q e =
    append_cancel_left ":" p q
      (append_cancel_left g (":" ++ p) (":" ++ q) (append_cancel_left "update:" _ _ e))

pub str_eq-player : (g p q : String) → str_eq (player_channel g p) (player_channel g q) ≡ str_eq p q
str_eq-player g p q = eq_of_iff _ _ (
  λ h. (eq_iff p q).1 (player-injective g p q ((eq_iff _ _).0 h)),
  λ h. (eq_iff _ _).1 (ap (player_channel g) ((eq_iff p q).0 h)),
)
