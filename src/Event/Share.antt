-- ===== src/Event/Share.antt =====
-- server/event/share.go: who may see an event.
use shadowroller.Common.{
  Bool, true, false, ◌||◌, String, str_eq, if◌then◌else◌, ℤ, pos, eqb_ℤ, ◌≡◌, ◌⊎◌, ◌↔◌, arith,
  eq_iff, inl, inr, Bool-cases,
}

abbrev pub share_in_game : ℤ
share_in_game = pos 0

abbrev pub share_private : ℤ
share_private = pos 1

abbrev pub share_gms : ℤ
share_gms = pos 2

-- `String()`
unfoldable pub to_string : ℤ → String
to_string a =
    if eqb_ℤ a share_in_game
    then "inGame"
    else if eqb_ℤ a share_private
    then "private"
    else if eqb_ℤ a share_gms
    then "gms"
    else "unknown"

-- `ShareFromString`
unfoldable pub from_string : String → ℤ × Bool
from_string share =
    if str_eq share "inGame"
    then (share_in_game, true)
    else if str_eq share "private"
    then (share_private, true)
    else if str_eq share "gms"
    then (share_gms, true)
    else (share_in_game, false)

unfoldable pub is_share : ℤ → Bool
is_share share = eqb_ℤ share share_in_game || eqb_ℤ share share_private || eqb_ℤ share share_gms

-- The three share states.
abbrev pub IsShare : ℤ → Type 0
IsShare share = (share ≡ share_in_game) ⊎ (share ≡ share_private) ⊎ (share ≡ share_gms)

pub is_share_iff : (share : ℤ) → (is_share share ≡ true) ↔ IsShare share
unfolding is_share
is_share_iff share = ground arith

to_string_unknown : (share : ℤ) → is_share share ≡ false → to_string share ≡ "unknown"
unfolding is_share to_string
to_string_unknown share h = ground arith

from_to : (share : ℤ) → IsShare share → from_string (to_string share) ≡ (share, true)
unfolding from_string to_string
from_to share (inl e) = rw e
from_to share (inr (inl e)) = rw e
from_to share (inr (inr e)) = rw e

known_of_from_to :
    (share : ℤ) → from_string (to_string share) ≡ (share, true) → is_share share ≡ true
unfolding from_string
known_of_from_to share h = elim (Bool-cases (is_share share)) [
  | inl e ↦ e
  | inr e ↦ cc (rw (to_string_unknown share e) at h)
]

to_from : (share : ℤ) (text : String) → from_string text ≡ (share, true) → to_string share ≡ text
unfolding from_string to_string
to_from share text h =
    ground (arith, eq_iff text "inGame", eq_iff text "private", eq_iff text "gms")

-- A share state and its text determine one another: exactly the three states have a text that
-- `ShareFromString` takes and reads back as that state, and a text that it takes is the text of
-- the state that it returns.
pub from_string-to_string :
    (share : ℤ) (text : String)
    → ((is_share share ≡ true) ↔ (from_string (to_string share) ≡ (share, true)))
      × ((from_string text ≡ (share, true)) → (to_string share ≡ text))
from_string-to_string share text =
    ((λ h. from_to share ((is_share_iff share).0 h), known_of_from_to share), to_from share text)
