-- ===== src/Event/Scan.antt =====
-- server/event/events.go: the values that are taken from an event's text by regular expressions,
-- and ValidID of server/event/event.go. `regexp` and `strconv.Atoi` are parameters.
use Prim.Native.Char.{code}
use text.Mathlib.TextLemmas.{nil≢cons}
use shadowroller.Common.{
  ℕ, ◌+◌, ◌-◌, ◌*◌, ◌^◌, ◌≤◌, ◌≡◌, ◌≢◌, ◌⊎◌, inl, inr, Bool, true, false, ◌&&◌, List, [], ◌∷◌,
  Option, none, some, Option-cases, sym, String, length, leb, ltb, ◌==◌, if◌then◌else◌, ℤ, negsuc,
  arith,
}
use shadowroller.Event.Share.{is_share}

-- `FindStringSubmatch` of the three compiled expressions, the empty list for nil, and
-- `strconv.Atoi` with the flag of an error. Each expression has one group, so a match has the
-- text of the whole and of the group.
pub record Scanner : Type 0 where
  pub find_ty : String → List String
  pub find_id : String → List String
  pub find_share : String → List String
  pub atoi : String → ℤ × Bool
  pub find_share_groups : (s : String) → (find_share s ≡ []) ⊎ (length (find_share s) ≡ 2)

-- The group of a match with two texts.
group_or : String → List String → String
group_or missing (whole ∷ group ∷ []) = group
group_or missing _ = missing

-- `match[1]`; `none` is the panic at an index out of range.
second : List String → Option String
second (whole ∷ group ∷ groups) = some group
second _ = none

-- The branches of `ParseShare` on its match.
share_of : Scanner → List String → Option (ℤ × Bool)
unfolding second
share_of sc groups =
    if length groups == 1
    then elim (second groups) [
      | none ↦ none
      | some group ↦
          let (share, failed) = sc.atoi group in
          if failed then some (share, is_share share) else some (negsuc 0, false)
    ]
    else some (negsuc 0, false)

unfoldable pub parse_ty : Scanner → String → String
unfolding group_or
parse_ty sc event = group_or "??" (sc.find_ty event)

unfoldable pub parse_id : Scanner → String → String
unfolding group_or
parse_id sc event = group_or "????????" (sc.find_id event)

-- `none` is a panic.
unfoldable pub parse_share : Scanner → String → Option (ℤ × Bool)
unfolding share_of
parse_share sc event = share_of sc (sc.find_share event)

-- `ParseShare` never panics and never finds a share: whatever the text, it returns -1 and false.
pub parse_share_never :
    (sc : Scanner) (event : String) → parse_share sc event ≡ some (negsuc 0, false)
unfolding parse_share
parse_share_never sc event = elim (sc.find_share_groups event) [ inl e ↦ rw e | inr e ↦ rw e ]

is_digit : ℕ → Bool
is_digit c = leb b'0' c && leb c b'9'

-- `strconv.ParseUint(id, 10, 64)` without an error: decimal digits, and a value below 2 ^ 64.
unfoldable pub parse_digits : String → ℕ → Option ℕ
unfolding is_digit
parse_digits String.[] n = some n
parse_digits (String.◌∷◌ c s) n =
    if is_digit (code c) then parse_digits s (n * 10 + (code c - b'0')) else none

in_range : Option ℕ → Bool
in_range none = false
in_range (some n) = ltb n (2 ^ 64)

unfoldable pub valid_id : String → Bool
unfolding in_range
valid_id String.[] = false
valid_id (String.◌∷◌ c s) = in_range (parse_digits (String.◌∷◌ c s) 0)

abbrev pub AllDigits : String → Type 0
AllDigits String.[] = Unit
AllDigits (String.◌∷◌ c s) = (b'0' ≤ code c) × (code c ≤ b'9') × AllDigits s

parse_digits-AllDigits : (s : String) (m n : ℕ) → parse_digits s m ≡ some n → AllDigits s
unfolding parse_digits
parse_digits-AllDigits String.[] m n h = tt
parse_digits-AllDigits (String.◌∷◌ c s) m n h =
    ground (arith, parse_digits-AllDigits s (m * 10 + (code c - b'0')) n)

-- A valid id is a text of decimal digits, at least one.
pub valid_id-AllDigits : (id : String) → valid_id id ≡ true → AllDigits id × (id ≢ "")
unfolding valid_id
valid_id-AllDigits String.[] h = cc
valid_id-AllDigits (String.◌∷◌ c s) h = elim (Option-cases (parse_digits (String.◌∷◌ c s) 0)) [
  | inl e ↦ cc (rw (e, in_range) at h)
  | inr (n, e) ↦ (parse_digits-AllDigits (String.◌∷◌ c s) 0 n e, λ q. nil≢cons (sym q))
]
