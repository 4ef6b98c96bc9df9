-- ===== src/Common/Text.antt =====
-- What the server uses of Go's `strings`, over texts as lists of code points; a separator is the
-- code of one ASCII character.
use Prim.Native.Char.{Char, code}
use Prim.Native.Nat.{ℕ}
use Prim.Native.String.{String, ◌++◌, [], ◌∷◌}
use mathlib.Core.List.{List, [], ◌∷◌}
use mathlib.Core.Logic.{◌≢◌}
use mathlib.Core.Option
use mathlib.Core.Option.{Option, none, some}
use mathlib.Core.Path.{◌≡◌, refl, ap, ◌∙◌}
use mathlib.Core.Bool.{false}
use native.Mathlib.Omega.{arith}
use text.Mathlib.Text.{◌==◌ as str_eq}
use text.Mathlib.TextEquality.{eq_iff}
use text.Mathlib.TextLemmas.{nil-append, cons-append}
use shadowroller.Common.Lists.{All}
use shadowroller.Common.Tests.{◌==◌, ==_self, ==_of_ne, if◌then◌else◌}

abbrev prepend : Char → String × String → String × String
prepend c (a, b) = (c ∷ a, b)

-- `strings.SplitN(s, sep, 2)`: `none` if there is no separator, and so one part.
unfoldable pub split_once : ℕ → String → Option (String × String)
split_once sep [] = none
split_once sep (c ∷ s) =
    if code c == sep then some ("", s) else Option.map (prepend c) (split_once sep s)

abbrev prepend_first : Char → List String → List String
prepend_first c [] = (c ∷ []) ∷ []
prepend_first c (part ∷ parts) = (c ∷ part) ∷ parts

-- `strings.Split(s, sep)`.
unfoldable pub split : ℕ → String → List String
split sep [] = "" ∷ []
split sep (c ∷ s) = if code c == sep then "" ∷ split sep s else prepend_first c (split sep s)

-- `strings.Join(parts, sep)`.
unfoldable pub join : Char → List String → String
join sep [] = ""
join sep (part ∷ []) = part
join sep (part ∷ next ∷ parts) = part ++ (sep ∷ join sep (next ∷ parts))

-- The text has no character of that code.
abbrev pub Without : ℕ → String → Type 0
Without sep [] = Unit
Without sep (c ∷ s) = (code c ≢ sep) × Without sep s

pub split_once-append :
    (sep : Char) (a b : String)
    → Without (code sep) a
    → split_once (code sep) (a ++ (sep ∷ b)) ≡ some (a, b)
unfolding split_once
split_once-append sep [] b h = rw (nil-append (sep ∷ b), split_once, ==_self (code sep))
split_once-append sep (c ∷ a) b (n, h) = rw (
  cons-append c a (sep ∷ b),
  split_once,
  ==_of_ne (code c) (code sep) n,
  split_once-append sep a b h,
)

split-append :
    (sep : Char) (a b : String)
    → Without (code sep) a
    → split (code sep) (a ++ (sep ∷ b)) ≡ a ∷ split (code sep) b
unfolding split
split-append sep [] b h = rw (nil-append (sep ∷ b), split, ==_self (code sep))
split-append sep (c ∷ a) b (n, h) =
    rw (cons-append c a (sep ∷ b), split, ==_of_ne (code c) (code sep) n, split-append sep a b h)

split-Without : (sep : Char) (a : String) → Without (code sep) a → split (code sep) a ≡ a ∷ []
unfolding split
split-Without sep [] h = refl
split-Without sep (c ∷ a) (n, h) = rw (==_of_ne (code c) (code sep) n, split-Without sep a h)

-- Splitting undoes joining, where there is a part and no part holds the separator.
pub split-join :
    (sep : Char) (part : String) (parts : List String)
    → All (Without (code sep)) (part ∷ parts)
    → split (code sep) (join sep (part ∷ parts)) ≡ part ∷ parts
unfolding join
split-join sep part [] h = split-Without sep part h.0
split-join sep part (next ∷ parts) h =
    split-append sep part (join sep (next ∷ parts)) h.0
    ∙ ap (◌∷◌ part) (split-join sep next parts h.1)

Without-append : (sep : ℕ) (a b : String) → Without sep a → Without sep b → Without sep (a ++ b)
Without-append sep [] b h k = rw (nil-append b) k
Without-append sep (c ∷ a) b (n, h) k = rw (cons-append c a b) (n, Without-append sep a b h k)

pub Without-join :
    (sep : ℕ) (by : Char) (parts : List String)
    → code by ≢ sep
    → All (Without sep) parts
    → Without sep (join by parts)
unfolding join
Without-join sep by [] n h = tt
Without-join sep by (part ∷ []) n h = h.0
Without-join sep by (part ∷ next ∷ parts) n h =
    Without-append sep part _ h.0 (n, Without-join sep by (next ∷ parts) n h.1)

pub differ : (s t : String) → str_eq s t ≡ false → s ≢ t
differ s t h e = ground (arith, eq_iff s t)
