-- ===== src/Common/Bytes/Slices.antt =====
-- Prefixes and slices of appended bytes.
use Prim.Native.Nat.{ℕ, ◌-◌, ◌≤◌}
use mathlib.Core.Bool.{true}
use mathlib.Core.List.{[], ◌∷◌, ◌++◌}
use mathlib.Core.Option.{some}
use mathlib.Core.Path.{◌≡◌, refl, ap}
use native.Mathlib.Omega.{arith}
use shadowroller.Common.Bytes.{Bytes, drop, slice, has_prefix, same}
use shadowroller.Common.Int.{pos}
use shadowroller.Common.Lists.{length, take}

pub take-append : (s t : Bytes) → take (length s) (s ++ t) ≡ s
take-append [] t = refl
take-append (b ∷ s) t = ap (◌∷◌ b) (take-append s t)

pub take-length : (s : Bytes) → take (length s) s ≡ s
take-length [] = refl
take-length (b ∷ s) = ap (◌∷◌ b) (take-length s)

-- A slice that is in range.
pub slice-some :
    (s t : Bytes) (lo hi : ℕ)
    → slice s (pos lo) (pos hi) ≡ some t
    → (lo ≤ hi) × (hi ≤ length s) × (t ≡ take (hi - lo) (drop lo s))
unfolding slice
slice-some s t lo hi e = ground arith

pub has_prefix-append : (s p : Bytes) → has_prefix s p ≡ true → (r : Bytes) × (s ≡ p ++ r)
unfolding has_prefix
has_prefix-append s [] e = (s, refl)
has_prefix-append [] (b ∷ p) e = ground arith
has_prefix-append (a ∷ s) (b ∷ p) e =
    let (r, q) = has_prefix-append s p (ground arith) in
    let same_head : a ≡ b = ground arith in (r, cc)

pub has_prefix-shorter :
    (s t p : Bytes) → length p ≤ length s → has_prefix (s ++ t) p ≡ true → has_prefix s p ≡ true
unfolding has_prefix
has_prefix-shorter s t [] h e = refl
has_prefix-shorter [] t (b ∷ p) h e = ground arith
has_prefix-shorter (a ∷ s) t (b ∷ p) h e =
    ground (arith, has_prefix-shorter s t p (ground arith) (ground arith))

pub same-≡ : (s t : Bytes) → same s t ≡ true → s ≡ t
same-≡ [] [] e = refl
same-≡ [] (b ∷ t) e = ground arith
same-≡ (a ∷ s) [] e = ground arith
same-≡ (a ∷ s) (b ∷ t) e =
    let tails = same-≡ s t (ground arith) in let heads : a ≡ b = ground arith in cc
