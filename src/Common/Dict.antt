-- ===== src/Common/Dict.antt =====
-- Go's `map[string]V` as an association list: one entry for each key that was assigned.
use Prim.Native.String.{String}
use mathlib.Core.Bool.{Bool, true, false, ◌&&◌}
use mathlib.Core.List.{List, [], ◌∷◌}
use mathlib.Core.Option.{Option, none, some}
use mathlib.Core.Path.{◌≡◌, refl}
use native.Mathlib.Omega.{arith}
use text.Mathlib.Text.{◌==◌ as str_eq}
use text.Mathlib.TextEquality.{eq_iff}
use shadowroller.Common.Tests.{if◌then◌else◌}

abbrev pub Dict {ℓ} : Type ℓ → Type ℓ
Dict V = List (String × V)

module _ {ℓ} {V : Type ℓ} where
  -- `m[key]`, with the flag of the second result.
  unfoldable pub lookup : String → Dict V → Option V
  lookup key [] = none
  lookup key ((k, v) ∷ m) = if str_eq k key then some v else lookup key m

  -- `m[key] = v`
  unfoldable pub assign : String → V → Dict V → Dict V
  assign key v [] = (key, v) ∷ []
  assign key v ((k, w) ∷ m) = if str_eq k key then (key, v) ∷ m else (k, w) ∷ assign key v m

  pub lookup-assign :
      (key other : String) (v : V) (m : Dict V)
      → lookup other (assign key v m) ≡ (if str_eq key other then some v else lookup other m)
  unfolding lookup assign
  lookup-assign key other v [] = refl
  lookup-assign key other v ((k, w) ∷ m) =
      ground (arith, eq_iff key other, eq_iff k key, eq_iff k other, lookup-assign key other v m)

  abbrev is_missing : Option V → Bool
  is_missing none = true
  is_missing (some v) = false

  -- No key is there twice.
  unfoldable pub distinct : Dict V → Bool
  unfolding lookup
  distinct [] = true
  distinct ((k, v) ∷ m) = is_missing (lookup k m) && distinct m

  -- The same entries, in whatever order.
  abbrev pub SameFields : Dict V → Dict V → Type ℓ
  SameFields m m' = (key : String) → lookup key m ≡ lookup key m'

  -- There is an entry.
  abbrev pub has_fields : Dict V → Bool
  has_fields [] = false
  has_fields (entry ∷ m) = true

  pub lookup-has_fields :
      (key : String) (v : V) (m : Dict V) → lookup key m ≡ some v → has_fields m ≡ true
  unfolding lookup
  lookup-has_fields key v [] e = cc
  lookup-has_fields key v (entry ∷ m) e = refl
