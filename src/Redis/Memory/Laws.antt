-- ===== src/Redis/Memory/Laws.antt =====
-- The hashes of the client in memory.
use Prim.Native.String.{◌++◌}
use text.Mathlib.TextLemmas.{append_cancel_left}
use shadowroller.Common.{
  ◌≡◌, refl, ap, Bool, true, false, [], ◌∷◌, Option, none, String, str_eq, eq_iff, arith,
  if◌then◌else◌,
}
use shadowroller.Common.Dict.{Dict, lookup}
use shadowroller.Game.Share.Channels.{eq_of_iff}
use shadowroller.Redis.Memory.{Memory, or_empty, without, stored_fields}

pub str_eq-append : (p a b : String) → str_eq (p ++ a) (p ++ b) ≡ str_eq a b
str_eq-append p a b = eq_of_iff _ _ (
  λ h. (eq_iff a b).1 (append_cancel_left p a b ((eq_iff _ _).0 h)),
  λ h. (eq_iff _ _).1 (ap (λ x. p ++ x) ((eq_iff a b).0 h)),
)

pub lookup-without :
    {V : Type 0} (key other : String) (m : Dict V)
    → lookup other (without key m) ≡ (if str_eq key other then none else lookup other m)
unfolding lookup
lookup-without key other [] = ground arith
lookup-without key other ((k, v) ∷ m) =
    ground (arith, eq_iff key other, eq_iff k key, eq_iff k other, lookup-without key other m)

pub or_empty_if :
    (b : Bool) (x y : Option (Dict String))
    → or_empty (if b then x else y) ≡ (if b then or_empty x else or_empty y)
or_empty_if true x y = refl
or_empty_if false x y = refl

pub stored_fields_new : (fields old : Dict String) → old ≡ [] → stored_fields fields old ≡ fields
stored_fields_new fields old e = ap (stored_fields fields) e

unfoldable pub hashes_of : String → Memory → Dict String
hashes_of key m = or_empty (lookup key m.hashes)
