-- ===== src/Common/Bytes/Cuts.antt =====
-- Bytes cut at the last separator, and the elements of a valid path.
use Prim.Native.Nat.{ℕ}
use mathlib.Core.Bool.{Bool, true, false}
use mathlib.Core.List.{List, [], ◌∷◌, ◌++◌}
use mathlib.Core.Logic.{◌≢◌}
use mathlib.Core.Option.{Option, none, some}
use mathlib.Core.Path.{◌≡◌, refl, ap, sym, ◌∙◌}
use native.Mathlib.Omega.{arith}
use shadowroller.Common.Bytes.{
  Bytes, cut_last, split_at, extend_first, trim, trim_left, trim_right, or_nothing, is_element,
  all_elements,
}
use shadowroller.Common.Tests.{◌==◌, ==_self, ==_of_ne, if◌then◌else◌}

abbrev pub Without : ℕ → Bytes → Type 0
Without sep [] = Unit
Without sep (b ∷ s) = (b ≢ sep) × Without sep s

abbrev pub IsCut : ℕ → Bytes → Option (Bytes × Bytes) → Type 0
IsCut sep s none = Without sep s
IsCut sep s (some (before, after)) = (s ≡ before ++ (sep ∷ after)) × Without sep after

IsCut-here :
    (sep b : ℕ) (s : Bytes) (o : Option (Bytes × Bytes)) (test : Bool)
    → (b == sep) ≡ test
    → IsCut sep s o
    → IsCut sep (b ∷ s) (elim o [
      | some (before, after) ↦ some (b ∷ before, after)
      | none ↦ if test then some ([], s) else none
    ])
IsCut-here sep b s none true e h = (ap (λ x. x ∷ s) (ground arith), h)
IsCut-here sep b s none false e h = (λ q. ground arith, h)
IsCut-here sep b s (some (before, after)) test e (q, h) = (ap (◌∷◌ b) q, h)

pub cut_last-IsCut : (sep : ℕ) (s : Bytes) → IsCut sep s (cut_last sep s)
unfolding cut_last
cut_last-IsCut sep [] = tt
cut_last-IsCut sep (b ∷ s) =
    IsCut-here sep b s (cut_last sep s) (b == sep) refl (cut_last-IsCut sep s)

split_at-Without : (sep : ℕ) (s : Bytes) → Without sep s → split_at sep s ≡ s ∷ []
unfolding split_at
split_at-Without sep [] h = refl
split_at-Without sep (b ∷ s) (n, h) = rw (==_of_ne b sep n, split_at-Without sep s h)

abbrev rest : List Bytes → List Bytes
rest [] = []
rest (e ∷ es) = es

all_elements-rest : (es : List Bytes) → all_elements es ≡ true → all_elements (rest es) ≡ true
all_elements-rest [] h = refl
all_elements-rest (e ∷ es) h = ground arith

rest-extend_first : (b : ℕ) (es : List Bytes) → rest (extend_first b es) ≡ rest es
rest-extend_first b [] = refl
rest-extend_first b (e ∷ es) = refl

alone : (f : Bytes) (es : List Bytes) → es ≡ f ∷ [] → all_elements es ≡ true → is_element f ≡ true
alone f es e h =
    let all : all_elements (f ∷ []) ≡ true = ap all_elements (sym e) ∙ h in ground arith

rest-step :
    (test : Bool) (c : ℕ) (es : List Bytes)
    → all_elements (rest (if test then [] ∷ es else extend_first c es)) ≡ true
    → all_elements (rest es) ≡ true
rest-step true c es h = all_elements-rest es h
rest-step false c es h = rw (rest-extend_first c es) at h

-- The part behind a separator is an element, where all but the first part are.
split_at-rest :
    (sep : ℕ) (a f : Bytes)
    → Without sep f
    → all_elements (rest (split_at sep (a ++ (sep ∷ f)))) ≡ true
    → is_element f ≡ true
unfolding split_at
split_at-rest sep [] f n h =
    alone f (split_at sep f) (split_at-Without sep f n) (rw (==_self sep) at h)
split_at-rest sep (c ∷ a) f n h =
    split_at-rest sep a f n (rest-step (c == sep) c (split_at sep (a ++ (sep ∷ f))) h)

trim-step :
    (test : Bool) (sep c g : ℕ) (a f : Bytes)
    → Without sep (g ∷ f)
    → (all_elements (split_at sep (trim_left sep (a ++ (sep ∷ g ∷ f)))) ≡ true
        → is_element (g ∷ f) ≡ true)
    → (c == sep) ≡ test
    → all_elements (
        split_at sep
          (if test then trim_left sep (a ++ (sep ∷ g ∷ f)) else c ∷ (a ++ (sep ∷ g ∷ f))))
      ≡ true
    → is_element (g ∷ f) ≡ true
trim-step true sep c g a f n again e h = again h
trim-step false sep c g a f n again e h =
    split_at-rest sep (c ∷ a) (g ∷ f) n
      (all_elements-rest (split_at sep (c ∷ (a ++ (sep ∷ g ∷ f)))) h)

-- So is the part behind a separator, where separators in front are trimmed.
trim_left-element :
    (sep g : ℕ) (a f : Bytes)
    → Without sep (g ∷ f)
    → all_elements (split_at sep (trim_left sep (a ++ (sep ∷ g ∷ f)))) ≡ true
    → is_element (g ∷ f) ≡ true
unfolding trim_left
trim_left-element sep g [] f (n, m) h =
    alone (g ∷ f) (split_at sep (g ∷ f)) (split_at-Without sep (g ∷ f) (n, m))
      (rw (==_self sep, ==_of_ne g sep n) at h)
trim_left-element sep g (c ∷ a) f n h =
    trim-step (c == sep) sep c g a f n (trim_left-element sep g a f n) refl h

or_nothing-append :
    (sep c g : ℕ) (a f : Bytes) → or_nothing sep c (a ++ (g ∷ f)) ≡ c ∷ (a ++ (g ∷ f))
or_nothing-append sep c g [] f = refl
or_nothing-append sep c g (b ∷ a) f = refl

trim_right-append :
    (sep g : ℕ) (a f : Bytes)
    → trim_right sep (g ∷ f) ≡ g ∷ f
    → trim_right sep (a ++ (g ∷ f)) ≡ a ++ (g ∷ f)
unfolding trim_right
trim_right-append sep g [] f h = h
trim_right-append sep g (c ∷ a) f h =
    ap (or_nothing sep c) (trim_right-append sep g a f h) ∙ or_nothing-append sep c g a f

-- A part behind a separator that ends without one is an element, where the trimmed text's parts are.
pub trim-element :
    (sep g : ℕ) (a f : Bytes)
    → Without sep (g ∷ f)
    → trim_right sep (sep ∷ g ∷ f) ≡ sep ∷ g ∷ f
    → all_elements (split_at sep (trim sep (a ++ (sep ∷ g ∷ f)))) ≡ true
    → is_element (g ∷ f) ≡ true
unfolding trim
trim-element sep g a f n kept h =
    trim_left-element sep g a f n (rw (sym (trim_right-append sep sep a (g ∷ f) kept)) h)
