-- ===== src/Action/Reads.antt =====
-- Actions that change nothing: a step that fails before a handler's last one leaves what is stored.
use shadowroller.Common.{◌≡◌, refl, ap, ◌⊎◌, inl, inr, Bool, true, false, if◌then◌else◌}
use shadowroller.Errs.{Err}
use shadowroller.Errs.Answer.{Answer, ok, err}
use shadowroller.Http.Halt.{Panic}
use shadowroller.Action.{Action, Result, done, ended, ◌>>=◌, ◌>>◌, or_panic, pure, panic}

-- At this state, the action changes nothing, and if it is done its value has the property.
abbrev pub Reads : {S A : Type 0} → (A → Type 0) → Action S A → S → Type 0
Reads {A = A} P m s = ((m s).1 ≡ s) × ((a : A) → (m s).0 ≡ done a → P a)

module _ {S A B : Type 0} where
  after :
      (k : A → Action S B) (s : S) {Q : Type 0} (r : Result A) (s' : S)
      → s' ≡ s
      → ((a : A) → r ≡ done a → ((k a s).1 ≡ s) ⊎ Q)
      → ((((λ t. (r, s')) >>= k) s).1 ≡ s) ⊎ Q
  unfolding ◌>>=◌
  after k s (done a) s' e h = rw e (h a refl)
  after k s (ended p) s' e h = inl e

  -- What is stored stays, unless the first action is done and then the second changes something.
  pub untouched :
      (P : A → Type 0) (m : Action S A) (k : A → Action S B) (s : S) {Q : Type 0}
      → Reads P m s
      → ((a : A) → P a → ((k a s).1 ≡ s) ⊎ Q)
      → (((m >>= k) s).1 ≡ s) ⊎ Q
  unfolding ◌>>=◌
  untouched P m k s (same, holds) h = after k s (m s).0 (m s).1 same (λ a e. h a (holds a e))

  after-Reads :
      (P : A → Type 0) (Q : B → Type 0) (k : A → Action S B) (s : S) (r : Result A) (s' : S)
      → s' ≡ s
      → ((a : A) → r ≡ done a → P a)
      → ((a : A) → P a → Reads Q (k a) s)
      → Reads Q ((λ t. (r, s')) >>= k) s
  unfolding ◌>>=◌
  after-Reads P Q k s (done a) s' e h g = rw e (g a (h a refl))
  after-Reads P Q k s (ended p) s' e h g = (e, λ b d. cc)

  pub Reads-then :
      (P : A → Type 0) (Q : B → Type 0) (m : Action S A) (k : A → Action S B) (s : S)
      → Reads P m s
      → ((a : A) → P a → Reads Q (k a) s)
      → Reads Q (m >>= k) s
  unfolding ◌>>=◌
  Reads-then P Q m k s (same, holds) g = after-Reads P Q k s (m s).0 (m s).1 same holds g

  -- A step that is done, and one that has ended.
  pub then_done :
      (m : Action S A) (k : A → Action S B) (s : S) (a : A) (s' : S)
      → m s ≡ (done a, s')
      → (m >>= k) s ≡ k a s'
  unfolding ◌>>=◌
  then_done m k s a s' e = rw (◌>>=◌, e) (ap (λ x. k a x.1) e)

  pub then_ended :
      (m : Action S A) (k : A → Action S B) (s : S) (p : Panic) (s' : S)
      → m s ≡ (ended p, s')
      → (m >>= k) s ≡ (ended p, s')
  unfolding ◌>>=◌
  then_ended m k s p s' e = rw (◌>>=◌, e) (ap (λ x. (ended p, x.1)) e)

pub or_panic-Reads :
    {S A : Type 0} (on_error : Err → Panic) (x : Answer A) (s : S)
    → Reads (λ a. x ≡ ok a) (or_panic on_error x) s
or_panic-Reads on_error (ok a) s = (refl, λ b e. cc)
or_panic-Reads on_error (err e) s = (refl, λ b q. cc)

module _ {S A B : Type 0} where
  after_cases :
      (P : A → Type 0) (k : A → Action S B) (s : S) (r : Result A) (s' : S)
      → s' ≡ s
      → ((a : A) → r ≡ done a → P a)
      → ((((λ t. (r, s')) >>= k) s).1 ≡ s) ⊎ ((a : A) × P a × (((λ t. (r, s')) >>= k) s ≡ k a s))
  unfolding ◌>>=◌
  after_cases P k s (done a) s' e h = inr (a, h a refl, ap (k a) e)
  after_cases P k s (ended p) s' e h = inl e

  -- What is stored stays, unless the first action is done, and then the second runs.
  pub Reads-cases :
      (P : A → Type 0) (m : Action S A) (k : A → Action S B) (s : S)
      → Reads P m s
      → (((m >>= k) s).1 ≡ s) ⊎ ((a : A) × P a × ((m >>= k) s ≡ k a s))
  unfolding ◌>>=◌
  Reads-cases P m k s (same, holds) = after_cases P k s (m s).0 (m s).1 same holds

  reached :
      (k : A → Action S B) (s : S) (x : Result B × S) (Q : S → Type 0) (a : A)
      → x ≡ k a s
      → ((k a s).1 ≡ s) ⊎ Q (k a s).1
      → (x.1 ≡ s) ⊎ Q x.1
  reached k s x Q a e h = rw e h

  -- The same, with a property of what is stored in the end.
  pub untouched_or :
      (P : A → Type 0) (m : Action S A) (k : A → Action S B) (s : S) (Q : S → Type 0)
      → Reads P m s
      → ((a : A) → P a → ((k a s).1 ≡ s) ⊎ Q (k a s).1)
      → (((m >>= k) s).1 ≡ s) ⊎ Q ((m >>= k) s).1
  untouched_or P m k s Q reads h = elim (Reads-cases P m k s reads) [
    | inl e ↦ inl e
    | inr (a, p, e) ↦ reached k s ((m >>= k) s) Q a e (h a p)
  ]

-- An action that is only followed by a value leaves what it leaves.
pub kept_state : {S A B : Type 0} (m : Action S A) (b : B) (s : S) → ((m >> pure b) s).1 ≡ (m s).1
unfolding ◌>>=◌
kept_state {S} {A} {B} m b s =
    elim (m s).0
      as (λ r.
        (elim r as (λ x. Result B × S) [
          | done a ↦ (done b, (m s).1)
          | ended p ↦ (ended p, (m s).1)
        ]).1
        ≡ (m s).1) [ done a ↦ refl | ended p ↦ refl ]

done_injective : {A : Type 0} {a b : A} → done a ≡ done b → a ≡ b
done_injective e = cc

module _ {S A : Type 0} (P : A → Type 0) where
  pub pure-Reads : (a : A) (s : S) → P a → Reads P (pure a) s
  pure-Reads a s h = (refl, λ b e. rw (← done_injective e) h)

  pub panic-Reads : (p : Panic) (s : S) → Reads P (panic p) s
  panic-Reads p s = (refl, λ b e. cc)

  pub if-Reads :
      (b : Bool) (m k : Action S A) (s : S)
      → (b ≡ true → Reads P m s)
      → Reads P k s
      → Reads P (if b then m else k) s
  if-Reads true m k s h g = h refl
  if-Reads false m k s h g = g
