-- ===== src/Action.antt =====
-- A step of a request's handling: it may change what is stored, and it may panic. A panic ends the
-- request, and what was stored before it stays.
pub mod Reads
pub mod Yields
use shadowroller.Common.{Bool, true, false, Option, none, some}
use shadowroller.Errs.Answer.{Answer, ok, err}
use shadowroller.Errs.{Err}
use shadowroller.Http.Halt.{Panic, End, returned, panicked}

pub data Result {ℓ} (A : Type ℓ) : Type ℓ where
  done : A → Result A
  ended : Panic → Result A

abbrev pub Action : Type 0 → Type 0 → Type 0
Action S A = S → Result A × S

module _ {S A : Type 0} where
  abbrev pub pure : A → Action S A
  pure a s = (done a, s)

  -- A call that only reads.
  abbrev pub gets : (S → A) → Action S A
  gets f s = (done (f s), s)

  abbrev pub panic : Panic → Action S A
  panic p s = (ended p, s)

infixl 5 ◌>>=◌ ◌>>◌
unfoldable pub ◌>>=◌ : {S A B : Type 0} → Action S A → (A → Action S B) → Action S B
◌>>=◌ m f s = let (r, s') = m s in elim r [ done a ↦ f a s' | ended p ↦ panic p s' ]

abbrev pub ◌>>◌ : {S A B : Type 0} → Action S A → Action S B → Action S B
m >> k = m >>= λ _. k

-- A call of `Halt` or one of its kind.
abbrev pub halts : {S : Type 0} → End → Action S (Unit {0})
halts returned = pure tt
halts (panicked p) = panic p

abbrev pub halts_if : {S : Type 0} → Bool → End → Action S (Unit {0})
halts_if true end = halts end
halts_if false end = pure tt

-- The value of a call that returned an error or a value, after a halt on the error.
abbrev pub or_panic : {S A : Type 0} → (Err → Panic) → Answer A → Action S A
or_panic on_error (ok a) = pure a
or_panic on_error (err e) = panic (on_error e)
