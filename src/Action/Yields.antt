-- ===== src/Action/Yields.antt =====
-- What the result of an action that is done satisfies, from any state.
use shadowroller.Common.{◌≡◌, refl, sym}
use shadowroller.Errs.{Err}
use shadowroller.Errs.Answer.{Answer, ok, err}
use shadowroller.Http.Halt.{Panic}
use shadowroller.Action.{Action, Result, done, ended, ◌>>=◌, or_panic, pure}

abbrev pub Yields : {S A : Type 0} → (A → Type 0) → Action S A → Type 0
Yields {S} {A} P m = (s : S) (a : A) → (m s).0 ≡ done a → P a

module _ {S A B : Type 0} where
  after :
      (P : A → Type 0) (Q : B → Type 0) (k : A → Action S B) (r : Result A) (s' : S)
      → ((a : A) → r ≡ done a → P a)
      → ((a : A) → P a → Yields Q (k a))
      → (s : S) (b : B) → (((λ t. (r, s')) >>= k) s).0 ≡ done b
      → Q b
  unfolding ◌>>=◌
  after P Q k (done a) s' h g s b e = g a (h a refl) s' b e
  after P Q k (ended p) s' h g s b e = cc

  pub Yields-then :
      (P : A → Type 0) (Q : B → Type 0) (m : Action S A) (k : A → Action S B)
      → Yields P m
      → ((a : A) → P a → Yields Q (k a))
      → Yields Q (m >>= k)
  unfolding ◌>>=◌
  Yields-then P Q m k h g s b e = after P Q k (m s).0 (m s).1 (h s) g s b e

  -- An action whose result is not looked at.
  pub Yields-skip :
      (Q : B → Type 0) (m : Action S A) (k : A → Action S B)
      → ((a : A) → Yields Q (k a))
      → Yields Q (m >>= k)
  Yields-skip Q m k g = Yields-then (λ a. Unit) Q m k (λ s a e. tt) (λ a u. g a)

module _ {S A : Type 0} where
  pub pure-Yields : (P : A → Type 0) (a : A) → P a → Yields {S = S} P (pure a)
  pure-Yields P a p s b e = let same : a ≡ b = cc in rw (sym same) p

  pub or_panic-Yields :
      (on_error : Err → Panic) (answer : Answer A)
      → Yields {S = S} (λ a. answer ≡ ok a) (or_panic on_error answer)
  or_panic-Yields on_error (ok a) s b e = cc
  or_panic-Yields on_error (err x) s b e = cc
