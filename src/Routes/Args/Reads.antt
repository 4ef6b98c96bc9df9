-- ===== src/Routes/Args/Reads.antt =====
-- The steps that the handlers of server/routes begin with change nothing.
use shadowroller.Common.{◌≡◌, refl, Bool, true, false, String}
use shadowroller.Errs.{Err}
use shadowroller.Errs.Answer.{Answer, ok, err}
use shadowroller.Http.Halt.{Panic, error}
use shadowroller.Http.Session.{SessionId, session, refused, out_of_range, session_from_header}
use shadowroller.Action.{done, ended}
use shadowroller.Action.Reads.{Reads, or_panic-Reads}
use shadowroller.Action.Yields.{Yields}
use shadowroller.Session.{Session, get_session}
use shadowroller.Routes.Args.{
  Env, as_is, as_bad_request, must, refuse_if, must_session, must_read, session_of, with_session_id,
}

pub must-Reads :
    {S A : Type 0} (on_error : Err → Panic) (read : S → Answer A) (s : S)
    → Reads (λ a. read s ≡ ok a) (must on_error read) s
unfolding must
must-Reads on_error read s = or_panic-Reads on_error (read s) s

pub refuse_if-Reads :
    {S : Type 0} (b : Bool) (e : Err) (s : S) → Reads (λ t. b ≡ false) (refuse_if b e) s
unfolding refuse_if
refuse_if-Reads true e s = (refl, λ t q. cc)
refuse_if-Reads false e s = (refl, λ t q. refl)

pub refuse_if-Yields :
    {S : Type 0} (b : Bool) (e : Err) → Yields {S = S} (λ u. b ≡ false) (refuse_if b e)
unfolding refuse_if
refuse_if-Yields true e s a h = cc
refuse_if-Yields false e s a h = refl

pub must_ok :
    {S A : Type 0} (on_error : Err → Panic) (read : S → Answer A) (s : S) (a : A)
    → read s ≡ ok a
    → must on_error read s ≡ (done a, s)
unfolding must
must_ok on_error read s a e = rw e

pub must_err :
    {S A : Type 0} (on_error : Err → Panic) (read : S → Answer A) (s : S) (e : Err)
    → read s ≡ err e
    → must on_error read s ≡ (ended (on_error e), s)
unfolding must
must_err on_error read s e q = rw q

pub refuse_if-false :
    {S : Type 0} (b : Bool) (e : Err) (s : S) → b ≡ false → refuse_if b e s ≡ (done tt, s)
unfolding refuse_if
refuse_if-false b e s h = rw h

pub refuse_if-true :
    {S : Type 0} (b : Bool) (e : Err) (s : S) → b ≡ true → refuse_if b e s ≡ (ended (error e), s)
unfolding refuse_if
refuse_if-true b e s h = rw h

module _ (env : Env) where
  -- The request is from a player with this session.
  abbrev pub IsFrom : String → env.redis.Store → Session → Type 0
  IsFrom header s sess =
      (id : String) × (session_from_header header ≡ session id)
      × (get_session env.redis env.scan_session id s ≡ ok sess)

  session_of-Reads :
      (id : SessionId) (s : env.redis.Store)
      → Reads
          (λ sess.
            (text : String) × (id ≡ session text)
            × (get_session env.redis env.scan_session text s ≡ ok sess))
          (session_of env id)
          s
  unfolding session_of with_session_id must
  session_of-Reads (session text) s =
      let (same, holds) = must-Reads as_is (get_session env.redis env.scan_session text) s in
      (same, λ a e. (text, refl, holds a e))
  session_of-Reads (refused e) s = (refl, λ a q. cc)
  session_of-Reads out_of_range s = (refl, λ a q. cc)

  pub must_session-Reads :
      (header : String) (s : env.redis.Store) → Reads (IsFrom header s) (must_session env header) s
  unfolding must_session
  must_session-Reads header s = session_of-Reads (session_from_header header) s

  pub must_read-Reads :
      {A : Type 0} (body : Answer A) (s : env.redis.Store)
      → Reads (λ request. body ≡ ok request) (must_read env body) s
  unfolding must_read
  must_read-Reads body s = or_panic-Reads (as_bad_request env.print) body s

  -- A request with a session is done with it.
  pub must_session-IsFrom :
      (header : String) (s : env.redis.Store) (sess : Session)
      → IsFrom header s sess
      → must_session env header s ≡ (done sess, s)
  unfolding must_session session_of with_session_id must
  must_session-IsFrom header s sess (id, named, found) = rw (must_session, named, session_of, found)

  pub must_read_ok :
      {A : Type 0} (body : Answer A) (s : env.redis.Store) (a : A)
      → body ≡ ok a
      → must_read env body s ≡ (done a, s)
  unfolding must_read
  must_read_ok body s a e = rw e
