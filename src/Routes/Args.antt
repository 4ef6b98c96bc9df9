-- ===== src/Routes/Args.antt =====
-- What the handlers of server/routes share: the session and the body of a request, from
-- server/http/handler.go, server/http/session.go and server/http/request.go, and the run of a game's
-- pipeline. A handler is an action on what is stored in Redis: it is done with the body that it
-- answers, or it ends in a panic, which server/http/middleware.go answers.
pub mod Reads
use shadowroller.Common.{
  ℕ, ℤ, Bool, true, false, List, [], ◌∷◌, Option, none, some, String, if◌then◌else◌,
}
use shadowroller.Common.Dict.{Dict}
use shadowroller.Common.Float.{Float}
use shadowroller.Errs.{Err, bad_request, internal, no_access, is_internal, wrap, plain}
use shadowroller.Errs.Answer.{Answer, ok, err}
use shadowroller.Http.Halt.{Panic, End, error, value, raw_halt}
use shadowroller.Http.Session.{
  SessionId, session, refused, out_of_range, session_from_header, session_from_params,
}
use shadowroller.Action.{Action, Result, done, ended, panic, pure, ◌>>=◌, or_panic}
use shadowroller.Player.{Player}
use shadowroller.Event.{Event}
use shadowroller.Event.Codec.{Json, Parsed, event, failed as unparsed}
use shadowroller.Event.Scan.{Scanner}
use shadowroller.Update.{Element}
use shadowroller.Game.History.{Pipeline, Command, crashed, failed, sent}
use shadowroller.Redis.{Client}
use shadowroller.Redis.Retry.{Try}
use shadowroller.Session.{Session, Ttl, get_session}

-- What the server runs on: Redis with go-redis's `Scan` and `Watch`, encoding/json, regexp, the
-- `%v` of an error and of an `int64`, and server/config.
pub record Env : Type 1 where
  pub redis : Client
  pub scan_session : Dict String → Option Session
  pub scan_player : Dict String → Option Player
  pub watch :
      (redis.Store × List Player → Try × (redis.Store × List Player))
      → redis.Store × List Player
      → Try × (redis.Store × List Player)
  pub json : Json
  pub scanner : Scanner
  pub marshal_event : Event → Option String
  pub marshal : List Element → Option String
  pub print : Err → String
  pub print_int : ℤ → String
  pub max_single_roll : ℕ
  pub max_event_range : ℕ
  pub retries : ℕ
  pub ttl : Ttl

abbrev pub Handler : Env → Type 0 → Type 0
Handler env A = Action env.redis.Store A

-- The dice that a handler rolls: the error of the request's context, if it has one, and the values
-- that the channel delivers.
pub record Dice : Type 0 where
  pub ctx : Option String
  pub values : List ℕ

-- A value of a `map[string]interface{}` that was decoded from JSON.
pub data Input : Type 0 where
  text : String → Input
  number : Float → Input
  flag : Bool → Input
  other : Input

-- The panic of `Halt(err)`, of `Halt(errs.BadRequest(err))` and of `HaltInternal(err)`, where `err`
-- is not nil.
abbrev pub as_is : Err → Panic
as_is e = error e

abbrev pub as_bad_request : (Err → String) → Err → Panic
as_bad_request print e = error (wrap bad_request (print e))

abbrev pub as_internal : (Err → String) → Err → Panic
as_internal print e = if is_internal e then error e else error (wrap internal (print e))

-- The value of a call that reads what is stored, after a halt on its error.
unfoldable pub must : {S A : Type 0} → (Err → Panic) → (S → Answer A) → Action S A
must on_error read s = or_panic on_error (read s) s

-- `Halt(errs.BadRequestf(…))` and `Halt(errs.NoAccessf(…))` under a condition.
unfoldable pub refuse_if : {S : Type 0} → Bool → Err → Action S (Unit {0})
refuse_if true e = panic (error e)
refuse_if false e = pure tt

-- The error of `Parse`, which wraps no sentinel.
abbrev pub parsed : Parsed → Answer Event
parsed (event e) = ok e
parsed (unparsed e) = err (plain "parse")

module _ (env : Env) where
  with_session_id : SessionId → env.redis.Store → Answer Session
  with_session_id (session id) s = get_session env.redis env.scan_session id s
  with_session_id (refused e) s = err e
  with_session_id out_of_range s = err (plain "slice bounds out of range")

  session_of : SessionId → Handler env Session
  unfolding with_session_id
  session_of (session id) = must as_is (with_session_id (session id))
  session_of (refused e) = must as_is (with_session_id (refused e))
  session_of out_of_range = panic (value "slice bounds out of range")

  -- `MustSession`, on the header's value, with `RequestSession`.
  unfoldable pub must_session : String → Handler env Session
  unfolding session_of
  must_session header = session_of (session_from_header header)

  -- `RequestParamSession`, on the parameter's value.
  unfoldable pub request_param_session : String → env.redis.Store → Answer Session
  unfolding with_session_id
  request_param_session id s = with_session_id (session_from_params id) s

  -- `MustReadBodyJSON`, on what the decoder makes of the body.
  unfoldable pub must_read : {A : Type 0} → Answer A → Handler env A
  must_read body = or_panic (as_bad_request env.print) body

  executed : Option Err × env.redis.Store → Bool → Result (Unit {0}) × env.redis.Store
  executed (some e, s) enough = (ended (as_internal env.print (wrap e "EXEC")), s)
  executed (none, s) true = (done tt, s)
  executed (none, s) false = (ended (as_internal env.print (plain "expected replies")), s)

  -- A pipeline of server/game/eventManager.go, and `HaltInternal` on its error.
  unfoldable pub run_pipeline : String → Pipeline → Handler env (Unit {0})
  unfolding executed
  run_pipeline game_id crashed s = (ended (value "unexpected share"), s)
  run_pipeline game_id failed s = (ended (as_internal env.print (plain "pipeline")), s)
  run_pipeline game_id (sent commands enough) s =
      executed (env.redis.exec game_id commands s) enough
