-- ===== src/Http/RateLimit.antt =====
-- server/http/middleware.go, RateLimitedHandler: a handler that is served a few times for each
-- address in each window. The counters in Redis are a parameter.
pub mod Window
pub mod Overlap
use Prim.Native.String.{◌++◌}
use shadowroller.Common.{
  ℕ, ◌-◌, ◌%◌, Bool, true, false, Option, none, some, String, List, [], ◌∷◌, ltb,
}
use shadowroller.Errs.{Err}
use shadowroller.Http.Halt.{End, returned, panicked, halt_internal}

-- What `client.Get(ctx, key).Int()` returns: `redis.Nil`, an error, or the number.
pub data Reply : Type 0 where
  missing : Reply
  failed : Err → Reply
  found : ℕ → Reply

-- The counters of Redis: GET, and the pipeline of INCR and EXPIRE with its error.
pub record Counters : Type 1 where
  pub Store : Type 0
  pub get : String → Store → Reply
  pub incr : String → Store → Option Err × Store

-- The key of an address at a time in seconds; `print` is the `%v` of a number.
unfoldable pub rate_limit_key : (ℕ → String) → String → ℕ → String
rate_limit_key print remote_addr ts = "ratelimit:" ++ (remote_addr ++ (":" ++ print (ts - ts % 10)))

-- The request was served, it was answered with 429, or it was halted by an error.
pub data Handled : Type 0 where
  served limited : Handled
  halted : End → Handled

after_incr : End → Bool → Handled
after_incr returned true = limited
after_incr returned false = served
after_incr (panicked p) over = halted (panicked p)

module _ (print : Err → String) (max : ℕ) (counters : Counters) where
  -- The handler once the count is known.
  counted : String → ℕ → counters.Store → Handled × counters.Store
  unfolding after_incr
  counted key current s =
      let (err, s') = counters.incr key s in
      (after_incr (halt_internal print err) (ltb max current), s')

  -- `max` is `config.MaxRequestsPer10Secs`, and not negative.
  unfoldable pub rate_limited : String → counters.Store → Handled × counters.Store
  unfolding counted
  rate_limited key s = elim (counters.get key s) [
    | missing ↦ counted key 0 s
    | failed err ↦ (halted (halt_internal print (some err)), s)
    | found current ↦ counted key current s
  ]

  -- Requests of which each is counted before the next is read, with the keys of their addresses and
  -- windows.
  unfoldable pub handle_all : List String → counters.Store → List (String × Handled)
  handle_all [] s = []
  handle_all (key ∷ keys) s =
      let (handled, s') = rate_limited key s in (key, handled) ∷ handle_all keys s'
