-- ===== src/Http/Halt.antt =====
-- server/http/halt.go and server/http/middleware.go: a handler that halts panics with an error,
-- which the middleware turns into a status. A handler's code after a halt does not run, so a
-- handler is the way that it ends.
pub mod Answers
use shadowroller.Common.{ℕ, Bool, true, false, Option, none, some, String, if◌then◌else◌}
use shadowroller.Errs.{
  Err, halt, internal, not_found, wrap, plain, is_specified, http_code, is_internal, internal_of,
}

-- The value of a panic.
pub data Panic : Type 0 where
  error : Err → Panic
  value : String → Panic

pub data End : Type 0 where
  returned : End
  panicked : Panic → End

-- The status line, if it was written. A later `WriteHeader` changes nothing, and the server writes
-- 200 if there was none.
pub record Response : Type 0 where
  pub status : Option ℕ

unfoldable pub write_header : ℕ → Response → Response
write_header code r = elim r.status [ none ↦ record { status = some code } | some written ↦ r ]

unfoldable pub sent_status : Response → ℕ
sent_status r = elim r.status [ none ↦ 200 | some code ↦ code ]

-- `RawHalt`, without its log lines.
unfoldable pub raw_halt : Err → End
raw_halt err = panicked (error err)

-- `Halt`
unfoldable pub halt_with : Option Err → End
unfolding raw_halt
halt_with none = returned
halt_with (some err) = raw_halt err

-- `HaltInternal`
unfoldable pub halt_internal : (Err → String) → Option Err → End
unfolding raw_halt
halt_internal print none = returned
halt_internal print (some err) =
    if is_internal err then raw_halt err else raw_halt (wrap internal (print err))

-- `HaltFor`
unfoldable pub halt_for : (Err → String) → Err → Option Err → End
unfolding raw_halt
halt_for print cause none = returned
halt_for print cause (some base) = raw_halt (wrap cause (print base))

-- An error of the Redis library: `redis.Nil`, or another.
pub data RedisError : Type 0 where
  redis_nil : RedisError
  redis_failed : Err → RedisError

abbrev pub err_redis_not_found : Err
err_redis_not_found = wrap not_found "redis: not found"

-- `MustRedis`
unfoldable pub must_redis : (Err → String) → Option RedisError → End
unfolding raw_halt
must_redis print none = returned
must_redis print (some redis_nil) = raw_halt err_redis_not_found
must_redis print (some (redis_failed err)) = raw_halt (wrap internal (print err))

-- The deferred function of `HaltMiddleware`.
unfoldable pub halt_middleware : End × Response → End × Response
halt_middleware (returned, r) = (returned, r)
halt_middleware (panicked (error halt), r) = (returned, r)
halt_middleware (panicked (error err), r) =
    if is_specified (some err)
    then (returned, write_header (http_code (some err)) r)
    else (panicked (error (plain "unexpected error")), r)
halt_middleware (panicked (value v), r) = (panicked (error (plain "panicking without an error")), r)

-- The deferred function of `RecoveryMiddleware`.
unfoldable pub recovery_middleware : End × Response → End × Response
recovery_middleware (returned, r) = (returned, r)
recovery_middleware (panicked p, r) = (returned, write_header 500 r)

-- The order of `makeBaseRouter`: recovery is outside.
unfoldable pub serve : End × Response → End × Response
serve run = recovery_middleware (halt_middleware run)
