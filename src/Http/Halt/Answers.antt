-- ===== src/Http/Halt/Answers.antt =====
-- server/http/middleware.go: what each way of ending a handler is answered with.
use shadowroller.Common.{ℕ, ◌≡◌, refl, ◌∙◌, inl, inr, none, some, String, arith, Bool-cases}
use shadowroller.Errs.{Err, halt, internal, wrap, is_specified, http_code, is_internal}
use shadowroller.Errs.Codes.{http_code_internal}
use shadowroller.Http.Halt.{
  error, value, End, returned, panicked, Response, write_header, sent_status, halt_with,
  halt_internal, halt_for, redis_nil, redis_failed, err_redis_not_found, must_redis,
  halt_middleware, recovery_middleware, serve,
}

abbrev pub fresh : Response
fresh = record { status = none }

-- The status for each way of ending.
abbrev pub answer : End → ℕ
answer returned = 200
answer (panicked (error err)) = http_code (some err)
answer (panicked (value v)) = 500

serve_error :
    (err : Err) (r : Response)
    → ((serve (panicked (error err), r)).0 ≡ returned)
      × (r.status ≡ none → sent_status (serve (panicked (error err), r)).1 ≡ http_code (some err))
      × ((code : ℕ) → r.status ≡ some code → sent_status (serve (panicked (error err), r)).1 ≡ code)
unfolding serve halt_middleware recovery_middleware write_header sent_status
serve_error halt r = (refl, λ e. rw e (unfold http_code in refl), λ code e. rw e)
serve_error err r = elim (Bool-cases (is_specified (some err))) [
  | inl known ↦ (rw known, λ e. rw known (ground arith), λ code e. rw known (ground arith))
  | inr unknown ↦ (
    rw unknown,
    λ e. rw unknown (ground (arith, http_code_internal err)),
    λ code e. rw unknown (ground arith),
  )
]

-- However what is inside these two middlewares ends, they return, and a status that was written to
-- their response is kept. Where none was, the answer is 200 for a return, the code of the error for a halt, and 500
-- for a panic with anything but an error.
pub serve-answer :
    (end : End) (r : Response)
    → ((serve (end, r)).0 ≡ returned)
      × (r.status ≡ none → sent_status (serve (end, r)).1 ≡ answer end)
      × ((code : ℕ) → r.status ≡ some code → sent_status (serve (end, r)).1 ≡ code)
unfolding serve halt_middleware recovery_middleware write_header sent_status
serve-answer returned r = (refl, λ e. rw e, λ code e. rw e)
serve-answer (panicked (error err)) r = serve_error err r
serve-answer (panicked (value v)) r =
    (refl, λ e. rw (e, write_header, recovery_middleware), λ code e. rw e (ground arith))

-- An error that goes through `HaltInternal` is always answered with 500, also one that is a bad
-- request or not found; without an error the handler goes on.
pub serve-halt_internal :
    (print : Err → String) (err : Err)
    → (sent_status (serve (halt_internal print (some err), fresh)).1 ≡ 500)
      × (halt_internal print none ≡ returned)
unfolding halt_internal halt_with
serve-halt_internal print err = elim (Bool-cases (is_internal err)) [
  | inl known ↦ (
    rw known
        ((serve-answer (panicked (error err)) fresh).1 refl ∙ (http_code_internal err).0 known),
    refl,
  )
  | inr unknown ↦ (
    rw unknown (
        (serve-answer (panicked (error (wrap internal (print err)))) fresh).1 refl
        ∙ unfold http_code in refl),
    refl,
  )
]

-- What a handler that stops on an error is answered with, if it has written no status: the code of the
-- cause that `HaltFor` attaches, whatever the error was; 404 for a key that is not in Redis, and 500 for
-- any other error of Redis.
pub serve-must_redis :
    (print : Err → String) (cause base : Err)
    → (sent_status (serve (halt_for print cause (some base), fresh)).1 ≡ http_code (some cause))
      × (sent_status (serve (must_redis print (some redis_nil), fresh)).1 ≡ 404)
      × (sent_status (serve (must_redis print (some (redis_failed base)), fresh)).1 ≡ 500)
unfolding halt_for must_redis http_code
serve-must_redis print cause base = (
  (serve-answer (panicked (error (wrap cause (print base)))) fresh).1 refl,
  (serve-answer (panicked (error err_redis_not_found)) fresh).1 refl,
  (serve-answer (panicked (error (wrap internal (print base)))) fresh).1 refl,
)
