-- ===== src/Http/Router.antt =====
-- makeBaseRouter of server/routes/routers.go: a request goes through recovery, halting, the rate limit
-- and the wrapped response of tracing to the handler, which is the calls that it makes on its response
-- and the way that it ends. The middleware for the context and for headers has no part in the status.
use shadowroller.Common.{
  ℕ, ◌≡◌, refl, ◌∙◌, Bool, true, false, List, [], ◌∷◌, Option, none, some, String, ltb, Bool-cases,
  inl, inr, if◌then◌else◌,
}
use shadowroller.Errs.{Err, internal, wrap, is_internal, http_code}
use shadowroller.Errs.Codes.{http_code_internal}
use shadowroller.Http.Halt.{
  error, raw_halt, End, returned, panicked, Response, write_header, sent_status, halt_internal,
  serve,
}
use shadowroller.Http.Halt.Answers.{fresh, answer, serve-answer}
use shadowroller.Http.RateLimit.{Reply, missing, failed, found}
use shadowroller.Http.Wrapped.{Call, header, body, WrappedResponse, wrap_response, write, run_calls}

-- `OtelMiddleware` around the handler.
unfoldable pub otel_middleware : List Call → End → End × Response
otel_middleware calls end = (end, (run_calls calls (wrap_response fresh)).inner)

-- What follows a call that may halt.
unless_halted : End → Response → End × Response → End × Response
unless_halted returned r rest = rest
unless_halted (panicked p) r rest = (panicked p, r)

module _ (print : Err → String) (max : ℕ) where
  -- `RateLimitedHandler` once the count is known: the 429 that is written, the error of the pipeline,
  -- and the handler.
  limited_after : ℕ → Option Err → End × Response → End × Response
  unfolding unless_halted
  limited_after current incr_error handler =
      let limited = ltb max current in
      let r = if limited then write_header 429 fresh else fresh in
      unless_halted (halt_internal print incr_error) r (if limited then (returned, r) else handler)

  -- `RateLimitedHandler`, on what GET replies and the error of the pipeline of INCR and EXPIRE.
  unfoldable pub rate_limited_handler : Reply → Option Err → End × Response → End × Response
  unfolding limited_after unless_halted
  rate_limited_handler missing incr_error handler = limited_after 0 incr_error handler
  rate_limited_handler (found n) incr_error handler = limited_after n incr_error handler
  rate_limited_handler (failed err) incr_error handler =
      unless_halted (halt_internal print (some err)) fresh (limited_after 0 incr_error handler)

  -- The order of `makeBaseRouter`: recovery is outside.
  unfoldable pub base_router : Reply → Option Err → List Call → End → End × Response
  unfolding rate_limited_handler otel_middleware
  base_router reply incr_error calls end =
      serve (rate_limited_handler reply incr_error (otel_middleware calls end))

-- Whether the handler has written anything of the body.
abbrev pub has_body : List Call → Bool
has_body [] = false
has_body (header code ∷ calls) = has_body calls
has_body (body size ∷ calls) = true

-- The status of a handler that is called.
abbrev pub handler_status : List Call → End → ℕ
handler_status calls end = if has_body calls then 200 else answer end

abbrev or_500 : Option Err → ℕ → ℕ
or_500 none status = status
or_500 (some err) status = 500

abbrev counted_status : ℕ → ℕ → Option Err → List Call → End → ℕ
counted_status max current incr_error calls end =
    if ltb max current then 429 else or_500 incr_error (handler_status calls end)

-- The status of a request.
abbrev pub status_of : ℕ → Reply → Option Err → List Call → End → ℕ
status_of max missing incr_error calls end = counted_status max 0 incr_error calls end
status_of max (found n) incr_error calls end = counted_status max n incr_error calls end
status_of max (failed err) incr_error calls end = 500

-- The middleware returns, and the client is sent this status.
abbrev Answered : ℕ → End × Response → Type 0
Answered status run = ((serve run).0 ≡ returned) × (sent_status (serve run).1 ≡ status)

kept :
    (calls : List Call) (w : WrappedResponse)
    → w.inner.status ≡ some 200
    → (run_calls calls w).inner.status ≡ some 200
unfolding run_calls
kept [] w e = e
kept (header code ∷ calls) w e = kept calls _ e
kept (body size ∷ calls) w e = kept calls (write size w) (unfold write write_header in rw e)

body_lem :
    (calls : List Call) (w : WrappedResponse)
    → w.inner.status ≡ none
    → (run_calls calls w).inner.status ≡ (if has_body calls then some 200 else none)
unfolding run_calls
body_lem [] w e = e
body_lem (header code ∷ calls) w e = body_lem calls _ e
body_lem (body size ∷ calls) w e = kept calls (write size w) (unfold write write_header in rw e)

handler-Answered :
    (wrote : Bool) (end : End) (r : Response)
    → r.status ≡ (if wrote then some 200 else none)
    → Answered (if wrote then 200 else answer end) (end, r)
handler-Answered true end r e =
    let (back, fresh_lem, kept_lem) = serve-answer end r in (back, kept_lem 200 e)
handler-Answered false end r e =
    let (back, fresh_lem, kept_lem) = serve-answer end r in (back, fresh_lem e)

halted :
    (print : Err → String) (err : Err)
    → (e : Err) × (halt_internal print (some err) ≡ panicked (error e)) × (http_code (some e) ≡ 500)
unfolding halt_internal raw_halt
halted print err = elim (Bool-cases (is_internal err)) [
  | inl known ↦ (err, rw known, (http_code_internal err).0 known)
  | inr unknown ↦ (wrap internal (print err), rw unknown, unfold http_code in refl)
]

-- After a call that halts, the status that was written stays, and else it is 500.
after_halt :
    (print : Err → String) (err : Err) (limited : Bool) (rest : End × Response)
    → Answered (if limited then 429 else 500) (
        unless_halted
          (halt_internal print (some err))
          (if limited then write_header 429 fresh else fresh)
          rest)
unfolding unless_halted write_header
after_halt print err limited rest =
    let (e, ends, code) = halted print err in rw ends (after_panic e code limited)
  where
    after_panic :
        (e : Err)
        → http_code (some e) ≡ 500
        → (limited : Bool)
        → Answered
            (if limited then 429 else 500)
            (panicked (error e), if limited then write_header 429 fresh else fresh)
    after_panic e code true =
        let (back, lem, kept_lem) = serve-answer (panicked (error e)) (write_header 429 fresh) in
        (back, kept_lem 429 refl)
    after_panic e code false =
        let (back, lem, kept_lem) = serve-answer (panicked (error e)) fresh in
        (back, lem refl ∙ code)

module _ (print : Err → String) (max : ℕ) (calls : List Call) (end : End) where
  counted_lem :
      (limited : Bool) (incr_error : Option Err)
      → Answered (if limited then 429 else or_500 incr_error (handler_status calls end)) (
          unless_halted
            (halt_internal print incr_error)
            (if limited then write_header 429 fresh else fresh)
            (if limited
              then (returned, if limited then write_header 429 fresh else fresh)
              else otel_middleware calls end))
  unfolding unless_halted write_header halt_internal otel_middleware wrap_response
  counted_lem true none =
      let (back, lem, kept_lem) = serve-answer returned (write_header 429 fresh) in
      (back, kept_lem 429 refl)
  counted_lem false none =
      handler-Answered (has_body calls) end _ (body_lem calls (wrap_response fresh) refl)
  counted_lem true (some err) = after_halt print err true _
  counted_lem false (some err) = after_halt print err false _

  -- However the counter replies and a handler ends, whatever statuses it writes: the router returns, and
  -- the client is sent 500 if the count cannot be read; 429 if it is over the limit; 500 if the request
  -- cannot be counted; 200 if the handler wrote something of the body; and else 200 for a return, the code
  -- of the error for a halt, and 500 for a panic with anything but an error. A status that the handler
  -- writes itself is never sent.
  pub base_router-status_of :
      (reply : Reply) (incr_error : Option Err)
      → ((base_router print max reply incr_error calls end).0 ≡ returned)
        × (sent_status (base_router print max reply incr_error calls end).1
            ≡ status_of max reply incr_error calls end)
  unfolding base_router rate_limited_handler limited_after
  base_router-status_of missing incr_error = counted_lem (ltb max 0) incr_error
  base_router-status_of (found n) incr_error = counted_lem (ltb max n) incr_error
  base_router-status_of (failed err) incr_error = after_halt print err false _
