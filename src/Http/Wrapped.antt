-- ===== src/Http/Wrapped.antt =====
-- server/http/wrappedResponse.go: the response that the middleware of server/http/middlewareOtel.go
-- hands to every handler.
use shadowroller.Common.{ℕ, ◌+◌, ◌≡◌, refl, ◌∙◌, inl, inr, Option-cases, none, List, [], ◌∷◌, arith}
use shadowroller.Http.Halt.{Response, write_header, sent_status}

pub record WrappedResponse : Type 0 where
  pub inner : Response
  pub status : ℕ
  pub written : ℕ

unfoldable pub wrap_response : Response → WrappedResponse
wrap_response writer = record { inner = writer; status = 200; written = 0 }

-- The `Write` of a response: the first one sends status 200 if no status was written.
write_inner : Response → Response
unfolding write_header
write_inner r = write_header 200 r

-- `Write`, where the inner one takes that many bytes.
unfoldable pub write : ℕ → WrappedResponse → WrappedResponse
unfolding write_inner
write size w = record w { inner = write_inner w.inner; written = w.written + size }

-- `WriteHeader`
unfoldable pub record_header : ℕ → WrappedResponse → WrappedResponse
record_header code w = record w { status = code }

-- What a handler does with its response.
pub data Call : Type 0 where
  header : ℕ → Call
  body : ℕ → Call

unfoldable pub run_calls : List Call → WrappedResponse → WrappedResponse
unfolding write record_header
run_calls [] w = w
run_calls (header code ∷ calls) w = run_calls calls (record_header code w)
run_calls (body size ∷ calls) w = run_calls calls (write size w)

-- The last status among the calls, and all their bytes.
abbrev pub last_status : ℕ → List Call → ℕ
last_status code [] = code
last_status code (header next ∷ calls) = last_status next calls
last_status code (body size ∷ calls) = last_status code calls

abbrev pub total : List Call → ℕ
total [] = 0
total (header code ∷ calls) = total calls
total (body size ∷ calls) = size + total calls

run_calls_recorded :
    (calls : List Call) (w : WrappedResponse)
    → ((run_calls calls w).status ≡ last_status w.status calls)
      × ((run_calls calls w).written ≡ w.written + total calls)
unfolding run_calls
run_calls_recorded [] w = (refl, omega arith)
run_calls_recorded (header code ∷ calls) w = run_calls_recorded calls (record_header code w)
run_calls_recorded (body size ∷ calls) w =
    let (status, written) = run_calls_recorded calls (write size w) in
    (status, omega (arith, written))

sent_write : (r : Response) → sent_status (write_inner r) ≡ sent_status r
unfolding write_inner sent_status write_header
sent_write r = elim (Option-cases r.status) [ inl e ↦ rw e | inr (code, e) ↦ rw e ]

run_calls_sent :
    (calls : List Call) (w : WrappedResponse)
    → sent_status (run_calls calls w).inner ≡ sent_status w.inner
unfolding run_calls
run_calls_sent [] w = refl
run_calls_sent (header code ∷ calls) w = run_calls_sent calls (record_header code w)
run_calls_sent (body size ∷ calls) w = run_calls_sent calls (write size w) ∙ sent_write w.inner

-- Whatever statuses and bytes a handler writes to the wrapped response, the span is told the last
-- status and the number of bytes, but the client is sent 200: a status that the handler itself writes
-- never reaches it.
pub run_calls-wrap_response :
    (calls : List Call)
    → let w = run_calls calls (wrap_response (record { status = none })) in
      (w.status ≡ last_status 200 calls) × (w.written ≡ total calls) × (sent_status w.inner ≡ 200)
unfolding wrap_response sent_status
run_calls-wrap_response calls =
    let w = wrap_response (record { status = none }) in
    (
      (run_calls_recorded calls w).0,
      omega (arith, (run_calls_recorded calls w).1),
      run_calls_sent calls w,
    )
