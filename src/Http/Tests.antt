-- ===== src/Http/Tests.antt =====
-- The theorems about server/http at concrete requests.
use Prim.Native.Char.{Char, code}
use Prim.Native.String.{◌++◌}
use text.Mathlib.Text.{starts_with}
use shadowroller.Common.{
  ℕ, suc, ◌≤◌, List, ◌≡◌, refl, ◌⊎◌, true, false, [], ◌∷◌, none, some, String, str_eq,
  if◌then◌else◌, count, ltb,
}
use shadowroller.Errs.{
  halt, bad_request, not_found, no_access, wrap, get_type, http_code, internal_of, bad_request_of,
  not_found_of, no_access_of, formatted, err_parse,
}
use shadowroller.Http.Halt.{returned, panicked, error, sent_status, halt_with}
use shadowroller.Http.Router.{base_router, base_router-status_of}
use shadowroller.Common.Text.{Without}
use shadowroller.Http.Request.{
  request_remote_addr, request_remote_ip, localhost_allowed, request_remote_ip-append,
}
use shadowroller.Http.Session.{
  session, refused, out_of_range, err_no_auth_bearer, err_no_session_param, session_from_header,
  session_from_params, session_from_header_lem,
}
use shadowroller.Http.RateLimit.{Counters, missing, found, rate_limit_key, handle_all}
use shadowroller.Http.RateLimit.{rate_limited, served, limited}
use shadowroller.Http.RateLimit.Window.{IsWorking, is_served, least}
use shadowroller.Http.RateLimit.Overlap.{
  Move, reads, counts, is_limited, served_among, rate_limited-overlaps,
}
use shadowroller.Http.Wrapped.{header, body, run_calls, wrap_response, run_calls-wrap_response}

-- Causes, types and codes of errors.
causes :
    (internal_of (λ e. "late") none ≡ none)
    × (bad_request_of (λ e. "late") (some halt) ≡ some (wrap bad_request "late"))
    × (not_found_of (λ e. "late") (some halt) ≡ some (wrap not_found "late"))
    × (no_access_of (λ e. "late") (some halt) ≡ some (wrap no_access "late"))
    × (get_type (some (formatted not_found "no game")) ≡ "not found")
    × (http_code (some err_parse) ≡ 500)
unfolding internal_of bad_request_of not_found_of no_access_of get_type formatted http_code
causes = (refl, refl, refl, refl, refl, refl)

halted_bad_request :
    halt_with (some (wrap bad_request "no id")) ≡ panicked (error (wrap bad_request "no id"))
unfolding halt_with
halted_bad_request = refl

no_session_param : session_from_params "null" ≡ refused err_no_session_param
unfolding session_from_params
no_session_param = refl

key_of_window : rate_limit_key (λ n. "10") "::1" 17 ≡ "ratelimit:::1:10"
unfolding rate_limit_key
key_of_window = refl

base_router-status_of_example :
    ((base_router (λ e. "late") 3 (found 2) none (header 303 ∷ []) returned).0 ≡ returned)
    × (sent_status (base_router (λ e. "late") 3 (found 2) none (header 303 ∷ []) returned).1 ≡ 200)
base_router-status_of_example =
    base_router-status_of (λ e. "late") 3 (header 303 ∷ []) returned (found 2) none

abbrev bearer_42 : String
bearer_42 = "Bearer 42"

session_from_header_lem_example :
    ((starts_with bearer_42 "Bearer" ≡ false)
      × (session_from_header bearer_42 ≡ refused err_no_auth_bearer))
    ⊎ ((bearer_42 ≡ "Bearer") × (session_from_header bearer_42 ≡ out_of_range))
    ⊎ ((c : Char) × (id : String) × (bearer_42 ≡ "Bearer" ++ String.◌∷◌ c id)
        × (session_from_header bearer_42 ≡ session id))
session_from_header_lem_example = session_from_header_lem bearer_42

-- Counters by their numbers.
abbrev counters : Counters
counters = record {
  Store = String → ℕ;
  get = λ key s. if ltb 0 (s key) then found (s key) else missing;
  incr = λ key s. (none, λ other. if str_eq key other then suc (s other) else s other);
}

abbrev working : IsWorking counters
working = record {
  tally = λ key s. s key;
  get-tally = λ key s. refl;
  incr_ok = λ key s. refl;
  tally-incr = λ key other s. refl;
}

abbrev moves : List Move
moves = reads "a" ∷ reads "a" ∷ counts "a" ∷ reads "b" ∷ reads "a" ∷ counts "a" ∷ counts "a" ∷ []

rate_limited-overlaps_example :
    (rate_limited (λ e. "late") 1 counters "a" (λ key. 0) ≡ (
      if is_limited 1 (counters.get "a" (λ key. 0)) then limited else served,
      (counters.incr "a" (λ key. 0)).1,
    ))
    × (served_among 1 counters "a" moves (λ key. 0) ≤ 3)
    × (count
          (is_served "a")
          (handle_all (λ e. "late") 1 counters ("a" ∷ "b" ∷ "a" ∷ "a" ∷ []) (λ key. 0))
        ≡ least 3 2)
rate_limited-overlaps_example =
    rate_limited-overlaps (λ e. "late") 1 counters working "a" ("a" ∷ "b" ∷ "a" ∷ "a" ∷ []) 2 moves
      (λ key. 0) refl

run_calls-wrap_response_example :
    let w = run_calls (header 308 ∷ body 12 ∷ []) (wrap_response (record { status = none })) in
    (w.status ≡ 308) × (w.written ≡ 12) × (sent_status w.inner ≡ 200)
run_calls-wrap_response_example = run_calls-wrap_response (header 308 ∷ body 12 ∷ [])

local : localhost_allowed (request_remote_addr "X-Client" "" "[::1]:80") ≡ true
unfolding localhost_allowed request_remote_ip request_remote_addr
local = refl

request_remote_ip-append_example :
    (Without (code ":") "80" → request_remote_ip ("[::1]" ++ String.◌∷◌ ":" "80") ≡ "[::1]")
    × (Without (code ":") "[::1]" → request_remote_ip "[::1]" ≡ "[::1]")
request_remote_ip-append_example = request_remote_ip-append "[::1]" "80"
