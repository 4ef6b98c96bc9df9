-- ===== src/Http/Session.antt =====
-- server/http/session.go: the session id of a request. The value of a header, and the id that is
-- sliced out of it, are bytes, which net/http does not decode: a text with one character for each byte,
-- of the code of that byte, so a slice of bytes is one of characters.
use Prim.Native.Char.{Char}
use Prim.Native.String.{◌++◌}
use text.Mathlib.Text.{starts_with}
use text.Mathlib.TextEquality.{starts_with_iff}
use text.Mathlib.TextPositions.{starts_with-append}
use text.Mathlib.TextLemmas.{append-nil, cons-append, nil-append}
use shadowroller.Common.{
  ℕ, zero, suc, ◌≡◌, refl, sym, ap, ◌∙◌, ◌⊎◌, true, false, ◌||◌, Option, none, some, String, str_eq,
  if◌then◌else◌, Bool-cases, inl, inr,
}
use shadowroller.Errs.{Err, bad_request, wrap}

abbrev pub err_no_auth_bearer : Err
err_no_auth_bearer = wrap bad_request "no auth bearer header"

abbrev pub err_no_session_param : Err
err_no_session_param = wrap bad_request "no session query param"

-- The two results, or the panic of a slice out of range.
pub data SessionId : Type 0 where
  session : String → SessionId
  refused : Err → SessionId
  out_of_range : SessionId

-- `s[n:]`; `none` is the panic.
slice_from : ℕ → String → Option String
slice_from zero s = some s
slice_from (suc n) String.[] = none
slice_from (suc n) (String.◌∷◌ c s) = slice_from n s

sliced : Option String → SessionId
sliced none = out_of_range
sliced (some id) = session id

-- The header's value, the empty text if it is missing.
unfoldable pub session_from_header : String → SessionId
unfolding slice_from sliced
session_from_header auth =
    if starts_with auth "Bearer" then sliced (slice_from 7 auth) else refused err_no_auth_bearer

-- The parameter's value, the empty text if it is missing.
unfoldable pub session_from_params : String → SessionId
session_from_params id =
    if str_eq id "" || str_eq id "null" || str_eq id "undefined"
    then refused err_no_session_param
    else session id

unfoldable bearer : String → String
bearer rest = "Bearer" ++ rest

starts_with-bearer : (rest : String) → starts_with (bearer rest) "Bearer" ≡ true
unfolding bearer
starts_with-bearer rest = starts_with-append "Bearer" rest

spelled : String → String
spelled rest =
    String.◌∷◌ "B"
      (String.◌∷◌ "e" (String.◌∷◌ "a" (String.◌∷◌ "r" (String.◌∷◌ "e" (String.◌∷◌ "r" rest)))))

bearer-spelled : (rest : String) → bearer rest ≡ spelled rest
unfolding bearer spelled
bearer-spelled rest = rw (
  cons-append "B" "earer" rest,
  cons-append "e" "arer" rest,
  cons-append "a" "rer" rest,
  cons-append "r" "er" rest,
  cons-append "e" "r" rest,
  cons-append "r" "" rest,
  nil-append rest,
)

slice_from-bearer : (rest : String) → slice_from 7 (bearer rest) ≡ slice_from 1 rest
unfolding slice_from spelled
slice_from-bearer rest = rw (bearer-spelled rest)

session_from_header-bearer :
    (rest : String) → session_from_header (bearer rest) ≡ sliced (slice_from 1 rest)
unfolding session_from_header
session_from_header-bearer rest = rw (starts_with-bearer rest, slice_from-bearer rest)

not_bearer :
    (auth : String)
    → starts_with auth "Bearer" ≡ false
    → session_from_header auth ≡ refused err_no_auth_bearer
unfolding session_from_header
not_bearer auth h = rw h

of_rest :
    (auth rest : String)
    → auth ≡ "Bearer" ++ rest
    → ((auth ≡ "Bearer") × (session_from_header auth ≡ out_of_range))
      ⊎ ((c : Char) × (id : String) × (auth ≡ "Bearer" ++ String.◌∷◌ c id)
          × (session_from_header auth ≡ session id))
unfolding bearer
of_rest auth String.[] e = inl (
  e ∙ append-nil "Bearer",
  ap session_from_header e ∙ (session_from_header-bearer "" ∙ unfold slice_from sliced in refl),
)
of_rest auth (String.◌∷◌ c id) e = inr (
  c,
  id,
  e,
  ap session_from_header e
      ∙ (session_from_header-bearer (String.◌∷◌ c id) ∙ unfold slice_from sliced in refl),
)

-- How a header is read, as a text with one character for each of its bytes: one that does not begin
-- with "Bearer" is refused as a bad request, "Bearer" alone is a panic, and of a longer one the rest
-- after one more byte, whatever it is, is the session id.
pub session_from_header_lem :
    (auth : String)
    → ((starts_with auth "Bearer" ≡ false)
        × (session_from_header auth ≡ refused err_no_auth_bearer))
      ⊎ ((auth ≡ "Bearer") × (session_from_header auth ≡ out_of_range))
      ⊎ ((c : Char) × (id : String) × (auth ≡ "Bearer" ++ String.◌∷◌ c id)
          × (session_from_header auth ≡ session id))
session_from_header_lem auth = elim (Bool-cases (starts_with auth "Bearer")) [
  | inr other ↦ inl (other, not_bearer auth other)
  | inl begins ↦
      let (rest, e) = (starts_with_iff auth "Bearer").0 begins in inr (of_rest auth rest (sym e))
]
