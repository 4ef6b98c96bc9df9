-- ===== src/Errs.antt =====
-- server/errs/errs.go: the errors of the server, and what they are answered with. An `error` that
-- may be nil is an `Option`.
pub mod Codes
pub mod Answer
pub mod Is
use shadowroller.Common.{ℕ, Bool, true, false, Option, none, some, String}

-- The five sentinels, an error that wraps another by `%w`, and one that wraps none.
pub data Err : Type 0 where
  halt internal bad_request not_found no_access : Err
  wrap : Err → String → Err
  plain : String → Err

abbrev pub err_parse : Err
err_parse = wrap internal "parse"

abbrev pub err_logic : Err
err_logic = wrap internal "logic"

-- `err.Error()`, for the texts that `%v` prints; `Sprintf` of both parts is left abstract.
module _ (print : Err → String) where
  -- `caused`
  unfoldable pub caused : Err → Option Err → Option Err
  caused base none = none
  caused base (some cause) = some (wrap base (print cause))

  unfoldable pub internal_of : Option Err → Option Err
  unfolding caused
  internal_of cause = caused internal cause

  unfoldable pub bad_request_of : Option Err → Option Err
  unfolding caused
  bad_request_of cause = caused bad_request cause

  unfoldable pub not_found_of : Option Err → Option Err
  unfolding caused
  not_found_of cause = caused not_found cause

  unfoldable pub no_access_of : Option Err → Option Err
  unfolding caused
  no_access_of cause = caused no_access cause

-- `formatted`, with the message that `Sprintf` made.
unfoldable pub formatted : Err → String → Err
formatted base message = wrap base message

unfoldable pub get_type : Option Err → String
get_type none = "unspecified"
get_type (some halt) = "cancel"
get_type (some internal) = "internal"
get_type (some bad_request) = "bad request"
get_type (some not_found) = "not found"
get_type (some no_access) = "no access"
get_type (some (wrap err message)) = get_type (some err)
get_type (some (plain message)) = "unspecified"

unfoldable pub is_specified : Option Err → Bool
is_specified none = false
is_specified (some halt) = true
is_specified (some internal) = true
is_specified (some bad_request) = true
is_specified (some not_found) = true
is_specified (some no_access) = true
is_specified (some (wrap err message)) = is_specified (some err)
is_specified (some (plain message)) = false

unfoldable pub http_code : Option Err → ℕ
http_code none = 200
http_code (some halt) = 200
http_code (some no_access) = 401
http_code (some bad_request) = 400
http_code (some not_found) = 404
http_code (some internal) = 500
http_code (some (wrap err message)) = http_code (some err)
http_code (some (plain message)) = 500

-- `errors.Is(err, ErrInternal)`
unfoldable pub is_internal : Err → Bool
is_internal internal = true
is_internal (wrap err message) = is_internal err
is_internal _ = false
