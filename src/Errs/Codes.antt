-- ===== src/Errs/Codes.antt =====
-- server/errs/errs.go: the type, the code and the test of an error agree.
use shadowroller.Common.{◌≡◌, true, false, some, arith}
use shadowroller.Errs.{
  Err, halt, internal, bad_request, not_found, no_access, wrap, plain, is_specified, http_code,
  is_internal,
}

-- An error is answered with 500 if it is internal, and if it is specified by none of the sentinels; a
-- specified error that is answered with 500 is internal.
pub http_code_internal :
    (err : Err)
    → (is_internal err ≡ true → http_code (some err) ≡ 500)
      × (is_specified (some err) ≡ false → http_code (some err) ≡ 500)
      × (http_code (some err) ≡ 500 → is_specified (some err) ≡ true → is_internal err ≡ true)
unfolding http_code is_specified is_internal
http_code_internal halt = ground arith
http_code_internal internal = ground arith
http_code_internal bad_request = ground arith
http_code_internal not_found = ground arith
http_code_internal no_access = ground arith
http_code_internal (wrap err message) = http_code_internal err
http_code_internal (plain message) = ground arith
