-- ===== src/Errs/Is.antt =====
-- `errors.Is` on the sentinels of server/errs/errs.go, for an error that is not nil.
use shadowroller.Common.{Bool, true, false}
use shadowroller.Errs.{Err, bad_request, not_found, no_access, wrap}

abbrev pub is_not_found : Err → Bool
is_not_found not_found = true
is_not_found (wrap e message) = is_not_found e
is_not_found _ = false

abbrev pub is_bad_request : Err → Bool
is_bad_request bad_request = true
is_bad_request (wrap e message) = is_bad_request e
is_bad_request _ = false

abbrev pub is_no_access : Err → Bool
is_no_access no_access = true
is_no_access (wrap e message) = is_no_access e
is_no_access _ = false
