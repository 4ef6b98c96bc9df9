-- ===== src/Id/Tests.antt =====
-- The ids of server/id at concrete times.
use shadowroller.Common.{◌+◌, ◌<◌, ◌≤◌, ◌≡◌, refl, arith}
use shadowroller.Id.{tuid_multiplier, build_tuid, timestamp, url_safe_base64}
use shadowroller.Id.Order.{nanos_of, timestamp-build_tuid}

safe : url_safe_base64 "a+b/c=" ≡ "a-b_c="
unfolding url_safe_base64
safe = refl

timestamp-build_tuid_example :
    (nanos_of (timestamp (build_tuid 12_345_678_901 777)) ≤ 12_345_678_901)
    × (12_345_678_901 < nanos_of (timestamp (build_tuid 12_345_678_901 777)) + tuid_multiplier)
timestamp-build_tuid_example = timestamp-build_tuid 12_345_678_901 777 (omega arith)
