-- ===== src/Id.antt =====
-- server/id: event ids from the clock, timestamped ids, and the id texts.
pub mod Order
mod Tests
use Prim.Native.Char.{Char, code}
use Prim.Native.String
use shadowroller.Common.{ℕ, ◌+◌, ◌-◌, ◌*◌, ◌/◌, ◌%◌, ◌^◌, ◌==◌, String, if◌then◌else◌}

-- The number of nanoseconds in a millisecond.
abbrev pub ts_multiplier : ℕ
ts_multiplier = 1_000_000

-- `TimestampNow` at the clock's `UnixNano()`.
unfoldable pub timestamp_now : ℕ → ℕ
timestamp_now now_nanos = (now_nanos - now_nanos % ts_multiplier) / ts_multiplier

unfoldable pub new_event_id : ℕ → ℕ
unfolding timestamp_now
new_event_id now_nanos = timestamp_now now_nanos

abbrev pub tuid_multiplier : ℕ
tuid_multiplier = 100_000_000

abbrev pub tuid_noise_sub : ℕ
tuid_noise_sub = 2 ^ 16

-- `BuildTUID`, for a time and a noise that are not negative, below the overflow of `int64`.
unfoldable pub build_tuid : ℕ → ℕ → ℕ
build_tuid nanos noise = nanos / tuid_multiplier * 2 ^ 16 + noise

-- The seconds and nanoseconds that `Timestamp` hands to `time.Unix`.
unfoldable pub timestamp : ℕ → ℕ × ℕ
timestamp tuid =
    let shifted = tuid / tuid_noise_sub in (shifted / 10, shifted % 10 * tuid_multiplier)

-- `strings.ReplaceAll` of one character by another.
replace : ℕ → Char → String → String
replace old new String.[] = ""
replace old new (String.◌∷◌ c s) = String.◌∷◌ (if code c == old then new else c) (replace old new s)

unfoldable pub url_safe_base64 : String → String
unfolding replace
url_safe_base64 id = replace b'/' "_" (replace b'+' "-" id)
