-- ===== src/Id/Order.antt =====
-- server/id: ids follow the clock.
use shadowroller.Common.{ℕ, ◌+◌, ◌*◌, ◌/◌, ◌<◌, ◌≤◌, ◌≡◌, arith}
use shadowroller.Id.{
  timestamp_now, new_event_id, tuid_multiplier, tuid_noise_sub, build_tuid, timestamp,
}

-- An event's id is the clock's whole milliseconds, so ids never go back while the clock does not, and
-- two events a millisecond or more apart have different ids.
pub new_event_id-ordered :
    (earlier later : ℕ)
    → (new_event_id earlier ≡ earlier / 1_000_000)
      × (earlier ≤ later → new_event_id earlier ≤ new_event_id later)
      × (earlier + 1_000_000 ≤ later → new_event_id earlier < new_event_id later)
unfolding new_event_id timestamp_now
new_event_id-ordered earlier later = (omega arith, λ h. omega arith, λ h. omega arith)

-- The time read back from a timestamped id, in nanoseconds.
abbrev pub nanos_of : ℕ × ℕ → ℕ
nanos_of (seconds, nanos) = seconds * 1_000_000_000 + nanos

shifted : (d noise : ℕ) → noise < 65_536 → (d * 65_536 + noise) / 65_536 ≡ d
shifted d noise h = omega arith

-- A timestamped id with a noise below its place gives back the time it was made at, down to a tenth
-- of a second.
pub timestamp-build_tuid :
    (nanos noise : ℕ)
    → noise < tuid_noise_sub
    → (nanos_of (timestamp (build_tuid nanos noise)) ≤ nanos)
      × (nanos < nanos_of (timestamp (build_tuid nanos noise)) + tuid_multiplier)
unfolding timestamp build_tuid
timestamp-build_tuid nanos noise h =
    rw (shifted (nanos / tuid_multiplier) noise h) (omega arith, omega arith)
