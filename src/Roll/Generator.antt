-- ===== src/Roll/Generator.antt =====
-- server/roll/generator.go: random bytes become rolls.
pub mod Faces
mod Tests
use shadowroller.Common.{
  ℕ, zero, suc, ◌+◌, ◌-◌, ◌%◌, Bool, true, false, List, [], ◌∷◌, ◌++◌, Option, none, some, String,
  ltb,
}

abbrev pub roll_max : ℕ
roll_max = 6

-- `math.MaxUint8 - ((math.MaxUint8 % rollMax) + 1)`
abbrev pub input_byte_max : ℕ
input_byte_max = 255 - (255 % roll_max + 1)

-- `randByte > inputByteMax`: such a byte is skipped.
pub is_skipped : ℕ → Bool
is_skipped byte = ltb input_byte_max byte

-- `int((randByte % rollMax) + 1)`, in `uint8`.
abbrev pub to_roll : ℕ → ℕ
to_roll byte = (byte % roll_max + 1) % 256

-- What a call of `source.Read(buffer)` leaves: a full buffer, or an error.
pub data Read : Type 0 where
  bytes : List ℕ → Read
  failed : String → Read

-- How `Run` ended; `running` if it has not, after the reads that are given.
pub data Outcome : Type 0 where
  running cancelled : Outcome
  not_started : String → Outcome
  source_error : String → Outcome

-- The rolls that were sent, and the outcome. The channel is closed when the outcome is not
-- `running`.
pub record Sent : Type 0 where
  pub rolls : List ℕ
  pub outcome : Outcome

-- The inner loop. The scheduler decides at each `select` whether the send is taken or
-- `ctx.Done()`: the number is how many sends are still taken before that. The second result is
-- `none` when `Run` returns from within the loop.
pub forward : List ℕ → ℕ → List ℕ × Option ℕ
forward [] sends = ([], some sends)
forward (byte ∷ buffer) sends = elim (is_skipped byte) [
  | true ↦ forward buffer sends
  | false ↦ elim sends [
    | zero ↦ ([], none)
    | suc left ↦ let r = forward buffer left in (to_roll byte ∷ r.0, r.1)
  ]
]

run_loop : List Read → ℕ → Sent
run_loop [] sends = record { rolls = []; outcome = running }
run_loop (failed e ∷ reads) sends = record { rolls = []; outcome = source_error e }
run_loop (bytes buffer ∷ reads) sends =
    let sent = forward buffer sends in
    elim sent.1 [
      | none ↦ record { rolls = sent.0; outcome = cancelled }
      | some left ↦ let r = run_loop reads left in record r { rolls = sent.0 ++ r.rolls }
    ]

-- `Run`: the first argument is `ctx.Err()` at the start.
pub run : Option String → List Read → ℕ → Sent
unfolding run_loop
run (some e) reads sends = record { rolls = []; outcome = not_started e }
run none reads sends = run_loop reads sends
