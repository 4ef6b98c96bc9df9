-- ===== src/Roll/Generator/Faces.antt =====
-- server/roll/generator.go: what Run sends, and that the dice are fair.
use native.Mathlib.Nat.{zero-add}
use shadowroller.Common.{
  ℕ, zero, suc, ◌+◌, ◌≤◌, ◌<◌, ◌≡◌, refl, ap, ◌⊎◌, inl, inr, ◌&&◌, not, List, [], ◌∷◌, ◌++◌, none,
  some, Bool-cases, length, length-append, count, take, All, arith, if◌then◌else◌, ltb, lt→ltb,
  ltb-add_left, ◌==◌,
}
use shadowroller.Roll.Generator.{
  is_skipped, to_roll, Read, bytes, failed, Outcome, running, cancelled, source_error, Sent,
  forward, run_loop, run,
}

abbrev pub IsFace : ℕ → Type 0
IsFace die = (1 ≤ die) × (die ≤ 6)

-- The bytes 0 to n - 1.
abbrev pub below : ℕ → List ℕ
below zero = []
below (suc n) = n ∷ below n

-- Of the 256 values of a byte, exactly 42 become any given face: the dice are fair if the bytes are.
pub to_roll_fair :
    (face : ℕ) → IsFace face → count (λ b. not (is_skipped b) && to_roll b == face) (below 256) ≡ 42
unfolding is_skipped
to_roll_fair zero h = absurd (omega arith)
to_roll_fair (suc zero) h = refl
to_roll_fair (suc (suc zero)) h = refl
to_roll_fair (suc (suc (suc zero))) h = refl
to_roll_fair (suc (suc (suc (suc zero)))) h = refl
to_roll_fair (suc (suc (suc (suc (suc zero))))) h = refl
to_roll_fair (suc (suc (suc (suc (suc (suc zero)))))) h = refl
to_roll_fair (suc (suc (suc (suc (suc (suc (suc n))))))) h = absurd (omega arith)

-- The rolls that a buffer is turned into.
abbrev pub rolls_of : List ℕ → List ℕ
rolls_of [] = []
rolls_of (b ∷ bs) = if is_skipped b then rolls_of bs else to_roll b ∷ rolls_of bs

-- The bytes that are read before an error.
abbrev pub payload : List Read → List ℕ
payload [] = []
payload (bytes buffer ∷ reads) = buffer ++ payload reads
payload (failed e ∷ reads) = []

abbrev pub ending : List Read → Outcome
ending [] = running
ending (bytes buffer ∷ reads) = ending reads
ending (failed e ∷ reads) = source_error e

rolls_of-append : (xs ys : List ℕ) → rolls_of (xs ++ ys) ≡ rolls_of xs ++ rolls_of ys
rolls_of-append [] ys = refl
rolls_of-append (x ∷ xs) ys = ground (arith, rolls_of-append xs ys)

rolls_of-IsFace : (xs : List ℕ) → All IsFace (rolls_of xs)
rolls_of-IsFace [] = tt
rolls_of-IsFace (x ∷ xs) = elim (Bool-cases (is_skipped x)) [
  | inl e ↦ rw e (rolls_of-IsFace xs)
  | inr e ↦ rw e ((omega arith, omega arith), rolls_of-IsFace xs)
]

take-All {ℓ κ} : {A : Type ℓ} (P : A → Type κ) (n : ℕ) (xs : List A) → All P xs → All P (take n xs)
take-All P zero xs h = tt
take-All P (suc n) [] h = tt
take-All P (suc n) (x ∷ xs) h = (h.0, take-All P n xs h.1)

-- `forward` sends the rolls of its buffer until the sends are used up.
forward-rolls_of :
    (buffer : List ℕ) (sends : ℕ)
    → ((sends < length (rolls_of buffer))
        × (forward buffer sends ≡ (take sends (rolls_of buffer), none)))
      ⊎ ((left : ℕ) × (sends ≡ length (rolls_of buffer) + left)
          × (forward buffer sends ≡ (rolls_of buffer, some left)))
unfolding forward
forward-rolls_of [] sends = inr (sends, omega arith, refl)
forward-rolls_of (b ∷ bs) zero = elim (Bool-cases (is_skipped b)) [
  | inl e ↦ rw (e, forward) (forward-rolls_of bs zero)
  | inr e ↦ rw (e, forward) (inl (omega arith, refl))
]
forward-rolls_of (b ∷ bs) (suc n) = elim (Bool-cases (is_skipped b)) [
  | inl e ↦ rw (e, forward) (forward-rolls_of bs (suc n))
  | inr e ↦
      rw (e, forward)
        (elim (forward-rolls_of bs n) [
          | inl (lt, q) ↦ inl (omega arith, rw q)
          | inr (left, s, q) ↦ inr (left, omega arith, rw q)
        ])
]

take-append_lt {ℓ} :
    {A : Type ℓ} (n : ℕ) (xs ys : List A) → n < length xs → take n (xs ++ ys) ≡ take n xs
take-append_lt n [] ys h = elim h [ ]
take-append_lt zero (x ∷ xs) ys h = refl
take-append_lt (suc n) (x ∷ xs) ys h = ap (◌∷◌ x) (take-append_lt n xs ys (omega arith))

take-append_add {ℓ} :
    {A : Type ℓ} (n : ℕ) (xs ys : List A) → take (length xs + n) (xs ++ ys) ≡ xs ++ take n ys
take-append_add n [] ys = rw (zero-add n)
take-append_add n (x ∷ xs) ys =
    let e : length (x ∷ xs) + n ≡ suc (length xs + n) = omega arith in
    rw e (ap (◌∷◌ x) (take-append_add n xs ys))

abbrev pub run_spec : List Read → ℕ → Sent
run_spec reads sends = record {
  rolls = take sends (rolls_of (payload reads));
  outcome = if ltb sends (length (rolls_of (payload reads))) then cancelled else ending reads;
}

run_loop_lem : (reads : List Read) (sends : ℕ) → run_loop reads sends ≡ run_spec reads sends
unfolding run_loop
run_loop_lem [] zero = refl
run_loop_lem [] (suc n) = ground arith
run_loop_lem (failed e ∷ reads) zero = refl
run_loop_lem (failed e ∷ reads) (suc n) = ground arith
run_loop_lem (bytes buffer ∷ reads) sends = elim (forward-rolls_of buffer sends) [
  | inl (lt, e) ↦ rw (
    e,
    run_loop,
    e,
    rolls_of-append buffer (payload reads),
    take-append_lt sends (rolls_of buffer) (rolls_of (payload reads)) lt,
    lt→ltb sends (length (rolls_of buffer ++ rolls_of (payload reads)))
        (omega (arith, length-append (rolls_of buffer) (rolls_of (payload reads)))),
  )
  | inr (left, s, e) ↦ rw (
    e,
    run_loop,
    e,
    run_loop_lem reads left,
    rolls_of-append buffer (payload reads),
    s,
    take-append_add left (rolls_of buffer) (rolls_of (payload reads)),
    length-append (rolls_of buffer) (rolls_of (payload reads)),
    ltb-add_left (length (rolls_of buffer)) left (length (rolls_of (payload reads))),
  )
]

-- The generator, started with a live context, sends the rolls of the bytes that its source
-- delivers before an error, in their order: each byte up to 251 as a face, the others dropped. It
-- stops early exactly when fewer sends are taken than there are rolls, and otherwise with the
-- error of the source, if it had one. Whatever is sent is a face from 1 to 6.
pub run-rolls_of :
    (reads : List Read) (sends : ℕ)
    → (run none reads sends ≡ run_spec reads sends) × All IsFace (run none reads sends).rolls
unfolding run
run-rolls_of reads sends = (
  run_loop_lem reads sends,
  rw (run_loop_lem reads sends)
      (take-All IsFace sends (rolls_of (payload reads)) (rolls_of-IsFace (payload reads))),
)
