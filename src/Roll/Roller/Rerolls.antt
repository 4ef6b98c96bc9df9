-- ===== src/Roll/Roller/Rerolls.antt =====
-- server/roll/roller.go: Fill, and RerollMisses, the Second Chance rule.
use mathlib.Core.List.{append-nil, append_assoc}
use native.Mathlib.Nat.{zero-add}
use shadowroller.Common.{
  ℕ, zero, suc, ◌+◌, ◌≤◌, ◌<◌, ◌≡◌, refl, sym, ap, ◌∙◌, List, [], ◌∷◌, ◌++◌, Option, some, String,
  length, replicate, count, concat, All, arith, if◌then◌else◌,
}
use shadowroller.Roll.Roller.{
  channel_closed, is_hit, is_miss, ctx_err, Filled, fill_loop, fill, misses, reroll_misses,
  append_all, flat_map,
}

abbrev pub filled : Option String → List ℕ → ℕ → List ℕ → Filled
filled ctx rolls hits rest = record { rolls = rolls; hits = hits; err = ctx_err ctx; rest = rest }

fill_loop-append :
    (ctx : Option String) (slots dice rest : List ℕ) (hits : ℕ)
    → length slots ≡ length dice
    → fill_loop ctx slots (dice ++ rest) hits ≡ filled ctx dice (hits + count is_hit dice) rest
unfolding fill_loop
fill_loop-append ctx [] [] rest hits h = ground arith
fill_loop-append ctx [] (x ∷ dice) rest hits h = absurd (omega arith)
fill_loop-append ctx (s ∷ slots) [] rest hits h = absurd (omega arith)
fill_loop-append ctx (s ∷ slots) (x ∷ dice) rest hits h =
    rw (fill_loop-append ctx slots dice rest (if is_hit x then suc hits else hits) (omega arith))
      (ground arith)

fill_loop-short :
    (ctx : Option String) (slots dice : List ℕ) (hits : ℕ)
    → length dice < length slots
    → ((fill_loop ctx slots dice hits).err ≡ some channel_closed)
      × ((fill_loop ctx slots dice hits).hits ≡ 0)
      × (length (fill_loop ctx slots dice hits).rolls ≡ length slots)
unfolding fill_loop
fill_loop-short ctx [] dice hits h = absurd (omega arith)
fill_loop-short ctx (s ∷ slots) [] hits h = (refl, refl, refl)
fill_loop-short ctx (s ∷ slots) (x ∷ dice) hits h =
    let (e, z, l) =
      fill_loop-short ctx slots dice (if is_hit x then suc hits else hits) (omega arith) in
    (e, z, ap suc l)

-- `Fill` takes as many dice as the buffer has slots, in their order, counts the fives and sixes
-- among them, and leaves the rest. If the channel closes before the buffer is full it reports
-- that, and no hits; the buffer keeps its length.
pub fill-append :
    (ctx : Option String) (slots dice rest : List ℕ)
    → ((length slots ≡ length dice
          → fill ctx slots (dice ++ rest) ≡ filled ctx dice (count is_hit dice) rest)
        × (length dice < length slots
            → ((fill ctx slots dice).err ≡ some channel_closed)
              × ((fill ctx slots dice).hits ≡ 0)
              × (length (fill ctx slots dice).rolls ≡ length slots)))
unfolding fill
fill-append ctx slots dice rest =
    (λ h. fill_loop-append ctx slots dice rest 0 h ∙ ground arith, fill_loop-short ctx slots dice 0)

misses-count : (dice : List ℕ) (pool : ℕ) → misses dice pool ≡ pool + count is_miss dice
unfolding misses
misses-count [] pool = omega arith
misses-count (x ∷ dice) pool =
    ground (arith, misses-count dice (if is_miss x then suc pool else pool))

-- A die of a six-sided roll is a hit or a miss, and not both.
hit_or_miss :
    (dice : List ℕ) → All (λ d. d ≤ 6) dice → count is_hit dice + count is_miss dice ≡ length dice
hit_or_miss [] h = omega arith
hit_or_miss (x ∷ dice) h = ground (arith, hit_or_miss dice h.1)

pub length-replicate {ℓ} : {A : Type ℓ} (n : ℕ) (a : A) → length (replicate n a) ≡ n
length-replicate zero a = refl
length-replicate (suc n) a = ap suc (length-replicate n a)

-- Second Chance on a roll of six-sided dice, where the channel delivers as many dice as the roll
-- had misses: exactly those dice are the new roll, and the total is the hits of the old roll,
-- which are kept, and those of the new one.
pub reroll_misses-append :
    (ctx : Option String) (original dice rest : List ℕ)
    → All (λ d. d ≤ 6) original
    → length dice ≡ count is_miss original
    → reroll_misses ctx original (dice ++ rest)
      ≡ filled ctx dice (count is_hit original + count is_hit dice) rest
unfolding reroll_misses
reroll_misses-append ctx original dice rest six e =
    rw
      (
        misses-count original 0,
        zero-add (count is_miss original),
        (fill-append ctx (replicate (count is_miss original) 0) dice rest).0
            (length-replicate (count is_miss original) 0 ∙ sym e),
      )
      (ground (arith, hit_or_miss original six))

append_all-concat :
    (result : List ℕ) (slices : List (List ℕ)) → append_all result slices ≡ result ++ concat slices
unfolding append_all
append_all-concat result [] = sym (append-nil result)
append_all-concat result (slice ∷ slices) =
    append_all-concat (result ++ slice) slices ∙ append_assoc result slice (concat slices)

-- `FlatMap` of rounds, where there are any: all their dice in order, behind as many zeros as the
-- first round has dice.
pub flat_map-concat :
    (first : List ℕ) (rounds : List (List ℕ))
    → flat_map (first ∷ rounds) ≡ some (replicate (length first) 0 ++ concat (first ∷ rounds))
unfolding flat_map
flat_map-concat first rounds =
    ap some (append_all-concat (replicate (length first) 0) (first ∷ rounds))
