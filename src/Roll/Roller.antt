-- ===== src/Roll/Roller.antt =====
-- server/roll/roller.go and server/roll/roll.go. The dice channel is the list of the values that
-- it delivers before it is closed; a receive from the empty list is a receive from the closed
-- channel. Pools and dice are `int` in the source and never negative where they are used.
pub mod Rounds
pub mod Rerolls
mod Tests
use mathlib.Core.Option
use shadowroller.Common.{
  ℕ, zero, suc, ◌+◌, ◌-◌, Bool, ◌||◌, List, [], ◌∷◌, ◌++◌, Option, none, some, String, length,
  replicate, ltb, ◌==◌, if◌then◌else◌,
}

-- `ErrChannelClosed`, or the error of the request's context.
pub data Error : Type 0 where
  channel_closed : Error
  context : String → Error

-- `roll == 5 || roll == 6`
abbrev pub is_hit : ℕ → Bool
is_hit die = die == 5 || die == 6

abbrev pub is_six : ℕ → Bool
is_six die = die == 6

-- `die < 5`
abbrev pub is_miss : ℕ → Bool
is_miss die = ltb die 5

-- The buffer, the named results of `Fill`, and what is left in the channel.
pub record Filled : Type 0 where
  pub rolls : List ℕ
  pub hits : ℕ
  pub err : Option Error
  pub rest : List ℕ

-- `ctx.Err()`
abbrev pub ctx_err : Option String → Option Error
ctx_err ctx = Option.map context ctx

fill_loop : Option String → List ℕ → List ℕ → ℕ → Filled
fill_loop ctx [] dice hits = record { rolls = []; hits = hits; err = ctx_err ctx; rest = dice }
fill_loop ctx (slot ∷ slots) [] hits = record {
  rolls = slot ∷ slots;
  hits = 0;
  err = some channel_closed;
  rest = [];
}
fill_loop ctx (slot ∷ slots) (roll ∷ dice) hits =
    let r = fill_loop ctx slots dice (if is_hit roll then suc hits else hits) in
    record r { rolls = roll ∷ r.rolls }

pub fill : Option String → List ℕ → List ℕ → Filled
unfolding fill_loop
fill ctx rolls dice = fill_loop ctx rolls dice 0

pub roll : Option String → ℕ → List ℕ → Filled
roll ctx count dice = fill ctx (replicate count 0) dice

-- The variables of one round of `ExplodingSixes`.
pub record Round : Type 0 where
  pub rolls : List ℕ
  pub hits : ℕ
  pub sixes : ℕ
  pub rest : List ℕ

add_die : ℕ → Round → Round
add_die die r = record r { rolls = die ∷ r.rolls }

-- The inner loop; `none` is the return at a closed channel.
roll_round : ℕ → List ℕ → ℕ → ℕ → Option Round
unfolding add_die
roll_round zero dice hits sixes =
    some (record { rolls = []; hits = hits; sixes = sixes; rest = dice })
roll_round (suc pool) [] hits sixes = none
roll_round (suc pool) (die ∷ dice) hits sixes = Option.map (add_die die) (
    roll_round pool dice (if is_hit die then suc hits else hits)
      (if is_six die then suc sixes else sixes))

-- The results of `ExplodingSixes`, and what is left in the channel.
pub record Exploded : Type 0 where
  pub results : List (List ℕ)
  pub hits : ℕ
  pub err : Option Error
  pub rest : List ℕ

-- The outer loop on fuel, one for each round; `none` means that the fuel ran out.
explode_loop : Option String → ℕ → ℕ → List ℕ → List (List ℕ) → ℕ → Option Exploded
explode_loop ctx zero pool dice results hits = none
explode_loop ctx (suc fuel) zero dice results hits =
    some (record { results = results; hits = hits; err = ctx_err ctx; rest = dice })
explode_loop ctx (suc fuel) (suc pool) dice results hits =
    elim (roll_round (suc pool) dice hits 0) [
      | none ↦ some (record { results = results; hits = 0; err = some channel_closed; rest = [] })
      | some r ↦ explode_loop ctx fuel r.sixes r.rest (results ++ r.rolls ∷ []) r.hits
    ]

-- A round takes at least one die, so the dice left bound the rounds.
pub exploding_sixes : Option String → ℕ → List ℕ → Option Exploded
unfolding explode_loop
exploding_sixes ctx pool dice = explode_loop ctx (suc (length dice)) pool dice [] 0

misses : List ℕ → ℕ → ℕ
misses [] pool = pool
misses (die ∷ dice) pool = misses dice (if is_miss die then suc pool else pool)

pub reroll_misses : Option String → List ℕ → List ℕ → Filled
unfolding misses
reroll_misses ctx original dice =
    let pool = misses original 0 in
    let hits = length original - pool in
    let r = fill ctx (replicate pool 0) dice in record r { hits = hits + r.hits }

sum_from : ℕ → List ℕ → ℕ
sum_from result [] = result
sum_from result (die ∷ dice) = sum_from (result + die) dice

pub sum_dice : List ℕ → ℕ
unfolding sum_from
sum_dice dice = sum_from 0 dice

append_all : List ℕ → List (List ℕ) → List ℕ
append_all result [] = result
append_all result (slice ∷ slices) = append_all (result ++ slice) slices

-- `none` is the panic of `ints[0]` on an empty slice.
pub flat_map : List (List ℕ) → Option (List ℕ)
unfolding append_all
flat_map [] = none
flat_map (first ∷ ints) = some (append_all (replicate (length first) 0) (first ∷ ints))
