-- ===== src/Roll/Roller/Rounds.antt =====
-- server/roll/roller.go, ExplodingSixes: the rule that its rounds follow.
use mathlib.Core.List.{append_assoc, append-nil}
use native.Mathlib.Nat.{zero-add, add-zero, add_assoc}
use shadowroller.Common.{
  ℕ, zero, suc, ◌+◌, ◌<◌, ◌≡◌, refl, sym, ap, ◌∙◌, ◌⊎◌, inl, inr, ◌≢◌, List, [], ◌∷◌, ◌++◌, Option,
  none, some, String, length, length-append, count, count-append, concat, arith, if◌then◌else◌,
}
use shadowroller.Roll.Roller.{
  channel_closed, is_hit, is_six, ctx_err, Round, roll_round, Exploded, explode_loop,
  exploding_sixes,
}

-- A pool explodes into rounds: each round rolls the whole pool, and its sixes are the next pool.
abbrev pub Explodes : ℕ → List (List ℕ) → Type 0
Explodes pool [] = pool ≡ 0
Explodes pool (r ∷ rs) = (0 < pool) × (length r ≡ pool) × Explodes (count is_six r) rs

abbrev round_of : ℕ → ℕ → List ℕ → List ℕ → Round
round_of hits sixes xs rest = record {
  rolls = xs;
  hits = hits + count is_hit xs;
  sixes = sixes + count is_six xs;
  rest = rest;
}

roll_round-append :
    (xs rest : List ℕ) (hits sixes : ℕ)
    → roll_round (length xs) (xs ++ rest) hits sixes ≡ some (round_of hits sixes xs rest)
unfolding roll_round
roll_round-append [] rest hits sixes = ground arith
roll_round-append (x ∷ xs) rest hits sixes =
    rw
      (roll_round-append xs rest (if is_hit x then suc hits else hits)
        (if is_six x then suc sixes else sixes))
      (ground arith)

roll_round-cases :
    (pool : ℕ) (dice : List ℕ) (hits sixes : ℕ)
    → ((roll_round pool dice hits sixes ≡ none) × (length dice < pool))
      ⊎ ((xs rest : List ℕ) × (length xs ≡ pool) × (dice ≡ xs ++ rest))
unfolding roll_round
roll_round-cases zero dice hits sixes = inr ([], dice, refl, refl)
roll_round-cases (suc pool) [] hits sixes = inl (refl, omega arith)
roll_round-cases (suc pool) (die ∷ dice) hits sixes =
    elim (roll_round-cases pool dice (if is_hit die then suc hits else hits)
      (if is_six die then suc sixes else sixes)) [
        | inl (e, short) ↦ inl (rw e, omega arith)
        | inr (xs, rest, e, split) ↦ inr (die ∷ xs, rest, ap suc e, ap (◌∷◌ die) split)
      ]

-- What `explode_loop` computes from the rounds that the dice hold.
abbrev pub exploded : Option String → List (List ℕ) → ℕ → List ℕ → Exploded
exploded ctx rounds hits rest = record {
  results = rounds;
  hits = hits;
  err = ctx_err ctx;
  rest = rest;
}

explode_loop-round :
    (ctx : Option String) (fuel : ℕ) (xs rest : List ℕ) (before : List (List ℕ)) (hits : ℕ)
    → 0 < length xs
    → explode_loop ctx (suc fuel) (length xs) (xs ++ rest) before hits
      ≡ explode_loop ctx fuel (count is_six xs) rest (before ++ xs ∷ []) (hits + count is_hit xs)
unfolding explode_loop
explode_loop-round ctx fuel [] rest before hits h = elim h [ ]
explode_loop-round ctx fuel (x ∷ xs) rest before hits h =
    rw (roll_round-append (x ∷ xs) rest hits 0, explode_loop, zero-add (count is_six (x ∷ xs)))

explode_loop-rounds :
    (ctx : Option String) (fuel pool : ℕ) (rounds : List (List ℕ)) (rest : List ℕ)
    (before : List (List ℕ)) (hits : ℕ)
    → Explodes pool rounds
    → length (concat rounds) < fuel
    → explode_loop ctx fuel pool (concat rounds ++ rest) before hits
      ≡ some (exploded ctx (before ++ rounds) (hits + count is_hit (concat rounds)) rest)
explode_loop-rounds ctx zero pool rounds rest before hits h enough = elim enough [ ]
explode_loop-rounds ctx (suc fuel) pool [] rest before hits h enough =
    rw (h, append-nil before, add-zero hits) (unfold explode_loop in refl)
explode_loop-rounds ctx (suc fuel) pool (r ∷ rs) rest before hits (pos, e, h) enough = rw (
  ← e,
  append_assoc r (concat rs) rest,
  explode_loop-round ctx fuel r (concat rs ++ rest) before hits (omega arith),
  explode_loop-rounds ctx fuel (count is_six r) rs rest (before ++ r ∷ []) (hits + count is_hit r) h
      (omega (arith, length-append r (concat rs))),
  append_assoc before (r ∷ []) rs,
  count-append is_hit r (concat rs),
  add_assoc hits (count is_hit r) (count is_hit (concat rs)),
)

-- The dice begin with a whole explosion of the pool.
abbrev pub HasExplosion : ℕ → List ℕ → Type 0
HasExplosion pool dice =
    (rounds : List (List ℕ)) × (rest : List ℕ) × Explodes pool rounds
    × (dice ≡ concat rounds ++ rest)

-- The results at a closed channel: the rounds before, and no hits.
abbrev pub cut_short : List (List ℕ) → Exploded
cut_short rounds = record { results = rounds; hits = 0; err = some channel_closed; rest = [] }

explode_loop-cases :
    (ctx : Option String) (fuel pool : ℕ) (dice : List ℕ) (before : List (List ℕ)) (hits : ℕ)
    → length dice < fuel
    → HasExplosion pool dice
      ⊎ ((rounds : List (List ℕ)) × (explode_loop ctx fuel pool dice before hits
            ≡ some (cut_short rounds)))
explode_loop-cases ctx zero pool dice before hits enough = elim enough [ ]
explode_loop-cases ctx (suc fuel) zero dice before hits enough = inl ([], dice, refl, refl)
explode_loop-cases ctx (suc fuel) (suc pool) dice before hits enough =
    elim (roll_round-cases (suc pool) dice hits 0) [
      | inl (e, _) ↦ inr (before, unfold explode_loop in rw (e, explode_loop))
      | inr (xs, rest, e, split) ↦
          elim (explode_loop-cases ctx fuel (count is_six xs) rest (before ++ xs ∷ [])
            (hits + count is_hit xs) (omega (arith, ap length split, length-append xs rest))) [
              | inl (rs, after, h, later) ↦ inl (
                xs ∷ rs,
                after,
                (omega arith, e, h),
                split ∙ ap (◌++◌ xs) later ∙ sym (append_assoc xs (concat rs) after),
              )
              | inr (rs, q) ↦ inr (
                rs,
                rw (split, ← e, explode_loop-round ctx fuel xs rest before hits (omega arith)) q,
              )
            ]
    ]

-- Exploding Sixes, where the channel delivers the dice of a whole explosion: the results are
-- its rounds (the whole pool first, then as many dice as the round before had sixes, until no
-- six is left), the hits are its fives and sixes, the rest of the channel is untouched, and the
-- error is that of the context.
pub exploding_sixes-rounds :
    (ctx : Option String) (pool : ℕ) (rounds : List (List ℕ)) (rest : List ℕ)
    → Explodes pool rounds
    → exploding_sixes ctx pool (concat rounds ++ rest)
      ≡ some (exploded ctx rounds (count is_hit (concat rounds)) rest)
unfolding exploding_sixes
exploding_sixes-rounds ctx pool rounds rest h = rw (
  explode_loop-rounds ctx (suc (length (concat rounds ++ rest))) pool rounds rest [] 0 h
      (omega (arith, length-append (concat rounds) rest)),
  zero-add (count is_hit (concat rounds)),
)

exploded-ne-cut_short :
    (ctx : Option String) (rounds : List (List ℕ)) (hits : ℕ) (rest : List ℕ)
    (others : List (List ℕ))
    → some (exploded ctx rounds hits rest) ≢ some (cut_short others)
exploded-ne-cut_short none rounds hits rest others e = cc
exploded-ne-cut_short (some m) rounds hits rest others e = cc

-- Exploding Sixes always returns. Either the dice begin with a whole explosion of the pool, or
-- they do not, and then it reports the closed channel and no hits.
pub exploding_sixes_total :
    (ctx : Option String) (pool : ℕ) (dice : List ℕ)
    → ((rounds : List (List ℕ)) × (rest : List ℕ) × Explodes pool rounds
        × (dice ≡ concat rounds ++ rest)
        × (exploding_sixes ctx pool dice
            ≡ some (exploded ctx rounds (count is_hit (concat rounds)) rest)))
      ⊎ ((rounds : List (List ℕ)) × (exploding_sixes ctx pool dice ≡ some (cut_short rounds))
          × (¬ HasExplosion pool dice))
unfolding exploding_sixes
exploding_sixes_total ctx pool dice =
    elim (explode_loop-cases ctx (suc (length dice)) pool dice [] 0 (omega arith)) [
      | inl (rounds, rest, h, split) ↦
          inl (rounds, rest, h, split, rw split (exploding_sixes-rounds ctx pool rounds rest h))
      | inr (rs, e) ↦ inr (
        rs,
        e,
        λ (rounds, rest, h, split).
            exploded-ne-cut_short ctx rounds _ rest rs
              (sym (exploding_sixes-rounds ctx pool rounds rest h) ∙ rw (← split) e),
      )
    ]
