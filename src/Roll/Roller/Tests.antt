-- ===== src/Roll/Roller/Tests.antt =====
-- Runs of server/roll/roller.go, and the theorems about it at concrete dice.
use shadowroller.Common.{ℕ, ◌≡◌, refl, ◌⊎◌, List, [], ◌∷◌, ◌++◌, none, some, count, concat, arith}
use shadowroller.Roll.Roller.{
  is_hit, fill, roll, roll_round, exploding_sixes, reroll_misses, sum_dice, flat_map,
}
use shadowroller.Roll.Roller.Rounds.{
  Explodes, HasExplosion, exploded, cut_short, exploding_sixes-rounds, exploding_sixes_total,
}
use shadowroller.Roll.Roller.Rerolls.{filled, reroll_misses-append, flat_map-concat}

abbrev three_rounds : List (List ℕ)
three_rounds = (6 ∷ 2 ∷ 6 ∷ []) ∷ (5 ∷ 6 ∷ []) ∷ (1 ∷ []) ∷ []

exploding_three_rounds :
    exploding_sixes none 3 (6 ∷ 2 ∷ 6 ∷ 5 ∷ 6 ∷ 1 ∷ 4 ∷ [])
    ≡ some (exploded none three_rounds 4 (4 ∷ []))
unfolding exploding_sixes roll_round
exploding_three_rounds = refl

exploding_cut_short : exploding_sixes none 2 (6 ∷ 5 ∷ []) ≡ some (cut_short ((6 ∷ 5 ∷ []) ∷ []))
unfolding exploding_sixes roll_round
exploding_cut_short = refl

roll_two : roll (some "late") 2 (5 ∷ 1 ∷ 3 ∷ []) ≡ filled (some "late") (5 ∷ 1 ∷ []) 1 (3 ∷ [])
unfolding roll fill
roll_two = refl

reroll_three : reroll_misses none (1 ∷ 5 ∷ 4 ∷ []) (6 ∷ 2 ∷ []) ≡ filled none (6 ∷ 2 ∷ []) 2 []
unfolding reroll_misses fill
reroll_three = refl

sum_three : sum_dice (1 ∷ 2 ∷ 3 ∷ []) ≡ 6
unfolding sum_dice
sum_three = refl

exploding_sixes-rounds_example :
    exploding_sixes none 3 (concat three_rounds ++ 4 ∷ [])
    ≡ some (exploded none three_rounds (count is_hit (concat three_rounds)) (4 ∷ []))
exploding_sixes-rounds_example = exploding_sixes-rounds none 3 three_rounds (4 ∷ []) (omega arith)

exploding_sixes_total_example :
    ((rounds : List (List ℕ)) × (rest : List ℕ) × Explodes 2 rounds
      × (6 ∷ 5 ∷ [] ≡ concat rounds ++ rest)
      × (exploding_sixes none 2 (6 ∷ 5 ∷ [])
          ≡ some (exploded none rounds (count is_hit (concat rounds)) rest)))
    ⊎ ((rounds : List (List ℕ)) × (exploding_sixes none 2 (6 ∷ 5 ∷ []) ≡ some (cut_short rounds))
        × (¬ HasExplosion 2 (6 ∷ 5 ∷ [])))
exploding_sixes_total_example = exploding_sixes_total none 2 (6 ∷ 5 ∷ [])

reroll_misses-append_example :
    reroll_misses none (1 ∷ 5 ∷ 4 ∷ []) (6 ∷ 2 ∷ 3 ∷ []) ≡ filled none (6 ∷ 2 ∷ []) 2 (3 ∷ [])
reroll_misses-append_example =
    reroll_misses-append none (1 ∷ 5 ∷ 4 ∷ []) (6 ∷ 2 ∷ []) (3 ∷ []) (omega arith) refl

flat_map-concat_example : flat_map ((6 ∷ 2 ∷ []) ∷ (1 ∷ []) ∷ []) ≡ some (0 ∷ 0 ∷ 6 ∷ 2 ∷ 1 ∷ [])
flat_map-concat_example = flat_map-concat (6 ∷ 2 ∷ []) ((1 ∷ []) ∷ [])

abbrev two_slots : List ℕ
two_slots = 0 ∷ 0 ∷ []

abbrev two_dice : List ℕ
two_dice = 5 ∷ 1 ∷ []
