-- ===== src/Roll/Generator/Tests.antt =====
-- Runs of server/roll/generator.go, and the theorems about it at concrete bytes.
use shadowroller.Common.{◌≡◌, refl, not, ◌&&◌, ◌==◌, List, [], ◌∷◌, none, some, count, All, arith}
use shadowroller.Roll.Generator.{
  Read, bytes, failed, cancelled, not_started, source_error, is_skipped, to_roll, forward, run,
}
use shadowroller.Roll.Generator.Faces.{IsFace, below, run_spec, to_roll_fair, run-rolls_of}

abbrev two_reads : List Read
two_reads = bytes (0 ∷ 252 ∷ 251 ∷ []) ∷ failed "entropy" ∷ []

run_to_error :
    run none two_reads 9 ≡ record { rolls = 1 ∷ 6 ∷ []; outcome = source_error "entropy" }
unfolding run forward is_skipped
run_to_error = refl

run_cancelled : run none two_reads 1 ≡ record { rolls = 1 ∷ []; outcome = cancelled }
unfolding run forward is_skipped
run_cancelled = refl

run_not_started :
    run (some "deadline") two_reads 1 ≡ record { rolls = []; outcome = not_started "deadline" }
unfolding run
run_not_started = refl

run-rolls_of_example :
    (run none two_reads 1 ≡ run_spec two_reads 1) × All IsFace (run none two_reads 1).rolls
run-rolls_of_example = run-rolls_of two_reads 1

to_roll_fair_example : count (λ b. not (is_skipped b) && to_roll b == 6) (below 256) ≡ 42
to_roll_fair_example = to_roll_fair 6 (omega arith)
