-- ===== src/Tests/ParallelRuns.antt =====
-- Runs of include/marl/parallelize.hpp.
use mini_marl.Base.{ℕ, ◌≡◌, ◌≤◌, refl, [], ◌∷◌, Option, none, some, true, ok, count, pick}
use mini_marl.Parallel.{
  Exec, returned, begin_call, call_step, task_step, step, Reached, started, stepped,
}
use mini_marl.Parallel.Laws.{Reached-count}

-- The functions 7 and 8: the caller runs 7 before the task runs 8.
abbrev both : Exec
both = record { caller = returned; counter = 0; tasks = []; ran = 8 ∷ 7 ∷ [] }

both-Reached : Reached true 7 (8 ∷ []) both
unfolding begin_call call_step task_step step pick
both-Reached =
    stepped none
      (stepped (some 0) (stepped (some 0) (stepped none (stepped none started refl) refl) refl)
        refl)
      refl

Reached-count_example :
    ((who : Option ℕ) → (e' : Exec) × (step true 7 who both ≡ ok e'))
    × ((x : ℕ) → count x both.ran ≤ count x (7 ∷ 8 ∷ []))
    × (both.caller ≡ returned
        → (both.tasks ≡ []) × ((x : ℕ) → count x both.ran ≡ count x (7 ∷ 8 ∷ [])))
Reached-count_example = Reached-count 7 (8 ∷ []) both-Reached
