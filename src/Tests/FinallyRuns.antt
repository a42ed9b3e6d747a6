-- ===== src/Tests/FinallyRuns.antt =====
-- Runs of include/marl/finally.hpp.
use mini_marl.Base.{◌+◌, ◌≡◌, refl, [], ◌∷◌, count, sum_over, pick}
use mini_marl.Finally.{
  Scopes, make_finally, move_from, end_scope, Reached, started, makes, moves, ends,
}
use mini_marl.Finally.Laws.{due_calls, Reached-due_calls}

-- A function that is moved from its object twice: both new objects call it.
abbrev twice : Scopes
twice = record { objects = []; calls = 5 ∷ 5 ∷ [] }

twice-Reached : Reached (5 ∷ []) (5 ∷ []) twice
unfolding make_finally move_from end_scope pick
twice-Reached =
    ends 0 _ _
      (ends 0 _ _ (ends 1 _ _ (moves 1 _ _ (moves 0 _ _ (makes 5 started) refl) refl) refl) refl)
      refl

Reached-due_calls_example :
    count 5 twice.calls + sum_over (due_calls 5) twice.objects ≡ count 5 (5 ∷ []) + count 5 (5 ∷ [])
Reached-due_calls_example = Reached-due_calls twice-Reached 5
