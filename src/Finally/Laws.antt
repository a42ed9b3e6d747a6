-- ===== src/Finally/Laws.antt =====
-- How often a `Finally` calls its function.
use mini_marl.Base.{
  ℕ, ◌+◌, ◌≡◌, refl, List, arith, ◌==◌, ind, count, sum_over, sum_over-pick, if◌then◌else◌,
}
use mini_marl.Finally.{
  FinallyImpl, Scopes, make_finally, move_from, end_scope, Reached, started, makes, moves, ends,
}

-- How often an object is still to call `f`.
abbrev pub due_calls : ℕ → FinallyImpl → ℕ
due_calls f o = if o.valid_ then ind (o.func_ == f) else 0

-- In each state, the calls of a function and those that objects are still to make are as many as the
-- objects made for it and the moves from its objects that had been moved from before.
pub Reached-due_calls :
    {made again : List ℕ} {s : Scopes}
    → Reached made again s
    → (f : ℕ) → count f s.calls + sum_over (due_calls f) s.objects ≡ count f made + count f again
unfolding make_finally move_from end_scope
Reached-due_calls started f = refl
Reached-due_calls (makes {made} {again} {s} g r) f = omega (arith, Reached-due_calls r f)
Reached-due_calls (moves {made} {again} {s} i o rest r h) f =
    ground (arith, Reached-due_calls r f, sum_over-pick (due_calls f) i s.objects rest o h)
Reached-due_calls (ends {made} {again} {s} i o rest r h) f =
    ground (arith, Reached-due_calls r f, sum_over-pick (due_calls f) i s.objects rest o h)
