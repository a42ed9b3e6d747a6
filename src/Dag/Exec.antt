-- ===== src/Dag/Exec.antt =====
-- `run` and `invoke` of include/marl/dag.hpp. An invocation is a walk along the graph: it runs a node,
-- notifies the nodes behind it, schedules all but one of those that became ready, and goes on with
-- that one. The tasks that it schedules are walks too, and the steps of all walks interleave: a step
-- runs a node's work, or does one atomic `notify`, or ends a walk. `bound` says whether a scheduler is
-- bound to the threads of the run.
use mini_marl.Base.{
  pick, ℕ, ◌+◌, ◌-◌, ◌≡◌, Bool, true, false, List, [], ◌∷◌, Option, none, some, ltb, ◌==◌,
  if◌then◌else◌, get_elem?, Run, ok, ◌>>=◌, ◌>>◌, marl_assert,
}
use mini_marl.Dag.{Node, at, notify}

-- Where an invocation stands: at its call for a node, in the loop over `outs` with the value of
-- `toInvoke`, or behind the last node.
pub data Point : Type 0 where
  enter : ℕ → Point
  looping : List ℕ → Option ℕ → Point
  ended : Point

-- A walk is a scheduled task, or the call of `run`.
pub record Walk : Type 0 where
  pub scheduled : Bool
  pub at_ : Point

-- `wait_group` counts tasks that exist, and is a number. `invoked` are the nodes, the newest first.
pub record Exec : Type 0 where
  pub counters : List ℕ
  pub walks : List Walk
  pub wait_group : ℕ
  pub invoked : List ℕ
  pub returned : Bool

-- `run`, up to `invoke` of the root: `initCounters` copies the initial counters.
unfoldable pub start_run : List ℕ → Exec
start_run counters = record {
  counters = counters;
  walks = record { scheduled = false; at_ = enter 0 } ∷ [];
  wait_group = 0;
  invoked = [];
  returned = false;
}

abbrev pub continue_at : Bool → Point → Exec → Exec
continue_at s p e = record e { walks = record { scheduled = s; at_ = p } ∷ e.walks }

-- The body of the loop for a node that is ready: the node that was to be invoked is scheduled, for which
-- a scheduler has to be bound.
unfoldable pub ready_node : Bool → Bool → ℕ → List ℕ → Option ℕ → Exec → Run Exec
ready_node bound s o outs none e = ok (continue_at s (looping outs (some o)) e)
ready_node bound s o outs (some p) e = do
  let added : Exec = record e { wait_group = e.wait_group + 1 }
  marl_assert bound
  ok (continue_at s (looping outs (some o)) (continue_at true (enter p) added))

-- The end of a task, `w.done()`, or `wg.wait()`, which returns when the counter is 0.
unfoldable pub end_walk : Bool → Exec → Run Exec
end_walk true e = do
  marl_assert (ltb 0 e.wait_group)
  ok (record e { wait_group = e.wait_group - 1 })
end_walk false e =
    ok (if e.wait_group == 0 then record e { returned = true } else continue_at false ended e)

module _ {W : Type 0} (bound : Bool) (nodes : List (Node W)) where
  -- A step of the walk that has been taken out of `walks`.
  unfoldable pub advance : Bool → Point → Exec → Run Exec
  unfolding notify ready_node end_walk
  advance s (enter n) e = do
    node ← at (get_elem? nodes n)
    ok (continue_at s (looping node.outs none) (record e { invoked = n ∷ e.invoked }))
  advance s (looping (o ∷ outs) to_invoke) e = do
    (ready, counters') ← notify nodes o e.counters
    let e' = record e { counters = counters' }
    let more = ready_node bound s o outs to_invoke e'
    if ready then more else ok (continue_at s (looping outs to_invoke) e')
  advance s (looping [] (some n)) e = ok (continue_at s (enter n) e)
  advance s (looping [] none) e = ok (continue_at s ended e)
  advance s ended e = end_walk s e

module _ {W : Type 0} (bound : Bool) (nodes : List (Node W)) where
  unfoldable pub step_of : Option (Walk × List Walk) → Exec → Run Exec
  unfolding advance
  step_of none e = ok e
  step_of (some (w, rest)) e = advance bound nodes w.scheduled w.at_ (record e { walks = rest })

  -- A step of the walk at the place `i`; without one nothing happens.
  unfoldable pub step : ℕ → Exec → Run Exec
  unfolding step_of pick
  step i e = step_of (pick i e.walks) e

  -- The states of a run in which the walks take their steps in any order.
  pub data Reached (counters : List ℕ) : Exec → Type 0 where
    started : Reached counters (start_run counters)
    stepped : {e e' : Exec} (i : ℕ) → Reached counters e → step i e ≡ ok e' → Reached counters e'

  -- The steps of a schedule.
  unfoldable pub steps : List ℕ → Exec → Run Exec
  unfolding step
  steps [] e = ok e
  steps (i ∷ is) e = do e' ← step i e; steps is e'
