-- ===== src/Tests/DagRuns.antt =====
-- Runs of a graph: include/marl/dag.hpp.
use mini_marl.Base.{ℕ, ◌≡◌, ◌<◌, ◌↔◌, refl, [], ◌∷◌, none, some, true, arith, ok, ◌>>=◌, count}
use mini_marl.Dag.{Builder, new_builder, node, add_dependency, then_node, assign_counters, build}
use mini_marl.Dag.Exec.{Exec, start_run, step, steps, Reached, started}
use mini_marl.Dag.Graph.{sum_left, edges}
use mini_marl.Dag.Inv.{Sequenced}
use mini_marl.Dag.Build.{Made, empty, with_node, with_edge}
use mini_marl.Dag.Assign.{graph, start_counters}
use mini_marl.Dag.Order.{run-Sequenced, run_complete, Triggered, steps-Reached}
use mini_marl.Dag.Progress.{ReturnsFrom, run-ReturnsFrom}

-- The root, two nodes behind it, and a node behind both.
abbrev diamond : Builder ℕ
diamond = record {
  nodes =
      record { work = none; counter_index = none; outs = 1 ∷ 2 ∷ [] }
      ∷ record { work = some 10; counter_index = none; outs = 3 ∷ [] }
      ∷ record { work = some 20; counter_index = none; outs = 3 ∷ [] }
      ∷ record { work = some 30; counter_index = none; outs = [] }
      ∷ [];
  initial_counters = [];
  num_ins = 0 ∷ 1 ∷ 1 ∷ 2 ∷ [];
}

built_diamond :
    (then_node 0 10 new_builder >>= λ a. then_node 0 20 a.1 >>= λ b. node 30 (1 ∷ 2 ∷ []) b.1)
    ≡ ok (3, diamond)
unfolding new_builder then_node node
built_diamond = refl

diamond-Made : Made diamond
unfolding new_builder node add_dependency
diamond-Made =
    with_node 30 (1 ∷ 2 ∷ []) 3
      (with_edge 0 2 (with_node 20 [] 2 (with_edge 0 1 (with_node 10 [] 1 empty refl) refl) refl)
        refl)
      refl

few_edges : (x : ℕ) → edges x diamond.nodes < 4294967296
unfolding sum_left
few_edges x = ground arith

run-Sequenced_example :
    (build diamond ≡ ok (graph diamond, start_counters diamond))
    × ((e : Exec)
        → Reached true (graph diamond) (start_counters diamond) e
        → ((i : ℕ) → (e' : Exec) × (step true (graph diamond) i e ≡ ok e'))
          × Sequenced (graph diamond) e.invoked)
unfolding sum_left
run-Sequenced_example = run-Sequenced diamond diamond-Made refl few_edges

-- The root's walk runs the nodes 0 and 2, a task 1 and 3.
abbrev last : Exec
last = record {
  counters = 0 ∷ [];
  walks = [];
  wait_group = 0;
  invoked = 3 ∷ 1 ∷ 2 ∷ 0 ∷ [];
  returned = true;
}

last-Reached : Reached true (graph diamond) (start_counters diamond) last
unfolding assign_counters steps start_run
last-Reached =
    steps-Reached true (graph diamond) (start_counters diamond)
      (0 ∷ 0 ∷ 0 ∷ 0 ∷ 0 ∷ 0 ∷ 0 ∷ 1 ∷ 0 ∷ 0 ∷ 0 ∷ 0 ∷ 0 ∷ 0 ∷ []) started refl

run_complete_example :
    (last.walks ≡ [])
    × ((x : ℕ) → (0 < count x last.invoked) ↔ Triggered (graph diamond) last.invoked x)
unfolding sum_left
run_complete_example = run_complete true diamond diamond-Made refl few_edges last-Reached refl

run-ReturnsFrom_example : ReturnsFrom (graph diamond) (start_run (start_counters diamond))
unfolding sum_left
run-ReturnsFrom_example =
    run-ReturnsFrom diamond diamond-Made refl few_edges (start_run (start_counters diamond)) started
