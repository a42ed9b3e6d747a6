-- ===== src/Dag.antt =====
-- The builder of include/marl/dag.hpp, and the counters that decide when a node of a graph runs. A
-- node's work is a type `W` of the program; `none` as a counter index is `InvalidCounterIndex`.
pub mod Laws
pub mod Exec
pub mod Build
pub mod Assign
pub mod Graph
pub mod Inv
pub mod Steps
pub mod Order
pub mod Progress
use mini_marl.Base.{
  ℕ, zero, suc, ◌+◌, ◌-◌, ◌%◌, Bool, true, false, List, [], ◌∷◌, ◌++◌, Option, none, some, ltb,
  ◌==◌, if◌then◌else◌, length, get_elem?, set, Run, ok, abort, ◌>>=◌, ◌>>◌, marl_assert,
}

pub record Node (W : Type 0) : Type 0 where
  pub work : Option W
  pub counter_index : Option ℕ
  pub outs : List ℕ

-- The graph and the builder's `numIns`, whose elements are of type `uint32_t`.
pub record Builder (W : Type 0) : Type 0 where
  pub nodes : List (Node W)
  pub initial_counters : List ℕ
  pub num_ins : List ℕ

-- An element of a vector, whose `operator[]` asserts that the index is in range.
abbrev pub at {ℓ} : {A : Type ℓ} → Option A → Run A
at none = abort
at (some a) = ok a

module _ {W : Type 0} where
  -- The constructor: the graph with its root.
  unfoldable pub new_builder : Builder W
  new_builder = record {
    nodes = record { work = none; counter_index = none; outs = [] } ∷ [];
    initial_counters = [];
    num_ins = 0 ∷ [];
  }

  unfoldable pub add_dependency : ℕ → ℕ → Builder W → Run (Builder W)
  add_dependency parent child b = do
    ins ← at (get_elem? b.num_ins child)
    node ← at (get_elem? b.nodes parent)
    ok (record b {
      num_ins = set b.num_ins child ((ins + 1) % 4294967296);
      nodes = set b.nodes parent (record node { outs = node.outs ++ child ∷ [] });
    })

  -- `for (auto in : after) addDependency(in, node);`
  unfoldable pub add_dependencies : List ℕ → ℕ → Builder W → Run (Builder W)
  unfolding add_dependency
  add_dependencies [] child b = ok b
  add_dependencies (parent ∷ after) child b = do
    b' ← add_dependency parent child b
    add_dependencies after child b'

  -- `node(work, after)`, which returns the index of the new node.
  unfoldable pub node : W → List ℕ → Builder W → Run (ℕ × Builder W)
  unfolding add_dependencies
  node work after b = do
    marl_assert (length b.num_ins == length b.nodes)
    let index = length b.nodes
    b' ← add_dependencies after index (record b {
      num_ins = b.num_ins ++ 0 ∷ [];
      nodes = b.nodes ++ record { work = some work; counter_index = none; outs = [] } ∷ [];
    })
    ok (index, b')

  -- `DAGNodeBuilder::then`
  unfoldable pub then_node : ℕ → W → Builder W → Run (ℕ × Builder W)
  unfolding node
  then_node parent work b = do
    (child, b') ← node work [] b
    b'' ← add_dependency parent child b'
    ok (child, b'')

  -- The loop of `build`: a node with several predecessors gets the next counter.
  unfoldable pub assign_counters : List (Node W) → List ℕ → List ℕ → List (Node W) × List ℕ
  assign_counters [] ins counters = ([], counters)
  assign_counters (n ∷ nodes) [] counters = (n ∷ nodes, counters)
  assign_counters (n ∷ nodes) (i ∷ ins) counters =
      let counted = assign_counters nodes ins (counters ++ i ∷ []) in
      let plain = assign_counters nodes ins counters in
      if ltb 1 i
      then (record n { counter_index = some (length counters) } ∷ counted.0, counted.1)
      else (n ∷ plain.0, plain.1)

  unfoldable pub build : Builder W → Run (List (Node W) × List ℕ)
  unfolding assign_counters
  build b = do
    marl_assert (length b.num_ins == length b.nodes)
    ok (assign_counters b.nodes b.num_ins b.initial_counters)

-- `--counters[index]`, which wraps, and whether it is 0 then.
unfoldable pub decrement : Option ℕ → List ℕ → Run (Bool × List ℕ)
decrement none counters = ok (true, counters)
decrement (some c) counters = do
  v ← at (get_elem? counters c)
  let v' = (v + 4294967295) % 4294967296
  ok (v' == 0, set counters c v')

-- `notify`: whether all predecessors of the node are done.
unfoldable pub notify : {W : Type 0} → List (Node W) → ℕ → List ℕ → Run (Bool × List ℕ)
unfolding decrement
notify nodes index counters = do
  node ← at (get_elem? nodes index)
  decrement node.counter_index counters
