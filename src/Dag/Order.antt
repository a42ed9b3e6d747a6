-- ===== src/Dag/Order.antt =====
-- The order in which a run of a built graph invokes the nodes.
use mini_marl.Base.{
  bind-ok, sum_over, ℕ, ◌<◌, ◌≡◌, refl, subst, ap, ◌∙◌, Bool, true, false, not, List, [], ◌∷◌,
  Option, none, some, pick, Run, abort, undefined, out_of_fuel, arith, ◌==◌, ind, ◌↔◌, ◌⊎◌, count,
  get_elem?, ok, Bool-cases, inl, inr,
}
use mini_marl.Dag.{Node, Builder, build, notify}
use mini_marl.Dag.Exec.{
  Point, enter, looping, ended, Walk, Exec, ready_node, advance, step, step_of, steps, Reached,
  started, stepped,
}
use mini_marl.Dag.Graph.{edges_left, edges_left-zero, edges_left_none, edges}
use mini_marl.Dag.Build.{Made, Made-BInv}
use mini_marl.Dag.Assign.{graph, start_counters, build_lem, graph-edges, graph-Built, graph-Counts}
use mini_marl.Dag.Inv.{point_edges, point_claims, invocations, left, due, Sequenced, Inv}
use mini_marl.Dag.Steps.{step-Inv, Reached-Inv}

no_walks :
    (ws : List Walk)
    → sum_over (λ w. ind w.scheduled) ws ≡ 0
    → sum_over (λ w. ind (not w.scheduled)) ws ≡ 0
    → ws ≡ []
no_walks [] s r = refl
no_walks (w ∷ ws) s r = absurd (ground arith)

-- A step that succeeds without a scheduler is the same with one.
ready_node-bound :
    (bound s : Bool) (o : ℕ) (outs : List ℕ) (t : Option ℕ) (e e' : Exec)
    → ready_node bound s o outs t e ≡ ok e'
    → ready_node true s o outs t e ≡ ok e'
unfolding ready_node
ready_node-bound bound s o outs none e e' h = h
ready_node-bound true s o outs (some p) e e' h = h
ready_node-bound false s o outs (some p) e e' h = absurd (cc)

module _ {W : Type 0} where
  pub run-Inv :
      (b : Builder W)
      → Made b
      → edges 0 b.nodes ≡ 0
      → ((x : ℕ) → edges x b.nodes < 4294967296)
      → {e : Exec} → Reached true (graph b) (start_counters b) e
      → Inv (graph b) e
  run-Inv b m no_edge small r =
      let i = Made-BInv m in
      Reached-Inv (graph b) (graph-Built b i no_edge small) (start_counters b)
        (graph-Counts b i small) r

  -- For a graph that the builder's operations make, in which no edge leads to the root and fewer than
  -- 2 ^ 32 lead to each node: `build` succeeds, and in each state of a run of it with a scheduler
  -- bound, in whatever order its walks take their steps, no step fails, and the nodes invoked so far have
  -- been invoked once each, each behind all its predecessors.
  pub run-Sequenced :
      (b : Builder W)
      → Made b
      → edges 0 b.nodes ≡ 0
      → ((x : ℕ) → edges x b.nodes < 4294967296)
      → (build b ≡ ok (graph b, start_counters b))
        × ((e : Exec)
            → Reached true (graph b) (start_counters b) e
            → ((i : ℕ) → (e' : Exec) × (step true (graph b) i e ≡ ok e'))
              × Sequenced (graph b) e.invoked)
  run-Sequenced b m no_edge small =
      let i = Made-BInv m in
      (
        build_lem b i,
        λ e r.
            let inv = run-Inv b m no_edge small r in
            (
              λ k.
                  let (e', done, _) = step-Inv (graph b) (graph-Built b i no_edge small) k e inv in
                  (e', done),
              inv.sequenced,
            ),
      )

  -- The nodes that a run is to invoke.
  abbrev pub Triggered : List (Node W) → List ℕ → ℕ → Type 0
  Triggered nodes log x =
      (x ≡ 0)
      ⊎ (0 < edges x nodes)
        × ((p : ℕ) (n : Node W) → get_elem? nodes p ≡ some n → 0 < count x n.outs → 0 < count p log)

  finished :
      (nodes : List (Node W)) (e : Exec)
      → Inv nodes e
      → e.returned ≡ true
      → edges 0 nodes ≡ 0
      → (e.walks ≡ []) × ((x : ℕ) → (0 < count x e.invoked) ↔ Triggered nodes e.invoked x)
  finished nodes e i r no_edge =
      let one : ind e.returned ≡ 1 = ap ind r in
      let none_ =
        no_walks e.walks (omega (arith, i.waits, i.over r)) (omega (arith, i.one_root, one)) in
      let all_left : (x : ℕ) → left nodes e x ≡ edges_left x nodes (invocations e) =
        λ x. omega (arith, ap (sum_over (λ w. point_edges x w.at_)) none_) in
      let all_due : (x : ℕ) → count x e.invoked ≡ due nodes x (edges_left x nodes (invocations e)) =
        λ x. omega (
          arith,
          i.claims x,
          ap (due nodes x) (all_left x),
          ap (sum_over (λ w. point_claims x w.at_)) none_,
        ) in
      (
        none_,
        λ x.
            let here = all_due x in
            (
              λ c. elim (Bool-cases (x == 0)) [
                | inl root ↦ inl (ground (arith, root))
                | inr other ↦ inr (
                  ground (arith, here, other, c),
                  λ p n h k.
                      edges_left-zero x nodes (invocations e) p n (ground (arith, here, other, c)) h
                        k,
                )
              ],
              λ t. elim t [
                | inl root ↦ ground (arith, here, root)
                | inr (some_edge, all) ↦
                    let done = edges_left_none x nodes (invocations e) all in
                    ground (arith, here, some_edge, done)
              ],
            ),
      )

  looping-bound :
      (bound : Bool) (nodes : List (Node W)) (s : Bool) (o : ℕ) (outs : List ℕ) (t : Option ℕ)
      (e e' : Exec) (r : Run (Bool × List ℕ))
      → notify nodes o e.counters ≡ r
      → advance bound nodes s (looping (o ∷ outs) t) e ≡ ok e'
      → advance true nodes s (looping (o ∷ outs) t) e ≡ ok e'
  unfolding advance
  looping-bound bound nodes s o outs t e e' (ok (true, cs)) q h =
      let k = rw q at h in
      rw q (ready_node-bound bound s o outs t (record e { counters = cs }) e' k)
  looping-bound bound nodes s o outs t e e' (ok (false, cs)) q h = let k = rw q at h in rw q k
  looping-bound bound nodes s o outs t e e' abort q h = absurd (let k = rw q at h in cc)
  looping-bound bound nodes s o outs t e e' undefined q h = absurd (let k = rw q at h in cc)
  looping-bound bound nodes s o outs t e e' out_of_fuel q h = absurd (let k = rw q at h in cc)

  advance-bound :
      (bound : Bool) (nodes : List (Node W)) (s : Bool) (p : Point) (e e' : Exec)
      → advance bound nodes s p e ≡ ok e'
      → advance true nodes s p e ≡ ok e'
  unfolding advance
  advance-bound bound nodes s (enter n) e e' h = h
  advance-bound bound nodes s (looping (o ∷ outs) t) e e' h =
      looping-bound bound nodes s o outs t e e' (notify nodes o e.counters) refl h
  advance-bound bound nodes s (looping [] (some n)) e e' h = h
  advance-bound bound nodes s (looping [] none) e e' h = h
  advance-bound bound nodes s ended e e' h = h

  step_of-bound :
      (bound : Bool) (nodes : List (Node W)) (o : Option (Walk × List Walk)) (e e' : Exec)
      → step_of bound nodes o e ≡ ok e'
      → step_of true nodes o e ≡ ok e'
  unfolding step_of
  step_of-bound bound nodes none e e' h = h
  step_of-bound bound nodes (some (w, rest)) e e' h =
      advance-bound bound nodes w.scheduled w.at_ (record e { walks = rest }) e' h

  step-bound :
      (bound : Bool) (nodes : List (Node W)) (i : ℕ) (e e' : Exec)
      → step bound nodes i e ≡ ok e'
      → step true nodes i e ≡ ok e'
  unfolding step
  step-bound bound nodes i e e' h = step_of-bound bound nodes (pick i e.walks) e e' h

  Reached-bound :
      (bound : Bool) (nodes : List (Node W)) (cs : List ℕ)
      → {e : Exec} → Reached bound nodes cs e
      → Reached true nodes cs e
  Reached-bound bound nodes cs started = started
  Reached-bound bound nodes cs (stepped {e} {e'} i r h) =
      stepped i (Reached-bound bound nodes cs r) (step-bound bound nodes i e e' h)

  -- For the same graphs, when `run` has returned: no task of the run is left, and the nodes that have been
  -- invoked are the root and the nodes that have predecessors all of which have been invoked.
  pub run_complete :
      (bound : Bool) (b : Builder W)
      → Made b
      → edges 0 b.nodes ≡ 0
      → ((x : ℕ) → edges x b.nodes < 4294967296)
      → {e : Exec} → Reached bound (graph b) (start_counters b) e
      → e.returned ≡ true
      → (e.walks ≡ []) × ((x : ℕ) → (0 < count x e.invoked) ↔ Triggered (graph b) e.invoked x)
  run_complete bound b m no_edge small {e} r h =
      let r' = Reached-bound bound (graph b) (start_counters b) r in
      finished (graph b) e (run-Inv b m no_edge small r') h (graph-edges b 0 ∙ no_edge)

  -- What a schedule leads to has been reached.
  pub steps-Reached :
      (bound : Bool) (nodes : List (Node W)) (cs is : List ℕ) {e e' : Exec}
      → Reached bound nodes cs e
      → steps bound nodes is e ≡ ok e'
      → Reached bound nodes cs e'
  unfolding steps
  steps-Reached bound nodes cs [] {e} {e'} r h =
      let same : e ≡ e' = cc in subst (Reached bound nodes cs) same r
  steps-Reached bound nodes cs (i ∷ is) {e} {e'} r h =
      let (e1, done, k) = bind-ok (step bound nodes i e) (λ e1. steps bound nodes is e1) e' h in
      steps-Reached bound nodes cs is (stepped i r done) k
