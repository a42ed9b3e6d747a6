-- ===== src/Dag/Progress.antt =====
-- That a run of a graph can always go on until it returns.
use mini_marl.Base.{
  pick, sum_over, sum_over-pick, ℕ, zero, suc, ◌+◌, ◌-◌, ◌*◌, ◌<◌, ◌≤◌, ◌≡◌, refl, subst, sym, ap,
  ◌∙◌, Bool, true, false, not, List, [], ◌∷◌, Option, none, some, arith, ◌==◌, ind, ◌⊎◌, length,
  Run, ok, abort, undefined, out_of_fuel, ltb, Bool-cases, inl, inr, if◌then◌else◌,
}
use mini_marl.Dag.{Node, Builder, notify}
use mini_marl.Dag.Exec.{
  Point, enter, looping, ended, Walk, Exec, continue_at, end_walk, advance, step, step_of, steps,
  Reached,
}
use mini_marl.Dag.Graph.{sum_left, sum_left-invoked, edges}
use mini_marl.Dag.Build.{Made, Made-BInv}
use mini_marl.Dag.Assign.{graph, start_counters, graph-Built}
use mini_marl.Dag.Inv.{invocations, Inv, Built, claimed, point_claims}
use mini_marl.Dag.Steps.{step-Inv, pick-Inv, readied, ready_node-readied}
use mini_marl.Dag.Order.{run-Inv}

-- The steps that a walk has left, without those of the nodes that it invokes later.
abbrev pub weight : Point → ℕ
weight (enter n) = 2
weight (looping outs none) = 3 * length outs + 2
weight (looping outs (some n)) = 3 * length outs + 3
weight ended = 1

-- A walk of the kind that is asked for, when there is one.
find :
    (s : Bool) (ws : List Walk)
    → 0 < sum_over (λ w. ind (if s then w.scheduled else not w.scheduled)) ws
    → (i : ℕ) × (w : Walk) × (rest : List Walk) × (pick i ws ≡ some (w, rest)) × (w.scheduled ≡ s)
unfolding pick
find s [] h = absurd (omega (arith, h))
find s (w ∷ ws) h = elim (Bool-cases (if s then w.scheduled else not w.scheduled)) [
  | inl here ↦ (0, w, ws, refl, asked s w.scheduled here)
  | inr other ↦
      let (i, v, rest, e, k) = find s ws (omega (arith, h, ap ind other)) in
      (suc i, v, w ∷ rest, rw e refl, k)
]
  where
    asked : (s b : Bool) → (if s then b else not b) ≡ true → b ≡ s
    asked true true h = refl
    asked true false h = h
    asked false true h = sym h
    asked false false h = refl

module _ {W : Type 0} (nodes : List (Node W)) where
  abbrev pub work_left : Exec → ℕ
  work_left e =
      sum_left (λ n. 3 * length n.outs + 1) nodes (invocations e)
      + sum_over (λ w. weight w.at_) e.walks

  -- What the steps do but for the wait.
  abbrev Works : Bool → Point → Exec → Type 0
  Works s p e =
      (e' : Exec) → advance true nodes s p e ≡ ok e' → work_left e' < work_left (continue_at s p e)

  enter-Works :
      (g : Built nodes) (s : Bool) (x : ℕ) (e : Exec)
      → Inv nodes (continue_at s (enter x) e)
      → Works s (enter x) e
  unfolding advance
  enter-Works g s x e i e' h =
      let e1 = continue_at s (enter x) e in
      let (fresh, _, n, here) =
        claimed nodes g x e1 (ind (x == x) + sum_over (λ w. point_claims x w.at_) e.walks)
          (i.claims x) (ground arith) (i.low x) in
      let k = rw here at h in
      let e2 = continue_at s (looping n.outs none) (record e { invoked = x ∷ e.invoked }) in
      let same : e2 ≡ e' = cc in
      let less =
        sum_left-invoked (λ n. 3 * length n.outs + 1) nodes (invocations e1) (invocations e2) x n
          here fresh (λ k. refl) in
      omega (arith, less, ap work_left same)

  looping-Works :
      (s : Bool) (o : ℕ) (outs : List ℕ) (t : Option ℕ) (e : Exec)
      → Works s (looping (o ∷ outs) t) e
  unfolding advance
  looping-Works s o outs t e e' h = by t (notify nodes o e.counters) refl h
    where
      ready_less :
          (t : Option ℕ) (cs : List ℕ)
          → work_left (readied s o outs t (record e { counters = cs }))
            < work_left (continue_at s (looping (o ∷ outs) t) e)
      ready_less none cs = omega arith
      ready_less (some p) cs = omega arith

      less :
          (t : Option ℕ) (cs : List ℕ)
          → work_left (continue_at s (looping outs t) (record e { counters = cs }))
            < work_left (continue_at s (looping (o ∷ outs) t) e)
      less none cs = omega arith
      less (some p) cs = omega arith

      by :
          (t : Option ℕ) (r : Run (Bool × List ℕ))
          → notify nodes o e.counters ≡ r
          → advance true nodes s (looping (o ∷ outs) t) e ≡ ok e'
          → work_left e' < work_left (continue_at s (looping (o ∷ outs) t) e)
      by t (ok (true, cs)) q h =
          let k = rw q at h in
          let made = ready_node-readied s o outs t (record e { counters = cs }) in
          let same : readied s o outs t (record e { counters = cs }) ≡ e' = cc in
          subst (λ d. work_left d < work_left (continue_at s (looping (o ∷ outs) t) e)) same
            (ready_less t cs)
      by t (ok (false, cs)) q h =
          let k = rw q at h in
          let same : continue_at s (looping outs t) (record e { counters = cs }) ≡ e' = cc in
          subst (λ d. work_left d < work_left (continue_at s (looping (o ∷ outs) t) e)) same
            (less t cs)
      by t abort q h = absurd (let k = rw q at h in cc)
      by t undefined q h = absurd (let k = rw q at h in cc)
      by t out_of_fuel q h = absurd (let k = rw q at h in cc)

  -- The call of `run`, behind its loop while tasks are left.
  abbrev Waits : Bool → Point → Exec → Type 0
  Waits s p e = (s ≡ false) × (p ≡ ended) × (0 < e.wait_group)

  advance-Works :
      (g : Built nodes) (s : Bool) (p : Point) (e : Exec)
      → Inv nodes (continue_at s p e)
      → Waits s p e ⊎ Works s p e
  unfolding advance end_walk
  advance-Works g s (enter n) e i = inr (enter-Works g s n e i)
  advance-Works g s (looping (o ∷ outs) t) e i = inr (looping-Works s o outs t e)
  advance-Works g s (looping [] (some n)) e i =
      inr
        (λ e' h. let same : continue_at s (enter n) e ≡ e' = cc in omega (arith, ap work_left same))
  advance-Works g s (looping [] none) e i =
      inr (λ e' h. let same : continue_at s ended e ≡ e' = cc in omega (arith, ap work_left same))
  advance-Works g true ended e i = inr (λ e' h.
      let some_task : ltb 0 e.wait_group ≡ true = ground (arith, i.waits) in
      let k = rw some_task at h in
      let same : record e { wait_group = e.wait_group - 1 } ≡ e' = cc in
      omega (arith, ap work_left same))
  advance-Works g false ended e i = elim (Bool-cases (e.wait_group == 0)) [
    | inl done ↦ inr (λ e' h.
        let k = rw done at h in
        let same : record e { returned = true } ≡ e' = cc in omega (arith, ap work_left same))
    | inr tasks ↦ inl (refl, refl, ground (arith, tasks))
  ]

  step-works :
      (g : Built nodes) (i : ℕ) (w : Walk) (rest : List Walk) (e : Exec)
      → Inv nodes e
      → pick i e.walks ≡ some (w, rest)
      → (w.scheduled ≡ false → e.wait_group ≡ 0)
      → (e' : Exec) × (step true nodes i e ≡ ok e') × (work_left e' < work_left e)
  unfolding step step_of
  step-works g i w rest e inv h free =
      let e1 = record e { walks = rest } in
      let (e', done, _) = step-Inv nodes g i e inv in
      let split = sum_over-pick (λ v. weight v.at_) i e.walks rest w h in
      let taken = rw h at done in
      (
        e',
        done,
        elim (advance-Works g w.scheduled w.at_ e1 (pick-Inv nodes g i e w rest h inv)) [
          | inl (s, p, tasks) ↦ absurd (omega (arith, tasks, free s))
          | inr less ↦ omega (arith, less e' taken, split)
        ],
      )

  progress :
      (g : Built nodes) (e : Exec)
      → Inv nodes e
      → e.returned ≡ false
      → (i : ℕ) × (e' : Exec) × (step true nodes i e ≡ ok e') × (work_left e' < work_left e)
  progress g e i r = elim (Bool-cases (e.wait_group == 0)) [
    | inl none_ ↦
        let (k, w, rest, h, _) = find false e.walks (omega (arith, i.one_root, ap ind r)) in
        let (e', done, less) = step-works g k w rest e i h (λ _. ground (arith, none_)) in
        (k, e', done, less)
    | inr tasks ↦
        let some_task : 0 < e.wait_group = ground (arith, tasks) in
        let (k, w, rest, h, s) = find true e.walks (omega (arith, i.waits, some_task)) in
        let (e', done, less) = step-works g k w rest e i h (λ f. absurd (cc)) in (k, e', done, less)
  ]

  -- Some schedule of at most `work_left e` steps leads to a state in which `run` has returned.
  abbrev pub ReturnsFrom : Exec → Type 0
  ReturnsFrom e =
      (is : List ℕ) × (e' : Exec) × (steps true nodes is e ≡ ok e')
      × (e'.returned ≡ true)
      × (length is ≤ work_left e)

  returns :
      (g : Built nodes) (fuel : ℕ) (e : Exec) → Inv nodes e → work_left e ≤ fuel → ReturnsFrom e
  unfolding steps
  returns g zero e i bound = elim (Bool-cases e.returned) [
    | inl r ↦ ([], e, refl, r, omega arith)
    | inr r ↦ let (k, e', _, less) = progress g e i r in absurd (omega (arith, less, bound))
  ]
  returns g (suc fuel) e i bound = elim (Bool-cases e.returned) [
    | inl r ↦ ([], e, refl, r, omega arith)
    | inr r ↦
        let (k, e', done, less) = progress g e i r in
        let (e2, done2, inv) = step-Inv nodes g k e i in
        let same : e2 ≡ e' = let both = sym done2 ∙ done in cc in
        let (is, last, run_, r', short) =
          returns g fuel e' (subst (Inv nodes) same inv) (omega (arith, less, bound)) in
        (k ∷ is, last, rw done run_, r', omega (arith, short, less))
  ]

module _ {W : Type 0} where
  -- For a graph that the builder's operations make, in which no edge leads to the root and fewer than
  -- 2 ^ 32 lead to each node, a run with a scheduler bound is never stuck: from each state that it
  -- reaches, some schedule of steps, at most as many as the nodes, edges and walks that are left account
  -- for, leads to the return of `run`.
  pub run-ReturnsFrom :
      (b : Builder W)
      → Made b
      → edges 0 b.nodes ≡ 0
      → ((x : ℕ) → edges x b.nodes < 4294967296)
      → (e : Exec) → Reached true (graph b) (start_counters b) e
      → ReturnsFrom (graph b) e
  run-ReturnsFrom b m no_edge small e r =
      let g = graph-Built b (Made-BInv m) no_edge small in
      returns (graph b) g (work_left (graph b) e) e (run-Inv b m no_edge small r) (omega arith)
