-- ===== src/Dag/Inv.antt =====
-- What holds between the steps of a run of a graph.
use mini_marl.Base.{
  sum_over, ℕ, ◌+◌, ◌<◌, ◌≤◌, ◌≡◌, refl, subst, ap, ◌∙◌, Bool, true, false, not, List, [], ◌∷◌,
  none, some, arith, ◌==◌, ind, if◌then◌else◌, count, get_elem?, ok, Bool-cases, inl, inr,
}
use mini_marl.Dag.{Node}
use mini_marl.Dag.Exec.{Point, enter, looping, ended, Exec, start_run, continue_at, advance}
use mini_marl.Dag.Graph.{
  sum_left-invoked, edges_left, edges_left-zero, edges, edges-source, Counts, Apart,
}

-- The edges to `x` that an invocation has still to notify, and whether it is to invoke `x`.
abbrev pub point_edges : ℕ → Point → ℕ
point_edges x (enter n) = 0
point_edges x (looping outs to_invoke) = count x outs
point_edges x ended = 0

abbrev pub point_claims : ℕ → Point → ℕ
point_claims x (enter n) = ind (n == x)
point_claims x (looping outs none) = 0
point_claims x (looping outs (some n)) = ind (n == x)
point_claims x ended = 0

abbrev pub invocations : Exec → ℕ → ℕ
invocations e x = count x e.invoked

module _ {W : Type 0} (nodes : List (Node W)) where
  -- The edges to `x` that have not been notified.
  abbrev pub left : Exec → ℕ → ℕ
  left e x = edges_left x nodes (invocations e) + sum_over (λ w. point_edges x w.at_) e.walks

  -- How often `x` is invoked by then: once, when it has predecessors and all have notified it.
  abbrev pub due : ℕ → ℕ → ℕ
  due x n = if x == 0 then 1 else if edges x nodes == 0 then 0 else ind (n == 0)

  -- Each node is invoked once at most, behind its predecessors.
  pub Sequenced : List ℕ → Type 0
  Sequenced [] = Unit
  Sequenced (x ∷ log) =
      (count x log ≡ 0)
      × ((p : ℕ) (n : Node W) → get_elem? nodes p ≡ some n → 0 < count x n.outs → 0 < count p log)
      × Sequenced log

  pub record Inv (e : Exec) : Type 0 where
    pub counts : Counts nodes e.counters (left e)
    pub low : (x : ℕ) → left e x ≤ edges x nodes
    pub claims :
        (x : ℕ)
        → sum_over (λ w. point_claims x w.at_) e.walks + count x e.invoked ≡ due x (left e x)
    pub waits : e.wait_group ≡ sum_over (λ w. ind w.scheduled) e.walks
    pub one_root : sum_over (λ w. ind (not w.scheduled)) e.walks + ind e.returned ≡ 1
    pub over : e.returned ≡ true → e.wait_group ≡ 0
    pub sequenced : Sequenced e.invoked

  -- What `build` leaves, when nothing leads to the root.
  pub record Built : Type 0 where
    pub root : (n : Node W) × (get_elem? nodes 0 ≡ some n)
    pub no_edge_to_root : edges 0 nodes ≡ 0
    pub closed :
        (p o : ℕ) (n : Node W)
        → get_elem? nodes p ≡ some n
        → 0 < count o n.outs
        → (m : Node W) × (get_elem? nodes o ≡ some m)
    pub apart : Apart nodes
    pub small : (x : ℕ) → edges x nodes < 4294967296

  pub Counts-same :
      (cs : List ℕ) (l k : ℕ → ℕ) → ((x : ℕ) → l x ≡ k x) → Counts nodes cs l → Counts nodes cs k
  Counts-same cs l k same c x n h =
      (λ e. omega (arith, (c x n h).0 e, same x), λ d e. (c x n h).1 d e ∙ ap some (same x))

  pub alive : (s : Bool) (p : Point) (e : Exec) → Inv (continue_at s p e) → e.returned ≡ false
  alive true p e i = ground (arith, i.over, i.waits)
  alive false p e i = ground (arith, i.one_root)

  pub due-once : (x n : ℕ) → due x n ≤ 1
  due-once x n = ground arith

  -- When one of the edges to `o` is notified.
  pub due-notified :
      (o x l l' : ℕ)
      → edges 0 nodes ≡ 0
      → l ≤ edges x nodes
      → l' + ind (o == x) ≡ l
      → due x l' ≡ due x l + (if l' == 0 then ind (o == x) else 0)
  due-notified o x l l' no_edge low less = ground arith

  module _ (g : Built) where
    pub start-Inv : (cs : List ℕ) → Counts nodes cs (λ x. edges x nodes) → Inv (start_run cs)
    unfolding start_run Sequenced
    start-Inv cs k = record {
      counts = Counts-same cs (λ x. edges x nodes) (left (start_run cs)) (λ x. omega arith) k;
      low = λ x. omega arith;
      claims = λ x. ground (arith, g.no_edge_to_root);
      waits = refl;
      one_root = refl;
      over = λ h. absurd (cc);
      sequenced = tt;
    }

    -- A node to which an edge leads is a node of the graph.
    pub target : (x : ℕ) → 0 < edges x nodes → (n : Node W) × (get_elem? nodes x ≡ some n)
    target x h = let (p, m, e, c) = edges-source x nodes h in g.closed p x m e c

    -- A node that is claimed is one, it has not been invoked, and no edge is left to it.
    pub claimed :
        (x : ℕ) (e : Exec) (claims : ℕ)
        → claims + count x e.invoked ≡ due x (left e x)
        → 1 ≤ claims
        → left e x ≤ edges x nodes
        → (count x e.invoked ≡ 0) × (left e x ≡ 0) × (n : Node W) × (get_elem? nodes x ≡ some n)
    claimed x e claims h some_claim low =
        let one = due-once x (left e x) in
        let is_due : due x (left e x) ≡ 1 = omega (arith, h, some_claim, one) in
        let here : (n : Node W) × (get_elem? nodes x ≡ some n) = elim (Bool-cases (x == 0)) [
          | inl root_ ↦
              let at_root : 0 ≡ x = ground (arith, root_) in
              subst (λ y. (n : Node W) × (get_elem? nodes y ≡ some n)) at_root g.root
          | inr other ↦ target x (ground (arith, other, is_due))
        ] in
        (
          omega (arith, h, some_claim, one),
          ground (arith, is_due, low, g.no_edge_to_root),
          here.0,
          here.1,
        )

    -- A node that an invocation is about to run.
    pub enter-Inv :
        (s : Bool) (x : ℕ) (e : Exec)
        → Inv (continue_at s (enter x) e)
        → (e' : Exec) × (advance true nodes s (enter x) e ≡ ok e') × Inv e'
    unfolding advance Sequenced
    enter-Inv s x e i =
        let e1 = continue_at s (enter x) e in
        let (fresh, none_left, n, here) =
          claimed x e1 (ind (x == x) + sum_over (λ w. point_claims x w.at_) e.walks) (i.claims x)
            (ground arith) (i.low x) in
        let e' = continue_at s (looping n.outs none) (record e { invoked = x ∷ e.invoked }) in
        let same : (y : ℕ) → left e1 y ≡ left e' y = λ y.
          let moved =
            sum_left-invoked (λ k. count y k.outs) nodes (invocations e1) (invocations e') x n here
              fresh (λ k. refl) in
          omega (arith, moved) in
        (
          e',
          rw here refl,
          record {
            counts = Counts-same e.counters (left e1) (left e') same i.counts;
            low = λ y. omega (arith, same y, i.low y);
            claims = λ y. omega (arith, i.claims y, ap (due y) (same y));
            waits = i.waits;
            one_root = i.one_root;
            over = i.over;
            sequenced = (
              fresh,
              λ p m h c.
                  edges_left-zero x nodes (invocations e1) p m (omega (arith, none_left)) h c,
              i.sequenced,
            );
          },
        )
