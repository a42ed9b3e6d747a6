-- ===== src/Dag/Assign.antt =====
-- The counters that `build` gives to the nodes of a graph.
use mini_marl.Base.{
  get-lt, lt-get, ℕ, zero, suc, ◌+◌, ◌<◌, ◌≤◌, ◌≡◌, refl, subst, sym, ap, ◌∙◌, true, List, [], ◌∷◌,
  ◌++◌, Option, none, some, ltb, arith, ◌==◌, length, length-append, count, get_elem?, ok,
  Bool-cases, inl, inr,
}
use mini_marl.Dag.{Node, Builder, assign_counters, build}
use mini_marl.Dag.Laws.{Counter, uncounted, counted, assign_counters-Counter}
use mini_marl.Dag.Graph.{sum_left, edges, Counts, Apart}
use mini_marl.Dag.Build.{count-le-edges, BInv}
use mini_marl.Dag.Inv.{Built}

module _ {W : Type 0} where
  -- The nodes keep their edges.
  assign-edges :
      (x : ℕ) (ns : List (Node W)) (ins cs : List ℕ)
      → edges x (assign_counters ns ins cs).0 ≡ edges x ns
  unfolding assign_counters sum_left
  assign-edges x [] ins cs = refl
  assign-edges x (n ∷ ns) [] cs = refl
  assign-edges x (n ∷ ns) (i ∷ ins) cs = elim (Bool-cases (ltb 1 i)) [
    | inl many ↦ rw many (ap (λ k. count x n.outs + k) (assign-edges x ns ins (cs ++ i ∷ [])))
    | inr few ↦ rw few (ap (λ k. count x n.outs + k) (assign-edges x ns ins cs))
  ]

  assign-length :
      (ns : List (Node W)) (ins cs : List ℕ) → length (assign_counters ns ins cs).0 ≡ length ns
  unfolding assign_counters
  assign-length [] ins cs = refl
  assign-length (n ∷ ns) [] cs = refl
  assign-length (n ∷ ns) (i ∷ ins) cs = elim (Bool-cases (ltb 1 i)) [
    | inl many ↦ rw many (ap suc (assign-length ns ins (cs ++ i ∷ [])))
    | inr few ↦ rw few (ap suc (assign-length ns ins cs))
  ]

  abbrev Plain : List (Node W) → Type 0
  Plain ns = (p : ℕ) (n : Node W) → get_elem? ns p ≡ some n → n.counter_index ≡ none

  -- A node gets a counter that no node before it has.
  assign-later :
      (ns : List (Node W)) (ins cs : List ℕ) (x c : ℕ) (m : Node W)
      → Plain ns
      → get_elem? (assign_counters ns ins cs).0 x ≡ some m
      → m.counter_index ≡ some c
      → length cs ≤ c
  unfolding assign_counters
  assign-later [] ins cs x c m plain h e = absurd (cc)
  assign-later (n ∷ ns) [] cs x c m plain h e = absurd (let k = plain x m h in cc)
  assign-later (n ∷ ns) (i ∷ ins) cs zero c m plain h e = elim (Bool-cases (ltb 1 i)) [
    | inl many ↦
        let k = rw many at h in
        let own : record n { counter_index = some (length cs) } ≡ m = cc in
        let index : some (length cs) ≡ some c = ap (λ j. j.counter_index) own ∙ e in
        let value : length cs ≡ c = cc in omega (arith, value)
    | inr few ↦
        let k = rw few at h in
        let own : n ≡ m = cc in
        let none_ = plain 0 n refl in absurd (let index = ap (λ j. j.counter_index) own in cc)
  ]
  assign-later (n ∷ ns) (i ∷ ins) cs (suc x) c m plain h e = elim (Bool-cases (ltb 1 i)) [
    | inl many ↦ omega (
      arith,
      assign-later ns ins (cs ++ i ∷ []) x c m (λ p. plain (suc p)) (rw many at h) e,
      length-append cs (i ∷ []),
    )
    | inr few ↦ assign-later ns ins cs x c m (λ p. plain (suc p)) (rw few at h) e
  ]

  -- The first node of a list and a later one have different counters.
  assign-first :
      (n : Node W) (ns : List (Node W)) (i : ℕ) (ins cs : List ℕ) (x c : ℕ) (m k : Node W)
      → Plain (n ∷ ns)
      → get_elem? (assign_counters (n ∷ ns) (i ∷ ins) cs).0 0 ≡ some m
      → get_elem? (assign_counters (n ∷ ns) (i ∷ ins) cs).0 (suc x) ≡ some k
      → m.counter_index ≡ some c
      → k.counter_index ≡ some c
      → ⊥
  unfolding assign_counters
  assign-first n ns i ins cs x c m k plain h hx e f = elim (Bool-cases (ltb 1 i)) [
    | inl many ↦
        let here = rw many at h in
        let own : record n { counter_index = some (length cs) } ≡ m = cc in
        let index : some (length cs) ≡ some c = ap (λ j. j.counter_index) own ∙ e in
        let value : length cs ≡ c = cc in
        let later =
          assign-later ns ins (cs ++ i ∷ []) x c k (λ p. plain (suc p)) (rw many at hx) f in
        omega (arith, value, later, length-append cs (i ∷ []))
    | inr few ↦
        let here = rw few at h in
        let own : n ≡ m = cc in
        let none_ = plain 0 n refl in absurd (let index = ap (λ j. j.counter_index) own in cc)
  ]

  assign-Apart :
      (ns : List (Node W)) (ins cs : List ℕ) → Plain ns → Apart (assign_counters ns ins cs).0
  unfolding assign_counters
  assign-Apart [] ins cs plain x y c n m h hy e f = absurd (cc)
  assign-Apart (k ∷ ns) [] cs plain x y c n m h hy e f = absurd (let none_ = plain x n h in cc)
  assign-Apart (k ∷ ns) (i ∷ ins) cs plain zero zero c n m h hy e f = refl
  assign-Apart (k ∷ ns) (i ∷ ins) cs plain zero (suc y) c n m h hy e f =
      absurd (assign-first k ns i ins cs y c n m plain h hy e f)
  assign-Apart (k ∷ ns) (i ∷ ins) cs plain (suc x) zero c n m h hy e f =
      absurd (assign-first k ns i ins cs x c m n plain hy h f e)
  assign-Apart (k ∷ ns) (i ∷ ins) cs plain (suc x) (suc y) c n m h hy e f =
      elim (Bool-cases (ltb 1 i)) [
        | inl many ↦ ap suc (
            assign-Apart ns ins (cs ++ i ∷ []) (λ p. plain (suc p)) x y c n m (rw many at h)
              (rw many at hy) e f)
        | inr few ↦
            ap suc (
              assign-Apart ns ins cs (λ p. plain (suc p)) x y c n m (rw few at h) (rw few at hy) e
                f)
      ]

  -- The graph that `build` leaves, and the counters of a run of it.
  abbrev pub graph : Builder W → List (Node W)
  graph b = (assign_counters b.nodes b.num_ins b.initial_counters).0

  abbrev pub start_counters : Builder W → List ℕ
  start_counters b = (assign_counters b.nodes b.num_ins b.initial_counters).1

  pub build_lem : (b : Builder W) → BInv b → build b ≡ ok (graph b, start_counters b)
  unfolding build
  build_lem b i =
      let in_sync : (length b.num_ins == length b.nodes) ≡ true = ground (arith, i.sized) in
      rw in_sync refl

  graph-get :
      (b : Builder W) (x : ℕ) → x < length b.nodes → (m : Node W) × (get_elem? (graph b) x ≡ some m)
  graph-get b x low =
      lt-get (graph b) x (omega (arith, low, assign-length b.nodes b.num_ins b.initial_counters))

  pub graph-edges : (b : Builder W) (x : ℕ) → edges x (graph b) ≡ edges x b.nodes
  graph-edges b x = assign-edges x b.nodes b.num_ins b.initial_counters

  pub graph-Built :
      (b : Builder W)
      → BInv b
      → edges 0 b.nodes ≡ 0
      → ((x : ℕ) → edges x b.nodes < 4294967296)
      → Built (graph b)
  graph-Built b i no_edge small = record {
    root = graph-get b 0 i.rooted;
    no_edge_to_root = graph-edges b 0 ∙ no_edge;
    closed = λ p o n h c.
        let some_edge = count-le-edges o (graph b) p n h in
        graph-get b o (i.inside o (omega (arith, c, some_edge, graph-edges b o)));
    apart = assign-Apart b.nodes b.num_ins b.initial_counters i.plain;
    small = λ x. omega (arith, small x, graph-edges b x);
  }

  pub graph-Counts :
      (b : Builder W)
      → BInv b
      → ((x : ℕ) → edges x b.nodes < 4294967296)
      → Counts (graph b) (start_counters b) (λ x. edges x (graph b))
  graph-Counts b i small x m h =
      let low = get-lt (graph b) x m h in
      let len = assign-length b.nodes b.num_ins b.initial_counters in
      let (n, there) = lt-get b.nodes x (omega (arith, low, len)) in
      let (k, ins_) = lt-get b.num_ins x (omega (arith, low, len, i.sized)) in
      let (m', here, given) =
        assign_counters-Counter b.nodes b.num_ins b.initial_counters x k n there ins_
          (i.plain x n there) in
      let same : m' ≡ m = cc in
      let value : k ≡ edges x (graph b) =
        omega (arith, i.counts x k ins_, small x, graph-edges b x) in
      by m.counter_index (subst (λ j. Counter k j.counter_index (start_counters b)) same given)
        value refl
    where
      by :
          {k : ℕ} (o : Option ℕ)
          → Counter k o (start_counters b)
          → k ≡ edges x (graph b)
          → m.counter_index ≡ o
          → (m.counter_index ≡ none → edges x (graph b) ≤ 1)
            × ((c : ℕ)
                → m.counter_index ≡ some c
                → get_elem? (start_counters b) c ≡ some (edges x (graph b)))
      by none (uncounted few) value o = (λ e. omega (arith, few, value), λ c e. absurd (cc))
      by (some d) (counted d' start) value o =
          (λ e. absurd (cc), λ c e. let index : d ≡ c = cc in rw (sym index, sym value) start)
