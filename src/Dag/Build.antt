-- ===== src/Dag/Build.antt =====
-- What the builder of a graph makes: the counters of its nodes agree with its edges.
use mini_marl.Base.{
  bind-ok, get-lt, get-pushed, get-written, ℕ, zero, suc, ◌+◌, ◌%◌, ◌<◌, ◌≤◌, ◌≡◌, refl, subst, sym,
  ap, ◌∙◌, true, List, [], ◌∷◌, ◌++◌, none, some, arith, ◌==◌, ind, length, length-set,
  length-append, count, count-append, get_elem?, set, ok, Bool-cases, Option-cases, inl, inr,
}
use mini_marl.Dag.{Node, Builder, new_builder, add_dependency, add_dependencies, node}
use mini_marl.Dag.Graph.{sum_left, edges}

module _ {W : Type 0} where
  edges-append : (x : ℕ) (ns ms : List (Node W)) → edges x (ns ++ ms) ≡ edges x ns + edges x ms
  unfolding sum_left
  edges-append x [] ms = omega arith
  edges-append x (n ∷ ns) ms = omega (arith, edges-append x ns ms)

  edges-set :
      (x : ℕ) (ns : List (Node W)) (p : ℕ) (n m : Node W)
      → get_elem? ns p ≡ some n
      → edges x (set ns p m) + count x n.outs ≡ edges x ns + count x m.outs
  unfolding sum_left
  edges-set x [] p n m h = absurd (cc)
  edges-set x (k ∷ ns) zero n m h =
      let same : k ≡ n = cc in omega (arith, ap (λ j. count x j.outs) same)
  edges-set x (k ∷ ns) (suc p) n m h = omega (arith, edges-set x ns p n m h)

  pub count-le-edges :
      (x : ℕ) (ns : List (Node W)) (p : ℕ) (n : Node W)
      → get_elem? ns p ≡ some n
      → count x n.outs ≤ edges x ns
  unfolding sum_left
  count-le-edges x [] p n h = absurd (cc)
  count-le-edges x (k ∷ ns) zero n h =
      let same : k ≡ n = cc in omega (arith, ap (λ j. count x j.outs) same)
  count-le-edges x (k ∷ ns) (suc p) n h = omega (arith, count-le-edges x ns p n h)

  -- The states of a builder.
  pub data Made : Builder W → Type 0 where
    empty : Made new_builder
    with_node :
        {b b' : Builder W} (work : W) (after : List ℕ) (i : ℕ)
        → Made b
        → node work after b ≡ ok (i, b')
        → Made b'
    with_edge :
        {b b' : Builder W} (parent child : ℕ)
        → Made b
        → add_dependency parent child b ≡ ok b'
        → Made b'

  pub record BInv (b : Builder W) : Type 0 where
    pub sized : length b.num_ins ≡ length b.nodes
    pub rooted : 0 < length b.nodes
    pub counts : (x i : ℕ) → get_elem? b.num_ins x ≡ some i → i ≡ edges x b.nodes % 4294967296
    pub inside : (x : ℕ) → 0 < edges x b.nodes → x < length b.nodes
    pub plain : (p : ℕ) (n : Node W) → get_elem? b.nodes p ≡ some n → n.counter_index ≡ none
    pub unassigned : b.initial_counters ≡ []

  new_builder-BInv : BInv new_builder
  unfolding new_builder sum_left
  new_builder-BInv = record {
    sized = refl;
    rooted = omega arith;
    counts = at_root;
    inside = λ x h. absurd (omega (arith, h));
    plain = plain_root;
    unassigned = refl;
  }
    where
      at_root : (x i : ℕ) → get_elem? (0 ∷ []) x ≡ some i → i ≡ 0
      at_root zero i h = cc
      at_root (suc x) i h = absurd (cc)

      plain_root :
          (p : ℕ) (n : Node W)
          → get_elem? (record { work = none; counter_index = none; outs = [] } ∷ []) p ≡ some n
          → n.counter_index ≡ none
      plain_root zero n h =
          let same : record { work = none; counter_index = none; outs = [] } ≡ n = cc in
          sym (ap (λ k. k.counter_index) same)
      plain_root (suc p) n h = absurd (cc)

  -- A builder to which an edge has been added.
  abbrev linked : ℕ → ℕ → ℕ → Node W → Builder W → Builder W
  linked parent child ins n b = record b {
    num_ins = set b.num_ins child ((ins + 1) % 4294967296);
    nodes = set b.nodes parent (record n { outs = n.outs ++ child ∷ [] });
  }

  linked-edges :
      (parent child ins : ℕ) (n : Node W) (b : Builder W) (x : ℕ)
      → get_elem? b.nodes parent ≡ some n
      → edges x (linked parent child ins n b).nodes ≡ edges x b.nodes + ind (child == x)
  linked-edges parent child ins n b x there = omega (
    arith,
    edges-set x b.nodes parent n (record n { outs = n.outs ++ child ∷ [] }) there,
    count-append x n.outs (child ∷ []),
  )

  linked-BInv :
      (parent child ins : ℕ) (n : Node W) (b : Builder W)
      → BInv b
      → get_elem? b.num_ins child ≡ some ins
      → get_elem? b.nodes parent ≡ some n
      → BInv (linked parent child ins n b)
  linked-BInv parent child ins n b i has there =
      let b' = linked parent child ins n b in
      let more = λ (x : ℕ). linked-edges parent child ins n b x there in
      let nodes_ = length-set b.nodes parent (record n { outs = n.outs ++ child ∷ [] }) in
      let ins_ = length-set b.num_ins child ((ins + 1) % 4294967296) in
      let child_ = get-lt b.num_ins child ins has in
      record {
        sized = omega (arith, i.sized, nodes_, ins_);
        rooted = omega (arith, i.rooted, nodes_);
        counts = λ x k h.
            elim (get-written b.num_ins child x ins ((ins + 1) % 4294967296) k has h) [
              | inl (here, value) ↦
                  let old = i.counts child ins has in
                  let one : ind (child == x) ≡ 1 = ground (arith, here) in
                  omega (arith, value, old, more x, one, ap (λ y. edges y b.nodes) here)
              | inr (other, kept) ↦ omega (arith, i.counts x k kept, more x, ap ind other)
            ];
        inside = λ x h. elim (Bool-cases (child == x)) [
          | inl same ↦
              let here : child ≡ x = ground (arith, same) in
              omega (arith, here, child_, i.sized, nodes_)
          | inr other ↦
              let old = i.inside x (omega (arith, h, more x, ap ind other)) in
              omega (arith, old, nodes_)
        ];
        plain = λ p m h.
            elim (get-written b.nodes parent p n (record n { outs = n.outs ++ child ∷ [] }) m there
              h) [
                | inl (here, value) ↦ sym (ap (λ k. k.counter_index) value) ∙ i.plain parent n there
                | inr (other, kept) ↦ i.plain p m kept
              ];
        unassigned = i.unassigned;
      }

  add_dependency-BInv :
      (parent child : ℕ) (b b' : Builder W)
      → BInv b
      → add_dependency parent child b ≡ ok b'
      → BInv b'
  unfolding add_dependency
  add_dependency-BInv parent child b b' i h = elim (Option-cases (get_elem? b.num_ins child)) [
    | inl none_ ↦ absurd (let k = rw none_ at h in cc)
    | inr (ins, has) ↦ elim (Option-cases (get_elem? b.nodes parent)) [
      | inl none_ ↦ absurd (let k = rw (has, none_) at h in cc)
      | inr (n, there) ↦
          let k = rw (has, there) at h in
          let same : linked parent child ins n b ≡ b' = cc in
          subst BInv same (linked-BInv parent child ins n b i has there)
    ]
  ]

  add_dependencies-BInv :
      (after : List ℕ) (child : ℕ) (b b' : Builder W)
      → BInv b
      → add_dependencies after child b ≡ ok b'
      → BInv b'
  unfolding add_dependencies
  add_dependencies-BInv [] child b b' i h = let same : b ≡ b' = cc in subst BInv same i
  add_dependencies-BInv (parent ∷ after) child b b' i h =
      let (b1, e, k) =
        bind-ok (add_dependency parent child b) (λ b1. add_dependencies after child b1) b' h in
      add_dependencies-BInv after child b1 b' (add_dependency-BInv parent child b b1 i e) k

  abbrev pushed : W → Builder W → Builder W
  pushed work b = record b {
    num_ins = b.num_ins ++ 0 ∷ [];
    nodes = b.nodes ++ record { work = some work; counter_index = none; outs = [] } ∷ [];
  }

  pushed-edges :
      (work : W) (b : Builder W) (x : ℕ) → edges x (pushed work b).nodes ≡ edges x b.nodes
  unfolding sum_left
  pushed-edges work b x = omega (
    arith,
    edges-append x b.nodes (record { work = some work; counter_index = none; outs = [] } ∷ []),
  )

  pushed-BInv : (work : W) (b : Builder W) → BInv b → BInv (pushed work b)
  pushed-BInv work b i =
      let fresh : Node W = record { work = some work; counter_index = none; outs = [] } in
      let nodes_ = length-append b.nodes (fresh ∷ []) in
      let ins_ = length-append b.num_ins (0 ∷ []) in
      let same : (x : ℕ) → edges x (pushed work b).nodes ≡ edges x b.nodes =
        λ x. pushed-edges work b x in
      record {
        sized = omega (arith, i.sized, nodes_, ins_);
        rooted = omega (arith, nodes_);
        counts = λ x k h. elim (get-pushed b.num_ins 0 k x h) [
          | inl (last, value) ↦
              let none_ : edges x b.nodes ≡ 0 = elim (Bool-cases (edges x b.nodes == 0)) [
                | inl z ↦ ground (arith, z)
                | inr more ↦
                    let low = i.inside x (ground (arith, more)) in
                    absurd (omega (arith, low, last, i.sized))
              ] in
              omega (arith, value, none_, same x)
          | inr kept ↦ omega (arith, i.counts x k kept, same x)
        ];
        inside =
            λ x h. let old = i.inside x (omega (arith, h, same x)) in omega (arith, old, nodes_);
        plain = λ p m h. elim (get-pushed b.nodes fresh m p h) [
          | inl (last, value) ↦ sym (ap (λ k. k.counter_index) value)
          | inr kept ↦ i.plain p m kept
        ];
        unassigned = i.unassigned;
      }

  node-BInv :
      (work : W) (after : List ℕ) (b b' : Builder W) (index : ℕ)
      → BInv b
      → node work after b ≡ ok (index, b')
      → BInv b'
  unfolding node
  node-BInv work after b b' index i h =
      let in_sync : (length b.num_ins == length b.nodes) ≡ true = ground (arith, i.sized) in
      let made = rw in_sync at h in
      let (b1, e, k) =
        bind-ok (add_dependencies after (length b.nodes) (pushed work b))
          (λ b1. ok (length b.nodes, b1)) (index, b') made in
      let same : b1 ≡ b' = cc in
      subst BInv same
        (add_dependencies-BInv after (length b.nodes) (pushed work b) b1 (pushed-BInv work b i) e)

  pub Made-BInv : {b : Builder W} → Made b → BInv b
  Made-BInv empty = new_builder-BInv
  Made-BInv (with_node {b} {b'} work after i m h) = node-BInv work after b b' i (Made-BInv m) h
  Made-BInv (with_edge {b} {b'} parent child m h) =
      add_dependency-BInv parent child b b' (Made-BInv m) h
