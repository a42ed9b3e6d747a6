-- ===== src/Dag/Laws.antt =====
-- The counter that `build` gives a node.
use mini_marl.Base.{
  ℕ, zero, suc, ◌≤◌, ◌≡◌, refl, ap, ◌∙◌, List, [], ◌∷◌, ◌++◌, Option, none, some, ltb, arith,
  length, get_elem?, Bool-cases, inl, inr,
}
use mini_marl.Dag.{Node, assign_counters}

get-append : (xs ys : List ℕ) (i v : ℕ) → get_elem? xs i ≡ some v → get_elem? (xs ++ ys) i ≡ some v
get-append [] ys i v h = absurd (cc)
get-append (x ∷ xs) ys zero v h = h
get-append (x ∷ xs) ys (suc i) v h = get-append xs ys i v h

get-end : (xs : List ℕ) (v : ℕ) → get_elem? (xs ++ v ∷ []) (length xs) ≡ some v
get-end [] v = refl
get-end (x ∷ xs) v = get-end xs v

-- What `build` gives a node: no counter, or one that starts at the number of its predecessors.
pub data Counter : ℕ → Option ℕ → List ℕ → Type 0 where
  uncounted : {i : ℕ} {cs : List ℕ} → i ≤ 1 → Counter i none cs
  counted : {i : ℕ} {cs : List ℕ} (c : ℕ) → get_elem? cs c ≡ some i → Counter i (some c) cs

module _ {W : Type 0} where
  kept :
      (nodes : List (Node W)) (ins counters : List ℕ) (c v : ℕ)
      → get_elem? counters c ≡ some v
      → get_elem? (assign_counters nodes ins counters).1 c ≡ some v
  unfolding assign_counters
  kept [] ins counters c v h = h
  kept (n ∷ nodes) [] counters c v h = h
  kept (n ∷ nodes) (i ∷ ins) counters c v h = elim (Bool-cases (ltb 1 i)) [
    | inl many ↦
        rw many (kept nodes ins (counters ++ i ∷ []) c v (get-append counters (i ∷ []) c v h))
    | inr few ↦ rw few (kept nodes ins counters c v h)
  ]

  -- For a node that has no counter yet, as no node of a builder has.
  pub assign_counters-Counter :
      (nodes : List (Node W)) (ins counters : List ℕ) (index i : ℕ) (n : Node W)
      → get_elem? nodes index ≡ some n
      → get_elem? ins index ≡ some i
      → n.counter_index ≡ none
      → (m : Node W) × (get_elem? (assign_counters nodes ins counters).0 index ≡ some m)
        × Counter i m.counter_index (assign_counters nodes ins counters).1
  unfolding assign_counters
  assign_counters-Counter [] ins counters index i n a b e = absurd (cc)
  assign_counters-Counter (x ∷ nodes) [] counters index i n a b e = absurd (cc)
  assign_counters-Counter (x ∷ nodes) (j ∷ ins) counters zero i n a b e =
      let same : x ≡ n = cc in
      let ins_ : j ≡ i = cc in
      elim (Bool-cases (ltb 1 j)) [
        | inl many ↦ rw many (
          record x { counter_index = some (length counters) },
          refl,
          counted (length counters) (
              kept nodes ins (counters ++ j ∷ []) (length counters) i
                (get-end counters j ∙ ap (λ k. some k) ins_)),
        )
        | inr few ↦
            let none_ : x.counter_index ≡ none = ap (λ k. k.counter_index) same ∙ e in
            rw few (x, refl, rw none_ (uncounted (ground (arith, few, ins_))))
      ]
  assign_counters-Counter (x ∷ nodes) (j ∷ ins) counters (suc index) i n a b e =
      elim (Bool-cases (ltb 1 j)) [
        | inl many ↦
            rw many (assign_counters-Counter nodes ins (counters ++ j ∷ []) index i n a b e)
        | inr few ↦ rw few (assign_counters-Counter nodes ins counters index i n a b e)
      ]
