-- ===== src/Linked/Grow.antt =====
-- `grow` gives the list entries that are free.
use mini_marl.Base.{
  put, ℕ, zero, suc, ◌+◌, ◌≡◌, refl, subst, sym, ap, ◌∙◌, List, ◌∷◌, none, some, arith, ltb, ◌==◌,
  ind, count, Bool-cases, ==_refl, inl, inr, ok,
}
use mini_marl.Memory.Interface.{Allocation, Allocator}
use mini_marl.Linked.{Entry, Linked, set_prev, add_free, add_entries, grow_request, grow}
use mini_marl.Linked.Link.{pushed-Chain, pushed-Agree}
use mini_marl.Linked.Chains.{put-Agree, Chain-Agree, set_prev-object}
use mini_marl.Linked.Holds.{HoldsOf, Holds, ids, element-none}

module _ {T : Type 0} where
  -- An entry that did not exist becomes the first free one.
  add_free-HoldsOf :
      (cap : ℕ) (l : Linked T) (ps : List (ℕ × T))
      → HoldsOf cap l ps
      → HoldsOf (cap + 1) (add_free cap l) ps
  unfolding add_free
  add_free-HoldsOf cap l ps h =
      let v : Entry T = record { object = none; next = l.free_; prev = none } in
      let s1 = put cap v l.entries in
      let out : (count cap h.free_ids ≡ 0) × (count cap (ids ps) ≡ 0) =
        (ground (arith, h.total cap), ground (arith, h.total cap)) in
      record {
        free_ids = cap ∷ h.free_ids;
        free_chain =
            pushed-Chain s1 cap h.free_ids l.free_
              (Chain-Agree l.entries s1 l.free_ h.free_ids
                (put-Agree l.entries cap v h.free_ids out.0) h.free_chain)
              (λ i. ground (arith, h.total i)) (rw (==_refl cap) refl) (rw (==_refl cap) refl);
        head_chain =
            Chain-Agree l.entries (set_prev l.free_ (some cap) s1) l.head_ (ids ps)
              (pushed-Agree l.entries cap v h.free_ids (ids ps) l.free_ h.free_chain
                (λ i c. ground (arith, h.total i, c)))
              h.head_chain;
        total = λ i. ground (arith, h.total i);
        objects = λ i low. set_prev-object l.free_ (some cap) s1 i ∙ elim (Bool-cases (cap == i)) [
          | inl same ↦
              let here : cap ≡ i = ground (arith, same) in
              rw same (sym (element-none i ps (subst (λ k. count k (ids ps) ≡ 0) here out.1)))
          | inr other ↦ rw other (h.objects i (ground (arith, low, other)))
        ];
        sized = h.sized;
      }

  add_entries-HoldsOf :
      (n cap : ℕ) (l : Linked T) (ps : List (ℕ × T))
      → HoldsOf cap l ps
      → HoldsOf (cap + n) (add_entries n cap l) ps
  unfolding add_entries
  add_entries-HoldsOf zero cap l ps h =
      let same : cap ≡ cap + 0 = omega arith in subst (λ c. HoldsOf c l ps) same h
  add_entries-HoldsOf (suc n) cap l ps h =
      let same : cap + 1 + n ≡ cap + suc n = omega arith in
      subst (λ c. HoldsOf c (add_entries n (cap + 1) (add_free cap l)) ps) same
        (add_entries-HoldsOf n (cap + 1) (add_free cap l) ps (add_free-HoldsOf cap l ps h))

  add_entries-kept :
      (n e : ℕ) (l : Linked T)
      → ((add_entries n e l).capacity_ ≡ l.capacity_)
        × ((add_entries n e l).allocations_ ≡ l.allocations_)
        × ((add_entries (suc n) e l).free_ ≡ some (e + n))
  unfolding add_entries add_free
  add_entries-kept zero e l = (refl, refl, ap some (omega arith))
  add_entries-kept (suc n) e l =
      let (c, a, f) = add_entries-kept n (e + 1) (add_free e l) in (c, a, f ∙ ap some (omega arith))

module _ {S T : Type 0} (allocator : Allocator S)
    (entry_size chain_size entry_align chain_align : ℕ) where
  -- When the allocator gives the memory.
  pub grow-Holds :
      (n : ℕ) (l : Linked T) (st st' : S) (a : Allocation) (ps : List (ℕ × T))
      → Holds l ps
      → allocator.allocate (grow_request entry_size chain_size entry_align chain_align (suc n)) st
        ≡ ok (a, st')
      → (l' : Linked T) × (grow allocator entry_size chain_size entry_align chain_align
            (suc n)
            (l, st)
          ≡ ok (l', st'))
        × Holds l' ps
        × (l'.free_ ≡ some (l.capacity_ + n))
        × (l'.allocations_ ≡ a ∷ l.allocations_)
  unfolding grow
  grow-Holds n l st st' a ps h given =
      let l1 = add_entries (suc n) l.capacity_ l in
      let (c, as_, _) = add_entries-kept (suc n) l.capacity_ l in
      let (_, _, f) = add_entries-kept n l.capacity_ l in
      let h1 = add_entries-HoldsOf (suc n) l.capacity_ l ps h in
      let cap : l.capacity_ + suc n ≡ l1.capacity_ + suc n = omega (arith, c) in
      (
        record l1 { allocations_ = a ∷ l1.allocations_; capacity_ = l1.capacity_ + suc n },
        rw given refl,
        record {
          free_ids = h1.free_ids;
          free_chain = h1.free_chain;
          head_chain = h1.head_chain;
          total = λ i. h1.total i ∙ ap (λ k. ind (ltb i k)) cap;
          objects = λ i low. h1.objects i (omega (arith, low, cap));
          sized = h1.sized;
        },
        f,
        ap (λ k. a ∷ k) as_,
      )
