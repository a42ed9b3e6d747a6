-- ===== src/Linked/Destroy.antt =====
-- The destructor of a list.
use mathlib.Core.List.{append-nil, append_assoc}
use mini_marl.Base.{
  ◌++◌, sym, put, ℕ, suc, ◌+◌, ◌<◌, ◌≡◌, refl, ap, ◌∙◌, false, List, [], ◌∷◌, Option, none, some,
  arith, ◌==◌, ind, length, count, if◌then◌else◌, Bool-cases, ==_refl, inl, inr, ok, ◌>>=◌,
}
use mini_marl.Memory.Interface.{Allocation, Allocator}
use mini_marl.Linked.{Entry, Linked, destruct, destroy_elements, free_all, destroy}
use mini_marl.Linked.Seg.{Seg, Once, Seg-frame}
use mini_marl.Linked.Holds.{Holds, ids, element, element-none}
use mini_marl.Linked.Move.{destruct_lem, set_object-Agree, set_object-object}

module _ {T : Type 0} where
  abbrev Full : (ℕ → Entry T) → List (ℕ × T) → Type 0
  Full s ps = (i : ℕ) → 0 < count i (ids ps) → (w : T) × ((s i).object ≡ some w)

  element-some :
      (i : ℕ) (ps : List (ℕ × T)) → 0 < count i (ids ps) → (w : T) × (element i ps ≡ some w)
  element-some i [] c = absurd (omega (arith, c))
  element-some i ((x, v) ∷ ps) c = elim (Bool-cases (x == i)) [
    | inl same ↦ (v, rw same refl)
    | inr other ↦ let (w, e) = element-some i ps (ground (arith, c, other)) in (w, rw other e)
  ]

  cleared :
      (x i c : ℕ) (o : Option T)
      → (if c == 0 then (if x == i then none else o) else none)
        ≡ (if ind (x == i) + c == 0 then o else none)
  cleared x i c o = ground arith

  destroy_step :
      (n x : ℕ) (s s1 : ℕ → Entry T)
      → destruct x s ≡ ok s1
      → destroy_elements (suc n) (some x) s ≡ destroy_elements n (s1 x).next s1
  unfolding destroy_elements
  destroy_step n x s s1 d = rw d refl

  -- The loop over the elements.
  destroyed :
      (s : ℕ → Entry T) (p h l : Option ℕ) (ps : List (ℕ × T))
      → Seg s p h (ids ps) none l
      → Once (ids ps)
      → Full s ps
      → (t : ℕ → Entry T) × (destroy_elements (length ps) h s ≡ ok t)
        × ((i : ℕ) → (t i).object ≡ (if count i (ids ps) == 0 then (s i).object else none))
  unfolding destroy_elements
  destroyed s p h l [] (first, _) once full = (s, rw first refl, λ i. refl)
  destroyed s p h l ((x, v) ∷ ps) (first, _, rest) once full =
      let (w, o) = full x (ground arith) in
      let s1 = put x (record (s x) { object = none }) s in
      let d = destruct_lem x w s o in
      let same : (s1 x).next ≡ (s x).next = rw (==_refl x) refl in
      let (t, done, gone) =
        destroyed s1 (some x) (s x).next l ps
          (Seg-frame s s1 (ids ps) (some x) (s x).next none l (set_object-Agree s x none (ids ps))
            rest)
          (λ i. omega (arith, once i))
          (λ i c.
            let (u, e) = full i (omega (arith, c)) in
            let other : (x == i) ≡ false = ground (arith, once i, c) in
            (u, set_object-object s x none i ∙ rw other e)) in
      (
        t,
        ap (λ k. destroy_elements (suc (length ps)) k s) first
            ∙ destroy_step (length ps) x s s1 d
            ∙ ap (λ k. destroy_elements (length ps) k s1) same
            ∙ done,
        λ i.
            gone i
            ∙ ap (λ o. if count i (ids ps) == 0 then o else none) (set_object-object s x none i)
            ∙ cleared x i (count i (ids ps)) (s i).object,
      )

-- An allocator whose `free` succeeds and appends the block to what has been freed.
module _ {S : Type 0} (allocator : Allocator S) (freed : S → List Allocation)
    (frees : (a : Allocation) (st : S)
      → (st' : S) × (allocator.free a st ≡ ok st') × (freed st' ≡ freed st ++ a ∷ [])) where
  free_all-freed :
      (blocks : List Allocation) (st : S)
      → (st' : S) × (free_all allocator blocks st ≡ ok st') × (freed st' ≡ freed st ++ blocks)
  unfolding free_all
  free_all-freed [] st = (st, refl, sym (append-nil (freed st)))
  free_all-freed (a ∷ blocks) st =
      let (st1, e1, f1) = frees a st in
      let (st2, e2, f2) = free_all-freed blocks st1 in
      (st2, rw e1 e2, f2 ∙ ap (λ fs. fs ++ blocks) f1 ∙ append_assoc (freed st) (a ∷ []) blocks)

  -- For a list that holds elements, and an allocator whose `free` succeeds and keeps account of the blocks
  -- that it frees: the loop of the destructor over the elements ends with no object left in an entry, and
  -- the destructor succeeds, and frees the blocks of `allocations_`, each once and no other, in their
  -- order.
  pub destroy-Holds :
      {T : Type 0} (l : Linked T) (st : S) (ps : List (ℕ × T))
      → Holds l ps
      → (t : ℕ → Entry T) × (destroy_elements l.size_ l.head_ l.entries ≡ ok t)
        × ((i : ℕ) → i < l.capacity_ → (t i).object ≡ none)
        × ((st' : S) × (destroy allocator (l, st) ≡ ok st')
            × (freed st' ≡ freed st ++ l.allocations_))
  unfolding destroy
  destroy-Holds {T} l st ps h =
      let once : Once (ids ps) = λ i. ground (arith, h.total i) in
      let full : (i : ℕ) → 0 < count i (ids ps) → (w : T) × ((l.entries i).object ≡ some w) = λ i c.
        let (w, e) = element-some i ps c in (w, h.objects i (ground (arith, h.total i, c)) ∙ e) in
      let (t, done, gone) =
        destroyed l.entries none l.head_ h.head_chain.0 ps h.head_chain.1 once full in
      let run = ap (λ k. destroy_elements k l.head_ l.entries) h.sized ∙ done in
      (
        t,
        run,
        λ i low. gone i ∙ elim (Bool-cases (count i (ids ps) == 0)) [
          | inl out ↦ rw out (h.objects i low ∙ element-none i ps (ground (arith, out)))
          | inr in_ ↦ rw in_ refl
        ],
        let (st', all, account) = free_all-freed l.allocations_ st in
            (st', ap (λ r. r >>= λ _. free_all allocator l.allocations_ st) run ∙ all, account),
      )
