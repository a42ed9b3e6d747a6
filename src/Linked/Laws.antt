-- ===== src/Linked/Laws.antt =====
-- What the operations of a list do to its elements.
use mini_marl.Base.{
  put, ℕ, suc, ◌+◌, ◌-◌, ◌<◌, ◌≡◌, refl, subst, sym, ap, ◌∙◌, List, [], ◌∷◌, ◌++◌, Option, none,
  some, arith, ltb, ◌==◌, ind, max, length-append, count, count-append, if◌then◌else◌, Option-cases,
  ==_refl, inl, inr, Run, ok, ◌>>=◌,
}
use mini_marl.Memory.Interface.{Request, Allocation, Allocator}
use mini_marl.Linked.{
  Entry, Linked, is_null, unlink, link, construct, destruct, erase, take_free, emplace_front, grow,
  grow_request,
}
use mini_marl.Linked.Chains.{Chain, Chain-Agree}
use mini_marl.Linked.Holds.{
  Holds, ids, ids-append, element, element-append, element-removed, element-none,
}
use mini_marl.Linked.Grow.{grow-Holds}
use mini_marl.Linked.Move.{
  set_object-Agree, move-Moved, destruct_lem, construct_lem, set_object-object,
}

module _ {T : Type 0} where
  erase_lem :
      (l : Linked T) (x : ℕ) (f : Option ℕ) (t s : ℕ → Entry T)
      → link x l.free_ (unlink x l.head_ l.entries).0 ≡ ok (t, f)
      → destruct x t ≡ ok s
      → erase (some x) l
        ≡ ok (record l {
          entries = s;
          head_ = (unlink x l.head_ l.entries).1;
          free_ = f;
          size_ = l.size_ - 1;
        })
  unfolding erase
  erase_lem l x f t s e d = rw (e, d) refl

  -- `erase` of an element takes away that one, and its entry is free then.
  pub erase-Holds :
      (l : Linked T) (ps qs : List (ℕ × T)) (x : ℕ) (v : T)
      → Holds l (ps ++ (x, v) ∷ qs)
      → (l' : Linked T) × (erase (some x) l ≡ ok l') × Holds l' (ps ++ qs)
  erase-Holds l ps qs x v h =
      let at_ids = ids-append ps ((x, v) ∷ qs) in
      let counts = λ (i : ℕ). ap (count i) at_ids ∙ count-append i (ids ps) (x ∷ ids qs) in
      let counts' = λ (i : ℕ). ap (count i) (ids-append ps qs) ∙ count-append i (ids ps) (ids qs) in
      let (t, done, m) =
        move-Moved l.entries x (ids ps) (ids qs) h.free_ids l.head_ l.free_
          (subst (Chain l.entries l.head_) at_ids h.head_chain) h.free_chain
          (λ i. ground (arith, h.total i, ap (count i) at_ids)) in
      let out : count x (ids ps) ≡ 0 = ground (arith, h.total x, counts x) in
      let low : x < l.capacity_ = ground (arith, h.total x, counts x) in
      let there : element x (ps ++ (x, v) ∷ qs) ≡ some v =
        element-append x ps ((x, v) ∷ qs) out ∙ rw (==_refl x) refl in
      let gone = destruct_lem x v t (m.objects x ∙ h.objects x low ∙ there) in
      let s = put x (record (t x) { object = none }) t in
      let same = λ (xs : List ℕ). set_object-Agree t x none xs in
      (
        record l {
          entries = s;
          head_ = (unlink x l.head_ l.entries).1;
          free_ = some x;
          size_ = l.size_ - 1;
        },
        erase_lem l x (some x) t s done gone,
        record {
          free_ids = x ∷ h.free_ids;
          free_chain = Chain-Agree t s (some x) (x ∷ h.free_ids) (same (x ∷ h.free_ids)) m.target;
          head_chain = subst (Chain s (unlink x l.head_ l.entries).1) (sym (ids-append ps qs)) (
              Chain-Agree t s (unlink x l.head_ l.entries).1 (ids ps ++ ids qs)
                (same (ids ps ++ ids qs)) m.source);
          total = λ i. omega (arith, h.total i, counts i, counts' i);
          objects = λ i lt.
              set_object-object t x none i
              ∙ ap (λ k. if x == i then none else k) (m.objects i ∙ h.objects i lt)
              ∙ sym (element-removed i x v ps qs (λ j. ground (arith, h.total j)));
          sized = omega (arith, h.sized, length-append ps ((x, v) ∷ qs), length-append ps qs);
        },
      )

module _ {S T : Type 0} (allocator : Allocator S)
    (entry_size chain_size entry_align chain_align : ℕ) where
  take_free_lem :
      (l : Linked T) (st : S) (e : ℕ) (v : T) (h : Option ℕ) (t s : ℕ → Entry T)
      → link e l.head_ (unlink e l.free_ l.entries).0 ≡ ok (t, h)
      → construct e v t ≡ ok s
      → take_free allocator entry_size chain_size entry_align chain_align (some e) v (l, st)
        ≡ ok (
          e,
          (
            record l {
              entries = s;
              free_ = (unlink e l.free_ l.entries).1;
              head_ = h;
              size_ = l.size_ + 1;
            },
            st,
          ),
        )
  unfolding take_free
  take_free_lem l st e v h t s d c = rw (d, c) refl

  take_free-Holds :
      (l : Linked T) (st : S) (e : ℕ) (v : T) (ps : List (ℕ × T))
      → Holds l ps
      → l.free_ ≡ some e
      → (l' : Linked T) × (take_free allocator entry_size chain_size entry_align chain_align
            (some e)
            v
            (l, st)
          ≡ ok (e, (l', st)))
        × Holds l' ((e, v) ∷ ps)
        × (count e (ids ps) ≡ 0)
  take_free-Holds l st e v ps h f = by h.free_ids h.free_chain h.total
    where
      by :
          (fs : List ℕ)
          → Chain l.entries l.free_ fs
          → ((i : ℕ) → count i fs + count i (ids ps) ≡ ind (ltb i l.capacity_))
          → (l' : Linked T) × (take_free allocator entry_size chain_size entry_align chain_align
                (some e)
                v
                (l, st)
              ≡ ok (e, (l', st)))
            × Holds l' ((e, v) ∷ ps)
            × (count e (ids ps) ≡ 0)
      by [] (_, (first, _)) total = absurd (cc)
      by (y ∷ fs) chain total =
          let own : y ≡ e = let k = chain.1.0 in cc in
          let out : count e (ids ps) ≡ 0 = ground (arith, total e, own) in
          let low : e < l.capacity_ = ground (arith, total e, own) in
          let (t, done, m) =
            move-Moved l.entries e [] fs (ids ps) l.free_ l.head_
              (subst (λ k. Chain l.entries l.free_ (k ∷ fs)) own chain) h.head_chain
              (λ i. ground (arith, total i, own)) in
          let made = construct_lem e v t (m.objects e ∙ h.objects e low ∙ element-none e ps out) in
          let s = put e (record (t e) { object = some v }) t in
          let same = λ (xs : List ℕ). set_object-Agree t e (some v) xs in
          let free' = (unlink e l.free_ l.entries).1 in
          (
            record l { entries = s; free_ = free'; head_ = some e; size_ = l.size_ + 1 },
            take_free_lem l st e v (some e) t s done made,
            record {
              free_ids = fs;
              free_chain = Chain-Agree t s free' fs (same fs) m.source;
              head_chain = Chain-Agree t s (some e) (e ∷ ids ps) (same (e ∷ ids ps)) m.target;
              total = λ i. ground (arith, total i, own);
              objects = λ i lt.
                  set_object-object t e (some v) i
                  ∙ ap (λ k. if e == i then some v else k) (m.objects i ∙ h.objects i lt);
              sized = omega (arith, h.sized);
            },
            out,
          )

  abbrev grown : Linked T → S → Run (Linked T × S)
  grown l st =
      grow allocator entry_size chain_size entry_align chain_align (max l.capacity_ 8) (l, st)

  abbrev taken : T → Option ℕ → Linked T × S → Run (ℕ × (Linked T × S))
  taken v f r = take_free allocator entry_size chain_size entry_align chain_align f v r

  emplace_front_lem :
      (l l1 : Linked T) (st st1 : S) (v : T) (e : ℕ)
      → (if is_null l.free_ then grown l st else ok (l, st)) ≡ ok (l1, st1)
      → l1.free_ ≡ some e
      → emplace_front allocator entry_size chain_size entry_align chain_align v (l, st)
        ≡ taken v (some e) (l1, st1)
  unfolding emplace_front
  emplace_front_lem l l1 st st1 v e g f =
      ap (λ r. r >>= λ (p : Linked T × S). taken v p.0.free_ p) g ∙ ap (λ o. taken v o (l1, st1)) f

  -- For an allocator that gives memory: `emplace_front` puts the element in front of those the list
  -- holds, in an entry that none of them is in. They keep theirs.
  pub emplace_front-Holds :
      (l : Linked T) (st : S) (v : T) (ps : List (ℕ × T))
      → Holds l ps
      → ((r : Request) → (a : Allocation) × (st' : S) × (allocator.allocate r st ≡ ok (a, st')))
      → (x : ℕ) × (l' : Linked T) × (st' : S) × (emplace_front allocator entry_size chain_size
            entry_align chain_align v
            (l, st)
          ≡ ok (x, (l', st')))
        × Holds l' ((x, v) ∷ ps)
        × (count x (ids ps) ≡ 0)
  emplace_front-Holds l st v ps h gives = elim (Option-cases l.free_) [
    | inl none_ ↦
        let n = max l.capacity_ 8 - 1 in
        let more : suc n ≡ max l.capacity_ 8 = ground arith in
        let (a, st', given) =
          gives (grow_request entry_size chain_size entry_align chain_align (suc n)) in
        let (l1, g, h1, f, _) =
          grow-Holds allocator entry_size chain_size entry_align chain_align n l st st' a ps h
            given in
        let g' =
          subst
            (λ k.
              grow allocator entry_size chain_size entry_align chain_align k (l, st) ≡ ok (l1, st'))
            more g in
        let start = ap (λ o. if is_null o then grown l st else ok (l, st)) none_ ∙ g' in
        let (l', done, h', out) = take_free-Holds l1 st' (l.capacity_ + n) v ps h1 f in
        (
          l.capacity_ + n,
          l',
          st',
          emplace_front_lem l l1 st st' v (l.capacity_ + n) start f ∙ done,
          h',
          out,
        )
    | inr (e, some_) ↦
        let start = ap (λ o. if is_null o then grown l st else ok (l, st)) some_ in
        let (l', done, h', out) = take_free-Holds l st e v ps h some_ in
        (e, l', st, emplace_front_lem l l st st v e start some_ ∙ done, h', out)
  ]
