-- ===== src/Linked/Unlink.antt =====
-- What `unlink` does to a chain of entries.
use mini_marl.Base.{
  put, ℕ, ◌+◌, ◌<◌, ◌≤◌, ◌≡◌, refl, subst, sym, ◌∙◌, true, false, List, [], ◌∷◌, ◌++◌, Option, none,
  some, arith, ◌==◌, ind, count, count-append, if◌then◌else◌, Bool-cases, ==_refl, inl, inr,
}
use mini_marl.Linked.{Entry, set_next, set_prev, points_to, unlink}
use mini_marl.Linked.Seg.{
  Seg, Agree, Seg-frame, Seg-append, Once, Seg-set_next, Seg-set_prev, set_next-next, set_next-prev,
  set_prev-next, set_prev-prev,
}
use mini_marl.Linked.Chains.{
  last_other, first_other, Chain, put-Agree, set_next-object, set_prev-object,
}

module _ {T : Type 0} where
  module _ (s : ℕ → Entry T) (e : ℕ) (xs ys : List ℕ) (list l k q : Option ℕ)
      (once : Once (xs ++ e ∷ ys)) (front : Seg s none list xs k q)
      (behind : Seg s q k (e ∷ ys) none l) where
    counted : (i : ℕ) → count i xs + (ind (e == i) + count i ys) ≤ 1
    counted i = omega (arith, once i, count-append i xs (e ∷ ys))

    out_xs : count e xs ≡ 0
    out_xs = ground (arith, counted e)

    out_ys : count e ys ≡ 0
    out_ys = ground (arith, counted e)

    abbrev after_next : ℕ → Entry T
    after_next = set_next (s e).prev (s e).next s

    prev_ : (s e).prev ≡ q
    prev_ = behind.1

    other_prev : (i : ℕ) → count i xs ≡ 0 → points_to (s e).prev i ≡ false
    other_prev i c = rw prev_ (last_other s xs list k q i front c)

    abbrev list_after : Option ℕ
    list_after = if points_to list e then (s e).next else list

    next_front : Seg after_next none list_after xs (s e).next q
    next_front = by xs front out_xs (λ i. omega (arith, counted i))
      where
        by :
            (us : List ℕ)
            → Seg s none list us k q
            → count e us ≡ 0
            → Once us
            → Seg after_next none list_after us (s e).next q
        by [] (first, last) c o =
            let here : points_to list e ≡ true = rw (first, behind.0) (==_refl e) in
            (rw here refl, last)
        by (x ∷ us) f c o =
            let other : points_to list e ≡ false = rw f.0 (ground (arith, c)) in
            let g = Seg-set_next s x us none list k q (s e).next o f in
            let at_prev =
              subst (λ j. Seg (set_next j (s e).next s) none list (x ∷ us) (s e).next q) (sym prev_)
                g in
            let L : list_after ≡ list = rw other refl in
            subst (λ j. Seg after_next none j (x ∷ us) (s e).next q) (sym L) at_prev

    next_behind : Seg after_next (some e) (s e).next ys none l
    next_behind =
        Seg-frame s after_next ys (some e) (s e).next none l
          (λ i c.
            let other = other_prev i (omega (arith, counted i, c)) in
            (
              sym (set_next-next (s e).prev (s e).next s i ∙ rw other refl),
              sym (set_next-prev (s e).prev (s e).next s i),
            ))
          behind.2

    next_own : (after_next e).next ≡ (s e).next
    next_own = set_next-next (s e).prev (s e).next s e ∙ rw (other_prev e out_xs) refl

    prev_own : (after_next e).prev ≡ q
    prev_own = set_next-prev (s e).prev (s e).next s e ∙ prev_

    abbrev after_both : ℕ → Entry T
    after_both = set_prev (after_next e).next (after_next e).prev after_next

    other_next : (i : ℕ) → count i ys ≡ 0 → points_to (after_next e).next i ≡ false
    other_next i c = rw next_own (first_other after_next ys (some e) (s e).next l i next_behind c)

    both_front : Seg after_both none list_after xs (s e).next q
    both_front =
        Seg-frame after_next after_both xs none list_after (s e).next q
          (λ i c.
            let other = other_next i (omega (arith, counted i, c)) in
            (
              sym (set_prev-next (after_next e).next (after_next e).prev after_next i),
              sym (
                  set_prev-prev (after_next e).next (after_next e).prev after_next i
                  ∙ rw other refl),
            ))
          next_front

    both_behind : (m : Option ℕ) × Seg after_both q (s e).next ys none m
    both_behind = by ys next_behind (λ i. omega (arith, counted i))
      where
        by :
            (us : List ℕ)
            → Seg after_next (some e) (s e).next us none l
            → Once us
            → (m : Option ℕ) × Seg after_both q (s e).next us none m
        by [] (first, last) o = (q, (first, refl))
        by (y ∷ us) g o =
            let h = Seg-set_prev after_next y us (some e) (s e).next none l q o g in
            let at_next =
              subst (λ j. Seg (set_prev j q after_next) q (s e).next (y ∷ us) none l) (sym next_own)
                h in
            (
              l,
              subst
                  (λ j.
                    Seg (set_prev (after_next e).next j after_next) q (s e).next (y ∷ us) none l)
                  (sym prev_own) at_next,
            )

    -- The chain without the entry, which is linked to nothing.
    pub unlink-Chain :
        Chain (unlink e list s).0 (unlink e list s).1 (xs ++ ys)
        × ((unlink e list s).0 e).next ≡ none
        × ((unlink e list s).0 e).prev ≡ none
    unfolding unlink
    unlink-Chain =
        let v : Entry T = record (after_both e) { prev = none; next = none } in
        let (m, there) = both_behind in
        let joined =
          Seg-append after_both xs ys none list_after (s e).next q none m both_front there in
        let out : count e (xs ++ ys) ≡ 0 = omega (arith, count-append e xs ys, out_xs, out_ys) in
        (
          (
            m,
            Seg-frame after_both (put e v after_both) (xs ++ ys) none list_after none m
                (put-Agree after_both e v (xs ++ ys) out) joined,
          ),
          rw (==_refl e) refl,
          rw (==_refl e) refl,
        )

    -- Other entries keep their links.
    pub unlink-Agree :
        (zs : List ℕ)
        → ((i : ℕ) → 0 < count i zs → count i (xs ++ e ∷ ys) ≡ 0)
        → Agree s (unlink e list s).0 zs
    unfolding unlink
    unlink-Agree zs apart i c =
        let none_ : count i xs + (ind (e == i) + count i ys) ≡ 0 =
          omega (arith, apart i c, count-append i xs (e ∷ ys)) in
        let o : (e == i) ≡ false = ground (arith, none_) in
        let p = other_prev i (omega (arith, none_)) in
        let n = other_next i (omega (arith, none_)) in
        let A = after_next in
        (
          rw o (
              sym (
                set_prev-next (A e).next (A e).prev A i
                ∙ set_next-next (s e).prev (s e).next s i
                ∙ rw p refl)),
          rw o (
              sym (
                set_prev-prev (A e).next (A e).prev A i
                ∙ rw n (set_next-prev (s e).prev (s e).next s i))),
        )

  pub unlink-object :
      (e : ℕ) (list : Option ℕ) (s : ℕ → Entry T) (i : ℕ)
      → ((unlink e list s).0 i).object ≡ (s i).object
  unfolding unlink
  unlink-object e list s i =
      let A = set_next (s e).prev (s e).next s in
      let both =
        set_prev-object (A e).next (A e).prev A i ∙ set_next-object (s e).prev (s e).next s i in
      elim (Bool-cases (e == i)) [
        | inl same ↦ rw same (
            let here : e ≡ i = ground (arith, same) in
            subst (λ j. (set_prev (A e).next (A e).prev A j).object ≡ (s i).object) (sym here) both)
        | inr other ↦ rw other both
      ]
