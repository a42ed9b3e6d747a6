-- ===== src/Linked/Seg.antt =====
-- Segments of a doubly linked chain of entries.
use mini_marl.Base.{
  ℕ, ◌<◌, ◌≤◌, ◌≡◌, refl, subst, sym, ap, ◌∙◌, true, false, List, [], ◌∷◌, ◌++◌, Option, none, some,
  arith, ◌==◌, ==_refl, count, if◌then◌else◌, Bool-cases, inl, inr,
}
use mini_marl.Linked.{Entry, set_next, set_prev, points_to}

abbrev pub Once : List ℕ → Type 0
Once xs = (i : ℕ) → count i xs ≤ 1

module _ {T : Type 0} where
  -- The entries `xs`, from the pointer `first` on. `before` is the `prev` of the first, `behind` the
  -- `next` of the last, and `last` points to that one.
  abbrev pub Seg : (ℕ → Entry T) → Option ℕ → Option ℕ → List ℕ → Option ℕ → Option ℕ → Type 0
  Seg s before first [] behind last = (first ≡ behind) × (last ≡ before)
  Seg s before first (x ∷ xs) behind last =
      (first ≡ some x) × ((s x).prev ≡ before) × Seg s (some x) (s x).next xs behind last

  -- The links of the entries in `xs` are the same.
  abbrev pub Agree : (ℕ → Entry T) → (ℕ → Entry T) → List ℕ → Type 0
  Agree s t xs = (i : ℕ) → 0 < count i xs → ((s i).next ≡ (t i).next) × ((s i).prev ≡ (t i).prev)

  pub Seg-frame :
      (s t : ℕ → Entry T) (xs : List ℕ) (p h m l : Option ℕ)
      → Agree s t xs
      → Seg s p h xs m l
      → Seg t p h xs m l
  Seg-frame s t [] p h m l a g = g
  Seg-frame s t (x ∷ xs) p h m l a (first, before, rest) =
      let (next_, prev_) = a x (ground arith) in
      (
        first,
        sym prev_ ∙ before,
        subst (λ n. Seg t (some x) n xs m l) next_
            (Seg-frame s t xs (some x) (s x).next m l (λ i c. a i (ground (arith, c))) rest),
      )

  pub Seg-append :
      (s : ℕ → Entry T) (xs ys : List ℕ) (p h k q m l : Option ℕ)
      → Seg s p h xs k q
      → Seg s q k ys m l
      → Seg s p h (xs ++ ys) m l
  Seg-append s [] ys p h k q m l (first, last) g =
      let from_first = subst (λ n. Seg s q n ys m l) (sym first) g in
      subst (λ n. Seg s n h ys m l) last from_first
  Seg-append s (x ∷ xs) ys p h k q m l (first, before, rest) g =
      (first, before, Seg-append s xs ys (some x) (s x).next k q m l rest g)

  pub Seg-split :
      (s : ℕ → Entry T) (xs ys : List ℕ) (p h m l : Option ℕ)
      → Seg s p h (xs ++ ys) m l
      → (k : Option ℕ) × (q : Option ℕ) × Seg s p h xs k q × Seg s q k ys m l
  Seg-split s [] ys p h m l g = (h, p, (refl, refl), g)
  Seg-split s (x ∷ xs) ys p h m l (first, before, rest) =
      let (k, q, here, there) = Seg-split s xs ys (some x) (s x).next m l rest in
      (k, q, (first, before, here), there)

  pub set_next-next :
      (l n : Option ℕ) (s : ℕ → Entry T) (i : ℕ)
      → (set_next l n s i).next ≡ (if points_to l i then n else (s i).next)
  set_next-next none n s i = refl
  set_next-next (some p) n s i = elim (Bool-cases (p == i)) [
    | inl e ↦ rw e refl
    | inr e ↦ rw e refl
  ]

  pub set_next-prev :
      (l n : Option ℕ) (s : ℕ → Entry T) (i : ℕ) → (set_next l n s i).prev ≡ (s i).prev
  set_next-prev none n s i = refl
  set_next-prev (some p) n s i = elim (Bool-cases (p == i)) [
    | inl e ↦ rw e (let same : p ≡ i = ground (arith, e) in ap (λ j. (s j).prev) same)
    | inr e ↦ rw e refl
  ]

  pub set_prev-prev :
      (l n : Option ℕ) (s : ℕ → Entry T) (i : ℕ)
      → (set_prev l n s i).prev ≡ (if points_to l i then n else (s i).prev)
  set_prev-prev none n s i = refl
  set_prev-prev (some p) n s i = elim (Bool-cases (p == i)) [
    | inl e ↦ rw e refl
    | inr e ↦ rw e refl
  ]

  pub set_prev-next :
      (l n : Option ℕ) (s : ℕ → Entry T) (i : ℕ) → (set_prev l n s i).next ≡ (s i).next
  set_prev-next none n s i = refl
  set_prev-next (some p) n s i = elim (Bool-cases (p == i)) [
    | inl e ↦ rw e (let same : p ≡ i = ground (arith, e) in ap (λ j. (s j).next) same)
    | inr e ↦ rw e refl
  ]

  -- The last pointer of a segment is to one of its entries.
  pub Seg-last :
      (s : ℕ → Entry T) (x : ℕ) (xs : List ℕ) (p h m l : Option ℕ)
      → Seg s p h (x ∷ xs) m l
      → (z : ℕ) × (l ≡ some z) × (0 < count z (x ∷ xs))
  Seg-last s x [] p h m l (first, before, (_, last)) = (x, last, ground arith)
  Seg-last s x (y ∷ ys) p h m l (first, before, rest) =
      let (z, e, c) = Seg-last s y ys (some x) (s x).next m l rest in (z, e, omega (arith, c))

  -- A new pointer behind the last entry of a segment.
  pub Seg-set_next :
      (s : ℕ → Entry T) (x : ℕ) (xs : List ℕ) (p h m l n : Option ℕ)
      → Once (x ∷ xs)
      → Seg s p h (x ∷ xs) m l
      → Seg (set_next l n s) p h (x ∷ xs) n l
  Seg-set_next s x [] p h m l n once (first, before, (_, last)) =
      let here : points_to l x ≡ true = rw last (==_refl x) in
      (first, set_next-prev l n s x ∙ before, (set_next-next l n s x ∙ rw here refl, last))
  Seg-set_next s x (y ∷ ys) p h m l n once (first, before, rest) =
      let (z, e, c) = Seg-last s y ys (some x) (s x).next m l rest in
      let other : points_to l x ≡ false = rw e (ground (arith, c, once x)) in
      let same : (set_next l n s x).next ≡ (s x).next = set_next-next l n s x ∙ rw other refl in
      let ih = Seg-set_next s y ys (some x) (s x).next m l n (λ i. omega (arith, once i)) rest in
      (
        first,
        set_next-prev l n s x ∙ before,
        subst (λ k. Seg (set_next l n s) (some x) k (y ∷ ys) n l) (sym same) ih,
      )

  -- A new pointer before the first entry.
  pub Seg-set_prev :
      (s : ℕ → Entry T) (x : ℕ) (xs : List ℕ) (p h m l n : Option ℕ)
      → Once (x ∷ xs)
      → Seg s p h (x ∷ xs) m l
      → Seg (set_prev h n s) n h (x ∷ xs) m l
  Seg-set_prev s x xs p h m l n once (first, before, rest) =
      let here : points_to h x ≡ true = rw first (==_refl x) in
      let agree : Agree s (set_prev h n s) xs = λ i c.
        let other : points_to h i ≡ false = rw first (ground (arith, c, once i)) in
        (sym (set_prev-next h n s i), sym (set_prev-prev h n s i ∙ rw other refl)) in
      (
        first,
        set_prev-prev h n s x ∙ rw here refl,
        subst (λ k. Seg (set_prev h n s) (some x) k xs m l) (sym (set_prev-next h n s x))
            (Seg-frame s (set_prev h n s) xs (some x) (s x).next m l agree rest),
      )
