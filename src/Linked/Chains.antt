-- ===== src/Linked/Chains.antt =====
-- Whole chains of entries, and what a write to an entry leaves.
use mini_marl.Base.{
  put, ℕ, ◌≡◌, refl, ap, false, List, [], ◌∷◌, Option, none, some, arith, ◌==◌, count, Bool-cases,
  inl, inr,
}
use mini_marl.Linked.{Entry, set_next, set_prev, points_to}
use mini_marl.Linked.Seg.{Seg, Agree, Seg-frame, Seg-last}

module _ {T : Type 0} where
  pub last_other :
      (s : ℕ → Entry T) (xs : List ℕ) (h m l : Option ℕ) (i : ℕ)
      → Seg s none h xs m l
      → count i xs ≡ 0
      → points_to l i ≡ false
  last_other s [] h m l i (first, last) c = rw last refl
  last_other s (x ∷ xs) h m l i g c =
      let (z, e, there) = Seg-last s x xs none h m l g in rw e (ground (arith, c, there))

  pub first_other :
      (s : ℕ → Entry T) (xs : List ℕ) (p h l : Option ℕ) (i : ℕ)
      → Seg s p h xs none l
      → count i xs ≡ 0
      → points_to h i ≡ false
  first_other s [] p h l i (first, last) c = rw first refl
  first_other s (x ∷ xs) p h l i (first, _, _) c = rw first (ground (arith, c))

  -- A chain from a pointer of the list.
  abbrev pub Chain : (ℕ → Entry T) → Option ℕ → List ℕ → Type 0
  Chain s list xs = (l : Option ℕ) × Seg s none list xs none l

  pub put-Agree :
      (s : ℕ → Entry T) (e : ℕ) (v : Entry T) (xs : List ℕ)
      → count e xs ≡ 0
      → Agree s (put e v s) xs
  put-Agree s e v xs out i c =
      let other : (e == i) ≡ false = elim (Bool-cases (e == i)) [
        | inl same ↦ absurd (
            let here : e ≡ i = ground (arith, same) in
            let k = ap (λ j. count j xs) here in omega (arith, k, out, c))
        | inr o ↦ o
      ] in
      (rw other refl, rw other refl)

  pub Chain-Agree :
      (s t : ℕ → Entry T) (list : Option ℕ) (xs : List ℕ)
      → Agree s t xs
      → Chain s list xs
      → Chain t list xs
  Chain-Agree s t list xs a (l, g) = (l, Seg-frame s t xs none list none l a g)

  pub set_next-object :
      (l n : Option ℕ) (s : ℕ → Entry T) (i : ℕ) → (set_next l n s i).object ≡ (s i).object
  set_next-object none n s i = refl
  set_next-object (some p) n s i = elim (Bool-cases (p == i)) [
    | inl e ↦ rw e (let same : p ≡ i = ground (arith, e) in ap (λ j. (s j).object) same)
    | inr e ↦ rw e refl
  ]

  pub set_prev-object :
      (l n : Option ℕ) (s : ℕ → Entry T) (i : ℕ) → (set_prev l n s i).object ≡ (s i).object
  set_prev-object none n s i = refl
  set_prev-object (some p) n s i = elim (Bool-cases (p == i)) [
    | inl e ↦ rw e (let same : p ≡ i = ground (arith, e) in ap (λ j. (s j).object) same)
    | inr e ↦ rw e refl
  ]
