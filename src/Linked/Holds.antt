-- ===== src/Linked/Holds.antt =====
-- A list of entries that holds elements, the first in front.
use mini_marl.Base.{
  ℕ, ◌+◌, ◌<◌, ◌≡◌, refl, ap, false, List, [], ◌∷◌, ◌++◌, Option, none, some, arith, ltb, ◌==◌, ind,
  length, count, count-append, if◌then◌else◌, Bool-cases, inl, inr,
}
use mini_marl.Linked.{Linked, new_list}
use mini_marl.Linked.Seg.{Once}
use mini_marl.Linked.Chains.{Chain}

module _ {T : Type 0} where
  -- The entries of elements, and the element of an entry.
  abbrev pub ids : List (ℕ × T) → List ℕ
  ids [] = []
  ids ((x, v) ∷ ps) = x ∷ ids ps

  abbrev pub element : ℕ → List (ℕ × T) → Option T
  element i [] = none
  element i ((x, v) ∷ ps) = if x == i then some v else element i ps

  -- The list has the entries and elements `ps`, of `cap` entries.
  pub record HoldsOf (cap : ℕ) (l : Linked T) (ps : List (ℕ × T)) : Type 0 where
    pub free_ids : List ℕ
    pub free_chain : Chain l.entries l.free_ free_ids
    pub head_chain : Chain l.entries l.head_ (ids ps)
    pub total : (i : ℕ) → count i free_ids + count i (ids ps) ≡ ind (ltb i cap)
    pub objects : (i : ℕ) → i < cap → (l.entries i).object ≡ element i ps
    pub sized : l.size_ ≡ length ps

  abbrev pub Holds : Linked T → List (ℕ × T) → Type 0
  Holds l ps = HoldsOf l.capacity_ l ps

  pub new_list-Holds : Holds new_list []
  unfolding new_list
  new_list-Holds = record {
    free_ids = [];
    free_chain = (none, (refl, refl));
    head_chain = (none, (refl, refl));
    total = λ i. ground arith;
    objects = λ i h. absurd (omega (arith, h));
    sized = refl;
  }

  pub ids-append : (ps qs : List (ℕ × T)) → ids (ps ++ qs) ≡ ids ps ++ ids qs
  ids-append [] qs = refl
  ids-append ((x, v) ∷ ps) qs = ap (λ xs. x ∷ xs) (ids-append ps qs)

  pub element-none : (i : ℕ) (ps : List (ℕ × T)) → count i (ids ps) ≡ 0 → element i ps ≡ none
  element-none i [] c = refl
  element-none i ((x, v) ∷ ps) c = ground (arith, element-none i ps, c)

  pub element-append :
      (i : ℕ) (ps qs : List (ℕ × T)) → count i (ids ps) ≡ 0 → element i (ps ++ qs) ≡ element i qs
  element-append i [] qs c = refl
  element-append i ((x, v) ∷ ps) qs c = ground (arith, element-append i ps qs, c)

  -- Without one of the elements.
  pub element-removed :
      (i x : ℕ) (v : T) (ps qs : List (ℕ × T))
      → Once (ids (ps ++ (x, v) ∷ qs))
      → element i (ps ++ qs) ≡ (if x == i then none else element i (ps ++ (x, v) ∷ qs))
  element-removed i x v [] qs once = elim (Bool-cases (x == i)) [
    | inl same ↦ rw same (element-none i qs (ground (arith, same, once i)))
    | inr other ↦ rw other refl
  ]
  element-removed i x v ((y, w) ∷ ps) qs once =
      let rest = element-removed i x v ps qs (λ j. omega (arith, once j)) in
      let behind = ids-append ps ((x, v) ∷ qs) in
      let there : 0 < count x (ids (ps ++ (x, v) ∷ qs)) =
        ground (arith, ap (count x) behind, count-append x (ids ps) (x ∷ ids qs)) in
      elim (Bool-cases (y == i)) [
        | inl same ↦
            let other : (x == i) ≡ false = ground (arith, same, there, once y) in
            rw (same, other) refl
        | inr other ↦ rw other rest
      ]
