-- ===== src/Linked/Iterate.antt =====
-- A loop over a list by its iterators.
use mini_marl.Base.{
  ℕ, zero, suc, ◌<◌, ◌≡◌, refl, ap, ◌∙◌, false, List, [], ◌∷◌, Option, none, some, arith, ◌==◌,
  length, count, ==_refl, Run, ok, out_of_fuel, ◌>>=◌,
}
use mini_marl.Linked.{Entry, Linked, begin, deref, increment}
use mini_marl.Linked.Seg.{Seg, Once}
use mini_marl.Linked.Holds.{Holds, ids, element}

module _ {T : Type 0} where
  -- `for (; it != end(); ++it)`, which collects `*it`, for at most so many rounds.
  pub collect : ℕ → Option ℕ → (ℕ → Entry T) → Run (List T)
  collect fuel none s = ok []
  collect zero (some e) s = out_of_fuel
  collect (suc fuel) (some e) s = do
    v ← deref (some e) s
    it ← increment (some e) s
    rest ← collect fuel it s
    ok (v ∷ rest)

  -- The elements, without their entries.
  abbrev pub values : List (ℕ × T) → List T
  values [] = []
  values ((x, v) ∷ ps) = v ∷ values ps

  collected :
      (s : ℕ → Entry T) (p h l : Option ℕ) (ps : List (ℕ × T))
      → Seg s p h (ids ps) none l
      → Once (ids ps)
      → ((i : ℕ) → 0 < count i (ids ps) → (s i).object ≡ element i ps)
      → collect (length ps) h s ≡ ok (values ps)
  unfolding collect deref increment
  collected s p h l [] (first, _) once full = rw first refl
  collected s p h l ((x, v) ∷ ps) (first, _, rest) once full =
      let here : (s x).object ≡ some v = full x (ground arith) ∙ rw (==_refl x) refl in
      let ih =
        collected s (some x) (s x).next l ps rest (λ i. omega (arith, once i))
          (λ i c.
            let other : (x == i) ≡ false = ground (arith, once i, c) in
            full i (omega (arith, c)) ∙ rw other refl) in
      rw (first, here, ih) refl

  -- In a list that holds elements, the iterator visits them in their order, from `begin` to `end`.
  pub collect-Holds :
      (l : Linked T) (ps : List (ℕ × T))
      → Holds l ps
      → collect l.size_ (begin l) l.entries ≡ ok (values ps)
  unfolding begin
  collect-Holds l ps h =
      ap (λ n. collect n l.head_ l.entries) h.sized
      ∙ collected l.entries none l.head_ h.head_chain.0 ps h.head_chain.1
          (λ i. ground (arith, h.total i)) (λ i c. h.objects i (ground (arith, h.total i, c)))
