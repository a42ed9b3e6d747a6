-- ===== src/Linked/Link.antt =====
-- What `link` does to a chain of entries.
use mini_marl.Base.{
  put, ℕ, ◌<◌, ◌≡◌, refl, subst, sym, ap, ◌∙◌, false, List, [], ◌∷◌, Option, none, some, arith,
  ◌==◌, count, Run, ok, ◌>>◌, marl_assert, Bool-cases, inl, inr,
}
use mathlib.Core.Path.{fun_ext}
use mini_marl.Linked.{Entry, set_prev, points_to, is_null, link}
use mini_marl.Linked.Seg.{Seg, Agree, Once, Seg-set_prev, set_prev-next, set_prev-prev}
use mini_marl.Linked.Chains.{first_other, Chain, set_prev-object}

asserted :
    {B : Type 0} (a b : Option ℕ) (r : Run B)
    → a ≡ none
    → b ≡ none
    → (marl_assert (is_null a) >> (marl_assert (is_null b) >> r)) ≡ r
asserted a b r n p = rw (n, p) refl

module _ {T : Type 0} where
  -- A chain with an entry before it that points to it.
  pub pushed-Chain :
      (s : ℕ → Entry T) (e : ℕ) (xs : List ℕ) (list : Option ℕ)
      → Chain s list xs
      → Once (e ∷ xs)
      → (s e).next ≡ list
      → (s e).prev ≡ none
      → Chain (set_prev list (some e) s) (some e) (e ∷ xs)
  pushed-Chain s e [] list (l, (first, _)) once n p =
      let other : points_to list e ≡ false = rw first refl in
      (
        some e,
        (
          refl,
          set_prev-prev list (some e) s e ∙ rw other p,
          (set_prev-next list (some e) s e ∙ n ∙ first, refl),
        ),
      )
  pushed-Chain s e (x ∷ xs) list (l, g) once n p =
      let other : points_to list e ≡ false = rw g.0 (ground (arith, once e)) in
      let t = set_prev list (some e) s in
      (
        l,
        (
          refl,
          set_prev-prev list (some e) s e ∙ rw other p,
          subst (λ j. Seg t (some e) j (x ∷ xs) none l) (sym (set_prev-next list (some e) s e ∙ n))
              (Seg-set_prev s x xs none list none l (some e) (λ i. omega (arith, once i)) g),
        ),
      )

  -- The other entries keep their links.
  pub pushed-Agree :
      (s : ℕ → Entry T) (e : ℕ) (v : Entry T) (xs zs : List ℕ) (list : Option ℕ)
      → Chain s list xs
      → ((i : ℕ) → 0 < count i zs → count i (e ∷ xs) ≡ 0)
      → Agree s (set_prev list (some e) (put e v s)) zs
  pushed-Agree s e v xs zs list (l, g) apart i c =
      let away = apart i c in
      let o : (e == i) ≡ false = ground (arith, away) in
      let f : points_to list i ≡ false = first_other s xs none list l i g (omega (arith, away)) in
      (
        sym (set_prev-next list (some e) (put e v s) i ∙ rw o refl),
        sym (set_prev-prev list (some e) (put e v s) i ∙ rw (f, o) refl),
      )

  -- The entries after `link` of one that is linked to nothing.
  abbrev pub linked : ℕ → Option ℕ → (ℕ → Entry T) → ℕ → Entry T
  linked e list s = set_prev list (some e) (put e (record (s e) { next = list }) s)

  pub linked-object :
      (e : ℕ) (list : Option ℕ) (s : ℕ → Entry T) (i : ℕ)
      → (linked e list s i).object ≡ (s i).object
  linked-object e list s i =
      set_prev-object list (some e) (put e (record (s e) { next = list }) s) i
      ∙ elim (Bool-cases (e == i)) [
        | inl same ↦
            rw same (let here : e ≡ i = ground (arith, same) in ap (λ j. (s j).object) here)
        | inr o ↦ rw o refl
      ]

  pub link_lem :
      (s : ℕ → Entry T) (e : ℕ) (list : Option ℕ)
      → (s e).next ≡ none
      → (s e).prev ≡ none
      → link e list s ≡ ok (linked e list s, some e)
  unfolding link
  link_lem s e (some f) n p = asserted (s e).next (s e).prev (ok (linked e (some f) s, some e)) n p
  link_lem s e none n p =
      asserted (s e).next (s e).prev (ok (s, some e)) n p
      ∙ ap (λ (t : ℕ → Entry T). ok (t, some e)) (fun_ext unchanged)
    where
      unchanged : (i : ℕ) → s i ≡ put e (record (s e) { next = none }) s i
      unchanged i = elim (Bool-cases (e == i)) [
        | inl same ↦
            let here : e ≡ i = ground (arith, same) in
            rw same (sym (ap s here) ∙ ap (λ j. record (s e) { next = j }) n)
        | inr o ↦ rw o refl
      ]
