-- ===== src/Linked/Move.antt =====
-- An entry moves from one chain to another, and its object is written.
use mini_marl.Base.{
  put, ℕ, ◌+◌, ◌≤◌, ◌≡◌, refl, sym, ap, ◌∙◌, List, ◌∷◌, ◌++◌, Option, none, some, arith, ◌==◌,
  count, count-append, if◌then◌else◌, Bool-cases, ==_refl, inl, inr, ok, undefined,
}
use mini_marl.Linked.{Entry, is_null, unlink, link, construct, destruct}
use mini_marl.Linked.Seg.{Once, Agree, Seg-split}
use mini_marl.Linked.Unlink.{unlink-Chain, unlink-Agree, unlink-object}
use mini_marl.Linked.Link.{pushed-Chain, pushed-Agree, linked, linked-object, link_lem}
use mini_marl.Linked.Chains.{Chain, put-Agree, Chain-Agree}

module _ {T : Type 0} where
  -- The object of an entry is not a link.
  pub set_object-Agree :
      (s : ℕ → Entry T) (e : ℕ) (o : Option T) (xs : List ℕ)
      → Agree s (put e (record (s e) { object = o }) s) xs
  set_object-Agree s e o xs i c = elim (Bool-cases (e == i)) [
    | inl same ↦
        let here : e ≡ i = ground (arith, same) in
        rw same (ap (λ j. (s j).next) (sym here), ap (λ j. (s j).prev) (sym here))
    | inr other ↦ rw other (refl, refl)
  ]

  pub record Moved (s t : ℕ → Entry T) (e : ℕ) (from : Option ℕ) (rest to : List ℕ) : Type 0 where
    pub source : Chain t from rest
    pub target : Chain t (some e) (e ∷ to)
    pub objects : (i : ℕ) → (t i).object ≡ (s i).object

  -- An entry is unlinked from one chain and linked to another.
  pub move-Moved :
      (s : ℕ → Entry T) (e : ℕ) (xs ys zs : List ℕ) (from to : Option ℕ)
      → Chain s from (xs ++ e ∷ ys)
      → Chain s to zs
      → ((i : ℕ) → count i (xs ++ e ∷ ys) + count i zs ≤ 1)
      → (t : ℕ → Entry T) × (link e to (unlink e from s).0 ≡ ok (t, some e))
        × Moved s t e (unlink e from s).1 (xs ++ ys) zs
  move-Moved s e xs ys zs from to (l, g) c apart =
      let (k, q, front, behind) = Seg-split s xs (e ∷ ys) none from none l g in
      let once : Once (xs ++ e ∷ ys) = λ i. omega (arith, apart i) in
      let split = λ (i : ℕ). count-append i xs (e ∷ ys) in
      let join = λ (i : ℕ). count-append i xs ys in
      let (rest, n, p) = unlink-Chain s e xs ys from l k q once front behind in
      let s1 = (unlink e from s).0 in
      let zs1 =
        Chain-Agree s s1 to zs
          (unlink-Agree s e xs ys from l k q once front behind zs
            (λ i z. omega (arith, apart i, z)))
          c in
      let v : Entry T = record (s1 e) { next = to } in
      (
        linked e to s1,
        link_lem s1 e to n p,
        record {
          source =
              Chain-Agree s1 (linked e to s1) (unlink e from s).1 (xs ++ ys)
                (pushed-Agree s1 e v zs (xs ++ ys) to zs1
                  (λ i z. ground (arith, apart i, split i, join i, z)))
                rest;
          target =
              pushed-Chain (put e v s1) e zs to
                (Chain-Agree s1 (put e v s1) to zs
                  (put-Agree s1 e v zs (ground (arith, apart e, split e))) zs1)
                (λ i. omega (arith, apart i, split i)) (rw (==_refl e) refl) (rw (==_refl e) p);
          objects = λ i. linked-object e to s1 i ∙ unlink-object e from s i;
        },
      )

  pub destruct_lem :
      (e : ℕ) (v : T) (t : ℕ → Entry T)
      → (t e).object ≡ some v
      → destruct e t ≡ ok (put e (record (t e) { object = none }) t)
  unfolding destruct
  destruct_lem e v t o =
      ap (λ k. if is_null k then undefined else ok (put e (record (t e) { object = none }) t)) o

  pub construct_lem :
      (e : ℕ) (v : T) (t : ℕ → Entry T)
      → (t e).object ≡ none
      → construct e v t ≡ ok (put e (record (t e) { object = some v }) t)
  unfolding construct
  construct_lem e v t o =
      ap (λ k. if is_null k then ok (put e (record (t e) { object = some v }) t) else undefined) o

  -- The objects after one is written.
  pub set_object-object :
      (s : ℕ → Entry T) (e : ℕ) (o : Option T) (i : ℕ)
      → (put e (record (s e) { object = o }) s i).object ≡ (if e == i then o else (s i).object)
  set_object-object s e o i = elim (Bool-cases (e == i)) [
    | inl same ↦ rw same refl
    | inr other ↦ rw other refl
  ]
