-- ===== src/Affinity/Laws.antt =====
-- Which cores `add` and `remove` leave.
use mini_marl.Base.{
  ℕ, zero, suc, ◌+◌, ◌≡◌, refl, ◌∙◌, true, false, List, [], ◌∷◌, ◌++◌, Option, none, some, arith,
  ◌==◌, if◌then◌else◌, length, count, ind, ap, count-append, get_elem?, set, Bool-cases, inl, inr,
}
use mini_marl.Affinity.{
  contains, add_missing, back, drop_last, take_out, remove_at, remove_from, add, remove,
}

count-add_missing :
    (x : ℕ) (before other cores : List ℕ)
    → count x (add_missing before other cores)
      ≡ count x cores + (if contains x before then 0 else count x other)
unfolding add_missing
count-add_missing x before [] cores = ground arith
count-add_missing x before (c ∷ cs) cores = ground (
  arith,
  count-add_missing x before cs cores,
  count-add_missing x before cs (cores ++ c ∷ []),
  count-append x cores (c ∷ []),
)

count-drop_last :
    (x c : ℕ) (cs : List ℕ) → count x (drop_last (c ∷ cs)) + ind (back c cs == x) ≡ count x (c ∷ cs)
unfolding drop_last back
count-drop_last x c [] = ground arith
count-drop_last x c (d ∷ ds) = omega (arith, count-drop_last x d ds)

count-set :
    (x b c i : ℕ) (cs : List ℕ)
    → get_elem? cs i ≡ some c
    → count x (set cs i b) + ind (c == x) ≡ count x cs + ind (b == x)
count-set x b c i [] h = absurd (cc)
count-set x b c zero (d ∷ ds) h = let same : d ≡ c = cc in ground (arith, same)
count-set x b c (suc i) (d ∷ ds) h = omega (arith, count-set x b c i ds h)

-- Writing the last core to any place leaves the last core as it was.
back-set :
    (i d : ℕ) (ds : List ℕ)
    → (e : ℕ) × (es : List ℕ) × (set (d ∷ ds) i (back d ds) ≡ e ∷ es) × (back e es ≡ back d ds)
unfolding back
back-set zero d [] = (d, [], refl, refl)
back-set (suc i) d [] = (d, [], refl, refl)
back-set zero d (f ∷ fs) = (back f fs, f ∷ fs, refl, refl)
back-set (suc i) d (f ∷ fs) =
    let (e, es, same, last) = back-set i f fs in (d, e ∷ es, ap (λ l. d ∷ l) same, last)

-- `take_out` takes one core out, whatever its place.
count-take_out :
    (x c i : ℕ) (cs : List ℕ)
    → get_elem? cs i ≡ some c
    → count x (take_out i cs) + ind (c == x) ≡ count x cs
unfolding take_out
count-take_out x c i [] h = absurd (cc)
count-take_out x c i (d ∷ ds) h =
    let (e, es, same, last) = back-set i d ds in
    omega (
      arith,
      count-set x (back d ds) c i (d ∷ ds) h,
      count-drop_last x e es,
      ap (λ l. count x (drop_last l)) same,
      ap (λ l. count x l) same,
      ap (λ b. ind (b == x)) last,
    )

count-remove_at :
    (x : ℕ) (o : Option ℕ) (other taken kept cores : List ℕ)
    → ((c : ℕ) → o ≡ some c → contains c other ≡ true → count x taken ≡ count x cores)
    → count x kept ≡ count x cores
    → count x (remove_at o other taken kept cores) ≡ count x cores
unfolding remove_at
count-remove_at x none other taken kept cores h k = refl
count-remove_at x (some c) other taken kept cores h k = elim (Bool-cases (contains c other)) [
  | inl both ↦ rw both (h c refl both)
  | inr only ↦ rw only k
]

count-remove_from :
    (x : ℕ) (other : List ℕ) (n i : ℕ) (cores : List ℕ)
    → contains x other ≡ false
    → count x (remove_from n i other cores) ≡ count x cores
unfolding remove_from
count-remove_from x other zero i cores h = refl
count-remove_from x other (suc n) i cores h =
    count-remove_at x (get_elem? cores i) other (remove_from n (i + 1) other (take_out i cores))
      (remove_from n (i + 1) other cores) cores
      (λ c here both.
        let differ : (c == x) ≡ false = ground (arith, both, h) in
        count-remove_from x other n (i + 1) (take_out i cores) h
        ∙ omega (arith, count-take_out x c i cores here, ap ind differ))
      (count-remove_from x other n (i + 1) cores h)

module _ (sort : List ℕ → List ℕ)
    (permutes : (x : ℕ) (cs : List ℕ) → count x (sort cs) ≡ count x cs) where
  -- For a `sort` that permutes: `add` keeps the cores there are, and adds those of the other that were
  -- not there, as often as the other has them.
  count-add :
      (x : ℕ) (other cores : List ℕ)
      → count x (add sort other cores)
        ≡ count x cores + (if contains x cores then 0 else count x other)
  unfolding add
  count-add x other cores =
      permutes x (add_missing cores other cores) ∙ count-add_missing x cores other cores

  -- `remove` leaves every core that the other does not have, as often as it was there.
  count-remove :
      (x : ℕ) (other cores : List ℕ)
      → contains x other ≡ false
      → count x (remove sort other cores) ≡ count x cores
  unfolding remove
  count-remove x other cores h =
      permutes x (remove_from (length cores) 0 other cores)
      ∙ count-remove_from x other (length cores) 0 cores h

  -- A finding: of two cores that the other both has, `remove` leaves the second.
  pub count-remove_second :
      (c d : ℕ) (other : List ℕ)
      → contains c other ≡ true
      → contains d other ≡ true
      → (x : ℕ) → count x (remove sort other (c ∷ d ∷ [])) ≡ count x (d ∷ [])
  unfolding remove remove_from take_out back drop_last remove_at
  count-remove_second c d other hc hd x =
      permutes x (remove_from 2 0 other (c ∷ d ∷ [])) ∙ ground arith
