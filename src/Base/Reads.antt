-- ===== src/Base/Reads.antt =====
-- What is read from a list, behind an append or a write.
use Prim.Native.Nat.{ℕ, zero, suc, ◌<◌}
use mathlib.Core.Path.{◌≡◌, refl, sym, ◌∙◌}
use mathlib.Core.Logic.{◌⊎◌, inl, inr}
use mathlib.Core.Bool.{false}
use mathlib.Core.List.{List, [], ◌∷◌, ◌++◌}
use mathlib.Core.Option.{some}
use native.Mathlib.Omega.{arith}
use mini_marl.Base.Tests.{◌==◌, if◌then◌else◌, Bool-cases}
use mini_marl.Base.Lists.{length, get_elem?, set}

pub get-set {ℓ} :
    {A : Type ℓ} (xs : List A) (i j : ℕ) (v w : A)
    → get_elem? xs i ≡ some v
    → get_elem? (set xs i w) j ≡ (if i == j then some w else get_elem? xs j)
get-set [] i j v w h = absurd (cc)
get-set (x ∷ xs) zero zero v w h = refl
get-set (x ∷ xs) zero (suc j) v w h = ground arith
get-set (x ∷ xs) (suc i) zero v w h = ground arith
get-set (x ∷ xs) (suc i) (suc j) v w h = ground (arith, get-set xs i j v w h)

module _ {ℓ} {A : Type ℓ} where
  pub get-lt : (xs : List A) (i : ℕ) (a : A) → get_elem? xs i ≡ some a → i < length xs
  get-lt [] i a h = absurd (cc)
  get-lt (x ∷ xs) zero a h = omega arith
  get-lt (x ∷ xs) (suc i) a h = omega (arith, get-lt xs i a h)

  pub lt-get : (xs : List A) (i : ℕ) → i < length xs → (a : A) × (get_elem? xs i ≡ some a)
  lt-get [] i h = absurd (omega (arith, h))
  lt-get (x ∷ xs) zero h = (x, refl)
  lt-get (x ∷ xs) (suc i) h = lt-get xs i (omega (arith, h))

  pub get-snoc :
      (xs : List A) (y : A) (i : ℕ)
      → get_elem? (xs ++ y ∷ []) i ≡ (if i == length xs then some y else get_elem? xs i)
  get-snoc [] y zero = refl
  get-snoc [] y (suc i) = ground arith
  get-snoc (x ∷ xs) y zero = ground arith
  get-snoc (x ∷ xs) y (suc i) = ground (arith, get-snoc xs y i)

  pub get-pushed :
      (xs : List A) (y u : A) (i : ℕ)
      → get_elem? (xs ++ y ∷ []) i ≡ some u
      → (i ≡ length xs) × (y ≡ u) ⊎ (get_elem? xs i ≡ some u)
  get-pushed xs y u i r =
      let read = get-snoc xs y i in
      elim (Bool-cases (i == length xs)) [
        | inl last ↦
            let now = rw last at read in inl (ground (arith, last), let both = sym now ∙ r in cc)
        | inr other ↦ let now = rw other at read in inr (sym now ∙ r)
      ]

  -- What is read after a write.
  pub get-written :
      (xs : List A) (i j : ℕ) (v w u : A)
      → get_elem? xs i ≡ some v
      → get_elem? (set xs i w) j ≡ some u
      → (i ≡ j) × (w ≡ u) ⊎ ((i == j) ≡ false) × (get_elem? xs j ≡ some u)
  get-written xs i j v w u h r =
      let wrote = get-set xs i j v w h in
      elim (Bool-cases (i == j)) [
        | inl same ↦
            let now = rw same at wrote in inl (ground (arith, same), let both = sym now ∙ r in cc)
        | inr other ↦ let now = rw other at wrote in inr (other, sym now ∙ r)
      ]
