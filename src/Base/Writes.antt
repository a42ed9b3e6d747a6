-- ===== src/Base/Writes.antt =====
-- A function written at one place: a store, or an array.
use Prim.Native.Nat.{ℕ}
use mathlib.Core.Path.{◌≡◌, refl}
use mathlib.Core.Logic.{◌⊎◌, inl, inr}
use mathlib.Core.Bool.{false}
use native.Mathlib.Omega.{arith}
use mini_marl.Base.Tests.{◌==◌, if◌then◌else◌, Bool-cases}

abbrev pub put {ℓ} : {A : Type ℓ} → ℕ → A → (ℕ → A) → ℕ → A
put i v f j = if i == j then v else f j

pub put_cases {ℓ} :
    {A : Type ℓ} (i j : ℕ) (v : A) (f : ℕ → A)
    → (i ≡ j) × (put i v f j ≡ v) ⊎ ((i == j) ≡ false) × (put i v f j ≡ f j)
put_cases i j v f = elim (Bool-cases (i == j)) [
  | inl same ↦ inl (ground (arith, same), rw same refl)
  | inr other ↦ inr (other, rw other refl)
]
