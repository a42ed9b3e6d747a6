-- ===== src/Memory/Align.antt =====
-- `alignUp` of include/marl/memory.hpp, over size_t.
use mini_marl.Base.{ℕ, ◌+◌, ◌-◌, ◌*◌, ◌/◌, ◌%◌, ◌^◌, ◌≤◌, ◌<◌, ◌≡◌, arith}
use native.Mathlib.Nat.{mod-eq_of_lt, div-add-mod, mul-mod_right}

abbrev pub size_mod : ℕ
size_mod = 2 ^ 64

-- `alignment * ((val + alignment - 1) / alignment)`, each operation modulo 2^64.
unfoldable pub align_up : ℕ → ℕ → ℕ
align_up val alignment =
    (alignment * (((val + alignment) % size_mod + (size_mod - 1)) % size_mod / alignment))
    % size_mod

no_wrap :
    (v a : ℕ)
    → 0 < a
    → v + a ≤ size_mod
    → ((v + a) % size_mod + (size_mod - 1)) % size_mod ≡ v + a - 1
no_wrap v a p h = omega arith

abbrev rounds : ℕ → ℕ → ℕ
rounds v a = (v + a - 1) / a

rounds_bounds : (v a : ℕ) → 0 < a → (v ≤ a * rounds v a) × (a * rounds v a < v + a)
rounds_bounds v a p = (grind (arith, div-add-mod), grind (arith, div-add-mod))

align_up-rounds : (v a : ℕ) → 0 < a → v + a ≤ size_mod → align_up v a ≡ a * rounds v a
unfolding align_up
align_up-rounds v a p h = rw (no_wrap v a p h) (mod-eq_of_lt (omega (arith, rounds_bounds v a p)))

-- Where the sum does not overflow, the result is the least multiple of the alignment from the value
-- on: it is a multiple, it is not below the value, and it is less than one alignment above it.
pub align_up_lem :
    (v a : ℕ)
    → 0 < a
    → v + a ≤ size_mod
    → (align_up v a % a ≡ 0) × (v ≤ align_up v a) × (align_up v a < v + a)
align_up_lem v a p h =
    rw (align_up-rounds v a p h)
      (mul-mod_right a (rounds v a), (rounds_bounds v a p).0, (rounds_bounds v a p).1)
