-- ===== src/Base/Outcome.antt =====
-- The outcome of code that can stop: `MARL_ASSERT` and `MARL_FATAL` of include/marl/debug.hpp end
-- the process by `abort()`, and a read of what is not there is undefined behaviour. A loop that is
-- modelled on fuel may run out of it.
use mathlib.Core.Path.{◌≡◌, refl}
use mathlib.Core.Bool.{Bool, true, false}

pub data Run {ℓ} (A : Type ℓ) : Type ℓ where
  ok : A → Run A
  abort : Run A
  undefined : Run A
  out_of_fuel : Run A

infixl 5 ◌>>=◌ ◌>>◌
abbrev pub ◌>>=◌ {ℓ ℓ'} : {X : Type ℓ} {Y : Type ℓ'} → Run X → (X → Run Y) → Run Y
out_of_fuel >>= next = out_of_fuel
undefined >>= next = undefined
abort >>= next = abort
ok x >>= next = next x

abbrev pub ◌>>◌ {ℓ} : {B : Type ℓ} → Run (Unit {0}) → Run B → Run B
m >> k = m >>= λ _. k

-- `MARL_ASSERT(cond, msg, ...)`
abbrev pub marl_assert : Bool → Run (Unit {0})
marl_assert true = ok tt
marl_assert false = abort

-- What runs to a result has a result in its first part.
pub bind-ok :
    {A B : Type 0} (r : Run A) (next : A → Run B) (b : B)
    → (r >>= next) ≡ ok b
    → (a : A) × (r ≡ ok a) × (next a ≡ ok b)
bind-ok (ok a) next b h = (a, refl, h)
bind-ok abort next b h = absurd (cc)
bind-ok undefined next b h = absurd (cc)
bind-ok out_of_fuel next b h = absurd (cc)
