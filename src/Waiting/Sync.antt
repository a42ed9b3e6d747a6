-- ===== src/Waiting/Sync.antt =====
-- The two containers of `WaitingFibers` hold the same entries, the set in order.
use mini_marl.Base.{
  ℕ, ◌≡◌, refl, Bool, true, false, ◌&&◌, ◌||◌, not, List, [], ◌∷◌, Option, none, some, arith, ◌==◌,
  if◌then◌else◌,
}
use mini_marl.Waiting.{
  Timeout, before, same, set_emplace, set_erase, set_has, map_find, map_has, map_erase,
  WaitingFibers,
}

-- Every entry of the list comes after `x`.
abbrev pub After : Timeout → List Timeout → Type 0
After x [] = Unit {0}
After x (y ∷ ys) = (before x y ≡ true) × After x ys

abbrev pub IsOrdered : List Timeout → Type 0
IsOrdered [] = Unit {0}
IsOrdered (x ∷ xs) = After x xs × IsOrdered xs

abbrev pub has_time : Option ℕ → ℕ → Bool
has_time none t = false
has_time (some s) t = s == t

pub record IsSynced (w : WaitingFibers) : Type 0 where
  pub ordered : IsOrdered w.timeouts
  pub agree :
      (x : Timeout) → set_has x w.timeouts ≡ has_time (map_find x.fiber w.fibers) x.timepoint

before_trans : (x y z : Timeout) → before x y ≡ true → before y z ≡ true → before x z ≡ true
unfolding before
before_trans x y z h k = ground arith

After-trans : (x y : Timeout) (ys : List Timeout) → before x y ≡ true → After y ys → After x ys
After-trans x y [] h a = tt
After-trans x y (z ∷ ys) h a = (before_trans x y z h a.0, After-trans x y ys h a.1)

After-set_emplace :
    (x y : Timeout) (ys : List Timeout)
    → before y x ≡ true
    → After y ys
    → After y (set_emplace x ys)
unfolding set_emplace
After-set_emplace x y [] h a = (h, tt)
After-set_emplace x y (z ∷ ys) h a = ground (arith, After-set_emplace x y ys h a.1)

pub IsOrdered-set_emplace :
    (x : Timeout) (xs : List Timeout) → IsOrdered xs → IsOrdered (set_emplace x xs)
unfolding set_emplace
IsOrdered-set_emplace x [] o = (tt, tt)
IsOrdered-set_emplace x (y ∷ ys) o =
    ground (arith, IsOrdered-set_emplace x ys o.1, After-set_emplace x y ys, After-trans x y ys)

pub set_has-set_emplace :
    (z x : Timeout) (xs : List Timeout) → set_has z (set_emplace x xs) ≡ (same z x || set_has z xs)
unfolding set_emplace set_has
set_has-set_emplace z x [] = refl
set_has-set_emplace z x (y ∷ ys) = ground (arith, set_has-set_emplace z x ys)

After-set_erase : (x y : Timeout) (ys : List Timeout) → After y ys → After y (set_erase x ys)
unfolding set_erase
After-set_erase x y [] a = tt
After-set_erase x y (z ∷ ys) a = ground (arith, After-set_erase x y ys a.1)

pub IsOrdered-set_erase :
    (x : Timeout) (xs : List Timeout) → IsOrdered xs → IsOrdered (set_erase x xs)
unfolding set_erase
IsOrdered-set_erase x [] o = tt
IsOrdered-set_erase x (y ∷ ys) o =
    ground (arith, IsOrdered-set_erase x ys o.1, After-set_erase x y ys o.0)

-- What comes after `y` is not `y`.
pub set_has_of_After : (y : Timeout) (ys : List Timeout) → After y ys → set_has y ys ≡ false
unfolding set_has before
set_has_of_After y [] a = refl
set_has_of_After y (z ∷ ys) a = ground (arith, set_has_of_After y ys a.1)

set_has_same : (x y : Timeout) (ys : List Timeout) → same x y ≡ true → set_has x ys ≡ set_has y ys
unfolding set_has
set_has_same x y [] h = refl
set_has_same x y (z ∷ ys) h = ground (arith, set_has_same x y ys h)

pub set_has-set_erase :
    (z x : Timeout) (xs : List Timeout)
    → IsOrdered xs
    → set_has z (set_erase x xs) ≡ (not (same z x) && set_has z xs)
unfolding set_has set_erase before
set_has-set_erase z x [] o = ground arith
set_has-set_erase z x (y ∷ ys) o =
    ground (arith, set_has-set_erase z x ys o.1, set_has_of_After y ys o.0, set_has_same z y ys)

pub map_find-map_erase :
    (f g : ℕ) (m : List (ℕ × ℕ))
    → map_find g (map_erase f m) ≡ (if f == g then none else map_find g m)
unfolding map_find map_erase
map_find-map_erase f g [] = ground arith
map_find-map_erase f g ((k, t) ∷ m) = ground (arith, map_find-map_erase f g m)

-- A key is there if it is found.
pub map_has-map_find :
    (f : ℕ) (m : List (ℕ × ℕ)) → map_has f m ≡ elim (map_find f m) [ none ↦ false | some _ ↦ true ]
unfolding map_has map_find
map_has-map_find f [] = refl
map_has-map_find f ((g, t) ∷ m) = ground (arith, map_has-map_find f m)
