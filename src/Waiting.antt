-- ===== src/Waiting.antt =====
-- `Scheduler::WaitingFibers` of include/marl/scheduler.hpp and src/scheduler.cpp: the fibers that
-- wait with a timeout. A fiber's pointer and a time point are numbers. The `std::set` is the list
-- of its entries in the order of `operator<`, the `unordered_map` an association list.
pub mod Sync
pub mod Laws
use mini_marl.Base.{
  ℕ, ◌≡◌, Bool, true, false, not, ◌&&◌, ◌||◌, List, [], ◌∷◌, Option, none, some, arith, ltb, ◌==◌,
  if◌then◌else◌, is_empty, Run, ok, abort, undefined, ◌>>=◌, ◌>>◌, marl_assert,
}

pub record Timeout : Type 0 where
  pub timepoint : ℕ
  pub fiber : ℕ

-- `Timeout::operator<`
unfoldable pub before : Timeout → Timeout → Bool
before a b =
    if not (a.timepoint == b.timepoint) then ltb a.timepoint b.timepoint else ltb a.fiber b.fiber

-- Two entries that `std::set` takes for one.
abbrev pub same : Timeout → Timeout → Bool
same a b = (a.timepoint == b.timepoint) && (a.fiber == b.fiber)

-- `set::emplace`
unfoldable pub set_emplace : Timeout → List Timeout → List Timeout
unfolding before
set_emplace x [] = x ∷ []
set_emplace x (y ∷ ys) =
    if before x y then x ∷ y ∷ ys else if before y x then y ∷ set_emplace x ys else y ∷ ys

-- `set::erase(key)`
unfoldable pub set_erase : Timeout → List Timeout → List Timeout
unfolding before
set_erase x [] = []
set_erase x (y ∷ ys) = if before x y || before y x then y ∷ set_erase x ys else ys

unfoldable pub set_has : Timeout → List Timeout → Bool
set_has x [] = false
set_has x (y ∷ ys) = same x y || set_has x ys

-- `unordered_map::find`, `emplace` (which keeps an entry that is there) and `erase(key)`
unfoldable pub map_find : ℕ → List (ℕ × ℕ) → Option ℕ
map_find f [] = none
map_find f ((g, t) ∷ m) = if g == f then some t else map_find f m

unfoldable pub map_has : ℕ → List (ℕ × ℕ) → Bool
map_has f [] = false
map_has f ((g, t) ∷ m) = (g == f) || map_has f m

unfoldable pub map_erase : ℕ → List (ℕ × ℕ) → List (ℕ × ℕ)
map_erase f [] = []
map_erase f ((g, t) ∷ m) = let rest = map_erase f m in if g == f then rest else (g, t) ∷ rest

pub record WaitingFibers : Type 0 where
  pub timeouts : List Timeout
  pub fibers : List (ℕ × ℕ)

unfoldable pub no_waiting : WaitingFibers
no_waiting = record { timeouts = []; fibers = [] }

-- `operator bool`
unfoldable pub any_waiting : WaitingFibers → Bool
any_waiting w = not (is_empty w.fibers)

unfoldable pub contains : ℕ → WaitingFibers → Bool
unfolding map_has
contains f w = map_has f w.fibers

unfoldable pub take_first : ℕ → WaitingFibers → List Timeout → Run (Option ℕ × WaitingFibers)
unfolding map_has map_erase
take_first now w [] = undefined
take_first now w (x ∷ rest) = if ltb now x.timepoint then ok (none, w) else do
  marl_assert (map_has x.fiber w.fibers)
  ok (some x.fiber, record { timeouts = rest; fibers = map_erase x.fiber w.fibers })

-- `take`: `timeouts.begin()` of an empty set is not to be read.
unfoldable pub take : ℕ → WaitingFibers → Run (Option ℕ × WaitingFibers)
unfolding take_first any_waiting
take now w = if any_waiting w then take_first now w w.timeouts else ok (none, w)

unfoldable pub next_first : List Timeout → Run ℕ
next_first [] = undefined
next_first (x ∷ rest) = ok x.timepoint

unfoldable pub next : WaitingFibers → Run ℕ
unfolding next_first any_waiting
next w = do marl_assert (any_waiting w); next_first w.timeouts

unfoldable pub add : ℕ → ℕ → WaitingFibers → Run WaitingFibers
unfolding set_emplace map_has
add t f w = do
  marl_assert (not (map_has f w.fibers))
  ok (record {
    timeouts = set_emplace (record { timepoint = t; fiber = f }) w.timeouts;
    fibers = (f, t) ∷ w.fibers;
  })

unfoldable pub erase : ℕ → WaitingFibers → Run WaitingFibers
unfolding set_erase set_has map_find map_erase
erase f w = elim (map_find f w.fibers) [
  | none ↦ ok w
  | some t ↦
      let x : Timeout = record { timepoint = t; fiber = f } in
      marl_assert (set_has x w.timeouts)
      >> ok (record { timeouts = set_erase x w.timeouts; fibers = map_erase f w.fibers })
]
