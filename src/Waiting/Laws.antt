-- ===== src/Waiting/Laws.antt =====
-- What the operations of `Scheduler::WaitingFibers` do, as a finite map from fibers to deadlines.
use mini_marl.Base.{
  ℕ, suc, length, ◌<◌, ◌≤◌, ◌≡◌, refl, inl, inr, Bool, true, false, not, List, [], ◌∷◌, Option,
  none, some, arith, ◌==◌, if◌then◌else◌, is_empty, ok, abort, ltb, Bool-cases, Option-cases,
}
use mini_marl.Waiting.{
  Timeout, before, set_emplace, set_erase, set_has, map_find, map_has, map_erase, WaitingFibers,
  no_waiting, any_waiting, contains, take_first, take, next, add, erase,
}
use mini_marl.Waiting.Sync.{
  After, IsOrdered, has_time, IsSynced, IsOrdered-set_emplace, set_has-set_emplace,
  IsOrdered-set_erase, set_has-set_erase, set_has_of_After, map_find-map_erase, map_has-map_find,
}

-- The abstract view: when the fiber's wait ends, if it waits.
abbrev pub deadline : ℕ → WaitingFibers → Option ℕ
deadline f w = map_find f w.fibers

abbrev pub is_some : Option ℕ → Bool
is_some none = false
is_some (some _) = true

pub contains-deadline : (f : ℕ) (w : WaitingFibers) → contains f w ≡ is_some (deadline f w)
unfolding contains
contains-deadline f w = ground (arith, map_has-map_find f w.fibers)

pub no_waiting-IsSynced : IsSynced no_waiting
unfolding no_waiting set_has map_find
no_waiting-IsSynced = record { ordered = tt; agree = λ x. refl }

pub no_waiting-deadline : (f : ℕ) → is_some (deadline f no_waiting) ≡ false
unfolding no_waiting map_find
no_waiting-deadline f = refl

-- `add` of a fiber that does not wait yet passes its assertion, keeps the two containers in step,
-- and sets the deadline of that fiber alone.
pub add_lem :
    (t f : ℕ) (w : WaitingFibers)
    → IsSynced w
    → contains f w ≡ false
    → (w' : WaitingFibers) × (add t f w ≡ ok w')
      × IsSynced w'
      × ((g : ℕ) → deadline g w' ≡ (if f == g then some t else deadline g w))
unfolding add contains map_find
add_lem t f w s h = (
  record { timeouts = set_emplace x w.timeouts; fibers = (f, t) ∷ w.fibers },
  rw h,
  record {
    ordered = IsOrdered-set_emplace x w.timeouts s.ordered;
    agree = λ z.
        ground (arith, set_has-set_emplace z x w.timeouts, s.agree z, map_has-map_find f w.fibers);
  },
  λ g. refl,
)
  where
    x : Timeout
    x = record { timepoint = t; fiber = f }

-- `add` of a fiber that waits already fails its assertion.
pub add_twice : (t f : ℕ) (w : WaitingFibers) → contains f w ≡ true → add t f w ≡ abort
unfolding add contains
add_twice t f w h = rw h

-- `erase` never finds the containers out of step, and takes away the deadline of its fiber alone.
pub erase_lem :
    (f : ℕ) (w : WaitingFibers)
    → IsSynced w
    → (w' : WaitingFibers) × (erase f w ≡ ok w')
      × IsSynced w'
      × ((g : ℕ) → deadline g w' ≡ (if f == g then none else deadline g w))
unfolding erase
erase_lem f w s = elim (Option-cases (map_find f w.fibers)) [
  | inl e ↦ (w, rw (e, erase), s, λ g. ground arith)
  | inr (t, e) ↦
      let x : Timeout = record { timepoint = t; fiber = f } in
      let there : set_has x w.timeouts ≡ true = ground (arith, s.agree x) in
      (
        record { timeouts = set_erase x w.timeouts; fibers = map_erase f w.fibers },
        rw (e, erase, there),
        record {
          ordered = IsOrdered-set_erase x w.timeouts s.ordered;
          agree = λ z. ground (
            arith,
            set_has-set_erase z x w.timeouts s.ordered,
            s.agree z,
            map_find-map_erase f z.fiber w.fibers,
          );
        },
        λ g. map_find-map_erase f g w.fibers,
      )
]

-- The head of an ordered list is due first.
After-least :
    (x z : Timeout) (xs : List Timeout)
    → After x xs
    → set_has z (x ∷ xs) ≡ true
    → x.timepoint ≤ z.timepoint
unfolding set_has before
After-least x z [] a h = ground arith
After-least x z (y ∷ ys) a h = ground (arith, After-least x z ys a.1)

-- Some fiber waits if the map is not empty.
any_waiting_first :
    (w : WaitingFibers) → any_waiting w ≡ true → (f : ℕ) × (t : ℕ) × (map_find f w.fibers ≡ some t)
unfolding any_waiting
any_waiting_first w h = go w.fibers h
  where
    go : (m : List (ℕ × ℕ)) → not (is_empty m) ≡ true → (f : ℕ) × (t : ℕ) × (map_find f m ≡ some t)
    go [] h = absurd (cc)
    go ((f, t) ∷ m) h = (f, t, unfold map_find in ground arith)

any_waiting-none : (w : WaitingFibers) → any_waiting w ≡ false → (g : ℕ) → deadline g w ≡ none
unfolding any_waiting
any_waiting-none w h g = go w.fibers h
  where
    go : (m : List (ℕ × ℕ)) → not (is_empty m) ≡ false → map_find g m ≡ none
    go [] h = unfold map_find in refl
    go (x ∷ m) h = absurd (cc)

-- The outcome of `take now`: nobody is due, or the fiber that is due first leaves.
abbrev pub Takes : ℕ → WaitingFibers → Option ℕ → WaitingFibers → Type 0
Takes now w none w' = (w' ≡ w) × ((g s : ℕ) → deadline g w ≡ some s → now < s)
Takes now w (some f) w' =
    (t : ℕ) × (deadline f w ≡ some t)
    × (t ≤ now)
    × ((g s : ℕ) → deadline g w ≡ some s → t ≤ s)
    × ((g : ℕ) → deadline g w' ≡ (if f == g then none else deadline g w))

take_first_lem :
    (now : ℕ) (w : WaitingFibers) (xs : List Timeout)
    → IsSynced w
    → w.timeouts ≡ xs
    → any_waiting w ≡ true
    → (r : Option ℕ) × (w' : WaitingFibers) × (take_first now w xs ≡ ok (r, w'))
      × IsSynced w'
      × Takes now w r w'
unfolding take_first
take_first_lem now w [] s e h =
    let (f, t, k) = any_waiting_first w h in
    absurd (unfold set_has in ground (arith, s.agree (record { timepoint = t; fiber = f })))
take_first_lem now w (x ∷ xs) s e h = elim (Bool-cases (ltb now x.timepoint)) [
  | inl later ↦ (
    none,
    w,
    rw later,
    s,
    (refl, λ g u q. ground (arith, least (record { timepoint = u; fiber = g }) (ground arith))),
  )
  | inr due ↦
      let there : map_has x.fiber w.fibers ≡ true =
        ground (arith, map_has-map_find x.fiber w.fibers, found) in
      (
        some x.fiber,
        record { timeouts = xs; fibers = map_erase x.fiber w.fibers },
        rw (due, there),
        record {
          ordered = rest.1;
          agree = λ z.
              unfold set_has in
              ground (
                arith,
                s.agree z,
                found,
                map_find-map_erase x.fiber z.fiber w.fibers,
                set_has_of_After x xs rest.0,
              );
        },
        (
          x.timepoint,
          found,
          ground arith,
          λ g u q. least (record { timepoint = u; fiber = g }) (ground arith),
          λ g. map_find-map_erase x.fiber g w.fibers,
        ),
      )
]
  where
    rest : IsOrdered (x ∷ xs)
    rest = rw e at s.ordered

    least :
        (z : Timeout) → has_time (deadline z.fiber w) z.timepoint ≡ true → x.timepoint ≤ z.timepoint
    least z q = After-least x z xs rest.0 (ground (arith, s.agree z))

    found : deadline x.fiber w ≡ some x.timepoint
    found = unfold set_has in ground (arith, s.agree x)

-- `take` never stops the program; it returns the fiber with the least deadline that has passed, and
-- takes it out of both containers, or returns none and changes nothing.
pub take_lem :
    (now : ℕ) (w : WaitingFibers)
    → IsSynced w
    → (r : Option ℕ) × (w' : WaitingFibers) × (take now w ≡ ok (r, w'))
      × IsSynced w'
      × Takes now w r w'
unfolding take
take_lem now w s = elim (Bool-cases (any_waiting w)) [
  | inl some_wait ↦ rw some_wait (take_first_lem now w w.timeouts s refl some_wait)
  | inr nobody ↦
      rw nobody (none, w, refl, s, (refl, λ g u q. absurd (cc (any_waiting-none w nobody g))))
]

-- A fiber that `take` returns leaves the set of time points one entry shorter.
pub take-length :
    (now f : ℕ) (w w' : WaitingFibers)
    → take now w ≡ ok (some f, w')
    → suc (length w'.timeouts) ≡ length w.timeouts
unfolding take
take-length now f w w' h = go w.timeouts refl (ground (arith, h))
  where
    go :
        (xs : List Timeout)
        → w.timeouts ≡ xs
        → take_first now w xs ≡ ok (some f, w')
        → suc (length w'.timeouts) ≡ length xs
    go [] e k = unfold take_first in absurd (cc)
    go (x ∷ xs) e k = unfold take_first in ground arith

-- While a fiber waits, `next` reads its deadline.
pub any_waiting-next :
    (w : WaitingFibers) → IsSynced w → any_waiting w ≡ true → (t : ℕ) × (next w ≡ ok t)
unfolding next
any_waiting-next w s h = go w.timeouts refl
  where
    go : (xs : List Timeout) → w.timeouts ≡ xs → (t : ℕ) × (next w ≡ ok t)
    go [] e =
        let (f, t, k) = any_waiting_first w h in
        absurd (unfold set_has in ground (arith, s.agree (record { timepoint = t; fiber = f })))
    go (x ∷ xs) e = (x.timepoint, rw (h, e))
