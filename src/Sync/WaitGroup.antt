-- ===== src/Sync/WaitGroup.antt =====
-- `WaitGroup` of include/marl/wait_group.hpp, shared by fibers that call it in any order. The counter
-- is atomic and is read under no lock by `add` and `done`; `wait` reads it under `mutex`.
use mini_marl.Base.{
  ℕ, ◌+◌, ◌-◌, ◌%◌, ◌≤◌, ◌<◌, ◌≡◌, refl, Bool, true, false, ◌||◌, List, [], ◌∷◌, arith, ltb, ◌==◌,
  ind, if◌then◌else◌, length, count, count-erase, Option, none, some, Run, ok, ◌>>◌, marl_assert,
  Bool-cases, inl, inr,
}
use mini_marl.Sync.Condition.{
  ConditionVariable, no_waiters, notify_all, enter_fiber, leave_fiber, length-erase,
}

-- The numbers of an unsigned int.
abbrev pub unsigned_mod : ℕ
unsigned_mod = 4294967296

-- `Data`, the callers and the fibers: `checked` is the caller of `wait` that holds `mutex` and has
-- seen the counter above 0; `zeroed` counts the calls of `done` that have brought the counter to 0 and
-- have not yet locked `mutex`; `notified` are the waiting fibers that are to look again.
pub record WaitGroup : Type 0 where
  pub counter : ℕ
  pub cv : ConditionVariable
  pub checked : Option ℕ
  pub zeroed : ℕ
  pub notified : ℕ → Bool

-- The constructor
unfoldable pub make : ℕ → WaitGroup
make n = record { counter = n; cv = no_waiters; checked = none; zeroed = 0; notified = λ _. false }

unfoldable pub add : ℕ → WaitGroup → WaitGroup
add n g = record g { counter = (g.counter + n) % unsigned_mod }

-- `done`, up to the lock: the result is what it returns.
unfoldable pub decrement : WaitGroup → Run (Bool × WaitGroup)
decrement g = do
  marl_assert (ltb 0 g.counter)
  let last = g.counter - 1 == 0
  ok (last, record g { counter = g.counter - 1; zeroed = g.zeroed + ind last })

-- The rest of the `done` that has brought the counter to 0, under the lock.
unfoldable pub notify : WaitGroup → WaitGroup
unfolding notify_all
notify g = record g {
  zeroed = g.zeroed - 1;
  notified = λ f. ltb 0 (count f (notify_all g.cv).fibers) || g.notified f;
}

-- `wait`, by a fiber that has locked `mutex`: it returns, or is about to wait.
unfoldable pub check : ℕ → WaitGroup → WaitGroup
check f g = if g.counter == 0 then g else record g { checked = some f }

-- It enters the list of the condition variable, suspends, and `mutex` is unlocked.
unfoldable pub park : ℕ → WaitGroup → WaitGroup
unfolding enter_fiber
park f g = record g { cv = enter_fiber f g.cv; checked = none }

abbrev cleared : ℕ → (ℕ → Bool) → ℕ → Bool
cleared f n g = if f == g then false else n g

-- A notified fiber runs, locks `mutex` and tries the predicate again; it leaves, or goes on waiting.
unfoldable pub resume : ℕ → WaitGroup → WaitGroup
unfolding leave_fiber
resume f g =
    if g.counter == 0
    then record g { notified = cleared f g.notified; cv = leave_fiber f g.cv }
    else record g { notified = cleared f g.notified }

-- The states after any interleaving of the calls. The counter does not overflow, `done` passes its
-- assertion, a fiber that waits makes no other call, and `mutex` excludes.
pub data Reached : WaitGroup → Type 0 where
  made : (n : ℕ) → Reached (make n)
  adds : {g : WaitGroup} (n : ℕ) → Reached g → g.counter + n < unsigned_mod → Reached (add n g)
  decrements :
      {g g' : WaitGroup} (last : Bool) → Reached g → decrement g ≡ ok (last, g') → Reached g'
  notifies : {g : WaitGroup} → Reached g → g.checked ≡ none → 0 < g.zeroed → Reached (notify g)
  checks :
      {g : WaitGroup} (f : ℕ)
      → Reached g
      → g.checked ≡ none
      → count f g.cv.waiting_ ≡ 0
      → Reached (check f g)
  parks : {g : WaitGroup} (f : ℕ) → Reached g → g.checked ≡ some f → Reached (park f g)
  resumes :
      {g : WaitGroup} (f : ℕ)
      → Reached g
      → g.checked ≡ none
      → 0 < count f g.cv.waiting_
      → g.notified f ≡ true
      → Reached (resume f g)

record Inv (g : WaitGroup) : Type 0 where
  once : (f : ℕ) → count f g.cv.waiting_ ≤ 1
  apart : (f : ℕ) → g.checked ≡ some f → count f g.cv.waiting_ ≡ 0
  counted : g.cv.num_waiting_ ≡ length g.cv.waiting_ + g.cv.num_waiting_on_condition
  signalled :
      g.counter ≡ 0
      → g.zeroed ≡ 0
      → (g.checked ≡ none) × ((f : ℕ) → 0 < count f g.cv.waiting_ → g.notified f ≡ true)

count-length : (f : ℕ) (fs : List ℕ) → count f fs ≤ length fs
count-length f [] = omega arith
count-length f (g ∷ fs) = ground (arith, count-length f fs)

add-Inv : (n : ℕ) (g : WaitGroup) → g.counter + n < unsigned_mod → Inv g → Inv (add n g)
unfolding add
add-Inv n g h i = record {
  once = i.once;
  apart = i.apart;
  counted = i.counted;
  signalled = λ z p. i.signalled (omega (arith, z, h)) p;
}

decrement-Inv : (last : Bool) (g g' : WaitGroup) → decrement g ≡ ok (last, g') → Inv g → Inv g'
unfolding decrement
decrement-Inv last g g' h i = ground (arith, h, i.counted)

notify-Inv : (g : WaitGroup) → g.checked ≡ none → Inv g → Inv (notify g)
unfolding notify notify_all
notify-Inv g h i = record {
  once = i.once;
  apart = i.apart;
  counted = i.counted;
  signalled = λ z p. (h, λ f there. ground (arith, there, i.counted, count-length f g.cv.waiting_));
}

check-Inv : (f : ℕ) (g : WaitGroup) → count f g.cv.waiting_ ≡ 0 → Inv g → Inv (check f g)
unfolding check
check-Inv f g h i = elim (Bool-cases (g.counter == 0)) [
  | inl z ↦ rw z i
  | inr z ↦ rw z record {
    once = i.once;
    apart = (λ f' e. cc);
    counted = i.counted;
    signalled = λ c p. absurd (ground (arith, z, c));
  }
]

park-Inv : (f : ℕ) (g : WaitGroup) → g.checked ≡ some f → Inv g → Inv (park f g)
unfolding park enter_fiber
park-Inv f g h i = record {
  once = λ k. ground (arith, i.once k, i.apart f h);
  apart = λ k e. absurd (cc);
  counted = omega (arith, i.counted);
  signalled = λ z p. absurd (let e = (i.signalled z p).0 in cc);
}

resume-Inv :
    (f : ℕ) (g : WaitGroup)
    → g.checked ≡ none
    → 0 < count f g.cv.waiting_
    → Inv g
    → Inv (resume f g)
unfolding resume leave_fiber
resume-Inv f g c h i = elim (Bool-cases (g.counter == 0)) [
  | inl z ↦ rw z record {
    once = λ k. omega (arith, i.once k, count-erase f k g.cv.waiting_ h);
    apart = λ k e. absurd (cc);
    counted = omega (arith, i.counted, length-erase f g.cv.waiting_ h);
    signalled = λ d p. (
      c,
      λ k there.
          ground (arith, there, i.once f, (i.signalled d p).1 k, count-erase f k g.cv.waiting_ h),
    );
  }
  | inr z ↦ rw z record {
    once = i.once;
    apart = i.apart;
    counted = i.counted;
    signalled = λ d p. absurd (ground (arith, z, d));
  }
]

Reached-Inv : {g : WaitGroup} → Reached g → Inv g
unfolding make
Reached-Inv (made n) = record {
  once = λ k. omega arith;
  apart = λ k e. refl;
  counted = omega arith;
  signalled = λ z p. (refl, λ f there. absurd (omega (arith, there)));
}
Reached-Inv (adds {g = g} n r h) = add-Inv n g h (Reached-Inv r)
Reached-Inv (decrements {g = g} {g' = g'} last r h) = decrement-Inv last g g' h (Reached-Inv r)
Reached-Inv (notifies {g = g} r h p) = notify-Inv g h (Reached-Inv r)
Reached-Inv (checks {g = g} f r h n) = check-Inv f g n (Reached-Inv r)
Reached-Inv (parks {g = g} f r h) = park-Inv f g h (Reached-Inv r)
Reached-Inv (resumes {g = g} f r h p n) = resume-Inv f g h p (Reached-Inv r)

-- No wake-up is lost: in every state reached, when the counter is 0 and each `done` that brought it
-- there has returned, every fiber that still waits has been notified, and returns from `wait` when it
-- runs.
pub Reached-resume :
    {g : WaitGroup} (f : ℕ)
    → Reached g
    → g.counter ≡ 0
    → g.zeroed ≡ 0
    → 0 < count f g.cv.waiting_
    → (g.notified f ≡ true) × (count f (resume f g).cv.waiting_ ≡ 0)
unfolding resume leave_fiber
Reached-resume {g = g} f r z p there =
    let i = Reached-Inv r in
    ((i.signalled z p).1 f there, ground (arith, z, i.once f, there, count-erase f f g.cv.waiting_))
