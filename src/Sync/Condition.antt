-- ===== src/Sync/Condition.antt =====
-- `ConditionVariable` of include/marl/condition_variable.hpp. Fibers wait in a list, threads without
-- a fiber on a `std::condition_variable`.
use mini_marl.Base.{
  ℕ, ◌+◌, ◌-◌, ◌<◌, ◌≡◌, refl, Bool, false, List, [], ◌∷◌, arith, ltb, ◌==◌, if◌then◌else◌, length,
  count, erase,
}

pub record ConditionVariable : Type 0 where
  pub waiting_ : List ℕ
  pub num_waiting_ : ℕ
  pub num_waiting_on_condition : ℕ

abbrev pub no_waiters : ConditionVariable
no_waiters = record { waiting_ = []; num_waiting_ = 0; num_waiting_on_condition = 0 }

-- Whom a notification reaches: fibers, and threads by `notify_one` or `notify_all` of the
-- `std::condition_variable`.
pub record Notified : Type 0 where
  pub fibers : List ℕ
  pub condition : Bool

abbrev pub nobody : Notified
nobody = record { fibers = []; condition = false }

unfoldable pub notify_first : List ℕ → ℕ → Notified
notify_first [] threads = record { fibers = []; condition = ltb 0 threads }
notify_first (f ∷ fs) threads = record { fibers = f ∷ []; condition = false }

unfoldable pub notify_one : ConditionVariable → Notified
unfolding notify_first
notify_one c =
    if c.num_waiting_ == 0 then nobody else notify_first c.waiting_ c.num_waiting_on_condition

unfoldable pub notify_all : ConditionVariable → Notified
notify_all c =
    if c.num_waiting_ == 0
    then nobody
    else record { fibers = c.waiting_; condition = ltb 0 c.num_waiting_on_condition }

-- `wait` in a fiber, between the predicate that failed and the suspension: the counter is incremented
-- before the lock of the list is taken, and the two are one step here.
unfoldable pub enter_fiber : ℕ → ConditionVariable → ConditionVariable
enter_fiber f c = record c { num_waiting_ = c.num_waiting_ + 1; waiting_ = f ∷ c.waiting_ }

-- The end of `wait` in a fiber.
unfoldable pub leave_fiber : ℕ → ConditionVariable → ConditionVariable
leave_fiber f c = record c { waiting_ = erase f c.waiting_; num_waiting_ = c.num_waiting_ - 1 }

-- `wait` in a thread without a fiber, before and after the wait on the `std::condition_variable`.
unfoldable pub enter_thread : ConditionVariable → ConditionVariable
enter_thread c = record c {
  num_waiting_ = c.num_waiting_ + 1;
  num_waiting_on_condition = c.num_waiting_on_condition + 1;
}

unfoldable pub leave_thread : ConditionVariable → ConditionVariable
leave_thread c = record c {
  num_waiting_on_condition = c.num_waiting_on_condition - 1;
  num_waiting_ = c.num_waiting_ - 1;
}

-- Those that wait, after any sequence of calls in which only those that wait leave.
pub data Waits : List ℕ → ℕ → ConditionVariable → Type 0 where
  none_yet : Waits [] 0 no_waiters
  fiber_enters :
      {fs : List ℕ} {n : ℕ} {c : ConditionVariable} (f : ℕ)
      → Waits fs n c
      → Waits (f ∷ fs) n (enter_fiber f c)
  fiber_leaves :
      {fs : List ℕ} {n : ℕ} {c : ConditionVariable} (f : ℕ)
      → Waits fs n c
      → 0 < count f fs
      → Waits (erase f fs) n (leave_fiber f c)
  thread_enters :
      {fs : List ℕ} {n : ℕ} {c : ConditionVariable}
      → Waits fs n c
      → Waits fs (n + 1) (enter_thread c)
  thread_leaves :
      {fs : List ℕ} {n : ℕ} {c : ConditionVariable}
      → Waits fs (n + 1) c
      → Waits fs n (leave_thread c)

pub length-erase : (f : ℕ) (fs : List ℕ) → 0 < count f fs → length (erase f fs) + 1 ≡ length fs
length-erase f [] h = absurd (omega arith)
length-erase f (g ∷ fs) h = ground (arith, length-erase f fs)

pub Waits-counted :
    {fs : List ℕ} {n : ℕ} {c : ConditionVariable}
    → Waits fs n c
    → (c.waiting_ ≡ fs) × (c.num_waiting_on_condition ≡ n) × (c.num_waiting_ ≡ length fs + n)
unfolding enter_fiber leave_fiber enter_thread leave_thread
Waits-counted none_yet = (refl, refl, refl)
Waits-counted (fiber_enters f h) = let k = Waits-counted h in ground (arith, k)
Waits-counted (fiber_leaves {fs = fs} f h there) =
    let k = Waits-counted h in ground (arith, k, length-erase f fs there)
Waits-counted (thread_enters h) = let k = Waits-counted h in ground (arith, k)
Waits-counted (thread_leaves h) = let k = Waits-counted h in ground (arith, k)

-- After any such sequence, `notify_all` reaches every fiber that waits, and the threads if any waits:
-- its early return and its counters lose no one.
pub Waits-notify_all :
    {fs : List ℕ} {n : ℕ} {c : ConditionVariable}
    → Waits fs n c
    → notify_all c ≡ record { fibers = fs; condition = ltb 0 n }
unfolding notify_all
Waits-notify_all {fs = fs} {n = n} {c = c} h =
    let (same, threads, total) = Waits-counted h in
    rw (same, threads) (at fs n c.num_waiting_ total)
  where
    at :
        (fs : List ℕ) (n m : ℕ)
        → m ≡ length fs + n
        → (if m == 0 then nobody else record { fibers = fs; condition = ltb 0 n })
          ≡ record { fibers = fs; condition = ltb 0 n }
    at [] n m e = ground arith
    at (f ∷ fs) n m e = ground arith

-- After any such sequence, `notify_one` reaches the fiber that came last, and when no fiber waits the
-- threads, if any waits.
pub Waits-notify_one :
    {fs : List ℕ} {n : ℕ} {c : ConditionVariable} → Waits fs n c → notify_one c ≡ notify_first fs n
unfolding notify_one notify_first
Waits-notify_one {fs = fs} {n = n} {c = c} h =
    let (same, threads, total) = Waits-counted h in
    rw (same, threads) (at fs n c.num_waiting_ total)
  where
    at :
        (fs : List ℕ) (n m : ℕ)
        → m ≡ length fs + n
        → (if m == 0 then nobody else notify_first fs n) ≡ notify_first fs n
    at [] n m e = ground arith
    at (f ∷ fs) n m e = ground arith
