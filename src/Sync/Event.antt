-- ===== src/Sync/Event.antt =====
-- `Event` of include/marl/event.hpp. Each operation runs under the event's mutex. The shared states
-- stand in a store; a `shared_ptr` is a number, and `make_shared` gives the next one.
pub mod Laws
use mini_marl.Base.{
  ℕ, zero, suc, ◌+◌, ◌-◌, ◌≤◌, ◌<◌, ◌≡◌, refl, Bool, true, false, not, ◌||◌, ◌&&◌, List, [], ◌∷◌,
  ◌++◌, arith, ltb, ◌==◌, if◌then◌else◌, count, Option, none, some, Run, ok, out_of_fuel, ◌>>=◌,
  Bool-cases, inl, inr,
}

pub data Mode : Type 0 where
  auto manual : Mode

abbrev pub is_auto : Mode → Bool
is_auto auto = true
is_auto manual = false

pub record Shared : Type 0 where
  pub deps : List ℕ
  pub mode : Mode
  pub signalled : Bool

-- `notify_one` or `notify_all` on the condition variable of an event.
pub data Wake : Type 0 where
  one all : ℕ → Wake

-- The notifications so far, the newest first.
pub record Store : Type 0 where
  pub next : ℕ
  pub event : ℕ → Shared
  pub wakes : List Wake

abbrev pub put : ℕ → Shared → Store → Store
put i e s = record s { event = λ j. if i == j then e else s.event j }

abbrev pub set_signalled : Bool → ℕ → Store → Store
set_signalled b i s = put i (record (s.event i) { signalled = b }) s

-- The constructor
unfoldable pub make : Mode → Bool → Store → ℕ × Store
make m initial s = (
  s.next,
  put s.next (record { deps = []; mode = m; signalled = initial }) (record s { next = s.next + 1 }),
)

-- `for (const auto &dep : deps) dep->signal();`
unfoldable pub signal_all : (ℕ → Store → Run Store) → List ℕ → Store → Run Store
signal_all sig [] s = ok s
signal_all sig (d ∷ ds) s = do s' ← sig d s; signal_all sig ds s'

abbrev pub wake : Mode → ℕ → Wake
wake auto i = one i
wake manual i = all i

-- `Shared::signal`
unfoldable pub signal : ℕ → ℕ → Store → Run Store
unfolding signal_all
signal zero i s = out_of_fuel
signal (suc n) i s =
    let woken = record (set_signalled true i s) { wakes = wake (s.event i).mode i ∷ s.wakes } in
    let rest = signal_all (signal n) (s.event i).deps woken in
    if (s.event i).signalled then ok s else rest

unfoldable pub clear : ℕ → Store → Store
clear = set_signalled false

-- What `wait`, `wait_for`, `wait_until` and `test` do once they have seen the signal.
abbrev pub consume : ℕ → Store → Store
consume i s = if is_auto (s.event i).mode then set_signalled false i s else s

unfoldable pub test : ℕ → Store → Bool × Store
test i s = if not (s.event i).signalled then (false, s) else (true, consume i s)

unfoldable pub is_signalled : ℕ → Store → Bool
is_signalled i s = (s.event i).signalled

-- `wait`, at a moment when the predicate of the condition variable is tried: it ends, or goes on
-- waiting.
unfoldable pub wait : ℕ → Store → Option Store
wait i s = if (s.event i).signalled then some (consume i s) else none

-- `wait_for` and `wait_until`, whose wait on the condition variable returns whether the event was
-- signalled, or the time is over.
unfoldable pub wait_until : Bool → ℕ → Store → Option (Bool × Store)
wait_until timed_out i s =
    if (s.event i).signalled
    then some (true, consume i s)
    else if timed_out
    then some (false, s)
    else none

-- The loop of `any`; the new event has no dependents yet.
unfoldable pub link : ℕ → List ℕ → Store → Run Store
unfolding signal
link a [] s = ok s
link a (i ∷ is) s = do
  s1 ← if (s.event i).signalled then signal 1 a s else ok s
  link a is (put i (record (s1.event i) { deps = (s1.event i).deps ++ a ∷ [] }) s1)

unfoldable pub any : Mode → List ℕ → Store → Run (ℕ × Store)
unfolding make link
any m is s = do let made = make m false s; s' ← link made.0 is made.1; ok (made.0, s')
