-- ===== src/Worker/Inv.antt =====
-- The invariant of a worker: what holds whenever its thread stands at a point of `Pc`.
use mini_marl.Base.{
  ℕ, zero, suc, ◌+◌, ◌≤◌, ◌<◌, ◌≡◌, refl, Bool, true, false, List, [], ◌∷◌, arith, leb, ◌==◌, ind,
  length, count, ◌⊎◌,
}
use mini_marl.Task.{Task, is_valid}
use mini_marl.Waiting
use mini_marl.Waiting.{WaitingFibers}
use mini_marl.Waiting.Sync.{IsSynced}
use mini_marl.Worker.State.{
  State, Job, state_eq, Resume, active, in_suspend, in_idle, Caller, from_run, from_loop,
  from_suspend, Pc, in_code, spinning, sleeping, before_run, starting, until_shutdown, until_idle,
  awake, returning, finished, Worker, main_fiber, update,
}

-- How many of the first `n` entries of a family pass a test.
module _ {A : Type 0} (p : A → Bool) where
  unfoldable pub how_many : ℕ → (ℕ → A) → ℕ
  how_many zero f = 0
  how_many (suc n) f = ind (p (f n)) + how_many n f

  how_many-update_above :
      (k : ℕ) (table : ℕ → A) (slot : ℕ) (v : A)
      → k ≤ slot
      → how_many k (update table slot v) ≡ how_many k table
  unfolding how_many
  how_many-update_above zero table slot v h = refl
  how_many-update_above (suc k) table slot v h =
      ground (arith, how_many-update_above k table slot v)

  pub how_many-update :
      (k : ℕ) (table : ℕ → A) (slot : ℕ) (v : A)
      → slot < k
      → how_many k (update table slot v) + ind (p (table slot)) ≡ how_many k table + ind (p v)
  unfolding how_many
  how_many-update zero table slot v h = elim h [ ]
  how_many-update (suc k) table slot v h =
      ground (arith, how_many-update k table slot v, how_many-update_above k table slot v)

  pub how_many-next :
      (n : ℕ) (f : ℕ → A) → how_many (suc (n + 1)) f ≡ ind (p (f (n + 1))) + how_many (suc n) f
  unfolding how_many
  how_many-next n f = ground arith

  pub how_many-zero : (n : ℕ) (f : ℕ → A) (i : ℕ) → how_many n f ≡ 0 → i < n → p (f i) ≡ false
  unfolding how_many
  how_many-zero zero f i e h = elim h [ ]
  how_many-zero (suc n) f i e h = ground (arith, how_many-zero n f i)

abbrev pub is_suspended : Resume → Bool
is_suspended (in_suspend _) = true
is_suspended _ = false

-- The states of a fiber that `suspend` has put to sleep, and that may be queued since.
abbrev pub is_asleep : State → Bool
is_asleep State.yielded = true
is_asleep State.waiting = true
is_asleep State.queued = true
is_asleep _ = false

abbrev pub goes_on_idle : State → Bool
goes_on_idle State.idle = true
goes_on_idle _ = false

abbrev pub is_running : State → Bool
is_running State.running = true
is_running _ = false

-- How a fiber's state goes with the point where it goes on: for the current fiber, for another one
-- that exists, and for one that does not exist yet.
abbrev pub fits : Bool → Bool → State → Resume → Bool
fits true born s active = born
fits true born s _ = false
fits false true s active = false
fits false true s (in_suspend _) = is_asleep s
fits false true s in_idle = goes_on_idle s
fits false false s active = is_running s
fits false false s _ = false

-- A fiber stands in the containers of the worker exactly as its state says, and once at most.
pub record FiberOk (fibers idle : List ℕ) (waiting : WaitingFibers) (current n f : ℕ) (s : State)
    (r : Resume) : Type 0 where
  pub in_queue : count f fibers ≡ ind (state_eq s State.queued)
  pub in_set : count f idle ≡ ind (state_eq s State.idle)
  pub in_waiting : Waiting.contains f waiting ≡ state_eq s State.waiting
  pub fit : fits (f == current) (leb f n) s r ≡ true

abbrev pub AllValid : List (Task Job) → Type 0
AllValid [] = Unit {0}
AllValid (t ∷ ts) = (is_valid t ≡ true) × AllValid ts

pub record CoreOf (num blocked : ℕ) (tasks : List (Task Job)) (fibers : List ℕ)
    (waiting : WaitingFibers) (current : ℕ) (idle : List ℕ) (n : ℕ) (state : ℕ → State)
    (resume : ℕ → Resume) : Type 0 where
  pub num_sync : num ≡ length fibers + length tasks
  pub valid : AllValid tasks
  pub synced : IsSynced waiting
  pub blocked_count : blocked ≡ how_many is_suspended (suc n) resume
  pub each : (f : ℕ) → FiberOk fibers idle waiting current n f (state f) (resume f)

-- The part that does not name the place where the thread stands.
abbrev pub Core : Worker → Type 0
Core w =
    CoreOf w.num w.num_blocked_fibers w.tasks w.fibers w.waiting w.current_fiber w.idle_fibers
      w.worker_fibers w.state w.resume

abbrev pub state_of : Worker → State
state_of w = w.state w.current_fiber

-- The state of the current fiber while `waitForWork` runs for a caller.
abbrev pub Called : Caller → State → Type 0
Called from_run s = s ≡ State.running
Called from_loop s = s ≡ State.running
Called (from_suspend _) s = is_asleep s ≡ true

abbrev pub Phase : Pc → Worker → Type 0
Phase (in_code _) w = state_of w ≡ State.running
Phase (spinning c) w = Called c (state_of w)
Phase (sleeping c _) w = Called c (state_of w) × (w.notify_added ≡ true)
Phase before_run w = state_of w ≡ State.running
Phase starting w = state_of w ≡ State.running
Phase until_shutdown w = state_of w ≡ State.running
Phase until_idle w = state_of w ≡ State.running
Phase (awake _) w = is_asleep (state_of w) ≡ true
Phase returning w =
    (state_of w ≡ State.running) × (w.shutdown ≡ true) × (w.num ≡ 0) × (w.num_blocked_fibers ≡ 0)
Phase finished w = (w.shutdown ≡ true) × (w.num ≡ 0) × (w.num_blocked_fibers ≡ 0)

pub record Inv (w : Worker) : Type 0 where
  pub core : Core w
  pub phase : Phase w.pc w

-- The places that the main fiber passes after the last switch of `run`.
abbrev pub is_last : Pc → Bool
is_last until_idle = true
is_last until_shutdown = true
is_last returning = true
is_last finished = true
is_last _ = false

-- The main fiber on its way out: nothing is left to do, and the mutex is not released any more.
pub record Ending (w : Worker) : Type 0 where
  pub last : is_last w.pc ≡ true
  pub down : w.shutdown ≡ true
  pub num_zero : w.num ≡ 0
  pub no_fibers : w.fibers ≡ []
  pub no_tasks : w.tasks ≡ []
  pub none_blocked : w.num_blocked_fibers ≡ 0
  pub on_main : w.current_fiber ≡ main_fiber
  pub alive : state_of w ≡ State.running

abbrev pub Good : Worker → Type 0
Good w = Inv w ⊎ Ending w
