-- ===== src/Worker/Rotation.antt =====
-- A fiber that goes idle and the first queued fiber, which runs then.
use mini_marl.Base.{
  ℕ, suc, ◌-◌, ◌<◌, ◌≡◌, refl, Bool, true, false, List, ◌∷◌, arith, leb, ◌==◌, Run, ok,
}
use mini_marl.Worker.State.{
  State, Code, Resume, active, in_suspend, in_idle, Worker, update, set_fiber_state,
  change_fiber_state, in_code,
}
use mini_marl.Worker.Control.{go_on, switch_to_fiber, run_fibers}
use mini_marl.Worker.Inv.{how_many-update, is_suspended, is_asleep, fits, Core, state_of, Inv}

-- A fiber in the queue is another one than the current fiber when that one runs, and it goes on
-- behind a switch of `suspend`.
pub record Sleeper (w : Worker) (f : ℕ) : Type 0 where
  pub is_queued : w.state f ≡ State.queued
  pub other : (f == w.current_fiber) ≡ false
  pub born : f < suc w.worker_fibers
  pub code : Code
  pub left : w.resume f ≡ in_suspend code

fits_asleep :
    (born : Bool) (s : State) (r : Resume)
    → fits false born s r ≡ true
    → is_asleep s ≡ true
    → (c : Code) × (r ≡ in_suspend c) × (born ≡ true)
fits_asleep true s active h k = absurd (cc)
fits_asleep true s (in_suspend c) h k = (c, refl, refl)
fits_asleep true s in_idle h k = absurd (ground arith)
fits_asleep false s active h k = absurd (ground arith)
fits_asleep false s (in_suspend c) h k = absurd (cc)
fits_asleep false s in_idle h k = absurd (cc)

pub first_queued :
    (w : Worker) (f : ℕ) (rest : List ℕ) → Core w → w.fibers ≡ f ∷ rest → w.state f ≡ State.queued
first_queued w f rest c e = ground (arith, c.each f)

pub first-Sleeper :
    (w : Worker) (f : ℕ) (rest : List ℕ)
    → Core w
    → w.fibers ≡ f ∷ rest
    → (f == w.current_fiber) ≡ false
    → Sleeper w f
first-Sleeper w f rest c e other =
    let q : w.state f ≡ State.queued = first_queued w f rest c e in
    let (code, left, born) =
      fits_asleep (leb f w.worker_fibers) (w.state f) (w.resume f) (ground (arith, c.each f))
        (rw q) in
    record { is_queued = q; other = other; born = ground arith; code = code; left = left }

pub current_facts :
    (w : Worker)
    → Core w
    → (w.resume w.current_fiber ≡ active) × (w.current_fiber < suc w.worker_fibers)
current_facts w c = go (w.resume w.current_fiber) (ground (arith, c.each w.current_fiber))
  where
    go :
        (r : Resume)
        → fits true (leb w.current_fiber w.worker_fibers) (w.state w.current_fiber) r ≡ true
        → (r ≡ active) × (w.current_fiber < suc w.worker_fibers)
    go active h = (refl, ground arith)
    go (in_suspend _) h = absurd (cc)
    go in_idle h = absurd (cc)

-- The worker after the current fiber has gone idle and the first queued fiber has been resumed.
abbrev rotate : Code → ℕ → List ℕ → Worker → Worker
rotate code f rest w = record w {
  num = w.num - 1;
  num_blocked_fibers = w.num_blocked_fibers - 1;
  fibers = rest;
  current_fiber = f;
  idle_fibers = w.current_fiber ∷ w.idle_fibers;
  state = update (update w.state w.current_fiber State.idle) f State.running;
  resume = update (update w.resume w.current_fiber in_idle) f active;
  pc = in_code code;
}

rotate-Core :
    (w : Worker) (f : ℕ) (rest : List ℕ)
    → Core w
    → w.fibers ≡ f ∷ rest
    → state_of w ≡ State.running
    → (s : Sleeper w f) → Core (rotate s.code f rest w)
rotate-Core w f rest c e runs s = record {
  num_sync = ground (arith, c.num_sync);
  valid = c.valid;
  synced = c.synced;
  blocked_count = ground (
    arith,
    c.blocked_count,
    current_facts w c,
    how_many-update is_suspended (suc w.worker_fibers) w.resume w.current_fiber in_idle,
    how_many-update is_suspended (suc w.worker_fibers) (update w.resume w.current_fiber in_idle) f
        active,
  );
  each = λ g. ground (arith, c.each g, c.each f, c.each w.current_fiber);
}

-- The call succeeds, and the thread stands where the invariant says.
abbrev pub Leads : Run Worker → Type 0
Leads r = (v : Worker) × (r ≡ ok v) × Inv v

pub run_fibers-Leads :
    (w : Worker) (f : ℕ) (rest : List ℕ)
    → Core w
    → w.fibers ≡ f ∷ rest
    → state_of w ≡ State.running
    → Leads (run_fibers (f ∷ rest) w)
unfolding run_fibers change_fiber_state switch_to_fiber go_on set_fiber_state
run_fibers-Leads w f rest c e runs =
    let q = first_queued w f rest c e in
    let other : (f == w.current_fiber) ≡ false = ground arith in
    let s = first-Sleeper w f rest c e other in
    (
      rotate s.code f rest w,
      ground (arith, c.each f, c.each w.current_fiber, s.left),
      record { core = rotate-Core w f rest c e runs s; phase = ground arith },
    )
