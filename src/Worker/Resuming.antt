-- ===== src/Worker/Resuming.antt =====
-- The switch of `suspend` keeps the invariant of the worker, and none of its assertions fails.
use mini_marl.Base.{
  ℕ, zero, suc, ◌+◌, ◌-◌, ◌<◌, ◌≡◌, refl, Bool, true, false, List, [], ◌∷◌, Option, none, some,
  arith, leb, ◌==◌, count, erase, count-erase, get_elem?, inl, inr, Bool-cases,
}
use mini_marl.Worker.State.{
  State, Code, Resume, active, in_suspend, in_idle, Worker, update, set_fiber_state,
  change_fiber_state, in_code, until_idle, starting,
}
use mini_marl.Worker.Control.{
  go_on, switch_to_fiber, create_worker_fiber, pick_idle, resume_idle, resume_queued,
  suspend_switch,
}
use mini_marl.Worker.Inv.{
  how_many-update, how_many-next, is_suspended, is_asleep, fits, Core, state_of,
}
use mini_marl.Worker.Rotation.{first_queued, first-Sleeper, current_facts, Leads}

-- The worker after `suspend` has resumed the first queued fiber.
abbrev resumed : Code → Code → ℕ → List ℕ → Worker → Worker
resumed mine code f rest w = record w {
  num = w.num - 1;
  fibers = rest;
  current_fiber = f;
  state = update w.state f State.running;
  resume = update (update w.resume w.current_fiber (in_suspend mine)) f active;
  pc = in_code code;
}

resumed-Core :
    (mine code : Code) (w : Worker) (f : ℕ) (rest : List ℕ)
    → Core w
    → w.fibers ≡ f ∷ rest
    → is_asleep (state_of w) ≡ true
    → is_suspended (update w.resume w.current_fiber (in_suspend mine) f) ≡ true
    → f < suc w.worker_fibers
    → Core (resumed mine code f rest w)
resumed-Core mine code w f rest c e sleeps left born = record {
  num_sync = ground (arith, c.num_sync);
  valid = c.valid;
  synced = c.synced;
  blocked_count = ground (
    arith,
    c.blocked_count,
    current_facts w c,
    how_many-update is_suspended (suc w.worker_fibers) w.resume w.current_fiber (in_suspend mine),
    how_many-update is_suspended (suc w.worker_fibers)
        (update w.resume w.current_fiber (in_suspend mine)) f active,
  );
  each = λ g. ground (arith, c.each g, c.each f, c.each w.current_fiber);
}

resume_queued-Leads :
    (mine : Code) (choice : ℕ) (w : Worker) (f : ℕ) (rest : List ℕ)
    → Core w
    → w.fibers ≡ f ∷ rest
    → is_asleep (state_of w) ≡ true
    → Leads (
        resume_queued mine choice
          (f ∷ rest)
          (record w { num_blocked_fibers = w.num_blocked_fibers + 1 }))
unfolding resume_queued switch_to_fiber go_on set_fiber_state
resume_queued-Leads mine choice w f rest c e sleeps = elim (Bool-cases (f == w.current_fiber)) [
  | inl own ↦ (
    resumed mine mine f rest w,
    ground (arith, c.each f, first_queued w f rest c e),
    record {
      core =
          resumed-Core mine mine w f rest c e sleeps (ground arith)
            (ground (arith, current_facts w c));
      phase = ground arith;
    },
  )
  | inr other ↦
      let s = first-Sleeper w f rest c e other in
      (
        resumed mine s.code f rest w,
        ground (arith, c.each f, s.is_queued, s.left),
        record {
          core = resumed-Core mine s.code w f rest c e sleeps (ground (arith, s.left)) s.born;
          phase = ground arith;
        },
      )
]

-- The worker after `suspend` has resumed an idle fiber.
abbrev reused : Code → ℕ → Worker → Worker
reused mine f w = record w {
  num_blocked_fibers = w.num_blocked_fibers + 1;
  idle_fibers = erase f w.idle_fibers;
  current_fiber = f;
  state = update w.state f State.running;
  resume = update (update w.resume w.current_fiber (in_suspend mine)) f active;
  pc = until_idle;
}

fits_idle :
    (born : Bool) (r : Resume) → fits false born State.idle r ≡ true → (r ≡ in_idle) × (born ≡ true)
fits_idle true active h = absurd (cc)
fits_idle true (in_suspend c) h = absurd (cc)
fits_idle true in_idle h = (refl, refl)
fits_idle false active h = absurd (cc)
fits_idle false (in_suspend c) h = absurd (cc)
fits_idle false in_idle h = absurd (cc)

count_of_get_elem? : (xs : List ℕ) (i a : ℕ) → get_elem? xs i ≡ some a → 0 < count a xs
count_of_get_elem? [] i a h = absurd (cc)
count_of_get_elem? (x ∷ xs) zero a h = ground arith
count_of_get_elem? (x ∷ xs) (suc i) a h = omega (arith, count_of_get_elem? xs i a h)

resume_idle-some :
    (mine : Code) (w : Worker) (f : ℕ)
    → Core w
    → 0 < count f w.idle_fibers
    → is_asleep (state_of w) ≡ true
    → Leads (resume_idle mine (some f) (record w { num_blocked_fibers = w.num_blocked_fibers + 1 }))
unfolding resume_idle switch_to_fiber go_on change_fiber_state set_fiber_state
resume_idle-some mine w f c member sleeps =
    let rests : w.state f ≡ State.idle = ground (arith, c.each f) in
    let other : (f == w.current_fiber) ≡ false = ground arith in
    let (left, born) = fits_idle (leb f w.worker_fibers) (w.resume f) (ground (arith, c.each f)) in
    (
      reused mine f w,
      ground (arith, c.each f, count-erase f f w.idle_fibers member),
      record {
        core = record {
          num_sync = c.num_sync;
          valid = c.valid;
          synced = c.synced;
          blocked_count = ground (
            arith,
            c.blocked_count,
            current_facts w c,
            how_many-update is_suspended (suc w.worker_fibers) w.resume w.current_fiber
                (in_suspend mine),
            how_many-update is_suspended (suc w.worker_fibers)
                (update w.resume w.current_fiber (in_suspend mine)) f active,
          );
          each = λ g. ground (
            arith,
            c.each g,
            c.each f,
            c.each w.current_fiber,
            count-erase f g w.idle_fibers member,
          );
        };
        phase = ground arith;
      },
    )

-- The worker after `suspend` has made a new fiber.
abbrev renewed : Code → Worker → Worker
renewed mine w = record w {
  num_blocked_fibers = w.num_blocked_fibers + 1;
  worker_fibers = w.worker_fibers + 1;
  current_fiber = w.worker_fibers + 1;
  resume = update w.resume w.current_fiber (in_suspend mine);
  pc = starting;
}

resume_idle-none :
    (mine : Code) (w : Worker)
    → Core w
    → is_asleep (state_of w) ≡ true
    → Leads (resume_idle mine none (record w { num_blocked_fibers = w.num_blocked_fibers + 1 }))
unfolding resume_idle create_worker_fiber switch_to_fiber go_on
resume_idle-none mine w c sleeps =
    let (mine_active, born) = current_facts w c in
    (
      renewed mine w,
      ground (arith, c.each (w.worker_fibers + 1)),
      record {
        core = record {
          num_sync = c.num_sync;
          valid = c.valid;
          synced = c.synced;
          blocked_count = ground (
            arith,
            c.blocked_count,
            c.each (w.worker_fibers + 1),
            how_many-next is_suspended w.worker_fibers
                (update w.resume w.current_fiber (in_suspend mine)),
            how_many-update is_suspended (suc w.worker_fibers) w.resume w.current_fiber
                (in_suspend mine),
          );
          each =
              λ g. ground (arith, c.each g, c.each (w.worker_fibers + 1), c.each w.current_fiber);
        };
        phase = ground (arith, c.each (w.worker_fibers + 1));
      },
    )

resume_idle-Leads :
    (mine : Code) (r : Option ℕ) (w : Worker)
    → Core w
    → ((f : ℕ) → r ≡ some f → 0 < count f w.idle_fibers)
    → is_asleep (state_of w) ≡ true
    → Leads (resume_idle mine r (record w { num_blocked_fibers = w.num_blocked_fibers + 1 }))
resume_idle-Leads mine none w c member sleeps = resume_idle-none mine w c sleeps
resume_idle-Leads mine (some f) w c member sleeps =
    resume_idle-some mine w f c (member f refl) sleeps

-- `suspend` behind `waitForWork` passes its assertions, whichever fiber it picks, and leads to a
-- fiber that runs.
pub suspend_switch-Leads :
    (mine : Code) (choice : ℕ) (w : Worker)
    → Core w
    → is_asleep (state_of w) ≡ true
    → Leads (suspend_switch mine choice w)
unfolding suspend_switch
suspend_switch-Leads mine choice w c sleeps = go w.fibers refl
  where
    go :
        (fs : List ℕ)
        → w.fibers ≡ fs
        → Leads (
            resume_queued mine choice fs
              (record w { num_blocked_fibers = w.num_blocked_fibers + 1 }))
    go [] e =
        unfold resume_queued pick_idle in
        resume_idle-Leads mine (pick_idle choice w.idle_fibers) w c
          (λ f p. count_of_get_elem? w.idle_fibers _ f p) sleeps
    go (f ∷ rest) e = resume_queued-Leads mine choice w f rest c e sleeps
