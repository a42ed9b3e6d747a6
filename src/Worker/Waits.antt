-- ===== src/Worker/Waits.antt =====
-- `waitForWork`, `Work::wait` and `suspend` keep the invariant of the worker, and none of their
-- assertions fails.
use mini_marl.Base.{
  ℕ, suc, ◌≡◌, refl, Bool, true, false, not, ◌||◌, List, [], ◌∷◌, Option, none, some, arith, leb,
  ltb, ◌==◌, if◌then◌else◌, length, ok, ◌>>=◌, inl, inr, Bool-cases,
}
use mini_marl.Waiting
use mini_marl.Waiting.Laws.{contains-deadline, add_lem, any_waiting-next}
use mini_marl.Worker.State.{
  Mode, multi_threaded, single_threaded, State, Code, Resume, active, in_suspend, in_idle, Caller,
  from_run, from_loop, from_suspend, Worker, main_fiber, update, set_fiber_state,
  change_fiber_state, sleeping, until_idle, until_shutdown, returning, finished,
}
use mini_marl.Worker.Queues.{enqueue_fiber_timeouts}
use mini_marl.Worker.Queueing.{OnlyQueued, enqueue_fiber_timeouts-Keeps}
use mini_marl.Worker.Control.{
  in_sync, proceed, may_proceed, leave_wait, work_wait, spin_or_wait, wait_for_work, wake, suspend,
  run_until_shutdown, return_to_main, run, switch_to_fiber, go_on,
}
use mini_marl.Worker.Inv.{
  how_many-zero, is_suspended, fits, Core, state_of, Called, Inv, Phase, Good,
}
use mini_marl.Worker.Rotation.{Leads}

pub Called-OnlyQueued :
    (c : Caller) (w v : Worker) → OnlyQueued w v → Called c (state_of w) → Called c (state_of v)
Called-OnlyQueued from_run w v o h = ground (arith, o.same_current, o.alive w.current_fiber)
Called-OnlyQueued from_loop w v o h = ground (arith, o.same_current, o.alive w.current_fiber)
Called-OnlyQueued (from_suspend c) w v o h =
    ground (arith, o.same_current, o.asleep w.current_fiber)

in_sync_of_Core : (w : Worker) → Core w → in_sync w ≡ true
unfolding in_sync
in_sync_of_Core w c = ground (arith, c.num_sync)

proceed-Leads : (c : Caller) (w : Worker) → Core w → Called c (state_of w) → Leads (proceed c w)
unfolding proceed
proceed-Leads from_run w c h =
    (record w { pc = until_shutdown }, rw h, record { core = c; phase = h })
proceed-Leads from_loop w c h =
    (record w { pc = until_idle }, rw (h, in_sync_of_Core w c), record { core = c; phase = h })
proceed-Leads (from_suspend k) w c h = (_, refl, record { core = c; phase = h })

-- What `waitForWork` does behind the wait, for both of its callers.
timeouts_then :
    (c : Caller) (now : ℕ) (w : Worker) (b : Bool)
    → Core w
    → Called c (state_of w)
    → Leads ((if b then enqueue_fiber_timeouts now w else ok w) >>= proceed c)
timeouts_then c now w false core h = proceed-Leads c w core h
timeouts_then c now w true core h =
    let (v, e, core', o) = enqueue_fiber_timeouts-Keeps now w core in
    rw e (proceed-Leads c v core' (Called-OnlyQueued c w v o h))

leave_wait-Leads :
    (c : Caller) (now : ℕ) (w : Worker)
    → Core w
    → Called c (state_of w)
    → Leads (leave_wait c now w)
unfolding leave_wait
leave_wait-Leads from_run now w core h =
    proceed-Leads from_run (record w { notify_added = false }) core h
leave_wait-Leads from_loop now w core h =
    timeouts_then from_loop now (record w { notify_added = false }) (Waiting.any_waiting w.waiting)
      core h
leave_wait-Leads (from_suspend k) now w core h =
    timeouts_then (from_suspend k) now (record w { notify_added = false })
      (Waiting.any_waiting w.waiting) core h

pub work_wait-Leads :
    (c : Caller) (now : ℕ) (w : Worker) → Core w → Called c (state_of w) → Leads (work_wait c now w)
unfolding work_wait
work_wait-Leads c now w core h = elim (Bool-cases (may_proceed c w)) [
  | inl may ↦ rw may (leave_wait-Leads c now w core h)
  | inr must_wait ↦ elim (Bool-cases (Waiting.any_waiting w.waiting)) [
    | inl timed ↦
        let (t, e) = any_waiting-next w.waiting core.synced timed in
        (
          record w { notify_added = true; pc = sleeping c (some t) },
          rw (must_wait, timed, e),
          record { core = core; phase = (h, refl) },
        )
    | inr untimed ↦ (
      record w { notify_added = true; pc = sleeping c none },
      rw (must_wait, untimed),
      record { core = core; phase = (h, refl) },
    )
  ]
]

spin_or_wait-Leads :
    (m : Mode) (c : Caller) (now : ℕ) (w : Worker)
    → Core w
    → Called c (state_of w)
    → Leads (spin_or_wait m c now w)
unfolding spin_or_wait
spin_or_wait-Leads multi_threaded c now w core h = (_, refl, record { core = core; phase = h })
spin_or_wait-Leads single_threaded c now w core h = work_wait-Leads c now w core h

pub wait_for_work-Leads :
    (c : Caller) (now : ℕ) (w : Worker)
    → Core w
    → Called c (state_of w)
    → Leads (wait_for_work c now w)
unfolding wait_for_work
wait_for_work-Leads c now w core h = elim (Bool-cases (ltb 0 w.num)) [
  | inl busy ↦ rw (in_sync_of_Core w core, busy) (proceed-Leads c w core h)
  | inr nothing ↦ rw (in_sync_of_Core w core, nothing) (spin_or_wait-Leads w.mode c now w core h)
]

pub wake-Leads :
    (c : Caller) (limit : Option ℕ) (clock now : ℕ) (w : Worker)
    → Inv w
    → Called c (state_of w)
    → Leads (wake c limit clock now w)
unfolding wake
wake-Leads c none clock now w inv h = elim (Bool-cases (may_proceed c w)) [
  | inl may ↦ rw may (leave_wait-Leads c now w inv.core h)
  | inr not_yet ↦ (w, rw not_yet, inv)
]
wake-Leads c (some t) clock now w inv h = elim (Bool-cases (may_proceed c w || leb t clock)) [
  | inl may ↦ rw may (leave_wait-Leads c now w inv.core h)
  | inr not_yet ↦ (w, rw not_yet, inv)
]

pub run-Leads : (now : ℕ) (w : Worker) → Core w → state_of w ≡ State.running → Leads (run now w)
unfolding run
run-Leads now w core h = go w.mode
  where
    go :
        (m : Mode)
        → Leads (elim m [
          | multi_threaded ↦ work_wait from_run now w
          | single_threaded ↦ proceed from_run w
        ])
    go multi_threaded = work_wait-Leads from_run now w core h
    go single_threaded = proceed-Leads from_run w core h

-- `suspend` passes its assertions up to the point where the worker waits, with or without a timeout.
pub suspend-Leads :
    (k : Code) (timeout : Option ℕ) (now : ℕ) (w : Worker)
    → Core w
    → state_of w ≡ State.running
    → Leads (suspend k timeout now w)
unfolding suspend change_fiber_state set_fiber_state
suspend-Leads k none now w c runs = rw runs (
    wait_for_work-Leads (from_suspend k) now
      (record w { state = update w.state w.current_fiber State.yielded })
      (record {
        num_sync = c.num_sync;
        valid = c.valid;
        synced = c.synced;
        blocked_count = c.blocked_count;
        each = λ g. ground (arith, c.each g, c.each w.current_fiber);
      })
      (ground arith))
suspend-Leads k (some t) now w c runs =
    let free : Waiting.contains w.current_fiber w.waiting ≡ false =
      ground (arith, c.each w.current_fiber) in
    let (waiting', added, synced, deadlines) = add_lem t w.current_fiber w.waiting c.synced free in
    rw (runs, added)
      (wait_for_work-Leads (from_suspend k) now
        (record w { waiting = waiting'; state = update w.state w.current_fiber State.waiting })
        (record {
          num_sync = c.num_sync;
          valid = c.valid;
          synced = synced;
          blocked_count = c.blocked_count;
          each = λ g. ground (
            arith,
            c.each g,
            c.each w.current_fiber,
            contains-deadline g waiting',
            contains-deadline g w.waiting,
            deadlines g,
          );
        })
        (ground arith))

pub run_until_shutdown-Leads :
    (now : ℕ) (w : Worker) → Core w → state_of w ≡ State.running → Leads (run_until_shutdown now w)
unfolding run_until_shutdown
run_until_shutdown-Leads now w c runs =
    elim (Bool-cases (not w.shutdown || (ltb 0 w.num || ltb 0 w.num_blocked_fibers))) [
      | inl on ↦ rw on (wait_for_work-Leads from_loop now w c runs)
      | inr over ↦ (
        record w { pc = returning },
        rw over,
        record { core = c; phase = (runs, ground arith, ground arith, ground arith) },
      )
    ]

-- With no fiber blocked, a fiber that is not the current one is idle.
fits_unblocked :
    (s : State) (r : Resume)
    → fits false true s r ≡ true
    → is_suspended r ≡ false
    → (r ≡ in_idle) × (s ≡ State.idle)
fits_unblocked s active h k = absurd (cc)
fits_unblocked s (in_suspend _) h k = absurd (cc)
fits_unblocked State.idle in_idle h k = (refl, refl)
fits_unblocked State.yielded in_idle h k = absurd (cc)
fits_unblocked State.waiting in_idle h k = absurd (cc)
fits_unblocked State.queued in_idle h k = absurd (cc)
fits_unblocked State.running in_idle h k = absurd (cc)

main_is_idle :
    (w : Worker)
    → Core w
    → w.num_blocked_fibers ≡ 0
    → (w.current_fiber == main_fiber) ≡ false
    → (w.resume main_fiber ≡ in_idle) × (w.state main_fiber ≡ State.idle)
main_is_idle w c none_blocked away =
    fits_unblocked (w.state main_fiber) (w.resume main_fiber) (ground (arith, c.each main_fiber)) (
      how_many-zero is_suspended (suc w.worker_fibers) w.resume main_fiber
        (cc (c.blocked_count, none_blocked)) (omega arith))

pub nil_of_length {ℓ} : {A : Type ℓ} (xs : List A) → length xs ≡ 0 → xs ≡ []
nil_of_length [] h = refl
nil_of_length (x ∷ xs) h = absurd (omega arith)

-- The worker behind the last switch of `run`.
abbrev come_home : Worker → Worker
come_home w = record w {
  current_fiber = main_fiber;
  state = update w.state main_fiber State.running;
  resume = update (update w.resume w.current_fiber active) main_fiber active;
  pc = until_idle;
}

-- The last switch of `run` finds the main fiber idle, or on the thread already.
pub return_to_main-Good :
    (w : Worker) → Core w → Phase returning w → (v : Worker) × (return_to_main w ≡ ok v) × Good v
unfolding return_to_main switch_to_fiber go_on change_fiber_state set_fiber_state
return_to_main-Good w c p = elim (Bool-cases (w.current_fiber == main_fiber)) [
  | inl home ↦
      (record w { pc = finished }, rw home, inl (record { core = c; phase = (p.1, p.2, p.3) }))
  | inr away ↦
      let (left, rests) = main_is_idle w c p.3 away in
      (
        come_home w,
        ground (arith, left, rests),
        inr (record {
          last = refl;
          down = p.1;
          num_zero = p.2;
          no_fibers = nil_of_length w.fibers (omega (arith, c.num_sync, p.2));
          no_tasks = nil_of_length w.tasks (omega (arith, c.num_sync, p.2));
          none_blocked = p.3;
          on_main = refl;
          alive = refl;
        }),
      )
]
