-- ===== src/Worker/Rounds.antt =====
-- What a step does to a worker that satisfies its invariant.
use mini_marl.Base.{ℕ, ◌≡◌, refl, Bool, true, false, Option, arith, Run, inl, inr}
use mini_marl.Task.{Task, is_valid}
use mini_marl.Worker.State.{
  Job, task, bound, Pc, Worker, in_code, spinning, sleeping, before_run, starting, until_shutdown,
  until_idle, awake, returning, finished,
}
use mini_marl.Worker.Queues.{accept_stolen}
use mini_marl.Worker.Control.{
  run_until_idle, run_fibers, run_tasks, run_until_shutdown, return_to_main,
}
use mini_marl.Worker.Inv.{Core, Phase, Inv, Ending}
use mini_marl.Worker.Resuming.{suspend_switch-Leads}
use mini_marl.Worker.Switching.{run_until_idle-Leads}
use mini_marl.Worker.Waits.{
  work_wait-Leads, wake-Leads, run-Leads, suspend-Leads, run_until_shutdown-Leads,
  return_to_main-Good,
}
use mini_marl.Worker.Step.{
  Action, add_task, notify, stolen_from, suspends, returns, accepts, spun, wakes, advances, told,
  is_unlocked, advance, code_returns, accepted, spun_out, woken, suspended, returned, called, step,
}
use mini_marl.Worker.Calls.{
  Allowed, Succeeds, leads, more_tasks-Core, Phase-moves, enqueue_task-Inv, notify-Succeeds,
  steal-Inv,
}

-- The thread under the mutex.
advance-Succeeds :
    (pc : Pc) (now choice : ℕ) (w : Worker)
    → w.pc ≡ pc
    → Core w
    → Phase pc w
    → Succeeds (advance pc now choice w)
unfolding advance
advance-Succeeds before_run now choice w e c p = leads (run-Leads now w c p)
advance-Succeeds starting now choice w e c p = leads (run-Leads now w c p)
advance-Succeeds until_shutdown now choice w e c p = leads (run_until_shutdown-Leads now w c p)
advance-Succeeds until_idle now choice w e c p = leads (run_until_idle-Leads w c p)
advance-Succeeds (awake k) now choice w e c p = leads (suspend_switch-Leads k choice w c p)
advance-Succeeds returning now choice w e c p = return_to_main-Good w c p
advance-Succeeds (in_code k) now choice w e c p =
    (w, refl, inl (record { core = c; phase = rw e p }))
advance-Succeeds (spinning k) now choice w e c p =
    (w, refl, inl (record { core = c; phase = rw e p }))
advance-Succeeds (sleeping k l) now choice w e c p =
    (w, refl, inl (record { core = c; phase = rw e p }))
advance-Succeeds finished now choice w e c p = (w, refl, inl (record { core = c; phase = rw e p }))

suspended-Succeeds :
    (pc : Pc) (timeout : Option ℕ) (now : ℕ) (w : Worker)
    → Inv w
    → Phase pc w
    → Succeeds (suspended pc timeout now w)
unfolding suspended
suspended-Succeeds (in_code k) timeout now w inv p =
    leads (suspend-Leads k timeout now w inv.core p)
suspended-Succeeds _ timeout now w inv p = (w, refl, inl inv)

spun_out-Succeeds :
    (pc : Pc) (now : ℕ) (w : Worker) → Inv w → Phase pc w → Succeeds (spun_out pc now w)
unfolding spun_out
spun_out-Succeeds (spinning c) now w inv p = leads (work_wait-Leads c now w inv.core p)
spun_out-Succeeds _ now w inv p = (w, refl, inl inv)

woken-Succeeds :
    (pc : Pc) (clock now : ℕ) (w : Worker) → Inv w → Phase pc w → Succeeds (woken pc clock now w)
unfolding woken
woken-Succeeds (sleeping c limit) clock now w inv p = leads (wake-Leads c limit clock now w inv p.0)
woken-Succeeds _ clock now w inv p = (w, refl, inl inv)

returned-Inv : (pc : Pc) (w : Worker) → Inv w → Phase pc w → Inv (returned pc w)
unfolding returned code_returns
returned-Inv (in_code task) w inv p = record { core = inv.core; phase = p }
returned-Inv (in_code bound) w inv p = record { core = inv.core; phase = p }
returned-Inv _ w inv p = inv

accepted-Inv :
    (pc : Pc) (t : Task Job) (w : Worker)
    → w.pc ≡ pc
    → is_valid t ≡ true
    → Inv w
    → Inv (accepted pc t w)
unfolding accepted accept_stolen
accepted-Inv (spinning c) t w e h inv = record {
  core = more_tasks-Core t w h inv.core;
  phase = Phase-moves w.pc w _ (rw e) refl (λ k p. p) inv.phase;
}
accepted-Inv _ t w e h inv = inv

-- A call of another thread, made while the mutex is free.
called-Succeeds :
    (u : Bool) (r : Run Worker) (w : Worker)
    → is_unlocked w.pc ≡ u
    → Inv w
    → (is_unlocked w.pc ≡ true → Succeeds r)
    → Succeeds (called u r w)
unfolding called
called-Succeeds true r w e inv go = go e
called-Succeeds false r w e inv go = (w, refl, inl inv)

-- A phase asks of the flag at most that it is set.
told-Phase : (pc : Pc) (w : Worker) → Phase pc w → Phase pc (record w { shutdown = true })
told-Phase (in_code _) w p = p
told-Phase (spinning c) w p = p
told-Phase (sleeping c _) w p = p
told-Phase before_run w p = p
told-Phase starting w p = p
told-Phase until_shutdown w p = p
told-Phase until_idle w p = p
told-Phase (awake _) w p = p
told-Phase returning w p = (p.0, refl, p.2, p.3)
told-Phase finished w p = (refl, p.1, p.2)

pub step-Inv : (a : Action) (w : Worker) → Inv w → Allowed a w → Succeeds (step a w)
unfolding step
step-Inv (add_task t) w inv h =
    called-Succeeds (is_unlocked w.pc) _ w refl inv
      (λ u. (_, refl, inl (enqueue_task-Inv t w h u inv)))
step-Inv (notify f) w inv h =
    called-Succeeds (is_unlocked w.pc) _ w refl inv (λ u. notify-Succeeds f w h u inv)
step-Inv (stolen_from locked) w inv h =
    called-Succeeds (is_unlocked w.pc) _ w refl inv (λ u. (_, refl, inl (steal-Inv locked w u inv)))
step-Inv (suspends timeout now) w inv h = suspended-Succeeds w.pc timeout now w inv inv.phase
step-Inv (returns now) w inv h = (_, refl, inl (returned-Inv w.pc w inv inv.phase))
step-Inv (accepts t) w inv h = (_, refl, inl (accepted-Inv w.pc t w refl h inv))
step-Inv (spun now) w inv h = spun_out-Succeeds w.pc now w inv inv.phase
step-Inv (wakes clock now) w inv h = woken-Succeeds w.pc clock now w inv inv.phase
step-Inv (advances now choice) w inv h = advance-Succeeds w.pc now choice w refl inv.core inv.phase
step-Inv told w inv h =
    (_, refl, inl (record { core = inv.core; phase = told-Phase w.pc w inv.phase }))

advance-Ending :
    (pc : Pc) (now choice : ℕ) (w : Worker)
    → w.pc ≡ pc
    → Ending w
    → Succeeds (advance pc now choice w)
unfolding advance run_until_idle run_fibers run_tasks run_until_shutdown return_to_main
advance-Ending until_idle now choice w e h = (
  record w { pc = until_shutdown },
  ground (arith, h.no_fibers, h.no_tasks),
  inr (record {
    last = refl;
    down = h.down;
    num_zero = h.num_zero;
    no_fibers = h.no_fibers;
    no_tasks = h.no_tasks;
    none_blocked = h.none_blocked;
    on_main = h.on_main;
    alive = h.alive;
  }),
)
advance-Ending until_shutdown now choice w e h = (
  record w { pc = returning },
  ground arith,
  inr (record {
    last = refl;
    down = h.down;
    num_zero = h.num_zero;
    no_fibers = h.no_fibers;
    no_tasks = h.no_tasks;
    none_blocked = h.none_blocked;
    on_main = h.on_main;
    alive = h.alive;
  }),
)
advance-Ending returning now choice w e h = (
  record w { pc = finished },
  ground arith,
  inr (record {
    last = refl;
    down = h.down;
    num_zero = h.num_zero;
    no_fibers = h.no_fibers;
    no_tasks = h.no_tasks;
    none_blocked = h.none_blocked;
    on_main = h.on_main;
    alive = h.alive;
  }),
)
advance-Ending finished now choice w e h = (w, refl, inr h)
advance-Ending before_run now choice w e h = absurd (ground (arith, h.last))
advance-Ending starting now choice w e h = absurd (cc (h.last))
advance-Ending (in_code _) now choice w e h = absurd (ground (arith, h.last))
advance-Ending (spinning _) now choice w e h = absurd (ground (arith, h.last))
advance-Ending (sleeping _ _) now choice w e h = absurd (ground (arith, h.last))
advance-Ending (awake _) now choice w e h = absurd (ground (arith, h.last))

-- On the way out the mutex is never free.
pub step-Ending : (a : Action) (w : Worker) → Ending w → Succeeds (step a w)
unfolding step called suspended returned accepted spun_out woken
step-Ending (add_task t) w h = (w, ground (arith, h.last), inr h)
step-Ending (notify f) w h = (w, ground (arith, h.last), inr h)
step-Ending (stolen_from locked) w h = (w, ground (arith, h.last), inr h)
step-Ending (suspends timeout now) w h = (w, ground (arith, h.last), inr h)
step-Ending (returns now) w h = (w, ground (arith, h.last), inr h)
step-Ending (accepts t) w h = (w, ground (arith, h.last), inr h)
step-Ending (spun now) w h = (w, ground (arith, h.last), inr h)
step-Ending (wakes clock now) w h = (w, ground (arith, h.last), inr h)
step-Ending (advances now choice) w h = advance-Ending w.pc now choice w refl h
step-Ending told w h = (
  record w { shutdown = true },
  refl,
  inr (record {
    last = h.last;
    down = refl;
    num_zero = h.num_zero;
    no_fibers = h.no_fibers;
    no_tasks = h.no_tasks;
    none_blocked = h.none_blocked;
    on_main = h.on_main;
    alive = h.alive;
  }),
)
