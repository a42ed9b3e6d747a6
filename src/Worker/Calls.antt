-- ===== src/Worker/Calls.antt =====
-- What the calls of other threads do to a worker that satisfies its invariant.
use mini_marl.Base.{
  ℕ, ◌+◌, ◌≡◌, refl, Bool, true, false, List, [], ◌∷◌, ◌++◌, arith, ◌==◌, length-append, Run, ok,
  ◌>>=◌, inl, inr, Bool-cases,
}
use mini_marl.Task.{Task, is_valid, is, same_thread}
use mini_marl.Worker.State.{
  State, state_eq, Job, Caller, Pc, Worker, in_code, spinning, sleeping, before_run, starting,
  until_shutdown, until_idle, awake, returning, finished,
}
use mini_marl.Worker.Queues.{enqueue_fiber, enqueue_task, steal, steal_first}
use mini_marl.Worker.Queueing.{enqueue_fiber-Keeps}
use mini_marl.Worker.Inv.{AllValid, Core, Called, Phase, Inv, Good, state_of}
use mini_marl.Worker.Rotation.{Leads}
use mini_marl.Worker.Waits.{Called-OnlyQueued}
use mini_marl.Worker.Step.{Action, add_task, notify, accepts, is_unlocked}

-- What the program owes: a task has a function, and `notify` is not called on an idle fiber, which
-- runs no code that could wait.
abbrev pub Allowed : Action → Worker → Type 0
Allowed (add_task t) w = is_valid t ≡ true
Allowed (accepts t) w = is_valid t ≡ true
Allowed (notify f) w = state_eq (w.state f) State.idle ≡ false
Allowed _ w = Unit {0}

-- The step succeeds, and its state is a good one.
abbrev pub Succeeds : Run Worker → Type 0
Succeeds r = (v : Worker) × (r ≡ ok v) × Good v

pub leads : {r : Run Worker} → Leads r → Succeeds r
leads (v, e, inv) = (v, e, inl inv)

AllValid-append :
    (ts : List (Task Job)) (t : Task Job)
    → AllValid ts
    → is_valid t ≡ true
    → AllValid (ts ++ t ∷ [])
AllValid-append [] t v h = (h, tt)
AllValid-append (x ∷ ts) t v h = (v.0, AllValid-append ts t v.1 h)

pub more_tasks-Core :
    (t : Task Job) (w : Worker)
    → is_valid t ≡ true
    → Core w
    → Core (record w { tasks = w.tasks ++ t ∷ []; num = w.num + 1 })
more_tasks-Core t w h c = record {
  num_sync = omega (arith, c.num_sync, length-append w.tasks (t ∷ []));
  valid = AllValid-append w.tasks t c.valid h;
  synced = c.synced;
  blocked_count = c.blocked_count;
  each = c.each;
}

-- At a point where the mutex is free, the phase reads the state of the current fiber alone.
pub Phase-moves :
    (pc : Pc) (w v : Worker)
    → is_unlocked pc ≡ true
    → v.notify_added ≡ w.notify_added
    → ((c : Caller) → Called c (state_of w) → Called c (state_of v))
    → Phase pc w
    → Phase pc v
Phase-moves (in_code _) w v u e move p = move Caller.from_loop p
Phase-moves (spinning c) w v u e move p = move c p
Phase-moves (sleeping c _) w v u e move p = (move c p.0, cc (e, p.1))
Phase-moves before_run w v u e move p = move Caller.from_loop p
Phase-moves starting w v u e move p = absurd (cc)
Phase-moves until_shutdown w v u e move p = absurd (cc)
Phase-moves until_idle w v u e move p = absurd (cc)
Phase-moves (awake _) w v u e move p = absurd (cc)
Phase-moves returning w v u e move p = absurd (cc)
Phase-moves finished w v u e move p = absurd (cc)

pub enqueue_task-Inv :
    (t : Task Job) (w : Worker)
    → is_valid t ≡ true
    → is_unlocked w.pc ≡ true
    → Inv w
    → Inv (enqueue_task t w).0
unfolding enqueue_task
enqueue_task-Inv t w h u inv = record {
  core = more_tasks-Core t w h inv.core;
  phase = Phase-moves w.pc w _ u refl (λ c p. p) inv.phase;
}

pub notify-Succeeds :
    (f : ℕ) (w : Worker)
    → state_eq (w.state f) State.idle ≡ false
    → is_unlocked w.pc ≡ true
    → Inv w
    → Succeeds (enqueue_fiber f w >>= λ r. ok r.0)
notify-Succeeds f w h u inv =
    let (q, e, core, o) = enqueue_fiber-Keeps f w inv.core h in
    rw e (
      q.0,
      refl,
      inl (record {
        core = core;
        phase =
            rw o.same_pc
              (Phase-moves w.pc w q.0 u o.same_notify (λ c. Called-OnlyQueued c w q.0 o) inv.phase);
      }),
    )

steal_first-Inv :
    (ts : List (Task Job)) (w : Worker)
    → w.tasks ≡ ts
    → is_unlocked w.pc ≡ true
    → Inv w
    → Inv (steal_first ts w).0
unfolding steal_first
steal_first-Inv [] w e u inv = inv
steal_first-Inv (t ∷ ts) w e u inv = elim (Bool-cases (is t same_thread)) [
  | inl stays ↦ rw stays inv
  | inr goes ↦ rw goes (record {
    core = record {
      num_sync = ground (arith, inv.core.num_sync);
      valid = ground (arith, inv.core.valid);
      synced = inv.core.synced;
      blocked_count = inv.core.blocked_count;
      each = inv.core.each;
    };
    phase = Phase-moves w.pc w _ u refl (λ c p. p) inv.phase;
  })
]

pub steal-Inv :
    (locked : Bool) (w : Worker) → is_unlocked w.pc ≡ true → Inv w → Inv (steal locked w).0
unfolding steal
steal-Inv locked w u inv = elim (Bool-cases (w.num == 0)) [
  | inl empty ↦ rw empty inv
  | inr some_work ↦ elim (Bool-cases locked) [
    | inl got ↦ rw (some_work, got) (steal_first-Inv w.tasks w refl u inv)
    | inr missed ↦ rw (some_work, missed) inv
  ]
]
