-- ===== src/Worker/Queueing.antt =====
-- `enqueue(Fiber *)` and `enqueueFiberTimeouts` keep the invariant of the worker.
use mini_marl.Base.{
  ℕ, zero, suc, ◌+◌, ◌<◌, ◌≡◌, refl, Bool, true, false, not, ◌&&◌, ◌||◌, [], ◌∷◌, ◌++◌, Option,
  none, some, arith, ◌==◌, length, length-append, count-append, Run, ok,
}
use mini_marl.Waiting
use mini_marl.Waiting.{WaitingFibers}
use mini_marl.Waiting.Sync.{IsSynced}
use mini_marl.Waiting.Laws.{contains-deadline, erase_lem, take_lem, Takes, take-length}
use mini_marl.Worker.State.{State, state_eq, Worker, update, set_fiber_state, change_fiber_state}
use mini_marl.Worker.Queues.{
  push_fiber, enqueue_in, enqueue_fiber, queue_taken, enqueue_timeouts, enqueue_fiber_timeouts,
}
use mini_marl.Worker.Inv.{is_asleep, is_running, Core}

-- Only the queue of fibers, the waiting fibers and the states of sleeping fibers differ.
pub record OnlyQueued (w w' : Worker) : Type 0 where
  pub same_mode : w'.mode ≡ w.mode
  pub same_blocked : w'.num_blocked_fibers ≡ w.num_blocked_fibers
  pub same_tasks : w'.tasks ≡ w.tasks
  pub same_notify : w'.notify_added ≡ w.notify_added
  pub same_current : w'.current_fiber ≡ w.current_fiber
  pub same_born : w'.worker_fibers ≡ w.worker_fibers
  pub same_shutdown : w'.shutdown ≡ w.shutdown
  pub same_pc : w'.pc ≡ w.pc
  pub asleep : (g : ℕ) → is_asleep (w'.state g) ≡ is_asleep (w.state g)
  pub alive : (g : ℕ) → is_running (w'.state g) ≡ is_running (w.state g)

pub OnlyQueued-refl : (w : Worker) → OnlyQueued w w
OnlyQueued-refl w = record {
  same_mode = refl;
  same_blocked = refl;
  same_tasks = refl;
  same_notify = refl;
  same_current = refl;
  same_born = refl;
  same_shutdown = refl;
  same_pc = refl;
  asleep = λ g. refl;
  alive = λ g. refl;
}

pub OnlyQueued-trans : {u v w : Worker} → OnlyQueued u v → OnlyQueued v w → OnlyQueued u w
OnlyQueued-trans p q = record {
  same_mode = cc (p.same_mode, q.same_mode);
  same_blocked = cc (p.same_blocked, q.same_blocked);
  same_tasks = cc (p.same_tasks, q.same_tasks);
  same_notify = cc (p.same_notify, q.same_notify);
  same_current = cc (p.same_current, q.same_current);
  same_born = cc (p.same_born, q.same_born);
  same_shutdown = cc (p.same_shutdown, q.same_shutdown);
  same_pc = cc (p.same_pc, q.same_pc);
  asleep = λ g. cc (p.asleep g, q.asleep g);
  alive = λ g. cc (p.alive g, q.alive g);
}

-- A sleeping fiber that is not queued goes to the end of the queue, and no longer waits.
abbrev pub queue_up : ℕ → WaitingFibers → Worker → Worker
queue_up f waiting' w = record w {
  fibers = w.fibers ++ f ∷ [];
  num = w.num + 1;
  waiting = waiting';
  state = update w.state f State.queued;
}

module _ (w : Worker) (f : ℕ) (waiting' : WaitingFibers) (sleeps : is_asleep (w.state f) ≡ true)
    (new : state_eq (w.state f) State.queued ≡ false) where
  pub queue_up-OnlyQueued : OnlyQueued w (queue_up f waiting' w)
  queue_up-OnlyQueued = record {
    same_mode = refl;
    same_blocked = refl;
    same_tasks = refl;
    same_notify = refl;
    same_current = refl;
    same_born = refl;
    same_shutdown = refl;
    same_pc = refl;
    asleep = λ g. ground arith;
    alive = λ g. ground arith;
  }

  pub queue_up-Core :
      Core w
      → IsSynced waiting'
      → ((g : ℕ) → Waiting.contains g waiting' ≡ (not (f == g) && Waiting.contains g w.waiting))
      → Core (queue_up f waiting' w)
  queue_up-Core c s rest = record {
    num_sync = omega (arith, c.num_sync, length-append w.fibers (f ∷ []));
    valid = c.valid;
    synced = s;
    blocked_count = c.blocked_count;
    each = λ g. ground (arith, c.each g, c.each f, rest g, count-append g w.fibers (f ∷ []));
  }

-- The call succeeds, and the worker that it leaves satisfies the invariant.
abbrev pub Keeps : Worker → Run (Worker × Bool) → Type 0
Keeps w r = (q : Worker × Bool) × (r ≡ ok q) × Core q.0 × OnlyQueued w q.0

enqueue_in-Keeps :
    (s : State) (f : ℕ) (w : Worker)
    → w.state f ≡ s
    → Core w
    → state_eq s State.idle ≡ false
    → Keeps w (enqueue_in s f w)
unfolding enqueue_in push_fiber set_fiber_state
enqueue_in-Keeps State.idle f w e c h = absurd (cc)
enqueue_in-Keeps State.running f w e c h = ((w, false), refl, c, OnlyQueued-refl w)
enqueue_in-Keeps State.queued f w e c h = ((w, false), refl, c, OnlyQueued-refl w)
enqueue_in-Keeps State.yielded f w e c h =
    let free : Waiting.contains f w.waiting ≡ false = ground (arith, c.each f) in
    (
      (queue_up f w.waiting w, w.notify_added),
      rw free,
      queue_up-Core w f w.waiting (rw e) (rw e) c c.synced (λ g. ground arith),
      queue_up-OnlyQueued w f w.waiting (rw e) (rw e),
    )
enqueue_in-Keeps State.waiting f w e c h =
    let (rest, done, synced, left) = erase_lem f w.waiting c.synced in
    let gone : (g : ℕ) → Waiting.contains g rest ≡ (not (f == g) && Waiting.contains g w.waiting) =
      λ g. ground (arith, contains-deadline g rest, contains-deadline g w.waiting, left g) in
    let free : Waiting.contains f rest ≡ false = ground (arith, gone f) in
    (
      (queue_up f rest w, w.notify_added),
      rw (done, free),
      queue_up-Core w f rest (rw e) (rw e) c synced gone,
      queue_up-OnlyQueued w f rest (rw e) (rw e),
    )

-- `enqueue(Fiber *)` on a fiber that is not idle passes its assertion and keeps the invariant.
pub enqueue_fiber-Keeps :
    (f : ℕ) (w : Worker)
    → Core w
    → state_eq (w.state f) State.idle ≡ false
    → Keeps w (enqueue_fiber f w)
unfolding enqueue_fiber
enqueue_fiber-Keeps f w c h = enqueue_in-Keeps (w.state f) f w refl c h

enqueue_in_asleep :
    (s : State) (f : ℕ) (w : Worker)
    → w.state f ≡ s
    → Core w
    → (state_eq s State.yielded || state_eq s State.waiting) ≡ true
    → (v : Worker) × (enqueue_in s f w ≡ ok (v, w.notify_added))
unfolding enqueue_in push_fiber set_fiber_state
enqueue_in_asleep State.idle f w e c h = absurd (cc)
enqueue_in_asleep State.running f w e c h = absurd (cc)
enqueue_in_asleep State.queued f w e c h = absurd (cc)
enqueue_in_asleep State.yielded f w e c h =
    let free : Waiting.contains f w.waiting ≡ false = ground (arith, c.each f) in
    (queue_up f w.waiting w, rw free)
enqueue_in_asleep State.waiting f w e c h =
    let (rest, done, synced, left) = erase_lem f w.waiting c.synced in
    let free : Waiting.contains f rest ≡ false = ground (arith, contains-deadline f rest, left f) in
    (queue_up f rest w, rw (done, free))

-- A fiber that sleeps and is not queued yet is queued, and the caller notifies if a thread may sleep.
pub enqueue_fiber_asleep :
    (f : ℕ) (w : Worker)
    → Core w
    → (state_eq (w.state f) State.yielded || state_eq (w.state f) State.waiting) ≡ true
    → (v : Worker) × (enqueue_fiber f w ≡ ok (v, w.notify_added))
unfolding enqueue_fiber
enqueue_fiber_asleep f w c h = enqueue_in_asleep (w.state f) f w refl c h

-- `Keeps` for a call that returns the worker alone.
abbrev pub KeepsAll : Worker → Run Worker → Type 0
KeepsAll w r = (v : Worker) × (r ≡ ok v) × Core v × OnlyQueued w v

-- A round of the loop keeps the invariant if the rest of the loop does.
queue_taken-Keeps :
    (loop : Worker → Run Worker) (now : ℕ) (r : Option ℕ) (waiting' : WaitingFibers) (w : Worker)
    → Core w
    → Waiting.take now w.waiting ≡ ok (r, waiting')
    → IsSynced waiting'
    → Takes now w.waiting r waiting'
    → ((v : Worker)
        → Core v
        → suc (length v.waiting.timeouts) ≡ length w.waiting.timeouts
        → KeepsAll v (loop v))
    → KeepsAll w (queue_taken loop r waiting' w)
unfolding queue_taken change_fiber_state set_fiber_state
queue_taken-Keeps loop now none waiting' w c taken synced outcome rest =
    (w, ground (arith, outcome.0), c, OnlyQueued-refl w)
queue_taken-Keeps loop now (some f) waiting' w c taken synced outcome rest =
    let waits : w.state f ≡ State.waiting =
      ground (arith, c.each f, contains-deadline f w.waiting, outcome.1) in
    let gone : (g : ℕ)
        → Waiting.contains g waiting' ≡ (not (f == g) && Waiting.contains g w.waiting) =
      λ g.
        ground (arith, contains-deadline g waiting', contains-deadline g w.waiting, outcome.4 g) in
    let next = queue_up-Core w f waiting' (rw waits) (rw waits) c synced gone in
    let (v, e, core, same) =
      rest (queue_up f waiting' w) next (take-length now f w.waiting waiting' taken) in
    (
      v,
      rw waits e,
      core,
      OnlyQueued-trans (queue_up-OnlyQueued w f waiting' (rw waits) (rw waits)) same,
    )

enqueue_timeouts-Keeps :
    (fuel now : ℕ) (w : Worker)
    → Core w
    → length w.waiting.timeouts < fuel
    → KeepsAll w (enqueue_timeouts fuel now w)
unfolding enqueue_timeouts
enqueue_timeouts-Keeps zero now w c h = elim h [ ]
enqueue_timeouts-Keeps (suc fuel) now w c h =
    let (r, waiting', taken, synced, outcome) = take_lem now w.waiting c.synced in
    rw taken (
      queue_taken-Keeps (enqueue_timeouts fuel now) now r waiting' w c taken synced outcome
        (λ v core shorter. enqueue_timeouts-Keeps fuel now v core (omega arith)))

-- `enqueueFiberTimeouts` ends within its fuel, passes its assertions and keeps the invariant.
pub enqueue_fiber_timeouts-Keeps :
    (now : ℕ) (w : Worker) → Core w → KeepsAll w (enqueue_fiber_timeouts now w)
unfolding enqueue_fiber_timeouts
enqueue_fiber_timeouts-Keeps now w c =
    enqueue_timeouts-Keeps (suc (length w.waiting.timeouts)) now w c (omega arith)
