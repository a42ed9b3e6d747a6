-- ===== src/Scheduler/Laws.antt =====
-- Where `Scheduler` puts a task, and from where it takes one.
use mini_marl.Base.{
  ℕ, ◌+◌, ◌-◌, ◌%◌, ◌<◌, ◌≡◌, ◌≢◌, refl, sym, ◌∙◌, subst, Bool, true, false, not, List, [], ◌∷◌,
  ◌++◌, Option, none, some, ltb, arith, ◌==◌, if◌then◌else◌, ok, ap, Bool-cases, inl, inr,
}
use native.Mathlib.Nat.{mod-lt}
use mini_marl.Task.{Task, same_thread, is}
use mini_marl.Worker.State.{Job, Worker, update}
use mini_marl.Worker.Queues.{enqueue_task, steal}
use mini_marl.Worker.Reach.{steal-some}
use mini_marl.Scheduler.{
  Scheduler, unsigned_mod, num_spinning, Caller, choose, next_worker, enqueue_any, enqueue,
  steal_work, on_begin_spinning,
}

-- Only workers of the pool spin.
pub record Valid (s : Scheduler) : Type 0 where
  pub spins : (i id : ℕ) → s.spinning_workers i ≡ some id → id < s.worker_count
  pub some_worker : 0 < s.worker_count

-- The worker `w'` is `w` with one more task, behind the others; `b` says whether it asked to be notified.
pub record Gets (t : Task Job) (b : Bool) (w w' : Worker) : Type 0 where
  pub behind : w'.tasks ≡ w.tasks ++ t ∷ []
  pub counted : w'.num ≡ w.num + 1
  pub same_fibers : w'.fibers ≡ w.fibers
  pub same_pc : w'.pc ≡ w.pc
  pub asked : b ≡ w.notify_added

-- The scheduler `s'` is `s` with the task behind those of one worker, which is notified or not.
pub record Adds (t : Task Job) (b : Bool) (s s' : Scheduler) : Type 0 where
  pub worker : ℕ
  pub There : worker < s.worker_count
  pub Added : Gets t b (s.worker_threads worker) (s'.worker_threads worker)
  pub Others : (i : ℕ) → i ≢ worker → s'.worker_threads i ≡ s.worker_threads i
  pub Still : Valid s'

pub record Next (s : Scheduler) (id : ℕ) (s1 : Scheduler) : Type 0 where
  pub there : id < s.worker_count
  pub same : s1.worker_threads ≡ s.worker_threads
  pub count : s1.worker_count ≡ s.worker_count
  pub valid : Valid s1

choose-Next :
    (o : Option ℕ) (s : Scheduler)
    → Valid s
    → ((id : ℕ) → o ≡ some id → id < s.worker_count)
    → Next s (choose o s).0 (choose o s).1
unfolding choose
choose-Next none s v h = record {
  there = mod-lt s.next_enqueue_index v.some_worker;
  same = refl;
  count = refl;
  valid = record { spins = v.spins; some_worker = v.some_worker };
}
choose-Next (some id) s v h = record { there = h id refl; same = refl; count = refl; valid = v }

pub update-here {ℓ} : {A : Type ℓ} (f : ℕ → A) (i : ℕ) (a : A) → update f i a i ≡ a
update-here f i a = let e : (i == i) ≡ true = ground arith in rw e refl

pub update-elsewhere {ℓ} : {A : Type ℓ} (f : ℕ → A) (i j : ℕ) (a : A) → j ≢ i → update f i a j ≡ f j
update-elsewhere f i j a h = let e : (i == j) ≡ false = ground (arith, h) in rw e refl

pub update-spins :
    (spins : ℕ → Option ℕ) (slot n : ℕ) (o : Option ℕ)
    → ((i id : ℕ) → spins i ≡ some id → id < n)
    → ((id : ℕ) → o ≡ some id → id < n)
    → (i id : ℕ) → update spins slot o i ≡ some id
    → id < n
update-spins spins slot n o h k i id e = elim (Bool-cases (slot == i)) [
  | inl same ↦ k id (rw same at e)
  | inr other ↦ h i id (rw other at e)
]

-- The state in which a round of the loop picks a worker.
taken : Scheduler → Scheduler
taken s =
    let index = (s.next_spinning_worker_index + (unsigned_mod - 1)) % unsigned_mod in
    record s {
      next_spinning_worker_index = index;
      spinning_workers = update s.spinning_workers (index % num_spinning) none;
    }

pub next_worker-Next : (s : Scheduler) → Valid s → Next s (next_worker s).0 (next_worker s).1
unfolding next_worker taken
next_worker-Next s v =
    let index = (s.next_spinning_worker_index + (unsigned_mod - 1)) % unsigned_mod in
    let cleared : Valid (taken s) = record {
      spins =
          update-spins s.spinning_workers (index % num_spinning) s.worker_count none v.spins
            (λ id e. absurd (cc));
      some_worker = v.some_worker;
    } in
    let n =
      choose-Next (s.spinning_workers (index % num_spinning)) (taken s) cleared
        (v.spins (index % num_spinning)) in
    record { there = n.there; same = n.same; count = n.count; valid = n.valid }

abbrev pub some_succeeds : List Bool → Bool
some_succeeds [] = false
some_succeeds (b ∷ bs) = if b then true else some_succeeds bs

enqueue_task-Gets : (t : Task Job) (w : Worker) → Gets t (enqueue_task t w).1 w (enqueue_task t w).0
unfolding enqueue_task
enqueue_task-Gets t w = record {
  behind = refl;
  counted = refl;
  same_fibers = refl;
  same_pc = refl;
  asked = refl;
}

-- When some `tryLock` succeeds, and only workers of the pool spin, the loop of `enqueue` ends: one worker
-- of the pool has the task behind its others, and its counter is one higher; it is notified if it asked
-- for that; the other workers are unchanged.
pub enqueue_any-Adds :
    (locks : List Bool) (t : Task Job) (s : Scheduler)
    → Valid s
    → some_succeeds locks ≡ true
    → (s' : Scheduler) × (n : Bool) × (enqueue_any locks t s ≡ ok (s', n)) × Adds t n s s'
unfolding enqueue_any
enqueue_any-Adds [] t s v e = absurd (cc)
enqueue_any-Adds (true ∷ locks) t s v e =
    let n = next_worker-Next s v in
    let id = (next_worker s).0 in
    let s1 = (next_worker s).1 in
    let r = enqueue_task t (s1.worker_threads id) in
    (
      record s1 { worker_threads = update s1.worker_threads id r.0 },
      r.1,
      refl,
      record {
        worker = id;
        There = n.there;
        Added =
            subst (λ (ws : ℕ → Worker). Gets t r.1 (ws id) (update s1.worker_threads id r.0 id))
              n.same
              (subst (Gets t r.1 (s1.worker_threads id))
                (sym (update-here s1.worker_threads id r.0))
                (enqueue_task-Gets t (s1.worker_threads id)));
        Others = λ i h. update-elsewhere s1.worker_threads id i r.0 h ∙ ap (λ w. w i) n.same;
        Still = record { spins = n.valid.spins; some_worker = n.valid.some_worker };
      },
    )
enqueue_any-Adds (false ∷ locks) t s v e =
    let n = next_worker-Next s v in
    let s1 = (next_worker s).1 in
    let (s', b, done, a) = enqueue_any-Adds locks t s1 n.valid e in
    (
      s',
      b,
      done,
      record {
        worker = a.worker;
        There = subst (λ m. a.worker < m) n.count a.There;
        Added =
            subst (λ (ws : ℕ → Worker). Gets t b (ws a.worker) (s'.worker_threads a.worker)) n.same
              a.Added;
        Others = λ i h. a.Others i h ∙ ap (λ w. w i) n.same;
        Still = a.Still;
      },
    )

-- A worker of the pool that begins to spin gets the next task that is not bound to its thread, when
-- its lock is free.
pub on_begin_spinning-enqueue :
    (id : ℕ) (c : Caller) (t : Task Job) (locks : List Bool) (s : Scheduler)
    → s.next_spinning_worker_index < unsigned_mod
    → 0 < s.worker_count
    → is t same_thread ≡ false
    → (s' : Scheduler) × (enqueue (true ∷ locks) c t (on_begin_spinning id s)
        ≡ ok (s', (enqueue_task t (s.worker_threads id)).1))
      × (s'.worker_threads ≡ update s.worker_threads id (enqueue_task t (s.worker_threads id)).0)
      × (s'.next_spinning_worker_index ≡ s.next_spinning_worker_index)
unfolding enqueue enqueue_any next_worker choose on_begin_spinning
on_begin_spinning-enqueue id c t locks s h pos free =
    let next = s.next_spinning_worker_index in
    let back : ((next + 1) % unsigned_mod + (unsigned_mod - 1)) % unsigned_mod ≡ next =
      omega arith in
    let some_pool : ltb 0 s.worker_count ≡ true = ground arith in
    let found = update-here s.spinning_workers (next % num_spinning) (some id) in
    (
      record s {
        spinning_workers =
            update (update s.spinning_workers (next % num_spinning) (some id)) (next % num_spinning)
              none;
        worker_threads = update s.worker_threads id (enqueue_task t (s.worker_threads id)).0;
      },
      rw (free, some_pool, back, found) refl,
      refl,
      refl,
    )

-- `stealWork` never takes a task from its own worker; what it takes was not bound to its thread, and was the first task of another
-- worker of the pool, which loses just that.
pub steal_work-some :
    (thief from : ℕ) (locked : Bool) (s s' : Scheduler) (t : Task Job)
    → steal_work thief from locked s ≡ (s', some t)
    → (victim : ℕ) × (victim ≢ thief)
      × (victim < s.worker_count)
      × (is t same_thread ≡ false)
      × ((s.worker_threads victim).tasks ≡ t ∷ (s'.worker_threads victim).tasks)
      × ((i : ℕ) → i ≢ victim → s'.worker_threads i ≡ s.worker_threads i)
unfolding steal_work
steal_work-some thief from locked s s' t e =
    let victim = from % s.worker_count in
    elim (Bool-cases (not (ltb 0 s.worker_count))) [
      | inl empty ↦ absurd (let k = rw empty at e in cc)
      | inr pool_ ↦ elim (Bool-cases (victim == thief)) [
        | inl own ↦ absurd (let k = rw (pool_, own) at e in cc)
        | inr other ↦
            let k = rw (pool_, other) at e in
            let r = steal locked (s.worker_threads victim) in
            let second : r.1 ≡ some t = ap (λ p. p.1) k in
            let left : r.0 ≡ s'.worker_threads victim =
              sym (update-here s.worker_threads victim r.0)
              ∙ ap (λ p. p.0.worker_threads victim) k in
            let (a, b, c, d) =
              steal-some locked (s.worker_threads victim) r.0 t (ap (λ o. (r.0, o)) second) in
            let apart : victim ≢ thief = ground (arith, other) in
            let there : victim < s.worker_count = mod-lt from (ground (arith, pool_)) in
            (
              victim,
              apart,
              there,
              b,
              c ∙ ap (λ w. t ∷ w.tasks) left,
              λ i h.
                  sym (ap (λ p. p.0.worker_threads i) k)
                  ∙ update-elsewhere s.worker_threads victim i r.0 h,
            )
      ]
    ]
