-- ===== src/Pool/Sound.antt =====
-- What it means that a pool is sound, and what keeps its workers so.
use mini_marl.Base.{
  ℕ, zero, suc, ◌%◌, ◌<◌, ◌≡◌, refl, sym, subst, Bool, true, false, List, [], ◌∷◌, Option, none,
  some, arith, ◌==◌, pick, Run, ok, Bool-cases, Option-cases, inl, inr,
}
use mini_marl.Task.{Task, is_valid}
use mini_marl.Worker.State.{Job, shut_down, user, Worker, update}
use mini_marl.Worker.Queues.{enqueue_task}
use mini_marl.Worker.Step
use mini_marl.Worker.Step.{Action, is_unlocked, told, accepts, accepted}
use mini_marl.Worker.Inv.{AllValid, Inv, Good}
use mini_marl.Worker.Calls
use mini_marl.Worker.Calls.{enqueue_task-Inv, steal-Inv}
use mini_marl.Worker.Safety.{step-Good}
use mini_marl.Scheduler.{Scheduler, num_spinning}
use mini_marl.Scheduler.Laws.{Valid, update-spins}
use mini_marl.Pool.{Pool, worker, Event, call, call_here, act, begin_spinning, tell}

-- Every worker is in a good state, and the tasks on their way have a function.
pub record Sound (p : Pool) : Type 0 where
  pub valid : Valid p.scheduler
  pub good : (i : ℕ) → Good (worker i p)
  pub pending_valid : AllValid p.pending
  pub left_valid : (i : ℕ) → AllValid (p.left i)
  pub stolen_valid : (i : ℕ) (t : Task Job) → p.stolen i ≡ some t → is_valid t ≡ true

-- What the program owes: tasks have a function, and no idle fiber is notified.
abbrev pub Allowed : Event → Pool → Type 0
Allowed (call t) p = is_valid t ≡ true
Allowed (call_here i t) p = is_valid t ≡ true
Allowed (act i a) p = Calls.Allowed a (worker i p)
Allowed _ p = Unit {0}

abbrev pub Ends : Run Pool → Type 0
Ends r = (q : Pool) × (r ≡ ok q) × Sound q

pub unlocked-Inv : (w : Worker) → Good w → is_unlocked w.pc ≡ true → Inv w
unlocked-Inv w (inl inv) u = inv
unlocked-Inv w (inr ending) u = absurd (ground (arith, ending.last))

-- A family of workers stays good where one of them is replaced by a good one.
pub update-Good :
    (ws : ℕ → Worker) (i : ℕ) (w : Worker)
    → ((j : ℕ) → Good (ws j))
    → Good w
    → (j : ℕ) → Good (update ws i w j)
update-Good ws i w h g j = elim (Bool-cases (i == j)) [
  | inl same ↦ rw same g
  | inr other ↦ rw other (h j)
]

pub enqueue_task-Good :
    (t : Task Job) (w : Worker)
    → is_valid t ≡ true
    → is_unlocked w.pc ≡ true
    → Good w
    → Good (enqueue_task t w).0
enqueue_task-Good t w h u g = inl (enqueue_task-Inv t w h u (unlocked-Inv w g u))

told-Good : (w : Worker) → Good w → Good (record w { shutdown = true })
told-Good w g =
    let (v, e, good) = step-Good told w g tt in
    let e' : ok (record w { shutdown = true }) ≡ ok v = unfold Step.step in e in
    let same : record w { shutdown = true } ≡ v = cc in subst Good (sym same) good

pub tell-Good :
    (o : Option (Task Job)) (i : ℕ) (ws : ℕ → Worker)
    → ((j : ℕ) → Good (ws j))
    → (j : ℕ) → Good (tell o i ws j)
unfolding tell
tell-Good none i ws h = h
tell-Good (some t) i ws h = by_function t.function_ refl
  where
    by_function : (f : Option Job) → t.function_ ≡ f → (j : ℕ) → Good (tell (some t) i ws j)
    by_function none e j = rw e (h j)
    by_function (some (user n)) e j = rw e (h j)
    by_function (some (shut_down k)) e j = rw e (elim (Bool-cases (k == i)) [
      | inl own ↦ rw own (h j)
      | inr other ↦ rw other (update-Good ws k _ h (told-Good (ws k) (h k)) j)
    ])

pub spinning-Valid :
    (b : Bool) (i : ℕ) (s : Scheduler) → i < s.worker_count → Valid s → Valid (begin_spinning b i s)
unfolding begin_spinning
spinning-Valid false i s h v = v
spinning-Valid true i s h v = record {
  spins =
      update-spins s.spinning_workers (s.next_spinning_worker_index % num_spinning) s.worker_count
        (some i) v.spins (λ id e. subst (λ k. k < s.worker_count) (cc) h);
  some_worker = v.some_worker;
}

pub pick-AllValid :
    (k : ℕ) (ts rest : List (Task Job)) (t : Task Job)
    → pick k ts ≡ some (t, rest)
    → AllValid ts
    → (is_valid t ≡ true) × AllValid rest
unfolding pick
pick-AllValid k [] rest t e h = absurd (cc)
pick-AllValid zero (x ∷ ts) rest t e h =
    let same : (x, ts) ≡ (t, rest) = cc in
    subst (λ (o : Task Job × List (Task Job)). (is_valid o.0 ≡ true) × AllValid o.1) same h
pick-AllValid (suc k) (x ∷ ts) rest t e h = elim (Option-cases (pick k ts)) [
  | inl nothing ↦ absurd (let l = rw nothing at e in cc)
  | inr ((y, others), found) ↦
      let ih = pick-AllValid k ts others y found h.1 in
      let l = rw found at e in
      let same : (y, x ∷ others) ≡ (t, rest) = cc in
      subst (λ (o : Task Job × List (Task Job)). (is_valid o.0 ≡ true) × AllValid o.1) same
        (ih.0, (h.0, ih.1))
]
