-- ===== src/Pool/Ended.antt =====
-- A thread that has ended does not go on, whatever the others do.
use mini_marl.Base.{
  ℕ, ◌%◌, ◌<◌, ◌≡◌, refl, sym, ap, ◌∙◌, subst, Bool, true, false, not, ◌&&◌, List, [], ◌∷◌, Option,
  none, some, arith, ◌==◌, pick, ok, ◌>>=◌, Bool-cases, inl, inr, bind-ok,
}
use mini_marl.Task.{Task, is, same_thread}
use mini_marl.Worker.State.{Job, Pc, in_code, spinning, finished, Worker, update}
use mini_marl.Worker.Queues.{enqueue_fiber, enqueue_task, accept_stolen, steal}
use mini_marl.Worker.Step
use mini_marl.Worker.Step.{Action, is_unlocked}
use mini_marl.Worker.Begins.{begun}
use mini_marl.Scheduler.{Scheduler, next_worker, on_begin_spinning}
use mini_marl.Scheduler.Laws.{next_worker-Next}
use mini_marl.Pool.{
  Pool, worker, Event, call, try_worker, call_here, stop, steal_from, accept, act, hand,
  call_enqueue, is_finished, round, try_next, enqueue_here, stop_worker, steal_left, steal_by,
  accept_by, is_spinning, begin_spinning, after_act, act_worker, may_act, is_there, step_in, step,
}
use mini_marl.Pool.Sound.{Sound}
use mini_marl.Pool.Moves.{rob, steal_work-rob}
use mini_marl.Pool.Hands.{update-pc, steal-pc, tell-pc}

ended : (w v : Worker) → w.pc ≡ finished → ok w ≡ ok v → v.pc ≡ finished
ended w v at e = let same : w ≡ v = cc in subst (λ x. x.pc ≡ finished) same at

-- No action takes place on a thread that has ended.
finished-step :
    (a : Action) (w v : Worker) → w.pc ≡ finished → Step.step a w ≡ ok v → v.pc ≡ finished
unfolding Step.step Step.suspended Step.returned Step.woken Step.advance Step.called Step.spun_out
    Step.accepted
finished-step (Action.add_task t) w v at e =
    ended w v at (sym (ap (λ pc. Step.called (is_unlocked pc) (ok (enqueue_task t w).0) w) at) ∙ e)
finished-step (Action.stolen_from locked) w v at e =
    ended w v at (sym (ap (λ pc. Step.called (is_unlocked pc) (ok (steal locked w).0) w) at) ∙ e)
finished-step (Action.accepts t) w v at e =
    ended w v at (sym (ap (λ pc. ok (Step.accepted pc t w)) at) ∙ e)
finished-step (Action.spun now) w v at e =
    ended w v at (sym (ap (λ pc. Step.spun_out pc now w) at) ∙ e)
finished-step Action.told w v at e = ended (record w { shutdown = true }) v at e
finished-step (Action.notify f) w v at e =
    ended w v at
      (sym (ap (λ pc. Step.called (is_unlocked pc) (enqueue_fiber f w >>= λ r. ok r.0) w) at) ∙ e)
finished-step (Action.suspends timeout now) w v at e =
    ended w v at (sym (ap (λ pc. Step.suspended pc timeout now w) at) ∙ e)
finished-step (Action.returns now) w v at e =
    ended w v at (sym (ap (λ pc. ok (Step.returned pc w)) at) ∙ e)
finished-step (Action.wakes clock now) w v at e =
    ended w v at (sym (ap (λ pc. Step.woken pc clock now w) at) ∙ e)
finished-step (Action.advances now choice) w v at e =
    ended w v at (sym (ap (λ pc. Step.advance pc now choice w) at) ∙ e)

-- The pool has as many workers, and each thread that has ended stays so.
pub record Lasts (p p' : Pool) : Type 0 where
  pub count : p'.scheduler.worker_count ≡ p.scheduler.worker_count
  pub stays : (i : ℕ) → (worker i p).pc ≡ finished → (worker i p').pc ≡ finished

same-Lasts : (p : Pool) → Lasts p p
same-Lasts p = record { count = refl; stays = λ i e. e }

hand-Lasts : (i : ℕ) (t : Task Job) (p : Pool) → Lasts p (hand i (enqueue_task t (worker i p)) p)
unfolding enqueue_task
hand-Lasts i t p =
    let ws = p.scheduler.worker_threads in
    let pcs = update-pc ws i (enqueue_task t (ws i)).0 refl in
    record { count = refl; stays = λ j e. pcs j ∙ e }

round-Lasts :
    (locked : Bool) (t : Task Job) (rest : List (Task Job)) (p : Pool)
    → Sound p
    → Lasts p (round locked t rest (next_worker p.scheduler) p)
unfolding round enqueue_task
round-Lasts locked t rest p s =
    let n = next_worker-Next p.scheduler s.valid in
    let id = (next_worker p.scheduler).0 in
    let s1 = (next_worker p.scheduler).1 in
    let ws = s1.worker_threads in
    let pcs = update-pc ws id (enqueue_task t (ws id)).0 refl in
    let old : (j : ℕ) → (ws j).pc ≡ (worker j p).pc = λ j. ap (λ f. (f j).pc) n.same in
    elim (Bool-cases (locked && is_unlocked (ws id).pc)) [
      | inl got ↦ rw got (record { count = n.count; stays = λ j e. pcs j ∙ old j ∙ e })
      | inr stays ↦ elim (Bool-cases (locked && is_finished (ws id).pc)) [
        | inr waits ↦ rw (stays, waits) (record { count = n.count; stays = λ j e. old j ∙ e })
        | inl late ↦ rw (stays, late) (record { count = n.count; stays = λ j e. old j ∙ e })
      ]
    ]

try_next-Lasts :
    (o : Option (Task Job × List (Task Job))) (locked : Bool) (p : Pool)
    → Sound p
    → Lasts p (try_next o locked p)
unfolding try_next
try_next-Lasts none locked p s = same-Lasts p
try_next-Lasts (some (t, rest)) locked p s = round-Lasts locked t rest p s

call_enqueue-Lasts : (b : Bool) (t : Task Job) (p : Pool) → Lasts p (call_enqueue b t p)
unfolding call_enqueue
call_enqueue-Lasts true t p = same-Lasts p
call_enqueue-Lasts false t p = record { count = refl; stays = λ i e. e }

enqueue_here-Lasts :
    (pc : Pc) (b : Bool) (i : ℕ) (t : Task Job) (p : Pool) → Lasts p (enqueue_here pc b i t p)
unfolding enqueue_here
enqueue_here-Lasts (in_code c) true i t p =
    let l = hand-Lasts i t p in record { count = l.count; stays = l.stays }
enqueue_here-Lasts _ _ i t p = same-Lasts p

stop_worker-Lasts : (b : Bool) (i : ℕ) (p : Pool) → Lasts p (stop_worker b i p)
unfolding stop_worker
stop_worker-Lasts true i p = let l = hand-Lasts i _ p in record { count = l.count; stays = l.stays }
stop_worker-Lasts false i p = same-Lasts p

steal_left-Lasts :
    (i victim : ℕ) (ts : List (Task Job)) (p : Pool) → Lasts p (steal_left i victim ts p)
unfolding steal_left
steal_left-Lasts i victim [] p = same-Lasts p
steal_left-Lasts i victim (t ∷ ts) p = elim (Bool-cases (is t same_thread)) [
  | inl stays ↦ rw stays (same-Lasts p)
  | inr goes ↦ rw goes (record { count = refl; stays = λ j e. e })
]

rob-Lasts :
    (i victim : ℕ) (locked : Bool) (p : Pool)
    → let r = rob i victim locked p.scheduler in
      Lasts p (record p { scheduler = r.0; stolen = update p.stolen i r.1 })
rob-Lasts i victim locked p = elim (Bool-cases (victim == i)) [
  | inl own ↦ rw own (record { count = refl; stays = λ j e. e })
  | inr far ↦
      let ws = p.scheduler.worker_threads in
      let r = steal locked (ws victim) in
      let pcs = update-pc ws victim r.0 (steal-pc locked (ws victim)) in
      rw far (record { count = refl; stays = λ j e. pcs j ∙ e })
]

steal_by-Lasts :
    (pc : Pc) (o : Option (Task Job)) (i from : ℕ) (locked : Bool) (p : Pool)
    → 0 < p.scheduler.worker_count
    → Lasts p (steal_by pc o i from locked p)
unfolding steal_by
steal_by-Lasts (spinning c) none i from locked p some_worker =
    let victim = from % p.scheduler.worker_count in
    let pc = (worker victim p).pc in
    let locked' = locked && is_unlocked pc in
    elim (Bool-cases (locked && is_finished pc)) [
      | inl late ↦ rw late (steal_left-Lasts i victim (p.left victim) p)
      | inr usual ↦
          rw (usual, steal_work-rob i from locked' p.scheduler some_worker)
            (rob-Lasts i victim locked' p)
    ]
steal_by-Lasts _ _ i from locked p some_worker = same-Lasts p

accept_by-Lasts :
    (pc : Pc) (o : Option (Task Job)) (i : ℕ) (p : Pool) → Lasts p (accept_by pc o i p)
unfolding accept_by accept_stolen
accept_by-Lasts (spinning c) (some t) i p =
    let ws = p.scheduler.worker_threads in
    let pcs = update-pc ws i (accept_stolen t (ws i)) refl in
    record { count = refl; stays = λ j e. pcs j ∙ e }
accept_by-Lasts _ _ i p = same-Lasts p

pub begin_spinning-count :
    (b : Bool) (i : ℕ) (s : Scheduler) → (begin_spinning b i s).worker_count ≡ s.worker_count
unfolding begin_spinning on_begin_spinning
begin_spinning-count true i s = refl
begin_spinning-count false i s = refl

after_act-Lasts :
    (i : ℕ) (a : Action) (v : Worker) (p : Pool)
    → Step.step a (worker i p) ≡ ok v
    → Lasts p (after_act i a v p)
unfolding after_act
after_act-Lasts i a v p stepped =
    let w = worker i p in
    let ws = update p.scheduler.worker_threads i v in
    let moved : (j : ℕ) → (worker j p).pc ≡ finished → (ws j).pc ≡ finished = λ j e.
      elim (Bool-cases (i == j)) [
        | inr other ↦ rw other e
        | inl same ↦
            let at_j : i ≡ j = ground (arith, same) in
            rw same (finished-step a w v (ap (λ k. (worker k p).pc) at_j ∙ e) stepped)
      ] in
    record {
      count = begin_spinning-count (not (is_spinning w.pc) && is_spinning v.pc) i p.scheduler;
      stays = λ j e. tell-pc (begun a w) i ws j ∙ moved j e;
    }

now : (p q p' : Pool) → ok q ≡ ok p' → Lasts p q → Lasts p p'
now p q p' e h = let same : q ≡ p' = cc in subst (Lasts p) same h

act_worker-Lasts :
    (may : Bool) (i : ℕ) (a : Action) (p p' : Pool) → act_worker may i a p ≡ ok p' → Lasts p p'
unfolding act_worker
act_worker-Lasts false i a p p' e = now p p p' e (same-Lasts p)
act_worker-Lasts true i a p p' e =
    let (v, stepped, done) =
      bind-ok (Step.step a (worker i p)) (λ v. ok (after_act i a v p)) p' e in
    now p (after_act i a v p) p' done (after_act-Lasts i a v p stepped)

step_in-Lasts : (e : Event) (p p' : Pool) → Sound p → step_in e p ≡ ok p' → Lasts p p'
unfolding step_in
step_in-Lasts (call t) p p' s e = now p _ p' e (call_enqueue-Lasts (is t same_thread) t p)
step_in-Lasts (try_worker k locked) p p' s e =
    now p _ p' e (try_next-Lasts (pick k p.pending) locked p s)
step_in-Lasts (call_here i t) p p' s e =
    now p _ p' e (enqueue_here-Lasts (worker i p).pc (is t same_thread) i t p)
step_in-Lasts (stop i) p p' s e = now p _ p' e (stop_worker-Lasts (is_unlocked (worker i p).pc) i p)
step_in-Lasts (steal_from i from locked) p p' s e =
    now p _ p' e (steal_by-Lasts (worker i p).pc (p.stolen i) i from locked p s.valid.some_worker)
step_in-Lasts (accept i) p p' s e = now p _ p' e (accept_by-Lasts (worker i p).pc (p.stolen i) i p)
step_in-Lasts (act i a) p p' s e = act_worker-Lasts (may_act a (p.stolen i)) i a p p' e

pub step-Lasts : (e : Event) (p p' : Pool) → Sound p → step e p ≡ ok p' → Lasts p p'
unfolding step
step-Lasts e p p' s h = elim (Bool-cases (is_there e p.scheduler.worker_count)) [
  | inl there ↦ step_in-Lasts e p p' s (rw there at h)
  | inr not_there ↦ let l = rw not_there at h in now p p p' l (same-Lasts p)
]
