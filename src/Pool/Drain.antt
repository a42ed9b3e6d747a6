-- ===== src/Pool/Drain.antt =====
-- What a pool whose workers have finished has run.
use mini_marl.Base.{
  ◌+◌, ℕ, ◌<◌, ◌≡◌, refl, ap, subst, Bool, true, false, List, [], ◌∷◌, none, arith, ok, Bool-cases,
  Option-cases, inl, inr, bind-ok, pick,
}
use mini_marl.Task.{Task, is, same_thread}
use mini_marl.Worker.State.{Job, finished}
use mini_marl.Worker.Step
use mini_marl.Worker.Step.{Action, is_unlocked}
use mini_marl.Worker.Reach.{Good-finished}
use mini_marl.Pool.{
  Pool, worker, start_pool, Event, call, try_worker, call_here, stop, steal_from, accept, act,
  call_enqueue, try_next, enqueue_here, stop_worker, steal_by, accept_by, after_act, act_worker,
  is_there, step_in, step, may_act, run_events,
}
use mini_marl.Pool.Safety.{AfterRun, AllAllowed, step-Sound, start_pool-Sound}
use mini_marl.Pool.Amounts.{total, amount, amount_of, tasks_of, total-zero_below}
use mini_marl.Pool.Ledger.{run_events_balanced}
use mini_marl.Pool.Sound.{Sound}
use mini_marl.Pool.Hands.{
  Hands, steal_by-Hands, accept_by-Hands, try_next-Hands, call_enqueue-Hands, enqueue_here-Hands,
  stop_worker-Hands, after_act-Hands,
}

now : (p p' : Pool) → ok p ≡ ok p' → Hands p → Hands p'
now p p' e h = let same : p ≡ p' = cc in subst Hands same h

act_worker-Hands :
    (may : Bool) (i : ℕ) (a : Action) (p p' : Pool)
    → may_act a (p.stolen i) ≡ may
    → Hands p
    → act_worker may i a p ≡ ok p'
    → Hands p'
unfolding act_worker
act_worker-Hands false i a p p' m h e = now p p' e h
act_worker-Hands true i a p p' m h e =
    let (v, stepped, done) =
      bind-ok (Step.step a (worker i p)) (λ v. ok (after_act i a v p)) p' e in
    now (after_act i a v p) p' done (after_act-Hands i a v p m stepped h)

step_in-Hands : (e : Event) (p p' : Pool) → Sound p → Hands p → step_in e p ≡ ok p' → Hands p'
unfolding step_in
step_in-Hands (call t) p p' s h e =
    now (call_enqueue (is t same_thread) t p) p' e (call_enqueue-Hands (is t same_thread) t p h)
step_in-Hands (try_worker k locked) p p' s h e =
    now (try_next (pick k p.pending) locked p) p' e (try_next-Hands k locked p s h)
step_in-Hands (call_here i t) p p' s h e =
    now (enqueue_here (worker i p).pc (is t same_thread) i t p) p' e
      (enqueue_here-Hands (worker i p).pc (is t same_thread) i t p h)
step_in-Hands (stop i) p p' s h e =
    now (stop_worker (is_unlocked (worker i p).pc) i p) p' e
      (stop_worker-Hands (is_unlocked (worker i p).pc) i p h)
step_in-Hands (steal_from i from locked) p p' s h e =
    now (steal_by (worker i p).pc (p.stolen i) i from locked p) p' e
      (steal_by-Hands (worker i p).pc (p.stolen i) i from locked p refl s.valid.some_worker h)
step_in-Hands (accept i) p p' s h e =
    now (accept_by (worker i p).pc (p.stolen i) i p) p' e
      (accept_by-Hands (worker i p).pc (p.stolen i) i p h)
step_in-Hands (act i a) p p' s h e = act_worker-Hands (may_act a (p.stolen i)) i a p p' refl h e

step-Hands : (e : Event) (p p' : Pool) → Sound p → Hands p → step e p ≡ ok p' → Hands p'
unfolding step
step-Hands e p p' s h k = elim (Bool-cases (is_there e p.scheduler.worker_count)) [
  | inl there ↦ step_in-Hands e p p' s h (rw there at k)
  | inr not_there ↦ let l = rw not_there at k in now p p' l h
]

run_events-Hands :
    (es : List Event) (p p' : Pool)
    → AllAllowed es p
    → Sound p
    → Hands p
    → run_events es p ≡ ok p'
    → Hands p' × Sound p'
unfolding run_events
run_events-Hands [] p p' k s h e = let same : p ≡ p' = cc in (now p p' e h, subst Sound same s)
run_events-Hands (e ∷ es) p p' k s h done =
    let (r, stepped, sound) = step-Sound e p k.0 s in
    run_events-Hands es r p' (subst (AfterRun (AllAllowed es)) stepped k.1) sound
      (step-Hands e p r s h stepped) (rw stepped at done)

start_pool-Hands : (n : ℕ) → Hands (start_pool n)
unfolding start_pool
start_pool-Hands n i t e = absurd (cc)

finished_hands : (p : Pool) (i : ℕ) → Hands p → (worker i p).pc ≡ finished → p.stolen i ≡ none
finished_hands p i h e = elim (Option-cases (p.stolen i)) [
  | inl nothing ↦ nothing
  | inr (t, held) ↦ absurd (let spins = h i t held in let k = rw e at spins in cc)
]

-- After any allowed run of a pool in which the thread of every worker has finished and no call of
-- `enqueue` goes round its loop: each task has started as often as it
-- was given to the pool, less the times that it was queued at a worker after the thread of that had ended
-- and is still there.
pub run_events_drained :
    (q : Task Job → Bool) (n : ℕ) (es : List Event) (p : Pool)
    → 0 < n
    → AllAllowed es (start_pool n)
    → run_events es (start_pool n) ≡ ok p
    → ((i : ℕ) → i < p.scheduler.worker_count → (worker i p).pc ≡ finished)
    → p.pending ≡ []
    → amount q p.given
      ≡ amount q p.started + total p.scheduler.worker_count (λ i. amount q (p.left i))
run_events_drained q n es p h k e done settled =
    let (hands, sound) =
      run_events-Hands es (start_pool n) p k (start_pool-Sound n h) (start_pool-Hands n) e in
    let balance = run_events_balanced q n es p h k e in
    let count = p.scheduler.worker_count in
    let queues =
      total-zero_below (tasks_of q) count p.scheduler.worker_threads
        (λ i low. ap (amount q) (Good-finished (worker i p) (sound.good i) (done i low)).1) in
    let held =
      total-zero_below (amount_of q) count p.stolen
        (λ i low. ap (amount_of q) (finished_hands p i hands (done i low))) in
    omega (arith, balance.even, queues, held, ap (amount q) settled)
