-- ===== src/Pool/Ledger.antt =====
-- Every task is in one place, and none runs twice, whoever steals it.
use mini_marl.Base.{
  ℕ, ◌<◌, ◌≡◌, refl, subst, Bool, true, false, not, ◌&&◌, List, [], ◌∷◌, Option, none, some, arith,
  ltb→lt, pick, ok, Bool-cases, inl, inr, bind-ok,
}
use mini_marl.Task.{Task, is, same_thread}
use mini_marl.Worker.State.{start, multi_threaded, Job, Worker, update}
use mini_marl.Worker.Step
use mini_marl.Worker.Step.{Action, is_unlocked}
use mini_marl.Worker.Begins.{begun, before, step-Begins, is_own}
use mini_marl.Pool.{
  Pool, worker, start_pool, Event, call, try_worker, call_here, stop, steal_from, accept, act,
  call_enqueue, try_next, enqueue_here, stop_worker, steal_by, accept_by, is_spinning, tell,
  after_act, act_worker, may_act, is_there, step_in, step, run_events,
}
use mini_marl.Pool.Sound.{Sound}
use mini_marl.Pool.Safety.{step-Sound, AfterRun, AllAllowed, start_pool-Sound}
use mini_marl.Pool.Amounts.{
  total-update, total-same, total-zero_below, amount, amount_of, tasks_of, amount-with_task,
  tell-tasks_of, before-amount,
}
use mini_marl.Pool.Ended.{begin_spinning-count}
use mini_marl.Pool.Balance.{
  Balanced, call_enqueue-Balanced, try_next-Balanced, enqueue_here-Balanced, stop_worker-Balanced,
  steal_by-Balanced, accept_by-Balanced,
}

module _ (q : Task Job → Bool) where
  now : (p p' : Pool) → ok p ≡ ok p' → Balanced q p → Balanced q p'
  now p p' e b = let same : p ≡ p' = cc in subst (Balanced q) same b

  after_act-Balanced :
      (i : ℕ) (a : Action) (v : Worker) (p : Pool)
      → i < p.scheduler.worker_count
      → (worker i p).tasks ≡ before (begun a (worker i p)) v.tasks
      → Balanced q p
      → Balanced q (after_act i a v p)
  unfolding after_act
  after_act-Balanced i a v p h kept b =
      let w = worker i p in
      let count = p.scheduler.worker_count in
      let o = begun a w in
      let ws = update p.scheduler.worker_threads i v in
      let spins = not (is_spinning w.pc) && is_spinning v.pc in
      let took = before-amount q o v.tasks w.tasks kept in
      let queues = total-update (tasks_of q) count p.scheduler.worker_threads i v h in
      let told_ = total-same (tasks_of q) count (tell o i ws) ws (tell-tasks_of q o i ws) in
      let started = amount-with_task q o p.started in
      rw (begin_spinning-count spins i p.scheduler)
        (record { even = omega (arith, took, queues, told_, started, b.even) })

  act_worker-Balanced :
      (may : Bool) (i : ℕ) (a : Action) (p p' : Pool)
      → (may ≡ true → is_own a ≡ true)
      → i < p.scheduler.worker_count
      → Balanced q p
      → act_worker may i a p ≡ ok p'
      → Balanced q p'
  unfolding act_worker
  act_worker-Balanced false i a p p' own h b e = let same : p ≡ p' = cc in subst (Balanced q) same b
  act_worker-Balanced true i a p p' own h b e =
      let w = worker i p in
      let (v, stepped, done) = bind-ok (Step.step a w) (λ v. ok (after_act i a v p)) p' e in
      let same : after_act i a v p ≡ p' = cc in
      subst (Balanced q) same
        (after_act-Balanced i a v p h (step-Begins a w (own refl) v stepped) b)

  may_act-is_own : (a : Action) (o : Option (Task Job)) → may_act a o ≡ true → is_own a ≡ true
  may_act-is_own (Action.spun _) none e = refl
  may_act-is_own (Action.spun _) (some t) e = absurd (cc)
  may_act-is_own Action.told o e = absurd (cc)
  may_act-is_own a o e = e

  step_in-Balanced :
      (e : Event) (p p' : Pool)
      → is_there e p.scheduler.worker_count ≡ true
      → Sound p
      → Balanced q p
      → step_in e p ≡ ok p'
      → Balanced q p'
  unfolding step_in
  step_in-Balanced (call t) p p' there s b e =
      now (call_enqueue (is t same_thread) t p) p' e
        (call_enqueue-Balanced q (is t same_thread) t p b)
  step_in-Balanced (try_worker k locked) p p' there s b e =
      now (try_next (pick k p.pending) locked p) p' e (try_next-Balanced q k locked p s b)
  step_in-Balanced (call_here i t) p p' there s b e =
      let h = ltb→lt i p.scheduler.worker_count there in
      now (enqueue_here (worker i p).pc (is t same_thread) i t p) p' e
        (enqueue_here-Balanced q (worker i p).pc (is t same_thread) i t p h b)
  step_in-Balanced (stop i) p p' there s b e =
      let h = ltb→lt i p.scheduler.worker_count there in
      now (stop_worker (is_unlocked (worker i p).pc) i p) p' e
        (stop_worker-Balanced q (is_unlocked (worker i p).pc) i p h b)
  step_in-Balanced (steal_from i from locked) p p' there s b e =
      let h = ltb→lt i p.scheduler.worker_count there in
      now (steal_by (worker i p).pc (p.stolen i) i from locked p) p' e
        (steal_by-Balanced q (worker i p).pc (p.stolen i) i from locked p h refl b)
  step_in-Balanced (accept i) p p' there s b e =
      let h = ltb→lt i p.scheduler.worker_count there in
      now (accept_by (worker i p).pc (p.stolen i) i p) p' e
        (accept_by-Balanced q (worker i p).pc (p.stolen i) i p h refl b)
  step_in-Balanced (act i a) p p' there s b e =
      act_worker-Balanced (may_act a (p.stolen i)) i a p p' (may_act-is_own a (p.stolen i))
        (ltb→lt i p.scheduler.worker_count there) b e

  step-Balanced :
      (e : Event) (p p' : Pool) → Sound p → Balanced q p → step e p ≡ ok p' → Balanced q p'
  unfolding step
  step-Balanced e p p' s b h = elim (Bool-cases (is_there e p.scheduler.worker_count)) [
    | inl there ↦ step_in-Balanced e p p' there s b (rw there at h)
    | inr not_there ↦ let k = rw not_there at h in now p p' k b
  ]

  run_events-Balanced :
      (es : List Event) (p p' : Pool)
      → AllAllowed es p
      → Sound p
      → Balanced q p
      → run_events es p ≡ ok p'
      → Balanced q p'
  unfolding run_events
  run_events-Balanced [] p p' k s b h = now p p' h b
  run_events-Balanced (e ∷ es) p p' k s b h =
      let (r, stepped, sound) = step-Sound e p k.0 s in
      run_events-Balanced es r p' (subst (AfterRun (AllAllowed es)) stepped k.1) sound
        (step-Balanced e p r s b stepped) (rw stepped at h)

  start_pool-Balanced : (n : ℕ) → Balanced q (start_pool n)
  unfolding start_pool
  start_pool-Balanced n = record {
    even = omega (
      arith,
      total-zero_below (tasks_of q) n (λ i. start multi_threaded i) (λ i low. refl),
      total-zero_below (amount_of q) n (λ _. none) (λ i low. refl),
      total-zero_below (amount q) n (λ _. []) (λ i low. refl),
    );
  }

  -- After any allowed run of a pool, and for any test of tasks: of the tasks given to the pool that pass
  -- it, those that have started, and those that stand in a call of `enqueue`, in the queue of one
  -- worker, in the hand of one thief, or that were queued at one worker after its thread had ended, add
  -- up to all of them; so none starts more often than it was given.
  pub run_events_balanced :
      (n : ℕ) (es : List Event) (p : Pool)
      → 0 < n
      → AllAllowed es (start_pool n)
      → run_events es (start_pool n) ≡ ok p
      → Balanced q p
  run_events_balanced n es p h k e =
      run_events-Balanced es (start_pool n) p k (start_pool-Sound n h) (start_pool-Balanced n) e
