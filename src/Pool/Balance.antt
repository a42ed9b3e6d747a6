-- ===== src/Pool/Balance.antt =====
-- Where the tasks of a pool stand, and how calls, stops and thefts move them.
use mini_marl.Base.{
  ℕ, ◌+◌, ◌%◌, ◌<◌, ◌≡◌, refl, ap, Bool, true, false, ◌&&◌, List, [], ◌∷◌, ◌++◌, Option, none, some,
  arith, ◌==◌, ind, pick, sum_over-pick, Bool-cases, inl, inr,
}
use native.Mathlib.Nat.{mod-lt}
use mini_marl.Task.{Task, is, same_thread}
use mini_marl.Worker.State.{Job, Pc, in_code, spinning, Worker, update}
use mini_marl.Worker.Queues.{enqueue_task, accept_stolen, steal}
use mini_marl.Worker.Step.{is_unlocked}
use mini_marl.Scheduler.{next_worker}
use mini_marl.Scheduler.Laws.{next_worker-Next}
use mini_marl.Pool.{
  Pool, worker, hand, call_enqueue, round, try_next, is_finished, enqueue_here, stop_task,
  stop_worker, steal_left, steal_by, accept_by,
}
use mini_marl.Pool.Sound.{Sound}
use mini_marl.Pool.Moves.{rob, steal_work-rob}
use mini_marl.Pool.Amounts.{
  total, total-update, amount, amount_of, tasks_of, amount-append, queue-amount, steal-Takes,
}

module _ (q : Task Job → Bool) where
  -- Of the tasks that pass the test, each one given is one that has started, or that stands in a call
  -- of `enqueue`, in the queue of one of `n` workers, was left at one after its thread had ended, or is in
  -- the hand of one thief.
  pub record Balance (n : ℕ) (ws : ℕ → Worker) (stolen : ℕ → Option (Task Job))
      (left : ℕ → List (Task Job)) (pending started given : List (Task Job)) : Type 0 where
    pub even :
        amount q given
        ≡ amount q started
          + amount q pending
          + total n (λ i. tasks_of q (ws i))
          + total n (λ i. amount q (left i))
          + total n (λ i. amount_of q (stolen i))

  abbrev pub Balanced : Pool → Type 0
  Balanced p =
      Balance p.scheduler.worker_count p.scheduler.worker_threads p.stolen p.left p.pending
        p.started p.given

  round-Balanced :
      (locked : Bool) (t : Task Job) (rest : List (Task Job)) (p : Pool)
      → amount q p.pending ≡ ind (q t) + amount q rest
      → Sound p
      → Balanced p
      → Balanced (round locked t rest (next_worker p.scheduler) p)
  unfolding round
  round-Balanced locked t rest p h s b =
      let n = next_worker-Next p.scheduler s.valid in
      let id = (next_worker p.scheduler).0 in
      let s1 = (next_worker p.scheduler).1 in
      let ws = p.scheduler.worker_threads in
      let count = p.scheduler.worker_count in
      elim (Bool-cases (locked && is_unlocked (s1.worker_threads id).pc)) [
        | inr stays ↦
            let w = s1.worker_threads id in
            elim (Bool-cases (locked && is_finished w.pc)) [
              | inr waits ↦ rw (stays, waits, n.same, n.count) b
              | inl late ↦
                  let more = amount-append q (p.left id) (t ∷ []) in
                  let behind =
                    total-update (amount q) count p.left id (p.left id ++ t ∷ []) n.there in
                  rw (stays, late, n.same, n.count)
                    (record { even = omega (arith, more, behind, h, b.even) })
            ]
        | inl got ↦
            let more = queue-amount q count id ws t n.there in
            rw (got, n.same, n.count) (record { even = omega (arith, more, h, b.even) })
      ]

  pub try_next-Balanced :
      (k : ℕ) (locked : Bool) (p : Pool)
      → Sound p
      → Balanced p
      → Balanced (try_next (pick k p.pending) locked p)
  try_next-Balanced k locked p s b = chosen (pick k p.pending) refl
    where
      chosen :
          (o : Option (Task Job × List (Task Job)))
          → pick k p.pending ≡ o
          → Balanced (try_next o locked p)
      chosen none e = unfold try_next in b
      chosen (some (t, rest)) e =
          let h = sum_over-pick (λ t. ind (q t)) k p.pending rest t e in
          unfold try_next in round-Balanced locked t rest p h s b

  pub call_enqueue-Balanced :
      (same : Bool) (t : Task Job) (p : Pool) → Balanced p → Balanced (call_enqueue same t p)
  unfolding call_enqueue
  call_enqueue-Balanced true t p b = b
  call_enqueue-Balanced false t p b = record { even = omega (arith, b.even) }

  -- A task is given to the worker itself.
  hand-Balanced :
      (i : ℕ) (t : Task Job) (p : Pool)
      → i < p.scheduler.worker_count
      → Balanced p
      → Balanced (record (hand i (enqueue_task t (worker i p)) p) { given = t ∷ p.given })
  hand-Balanced i t p h b =
      let more = queue-amount q p.scheduler.worker_count i p.scheduler.worker_threads t h in
      record { even = omega (arith, more, b.even) }

  pub enqueue_here-Balanced :
      (pc : Pc) (same : Bool) (i : ℕ) (t : Task Job) (p : Pool)
      → i < p.scheduler.worker_count
      → Balanced p
      → Balanced (enqueue_here pc same i t p)
  unfolding enqueue_here
  enqueue_here-Balanced (in_code c) true i t p h b = hand-Balanced i t p h b
  enqueue_here-Balanced _ _ i t p h b = b

  pub stop_worker-Balanced :
      (free : Bool) (i : ℕ) (p : Pool)
      → i < p.scheduler.worker_count
      → Balanced p
      → Balanced (stop_worker free i p)
  unfolding stop_worker
  stop_worker-Balanced true i p h b = hand-Balanced i (stop_task i) p h b
  stop_worker-Balanced false i p h b = b

  rob-Balanced :
      (i victim : ℕ) (locked : Bool) (p : Pool)
      → i < p.scheduler.worker_count
      → victim < p.scheduler.worker_count
      → p.stolen i ≡ none
      → Balanced p
      → let r = rob i victim locked p.scheduler in
        Balanced (record p { scheduler = r.0; stolen = update p.stolen i r.1 })
  rob-Balanced i victim locked p h k e b =
      let count = p.scheduler.worker_count in
      elim (Bool-cases (victim == i)) [
        | inl own ↦
            let hands = total-update (amount_of q) count p.stolen i none h in
            rw own (record { even = omega (arith, hands, b.even, ap (amount_of q) e) })
        | inr other ↦
            let r = steal locked (worker victim p) in
            let hands = total-update (amount_of q) count p.stolen i r.1 h in
            let queues = total-update (tasks_of q) count p.scheduler.worker_threads victim r.0 k in
            let moved = steal-Takes q locked (worker victim p) in
            rw other
              (record { even = omega (arith, hands, queues, moved, b.even, ap (amount_of q) e) })
      ]

  steal_left-Balanced :
      (i victim : ℕ) (ts : List (Task Job)) (p : Pool)
      → i < p.scheduler.worker_count
      → victim < p.scheduler.worker_count
      → p.stolen i ≡ none
      → p.left victim ≡ ts
      → Balanced p
      → Balanced (steal_left i victim ts p)
  unfolding steal_left
  steal_left-Balanced i victim [] p h k e at b = b
  steal_left-Balanced i victim (t ∷ ts) p h k e at b = elim (Bool-cases (is t same_thread)) [
    | inl stays ↦ rw stays b
    | inr goes ↦
        let count = p.scheduler.worker_count in
        let hands = total-update (amount_of q) count p.stolen i (some t) h in
        let behind = total-update (amount q) count p.left victim ts k in
        rw goes (record {
          even = omega (arith, hands, behind, b.even, ap (amount_of q) e, ap (amount q) at);
        })
  ]

  pub steal_by-Balanced :
      (pc : Pc) (o : Option (Task Job)) (i from : ℕ) (locked : Bool) (p : Pool)
      → i < p.scheduler.worker_count
      → p.stolen i ≡ o
      → Balanced p
      → Balanced (steal_by pc o i from locked p)
  unfolding steal_by
  steal_by-Balanced (spinning c) none i from locked p h e b =
      let some_worker : 0 < p.scheduler.worker_count = omega arith in
      let victim = from % p.scheduler.worker_count in
      let pc = (worker victim p).pc in
      let there = mod-lt from some_worker in
      elim (Bool-cases (locked && is_finished pc)) [
        | inl late ↦ rw late (steal_left-Balanced i victim (p.left victim) p h there e refl b)
        | inr usual ↦
            let locked' = locked && is_unlocked pc in
            rw (usual, steal_work-rob i from locked' p.scheduler some_worker)
              (rob-Balanced i victim locked' p h there e b)
      ]
  steal_by-Balanced _ _ i from locked p h e b = b

  pub accept_by-Balanced :
      (pc : Pc) (o : Option (Task Job)) (i : ℕ) (p : Pool)
      → i < p.scheduler.worker_count
      → p.stolen i ≡ o
      → Balanced p
      → Balanced (accept_by pc o i p)
  unfolding accept_by accept_stolen
  accept_by-Balanced (spinning c) (some t) i p h e b =
      let count = p.scheduler.worker_count in
      let hands = total-update (amount_of q) count p.stolen i none h in
      let queues =
        total-update (tasks_of q) count p.scheduler.worker_threads i (accept_stolen t (worker i p))
          h in
      let more = amount-append q (worker i p).tasks (t ∷ []) in
      record { even = omega (arith, hands, queues, more, b.even, ap (amount_of q) e) }
  accept_by-Balanced _ _ i p h e b = b
