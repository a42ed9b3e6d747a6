-- ===== src/Pool/Moves.antt =====
-- A task that is queued or stolen leaves a pool sound.
use mini_marl.Base.{
  ℕ, ◌%◌, ◌<◌, ◌≡◌, refl, ap, subst, Bool, true, false, ◌&&◌, List, [], ◌∷◌, ◌++◌, Option, none,
  some, arith, ltb, ◌==◌, if◌then◌else◌, Bool-cases, inl, inr,
}
use mini_marl.Task.{Task, is, same_thread, is_valid}
use mini_marl.Worker.State.{Job, Pc, spinning, Worker, update}
use mini_marl.Worker.Queues.{enqueue_task, steal}
use mini_marl.Worker.Step.{is_unlocked}
use mini_marl.Worker.Inv.{AllValid, Good}
use mini_marl.Worker.Calls.{steal-Inv}
use mini_marl.Worker.Reach.{steal-some}
use mini_marl.Scheduler.{Scheduler, steal_work, next_worker}
use mini_marl.Scheduler.Laws.{next_worker-Next}
use mini_marl.Pool.{Pool, worker, hand, is_finished, round, steal_left, steal_by}
use mini_marl.Pool.Sound.{Sound, unlocked-Inv, update-Good, enqueue_task-Good}

and_false : (b : Bool) → (b && false) ≡ false
and_false true = refl
and_false false = refl

steal_missed : (w : Worker) → steal false w ≡ (w, none)
unfolding steal
steal_missed w = ground arith

-- A worker whose lock may be taken is robbed, or not.
steal-Good : (locked : Bool) (w : Worker) → Good w → Good (steal (locked && is_unlocked w.pc) w).0
steal-Good locked w g = elim (Bool-cases (is_unlocked w.pc)) [
  | inl free ↦ inl (steal-Inv (locked && is_unlocked w.pc) w free (unlocked-Inv w g free))
  | inr busy ↦ rw (busy, and_false locked, steal_missed w) g
]

pub update-stolen :
    (stolen : ℕ → Option (Task Job)) (i : ℕ) (o : Option (Task Job))
    → ((j : ℕ) (t : Task Job) → stolen j ≡ some t → is_valid t ≡ true)
    → ((t : Task Job) → o ≡ some t → is_valid t ≡ true)
    → (j : ℕ) (t : Task Job) → update stolen i o j ≡ some t
    → is_valid t ≡ true
update-stolen stolen i o h k j t e = elim (Bool-cases (i == j)) [
  | inl same ↦ k t (rw same at e)
  | inr other ↦ h j t (rw other at e)
]

update-left :
    (left : ℕ → List (Task Job)) (i : ℕ) (ts : List (Task Job))
    → ((j : ℕ) → AllValid (left j))
    → AllValid ts
    → (j : ℕ) → AllValid (update left i ts j)
update-left left i ts h k j = elim (Bool-cases (i == j)) [
  | inl same ↦ rw same k
  | inr other ↦ rw other (h j)
]

append-AllValid : (ts us : List (Task Job)) → AllValid ts → AllValid us → AllValid (ts ++ us)
append-AllValid [] us h k = k
append-AllValid (t ∷ ts) us h k = (h.0, append-AllValid ts us h.1 k)

pub enqueue-Sound :
    (i : ℕ) (t : Task Job) (p : Pool)
    → is_valid t ≡ true
    → is_unlocked (worker i p).pc ≡ true
    → Sound p
    → Sound (hand i (enqueue_task t (worker i p)) p)
enqueue-Sound i t p h u s = record {
  valid = record { spins = s.valid.spins; some_worker = s.valid.some_worker };
  good =
      update-Good p.scheduler.worker_threads i _ s.good
        (enqueue_task-Good t (worker i p) h u (s.good i));
  pending_valid = s.pending_valid;
  left_valid = s.left_valid;
  stolen_valid = s.stolen_valid;
}

pub round-Sound :
    (locked : Bool) (t : Task Job) (rest : List (Task Job)) (p : Pool)
    → is_valid t ≡ true
    → AllValid rest
    → Sound p
    → Sound (round locked t rest (next_worker p.scheduler) p)
unfolding round
round-Sound locked t rest p h k s =
    let n = next_worker-Next p.scheduler s.valid in
    let id = (next_worker p.scheduler).0 in
    let s1 = (next_worker p.scheduler).1 in
    let w = s1.worker_threads id in
    let goods : (j : ℕ) → Good (s1.worker_threads j) = λ j. rw n.same (s.good j) in
    elim (Bool-cases (locked && is_unlocked w.pc)) [
      | inr stays ↦ elim (Bool-cases (locked && is_finished w.pc)) [
        | inr waits ↦
            rw (stays, waits)
              (record {
                valid = n.valid;
                good = goods;
                pending_valid = s.pending_valid;
                left_valid = s.left_valid;
                stolen_valid = s.stolen_valid;
              })
        | inl late ↦
            rw (stays, late)
              (record {
                valid = n.valid;
                good = goods;
                pending_valid = k;
                left_valid =
                    update-left p.left id _ s.left_valid
                      (append-AllValid (p.left id) (t ∷ []) (s.left_valid id) (h, tt));
                stolen_valid = s.stolen_valid;
              })
      ]
      | inl got ↦ rw got (record {
        valid = record { spins = n.valid.spins; some_worker = n.valid.some_worker };
        good =
            update-Good s1.worker_threads id _ goods
              (enqueue_task-Good t w h (ground (arith, got)) (goods id));
        pending_valid = k;
        left_valid = s.left_valid;
        stolen_valid = s.stolen_valid;
      })
    ]

-- What is stolen has a function.
stolen-is_valid :
    (locked : Bool) (w : Worker) (t : Task Job)
    → Good w
    → (steal (locked && is_unlocked w.pc) w).1 ≡ some t
    → is_valid t ≡ true
stolen-is_valid locked w t g e = elim (Bool-cases (is_unlocked w.pc)) [
  | inr busy ↦ absurd (let k = rw (busy, and_false locked, steal_missed w) at e in cc)
  | inl free ↦
      let b = locked && is_unlocked w.pc in
      let (_, _, first, _) = steal-some b w (steal b w).0 t (ap (λ o. ((steal b w).0, o)) e) in
      let valid = (unlocked-Inv w g free).core.valid in (subst AllValid first valid).0
]

-- `stealWork` without the guards that hold in a pool.
abbrev pub rob : ℕ → ℕ → Bool → Scheduler → Scheduler × Option (Task Job)
rob thief victim locked s =
    let r = steal locked (s.worker_threads victim) in
    if victim == thief
    then (s, none)
    else (record s { worker_threads = update s.worker_threads victim r.0 }, r.1)

pub steal_work-rob :
    (thief from : ℕ) (locked : Bool) (s : Scheduler)
    → 0 < s.worker_count
    → steal_work thief from locked s ≡ rob thief (from % s.worker_count) locked s
unfolding steal_work
steal_work-rob thief from locked s h =
    let some_worker : ltb 0 s.worker_count ≡ true = ground arith in rw some_worker refl

rob-Sound :
    (i victim : ℕ) (locked : Bool) (p : Pool)
    → Sound p
    → let r = rob i victim (locked && is_unlocked (worker victim p).pc) p.scheduler in
      Sound (record p { scheduler = r.0; stolen = update p.stolen i r.1 })
rob-Sound i victim locked p s = elim (Bool-cases (victim == i)) [
  | inl own ↦ rw own (record {
    valid = s.valid;
    good = s.good;
    pending_valid = s.pending_valid;
    left_valid = s.left_valid;
    stolen_valid = update-stolen p.stolen i none s.stolen_valid (λ t e. absurd (cc));
  })
  | inr other ↦ rw other (record {
    valid = record { spins = s.valid.spins; some_worker = s.valid.some_worker };
    good =
        update-Good p.scheduler.worker_threads victim _ s.good
          (steal-Good locked (worker victim p) (s.good victim));
    pending_valid = s.pending_valid;
    left_valid = s.left_valid;
    stolen_valid =
        update-stolen p.stolen i _ s.stolen_valid
          (λ t e. stolen-is_valid locked (worker victim p) t (s.good victim) e);
  })
]

steal_left-Sound :
    (i victim : ℕ) (ts : List (Task Job)) (p : Pool)
    → AllValid ts
    → Sound p
    → Sound (steal_left i victim ts p)
unfolding steal_left
steal_left-Sound i victim [] p h s = s
steal_left-Sound i victim (t ∷ ts) p h s = elim (Bool-cases (is t same_thread)) [
  | inl stays ↦ rw stays s
  | inr goes ↦ rw goes (record {
    valid = s.valid;
    good = s.good;
    pending_valid = s.pending_valid;
    left_valid = update-left p.left victim ts s.left_valid h.1;
    stolen_valid =
        update-stolen p.stolen i (some t) s.stolen_valid
          (λ u e. let same : t ≡ u = cc in subst (λ x. is_valid x ≡ true) same h.0);
  })
]

pub steal_by-Sound :
    (pc : Pc) (o : Option (Task Job)) (i from : ℕ) (locked : Bool) (p : Pool)
    → Sound p
    → Sound (steal_by pc o i from locked p)
unfolding steal_by
steal_by-Sound (spinning c) none i from locked p s =
    let victim = from % p.scheduler.worker_count in
    let pc = (worker victim p).pc in
    elim (Bool-cases (locked && is_finished pc)) [
      | inl late ↦ rw late (steal_left-Sound i victim (p.left victim) p (s.left_valid victim) s)
      | inr usual ↦
          rw
            (
              usual,
              steal_work-rob i from (locked && is_unlocked pc) p.scheduler s.valid.some_worker,
            )
            (rob-Sound i victim locked p s)
    ]
steal_by-Sound _ _ i from locked p s = s
