-- ===== src/Pool/Hands.antt =====
-- Only the thread of a worker that spins holds a task that it has stolen.
use mini_marl.Base.{
  ℕ, ◌%◌, ◌<◌, ◌≡◌, refl, sym, ap, ◌∙◌, subst, Bool, true, false, ◌&&◌, List, [], ◌∷◌, Option, none,
  some, arith, ◌==◌, ok, ◌>>=◌, Bool-cases, inl, inr, pick,
}
use mini_marl.Task.{Task, is, same_thread}
use mini_marl.Worker.State.{
  Job, shut_down, user, Caller, Pc, in_code, spinning, sleeping, before_run, starting,
  until_shutdown, until_idle, awake, returning, finished, Worker, update,
}
use mini_marl.Worker.Queues.{enqueue_fiber, enqueue_task, steal, steal_first, accept_stolen}
use mini_marl.Worker.Begins.{notify-Stays}
use mini_marl.Worker.Step
use mini_marl.Worker.Step.{Action, is_unlocked}
use mini_marl.Pool.{
  Pool, worker, hand, call_enqueue, round, try_next, enqueue_here, stop_task, stop_worker,
  steal_left, steal_by, is_finished, accept_by, tell, after_act, is_spinning, may_act,
}
use mini_marl.Worker.Begins.{begun}
use mini_marl.Pool.Sound.{Sound}
use mini_marl.Pool.Moves.{rob, steal_work-rob}
use mini_marl.Scheduler.{next_worker}
use mini_marl.Scheduler.Laws.{next_worker-Next}

spinning_at : (pc : Pc) → is_spinning pc ≡ true → (c : Caller) × (pc ≡ spinning c)
spinning_at (spinning c) e = (c, refl)
spinning_at (in_code _) e = absurd (cc)
spinning_at (sleeping _ _) e = absurd (cc)
spinning_at before_run e = absurd (cc)
spinning_at starting e = absurd (cc)
spinning_at until_shutdown e = absurd (cc)
spinning_at until_idle e = absurd (cc)
spinning_at (awake _) e = absurd (cc)
spinning_at returning e = absurd (cc)
spinning_at finished e = absurd (cc)

kept_spinning : (w v : Worker) → ok w ≡ ok v → is_spinning w.pc ≡ true → is_spinning v.pc ≡ true
kept_spinning w v e s = let same : w ≡ v = cc in subst (λ x. is_spinning x.pc ≡ true) same s

-- An action that the thread of a worker may take while it holds a stolen task leaves it spinning.
spinning-step :
    (a : Action) (w v : Worker) (t : Task Job)
    → is_spinning w.pc ≡ true
    → may_act a (some t) ≡ true
    → Step.step a w ≡ ok v
    → is_spinning v.pc ≡ true
unfolding Step.step Step.suspended Step.returned Step.woken Step.advance Step.called
spinning-step (Action.add_task _) w v t s m e = absurd (cc)
spinning-step (Action.stolen_from _) w v t s m e = absurd (cc)
spinning-step (Action.accepts _) w v t s m e = absurd (cc)
spinning-step (Action.spun _) w v t s m e = absurd (cc)
spinning-step Action.told w v t s m e = absurd (cc)
spinning-step (Action.notify f) w v t s m e =
    let (c, at) = spinning_at w.pc s in
    let k : (enqueue_fiber f w >>= λ r. ok r.0) ≡ ok v =
      sym (ap (λ pc. Step.called (is_unlocked pc) (enqueue_fiber f w >>= λ r. ok r.0) w) at) ∙ e in
    ap is_spinning (notify-Stays f w v k).1 ∙ s
spinning-step (Action.suspends timeout now) w v t s m e =
    let (c, at) = spinning_at w.pc s in
    kept_spinning w v (sym (ap (λ pc. Step.suspended pc timeout now w) at) ∙ e) s
spinning-step (Action.returns now) w v t s m e =
    let (c, at) = spinning_at w.pc s in
    kept_spinning w v (sym (ap (λ pc. ok (Step.returned pc w)) at) ∙ e) s
spinning-step (Action.wakes clock now) w v t s m e =
    let (c, at) = spinning_at w.pc s in
    kept_spinning w v (sym (ap (λ pc. Step.woken pc clock now w) at) ∙ e) s
spinning-step (Action.advances now choice) w v t s m e =
    let (c, at) = spinning_at w.pc s in
    kept_spinning w v (sym (ap (λ pc. Step.advance pc now choice w) at) ∙ e) s

-- Only a spinning thread holds a stolen task.
abbrev pub InHand : (ℕ → Worker) → (ℕ → Option (Task Job)) → Type 0
InHand ws stolen = (i : ℕ) (t : Task Job) → stolen i ≡ some t → is_spinning (ws i).pc ≡ true

abbrev pub Hands : Pool → Type 0
Hands p = InHand p.scheduler.worker_threads p.stolen

same_pc-InHand :
    (ws ws' : ℕ → Worker) (stolen : ℕ → Option (Task Job))
    → ((i : ℕ) → (ws' i).pc ≡ (ws i).pc)
    → InHand ws stolen
    → InHand ws' stolen
same_pc-InHand ws ws' stolen same h i t e = ap is_spinning (same i) ∙ h i t e

pub update-pc :
    (ws : ℕ → Worker) (i : ℕ) (w : Worker)
    → w.pc ≡ (ws i).pc
    → (j : ℕ) → (update ws i w j).pc ≡ (ws j).pc
update-pc ws i w e j = elim (Bool-cases (i == j)) [
  | inl same ↦ rw same (let at_j : i ≡ j = ground (arith, same) in e ∙ ap (λ k. (ws k).pc) at_j)
  | inr other ↦ rw other refl
]

hand-Hands :
    (i : ℕ) (t : Task Job) (p : Pool) → Hands p → Hands (hand i (enqueue_task t (worker i p)) p)
unfolding enqueue_task
hand-Hands i t p h =
    let ws = p.scheduler.worker_threads in
    let w = (enqueue_task t (ws i)).0 in
    same_pc-InHand ws (update ws i w) p.stolen (update-pc ws i w refl) h

round-Hands :
    (locked : Bool) (t : Task Job) (rest : List (Task Job)) (p : Pool)
    → Sound p
    → Hands p
    → Hands (round locked t rest (next_worker p.scheduler) p)
unfolding round
round-Hands locked t rest p s h =
    let n = next_worker-Next p.scheduler s.valid in
    let id = (next_worker p.scheduler).0 in
    let s1 = (next_worker p.scheduler).1 in
    let h1 : InHand s1.worker_threads p.stolen = subst (λ ws. InHand ws p.stolen) (sym n.same) h in
    elim (Bool-cases (locked && is_unlocked (s1.worker_threads id).pc)) [
      | inr stays ↦ elim (Bool-cases (locked && is_finished (s1.worker_threads id).pc)) [
        | inr waits ↦ rw (stays, waits) h1
        | inl late ↦ rw (stays, late) h1
      ]
      | inl got ↦ rw got (hand-Hands id t (record p { scheduler = s1; pending = rest }) h1)
    ]

steal_first-pc : (ts : List (Task Job)) (w : Worker) → (steal_first ts w).0.pc ≡ w.pc
unfolding steal_first
steal_first-pc [] w = refl
steal_first-pc (t ∷ ts) w = ground arith

pub steal-pc : (locked : Bool) (w : Worker) → (steal locked w).0.pc ≡ w.pc
unfolding steal
steal-pc locked w = ground (arith, steal_first-pc w.tasks w)

rob-Hands :
    (i victim : ℕ) (locked : Bool) (p : Pool)
    → is_spinning (worker i p).pc ≡ true
    → Hands p
    → let r = rob i victim locked p.scheduler in
      Hands (record p { scheduler = r.0; stolen = update p.stolen i r.1 })
rob-Hands i victim locked p spins h = elim (Bool-cases (victim == i)) [
  | inl own ↦ rw own (λ j t e. elim (Bool-cases (i == j)) [
    | inl same ↦ absurd (let k = rw same at e in cc)
    | inr other ↦ h j t (rw other at e)
  ])
  | inr far ↦
      let ws = p.scheduler.worker_threads in
      let r = steal locked (ws victim) in
      let pcs = update-pc ws victim r.0 (steal-pc locked (ws victim)) in
      rw far (λ j t e. ap is_spinning (pcs j) ∙ elim (Bool-cases (i == j)) [
        | inl same ↦
            let at_j : i ≡ j = ground (arith, same) in
            subst (λ k. is_spinning (ws k).pc ≡ true) at_j spins
        | inr other ↦ h j t (rw other at e)
      ])
]

steal_left-Hands :
    (i victim : ℕ) (ts : List (Task Job)) (p : Pool)
    → is_spinning (worker i p).pc ≡ true
    → Hands p
    → Hands (steal_left i victim ts p)
unfolding steal_left
steal_left-Hands i victim [] p spins h = h
steal_left-Hands i victim (t ∷ ts) p spins h = elim (Bool-cases (is t same_thread)) [
  | inl stays ↦ rw stays h
  | inr goes ↦ rw goes (λ j u e. elim (Bool-cases (i == j)) [
    | inl same ↦
        let at_j : i ≡ j = ground (arith, same) in
        subst (λ k. is_spinning (worker k p).pc ≡ true) at_j spins
    | inr other ↦ h j u (rw other at e)
  ])
]

pub steal_by-Hands :
    (pc : Pc) (o : Option (Task Job)) (i from : ℕ) (locked : Bool) (p : Pool)
    → (worker i p).pc ≡ pc
    → 0 < p.scheduler.worker_count
    → Hands p
    → Hands (steal_by pc o i from locked p)
unfolding steal_by
steal_by-Hands (spinning c) none i from locked p e some_worker h =
    let victim = from % p.scheduler.worker_count in
    let pc = (worker victim p).pc in
    let locked' = locked && is_unlocked pc in
    elim (Bool-cases (locked && is_finished pc)) [
      | inl late ↦ rw late (steal_left-Hands i victim (p.left victim) p (ap is_spinning e) h)
      | inr usual ↦
          rw (usual, steal_work-rob i from locked' p.scheduler some_worker)
            (rob-Hands i victim locked' p (ap is_spinning e) h)
    ]
steal_by-Hands _ _ i from locked p e some_worker h = h

pub accept_by-Hands :
    (pc : Pc) (o : Option (Task Job)) (i : ℕ) (p : Pool) → Hands p → Hands (accept_by pc o i p)
unfolding accept_by accept_stolen
accept_by-Hands (spinning c) (some t) i p h = λ j u e.
    let ws = p.scheduler.worker_threads in
    ap is_spinning (update-pc ws i (accept_stolen t (ws i)) refl j) ∙ elim (Bool-cases (i == j)) [
      | inl same ↦ absurd (let k = rw same at e in cc)
      | inr other ↦ h j u (rw other at e)
    ]
accept_by-Hands _ _ i p h = h

pub try_next-Hands :
    (k : ℕ) (locked : Bool) (p : Pool)
    → Sound p
    → Hands p
    → Hands (try_next (pick k p.pending) locked p)
try_next-Hands k locked p s h = chosen (pick k p.pending)
  where
    chosen : (o : Option (Task Job × List (Task Job))) → Hands (try_next o locked p)
    chosen none = unfold try_next in h
    chosen (some (t, rest)) = unfold try_next in round-Hands locked t rest p s h

pub call_enqueue-Hands : (b : Bool) (t : Task Job) (p : Pool) → Hands p → Hands (call_enqueue b t p)
unfolding call_enqueue
call_enqueue-Hands true t p h = h
call_enqueue-Hands false t p h = h

pub enqueue_here-Hands :
    (pc : Pc) (b : Bool) (i : ℕ) (t : Task Job) (p : Pool)
    → Hands p
    → Hands (enqueue_here pc b i t p)
unfolding enqueue_here
enqueue_here-Hands (in_code c) true i t p h = hand-Hands i t p h
enqueue_here-Hands _ _ i t p h = h

pub stop_worker-Hands : (b : Bool) (i : ℕ) (p : Pool) → Hands p → Hands (stop_worker b i p)
unfolding stop_worker
stop_worker-Hands true i p h = hand-Hands i (stop_task i) p h
stop_worker-Hands false i p h = h

pub tell-pc :
    (o : Option (Task Job)) (i : ℕ) (ws : ℕ → Worker) (j : ℕ) → (tell o i ws j).pc ≡ (ws j).pc
unfolding tell
tell-pc none i ws j = refl
tell-pc (some t) i ws j = by_function t.function_ refl
  where
    by_function : (f : Option Job) → t.function_ ≡ f → (tell (some t) i ws j).pc ≡ (ws j).pc
    by_function none e = rw e refl
    by_function (some (user n)) e = rw e refl
    by_function (some (shut_down k)) e = rw e (elim (Bool-cases (k == i)) [
      | inl own ↦ rw own refl
      | inr other ↦ rw other (update-pc ws k (record (ws k) { shutdown = true }) refl j)
    ])

pub after_act-Hands :
    (i : ℕ) (a : Action) (v : Worker) (p : Pool)
    → may_act a (p.stolen i) ≡ true
    → Step.step a (worker i p) ≡ ok v
    → Hands p
    → Hands (after_act i a v p)
unfolding after_act
after_act-Hands i a v p may e h =
    let ws = p.scheduler.worker_threads in
    let moved : InHand (update ws i v) p.stolen = λ j t held. elim (Bool-cases (i == j)) [
      | inr other ↦ rw other (h j t held)
      | inl same ↦
          let at_j : i ≡ j = ground (arith, same) in
          let held' : p.stolen i ≡ some t = ap p.stolen at_j ∙ held in
          rw same (spinning-step a (ws i) v t (h i t held') (rw held' at may) e)
    ] in
    let o = begun a (ws i) in
    same_pc-InHand (update ws i v) (tell o i (update ws i v)) p.stolen (tell-pc o i (update ws i v))
      moved
