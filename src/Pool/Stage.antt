-- ===== src/Pool/Stage.antt =====
-- What the events of a theft do to two workers of a pool.
use mini_marl.Base.{
  ℕ, ◌%◌, ◌<◌, ◌≡◌, ◌≢◌, refl, sym, ◌∙◌, ap, Bool, true, false, not, ◌&&◌, ◌||◌, List, ◌∷◌, Option,
  none, some, arith, ltb, ◌==◌, ok,
}
use native.Mathlib.Nat.{mod-eq_of_lt}
use mini_marl.Task.{Task}
use mini_marl.Worker.State.{
  Job, Caller, Pc, in_code, spinning, sleeping, before_run, starting, until_shutdown, until_idle,
  awake, returning, finished, Worker, update,
}
use mini_marl.Worker.Queues.{enqueue_task, accept_stolen, steal}
use mini_marl.Worker.Step
use mini_marl.Worker.Step.{Action, wakes, spun, advances, is_unlocked}
use mini_marl.Worker.Begins.{begun}
use mini_marl.Scheduler.{Scheduler, on_begin_spinning}
use mini_marl.Scheduler.Laws.{update-here, update-elsewhere}
use mini_marl.Pool.{
  Pool, worker, Event, stop, steal_from, accept, act, hand, stop_task, stop_worker, steal_by,
  accept_by, begin_spinning, tell, after_act, act_worker, may_act, step_in, step, alert, with_task,
  is_spinning, is_finished,
}

unlocked-is_finished : (pc : Pc) → is_unlocked pc ≡ true → is_finished pc ≡ false
unlocked-is_finished (in_code _) u = refl
unlocked-is_finished (spinning _) u = refl
unlocked-is_finished (sleeping _ _) u = refl
unlocked-is_finished before_run u = refl
unlocked-is_finished starting u = absurd (cc)
unlocked-is_finished until_shutdown u = absurd (cc)
unlocked-is_finished until_idle u = absurd (cc)
unlocked-is_finished (awake _) u = absurd (cc)
unlocked-is_finished returning u = absurd (cc)
unlocked-is_finished finished u = absurd (cc)

module _ (i j : ℕ) (apart : j ≢ i) where
  count_lt :
      (k : ℕ) (b : Bool) (l : ℕ) (s : Scheduler)
      → k < s.worker_count
      → k < (begin_spinning b l s).worker_count
  unfolding begin_spinning
  count_lt k true l s h = unfold on_begin_spinning in h
  count_lt k false l s h = h

  -- What a pool is at two of its workers.
  pub record Stage (p : Pool) (wi wj : Worker) (o : Option (Task Job)) (told_ : Bool)
      (done : List (Task Job)) : Type 0 where
    pub i_there : i < p.scheduler.worker_count
    pub j_there : j < p.scheduler.worker_count
    pub at_i : worker i p ≡ wi
    pub at_j : worker j p ≡ wj
    pub in_hand : p.stolen j ≡ o
    pub notified : p.notified i ≡ told_
    pub started : p.started ≡ done

  abbrev pub Goes :
      Event → Pool → Worker → Worker → Option (Task Job) → Bool → List (Task Job) → Type 0
  Goes e p wi wj o b ts = (q : Pool) × (step e p ≡ ok q) × Stage q wi wj o b ts

  pub stop-Stage :
      (p : Pool) (wi wj : Worker) (b : Bool) (ts : List (Task Job))
      → is_unlocked wi.pc ≡ true
      → Stage p wi wj none b ts
      → Goes
          (stop i)
          p
          (enqueue_task (stop_task i) wi).0
          wj
          none
          (b || (enqueue_task (stop_task i) wi).1)
          ts
  unfolding step step_in stop_worker
  stop-Stage p wi wj b ts u s =
      let r = enqueue_task (stop_task i) (worker i p) in
      let there : ltb i p.scheduler.worker_count ≡ true = ground (arith, s.i_there) in
      let free : is_unlocked (worker i p).pc ≡ true = rw s.at_i u in
      (
        record (hand i r p) { given = stop_task i ∷ p.given },
        rw (there, free) refl,
        record {
          i_there = s.i_there;
          j_there = s.j_there;
          at_i =
              update-here p.scheduler.worker_threads i r.0
              ∙ ap (λ w. (enqueue_task (stop_task i) w).0) s.at_i;
          at_j = update-elsewhere p.scheduler.worker_threads i j r.0 apart ∙ s.at_j;
          in_hand = s.in_hand;
          notified = update-here p.notified i (p.notified i || r.1) ∙ rw (s.notified, s.at_i) refl;
          started = s.started;
        },
      )

  pub steal-Stage :
      (p : Pool) (wi wi' wj : Worker) (c : Caller) (t : Task Job) (b : Bool) (ts : List (Task Job))
      → is_unlocked wi.pc ≡ true
      → wj.pc ≡ spinning c
      → steal true wi ≡ (wi', some t)
      → Stage p wi wj none b ts
      → Goes (steal_from j i true) p wi' wj (some t) b ts
  unfolding step step_in steal_by
  steal-Stage p wi wi' wj c t b ts u spins stolen s =
      let r = steal true (worker i p) in
      let there : ltb j p.scheduler.worker_count ≡ true = ground (arith, s.j_there) in
      let at_spin : (worker j p).pc ≡ spinning c = ap (λ w. w.pc) s.at_j ∙ spins in
      let free : is_unlocked (worker i p).pc ≡ true = rw s.at_i u in
      let alive = unlocked-is_finished (worker i p).pc free in
      let victim : i % p.scheduler.worker_count ≡ i = mod-eq_of_lt s.i_there in
      let other : (i == j) ≡ false = ground (arith, apart) in
      let some_worker : ltb 0 p.scheduler.worker_count ≡ true = ground (arith, s.i_there) in
      let took : r ≡ (wi', some t) = ap (steal true) s.at_i ∙ stolen in
      (
        record p {
          scheduler = record p.scheduler {
            worker_threads = update p.scheduler.worker_threads i r.0;
          };
          stolen = update p.stolen j r.1;
        },
        rw (there, at_spin, s.in_hand, victim, free, alive, some_worker, other) refl,
        record {
          i_there = s.i_there;
          j_there = s.j_there;
          at_i = update-here p.scheduler.worker_threads i r.0 ∙ ap (λ o. o.0) took;
          at_j = update-elsewhere p.scheduler.worker_threads i j r.0 apart ∙ s.at_j;
          in_hand = update-here p.stolen j r.1 ∙ ap (λ o. o.1) took;
          notified = s.notified;
          started = s.started;
        },
      )

  pub accept-Stage :
      (p : Pool) (wi wj : Worker) (c : Caller) (t : Task Job) (b : Bool) (ts : List (Task Job))
      → wj.pc ≡ spinning c
      → Stage p wi wj (some t) b ts
      → Goes (accept j) p wi (accept_stolen t wj) none b ts
  unfolding step step_in accept_by
  accept-Stage p wi wj c t b ts spins s =
      let v = accept_stolen t (worker j p) in
      let there : ltb j p.scheduler.worker_count ≡ true = ground (arith, s.j_there) in
      let at_spin : (worker j p).pc ≡ spinning c = ap (λ w. w.pc) s.at_j ∙ spins in
      (
        record p {
          scheduler = record p.scheduler { worker_threads = update p.scheduler.worker_threads j v };
          stolen = update p.stolen j none;
        },
        rw there (
            ap (λ pc. ok (accept_by pc (p.stolen j) j p)) at_spin
            ∙ ap (λ o. ok (accept_by (spinning c) o j p)) s.in_hand),
        record {
          i_there = s.i_there;
          j_there = s.j_there;
          at_i = update-elsewhere p.scheduler.worker_threads j i v (λ e. apart (sym e)) ∙ s.at_i;
          at_j = update-here p.scheduler.worker_threads j v ∙ ap (accept_stolen t) s.at_j;
          in_hand = update-here p.stolen j none;
          notified = s.notified;
          started = s.started;
        },
      )

  -- The thread of the sleeping worker wakes.
  pub wake-Stage :
      (p : Pool) (wi wi' wj : Worker) (o : Option (Task Job)) (b : Bool) (ts : List (Task Job))
      (clock now : ℕ)
      → Step.step (wakes clock now) wi ≡ ok wi'
      → Stage p wi wj o b ts
      → Goes (act i (wakes clock now)) p wi' wj o false ts
  unfolding step step_in act_worker after_act begun alert tell begin_spinning
  wake-Stage p wi wi' wj o b ts clock now e s =
      let there : ltb i p.scheduler.worker_count ≡ true = ground (arith, s.i_there) in
      let stepped : Step.step (wakes clock now) (worker i p) ≡ ok wi' =
        ap (Step.step (wakes clock now)) s.at_i ∙ e in
      (
        after_act i (wakes clock now) wi' p,
        rw (there, stepped) refl,
        record {
          i_there =
              count_lt i (not (is_spinning (worker i p).pc) && is_spinning wi'.pc) i p.scheduler
                s.i_there;
          j_there =
              count_lt j (not (is_spinning (worker i p).pc) && is_spinning wi'.pc) i p.scheduler
                s.j_there;
          at_i = update-here p.scheduler.worker_threads i wi';
          at_j = update-elsewhere p.scheduler.worker_threads i j wi' apart ∙ s.at_j;
          in_hand = s.in_hand;
          notified = update-here p.notified i false;
          started = s.started;
        },
      )

  -- The thread of the thief goes on; `f` is what it does to the other worker.
  pub act-Stage :
      (p : Pool) (wi wj wj' : Worker) (o called : Option (Task Job)) (b : Bool)
      (ts : List (Task Job)) (a : Action) (f : Worker → Worker)
      → may_act a o ≡ true
      → begun a wj ≡ called
      → ((ws : ℕ → Worker) → tell called j ws i ≡ f (ws i))
      → ((ws : ℕ → Worker) → tell called j ws j ≡ ws j)
      → Step.step a wj ≡ ok wj'
      → Stage p wi wj o b ts
      → Goes (act j a) p (f wi) wj' o b (with_task called ts)
  unfolding step step_in act_worker after_act
  act-Stage p wi wj wj' o called b ts a f may calls at_other at_self e s =
      let there : ltb j p.scheduler.worker_count ≡ true = ground (arith, s.j_there) in
      let stepped : Step.step a (worker j p) ≡ ok wj' = ap (Step.step a) s.at_j ∙ e in
      let allowed : may_act a (p.stolen j) ≡ true = ap (may_act a) s.in_hand ∙ may in
      let calls' : begun a (worker j p) ≡ called = ap (begun a) s.at_j ∙ calls in
      let spins = not (is_spinning (worker j p).pc) && is_spinning wj'.pc in
      let ws = update p.scheduler.worker_threads j wj' in
      let back : i ≢ j = λ e. apart (sym e) in
      (
        after_act j a wj' p,
        rw (there, allowed, stepped) refl,
        record {
          i_there = count_lt i spins j p.scheduler s.i_there;
          j_there = count_lt j spins j p.scheduler s.j_there;
          at_i =
              ap (λ c. tell c j ws i) calls'
              ∙ at_other ws
              ∙ ap f (update-elsewhere p.scheduler.worker_threads j i wj' back ∙ s.at_i);
          at_j =
              ap (λ c. tell c j ws j) calls'
              ∙ at_self ws
              ∙ update-here p.scheduler.worker_threads j wj';
          in_hand = s.in_hand;
          notified =
              update-elsewhere p.notified j i (alert a (p.notified j) (worker j p)) back
              ∙ s.notified;
          started = ap (λ c. with_task c p.started) calls' ∙ ap (with_task called) s.started;
        },
      )

  pub tell_stop :
      (ws : ℕ → Worker) → tell (some (stop_task i)) j ws i ≡ record (ws i) { shutdown = true }
  unfolding tell
  tell_stop ws =
      let other : (i == j) ≡ false = ground (arith, apart) in
      rw other (update-here ws i (record (ws i) { shutdown = true }))

  pub tell_self : (ws : ℕ → Worker) → tell (some (stop_task i)) j ws j ≡ ws j
  unfolding tell
  tell_self ws =
      let other : (i == j) ≡ false = ground (arith, apart) in
      rw other (update-elsewhere ws i j (record (ws i) { shutdown = true }) apart)
