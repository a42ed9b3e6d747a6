-- ===== src/Pool/Teardown/Joined.antt =====
-- When the destructor of a scheduler destroys its workers, their threads have ended.
use mini_marl.Base.{
  ℕ, zero, suc, ◌+◌, ◌≤◌, ◌<◌, ◌≡◌, refl, sym, ap, ◌∙◌, subst, Bool, true, ◌||◌, List, [], ◌∷◌,
  arith, ◌==◌, Run, ok, ◌>>=◌, Bool-cases, inl, inr,
}
use mini_marl.Task.{Task}
use mini_marl.Worker.State.{
  Job, Pc, in_code, spinning, sleeping, before_run, starting, until_shutdown, until_idle, awake,
  returning, finished,
}
use mini_marl.Worker.Step.{is_unlocked}
use mini_marl.Pool.{Pool, worker, is_finished, Event, stop, step, run_events}
use mini_marl.Pool.Sound.{Sound, Allowed}
use mini_marl.Pool.Safety.{AfterRun, AllAllowed, step-Sound, start_pool-Sound}
use mini_marl.Pool.Amounts.{amount, total}
use mini_marl.Pool.Drain.{run_events_drained}
use mini_marl.Pool.Ended.{Lasts, step-Lasts}
use mini_marl.Pool.Teardown.{
  Phase, unbinding, stopping, joining, destroying, destroyed, Teardown, start_teardown, stop_next,
  go_on, Move, proceeds, binds, unbinds, goes, move, run_moves,
}

-- The workers from this one on have been joined.
abbrev joined_from : Phase → ℕ → ℕ
joined_from unbinding n = n
joined_from (stopping k) n = k
joined_from (joining k) n = suc k
joined_from (destroying _) n = 0
joined_from destroyed n = 0

abbrev Joined : Phase → Pool → Type 0
Joined phase p =
    (i : ℕ)
    → joined_from phase p.scheduler.worker_count ≤ i
    → i < p.scheduler.worker_count
    → (worker i p).pc ≡ finished

Lasts-Joined : (phase : Phase) (p p' : Pool) → Lasts p p' → Joined phase p → Joined phase p'
Lasts-Joined phase p p' l h i from low =
    l.stays i
      (h i (subst (λ n. joined_from phase n ≤ i) l.count from) (subst (λ n. i < n) l.count low))

-- What a move does to the pool: nothing, or an event.
data Moved (p p' : Pool) : Type 0 where
  rests : p' ≡ p → Moved p p'
  has_event : (e : Event) → Allowed e p → step e p ≡ ok p' → Moved p p'

record Goes (d : Teardown) (r : Run Teardown) : Type 0 where
  next : Teardown
  here : r ≡ ok next
  moved : Moved d.pool next.pool
  sound : Sound next.pool
  joined : Joined next.phase next.pool

-- The destructor or the bound threads go on, and the pool is as it was.
rests-Goes :
    (d : Teardown) (n : ℕ) (phase : Phase)
    → Sound d.pool
    → Joined phase d.pool
    → Goes d (ok (record d { by_tid_size = n; phase = phase }))
rests-Goes d n phase s h = record {
  next = record d { by_tid_size = n; phase = phase };
  here = refl;
  moved = rests refl;
  sound = s;
  joined = h;
}

event-Goes :
    (e : Event) (phase : Phase) (d : Teardown)
    → Allowed e d.pool
    → Sound d.pool
    → Joined phase d.pool
    → Goes d (step e d.pool >>= λ p. ok (record d { pool = p; phase = phase }))
event-Goes e phase d k s h =
    let (p, stepped, sound) = step-Sound e d.pool k s in
    record {
      next = record d { pool = p; phase = phase };
      here = rw stepped refl;
      moved = has_event e k stepped;
      sound = sound;
      joined = Lasts-Joined phase d.pool p (step-Lasts e d.pool p s stepped) h;
    }

finished_at : (pc : Pc) → is_finished pc ≡ true → pc ≡ finished
finished_at finished e = refl
finished_at (in_code _) e = absurd (cc)
finished_at (spinning _) e = absurd (cc)
finished_at (sleeping _ _) e = absurd (cc)
finished_at before_run e = absurd (cc)
finished_at starting e = absurd (cc)
finished_at until_shutdown e = absurd (cc)
finished_at until_idle e = absurd (cc)
finished_at (awake _) e = absurd (cc)
finished_at returning e = absurd (cc)

joining-Joined :
    (i : ℕ) (p : Pool) → (worker i p).pc ≡ finished → Joined (joining i) p → Joined (stopping i) p
joining-Joined i p e h j from low = elim (Bool-cases (i == j)) [
  | inl same ↦ let at_j : i ≡ j = ground (arith, same) in ap (λ k. (worker k p).pc) (sym at_j) ∙ e
  | inr other ↦ h j (ground (arith, other, from)) low
]

go_on-Goes :
    (phase : Phase) (d : Teardown)
    → d.phase ≡ phase
    → Sound d.pool
    → Joined phase d.pool
    → Goes d (go_on phase d)
unfolding go_on stop_next
go_on-Goes unbinding d at s h = elim (Bool-cases (d.by_tid_size == 0)) [
  | inl none_bound ↦
      let count = d.pool.scheduler.worker_count in
      rw none_bound (
        rests-Goes d d.by_tid_size (stopping count) s
          (λ i from low. absurd (omega (arith, from, low))))
  | inr some_bound ↦ rw some_bound (rests-Goes d d.by_tid_size d.phase s (rw at h))
]
go_on-Goes (stopping zero) d at s h =
    rests-Goes d d.by_tid_size (destroying d.pool.scheduler.worker_count) s h
go_on-Goes (stopping (suc i)) d at s h =
    let pc = (worker i d.pool).pc in
    elim (Bool-cases (is_unlocked pc || is_finished pc)) [
      | inl free ↦ rw free (event-Goes (stop i) (joining i) d tt s h)
      | inr held ↦ rw held (rests-Goes d d.by_tid_size d.phase s (rw at h))
    ]
go_on-Goes (joining i) d at s h = elim (Bool-cases (is_finished (worker i d.pool).pc)) [
  | inl gone ↦
      let e = finished_at (worker i d.pool).pc gone in
      rw gone (rests-Goes d d.by_tid_size (stopping i) s (joining-Joined i d.pool e h))
  | inr runs ↦ rw runs (rests-Goes d d.by_tid_size d.phase s (rw at h))
]
go_on-Goes (destroying zero) d at s h = rests-Goes d d.by_tid_size destroyed s h
go_on-Goes (destroying (suc i)) d at s h = rests-Goes d d.by_tid_size (destroying i) s h
go_on-Goes destroyed d at s h = rests-Goes d d.by_tid_size d.phase s (rw at h)

-- What the program owes at a move.
abbrev pub AllowedMove : Move → Teardown → Type 0
AllowedMove (goes e) d = Allowed e d.pool
AllowedMove _ d = Unit {0}

move-Goes :
    (m : Move) (d : Teardown)
    → AllowedMove m d
    → Sound d.pool
    → Joined d.phase d.pool
    → Goes d (move m d)
unfolding move
move-Goes proceeds d k s h = go_on-Goes d.phase d refl s h
move-Goes binds d k s h = rests-Goes d _ d.phase s h
move-Goes unbinds d k s h = rests-Goes d _ d.phase s h
move-Goes (goes e) d k s h = event-Goes e d.phase d k s h

abbrev pub AfterMove : (Teardown → Type 0) → Run Teardown → Type 0
AfterMove P (ok d) = P d
AfterMove P _ = Unit {0}

abbrev pub AllAllowedMoves : List Move → Teardown → Type 0
AllAllowedMoves [] d = Unit {0}
AllAllowedMoves (m ∷ ms) d = AllowedMove m d × AfterMove (AllAllowedMoves ms) (move m d)

-- The events of the pool in a run of moves.
record Runs (d : Teardown) (r : Run Teardown) : Type 0 where
  last : Teardown
  here : r ≡ ok last
  events : List Event
  allowed : AllAllowed events d.pool
  ran : run_events events d.pool ≡ ok last.pool
  joined : Joined last.phase last.pool

behind : (d d' : Teardown) (r : Run Teardown) → Moved d.pool d'.pool → Runs d' r → Runs d r
unfolding run_events
behind d d' r (rests same) runs = record {
  last = runs.last;
  here = runs.here;
  events = runs.events;
  allowed = subst (AllAllowed runs.events) same runs.allowed;
  ran = ap (run_events runs.events) (sym same) ∙ runs.ran;
  joined = runs.joined;
}
behind d d' r (has_event e k stepped) runs = record {
  last = runs.last;
  here = runs.here;
  events = e ∷ runs.events;
  allowed = (k, subst (AfterRun (AllAllowed runs.events)) (sym stepped) runs.allowed);
  ran = ap (λ o. o >>= run_events runs.events) stepped ∙ runs.ran;
  joined = runs.joined;
}

run_moves-Runs :
    (ms : List Move) (d : Teardown)
    → AllAllowedMoves ms d
    → Sound d.pool
    → Joined d.phase d.pool
    → Runs d (run_moves ms d)
unfolding run_moves run_events
run_moves-Runs [] d k s h = record {
  last = d;
  here = refl;
  events = [];
  allowed = tt;
  ran = refl;
  joined = h;
}
run_moves-Runs (m ∷ ms) d k s h =
    let g = move-Goes m d k.0 s h in
    let later = subst (AfterMove (AllAllowedMoves ms)) g.here k.1 in
    let runs = run_moves-Runs ms g.next later g.sound g.joined in
    rw g.here (behind d g.next _ g.moved runs)

start-Runs :
    (n bound_threads : ℕ) (ms : List Move)
    → 0 < n
    → AllAllowedMoves ms (start_teardown n bound_threads)
    → Runs (start_teardown n bound_threads) (run_moves ms (start_teardown n bound_threads))
start-Runs n bound_threads ms h k =
    run_moves-Runs ms (start_teardown n bound_threads) k (start_pool-Sound n h)
      (λ i from low. absurd (omega (arith, from, low)))

-- For a scheduler with at least one worker, and any course of its destructor, while threads bind and
-- unbind, workers and callers go on, tasks have a function and no idle fiber is notified: once the
-- destructor has returned, while no call of `enqueue` goes round its loop, the threads of all workers
-- have ended, and each task has started as often as it was given, less the times that it was queued at
-- a worker after the thread of that had ended and is still there.
pub run_moves_joined :
    (q : Task Job → Bool) (n bound_threads : ℕ) (ms : List Move) (d : Teardown)
    → 0 < n
    → AllAllowedMoves ms (start_teardown n bound_threads)
    → run_moves ms (start_teardown n bound_threads) ≡ ok d
    → d.phase ≡ destroyed
    → d.pool.pending ≡ []
    → ((i : ℕ) → i < d.pool.scheduler.worker_count → (worker i d.pool).pc ≡ finished)
      × (amount q d.pool.given
          ≡ amount q d.pool.started
            + total d.pool.scheduler.worker_count (λ i. amount q (d.pool.left i)))
run_moves_joined q n bound_threads ms d h k e at settled =
    let runs = start-Runs n bound_threads ms h k in
    let same : runs.last ≡ d = let e' = sym runs.here ∙ e in cc in
    let joined = subst (λ x. Joined x.phase x.pool) same runs.joined in
    let ran = runs.ran ∙ ap (λ x. ok x.pool) same in
    let all : (i : ℕ) → i < d.pool.scheduler.worker_count → (worker i d.pool).pc ≡ finished =
      λ i low. (rw at at joined) i (omega arith) low in
    (all, run_events_drained q n runs.events d.pool h runs.allowed ran all settled)
