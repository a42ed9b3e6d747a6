-- ===== src/Pool/Safety.antt =====
-- No assertion of a worker of the pool fails, whatever the threads and the callers do.
use mini_marl.Base.{
  ℕ, ◌<◌, ◌≡◌, refl, sym, ap, subst, Bool, true, false, ◌&&◌, List, [], ◌∷◌, Option, none, some,
  ltb→lt, pick, not, Run, ok, Bool-cases, inl, inr,
}
use mini_marl.Task.{Task, is, same_thread, is_valid}
use mini_marl.Worker.State.{multi_threaded, Caller, Job, Pc, in_code, spinning, Worker, update}
use mini_marl.Worker.Queues.{enqueue_task, accept_stolen}
use mini_marl.Worker.Step
use mini_marl.Worker.Step.{Action, is_unlocked, told, accepts, accepted}
use mini_marl.Worker.Inv.{Good}
use mini_marl.Worker.Calls
use mini_marl.Worker.Calls.{enqueue_task-Inv, steal-Inv}
use mini_marl.Worker.Safety.{step-Good, start-Inv}
use mini_marl.Worker.Begins.{begun}
use mini_marl.Pool.{
  Pool, worker, start_pool, Event, call, try_worker, call_here, stop, steal_from, accept, act, hand,
  call_enqueue, try_next, enqueue_here, stop_task, stop_worker, accept_by, is_spinning, after_act,
  act_worker, may_act, is_there, step_in, step, run_events,
}
use mini_marl.Pool.Sound.{
  Sound, Allowed, Ends, update-Good, tell-Good, spinning-Valid, pick-AllValid,
}
use mini_marl.Pool.Moves.{update-stolen, enqueue-Sound, round-Sound, steal_by-Sound}

try_next-Sound :
    (k : ℕ) (locked : Bool) (p : Pool) → Sound p → Sound (try_next (pick k p.pending) locked p)
try_next-Sound k locked p s = chosen (pick k p.pending) refl
  where
    chosen :
        (o : Option (Task Job × List (Task Job)))
        → pick k p.pending ≡ o
        → Sound (try_next o locked p)
    chosen none e = unfold try_next in s
    chosen (some (t, rest)) e =
        let (h, k) = pick-AllValid k p.pending rest t e s.pending_valid in
        unfold try_next in round-Sound locked t rest p h k s

-- The histories play no part in what is sound.
given-Sound : (ts : List (Task Job)) (p : Pool) → Sound p → Sound (record p { given = ts })
given-Sound ts p s = record {
  valid = s.valid;
  good = s.good;
  pending_valid = s.pending_valid;
  left_valid = s.left_valid;
  stolen_valid = s.stolen_valid;
}

enqueue_here-Sound :
    (pc : Pc) (b : Bool) (i : ℕ) (t : Task Job) (p : Pool)
    → (worker i p).pc ≡ pc
    → is_valid t ≡ true
    → Sound p
    → Sound (enqueue_here pc b i t p)
unfolding enqueue_here
enqueue_here-Sound (in_code c) true i t p e h s =
    given-Sound (t ∷ p.given) (hand i (enqueue_task t (worker i p)) p)
      (enqueue-Sound i t p h (rw e refl) s)
enqueue_here-Sound _ _ i t p e h s = s

stop_worker-Sound :
    (b : Bool) (i : ℕ) (p : Pool)
    → is_unlocked (worker i p).pc ≡ b
    → Sound p
    → Sound (stop_worker b i p)
unfolding stop_worker
stop_worker-Sound true i p u s =
    given-Sound (stop_task i ∷ p.given) (hand i (enqueue_task (stop_task i) (worker i p)) p)
      (enqueue-Sound i (stop_task i) p (unfold is_valid in refl) u s)
stop_worker-Sound false i p u s = s

accept_stolen-Good :
    (c : Caller) (t : Task Job) (w : Worker)
    → w.pc ≡ spinning c
    → is_valid t ≡ true
    → Good w
    → Good (accept_stolen t w)
accept_stolen-Good c t w e h g =
    let (v, stepped, good) = step-Good (accepts t) w g h in
    let stepped' : ok (accepted w.pc t w) ≡ ok v = unfold Step.step in stepped in
    let at_spin : accepted w.pc t w ≡ accept_stolen t w =
      unfold accepted in ap (λ pc. accepted pc t w) e in
    let same : accept_stolen t w ≡ v = cc in subst Good (sym same) good

accept_by-Sound :
    (pc : Pc) (o : Option (Task Job)) (i : ℕ) (p : Pool)
    → (worker i p).pc ≡ pc
    → p.stolen i ≡ o
    → Sound p
    → Sound (accept_by pc o i p)
unfolding accept_by
accept_by-Sound (spinning c) (some t) i p e found s = record {
  valid = record { spins = s.valid.spins; some_worker = s.valid.some_worker };
  good =
      update-Good p.scheduler.worker_threads i _ s.good
        (accept_stolen-Good c t (worker i p) e (s.stolen_valid i t found) (s.good i));
  pending_valid = s.pending_valid;
  left_valid = s.left_valid;
  stolen_valid = update-stolen p.stolen i none s.stolen_valid (λ t e. absurd (cc));
}
accept_by-Sound _ _ i p e found s = s

after_act-Sound :
    (i : ℕ) (a : Action) (v : Worker) (p : Pool)
    → i < p.scheduler.worker_count
    → Good v
    → Sound p
    → Sound (after_act i a v p)
unfolding after_act
after_act-Sound i a v p h g s =
    let w = worker i p in
    let spins = not (is_spinning w.pc) && is_spinning v.pc in
    let more = spinning-Valid spins i p.scheduler h s.valid in
    record {
      valid = record { spins = more.spins; some_worker = more.some_worker };
      good =
          tell-Good (begun a w) i (update p.scheduler.worker_threads i v)
            (update-Good p.scheduler.worker_threads i v s.good g);
      pending_valid = s.pending_valid;
      left_valid = s.left_valid;
      stolen_valid = s.stolen_valid;
    }

act_worker-Sound :
    (b : Bool) (i : ℕ) (a : Action) (p : Pool)
    → i < p.scheduler.worker_count
    → Calls.Allowed a (worker i p)
    → Sound p
    → Ends (act_worker b i a p)
unfolding act_worker
act_worker-Sound false i a p h k s = (p, refl, s)
act_worker-Sound true i a p h k s =
    let (v, e, g) = step-Good a (worker i p) (s.good i) k in
    rw e (after_act i a v p, refl, after_act-Sound i a v p h g s)

call_enqueue-Sound :
    (b : Bool) (t : Task Job) (p : Pool) → is_valid t ≡ true → Sound p → Sound (call_enqueue b t p)
unfolding call_enqueue
call_enqueue-Sound true t p h s = s
call_enqueue-Sound false t p h s = record {
  valid = s.valid;
  good = s.good;
  pending_valid = (h, s.pending_valid);
  left_valid = s.left_valid;
  stolen_valid = s.stolen_valid;
}

step_in-Sound :
    (e : Event) (p : Pool)
    → is_there e p.scheduler.worker_count ≡ true
    → Allowed e p
    → Sound p
    → Ends (step_in e p)
unfolding step_in
step_in-Sound (call t) p there h s = (_, refl, call_enqueue-Sound (is t same_thread) t p h s)
step_in-Sound (try_worker k locked) p there h s = (_, refl, try_next-Sound k locked p s)
step_in-Sound (call_here i t) p there h s =
    (_, refl, enqueue_here-Sound (worker i p).pc (is t same_thread) i t p refl h s)
step_in-Sound (stop i) p there h s =
    (_, refl, stop_worker-Sound (is_unlocked (worker i p).pc) i p refl s)
step_in-Sound (steal_from i from locked) p there h s =
    (_, refl, steal_by-Sound (worker i p).pc (p.stolen i) i from locked p s)
step_in-Sound (accept i) p there h s =
    (_, refl, accept_by-Sound (worker i p).pc (p.stolen i) i p refl refl s)
step_in-Sound (act i a) p there h s =
    act_worker-Sound (may_act a (p.stolen i)) i a p (ltb→lt i p.scheduler.worker_count there) h s

pub step-Sound : (e : Event) (p : Pool) → Allowed e p → Sound p → Ends (step e p)
unfolding step
step-Sound e p h s = elim (Bool-cases (is_there e p.scheduler.worker_count)) [
  | inl there ↦ rw there (step_in-Sound e p there h s)
  | inr not_there ↦ rw not_there (p, refl, s)
]

abbrev pub AfterRun : (Pool → Type 0) → Run Pool → Type 0
AfterRun P (ok q) = P q
AfterRun P _ = Unit {0}

-- The program keeps to its duties at each event.
abbrev pub AllAllowed : List Event → Pool → Type 0
AllAllowed [] p = Unit {0}
AllAllowed (e ∷ es) p = Allowed e p × AfterRun (AllAllowed es) (step e p)

run_events-Sound : (es : List Event) (p : Pool) → AllAllowed es p → Sound p → Ends (run_events es p)
unfolding run_events
run_events-Sound [] p h s = (p, refl, s)
run_events-Sound (e ∷ es) p h s =
    let (q, stepped, sound) = step-Sound e p h.0 s in
    rw stepped (run_events-Sound es q (subst (AfterRun (AllAllowed es)) stepped h.1) sound)

pub start_pool-Sound : (n : ℕ) → 0 < n → Sound (start_pool n)
unfolding start_pool
start_pool-Sound n h = record {
  valid = record { spins = λ i id e. absurd (cc); some_worker = h };
  good = λ i. inl (start-Inv multi_threaded i);
  pending_valid = tt;
  left_valid = λ i. tt;
  stolen_valid = λ i t e. absurd (cc);
}

-- For a pool of at least one worker, and any sequence of its events in which tasks have a function and
-- `notify` is called on no idle fiber: every event succeeds, so no assertion of a worker fails and
-- nothing undefined is read; and afterwards every worker is in a good state, and each task in a call
-- of `enqueue` or in the hand of a thief has a function.
pub run_events-start :
    (n : ℕ) (es : List Event)
    → 0 < n
    → AllAllowed es (start_pool n)
    → Ends (run_events es (start_pool n))
run_events-start n es h k = run_events-Sound es (start_pool n) k (start_pool-Sound n h)
