-- ===== src/Worker/Safety.antt =====
-- No assertion of a worker fails, whatever the threads do.
use mini_marl.Base.{
  ℕ, ◌≡◌, refl, Bool, true, false, List, [], ◌∷◌, arith, ◌==◌, Run, ok, inl, inr, subst, leb, ◌∙◌,
}
use mini_marl.Waiting.Laws.{no_waiting-IsSynced, no_waiting-deadline, contains-deadline}
use mini_marl.Waiting.{no_waiting}
use mini_marl.Worker.State.{
  Mode, multi_threaded, single_threaded, State, Worker, start, main_fiber, active,
}
use mini_marl.Worker.Inv.{Phase, Inv, Good, how_many, fits}
use mini_marl.Worker.Step.{Action, step, run_steps}
use mini_marl.Worker.Calls.{Allowed, Succeeds}
use mini_marl.Worker.Rounds.{step-Inv, step-Ending}

-- From a good state every action that the program may take succeeds: no assertion of the worker
-- fails and nothing undefined is read, and the state that it leaves is good again.
pub step-Good : (a : Action) (w : Worker) → Good w → Allowed a w → Succeeds (step a w)
step-Good a w (inl inv) h = step-Inv a w inv h
step-Good a w (inr ending) h = step-Ending a w ending

pub start-Inv : (m : Mode) (id : ℕ) → Inv (start m id)
unfolding start how_many
start-Inv m id = record {
  core = record {
    num_sync = refl;
    valid = tt;
    synced = no_waiting-IsSynced;
    blocked_count = refl;
    each = λ g. record {
      in_queue = refl;
      in_set = refl;
      in_waiting = contains-deadline g no_waiting ∙ no_waiting-deadline g;
      fit = first_fit (g == main_fiber) (leb g 0) (ground arith);
    };
  };
  phase = first_phase m;
}
  where
    first_fit : (b c : Bool) → b ≡ c → fits b c State.running active ≡ true
    first_fit true true h = refl
    first_fit true false h = absurd (cc)
    first_fit false true h = absurd (cc)
    first_fit false false h = refl

    first_phase : (m : Mode) → Phase (start m id).pc (start m id)
    first_phase multi_threaded = refl
    first_phase single_threaded = refl

abbrev pub AfterRun : (Worker → Type 0) → Run Worker → Type 0
AfterRun P (ok v) = P v
AfterRun P _ = Unit {0}

-- The program keeps to `Allowed` at each step of a run.
abbrev pub AllAllowed : List Action → Worker → Type 0
AllAllowed [] w = Unit {0}
AllAllowed (a ∷ rest) w = Allowed a w × AfterRun (AllAllowed rest) (step a w)

run_steps-Good :
    (as_ : List Action) (w : Worker) → Good w → AllAllowed as_ w → Succeeds (run_steps as_ w)
unfolding run_steps
run_steps-Good [] w g h = (w, refl, g)
run_steps-Good (a ∷ rest) w g h =
    let (v, e, good) = step-Good a w g h.0 in
    rw e (run_steps-Good rest v good (subst (AfterRun (AllAllowed rest)) e h.1))

-- Whatever the threads do with a worker that has been started, in any interleaving in which tasks
-- have a function and `notify` is called on no idle fiber: every call and every round of the
-- worker's thread succeeds, so no assertion fails and nothing undefined is read.
pub run_steps-start :
    (m : Mode) (id : ℕ) (as_ : List Action)
    → AllAllowed as_ (start m id)
    → Succeeds (run_steps as_ (start m id))
run_steps-start m id as_ h = run_steps-Good as_ (start m id) (inl (start-Inv m id)) h
