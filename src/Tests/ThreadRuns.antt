-- ===== src/Tests/ThreadRuns.antt =====
-- Runs of a program of threads: src/thread.cpp.
use mini_marl.Base.{put, ◌≡◌, refl, [], ◌∷◌, some, abort, undefined, none}
use mini_marl.Threads.{
  Program, act, Reached, started, acted, starts, moves, ends, new_thread, move_assign, end_thread,
  set_affinity, running, deleted,
}
use mini_marl.Threads.Owner.{Owned}
use mini_marl.Threads.Laws.{Overwrites, JoinsNone, Reached-act}

-- A thread in the variable 0, restricted to the core 2, which moves to the variable 1.
abbrev moved : Program
moved = record {
  threads = record {
    next = 1;
    impl = put 0 running (λ _. deleted);
    cpu_set = put 0 (some (2 ∷ [])) (put 0 none (λ _. none));
  };
  variable = put 0 none (put 1 (some 0) (put 0 (some 0) (λ _. none)));
}

moved-Reached : Reached moved
unfolding act new_thread move_assign end_thread set_affinity
moved-Reached = acted (moves 1 0) (acted (starts 0 (2 ∷ [])) started refl) refl

Reached-act_example :
    Owned moved
    × (act (ends 1) moved ≡ abort → Overwrites (ends 1) moved)
    × (act (ends 1) moved ≡ undefined → JoinsNone (ends 1) moved)
Reached-act_example = Reached-act (ends 1) moved-Reached
