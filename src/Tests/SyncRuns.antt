-- ===== src/Tests/SyncRuns.antt =====
-- Runs of the synchronisation primitives: include/marl/condition_variable.hpp, wait_group.hpp, event.hpp.
use mini_marl.Base.{ℕ, ◌<◌, ◌≡◌, refl, true, false, [], ◌∷◌, arith, count, Run, ok, ◌>>=◌}
use mini_marl.Sync.Condition.{
  ConditionVariable, Waits, none_yet, fiber_enters, thread_enters, enter_fiber, enter_thread,
  notify_all, Waits-notify_all,
}
use mini_marl.Sync.WaitGroup.{
  WaitGroup, Reached, made, decrements, notifies, checks, parks, make, decrement, check, park,
  notify, resume, Reached-resume,
}
use mini_marl.Sync.Event.{
  Wake, one, all, Mode, auto, manual, Shared, Store, signal, test, is_signalled, any, link,
}
use mini_marl.Sync.Event
use mini_marl.Sync.Event.Laws.{
  Signals, Made, none_made, makes, makes_any, no_events, signal-Signals,
}

abbrev waiting_two : ConditionVariable
waiting_two = record { waiting_ = 5 ∷ []; num_waiting_ = 2; num_waiting_on_condition = 1 }

two_wait : Waits (5 ∷ []) 1 waiting_two
unfolding enter_fiber enter_thread
two_wait = thread_enters (fiber_enters 5 none_yet)

Waits-notify_all_example : notify_all waiting_two ≡ record { fibers = 5 ∷ []; condition = true }
Waits-notify_all_example = Waits-notify_all two_wait

-- Fiber 3 waits for a group of one, and `done` ends.
abbrev waited : WaitGroup
waited = park 3 (check 3 (make 1))

abbrev over : WaitGroup
over = record waited { counter = 0; zeroed = 1 }

over-Reached : Reached (notify over)
unfolding make check park decrement enter_fiber
over-Reached =
    notifies (decrements true (parks 3 (checks 3 (made 1) refl refl) refl) refl) refl (omega arith)

Reached-resume_example :
    ((notify over).notified 3 ≡ true) × (count 3 (resume 3 (notify over)).cv.waiting_ ≡ 0)
unfolding make check park notify enter_fiber
Reached-resume_example = Reached-resume 3 over-Reached refl refl (omega arith)

-- Event 0 is in auto mode, and event 1 is any of it, in manual mode.
store_of : Store → Run (ℕ × Store) → Store
store_of s (ok r) = r.1
store_of s _ = s

one_event : Store
unfolding Event.make
one_event = (Event.make auto false no_events).1

two_events : Store
unfolding any link one_event store_of
two_events = store_of one_event (any manual (0 ∷ []) one_event)

two_events-Made : Made two_events
unfolding two_events
two_events-Made =
    makes_any manual (0 ∷ []) 1 two_events (makes auto false none_made) (λ i h. ground (arith, h))
      refl

made_by_any : (two_events.event 0).deps ≡ 1 ∷ []
unfolding two_events
made_by_any = refl

-- A signal of event 0 wakes a waiter of it and all those of event 1, and is taken once.
signal_runs : (signal 2 0 two_events >>= λ s. ok (s.wakes)) ≡ ok (all 1 ∷ one 0 ∷ [])
unfolding signal two_events
signal_runs = refl

signal-Signals_example :
    (s' : Store) × (signal 2 0 two_events ≡ ok s')
    × Signals two_events s'
    × ((s'.event 0).signalled ≡ true)
    × ((two_events.event 0).signalled ≡ false
        → (d : ℕ) → 0 < count d (two_events.event 0).deps
        → (s'.event d).signalled ≡ true)
unfolding two_events
signal-Signals_example = signal-Signals 2 0 two_events two_events-Made (omega arith) (omega arith)
