-- ===== src/Worker/Timeouts.antt =====
-- What `enqueueFiberTimeouts` does with the fibers that wait.
use mini_marl.Base.{
  ℕ, zero, suc, ◌+◌, ◌≤◌, ◌<◌, ◌≡◌, refl, sym, ap, ◌∙◌, Bool, true, false, not, ◌&&◌, List, [], ◌∷◌,
  ◌++◌, Option, none, some, arith, leb, ◌==◌, ind, count, length, count-append, Run, ok, Bool-cases,
  inl, inr,
}
use mathlib.Core.List.{append-nil, append_assoc}
use mini_marl.Waiting
use mini_marl.Waiting.{WaitingFibers}
use mini_marl.Waiting.Sync.{IsSynced}
use mini_marl.Waiting.Laws.{deadline, contains-deadline, take_lem, Takes, take-length}
use mini_marl.Worker.State.{State, Worker, change_fiber_state, set_fiber_state}
use mini_marl.Worker.Queues.{queue_taken, enqueue_timeouts, enqueue_fiber_timeouts}
use mini_marl.Worker.Queueing.{queue_up, queue_up-Core}
use mini_marl.Worker.Inv.{Core, Inv}

abbrev pub is_due : ℕ → Option ℕ → Bool
is_due now none = false
is_due now (some s) = leb s now

-- `v` is `w` after the fibers that are due at `now` have been queued: nobody who still waits is due, and
-- who was not due keeps its deadline; who was due is in the state Queued, and stands in the queue once
-- more than before, behind those that were there; nobody else is queued or changes its state, and the
-- counter grows as the queue does.
pub record TimedOut (now : ℕ) (w v : Worker) : Type 0 where
  pub later : (g s : ℕ) → deadline g v.waiting ≡ some s → now < s
  pub kept : (g s : ℕ) → deadline g w.waiting ≡ some s → now < s → deadline g v.waiting ≡ some s
  pub due : (g s : ℕ) → deadline g w.waiting ≡ some s → s ≤ now → v.state g ≡ State.queued
  pub others : (g : ℕ) → is_due now (deadline g w.waiting) ≡ false → v.state g ≡ w.state g
  pub queued :
      (g : ℕ) → count g v.fibers ≡ count g w.fibers + ind (is_due now (deadline g w.waiting))
  pub behind : (fs : List ℕ) × (v.fibers ≡ w.fibers ++ fs) × (v.num ≡ w.num + length fs)
  pub same_tasks : v.tasks ≡ w.tasks

abbrev Ends : ℕ → Worker → Run Worker → Type 0
Ends now w r = (v : Worker) × (r ≡ ok v) × TimedOut now w v

not_due : (now : ℕ) (o : Option ℕ) → ((s : ℕ) → o ≡ some s → now < s) → is_due now o ≡ false
not_due now none h = refl
not_due now (some s) h = ground (arith, h s refl)

count_behind : (f g : ℕ) (fs : List ℕ) → count g (fs ++ f ∷ []) ≡ count g fs + ind (f == g)
count_behind f g fs = ground (arith, count-append g fs (f ∷ []))

queue_taken-Ends :
    (loop : Worker → Run Worker) (now : ℕ) (r : Option ℕ) (waiting' : WaitingFibers) (w : Worker)
    → Core w
    → Waiting.take now w.waiting ≡ ok (r, waiting')
    → IsSynced waiting'
    → Takes now w.waiting r waiting'
    → ((v : Worker)
        → Core v
        → suc (length v.waiting.timeouts) ≡ length w.waiting.timeouts
        → Ends now v (loop v))
    → Ends now w (queue_taken loop r waiting' w)
unfolding queue_taken change_fiber_state set_fiber_state
queue_taken-Ends loop now none waiting' w c taken synced outcome rest = (
  w,
  ground (arith, outcome.0),
  record {
    later = outcome.1;
    kept = λ g s e h. e;
    due = λ g s e h. absurd (omega (arith, outcome.1 g s e));
    others = λ g e. refl;
    queued =
        λ g. omega (arith, ap ind (not_due now (deadline g w.waiting) (λ s e. outcome.1 g s e)));
    behind = ([], sym (append-nil w.fibers), omega arith);
    same_tasks = refl;
  },
)
queue_taken-Ends loop now (some f) waiting' w c taken synced outcome rest =
    let waits : w.state f ≡ State.waiting =
      ground (arith, c.each f, contains-deadline f w.waiting, outcome.1) in
    let gone : (g : ℕ)
        → Waiting.contains g waiting' ≡ (not (f == g) && Waiting.contains g w.waiting) =
      λ g.
        ground (arith, contains-deadline g waiting', contains-deadline g w.waiting, outcome.4 g) in
    let own_due : (g : ℕ) → (f == g) ≡ true → is_due now (deadline g w.waiting) ≡ true = λ g same.
      let at_g : f ≡ g = ground (arith, same) in
      ap (λ k. is_due now (deadline k w.waiting)) (sym at_g)
      ∙ ap (is_due now) outcome.1
      ∙ ground (arith, outcome.2) in
    let core = queue_up-Core w f waiting' (rw waits) (rw waits) c synced gone in
    let (v, e, t) =
      rest (queue_up f waiting' w) core (take-length now f w.waiting waiting' taken) in
    (
      v,
      rw waits e,
      record {
        later = t.later;
        kept = λ g s p h. t.kept g s (ground (arith, outcome.4 g, outcome.1, outcome.2)) h;
        due = λ g s p h. elim (Bool-cases (f == g)) [
          | inl same ↦ t.others g (rw (outcome.4 g, same) refl) ∙ rw same refl
          | inr other ↦ t.due g s (ground (arith, outcome.4 g)) h
        ];
        others = λ g p. elim (Bool-cases (f == g)) [
          | inl same ↦ absurd (let k = own_due g same in cc)
          | inr other ↦ t.others g (rw (outcome.4 g, other) p) ∙ rw other refl
        ];
        queued = λ g. t.queued g ∙ elim (Bool-cases (f == g)) [
          | inl same ↦
              let more : count g (w.fibers ++ f ∷ []) ≡ count g w.fibers + 1 =
                count_behind f g w.fibers ∙ ap (λ b. count g w.fibers + ind b) same in
              rw (outcome.4 g, same, own_due g same) (omega (arith, more))
          | inr other ↦
              let kept : count g (w.fibers ++ f ∷ []) ≡ count g w.fibers + 0 =
                count_behind f g w.fibers ∙ ap (λ b. count g w.fibers + ind b) other in
              rw (outcome.4 g, other) (omega (arith, kept))
        ];
        behind =
            let (fs, e', n) = t.behind in
            (f ∷ fs, e' ∙ append_assoc w.fibers (f ∷ []) fs, omega (arith, n));
        same_tasks = t.same_tasks;
      },
    )

enqueue_timeouts-Ends :
    (fuel now : ℕ) (w : Worker)
    → Core w
    → length w.waiting.timeouts < fuel
    → Ends now w (enqueue_timeouts fuel now w)
unfolding enqueue_timeouts
enqueue_timeouts-Ends zero now w c h = elim h [ ]
enqueue_timeouts-Ends (suc fuel) now w c h =
    let (r, waiting', taken, synced, outcome) = take_lem now w.waiting c.synced in
    rw taken (
      queue_taken-Ends (enqueue_timeouts fuel now) now r waiting' w c taken synced outcome
        (λ v core shorter. enqueue_timeouts-Ends fuel now v core (omega arith)))

-- In a worker that satisfies its invariant `enqueueFiberTimeouts` ends, and puts each fiber that waited
-- and whose time has come once into the queue, behind those that were there, and no other; the counter
-- grows by as many. Those with a later deadline still wait, with the deadline that they had, and no other
-- fiber changes its state.
pub enqueue_fiber_timeouts-TimedOut :
    (now : ℕ) (w : Worker)
    → Inv w
    → (v : Worker) × (enqueue_fiber_timeouts now w ≡ ok v) × TimedOut now w v
unfolding enqueue_fiber_timeouts
enqueue_fiber_timeouts-TimedOut now w inv =
    enqueue_timeouts-Ends (suc (length w.waiting.timeouts)) now w inv.core (omega arith)
