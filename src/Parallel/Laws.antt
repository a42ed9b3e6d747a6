-- ===== src/Parallel/Laws.antt =====
-- What a call of `parallelize` runs.
use mini_marl.Base.{
  ℕ, ◌+◌, ◌-◌, ◌≤◌, ◌≡◌, ◌∙◌, refl, sym, ap, subst, Bool, true, false, List, [], ◌∷◌, Option, none,
  some, arith, ltb, ◌==◌, length, count, ind, pick, sum_over, sum_over-pick, Run, ok, Bool-cases,
  inl, inr,
}
use mini_marl.Parallel.{
  Scheduled, pending, called, Caller, scheduling, waiting, returned, Exec, begin_call, call_step,
  task_step, step, Reached, started, stepped,
}

-- How often a task, and the caller, will still call `x`.
abbrev to_call : ℕ → Scheduled → ℕ
to_call x (pending f) = ind (f == x)
to_call x called = 0

abbrev caller_calls : ℕ → ℕ → Caller → ℕ
caller_calls f0 x (scheduling fn) = count x fn + ind (f0 == x)
caller_calls f0 x waiting = 0
caller_calls f0 x returned = 0

-- The functions that have not been scheduled.
abbrev unscheduled : Caller → ℕ
unscheduled (scheduling fn) = length fn
unscheduled waiting = 0
unscheduled returned = 0

abbrev is_returned : Caller → Bool
is_returned (scheduling fn) = false
is_returned waiting = false
is_returned returned = true

module _ (f0 : ℕ) (fn : List ℕ) where
  record Inv (e : Exec) : Type 0 where
    calls :
        (x : ℕ)
        → count x e.ran + sum_over (to_call x) e.tasks + caller_calls f0 x e.caller
          ≡ count x (f0 ∷ fn)
    counted : e.counter ≡ sum_over (λ t. 1) e.tasks + unscheduled e.caller
    over : is_returned e.caller ≡ true → e.counter ≡ 0

  abbrev Keeps : Run Exec → Type 0
  Keeps r = (e : Exec) × (r ≡ ok e) × Inv e

  start-Inv : Inv (begin_call fn)
  unfolding begin_call
  start-Inv = record { calls = λ x. omega arith; counted = omega arith; over = λ h. absurd (cc) }

  call_step-Inv : (e : Exec) (c : Caller) → e.caller ≡ c → Inv e → Keeps (call_step true f0 c e)
  unfolding call_step
  call_step-Inv e (scheduling (f ∷ gs)) at i = (
    record e { caller = scheduling gs; tasks = pending f ∷ e.tasks },
    refl,
    record {
      calls = λ x. omega (arith, i.calls x, ap (caller_calls f0 x) at);
      counted = omega (arith, i.counted, ap unscheduled at);
      over = λ h. absurd (cc);
    },
  )
  call_step-Inv e (scheduling []) at i = (
    record e { caller = waiting; ran = f0 ∷ e.ran },
    refl,
    record {
      calls = λ x. omega (arith, i.calls x, ap (caller_calls f0 x) at);
      counted = omega (arith, i.counted, ap unscheduled at);
      over = λ h. absurd (cc);
    },
  )
  call_step-Inv e waiting at i = elim (Bool-cases (e.counter == 0)) [
    | inl done ↦ (
      record e { caller = returned },
      rw done refl,
      record {
        calls = λ x. omega (arith, i.calls x, ap (caller_calls f0 x) at);
        counted = omega (arith, i.counted, ap unscheduled at);
        over = λ h. ground (arith, done);
      },
    )
    | inr tasks ↦ (e, rw tasks refl, i)
  ]
  call_step-Inv e returned at i = (e, refl, i)

  task_step-Inv :
      (e : Exec) (k : ℕ) (o : Option (Scheduled × List Scheduled))
      → pick k e.tasks ≡ o
      → Inv e
      → Keeps (task_step o e)
  unfolding task_step
  task_step-Inv e k none h i = (e, refl, i)
  task_step-Inv e k (some (pending f, rest)) h i =
      let split = λ (g : Scheduled → ℕ). sum_over-pick g k e.tasks rest (pending f) h in
      (
        record e { tasks = called ∷ rest; ran = f ∷ e.ran },
        refl,
        record {
          calls = λ x. omega (arith, i.calls x, split (to_call x));
          counted = omega (arith, i.counted, split (λ t. 1));
          over = i.over;
        },
      )
  task_step-Inv e k (some (called, rest)) h i =
      let split = λ (g : Scheduled → ℕ). sum_over-pick g k e.tasks rest called h in
      let some_left : ltb 0 e.counter ≡ true = ground (arith, i.counted, split (λ t. 1)) in
      (
        record e { tasks = rest; counter = e.counter - 1 },
        rw some_left refl,
        record {
          calls = λ x. omega (arith, i.calls x, split (to_call x));
          counted = omega (arith, i.counted, split (λ t. 1));
          over = λ r. omega (arith, i.over r);
        },
      )

  step-Inv : (who : Option ℕ) (e : Exec) → Inv e → Keeps (step true f0 who e)
  unfolding step
  step-Inv none e i = call_step-Inv e e.caller refl i
  step-Inv (some k) e i = task_step-Inv e k (pick k e.tasks) refl i

  Reached-Inv : {e : Exec} → Reached true f0 fn e → Inv e
  Reached-Inv started = start-Inv
  Reached-Inv (stepped {e} {e'} who r h) =
      let (e2, done, inv) = step-Inv who e (Reached-Inv r) in
      let same : e2 ≡ e' = let both = sym done ∙ h in cc in subst Inv same inv

no_tasks : (ts : List Scheduled) → sum_over (λ t. 1) ts ≡ 0 → ts ≡ []
no_tasks [] h = refl
no_tasks (t ∷ ts) h = absurd (omega (arith, h))

-- With a scheduler bound, in each state of a call of `parallelize` with the functions `f0` and `fn`, in
-- whatever order the caller and the tasks take their steps: no step fails; no function has been called
-- more often than it was given; and when the call has returned, no task is left and each function has
-- been called exactly as often as it was given.
pub Reached-count :
    (f0 : ℕ) (fn : List ℕ) {e : Exec}
    → Reached true f0 fn e
    → ((who : Option ℕ) → (e' : Exec) × (step true f0 who e ≡ ok e'))
      × ((x : ℕ) → count x e.ran ≤ count x (f0 ∷ fn))
      × (e.caller ≡ returned → (e.tasks ≡ []) × ((x : ℕ) → count x e.ran ≡ count x (f0 ∷ fn)))
Reached-count f0 fn {e} r =
    let i = Reached-Inv f0 fn r in
    (
      λ who. let (e', done, _) = step-Inv f0 fn who e i in (e', done),
      λ x. omega (arith, i.calls x),
      λ back.
          let none_ = no_tasks e.tasks (omega (arith, i.counted, i.over (ap is_returned back))) in
          (
            none_,
            λ x.
                omega
                  (arith, i.calls x, ap (sum_over (to_call x)) none_, ap (caller_calls f0 x) back),
          ),
    )
