-- ===== src/Scheduler/Config/Limit.antt =====
-- How many workers the constructor of a scheduler can make.
use mini_marl.Base.{
  ℕ, zero, suc, ◌+◌, ◌≤◌, ◌<◌, ◌≡◌, ◌⊎◌, refl, sym, ap, ◌∙◌, true, List, Option, none, some, arith,
  ltb, ◌==◌, Run, ok, undefined, Bool-cases, Option-cases, inl, inr,
}
use mini_marl.Worker.State.{Worker, multi_threaded, start, update}
use mini_marl.Affinity.{any_of, all}
use mini_marl.Scheduler.{make}
use mini_marl.Scheduler.Laws.{update-here, update-elsewhere}
use mini_marl.Scheduler.Config.{
  pos, Policy, Config, rounds, set_config_defaults, has_policy, max_worker_threads, create_workers,
  get_affinity, start_workers, construct,
}

-- The workers from `i` to `i + n` are there, and below `i` the array is as before.
record Created (n i : ℕ) (before : ℕ → Option Worker) (r : Run (ℕ → Option Worker)) : Type 0 where
  array : ℕ → Option Worker
  done : r ≡ ok array
  below : (j : ℕ) → j < i → array j ≡ before j
  there : (j : ℕ) → i ≤ j → j < i + n → array j ≡ some (start multi_threaded j)

create_workers-Created :
    (n i : ℕ) (ws : ℕ → Option Worker)
    → i + n ≤ max_worker_threads
    → Created n i ws (create_workers n i ws)
unfolding create_workers
create_workers-Created zero i ws h = record {
  array = ws;
  done = refl;
  below = λ j low. refl;
  there = λ j from low. absurd (omega (arith, from, low));
}
create_workers-Created (suc n) i ws h =
    let fits : ltb i max_worker_threads ≡ true = ground (arith, h) in
    let made = some (start multi_threaded i) in
    let more = create_workers-Created n (suc i) (update ws i made) (omega (arith, h)) in
    rw fits (record {
      array = more.array;
      done = more.done;
      below = λ j low.
          more.below j (omega (arith, low))
          ∙ update-elsewhere ws i j made (λ e. absurd (omega (arith, e, low)));
      there = λ j from low. elim (Bool-cases (i == j)) [
        | inl same ↦
            let at_j : i ≡ j = ground (arith, same) in
            ap more.array (sym at_j)
            ∙ more.below i (omega arith)
            ∙ update-here ws i made
            ∙ ap (λ k. some (start multi_threaded k)) at_j
        | inr other ↦ more.there j (ground (arith, other, from)) (omega (arith, low))
      ];
    })

-- Every policy that is asked answers.
starts :
    (policy : Policy) (n i : ℕ)
    → ((k : ℕ) → (cores : List ℕ) × (policy k ≡ ok cores))
    → start_workers (some policy) n i ≡ ok List.[]
unfolding start_workers get_affinity
starts policy zero i h = refl
starts policy (suc n) i h = let (cores, e) = h i in rw e (starts policy n (suc i) h)

-- A policy that answers for each thread.
abbrev Answers : Policy → Type 0
Answers policy = (k : ℕ) → (cores : List ℕ) × (policy k ≡ ok cores)

create_workers_overflow :
    (n i : ℕ) (ws : ℕ → Option Worker)
    → i ≤ max_worker_threads
    → max_worker_threads < i + n
    → create_workers n i ws ≡ undefined
unfolding create_workers
create_workers_overflow zero i ws low h = absurd (omega (arith, low, h))
create_workers_overflow (suc n) i ws low h = elim (Bool-cases (ltb i max_worker_threads)) [
  | inl fits ↦ rw fits (
      create_workers_overflow n (suc i) (update ws i (some (start multi_threaded i)))
        (ground (arith, fits)) (omega (arith, h)))
  | inr over ↦ rw over refl
]

-- With the defaults set, there is a policy for each worker.
defaults-Answers :
    (cpus : Option ℕ) (c : Config) (n : ℕ)
    → c.count ≡ pos n
    → 0 < n
    → ((policy : Policy) → c.affinity_policy ≡ some policy → Answers policy)
    → (policy : Policy) × ((set_config_defaults cpus c).affinity_policy ≡ some policy)
      × Answers policy
unfolding set_config_defaults has_policy
defaults-Answers cpus c n e h answers =
    let some_worker : ltb 0 n ≡ true = ground (arith, h) in
    elim (Option-cases c.affinity_policy) [
      | inl none_given ↦ (_, rw (e, some_worker, none_given) refl, λ k. (any_of (all cpus) k, refl))
      | inr (policy, given) ↦ (policy, rw (e, some_worker, given) refl, answers policy given)
    ]

defaults-count : (cpus : Option ℕ) (c : Config) → (set_config_defaults cpus c).count ≡ c.count
unfolding set_config_defaults
defaults-count cpus c = ground arith

-- For a configuration with at least one and at most 256 workers, whose policy, if it has one, answers
-- for each thread: the constructor succeeds, and its array holds each worker as the model of the
-- scheduler has it. With more workers it is undefined, as the array has no place for them.
pub construct-make :
    (cpus : Option ℕ) (c : Config) (n : ℕ)
    → c.count ≡ pos n
    → 0 < n
    → ((policy : Policy) → c.affinity_policy ≡ some policy → Answers policy)
    → ((array : ℕ → Option Worker) × (construct cpus c ≡ ok (set_config_defaults cpus c, array))
        × ((i : ℕ) → i < n → array i ≡ some ((make n).worker_threads i))
        × (n ≤ max_worker_threads))
      ⊎ ((construct cpus c ≡ undefined) × (max_worker_threads < n))
unfolding construct make
construct-make cpus c n e h answers =
    let cfg = set_config_defaults cpus c in
    let count : rounds cfg.count ≡ n = ap rounds (defaults-count cpus c ∙ e) in
    let (policy, has, answers') = defaults-Answers cpus c n e h answers in
    elim (Bool-cases (ltb max_worker_threads n)) [
      | inl over ↦
          let stops =
            create_workers_overflow n 0 (λ _. none) (omega arith) (ground (arith, over)) in
          inr (rw (count, stops) refl, ground (arith, over))
      | inr fits ↦
          let made = create_workers-Created n 0 (λ _. none) (ground (arith, fits)) in
          let started = starts policy n 0 answers' in
          inl (
            made.array,
            rw (count, made.done, has, started) refl,
            λ i low. made.there i (omega arith) (omega (arith, low)),
            ground (arith, fits),
          )
    ]
