-- ===== src/Pool/Amounts.antt =====
-- How many tasks stand in which place of a pool.
use mini_marl.Base.{
  ℕ, zero, suc, ◌+◌, ◌≤◌, ◌<◌, ◌≡◌, refl, ap, Bool, not, List, [], ◌∷◌, ◌++◌, Option, none, some,
  arith, ◌==◌, ind, sum_over, Bool-cases, inl, inr,
}
use mini_marl.Task.{Task, is, same_thread}
use mini_marl.Worker.State.{Job, shut_down, user, Worker, update}
use mini_marl.Worker.Queues.{enqueue_task, steal, steal_first}
use mini_marl.Worker.Begins.{before}
use mini_marl.Pool.{with_task, tell}

abbrev pub total : ℕ → (ℕ → ℕ) → ℕ
total zero f = 0
total (suc n) f = f n + total n f

module _ {A : Type 0} (f : A → ℕ) where
  total-update_above :
      (n : ℕ) (table : ℕ → A) (slot : ℕ) (a : A)
      → n ≤ slot
      → total n (λ j. f (update table slot a j)) ≡ total n (λ j. f (table j))
  total-update_above zero table slot a h = refl
  total-update_above (suc n) table slot a h = ground (arith, total-update_above n table slot a)

  pub total-update :
      (n : ℕ) (table : ℕ → A) (slot : ℕ) (a : A)
      → slot < n
      → total n (λ j. f (update table slot a j)) + f (table slot) ≡ total n (λ j. f (table j)) + f a
  total-update zero table slot a h = elim h [ ]
  total-update (suc n) table slot a h =
      ground (arith, total-update n table slot a, total-update_above n table slot a)

  pub total-same :
      (n : ℕ) (g h : ℕ → A)
      → ((j : ℕ) → f (g j) ≡ f (h j))
      → total n (λ j. f (g j)) ≡ total n (λ j. f (h j))
  total-same zero g h e = refl
  total-same (suc n) g h e = omega (arith, e n, total-same n g h e)

pub total-zero_below :
    {A : Type 0} (f : A → ℕ) (n : ℕ) (g : ℕ → A)
    → ((i : ℕ) → i < n → f (g i) ≡ 0)
    → total n (λ i. f (g i)) ≡ 0
total-zero_below f zero g h = refl
total-zero_below f (suc n) g h =
    omega (arith, h n (omega arith), total-zero_below f n g (λ i low. h i (omega (arith, low))))

module _ (q : Task Job → Bool) where
  -- How many tasks of a list pass the test.
  abbrev pub amount : List (Task Job) → ℕ
  amount ts = sum_over (λ t. ind (q t)) ts

  abbrev pub amount_of : Option (Task Job) → ℕ
  amount_of none = 0
  amount_of (some t) = ind (q t)

  abbrev pub tasks_of : Worker → ℕ
  tasks_of w = amount w.tasks

  pub amount-append : (xs ys : List (Task Job)) → amount (xs ++ ys) ≡ amount xs + amount ys
  amount-append [] ys = omega arith
  amount-append (x ∷ xs) ys = omega (arith, amount-append xs ys)

  pub amount-with_task :
      (o : Option (Task Job)) (ts : List (Task Job))
      → amount (with_task o ts) ≡ amount_of o + amount ts
  amount-with_task none ts = omega arith
  amount-with_task (some t) ts = refl

  pub enqueue_task-amount :
      (t : Task Job) (w : Worker) → tasks_of (enqueue_task t w).0 ≡ tasks_of w + ind (q t)
  unfolding enqueue_task
  enqueue_task-amount t w = omega (arith, amount-append w.tasks (t ∷ []))

  -- A worker gets a task behind its others.
  pub queue-amount :
      (n i : ℕ) (ws : ℕ → Worker) (t : Task Job)
      → i < n
      → total n (λ j. tasks_of (update ws i (enqueue_task t (ws i)).0 j))
        ≡ total n (λ j. tasks_of (ws j)) + ind (q t)
  queue-amount n i ws t h =
      let w = (enqueue_task t (ws i)).0 in
      omega (arith, total-update tasks_of n ws i w h, enqueue_task-amount t (ws i))

  -- What a thief takes, the queue loses.
  abbrev Takes : Worker → Worker × Option (Task Job) → Type 0
  Takes w r = tasks_of w ≡ tasks_of r.0 + amount_of r.1

  steal_first-Takes :
      (ts : List (Task Job)) (w : Worker) → w.tasks ≡ ts → Takes w (steal_first ts w)
  unfolding steal_first
  steal_first-Takes [] w e = omega arith
  steal_first-Takes (t ∷ ts) w e =
      let first : tasks_of w ≡ ind (q t) + amount ts = ap amount e in
      elim (Bool-cases (is t same_thread)) [
        | inl stays ↦ rw stays (omega arith)
        | inr goes ↦ rw goes (omega (arith, first))
      ]

  pub steal-Takes : (locked : Bool) (w : Worker) → Takes w (steal locked w)
  unfolding steal
  steal-Takes locked w = elim (Bool-cases (w.num == 0)) [
    | inl empty ↦ rw empty (omega arith)
    | inr some_work ↦ elim (Bool-cases (not locked)) [
      | inl missed ↦ rw (some_work, missed) (omega arith)
      | inr got ↦ rw (some_work, got) (steal_first-Takes w.tasks w refl)
    ]
  ]

  pub tell-tasks_of :
      (o : Option (Task Job)) (i : ℕ) (ws : ℕ → Worker) (j : ℕ)
      → tasks_of (tell o i ws j) ≡ tasks_of (ws j)
  unfolding tell
  tell-tasks_of none i ws j = refl
  tell-tasks_of (some t) i ws j = by_function t.function_ refl
    where
      by_function :
          (f : Option Job) → t.function_ ≡ f → tasks_of (tell (some t) i ws j) ≡ tasks_of (ws j)
      by_function none e = rw e refl
      by_function (some (user n)) e = rw e refl
      by_function (some (shut_down k)) e = rw e (elim (Bool-cases (k == i)) [
        | inl own ↦ rw own refl
        | inr other ↦ rw other (elim (Bool-cases (k == j)) [
          | inl same ↦ rw same (let at_j : k ≡ j = ground (arith, same) in rw at_j refl)
          | inr apart ↦ rw apart refl
        ])
      ])

  pub before-amount :
      (o : Option (Task Job)) (ts us : List (Task Job))
      → us ≡ before o ts
      → amount us ≡ amount_of o + amount ts
  before-amount none ts us e = rw e (omega arith)
  before-amount (some t) ts us e = rw e refl
