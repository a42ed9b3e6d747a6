-- ===== src/Task.antt =====
-- include/marl/task.hpp. The body of a task, a `std::function<void()>`, is a type `F` of the
-- program; `none` is the function that a default task holds, which must not be called.
use Prim.Native.Nat.{bit_and}
use mini_marl.Base.{ℕ, ◌≡◌, refl, Bool, true, Option, none, some, arith, ◌==◌, Run, ok, abort}

pub data Flags : Type 0 where
  none_ : Flags
  same_thread : Flags

-- `static_cast<int>(flags)`
unfoldable pub to_int : Flags → ℕ
to_int none_ = 0
to_int same_thread = 1

pub record Task (F : Type 0) : Type 0 where
  pub function_ : Option F
  pub flags_ : Flags

module _ {F : Type 0} where
  -- `Task() = default`
  unfoldable pub empty_task : Task F
  empty_task = record { function_ = none; flags_ = none_ }

  -- `operator bool`
  unfoldable pub is_valid : Task F → Bool
  is_valid t = elim t.function_ [ none ↦ Bool.false | some _ ↦ true ]

  -- `operator()`: the function that the task runs. An empty `std::function` throws, and no caller
  -- catches it: the process ends.
  unfoldable pub call : Task F → Run F
  call t = elim t.function_ [ none ↦ abort | some f ↦ ok f ]

  -- `Task(Task &&)`: the new task, and what a moved-from `std::function` leaves is unspecified.
  unfoldable pub move_task : Task F → Option F → Task F × Task F
  move_task t left = (record t { flags_ = t.flags_ }, record t { function_ = left })

  -- `operator=(Function)` resets the flags.
  unfoldable pub assign_function : Task F → F → Task F
  assign_function t f = record t { function_ = some f; flags_ = none_ }

  unfoldable pub is : Task F → Flags → Bool
  unfolding to_int
  is t flag = bit_and (to_int t.flags_) (to_int flag) == to_int flag

  -- The flag that `Scheduler::enqueue` and `Worker::steal` test.
  pub is-same_thread_iff :
      (t : Task F)
      → (is t same_thread ≡ true → t.flags_ ≡ same_thread)
        × (t.flags_ ≡ same_thread → is t same_thread ≡ true)
  unfolding is
  is-same_thread_iff t = (ground arith, ground arith)

  -- A task with a function runs it.
  pub call_lem : (t : Task F) → is_valid t ≡ true → (f : F) × (call t ≡ ok f)
  unfolding is_valid call
  call_lem t h = go t.function_ refl
    where
      go : (o : Option F) → t.function_ ≡ o → (f : F) × (call t ≡ ok f)
      go none e = absurd (cc)
      go (some f) e = (f, rw e)
