-- ===== src/Threads.antt =====
-- `Thread` of include/marl/thread.hpp and src/thread.cpp. A thread object points to an `Impl` or to
-- nothing; an `Impl` holds a `std::thread`. The threads of the system stand in a store, with the cores
-- that they were restricted to.
pub mod Owner
pub mod Laws
use mini_marl.Base.{
  put, ℕ, zero, suc, ◌+◌, ◌-◌, ◌≡◌, Bool, true, false, not, List, [], ◌∷◌, Option, none, some, ◌==◌,
  if◌then◌else◌, Run, ok, abort, undefined, ◌>>=◌, ◌>>◌, marl_assert,
}

-- What has become of an `Impl` and of its `std::thread`: the thread can be joined, its function has
-- returned or not, or the `Impl` has been deleted.
pub data Impl : Type 0 where
  running : Impl
  returned : Impl
  deleted : Impl

-- The `Impl`s, by the order in which `new` gave them, and the cores of each thread; `none` where
-- `pthread_setaffinity_np` has not been called.
pub record Threads : Type 0 where
  pub next : ℕ
  pub impl : ℕ → Impl
  pub cpu_set : ℕ → Option (List ℕ)

-- A `Thread`: its member `impl`.
abbrev pub Thread : Type 0
Thread = Option ℕ

-- `Impl::setAffinity`, which the thread calls first.
unfoldable pub set_affinity : List ℕ → ℕ → Threads → Threads
set_affinity [] i s = s
set_affinity (c ∷ cs) i s = record s { cpu_set = put i (some (c ∷ cs)) s.cpu_set }

-- `Thread(affinity, func)`. The call of `setAffinity` is counted to the start here.
unfoldable pub new_thread : List ℕ → Threads → Thread × Threads
unfolding set_affinity
new_thread affinity s = (
  some s.next,
  set_affinity affinity s.next (record s {
    next = s.next + 1;
    impl = put s.next running s.impl;
    cpu_set = put s.next none s.cpu_set;
  }),
)

-- `delete impl`, whose `std::thread` has not been joined: `std::terminate`.
abbrev pub delete_unjoined : Impl → Run Threads
delete_unjoined running = abort
delete_unjoined returned = abort
delete_unjoined deleted = undefined

-- `operator=(Thread &&)`: the new values of `*this` and of `rhs`.
unfoldable pub move_assign : Thread → Thread → Threads → Run (Thread × (Thread × Threads))
move_assign none rhs s = ok (rhs, (none, s))
move_assign (some i) rhs s = do s' ← delete_unjoined (s.impl i); ok (rhs, (none, s'))

-- `thread_.join()` and `delete impl`, by what has become of the `Impl`; `none` where it blocks.
abbrev pub join_at : Impl → ℕ → Threads → Run (Option Threads)
join_at running i s = ok none
join_at returned i s = ok (some (record s { impl = put i deleted s.impl }))
join_at deleted i s = undefined

-- `join()`, after which the member is null.
unfoldable pub join : Thread → Threads → Run (Option Threads)
join none s = undefined
join (some i) s = join_at (s.impl i) i s

-- `~Thread`
unfoldable pub end_thread : Thread → Run (Unit {0})
end_thread none = marl_assert true
end_thread (some i) = marl_assert false

-- A program with variables of type `Thread`, and what it does with them: `v = Thread(affinity, func)`,
-- `v = std::move(w)`, `v.join()`, the end of the scope of `v`; or the function of a thread returns.
pub record Program : Type 0 where
  pub threads : Threads
  pub variable : ℕ → Thread

pub data Action : Type 0 where
  starts : ℕ → List ℕ → Action
  moves : ℕ → ℕ → Action
  joins : ℕ → Action
  ends : ℕ → Action
  returns : ℕ → Action

abbrev pub return_at : Impl → ℕ → Threads → Threads
return_at running i s = record s { impl = put i returned s.impl }
return_at returned i s = s
return_at deleted i s = s

abbrev pub joined : ℕ → Program → Option Threads → Option Program
joined v p none = none
joined v p (some s) = some (record { threads = s; variable = put v none p.variable })

-- `none` where the program blocks. A temporary is null when it is destroyed.
unfoldable pub act : Action → Program → Run (Option Program)
unfolding new_thread move_assign join end_thread
act (starts v affinity) p = do
  let made = new_thread affinity p.threads
  (t, (rest, s)) ← move_assign (p.variable v) made.0 made.1
  end_thread rest
  ok (some (record { threads = s; variable = put v t p.variable }))
act (moves v w) p = do
  (t, (rest, s)) ← move_assign (p.variable v) (p.variable w) p.threads
  ok (some (record { threads = s; variable = put w rest (put v t p.variable) }))
act (joins v) p = do r ← join (p.variable v) p.threads; ok (joined v p r)
act (ends v) p = do end_thread (p.variable v); ok (some p)
act (returns i) p = ok (some (record p { threads = return_at (p.threads.impl i) i p.threads }))

abbrev pub no_threads : Program
no_threads = record {
  threads = record { next = 0; impl = λ _. deleted; cpu_set = λ _. none };
  variable = λ _. none;
}

-- The states of a program whose actions have not ended it.
pub data Reached : Program → Type 0 where
  started : Reached no_threads
  acted : {p p' : Program} (a : Action) → Reached p → act a p ≡ ok (some p') → Reached p'
