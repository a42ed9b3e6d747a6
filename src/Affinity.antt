-- ===== src/Affinity.antt =====
-- `Thread::Affinity` and its policies of src/thread.cpp. A core is its index, and the vector `cores` is
-- the list of its elements. `sort` is `std::sort`.
pub mod Laws
use mini_marl.Base.{
  ℕ, zero, suc, ◌+◌, ◌-◌, ◌%◌, Bool, true, false, List, [], ◌∷◌, ◌++◌, Option, none, some, ltb,
  ◌==◌, if◌then◌else◌, length, count, get_elem?, set, Run, ok, undefined, abort,
}

-- `set.count(core) != 0`, for a set of the cores of a list.
abbrev pub contains : ℕ → List ℕ → Bool
contains c cs = ltb 0 (count c cs)

unfoldable pub indices : ℕ → ℕ → List ℕ
indices zero i = []
indices (suc n) i = i ∷ indices n (i + 1)

-- `all`, where `pthread_getaffinity_np` gives a set of so many CPUs, or fails. An index is a uint16_t.
unfoldable pub all : Option ℕ → List ℕ
unfolding indices
all none = []
all (some n) = wrap (indices n 0)
  where
    wrap : List ℕ → List ℕ
    wrap [] = []
    wrap (i ∷ is) = i % 65536 ∷ wrap is

-- The policy of `anyOf`
unfoldable pub any_of : List ℕ → ℕ → List ℕ
any_of affinity thread_id = affinity

one : Option ℕ → Run (List ℕ)
one none = abort
one (some c) = ok (c ∷ [])

-- The policy of `oneOf`
unfoldable pub one_of : List ℕ → ℕ → Run (List ℕ)
unfolding one
one_of affinity thread_id =
    if length affinity == 0
    then ok affinity
    else one (get_elem? affinity (thread_id % length affinity))

-- The loop of `add`; the set holds the cores that were there before it.
unfoldable pub add_missing : List ℕ → List ℕ → List ℕ → List ℕ
add_missing before [] cores = cores
add_missing before (c ∷ cs) cores =
    let added = add_missing before cs (cores ++ c ∷ []) in
    let same = add_missing before cs cores in if contains c before then same else added

-- `cores.back()` of a vector that begins with the core `c`.
unfoldable pub back : ℕ → List ℕ → ℕ
back c [] = c
back c (d ∷ ds) = back d ds

-- `cores.resize(cores.size() - 1)`
unfoldable pub drop_last : List ℕ → List ℕ
drop_last [] = []
drop_last (c ∷ []) = []
drop_last (c ∷ d ∷ ds) = c ∷ drop_last (d ∷ ds)

-- `cores[i] = cores.back(); cores.resize(cores.size() - 1);`
unfoldable pub take_out : ℕ → List ℕ → List ℕ
unfolding back drop_last
take_out i [] = []
take_out i (c ∷ cs) = drop_last (set (c ∷ cs) i (back c cs))

-- A round of the loop of `remove`, given the core at the index, the results of the rounds that follow
-- with that core taken out and with it kept, and the cores at the end of the loop.
unfoldable pub remove_at : Option ℕ → List ℕ → List ℕ → List ℕ → List ℕ → List ℕ
remove_at none other taken kept cores = cores
remove_at (some c) other taken kept cores = if contains c other then taken else kept

-- The loop from the index `i`; it ends where no core has that index, within as many rounds as there
-- are cores.
unfoldable pub remove_from : ℕ → ℕ → List ℕ → List ℕ → List ℕ
unfolding take_out remove_at
remove_from zero i other cores = cores
remove_from (suc n) i other cores =
    remove_at (get_elem? cores i) other (remove_from n (i + 1) other (take_out i cores))
      (remove_from n (i + 1) other cores) cores

module _ (sort : List ℕ → List ℕ) where
  unfoldable pub add : List ℕ → List ℕ → List ℕ
  unfolding add_missing
  add other cores = sort (add_missing cores other cores)

  unfoldable pub remove : List ℕ → List ℕ → List ℕ
  unfolding remove_from
  remove other cores = sort (remove_from (length cores) 0 other cores)
