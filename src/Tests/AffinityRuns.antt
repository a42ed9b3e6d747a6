-- ===== src/Tests/AffinityRuns.antt =====
-- Runs of `Thread::Affinity`: src/thread.cpp.
use mini_marl.Base.{ℕ, ◌≡◌, refl, List, [], ◌∷◌, arith, leb, if◌then◌else◌, count}
use mini_marl.Affinity.{remove}
use mini_marl.Affinity.Laws.{count-remove_second}

insert : ℕ → List ℕ → List ℕ
insert c [] = c ∷ []
insert c (d ∷ ds) = let rest = insert c ds in if leb c d then c ∷ d ∷ ds else d ∷ rest

-- A sort, for the runs.
sort : List ℕ → List ℕ
unfolding insert
sort [] = []
sort (c ∷ cs) = insert c (sort cs)

count-insert : (x c : ℕ) (cs : List ℕ) → count x (insert c cs) ≡ count x (c ∷ cs)
unfolding insert
count-insert x c [] = refl
count-insert x c (d ∷ ds) = ground (arith, count-insert x c ds)

count-sort : (x : ℕ) (cs : List ℕ) → count x (sort cs) ≡ count x cs
unfolding sort
count-sort x [] = refl
count-sort x (c ∷ cs) = omega (arith, count-insert x c (sort cs), count-sort x cs)

count-remove_second_example : count 3 (remove sort (1 ∷ 3 ∷ []) (1 ∷ 3 ∷ [])) ≡ count 3 (3 ∷ [])
count-remove_second_example = count-remove_second sort count-sort 1 3 (1 ∷ 3 ∷ []) refl refl 3
