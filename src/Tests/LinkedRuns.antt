-- ===== src/Tests/LinkedRuns.antt =====
-- Runs of a list: include/marl/containers.hpp.
use mini_marl.Base.{
  ℕ, ◌≡◌, ◌+◌, ◌-◌, ◌*◌, ◌<◌, ◌==◌, if◌then◌else◌, refl, false, List, [], ◌∷◌, ◌++◌, none, some,
  arith, ok, count,
}
use mini_marl.Memory.Interface.{Usage, Allocation, Allocator}
use mini_marl.Linked.{Entry, Linked, erase, emplace_front, destroy, destroy_elements}
use mini_marl.Linked.Holds.{Holds}
use mini_marl.Linked.Laws.{erase-Holds, emplace_front-Holds}
use mini_marl.Linked.Destroy.{destroy-Holds}

-- An allocator that counts the blocks it has given.
abbrev counting : Allocator ℕ
counting = record {
  allocate = λ r n. ok (record { ptr = 4096 * n; request = r }, n + 1);
  free = λ a n. ok (n - 1);
}

-- Two entries, both in use.
abbrev two : Linked ℕ
two = record {
  entries = λ i.
      if i == 0
      then record { object = some 10; next = none; prev = some 1 }
      else record { object = some 20; next = some 0; prev = none };
  size_ = 2;
  capacity_ = 2;
  allocations_ = [];
  free_ = none;
  head_ = some 1;
}

two-Holds : Holds two ((1, 20) ∷ (0, 10) ∷ [])
two-Holds = record {
  free_ids = [];
  free_chain = (none, (refl, refl));
  head_chain = (some 0, (refl, refl, (refl, refl, (refl, refl))));
  total = λ i. ground arith;
  objects = λ i low. ground arith;
  sized = refl;
}

erase-Holds_example : (l' : Linked ℕ) × (erase (some 1) two ≡ ok l') × Holds l' ((0, 10) ∷ [])
erase-Holds_example = erase-Holds two [] ((0, 10) ∷ []) 1 20 two-Holds

emplace_front-Holds_example :
    (x : ℕ) × (l' : Linked ℕ) × (st' : ℕ) × (emplace_front counting 24 24 8 8 30 (two, 0)
      ≡ ok (x, (l', st')))
    × Holds l' ((x, 30) ∷ (1, 20) ∷ (0, 10) ∷ [])
    × (count x (1 ∷ 0 ∷ []) ≡ 0)
emplace_front-Holds_example =
    emplace_front-Holds counting 24 24 8 8 two 0 30 ((1, 20) ∷ (0, 10) ∷ []) two-Holds
      (λ r. (record { ptr = 0; request = r }, 1, refl))

-- An allocator that keeps the blocks that it frees.
abbrev keeping : Allocator (List Allocation)
keeping = record {
  allocate = λ r as_. ok (record { ptr = 64; request = r }, as_);
  free = λ a as_. ok (as_ ++ a ∷ []);
}

abbrev small_block : ℕ → Allocation
small_block p = record {
  ptr = p;
  request = record { size = 64; alignment = 8; use_guards = false; usage = Usage.list };
}

-- The two entries stand in two blocks.
abbrev two_blocks : Linked ℕ
two_blocks = record two { allocations_ = small_block 64 ∷ small_block 128 ∷ [] }

two_blocks-Holds : Holds two_blocks ((1, 20) ∷ (0, 10) ∷ [])
two_blocks-Holds =
    let h = two-Holds in
    record {
      sized = h.sized;
      head_chain = h.head_chain;
      free_ids = h.free_ids;
      free_chain = h.free_chain;
      total = h.total;
      objects = h.objects;
    }

destroy-Holds_example :
    (t : ℕ → Entry ℕ) × (destroy_elements 2 (some 1) two_blocks.entries ≡ ok t)
    × ((i : ℕ) → i < 2 → (t i).object ≡ none)
    × ((st' : List Allocation) × (destroy keeping (two_blocks, []) ≡ ok st')
        × (st' ≡ small_block 64 ∷ small_block 128 ∷ []))
destroy-Holds_example =
    destroy-Holds keeping (λ as_. as_) (λ a as_. (as_ ++ a ∷ [], refl, refl)) two_blocks []
      ((1, 20) ∷ (0, 10) ∷ []) two_blocks-Holds
