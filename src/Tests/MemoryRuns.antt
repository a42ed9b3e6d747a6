-- ===== src/Tests/MemoryRuns.antt =====
-- Runs of the allocators: src/memory.cpp and include/marl/memory.hpp.
use mini_marl.Base.{
  ℕ, ◌+◌, ◌*◌, ◌%◌, ◌≤◌, ◌≡◌, ◌↔◌, ◌≢◌, refl, Bool, true, false, [], ◌∷◌, some, arith, ok, ◌>>=◌,
}
use mini_marl.Memory.Interface.{Usage, Request, Allocation, Allocator}
use mini_marl.Memory.Default.{
  Os, System, frees, maps, unmaps, protects, pointer_size, log, allocate, free, default_allocator,
}
use mini_marl.Memory.Blocks.{allocate-free_aligned, allocate-free_guarded}
use mini_marl.Memory.Objects.{
  Layout, UniquePtr, make_unique_n, delete_unique, make_unique-delete_unique_wild,
}
use mini_marl.Memory.Stl.{max_size, stl_request, max_size-stl_request}
use mini_marl.Memory.Tracked.{
  Stats, at_usage, no_stats, tracked_allocate, tracked_free, History, new, allocated, live_count,
  live_bytes, History-Tracks, History-tracked_free,
}

-- Blocks of `malloc` at 4104, mappings at 8192.
abbrev sys : System
sys = record { malloc = λ _ _. 4104; mmap = λ _ _. 8192; page_size = 4096 }

abbrev os : Os
os = record { word = λ _. 0; calls = [] }

abbrev request : Bool → Request
request guards = record { size = 100; alignment = 16; use_guards = guards; usage = Usage.create }

allocate-free_aligned_example :
    (p : ℕ) × (os' : Os) × (allocate sys (request false) os
      ≡ ok (record { ptr = p; request = request false }, os'))
    × (p % 16 ≡ 0)
    × (4104 ≤ p)
    × (p + 100 + pointer_size ≤ 4104 + (100 + 16 + pointer_size))
    × ((later : Os)
        → later.word (p + 100) ≡ os'.word (p + 100)
        → free sys (record { ptr = p; request = request false }) later
          ≡ ok (log (frees 4104) later))
allocate-free_aligned_example =
    allocate-free_aligned sys (request false) os refl (omega arith) (omega arith) (omega arith)

allocate-free_guarded_example :
    (a : Allocation) × (os' : Os) × (hi : ℕ) × (allocate sys (request true) os ≡ ok (a, os'))
    × (os'.calls ≡ protects hi ∷ protects 8192 ∷ maps 8192 12288 ∷ [])
    × (a.ptr % 16 ≡ 0)
    × (a.ptr ≡ 8192 + 4096)
    × (a.ptr + 100 ≤ hi)
    × (hi + 4096 ≡ 8192 + 12288)
    × ((later : Os) → free sys a later ≡ ok (log (unmaps 8192 12288) later))
allocate-free_guarded_example =
    allocate-free_guarded sys (request true) os refl (omega arith) 256 2 refl (omega arith) refl
      (omega arith)

-- An object of 100 bytes, aligned to 16.
abbrev layout : Layout
layout = record { sizeof = 100; alignof = 16 }

make_unique-delete_unique_wild_example :
    (u : UniquePtr) × (os' : Os) × (make_unique_n (default_allocator sys) layout 1 os
      ≡ ok (some u, os'))
    × (u.ptr ≢ 4104)
    × ((later : Os)
        → delete_unique (default_allocator sys) layout u later ≡ ok (log (frees u.ptr) later))
make_unique-delete_unique_wild_example =
    make_unique-delete_unique_wild sys layout os (omega arith) (omega arith) (omega arith)
      (omega arith) (omega arith)

-- An allocator that hands out the address that its state names.
abbrev bump : Allocator ℕ
bump = record {
  allocate = λ r s. ok (record { ptr = s; request = r }, s + r.size);
  free = λ a s. ok s;
}

abbrev first : Allocation
first = record { ptr = 64; request = request false }

abbrev stats_after : Stats
stats_after = at_usage Usage.create (record { count = 1; bytes = 100 }) no_stats

once : History bump (request false ∷ []) (164, stats_after)
unfolding tracked_allocate
once = allocated (request false) first (new 64) refl

History-Tracks_example :
    ((stats_after 2).count ≡ live_count 2 (request false ∷ []))
    × ((stats_after 2).bytes ≡ live_bytes 2 (request false ∷ []))
History-Tracks_example = History-Tracks bump once 2

History-tracked_free_example :
    (stats : Stats) × (tracked_free bump first (164, stats_after)
      ≡ (bump.free first 164 >>= λ s. ok (s, stats)))
History-tracked_free_example = History-tracked_free bump [] [] first once refl

max_size-stl_request_example : (3 ≤ max_size layout) ↔ ((stl_request layout 3).size ≡ 100 * 3)
max_size-stl_request_example = max_size-stl_request layout 3 (omega arith)
