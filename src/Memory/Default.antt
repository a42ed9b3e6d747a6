-- ===== src/Memory/Default.antt =====
-- `DefaultAllocator` of src/memory.cpp.
use mini_marl.Base.{
  ℕ, ◌+◌, ◌-◌, ◌*◌, ◌/◌, ◌%◌, not, List, ◌∷◌, ltb, ◌==◌, if◌then◌else◌, Run, ok, undefined, ◌>>=◌,
  ◌>>◌, marl_assert,
}
use mini_marl.Memory.Align.{size_mod, align_up}
use mini_marl.Memory.Interface.{Request, Allocation, Allocator}

-- What the program asks of the system; numbers are an address and a size in bytes.
pub data Call : Type 0 where
  mallocs : ℕ → ℕ → Call
  frees : ℕ → Call
  maps : ℕ → ℕ → Call
  unmaps : ℕ → ℕ → Call
  protects : ℕ → Call

-- The pointers that `memcpy` has stored in memory, by address, and the calls so far, newest first.
pub record Os : Type 0 where
  pub word : ℕ → ℕ
  pub calls : List Call

-- The addresses that the system chooses, given the calls before and the size; 0 is a failure.
pub record System : Type 0 where
  pub malloc : List Call → ℕ → ℕ
  pub mmap : List Call → ℕ → ℕ
  pub page_size : ℕ

abbrev pub pointer_size : ℕ
pointer_size = 8

abbrev pub log : Call → Os → Os
log c os = record os { calls = c ∷ os.calls }

abbrev pub store_word : ℕ → ℕ → Os → Os
store_word a v os = record os { word = λ b. if a == b then v else os.word b }

module _ (sys : System) where
  open sys use {malloc, mmap, page_size}

  -- `std::malloc`
  abbrev pub std_malloc : ℕ → Os → ℕ × Os
  std_malloc size os = let p = malloc os.calls size in (p, log (mallocs p size) os)

  -- `allocatePages`
  unfoldable pub allocate_pages : ℕ → Os → Run (ℕ × Os)
  allocate_pages count os =
      let size = (count * page_size) % size_mod in
      let p = mmap os.calls size in marl_assert (not (p == 0)) >> ok (p, log (maps p size) os)

  -- `protectPage`; `mprotect` succeeds on a page that was mapped.
  unfoldable pub protect_page : ℕ → Os → Os
  protect_page addr os = log (protects addr) os

  -- `(size + pageSize() - 1) / pageSize()`, each operation modulo 2^64.
  abbrev pub pages : ℕ → ℕ
  pages size = ((size + page_size) % size_mod + (size_mod - 1)) % size_mod / page_size

  -- `pagedMalloc` with both guards, as `DefaultAllocator` calls it.
  unfoldable pub paged_malloc : ℕ → ℕ → Os → Run (ℕ × Os)
  unfolding allocate_pages protect_page
  paged_malloc alignment size os = do
    marl_assert (ltb alignment page_size)
    (mem, os1) ← allocate_pages (pages size + 2) os
    let os2 = protect_page mem os1
    let mem' = mem + page_size
    ok (mem', protect_page (mem' + (pages size * page_size) % size_mod) os2)

  -- `pagedFree` with both guards; `munmap` succeeds on pages that were mapped.
  unfoldable pub paged_free : ℕ → ℕ → ℕ → Os → Run Os
  paged_free ptr alignment size os = do
    marl_assert (ltb alignment page_size)
    ok (log (unmaps (ptr - page_size) (((pages size + 2) * page_size) % size_mod)) os)

  -- `alignedMalloc`: the block's own address is stored behind the memory that is handed out.
  -- With the null pointer of a failed `malloc` that store is undefined.
  unfoldable pub aligned_malloc : ℕ → ℕ → Os → Run (ℕ × Os)
  aligned_malloc alignment size os =
      let (allocation, os1) = std_malloc ((size + alignment + pointer_size) % size_mod) os in
      let aligned = align_up allocation alignment in
      if allocation == 0
      then undefined
      else ok (aligned, store_word (aligned + size) allocation os1)

  -- `alignedFree`
  unfoldable pub aligned_free : ℕ → ℕ → Os → Os
  aligned_free ptr size os = log (frees (os.word (ptr + size))) os

  unfoldable pub obtain : Request → Os → Run (ℕ × Os)
  unfolding paged_malloc aligned_malloc
  obtain r os =
      if r.use_guards
      then paged_malloc r.alignment r.size os
      else if ltb 1 r.alignment
      then aligned_malloc r.alignment r.size os
      else ok (std_malloc r.size os)

  -- `uintptr_t(ptr) % request.alignment == 0`, where a division by zero is undefined.
  unfoldable pub check_alignment : ℕ → ℕ → Run (Unit {0})
  check_alignment ptr alignment =
      if alignment == 0 then undefined else marl_assert (ptr % alignment == 0)

  -- `DefaultAllocator::allocate`
  unfoldable pub allocate : Request → Os → Run (Allocation × Os)
  unfolding obtain check_alignment
  allocate r os = do
    (ptr, os1) ← obtain r os
    marl_assert (not (ptr == 0))
    check_alignment ptr r.alignment
    ok (record { ptr = ptr; request = r }, os1)

  -- `DefaultAllocator::free`
  unfoldable pub free : Allocation → Os → Run Os
  unfolding paged_free aligned_free
  free a os =
      if a.request.use_guards
      then paged_free a.ptr a.request.alignment a.request.size os
      else if ltb 1 a.request.alignment
      then ok (aligned_free a.ptr a.request.size os)
      else ok (log (frees a.ptr) os)

  -- `Allocator::Default`
  abbrev pub default_allocator : Allocator Os
  default_allocator = record { allocate = allocate; free = free }
