-- ===== src/Memory/Blocks.antt =====
-- What `DefaultAllocator` hands out, and what it gives back to the system.
use mini_marl.Base.{
  ℕ, ◌+◌, ◌-◌, ◌*◌, ◌/◌, ◌%◌, ap, ◌≤◌, ◌<◌, ◌≡◌, refl, true, false, ◌∷◌, arith, ltb, ◌==◌, ok,
}
use native.Mathlib.Nat.{mul-mod_right, mul_assoc, mul-add, mod-eq_of_lt, div-add-mod}
use mini_marl.Memory.Align.{size_mod, align_up, align_up_lem}
use mini_marl.Memory.Interface.{Request, Allocation}
use mini_marl.Memory.Default.{
  mallocs, frees, maps, unmaps, protects, Os, System, pointer_size, log, store_word, pages,
  allocate_pages, protect_page, paged_malloc, paged_free, aligned_malloc, aligned_free, obtain,
  check_alignment, allocate, free,
}

module _ (sys : System) (r : Request) (os : Os) (plain : r.use_guards ≡ false)
    (aligns : 1 < r.alignment)
    (room : sys.malloc os.calls (r.size + r.alignment + pointer_size)
        + (r.size + r.alignment + pointer_size)
      ≤ size_mod)
    (found : 0 < sys.malloc os.calls (r.size + r.alignment + pointer_size)) where
  abbrev block : ℕ
  block = sys.malloc os.calls (r.size + r.alignment + pointer_size)

  abbrev aligned : ℕ
  aligned = align_up block r.alignment

  abbrev os_after : Os
  os_after =
      store_word (aligned + r.size) block
        (log (mallocs block (r.size + r.alignment + pointer_size)) os)

  -- An aligned request without guards, for which `malloc` finds a block: `allocate` succeeds, the
  -- pointer is aligned, the memory and the pointer stored behind it lie within the block, and a later
  -- `free`, if nobody has written behind the memory, gives exactly that block back to `free`.
  pub allocate-free_aligned :
      (p : ℕ) × (os' : Os) × (allocate sys r os ≡ ok (record { ptr = p; request = r }, os'))
      × (p % r.alignment ≡ 0)
      × (block ≤ p)
      × (p + r.size + pointer_size ≤ block + (r.size + r.alignment + pointer_size))
      × ((later : Os)
          → later.word (p + r.size) ≡ os'.word (p + r.size)
          → free sys (record { ptr = p; request = r }) later ≡ ok (log (frees block) later))
  unfolding allocate obtain aligned_malloc check_alignment free aligned_free
  allocate-free_aligned =
      let (multiple, above, below) = align_up_lem block r.alignment (omega arith) (omega arith) in
      let asked : (r.size + r.alignment + pointer_size) % size_mod
          ≡ r.size + r.alignment + pointer_size =
        mod-eq_of_lt (omega arith) in
      (
        aligned,
        os_after,
        rw asked (ground (arith, multiple)),
        multiple,
        above,
        omega (arith, below),
        λ later kept. ground arith,
      )

module _ (sys : System) (r : Request) (os : Os) (guarded : r.use_guards ≡ true)
    (small : r.alignment < sys.page_size) (j k : ℕ) (divides : sys.page_size ≡ r.alignment * j)
    (fits : r.size + 3 * sys.page_size ≤ size_mod) where
  -- The pages for the memory, rounded up, and two more.
  abbrev region : ℕ
  region = ((r.size + sys.page_size - 1) / sys.page_size + 2) * sys.page_size

  abbrev base : ℕ
  base = sys.mmap os.calls region

  pages_exact : 0 < sys.page_size → pages sys r.size ≡ (r.size + sys.page_size - 1) / sys.page_size
  pages_exact h =
      let no_wrap : ((r.size + sys.page_size) % size_mod + (size_mod - 1)) % size_mod
          ≡ r.size + sys.page_size - 1 =
        omega (arith, h, fits) in
      ap (λ n. n / sys.page_size) no_wrap

  -- Pages hold the memory, with less than a page more.
  pages_hold :
      0 < sys.page_size
      → (r.size ≤ (r.size + sys.page_size - 1) / sys.page_size * sys.page_size)
        × ((r.size + sys.page_size - 1) / sys.page_size * sys.page_size < r.size + sys.page_size)
  pages_hold h = (grind (arith, div-add-mod), grind (arith, div-add-mod))

  alignment_pos : 0 < r.alignment
  alignment_pos = grind arith

  ptr_aligned : base ≡ sys.page_size * k → (base + sys.page_size) % r.alignment ≡ 0
  ptr_aligned at =
      let e : base + sys.page_size ≡ r.alignment * (j * k + j) =
        grind (arith, mul_assoc, mul-add) in
      rw e (mul-mod_right r.alignment (j * k + j))

  -- A request with guards, whose alignment is less than the size of a page and divides it, and whose size
  -- with three pages does not exceed 2^64, where `mmap` returns pages at a multiple of the page size:
  -- `allocate` succeeds; the first and the last page of the mapping are protected, the memory lies
  -- between them, aligned; and `free` unmaps the whole mapping.
  pub allocate-free_guarded :
      base ≡ sys.page_size * k
      → 0 < base
      → (a : Allocation) × (os' : Os) × (hi : ℕ) × (allocate sys r os ≡ ok (a, os'))
        × (os'.calls ≡ protects hi ∷ protects base ∷ maps base region ∷ os.calls)
        × (a.ptr % r.alignment ≡ 0)
        × (a.ptr ≡ base + sys.page_size)
        × (a.ptr + r.size ≤ hi)
        × (hi + sys.page_size ≡ base + region)
        × ((later : Os) → free sys a later ≡ ok (log (unmaps base region) later))
  unfolding allocate obtain paged_malloc allocate_pages protect_page check_alignment free paged_free
  allocate-free_guarded at found =
      let pos = alignment_pos in
      let even = ptr_aligned at in
      let page : ℕ = sys.page_size in
      let count : ℕ = (r.size + page - 1) / page in
      let paged : 0 < page = omega arith in
      let exact = pages_exact paged in
      let (enough, few) = pages_hold paged in
      let twice : region ≡ count * page + 2 * page = grind arith in
      let whole : region % size_mod ≡ region = mod-eq_of_lt (omega (arith, few, fits, twice)) in
      let inner : (count * page) % size_mod ≡ count * page =
        mod-eq_of_lt (omega (arith, few, fits)) in
      let small' : ltb r.alignment sys.page_size ≡ true = ground arith in
      let there : (base == 0) ≡ false = ground arith in
      let there' : (base + sys.page_size == 0) ≡ false = ground arith in
      let some_ : (r.alignment == 0) ≡ false = ground arith in
      (
        record { ptr = base + sys.page_size; request = r },
        log (protects (base + sys.page_size + count * page))
            (log (protects base) (log (maps base region) os)),
        base + sys.page_size + count * page,
        rw (guarded, small', exact, whole, inner, there, there', some_, even) refl,
        refl,
        even,
        refl,
        omega (arith, enough),
        omega (arith, twice),
        λ later.
            let back : base + sys.page_size - sys.page_size ≡ base = omega arith in
            rw (guarded, small', exact, whole, back) refl,
      )
