-- ===== src/Memory/Stl.antt =====
-- `StlAllocator` of include/marl/memory.hpp, over any allocator: what the containers of the standard
-- library allocate by.
use mini_marl.Base.{
  ℕ, ◌+◌, ◌-◌, ◌*◌, ◌/◌, ◌%◌, ◌≤◌, ◌<◌, ◌≡◌, ◌↔◌, refl, false, arith, Run, ok, ◌>>=◌,
}
use native.Mathlib.Nat.{mod-eq_of_lt, le-div_iff_mul-le}
use mini_marl.Memory.Align.{size_mod}
use mini_marl.Memory.Interface.{Usage, Request, Allocator}
use mini_marl.Memory.Default.{Os, System, frees, pointer_size, log, default_allocator}
use mini_marl.Memory.Blocks.{allocate-free_aligned}
use mini_marl.Memory.Objects.{Layout}

-- `request(n)`
abbrev pub stl_request : Layout → ℕ → Request
stl_request t n = record {
  size = (t.sizeof * n) % size_mod;
  alignment = t.alignof;
  use_guards = false;
  usage = Usage.stl;
}

-- `max_size()`
unfoldable pub max_size : Layout → ℕ
max_size t = (size_mod - 1) / t.sizeof

module _ {S : Type 0} (allocator : Allocator S) where
  -- `allocate(n)`
  unfoldable pub stl_allocate : Layout → ℕ → S → Run (ℕ × S)
  stl_allocate t n s = do (alloc, s') ← allocator.allocate (stl_request t n) s; ok (alloc.ptr, s')

  -- `deallocate(p, n)`
  unfoldable pub stl_deallocate : Layout → ℕ → ℕ → S → Run S
  stl_deallocate t p n s = allocator.free (record { ptr = p; request = stl_request t n }) s

-- For a type of positive size, exactly the counts up to `max_size` make a request of the size of so many
-- objects; the size of a greater one wraps.
pub max_size-stl_request :
    (t : Layout) (n : ℕ) → 0 < t.sizeof → (n ≤ max_size t) ↔ ((stl_request t n).size ≡ t.sizeof * n)
unfolding max_size
max_size-stl_request t n positive =
    let bound = le-div_iff_mul-le {k = t.sizeof} {x = n} {y = size_mod - 1} positive in
    let swap : n * t.sizeof ≡ t.sizeof * n = omega arith in
    (
      λ h.
          let low = bound.0 h in
          let fits : t.sizeof * n < size_mod = omega (arith, low, swap) in omega (arith, fits),
      λ e. bound.1 (omega (arith, e, swap)),
    )

module _ (sys : System) (t : Layout) (n : ℕ) (os : Os) (aligns : 1 < t.alignof)
    (room : sys.malloc os.calls (t.sizeof * n + t.alignof + pointer_size)
        + (t.sizeof * n + t.alignof + pointer_size)
      ≤ size_mod)
    (found : 0 < sys.malloc os.calls (t.sizeof * n + t.alignof + pointer_size)) where
  abbrev array_block : ℕ
  array_block = sys.malloc os.calls (t.sizeof * n + t.alignof + pointer_size)

  -- For a type of alignment above 1 and a `malloc` that finds a block: `allocate` of `n` objects
  -- succeeds with an aligned pointer, the objects lie within the block from there on, and `deallocate`
  -- of the same count, if nobody has written behind them, gives exactly that block back to `free`.
  pub stl_allocate-stl_deallocate :
      (p : ℕ) × (os' : Os) × (stl_allocate (default_allocator sys) t n os ≡ ok (p, os'))
      × (p % t.alignof ≡ 0)
      × (array_block ≤ p)
      × (p + t.sizeof * n ≤ array_block + (t.sizeof * n + t.alignof))
      × ((later : Os)
          → later.word (p + t.sizeof * n) ≡ os'.word (p + t.sizeof * n)
          → stl_deallocate (default_allocator sys) t p n later ≡ ok (log (frees array_block) later))
  unfolding stl_allocate stl_deallocate
  stl_allocate-stl_deallocate =
      let size_ : (t.sizeof * n) % size_mod ≡ t.sizeof * n = mod-eq_of_lt (omega (arith, room)) in
      let plain : Request = record {
        size = t.sizeof * n;
        alignment = t.alignof;
        use_guards = false;
        usage = Usage.stl;
      } in
      let (p, os', done, multiple, above, within, back) =
        allocate-free_aligned sys plain os refl aligns room found in
      (
        p,
        os',
        rw (size_, done),
        multiple,
        above,
        omega (arith, within),
        λ later kept. rw size_ (back later kept),
      )
