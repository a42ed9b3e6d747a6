-- ===== src/Memory/Objects.antt =====
-- `create`, `destroy`, `make_unique_n` and the `Deleter` of include/marl/memory.hpp, over any
-- allocator. The construction and the destruction of the objects touch no memory of the allocator.
use mini_marl.Base.{
  ℕ, ◌+◌, ◌*◌, ◌%◌, ◌≤◌, ◌<◌, ◌≡◌, ◌≢◌, refl, false, Option, none, some, arith, ◌==◌, if◌then◌else◌,
  Run, ok, abort, undefined, out_of_fuel, ◌>>=◌,
}
use mini_marl.Memory.Align.{size_mod}
use mini_marl.Memory.Interface.{Usage, Request, Allocation, Allocator}
use mini_marl.Memory.Default.{Os, System, frees, pointer_size, log, free, default_allocator}
use mini_marl.Memory.Blocks.{allocate-free_aligned}

-- `sizeof(T)` and `alignof(T)`
pub record Layout : Type 0 where
  pub sizeof : ℕ
  pub alignof : ℕ

-- What a `unique_ptr` holds: the pointer, and the count of its `Deleter`.
pub record UniquePtr : Type 0 where
  pub ptr : ℕ
  pub count : ℕ

-- The request of `create`, which `destroy` builds again.
abbrev pub create_request : Layout → Request
create_request t = record {
  size = t.sizeof;
  alignment = t.alignof;
  use_guards = false;
  usage = Usage.create;
}

abbrev pub array_request : Layout → ℕ → Request
array_request t n = record {
  size = (t.sizeof * n) % size_mod;
  alignment = t.alignof;
  use_guards = false;
  usage = Usage.create;
}

-- The request that the `Deleter` builds has the alignment of a default `Request`.
abbrev pub deleter_request : Layout → ℕ → Request
deleter_request t n = record {
  size = (t.sizeof * n) % size_mod;
  alignment = 0;
  use_guards = false;
  usage = Usage.create;
}

module _ {S : Type 0} (allocator : Allocator S) where
  unfoldable pub create : Layout → S → Run (ℕ × S)
  create t s = do (alloc, s') ← allocator.allocate (create_request t) s; ok (alloc.ptr, s')

  unfoldable pub destroy : Layout → ℕ → S → Run S
  destroy t object s = allocator.free (record { ptr = object; request = create_request t }) s

  -- With no element the result is the null pointer.
  unfoldable pub make_unique_n : Layout → ℕ → S → Run (Option UniquePtr × S)
  make_unique_n t n s =
      let made = allocator.allocate (array_request t n) s >>= λ r.
      ok (some (record { ptr = r.0.ptr; count = n }), r.1) in
      if n == 0 then ok (none, s) else made

  -- `make_shared`, whose `shared_ptr` has a `Deleter` of one object.
  unfoldable pub make_shared : Layout → S → Run (UniquePtr × S)
  make_shared t s = do
    (alloc, s') ← allocator.allocate (create_request t) s
    ok (record { ptr = alloc.ptr; count = 1 }, s')

  -- For a type of less than 2 ^ 64 bytes: `make_unique` asks the allocator for what `make_shared` asks,
  -- and both hold the same pointer with the same `Deleter`.
  make_unique_n-make_shared :
      (t : Layout) (s : S)
      → t.sizeof < size_mod
      → make_unique_n t 1 s ≡ (make_shared t s >>= λ r. ok (some r.0, r.1))
  unfolding make_unique_n make_shared
  make_unique_n-make_shared t s fits =
      let one : (t.sizeof * 1) % size_mod ≡ t.sizeof = omega arith in
      rw one (joined (allocator.allocate (create_request t) s))
    where
      one_ptr : Allocation × S → UniquePtr × S
      one_ptr a = (record { ptr = a.0.ptr; count = 1 }, a.1)

      full : UniquePtr × S → Run (Option UniquePtr × S)
      full u = ok (some u.0, u.1)

      joined :
          (r : Run (Allocation × S))
          → (r >>= λ a. full (one_ptr a)) ≡ (r >>= (λ a. ok (one_ptr a)) >>= full)
      joined (ok a) = refl
      joined abort = refl
      joined undefined = refl
      joined out_of_fuel = refl

  -- `Deleter::operator()`
  unfoldable pub delete_unique : Layout → UniquePtr → S → Run S
  delete_unique t u s =
      allocator.free (record { ptr = u.ptr; request = deleter_request t u.count }) s

module _ (sys : System) (t : Layout) (os : Os) (aligns : 1 < t.alignof)
    (room : sys.malloc os.calls (t.sizeof + t.alignof + pointer_size)
        + (t.sizeof + t.alignof + pointer_size)
      ≤ size_mod)
    (found : 0 < sys.malloc os.calls (t.sizeof + t.alignof + pointer_size)) where
  abbrev object_block : ℕ
  object_block = sys.malloc os.calls (t.sizeof + t.alignof + pointer_size)

  -- With the default allocator, a type of alignment above 1 and a `malloc` that finds a block:
  -- `create` succeeds with an aligned pointer, and `destroy`, if nobody has written behind the object,
  -- gives back to `free` exactly the block that `malloc` returned.
  create-destroy :
      (p : ℕ) × (os' : Os) × (create (default_allocator sys) t os ≡ ok (p, os'))
      × (p % t.alignof ≡ 0)
      × ((later : Os)
          → later.word (p + t.sizeof) ≡ os'.word (p + t.sizeof)
          → destroy (default_allocator sys) t p later ≡ ok (log (frees object_block) later))
  unfolding create destroy
  create-destroy =
      let (p, os', done, multiple, above, within, back) =
        allocate-free_aligned sys (create_request t) os refl aligns room found in
      (p, os', rw done, multiple, back)

  -- A finding: with a type of alignment above 1 and a block of `malloc` that is not aligned for it,
  -- `make_unique` (one element) succeeds, and its `Deleter` passes to `free` a pointer that `malloc`
  -- never returned, for it frees as if the memory had been asked for without an alignment.
  pub make_unique-delete_unique_wild :
      t.sizeof < size_mod
      → object_block % t.alignof ≢ 0
      → (u : UniquePtr) × (os' : Os) × (make_unique_n (default_allocator sys) t 1 os
          ≡ ok (some u, os'))
        × (u.ptr ≢ object_block)
        × ((later : Os)
            → delete_unique (default_allocator sys) t u later ≡ ok (log (frees u.ptr) later))
  unfolding make_unique_n delete_unique free
  make_unique-delete_unique_wild fits uneven =
      let (p, os', done, multiple, above, within, back) =
        allocate-free_aligned sys (create_request t) os refl aligns room found in
      let one : (t.sizeof * 1) % size_mod ≡ t.sizeof = omega arith in
      (
        record { ptr = p; count = 1 },
        os',
        rw (one, done),
        λ e. uneven (rw e at multiple),
        λ later. refl,
      )
