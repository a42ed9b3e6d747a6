-- ===== src/Vector.antt =====
-- `containers::vector<T, BASE_CAPACITY>` of include/marl/containers.hpp. Memory is a list of cells,
-- one for each element that fits: `none` is a cell with no object in it. `new` constructs in a cell
-- that is there and empty, and a destructor or a read wants an object; all else is undefined.
pub mod Refine
pub mod Laws
pub mod Resize
use mini_marl.Base.{
  ℕ, zero, suc, ◌+◌, ◌-◌, ◌*◌, ◌≤◌, ◌<◌, ◌≡◌, Bool, true, false, List, [], ◌∷◌, Option, none, some,
  max, ltb, ◌==◌, if◌then◌else◌, get_elem?, set, replicate, Run, ok, undefined, ◌>>=◌, ◌>>◌,
  marl_assert,
}

module _ {T : Type 0} where
  unfoldable pub construct_at : Option (Option T) → List (Option T) → ℕ → T → Run (List (Option T))
  construct_at (some none) cells i v = ok (set cells i (some v))
  construct_at _ cells i v = undefined

  -- `new (&elements[i]) T(v)`
  unfoldable pub construct : List (Option T) → ℕ → T → Run (List (Option T))
  unfolding construct_at
  construct cells i v = construct_at (get_elem? cells i) cells i v

  unfoldable pub read_at : Option (Option T) → Run T
  read_at (some (some v)) = ok v
  read_at _ = undefined

  -- `elements[i]`, a use of the object
  unfoldable pub read : List (Option T) → ℕ → Run T
  unfolding read_at
  read cells i = read_at (get_elem? cells i)

  -- `elements[i].~T()`
  unfoldable pub destruct : List (Option T) → ℕ → Run (List (Option T))
  unfolding read
  destruct cells i = do v ← read cells i; ok (set cells i none)

-- Where `elements_` points: into the vector itself, to a block of the allocator, or nowhere.
pub data Elements (T : Type 0) : Type 0 where
  buffer : Elements T
  block : Elements T
  null : Elements T

-- `allocation_` is the block; its pointer is null when there is none.
pub record Vector (T : Type 0) : Type 0 where
  pub count_ : ℕ
  pub capacity_ : ℕ
  pub buffer_ : List (Option T)
  pub elements_ : Elements T
  pub allocation_ : Option (List (Option T))

module _ {T : Type 0} where
  -- The constructor, with an empty buffer of `BASE_CAPACITY` cells.
  unfoldable pub new : ℕ → Vector T
  new base_capacity = record {
    count_ = 0;
    capacity_ = base_capacity;
    buffer_ = replicate base_capacity none;
    elements_ = buffer;
    allocation_ = none;
  }

  unfoldable pub cells_of :
      Elements T → List (Option T) → Option (List (Option T)) → Run (List (Option T))
  cells_of buffer buf alloc = ok buf
  cells_of block buf none = undefined
  cells_of block buf (some cells) = ok cells
  cells_of null buf alloc = ok []

  -- The memory behind `elements_`; there is none behind the null pointer.
  unfoldable pub cells : Vector T → Run (List (Option T))
  unfolding cells_of
  cells v = cells_of v.elements_ v.buffer_ v.allocation_

  unfoldable pub put_cells : Elements T → List (Option T) → Vector T → Vector T
  put_cells buffer cs v = record v { buffer_ = cs }
  put_cells block cs v = record v { allocation_ = some cs }
  put_cells null cs v = v

  unfoldable pub with_cells : List (Option T) → Vector T → Vector T
  unfolding put_cells
  with_cells cs v = put_cells v.elements_ cs v

  -- `for (i = 0; i < n; ++i) elements[i].~T()`, from the index `i` for `n` rounds.
  unfoldable pub destruct_all : ℕ → ℕ → List (Option T) → Run (List (Option T))
  unfolding destruct
  destruct_all zero i cs = ok cs
  destruct_all (suc n) i cs = do cs' ← destruct cs i; destruct_all n (i + 1) cs'

  unfoldable pub release : Option (List (Option T)) → Vector T → Vector T
  release none v = v
  release (some _) v = record v { allocation_ = none; elements_ = null }

  -- `free()`
  unfoldable pub free : Vector T → Run (Vector T)
  unfolding cells with_cells destruct_all release
  free v = do
    cs ← cells v
    cs' ← destruct_all v.count_ 0 cs
    ok (release v.allocation_ (with_cells cs' v))

  -- `reserve` moves the objects; a moved-from object is still there to be destroyed.
  unfoldable pub move_all : ℕ → ℕ → List (Option T) → List (Option T) → Run (List (Option T))
  unfolding construct read
  move_all zero i from to = ok to
  move_all (suc n) i from to = do
    x ← read from i
    to' ← construct to i x
    move_all n (i + 1) from to'

  -- The reallocation in `reserve`; the allocator finds the memory, so that its size has not wrapped.
  unfoldable pub grow : ℕ → Vector T → Run (Vector T)
  unfolding cells move_all free
  grow n v = do
    let capacity' = max (n * 2) 8
    cs ← cells v
    grown ← move_all v.count_ 0 cs (replicate capacity' none)
    w ← free v
    ok (record w { capacity_ = capacity'; elements_ = block; allocation_ = some grown })

  unfoldable pub reserve : ℕ → Vector T → Run (Vector T)
  unfolding grow
  reserve n v = if ltb v.capacity_ n then grow n v else ok v

  unfoldable pub push_back : T → Vector T → Run (Vector T)
  unfolding reserve cells construct with_cells
  push_back elem v = do
    w ← reserve (v.count_ + 1) v
    cs ← cells w
    cs' ← construct cs w.count_ elem
    ok (record (with_cells cs' w) { count_ = w.count_ + 1 })

  unfoldable pub pop_back : Vector T → Run (Vector T)
  unfolding cells destruct with_cells
  pop_back v = do
    marl_assert (ltb 0 v.count_)
    cs ← cells v
    cs' ← destruct cs (v.count_ - 1)
    ok (record (with_cells cs' v) { count_ = v.count_ - 1 })

  -- `operator[]`, a read
  unfoldable pub index : ℕ → Vector T → Run T
  unfolding cells read
  index i v = do marl_assert (ltb i v.count_); cs ← cells v; read cs i

  unfoldable pub front : Vector T → Run T
  unfolding cells read
  front v = do marl_assert (ltb 0 v.count_); cs ← cells v; read cs 0

  unfoldable pub back : Vector T → Run T
  unfolding cells read
  back v = do marl_assert (ltb 0 v.count_); cs ← cells v; read cs (v.count_ - 1)

  -- The first loop of `resize`, with `T()` for the new elements.
  unfoldable pub construct_more : ℕ → T → Vector T → Run (Vector T)
  unfolding cells construct with_cells
  construct_more zero x v = ok v
  construct_more (suc n) x v = do
    cs ← cells v
    cs' ← construct cs v.count_ x
    construct_more n x (record (with_cells cs' v) { count_ = v.count_ + 1 })

  -- The second loop.
  unfoldable pub destruct_last : ℕ → Vector T → Run (Vector T)
  unfolding cells destruct with_cells
  destruct_last zero v = ok v
  destruct_last (suc n) v = do
    cs ← cells v
    cs' ← destruct cs (v.count_ - 1)
    destruct_last n (record (with_cells cs' v) { count_ = v.count_ - 1 })

  unfoldable pub resize : T → ℕ → Vector T → Run (Vector T)
  unfolding reserve construct_more destruct_last
  resize x n v = do
    w ← reserve n v
    w' ← construct_more (n - w.count_) x w
    destruct_last (w'.count_ - n) w'

  -- The loop of `operator=`: copies of the other vector's elements are constructed from `i` on.
  unfoldable pub copy_all : ℕ → ℕ → Vector T → List (Option T) → Run (List (Option T))
  unfolding index construct
  copy_all zero i other cs = ok cs
  copy_all (suc n) i other cs = do
    x ← index i other
    cs' ← construct cs i x
    copy_all n (i + 1) other cs'

  -- `operator=(const vector &)`
  unfoldable pub assign : Vector T → Vector T → Run (Vector T)
  unfolding free reserve cells copy_all with_cells
  assign other v = do
    w1 ← free v
    w2 ← reserve other.count_ w1
    let w3 : Vector T = record w2 { count_ = other.count_ }
    cs ← cells w3
    cs' ← copy_all other.count_ 0 other cs
    ok (with_cells cs' w3)

  -- `operator=(vector &&)`: an element that was moved from is still there until `other.resize(0)`, for
  -- which `x` is the default element that is never used. The result is the vector, and `other`.
  unfoldable pub assign_moved : T → Vector T → Vector T → Run (Vector T × Vector T)
  unfolding assign resize
  assign_moved x other v = do w ← assign other v; other' ← resize x 0 other; ok (w, other')
