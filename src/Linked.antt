-- ===== src/Linked.antt =====
-- `containers::list<T>` of include/marl/containers.hpp. An `Entry` is named by its number among all
-- entries that `grow` has made, and the entries are a function of that number; a pointer is `none` when
-- it is null. `allocations_` is the chain of blocks, the newest first. An entry whose `object` (its
-- `data`) is `none` has no object in it: a destructor of one, or `new` over another, is undefined, as is
-- the use of null.
pub mod Seg
pub mod Chains
pub mod Unlink
pub mod Link
pub mod Move
pub mod Holds
pub mod Grow
pub mod Laws
pub mod Destroy
pub mod Iterate
use mini_marl.Base.{
  put, ℕ, zero, suc, ◌+◌, ◌-◌, ◌*◌, Bool, true, false, List, [], ◌∷◌, Option, none, some, max, ◌==◌,
  if◌then◌else◌, Run, ok, undefined, out_of_fuel, ◌>>=◌, ◌>>◌, marl_assert,
}
use mini_marl.Memory.Interface.{Usage, Request, Allocation, Allocator}
use mini_marl.Memory.Align.{align_up}

pub record Entry (T : Type 0) : Type 0 where
  pub object : Option T
  pub next : Option ℕ
  pub prev : Option ℕ

pub record Linked (T : Type 0) : Type 0 where
  pub entries : ℕ → Entry T
  pub size_ : ℕ
  pub capacity_ : ℕ
  pub allocations_ : List Allocation
  pub free_ : Option ℕ
  pub head_ : Option ℕ

abbrev pub is_null : {A : Type 0} → Option A → Bool
is_null none = true
is_null (some a) = false

-- `if (p) p->next = v;`
abbrev pub set_next : {T : Type 0} → Option ℕ → Option ℕ → (ℕ → Entry T) → ℕ → Entry T
set_next none v s = s
set_next (some p) v s = put p (record (s p) { next = v }) s

-- `if (p) p->prev = v;`
abbrev pub set_prev : {T : Type 0} → Option ℕ → Option ℕ → (ℕ → Entry T) → ℕ → Entry T
set_prev none v s = s
set_prev (some p) v s = put p (record (s p) { prev = v }) s

-- `_list == entry`
abbrev pub points_to : Option ℕ → ℕ → Bool
points_to none e = false
points_to (some p) e = p == e

module _ {T : Type 0} where
  -- The constructor. No entry exists, and the function is of no account.
  unfoldable pub new_list : Linked T
  new_list = record {
    entries = λ _. record { object = none; next = none; prev = none };
    size_ = 0;
    capacity_ = 0;
    allocations_ = [];
    free_ = none;
    head_ = none;
  }

  -- `unlink(entry, _list)`, which returns the entries and the new `_list`.
  unfoldable pub unlink : ℕ → Option ℕ → (ℕ → Entry T) → (ℕ → Entry T) × Option ℕ
  unlink e list s =
      let list' = if points_to list e then (s e).next else list in
      let s1 = set_next (s e).prev (s e).next s in
      let s2 = set_prev (s1 e).next (s1 e).prev s1 in
      (put e (record (s2 e) { prev = none; next = none }) s2, list')

  -- `link(entry, _list)`
  unfoldable pub link : ℕ → Option ℕ → (ℕ → Entry T) → Run ((ℕ → Entry T) × Option ℕ)
  link e list s = do
    marl_assert (is_null (s e).next)
    marl_assert (is_null (s e).prev)
    let s1 = if is_null list then s else put e (record (s e) { next = list }) s
    ok (set_prev list (some e) s1, some e)

  -- The body of the loop of `grow`.
  unfoldable pub add_free : ℕ → Linked T → Linked T
  add_free e l = record l {
    entries =
        set_prev l.free_ (some e)
          (put e (record { object = none; next = l.free_; prev = none }) l.entries);
    free_ = some e;
  }

  unfoldable pub add_entries : ℕ → ℕ → Linked T → Linked T
  unfolding add_free
  add_entries zero e l = l
  add_entries (suc n) e l = add_entries n (e + 1) (add_free e l)

  -- `new(&entry->data) T(v)`
  unfoldable pub construct : ℕ → T → (ℕ → Entry T) → Run (ℕ → Entry T)
  construct e v s =
      if is_null (s e).object then ok (put e (record (s e) { object = some v }) s) else undefined

  -- `entry->data.~T()`
  unfoldable pub destruct : ℕ → (ℕ → Entry T) → Run (ℕ → Entry T)
  destruct e s =
      if is_null (s e).object then undefined else ok (put e (record (s e) { object = none }) s)

  -- `erase(it)`
  unfoldable pub erase : Option ℕ → Linked T → Run (Linked T)
  unfolding unlink link destruct
  erase none l = undefined
  erase (some e) l = do
    let (s1, head') = unlink e l.head_ l.entries
    (s2, free') ← link e l.free_ s1
    s3 ← destruct e s2
    ok (record l { entries = s3; head_ = head'; free_ = free'; size_ = l.size_ - 1 })

  -- `begin()`; `end()` is the null pointer.
  unfoldable pub begin : Linked T → Option ℕ
  begin l = l.head_

  abbrev pub use_object : Option T → Run T
  use_object none = undefined
  use_object (some v) = ok v

  -- `*it`
  unfoldable pub deref : Option ℕ → (ℕ → Entry T) → Run T
  deref none s = undefined
  deref (some e) s = use_object (s e).object

  -- `++it`
  unfoldable pub increment : Option ℕ → (ℕ → Entry T) → Run (Option ℕ)
  increment none s = undefined
  increment (some e) s = ok (s e).next

  -- The loop of the destructor over the elements, on fuel.
  unfoldable pub destroy_elements : ℕ → Option ℕ → (ℕ → Entry T) → Run (ℕ → Entry T)
  unfolding destruct
  destroy_elements fuel none s = ok s
  destroy_elements zero (some e) s = out_of_fuel
  destroy_elements (suc fuel) (some e) s = do
    s' ← destruct e s
    destroy_elements fuel (s' e).next s'

-- The sizes and alignments of `Entry` and `AllocationChain`.
module _ (entry_size chain_size entry_align chain_align : ℕ) where
  unfoldable pub grow_request : ℕ → Request
  grow_request count = record {
    size = align_up (entry_size * count) chain_align + chain_size;
    alignment = max entry_align chain_align;
    use_guards = false;
    usage = Usage.list;
  }

module _ {S : Type 0} (allocator : Allocator S) where
  -- The loop of the destructor over `allocations_`.
  unfoldable pub free_all : List Allocation → S → Run S
  free_all [] st = ok st
  free_all (a ∷ rest) st = do st' ← allocator.free a st; free_all rest st'

module _ {S T : Type 0} (allocator : Allocator S)
    (entry_size chain_size entry_align chain_align : ℕ) where
  unfoldable pub grow : ℕ → Linked T × S → Run (Linked T × S)
  unfolding add_entries grow_request
  grow count (l, st) = do
    (a, st') ←
        allocator.allocate (grow_request entry_size chain_size entry_align chain_align count) st
    let l1 = add_entries count l.capacity_ l
    ok (record l1 { allocations_ = a ∷ l1.allocations_; capacity_ = l1.capacity_ + count }, st')

  -- The part of `emplace_front` behind its test, for the first free entry.
  unfoldable pub take_free : Option ℕ → T → Linked T × S → Run (ℕ × (Linked T × S))
  unfolding unlink link construct
  take_free none v (l, st) = undefined
  take_free (some e) v (l, st) = do
    let (s1, free') = unlink e l.free_ l.entries
    (s2, head') ← link e l.head_ s1
    s3 ← construct e v s2
    ok (e, (record l { entries = s3; free_ = free'; head_ = head'; size_ = l.size_ + 1 }, st))

  -- `emplace_front(v)`, which returns the iterator to the new entry.
  unfoldable pub emplace_front : T → Linked T × S → Run (ℕ × (Linked T × S))
  unfolding grow take_free
  emplace_front v (l, st) = do
    (l1, st1) ← if is_null l.free_ then grow (max l.capacity_ 8) (l, st) else ok (l, st)
    take_free l1.free_ v (l1, st1)

module _ {S T : Type 0} (allocator : Allocator S) where
  -- `~list`
  unfoldable pub destroy : Linked T × S → Run S
  unfolding destroy_elements free_all
  destroy (l, st) = do
    s ← destroy_elements l.size_ l.head_ l.entries
    free_all allocator l.allocations_ st
