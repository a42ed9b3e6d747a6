-- ===== src/Memory/Tracked.antt =====
-- `TrackedAllocator` of include/marl/memory.hpp. Its counters of type size_t count objects and bytes
-- that exist, and are numbers here.
use mini_marl.Base.{
  ℕ, ◌+◌, ◌-◌, ◌≡◌, refl, true, List, [], ◌∷◌, ◌++◌, arith, ltb, leb, ◌==◌, if◌then◌else◌, ind,
  subst, Run, ok, ◌>>=◌, ◌>>◌, marl_assert,
}
use mini_marl.Memory.Interface.{Usage, Request, Allocation, Allocator}

-- The index of a usage in the array `by_usage`.
abbrev pub to_int : Usage → ℕ
to_int Usage.undefined_ = 0
to_int Usage.stack = 1
to_int Usage.create = 2
to_int Usage.vector = 3
to_int Usage.list = 4
to_int Usage.stl = 5

pub record UsageStats : Type 0 where
  pub count : ℕ
  pub bytes : ℕ

-- `Stats`, with `by_usage` as a function of the index.
abbrev pub Stats : Type 0
Stats = ℕ → UsageStats

-- The number of indices, `Usage::Count`
abbrev pub usage_count : ℕ
usage_count = 6

abbrev pub no_stats : Stats
no_stats _ = record { count = 0; bytes = 0 }

sum_of : (UsageStats → ℕ) → Stats → ℕ
sum_of part s = part (s 0) + part (s 1) + part (s 2) + part (s 3) + part (s 4) + part (s 5)

unfoldable pub num_allocations : Stats → ℕ
unfolding sum_of
num_allocations = sum_of (λ u. u.count)

unfoldable pub bytes_allocated : Stats → ℕ
unfolding sum_of
bytes_allocated = sum_of (λ u. u.bytes)

abbrev pub at_usage : Usage → UsageStats → Stats → Stats
at_usage u v s i = if to_int u == i then v else s i

module _ {S : Type 0} (inner : Allocator S) where
  unfoldable pub tracked_allocate : Request → S × Stats → Run (Allocation × (S × Stats))
  tracked_allocate r (s, stats) = do
    let u = stats (to_int r.usage)
    let stats' = at_usage r.usage (record { count = u.count + 1; bytes = u.bytes + r.size }) stats
    (a, s') ← inner.allocate r s
    ok (a, (s', stats'))

  unfoldable pub tracked_free : Allocation → S × Stats → Run (S × Stats)
  tracked_free a (s, stats) = do
    let u = stats (to_int a.request.usage)
    marl_assert (ltb 0 u.count)
    marl_assert (leb a.request.size u.bytes)
    let v : UsageStats = record { count = u.count - 1; bytes = u.bytes - a.request.size }
    s' ← inner.free a s
    ok (s', at_usage a.request.usage v stats)

-- The specification: how many of the live requests have a usage, and their bytes.
pub live_count : ℕ → List Request → ℕ
live_count i [] = 0
live_count i (r ∷ rs) = ind (to_int r.usage == i) + live_count i rs

pub live_bytes : ℕ → List Request → ℕ
live_bytes i [] = 0
live_bytes i (r ∷ rs) = (if to_int r.usage == i then r.size else 0) + live_bytes i rs

live_count-append :
    (i : ℕ) (xs ys : List Request) → live_count i (xs ++ ys) ≡ live_count i xs + live_count i ys
unfolding live_count
live_count-append i [] ys = omega arith
live_count-append i (r ∷ xs) ys = omega (arith, live_count-append i xs ys)

live_bytes-append :
    (i : ℕ) (xs ys : List Request) → live_bytes i (xs ++ ys) ≡ live_bytes i xs + live_bytes i ys
unfolding live_bytes
live_bytes-append i [] ys = omega arith
live_bytes-append i (r ∷ xs) ys = omega (arith, live_bytes-append i xs ys)

module _ {S : Type 0} (inner : Allocator S) where
  -- A history of successful calls from a new tracked allocator, and the requests that are live.
  pub data History : List Request → S × Stats → Type 0 where
    new : (s : S) → History [] (s, no_stats)
    allocated :
        {live : List Request} {t t' : S × Stats} (r : Request) (a : Allocation)
        → History live t
        → tracked_allocate inner r t ≡ ok (a, t')
        → History (r ∷ live) t'
    freed :
        {t t' : S × Stats} (xs ys : List Request) (live : List Request) (a : Allocation)
        → History live t
        → live ≡ xs ++ a.request ∷ ys
        → tracked_free inner a t ≡ ok t'
        → History (xs ++ ys) t'

  abbrev Tracks : List Request → Stats → Type 0
  Tracks live stats =
      (i : ℕ) → ((stats i).count ≡ live_count i live) × ((stats i).bytes ≡ live_bytes i live)

  allocated-Tracks :
      (live : List Request) (r : Request) (a : Allocation) (t t' : S × Stats)
      → Tracks live t.1
      → tracked_allocate inner r t ≡ ok (a, t')
      → Tracks (r ∷ live) t'.1
  unfolding tracked_allocate live_count live_bytes
  allocated-Tracks live r a t t' h e i =
      (ground (arith, h i, h (to_int r.usage)), ground (arith, h i, h (to_int r.usage)))

  freed-Tracks :
      (xs ys : List Request) (a : Allocation) (t t' : S × Stats)
      → Tracks (xs ++ a.request ∷ ys) t.1
      → tracked_free inner a t ≡ ok t'
      → Tracks (xs ++ ys) t'.1
  unfolding tracked_free live_count live_bytes
  freed-Tracks xs ys a t t' h e i = (
    ground (
      arith,
      h i,
      h (to_int a.request.usage),
      live_count-append i xs (a.request ∷ ys),
      live_count-append i xs ys,
    ),
    ground (
      arith,
      h i,
      h (to_int a.request.usage),
      live_bytes-append i xs (a.request ∷ ys),
      live_bytes-append i xs ys,
    ),
  )

  -- After any history of calls on a tracked allocator over any allocator, the statistics of each usage are the number and the bytes of its live allocations.
  pub History-Tracks : {live : List Request} {t : S × Stats} → History live t → Tracks live t.1
  unfolding live_count live_bytes
  History-Tracks (new s) = λ i. (refl, refl)
  History-Tracks (allocated {live = live} {t = t} {t' = t'} r a h e) =
      allocated-Tracks live r a t t' (History-Tracks h) e
  History-Tracks (freed {t = t} {t' = t'} xs ys live a h same e) =
      freed-Tracks xs ys a t t' (subst (λ l. Tracks l t.1) same (History-Tracks h)) e

  -- After any such history, `free` of a live allocation passes both assertions: it does what the
  -- allocator below does, and fails only with it.
  pub History-tracked_free :
      {live : List Request} {t : S × Stats} (xs ys : List Request) (a : Allocation)
      → History live t
      → live ≡ xs ++ a.request ∷ ys
      → (stats : Stats) × (tracked_free inner a t ≡ (inner.free a t.0 >>= λ s. ok (s, stats)))
  unfolding tracked_free live_count live_bytes
  History-tracked_free {t = t} xs ys a h same =
      let i = to_int a.request.usage in
      let held = subst (λ l. Tracks l t.1) same (History-Tracks h) i in
      let counted : ltb 0 (t.1 i).count ≡ true =
        ground (arith, held, live_count-append i xs (a.request ∷ ys)) in
      let measured : leb a.request.size (t.1 i).bytes ≡ true =
        ground (arith, held, live_bytes-append i xs (a.request ∷ ys)) in
      (
        at_usage a.request.usage
            (record { count = (t.1 i).count - 1; bytes = (t.1 i).bytes - a.request.size }) t.1,
        rw (counted, measured),
      )
