-- ===== src/Vector/Laws.antt =====
-- What the operations of a vector do to its elements.
use mini_marl.Base.{
  ℕ, zero, suc, ◌+◌, ◌-◌, ◌*◌, ◌≤◌, ◌<◌, ◌≡◌, refl, sym, ◌∙◌, true, false, List, [], ◌∷◌, ◌++◌,
  Option, none, some, max, ltb, arith, length, length-append, get_elem?, replicate, Run, ok, abort,
  undefined, ◌>>=◌, ◌>>◌, marl_assert, Bool-cases, ltb→lt, inl, inr, subst, ap,
}
use mini_marl.Vector.{
  construct, construct_at, read, read_at, destruct, Elements, buffer, block, null, Vector, cells,
  cells_of, with_cells, put_cells, destruct_all, release, free, move_all, grow, reserve, push_back,
  pop_back, index, assign, assign_moved, resize, copy_all,
}
use mini_marl.Vector.Refine.{
  filled, construct-filled, destruct-filled, destruct_all-filled, move_all-filled, Placed, in_block,
  Holds,
}

ltb-suc : (a b : ℕ) → ltb (suc a) (suc b) ≡ ltb a b
ltb-suc a b = ground arith

module _ {T : Type 0} where
  -- An operation succeeds, and leaves a vector with the elements `xs`.
  abbrev pub Leaves : Run (Vector T) → List T → Type 0
  Leaves r xs = (w : Vector T) × (r ≡ ok w) × Holds w xs

  release-count_ :
      (a : Option (List (Option T))) (e : Elements T) (cs : List (Option T)) (v : Vector T)
      → (release a (put_cells e cs v)).count_ ≡ v.count_
  unfolding release put_cells
  release-count_ none buffer cs v = refl
  release-count_ none block cs v = refl
  release-count_ none null cs v = refl
  release-count_ (some _) buffer cs v = refl
  release-count_ (some _) block cs v = refl
  release-count_ (some _) null cs v = refl

  free-succeeds :
      (v : Vector T) (xs : List T)
      → Holds v xs
      → (w : Vector T) × (free v ≡ ok w) × (w.count_ ≡ length xs)
  unfolding free with_cells
  free-succeeds v xs h =
      let cs : List (Option T) = replicate (length xs + h.spare) none in
      (
        release v.allocation_ (with_cells cs v),
        rw
            (
              h.Cells,
              h.Counted,
              destruct_all-filled xs h.spare 0 (length xs + h.spare) [] (filled xs h.spare) refl
                  refl refl,
            )
            refl,
        release-count_ v.allocation_ v.elements_ cs v ∙ h.Counted,
      )

  grow-Leaves :
      (n : ℕ) (v : Vector T) (xs : List T)
      → Holds v xs
      → v.capacity_ < n
      → (w : Vector T) × (grow n v ≡ ok w) × Holds w xs × (n ≤ w.capacity_)
  unfolding grow free filled cells cells_of
  grow-Leaves n v xs h low =
      let (w, e, kept) = free-succeeds v xs h in
      let j : ℕ = max (n * 2) 8 - length xs in
      let room : max (n * 2) 8 ≡ length xs + j = omega (arith, h.Room) in
      let moved : move_all v.count_ 0 (filled xs h.spare) (replicate (max (n * 2) 8) none)
          ≡ ok (filled xs j) =
        rw h.Counted (move_all-filled xs [] xs h.spare j 0 (max (n * 2) 8) refl room refl) in
      (
        record w { capacity_ = max (n * 2) 8; elements_ = block; allocation_ = some (filled xs j) },
        rw (e, h.Cells, moved) refl,
        record {
          spare = j;
          Counted = kept;
          Room = room;
          Cells = refl;
          Place = in_block (filled xs j);
        },
        omega arith,
      )

  -- `reserve` succeeds, keeps the elements and leaves room for as many as asked for.
  pub reserve-Leaves :
      (n : ℕ) (v : Vector T) (xs : List T)
      → Holds v xs
      → (w : Vector T) × (reserve n v ≡ ok w) × Holds w xs × (n ≤ w.capacity_)
  unfolding reserve
  reserve-Leaves n v xs h = elim (Bool-cases (ltb v.capacity_ n)) [
    | inl low ↦ rw low (grow-Leaves n v xs h (ltb→lt v.capacity_ n low))
    | inr enough ↦ rw enough (v, refl, h, ground (arith, enough))
  ]

  pub with_cells-Holds :
      (v : Vector T) (ys : List T) (k n : ℕ)
      → Placed v.elements_ v.allocation_
      → v.capacity_ ≡ length ys + k
      → n ≡ length ys
      → Holds (record (with_cells (filled ys k) v) { count_ = n }) ys
  unfolding cells cells_of with_cells put_cells
  with_cells-Holds v ys k n p room counted = at v.elements_ v.allocation_ p refl refl
    where
      at :
          (e : Elements T) (a : Option (List (Option T)))
          → Placed e a
          → v.elements_ ≡ e
          → v.allocation_ ≡ a
          → Holds (record (put_cells e (filled ys k) v) { count_ = n }) ys
      at buffer (some ds) q he ha = elim q [ ]
      at block none q he ha = elim q [ ]
      at null a q he ha = elim q [ ]
      at buffer none q he ha = record {
        spare = k;
        Counted = counted;
        Room = room;
        Cells = rw he refl;
        Place = p;
      }
      at block (some ds) q he ha = record {
        spare = k;
        Counted = counted;
        Room = room;
        Cells = rw he refl;
        Place = rw he (in_block (filled ys k));
      }

  push_at :
      (x : T) (v : Vector T) (xs : List T) (k : ℕ) (h : Holds v xs)
      → h.spare ≡ suc k
      → Leaves
          (do
            cs ← cells v
            cs' ← construct cs v.count_ x
            ok (record (with_cells cs' v) { count_ = v.count_ + 1 }))
          (xs ++ x ∷ [])
  push_at x v xs k h one_more =
      let built : construct (filled xs h.spare) v.count_ x ≡ ok (filled (xs ++ x ∷ []) k) =
        rw (one_more, h.Counted) (construct-filled xs k x) in
      (
        record (with_cells (filled (xs ++ x ∷ []) k) v) { count_ = v.count_ + 1 },
        rw (h.Cells, built) refl,
        with_cells-Holds v (xs ++ x ∷ []) k (v.count_ + 1) h.Place
            (omega (arith, h.Room, one_more, length-append xs (x ∷ [])))
            (omega (arith, h.Counted, length-append xs (x ∷ []))),
      )

  -- `push_back` succeeds and adds the element behind the others.
  pub push_back-Leaves :
      (x : T) (v : Vector T) (xs : List T) → Holds v xs → Leaves (push_back x v) (xs ++ x ∷ [])
  unfolding push_back
  push_back-Leaves x v xs h =
      let (w, e, k, room) = reserve-Leaves (v.count_ + 1) v xs h in
      rw e (push_at x w xs (k.spare - 1) k (omega (arith, room, h.Counted, k.Room)))

  -- `pop_back` takes the last element away, and asserts when there is none.
  pub pop_back-Leaves :
      (x : T) (v : Vector T) (xs : List T) → Holds v (xs ++ x ∷ []) → Leaves (pop_back v) xs
  unfolding pop_back destruct
  pop_back-Leaves x v xs h =
      let last : v.count_ - 1 ≡ length xs = omega (arith, h.Counted, length-append xs (x ∷ [])) in
      let some_left : ltb 0 v.count_ ≡ true =
        ground (arith, h.Counted, length-append xs (x ∷ [])) in
      let taken : destruct (filled (xs ++ x ∷ []) h.spare) (v.count_ - 1)
          ≡ ok (filled xs (suc h.spare)) =
        rw last (destruct-filled xs h.spare x) in
      (
        record (with_cells (filled xs (suc h.spare)) v) { count_ = v.count_ - 1 },
        rw (some_left, h.Cells, taken) refl,
        with_cells-Holds v xs (suc h.spare) (v.count_ - 1) h.Place
            (omega (arith, h.Room, length-append xs (x ∷ []))) last,
      )

  abbrev pub element : Option T → Run T
  element none = abort
  element (some x) = ok x

  index-filled :
      (xs : List T) (k i : ℕ)
      → (marl_assert (ltb i (length xs)) >> read (filled xs k) i) ≡ element (get_elem? xs i)
  unfolding read read_at filled
  index-filled [] k i = ground arith
  index-filled (x ∷ xs) k zero = ground arith
  index-filled (x ∷ xs) k (suc i) = rw (ltb-suc i (length xs)) (index-filled xs k i)

  -- Indexing gives the element, and asserts past the end.
  pub index-Holds :
      (i : ℕ) (v : Vector T) (xs : List T) → Holds v xs → index i v ≡ element (get_elem? xs i)
  unfolding index read
  index-Holds i v xs h = rw (h.Cells, h.Counted) (index-filled xs h.spare i)

  freed :
      (v : Vector T) (xs : List T)
      → Holds v xs
      → v.elements_ ≡ block
      → (cs : List (Option T)) → v.allocation_ ≡ some cs
      → (w : Vector T) × (free v ≡ ok w) × (w.elements_ ≡ null) × (w.capacity_ ≡ v.capacity_)
  unfolding free with_cells put_cells release
  freed v xs h in_heap cs has =
      let destroyed : destruct_all v.count_ 0 (filled xs h.spare)
          ≡ ok (replicate (length xs + h.spare) none) =
        rw h.Counted (
          destruct_all-filled xs h.spare 0 (length xs + h.spare) [] (filled xs h.spare) refl refl
            refl) in
      (
        record v { elements_ = null; allocation_ = none },
        rw (h.Cells, destroyed, in_heap, has) refl,
        refl,
        refl,
      )

  block_of :
      (e : Elements T) (a : Option (List (Option T)))
      → Placed e a
      → e ≡ block
      → (cs : List (Option T)) × (a ≡ some cs)
  block_of buffer (some ds) q h = elim q [ ]
  block_of block none q h = elim q [ ]
  block_of null a q h = elim q [ ]
  block_of buffer none q h = absurd (cc)
  block_of block (some ds) q h = (ds, refl)

  copy_all-null :
      (n : ℕ) (o : Vector T) (y : T) → index 0 o ≡ ok y → copy_all (suc n) 0 o [] ≡ undefined
  unfolding copy_all construct construct_at
  copy_all-null n o y e = rw e refl

  -- Assignment to a vector whose elements are in a block of the allocator, of at least one element
  -- and of no more than fit: `free` leaves `elements_` null and `capacity_` as it was, `reserve`
  -- allocates nothing, and the first copy is constructed at the null pointer.
  pub assign-undefined :
      (v o : Vector T) (xs ys : List T) (y : T)
      → Holds v xs
      → v.elements_ ≡ block
      → Holds o (y ∷ ys)
      → length (y ∷ ys) ≤ v.capacity_
      → assign o v ≡ undefined
  unfolding assign reserve free cells cells_of
  assign-undefined v o xs ys y h in_heap k fits =
      let (cs, has) = block_of v.elements_ v.allocation_ h.Place in_heap in
      let (w, e, nowhere, same) = freed v xs h in_heap cs has in
      let no_growth : ltb w.capacity_ o.count_ ≡ false = ground (arith, same, k.Counted, fits) in
      let fails : copy_all o.count_ 0 o [] ≡ undefined =
        subst (λ n. copy_all n 0 o [] ≡ undefined) (sym k.Counted)
          (copy_all-null (length ys) o y (index-Holds 0 o (y ∷ ys) k)) in
      rw (e, no_growth, nowhere, fails) refl

  -- The moving assignment fails in the same way.
  pub assign_moved-undefined :
      (x : T) (v o : Vector T) (xs ys : List T) (y : T)
      → Holds v xs
      → v.elements_ ≡ block
      → Holds o (y ∷ ys)
      → length (y ∷ ys) ≤ v.capacity_
      → assign_moved x o v ≡ undefined
  unfolding assign_moved
  assign_moved-undefined x v o xs ys y h in_heap k fits =
      ap (λ r. r >>= λ (w : Vector T). (resize x 0 o >>= λ (p : Vector T). ok (w, p)))
        (assign-undefined v o xs ys y h in_heap k fits)
