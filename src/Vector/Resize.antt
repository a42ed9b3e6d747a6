-- ===== src/Vector/Resize.antt =====
-- `resize` of `containers::vector`: include/marl/containers.hpp.
use mini_marl.Base.{
  ℕ, zero, suc, ◌+◌, ◌-◌, ◌≤◌, ◌≡◌, refl, sym, ap, subst, ◌∙◌, List, [], ◌∷◌, ◌++◌, arith, length,
  length-append, length-replicate, replicate, Option, Run, ltb, false, ok,
}
use mathlib.Core.List.{append-nil, append_assoc}
use mini_marl.Vector.{
  Elements, buffer, block, null, put_cells, Vector, construct, destruct, with_cells, construct_more,
  destruct_last, reserve, resize,
}
use mini_marl.Vector.Refine.{filled, construct-filled, destruct-filled, Holds}
use mini_marl.Vector.Laws.{with_cells-Holds}

module _ {T : Type 0} where
  abbrev pub take : ℕ → List T → List T
  take zero xs = []
  take (suc n) [] = []
  take (suc n) (x ∷ xs) = x ∷ take n xs

  take_all : (n : ℕ) (xs : List T) → length xs ≤ n → take n xs ≡ xs
  take_all zero [] h = refl
  take_all zero (x ∷ xs) h = absurd (omega (arith, h))
  take_all (suc n) [] h = refl
  take_all (suc n) (x ∷ xs) h = ap (λ ys. x ∷ ys) (take_all n xs (omega (arith, h)))

  take-append : (n : ℕ) (xs ys : List T) → n ≤ length xs → take n (xs ++ ys) ≡ take n xs
  take-append zero xs ys h = refl
  take-append (suc n) [] ys h = absurd (omega (arith, h))
  take-append (suc n) (x ∷ xs) ys h = ap (λ zs. x ∷ zs) (take-append n xs ys (omega (arith, h)))

  take_padded :
      (n : ℕ) (xs : List T) (x : T)
      → take n (xs ++ replicate (n - length xs) x) ≡ take n xs ++ replicate (n - length xs) x
  take_padded zero xs x = rw (of_zero (length xs)) refl
    where
      of_zero : (k : ℕ) → 0 - k ≡ 0
      of_zero k = omega arith
  take_padded (suc n) [] x =
      take_all (suc n) (replicate (suc n - 0) x) (omega (arith, length-replicate (suc n - 0) x))
  take_padded (suc n) (y ∷ xs) x =
      rw (suc_minus n (length xs)) (ap (λ zs. y ∷ zs) (take_padded n xs x))
    where
      suc_minus : (m k : ℕ) → suc m - suc k ≡ m - k
      suc_minus m k = omega arith

  -- A list that is not empty ends in an element.
  snoc_cases : (x : T) (xs : List T) → (ys : List T) × (y : T) × (x ∷ xs ≡ ys ++ y ∷ [])
  snoc_cases x [] = ([], x, refl)
  snoc_cases x (z ∷ xs) = let (ys, y, e) = snoc_cases z xs in (x ∷ ys, y, ap (λ zs. x ∷ zs) e)

  -- The elements are where they were, with the same room.
  pub record Stays (v w : Vector T) : Type 0 where
    pub same_capacity : w.capacity_ ≡ v.capacity_
    pub same_elements : w.elements_ ≡ v.elements_

  Stays-trans : (u v w : Vector T) → Stays u v → Stays v w → Stays u w
  Stays-trans u v w a b = record {
    same_capacity = b.same_capacity ∙ a.same_capacity;
    same_elements = b.same_elements ∙ a.same_elements;
  }

  put_cells-Stays :
      (e : Elements T) (cs : List (Option T)) (n : ℕ) (v : Vector T)
      → Stays v (record (put_cells e cs v) { count_ = n })
  unfolding put_cells
  put_cells-Stays buffer cs n v = record { same_capacity = refl; same_elements = refl }
  put_cells-Stays block cs n v = record { same_capacity = refl; same_elements = refl }
  put_cells-Stays null cs n v = record { same_capacity = refl; same_elements = refl }

  with_cells-Stays :
      (cs : List (Option T)) (n : ℕ) (v : Vector T)
      → Stays v (record (with_cells cs v) { count_ = n })
  unfolding with_cells
  with_cells-Stays cs n v = put_cells-Stays v.elements_ cs n v

  abbrev pub LeavesThere : Vector T → Run (Vector T) → List T → Type 0
  LeavesThere v r xs = (w : Vector T) × (r ≡ ok w) × Holds w xs × Stays v w

  -- A round of the loop that constructs.
  construct_one :
      (k : ℕ) (x : T) (v : Vector T) (xs : List T) (j : ℕ) (h : Holds v xs)
      → h.spare ≡ suc j
      → (w : Vector T) × (construct_more (suc k) x v ≡ construct_more k x w)
        × Holds w (xs ++ x ∷ [])
        × Stays v w
  unfolding construct_more
  construct_one k x v xs j h one_more =
      let built : construct (filled xs h.spare) v.count_ x ≡ ok (filled (xs ++ x ∷ []) j) =
        rw (one_more, h.Counted) (construct-filled xs j x) in
      let v' : Vector T = record (with_cells (filled (xs ++ x ∷ []) j) v) {
        count_ = v.count_ + 1;
      } in
      let h' : Holds v' (xs ++ x ∷ []) =
        with_cells-Holds v (xs ++ x ∷ []) j (v.count_ + 1) h.Place
          (omega (arith, h.Room, one_more, length-append xs (x ∷ [])))
          (omega (arith, h.Counted, length-append xs (x ∷ []))) in
      (
        v',
        rw (h.Cells, built) refl,
        h',
        with_cells-Stays (filled (xs ++ x ∷ []) j) (v.count_ + 1) v,
      )

  construct_more-Leaves :
      (k : ℕ) (x : T) (v : Vector T) (xs : List T)
      → Holds v xs
      → length xs + k ≤ v.capacity_
      → LeavesThere v (construct_more k x v) (xs ++ replicate k x)
  unfolding construct_more
  construct_more-Leaves zero x v xs h room = (
    v,
    refl,
    subst (Holds v) (sym (append-nil xs)) h,
    record { same_capacity = refl; same_elements = refl },
  )
  construct_more-Leaves (suc k) x v xs h room =
      let (v', step_, h', stays) =
        construct_one k x v xs (h.spare - 1) h (omega (arith, h.Room, room)) in
      let (w, e, done, stays') =
        construct_more-Leaves k x v' (xs ++ x ∷ []) h'
          (omega (arith, stays.same_capacity, room, length-append xs (x ∷ []))) in
      (
        w,
        step_ ∙ e,
        subst (Holds w) (append_assoc xs (x ∷ []) (replicate k x)) done,
        Stays-trans v v' w stays stays',
      )

  -- A round of the loop that destructs.
  destruct_one :
      (k : ℕ) (x : T) (v : Vector T) (xs : List T)
      → Holds v (xs ++ x ∷ [])
      → (w : Vector T) × (destruct_last (suc k) v ≡ destruct_last k w) × Holds w xs × Stays v w
  unfolding destruct_last
  destruct_one k x v xs h =
      let last : v.count_ - 1 ≡ length xs = omega (arith, h.Counted, length-append xs (x ∷ [])) in
      let taken : destruct (filled (xs ++ x ∷ []) h.spare) (v.count_ - 1)
          ≡ ok (filled xs (suc h.spare)) =
        rw last (destruct-filled xs h.spare x) in
      (
        record (with_cells (filled xs (suc h.spare)) v) { count_ = v.count_ - 1 },
        rw (h.Cells, taken) refl,
        with_cells-Holds v xs (suc h.spare) (v.count_ - 1) h.Place
            (omega (arith, h.Room, length-append xs (x ∷ []))) last,
        with_cells-Stays (filled xs (suc h.spare)) (v.count_ - 1) v,
      )

  destruct_last-Leaves :
      (k : ℕ) (v : Vector T) (xs : List T)
      → Holds v xs
      → k ≤ length xs
      → LeavesThere v (destruct_last k v) (take (length xs - k) xs)
  unfolding destruct_last
  destruct_last-Leaves zero v xs h low = (
    v,
    refl,
    subst (Holds v) (sym (take_all (length xs - 0) xs (omega arith))) h,
    record { same_capacity = refl; same_elements = refl },
  )
  destruct_last-Leaves (suc k) v [] h low = absurd (omega (arith, low))
  destruct_last-Leaves (suc k) v (x ∷ xs) h low =
      let (ys, y, e) = snoc_cases x xs in
      let len = ap length e in
      let count_ = length-append ys (y ∷ []) in
      let (v', step_, h', stays) = destruct_one k y v ys (subst (Holds v) e h) in
      let (w, done, left, stays') =
        destruct_last-Leaves k v' ys h' (omega (arith, low, len, count_)) in
      let fewer : length (x ∷ xs) - suc k ≡ length ys - k = omega (arith, len, count_) in
      let same : take (length ys - k) ys ≡ take (length (x ∷ xs) - suc k) (x ∷ xs) =
        sym (take-append (length ys - k) ys (y ∷ []) (omega arith))
        ∙ sym (ap (take (length ys - k)) e)
        ∙ ap (λ n. take n (x ∷ xs)) (sym fewer) in
      (w, step_ ∙ done, subst (Holds w) same left, Stays-trans v v' w stays stays')

  -- `resize` to `n`, at most the capacity, on a vector that holds `xs` succeeds, and leaves a vector that
  -- holds the first `n` elements of `xs` and, when these are fewer than `n`, default elements `x` behind
  -- them up to `n`, in the memory where the elements were, with the same capacity.
  pub resize-Leaves :
      (x : T) (n : ℕ) (v : Vector T) (xs : List T)
      → Holds v xs
      → n ≤ v.capacity_
      → LeavesThere v (resize x n v) (take n xs ++ replicate (n - length xs) x)
  unfolding resize reserve
  resize-Leaves x n v xs h room =
      let roomy : ltb v.capacity_ n ≡ false = ground (arith, room) in
      let ys : List T = xs ++ replicate (n - length xs) x in
      let long : length ys ≡ length xs + (n - length xs) =
        length-append xs (replicate (n - length xs) x)
        ∙ ap (λ k. length xs + k) (length-replicate (n - length xs) x) in
      let (w', more, hw', stays) =
        construct_more-Leaves (n - length xs) x v xs h (omega (arith, room, h.Room)) in
      let (w'', fewer, hw'', stays') =
        destruct_last-Leaves (length ys - n) w' ys hw' (omega arith) in
      let same : take (length ys - (length ys - n)) ys ≡ take n xs ++ replicate (n - length xs) x =
        ap (λ k. take k ys) (omega (arith, long)) ∙ take_padded n xs x in
      let gap : n - v.count_ ≡ n - length xs = ap (λ k. n - k) h.Counted in
      let gap' : w'.count_ - n ≡ length ys - n = ap (λ k. k - n) hw'.Counted in
      (
        w'',
        rw (roomy, gap, more, gap') fewer,
        subst (Holds w'') same hw'',
        Stays-trans v w' w'' stays stays',
      )
