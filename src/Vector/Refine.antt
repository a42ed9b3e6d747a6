-- ===== src/Vector/Refine.antt =====
-- A vector that has not been assigned to is the list of its elements.
use mini_marl.Base.{
  ℕ, zero, suc, ◌+◌, ◌≡◌, refl, sym, ap, ◌∙◌, List, [], ◌∷◌, ◌++◌, Option, none, some, arith,
  length, length-append, get_elem?, set, replicate, ok, ◌>>=◌,
}
use mathlib.Core.List.{append_assoc, append-nil}
use mini_marl.Vector.{
  construct, construct_at, read, read_at, destruct, Elements, buffer, block, null, Vector, new,
  cells, cells_of, with_cells, put_cells, destruct_all, move_all,
}

module _ {T : Type 0} where
  -- Memory with objects in front and `k` empty cells behind them.
  unfoldable pub filled : List T → ℕ → List (Option T)
  filled [] k = replicate k none
  filled (x ∷ xs) k = some x ∷ filled xs k

  construct-cons :
      (c : Option T) (cs ds : List (Option T)) (i : ℕ) (x : T)
      → construct cs i x ≡ ok ds
      → construct (c ∷ cs) (suc i) x ≡ ok (c ∷ ds)
  unfolding construct construct_at
  construct-cons c cs ds i x = lift_at (get_elem? cs i)
    where
      lift_at :
          (o : Option (Option T))
          → construct_at o cs i x ≡ ok ds
          → construct_at o (c ∷ cs) (suc i) x ≡ ok (c ∷ ds)
      lift_at none h = absurd (cc)
      lift_at (some none) h = cc
      lift_at (some (some y)) h = absurd (cc)

  destruct-cons :
      (c : Option T) (cs ds : List (Option T)) (i : ℕ)
      → destruct cs i ≡ ok ds
      → destruct (c ∷ cs) (suc i) ≡ ok (c ∷ ds)
  unfolding destruct read read_at
  destruct-cons c cs ds i = lift_at (get_elem? cs i)
    where
      lift_at :
          (o : Option (Option T))
          → (read_at o >>= λ v. ok (set cs i none)) ≡ ok ds
          → (read_at o >>= λ v. ok (c ∷ set cs i none)) ≡ ok (c ∷ ds)
      lift_at none h = absurd (cc)
      lift_at (some none) h = absurd (cc)
      lift_at (some (some y)) h = cc

  pub construct-filled :
      (xs : List T) (k : ℕ) (x : T)
      → construct (filled xs (suc k)) (length xs) x ≡ ok (filled (xs ++ x ∷ []) k)
  unfolding construct filled construct_at
  construct-filled [] k x = refl
  construct-filled (y ∷ xs) k x =
      construct-cons (some y) (filled xs (suc k)) (filled (xs ++ x ∷ []) k) (length xs) x
        (construct-filled xs k x)

  pub read-filled :
      (xs : List T) (k i : ℕ) (x : T) → get_elem? xs i ≡ some x → read (filled xs k) i ≡ ok x
  unfolding read filled read_at
  read-filled [] k i x h = absurd (cc)
  read-filled (y ∷ xs) k zero x h = ground arith
  read-filled (y ∷ xs) k (suc i) x h = read-filled xs k i x h

  pub destruct-filled :
      (xs : List T) (k : ℕ) (x : T)
      → destruct (filled (xs ++ x ∷ []) k) (length xs) ≡ ok (filled xs (suc k))
  unfolding destruct read filled read_at
  destruct-filled [] k x = refl
  destruct-filled (y ∷ xs) k x =
      destruct-cons (some y) (filled (xs ++ x ∷ []) k) (filled xs (suc k)) (length xs)
        (destruct-filled xs k x)

  -- Where the elements are: `elements_` is not null, and a block only when there is one.
  pub data Placed : Elements T → Option (List (Option T)) → Type 0 where
    in_buffer : Placed buffer none
    in_block : (cs : List (Option T)) → Placed block (some cs)

  -- The vector `v` has the elements `xs`, in front, and room for more.
  pub record Holds (v : Vector T) (xs : List T) : Type 0 where
    pub spare : ℕ
    pub Counted : v.count_ ≡ length xs
    pub Room : v.capacity_ ≡ length xs + spare
    pub Cells : cells v ≡ ok (filled xs spare)
    pub Place : Placed v.elements_ v.allocation_

  pub new-Holds : (n : ℕ) → Holds (new n) []
  unfolding new cells cells_of filled
  new-Holds n = record {
    spare = n;
    Counted = refl;
    Room = omega arith;
    Cells = refl;
    Place = in_buffer;
  }

  pub cells-with_cells :
      (v : Vector T) (cs : List (Option T))
      → Placed v.elements_ v.allocation_
      → cells (with_cells cs v) ≡ ok cs
  unfolding cells cells_of with_cells put_cells
  cells-with_cells v cs p = at v.elements_ v.allocation_ p refl refl
    where
      at :
          (e : Elements T) (a : Option (List (Option T)))
          → Placed e a
          → v.elements_ ≡ e
          → v.allocation_ ≡ a
          → cells (put_cells e cs v) ≡ ok cs
      at buffer none in_buffer he ha = rw he refl
      at buffer (some ds) q he ha = elim q [ ]
      at block none q he ha = elim q [ ]
      at null a q he ha = elim q [ ]
      at block (some ds) (in_block _) he ha = rw he refl

  destruct-middle :
      (cs ds : List (Option T)) (x : T)
      → destruct (cs ++ some x ∷ ds) (length cs) ≡ ok (cs ++ none ∷ ds)
  unfolding destruct read read_at
  destruct-middle [] ds x = refl
  destruct-middle (c ∷ cs) ds x =
      destruct-cons c (cs ++ some x ∷ ds) (cs ++ none ∷ ds) (length cs) (destruct-middle cs ds x)

  pub destruct_all-filled :
      (xs : List T) (k i m : ℕ) (cs ds : List (Option T))
      → i ≡ length cs
      → m ≡ length xs + k
      → ds ≡ cs ++ filled xs k
      → destruct_all (length xs) i ds ≡ ok (cs ++ replicate m none)
  unfolding destruct_all filled
  destruct_all-filled [] k i m cs ds hi hm hd =
      rw hd (ap (λ n. ok (cs ++ replicate n none)) (omega (arith, hm)))
  destruct_all-filled (x ∷ xs) k i m cs ds hi hm hd =
      rw (hd, hi, destruct-middle cs (filled xs k) x)
        (destruct_all-filled xs k (length cs + 1) (length xs + k) (cs ++ none ∷ [])
            (cs ++ none ∷ filled xs k) (omega (arith, length-append cs (none ∷ []))) refl
            (sym (append_assoc cs (none ∷ []) (filled xs k)))
          ∙ rw (append_assoc cs (none ∷ []) (replicate (length xs + k) none), one_more) refl)
    where
      one_more : m ≡ suc (length xs + k)
      one_more = omega (arith, hm)

  pub get-middle : (xs ys : List T) (x : T) → get_elem? (xs ++ x ∷ ys) (length xs) ≡ some x
  get-middle [] ys x = refl
  get-middle (y ∷ xs) ys x = get-middle xs ys x

  pub move_all-filled :
      (xs ys zs : List T) (k j i m : ℕ)
      → i ≡ length ys
      → m ≡ length xs + j
      → zs ≡ ys ++ xs
      → move_all (length xs) i (filled zs k) (filled ys m) ≡ ok (filled zs j)
  unfolding move_all
  move_all-filled [] ys zs k j i m hi hm hz =
      rw (hz, append-nil ys) (ap (λ n. ok (filled ys n)) (omega (arith, hm)))
  move_all-filled (x ∷ xs) ys zs k j i m hi hm hz =
      rw
        (
          hi,
          same_room,
          read-filled zs k (length ys) x (rw hz (get-middle ys xs x)),
          construct-filled ys (length xs + j) x,
        )
        (move_all-filled xs (ys ++ x ∷ []) zs k j (length ys + 1) (length xs + j)
          (omega (arith, length-append ys (x ∷ []))) refl (hz ∙ sym (append_assoc ys (x ∷ []) xs)))
    where
      same_room : m ≡ suc (length xs + j)
      same_room = omega (arith, hm)
