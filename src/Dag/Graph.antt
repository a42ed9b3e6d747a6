-- ===== src/Dag/Graph.antt =====
-- The edges of a graph that lie before a run, and its counters.
use mini_marl.Base.{
  get-set, ℕ, zero, suc, ◌+◌, ◌%◌, ◌<◌, ◌≤◌, ◌≡◌, refl, subst, ap, ◌∙◌, false, List, [], ◌∷◌, none,
  some, arith, ◌==◌, ind, if◌then◌else◌, count, get_elem?, set, ok, Bool-cases, Option-cases, inl,
  inr,
}
use mini_marl.Dag.{Node, decrement, notify}

module _ {W : Type 0} where
  -- The sum over the nodes that `times` says have not been invoked.
  unfoldable pub sum_left : (Node W → ℕ) → List (Node W) → (ℕ → ℕ) → ℕ
  sum_left f [] times = 0
  sum_left f (n ∷ ns) times = (if times 0 == 0 then f n else 0) + sum_left f ns (λ i. times (suc i))

  sum_left-same :
      (f : Node W → ℕ) (ns : List (Node W)) (r s : ℕ → ℕ)
      → ((i : ℕ) → r i ≡ s i)
      → sum_left f ns r ≡ sum_left f ns s
  unfolding sum_left
  sum_left-same f [] r s h = refl
  sum_left-same f (n ∷ ns) r s h = rw (h 0) (
      ap (λ k. (if s 0 == 0 then f n else 0) + k)
        (sum_left-same f ns (λ i. r (suc i)) (λ i. s (suc i)) (λ i. h (suc i))))

  -- The first invocation of a node takes its part away.
  pub sum_left-invoked :
      (f : Node W → ℕ) (ns : List (Node W)) (r s : ℕ → ℕ) (j : ℕ) (n : Node W)
      → get_elem? ns j ≡ some n
      → r j ≡ 0
      → ((i : ℕ) → s i ≡ ind (j == i) + r i)
      → sum_left f ns s + f n ≡ sum_left f ns r
  unfolding sum_left
  sum_left-invoked f [] r s j n h z e = absurd (cc)
  sum_left-invoked f (m ∷ ns) r s zero n h z e =
      let same : m ≡ n = cc in
      let rest =
        sum_left-same f ns (λ i. s (suc i)) (λ i. r (suc i)) (λ i. ground (arith, e (suc i))) in
      let here : s 0 ≡ 1 = ground (arith, e 0, z) in rw (same, here, z) (omega (arith, rest))
  sum_left-invoked f (m ∷ ns) r s (suc j) n h z e =
      let rest =
        sum_left-invoked f ns (λ i. r (suc i)) (λ i. s (suc i)) j n h z
          (λ i. ground (arith, e (suc i))) in
      let here : s 0 ≡ r 0 = ground (arith, e 0) in rw here (omega (arith, rest))

  -- How many edges lead to `x` from nodes that have not been invoked.
  abbrev pub edges_left : ℕ → List (Node W) → (ℕ → ℕ) → ℕ
  edges_left x ns times = sum_left (λ n. count x n.outs) ns times

  -- No edge is left exactly when all predecessors have been invoked.
  pub edges_left-zero :
      (x : ℕ) (ns : List (Node W)) (r : ℕ → ℕ) (p : ℕ) (n : Node W)
      → edges_left x ns r ≡ 0
      → get_elem? ns p ≡ some n
      → 0 < count x n.outs
      → 0 < r p
  unfolding sum_left
  edges_left-zero x [] r p n z h c = absurd (cc)
  edges_left-zero x (m ∷ ns) r zero n z h c =
      let same : n ≡ m = cc in
      let edge : 0 < count x m.outs = subst (λ k. 0 < count x k.outs) same c in
      ground (arith, edge, z)
  edges_left-zero x (m ∷ ns) r (suc p) n z h c =
      edges_left-zero x ns (λ i. r (suc i)) p n (omega (arith, z)) h c

  pub edges_left_none :
      (x : ℕ) (ns : List (Node W)) (r : ℕ → ℕ)
      → ((p : ℕ) (n : Node W) → get_elem? ns p ≡ some n → 0 < count x n.outs → 0 < r p)
      → edges_left x ns r ≡ 0
  unfolding sum_left
  edges_left_none x [] r h = refl
  edges_left_none x (m ∷ ns) r h =
      let rest = edges_left_none x ns (λ i. r (suc i)) (λ p n e c. h (suc p) n e c) in
      ground (arith, rest, h 0 m refl)

  -- All edges to `x`.
  abbrev pub edges : ℕ → List (Node W) → ℕ
  edges x ns = edges_left x ns (λ _. 0)

  pub edges_left-le : (x : ℕ) (ns : List (Node W)) (r : ℕ → ℕ) → edges_left x ns r ≤ edges x ns
  unfolding sum_left
  edges_left-le x [] r = omega arith
  edges_left-le x (n ∷ ns) r = ground (arith, edges_left-le x ns (λ i. r (suc i)))

  pub edges-source :
      (x : ℕ) (ns : List (Node W))
      → 0 < edges x ns
      → (p : ℕ) × (n : Node W) × (get_elem? ns p ≡ some n) × (0 < count x n.outs)
  unfolding sum_left
  edges-source x [] h = absurd (omega (arith, h))
  edges-source x (n ∷ ns) h = elim (Bool-cases (count x n.outs == 0)) [
    | inl no_edge ↦
        let (p, m, e, c) = edges-source x ns (ground (arith, no_edge, h)) in (suc p, m, e, c)
    | inr edge ↦ (0, n, refl, ground (arith, edge))
  ]

  -- The counters agree with the edges that are left.
  abbrev pub Counts : List (Node W) → List ℕ → (ℕ → ℕ) → Type 0
  Counts ns cs left =
      (x : ℕ) (n : Node W)
      → get_elem? ns x ≡ some n
      → (n.counter_index ≡ none → left x ≤ 1)
        × ((c : ℕ) → n.counter_index ≡ some c → get_elem? cs c ≡ some (left x))

  -- No two nodes share a counter.
  abbrev pub Apart : List (Node W) → Type 0
  Apart ns =
      (x y c : ℕ) (n m : Node W)
      → get_elem? ns x ≡ some n
      → get_elem? ns y ≡ some m
      → n.counter_index ≡ some c
      → m.counter_index ≡ some c
      → x ≡ y

  differ :
      (ns : List (Node W)) (o x c d : ℕ) (n m : Node W)
      → get_elem? ns o ≡ some n
      → get_elem? ns x ≡ some m
      → n.counter_index ≡ some c
      → m.counter_index ≡ some d
      → (c == d) ≡ false
      → (o == x) ≡ false
  differ ns o x c d n m h hx e f other = elim (Bool-cases (o == x)) [
    | inl same ↦
        let node_ : o ≡ x = ground (arith, same) in
        let twice : n ≡ m = let again = subst (λ y. get_elem? ns y ≡ some n) node_ h in cc in
        let same_counter : c ≡ d = let g = ap (λ k. k.counter_index) twice in cc in
        absurd (ground (arith, other, same_counter))
    | inr apart ↦ apart
  ]

  -- The other counters stay, and the one of `o` follows the edges.
  set-Counts :
      (ns : List (Node W)) (cs : List ℕ) (left left' : ℕ → ℕ) (o c : ℕ) (n : Node W)
      → Counts ns cs left
      → Apart ns
      → get_elem? ns o ≡ some n
      → n.counter_index ≡ some c
      → ((x : ℕ) → left' x + ind (o == x) ≡ left x)
      → Counts ns (set cs c (left' o)) left'
  set-Counts ns cs left left' o c n k apart h e less x m hx = (
    λ none_. omega (arith, less x, (k x m hx).0 none_),
    λ d some_.
        let wrote = get-set cs c d (left o) (left' o) ((k o n h).1 c e) in
        elim (Bool-cases (c == d)) [
          | inl same ↦
              let own : m.counter_index ≡ some c = ground (arith, some_, same) in
              let node_ : o ≡ x = apart o x c n m h hx e own in
              wrote ∙ rw same (ap (λ y. some (left' y)) node_)
          | inr other ↦
              let apart_ : (o == x) ≡ false = differ ns o x c d n m h hx e some_ other in
              let kept : left x ≡ left' x = omega (arith, less x, ap ind apart_) in
              wrote ∙ rw other ((k x m hx).1 d some_ ∙ ap some kept)
        ],
  )

  -- `notify` of a node to which an edge is left: it succeeds, says whether that was the last edge, and
  -- the counters agree with the edges that are left then.
  pub notify-Counts :
      (ns : List (Node W)) (cs : List ℕ) (left left' : ℕ → ℕ) (o : ℕ) (n : Node W)
      → Counts ns cs left
      → Apart ns
      → get_elem? ns o ≡ some n
      → 1 ≤ left o
      → left o < 4294967296
      → ((x : ℕ) → left' x + ind (o == x) ≡ left x)
      → (cs' : List ℕ) × (notify ns o cs ≡ ok (left' o == 0, cs')) × Counts ns cs' left'
  unfolding notify decrement
  notify-Counts ns cs left left' o n k apart h some_left small less =
      elim (Option-cases n.counter_index) [
        | inl none_ ↦
            let one : left' o ≡ 0 = ground (arith, (k o n h).0 none_, less o, some_left) in
            (cs, rw (h, none_, one) refl, λ x m hx. kept_counter x m hx none_)
        | inr (c, some_) ↦
            let there = (k o n h).1 c some_ in
            let value : (left o + 4294967295) % 4294967296 ≡ left' o =
              ground (arith, less o, some_left, small) in
            (
              set cs c (left' o),
              rw (h, some_, there, value) refl,
              set-Counts ns cs left left' o c n k apart h some_ less,
            )
      ]
    where
      kept_counter :
          (x : ℕ) (m : Node W)
          → get_elem? ns x ≡ some m
          → n.counter_index ≡ none
          → (m.counter_index ≡ none → left' x ≤ 1)
            × ((c : ℕ) → m.counter_index ≡ some c → get_elem? cs c ≡ some (left' x))
      kept_counter x m hx none_ = (
        λ e. omega (arith, less x, (k x m hx).0 e),
        λ c some_. elim (Bool-cases (o == x)) [
          | inl same ↦
              let node_ : o ≡ x = ground (arith, same) in
              let again = subst (λ y. get_elem? ns y ≡ some n) node_ h in
              absurd (let twice : n ≡ m = cc in let g = ap (λ k. k.counter_index) twice in cc)
          | inr other ↦
              let kept : left x ≡ left' x = omega (arith, less x, ap ind other) in
              (k x m hx).1 c some_ ∙ ap some kept
        ],
      )
