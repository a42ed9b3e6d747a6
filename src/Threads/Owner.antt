-- ===== src/Threads/Owner.antt =====
-- Who owns the threads of a program.
use mini_marl.Base.{
  put, put_cases, ℕ, ◌+◌, ◌≤◌, ◌≡◌, ◌≢◌, ◌⊎◌, refl, sym, ap, ◌∙◌, true, false, List, [], ◌∷◌, none,
  some, arith, ◌==◌, Bool-cases, inl, inr,
}
use mini_marl.Threads.{
  Impl, running, returned, deleted, Threads, Thread, set_affinity, Program, return_at, no_threads,
}

-- Each `Impl` that has not been deleted belongs to exactly one variable, and no variable points to a
-- deleted one.
pub record Owned (p : Program) : Type 0 where
  pub fresh : (i : ℕ) → p.threads.next ≤ i → p.threads.impl i ≡ deleted
  pub live : (v i : ℕ) → p.variable v ≡ some i → p.threads.impl i ≢ deleted
  pub alone : (v w i : ℕ) → p.variable v ≡ some i → p.variable w ≡ some i → v ≡ w
  pub kept : (i : ℕ) → p.threads.impl i ≢ deleted → (v : ℕ) × (p.variable v ≡ some i)

pub no_threads-Owned : Owned no_threads
no_threads-Owned = record {
  fresh = λ i h. refl;
  live = λ v i h. absurd (cc);
  alone = λ v w i h k. absurd (cc);
  kept = λ i h. absurd (h refl);
}

pub set_affinity-impl :
    (cs : List ℕ) (i : ℕ) (s : Threads)
    → ((set_affinity cs i s).impl ≡ s.impl) × ((set_affinity cs i s).next ≡ s.next)
unfolding set_affinity
set_affinity-impl [] i s = (refl, refl)
set_affinity-impl (c ∷ cs) i s = (refl, refl)

-- Which variable points to an `Impl` after one was written.
put_inv :
    (v u i : ℕ) (t : Thread) (f : ℕ → Thread)
    → put v t f u ≡ some i
    → (v ≡ u) × (t ≡ some i) ⊎ ((v == u) ≡ false) × (f u ≡ some i)
put_inv v u i t f h = elim (put_cases v u t f) [
  | inl (same, now) ↦ inl (same, sym now ∙ h)
  | inr (other, now) ↦ inr (other, sym now ∙ h)
]

-- No variable points to an `Impl` that does not exist yet.
pub unborn : (p : Program) → Owned p → (u : ℕ) → p.variable u ≡ some p.threads.next → ⊥
unborn p o u h = o.live u p.threads.next h (o.fresh p.threads.next (omega arith))

-- A variable with a thread is not one without.
not_empty : (v u i : ℕ) (f : ℕ → Thread) → f v ≡ none → f u ≡ some i → (v == u) ≡ false
not_empty v u i f e h = elim (Bool-cases (v == u)) [
  | inl same ↦ absurd (let j : v ≡ u = ground (arith, same) in let k = ap f j in cc)
  | inr other ↦ other
]

-- A new thread in a variable that had none.
pub start-Owned :
    (v : ℕ) (p : Program) (s : Threads)
    → Owned p
    → p.variable v ≡ none
    → s.next ≡ p.threads.next + 1
    → s.impl ≡ put p.threads.next running p.threads.impl
    → Owned (record { threads = s; variable = put v (some p.threads.next) p.variable })
start-Owned v p s o empty n e = record {
  fresh = λ i low.
      let other : (p.threads.next == i) ≡ false = ground (arith, low, n) in
      ap (λ f. f i) e ∙ rw other (o.fresh i (omega (arith, low, n)));
  live = live_;
  alone = alone_;
  kept = kept_;
}
  where
    live_ : (u i : ℕ) → put v (some p.threads.next) p.variable u ≡ some i → s.impl i ≢ deleted
    live_ u i h dead = elim (put_cases p.threads.next i running p.threads.impl) [
      | inl (_, now) ↦ absurd (let k = sym now ∙ sym (ap (λ f. f i) e) ∙ dead in cc)
      | inr (other, now) ↦ elim (put_inv v u i (some p.threads.next) p.variable h) [
        | inl (_, own) ↦ absurd (let j : p.threads.next ≡ i = cc in ground (arith, j, other))
        | inr (_, old) ↦ o.live u i old (sym now ∙ sym (ap (λ f. f i) e) ∙ dead)
      ]
    ]

    alone_ :
        (u w i : ℕ)
        → put v (some p.threads.next) p.variable u ≡ some i
        → put v (some p.threads.next) p.variable w ≡ some i
        → u ≡ w
    alone_ u w i h k = elim (put_inv v u i (some p.threads.next) p.variable h) [
      | inl (a, first) ↦ elim (put_inv v w i (some p.threads.next) p.variable k) [
        | inl (b, _) ↦ sym a ∙ b
        | inr (_, old) ↦ absurd (unborn p o w (old ∙ sym first))
      ]
      | inr (_, c) ↦ elim (put_inv v w i (some p.threads.next) p.variable k) [
        | inl (_, first) ↦ absurd (unborn p o u (c ∙ sym first))
        | inr (_, d) ↦ o.alone u w i c d
      ]
    ]

    kept_ :
        (i : ℕ) → s.impl i ≢ deleted → (u : ℕ) × (put v (some p.threads.next) p.variable u ≡ some i)
    kept_ i h = elim (put_cases p.threads.next i running p.threads.impl) [
      | inl (same, _) ↦ (v, rw (let k : (v == v) ≡ true = ground arith in k) (ap some same))
      | inr (_, now) ↦
          let (u, old) = o.kept i (λ d. h (ap (λ f. f i) e ∙ now ∙ d)) in
          (u, rw (not_empty v u i p.variable empty old) old)
    ]

-- A thread moves from one variable to another, which had none.
pub move-Owned :
    (v w : ℕ) (p : Program)
    → Owned p
    → p.variable v ≡ none
    → Owned (record p { variable = put w none (put v (p.variable w) p.variable) })
move-Owned v w p o empty = record { fresh = o.fresh; live = live_; alone = alone_; kept = kept_ }
  where
    moved : ℕ → Thread
    moved = put w none (put v (p.variable w) p.variable)

    before :
        (u i : ℕ)
        → moved u ≡ some i
        → (v ≡ u) × (p.variable w ≡ some i) ⊎ ((w == u) ≡ false) × (p.variable u ≡ some i)
    before u i h = elim (put_inv w u i none (put v (p.variable w) p.variable) h) [
      | inl (_, wrong) ↦ absurd (cc)
      | inr (apart, h') ↦ elim (put_inv v u i (p.variable w) p.variable h') [
        | inl (same, there) ↦ inl (same, there)
        | inr (_, there) ↦ inr (apart, there)
      ]
    ]

    live_ : (u i : ℕ) → moved u ≡ some i → p.threads.impl i ≢ deleted
    live_ u i h = elim (before u i h) [
      | inl (_, there) ↦ o.live w i there
      | inr (_, there) ↦ o.live u i there
    ]

    alone_ : (u x i : ℕ) → moved u ≡ some i → moved x ≡ some i → u ≡ x
    alone_ u x i h k = elim (before u i h) [
      | inl (a, there) ↦ elim (before x i k) [
        | inl (b, _) ↦ sym a ∙ b
        | inr (apart, old) ↦ absurd (ground (arith, apart, o.alone w x i there old))
      ]
      | inr (apart, old) ↦ elim (before x i k) [
        | inl (_, there) ↦ absurd (ground (arith, apart, o.alone w u i there old))
        | inr (_, old') ↦ o.alone u x i old old'
      ]
    ]

    kept_ : (i : ℕ) → p.threads.impl i ≢ deleted → (u : ℕ) × (moved u ≡ some i)
    kept_ i h =
        let (u, old) = o.kept i h in
        let other = not_empty v u i p.variable empty old in
        elim (Bool-cases (w == u)) [
          | inl same ↦
              let here : w ≡ u = ground (arith, same) in
              let apart : (w == v) ≡ false = ground (arith, other, here) in
              let own : (v == v) ≡ true = ground arith in
              (v, rw (apart, own) (ap p.variable here ∙ old))
          | inr apart ↦ (u, rw (apart, other) old)
        ]

-- A variable loses its thread, whose `Impl` is deleted.
pub join-Owned :
    (v i : ℕ) (p : Program)
    → Owned p
    → p.variable v ≡ some i
    → Owned (record {
      threads = record p.threads { impl = put i deleted p.threads.impl };
      variable = put v none p.variable;
    })
join-Owned v i p o own = record { fresh = fresh_; live = live_; alone = alone_; kept = kept_ }
  where
    after : ℕ → Impl
    after = put i deleted p.threads.impl

    before :
        (u j : ℕ) → put v none p.variable u ≡ some j → ((v == u) ≡ false) × (p.variable u ≡ some j)
    before u j h = elim (put_inv v u j none p.variable h) [
      | inl (_, wrong) ↦ absurd (cc)
      | inr k ↦ k
    ]

    fresh_ : (j : ℕ) → p.threads.next ≤ j → after j ≡ deleted
    fresh_ j low = elim (put_cases i j deleted p.threads.impl) [
      | inl (_, now) ↦ now
      | inr (_, now) ↦ now ∙ o.fresh j low
    ]

    live_ : (u j : ℕ) → put v none p.variable u ≡ some j → after j ≢ deleted
    live_ u j h dead = elim (put_cases i j deleted p.threads.impl) [
      | inl (same, _) ↦
          let (apart, old) = before u j h in
          absurd (ground (arith, apart, o.alone v u j (own ∙ ap some same) old))
      | inr (_, now) ↦ o.live u j (before u j h).1 (sym now ∙ dead)
    ]

    alone_ :
        (u x j : ℕ) → put v none p.variable u ≡ some j → put v none p.variable x ≡ some j → u ≡ x
    alone_ u x j h k = o.alone u x j (before u j h).1 (before x j k).1

    kept_ : (j : ℕ) → after j ≢ deleted → (u : ℕ) × (put v none p.variable u ≡ some j)
    kept_ j h = elim (put_cases i j deleted p.threads.impl) [
      | inl (_, now) ↦ absurd (h now)
      | inr (apart, now) ↦
          let (u, old) = o.kept j (λ d. h (now ∙ d)) in
          elim (Bool-cases (v == u)) [
            | inl same ↦
                let here : v ≡ u = ground (arith, same) in
                let twice : some i ≡ some j = sym own ∙ ap p.variable here ∙ old in
                absurd (let k : i ≡ j = cc in ground (arith, apart, k))
            | inr other ↦ (u, rw other old)
          ]
    ]

-- The function of a thread returns.
pub return-Owned :
    (i : ℕ) (m : Impl) (p : Program)
    → Owned p
    → p.threads.impl i ≡ m
    → Owned (record p { threads = return_at m i p.threads })
return-Owned i returned p o e = o
return-Owned i deleted p o e = o
return-Owned i running p o e = record {
  fresh = λ j low. elim (put_cases i j returned p.threads.impl) [
    | inl (same, _) ↦ absurd (let old = o.fresh j low in let here = ap p.threads.impl same in cc)
    | inr (_, now) ↦ now ∙ o.fresh j low
  ];
  live = λ u j h dead. elim (put_cases i j returned p.threads.impl) [
    | inl (_, now) ↦ absurd (cc)
    | inr (_, now) ↦ o.live u j h (sym now ∙ dead)
  ];
  alone = o.alone;
  kept = λ j h. elim (put_cases i j returned p.threads.impl) [
    | inl (same, _) ↦ o.kept j (λ d. let here = ap p.threads.impl same in cc)
    | inr (_, now) ↦ o.kept j (λ d. h (now ∙ d))
  ];
}
