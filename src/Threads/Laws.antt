-- ===== src/Threads/Laws.antt =====
-- What the actions of a program do to its threads.
use mini_marl.Base.{
  put, ℕ, ◌+◌, ◌≡◌, ◌≢◌, refl, subst, sym, ap, ◌∙◌, false, List, Option, none, some, arith, ◌==◌,
  Run, ok, abort, undefined, out_of_fuel, ◌>>=◌, ◌>>◌, Bool-cases, Option-cases, inl, inr,
}
use mini_marl.Threads.{
  Impl, running, returned, deleted, Threads, Thread, new_thread, move_assign, join_at, join,
  end_thread, Program, Action, starts, moves, joins, ends, returns, joined, act, Reached, started,
  acted,
}
use mini_marl.Threads.Owner.{
  Owned, no_threads-Owned, unborn, set_affinity-impl, start-Owned, move-Owned, join-Owned,
  return-Owned,
}

-- A variable with a thread cannot be assigned to.
move_assign-abort :
    (i : ℕ) (rhs : Thread) (s : Threads) (m : Impl)
    → s.impl i ≡ m
    → m ≢ deleted
    → move_assign (some i) rhs s ≡ abort
unfolding move_assign
move_assign-abort i rhs s running e live = rw e refl
move_assign-abort i rhs s returned e live = rw e refl
move_assign-abort i rhs s deleted e live = absurd (live refl)

-- The actions that end the program: they write or leave a variable that has a thread.
abbrev pub Overwrites : Action → Program → Type 0
Overwrites (starts v affinity) p = p.variable v ≢ none
Overwrites (moves v w) p = p.variable v ≢ none
Overwrites (ends v) p = p.variable v ≢ none
Overwrites (joins v) p = ⊥
Overwrites (returns i) p = ⊥

-- The action that is undefined: `join()` of a variable without a thread.
abbrev pub JoinsNone : Action → Program → Type 0
JoinsNone (joins v) p = p.variable v ≡ none
JoinsNone a p = ⊥

-- What an action does to a program whose threads are owned.
abbrev Acts : Action → Program → Run (Option Program) → Type 0
Acts a p (ok none) = Unit
Acts a p (ok (some p')) = Owned p'
Acts a p abort = Overwrites a p
Acts a p undefined = JoinsNone a p
Acts a p out_of_fuel = ⊥

start-Acts :
    (v : ℕ) (affinity : List ℕ) (p : Program)
    → Owned p
    → Acts (starts v affinity) p (act (starts v affinity) p)
unfolding act move_assign end_thread new_thread
start-Acts v affinity p o =
    let made = new_thread affinity p.threads in
    let (e, n) = set_affinity-impl affinity p.threads.next (record {
      next = p.threads.next + 1;
      impl = put p.threads.next running p.threads.impl;
      cpu_set = put p.threads.next none p.threads.cpu_set;
    }) in
    elim (Option-cases (p.variable v)) [
      | inl empty ↦
          let done : act (starts v affinity) p
              ≡ ok (some (record { threads = made.1; variable = put v made.0 p.variable })) =
            rw empty refl in
          subst (Acts (starts v affinity) p) (sym done) (start-Owned v p made.1 o empty n e)
      | inr (i, some_) ↦
          let apart : (p.threads.next == i) ≡ false = elim (Bool-cases (p.threads.next == i)) [
            | inl same ↦ absurd (unborn p o v (some_ ∙ ap some (ground (arith, same))))
            | inr other ↦ other
          ] in
          let there : made.1.impl i ≡ p.threads.impl i = ap (λ f. f i) e ∙ rw apart refl in
          let fails =
            move_assign-abort i made.0 made.1 (p.threads.impl i) there (o.live v i some_) in
          let done : act (starts v affinity) p ≡ abort = rw (some_, fails) refl in
          subst (Acts (starts v affinity) p) (sym done) (λ none_. cc)
    ]

abbrev moved_to : ℕ → ℕ → Program → Thread × (Thread × Threads) → Run (Option Program)
moved_to v w p (t, (rest, s)) =
    ok (some (record { threads = s; variable = put w rest (put v t p.variable) }))

move-Acts : (v w : ℕ) (p : Program) → Owned p → Acts (moves v w) p (act (moves v w) p)
unfolding act move_assign
move-Acts v w p o =
    let assigned = λ (t : Thread). move_assign t (p.variable w) p.threads >>= moved_to v w p in
    elim (Option-cases (p.variable v)) [
      | inl empty ↦
          let done : act (moves v w) p
              ≡ ok (some (record p { variable = put w none (put v (p.variable w) p.variable) })) =
            ap assigned empty in
          subst (Acts (moves v w) p) (sym done) (move-Owned v w p o empty)
      | inr (i, some_) ↦
          let fails =
            move_assign-abort i (p.variable w) p.threads (p.threads.impl i) refl
              (o.live v i some_) in
          let done : act (moves v w) p ≡ abort =
            ap assigned some_ ∙ ap (λ r. r >>= moved_to v w p) fails in
          subst (Acts (moves v w) p) (sym done) (λ none_. let k = sym none_ ∙ some_ in cc)
    ]

abbrev joined_in : ℕ → Program → Run (Option Threads) → Run (Option Program)
joined_in v p r = r >>= λ s. ok (joined v p s)

join-Acts : (v : ℕ) (p : Program) → Owned p → Acts (joins v) p (act (joins v) p)
unfolding act join
join-Acts v p o = elim (Option-cases (p.variable v)) [
  | inl empty ↦
      let done : act (joins v) p ≡ undefined = ap (λ t. joined_in v p (join t p.threads)) empty in
      subst (Acts (joins v) p) (sym done) empty
  | inr (i, some_) ↦
      let at_impl : act (joins v) p ≡ joined_in v p (join_at (p.threads.impl i) i p.threads) =
        ap (λ t. joined_in v p (join t p.threads)) some_ in
      subst (Acts (joins v) p) (sym at_impl) (by i (p.threads.impl i) refl some_)
]
  where
    by :
        (i : ℕ) (m : Impl)
        → p.threads.impl i ≡ m
        → p.variable v ≡ some i
        → Acts (joins v) p (joined_in v p (join_at m i p.threads))
    by i running e own = tt
    by i returned e own = join-Owned v i p o own
    by i deleted e own = absurd (o.live v i own e)

end-Acts : (v : ℕ) (p : Program) → Owned p → Acts (ends v) p (act (ends v) p)
unfolding act end_thread
end-Acts v p o = elim (Option-cases (p.variable v)) [
  | inl empty ↦
      let done : act (ends v) p ≡ ok (some p) = ap (λ t. end_thread t >> ok (some p)) empty in
      subst (Acts (ends v) p) (sym done) o
  | inr (i, some_) ↦
      let done : act (ends v) p ≡ abort = ap (λ t. end_thread t >> ok (some p)) some_ in
      subst (Acts (ends v) p) (sym done) (λ none_. let k = sym none_ ∙ some_ in cc)
]

act-Acts : (a : Action) (p : Program) → Owned p → Acts a p (act a p)
unfolding act
act-Acts (starts v affinity) p o = start-Acts v affinity p o
act-Acts (moves v w) p o = move-Acts v w p o
act-Acts (joins v) p o = join-Acts v p o
act-Acts (ends v) p o = end-Acts v p o
act-Acts (returns i) p o = return-Owned i (p.threads.impl i) p o refl

pub Reached-Owned : {p : Program} → Reached p → Owned p
Reached-Owned started = no_threads-Owned
Reached-Owned (acted {p} {p'} a r h) = subst (Acts a p) h (act-Acts a p (Reached-Owned r))

-- In each state of a program of threads, every `Impl` that is not deleted belongs to exactly one
-- variable and no variable points to a deleted one. An action fails an assertion or terminates only
-- where it writes or leaves a variable that has a thread, and is undefined only where it joins one
-- that has none.
pub Reached-act :
    {p : Program} (a : Action)
    → Reached p
    → Owned p × (act a p ≡ abort → Overwrites a p) × (act a p ≡ undefined → JoinsNone a p)
Reached-act {p} a r =
    let o = Reached-Owned r in
    (o, λ e. subst (Acts a p) e (act-Acts a p o), λ e. subst (Acts a p) e (act-Acts a p o))
