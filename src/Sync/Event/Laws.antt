-- ===== src/Sync/Event/Laws.antt =====
-- What a signal does to the events that depend on it.
use mini_marl.Base.{
  ℕ, zero, suc, ◌+◌, ◌≤◌, ◌<◌, ◌≡◌, refl, ◌∙◌, subst, Bool, true, false, List, [], ◌∷◌, ◌++◌, arith,
  ◌==◌, if◌then◌else◌, count, count-append, Run, ok, Bool-cases, inl, inr,
}
use mini_marl.Sync.Event.{
  Mode, auto, is_auto, Shared, Store, put, wake, set_signalled, make, signal_all, signal, clear,
  consume, link, any,
}

-- The dependents of an event were made after it, since `any` links to a new event.
pub record Ordered (s : Store) : Type 0 where
  pub newer : (i d : ℕ) → 0 < count d (s.event i).deps → (i < d) × (d < s.next)

-- What a call of `signal` changes: events become signalled, and none is linked or made.
pub record Signals (s s' : Store) : Type 0 where
  pub Same_next : s'.next ≡ s.next
  pub Same_deps : (i : ℕ) → (s'.event i).deps ≡ (s.event i).deps
  pub Kept : (i : ℕ) → (s.event i).signalled ≡ true → (s'.event i).signalled ≡ true

Signals-trans : (s t u : Store) → Signals s t → Signals t u → Signals s u
Signals-trans s t u a b = record {
  Same_next = b.Same_next ∙ a.Same_next;
  Same_deps = λ i. b.Same_deps i ∙ a.Same_deps i;
  Kept = λ i h. b.Kept i (a.Kept i h);
}

Ordered-Signals : (s t : Store) → Ordered s → Signals s t → Ordered t
Ordered-Signals s t o a = record {
  newer = λ i d h.
      let n = o.newer i d (subst (λ l. 0 < count d l) (a.Same_deps i) h) in
      (omega (arith, n), omega (arith, n, a.Same_next));
}

itself : (i : ℕ) → (i == i) ≡ true
itself i = ground arith

count-here : (d : ℕ) (ds : List ℕ) → 0 < count d (d ∷ ds)
count-here d ds = ground arith

-- An event is signalled by a call that succeeds.
abbrev Sets : Run Store → ℕ → Store → Type 0
Sets r d s = (s' : Store) × (r ≡ ok s') × Signals s s' × ((s'.event d).signalled ≡ true)

-- The loop over dependents that `sig` signals.
signal_all-Signals :
    (sig : ℕ → Store → Run Store) (low top : ℕ) (ds : List ℕ) (s : Store)
    → Ordered s
    → s.next ≡ top
    → ((d : ℕ) → 0 < count d ds → (low < d) × (d < top))
    → ((d : ℕ) (t : Store) → Ordered t → t.next ≡ top → low < d → d < top → Sets (sig d t) d t)
    → (s' : Store) × (signal_all sig ds s ≡ ok s')
      × Signals s s'
      × ((d : ℕ) → 0 < count d ds → (s'.event d).signalled ≡ true)
unfolding signal_all
signal_all-Signals sig low top [] s o n h f = (
  s,
  refl,
  record { Same_next = refl; Same_deps = λ i. refl; Kept = λ i e. e },
  λ d c. absurd (omega (arith, c)),
)
signal_all-Signals sig low top (d ∷ ds) s o n h f =
    let (above, below) = h d (count-here d ds) in
    let (s1, e1, a1, on) = f d s o n above below in
    let (s2, e2, a2, all) =
      signal_all-Signals sig low top ds s1 (Ordered-Signals s s1 o a1) (a1.Same_next ∙ n)
        (λ k c. h k (omega (arith, c))) f in
    (
      s2,
      rw e1 e2,
      Signals-trans s s1 s2 a1 a2,
      λ k c. elim (Bool-cases (d == k)) [
        | inl same ↦
            a2.Kept k (subst (λ j. (s1.event j).signalled ≡ true) (ground (arith, same)) on)
        | inr other ↦ all k (ground (arith, c, other))
      ],
    )

abbrev woken : ℕ → Store → Store
woken i s = record (set_signalled true i s) { wakes = wake (s.event i).mode i ∷ s.wakes }

woken-Signals : (i : ℕ) (s : Store) → Signals s (woken i s)
woken-Signals i s = record {
  Same_next = refl;
  Same_deps = λ j. elim (Bool-cases (i == j)) [
    | inl same ↦ ground (arith, same)
    | inr other ↦ rw other refl
  ];
  Kept = λ j h. elim (Bool-cases (i == j)) [ inl same ↦ rw same refl | inr other ↦ rw other h ];
}

signal_lem :
    (n i : ℕ) (s : Store)
    → Ordered s
    → i < s.next
    → s.next ≤ n + i
    → (s' : Store) × (signal n i s ≡ ok s')
      × Signals s s'
      × ((s'.event i).signalled ≡ true)
      × ((s.event i).signalled ≡ false
          → (d : ℕ) → 0 < count d (s.event i).deps
          → (s'.event d).signalled ≡ true)
unfolding signal
signal_lem zero i s o h fuel = absurd (omega (arith, h, fuel))
signal_lem (suc n) i s o h fuel = elim (Bool-cases (s.event i).signalled) [
  | inl on ↦ (
    s,
    rw on refl,
    record { Same_next = refl; Same_deps = λ j. refl; Kept = λ j e. e },
    on,
    λ off. absurd (cc),
  )
  | inr off ↦
      let w = woken-Signals i s in
      let (s', e, a, all) =
        signal_all-Signals (signal n) i s.next (s.event i).deps (woken i s)
          (Ordered-Signals s (woken i s) o w) refl (o.newer i)
          (λ d t ot tn above below.
            let (t', te, ta, ts, td) =
              signal_lem n d t ot (omega (arith, tn, below)) (omega (arith, tn, above, fuel)) in
            (t', te, ta, ts)) in
      (s', rw off e, Signals-trans s (woken i s) s' w a, a.Kept i (rw (itself i) refl), λ x. all)
]

-- An event that is made or written has new contents, with dependents that are newer.
put-Ordered :
    (i : ℕ) (e : Shared) (s : Store)
    → ((d : ℕ) → 0 < count d e.deps → (i < d) × (d < s.next))
    → Ordered s
    → Ordered (put i e s)
put-Ordered i e s h o = record {
  newer = λ j d c. elim (Bool-cases (i == j)) [
    | inl same ↦
        let at_j : i ≡ j = ground (arith, same) in
        subst (λ k. (k < d) × (d < s.next)) at_j (h d (rw same at c))
    | inr other ↦ o.newer j d (rw other at c)
  ];
}

set_signalled-Ordered : (b : Bool) (i : ℕ) (s : Store) → Ordered s → Ordered (set_signalled b i s)
set_signalled-Ordered b i s o = put-Ordered i _ s (o.newer i) o

make-Ordered : (m : Mode) (b : Bool) (s : Store) → Ordered s → Ordered (make m b s).1
unfolding make
make-Ordered m b s o =
    put-Ordered s.next _ (record s { next = s.next + 1 }) (λ d c. absurd (omega (arith, c)))
      (record { newer = λ i d c. let n = o.newer i d c in (n.0, omega (arith, n)) })

-- The loop of `any` adds the new event, which is newer than all the others, as a dependent.
link-Ordered :
    (a : ℕ) (is : List ℕ) (s : Store)
    → a < s.next
    → ((i : ℕ) → 0 < count i is → i < a)
    → (s.event a).deps ≡ []
    → Ordered s
    → (s' : Store) × (link a is s ≡ ok s') × (s'.next ≡ s.next) × Ordered s'
unfolding link
link-Ordered a [] s low older fresh o = (s, refl, refl, o)
link-Ordered a (i ∷ is) s low older fresh o =
    let below : i < a = older i (count-here i is) in
    let apart : (i == a) ≡ false = ground (arith, below) in
    let (s1, e1, n1, f1, o1) = if_signalled (s.event i).signalled in
    let linked : Shared = record (s1.event i) { deps = (s1.event i).deps ++ a ∷ [] } in
    let o2 : Ordered (put i linked s1) =
      put-Ordered i linked s1
        (λ d c. elim (Bool-cases (a == d)) [
          | inl same ↦
              let at_d : a ≡ d = ground (arith, same) in
              subst (λ k. (i < k) × (k < s1.next)) at_d (below, omega (arith, low, n1))
          | inr other ↦
              o1.newer i d (ground (arith, c, other, count-append d (s1.event i).deps (a ∷ [])))
        ])
        o1 in
    let fresh2 : ((put i linked s1).event a).deps ≡ [] = rw apart f1 in
    let (s', e, n, o') =
      link-Ordered a is (put i linked s1) (omega (arith, low, n1))
        (λ j c. older j (omega (arith, c))) fresh2 o2 in
    (s', rw e1 e, n ∙ n1, o')
  where
    if_signalled :
        (b : Bool)
        → (s1 : Store) × ((if b then signal 1 a s else ok s) ≡ ok s1)
          × (s1.next ≡ s.next)
          × ((s1.event a).deps ≡ [])
          × Ordered s1
    if_signalled false = (s, refl, refl, fresh, o)
    if_signalled true = elim (Bool-cases (s.event a).signalled) [
      | inl on ↦ (s, unfold signal in rw on refl, refl, fresh, o)
      | inr off ↦ (
        woken a s,
        unfold signal signal_all in rw (off, fresh) refl,
        refl,
        (woken-Signals a s).Same_deps a ∙ fresh,
        Ordered-Signals s (woken a s) o (woken-Signals a s),
      )
    ]

abbrev pub no_events : Store
no_events = record {
  next = 0;
  event = λ _. record { deps = []; mode = auto; signalled = false };
  wakes = [];
}

-- The stores that a program can come to: it makes events, makes an event of events that there are with
-- `any`, signals and clears events and waits for them.
pub data Made : Store → Type 0 where
  none_made : Made no_events
  makes : {s : Store} (m : Mode) (b : Bool) → Made s → Made (make m b s).1
  makes_any :
      {s : Store} (m : Mode) (is : List ℕ) (a : ℕ) (s' : Store)
      → Made s
      → ((i : ℕ) → 0 < count i is → i < s.next)
      → any m is s ≡ ok (a, s')
      → Made s'
  signals :
      {s : Store} (n i : ℕ) (s' : Store)
      → Made s
      → i < s.next
      → s.next ≤ n + i
      → signal n i s ≡ ok s'
      → Made s'
  clears : {s : Store} (i : ℕ) → Made s → Made (clear i s)
  consumes : {s : Store} (i : ℕ) → Made s → Made (consume i s)

Made-Ordered : {s : Store} → Made s → Ordered s
unfolding any clear make
Made-Ordered none_made = record { newer = λ i d c. absurd (omega (arith, c)) }
Made-Ordered (makes {s} m b r) = unfold make in make-Ordered m b s (Made-Ordered r)
Made-Ordered (makes_any {s} m is a s' r older done) =
    let made = (make m false s).1 in
    let (s1, e, _, o) =
      link-Ordered s.next is made (omega arith) older (rw (itself s.next) refl)
        (make-Ordered m false s (Made-Ordered r)) in
    let same : s1 ≡ s' = let k = rw e at done in cc in subst Ordered same o
Made-Ordered (signals {s} n i s' r low fuel done) =
    let o = Made-Ordered r in
    let (s1, e, a, _, _) = signal_lem n i s o low fuel in
    let same : s1 ≡ s' = cc in subst Ordered same (Ordered-Signals s s1 o a)
Made-Ordered (clears {s} i r) = set_signalled-Ordered false i s (Made-Ordered r)
Made-Ordered (consumes {s} i r) = elim (Bool-cases (is_auto (s.event i).mode)) [
  | inl once ↦ rw once (set_signalled-Ordered false i s (Made-Ordered r))
  | inr stays ↦ rw stays (Made-Ordered r)
]

-- In every store that a program of events can come to, in which `any` is made of events that there are:
-- `signal` of an event ends within as many nested calls as there are events that are not older; it
-- signals the event and keeps every other signalled; and when the event was not signalled before, every
-- event that depends on it is signalled as well.
pub signal-Signals :
    (n i : ℕ) (s : Store)
    → Made s
    → i < s.next
    → s.next ≤ n + i
    → (s' : Store) × (signal n i s ≡ ok s')
      × Signals s s'
      × ((s'.event i).signalled ≡ true)
      × ((s.event i).signalled ≡ false
          → (d : ℕ) → 0 < count d (s.event i).deps
          → (s'.event d).signalled ≡ true)
signal-Signals n i s r h fuel = signal_lem n i s (Made-Ordered r) h fuel
