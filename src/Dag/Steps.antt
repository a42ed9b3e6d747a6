-- ===== src/Dag/Steps.antt =====
-- Every step of a run of a graph succeeds and keeps the invariant.
use mini_marl.Base.{
  pick, sum_over-pick, ℕ, ◌+◌, ◌-◌, ◌≤◌, ◌≡◌, refl, subst, sym, ap, ◌∙◌, Bool, true, false, not,
  List, [], ◌∷◌, Option, none, some, ltb, arith, ◌==◌, ind, Run, ok, Bool-cases, inl, inr,
}
use mini_marl.Dag.{Node}
use mini_marl.Dag.Exec.{
  Point, enter, looping, ended, Walk, Exec, continue_at, ready_node, end_walk, advance, step,
  step_of, Reached, started, stepped,
}
use mini_marl.Dag.Graph.{edges, Counts, notify-Counts}
use mini_marl.Dag.Inv.{
  point_edges, point_claims, left, due, Inv, Built, Counts-same, alive, due-notified, start-Inv,
  target, enter-Inv,
}

claims-same :
    (x : ℕ) (outs outs' : List ℕ) (t : Option ℕ)
    → point_claims x (looping outs t) ≡ point_claims x (looping outs' t)
claims-same x outs outs' none = refl
claims-same x outs outs' (some p) = refl

-- What is left of the walk when a node is ready and a scheduler is bound.
abbrev pub readied : Bool → ℕ → List ℕ → Option ℕ → Exec → Exec
readied s o outs none e = continue_at s (looping outs (some o)) e
readied s o outs (some p) e =
    continue_at s (looping outs (some o))
      (continue_at true (enter p) (record e { wait_group = e.wait_group + 1 }))

pub ready_node-readied :
    (s : Bool) (o : ℕ) (outs : List ℕ) (t : Option ℕ) (e : Exec)
    → ready_node true s o outs t e ≡ ok (readied s o outs t e)
unfolding ready_node
ready_node-readied s o outs none e = refl
ready_node-readied s o outs (some p) e = refl

module _ {W : Type 0} (nodes : List (Node W)) (g : Built nodes) where
  abbrev pub Keeps : Run Exec → Type 0
  Keeps r = (e : Exec) × (r ≡ ok e) × Inv nodes e

  -- A node that is ready is kept as the one to invoke, and the one before it is scheduled.
  readied-Inv :
      (s : Bool) (o : ℕ) (outs : List ℕ) (t : Option ℕ) (e : Exec) (cs : List ℕ)
      → Inv nodes (continue_at s (looping (o ∷ outs) t) e)
      → Counts nodes cs (left nodes (continue_at s (looping outs t) e))
      → (left nodes (continue_at s (looping outs t) e) o == 0) ≡ true
      → Inv nodes (readied s o outs t (record e { counters = cs }))
  readied-Inv s o outs none e cs i c ready =
      let e1 = continue_at s (looping (o ∷ outs) none) e in
      let e2 = continue_at s (looping outs none) e in
      record {
        counts = c;
        low = λ x. omega (arith, i.low x);
        claims = λ x. ground (
          arith,
          i.claims x,
          ready,
          due-notified nodes o x (left nodes e1 x) (left nodes e2 x) g.no_edge_to_root (i.low x)
              (omega arith),
        );
        waits = i.waits;
        one_root = i.one_root;
        over = i.over;
        sequenced = i.sequenced;
      }
  readied-Inv s o outs (some p) e cs i c ready =
      let e1 = continue_at s (looping (o ∷ outs) (some p)) e in
      let e2 = continue_at s (looping outs (some p)) e in
      let e' = readied s o outs (some p) (record e { counters = cs }) in
      let same : (x : ℕ) → left nodes e2 x ≡ left nodes e' x = λ x. omega arith in
      let going = alive nodes s (looping (o ∷ outs) (some p)) e i in
      record {
        counts = Counts-same nodes cs (left nodes e2) (left nodes e') same c;
        low = λ x. omega (arith, i.low x);
        claims = λ x. ground (
          arith,
          i.claims x,
          ready,
          same x,
          due-notified nodes o x (left nodes e1 x) (left nodes e2 x) g.no_edge_to_root (i.low x)
              (omega arith),
          ap (due nodes x) (same x),
        );
        waits = omega (arith, i.waits);
        one_root = omega (arith, i.one_root);
        over = λ r. absurd (cc);
        sequenced = i.sequenced;
      }

  waiting-Inv :
      (s : Bool) (o : ℕ) (outs : List ℕ) (t : Option ℕ) (e : Exec) (cs : List ℕ)
      → Inv nodes (continue_at s (looping (o ∷ outs) t) e)
      → Counts nodes cs (left nodes (continue_at s (looping outs t) e))
      → (left nodes (continue_at s (looping outs t) e) o == 0) ≡ false
      → Inv nodes (continue_at s (looping outs t) (record e { counters = cs }))
  waiting-Inv s o outs t e cs i c wait_ =
      let e1 = continue_at s (looping (o ∷ outs) t) e in
      let e2 = continue_at s (looping outs t) e in
      record {
        counts = c;
        low = λ x. omega (arith, i.low x);
        claims = λ x. ground (
          arith,
          wait_,
          i.claims x,
          claims-same x outs (o ∷ outs) t,
          due-notified nodes o x (left nodes e1 x) (left nodes e2 x) g.no_edge_to_root (i.low x)
              (omega arith),
        );
        waits = i.waits;
        one_root = i.one_root;
        over = i.over;
        sequenced = i.sequenced;
      }

  looping-Inv :
      (s : Bool) (o : ℕ) (outs : List ℕ) (t : Option ℕ) (e : Exec)
      → Inv nodes (continue_at s (looping (o ∷ outs) t) e)
      → Keeps (advance true nodes s (looping (o ∷ outs) t) e)
  unfolding advance
  looping-Inv s o outs t e i =
      let e1 = continue_at s (looping (o ∷ outs) t) e in
      let e2 = continue_at s (looping outs t) e in
      let some_left : 1 ≤ left nodes e1 o = ground arith in
      let (n, here) = target nodes g o (omega (arith, some_left, i.low o)) in
      let (cs, done, c) =
        notify-Counts nodes e.counters (left nodes e1) (left nodes e2) o n i.counts g.apart here
          some_left (omega (arith, i.low o, g.small o)) (λ x. omega arith) in
      elim (Bool-cases (left nodes e2 o == 0)) [
        | inl ready ↦ (
          readied s o outs t (record e { counters = cs }),
          rw (done, ready) (ready_node-readied s o outs t (record e { counters = cs })),
          readied-Inv s o outs t e cs i c ready,
        )
        | inr wait_ ↦ (
          continue_at s (looping outs t) (record e { counters = cs }),
          rw (done, wait_) refl,
          waiting-Inv s o outs t e cs i c wait_,
        )
      ]

  -- `wg.wait()` returns.
  returned-Inv :
      (e : Exec)
      → e.wait_group ≡ 0
      → Inv nodes (continue_at false ended e)
      → Inv nodes (record e { returned = true })
  returned-Inv e done i =
      let e1 = continue_at false ended e in
      let e' = record e { returned = true } in
      let same : (x : ℕ) → left nodes e1 x ≡ left nodes e' x = λ x. omega arith in
      record {
        counts = Counts-same nodes e.counters (left nodes e1) (left nodes e') same i.counts;
        low = λ x. omega (arith, i.low x);
        claims = λ x. omega (arith, i.claims x, ap (due nodes x) (same x));
        waits = omega (arith, i.waits);
        one_root = omega (arith, i.one_root);
        over = λ r. done;
        sequenced = i.sequenced;
      }

  end_walk-Inv : (s : Bool) (e : Exec) → Inv nodes (continue_at s ended e) → Keeps (end_walk s e)
  unfolding end_walk
  end_walk-Inv true e i =
      let some_task : ltb 0 e.wait_group ≡ true = ground (arith, i.waits) in
      let e1 = continue_at true ended e in
      let e' = record e { wait_group = e.wait_group - 1 } in
      let same : (x : ℕ) → left nodes e1 x ≡ left nodes e' x = λ x. omega arith in
      (
        e',
        rw some_task refl,
        record {
          counts = Counts-same nodes e.counters (left nodes e1) (left nodes e') same i.counts;
          low = λ x. omega (arith, i.low x);
          claims = λ x. omega (arith, i.claims x, ap (due nodes x) (same x));
          waits = omega (arith, i.waits);
          one_root = omega (arith, i.one_root);
          over = λ r. omega (arith, i.over r);
          sequenced = i.sequenced;
        },
      )
  end_walk-Inv false e i = elim (Bool-cases (e.wait_group == 0)) [
    | inl done ↦
        (record e { returned = true }, rw done refl, returned-Inv e (ground (arith, done)) i)
    | inr tasks ↦ (continue_at false ended e, rw tasks refl, i)
  ]

  -- The last node of a walk, or the end of its loop.
  behind-Inv :
      (s : Bool) (p q : Point) (e : Exec)
      → ((x : ℕ) → point_edges x p ≡ point_edges x q)
      → ((x : ℕ) → point_claims x p ≡ point_claims x q)
      → Inv nodes (continue_at s p e)
      → Inv nodes (continue_at s q e)
  behind-Inv s p q e edges_ claims_ i =
      let e1 = continue_at s p e in
      let e' = continue_at s q e in
      let same : (x : ℕ) → left nodes e1 x ≡ left nodes e' x = λ x. omega (arith, edges_ x) in
      record {
        counts = Counts-same nodes e.counters (left nodes e1) (left nodes e') same i.counts;
        low = λ x. omega (arith, i.low x, edges_ x);
        claims = λ x. omega (arith, i.claims x, claims_ x, ap (due nodes x) (same x));
        waits = i.waits;
        one_root = i.one_root;
        over = i.over;
        sequenced = i.sequenced;
      }

  advance-Inv :
      (s : Bool) (p : Point) (e : Exec)
      → Inv nodes (continue_at s p e)
      → Keeps (advance true nodes s p e)
  unfolding advance
  advance-Inv s (enter n) e i = enter-Inv nodes g s n e i
  advance-Inv s (looping (o ∷ outs) t) e i = looping-Inv s o outs t e i
  advance-Inv s (looping [] (some n)) e i = (
    continue_at s (enter n) e,
    refl,
    behind-Inv s (looping [] (some n)) (enter n) e (λ x. refl) (λ x. refl) i,
  )
  advance-Inv s (looping [] none) e i = (
    continue_at s ended e,
    refl,
    behind-Inv s (looping [] none) ended e (λ x. refl) (λ x. refl) i,
  )
  advance-Inv s ended e i = end_walk-Inv s e i

  -- The order of the walks does not matter.
  pub pick-Inv :
      (i : ℕ) (e : Exec) (w : Walk) (rest : List Walk)
      → pick i e.walks ≡ some (w, rest)
      → Inv nodes e
      → Inv nodes (continue_at w.scheduled w.at_ (record e { walks = rest }))
  pick-Inv i e w rest h inv =
      let e' = continue_at w.scheduled w.at_ (record e { walks = rest }) in
      let split = λ (f : Walk → ℕ). sum_over-pick f i e.walks rest w h in
      let same : (x : ℕ) → left nodes e x ≡ left nodes e' x =
        λ x. omega (arith, split (λ v. point_edges x v.at_)) in
      record {
        counts = Counts-same nodes e.counters (left nodes e) (left nodes e') same inv.counts;
        low = λ x. omega (arith, inv.low x, same x);
        claims = λ x.
            omega
              (arith, inv.claims x, split (λ v. point_claims x v.at_), ap (due nodes x) (same x));
        waits = omega (arith, inv.waits, split (λ v. ind v.scheduled));
        one_root = omega (arith, inv.one_root, split (λ v. ind (not v.scheduled)));
        over = inv.over;
        sequenced = inv.sequenced;
      }

  pub step-Inv : (i : ℕ) (e : Exec) → Inv nodes e → Keeps (step true nodes i e)
  unfolding step step_of
  step-Inv i e inv = at_walk (pick i e.walks) refl
    where
      at_walk :
          (o : Option (Walk × List Walk)) → pick i e.walks ≡ o → Keeps (step_of true nodes o e)
      at_walk none h = (e, refl, inv)
      at_walk (some (w, rest)) h =
          advance-Inv w.scheduled w.at_ (record e { walks = rest }) (pick-Inv i e w rest h inv)

  pub Reached-Inv :
      (cs : List ℕ) {e : Exec}
      → Counts nodes cs (λ x. edges x nodes)
      → Reached true nodes cs e
      → Inv nodes e
  Reached-Inv cs k started = start-Inv nodes g cs k
  Reached-Inv cs k (stepped {e} {e'} i r h) =
      let (e2, done, inv) = step-Inv i e (Reached-Inv cs k r) in
      let same : e2 ≡ e' = let both = sym done ∙ h in cc in subst (Inv nodes) same inv
