-- ===== src/Pa/Routine/Outcome.antt =====
-- What the routine leaves behind for its own pair.
use hnetd.Common.{
  ℕ, ◌≡◌, refl, sym, ◌∙◌, ◌≢◌, ◌⊎◌, inl, inr, Bool, true, false, not, ◌&&◌, none, some, List, arith,
  ◌==◌, ==_refl, ==_iff, Bool-cases, Option-cases,
}
use hnetd.Pa.Prefix.{Prefix, prefix_cpy}
use hnetd.Pa.State.{Core, Ldp, Cell, Env, Advp, at, modify, for_each, is_some}
use hnetd.Pa.Ldp.{routine_schedule, unpublish, unassign_self, assign}
use hnetd.Pa.Ldp.Flags.{
  unadopt-Withdrawn, unpublish-Withdrawn, withdrawn_flags, assign_flags, unassign_self_flags,
  routine_schedule-Withdrawn, routine_schedule_flags,
}
use hnetd.Pa.Ldp.Valid.{IsValid}
use hnetd.Pa.Rules.{Rule}
use hnetd.Pa.Routine.Keeps.{Inv, check-Inv, if_keeps, for_each_inv}
use hnetd.Pa.Routine.Preserves.{Behave, run_rules-Inv}
use hnetd.Pa.Routine.{schedule_free, unassign, give_up, check, run_rules, finish, routine}

-- Two states of an ldp that differ in the timers and the rule's fields at most.
pub record Same (old new : Ldp) : Type 0 where
  pub assigned : new.assigned ≡ old.assigned
  pub published : new.published ≡ old.published
  pub adopting : new.adopting ≡ old.adopting
  pub prefix : new.prefix ≡ old.prefix
  pub best : new.best_assignment ≡ old.best_assignment

pub Same-refl : (l : Ldp) → Same l l
Same-refl l = ground arith

pub Same-trans : {l m n : Ldp} → Same l m → Same m n → Same l n
Same-trans p q = ground arith

routine_schedule-Same : (l : Ldp) → Same l (routine_schedule l)
routine_schedule-Same l = ground (arith, routine_schedule-Withdrawn l, routine_schedule_flags l)

-- Scheduling a pair changes only timers, of whichever pair.
pub modify-Same : (i k : ℕ) (c : Core) → Same (c.ldp k) ((modify i routine_schedule c).ldp k)
unfolding modify
modify-Same i k c =
    if_keeps (Same (c.ldp k)) (k == i) (routine_schedule (c.ldp i)) (c.ldp k)
      (λ t. rw ((==_iff k i).0 t) (routine_schedule-Same (c.ldp i))) (λ _. Same-refl (c.ldp k))

schedule_free-Same :
    (i k : ℕ) (js : List ℕ) (c : Core) → Same (c.ldp k) ((for_each js (schedule_free i) c).ldp k)
unfolding schedule_free
schedule_free-Same i k js c =
    for_each_inv (λ (c' : Core). Same (c.ldp k) (c'.ldp k)) (schedule_free i)
      (λ j c' v.
        if_keeps (λ (d : Core). Same (c.ldp k) (d.ldp k)) _ (modify j routine_schedule c') c'
          (λ _. Same-trans v (modify-Same j k c')) (λ _. v))
      js c (Same-refl (c.ldp k))

-- The state of a pair when another, `i`, or the pair itself is unassigned.
pub record Dropped (i k : ℕ) (old new : Ldp) : Type 0 where
  pub off : k ≡ i → new.assigned ≡ false
  pub prefix : new.prefix ≡ old.prefix
  pub best : new.best_assignment ≡ old.best_assignment
  pub other : ¬ (k ≡ i) → Same old new

at-unassign_self-Dropped :
    (i k : ℕ) (c : Core) → Dropped i k (c.ldp k) ((at i (unassign_self c.flooding_delay) c).ldp k)
unfolding at
at-unassign_self-Dropped i k c =
    let s : Cell = record { id = i; ldp = c.ldp i; trace = c.trace } in
    let f = unassign_self_flags s c.flooding_delay in
    let l = (unassign_self c.flooding_delay s).ldp in
    if_keeps (Dropped i k (c.ldp k)) (k == i) l (c.ldp k)
      (λ t.
        let e = (==_iff k i).0 t in
        rw e (record { off = λ _. f.0; prefix = f.1; best = f.3; other = λ n. absurd (n refl) }))
      (λ t. record {
        off = λ e. ground (arith, ==_refl i);
        prefix = refl;
        best = refl;
        other = λ _. Same-refl (c.ldp k);
      })

Dropped-Same : {i k : ℕ} {l m n : Ldp} → Dropped i k l m → Same m n → Dropped i k l n
Dropped-Same d v = record {
  off = λ e. v.assigned ∙ d.off e;
  prefix = v.prefix ∙ d.prefix;
  best = v.best ∙ d.best;
  other = λ n. Same-trans (d.other n) v;
}

-- `pa_ldp_unassign` leaves its pair unassigned and keeps its prefix and its best assignment; every
-- other pair keeps its state.
pub unassign-Dropped : (i k : ℕ) (c : Core) → Dropped i k (c.ldp k) ((unassign i c).ldp k)
unfolding unassign
unassign-Dropped i k c =
    let c' = at i (unassign_self c.flooding_delay) c in
    if_keeps (λ (d : Core). Dropped i k (c.ldp k) (d.ldp k)) (c.ldp i).assigned
      (for_each c.ldps (schedule_free i) c') c
      (λ _. Dropped-Same (at-unassign_self-Dropped i k c) (schedule_free-Same i k c.ldps c'))
      (λ u. record {
        off = λ e. rw e u;
        prefix = refl;
        best = refl;
        other = λ _. Same-refl (c.ldp k);
      })

-- What holds of a pair after the routine: an assigned prefix is published, being adopted, or the
-- best advertised one; a best advertised prefix is accepted, and not published or adopted here.
pub record Outcome (l : Ldp) : Type 0 where
  pub held :
      l.assigned ≡ true → l.best_assignment ≡ none → (l.published ≡ true) ⊎ (l.adopting ≡ true)
  pub accepted :
      l.best_assignment ≢ none → (l.assigned ≡ true) × (l.published ≡ false) × (l.adopting ≡ false)

pub give_up_flags :
    (k : ℕ) (c : Core)
    → let l = (give_up k c).ldp k in
      (l.assigned ≡ (c.ldp k).assigned) × (l.published ≡ false) × (l.adopting ≡ false)
unfolding give_up at
give_up_flags k c =
    let s : Cell = record { id = k; ldp = c.ldp k; trace = c.trace } in
    rw ==_refl (
      (unadopt-Withdrawn (unpublish false s) c.flooding_delay).assigned
          ∙ (unpublish-Withdrawn s false).assigned,
      (withdrawn_flags s false c.flooding_delay).0,
      (withdrawn_flags s false c.flooding_delay).1,
    )

pub best-give_up :
    (k : ℕ) (c : Core) → ((give_up k c).ldp k).best_assignment ≡ (c.ldp k).best_assignment
unfolding give_up at
best-give_up k c =
    let s : Cell = record { id = k; ldp = c.ldp k; trace = c.trace } in
    rw ==_refl (
      (unadopt-Withdrawn (unpublish false s) c.flooding_delay).best
      ∙ (unpublish-Withdrawn s false).best)

pub prefix-give_up : (k : ℕ) (c : Core) → ((give_up k c).ldp k).prefix ≡ (c.ldp k).prefix
unfolding give_up at
prefix-give_up k c =
    let s : Cell = record { id = k; ldp = c.ldp k; trace = c.trace } in
    rw ==_refl (
      (unadopt-Withdrawn (unpublish false s) c.flooding_delay).prefix
      ∙ (unpublish-Withdrawn s false).prefix)

pub accept_prefix :
    (k : ℕ) (fd : ℕ) (p : Prefix) (c : Core)
    → (c.ldp k).assigned ≡ false
    → ((at k (assign true fd p) c).ldp k).prefix ≡ prefix_cpy p (c.ldp k).prefix
unfolding at
accept_prefix k fd p c u =
    let s : Cell = record { id = k; ldp = c.ldp k; trace = c.trace } in
    let f = assign_flags s fd p in rw ==_refl (f.4 u)

pub accept_flags :
    (k : ℕ) (fd : ℕ) (p : Prefix) (c : Core)
    → let l = (at k (assign true fd p) c).ldp k in
      (l.assigned ≡ true)
      × (l.published ≡ (c.ldp k).published)
      × (l.adopting ≡ (c.ldp k).adopting)
      × (l.best_assignment ≡ (c.ldp k).best_assignment)
unfolding at
accept_flags k fd p c =
    let s : Cell = record { id = k; ldp = c.ldp k; trace = c.trace } in
    let f = assign_flags s fd p in rw ==_refl (f.0, f.2, f.3, f.1)

none-ne-some : (a : Advp) → none ≢ some a
none-ne-some a h = cc

not_true : (b : Bool) → ¬ (b ≡ true) → b ≡ false
not_true b h = ground arith

unassign_idle : (k : ℕ) (c : Core) → (c.ldp k).assigned ≡ false → unassign k c ≡ c
unfolding unassign
unassign_idle k c u = rw (u, unassign) refl

accept-Outcome :
    (env : Env) (k : ℕ) (c : Core) (a : Advp)
    → env.alloc ≡ true
    → IsValid (c.ldp k)
    → (c.ldp k).assigned ≡ false
    → (c.ldp k).best_assignment ≡ some a
    → Outcome ((at k (assign env.alloc c.flooding_delay a.prefix) (unassign k c)).ldp k)
accept-Outcome env k c a room v u e =
    rw (unassign_idle k c u, room)
      (let f = accept_flags k c.flooding_delay a.prefix c in
        record {
          held = λ _ b. absurd (none-ne-some a (sym b ∙ f.3 ∙ e));
          accepted = λ _.
              (f.0, f.1 ∙ not_true _ (λ t. ground arith), f.2 ∙ not_true _ (λ t. ground arith));
        })

pub finish-Outcome :
    (env : Env) (k : ℕ) (c : Core)
    → env.alloc ≡ true
    → IsValid (c.ldp k)
    → Outcome ((finish env k c).ldp k)
unfolding finish
finish-Outcome env k c room v =
    let l = c.ldp k in
    let P = λ (d : Core). Outcome (d.ldp k) in
    elim (Bool-cases l.assigned) [
      | inl a ↦
          rw (a, finish)
            (if_keeps P (is_some l.best_assignment) (give_up k c) _
              (λ t. ground (arith, give_up_flags k c, best-give_up k c))
              (λ t.
                if_keeps P (not l.published && not l.adopting) (unassign k c) c
                  (λ _.
                    let d = unassign-Dropped k k c in
                    let off = d.off refl in let best = d.best in ground arith)
                  (λ held. ground arith)))
      | inr u ↦ elim (Option-cases l.best_assignment) [
        | inl e ↦ rw (u, e, finish) (ground arith)
        | inr (a, e) ↦ rw (u, e, finish) (accept-Outcome env k c a room v u e)
      ]
    ]

-- After the routine has run for a pair: if the prefix is assigned and there is no better advertised
-- one, it is published or being adopted, so an assignment that no rule stands for is gone; and if an
-- advertised prefix takes precedence, the pair is assigned and neither publishes nor adopts. The tree
-- can allocate, the rules ask for an adoption only of an assigned prefix, and before the run all pairs
-- are consistent.
pub routine-Outcome :
    (env : Env) (rules : List Rule) (backoff : Bool) (k : ℕ) (c : Core)
    → env.alloc ≡ true
    → Behave rules
    → Inv c
    → Outcome ((routine env rules backoff k c).ldp k)
unfolding routine
routine-Outcome env rules b k c room behave v =
    let v' = run_rules-Inv env rules b k (check env k c) room behave (check-Inv env k c v) in
    finish-Outcome env k (run_rules env rules b k (check env k c)) room (v'.valid k)
