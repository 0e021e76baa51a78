-- ===== src/Pa/Routine/Preserves.antt =====
-- The rules' part and the end of the routine keep the flags of every pair consistent.
use hnetd.Common.{
  ℕ, ◌%◌, ◌≡◌, refl, ◌∙◌, inl, inr, Bool, true, false, not, ◌&&◌, ◌||◌, none, some, List, arith,
  if◌then◌else◌, ==_refl, Option-cases,
}
use hnetd.Pa.Prefix.{Prefix, prefix_equals}
use hnetd.Pa.Ldp.Flags.{unadopt-Withdrawn, unpublish-Withdrawn, assign_flags}
use hnetd.Pa.State.{Core, Cell, Env, at, modify, for_each, is_some}
use hnetd.Pa.Ldp.{unpublish, publish, adopt, assign}
use hnetd.Pa.Ldp.Valid.{publish-IsSound, adopt-IsSound, assign-IsSound}
use hnetd.Pa.Rules.{
  Target, rule_no_match, rule_adopt, rule_backoff, rule_publish, rule_destroy, Arg, Rule, Made,
  best_rule,
}
use hnetd.Pa.Routine.{
  unassign, give_up, check, clear_conflict, act_publish, act_backoff, act, run_rules, finish,
  routine,
}
use hnetd.Pa.Rules.Best.{All, Answers, best_rule-Holds}
use hnetd.Pa.Routine.Keeps.{
  Inv, cell-IsSound, at-Inv, modify-Inv, for_each_inv, if_keeps, schedule-Inv, unassign-Inv,
  give_up-Inv, check-Inv, clear_conflict-Inv,
}

-- A core in which the pair `k` is assigned.
record Assigned (k : ℕ) (c : Core) : Type 0 where
  inv : Inv c
  assigned : (c.ldp k).assigned ≡ true

give_up-Assigned : (k : ℕ) (c : Core) → Assigned k c → Assigned k (give_up k c)
unfolding give_up at
give_up-Assigned k c v =
    let s : Cell = record { id = k; ldp = c.ldp k; trace = c.trace } in
    record {
      inv = give_up-Inv k c v.inv;
      assigned = rw ==_refl (
          (unadopt-Withdrawn (unpublish false s) c.flooding_delay).assigned
          ∙ (unpublish-Withdrawn s false).assigned
          ∙ v.assigned);
    }

assign-Assigned :
    (k : ℕ) (fd : ℕ) (p : Prefix) (c : Core) → Inv c → Assigned k (at k (assign true fd p) c)
assign-Assigned k fd p c v =
    let s : Cell = record { id = k; ldp = c.ldp k; trace = c.trace } in
    record {
      inv = at-Inv k (assign true fd p) c v (assign-IsSound (cell-IsSound k c v) true fd p);
      assigned = unfold at in rw ==_refl (assign_flags s fd p).0;
    }

act_publish-Inv :
    (env : Env) (k : ℕ) (arg : Arg) (rule : ℕ) (c : Core)
    → env.alloc ≡ true
    → Inv c
    → Inv (act_publish env k arg rule c)
unfolding act_publish
act_publish-Inv env k arg rule c room v =
    let c1 = for_each c.ldps (clear_conflict k arg.prefix) c in
    let v1 =
      for_each_inv Inv (clear_conflict k arg.prefix) (clear_conflict-Inv k arg.prefix) c.ldps c v in
    let other = (c1.ldp k).assigned && not (prefix_equals arg.prefix (c1.ldp k).prefix) in
    let c2 = if other then unassign k c1 else c1 in
    let v2 = if_keeps Inv other (unassign k c1) c1 (λ _. unassign-Inv k c1 v1) (λ _. v1) in
    let fresh = at k (assign env.alloc c2.flooding_delay arg.prefix) c2 in
    let c3 = if (c2.ldp k).assigned then give_up k c2 else fresh in
    let v3 =
      if_keeps (Assigned k) (c2.ldp k).assigned (give_up k c2) fresh
        (λ a. give_up-Assigned k c2 (record { inv = v2; assigned = a }))
        (λ _. rw room (assign-Assigned k c2.flooding_delay arg.prefix c2 v2)) in
    let sound =
      publish-IsSound (cell-IsSound k c3 v3.inv) c3.flooding_delay (some rule) arg.priority
        arg.rule_priority v3.assigned in
    let c4 = at k (publish c3.flooding_delay (some rule) arg.priority arg.rule_priority) c3 in
    let v4 =
      at-Inv k (publish c3.flooding_delay (some rule) arg.priority arg.rule_priority) c3 v3.inv
        sound in
    let w = v4.valid k in
    modify-Inv k (λ l. record l { best_assignment = none }) c4 v4 (ground arith)

act_backoff-Inv : (env : Env) (k : ℕ) (c : Core) → Inv c → Inv (act_backoff env k c)
unfolding act_backoff
act_backoff-Inv env k c v =
    let c' = unassign k c in
    let v' = unassign-Inv k c v in
    let w = v'.valid k in
    if_keeps Inv (is_some (c.ldp k).best_assignment) c _ (λ _. v)
      (λ _.
        if_keeps Inv (is_some (c'.ldp k).backoff_to) c' _ (λ _. v')
          (λ _. modify-Inv k _ c' v' (ground arith)))

-- What the source assumes of rules: adoption is asked for only where the prefix is assigned.
abbrev pub Adopts : Core → ℕ → Made → Type 0
Adopts c k m = m.target ≡ rule_adopt → (c.ldp k).assigned ≡ true

abbrev pub Behave : List Rule → Type 0
Behave rules = (c : Core) (k : ℕ) → All (Answers (Adopts c k) c k) rules

act-Inv :
    (env : Env) (k : ℕ) (t : Target) (arg : Arg) (rule : ℕ) (c : Core)
    → env.alloc ≡ true
    → (t ≡ rule_adopt → (c.ldp k).assigned ≡ true)
    → Inv c
    → Inv (act env k t arg rule c)
unfolding act
act-Inv env k rule_no_match arg rule c room a v = v
act-Inv env k rule_adopt arg rule c room a v =
    at-Inv k (adopt (env.rand % c.adopt_delay) (some rule) arg.priority arg.rule_priority) c v (
      adopt-IsSound (cell-IsSound k c v) (env.rand % c.adopt_delay) (some rule) arg.priority
        arg.rule_priority (a refl))
act-Inv env k rule_backoff arg rule c room a v = act_backoff-Inv env k c v
act-Inv env k rule_publish arg rule c room a v = act_publish-Inv env k arg rule c room v
act-Inv env k rule_destroy arg rule c room a v = schedule-Inv k (unassign k c) (unassign-Inv k c v)

pub run_rules-Inv :
    (env : Env) (rules : List Rule) (b : Bool) (k : ℕ) (c : Core)
    → env.alloc ≡ true
    → Behave rules
    → Inv c
    → Inv (run_rules env rules b k c)
unfolding run_rules
run_rules-Inv env rules b k c0 room behave v0 =
    let c = modify k (λ l. record l { backoff = b }) c0 in
    let w = v0.valid k in
    let v = modify-Inv k (λ l. record l { backoff = b }) c0 v0 (ground arith) in
    let l = c.ldp k in
    let prio = if l.published || l.adopting then l.rule_priority else 0 in
    let holds = best_rule-Holds (Adopts c k) c k rules prio (behave c k) in
    elim (Option-cases (best_rule c k rules prio)) [
      | inl e ↦ rw (e, run_rules) v
      | inr (m, e) ↦ rw (e, run_rules) (act-Inv env k m.target m.arg m.by_rule c room (holds m e) v)
    ]

finish-Inv : (env : Env) (k : ℕ) (c : Core) → Inv c → Inv (finish env k c)
unfolding finish
finish-Inv env k c v =
    let l = c.ldp k in
    if_keeps Inv l.assigned _ _
      (λ _.
        if_keeps Inv (is_some l.best_assignment) (give_up k c) _ (λ _. give_up-Inv k c v)
          (λ _.
            if_keeps Inv (not l.published && not l.adopting) (unassign k c) c
              (λ _. unassign-Inv k c v) (λ _. v)))
      (λ _. accept)
  where
    accept : Inv (elim (c.ldp k).best_assignment [
      | none ↦ c
      | some a ↦ at k (assign env.alloc c.flooding_delay a.prefix) (unassign k c)
    ])
    accept = elim (Option-cases (c.ldp k).best_assignment) [
      | inl e ↦ rw e v
      | inr (a, e) ↦
          let v' = unassign-Inv k c v in
          rw e (
            at-Inv k (assign env.alloc c.flooding_delay a.prefix) (unassign k c) v' (
              assign-IsSound (cell-IsSound k (unassign k c) v') env.alloc c.flooding_delay
                a.prefix))
    ]

-- Running the assignment routine for any pair keeps every pair's flags consistent, and tells the
-- users of published and applied prefixes only while they are assigned, if the tree can allocate
-- and the rules ask for an adoption only of an assigned prefix. The same is asked of the core before the run.
pub routine-Inv :
    (env : Env) (rules : List Rule) (backoff : Bool) (k : ℕ) (c : Core)
    → env.alloc ≡ true
    → Behave rules
    → Inv c
    → Inv (routine env rules backoff k c)
unfolding routine
routine-Inv env rules b k c room behave v =
    finish-Inv env k (run_rules env rules b k (check env k c))
      (run_rules-Inv env rules b k (check env k c) room behave (check-Inv env k c v))
