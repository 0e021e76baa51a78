-- ===== src/Pa/Routine/Settled.antt =====
-- What the routine leaves behind for its own pair, in terms of the advertised prefixes (`pa_routine` in
-- src/pa_core.c).
use hnetd.Common.{
  ℕ, ◌≡◌, refl, sym, ◌∙◌, ◌⊎◌, inl, inr, Bool, true, not, ◌&&◌, Option, none, some, List, ◌==◌,
  if◌then◌else◌,
}
use hnetd.Pa.State.{Core, Ldp, Cell, Env, Advp, at, modify, is_some}
use hnetd.Pa.Ldp.{unadopt, assign}
use hnetd.Pa.Ldp.Flags.{adopt-Withdrawn, unadopt-Withdrawn}
use hnetd.Pa.Rules.{
  Target, Rule, Arg, rule_no_match, rule_adopt, rule_backoff, rule_publish, rule_destroy,
}
use hnetd.Pa.Routine.Keeps.{Inv, if_keeps}
use hnetd.Pa.Routine.Preserves.{Behave}
use hnetd.Pa.Routine.{
  unassign, give_up, set_best, is_valid, check, act_backoff, act, run_rules, finish, routine,
}
use hnetd.Pa.Routine.Outcome.{
  Outcome, modify-Same, unassign-Dropped, best-give_up, accept_flags, routine-Outcome,
}
use hnetd.Pa.Routine.Conflicts.{act_publish-Exclusive}
use hnetd.Pa.Routine.Advertised.{Precedent, set_best-Precedent, set_best-none}

-- The best assignment of pair `k`
abbrev best : ℕ → Core → Option Advp
best k c = (c.ldp k).best_assignment

at_best :
    (k : ℕ) (f : Cell → Cell) (c : Core)
    → (f (record { id = k; ldp = c.ldp k; trace = c.trace })).ldp.best_assignment ≡ best k c
    → best k (at k f c) ≡ best k c
unfolding at
at_best k f c e =
    if_keeps (λ (l : Ldp). l.best_assignment ≡ best k c) (k == k) _ (c.ldp k) (λ _. e) (λ _. refl)

modify_best :
    (k : ℕ) (f : Ldp → Ldp) (c : Core)
    → (f (c.ldp k)).best_assignment ≡ best k c
    → best k (modify k f c) ≡ best k c
unfolding modify
modify_best k f c e =
    if_keeps (λ (l : Ldp). l.best_assignment ≡ best k c) (k == k) _ (c.ldp k) (λ _. e) (λ _. refl)

-- What holds for both cases of a value that may be missing
option_keeps {ℓ κ} :
    {A : Type ℓ} (P : Core → Type κ) (o : Option A) (x : Core) (f : A → Core)
    → P x
    → ((a : A) → P (f a))
    → P (elim o as (λ _. Core) [ none ↦ x | some a ↦ f a ])
option_keeps P none x f p q = p
option_keeps P (some a) x f p q = q a

at_unadopt_best : (k : ℕ) (c : Core) → best k (at k (unadopt c.flooding_delay) c) ≡ best k c
at_unadopt_best k c = at_best k _ c (unadopt-Withdrawn _ c.flooding_delay).best

check_best : (env : Env) (k : ℕ) (c : Core) → best k (check env k c) ≡ best k (set_best k c)
unfolding check
check_best env k c0 =
    let c = set_best k c0 in
    let P = λ (d : Core). best k d ≡ best k c in
    let c' = if (c.ldp k).assigned && not (is_valid env k c) then unassign k c else c in
    let e : best k c' ≡ best k c =
      if_keeps P ((c.ldp k).assigned && not (is_valid env k c)) (unassign k c) c
        (λ _. (unassign-Dropped k k c).best) (λ _. refl) in
    if_keeps P (is_some (c'.ldp k).best_assignment) (at k (unadopt c'.flooding_delay) c') c'
      (λ _. at_unadopt_best k c' ∙ e) (λ _. e)

-- The best assignment stays, or a rule has published its own prefix.
abbrev Decided : ℕ → Core → Core → Type 0
Decided k c c' =
    (best k c' ≡ best k c)
    ⊎ ((best k c' ≡ none) × ((c'.ldp k).published ≡ true) × ((c'.ldp k).assigned ≡ true))

act_backoff-Decided : (env : Env) (k : ℕ) (c : Core) → Decided k c (act_backoff env k c)
unfolding act_backoff
act_backoff-Decided env k c =
    let c' = unassign k c in
    let e = (unassign-Dropped k k c).best in
    if_keeps (Decided k c) (is_some (c.ldp k).best_assignment) c _ (λ _. inl refl)
      (λ _.
        if_keeps (Decided k c) (is_some (c'.ldp k).backoff_to) c' _ (λ _. inl e)
          (λ _. inl (modify_best k (λ l. record l { backoff_to = some _ }) c' refl ∙ e)))

act-Decided :
    (env : Env) (k : ℕ) (t : Target) (arg : Arg) (rule : ℕ) (c : Core)
    → env.alloc ≡ true
    → Decided k c (act env k t arg rule c)
unfolding act
act-Decided env k rule_no_match arg rule c room = inl refl
act-Decided env k rule_adopt arg rule c room =
    inl (at_best k _ c (adopt-Withdrawn _ _ (some rule) arg.priority arg.rule_priority).best)
act-Decided env k rule_backoff arg rule c room = act_backoff-Decided env k c
act-Decided env k rule_publish arg rule c room =
    let x = act_publish-Exclusive env k arg rule c room in
    inr (x.no_better, x.published, x.assigned)
act-Decided env k rule_destroy arg rule c room =
    inl ((modify-Same k k (unassign k c)).best ∙ (unassign-Dropped k k c).best)

run_rules-Decided :
    (env : Env) (rules : List Rule) (b : Bool) (k : ℕ) (c : Core)
    → env.alloc ≡ true
    → Decided k c (run_rules env rules b k c)
unfolding run_rules
run_rules-Decided env rules b k c room =
    let c1 = modify k (λ l. record l { backoff = b }) c in
    let e : best k c1 ≡ best k c = modify_best k (λ l. record l { backoff = b }) c refl in
    option_keeps (Decided k c) _ c1 (λ m. act env k m.target m.arg m.by_rule c1) (inl e)
      (λ m. elim (act-Decided env k m.target m.arg m.by_rule c1 room) [
        | inl f ↦ inl (f ∙ e)
        | inr f ↦ inr f
      ])

finish_best : (env : Env) (k : ℕ) (c : Core) → env.alloc ≡ true → best k (finish env k c) ≡ best k c
unfolding finish
finish_best env k c room =
    let l = c.ldp k in
    let P = λ (d : Core). best k d ≡ best k c in
    let e = (unassign-Dropped k k c).best in
    if_keeps P l.assigned _ _
      (λ _.
        if_keeps P (is_some l.best_assignment) (give_up k c) _ (λ _. best-give_up k c)
          (λ _.
            if_keeps P (not l.published && not l.adopting) (unassign k c) c (λ _. e) (λ _. refl)))
      (λ _.
        option_keeps P l.best_assignment c
          (λ a. at k (assign env.alloc c.flooding_delay a.prefix) (unassign k c)) refl
          (λ a. rw room ((accept_flags k c.flooding_delay a.prefix (unassign k c)).3 ∙ e)))

finish_published :
    (env : Env) (k : ℕ) (c : Core)
    → best k c ≡ none
    → (c.ldp k).published ≡ true
    → (c.ldp k).assigned ≡ true
    → ((finish env k c).ldp k).published ≡ true
unfolding finish
finish_published env k c e p a = rw (finish, a, e, p) p

-- What holds of a pair after the routine, where `c` is the core before it.
pub record Settled (c : Core) (k : ℕ) (l : Ldp) : Type 0 where
  pub outcome : Outcome l
  pub advertised : (a : Advp) → l.best_assignment ≡ some a → Precedent c k a
  pub undisputed :
      l.best_assignment ≡ none → (l.published ≡ true) ⊎ ((a : Advp) → ¬ Precedent c k a)

-- After the routine has run for a pair, its best assignment is an advertised prefix on its link that
-- overlaps its delegated prefix, that no other such one beats, and that takes precedence over the pair
-- as it was before; and then the pair is assigned and neither publishes nor adopts. If it has none, the
-- pair publishes its own prefix or no such prefix was advertised, and an assigned prefix is published
-- or being adopted, so an assignment that no rule stands for is gone. The tree can allocate, the rules
-- ask for an adoption only of an assigned prefix, and before the run all pairs are consistent.
pub routine-Settled :
    (env : Env) (rules : List Rule) (backoff : Bool) (k : ℕ) (c : Core)
    → env.alloc ≡ true
    → Behave rules
    → Inv c
    → Settled c k ((routine env rules backoff k c).ldp k)
unfolding routine
routine-Settled env rules b k c room behave v =
    let c1 = check env k c in
    let c2 = run_rules env rules b k c1 in
    let e1 = check_best env k c in
    let e3 = finish_best env k c2 room in
    let decided = run_rules-Decided env rules b k c1 room in
    record {
      outcome = routine-Outcome env rules b k c room behave v;
      advertised = λ a e. elim decided [
        | inl e2 ↦ set_best-Precedent k c a (sym e1 ∙ sym e2 ∙ sym e3 ∙ e)
        | inr (n, p, q) ↦ absurd (cc (sym n ∙ sym e3 ∙ e))
      ];
      undisputed = λ e. elim decided [
        | inl e2 ↦ inr (λ a. set_best-none k c a (sym e1 ∙ sym e2 ∙ sym e3 ∙ e))
        | inr (n, p, q) ↦ inl (finish_published env k c2 n p q)
      ];
    }
