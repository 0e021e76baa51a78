-- ===== src/Pa/Routine/Conflicts.antt =====
-- Publishing a prefix leaves no overlapping prefix assigned to another pair.
use mathlib.Core.List.{Memᴰ}
use mathlib.Core.List.Memᴰ
use mathlib.Core.Path.{subst}
use hnetd.Common.{
  ℕ, ◌≡◌, refl, sym, ap, ◌∙◌, ◌⊎◌, inl, inr, true, false, not, ◌&&◌, none, some, List, [], ◌∷◌,
  arith, ℕ_discrete, ◌==◌, if◌then◌else◌, ==_refl, ne→==,
}
use hnetd.Pa.Prefix.{Prefix, prefix_cpy, prefix_equals, prefix_overlap}
use hnetd.Pa.State.{Core, Ldp, Cell, Env, at, modify, for_each}
use hnetd.Pa.Ldp.{routine_schedule, assign}
use hnetd.Pa.Ldp.Flags.{publish-Withdrawn, published-publish}
use hnetd.Pa.Rules.{Arg}
use hnetd.Pa.Routine.Keeps.{if_keeps, for_each_inv}
use hnetd.Pa.Routine.Outcome.{
  Same, modify-Same, Same-refl, Same-trans, unassign-Dropped, give_up_flags, accept_flags,
  prefix-give_up, accept_prefix,
}
use hnetd.Pa.Routine.{unassign, give_up, clear_conflict, act_publish}

-- Pair `j` does not hold a prefix that overlaps `p`.
abbrev pub IsClear : Prefix → Ldp → Type 0
IsClear p l = l.assigned ≡ true → prefix_overlap p l.prefix ≡ false

Same-IsClear : (p : Prefix) {l m : Ldp} → Same l m → IsClear p l → IsClear p m
Same-IsClear p s h a = ap (prefix_overlap p) s.prefix ∙ h (sym s.assigned ∙ a)

unassign-IsClear :
    (p : Prefix) (i j : ℕ) (c : Core) → IsClear p (c.ldp j) → IsClear p ((unassign i c).ldp j)
unassign-IsClear p i j c h a = elim (ℕ_discrete j i) [
  | yes e ↦ cc (sym a ∙ (unassign-Dropped i j c).off e)
  | no e ↦ Same-IsClear p ((unassign-Dropped i j c).other e) h a
]

clear_conflict-IsClear :
    (k : ℕ) (p : Prefix) (i j : ℕ) (c : Core)
    → IsClear p (c.ldp j)
    → IsClear p ((clear_conflict k p i c).ldp j)
unfolding clear_conflict
clear_conflict-IsClear k p i j c h =
    if_keeps (λ (d : Core). IsClear p (d.ldp j)) _ (modify i routine_schedule (unassign i c)) c
      (λ _. Same-IsClear p (modify-Same i j (unassign i c)) (unassign-IsClear p i j c h)) (λ _. h)

clear_conflict_clears :
    (k : ℕ) (p : Prefix) (j : ℕ) (c : Core) → ¬ (j ≡ k) → IsClear p ((clear_conflict k p j c).ldp j)
unfolding clear_conflict
clear_conflict_clears k p j c ne =
    if_keeps (λ (d : Core). IsClear p (d.ldp j))
      ((c.ldp j).assigned && not (j == k) && prefix_overlap p (c.ldp j).prefix)
      (modify j routine_schedule (unassign j c)) c
      (λ _ a.
        cc (sym a ∙ (modify-Same j j (unassign j c)).assigned ∙ (unassign-Dropped j j c).off refl))
      (λ t a. ground (arith, ne→== j k ne))

loop_clears :
    (k : ℕ) (p : Prefix) (js : List ℕ) (j : ℕ) (c : Core)
    → ¬ (j ≡ k)
    → Memᴰ j js
    → IsClear p ((for_each js (clear_conflict k p) c).ldp j)
unfolding for_each
loop_clears k p [] j c ne m = absurd (Memᴰ.not-nil m)
loop_clears k p (i ∷ js) j c ne m = elim (Memᴰ.cases_cons m) [
  | inl e ↦
      for_each_inv (λ (d : Core). IsClear p (d.ldp j)) (clear_conflict k p)
        (λ i' d h. clear_conflict-IsClear k p i' j d h) js (clear_conflict k p i c)
        (rw (← e) (clear_conflict_clears k p j c ne))
  | inr r ↦ loop_clears k p js j (clear_conflict k p i c) ne r
]

at_other : (k j : ℕ) (f : Cell → Cell) (c : Core) → ¬ (j ≡ k) → (at k f c).ldp j ≡ c.ldp j
unfolding at
at_other k j f c ne = rw (ne→== j k ne)

-- Clearing the conflicts of a pair leaves the pair itself alone.
clear_conflict-Same :
    (k : ℕ) (p : Prefix) (j : ℕ) (c : Core) → Same (c.ldp k) ((clear_conflict k p j c).ldp k)
unfolding clear_conflict
clear_conflict-Same k p j c =
    if_keeps (λ (d : Core). Same (c.ldp k) (d.ldp k))
      ((c.ldp j).assigned && not (j == k) && prefix_overlap p (c.ldp j).prefix)
      (modify j routine_schedule (unassign j c)) c
      (λ t.
        Same-trans ((unassign-Dropped j k c).other (λ (e : k ≡ j). ground (arith, ==_refl j)))
          (modify-Same j k (unassign j c)))
      (λ _. Same-refl (c.ldp k))

pub cleared-Same :
    (env : Env) (k : ℕ) (arg : Arg) (c : Core)
    → Same (c.ldp k) ((for_each c.ldps (clear_conflict k arg.prefix) c).ldp k)
cleared-Same env k arg c =
    for_each_inv (λ (d : Core). Same (c.ldp k) (d.ldp k)) (clear_conflict k arg.prefix)
      (λ j d v. Same-trans v (clear_conflict-Same k arg.prefix j d)) c.ldps c (Same-refl (c.ldp k))

-- What publishing `p` leaves, where the pair's prefix was `old`: the pair is assigned and published, it
-- holds the prefix `p`, there is no better one, and no other pair holds an overlapping one.
pub record Exclusive (k : ℕ) (p old : Prefix) (js : List ℕ) (c : Core) : Type 0 where
  pub holds :
      ((prefix_equals p old ≡ true) × ((c.ldp k).prefix ≡ old))
      ⊎ ((c.ldp k).prefix ≡ prefix_cpy p old)
  pub assigned : (c.ldp k).assigned ≡ true
  pub published : (c.ldp k).published ≡ true
  pub no_better : (c.ldp k).best_assignment ≡ none
  pub others : (j : ℕ) → ¬ (j ≡ k) → Memᴰ j js → IsClear p (c.ldp j)

module _ (env : Env) (k : ℕ) (arg : Arg) (c : Core) where
  abbrev pub cleared : Core
  cleared = for_each c.ldps (clear_conflict k arg.prefix) c

  abbrev pub kept : Core
  kept =
      if (cleared.ldp k).assigned && not (prefix_equals arg.prefix (cleared.ldp k).prefix)
      then unassign k cleared
      else cleared

  abbrev pub taken : Core
  taken =
      if (kept.ldp k).assigned
      then give_up k kept
      else at k (assign env.alloc kept.flooding_delay arg.prefix) kept

  kept-IsClear : (j : ℕ) → ¬ (j ≡ k) → Memᴰ j c.ldps → IsClear arg.prefix (kept.ldp j)
  kept-IsClear j ne m =
      let h = loop_clears k arg.prefix c.ldps j c ne m in
      if_keeps (λ (d : Core). IsClear arg.prefix (d.ldp j))
        ((cleared.ldp k).assigned && not (prefix_equals arg.prefix (cleared.ldp k).prefix))
        (unassign k cleared) cleared (λ _. unassign-IsClear arg.prefix k j cleared h) (λ _. h)

  taken_other : (j : ℕ) → ¬ (j ≡ k) → taken.ldp j ≡ kept.ldp j
  unfolding give_up
  taken_other j ne =
      if_keeps (λ (d : Core). d.ldp j ≡ kept.ldp j) (kept.ldp k).assigned (give_up k kept)
        (at k (assign env.alloc kept.flooding_delay arg.prefix) kept) (λ _. at_other k j _ kept ne)
        (λ _. at_other k j (assign env.alloc kept.flooding_delay arg.prefix) kept ne)

  taken_assigned : env.alloc ≡ true → (taken.ldp k).assigned ≡ true
  taken_assigned room =
      if_keeps (λ (d : Core). (d.ldp k).assigned ≡ true) (kept.ldp k).assigned (give_up k kept)
        (at k (assign env.alloc kept.flooding_delay arg.prefix) kept)
        (λ a. (give_up_flags k kept).0 ∙ a)
        (λ _. rw room (accept_flags k kept.flooding_delay arg.prefix kept).0)

  pub TakenPrefix : Prefix → Type 0
  TakenPrefix q =
      ((prefix_equals arg.prefix (c.ldp k).prefix ≡ true) × (q ≡ (c.ldp k).prefix))
      ⊎ (q ≡ prefix_cpy arg.prefix (c.ldp k).prefix)

  cleared_prefix : (cleared.ldp k).prefix ≡ (c.ldp k).prefix
  cleared_prefix = (cleared-Same env k arg c).prefix

  kept_prefix : (kept.ldp k).prefix ≡ (c.ldp k).prefix
  kept_prefix =
      if_keeps (λ (d : Core). (d.ldp k).prefix ≡ (c.ldp k).prefix)
        ((cleared.ldp k).assigned && not (prefix_equals arg.prefix (cleared.ldp k).prefix))
        (unassign k cleared) cleared (λ _. (unassign-Dropped k k cleared).prefix ∙ cleared_prefix)
        (λ _. cleared_prefix)

  -- A prefix that the pair keeps is the wanted one.
  kept_wanted : (kept.ldp k).assigned ≡ true → prefix_equals arg.prefix (c.ldp k).prefix ≡ true
  kept_wanted =
      if_keeps
        (λ (d : Core). (d.ldp k).assigned ≡ true → prefix_equals arg.prefix (c.ldp k).prefix ≡ true)
        ((cleared.ldp k).assigned && not (prefix_equals arg.prefix (cleared.ldp k).prefix))
        (unassign k cleared) cleared
        (λ _ a. absurd (cc (sym a ∙ (unassign-Dropped k k cleared).off refl)))
        (λ t a. ap (prefix_equals arg.prefix) (sym cleared_prefix) ∙ ground (arith, t, a))

  taken_prefix : env.alloc ≡ true → TakenPrefix (taken.ldp k).prefix
  unfolding TakenPrefix
  taken_prefix room =
      if_keeps (λ (d : Core). TakenPrefix (d.ldp k).prefix) (kept.ldp k).assigned (give_up k kept)
        (at k (assign env.alloc kept.flooding_delay arg.prefix) kept)
        (λ a. inl (kept_wanted a, prefix-give_up k kept ∙ kept_prefix))
        (λ u. inr (
          rw room (accept_prefix k kept.flooding_delay arg.prefix kept u)
          ∙ ap (prefix_cpy arg.prefix) kept_prefix))

-- When a rule has a prefix published, the pair ends assigned and published, with that prefix: its own,
-- if that equals the wanted one, else a copy of the wanted one; and no other live pair has an assigned
-- prefix that overlaps it, if the tree can allocate.
pub act_publish-Exclusive :
    (env : Env) (k : ℕ) (arg : Arg) (rule : ℕ) (c : Core)
    → env.alloc ≡ true
    → Exclusive k arg.prefix (c.ldp k).prefix c.ldps (act_publish env k arg rule c)
unfolding act_publish at modify TakenPrefix
act_publish-Exclusive env k arg rule c room =
    let c3 = taken env k arg c in
    let s : Cell = record { id = k; ldp = c3.ldp k; trace = c3.trace } in
    let same =
      (publish-Withdrawn s c3.flooding_delay (some rule) arg.priority arg.rule_priority).prefix in
    record {
      holds =
          rw ==_refl (subst (TakenPrefix env k arg c) (sym same) (taken_prefix env k arg c room));
      assigned = rw ==_refl (
          (publish-Withdrawn s c3.flooding_delay (some rule) arg.priority
            arg.rule_priority).assigned
          ∙ taken_assigned env k arg c room);
      published =
          rw ==_refl
            (published-publish s c3.flooding_delay (some rule) arg.priority arg.rule_priority);
      no_better = rw ==_refl;
      others = λ j ne m.
          rw (ne→== j k ne, taken_other env k arg c j ne) (kept-IsClear env k arg c j ne m);
    }
