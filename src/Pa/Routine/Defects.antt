-- ===== src/Pa/Routine/Defects.antt =====
-- Where the algorithm does not do what it means to.
use hnetd.Common.{ℕ, ◌≡◌, sym, ◌∙◌, ◌≢◌, true, false, some, ==_refl}
use hnetd.Pa.State.{Advp, Ldp, Cell, Core, Env, at, modify}
use hnetd.Pa.Ldp.Flags.{publish-Withdrawn, published-publish, assigned-assign_full}
use hnetd.Pa.Rules.{Arg}
use hnetd.Pa.Routine.{precedes, precedes_tie, act_publish}
use hnetd.Pa.Routine.Conflicts.{cleared, cleared-Same, kept, taken}

-- When two nodes with different identifiers publish at the same priority, the advertisement of each
-- takes precedence over the prefix of the other, so the tie is not broken by the identifiers.
pub precedes_both_ways :
    (me you : ℕ) (mine yours : Ldp) (from_you from_me : Advp)
    → me ≢ you
    → from_you.node_id ≡ you
    → from_me.node_id ≡ me
    → mine.priority ≡ yours.priority
    → from_you.priority ≡ yours.priority
    → from_me.priority ≡ mine.priority
    → (precedes me from_you mine ≡ true) × (precedes you from_me yours ≡ true)
precedes_both_ways me you mine yours a b ne ha hb e p q = (
  precedes_tie me a mine (p ∙ sym e) (λ h. ne (sym h ∙ ha)),
  precedes_tie you b yours (q ∙ e) (λ h. ne (sym hb ∙ h)),
)

-- When a rule has a new prefix published and the tree cannot allocate, the pair ends published
-- although nothing is assigned to it.
pub act_publish_full :
    (env : Env) (k : ℕ) (arg : Arg) (rule : ℕ) (c : Core)
    → env.alloc ≡ false
    → (c.ldp k).assigned ≡ false
    → let l = (act_publish env k arg rule c).ldp k in (l.published ≡ true) × (l.assigned ≡ false)
unfolding act_publish at modify
act_publish_full env k arg rule c full free =
    let c1 = cleared env k arg c in
    let u1 : (c1.ldp k).assigned ≡ false = (cleared-Same env k arg c).assigned ∙ free in
    let c2 = kept env k arg c in
    let u2 : (c2.ldp k).assigned ≡ false = rw u1 u1 in
    let s2 : Cell = record { id = k; ldp = c2.ldp k; trace = c2.trace } in
    let c3 = taken env k arg c in
    let u3 : (c3.ldp k).assigned ≡ false =
      rw (u2, full, ==_refl k) (assigned-assign_full s2 c2.flooding_delay arg.prefix u2) in
    let s : Cell = record { id = k; ldp = c3.ldp k; trace = c3.trace } in
    rw ==_refl (
      published-publish s c3.flooding_delay (some rule) arg.priority arg.rule_priority,
      (publish-Withdrawn s c3.flooding_delay (some rule) arg.priority arg.rule_priority).assigned
          ∙ u3,
    )
