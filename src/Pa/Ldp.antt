-- ===== src/Pa/Ldp.antt =====
-- The state changes of one link/delegated prefix pair (src/pa_core.c, the pa_ldp_ functions).
pub mod Valid
pub mod Flags
use hnetd.Common.{ℕ, Bool, true, false, ◌&&◌, Option, none, some, if◌then◌else◌}
use hnetd.Pa.Prefix.{Prefix, prefix_cpy}
use hnetd.Pa.State.{
  Ldp, Cell, assigned_event, published_event, applied_event, is_some, run_delay, twice, notify,
}

-- `pa_routine_schedule`
pub routine_schedule : Ldp → Ldp
routine_schedule l = if is_some l.routine_to then l else record l { routine_to = some run_delay }

-- `pa_ldp_apply`. The option is the applied flag of the higher-level ldp, if there is one.
pub apply : Option Bool → Cell → Cell
apply ha s =
    let l = s.ldp in
    let wait = record s { ldp = record l { ha_apply_pending = true } } in
    let run =
      notify applied_event
        (record s { ldp = record l { applied = true; ha_apply_pending = false } }) in
    if l.applied then s else elim ha [ none ↦ run | some up ↦ if up then run else wait ]

-- `pa_ldp_unpublish`
pub unpublish : Bool → Cell → Cell
unpublish cancel_apply s =
    let l = s.ldp in
    if l.published
    then notify published_event (record s {
      ldp = record l {
        rule = none;
        priority = 0;
        rule_priority = 0;
        backoff_to = if cancel_apply && is_some l.backoff_to then none else l.backoff_to;
        published = false;
      };
    })
    else s

-- `pa_ldp_unadopt`
pub unadopt : ℕ → Cell → Cell
unadopt flooding_delay s =
    let l = s.ldp in
    if l.adopting
    then record s {
      ldp = record l {
        rule = none;
        priority = 0;
        rule_priority = 0;
        adopting = false;
        backoff_to = if l.applied then l.backoff_to else some (twice flooding_delay);
      };
    }
    else s

-- `pa_ldp_publish`
pub publish : ℕ → Option ℕ → ℕ → ℕ → Cell → Cell
publish flooding_delay rule priority rule_priority s =
    let s' = unadopt flooding_delay s in
    if s.ldp.published
    then s
    else notify published_event (record s' {
      ldp = record (s'.ldp) {
        rule = rule;
        priority = priority;
        rule_priority = rule_priority;
        published = true;
      };
    })

-- `pa_ldp_adopt`; `delay` is PA_ADOPT_DELAY_r.
pub adopt : ℕ → Option ℕ → ℕ → ℕ → Cell → Cell
adopt delay rule priority rule_priority s =
    let s' = unpublish true s in
    if s.ldp.adopting then s else record s' {
      ldp = record (s'.ldp) {
        rule = rule;
        priority = priority;
        rule_priority = rule_priority;
        adopting = true;
        backoff_to = some delay;
      };
    }

-- The part of `pa_ldp_unassign` that works on the ldp itself.
pub unassign_self : ℕ → Cell → Cell
unassign_self flooding_delay s =
    let l = record (s.ldp) { ha_apply_pending = false } in
    let s1 =
      if l.applied
      then notify applied_event (record s { ldp = record l { applied = false } })
      else record s { ldp = l } in
    let s2 = unadopt flooding_delay (unpublish true s1) in
    if s.ldp.assigned
    then notify assigned_event
        (record s2 { ldp = record (s2.ldp) { backoff_to = none; assigned = false } })
    else s

-- `pa_ldp_assign`. Where the tree cannot allocate, the prefix is copied all the same.
pub assign : Bool → ℕ → Prefix → Cell → Cell
assign alloc flooding_delay prefix s =
    let l = record (s.ldp) { prefix = prefix_cpy prefix s.ldp.prefix } in
    if s.ldp.assigned
    then s
    else if alloc
    then notify assigned_event
        (record s { ldp = record l { backoff_to = some (twice flooding_delay); assigned = true } })
    else record s { ldp = l }
