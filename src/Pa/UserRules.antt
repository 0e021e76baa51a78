-- ===== src/Pa/UserRules.antt =====
-- The ready-made rules of src/pa_rules.c: adopting an orphan prefix, and a static prefix. The callbacks of
-- the program that uses them are functions of the core and of the pair. `arg` is what the argument of
-- `match` holds before the call.
pub mod Candidates
pub mod Behaved
mod Tests
use hnetd.Common.{ℕ, Bool, not, ◌&&◌, ◌||◌, Option, none, some, ltb, if◌then◌else◌}
use hnetd.Pa.Prefix.{Prefix, prefix_cpy, prefix_contains}
use hnetd.Pa.State.{Core, is_some}
use hnetd.Pa.Rules.{Target, rule_adopt, rule_backoff, rule_publish, Arg, Rule}
use hnetd.Pa.Routine.Override.{rule_valid_assignment}

-- `struct pa_rule_adopt`
pub record AdoptRule : Type 0 where
  pub rule_priority : ℕ
  pub priority : ℕ

-- `pa_rule_adopt_get_max_priority`
pub adopt_get_max_priority : AdoptRule → Core → ℕ → ℕ
adopt_get_max_priority r c k =
    let l = c.ldp k in
    if not l.assigned || is_some l.best_assignment || l.published then 0 else r.rule_priority

-- `pa_rule_adopt_match`
pub adopt_match : AdoptRule → Arg → Target × Arg
adopt_match r arg =
    (rule_adopt, record arg { rule_priority = r.rule_priority; priority = r.priority })

-- `pa_rule_adopt_init`, and the filter that was set
pub adopt_rule : ℕ → Option (Core → ℕ → Bool) → AdoptRule → Arg → Rule
adopt_rule id filter r arg = record {
  id = id;
  filter_accept = filter;
  get_max_priority = some (adopt_get_max_priority r);
  max_priority = 0;
  match = some (λ c k prio. adopt_match r arg);
}

-- `struct pa_rule_static`. `prefix` is the `_prefix` of the last call of `get_prefix` that succeeded, used
-- where it now fails.
pub record StaticRule : Type 0 where
  pub get_prefix : Option (Core → ℕ → Option Prefix)
  pub prefix : Prefix
  pub rule_priority : ℕ
  pub priority : ℕ
  pub override_rule_priority : ℕ
  pub override_priority : ℕ
  pub safety : Bool

-- The prefix that `get_prefix` returns.
unfoldable pub static_wanted : StaticRule → Core → ℕ → Option Prefix
static_wanted r c k = elim r.get_prefix [ none ↦ none | some f ↦ f c k ]

-- The checks of `pa_rule_static_get_max_priority` on that prefix.
unfoldable pub static_fits : StaticRule → Core → ℕ → Prefix → Bool
static_fits r c k p =
    let d = (c.dp (c.ldp k).dp).prefix in
    not (ltb p.plen d.plen)
    && prefix_contains d p
    && rule_valid_assignment r.override_rule_priority r.override_priority r.safety c k p

-- `pa_rule_static_get_max_priority`
unfoldable pub static_get_max_priority : StaticRule → Core → ℕ → ℕ
unfolding static_fits static_wanted
static_get_max_priority r c k = elim (static_wanted r c k) [
  | none ↦ 0
  | some p ↦ if static_fits r c k p then r.rule_priority else 0
]

-- `srule->_prefix` when `match` runs, after `get_max_priority`.
pub static_prefix : StaticRule → Core → ℕ → Prefix
static_prefix r c k = elim (static_wanted r c k) [ none ↦ r.prefix | some p ↦ p ]

-- `pa_rule_static_match`
unfoldable pub static_match : StaticRule → Arg → Core → ℕ → Target × Arg
static_match r arg c k =
    let l = c.ldp k in
    if not l.backoff && not (is_some l.best_assignment) then (rule_backoff, arg) else (
      rule_publish,
      record {
        rule_priority = r.rule_priority;
        priority = r.priority;
        prefix = prefix_cpy (static_prefix r c k) arg.prefix;
      },
    )

-- `pa_rule_static_init`, and the filter that was set
unfoldable pub static_rule : ℕ → Option (Core → ℕ → Bool) → StaticRule → Arg → Rule
static_rule id filter r arg = record {
  id = id;
  filter_accept = filter;
  get_max_priority = some (static_get_max_priority r);
  max_priority = 0;
  match = some (λ c k prio. static_match r arg c k);
}
