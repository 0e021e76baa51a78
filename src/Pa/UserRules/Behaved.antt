-- ===== src/Pa/UserRules/Behaved.antt =====
-- What the rules of src/pa_rules.c answer to pa_core.
use mathlib.Core.Option.{some-injective}
use hnetd.Common.{
  ℕ, ◌≤◌, ◌≡◌, refl, ap, ◌∙◌, ◌≢◌, inl, inr, Bool, true, false, Option, none, some, arith,
  Bool-cases, Option-cases,
}
use hnetd.Pa.Prefix.{prefix_cpy, Prefix, prefix_contains}
use hnetd.Pa.State.{Core}
use hnetd.Pa.Rules.{Target, Arg, Choice, rank_of, rule_publish, rule_backoff, rule_adopt, try_rule}
use hnetd.Pa.Routine.Override.{rule_valid_assignment}
use hnetd.Pa.Rules.Best.{rank_of_positive}
use hnetd.Pa.System.Reach.{Behaves}
use hnetd.Pa.UserRules.{
  AdoptRule, adopt_get_max_priority, adopt_rule, StaticRule, static_wanted, static_fits,
  static_get_max_priority, static_prefix, static_match, static_rule,
}

adopt_assigned :
    (r : AdoptRule) (c : Core) (k : ℕ)
    → adopt_get_max_priority r c k ≢ 0
    → (c.ldp k).assigned ≡ true
unfolding adopt_get_max_priority
adopt_assigned r c k n = ground arith

-- What the function in `match` answers is what the rule's own function does.
pub answer :
    (c : Core) (k prio : ℕ) {f g : Core → ℕ → ℕ → Target × Arg}
    → ◌≡◌ {A = Option (Core → ℕ → ℕ → Target × Arg)} (some f) (some g)
    → f c k prio ≡ g c k prio
answer c k prio e = ap (λ (h : Core → ℕ → ℕ → Target × Arg). h c k prio) (some-injective _ _ e)

static_target :
    (r : StaticRule) (arg : Arg) (c : Core) (k : ℕ) → (static_match r arg c k).0 ≢ rule_adopt
unfolding static_match
static_target r arg c k e = ground arith

-- The adopt rule asks for an adoption only of an assigned prefix: its priority is 0 for others.
pub adopt_rule-Behaves :
    (id : ℕ) (filter : Option (Core → ℕ → Bool)) (r : AdoptRule) (arg : Arg)
    → Behaves (adopt_rule id filter r arg)
unfolding adopt_rule
adopt_rule-Behaves id filter r arg c k ranked f prio e t a =
    adopt_assigned r c k
      (rank_of_positive c k (adopt_rule id filter r arg) (adopt_get_max_priority r) refl ranked)

-- The static rule never asks for an adoption.
pub static_rule-Behaves :
    (id : ℕ) (filter : Option (Core → ℕ → Bool)) (r : StaticRule) (arg : Arg)
    → Behaves (static_rule id filter r arg)
unfolding static_rule
static_rule-Behaves id filter r arg c k ranked f prio e t a =
    absurd (static_target r arg c k (ap (λ (x : Target × Arg). x.0) (answer c k prio e) ∙ a))

-- What the static rule publishes, given the prefix memory `old` of its answer.
pub record IsWanted (r : StaticRule) (c : Core) (k : ℕ) (old p : Prefix) : Type 0 where
  pub wanted : Prefix
  pub returned : static_wanted r c k ≡ some wanted
  pub copied : p ≡ prefix_cpy wanted old
  pub inside : prefix_contains (c.dp (c.ldp k).dp).prefix wanted ≡ true
  pub long : (c.dp (c.ldp k).dp).prefix.plen ≤ wanted.plen
  pub valid :
      rule_valid_assignment r.override_rule_priority r.override_priority r.safety c k wanted ≡ true

static_wants :
    (r : StaticRule) (c : Core) (k : ℕ) (old : Prefix)
    → static_get_max_priority r c k ≢ 0
    → IsWanted r c k old (prefix_cpy (static_prefix r c k) old)
unfolding static_get_max_priority static_fits static_prefix
static_wants r c k old n = elim (Option-cases (static_wanted r c k)) [
  | inl e ↦ absurd (n (rw (e, static_get_max_priority) refl))
  | inr (p, e) ↦
      let fits : static_fits r c k p ≡ true = elim (Bool-cases (static_fits r c k p)) [
        | inl t ↦ t
        | inr t ↦ absurd (n (rw (e, static_get_max_priority, t) refl))
      ] in
      record {
        wanted = p;
        returned = e;
        copied = rw (e, static_prefix) refl;
        inside = ground arith;
        long = ground arith;
        valid = ground arith;
      }
]

static_prefix-match :
    (r : StaticRule) (arg : Arg) (c : Core) (k : ℕ)
    → (static_match r arg c k).0 ≡ rule_publish
    → (static_match r arg c k).1.prefix ≡ prefix_cpy (static_prefix r c k) arg.prefix
unfolding static_match
static_prefix-match r arg c k e = ground arith

-- When the static rule takes part, that is, has a priority for the pair, and has a prefix published, it
-- is a copy of the one that `get_prefix` returns, inside of the delegated prefix, and accepted by
-- `pa_rule_valid_assignment`.
pub static_rule-IsWanted :
    (id : ℕ) (filter : Option (Core → ℕ → Bool)) (r : StaticRule) (arg : Arg) (c : Core) (k : ℕ)
    → rank_of c k (static_rule id filter r arg) ≢ 0
    → (static_match r arg c k).0 ≡ rule_publish
    → IsWanted r c k arg.prefix (static_match r arg c k).1.prefix
unfolding static_rule
static_rule-IsWanted id filter r arg c k ranked target =
    let w = static_wants r c k arg.prefix (
      rank_of_positive c k (static_rule id filter r arg) (static_get_max_priority r) refl ranked) in
    rw (static_prefix-match r arg c k target) w

-- If the static rule waits for its backoff, the priority that the others must beat is not the rule's, but
-- whatever the argument of `match` held before.
pub static_backoff_priority :
    (id : ℕ) (filter : Option (Core → ℕ → Bool)) (r : StaticRule) (arg : Arg) (c : Core) (k : ℕ)
    (best : Choice)
    → (c.ldp k).backoff ≡ false
    → (c.ldp k).best_assignment ≡ none
    → let choice = try_rule c k (static_rule id filter r arg) best in
      (choice.prio ≡ arg.rule_priority)
      × (choice.made ≡ some (record { target = rule_backoff; arg = arg; by_rule = id }))
unfolding try_rule static_rule static_match
static_backoff_priority id filter r arg c k best b n = ground arith
