-- ===== src/Pa/Rules.antt =====
-- The rules, and the choice of the best one (part 3 of `pa_routine` in src/pa_core.c). The callbacks
-- of a rule are functions of the core and of the pair; that they answer alike when called again in
-- one run of the routine is assumed.
pub mod Best
use hnetd.Common.{
  ℕ, Bool, true, false, Option, none, some, List, [], ◌∷◌, ltb, leb, ◌==◌, if◌then◌else◌,
}
use hnetd.Pa.Prefix.{Prefix}
use hnetd.Pa.State.{Core}

-- `enum pa_rule_target`
pub data Target : Type 0 where
  rule_no_match rule_adopt rule_backoff rule_publish rule_destroy : Target

-- `struct pa_rule_arg`
pub record Arg : Type 0 where
  pub rule_priority : ℕ
  pub prefix : Prefix
  pub priority : ℕ

-- `struct pa_rule`
pub record Rule : Type 0 where
  pub id : ℕ
  pub filter_accept : Option (Core → ℕ → Bool)
  pub get_max_priority : Option (Core → ℕ → ℕ)
  pub max_priority : ℕ
  pub match : Option (Core → ℕ → ℕ → Target × Arg)

-- A rule in the sorted list, with its `_max_priority`.
pub record Ranked : Type 0 where
  pub rank : ℕ
  pub rule : Rule

-- A rule's answer that is not PA_RULE_NO_MATCH.
pub record Made : Type 0 where
  pub target : Target
  pub arg : Arg
  pub by_rule : ℕ

-- `best_prio`, and the best answer so far.
pub record Choice : Type 0 where
  pub prio : ℕ
  pub made : Option Made

abbrev pub is_match : Target → Bool
is_match rule_no_match = false
is_match rule_adopt = true
is_match rule_backoff = true
is_match rule_publish = true
is_match rule_destroy = true

-- The insertion in descending order, behind the rules of the same priority.
pub insert_rule : Ranked → List Ranked → List Ranked
insert_rule r [] = r ∷ []
insert_rule r (x ∷ xs) = if ltb x.rank r.rank then r ∷ x ∷ xs else x ∷ insert_rule r xs

module _ (c : Core) (k : ℕ) where
  -- The priority under which a rule takes part: 0 if its filter refuses the pair.
  unfoldable pub rank_of : Rule → ℕ
  rank_of r =
      let top : ℕ = elim r.get_max_priority [ none ↦ r.max_priority | some f ↦ f c k ] in
      elim r.filter_accept [ none ↦ top | some accept ↦ if accept c k then top else 0 ]

  pub sort_rules : List Rule → List Ranked → List Ranked
  sort_rules [] sorted = sorted
  sort_rules (r ∷ rs) sorted = sort_rules rs (
      if rank_of r == 0 then sorted else insert_rule (record { rank = rank_of r; rule = r }) sorted)

  unfoldable pub try_rule : Rule → Choice → Choice
  try_rule r best = elim r.match [
    | none ↦ best
    | some f ↦
        let (target, arg) = f c k best.prio in
        if is_match target
        then record {
          prio = arg.rule_priority;
          made = some (record { target = target; arg = arg; by_rule = r.id });
        }
        else best
  ]

  pub choose : List Ranked → Choice → Choice
  choose [] best = best
  choose (x ∷ xs) best = elim (leb x.rank best.prio) [
    | true ↦ best
    | false ↦ choose xs (try_rule x.rule best)
  ]

  -- The best answer of the rules, above the priority `prio` that the pair has already.
  pub best_rule : List Rule → ℕ → Option Made
  best_rule rules prio = (choose (sort_rules rules []) (record { prio = prio; made = none })).made
