-- ===== src/Pa/UserRules/Tests.antt =====
-- Tests of the ready-made rules.
use hnetd.Common.{
  ℕ, zero, suc, ◌≤◌, min, ◌≡◌, refl, sym, ◌∙◌, false, none, some, List, [], ◌∷◌, ◌++◌, arith,
  replicate, get_or, ◌<◌, ◌^◌, ◌-◌,
}
use hnetd.Pa.Rules.{Arg, rule_publish, rank_of}
use hnetd.Bitops.{bmemcmp, memcmp}
use hnetd.Pa.Prefix.{prefix_contains}
use hnetd.Pa.Routine.Override.{rule_valid_assignment, own_refuses, no_ldp_refuses, no_advp_refuses}
use hnetd.Pa.Fixture.{subprefix, free_core}
use hnetd.Pa.UserRules.{
  StaticRule, static_rule, static_get_max_priority, static_wanted, static_fits, static_match,
}
use hnetd.Pa.UserRules.Candidates.{
  share, shifted, supply, candidate_subset, subset_loop, subset_turn, candidate_subset-found,
  candidate_subset_wraps,
}
use hnetd.Pa.UserRules.Behaved.{IsWanted, static_rule-IsWanted}

-- One available /62, three /63: 4 and 6 prefixes of length 64.
abbrev counts : List ℕ
counts = replicate 62 0 ++ 1 ∷ 3 ∷ 0 ∷ []

candidate_subset_runs :
    ((candidate_subset counts 64 20 0).found ≡ 10)
    × ((candidate_subset counts 64 8 0).overflow_n ≡ 2)
unfolding candidate_subset subset_loop subset_turn share shifted
candidate_subset_runs = (refl, refl)

-- One available /0 and three /1: 4 and 6 prefixes of length 2.
abbrev few : List ℕ
few = 1 ∷ 3 ∷ 0 ∷ []

few_small : (plen : ℕ) → get_or few plen 0 < 2 ^ 16
few_small zero = omega arith
few_small (suc zero) = omega arith
few_small (suc (suc zero)) = omega arith
few_small (suc (suc (suc plen))) = omega arith

candidate_subset-found_example : (candidate_subset few 2 8 0).found ≡ min 8 (supply few 2 2)
candidate_subset-found_example =
    candidate_subset-found few 2 8
      (record { small = few_small; not_31 = λ plen e. absurd (omega (arith, e)) }) (omega arith) 0

-- One available /0 has 2 ^ 31 prefixes of length 31, fewer than are found.
abbrev whole : List ℕ
whole = 1 ∷ []

no_longer : (p : ℕ) → 0 < p → p ≤ 31 → get_or whole p 0 ≡ 0
no_longer zero a b = absurd (omega (arith, a))
no_longer (suc p) a b = refl

candidate_subset_wraps_example : (candidate_subset whole 31 (2 ^ 32 - 1) 0).found ≡ 2 ^ 32 - 1
candidate_subset_wraps_example =
    candidate_subset_wraps whole 31 (2 ^ 32 - 1) 0 0 (omega arith) (omega arith) (omega arith) refl
      no_longer

abbrev arg : Arg
arg = record { rule_priority = 1; prefix = subprefix; priority = 1 }

abbrev always : StaticRule
always = record {
  get_prefix = some (λ _ _. some subprefix);
  prefix = subprefix;
  rule_priority = 9;
  priority = 2;
  override_rule_priority = 0;
  override_priority = 0;
  safety = false;
}

always_ranked : rank_of free_core 7 (static_rule 4 none always arg) ≡ 9
unfolding rank_of static_rule static_get_max_priority static_wanted static_fits
    rule_valid_assignment own_refuses no_ldp_refuses no_advp_refuses prefix_contains bmemcmp memcmp
always_ranked = refl

always_publishes : (static_match always arg free_core 7).0 ≡ rule_publish
unfolding static_match
always_publishes = refl

static_rule-IsWanted_example :
    IsWanted always free_core 7 arg.prefix (static_match always arg free_core 7).1.prefix
static_rule-IsWanted_example =
    static_rule-IsWanted 4 none always arg free_core 7 (λ e. cc (sym always_ranked ∙ e))
      always_publishes
