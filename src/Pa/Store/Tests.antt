-- ===== src/Pa/Store/Tests.antt =====
-- Tests of the store: link 0, which is the core's link 1 and keeps one prefix, has the prefix 3.
use mathlib.Core.Option.{some-injective}
use hnetd.Common.{ℕ, ◌≤◌, ◌≡◌, refl, sym, ◌∙◌, true, false, none, some, [], ◌∷◌, arith, length}
use hnetd.Pa.Prefix.{Prefix}
use hnetd.Pa.Rules.{Arg, rule_publish, rank_of}
use hnetd.Bitops.{bmemcmp, memcmp}
use hnetd.Pa.Prefix.{prefix_contains}
use hnetd.Pa.Routine.Override.{rule_valid_assignment, own_refuses, no_ldp_refuses, no_advp_refuses}
use hnetd.Pa.Fixture.{subprefix, free_core}
use hnetd.Pa.Store.Lists.{member}
use hnetd.Pa.Store.{StoreLink, Store, find_link, applied_cb, store_cache}
use hnetd.Pa.Store.Rep.{Rep, Gives}
use hnetd.Pa.Store.Cache.{Cached, store_cache-Cached, store_cache_bounded}
use hnetd.Pa.Store.Applied.{applied_cb-Rep, Consistent}
use hnetd.Pa.Fixture.{held}
use hnetd.Pa.Store.Rule.{
  StoreRule, store_rule, store_get_max_priority, store_match, candidates, first_fit, store_fits,
  plen_range, found_answer, IsStored, store_rule-IsStored,
}

abbrev pub a_link : StoreLink
a_link = record {
  name = 0x6c ∷ [];
  link = some 1;
  max_prefixes = 1;
  n_prefixes = 1;
  prefixes = 3 ∷ [];
}

abbrev pub store : Store
store = record {
  links = 0 ∷ [];
  link_at = λ _. a_link;
  prefixes = 3 ∷ [];
  prefix_at = λ _. subprefix;
  max_prefixes = 4;
  n_prefixes = 1;
  has_file = true;
  pending_changes = false;
  save_delay = 5000;
  save_timer = none;
  token_count = 1;
  token_delay = 60000;
  token_timer = none;
}

abbrev other_prefix : Prefix
other_prefix = record subprefix { plen = 56 }

store-Rep : Rep store (λ _. 0)
store-Rep = record {
  distinct = (refl, tt);
  links_distinct = (refl, tt);
  counted = refl;
  small = omega arith;
  lists = λ l h. ground arith;
  counts = λ l h. refl;
  live = λ p h. refl;
}

fresh_four : (p : ℕ) → some 4 ≡ some p → member p store.prefixes ≡ false
fresh_four p e = rw (← some-injective _ _ e) refl

store_cache-Cached_example :
    Gives (store_cache 0 other_prefix (some 4) store) (Cached store (λ _. 0) 0 other_prefix 4)
store_cache-Cached_example =
    store_cache-Cached store (λ _. 0) 0 other_prefix 4 store-Rep refl refl (omega arith)

abbrev arg : Arg
arg = record { rule_priority = 1; prefix = subprefix; priority = 1 }

abbrev stored : StoreRule
stored = record { rule_priority = 7; priority = 2; get_plen_range = none }

stored_ranked : rank_of free_core 7 (store_rule 5 stored store arg) ≡ 7
unfolding rank_of store_rule store_get_max_priority find_link
stored_ranked = refl

stored_publishes : (store_match stored store arg free_core 7).0 ≡ rule_publish
unfolding store_match candidates find_link first_fit store_fits plen_range found_answer
    rule_valid_assignment own_refuses no_ldp_refuses no_advp_refuses prefix_contains bmemcmp memcmp
stored_publishes = refl

store_rule-IsStored_example :
    IsStored stored store free_core 7 arg.prefix (store_match stored store arg free_core 7).1.prefix
store_rule-IsStored_example =
    store_rule-IsStored 5 stored store arg free_core 7 (λ e. cc (sym stored_ranked ∙ e))
      stored_publishes

abbrev outcome :
    Gives (store_cache 0 other_prefix (some 4) store) (Cached store (λ _. 0) 0 other_prefix 4)
outcome = store_cache-Cached store (λ _. 0) 0 other_prefix 4 store-Rep refl refl (omega arith)

store_cache_bounded_example : length outcome.0.0.prefixes ≤ 4
store_cache_bounded_example =
    store_cache_bounded store outcome.0.0 (λ _. 0) 0 other_prefix 4 outcome.0.1 store-Rep refl refl
      (omega arith) (λ e. cc e) (omega arith) outcome.1

applied_cb-Rep_example :
    Gives (applied_cb (record held { applied = true }) (some 4) store) Consistent
applied_cb-Rep_example =
    applied_cb-Rep (record held { applied = true }) (some 4) store (λ _. 0) store-Rep fresh_four
      (omega arith)
