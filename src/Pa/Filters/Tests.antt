-- ===== src/Pa/Filters/Tests.antt =====
-- Tests of the filters: pairs of link 1 or of the delegated prefix 3.
use hnetd.Common.{ℕ, ◌≡◌, refl, ◌↔◌, true, false, none, some, []}
use hnetd.Pa.State.{Ldp}
use hnetd.Pa.Filters.{
  Filter, filter_ldp, filters_or, no_filters, filters_add, accept, accept_ldp, is_null_or,
}
use hnetd.Pa.Filters.Meaning.{Accepts, accept_iff}

abbrev pair_of : ℕ → ℕ → Ldp
pair_of link dp = record {
  link = link;
  dp = dp;
  assigned = false;
  published = false;
  applied = false;
  adopting = false;
  backoff = false;
  ha_apply_pending = false;
  prefix = record { addr = []; plen = 0 };
  priority = 0;
  rule_priority = 0;
  rule = none;
  routine_to = none;
  backoff_to = none;
  best_assignment = none;
}

abbrev either : Filter
either =
    filters_or
      (filters_add (filter_ldp (some 1) none) (filters_add (filter_ldp none (some 3)) no_filters))
      true

accept_runs :
    (accept either (pair_of 1 4) ≡ false)
    × (accept either (pair_of 2 3) ≡ false)
    × (accept either (pair_of 2 4) ≡ true)
unfolding accept accept_ldp is_null_or
accept_runs = (refl, refl, refl)

accept_iff_example : (accept either (pair_of 2 4) ≡ true) ↔ Accepts either (pair_of 2 4)
accept_iff_example = accept_iff either (pair_of 2 4)
