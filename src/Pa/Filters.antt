-- ===== src/Pa/Filters.antt =====
-- The filters of rules (src/pa_filters.c). A filter is the data that its `accept` function finds behind
-- its pointer; one made of others holds their list.
pub mod Meaning
mod Tests
use hnetd.Common.{ℕ, Bool, true, false, not, Option, none, some, ◌==◌, if◌then◌else◌}
use hnetd.Pa.State.{Ldp}

mutual
  pub data Filter : Type 0 where
    -- `struct pa_filter_ldp`: a link and a delegated prefix, or null pointers
    filter_ldp : Option ℕ → Option ℕ → Filter
    -- `struct pa_filters` with `pa_filters_or` or `pa_filters_and`, and its `negate`
    filters_or : Filters → Bool → Filter
    filters_and : Filters → Bool → Filter

  pub data Filters : Type 0 where
    no_filters : Filters
    filters_add : Filter → Filters → Filters

-- A pointer that is null or the one given.
pub is_null_or : Option ℕ → ℕ → Bool
is_null_or none j = true
is_null_or (some i) j = i == j

-- `pa_filter_ldp`
pub accept_ldp : Option ℕ → Option ℕ → Ldp → Bool
unfolding is_null_or
accept_ldp link dp l =
    if not (is_null_or link l.link) then false else if not (is_null_or dp l.dp) then false else true

mutual
  -- `filter->accept(rule, ldp, filter)`
  pub accept : Filter → Ldp → Bool
  accept (filter_ldp link dp) l = accept_ldp link dp l
  accept (filters_or fs negate) l = accept_or fs negate l
  accept (filters_and fs negate) l = accept_and fs negate l

  -- The loop of `pa_filters_or`
  pub accept_or : Filters → Bool → Ldp → Bool
  accept_or no_filters negate l = negate
  accept_or (filters_add f fs) negate l =
      let rest = accept_or fs negate l in if accept f l then not negate else rest

  -- The loop of `pa_filters_and`
  pub accept_and : Filters → Bool → Ldp → Bool
  accept_and no_filters negate l = not negate
  accept_and (filters_add f fs) negate l =
      let rest = accept_and fs negate l in if not (accept f l) then negate else rest
