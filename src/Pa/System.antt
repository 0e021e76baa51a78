-- ===== src/Pa/System.antt =====
-- The prefix assignment core as a system: every call and every timer, in any order.
pub mod Reach
mod Tests
use hnetd.Common.{ℕ, Option, List, [], ◌∷◌, ◌++◌, ◌==◌, if◌then◌else◌}
use hnetd.Pa.State.{Advp, Core, Dp, Env, is_some}
use hnetd.Pa.Rules.{Rule}
use hnetd.Pa.Events.{
  backoff_timeout, routine_timeout, dp_del, link_del, dp_add, link_add, advp_update, advp_add,
  advp_del, rule_add, rule_del, set_flooding_delay, set_node_id,
}

-- The core and its list of rules.
pub record System : Type 0 where
  pub core : Core
  pub rules : List Rule

-- What can happen: a timer fires, or a user calls.
pub data Action : Type 0 where
  backoff_fires routine_fires : Env → ℕ → Action
  adds_dp : ℕ → Dp → List ℕ → Action
  removes_dp : ℕ → Action
  adds_link : ℕ → Option ℕ → List ℕ → Action
  removes_link : ℕ → Action
  adds_advp : Env → Advp → Action
  updates_advp : Advp → Action
  removes_advp : ℕ → Action
  adds_rule : Rule → Action
  removes_rule : ℕ → Action
  sets_flooding_delay : ℕ → (ℕ → ℕ) → Action
  sets_node_id : ℕ → Action

without_rule : ℕ → List Rule → List Rule
without_rule r [] = []
without_rule r (x ∷ xs) = if x.id == r then without_rule r xs else x ∷ without_rule r xs

-- A timer that is not pending does not fire.
pub step : System → Action → System
unfolding without_rule
step s (backoff_fires env k) =
    if is_some (s.core.ldp k).backoff_to
    then record s { core = backoff_timeout env s.rules k s.core }
    else s
step s (routine_fires env k) =
    if is_some (s.core.ldp k).routine_to
    then record s { core = routine_timeout env s.rules k s.core }
    else s
step s (adds_dp d what mem) = record s { core = (dp_add d what mem s.core).0 }
step s (removes_dp d) = record s { core = dp_del d s.core }
step s (adds_link n parent mem) = record s { core = (link_add n parent mem s.core).0 }
step s (removes_link n) = record s { core = link_del n s.core }
step s (adds_advp env a) = record s { core = (advp_add env a s.core).0 }
step s (updates_advp a) = record s { core = advp_update a s.core }
step s (removes_advp i) = record s { core = advp_del i s.core }
step s (adds_rule r) = record s { core = rule_add s.core; rules = s.rules ++ r ∷ [] }
step s (removes_rule r) = record s { core = rule_del r s.core; rules = without_rule r s.rules }
step s (sets_flooding_delay new remaining) = record s {
  core = set_flooding_delay new remaining s.core;
}
step s (sets_node_id id) = record s { core = set_node_id id s.core }

pub run : System → List Action → System
run s [] = s
run s (a ∷ rest) = run (step s a) rest
