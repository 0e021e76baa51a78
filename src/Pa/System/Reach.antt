-- ===== src/Pa/System/Reach.antt =====
-- What holds in every state that the prefix assignment core can reach.
use hnetd.Common.{ℕ, ◌≡◌, true, List, [], ◌∷◌, ◌++◌, ◌==◌}
use hnetd.Pa.State.{Ldp, Core, Dp}
use hnetd.Pa.Ldp.Valid.{IsValid, AreFair}
use hnetd.Pa.Rules.{Rule}
use hnetd.Pa.Rules.Best.{All, Answers}
use hnetd.Pa.Routine.Keeps.{Inv, if_keeps}
use hnetd.Pa.Routine.Preserves.{Behave, Adopts}
use hnetd.Pa.Events.{core_init}
use hnetd.Pa.Events.Keeps.{backoff_timeout-Inv, routine_timeout-Inv, dp_del-Inv, link_del-Inv}
use hnetd.Pa.Events.Calls.{
  dp_add-Inv, link_add-Inv, advp_update-Inv, advp_add-Inv, advp_del-Inv, rule_add-Inv, rule_del-Inv,
  set_flooding_delay-Inv, set_node_id-Inv, core_init-Inv,
}
use hnetd.Pa.System.{
  System, Action, backoff_fires, routine_fires, adds_dp, removes_dp, adds_link, removes_link,
  adds_advp, updates_advp, removes_advp, adds_rule, removes_rule, sets_flooding_delay, sets_node_id,
  without_rule, step, run,
}

-- A rule that asks for an adoption only of an assigned prefix.
abbrev pub Behaves : Rule → Type 0
Behaves r = (c : Core) (k : ℕ) → Answers (Adopts c k) c k r

-- What an action needs: the tree can allocate while the routine runs, and a new rule behaves.
abbrev pub IsFine : Action → Type 0
IsFine (backoff_fires env k) = env.alloc ≡ true
IsFine (routine_fires env k) = env.alloc ≡ true
IsFine (adds_rule r) = Behaves r
IsFine _ = Unit

-- The invariant of the system.
pub record SystemInv (s : System) : Type 0 where
  pub core : Inv s.core
  pub rules : All Behaves s.rules

behave : (rules : List Rule) → All Behaves rules → Behave rules
behave [] p c k = tt
behave (r ∷ rs) p c k = (p.0 c k, behave rs p.1 c k)

All-append_one :
    (rules : List Rule) (r : Rule) → All Behaves rules → Behaves r → All Behaves (rules ++ r ∷ [])
All-append_one [] r p q = (q, tt)
All-append_one (x ∷ xs) r p q = (p.0, All-append_one xs r p.1 q)

All-without_rule :
    (r : ℕ) (rules : List Rule) → All Behaves rules → All Behaves (without_rule r rules)
unfolding without_rule
All-without_rule r [] p = tt
All-without_rule r (x ∷ xs) p =
    if_keeps (All Behaves) (x.id == r) (without_rule r xs) (x ∷ without_rule r xs)
      (λ _. All-without_rule r xs p.1) (λ _. (p.0, All-without_rule r xs p.1))

with_core : (s : System) (c : Core) → SystemInv s → Inv c → SystemInv (record s { core = c })
with_core s c v w = record { core = w; rules = v.rules }

pub step-Inv : (s : System) (a : Action) → IsFine a → SystemInv s → SystemInv (step s a)
unfolding step
step-Inv s (backoff_fires env k) f v =
    if_keeps SystemInv _ _ s
      (λ _.
        with_core s _ v
          (backoff_timeout-Inv env s.rules k s.core f (behave s.rules v.rules) v.core))
      (λ _. v)
step-Inv s (routine_fires env k) f v =
    if_keeps SystemInv _ _ s
      (λ _.
        with_core s _ v
          (routine_timeout-Inv env s.rules k s.core f (behave s.rules v.rules) v.core))
      (λ _. v)
step-Inv s (adds_dp d what mem) f v = with_core s _ v (dp_add-Inv d what mem s.core v.core)
step-Inv s (removes_dp d) f v = with_core s _ v (dp_del-Inv d s.core v.core)
step-Inv s (adds_link n parent mem) f v = with_core s _ v (link_add-Inv n parent mem s.core v.core)
step-Inv s (removes_link n) f v = with_core s _ v (link_del-Inv n s.core v.core)
step-Inv s (adds_advp env a) f v = with_core s _ v (advp_add-Inv env a s.core v.core)
step-Inv s (updates_advp a) f v = with_core s _ v (advp_update-Inv a s.core v.core)
step-Inv s (removes_advp i) f v = with_core s _ v (advp_del-Inv i s.core v.core)
step-Inv s (adds_rule r) f v = record {
  core = rule_add-Inv s.core v.core;
  rules = All-append_one s.rules r v.rules f;
}
step-Inv s (removes_rule r) f v = record {
  core = rule_del-Inv r s.core v.core;
  rules = All-without_rule r s.rules v.rules;
}
step-Inv s (sets_flooding_delay new remaining) f v =
    with_core s _ v (set_flooding_delay-Inv new remaining s.core v.core)
step-Inv s (sets_node_id id) f v = with_core s _ v (set_node_id-Inv id s.core v.core)

run-Inv :
    (s : System) (actions : List Action)
    → All IsFine actions
    → SystemInv s
    → SystemInv (run s actions)
unfolding run
run-Inv s [] f v = v
run-Inv s (a ∷ rest) f v = run-Inv (step s a) rest f.1 (step-Inv s a f.0 v)

-- From an initialised core over consistent memory, after any sequence of calls and timers, every pair
-- is consistent (a prefix is published, adopted or applied only while assigned, never published and
-- adopted at once, an adoption has its timer), and every callback on a published or applied prefix
-- came with the prefix assigned; if the tree could always allocate and all rules behave.
pub run-init-Inv :
    (memory : ℕ → Ldp) (dp : ℕ → Dp) (actions : List Action)
    → ((k : ℕ) → IsValid (memory k))
    → All IsFine actions
    → let c = (run (record { core = core_init memory dp; rules = [] }) actions).core in
      ((k : ℕ) → IsValid (c.ldp k)) × AreFair c.trace
run-init-Inv memory dp actions v f =
    let w =
      run-Inv (record { core = core_init memory dp; rules = [] }) actions f
        (record { core = core_init-Inv memory dp v; rules = tt }) in
    (w.core.valid, w.core.fair)
