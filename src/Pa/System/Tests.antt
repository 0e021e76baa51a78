-- ===== src/Pa/System/Tests.antt =====
-- Tests of the prefix assignment core, and its theorems at concrete inputs: pair 7 of link 1 and the
-- delegated prefix 2001:db8::/32, numbered 3.

use mathlib.Core.Option.{some-injective}
use hnetd.Common.{ℕ, ◌≡◌, refl, ap, true, false, none, some, List, [], ◌∷◌, replicate}
use hnetd.Pa.Prefix.{Prefix}
use hnetd.Pa.State.{Advp, Ldp, Core, Dp, Env}
use hnetd.Pa.Ldp.Valid.{IsValid, AreFair}
use hnetd.Pa.Rules.{Target, rule_publish, Arg, Rule}
use hnetd.Pa.Routine.{act_publish, routine}
use hnetd.Pa.Routine.Keeps.{Inv}
use hnetd.Pa.Routine.Settled.{Settled, routine-Settled}
use hnetd.Pa.Routine.Conflicts.{Exclusive, act_publish-Exclusive}
use hnetd.Pa.Routine.Defects.{act_publish_full}
use hnetd.Pa.Events.{core_init}
use hnetd.Pa.System.{Action, adds_link, adds_dp, adds_rule, routine_fires, backoff_fires, run}
use hnetd.Pa.System.Reach.{Behaves, run-init-Inv}

abbrev delegated : Prefix
delegated = record { addr = 0x20 ∷ 0x01 ∷ 0x0d ∷ 0xb8 ∷ replicate 12 0; plen = 32 }

abbrev blank : Ldp
blank = record {
  link = 1;
  dp = 3;
  assigned = false;
  published = false;
  applied = false;
  adopting = false;
  backoff = false;
  ha_apply_pending = false;
  prefix = record { addr = replicate 16 0; plen = 0 };
  priority = 0;
  rule_priority = 0;
  rule = none;
  routine_to = some 20;
  backoff_to = none;
  best_assignment = none;
}

-- A published prefix that waits for its apply timer.
abbrev blank-IsValid : IsValid blank
blank-IsValid = record {
  published_assigned = λ h. h;
  adopting_assigned = λ h. h;
  applied_assigned = λ h. h;
  exclusive = λ _. refl;
  adoption_timed = λ h. h;
  no_rule = λ _ _. refl;
  no_priority = λ _ _. refl;
  no_rule_priority = λ _ _. refl;
}

abbrev the_dp : Dp
the_dp = record { prefix = delegated; ha_applied = none; ha_link = none }

abbrev start : Core
start = record {
  node_id = 5;
  flooding_delay = 10000;
  adopt_delay = 2000;
  backoff_delay = 20000;
  links = 1 ∷ [];
  link_parent = λ _. none;
  dps = 3 ∷ [];
  dp = λ _. the_dp;
  ldps = 7 ∷ 8 ∷ [];
  ldp = λ _. blank;
  advps = [];
  trace = [];
}

start-Inv : Inv start
start-Inv = record { valid = λ _. blank-IsValid; fair = tt }

abbrev from_nine : Advp
from_nine = record {
  node_id = 9;
  prefix = record delegated { plen = 64 };
  priority = 2;
  link = some 1;
}

abbrev env : Env
env = record { rand = 100; alloc = true; misread = λ _. from_nine }

abbrev wanted : Arg
wanted = record { rule_priority = 5; prefix = record delegated { plen = 64 }; priority = 2 }

-- A rule that always has this prefix published.
abbrev publisher : Rule
publisher = record {
  id = 1;
  filter_accept = none;
  get_max_priority = none;
  max_priority = 5;
  match = some (λ _ _ _. (rule_publish, wanted));
}

publisher-Behaves : Behaves publisher
publisher-Behaves c k _ f prio e t a =
    cc (ap (λ (g : Core → ℕ → ℕ → Target × Arg). (g c k prio).0) (some-injective _ _ e))

routine-Settled_example : Settled start 7 ((routine env (publisher ∷ []) false 7 start).ldp 7)
routine-Settled_example =
    routine-Settled env (publisher ∷ []) false 7 start refl (λ c k. (publisher-Behaves c k, tt))
      start-Inv

act_publish-Exclusive_example :
    Exclusive 7 wanted.prefix (start.ldp 7).prefix start.ldps (act_publish env 7 wanted 1 start)
act_publish-Exclusive_example = act_publish-Exclusive env 7 wanted 1 start refl

act_publish_full_example :
    let l = (act_publish (record env { alloc = false }) 7 wanted 1 start).ldp 7 in
    (l.published ≡ true) × (l.assigned ≡ false)
act_publish_full_example =
    act_publish_full (record env { alloc = false }) 7 wanted 1 start refl refl

abbrev history : List Action
history =
    adds_link 1 none []
    ∷ adds_dp 3 the_dp (7 ∷ [])
    ∷ adds_rule publisher
    ∷ routine_fires env 7
    ∷ backoff_fires env 7
    ∷ []

run-init-Inv_example :
    let c =
      (run (record { core = core_init (λ _. blank) (λ _. the_dp); rules = [] }) history).core in
    ((k : ℕ) → IsValid (c.ldp k)) × AreFair c.trace
run-init-Inv_example =
    run-init-Inv (λ _. blank) (λ _. the_dp) history (λ _. blank-IsValid)
      (tt, (tt, (publisher-Behaves, (refl, (refl, tt)))))
