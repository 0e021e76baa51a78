-- ===== src/Pa/Events.antt =====
-- The entry points of the prefix assignment core (src/pa_core.c): its timers, and the calls by which
-- links, delegated prefixes, advertised prefixes and rules come and go.
pub mod Keeps
pub mod Calls
use hnetd.Common.{
  ℕ, suc, ◌+◌, ◌-◌, ◌*◌, ◌%◌, ◌^◌, Bool, true, false, not, ◌&&◌, Option, none, some, List, [], ◌∷◌,
  ◌++◌, ltb, ◌==◌, if◌then◌else◌, get_elem?, take, drop, replicate,
}
use hnetd.Pa.Prefix.{Prefix, prefix_overlap}
use hnetd.Pa.State.{Advp, Ldp, Core, Dp, Env, is_some, run_delay, update, at, modify, for_each}
use hnetd.Pa.Ldp.{routine_schedule, apply, unpublish, unadopt, publish}
use hnetd.Pa.Rules.{Rule}
use hnetd.Pa.Routine.{unassign, routine}

-- `pa_backoff_to`; the timer is no longer pending when the callback runs.
pub backoff_timeout : Env → List Rule → ℕ → Core → Core
backoff_timeout env rules k c0 =
    let c = modify k (λ l. record l { backoff_to = none }) c0 in
    let l = c.ldp k in
    if l.adopting
    then at k (publish c.flooding_delay l.rule l.priority l.rule_priority) c
    else if l.assigned
    then at k (apply (c.dp l.dp).ha_applied) c
    else routine env rules true k c

-- `pa_routine_to`
pub routine_timeout : Env → List Rule → ℕ → Core → Core
routine_timeout env rules k c =
    routine env rules false k (modify k (λ l. record l { routine_to = none }) c)

blank_prefix : Prefix
blank_prefix = record { addr = replicate 16 0; plen = 0 }

-- The pair that `calloc` and `pa_ldp_create` make.
pub new_ldp : ℕ → ℕ → Ldp
unfolding blank_prefix
new_ldp link dp = record {
  link = link;
  dp = dp;
  assigned = false;
  published = false;
  applied = false;
  adopting = false;
  backoff = false;
  ha_apply_pending = false;
  prefix = blank_prefix;
  priority = 0;
  rule_priority = 0;
  rule = none;
  routine_to = some run_delay;
  backoff_to = none;
  best_assignment = none;
}

-- `pa_ldp_create` at the address that `calloc` returns.
pub ldp_create : ℕ → ℕ → ℕ → Core → Core
ldp_create k link dp c = record c {
  ldps = c.ldps ++ k ∷ [];
  ldp = update c.ldp k (new_ldp link dp);
}

remove_id : ℕ → List ℕ → List ℕ
remove_id k [] = []
remove_id k (j ∷ js) = if j == k then remove_id k js else j ∷ remove_id k js

-- What the model keeps in freed memory.
pub freed : Ldp
unfolding new_ldp
freed = record (new_ldp 0 0) { routine_to = none }

-- `pa_ldp_destroy`: the lists forget the pair, its timers are cancelled and its memory is freed.
pub ldp_destroy : ℕ → Core → Core
unfolding remove_id
ldp_destroy k c = record c { ldps = remove_id k c.ldps; ldp = update c.ldp k freed }

-- One body of a loop over the pairs of a link or of a delegated prefix.
abbrev pub when : Bool → (Core → Core) → Core → Core
when b f c = if b then f c else c

-- `pa_dp_del`
pub dp_del : ℕ → Core → Core
unfolding remove_id
dp_del d c =
    let c1 = for_each c.ldps (λ j c. when ((c.ldp j).dp == d) (unassign j) c) c in
    let c2 = for_each c1.ldps (λ j c. when ((c.ldp j).dp == d) (ldp_destroy j) c) c1 in
    record c2 { dps = remove_id d c2.dps }

-- `pa_link_del`
pub link_del : ℕ → Core → Core
unfolding remove_id
link_del n c =
    let c1 = for_each c.ldps (λ j c. when ((c.ldp j).link == n) (unassign j) c) c in
    let c2 = for_each c1.ldps (λ j c. when ((c.ldp j).link == n) (ldp_destroy j) c) c1 in
    record c2 { links = remove_id n c2.links }

-- A link and a delegated prefix of different branches of the hierarchy are not paired.
pub is_unrelated : Option ℕ → Option ℕ → Bool
is_unrelated none parent = false
is_unrelated (some higher) none = false
is_unrelated (some higher) (some parent) = not (parent == higher)

-- The loop of `pa_dp_add` over the links. `mem` is what the calls of `calloc` return, and an empty
-- list stands for no memory; the flag says whether all pairs were made.
pub dp_pairs : ℕ → List ℕ → List ℕ → Core → Core × Bool
dp_pairs d [] mem c = (c, true)
dp_pairs d (n ∷ ns) mem c = elim (is_unrelated (c.dp d).ha_link (c.link_parent n)) [
  | true ↦ dp_pairs d ns mem c
  | false ↦ elim mem [ [] ↦ (c, false) | k ∷ rest ↦ dp_pairs d ns rest (ldp_create k n d c) ]
]

-- `pa_dp_add`: the core, and whether the call succeeds.
pub dp_add : ℕ → Dp → List ℕ → Core → Core × Bool
dp_add d what mem c =
    let (c', done) =
      dp_pairs d c.links mem
        (record c { dps = c.dps ++ d ∷ []; dp = λ j. if j == d then what else c.dp j }) in
    if done then (c', true) else (dp_del d c', false)

pub link_pairs : ℕ → List ℕ → List ℕ → Core → Core × Bool
link_pairs n [] mem c = (c, true)
link_pairs n (d ∷ ds) mem c = elim (is_unrelated (c.dp d).ha_link (c.link_parent n)) [
  | true ↦ link_pairs n ds mem c
  | false ↦ elim mem [ [] ↦ (c, false) | k ∷ rest ↦ link_pairs n ds rest (ldp_create k n d c) ]
]

-- `pa_link_add`
pub link_add : ℕ → Option ℕ → List ℕ → Core → Core × Bool
link_add n parent mem c =
    let (c', done) = link_pairs n c.dps mem (record c {
      links = c.links ++ n ∷ [];
      link_parent = λ j. if j == n then parent else c.link_parent j;
    }) in
    if done then (c', true) else (link_del n c', false)

-- `pa_advp_update`
pub advp_update : Advp → Core → Core
advp_update a c =
    for_each c.dps
      (λ d c.
        when (prefix_overlap (c.dp d).prefix a.prefix)
          (λ c. for_each c.ldps (λ j c. when ((c.ldp j).dp == d) (modify j routine_schedule) c) c)
          c)
      c

-- `pa_advp_add`
pub advp_add : Env → Advp → Core → Core × Bool
advp_add env a c =
    if env.alloc then (advp_update a (record c { advps = c.advps ++ a ∷ [] }), true) else (c, false)

-- `pa_advp_del` of the advertised prefix at place `i` of the tree.
pub advp_del : ℕ → Core → Core
advp_del i c = elim (get_elem? c.advps i) [
  | none ↦ c
  | some a ↦ advp_update a (record c { advps = take i c.advps ++ drop (suc i) c.advps })
]

-- The loops over all links, and over the pairs of each.
pub for_all_ldps : (ℕ → Core → Core) → Core → Core
for_all_ldps body c =
    for_each c.links (λ n c. for_each c.ldps (λ j c. when ((c.ldp j).link == n) (body j) c) c) c

-- `pa_rule_add`, the part on the core.
pub rule_add : Core → Core
rule_add c = for_all_ldps (λ j. modify j routine_schedule) c

-- `pa_rule_del`, the part on the core, for one pair.
pub withdraw_rule : ℕ → ℕ → Core → Core
withdraw_rule r j c0 =
    let c = modify j routine_schedule c0 in
    elim (c.ldp j).rule [
      | none ↦ c
      | some q ↦ when (q == r) (at j (λ s. unadopt c.flooding_delay (unpublish true s))) c
    ]

pub rule_del : ℕ → Core → Core
rule_del r c = for_all_ldps (withdraw_rule r) c

-- One pair's timer in `pa_core_set_flooding_delay`; `remaining` is what uloop says of it.
pub retime : ℕ → ℕ → (ℕ → ℕ) → Ldp → ℕ → Ldp
retime new old remaining l j =
    let running = l.assigned && not l.adopting && is_some l.backoff_to in
    if ltb old new
    then if running
      then record l { backoff_to = some ((remaining j + 2 * (new - old)) % 2 ^ 32) }
      else l
    else if ltb new old && running && ltb (2 * new % 2 ^ 32) (remaining j)
    then record l { backoff_to = some (2 * new % 2 ^ 32) }
    else l

-- `pa_core_set_flooding_delay`
pub set_flooding_delay : ℕ → (ℕ → ℕ) → Core → Core
set_flooding_delay new remaining c =
    let old = c.flooding_delay in
    record (for_all_ldps (λ j. modify j (λ l. retime new old remaining l j)) c) {
      flooding_delay = new;
    }

-- `pa_core_set_node_id`
pub set_node_id : ℕ → Core → Core
set_node_id id c =
    if c.node_id == id
    then c
    else for_all_ldps (λ j. modify j routine_schedule) (record c { node_id = id })

-- `pa_core_init`; the memory is what the caller gives.
pub core_init : (ℕ → Ldp) → (ℕ → Dp) → Core
core_init memory dp = record {
  node_id = 0;
  flooding_delay = 10000;
  adopt_delay = 2000;
  backoff_delay = 20000;
  links = [];
  link_parent = λ _. none;
  dps = [];
  dp = dp;
  ldps = [];
  ldp = memory;
  advps = [];
  trace = [];
}
