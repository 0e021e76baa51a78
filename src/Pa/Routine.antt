-- ===== src/Pa/Routine.antt =====
-- The prefix assignment routine (`pa_routine` in src/pa_core.c) for one pair.
pub mod Keeps
pub mod Preserves
pub mod Outcome
pub mod Advertised
pub mod Settled
pub mod Conflicts
pub mod Defects
pub mod Override
use hnetd.Common.{
  ℕ, ◌+◌, ◌-◌, ◌%◌, ◌^◌, ◌≡◌, Bool, true, false, not, ◌&&◌, ◌||◌, Option, none, some, List, [], ◌∷◌,
  arith, ltb, ◌==◌, if◌then◌else◌,
}
use hnetd.Pa.Prefix.{Prefix, prefix_equals, prefix_overlap}
use hnetd.Pa.State.{Advp, Ldp, Core, Env, is_some, at, modify, for_each}
use hnetd.Pa.Ldp.{routine_schedule, unpublish, unadopt, publish, adopt, unassign_self, assign}
use hnetd.Pa.Rules.{
  Target, rule_no_match, rule_adopt, rule_backoff, rule_publish, rule_destroy, Arg, Rule, best_rule,
}

-- `pa_precedes`: the advertised prefix takes precedence over the pair's prefix at node `me`.
pub precedes : ℕ → Advp → Ldp → Bool
precedes me a l =
    not l.published
    || ltb l.priority a.priority
    || (a.priority == l.priority && not (a.node_id == me))

pub precedes_tie :
    (me : ℕ) (a : Advp) (l : Ldp)
    → a.priority ≡ l.priority
    → ¬ (a.node_id ≡ me)
    → precedes me a l ≡ true
unfolding precedes
precedes_tie me a l e ne = ground arith

-- An advertised prefix that is on link and better than the best one so far.
pub is_better : ℕ → Option Advp → Advp → Bool
is_better link best a = elim a.link [ none ↦ false | some on ↦ on == link ] && elim best [
  | none ↦ true
  | some b ↦ ltb b.priority a.priority || (a.priority == b.priority && ltb b.node_id a.node_id)
]

-- Part 1: the best advertised prefix among those that overlap the delegated prefix.
pub find_best : Prefix → ℕ → List Advp → Option Advp → Option Advp
find_best dp link [] best = best
find_best dp link (a ∷ rest) best =
    find_best dp link rest
      (if prefix_overlap dp a.prefix && is_better link best a then some a else best)

pub no_advp_precedes : ℕ → Ldp → List Advp → Bool
no_advp_precedes me l [] = true
no_advp_precedes me l (a ∷ rest) =
    not (prefix_overlap l.prefix a.prefix && precedes me a l) && no_advp_precedes me l rest

-- The assigned prefixes of the tree are read as advertised ones, too.
no_ldp_precedes : Env → Core → ℕ → List ℕ → Bool
no_ldp_precedes env c k [] = true
no_ldp_precedes env c k (j ∷ js) =
    not (
      (c.ldp j).assigned
      && not (j == k)
      && prefix_overlap (c.ldp k).prefix (c.ldp j).prefix
      && precedes c.node_id (env.misread (c.ldp j)) (c.ldp k))
    && no_ldp_precedes env c k js

-- `pa_ldp_global_valid`
pub global_valid : Env → Core → ℕ → Bool
unfolding no_advp_precedes no_ldp_precedes
global_valid env c k =
    no_advp_precedes c.node_id (c.ldp k) c.advps && no_ldp_precedes env c k c.ldps

pub schedule_free : ℕ → ℕ → Core → Core
schedule_free k j c =
    if (c.ldp j).dp == (c.ldp k).dp && not (c.ldp j).assigned && not (j == k)
    then modify j routine_schedule c
    else c

-- `pa_ldp_unassign`
pub unassign : ℕ → Core → Core
unassign k c =
    if (c.ldp k).assigned
    then for_each c.ldps (schedule_free k) (at k (unassign_self c.flooding_delay) c)
    else c

-- `pa_ldp_unpublish(ldp, 0)` and `pa_ldp_unadopt(ldp)`
pub give_up : ℕ → Core → Core
give_up k c = at k (λ s. unadopt c.flooding_delay (unpublish false s)) c

-- Part 2: the best advertised prefix that takes precedence, and the validity of the assignment.
pub set_best : ℕ → Core → Core
set_best k c =
    let l = c.ldp k in
    let best : Option Advp = elim (find_best (c.dp l.dp).prefix l.link c.advps none) [
      | none ↦ none
      | some a ↦ if precedes c.node_id a l then some a else none
    ] in
    modify k (λ l. record l { best_assignment = best }) c

pub is_valid : Env → ℕ → Core → Bool
is_valid env k c = elim ((c.ldp k).best_assignment) [
  | none ↦ global_valid env c k
  | some a ↦ prefix_equals (c.ldp k).prefix a.prefix
]

pub check : Env → ℕ → Core → Core
check env k c0 =
    let c = set_best k c0 in
    let c' = if (c.ldp k).assigned && not (is_valid env k c) then unassign k c else c in
    if is_some (c'.ldp k).best_assignment then at k (unadopt c'.flooding_delay) c' else c'

-- The unassignment of another pair's conflicting prefix.
pub clear_conflict : ℕ → Prefix → ℕ → Core → Core
clear_conflict k p j c =
    if (c.ldp j).assigned && not (j == k) && prefix_overlap p (c.ldp j).prefix
    then modify j routine_schedule (unassign j c)
    else c

pub act_publish : Env → ℕ → Arg → ℕ → Core → Core
act_publish env k arg rule c =
    let c1 = for_each c.ldps (clear_conflict k arg.prefix) c in
    let c2 =
      if (c1.ldp k).assigned && not (prefix_equals arg.prefix (c1.ldp k).prefix)
      then unassign k c1
      else c1 in
    let c3 =
      if (c2.ldp k).assigned
      then give_up k c2
      else at k (assign env.alloc c2.flooding_delay arg.prefix) c2 in
    let c4 = at k (publish c3.flooding_delay (some rule) arg.priority arg.rule_priority) c3 in
    modify k (λ l. record l { best_assignment = none }) c4

pub act_backoff : Env → ℕ → Core → Core
act_backoff env k c =
    let c' = unassign k c in
    let delay =
      (c'.adopt_delay + env.rand % ((c'.backoff_delay + 2 ^ 32 - c'.adopt_delay) % 2 ^ 32))
      % 2 ^ 32 in
    if is_some (c.ldp k).best_assignment
    then c
    else if is_some (c'.ldp k).backoff_to
    then c'
    else modify k (λ l. record l { backoff_to = some delay }) c'

-- Part 3: what the best rule wants.
pub act : Env → ℕ → Target → Arg → ℕ → Core → Core
act env k rule_no_match arg rule c = c
act env k rule_adopt arg rule c =
    at k (adopt (env.rand % c.adopt_delay) (some rule) arg.priority arg.rule_priority) c
act env k rule_backoff arg rule c = act_backoff env k c
act env k rule_publish arg rule c = act_publish env k arg rule c
act env k rule_destroy arg rule c = modify k routine_schedule (unassign k c)

pub run_rules : Env → List Rule → Bool → ℕ → Core → Core
run_rules env rules backoff k c0 =
    let c = modify k (λ l. record l { backoff = backoff }) c0 in
    let l = c.ldp k in
    elim (best_rule c k rules (if l.published || l.adopting then l.rule_priority else 0)) [
      | none ↦ c
      | some m ↦ act env k m.target m.arg m.by_rule c
    ]

-- Part 4: an assignment that nobody stands for is dropped, and the best one is accepted.
pub finish : Env → ℕ → Core → Core
finish env k c =
    let l = c.ldp k in
    if l.assigned
    then if is_some l.best_assignment
      then give_up k c
      else if not l.published && not l.adopting
      then unassign k c
      else c
    else elim l.best_assignment [
      | none ↦ c
      | some a ↦ at k (assign env.alloc c.flooding_delay a.prefix) (unassign k c)
    ]

-- `pa_routine`
pub routine : Env → List Rule → Bool → ℕ → Core → Core
routine env rules backoff k c = finish env k (run_rules env rules backoff k (check env k c))
