-- ===== src/Pa/Events/Calls.antt =====
-- The calls of the users of the core keep the flags of every pair consistent.
use hnetd.Common.{
  ℕ, suc, ◌≡◌, refl, inl, inr, Bool, true, false, Option, List, [], ◌∷◌, ◌++◌, arith, ◌==◌,
  if◌then◌else◌, Option-cases, get_elem?, take, drop,
}
use hnetd.Pa.Prefix.{prefix_overlap}
use hnetd.Pa.State.{Advp, Ldp, Core, Dp, Env, at, modify, for_each}
use hnetd.Pa.Ldp.{routine_schedule, unpublish, unadopt}
use hnetd.Pa.Ldp.Valid.{IsValid, unpublish-IsSound, unadopt-IsSound}
use hnetd.Pa.Routine.Keeps.{
  Inv, cell-IsSound, at-Inv, modify-Inv, for_each_inv, if_keeps, schedule-Inv,
}
use hnetd.Pa.Events.{
  when, dp_del, link_del, dp_pairs, dp_add, link_pairs, link_add, advp_update, advp_add, advp_del,
  for_all_ldps, rule_add, withdraw_rule, rule_del, retime, set_flooding_delay, set_node_id,
  core_init,
}
use hnetd.Pa.Events.Keeps.{
  when-Inv, for_all_ldps-Inv, when_loop-Inv, dp_del-Inv, link_del-Inv, dp_pairs-Inv, link_pairs-Inv,
}

-- A change of the lists and of what they hold leaves the pairs alone.
same_pairs-Inv : (c d : Core) → d.ldp ≡ c.ldp → d.trace ≡ c.trace → Inv c → Inv d
same_pairs-Inv c d p q v = record { valid = λ k. rw p (v.valid k); fair = rw q v.fair }

pub dp_add-Inv : (d : ℕ) (what : Dp) (mem : List ℕ) (c : Core) → Inv c → Inv (dp_add d what mem c).0
unfolding dp_add
dp_add-Inv d what mem c v =
    let c1 : Core = record c { dps = c.dps ++ d ∷ []; dp = λ j. if j == d then what else c.dp j } in
    let c' = (dp_pairs d c.links mem c1).0 in
    let v' = dp_pairs-Inv d c.links mem c1 (same_pairs-Inv c c1 refl refl v) in
    if_keeps (λ (r : Core × Bool). Inv r.0) (dp_pairs d c.links mem c1).1 (c', true)
      (dp_del d c', false) (λ _. v') (λ _. dp_del-Inv d c' v')

pub link_add-Inv :
    (n : ℕ) (parent : Option ℕ) (mem : List ℕ) (c : Core) → Inv c → Inv (link_add n parent mem c).0
unfolding link_add
link_add-Inv n parent mem c v =
    let c1 : Core = record c {
      links = c.links ++ n ∷ [];
      link_parent = λ j. if j == n then parent else c.link_parent j;
    } in
    let c' = (link_pairs n c.dps mem c1).0 in
    let v' = link_pairs-Inv n c.dps mem c1 (same_pairs-Inv c c1 refl refl v) in
    if_keeps (λ (r : Core × Bool). Inv r.0) (link_pairs n c.dps mem c1).1 (c', true)
      (link_del n c', false) (λ _. v') (λ _. link_del-Inv n c' v')

pub advp_update-Inv : (a : Advp) (c : Core) → Inv c → Inv (advp_update a c)
unfolding advp_update
advp_update-Inv a c v =
    for_each_inv Inv
      (λ d c.
        when (prefix_overlap (c.dp d).prefix a.prefix)
          (λ c. for_each c.ldps (λ j c. when ((c.ldp j).dp == d) (modify j routine_schedule) c) c)
          c)
      (λ d c v.
        if_keeps Inv (prefix_overlap (c.dp d).prefix a.prefix) _ c
          (λ _.
            when_loop-Inv (λ j c. (c.ldp j).dp == d) (λ j. modify j routine_schedule) schedule-Inv
              c.ldps c v)
          (λ _. v))
      c.dps c v

pub advp_add-Inv : (env : Env) (a : Advp) (c : Core) → Inv c → Inv (advp_add env a c).0
unfolding advp_add
advp_add-Inv env a c v =
    let c1 : Core = record c { advps = c.advps ++ a ∷ [] } in
    if_keeps (λ (r : Core × Bool). Inv r.0) env.alloc (advp_update a c1, true) (c, false)
      (λ _. advp_update-Inv a c1 (same_pairs-Inv c c1 refl refl v)) (λ _. v)

pub advp_del-Inv : (i : ℕ) (c : Core) → Inv c → Inv (advp_del i c)
unfolding advp_del
advp_del-Inv i c v = elim (Option-cases (get_elem? c.advps i)) [
  | inl e ↦ rw (e, advp_del) v
  | inr (a, e) ↦
      let c1 : Core = record c { advps = take i c.advps ++ drop (suc i) c.advps } in
      rw (e, advp_del) (advp_update-Inv a c1 (same_pairs-Inv c c1 refl refl v))
]

pub rule_add-Inv : (c : Core) → Inv c → Inv (rule_add c)
unfolding rule_add
rule_add-Inv = for_all_ldps-Inv (λ j. modify j routine_schedule) schedule-Inv

withdraw_rule-Inv : (r j : ℕ) (c : Core) → Inv c → Inv (withdraw_rule r j c)
unfolding withdraw_rule
withdraw_rule-Inv r j c0 v0 =
    let c = modify j routine_schedule c0 in
    let v = schedule-Inv j c0 v0 in
    elim (Option-cases (c.ldp j).rule) [
      | inl e ↦ rw (e, withdraw_rule) v
      | inr (q, e) ↦
          rw (e, withdraw_rule)
            (when-Inv (q == r) (at j (λ s. unadopt c.flooding_delay (unpublish true s))) c v (
              at-Inv j (λ s. unadopt c.flooding_delay (unpublish true s)) c v
                (unadopt-IsSound (unpublish-IsSound (cell-IsSound j c v) true) c.flooding_delay)))
    ]

pub rule_del-Inv : (r : ℕ) (c : Core) → Inv c → Inv (rule_del r c)
unfolding rule_del
rule_del-Inv r = for_all_ldps-Inv (withdraw_rule r) (withdraw_rule-Inv r)

retime-IsValid :
    (new old : ℕ) (remaining : ℕ → ℕ) (l : Ldp) (j : ℕ)
    → IsValid l
    → IsValid (retime new old remaining l j)
unfolding retime
retime-IsValid new old remaining l j v = ground arith

pub set_flooding_delay-Inv :
    (new : ℕ) (remaining : ℕ → ℕ) (c : Core) → Inv c → Inv (set_flooding_delay new remaining c)
unfolding set_flooding_delay
set_flooding_delay-Inv new remaining c v =
    let old = c.flooding_delay in
    let body : ℕ → Core → Core = λ j. modify j (λ l. retime new old remaining l j) in
    let w =
      for_all_ldps-Inv body
        (λ j c v.
          modify-Inv j (λ l. retime new old remaining l j) c v
            (retime-IsValid new old remaining (c.ldp j) j (v.valid j)))
        c v in
    same_pairs-Inv (for_all_ldps body c) _ refl refl w

pub set_node_id-Inv : (id : ℕ) (c : Core) → Inv c → Inv (set_node_id id c)
unfolding set_node_id
set_node_id-Inv id c v =
    let c1 : Core = record c { node_id = id } in
    if_keeps Inv (c.node_id == id) c _ (λ _. v)
      (λ _.
        for_all_ldps-Inv (λ j. modify j routine_schedule) schedule-Inv c1
          (same_pairs-Inv c c1 refl refl v))

pub core_init-Inv :
    (memory : ℕ → Ldp) (dp : ℕ → Dp) → ((k : ℕ) → IsValid (memory k)) → Inv (core_init memory dp)
unfolding core_init
core_init-Inv memory dp v = record { valid = v; fair = tt }
