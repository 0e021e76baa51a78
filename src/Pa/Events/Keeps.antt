-- ===== src/Pa/Events/Keeps.antt =====
-- Every entry point keeps the flags of every pair consistent.
use hnetd.Common.{
  ℕ, ◌≡◌, inl, inr, Bool, true, false, none, List, [], ◌∷◌, arith, ◌==◌, Bool-cases, List-cases,
}
use hnetd.Pa.State.{Ldp, Core, Cell, Env, modify, for_each}
use hnetd.Pa.Ldp.Valid.{IsValid, IsSound, apply-IsSound, timeout_publish-IsSound}
use hnetd.Pa.Rules.{Rule}
use hnetd.Pa.Routine.{unassign}
use hnetd.Pa.Routine.Keeps.{
  Inv, cell-IsSound, modify-Inv, modify_self, at-modify-Inv, for_each_inv, if_keeps, unassign-Inv,
}
use hnetd.Pa.Routine.Preserves.{Behave, routine-Inv}
use hnetd.Pa.Events.{
  backoff_timeout, routine_timeout, new_ldp, ldp_create, is_unrelated, freed, ldp_destroy, when,
  dp_del, link_del, dp_pairs, link_pairs, for_all_ldps,
}

pub when-Inv : (b : Bool) (f : Core → Core) (c : Core) → Inv c → Inv (f c) → Inv (when b f c)
when-Inv b f c v w = if_keeps Inv b (f c) c (λ _. w) (λ _. v)

pub for_all_ldps-Inv :
    (body : ℕ → Core → Core)
    → ((j : ℕ) (c : Core) → Inv c → Inv (body j c))
    → (c : Core) → Inv c
    → Inv (for_all_ldps body c)
unfolding for_all_ldps
for_all_ldps-Inv body keep c v =
    for_each_inv Inv _
      (λ n c v. for_each_inv Inv _ (λ j c v. when-Inv _ (body j) c v (keep j c v)) c.ldps c v)
      c.links c v

pub backoff_timeout-Inv :
    (env : Env) (rules : List Rule) (k : ℕ) (c : Core)
    → env.alloc ≡ true
    → Behave rules
    → Inv c
    → Inv (backoff_timeout env rules k c)
unfolding backoff_timeout
backoff_timeout-Inv env rules k c0 room behave v0 =
    let off : Ldp → Ldp = λ l. record l { backoff_to = none } in
    let l = c0.ldp k in
    let w = v0.valid k in
    let sound = cell-IsSound k c0 v0 in
    elim (Bool-cases l.adopting) [
      | inl a ↦
          rw (backoff_timeout, modify_self k off c0, a)
            (at-modify-Inv k _ off c0 v0 (
              timeout_publish-IsSound (record { id = k; ldp = l; trace = c0.trace })
                (modify k off c0).flooding_delay sound a))
      | inr idle ↦
          let v = modify-Inv k off c0 v0 (ground arith) in
          let s0 : Cell = record { id = k; ldp = off l; trace = c0.trace } in
          let sound0 : IsSound s0 = record { valid = ground arith; fair = v0.fair } in
          rw (backoff_timeout, modify_self k off c0, idle)
            (if_keeps Inv l.assigned _ _
              (λ a.
                at-modify-Inv k _ off c0 v0
                  (apply-IsSound sound0 ((modify k off c0).dp l.dp).ha_applied a))
              (λ _. routine-Inv env rules true k (modify k off c0) room behave v))
    ]

pub routine_timeout-Inv :
    (env : Env) (rules : List Rule) (k : ℕ) (c : Core)
    → env.alloc ≡ true
    → Behave rules
    → Inv c
    → Inv (routine_timeout env rules k c)
unfolding routine_timeout
routine_timeout-Inv env rules k c room behave v =
    let w = v.valid k in
    routine-Inv env rules false k (modify k (λ l. record l { routine_to = none }) c) room behave
      (modify-Inv k (λ l. record l { routine_to = none }) c v (ground arith))

new_ldp-IsValid : (n d : ℕ) → IsValid (new_ldp n d)
unfolding new_ldp
new_ldp-IsValid n d = ground arith

ldp_create-Inv : (k n d : ℕ) (c : Core) → Inv c → Inv (ldp_create k n d c)
unfolding ldp_create
ldp_create-Inv k n d c v = record {
  valid = λ j.
      if_keeps IsValid (j == k) (new_ldp n d) (c.ldp j) (λ _. new_ldp-IsValid n d) (λ _. v.valid j);
  fair = v.fair;
}

freed-IsValid : IsValid freed
unfolding freed
freed-IsValid = ground arith

ldp_destroy-Inv : (k : ℕ) (c : Core) → Inv c → Inv (ldp_destroy k c)
unfolding ldp_destroy
ldp_destroy-Inv k c v = record {
  valid = λ j. if_keeps IsValid (j == k) freed (c.ldp j) (λ _. freed-IsValid) (λ _. v.valid j);
  fair = v.fair;
}

-- A loop with a condition.
pub when_loop-Inv :
    (test : ℕ → Core → Bool) (f : ℕ → Core → Core)
    → ((j : ℕ) (c : Core) → Inv c → Inv (f j c))
    → (js : List ℕ) (c : Core) → Inv c
    → Inv (for_each js (λ j c. when (test j c) (f j) c) c)
when_loop-Inv test f keep js c v =
    for_each_inv Inv (λ j c. when (test j c) (f j) c)
      (λ j c v. when-Inv (test j c) (f j) c v (keep j c v)) js c v

drop_lists-Inv : (c : Core) (ds ns : List ℕ) → Inv c → Inv (record c { dps = ds; links = ns })
drop_lists-Inv c ds ns v = record { valid = v.valid; fair = v.fair }

pub dp_del-Inv : (d : ℕ) (c : Core) → Inv c → Inv (dp_del d c)
unfolding dp_del
dp_del-Inv d c v = drop_lists-Inv _ _ _ (
    when_loop-Inv (λ j c. (c.ldp j).dp == d) ldp_destroy ldp_destroy-Inv _ _
      (when_loop-Inv (λ j c. (c.ldp j).dp == d) unassign unassign-Inv c.ldps c v))

pub link_del-Inv : (n : ℕ) (c : Core) → Inv c → Inv (link_del n c)
unfolding link_del
link_del-Inv n c v = drop_lists-Inv _ _ _ (
    when_loop-Inv (λ j c. (c.ldp j).link == n) ldp_destroy ldp_destroy-Inv _ _
      (when_loop-Inv (λ j c. (c.ldp j).link == n) unassign unassign-Inv c.ldps c v))

pub dp_pairs-Inv : (d : ℕ) (ns mem : List ℕ) (c : Core) → Inv c → Inv (dp_pairs d ns mem c).0
unfolding dp_pairs
dp_pairs-Inv d [] mem c v = v
dp_pairs-Inv d (n ∷ ns) mem c v =
    elim (Bool-cases (is_unrelated (c.dp d).ha_link (c.link_parent n))) [
      | inl e ↦ rw (e, dp_pairs) (dp_pairs-Inv d ns mem c v)
      | inr e ↦ elim (List-cases mem) [
        | inl none_left ↦ rw (e, none_left, dp_pairs) v
        | inr (k, rest, more) ↦
            rw (e, more, dp_pairs)
              (dp_pairs-Inv d ns rest (ldp_create k n d c) (ldp_create-Inv k n d c v))
      ]
    ]

pub link_pairs-Inv : (n : ℕ) (ds mem : List ℕ) (c : Core) → Inv c → Inv (link_pairs n ds mem c).0
unfolding link_pairs
link_pairs-Inv n [] mem c v = v
link_pairs-Inv n (d ∷ ds) mem c v =
    elim (Bool-cases (is_unrelated (c.dp d).ha_link (c.link_parent n))) [
      | inl e ↦ rw (e, link_pairs) (link_pairs-Inv n ds mem c v)
      | inr e ↦ elim (List-cases mem) [
        | inl none_left ↦ rw (e, none_left, link_pairs) v
        | inr (k, rest, more) ↦
            rw (e, more, link_pairs)
              (link_pairs-Inv n ds rest (ldp_create k n d c) (ldp_create-Inv k n d c v))
      ]
    ]
