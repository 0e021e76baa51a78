-- ===== src/Pa/Routine/Keeps.antt =====
-- The routine keeps the flags of every pair consistent.
use hnetd.Common.{
  ℕ, ◌≡◌, refl, Bool, true, false, not, ◌&&◌, List, [], ◌∷◌, arith, ℕ_discrete, if◌then◌else◌,
  ==_refl, ne→==,
}
use hnetd.Pa.Prefix.{Prefix}
use hnetd.Pa.State.{Core, Ldp, Cell, Env, at, modify, for_each, is_some}
use hnetd.Pa.Ldp.{routine_schedule, unpublish, unadopt, unassign_self}
use hnetd.Pa.Ldp.Valid.{
  IsValid, AreFair, IsSound, unpublish-IsSound, unadopt-IsSound, unassign_self-IsSound,
  routine_schedule-IsValid,
}
use hnetd.Pa.Routine.{schedule_free, unassign, give_up, set_best, check, clear_conflict, is_valid}

-- Every pair of the core is valid, and the users were told of fair states only.
pub record Inv (c : Core) : Type 0 where
  pub valid : (k : ℕ) → IsValid (c.ldp k)
  pub fair : AreFair c.trace

pub cell-IsSound :
    (k : ℕ) (c : Core) → Inv c → IsSound (record { id = k; ldp = c.ldp k; trace = c.trace })
cell-IsSound k c v = record { valid = v.valid k; fair = v.fair }

pub at-Inv :
    (k : ℕ) (f : Cell → Cell) (c : Core)
    → Inv c
    → IsSound (f (record { id = k; ldp = c.ldp k; trace = c.trace }))
    → Inv (at k f c)
unfolding at
at-Inv k f c v s = record {
  valid = λ j. elim (ℕ_discrete j k) [
    | yes e ↦ rw (e, ==_refl) s.valid
    | no e ↦ rw (ne→== j k e) (v.valid j)
  ];
  fair = s.fair;
}

pub modify-Inv :
    (k : ℕ) (f : Ldp → Ldp) (c : Core) → Inv c → IsValid (f (c.ldp k)) → Inv (modify k f c)
unfolding modify
modify-Inv k f c v s = record {
  valid = λ j. elim (ℕ_discrete j k) [
    | yes e ↦ rw (e, ==_refl) s
    | no e ↦ rw (ne→== j k e) (v.valid j)
  ];
  fair = v.fair;
}

pub modify_self : (k : ℕ) (f : Ldp → Ldp) (c : Core) → (modify k f c).ldp k ≡ f (c.ldp k)
unfolding modify
modify_self k f c = rw ==_refl

-- Work on a pair behind a change of it.
pub at-modify-Inv :
    (k : ℕ) (f : Cell → Cell) (g : Ldp → Ldp) (c : Core)
    → Inv c
    → IsSound (f (record { id = k; ldp = g (c.ldp k); trace = c.trace }))
    → Inv (at k f (modify k g c))
unfolding at modify
at-modify-Inv k f g c v s = record {
  valid = λ j. elim (ℕ_discrete j k) [
    | yes e ↦ rw (e, ==_refl) s.valid
    | no e ↦ rw (ne→== j k e) (v.valid j)
  ];
  fair = rw ==_refl s.fair;
}

-- The loop rule.
pub for_each_inv {ℓ} :
    (P : Core → Type ℓ) (body : ℕ → Core → Core)
    → ((j : ℕ) (c : Core) → P c → P (body j c))
    → (js : List ℕ) (c : Core) → P c
    → P (for_each js body c)
unfolding for_each
for_each_inv P body keep [] c p = p
for_each_inv P body keep (j ∷ js) c p = for_each_inv P body keep js (body j c) (keep j c p)

-- A branch keeps what both of its sides keep.
pub if_keeps {ℓ κ} :
    {A : Type ℓ} (P : A → Type κ) (b : Bool) (x y : A)
    → (b ≡ true → P x)
    → (b ≡ false → P y)
    → P (if b then x else y)
if_keeps P true x y p q = p refl
if_keeps P false x y p q = q refl

pub schedule-Inv : (k : ℕ) (c : Core) → Inv c → Inv (modify k routine_schedule c)
schedule-Inv k c v = modify-Inv k routine_schedule c v (routine_schedule-IsValid (v.valid k))

schedule_free-Inv : (k j : ℕ) (c : Core) → Inv c → Inv (schedule_free k j c)
unfolding schedule_free
schedule_free-Inv k j c v = if_keeps Inv _ _ _ (λ _. schedule-Inv j c v) (λ _. v)

pub unassign-Inv : (k : ℕ) (c : Core) → Inv c → Inv (unassign k c)
unfolding unassign
unassign-Inv k c v =
    let self = unassign_self c.flooding_delay in
    let c' = at k self c in
    let v' = at-Inv k self c v (unassign_self-IsSound (cell-IsSound k c v) c.flooding_delay) in
    if_keeps Inv (c.ldp k).assigned (for_each c.ldps (schedule_free k) c') c
      (λ _. for_each_inv Inv (schedule_free k) (λ j c. schedule_free-Inv k j c) c.ldps c' v')
      (λ _. v)

pub give_up-Inv : (k : ℕ) (c : Core) → Inv c → Inv (give_up k c)
unfolding give_up
give_up-Inv k c v =
    at-Inv k (λ s. unadopt c.flooding_delay (unpublish false s)) c v
      (unadopt-IsSound (unpublish-IsSound (cell-IsSound k c v) false) c.flooding_delay)

set_best-Inv : (k : ℕ) (c : Core) → Inv c → Inv (set_best k c)
unfolding set_best
set_best-Inv k c v = let w = v.valid k in modify-Inv k _ c v (ground arith)

pub check-Inv : (env : Env) (k : ℕ) (c : Core) → Inv c → Inv (check env k c)
unfolding check
check-Inv env k c0 v0 =
    let v = set_best-Inv k c0 v0 in
    let c = set_best k c0 in
    let keep = (c.ldp k).assigned && not (is_valid env k c) in
    let c' = if keep then unassign k c else c in
    let v' = if_keeps Inv keep (unassign k c) c (λ _. unassign-Inv k c v) (λ _. v) in
    if_keeps Inv (is_some (c'.ldp k).best_assignment) (at k (unadopt c'.flooding_delay) c') c'
      (λ _.
        at-Inv k (unadopt c'.flooding_delay) c' v'
          (unadopt-IsSound (cell-IsSound k c' v') c'.flooding_delay))
      (λ _. v')

pub clear_conflict-Inv :
    (k : ℕ) (p : Prefix) (j : ℕ) (c : Core) → Inv c → Inv (clear_conflict k p j c)
unfolding clear_conflict
clear_conflict-Inv k p j c v =
    if_keeps Inv _ (modify j routine_schedule (unassign j c)) c
      (λ _. schedule-Inv j (unassign j c) (unassign-Inv j c v)) (λ _. v)
