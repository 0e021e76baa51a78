-- ===== src/Pa/Ldp/Flags.antt =====
-- What each state change does to the flags and the prefix of its pair.
use hnetd.Common.{ℕ, ◌≡◌, Bool, true, false, Option, arith}
use hnetd.Pa.Prefix.{Prefix, prefix_cpy}
use hnetd.Pa.State.{Ldp, Cell, is_some, notify}
use hnetd.Pa.Ldp.{routine_schedule, unpublish, unadopt, publish, adopt, unassign_self, assign}

-- The fields that the two withdrawals leave alone.
pub record Withdrawn (old new : Ldp) : Type 0 where
  pub assigned : new.assigned ≡ old.assigned
  pub applied : new.applied ≡ old.applied
  pub prefix : new.prefix ≡ old.prefix
  pub dp : new.dp ≡ old.dp
  pub best : new.best_assignment ≡ old.best_assignment

module _ (s : Cell) where
  pub unpublish-Withdrawn : (cancel : Bool) → Withdrawn s.ldp (unpublish cancel s).ldp
  unfolding unpublish notify
  unpublish-Withdrawn cancel = ground arith

  pub unadopt-Withdrawn : (fd : ℕ) → Withdrawn s.ldp (unadopt fd s).ldp
  unfolding unadopt
  unadopt-Withdrawn fd = ground arith

  -- After both withdrawals nothing holds the prefix.
  pub withdrawn_flags :
      (cancel : Bool) (fd : ℕ)
      → let l = (unadopt fd (unpublish cancel s)).ldp in
        (l.published ≡ false) × (l.adopting ≡ false)
  unfolding unadopt unpublish notify
  withdrawn_flags cancel fd = ground arith

  pub publish-Withdrawn :
      (fd : ℕ) (rule : Option ℕ) (p rp : ℕ) → Withdrawn s.ldp (publish fd rule p rp s).ldp
  unfolding publish unadopt notify
  publish-Withdrawn fd rule p rp = ground arith

  pub adopt-Withdrawn :
      (delay : ℕ) (rule : Option ℕ) (p rp : ℕ) → Withdrawn s.ldp (adopt delay rule p rp s).ldp
  unfolding adopt unpublish notify
  adopt-Withdrawn delay rule p rp = ground arith

  pub published-publish :
      (fd : ℕ) (rule : Option ℕ) (p rp : ℕ) → (publish fd rule p rp s).ldp.published ≡ true
  unfolding publish unadopt notify
  published-publish fd rule p rp = ground arith

  pub unassign_self_flags :
      (fd : ℕ)
      → let l = (unassign_self fd s).ldp in
        (l.assigned ≡ false)
        × (l.prefix ≡ s.ldp.prefix)
        × (l.dp ≡ s.ldp.dp)
        × (l.best_assignment ≡ s.ldp.best_assignment)
  unfolding unassign_self unadopt unpublish notify
  unassign_self_flags fd = ground arith

  pub assign_flags :
      (fd : ℕ) (p : Prefix)
      → let l = (assign true fd p s).ldp in
        (l.assigned ≡ true)
        × (l.best_assignment ≡ s.ldp.best_assignment)
        × (l.published ≡ s.ldp.published)
        × (l.adopting ≡ s.ldp.adopting)
        × (s.ldp.assigned ≡ false → l.prefix ≡ prefix_cpy p s.ldp.prefix)
  unfolding assign notify
  assign_flags fd p = ground arith

pub routine_schedule-Withdrawn : (l : Ldp) → Withdrawn l (routine_schedule l)
unfolding routine_schedule
routine_schedule-Withdrawn l = ground arith

pub routine_schedule_flags :
    (l : Ldp)
    → ((routine_schedule l).published ≡ l.published)
      × ((routine_schedule l).adopting ≡ l.adopting)
      × (is_some (routine_schedule l).routine_to ≡ true)
unfolding routine_schedule
routine_schedule_flags l = ground arith

-- Where the tree cannot allocate, nothing is assigned.
pub assigned-assign_full :
    (s : Cell) (fd : ℕ) (p : Prefix)
    → s.ldp.assigned ≡ false
    → (assign false fd p s).ldp.assigned ≡ false
unfolding assign
assigned-assign_full s fd p u = ground arith
