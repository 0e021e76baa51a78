-- ===== src/Pa/Ldp/Valid.antt =====
-- The flags of a pair are consistent, and the users are told of consistent states only.
use hnetd.Common.{ℕ, ◌≡◌, ◌⊎◌, Bool, true, false, Option, none, List, [], ◌∷◌, arith}
use hnetd.Pa.Prefix.{Prefix}
use hnetd.Pa.State.{Ldp, Cell, assigned_event, Notice, is_some, notify}
use hnetd.Pa.Ldp.{
  routine_schedule, apply, unpublish, unadopt, publish, adopt, unassign_self, assign,
}

-- The flags of one ldp: a prefix is published, adopted or applied only while it is assigned, never
-- published and adopted at once, a running adoption has its timer, and what a rule has set is clear
-- where no rule holds the prefix.
pub record IsValid (l : Ldp) : Type 0 where
  pub published_assigned : l.published ≡ true → l.assigned ≡ true
  pub adopting_assigned : l.adopting ≡ true → l.assigned ≡ true
  pub applied_assigned : l.applied ≡ true → l.assigned ≡ true
  pub exclusive : l.published ≡ true → l.adopting ≡ false
  pub adoption_timed : l.adopting ≡ true → is_some l.backoff_to ≡ true
  pub no_rule : l.published ≡ false → l.adopting ≡ false → l.rule ≡ none
  pub no_priority : l.published ≡ false → l.adopting ≡ false → l.priority ≡ 0
  pub no_rule_priority : l.published ≡ false → l.adopting ≡ false → l.rule_priority ≡ 0

-- The callbacks on publishing and applying come with an assigned prefix.
abbrev pub IsFair : Notice → Type 0
IsFair n = (n.event ≡ assigned_event) ⊎ (n.seen.assigned ≡ true)

abbrev pub AreFair : List Notice → Type 0
AreFair [] = Unit
AreFair (n ∷ ns) = IsFair n × AreFair ns

pub record IsSound (s : Cell) : Type 0 where
  pub valid : IsValid s.ldp
  pub fair : AreFair s.trace

module _ {s : Cell} (v : IsSound s) where
  pub unpublish-IsSound : (cancel : Bool) → IsSound (unpublish cancel s)
  unfolding unpublish notify
  unpublish-IsSound cancel = ground arith

  pub unadopt-IsSound : (fd : ℕ) → IsSound (unadopt fd s)
  unfolding unadopt
  unadopt-IsSound fd = ground arith

  pub apply-IsSound : (ha : Option Bool) → s.ldp.assigned ≡ true → IsSound (apply ha s)
  unfolding apply notify
  apply-IsSound ha a = ground arith

  pub publish-IsSound :
      (fd : ℕ) (rule : Option ℕ) (p rp : ℕ)
      → s.ldp.assigned ≡ true
      → IsSound (publish fd rule p rp s)
  unfolding publish unadopt notify
  publish-IsSound fd rule p rp a = ground arith

  pub adopt-IsSound :
      (delay : ℕ) (rule : Option ℕ) (p rp : ℕ)
      → s.ldp.assigned ≡ true
      → IsSound (adopt delay rule p rp s)
  unfolding adopt unpublish notify
  adopt-IsSound delay rule p rp a = ground arith

  pub assign-IsSound : (alloc : Bool) (fd : ℕ) (p : Prefix) → IsSound (assign alloc fd p s)
  unfolding assign notify
  assign-IsSound alloc fd p = ground arith

  pub unassign_self-IsSound : (fd : ℕ) → IsSound (unassign_self fd s)
  unfolding unassign_self unadopt unpublish notify
  unassign_self-IsSound fd = ground arith

-- The end of an adoption: the timer is off, and the prefix is published at once.
pub timeout_publish-IsSound :
    (s : Cell) (fd : ℕ)
    → IsSound s
    → s.ldp.adopting ≡ true
    → let l = record (s.ldp) { backoff_to = none } in
      IsSound (publish fd l.rule l.priority l.rule_priority (record s { ldp = l }))
unfolding publish unadopt notify
timeout_publish-IsSound s fd v a = ground arith

pub routine_schedule-IsValid : {l : Ldp} → IsValid l → IsValid (routine_schedule l)
unfolding routine_schedule
routine_schedule-IsValid v = ground arith
