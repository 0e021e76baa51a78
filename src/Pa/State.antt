-- ===== src/Pa/State.antt =====
-- The data of the prefix assignment algorithm (the structures of src/pa_core.h). A pointer to an ldp,
-- a link, a delegated prefix or a rule is a number.
use hnetd.Common.{
  ℕ, ◌*◌, ◌%◌, ◌^◌, Bool, true, false, Option, none, some, List, [], ◌∷◌, ◌==◌, if◌then◌else◌,
}
use hnetd.Pa.Prefix.{Prefix}

-- `struct pa_advp`
pub record Advp : Type 0 where
  pub node_id : ℕ
  pub prefix : Prefix
  pub priority : ℕ
  pub link : Option ℕ

-- `struct pa_ldp`. A timer is what `uloop_timeout_set` was last given, or `none` if it is not
-- pending.
pub record Ldp : Type 0 where
  pub link : ℕ
  pub dp : ℕ
  pub assigned : Bool
  pub published : Bool
  pub applied : Bool
  pub adopting : Bool
  pub backoff : Bool
  pub ha_apply_pending : Bool
  pub prefix : Prefix
  pub priority : ℕ
  pub rule_priority : ℕ
  pub rule : Option ℕ
  pub routine_to : Option ℕ
  pub backoff_to : Option ℕ
  pub best_assignment : Option Advp

-- The callbacks of `struct pa_user`.
pub data Event : Type 0 where
  assigned_event published_event applied_event : Event

-- One round of callbacks: which, about which ldp, and the ldp as the users see it.
pub record Notice : Type 0 where
  pub event : Event
  pub about : ℕ
  pub seen : Ldp

-- `struct pa_dp`. If there is a higher-level ldp, `ha_applied` is its applied flag and `ha_link` its
-- link.
pub record Dp : Type 0 where
  pub prefix : Prefix
  pub ha_applied : Option Bool
  pub ha_link : Option ℕ

-- `struct pa_core`, with the objects that it points to. `ldps` are the live pairs in the order of their
-- creation; `link_parent` is the `ha_parent` of a link. The list of a link or of a delegated prefix is
-- the part of it that belongs there. `advps` are the advertised prefixes of the tree, and the assigned
-- ones are the ldps with the flag. `trace` is what the users were told, the latest first.
pub record Core : Type 0 where
  pub node_id : ℕ
  pub flooding_delay : ℕ
  pub adopt_delay : ℕ
  pub backoff_delay : ℕ
  pub links : List ℕ
  pub link_parent : ℕ → Option ℕ
  pub dps : List ℕ
  pub dp : ℕ → Dp
  pub ldps : List ℕ
  pub ldp : ℕ → Ldp
  pub advps : List Advp
  pub trace : List Notice

-- What a run meets outside of the algorithm: the next random number, whether the tree can allocate,
-- and what a read of an ldp as an advertised prefix gives.
pub record Env : Type 0 where
  pub rand : ℕ
  pub alloc : Bool
  pub misread : Ldp → Advp

-- One ldp at work, with its address and what the users were told.
pub record Cell : Type 0 where
  pub id : ℕ
  pub ldp : Ldp
  pub trace : List Notice

abbrev pub is_some {ℓ} : {A : Type ℓ} → Option A → Bool
is_some none = false
is_some (some a) = true

-- PA_RUN_DELAY
abbrev pub run_delay : ℕ
run_delay = 20

-- `2 * flooding_delay`, a uint32_t.
abbrev pub twice : ℕ → ℕ
twice d = d * 2 % 2 ^ 32

-- `pa_user_notify`, after the ldp has changed.
unfoldable pub notify : Event → Cell → Cell
notify e s = record s { trace = record { event = e; about = s.id; seen = s.ldp } ∷ s.trace }

abbrev pub update {ℓ} : {A : Type ℓ} → (ℕ → A) → ℕ → A → ℕ → A
update f k v j = if j == k then v else f j

-- Work on one ldp of the core.
unfoldable pub at : ℕ → (Cell → Cell) → Core → Core
at k f c =
    let s = f (record { id = k; ldp = c.ldp k; trace = c.trace }) in
    record c { ldp = update c.ldp k s.ldp; trace = s.trace }

unfoldable pub modify : ℕ → (Ldp → Ldp) → Core → Core
modify k f c = record c { ldp = update c.ldp k (f (c.ldp k)) }

-- A loop over pairs.
unfoldable pub for_each : List ℕ → (ℕ → Core → Core) → Core → Core
for_each [] body c = c
for_each (j ∷ js) body c = for_each js body (body j c)
