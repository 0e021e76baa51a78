-- ===== src/Pa/Fixture.antt =====
-- A core for the tests: one link, one delegated prefix and one pair, which publishes the same prefix as
-- another node does.
use hnetd.Common.{true, false, none, some, [], ◌∷◌, replicate}
use hnetd.Pa.Prefix.{Prefix}
use hnetd.Pa.State.{Advp, Ldp, Core}

abbrev pub subprefix : Prefix
subprefix = record { addr = 0x20 ∷ 0x01 ∷ 0x0d ∷ 0xb8 ∷ replicate 12 0; plen = 64 }

abbrev pub held : Ldp
held = record {
  link = 1;
  dp = 3;
  assigned = true;
  published = true;
  applied = false;
  adopting = false;
  backoff = false;
  ha_apply_pending = false;
  prefix = subprefix;
  priority = 2;
  rule_priority = 4;
  rule = some 1;
  routine_to = none;
  backoff_to = none;
  best_assignment = none;
}

abbrev pub other_advp : Advp
other_advp = record { node_id = 9; prefix = subprefix; priority = 2; link = none }

abbrev pub core : Core
core = record {
  node_id = 5;
  flooding_delay = 10000;
  adopt_delay = 2000;
  backoff_delay = 20000;
  links = 1 ∷ [];
  link_parent = λ _. none;
  dps = 3 ∷ [];
  dp = λ _. record { prefix = subprefix; ha_applied = none; ha_link = none };
  ldps = 7 ∷ [];
  ldp = λ _. held;
  advps = other_advp ∷ [];
  trace = [];
}

-- The same core with a pair that holds no prefix, after its backoff, and without the other node's prefix.
abbrev pub free_core : Core
free_core = record core {
  ldp = λ _. record held { assigned = false; published = false; backoff = true };
  advps = [];
}
