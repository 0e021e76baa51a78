-- ===== src/Pa/Prefix.antt =====
-- Prefixes and the macros on them (src/pa_core.h): an address of 16 bytes, of which the first `plen`
-- bits count.
use Prim.Native.Nat.{Ordering}
use hnetd.Common.{ℕ, Bool, true, false, ◌&&◌, ltb, ◌==◌, if◌then◌else◌}
use hnetd.Bitops.{Bytes, bmemcpy, bmemcmp}

pub record Prefix : Type 0 where
  pub addr : Bytes
  pub plen : ℕ

abbrev pub is_zero : Ordering → Bool
is_zero Ordering.eq = true
is_zero Ordering.lt = false
is_zero Ordering.gt = false

-- `pa_prefix_cpy(src, dst)`: the bits behind the prefix length stay in the destination.
pub prefix_cpy : Prefix → Prefix → Prefix
prefix_cpy src dst = record { addr = bmemcpy dst.addr src.addr 0 src.plen; plen = src.plen }

-- `pa_prefix_contains(p, q)`
unfoldable pub prefix_contains : Prefix → Prefix → Bool
prefix_contains p q = is_zero (bmemcmp p.addr q.addr p.plen)

pub prefix_equals : Prefix → Prefix → Bool
prefix_equals p q = (p.plen == q.plen) && is_zero (bmemcmp p.addr q.addr p.plen)

pub prefix_overlap : Prefix → Prefix → Bool
prefix_overlap p q = if ltb q.plen p.plen then prefix_contains q p else prefix_contains p q
