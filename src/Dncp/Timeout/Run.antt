-- ===== src/Dncp/Timeout/Run.antt =====
-- The steps of `dncp_ext_timeout` (src/dncp_timeout.c) in their order.
use hnetd.Common.{
  ℕ, ◌+◌, ◌-◌, ◌^◌, min, true, false, not, ◌&&◌, ◌||◌, none, some, leb, ◌==◌, if◌then◌else◌,
}
use hnetd.Tlv.{tlv_attr_equal}
use hnetd.Dncp.Graph.{Net, prune}
use hnetd.Dncp.Proto.{State, node_of, set_net, calculate_network_hash}
use hnetd.Dncp.Proto.Receive.{World, flush_own}
use hnetd.Dncp.Timeout.{Conf, Timed, set_next, within, run_eps, run_peers}

-- The start: the time is kept, and the timer counts as set.
unfoldable pub start : ℕ → State → Timed
start now s = record {
  state = set_net (λ o. record o { now = now; immediate_scheduled = true }) s;
  next = 0;
  num_neighbor_dropped = 0;
  delay = none;
}

-- The own TLVs are published again before their time of origination overflows.
unfoldable pub roll_over : Timed → Timed
roll_over x =
    let l = x.state.local in
    let next_time = (l.net.graph.node l.own).origination_time + 2 ^ 32 - 2 ^ 16 in
    if l.tlvs_dirty || l.republish_tlvs
    then x
    else if leb next_time l.net.now
    then within (λ s. record s { local = record s.local { republish_tlvs = true } }) x
    else set_next next_time x

-- The hashes of the data that pruning changes are dirty; `before` are the nodes before.
unfoldable pub dirty_changed : Net → State → State
dirty_changed before s = record s {
  node_data_hash_dirty = λ j.
      s.node_data_hash_dirty j
      || not (tlv_attr_equal (node_of s j).tlv_container (before.graph.node j).tlv_container);
}

-- `dncp_prune`, where `version` is the new version of the list of nodes
unfoldable pub prune_state : World → ℕ → State → State
prune_state w version s =
    dirty_changed s.local.net
      (set_net (λ o. prune w.validates version (record o { graph_dirty = false })) s)

-- The time of the next pruning
unfoldable pub postpone : Conf → Net → Net
postpone c o =
    if o.graph_dirty then record o { next_prune = c.minimum_prune_interval + o.last_prune } else o

unfoldable pub prune_due : World → Conf → ℕ → Timed → Timed
prune_due w c version x0 =
    let x = within (set_net (postpone c)) x0 in
    let o = x.state.local.net in
    let pruned =
      if not (o.next_prune == 0) && leb o.next_prune o.now
      then within (prune_state w version) x
      else x in
    if c.disable_prune then x0 else set_next pruned.state.local.net.next_prune pruned

-- The release of the timer, and the network hash
unfoldable pub recalculate : World → Timed → Timed
recalculate w =
    within (λ s.
      calculate_network_hash w.ext (set_net (λ o. record o { immediate_scheduled = false }) s))

-- The timer is set to the next event, but no later than in 2 ^ 16 ms; `later` is the time then.
unfoldable pub reschedule : ℕ → Timed → Timed
reschedule later x =
    if not (x.next == 0) && not x.state.local.net.immediate_scheduled
    then record x { delay = some (min (x.next - later) (2 ^ 16)) }
    else x

-- The nodes and the hashes
unfoldable pub refresh : World → Conf → ℕ → ℕ → State → Timed
refresh w c version now s =
    recalculate w (prune_due w c version (within (flush_own w) (roll_over (start now s))))

-- The timeout before the loop over the peers
unfoldable pub before_peers : World → Conf → ℕ → ℕ → State → Timed
before_peers w c version now s = let x = refresh w c version now s in run_eps w c x.state.eps x

-- `dncp_ext_timeout` at the time `now`. The time is not kept after it.
unfoldable pub ext_timeout : World → Conf → ℕ → ℕ → ℕ → State → Timed
ext_timeout w c version now later s =
    let y = before_peers w c version now s in
    within (set_net (λ o. record o { now = 0 }))
      (reschedule later (run_peers w c y.state.local.tlvs y))
