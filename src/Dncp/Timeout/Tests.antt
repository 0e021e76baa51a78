-- ===== src/Dncp/Timeout/Tests.antt =====
-- Tests of the timeout. The own node 0 has two peers on its endpoint, which have the ids 12 and 13, and
-- whose node data are not known yet.
use mathlib.Core.List.{Memᴰ}
use mathlib.Core.Path.{subst}
use hnetd.Common.{
  ℕ, ◌+◌, ◌^◌, ◌≤◌, max, ◌≡◌, refl, sym, false, none, some, List, [], ◌∷◌, ◌==◌, if◌then◌else◌,
  get_or,
}
use hnetd.Bitops.{Bytes}
use hnetd.Dncp.Proto.{State}
use hnetd.Dncp.Proto.Tests.{node, trickle, endpoint, state, world}
use hnetd.Dncp.Timeout.{
  Conf, Timed, run_peers, run_peer, judge_peer, within, set_next, run_eps, run_ep, run_ep_timer,
  send_delayed, set_keepalive_interval, send_all, neighbor_interval, valid_until,
}
use hnetd.Tlv.{tlv_id, tlv_len}
use hnetd.Bitops.{memcmp}
use hnetd.Dncp.Proto.{set_net, modify_ep, find_ep, calculate_network_hash}
use hnetd.Dncp.Proto.Receive.{flush_own, dirty_hash}
use hnetd.Dncp.Publish.{self_flush, produce_new_tlvs}
use hnetd.Dncp.Timeout.{without_tlv, remove_tlv}
use hnetd.Dncp.Timeout.Ready.{is_peer_on, remove_peers, ext_ep_ready, ext_ep_ready-gone}
use hnetd.Dncp.Proto.Push.{log}
use hnetd.Dncp.Proto.Receive.{scheduled}
use hnetd.Dncp.Proto.{ni_len_of, same_tlv}
use hnetd.Dncp.Graph.{xor, schedule, tell}
use hnetd.Tlv.{tlv_cmp}
use hnetd.Dncp.Timeout.Run.{
  before_peers, ext_timeout, reschedule, refresh, recalculate, prune_due, postpone, roll_over,
  start,
}
use hnetd.Dncp.Trickle.{tmin, handle_trickle_and_ka, handle_trickle, handle_keepalive}
use hnetd.Dncp.Graph.{tlv_peer, be32, find_node, same_id}
use hnetd.Dncp.Timeout.Peers.{valid, verdict, peer_verdict}
use hnetd.Dncp.Timeout.Dropped.{Dropped, run_peers-Dropped, ext_timeout_timely}

abbrev conf : Conf
conf = record {
  keepalive_interval = 20000;
  keepalive_multiplier_percent = 210;
  minimum_prune_interval = 20;
  disable_prune = false;
}

abbrev peer_tlv : ℕ → Bytes
peer_tlv ni = 0 ∷ 8 ∷ 0 ∷ 9 ∷ ni ∷ 0 ∷ 0 ∷ 0 ∷ 2 ∷ 0 ∷ 0 ∷ 0 ∷ 1 ∷ 0 ∷ 0 ∷ 0 ∷ []

abbrev neighbors : List Bytes
neighbors = peer_tlv 12 ∷ peer_tlv 13 ∷ []

-- The state in which the peer 13 has last been heard of at the time `heard`
abbrev with_neighbors : ℕ → State
with_neighbors heard =
    let s = state (node 10 1 none) (node 11 3 none) (0 ∷ []) in
    let quiet = record trickle { interval_end_time = 5000009000; last_sent = 5000000500 } in
    record s {
      local = record s.local {
        tlvs = neighbors;
        net = record s.local.net { network_hash_dirty = false };
      };
      ep = λ _. record endpoint {
        keepalive_interval = 20000;
        conf = record endpoint.conf { published_keepalive_interval = 20000 };
        trickle = quiet;
      };
      peer = λ t. record {
        last_sa6 = 0;
        last_contact = if get_or t 4 0 == 13 then heard else 5000000000;
        trickle = trickle;
      };
    }

-- A peer that has been silent
abbrev silent_peer : Timed
silent_peer = record { state = with_neighbors 0; next = 0; num_neighbor_dropped = 0; delay = none }

run_peers-Dropped_example :
    Dropped
      (verdict conf silent_peer.state)
      neighbors
      silent_peer
      (run_peers world conf neighbors silent_peer)
run_peers-Dropped_example = run_peers-Dropped conf world neighbors silent_peer

abbrev timed_state : State
timed_state = with_neighbors 5000000100

before : Timed
before = before_peers world conf 5 5000001000 timed_state

before_next : before.next ≡ 5000009000
unfolding before before_peers refresh recalculate within calculate_network_hash set_net prune_due
    set_next postpone flush_own self_flush dirty_hash roll_over start tmin produce_new_tlvs run_eps
    run_ep run_ep_timer send_delayed set_keepalive_interval handle_trickle_and_ka handle_trickle
    handle_keepalive send_all modify_ep
before_next = refl

before_tlvs : before.state.local.tlvs ≡ neighbors
unfolding before before_peers refresh recalculate within calculate_network_hash set_net prune_due
    set_next postpone flush_own self_flush dirty_hash roll_over start tmin produce_new_tlvs run_eps
    run_ep run_ep_timer send_delayed set_keepalive_interval handle_trickle_and_ka handle_trickle
    handle_keepalive send_all modify_ep
before_tlvs = refl

first_valid : verdict conf before.state (peer_tlv 12) ≡ valid 5000042000
unfolding before before_peers refresh recalculate within calculate_network_hash set_net prune_due
    set_next postpone flush_own self_flush dirty_hash roll_over start tmin produce_new_tlvs run_eps
    run_ep run_ep_timer send_delayed set_keepalive_interval handle_trickle_and_ka handle_trickle
    handle_keepalive send_all modify_ep verdict peer_verdict tlv_peer tlv_id tlv_len find_ep be32
    neighbor_interval find_node same_id memcmp valid_until
first_valid = refl

not_immediate :
    (ext_timeout world conf 5 5000001000 5000001001 timed_state).state.local.net.immediate_scheduled
    ≡ false
unfolding ext_timeout before_peers reschedule run_peers run_peer judge_peer refresh recalculate
    within calculate_network_hash set_net prune_due set_next postpone flush_own self_flush
    dirty_hash roll_over start tmin produce_new_tlvs run_eps run_ep run_ep_timer send_delayed
    set_keepalive_interval handle_trickle_and_ka handle_trickle handle_keepalive send_all modify_ep
    tlv_peer tlv_id tlv_len find_ep be32 neighbor_interval find_node same_id memcmp valid_until
not_immediate = refl

ext_timeout_timely_example :
    (k : ℕ) × ((ext_timeout world conf 5 5000001000 5000001001 timed_state).delay ≡ some k)
    × (k ≤ 2 ^ 16)
    × (5000001001 + k ≤ max 5000001001 5000042000)
unfolding before
ext_timeout_timely_example =
    ext_timeout_timely world conf 5 5000001000 5000001001 timed_state (peer_tlv 12) 5000042000
      (subst (λ ts. Memᴰ (peer_tlv 12) ts) (sym before_tlvs) (Memᴰ.head refl)) first_valid
      not_immediate

-- The own TLV that is left when the only endpoint of the two peers is disabled.
abbrev own_tlv : Bytes
own_tlv = 0 ∷ 99 ∷ 0 ∷ 0 ∷ []

abbrev stopping : State
stopping = let s = timed_state in record s { local = record s.local { tlvs = own_tlv ∷ neighbors } }

own_tlv_left : Memᴰ own_tlv (ext_ep_ready world conf 3 5000001000 0 false stopping).local.tlvs
unfolding ext_ep_ready xor log modify_ep set_keepalive_interval remove_peers is_peer_on tlv_peer
    tlv_id tlv_len remove_tlv scheduled schedule set_net without_tlv same_tlv tlv_cmp memcmp be32
    tell
own_tlv_left = Memᴰ.head refl

ext_ep_ready-gone_example : is_peer_on (ni_len_of stopping) (stopping.ep 0).ep_id own_tlv ≡ false
ext_ep_ready-gone_example =
    ext_ep_ready-gone world conf 3 5000001000 0 stopping own_tlv refl own_tlv_left
