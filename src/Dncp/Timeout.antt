-- ===== src/Dncp/Timeout.antt =====
-- The timeout of DNCP (`dncp_ext_timeout` and what it uses in src/dncp_timeout.c), which flushes the own TLVs,
-- prunes the nodes, calculates the network hash, runs the timers of the endpoints and the peers, and drops the
-- peers that are silent.
pub mod Run
pub mod Ready
pub mod Watched
pub mod Peers
pub mod Dropped
mod Tests
use hnetd.Common.{
  ℕ, zero, suc, ◌+◌, ◌-◌, ◌*◌, ◌/◌, ◌%◌, ◌^◌, ◌≤◌, ◌<◌, min, max, ◌≡◌, refl, sym, ap, ◌∙◌, ◌≢◌, ◌↔◌,
  ◌⊎◌, inl, inr, Bool, true, false, not, ◌&&◌, ◌||◌, Option, none, some, List, [], ◌∷◌, ◌++◌, map,
  arith, dec_lt, ℕ_discrete, ltb, leb, ◌==◌, if◌then◌else◌, ltb→lt, lt→ltb, leb→le, not_lt→ltb,
  ==_refl, ne→==, le→leb, ==_iff, Bool-cases, Option-cases, List-cases, length, get_elem?, get_or,
  take, drop, replicate, length-append, length-take, length-drop, length-replicate,
  take-append_length, drop-append_length, set, length-set, get_or-set_self, get_or-set_ne,
}
use hnetd.Bitops.{Bytes}
use hnetd.Tlv.{tlv_len, tlv_attr_equal}
use hnetd.Tlv.Buf.{attr}
use hnetd.Dncp.Graph.{Graph, Net, Peer, be32, each_attr, find_node, prune, tlv_peer}
use hnetd.Dncp.Index.{add_tlv_index, tlvs_with_type}
use hnetd.Dncp.Trickle.{Trickle, Endpoint, Sent, tmin, handle_trickle_and_ka}
use hnetd.Dncp.Proto.{
  State, Ep, PeerData, local_tlv_changed, node_of, ni_len_of, set_net, modify_ep, modify_peer,
  same_tlv, to_be32, find_ep, calculate_network_hash,
}
use hnetd.Dncp.Proto.Push.{log, reply_send, send_network_state}
use hnetd.Dncp.Proto.Receive.{World, scheduled, insert_tlv, has_tlv, flush_own}

-- The configuration that the timeout reads.
pub record Conf : Type 0 where
  pub keepalive_interval : ℕ
  pub keepalive_multiplier_percent : ℕ
  pub minimum_prune_interval : ℕ
  pub disable_prune : Bool

-- The state with `next`, the number of peers dropped, and the delay that the timer is set to at the end.
pub record Timed : Type 0 where
  pub state : State
  pub next : ℕ
  pub num_neighbor_dropped : ℕ
  pub delay : Option ℕ

-- SET_NEXT
unfoldable pub set_next : ℕ → Timed → Timed
set_next v x = record x { next = tmin x.next v }

unfoldable pub within : (State → State) → Timed → Timed
within f x = record x { state = f x.state }

-- Local TLVs other than `t`
unfoldable pub without_tlv : Bytes → List Bytes → List Bytes
without_tlv t [] = []
without_tlv t (a ∷ rest) = if same_tlv t a then without_tlv t rest else a ∷ without_tlv t rest

-- `dncp_remove_tlv` of a TLV that is there, and `update_tlv`
unfoldable pub remove_tlv : Bytes → State → State
remove_tlv t s0 =
    let s = log (local_tlv_changed t false) s0 in
    scheduled
      (record s { local = record s.local { tlvs = without_tlv t s.local.tlvs; tlvs_dirty = true } })

-- `dncp_remove_tlv_matching`
unfoldable pub remove_tlv_matching : Bytes → State → State
remove_tlv_matching t s = if has_tlv t s.local.tlvs then remove_tlv t s else s

-- `dncp_add_tlv` without extra data. A TLV that is there already is replaced.
unfoldable pub add_tlv : World → Bytes → State → State
add_tlv w t s0 =
    let old = if has_tlv t s0.local.tlvs then log (local_tlv_changed t false) s0 else s0 in
    let s = log (local_tlv_changed t true) old in
    if not w.tlv_fits
    then s0
    else scheduled (record s {
      local = record s.local { tlvs = insert_tlv t s.local.tlvs; tlvs_dirty = true };
    })

-- DNCP_T_KEEPALIVE_INTERVAL
unfoldable pub keepalive_tlv : ℕ → ℕ → Bytes
keepalive_tlv ep_id interval = attr 9 (to_be32 ep_id ++ to_be32 interval)

-- `ep_i_set_keepalive_interval`
unfoldable pub set_keepalive_interval : World → Conf → ℕ → ℕ → State → State
set_keepalive_interval w c l value s0 =
    let e = s0.ep l in
    let old = e.conf.published_keepalive_interval in
    let s1 =
      if old == c.keepalive_interval
      then s0
      else remove_tlv_matching (keepalive_tlv e.ep_id old) s0 in
    let s2 =
      if value == c.keepalive_interval then s1 else add_tlv w (keepalive_tlv e.ep_id value) s1 in
    if old == value
    then s0
    else modify_ep l
        (λ e. record e { conf = record e.conf { published_keepalive_interval = value } }) s2

-- The loop of `_neighbor_interval` over the keep-alive TLVs of the peer.
unfoldable pub interval_in : ℕ → ℕ → List Bytes → ℕ
interval_in value peer_ep_id [] = value
interval_in value peer_ep_id (a ∷ rest) =
    let ka_ep_id = be32 a 4 in
    let given = be32 a 8 * 1000 / 1000 in
    let skips = not (tlv_len a == 8) || (not (ka_ep_id == 0) && not (ka_ep_id == peer_ep_id)) in
    let later = interval_in (if skips then value else given) peer_ep_id rest in
    if not skips && not (ka_ep_id == 0) then given else later

-- `_neighbor_interval`
unfoldable pub neighbor_interval : Conf → Peer → State → ℕ
neighbor_interval c neigh s =
    let g = s.local.net.graph in
    elim (find_node g neigh.node_id g.nodes) [
      | none ↦ c.keepalive_interval
      | some k ↦
          elim (tlvs_with_type (add_tlv_index 9 g.types) (each_attr (g.node k).tlv_container) 9
            (g.node k).is_valid false) [
              | none ↦ c.keepalive_interval
              | some tlvs ↦ interval_in c.keepalive_interval neigh.peer_ep_id tlvs
            ]
    ]

-- What a Trickle timer sends, where `dst` is the address of the peer.
unfoldable pub send_all : World → ℕ → Option ℕ → List Sent → State → State
send_all w l dst [] s = s
send_all w l dst (m ∷ rest) s =
    send_all w l dst rest (send_network_state w.ext l none dst m.maximum_size false s)

-- `handle_trickle_and_ka` of an endpoint. The sending does not read the timer.
unfoldable pub run_ep_timer : World → ℕ → Timed → Timed
run_ep_timer w l x =
    let e = x.state.ep l in
    let rand = w.ext.random_ep l in
    let (t, sent, next) =
      handle_trickle_and_ka e.trickle e.conf x.state.local.net.now rand w.random false in
    set_next next
      (within (λ s. send_all w l none sent (modify_ep l (λ e. record e { trickle = t }) s)) x)

-- `handle_trickle_and_ka` of a peer
unfoldable pub run_peer_timer : World → ℕ → Bytes → Timed → Timed
run_peer_timer w l t x =
    let e = x.state.ep l in
    let p = x.state.peer t in
    let rand = w.ext.random_peer t in
    let (t', sent, next) =
      handle_trickle_and_ka p.trickle e.conf x.state.local.net.now rand w.random true in
    set_next next (
      within
        (λ s.
          send_all w l (some p.last_sa6) sent (modify_peer t (λ p. record p { trickle = t' }) s))
        x)

-- The delayed reply of an endpoint
unfoldable pub send_delayed : ℕ → Timed → Timed
send_delayed l x =
    let e = x.state.ep l in
    if e.send_reply_at == 0
    then x
    else if leb e.send_reply_at x.state.local.net.now
    then within (λ s. modify_ep l (λ e. record e { send_reply_at = 0 }) (reply_send e.reply s)) x
    else set_next e.send_reply_at x

-- One turn of the loop over the enabled endpoints, and the loop
unfoldable pub run_ep : World → Conf → ℕ → Timed → Timed
run_ep w c l x0 =
    let x =
      within (set_keepalive_interval w c l (x0.state.ep l).keepalive_interval)
        (send_delayed l x0) in
    if (x0.state.ep l).unicast_only then x else run_ep_timer w l x

unfoldable pub run_eps : World → Conf → List ℕ → Timed → Timed
run_eps w c [] x = x
run_eps w c (l ∷ ls) x = run_eps w c ls (if (x.state.ep l).enabled then run_ep w c l x else x)

-- Whether a peer is dropped, and if not, until when it is not.
unfoldable pub valid_until : Conf → ℕ → PeerData → ℕ
valid_until c interval p = p.last_contact + interval * c.keepalive_multiplier_percent / 100

-- The end of a turn of the loop over the peers
unfoldable pub judge_peer : Conf → Ep → ℕ → Bytes → Timed → Timed
judge_peer c e interval t x =
    let until = valid_until c interval (x.state.peer t) in
    let dropped = record (within (remove_tlv t) x) {
      num_neighbor_dropped = x.num_neighbor_dropped + 1;
    } in
    if interval == 0 && e.conf.unicast_is_reliable_stream
    then x
    else if ltb x.state.local.net.now until
    then set_next until x
    else dropped

-- One turn of the loop over the peers, and the loop. A TLV of an endpoint that is not there is passed over.
unfoldable pub run_peer : World → Conf → Bytes → Peer → Timed → Timed
run_peer w c t ne x = elim (find_ep x.state ne.ep_id x.state.eps) [
  | none ↦ x
  | some l ↦
      judge_peer c (x.state.ep l) (neighbor_interval c ne x.state) t
        (if (x.state.ep l).unicast_only then run_peer_timer w l t x else x)
]

unfoldable pub run_peers : World → Conf → List Bytes → Timed → Timed
run_peers w c [] x = x
run_peers w c (t ∷ ts) x =
    run_peers w c ts
      (elim (tlv_peer (ni_len_of x.state) t) [ none ↦ x | some ne ↦ run_peer w c t ne x ])
