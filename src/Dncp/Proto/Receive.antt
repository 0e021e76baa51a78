-- ===== src/Dncp/Proto/Receive.antt =====
-- The handling of a received message (`_heard`, `_find_local_tlv_by_remote`, `handle_message`,
-- `dncp_ext_readable` and `dncp_ext_ep_peer_state` in src/dncp_proto.c, and the parts of src/dncp.c that add
-- nodes and local TLVs). The clock is past the 2 ^ 32 ms that a node state can be old, so that the time of
-- origination is not negative.
use Prim.Native.Nat.{Ordering}
use hnetd.Common.{
  ℕ, ◌+◌, ◌-◌, ◌%◌, ◌^◌, Bool, true, false, not, ◌&&◌, ◌||◌, Option, none, some, List, [], ◌∷◌,
  ◌++◌, leb, ◌==◌, if◌then◌else◌, take,
}
use hnetd.Bitops.{Bytes}
use hnetd.Tlv.{tlv_len, tlv_attr_equal, tlv_cmp}
use hnetd.Tlv.Buf.{attr}
use hnetd.Pa.State.{is_some}
use hnetd.Dncp.Graph.{tlv_peer, same_id, find_node, is_reachable, schedule}
use hnetd.Dncp.Publish.{Outside, self_flush}
use hnetd.Dncp.Trickle.{Trickle}
use hnetd.Dncp.Proto.{
  Reply, State, Ext, local_tlv_changed, node_of, ni_len_of, set_net, modify_ep, modify_peer,
  same_tlv, to_be32, tlv_data,
}
use hnetd.Dncp.Proto.Push.{log, push_node_state_tlv, push_network_state}

-- What is outside of these files: the profile's functions, the memory for a new node (its address) and for a
-- local TLV, what a flush meets, the handling of a collision, and the random number of a reply.
pub record World : Type 0 where
  pub ext : Ext
  pub validates : ℕ → Bytes → Bool
  pub flush : Outside
  pub fresh : List ℕ → Option ℕ
  pub tlv_fits : Bool
  pub handle_collision : State → Bool × State
  pub random : ℕ

-- A message: the endpoint, where it comes from, and its destination, if it is not multicast.
pub record Source : Type 0 where
  pub l : ℕ
  pub src : ℕ
  pub dst : Option ℕ

-- The variables of `handle_message`; `ne` is the local peer TLV before the peer's data.
pub record Handling : Type 0 where
  pub state : State
  pub reply : Reply
  pub seen_lid : Bool
  pub ne : Option Bytes
  pub is_local : Bool
  pub should_request_network_state : Bool
  pub updated_or_requested_state : Bool

-- A TLV of the message is handled, or `handle_message` returns.
pub data Next : Type 0 where
  goes : Handling → Next
  returns : State → Next

-- `dncp_update_number_gt`
unfoldable pub update_number_gt : ℕ → ℕ → Bool
update_number_gt a b = leb (2 ^ 31) ((a + 2 ^ 32 - b) % 2 ^ 32)

unfoldable pub scheduled : State → State
scheduled s = set_net schedule s

-- Adding to the AVL tree of the local TLVs, in the order of `compare_tlvs`.
unfoldable pub insert_tlv : Bytes → List Bytes → List Bytes
insert_tlv t [] = t ∷ []
insert_tlv t (a ∷ rest) = elim (tlv_cmp t a) [
  | Ordering.gt ↦ a ∷ insert_tlv t rest
  | Ordering.lt ↦ t ∷ a ∷ rest
  | Ordering.eq ↦ t ∷ rest
]

-- `vlist_find` of a local TLV (`dncp_find_tlv`)
unfoldable pub has_tlv : Bytes → List Bytes → Bool
has_tlv t [] = false
has_tlv t (a ∷ rest) = same_tlv t a || has_tlv t rest

-- A peer's data after `calloc`
abbrev no_trickle : Trickle
no_trickle = record {
  i = 0;
  send_time = 0;
  interval_end_time = 0;
  c = 0;
  last_sent = 0;
  num_sent = 0;
  num_skipped = 0;
}

-- `dncp_add_tlv` of a TLV that is not there, for a peer (`update_tlv`, and the start of the peer's data)
unfoldable pub add_peer : Bytes → State → State
add_peer t s0 =
    let s = log (local_tlv_changed t true) s0 in
    scheduled (
      modify_peer t
        (λ _. record { last_sa6 = 0; last_contact = s.local.net.now; trickle = no_trickle })
        (record s {
          local = record s.local { tlvs = insert_tlv t s.local.tlvs; tlvs_dirty = true };
        }))

unfoldable pub find_or_add : World → Bool → Bytes → State → State × Option Bytes
find_or_add w multicast t s =
    if has_tlv t s.local.tlvs
    then (s, some t)
    else if multicast || not w.tlv_fits
    then (s, none)
    else (add_peer t s, some t)

-- `_heard`, where `lid` is the node id and the endpoint id of the peer
unfoldable pub heard : World → Source → Bytes → State → State × Option Bytes
heard w m lid s =
    let multicast = not (is_some m.dst) in
    let (s', t) = find_or_add w multicast (attr 8 (lid ++ to_be32 (s.ep m.l).ep_id)) s in
    elim t [
      | none ↦ (s', none)
      | some a ↦
          (if multicast then s' else modify_peer a (λ p. record p { last_sa6 = m.src }) s', some a)
    ]

-- `_find_local_tlv_by_remote`
unfoldable pub find_local_tlv_by_remote : State → ℕ → List Bytes → Option Bytes
find_local_tlv_by_remote s remote [] = none
find_local_tlv_by_remote s remote (t ∷ rest) =
    let later = find_local_tlv_by_remote s remote rest in
    if is_some (tlv_peer (ni_len_of s) t) && (s.peer t).last_sa6 == remote then some t else later

-- The start of `handle_message`: on a stream the peer is known from before.
unfoldable pub begin : World → Source → State → Handling
begin w m s =
    let known =
      if is_some m.dst && (s.ep m.l).conf.unicast_is_reliable_stream
      then find_local_tlv_by_remote s m.src s.local.tlvs
      else none in
    let (s', ne) = elim known as (λ _. State × Option Bytes) [
      | none ↦ (s, none)
      | some t ↦ heard w m (take (ni_len_of s + 4) (tlv_data t)) s
    ] in
    record {
      state = s';
      reply = record { buf = none; from = m.dst; to = m.src };
      seen_lid = false;
      ne = ne;
      is_local = false;
      should_request_network_state = false;
      updated_or_requested_state = false;
    }

-- A peer that is not this node has sent its endpoint id.
unfoldable pub meet : World → Source → Bytes → Handling → Handling
meet w m lid h =
    let (s, ne) = heard w m lid h.state in
    let now = s.local.net.now in
    let met = record h { state = s; seen_lid = true; ne = ne; is_local = false } in
    elim ne [
      | none ↦ if is_some m.dst then met else record met { should_request_network_state = true }
      | some t ↦
          if is_some m.dst
          then record met { state = modify_peer t (λ p. record p { last_contact = now }) s }
          else met
    ]

-- DNCP_T_NODE_ENDPOINT
unfoldable pub node_endpoint : World → Source → Bytes → Handling → Next
node_endpoint w m a h =
    let s = h.state in
    let nilen = ni_len_of s in
    let lid = tlv_data a in
    if h.seen_lid
    then goes h
    else if not (tlv_len a == 4 + nilen)
    then returns s
    else if same_id nilen lid (node_of s s.local.own).node_id
    then goes (record h { seen_lid = true; is_local = true })
    else goes (meet w m lid h)

unfoldable pub with_reply : Handling → State × Reply → Handling
with_reply h (s, r) = record h { state = s; reply = r }

-- DNCP_T_REQ_NET_STATE
unfoldable pub req_net_state : World → Source → Handling → Handling
req_net_state w m h =
    if is_some m.dst then with_reply h (push_network_state w.ext m.l 0 (h.state, h.reply)) else h

-- The hash of a node's data is dirty once the data are others than `old`.
unfoldable pub dirty_hash : ℕ → Option Bytes → State → State
dirty_hash k old s = record s {
  node_data_hash_dirty = λ j.
      s.node_data_hash_dirty j || (j == k && not (tlv_attr_equal (node_of s k).tlv_container old));
}

unfoldable pub flush_own : World → State → State
flush_own w s =
    let old = (node_of s s.local.own).tlv_container in
    dirty_hash s.local.own old (record s { local = self_flush w.validates w.flush s.local })

-- The answer to a request for the state of node `k`
unfoldable pub answer : World → Source → ℕ → Handling → Handling
answer w m k h =
    let s = h.state in
    if k == s.local.own
    then with_reply h (push_node_state_tlv m.l k true (flush_own w s, h.reply))
    else if s.local.net.graph_dirty || not (is_reachable s.local.net k)
    then h
    else with_reply h (push_node_state_tlv m.l k true (s, h.reply))

-- DNCP_T_REQ_NODE_STATE
unfoldable pub req_node_state : World → Source → Bytes → Handling → Handling
req_node_state w m a h =
    let g = h.state.local.net.graph in
    if not (is_some m.dst) || not (tlv_len a == g.ni_len)
    then h
    else elim (find_node g (tlv_data a) g.nodes) [ none ↦ h | some k ↦ answer w m k h ]

-- A network state that is that of this node counts for Trickle.
unfoldable pub consistent : Source → Handling → Handling
consistent m h =
    let s =
      modify_ep m.l (λ e. record e { trickle = record e.trickle { c = e.trickle.c + 1 } })
        h.state in
    let now = s.local.net.now in
    record h {
      state = elim h.ne [
        | none ↦ s
        | some t ↦
            modify_peer t
              (λ p. record p {
                trickle = record p.trickle { c = p.trickle.c + 1 };
                last_contact = now;
              })
              s
      ];
    }

-- DNCP_T_NET_STATE
unfoldable pub net_state : Source → Bytes → Handling → Handling
net_state m a h =
    let s = h.state in
    let e = s.ep m.l in
    if not (tlv_len a == s.hash_len)
    then h
    else if same_id s.hash_len (tlv_data a) s.network_hash
    then consistent m h
    else if leb e.conf.trickle_imin (s.local.net.now - e.last_req_network_state)
    then record h { should_request_network_state = true }
    else h
