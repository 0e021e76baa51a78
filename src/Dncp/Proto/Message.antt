-- ===== src/Dncp/Proto/Message.antt =====
-- A received node state, and the whole of a message (DNCP_T_NODE_STATE and the end of `handle_message`,
-- `dncp_ext_readable` and `dncp_ext_ep_peer_state` in src/dncp_proto.c, `dncp_find_node_by_node_id` and
-- `update_node` in src/dncp.c).
use Prim.Native.Nat.{Ordering}
use hnetd.Common.{
  ℕ, ◌+◌, ◌-◌, ◌/◌, ◌%◌, ◌^◌, Bool, true, false, not, ◌&&◌, ◌||◌, Option, none, some, List, [], ◌∷◌,
  ◌++◌, ltb, ◌==◌, if◌then◌else◌, length, take, drop,
}
use hnetd.Bitops.{Bytes, memcmp}
use hnetd.Tlv.{tlv_id, tlv_len}
use hnetd.Tlv.Buf.{attr, header}
use hnetd.Pa.State.{is_some}
use hnetd.Dncp.Graph.{
  Net, Node, Graph, be32, each_attr, same_id, find_node, at, put_node, node_set, xor,
}
use hnetd.Dncp.Proto.{
  Reply, Ep, State, msg_received, node_of, ni_len_of, set_net, modify_ep, modify_peer, tlv_data,
}
use hnetd.Dncp.Proto.Push.{
  log, reply_send, push_tlv, push_network_state_tlv, push_req_node_data_tlv, send_network_state,
}
use hnetd.Dncp.Proto.Receive.{
  World, Source, Handling, Next, goes, returns, update_number_gt, scheduled, with_reply,
  node_endpoint, req_net_state, req_node_state, net_state, find_local_tlv_by_remote, begin,
}

-- The fields of a node state TLV.
pub record NodeState : Type 0 where
  pub node_id : Bytes
  pub update_number : ℕ
  pub ms_since_origination : ℕ
  pub node_data_hash : Bytes
  pub node_data : Bytes

unfoldable pub read_node_state : ℕ → ℕ → Bytes → NodeState
read_node_state nilen hlen p = record {
  node_id = take nilen p;
  update_number = be32 p nilen;
  ms_since_origination = be32 p (nilen + 4);
  node_data_hash = take hlen (drop (nilen + 8) p);
  node_data = drop (8 + nilen + hlen) p;
}

-- Whether a node state is news: of an unknown node, newer, or other data of the same number.
unfoldable pub is_interesting : State → Option ℕ → NodeState → Bool
is_interesting s n ns = elim n [
  | none ↦ true
  | some k ↦
      update_number_gt (node_of s k).update_number ns.update_number
      || (ns.update_number == (node_of s k).update_number
          && not (same_id s.hash_len (s.node_data_hash k) ns.node_data_hash))
]

-- Adding to the AVL tree of the nodes, in the order of `compare_nodes`.
unfoldable pub insert_node : Graph → ℕ → Bytes → List ℕ → List ℕ
insert_node g k ni [] = k ∷ []
insert_node g k ni (j ∷ js) = elim (memcmp ni (g.node j).node_id 0 g.ni_len) [
  | Ordering.gt ↦ j ∷ insert_node g k ni js
  | Ordering.lt ↦ k ∷ j ∷ js
  | Ordering.eq ↦ k ∷ j ∷ js
]

-- A node after `calloc`, with its id
unfoldable pub new_node : Bytes → Node
new_node ni = record {
  node_id = ni;
  update_number = 0;
  origination_time = 0;
  expiration_time = 0;
  tlv_container = none;
  is_valid = true;
}

-- `vlist_add` of a new node, and `update_node` but for the scheduling
unfoldable pub enter_node : ℕ → Bytes → State → State
enter_node k ni s =
    let g = s.local.net.graph in
    let entered = λ (o : Net). record (put_node k (new_node ni) o) {
      node_version = at k o.version o.node_version;
      last_reachable_prune = at k (o.last_prune - 1) o.last_reachable_prune;
      network_hash_dirty = true;
      graph_dirty = true;
    } in
    let listed =
      λ (o : Net). record o { graph = record o.graph { nodes = insert_node g k ni g.nodes } } in
    set_net listed (
      set_net entered (record s { node_data_hash_dirty = λ j. j == k || s.node_data_hash_dirty j }))

unfoldable pub add_node : ℕ → Bytes → State → State
add_node k ni s = scheduled (enter_node k ni s)

-- `dncp_find_node_by_node_id` with `create`
unfoldable pub find_or_create : World → Bytes → Option ℕ → State → Option (ℕ × State)
find_or_create w ni n s = elim n [
  | some k ↦ some (k, s)
  | none ↦ elim (w.fresh s.local.net.graph.nodes) [
    | none ↦ none
    | some k ↦ some (k, add_node k ni s)
  ]
]

-- Another node publishes with this node's id, and a newer number.
unfoldable pub collide : World → ℕ → State → State
collide w update_number s =
    let own = s.local.own in
    let (handled, s1) : Bool × State = if s.collided then w.handle_collision s else (false, s) in
    let n = node_of s1 own in
    let s2 =
      set_net (put_node own (record n { update_number = (update_number + 1000 - 1) % 2 ^ 32 }))
        (record s1 { collided = true; local = record s1.local { republish_tlvs = true } }) in
    if handled then s1 else scheduled s2

-- The data of node `k` are replaced.
unfoldable pub store_data : World → ℕ → NodeState → State → State
store_data w k ns s =
    let t = s.local.net.now - ns.ms_since_origination in
    let set = set_net (node_set w.validates k ns.update_number t (some (attr 0 ns.node_data))) s in
    if ltb (length ns.node_data) 4 then s else record set {
      node_data_hash = λ j. if j == k then ns.node_data_hash else s.node_data_hash j;
      node_data_hash_dirty = λ j. if j == k then false else s.node_data_hash_dirty j;
    }

-- The node's data are asked for.
unfoldable pub request_data : Source → NodeState → Handling → Handling
request_data m ns h =
    with_reply (record h { updated_or_requested_state = true })
      (push_req_node_data_tlv m.l ns.node_id (h.state, h.reply))

-- A node state that is news, with data
unfoldable pub take_data : World → Option ℕ → NodeState → Handling → Next
take_data w n ns h = elim (find_or_create w ns.node_id n h.state) [
  | none ↦ returns h.state
  | some (k, s) ↦
      if k == s.local.own
      then returns (collide w ns.update_number s)
      else goes (record h { state = store_data w k ns s; updated_or_requested_state = true })
]

-- DNCP_T_NODE_STATE, once it is read
unfoldable pub hear_state : World → Source → NodeState → Handling → Next
hear_state w m ns h =
    let s = h.state in
    let g = s.local.net.graph in
    let n = find_node g ns.node_id g.nodes in
    let refused = not (is_some m.dst) && not (s.ep m.l).accept_node_data_updates_via_multicast in
    if not (is_interesting s n ns)
    then goes h
    else if refused || length ns.node_data == 0
    then goes (request_data m ns h)
    else if not (same_id s.hash_len (w.ext.hash ns.node_data) ns.node_data_hash)
    then goes h
    else take_data w n ns h

-- DNCP_T_NODE_STATE
unfoldable pub node_state_tlv : World → Source → Bytes → Handling → Next
node_state_tlv w m a h =
    let s = h.state in
    if ltb (tlv_len a) (8 + ni_len_of s + s.hash_len)
    then goes h
    else hear_state w m (read_node_state (ni_len_of s) s.hash_len (tlv_data a)) h

-- The switch over the type of a TLV
unfoldable pub handle_tlv : World → Source → Bytes → Handling → Next
handle_tlv w m a h =
    if tlv_id a == 3
    then node_endpoint w m a h
    else if tlv_id a == 1
    then goes (req_net_state w m h)
    else if tlv_id a == 2
    then goes (req_node_state w m a h)
    else if tlv_id a == 4
    then goes (net_state m a h)
    else if tlv_id a == 5
    then node_state_tlv w m a h
    else goes h

unfoldable pub handle_tlvs : World → Source → List Bytes → Handling → Next
handle_tlvs w m [] h = goes h
handle_tlvs w m (a ∷ rest) h = elim (handle_tlv w m a h) [
  | returns s ↦ returns s
  | goes h' ↦ handle_tlvs w m rest h'
]

-- The request for the network state
unfoldable pub request_state : World → Source → Handling → Handling
request_state w m h =
    let (s, r) = push_tlv m.l 1 [] (push_network_state_tlv w.ext m.l (h.state, h.reply)) in
    let now = s.local.net.now in
    if h.should_request_network_state && not h.updated_or_requested_state && not h.is_local
    then record h {
      state = modify_ep m.l (λ e. record e { last_req_network_state = now }) s;
      reply = r;
    }
    else h

-- The reply to a multicast waits, unless one that is earlier waits already.
unfoldable pub delay_reply : World → Source → Reply → State → State
delay_reply w m r s =
    let e = s.ep m.l in
    let t = s.local.net.now + w.random % (e.conf.trickle_imin / 2) in
    if e.send_reply_at == 0 || ltb t e.send_reply_at
    then scheduled (modify_ep m.l (λ e'. record e' { send_reply_at = t; reply = r }) s)
    else s

-- The end of `handle_message`
unfoldable pub finish : World → Source → Handling → State
finish w m h0 =
    let h = request_state w m h0 in
    if not (is_some h.reply.buf)
    then h.state
    else if is_some m.dst
    then reply_send h.reply h.state
    else delay_reply w m h.reply h.state

-- `handle_message` of the TLVs of a message
unfoldable pub handle_message : World → Source → List Bytes → State → State
handle_message w m msg s = elim (handle_tlvs w m msg (begin w m s)) [
  | returns s' ↦ s'
  | goes h ↦ finish w m h
]

-- What the profile's `recv` gives: the endpoint, the addresses, the flags and the payload.
pub record Packet : Type 0 where
  pub source : Source
  pub src_linklocal : Bool
  pub dst_linklocal : Bool
  pub secure : Bool
  pub secure_tried : Bool
  pub payload : Bytes

-- The tests of `dncp_ext_readable`
unfoldable pub accepts : Ep → Packet → Bool
accepts e p =
    let unicast = is_some p.source.dst in
    if not e.enabled
    then false
    else if unicast && xor (not p.src_linklocal) (not p.dst_linklocal)
    then false
    else if not p.src_linklocal
        && not (
            if p.secure
            then e.accept_secure_nonlocal_traffic
            else e.accept_insecure_nonlocal_traffic)
    then false
    else not (unicast && p.secure_tried && not p.secure)

-- The message of a packet, with its header
unfoldable pub msg_of : Packet → Bytes
msg_of p = header 0 (length p.payload) ++ p.payload

-- `dncp_ext_readable`, with the packets that `recv` gives until it has no more
unfoldable pub readable : World → List Packet → State → State
readable w [] s = s
readable w (p ∷ ps) s0 =
    let s = log (msg_received p.source.l (msg_of p)) s0 in
    readable w ps (
      if accepts (s.ep p.source.l) p
      then handle_message w p.source (each_attr (some (msg_of p))) s
      else s)

-- `dncp_ext_ep_peer_state`
unfoldable pub peer_state : World → ℕ → ℕ → ℕ → Bool → State → State
peer_state w l local remote connected s =
    if connected
    then send_network_state w.ext l (some local) (some remote) 0 true s
    else scheduled (elim (find_local_tlv_by_remote s remote s.local.tlvs) [
      | none ↦ s
      | some t ↦ modify_peer t (λ p. record p { last_contact = 0 }) s
    ])
