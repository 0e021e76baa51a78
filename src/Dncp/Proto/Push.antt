-- ===== src/Dncp/Proto/Push.antt =====
-- What is put into a reply (the functions `_push_*` and `_maybe_pop_tlv` in src/dncp_proto.c), and the
-- sending of it.
use hnetd.Common.{
  ℕ, zero, suc, ◌+◌, ◌-◌, ◌*◌, ◌%◌, ◌^◌, Bool, true, false, not, ◌&&◌, ◌||◌, Option, none, some,
  List, [], ◌∷◌, ◌++◌, ltb, leb, ◌==◌, if◌then◌else◌, length, take, drop,
}
use hnetd.Bitops.{Bytes}
use hnetd.Tlv.{tlv_raw_len, tlv_pad_len}
use hnetd.Tlv.Sort.{in_buf, copied}
use hnetd.Tlv.Buf.{Buf, attr, buf_init, buf_new}
use hnetd.Pa.State.{is_some}
use hnetd.Dncp.Graph.{is_reachable}
use hnetd.Dncp.Proto.{
  Reply, State, Event, sent, Ext, node_of, ni_len_of, same_tlv, to_be32, container_data,
  calculate_network_hash,
}

-- The loop of `_bytes_to_exp`, with `i + 1`. It doubles at most as many times as there are bytes.
unfoldable pub doublings : ℕ → ℕ → ℕ → ℕ → ℕ
doublings zero bytes v i = i
doublings (suc fuel) bytes v i =
    let more = doublings fuel bytes (v * 2) (i + 1) in if ltb v bytes then more else i

-- `_bytes_to_exp`, as the type of a TLV holds it: -1 is 2 ^ 16 - 1.
unfoldable pub bytes_to_exp : ℕ → ℕ
bytes_to_exp bytes = (doublings bytes bytes 1 0 + 2 ^ 16 - 1) % 2 ^ 16

unfoldable pub log : Event → State → State
log e s = record s { events = e ∷ s.events }

-- `dncp_reply_send`
unfoldable pub reply_send : Reply → State → State
reply_send r s = elim r.buf [
  | none ↦ s
  | some b ↦ log (sent r.from (some r.to) (take b.len b.mem)) s
]

-- Whether a TLV with `len` bytes would overflow the buffer.
unfoldable pub overflows : Buf → ℕ → Bool
overflows b len = not (b.id == 0) && ltb (2 ^ b.id) (b.len + len + 4)

-- A reply that would overflow is sent.
unfoldable pub send_full : ℕ → State × Reply → State × Reply
send_full len (s, r) = elim r.buf [
  | none ↦ (s, r)
  | some b ↦ if overflows b len then (reply_send r s, record r { buf = none }) else (s, r)
]

unfoldable pub ep_id_data : ℕ → State → Bytes
ep_id_data l s = take (ni_len_of s) (node_of s s.local.own).node_id ++ to_be32 (s.ep l).ep_id

unfoldable pub put : ℕ → Bytes → Reply → Reply
put t payload r = elim r.buf [ none ↦ r | some b ↦ record r { buf = some (buf_new t payload b) } ]

-- `_push_tlv`, with the copy of the payload. A new buffer starts with the endpoint's id (`_push_ep_id_tlv` with
-- a destination, and not `always_ep_id`), which is pushed in the same way, on less fuel.
unfoldable pub push_fuel : ℕ → ℕ → ℕ → Bytes → State × Reply → State × Reply
push_fuel zero l t payload x = x
push_fuel (suc fuel) l t payload x =
    let (s, r) = send_full (length payload) x in
    let started : State × Reply =
      (s, record r { buf = some (buf_init (bytes_to_exp (s.ep l).maximum_unicast_size)) }) in
    let headed = push_fuel fuel l 3 (ep_id_data l s) started in
    let ready =
      if is_some r.buf
      then (s, r)
      else if (s.ep l).conf.unicast_is_reliable_stream
      then started
      else headed in
    (ready.0, put t payload ready.1)

-- `_push_tlv`. The TLV of the endpoint's id finds a buffer, so that two calls are enough.
unfoldable pub push_tlv : ℕ → ℕ → Bytes → State × Reply → State × Reply
push_tlv = push_fuel 2

-- The loop of `_maybe_pop_tlv`: whether the TLV at `last_pos` is there before, where `p` is the memory
-- from `pos` on. As each TLV has four bytes at least, the length of the memory is fuel enough.
unfoldable pub is_there : ℕ → ℕ → Bytes → ℕ → Bytes → Bool
is_there zero pos p last_pos last = false
is_there (suc fuel) pos p last_pos last =
    let more = is_there fuel (pos + tlv_pad_len p) (drop (tlv_pad_len p) p) last_pos last in
    if not (in_buf p) || pos == last_pos
    then false
    else if same_tlv (copied p) last
    then true
    else more

-- `_maybe_pop_tlv` of the TLV that was pushed last
unfoldable pub maybe_pop : Bytes → Buf → Buf
maybe_pop last b =
    if is_there b.len 0 (take b.len b.mem) (b.len - tlv_pad_len last) last
    then record b { len = b.len - tlv_raw_len last }
    else b

unfoldable pub pop : Bytes → Reply → Reply
pop last r = elim r.buf [ none ↦ r | some b ↦ record r { buf = some (maybe_pop last b) } ]

unfoldable pub push_once : ℕ → ℕ → Bytes → State × Reply → State × Reply
push_once l t payload x = let (s, r) = push_tlv l t payload x in (s, pop (attr t payload) r)

-- The payload of `_push_node_state_tlv`
unfoldable pub node_state : ℕ → Bool → State → Bytes
node_state k incl_data s =
    let n = node_of s k in
    let hash = take s.hash_len (s.node_data_hash k) in
    let incl = if incl_data then container_data n.tlv_container else [] in
    let age = s.local.net.now - n.origination_time in
    take (ni_len_of s) n.node_id ++ (to_be32 n.update_number ++ (to_be32 age ++ (hash ++ incl)))

-- `_push_node_state_tlv`
unfoldable pub push_node_state_tlv : ℕ → ℕ → Bool → State × Reply → State × Reply
push_node_state_tlv l k incl_data x = push_once l 5 (node_state k incl_data x.0) x

-- `_push_network_state_tlv`. What is pushed does not change the hash.
unfoldable pub push_network_state_tlv : Ext → ℕ → State × Reply → State × Reply
push_network_state_tlv x l (s, r) =
    let hash = take s.hash_len (calculate_network_hash x s).network_hash in
    let (s', r') = push_tlv l 4 hash (s, r) in (calculate_network_hash x s', pop (attr 4 hash) r')

unfoldable pub reachable_nodes : State → List ℕ → List ℕ
reachable_nodes s [] = []
reachable_nodes s (k ∷ ks) =
    if is_reachable s.local.net k then k ∷ reachable_nodes s ks else reachable_nodes s ks

unfoldable pub push_node_states : ℕ → List ℕ → State × Reply → State × Reply
push_node_states l [] x = x
push_node_states l (k ∷ ks) x = push_node_states l ks (push_node_state_tlv l k false x)

unfoldable pub buf_len : Reply → ℕ
buf_len r = elim r.buf [ none ↦ 0 | some b ↦ b.len ]

-- `_push_network_state`
unfoldable pub push_network_state : Ext → ℕ → ℕ → State × Reply → State × Reply
push_network_state x l maximum_size y =
    let (s, r) = push_network_state_tlv x l y in
    let nodes = reachable_nodes s s.local.net.graph.nodes in
    let needed = buf_len r + length nodes * (4 + (8 + ni_len_of s + s.hash_len)) in
    if (not s.local.net.graph_dirty || maximum_size == 0)
      && (maximum_size == 0 || leb needed maximum_size)
    then push_node_states l nodes (s, r)
    else (s, r)

-- `_push_req_node_data_tlv`
unfoldable pub push_req_node_data_tlv : ℕ → Bytes → State × Reply → State × Reply
push_req_node_data_tlv l ni x = push_once l 2 (take (ni_len_of x.0) ni) x

-- `dncp_ep_i_send_network_state`. The buffer has the type 0, so it is never full.
unfoldable pub send_network_state : Ext → ℕ → Option ℕ → Option ℕ → ℕ → Bool → State → State
send_network_state x l src dst maximum_size always_ep_id s =
    let started : Reply = record { buf = some (buf_init 0); from = src; to = 0 } in
    let headed =
      if (s.ep l).conf.unicast_is_reliable_stream && is_some dst && not always_ep_id
      then started
      else put 3 (ep_id_data l s) started in
    let (s', r) = push_network_state x l maximum_size (s, headed) in
    elim r.buf [ none ↦ s' | some b ↦ log (sent src dst (take b.len b.mem)) s' ]
