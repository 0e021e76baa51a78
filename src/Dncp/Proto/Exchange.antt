-- ===== src/Dncp/Proto/Exchange.antt =====
-- Nodes learn one another's states (`_push_node_state_tlv` and DNCP_T_NODE_STATE in src/dncp_proto.c).
use Prim.Native.Nat.{Ordering}
use hnetd.Common.{
  ℕ, zero, suc, ◌+◌, ◌-◌, ◌^◌, ◌≤◌, ◌<◌, ◌≡◌, refl, sym, ap, ◌∙◌, ◌≢◌, inl, inr, true, false,
  Option, some, [], ◌∷◌, arith, ltb, ◌==◌, ==_refl, ne→==, Bool-cases, length, take,
}
use hnetd.Bitops.{Bytes, byte_at, memcmp}
use hnetd.Tlv.{tlv_len, tlv_attr_equal}
use hnetd.Tlv.Equal.{tlv_attr_equal_refl}
use hnetd.Tlv.Buf.{attr}
use hnetd.Dncp.Graph.{same_id, find_node}
use hnetd.Dncp.Graph.Replace.{node_set-tlv_container, node_set-update_number}
use hnetd.Dncp.Proto.{State, node_of, ni_len_of, set_net, tlv_data, container_data}
use hnetd.Dncp.Proto.Push.{node_state}
use hnetd.Dncp.Proto.Receive.{World, Source, Handling, goes}
use hnetd.Dncp.Proto.Message.{
  NodeState, is_interesting, find_or_create, store_data, take_data, hear_state, node_state_tlv,
  handle_tlv, read_node_state,
}
use hnetd.Dncp.Proto.Codec.{
  IsSendable, state_of, read_node_state-node_state, length-node_state, tlv_len-attr, tlv_id-attr,
  tlv_data-attr,
}

-- A node has the state `ns`: the number, the data (as `tlv_attr_equal` compares them), and the hash.
pub record HasState (k : ℕ) (ns : NodeState) (s : State) : Type 0 where
  pub number : (node_of s k).update_number ≡ ns.update_number
  pub with_data : tlv_attr_equal (some (attr 0 ns.node_data)) (node_of s k).tlv_container ≡ true
  pub hash : s.node_data_hash k ≡ ns.node_data_hash
  pub clean : s.node_data_hash_dirty k ≡ false

pub store_data-HasState :
    (w : World) (k : ℕ) (ns : NodeState) (s : State)
    → 4 ≤ length ns.node_data
    → HasState k ns (store_data w k ns s)
unfolding store_data set_net
store_data-HasState w k ns s l =
    let t = s.local.net.now - ns.ms_since_origination in
    let a = attr 0 ns.node_data in
    let long : ltb (length ns.node_data) 4 ≡ false = ground arith in
    let c = node_set-tlv_container w.validates k ns.update_number t a s.local.net in
    let old = (node_of s k).tlv_container in
    rw long (record {
      number = node_set-update_number w.validates k ns.update_number t (some a) s.local.net;
      with_data =
          ap (tlv_attr_equal (some a)) c ∙ (elim (Bool-cases (tlv_attr_equal (some a) old)) [
            | inl e ↦ rw e e
            | inr e ↦ rw e (tlv_attr_equal_refl (some a))
          ]);
      hash = rw (==_refl k) refl;
      clean = rw (==_refl k) refl;
    })

-- The node with an id, as `handle_message` looks it up.
abbrev pub known : State → Bytes → Option ℕ
known s ni = find_node s.local.net.graph ni s.local.net.graph.nodes

-- Comparing with the start of the same memory.
byte_at-take : (n i : ℕ) (x : Bytes) → i < n → byte_at (take n x) i ≡ byte_at x i
byte_at-take zero i x h = absurd (omega arith)
byte_at-take (suc n) i [] h = refl
byte_at-take (suc n) zero (b ∷ x) h = refl
byte_at-take (suc n) (suc i) (b ∷ x) h = byte_at-take n i x (omega arith)

memcmp-take : (n i k : ℕ) (x : Bytes) → i + k ≤ n → memcmp x (take n x) i k ≡ Ordering.eq
unfolding memcmp
memcmp-take n i zero x h = refl
memcmp-take n i (suc k) x h =
    ground (arith, byte_at-take n i x (omega arith), memcmp-take n (i + 1) k x (omega arith))

same_id-take : (n : ℕ) (x : Bytes) → same_id n x (take n x) ≡ true
unfolding same_id
same_id-take n x = rw (memcmp-take n 0 n x (omega arith), same_id) refl

module _ (w : World) (m : Source) (h : Handling) (ns : NodeState) (j : ℕ) (r : State)
    (unicast : (d : ℕ) × (m.dst ≡ some d)) (long : 4 ≤ length ns.node_data)
    (checked : same_id h.state.hash_len (w.ext.hash ns.node_data) ns.node_data_hash ≡ true) where
  abbrev stored : Handling
  stored = record h { state = store_data w j ns r; updated_or_requested_state = true }

  -- News with data that match their hash are stored.
  pub hear_state-stored :
      is_interesting h.state (known h.state ns.node_id) ns ≡ true
      → find_or_create w ns.node_id (known h.state ns.node_id) h.state ≡ some (j, r)
      → j ≢ r.local.own
      → hear_state w m ns h ≡ goes stored
  unfolding hear_state take_data
  hear_state-stored news c other =
      let some_data : (length ns.node_data == 0) ≡ false = ground arith in
      rw (unicast.1, hear_state, news, some_data, checked, c, take_data, ne→== j r.local.own other)
        refl

-- What a receiver makes of the TLV with the state of node `k` of the sender `s`.
module _ (w : World) (m : Source) (h : Handling) (s : State) (k : ℕ) (sendable : IsSendable k s)
    (short : length (node_state k true s) < 2 ^ 16) (ids : ni_len_of h.state ≡ ni_len_of s)
    (hashes : h.state.hash_len ≡ s.hash_len) where
  handle_tlv_state :
      handle_tlv w m (attr 5 (node_state k true s)) h
      ≡ node_state_tlv w m (attr 5 (node_state k true s)) h
  unfolding handle_tlv
  handle_tlv_state = rw (tlv_id-attr 5 (node_state k true s) short (omega arith)) refl

  read_sent :
      read_node_state (ni_len_of h.state) h.state.hash_len (tlv_data (attr 5 (node_state k true s)))
      ≡ state_of k s
  read_sent =
      rw (ids, hashes, tlv_data-attr 5 (node_state k true s) short)
        (read_node_state-node_state k s sendable)

  whole :
      ltb (tlv_len (attr 5 (node_state k true s))) (8 + ni_len_of h.state + h.state.hash_len)
      ≡ false
  whole =
      rw (ids, hashes, tlv_len-attr 5 (node_state k true s) short, length-node_state k s sendable)
        (ground arith)

  pub hears : handle_tlv w m (attr 5 (node_state k true s)) h ≡ hear_state w m (state_of k s) h
  unfolding node_state_tlv
  hears = handle_tlv_state ∙ rw (whole, node_state_tlv, read_sent) refl

-- A node state that one node sends with its data, and that is news for the node that receives it by unicast,
-- leaves the receiver with the sender's number, data and hash, if the hash that is sent is that of the data,
-- the data have four bytes at least, and the node is not the receiver itself; the receiver may have to create
-- the node first.
pub exchange :
    (w : World) (m : Source) (h : Handling) (s : State) (k j : ℕ) (r : State) (d : ℕ)
    → IsSendable k s
    → length (node_state k true s) < 2 ^ 16
    → ni_len_of h.state ≡ ni_len_of s
    → h.state.hash_len ≡ s.hash_len
    → m.dst ≡ some d
    → s.node_data_hash k ≡ w.ext.hash (container_data (node_of s k).tlv_container)
    → 4 ≤ length (container_data (node_of s k).tlv_container)
    → is_interesting h.state (known h.state (state_of k s).node_id) (state_of k s) ≡ true
    → find_or_create w (state_of k s).node_id (known h.state (state_of k s).node_id) h.state
      ≡ some (j, r)
    → j ≢ r.local.own
    → (h' : Handling) × (handle_tlv w m (attr 5 (node_state k true s)) h ≡ goes h')
      × HasState j (state_of k s) h'.state
exchange w m h s k j r d v short ids hashes u e long news c other =
    let ns = state_of k s in
    let checked : same_id h.state.hash_len (w.ext.hash ns.node_data) ns.node_data_hash ≡ true =
      ap (λ (n : ℕ). same_id n (w.ext.hash ns.node_data) ns.node_data_hash) hashes
      ∙ ap (λ b. same_id s.hash_len b ns.node_data_hash) (sym e)
      ∙ same_id-take s.hash_len (s.node_data_hash k) in
    (
      stored w m h ns j r (d, u) long checked,
      hears w m h s k v short ids hashes
          ∙ hear_state-stored w m h ns j r (d, u) long checked news c other,
      store_data-HasState w j ns r long,
    )
