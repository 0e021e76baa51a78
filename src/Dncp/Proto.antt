-- ===== src/Dncp/Proto.antt =====
-- The state that the messages of DNCP change, and what is put into messages (src/dncp_proto.c, with
-- `dncp_calculate_network_hash` and what it uses in src/dncp.c and src/dncp_timeout.c). A pointer to an
-- endpoint is a number, and so is a socket's address. The number of an endpoint in a TLV is written the
-- highest byte first, as it stands in the memory of a big-endian machine. Memory for a reply suffices.
pub mod Push
pub mod Receive
pub mod Message
pub mod Codec
pub mod Exchange
pub mod Collision
pub mod Stale
pub mod NetworkHash
pub mod Pushes
pub mod Keeps
pub mod Fresh
pub mod Enough
pub mod Tests
use Prim.Native.Nat.{Ordering}
use hnetd.Common.{
  ℕ, zero, suc, ◌+◌, ◌-◌, ◌*◌, ◌/◌, ◌%◌, ◌^◌, ◌≤◌, ◌<◌, min, max, ◌≡◌, refl, sym, ap, ◌∙◌, ◌≢◌, ◌↔◌,
  ◌⊎◌, inl, inr, Bool, true, false, not, ◌&&◌, ◌||◌, Option, none, some, List, [], ◌∷◌, ◌++◌, map,
  arith, dec_lt, ℕ_discrete, ltb, leb, ◌==◌, if◌then◌else◌, ltb→lt, lt→ltb, leb→le, not_lt→ltb,
  ==_refl, ne→==, le→leb, ==_iff, Bool-cases, Option-cases, List-cases, length, get_elem?, get_or,
  take, drop, replicate, length-append, length-take, length-drop, length-replicate,
  take-append_length, drop-append_length, set, length-set, get_or-set_self, get_or-set_ne,
}
use hnetd.Bitops.{Bytes, memcmp}
use hnetd.Tlv.{tlv_len, tlv_raw_len, tlv_pad_len, tlv_cmp}
use hnetd.Tlv.Sort.{in_buf, copied}
use hnetd.Tlv.Buf.{Buf, buf_init, buf_new}
use hnetd.Pa.State.{is_some}
use hnetd.Dncp.Graph.{Net, Node, Peer, tlv_peer, same_id, is_reachable, at}
use hnetd.Dncp.Publish.{Local}
use hnetd.Dncp.Trickle.{Trickle, Endpoint, trickle_set_i}

-- `struct dncp_reply_struct`: the buffer, if there is one yet, and the addresses to send from and to.
pub record Reply : Type 0 where
  pub buf : Option Buf
  pub from : Option ℕ
  pub to : ℕ

-- `struct dncp_ep_i_struct` and the fields of `struct dncp_ep_struct`; `conf` are those that Trickle reads.
pub record Ep : Type 0 where
  pub ep_id : ℕ
  pub enabled : Bool
  pub conf : Endpoint
  pub keepalive_interval : ℕ
  pub unicast_only : Bool
  pub maximum_unicast_size : ℕ
  pub accept_node_data_updates_via_multicast : Bool
  pub accept_insecure_nonlocal_traffic : Bool
  pub accept_secure_nonlocal_traffic : Bool
  pub last_req_network_state : ℕ
  pub send_reply_at : ℕ
  pub reply : Reply
  pub trickle : Trickle

-- `struct dncp_peer_struct`, the data that stand behind a local peer TLV
pub record PeerData : Type 0 where
  pub last_sa6 : ℕ
  pub last_contact : ℕ
  pub trickle : Trickle

-- What is sent, and what the subscribers hear of local TLVs, of the messages at an endpoint, and of endpoints.
pub data Event : Type 0 where
  sent : Option ℕ → Option ℕ → Bytes → Event
  local_tlv_changed : Bytes → Bool → Event
  msg_received : ℕ → Bytes → Event
  ep_changed : ℕ → Bool → Event

-- `struct dncp_struct`: the nodes and local TLVs, the hashes of the nodes' data and of the network, the
-- endpoints in their order, and the data of the local peer TLVs.
pub record State : Type 0 where
  pub local : Local
  pub collided : Bool
  pub hash_len : ℕ
  pub node_data_hash : ℕ → Bytes
  pub node_data_hash_dirty : ℕ → Bool
  pub network_hash : Bytes
  pub eps : List ℕ
  pub ep : ℕ → Ep
  pub peer : Bytes → PeerData
  pub events : List Event

-- The profile's hash function, and the random numbers for the timers of endpoints and peers.
pub record Ext : Type 0 where
  pub hash : Bytes → Bytes
  pub random_ep : ℕ → ℕ
  pub random_peer : Bytes → ℕ

abbrev pub net_of : State → Net
net_of s = s.local.net

abbrev pub node_of : State → ℕ → Node
node_of s k = s.local.net.graph.node k

abbrev pub ni_len_of : State → ℕ
ni_len_of s = s.local.net.graph.ni_len

unfoldable pub set_net : (Net → Net) → State → State
set_net f s = record s { local = record s.local { net = f s.local.net } }

unfoldable pub modify_ep : ℕ → (Ep → Ep) → State → State
modify_ep l f s = record s { ep = λ j. if j == l then f (s.ep j) else s.ep j }

-- Local TLVs are the same if their bytes are.
unfoldable pub same_tlv : Bytes → Bytes → Bool
same_tlv a b = elim (tlv_cmp a b) [ Ordering.eq ↦ true | Ordering.lt ↦ false | Ordering.gt ↦ false ]

unfoldable pub modify_peer : Bytes → (PeerData → PeerData) → State → State
modify_peer t f s = record s { peer = λ a. if same_tlv a t then f (s.peer a) else s.peer a }

-- A number in four bytes, in network order.
unfoldable pub to_be32 : ℕ → Bytes
to_be32 n = n / 2 ^ 24 % 2 ^ 8 ∷ n / 2 ^ 16 % 2 ^ 8 ∷ n / 2 ^ 8 % 2 ^ 8 ∷ n % 2 ^ 8 ∷ []

-- `dncp_find_ep_by_id`
unfoldable pub find_ep : State → ℕ → List ℕ → Option ℕ
find_ep s ep_id [] = none
find_ep s ep_id (l ∷ ls) =
    let rest = find_ep s ep_id ls in if (s.ep l).ep_id == ep_id then some l else rest

-- `trickle_set_i` to the minimum
unfoldable pub restarted : Endpoint → ℕ → ℕ → Trickle → Trickle
restarted l now rand t = trickle_set_i t l now rand l.trickle_imin

unfoldable pub reset_eps : Ext → List ℕ → State → State
reset_eps x [] s = s
reset_eps x (l ∷ ls) s = reset_eps x ls (
    modify_ep l
      (λ e. record e { trickle = restarted e.conf s.local.net.now (x.random_ep l) e.trickle }) s)

unfoldable pub reset_peer : Ext → Bytes → Peer → State → State
reset_peer x t ne s = elim (find_ep s ne.ep_id s.eps) [
  | none ↦ s
  | some l ↦
      modify_peer t
        (λ p. record p {
          trickle = restarted (s.ep l).conf s.local.net.now (x.random_peer t) p.trickle;
        })
        s
]

unfoldable pub reset_peers : Ext → List Bytes → State → State
unfolding reset_peer
reset_peers x [] s = s
reset_peers x (t ∷ ts) s =
    reset_peers x ts (elim (tlv_peer (ni_len_of s) t) [ none ↦ s | some ne ↦ reset_peer x t ne s ])

-- `dncp_trickle_reset`
unfoldable pub trickle_reset : Ext → State → State
trickle_reset x s = reset_peers x s.local.tlvs (reset_eps x s.eps s)

-- The payload of a TLV.
unfoldable pub tlv_data : Bytes → Bytes
tlv_data a = take (tlv_len a) (drop 4 a)

unfoldable pub container_data : Option Bytes → Bytes
container_data none = []
container_data (some a) = tlv_data a

-- `dncp_calculate_node_data_hash`
unfoldable pub calculate_node_data_hash : Ext → ℕ → State → State
calculate_node_data_hash x k s = if not (s.node_data_hash_dirty k) then s else record s {
  node_data_hash = λ j.
      if j == k then x.hash (container_data (node_of s k).tlv_container) else s.node_data_hash j;
  node_data_hash_dirty = λ j. if j == k then false else s.node_data_hash_dirty j;
}

-- The loop of `dncp_calculate_network_hash` over the reachable nodes: the hashes, and the buffer.
unfoldable pub hash_nodes : Ext → List ℕ → State → State × Bytes
hash_nodes x [] s = (s, [])
hash_nodes x (k ∷ ks) s =
    let s1 = if is_reachable s.local.net k then calculate_node_data_hash x k s else s in
    let (s2, rest) = hash_nodes x ks s1 in
    (
      s2,
      (if is_reachable s.local.net k
          then to_be32 (node_of s1 k).update_number
            ++ (take s.hash_len (s1.node_data_hash k) ++ rest)
          else rest),
    )

-- `dncp_calculate_network_hash`
unfoldable pub calculate_network_hash : Ext → State → State
calculate_network_hash x s0 =
    let (s1, buf) = hash_nodes x s0.local.net.graph.nodes s0 in
    let new = x.hash buf in
    let s2 = record s1 { network_hash = new } in
    let s3 = if same_id s0.hash_len s0.network_hash new then s2 else trickle_reset x s2 in
    if not s0.local.net.network_hash_dirty
    then s0
    else set_net (λ o. record o { network_hash_dirty = false }) s3
