-- ===== src/Dncp/Graph.antt =====
-- The graph of the DNCP nodes and its pruning (`_node_set_reachable`, `_prune_rec` and `dncp_prune` in
-- src/dncp_timeout.c, `dncp_node_set` and `update_node` in src/dncp.c, and `dncp_node_find_neigh_bidir` and
-- what it uses in src/dncp_i.h). A pointer to a node is a number. `nodes` are the nodes of the vlist, in its
-- order. Times are in ms; a node that has not yet been reached has any time that is not `last_prune`.
pub mod Walk
pub mod Count
pub mod Marks
pub mod Flood
pub mod Age
pub mod Flush
pub mod Replace
pub mod Prune
pub mod Silent
mod Tests
use hnetd.Common.{
  ℕ, zero, suc, ◌+◌, ◌-◌, ◌*◌, ◌/◌, ◌%◌, ◌^◌, ◌≤◌, ◌<◌, min, max, ◌≡◌, refl, sym, ap, ◌∙◌, ◌≢◌, ◌↔◌,
  ◌⊎◌, inl, inr, Bool, true, false, not, ◌&&◌, ◌||◌, Option, none, some, List, [], ◌∷◌, ◌++◌, map,
  arith, dec_lt, ℕ_discrete, ltb, leb, ◌==◌, if◌then◌else◌, ltb→lt, lt→ltb, leb→le, not_lt→ltb,
  ==_refl, ne→==, le→leb, ==_iff, Bool-cases, Option-cases, List-cases, length, get_elem?, get_or,
  take, drop, replicate, length-append, length-take, length-drop, length-replicate,
  take-append_length, drop-append_length, set, length-set, get_or-set_self, get_or-set_ne,
}
use Prim.Native.Nat.{Ordering}
use hnetd.Bitops.{Bytes, byte_at, memcmp}
use hnetd.Tlv.{tlv_id, tlv_len, tlv_attr_equal}
use hnetd.Tlv.Sort.{attrs}
use hnetd.Dncp.Index.{Types, add_tlv_index, tlvs_with_type}
use hnetd.Pa.State.{is_some}
use hnetd.Dncp.Trickle.{tmin}

-- `dncp_t_peer`, with the node id before it
pub record Peer : Type 0 where
  pub node_id : Bytes
  pub peer_ep_id : ℕ
  pub ep_id : ℕ

-- What pruning only reads of a node (`struct dncp_node_struct`). `is_valid` says whether
-- `tlv_container_valid` is `tlv_container`; if not, it is a null pointer.
pub record Node : Type 0 where
  pub node_id : Bytes
  pub update_number : ℕ
  pub origination_time : ℕ
  pub expiration_time : ℕ
  pub tlv_container : Option Bytes
  pub is_valid : Bool

-- The nodes, the length of a node id, and the index of TLV types.
pub record Graph : Type 0 where
  pub nodes : List ℕ
  pub node : ℕ → Node
  pub ni_len : ℕ
  pub types : Types

-- What the subscribers and the timer are told.
pub data Told : Type 0 where
  tlvs_changed : ℕ → Option Bytes → Option Bytes → Told
  node_changed : ℕ → Bool → Told
  schedules_timeout : Told

-- `struct dncp_struct`, as far as pruning uses it. `version` is that of the vlist, `node_version` that of each
-- node in it.
pub record Net : Type 0 where
  pub graph : Graph
  pub own_node : Option ℕ
  pub version : ℕ
  pub node_version : ℕ → ℕ
  pub last_reachable_prune : ℕ → ℕ
  pub now : ℕ
  pub last_prune : ℕ
  pub next_prune : ℕ
  pub grace_interval : ℕ
  pub network_hash_dirty : Bool
  pub graph_dirty : Bool
  pub immediate_scheduled : Bool
  pub told : List Told

-- A number of four bytes, in network order.
unfoldable pub be32 : Bytes → ℕ → ℕ
be32 a k =
    byte_at a k * 2 ^ 24
    + byte_at a (k + 1) * 2 ^ 16
    + byte_at a (k + 2) * 2 ^ 8
    + byte_at a (k + 3)

-- `dncp_tlv_peer2`
unfoldable pub tlv_peer : ℕ → Bytes → Option Peer
tlv_peer nidlen a =
    if not (tlv_id a == 8) || not (tlv_len a == nidlen + 8)
    then none
    else some (record {
      node_id = take nidlen (drop 4 a);
      peer_ep_id = be32 a (4 + nidlen);
      ep_id = be32 a (4 + nidlen + 4);
    })

pub tlv_peers : ℕ → List Bytes → List Peer
tlv_peers nidlen [] = []
tlv_peers nidlen (a ∷ rest) = elim (tlv_peer nidlen a) [
  | none ↦ tlv_peers nidlen rest
  | some p ↦ p ∷ tlv_peers nidlen rest
]

-- The TLVs in a container, which has a header itself (`tlv_for_each_attr`).
pub each_attr : Option Bytes → List Bytes
each_attr none = []
each_attr (some a) = let inner = take (tlv_len a) (drop 4 a) in attrs (length inner) inner

-- The peer TLVs of a node: the loop over DNCP_T_PEER, with the index that it adds.
pub peers : Graph → ℕ → List Peer
peers g k =
    elim (tlvs_with_type (add_tlv_index 8 g.types) (each_attr (g.node k).tlv_container) 8
      (g.node k).is_valid false) [ none ↦ [] | some tlvs ↦ tlv_peers g.ni_len tlvs ]

unfoldable pub same_id : ℕ → Bytes → Bytes → Bool
same_id n a b = elim (memcmp a b 0 n) [
  | Ordering.eq ↦ true
  | Ordering.lt ↦ false
  | Ordering.gt ↦ false
]

-- `dncp_find_node_by_node_id`, without `create`
unfoldable pub find_node : Graph → Bytes → List ℕ → Option ℕ
find_node g ni [] = none
find_node g ni (k ∷ ks) =
    let rest = find_node g ni ks in if same_id g.ni_len (g.node k).node_id ni then some k else rest

-- Whether a peer TLV of the other node answers `ne` of node `k`.
pub answers : Graph → ℕ → Peer → List Peer → Bool
answers g k ne [] = false
answers g k ne (ne2 ∷ rest) =
    (ne.ep_id == ne2.peer_ep_id
      && ne.peer_ep_id == ne2.ep_id
      && same_id g.ni_len ne2.node_id (g.node k).node_id)
    || answers g k ne rest

-- `dncp_node_find_neigh_bidir`
pub find_neigh_bidir : Graph → ℕ → Peer → Option ℕ
find_neigh_bidir g k ne = elim (find_node g ne.node_id g.nodes) [
  | none ↦ none
  | some n2 ↦ if answers g k ne (peers g n2) then some n2 else none
]

unfoldable pub tell : Told → Net → Net
tell e o = record o { told = e ∷ o.told }

unfoldable pub xor : Bool → Bool → Bool
xor true b = not b
xor false b = b

-- `tlv_container_valid`
unfoldable pub valid_container : Node → Option Bytes
valid_container n = if n.is_valid then n.tlv_container else none

unfoldable pub at : ℕ → ℕ → (ℕ → ℕ) → ℕ → ℕ
at k v f j = if j == k then v else f j

unfoldable pub is_reachable : Net → ℕ → Bool
is_reachable o k = o.last_prune == o.last_reachable_prune k

-- What `_node_set_reachable` tells of a change.
pub tell_reachable : ℕ → Bool → Net → Net
tell_reachable k true o =
    tell (tlvs_changed k none (valid_container (o.graph.node k))) (tell (node_changed k true) o)
tell_reachable k false o =
    tell (node_changed k false) (tell (tlvs_changed k (valid_container (o.graph.node k)) none) o)

-- `_node_set_reachable`
pub node_set_reachable : ℕ → Bool → Net → Net
node_set_reachable k value o0 =
    let o =
      if xor (is_reachable o0 k) value
      then tell_reachable k value (record o0 { network_hash_dirty = true })
      else o0 in
    if value then record o { last_reachable_prune = at k o.now o.last_reachable_prune } else o

-- `vlist_add` of a node that is there: the node gets the version of the list.
pub touch_node : ℕ → Net → Net
touch_node k o = record o { node_version = at k o.version o.node_version }

pub is_marked : Net → ℕ → Bool
is_marked o k = o.node_version k == o.version

-- Not expired
pub is_live : Graph → ℕ → ℕ → Bool
is_live g now k = ltb now (g.node k).expiration_time

-- The loop of `_prune_rec` over the neighbours, where `next` is `_prune_rec`.
pub prune_peers : (ℕ → Net → Net) → ℕ → List Peer → Net → Net
prune_peers next k [] o = o
prune_peers next k (ne ∷ rest) o =
    prune_peers next k rest
      (elim (find_neigh_bidir o.graph k ne) [ none ↦ o | some n2 ↦ next n2 o ])

-- `_prune_rec` of a node. As each call marks a node before it calls itself, the number of nodes is fuel enough.
pub prune_rec : ℕ → ℕ → Net → Net
prune_rec zero k o = o
prune_rec (suc fuel) k o =
    if is_marked o k || not (is_live o.graph o.now k)
    then o
    else prune_peers (prune_rec fuel) k (peers o.graph k)
        (node_set_reachable k true (touch_node k o))

-- `dncp_schedule`
unfoldable pub schedule : Net → Net
schedule o =
    if o.immediate_scheduled
    then o
    else tell schedules_timeout (record o { immediate_scheduled = true })

unfoldable pub put_node : ℕ → Node → Net → Net
put_node k n o = record o {
  graph = record o.graph { node = λ j. if j == k then n else o.graph.node j };
}

-- The new numbers of `dncp_node_set`.
unfoldable pub renumbered : ℕ → ℕ → Node → Node
renumbered update_number t n =
    let numbered = record n { update_number = update_number } in
    if t == 0
    then numbered
    else record numbered { origination_time = t; expiration_time = t + (2 ^ 32 - 2 ^ 15) }

-- The part of `dncp_node_set` for other data `a`, where `n` is the node with its new numbers, and `valid`
-- whether the data are valid.
unfoldable pub replace_data : ℕ → Node → Option Bytes → Bool → Net → Net
replace_data k n a valid o =
    let old = valid_container (o.graph.node k) in
    let told =
      if is_reachable o k then tell (tlvs_changed k old (if valid then a else none)) o else o in
    record (put_node k (record n { tlv_container = a; is_valid = valid }) told) {
      graph_dirty = true;
    }

-- `dncp_node_set`. `validates` is whether `validate_node_data` returns its argument.
unfoldable pub node_set : (ℕ → Bytes → Bool) → ℕ → ℕ → ℕ → Option Bytes → Net → Net
node_set validates k update_number t a o =
    let n = o.graph.node k in
    let same = tlv_attr_equal a n.tlv_container in
    let valid : Bool = elim a [ none ↦ true | some b ↦ validates k b ] in
    let numbered = renumbered update_number t n in
    if update_number == n.update_number && (not (is_some a) || same)
    then o
    else schedule
        (record (if same then put_node k numbered o else replace_data k numbered a valid o) {
          network_hash_dirty = true;
        })

-- `update_node` of a node that leaves the list
pub forget_node : (ℕ → Bytes → Bool) → ℕ → Net → Net
forget_node validates k o =
    schedule
      (record (node_set validates k 0 0 none o) { network_hash_dirty = true; graph_dirty = true })

-- The loop of `dncp_prune` over all nodes, with `next_time`.
pub age_nodes : List ℕ → ℕ → Net → ℕ × Net
age_nodes [] next_time o = (next_time, o)
age_nodes (k ∷ ks) next_time o =
    let last = o.last_reachable_prune k in
    if is_marked o k
    then age_nodes ks (tmin next_time (o.graph.node k).expiration_time) o
    else if ltb (last + o.grace_interval) o.now
    then age_nodes ks next_time o
    else age_nodes ks (tmin next_time (last + o.grace_interval + 1))
        (node_set_reachable k false (touch_node k o))

-- `vlist_flush`: the nodes of another version leave the list.
pub flush_nodes : (ℕ → Bytes → Bool) → List ℕ → Net → Net
flush_nodes validates [] o = o
flush_nodes validates (k ∷ ks) o =
    flush_nodes validates ks (if is_marked o k then o else forget_node validates k o)

pub marked_nodes : Net → List ℕ → List ℕ
marked_nodes o [] = []
marked_nodes o (k ∷ ks) = if is_marked o k then k ∷ marked_nodes o ks else marked_nodes o ks

-- The start of `dncp_prune`: `vlist_update` gives the list the version `version`, and the graph is filled from
-- the own node.
pub flood : ℕ → Net → Net
flood version o0 =
    let o = record o0 { version = version } in
    elim o.own_node [ none ↦ o | some k ↦ prune_rec (length o.graph.nodes) k o ]

-- `dncp_prune`
pub prune : (ℕ → Bytes → Bool) → ℕ → Net → Net
prune validates version o0 =
    let o1 = flood version o0 in
    let (next_time, o2) = age_nodes o1.graph.nodes 0 o1 in
    let o3 = flush_nodes validates o2.graph.nodes (record o2 { next_prune = next_time }) in
    record o3 {
      last_prune = o0.now;
      graph = record o3.graph { nodes = marked_nodes o2 o2.graph.nodes };
    }
