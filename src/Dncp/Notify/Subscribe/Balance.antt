-- ===== src/Dncp/Notify/Subscribe/Balance.antt =====
-- Unsubscribing takes back what subscribing has done (src/dncp_notify.c).
use mathlib.Core.List.{Permᴰ}
use mathlib.Core.List.Permᴰ
use hnetd.Common.{
  ℕ, ◌≡◌, refl, ap, inl, inr, Bool, true, false, not, List, [], ◌∷◌, ◌++◌, map, ==_refl, Bool-cases,
}
use hnetd.Bitops.{Bytes}
use hnetd.Dncp.Notify.Subscribe.{
  Subscriber, Node, Registry, Call, calls_local_tlv, calls_node, calls_tlv, handle_add, list_del,
  handle_del, handle_enum_cb, local_calls, node_calls, tlv_calls, subscribe_nodes,
  unsubscribe_nodes, dncp_subscribe, dncp_unsubscribe,
}

-- The call that takes another back.
abbrev pub taken_back : Call → Call
taken_back (calls_local_tlv t add) = calls_local_tlv t (not add)
taken_back (calls_node n add) = calls_node n (not add)
taken_back (calls_tlv n t add) = calls_tlv n t (not add)

map-append :
    (xs ys : List Call) → map taken_back (xs ++ ys) ≡ map taken_back xs ++ map taken_back ys
map-append [] ys = refl
map-append (x ∷ xs) ys = ap (taken_back x ∷◌) (map-append xs ys)

map-map_local :
    (ts : List Bytes)
    → map taken_back (map (λ t. calls_local_tlv t true) ts) ≡ map (λ t. calls_local_tlv t false) ts
map-map_local [] = refl
map-map_local (t ∷ ts) = ap (calls_local_tlv t false ∷◌) (map-map_local ts)

map-map_tlv :
    (n : ℕ) (ts : List Bytes)
    → map taken_back (map (λ t. calls_tlv n t true) ts) ≡ map (λ t. calls_tlv n t false) ts
map-map_tlv n [] = refl
map-map_tlv n (t ∷ ts) = ap (calls_tlv n t false ∷◌) (map-map_tlv n ts)

local_back :
    (s : Subscriber) (ts : List Bytes)
    → map taken_back (local_calls s ts true) ≡ local_calls s ts false
unfolding local_calls
local_back s ts = elim (Bool-cases s.local_tlv_change) [
  | inl t ↦ rw t (map-map_local ts)
  | inr e ↦ rw e refl
]

tlv_back : (s : Subscriber) (n : Node) → map taken_back (tlv_calls s n true) ≡ tlv_calls s n false
unfolding tlv_calls
tlv_back s n = elim (Bool-cases s.tlv_change) [
  | inl t ↦ rw t (map-map_tlv n.node_id n.node_tlvs)
  | inr e ↦ rw e refl
]

node_back :
    (s : Subscriber) (n : Node) → map taken_back (node_calls s n true) ≡ node_calls s n false
unfolding node_calls
node_back s n = elim (Bool-cases s.node_change) [ inl t ↦ rw t refl | inr e ↦ rw e refl ]

nodes_back :
    (s : Subscriber) (ns : List Node)
    → Permᴰ (map taken_back (subscribe_nodes s ns)) (unsubscribe_nodes s ns)
unfolding subscribe_nodes unsubscribe_nodes
nodes_back s [] = Permᴰ.nil
nodes_back s (n ∷ ns) =
    rw
      (
        map-append (node_calls s n true ++ tlv_calls s n true) (subscribe_nodes s ns),
        map-append (node_calls s n true) (tlv_calls s n true),
        node_back s n,
        tlv_back s n,
      )
      (Permᴰ.trans (Permᴰ.append_left _ (nodes_back s ns))
        (Permᴰ.append_right _ (Permᴰ.append_comm (node_calls s n false) (tlv_calls s n false))))

handle_del-handle_add : (cb : Bool) (s : ℕ) (l : List ℕ) → handle_del cb s (handle_add cb s l) ≡ l
unfolding handle_del handle_add list_del
handle_del-handle_add true s l = rw (==_refl s) refl
handle_del-handle_add false s l = refl

registry_back :
    (s : Subscriber) (r : Registry)
    → handle_enum_cb handle_del s (handle_enum_cb handle_add s r) ≡ r
unfolding handle_enum_cb
registry_back s r =
    rw
      (
        handle_del-handle_add s.local_tlv_change s.id r.local_tlv_list,
        handle_del-handle_add s.republish s.id r.republish_list,
        handle_del-handle_add s.tlv_change s.id r.tlv_list,
        handle_del-handle_add s.node_change s.id r.node_list,
        handle_del-handle_add s.ep_change s.id r.ep_list,
        handle_del-handle_add s.msg_received s.id r.msg_list,
      )
      refl

-- If a subscriber unsubscribes right after it has subscribed, the lists of subscribers are as before, and
-- each call that told it of a TLV or a node is taken back by exactly one call.
pub dncp_unsubscribe-dncp_subscribe :
    (s : Subscriber) (local : List Bytes) (nodes : List Node) (r : Registry)
    → let (r', calls) = dncp_subscribe s local nodes r in
      let (r'', calls') = dncp_unsubscribe s local nodes r' in
      (r'' ≡ r) × Permᴰ (map taken_back calls) calls'
unfolding dncp_subscribe dncp_unsubscribe
dncp_unsubscribe-dncp_subscribe s local nodes r = (
  registry_back s r,
  rw (map-append (local_calls s local true) (subscribe_nodes s nodes), local_back s local)
      (Permᴰ.append_left _ (nodes_back s nodes)),
)
