-- ===== src/Dncp/Notify/Subscribe.antt =====
-- Subscribing and unsubscribing (src/dncp_notify.c).
pub mod Balance
mod Tests
use hnetd.Common.{ℕ, Bool, true, false, List, [], ◌∷◌, ◌++◌, map, ◌==◌, if◌then◌else◌}
use hnetd.Bitops.{Bytes}

-- Which callbacks of `struct dncp_subscriber_struct` are set.
pub record Subscriber : Type 0 where
  pub id : ℕ
  pub local_tlv_change : Bool
  pub republish : Bool
  pub tlv_change : Bool
  pub node_change : Bool
  pub ep_change : Bool
  pub msg_received : Bool

-- A node that `dncp_for_each_node` visits, with its TLVs.
pub record Node : Type 0 where
  pub node_id : ℕ
  pub node_tlvs : List Bytes

-- The lists `subscribers` of `dncp`.
pub record Registry : Type 0 where
  pub local_tlv_list : List ℕ
  pub republish_list : List ℕ
  pub tlv_list : List ℕ
  pub node_list : List ℕ
  pub ep_list : List ℕ
  pub msg_list : List ℕ

-- A call of a callback, with its last argument.
pub data Call : Type 0 where
  calls_local_tlv : Bytes → Bool → Call
  calls_node : ℕ → Bool → Call
  calls_tlv : ℕ → Bytes → Bool → Call

-- HANDLE_ADD: `list_add` puts it in front.
pub handle_add : Bool → ℕ → List ℕ → List ℕ
handle_add cb s l = if cb then s ∷ l else l

-- HANDLE_DEL
pub list_del : ℕ → List ℕ → List ℕ
list_del s [] = []
list_del s (x ∷ l) = let rest = list_del s l in if x == s then l else x ∷ rest

pub handle_del : Bool → ℕ → List ℕ → List ℕ
handle_del cb s l = if cb then list_del s l else l

-- HANDLE_ENUM_CB
pub handle_enum_cb : (Bool → ℕ → List ℕ → List ℕ) → Subscriber → Registry → Registry
handle_enum_cb x s r = record {
  local_tlv_list = x s.local_tlv_change s.id r.local_tlv_list;
  republish_list = x s.republish s.id r.republish_list;
  tlv_list = x s.tlv_change s.id r.tlv_list;
  node_list = x s.node_change s.id r.node_list;
  ep_list = x s.ep_change s.id r.ep_list;
  msg_list = x s.msg_received s.id r.msg_list;
}

pub local_calls : Subscriber → List Bytes → Bool → List Call
local_calls s ts add = if s.local_tlv_change then map (λ t. calls_local_tlv t add) ts else []

pub node_calls : Subscriber → Node → Bool → List Call
node_calls s n add = if s.node_change then calls_node n.node_id add ∷ [] else []

pub tlv_calls : Subscriber → Node → Bool → List Call
tlv_calls s n add = if s.tlv_change then map (λ t. calls_tlv n.node_id t add) n.node_tlvs else []

-- The loop over the nodes in `dncp_subscribe`: the node, then its TLVs.
pub subscribe_nodes : Subscriber → List Node → List Call
subscribe_nodes s [] = []
subscribe_nodes s (n ∷ ns) = (node_calls s n true ++ tlv_calls s n true) ++ subscribe_nodes s ns

-- The loop in `dncp_unsubscribe`: the TLVs, then the node.
pub unsubscribe_nodes : Subscriber → List Node → List Call
unsubscribe_nodes s [] = []
unsubscribe_nodes s (n ∷ ns) =
    (tlv_calls s n false ++ node_calls s n false) ++ unsubscribe_nodes s ns

-- `dncp_subscribe`, for the local TLVs and the nodes there are
pub dncp_subscribe : Subscriber → List Bytes → List Node → Registry → Registry × List Call
dncp_subscribe s local nodes r =
    (handle_enum_cb handle_add s r, local_calls s local true ++ subscribe_nodes s nodes)

-- `dncp_unsubscribe`
pub dncp_unsubscribe : Subscriber → List Bytes → List Node → Registry → Registry × List Call
dncp_unsubscribe s local nodes r =
    (handle_enum_cb handle_del s r, local_calls s local false ++ unsubscribe_nodes s nodes)
