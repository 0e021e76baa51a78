-- ===== src/Dncp/Notify/Subscribe/Tests.antt =====
-- A test of subscribing: one local TLV, and one node with two TLVs.
use mathlib.Core.List.{Permᴰ}
use hnetd.Common.{◌≡◌, true, false, List, [], ◌∷◌, map}
use hnetd.Bitops.{Bytes}
use hnetd.Dncp.Notify.Subscribe.{Subscriber, Node, Registry, dncp_subscribe, dncp_unsubscribe}
use hnetd.Dncp.Notify.Subscribe.Balance.{taken_back, dncp_unsubscribe-dncp_subscribe}

abbrev subscriber : Subscriber
subscriber = record {
  id = 4;
  local_tlv_change = true;
  republish = false;
  tlv_change = true;
  node_change = true;
  ep_change = false;
  msg_received = false;
}

abbrev local_tlvs : List Bytes
local_tlvs = (0 ∷ 32 ∷ 0 ∷ 0 ∷ []) ∷ []

abbrev nodes : List Node
nodes = record { node_id = 9; node_tlvs = (0 ∷ 33 ∷ 0 ∷ 0 ∷ []) ∷ (0 ∷ 34 ∷ 0 ∷ 0 ∷ []) ∷ [] } ∷ []

abbrev registry : Registry
registry = record {
  local_tlv_list = 1 ∷ [];
  republish_list = [];
  tlv_list = 1 ∷ 2 ∷ [];
  node_list = [];
  ep_list = 2 ∷ [];
  msg_list = [];
}

dncp_unsubscribe-dncp_subscribe_example :
    let (r', calls) = dncp_subscribe subscriber local_tlvs nodes registry in
    let (r'', calls') = dncp_unsubscribe subscriber local_tlvs nodes r' in
    (r'' ≡ registry) × Permᴰ (map taken_back calls) calls'
dncp_unsubscribe-dncp_subscribe_example =
    dncp_unsubscribe-dncp_subscribe subscriber local_tlvs nodes registry
