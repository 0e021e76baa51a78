-- ===== src/Dncp/Graph/Tests.antt =====
-- Tests of the pruning: node 0 is the own node, 0 and 1 name each other as peers over their endpoints 1 and 2,
-- and node 2 names nobody and has expired.
use mathlib.Core.List.{Memᴰ}
use hnetd.Common.{ℕ, zero, suc, ◌<◌, refl, true, false, Option, none, some, [], ◌∷◌, arith}
use hnetd.Bitops.{Bytes}
use hnetd.Dncp.Graph.{Node, Net, node_changed, is_live, prune, prune_rec}
use hnetd.Dncp.Graph.Walk.{Walk, walk_end}
use hnetd.Dncp.Graph.Prune.{Pruned, Filled, prune_rec-Filled, prune-Pruned, IsNew}
use hnetd.Dncp.Graph.Silent.{prune_silent}

-- A container with a peer TLV for node ids of one byte, and padding.
abbrev peer_tlv : ℕ → ℕ → ℕ → Bytes
peer_tlv id peer_ep ep =
    0 ∷ 1 ∷ 0 ∷ 16 ∷ 0 ∷ 8 ∷ 0 ∷ 9 ∷ id ∷ 0 ∷ 0 ∷ 0 ∷ peer_ep ∷ 0 ∷ 0 ∷ 0 ∷ ep ∷ 0 ∷ 0 ∷ 0 ∷ []

abbrev node_of : ℕ → ℕ → Option Bytes → Node
node_of id expiry tlvs = record {
  node_id = id ∷ [];
  update_number = 1;
  origination_time = 1;
  expiration_time = expiry;
  tlv_container = tlvs;
  is_valid = true;
}

abbrev node : ℕ → Node
node zero = node_of 10 1000000 (some (peer_tlv 11 2 1))
node (suc zero) = node_of 11 1000000 (some (peer_tlv 10 1 2))
node (suc (suc k)) = node_of 12 90000 none

abbrev net : Net
net = record {
  graph = record {
    nodes = 0 ∷ 1 ∷ 2 ∷ [];
    node = node;
    ni_len = 1;
    types = record { index_of = []; num_indexes = 0 };
  };
  own_node = some 0;
  version = 4;
  node_version = λ _. 4;
  last_reachable_prune = λ _. 500;
  now = 100000;
  last_prune = 500;
  next_prune = 0;
  grace_interval = 60000;
  network_hash_dirty = false;
  graph_dirty = true;
  immediate_scheduled = false;
  told = [];
}

net-IsNew : IsNew 5 net
net-IsNew j e = cc e

own_listed : Memᴰ 0 net.graph.nodes
own_listed = Memᴰ.head refl

past : (j : ℕ) → net.last_reachable_prune j < net.now
past j = omega arith

prune-Pruned_example : Pruned 0 net (prune (λ _ _. true) 5 net)
prune-Pruned_example = prune-Pruned (λ _ _. true) 5 0 net refl own_listed net-IsNew past

prune_rec-Filled_example :
    Filled 0 (record net { version = 5 }) (prune_rec 3 0 (record net { version = 5 }))
prune_rec-Filled_example = prune_rec-Filled 5 0 net net-IsNew own_listed

expired : ¬ Walk net.graph net.now 0 2
unfolding is_live
expired w = cc (walk_end w)

-- Node 2 counted as reachable, as the own node does.
prune_silent_example :
    (¬ Memᴰ 2 (prune (λ _ _. true) 5 net).graph.nodes)
    × (Memᴰ (node_changed 2 false) (prune (λ _ _. true) 5 net).told
        → Memᴰ (node_changed 2 false) net.told)
prune_silent_example =
    prune_silent (λ _ _. true) 5 0 net 2 refl own_listed net-IsNew past expired refl
