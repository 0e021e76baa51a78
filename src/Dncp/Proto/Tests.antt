-- ===== src/Dncp/Proto/Tests.antt =====
-- Tests of messages. Node 0, with the id 10, is the own one; node 1 has the id 11. Ids and hashes have one
-- byte; the hash of data is their length.
use hnetd.Common.{
  ℕ, ◌%◌, ◌^◌, ◌<◌, ◌≡◌, refl, sym, ap, ◌⊎◌, true, false, Option, none, some, [], ◌∷◌, arith, ◌==◌,
  if◌then◌else◌, length,
}
use hnetd.Bitops.{Bytes, memcmp}
use hnetd.Tlv.{tlv_id, tlv_len, tlv_raw_len, tlv_pad_len, tlv_attr_equal}
use hnetd.Tlv.Buf.{buf_init, attr, fill_pad}
use hnetd.Dncp.Graph.{
  tell, schedule, put_node, node_set, renumbered, replace_data, valid_container, Node, same_id,
  find_node, is_reachable,
}
use hnetd.Dncp.Trickle.{Trickle}
use hnetd.Dncp.Publish.{
  self_flush, produce_new_tlvs, flush_rest, republish, publish_tlvs, packed, packed_data,
  own_container,
}
use hnetd.Dncp.Publish.Number.{own_number}
use hnetd.Dncp.Proto.{
  State, Ep, Reply, node_of, tlv_data, container_data, to_be32, ni_len_of, calculate_network_hash,
}
use hnetd.Dncp.Proto.Enough.{push_tlv_enough}
use hnetd.Dncp.Proto.Push.{
  node_state, push_once, push_fuel, push_tlv, overflows, bytes_to_exp, doublings, ep_id_data,
}
use hnetd.Dncp.Proto.Receive.{
  World, Source, Handling, goes, returns, update_number_gt, dirty_hash, flush_own, answer,
  with_reply,
}
use hnetd.Dncp.Proto.Message.{
  NodeState, read_node_state, is_interesting, find_or_create, hear_state, handle_tlv,
}
use hnetd.Dncp.Proto.Codec.{IsSendable, state_of, length-node_state}
use hnetd.Dncp.Proto.Exchange.{HasState, known, exchange}
use hnetd.Dncp.Proto.Collision.{hear_state_collides}
use hnetd.Dncp.Proto.Stale.{own, flushed, answered, answer_stale}
use hnetd.Dncp.Proto.Fresh.{IsNews, handle_tlv_fresh}
use hnetd.Dncp.Proto.NetworkHash.{IsHashed, calculate_network_hash-view}

-- A node with its number and its data.
abbrev pub node : ℕ → ℕ → Option Bytes → Node
node ni update_number container = record {
  node_id = ni ∷ [];
  update_number = update_number;
  origination_time = 5000000000;
  expiration_time = 9000000000;
  tlv_container = container;
  is_valid = true;
}

abbrev pub trickle : Trickle
trickle = record {
  i = 200;
  send_time = 0;
  interval_end_time = 0;
  c = 0;
  last_sent = 0;
  num_sent = 0;
  num_skipped = 0;
}

abbrev pub reply : Reply
reply = record { buf = none; from = some 1; to = 2 }

abbrev pub endpoint : Ep
endpoint = record {
  ep_id = 1;
  enabled = true;
  conf = record {
    trickle_imin = 200;
    trickle_imax = 16000;
    trickle_k = 1;
    maximum_multicast_size = 1280;
    unicast_is_reliable_stream = false;
    published_keepalive_interval = 0;
    short_form = 20;
  };
  keepalive_interval = 24000;
  unicast_only = false;
  maximum_unicast_size = 1280;
  accept_node_data_updates_via_multicast = false;
  accept_insecure_nonlocal_traffic = false;
  accept_secure_nonlocal_traffic = false;
  last_req_network_state = 0;
  send_reply_at = 0;
  reply = reply;
  trickle = trickle;
}

-- The state with a given own node, node 1, and hashes of the nodes' data.
abbrev pub state : Node → Node → Bytes → State
state own other hash = record {
  local = record {
    net = record {
      graph = record {
        nodes = 0 ∷ 1 ∷ [];
        node = λ j. if j == 0 then own else other;
        ni_len = 1;
        types = record { index_of = []; num_indexes = 0 };
      };
      own_node = some 0;
      version = 4;
      node_version = λ _. 4;
      last_reachable_prune = λ _. 500;
      now = 5000001000;
      last_prune = 500;
      next_prune = 0;
      grace_interval = 60000;
      network_hash_dirty = true;
      graph_dirty = false;
      immediate_scheduled = false;
      told = [];
    };
    own = 0;
    tlvs = [];
    tlvs_dirty = false;
    republish_tlvs = false;
  };
  collided = false;
  hash_len = 1;
  node_data_hash = λ j. hash;
  node_data_hash_dirty = λ _. false;
  network_hash = 9 ∷ [];
  eps = 0 ∷ [];
  ep = λ _. endpoint;
  peer = λ _. record { last_sa6 = 0; last_contact = 0; trickle = trickle };
  events = [];
}

abbrev pub world : World
world = record {
  ext = record { hash = λ b. length b % 256 ∷ []; random_ep = λ _. 1; random_peer = λ _. 1 };
  validates = λ _ _. true;
  flush = record { callback = λ _. none; first_fits = true; second_fits = true };
  fresh = λ _. some 2;
  tlv_fits = true;
  handle_collision = λ s. (false, s);
  random = 3;
}

abbrev source : Source
source = record { l = 0; src = 2; dst = some 1 }

abbrev handling : State → Handling
handling s = record {
  state = s;
  reply = reply;
  seen_lid = false;
  ne = none;
  is_local = false;
  should_request_network_state = false;
  updated_or_requested_state = false;
}

-- The sender has data of four bytes for node 1 with the number 5, the receiver has the number 3.
abbrev sender : State
sender = state (node 10 1 none) (node 11 5 (some (0 ∷ 0 ∷ 0 ∷ 4 ∷ 0 ∷ 9 ∷ 0 ∷ 0 ∷ []))) (4 ∷ [])

abbrev receiver : State
receiver = state (node 10 1 none) (node 11 3 none) (0 ∷ [])

sender_sends : IsSendable 1 sender
sender_sends = record {
  id_whole = omega arith;
  hash_whole = omega arith;
  number_fits = omega arith;
  age_fits = omega arith;
}

short : length (node_state 1 true sender) < 2 ^ 16
unfolding node_state to_be32 container_data tlv_data tlv_len
short = omega arith

is_news :
    is_interesting receiver (known receiver (state_of 1 sender).node_id) (state_of 1 sender) ≡ true
unfolding is_interesting find_node same_id memcmp update_number_gt
is_news = refl

found :
    find_or_create world
      (state_of 1 sender).node_id
      (known receiver (state_of 1 sender).node_id)
      receiver
    ≡ some (1, receiver)
unfolding find_or_create find_node same_id memcmp
found = refl

exchange_example :
    (h' : Handling) × (handle_tlv world source
        (attr 5 (node_state 1 true sender))
        (handling receiver)
      ≡ goes h')
    × HasState 1 (state_of 1 sender) h'.state
unfolding container_data tlv_data tlv_len
exchange_example =
    exchange world source (handling receiver) sender 1 1 receiver 1 sender_sends short refl refl
      refl refl (omega arith) is_news found (λ e. cc e)

-- The same message changes node 1 only as a node state may.
handle_tlv_fresh_example :
    (node_of exchange_example.0.state 1 ≡ node_of receiver 1)
    ⊎ ((tlv_id (attr 5 (node_state 1 true sender)) ≡ 5)
        × IsNews world source receiver
            (read_node_state 1 1 (tlv_data (attr 5 (node_state 1 true sender))))
            1)
handle_tlv_fresh_example =
    handle_tlv_fresh world source (attr 5 (node_state 1 true sender)) (handling receiver)
      exchange_example.0 1 (λ e. cc e) exchange_example.1

-- Another node has published with the own id and the number 7, when the own number is 1.
abbrev collision : NodeState
collision = record {
  node_id = 10 ∷ [];
  update_number = 7;
  ms_since_origination = 0;
  node_data_hash = 4 ∷ [];
  node_data = 0 ∷ 9 ∷ 0 ∷ 0 ∷ [];
}

own_is_named : known receiver collision.node_id ≡ some 0
unfolding find_node same_id memcmp
own_is_named = refl

collision_is_news : is_interesting receiver (some 0) collision ≡ true
unfolding is_interesting update_number_gt
collision_is_news = refl

collision_checked : same_id 1 (world.ext.hash collision.node_data) collision.node_data_hash ≡ true
unfolding same_id memcmp
collision_checked = refl

hear_state_collides_example :
    (s' : State) × (hear_state world source collision (handling receiver) ≡ returns s')
    × (update_number_gt 7 (own_number (flush_own world s').local) ≡ true)
hear_state_collides_example =
    hear_state_collides world source collision (handling receiver) 1 refl own_is_named
      collision_is_news (omega arith) collision_checked refl (omega arith)

-- The hash of the network of nodes 0 and 1, whose data are empty, is that of two numbers and two hashes.
abbrev empty : State
empty = record receiver { node_data_hash = λ _. 0 ∷ [] }

calculate_network_hash-view_example :
    IsHashed world.ext empty (calculate_network_hash world.ext empty)
unfolding container_data
calculate_network_hash-view_example =
    calculate_network_hash-view world.ext empty (λ k e. ground arith) refl

-- The own node has published nothing, and has a local TLV of four bytes.
abbrev dirty : State
dirty =
    let s = state (node 10 1 none) (node 11 3 none) (0 ∷ []) in
    record s { local = record s.local { tlvs = (0 ∷ 9 ∷ 0 ∷ 0 ∷ []) ∷ []; tlvs_dirty = true } }

-- The receiver has this node's state as it was before.
abbrev neighbour : State
neighbour = state (node 12 1 none) (node 10 1 none) (0 ∷ [])

abbrev fields : Bytes
fields = 0 ∷ 9 ∷ 0 ∷ 0 ∷ []

dirty_sends : IsSendable 0 (flushed world (handling dirty))
unfolding flush_own dirty_hash self_flush produce_new_tlvs flush_rest republish publish_tlvs packed
    packed_data node_set renumbered replace_data put_node schedule tell is_reachable fill_pad
    tlv_raw_len tlv_len tlv_pad_len tlv_attr_equal memcmp valid_container own_container
dirty_sends = record {
  id_whole = omega arith;
  hash_whole = omega arith;
  number_fits = omega arith;
  age_fits = omega arith;
}

-- The number is 2, the data are the local TLV, and the hash is still that of no data.
stale_state : answered world (handling dirty) ≡ record {
  node_id = 10 ∷ [];
  update_number = 2;
  ms_since_origination = 0;
  node_data_hash = 0 ∷ [];
  node_data = fields;
}
unfolding flush_own dirty_hash self_flush produce_new_tlvs flush_rest republish publish_tlvs packed
    packed_data node_set renumbered replace_data put_node schedule tell is_reachable fill_pad
    tlv_raw_len tlv_len tlv_pad_len tlv_attr_equal memcmp valid_container own_container
    container_data tlv_data
stale_state = refl

stale_sizes :
    (ni_len_of (flushed world (handling dirty)) ≡ 1)
    × ((flushed world (handling dirty)).hash_len ≡ 1)
unfolding flush_own dirty_hash self_flush produce_new_tlvs flush_rest republish publish_tlvs
    node_set renumbered replace_data put_node schedule tell tlv_attr_equal own_container
    is_reachable
stale_sizes = (refl, refl)

stale_short : length (node_state 0 true (flushed world (handling dirty))) < 2 ^ 16
stale_short = omega (
  arith,
  length-node_state 0 (flushed world (handling dirty)) dirty_sends,
  stale_sizes.0,
  stale_sizes.1,
  ap (λ (ns : NodeState). length ns.node_data) stale_state,
)

stale_news :
    is_interesting neighbour
      (known neighbour (answered world (handling dirty)).node_id)
      (answered world (handling dirty))
    ≡ true
unfolding is_interesting find_node same_id memcmp update_number_gt
stale_news = ap (λ ns. is_interesting neighbour (known neighbour ns.node_id) ns) stale_state

stale_broken :
    same_id 1
      (world.ext.hash (answered world (handling dirty)).node_data)
      (answered world (handling dirty)).node_data_hash
    ≡ false
unfolding same_id memcmp
stale_broken =
    ap (λ (ns : NodeState). same_id 1 (world.ext.hash ns.node_data) ns.node_data_hash) stale_state

answer_stale_example :
    let payload = node_state 0 true (flushed world (handling dirty)) in
    (answer world source 0 (handling dirty)
      ≡ with_reply (handling dirty) (push_once 0 5 payload (flushed world (handling dirty), reply)))
    × (handle_tlv world source (attr 5 payload) (handling neighbour) ≡ goes (handling neighbour))
answer_stale_example =
    answer_stale world source (handling dirty) world source (handling neighbour) 1 dirty_sends
      stale_short (sym stale_sizes.0) (sym stale_sizes.1) refl
      (omega (arith, ap (λ (ns : NodeState). length ns.node_data) stale_state)) stale_news
      stale_broken

push_tlv_enough_example :
    push_fuel 7 0 2 (11 ∷ []) (receiver, reply) ≡ push_tlv 0 2 (11 ∷ []) (receiver, reply)
unfolding overflows bytes_to_exp doublings ep_id_data to_be32 buf_init
push_tlv_enough_example = push_tlv_enough 5 0 2 (11 ∷ []) (receiver, reply) refl
