-- ===== src/Dncp/Timeout/Watched.antt =====
-- What the watch over the peers reads of the state (src/dncp_timeout.c), and that sending messages and
-- calculating the network hash leave it alone.
use hnetd.Common.{
  ℕ, ◌≡◌, refl, ◌∙◌, Bool, false, not, Option, none, List, [], ◌∷◌, ◌==◌, if◌then◌else◌,
}
use hnetd.Bitops.{Bytes}
use hnetd.Dncp.Graph.{Peer, is_reachable, same_id, tlv_peer}
use hnetd.Dncp.Graph.Flush.{if_both}
use hnetd.Dncp.Trickle.{Trickle, Sent}
use hnetd.Dncp.Proto.{
  State, Ep, PeerData, Ext, Event, ni_len_of, set_net, modify_ep, modify_peer, same_tlv, find_ep,
  calculate_node_data_hash, hash_nodes, calculate_network_hash, reset_eps, reset_peer, reset_peers,
  trickle_reset,
}
use hnetd.Dncp.Proto.Push.{log}
use hnetd.Dncp.Proto.Pushes.{opt_both, Stable, send_network_state-Stable}
use hnetd.Dncp.Proto.Receive.{World}
use hnetd.Dncp.Timeout.{send_all}

-- What the watch over the peers reads
pub record Read (s s' : State) : Type 0 where
  pub eps : s'.eps ≡ s.eps
  pub ep_id : (l : ℕ) → (s'.ep l).ep_id ≡ (s.ep l).ep_id
  pub stream :
      (l : ℕ) → (s'.ep l).conf.unicast_is_reliable_stream ≡ (s.ep l).conf.unicast_is_reliable_stream
  pub contact : (t : Bytes) → (s'.peer t).last_contact ≡ (s.peer t).last_contact
  pub graph : s'.local.net.graph ≡ s.local.net.graph
  pub now : s'.local.net.now ≡ s.local.net.now

-- The same, and the local TLVs
pub record Kept (s s' : State) : Type 0 where
  pub read : Read s s'
  pub tlvs : s'.local.tlvs ≡ s.local.tlvs

pub Read-refl : (s : State) → Read s s
Read-refl s = record {
  eps = refl;
  ep_id = λ l. refl;
  stream = λ l. refl;
  contact = λ t. refl;
  graph = refl;
  now = refl;
}

pub Read-trans : {s t u : State} → Read s t → Read t u → Read s u
Read-trans e f = record {
  eps = f.eps ∙ e.eps;
  ep_id = λ l. f.ep_id l ∙ e.ep_id l;
  stream = λ l. f.stream l ∙ e.stream l;
  contact = λ t. f.contact t ∙ e.contact t;
  graph = f.graph ∙ e.graph;
  now = f.now ∙ e.now;
}

pub Kept-refl : (s : State) → Kept s s
Kept-refl s = record { read = Read-refl s; tlvs = refl }

pub Kept-trans : {s t u : State} → Kept s t → Kept t u → Kept s u
Kept-trans e f = record { read = Read-trans e.read f.read; tlvs = f.tlvs ∙ e.tlvs }

-- Changes of Trickle's state
set_ep_trickle :
    (l : ℕ) (f : Ep → Trickle) (s : State)
    → Kept s (modify_ep l (λ e. record e { trickle = f e }) s)
unfolding modify_ep
set_ep_trickle l f s = record {
  read = record {
    eps = refl;
    contact = λ t. refl;
    graph = refl;
    now = refl;
    ep_id = λ j. if_both (λ (e : Ep). e.ep_id ≡ (s.ep j).ep_id) (j == l) _ (s.ep j) refl refl;
    stream = λ j.
        if_both
          (λ (e : Ep). e.conf.unicast_is_reliable_stream ≡ (s.ep j).conf.unicast_is_reliable_stream)
          (j == l) _ (s.ep j) refl refl;
  };
  tlvs = refl;
}

pub set_peer_trickle :
    (t : Bytes) (f : PeerData → Trickle) (s : State)
    → Kept s (modify_peer t (λ p. record p { trickle = f p }) s)
unfolding modify_peer
set_peer_trickle t f s = record {
  read = record {
    eps = refl;
    ep_id = λ l. refl;
    stream = λ l. refl;
    graph = refl;
    now = refl;
    contact = λ a.
        if_both (λ (p : PeerData). p.last_contact ≡ (s.peer a).last_contact) (same_tlv a t) _
          (s.peer a) refl refl;
  };
  tlvs = refl;
}

reset_eps-Kept : (x : Ext) (ls : List ℕ) (s : State) → Kept s (reset_eps x ls s)
unfolding reset_eps
reset_eps-Kept x [] s = Kept-refl s
reset_eps-Kept x (l ∷ ls) s = Kept-trans (set_ep_trickle l _ s) (reset_eps-Kept x ls _)

reset_peer-Kept : (x : Ext) (t : Bytes) (ne : Peer) (s : State) → Kept s (reset_peer x t ne s)
unfolding reset_peer
reset_peer-Kept x t ne s =
    opt_both (Kept s) (find_ep s ne.ep_id s.eps) s _ (Kept-refl s) (λ l. set_peer_trickle t _ s)

reset_peers-Kept : (x : Ext) (ts : List Bytes) (s : State) → Kept s (reset_peers x ts s)
unfolding reset_peers
reset_peers-Kept x [] s = Kept-refl s
reset_peers-Kept x (t ∷ ts) s =
    Kept-trans
      (opt_both (Kept s) (tlv_peer (ni_len_of s) t) s (λ ne. reset_peer x t ne s) (Kept-refl s)
        (λ ne. reset_peer-Kept x t ne s))
      (reset_peers-Kept x ts _)

trickle_reset-Kept : (x : Ext) (s : State) → Kept s (trickle_reset x s)
unfolding trickle_reset
trickle_reset-Kept x s =
    Kept-trans (reset_eps-Kept x s.eps s) (reset_peers-Kept x s.local.tlvs (reset_eps x s.eps s))

-- Hashes
set_hashes :
    (hashes : ℕ → Bytes) (dirty : ℕ → Bool) (s : State)
    → Kept s (record s { node_data_hash = hashes; node_data_hash_dirty = dirty })
set_hashes hashes dirty s = record {
  read = record {
    eps = refl;
    ep_id = λ l. refl;
    stream = λ l. refl;
    contact = λ t. refl;
    graph = refl;
    now = refl;
  };
  tlvs = refl;
}

calculate-Kept : (x : Ext) (k : ℕ) (s : State) → Kept s (calculate_node_data_hash x k s)
unfolding calculate_node_data_hash
calculate-Kept x k s =
    if_both (Kept s) (not (s.node_data_hash_dirty k)) s _ (Kept-refl s) (set_hashes _ _ s)

hash_nodes-Kept : (x : Ext) (ks : List ℕ) (s : State) → Kept s (hash_nodes x ks s).0
unfolding hash_nodes
hash_nodes-Kept x [] s = Kept-refl s
hash_nodes-Kept x (k ∷ ks) s =
    Kept-trans
      (if_both (Kept s) (is_reachable s.local.net k) (calculate_node_data_hash x k s) s
        (calculate-Kept x k s) (Kept-refl s))
      (hash_nodes-Kept x ks _)

-- Changes of what the watch does not read
set_network_hash : (hash : Bytes) (s : State) → Kept s (record s { network_hash = hash })
set_network_hash hash s = record {
  read = record {
    eps = refl;
    ep_id = λ l. refl;
    stream = λ l. refl;
    contact = λ t. refl;
    graph = refl;
    now = refl;
  };
  tlvs = refl;
}

hash_clean : (s : State) → Kept s (set_net (λ o. record o { network_hash_dirty = false }) s)
unfolding set_net
hash_clean s = record {
  read = record {
    eps = refl;
    ep_id = λ l. refl;
    stream = λ l. refl;
    contact = λ t. refl;
    graph = refl;
    now = refl;
  };
  tlvs = refl;
}

log-Kept : (e : Event) (s : State) → Kept s (log e s)
unfolding log
log-Kept e s = record {
  read = record {
    eps = refl;
    ep_id = λ l. refl;
    stream = λ l. refl;
    contact = λ t. refl;
    graph = refl;
    now = refl;
  };
  tlvs = refl;
}

calculate_network_hash-Kept : (x : Ext) (s : State) → Kept s (calculate_network_hash x s)
unfolding calculate_network_hash
calculate_network_hash-Kept x s =
    let (s1, buf) = hash_nodes x s.local.net.graph.nodes s in
    let s2 = record s1 { network_hash = x.hash buf } in
    let new = same_id s.hash_len s.network_hash (x.hash buf) in
    let e =
      Kept-trans (hash_nodes-Kept x s.local.net.graph.nodes s) (set_network_hash (x.hash buf) s1) in
    let r =
      if_both (Kept s) new s2 (trickle_reset x s2) e (Kept-trans e (trickle_reset-Kept x s2)) in
    if_both (Kept s) (not s.local.net.network_hash_dirty) s _ (Kept-refl s)
      (Kept-trans r (hash_clean (if new then s2 else trickle_reset x s2)))

pub watches : Stable Kept
watches = record {
  start = Kept-refl;
  step = Kept-trans;
  logged = log-Kept;
  hashed = calculate_network_hash-Kept;
}

-- Sending
pub send_all-Kept :
    (w : World) (l : ℕ) (dst : Option ℕ) (ms : List Sent) (s : State)
    → Kept s (send_all w l dst ms s)
unfolding send_all
send_all-Kept w l dst [] s = Kept-refl s
send_all-Kept w l dst (m ∷ ms) s =
    Kept-trans (send_network_state-Stable watches w.ext l none dst m.maximum_size false s)
      (send_all-Kept w l dst ms _)
