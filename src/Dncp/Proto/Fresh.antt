-- ===== src/Dncp/Proto/Fresh.antt =====
-- What can change the other nodes when a TLV of a message is handled (`handle_message` in src/dncp_proto.c).
use mathlib.Core.Path.{subst}
use hnetd.Common.{
  ℕ, ◌+◌, ◌-◌, ◌<◌, ◌≡◌, refl, sym, ap, ◌∙◌, ◌≢◌, ◌⊎◌, inl, inr, true, false, not, ◌&&◌, ◌||◌, none,
  some, arith, ℕ_discrete, ltb, ◌==◌, if◌then◌else◌, ne→==, ==_iff, Option-cases, length, take,
}
use hnetd.Bitops.{Bytes}
use hnetd.Tlv.{tlv_id, tlv_len}
use hnetd.Tlv.Buf.{attr}
use hnetd.Pa.State.{is_some}
use hnetd.Dncp.Graph.{same_id, is_reachable, node_set, put_node}
use hnetd.Dncp.Graph.Flush.{if_both}
use hnetd.Dncp.Graph.Replace.{node_set_other}
use hnetd.Dncp.Publish.Number.{self_flush-Others}
use hnetd.Dncp.Proto.{State, node_of, ni_len_of, set_net, tlv_data}
use hnetd.Dncp.Proto.Push.{
  push_node_state_tlv, push_network_state, push_req_node_data_tlv, node_state,
}
use hnetd.Dncp.Proto.Receive.{
  World, Source, Handling, Next, goes, returns, meet, node_endpoint, with_reply, req_net_state,
  req_node_state, answer, dirty_hash, flush_own, consistent, net_state,
}
use hnetd.Dncp.Proto.Message.{
  NodeState, read_node_state, is_interesting, find_or_create, add_node, enter_node, store_data,
  request_data, take_data, hear_state, node_state_tlv, handle_tlv, collide,
}
use hnetd.Dncp.Proto.Exchange.{known}
use hnetd.Dncp.Proto.Pushes.{opt_both}
use hnetd.Dncp.Proto.Keeps.{
  scheduled-Keeps, Keeps, if_split, push_once-Keeps, push_network_state-Keeps, meet-Keeps,
  consistent-Keeps,
}

-- What a TLV must be for it to change node `j`: a node state that names the node, or a new node
-- of which `j` becomes the address; that is news; and that has data that are accepted and match their hash.
pub record IsNews (w : World) (m : Source) (s : State) (ns : NodeState) (j : ℕ) : Type 0 where
  pub named :
      (known s ns.node_id ≡ some j)
      ⊎ ((known s ns.node_id ≡ none) × (w.fresh s.local.net.graph.nodes ≡ some j))
  pub news : is_interesting s (known s ns.node_id) ns ≡ true
  pub accepted : (is_some m.dst || (s.ep m.l).accept_node_data_updates_via_multicast) ≡ true
  pub with_data : 0 < length ns.node_data
  pub checked : same_id s.hash_len (w.ext.hash ns.node_data) ns.node_data_hash ≡ true

module _ (j : ℕ) where
  abbrev Same : State → State → Type 0
  Same s s' = node_of s' j ≡ node_of s j

  kept-Same : (s s' : State) → Keeps s s' → Same s s'
  kept-Same s s' e = ap (λ g. g.node j) e

  flush_own-Same : (w : World) (s : State) → j ≢ s.local.own → Same s (flush_own w s)
  unfolding flush_own dirty_hash
  flush_own-Same w s h = self_flush-Others w.validates w.flush j s.local h

  answer-Same :
      (w : World) (m : Source) (k : ℕ) (h : Handling)
      → j ≢ h.state.local.own
      → Same h.state (answer w m k h).state
  unfolding answer with_reply push_node_state_tlv
  answer-Same w m k h o =
      let s = h.state in
      let s' = flush_own w s in
      let P = λ (h' : Handling). Same s h'.state in
      let pushed = λ (s1 : State).
        kept-Same s1 (push_node_state_tlv m.l k true (s1, h.reply)).0
          (push_once-Keeps m.l 5 (node_state k true s1) (s1, h.reply)) in
      if_both P (k == s.local.own) (with_reply h (push_node_state_tlv m.l k true (s', h.reply)))
        (if s.local.net.graph_dirty || not (is_reachable s.local.net k)
          then h
          else with_reply h (push_node_state_tlv m.l k true (s, h.reply)))
        (pushed s' ∙ flush_own-Same w s o)
        (if_both P (s.local.net.graph_dirty || not (is_reachable s.local.net k)) h
          (with_reply h (push_node_state_tlv m.l k true (s, h.reply))) refl (pushed s))

  req_node_state-Same :
      (w : World) (m : Source) (a : Bytes) (h : Handling)
      → j ≢ h.state.local.own
      → Same h.state (req_node_state w m a h).state
  unfolding req_node_state
  req_node_state-Same w m a h o =
      let P = λ (h' : Handling). Same h.state h'.state in
      let k = known h.state (tlv_data a) in
      if_both P (not (is_some m.dst) || not (tlv_len a == ni_len_of h.state)) h
        (elim k as (λ _. Handling) [ none ↦ h | some k ↦ answer w m k h ]) refl
        (opt_both P k h (λ k. answer w m k h) refl (λ k. answer-Same w m k h o))

  store_data-Same :
      (w : World) (k : ℕ) (ns : NodeState) (s : State) → j ≢ k → Same s (store_data w k ns s)
  unfolding store_data set_net
  store_data-Same w k ns s h =
      let t = s.local.net.now - ns.ms_since_origination in
      let a = some (attr 0 ns.node_data) in
      let set = set_net (node_set w.validates k ns.update_number t a) s in
      if_both (Same s) (ltb (length ns.node_data) 4) s
        (record set {
          node_data_hash = λ i. if i == k then ns.node_data_hash else s.node_data_hash i;
          node_data_hash_dirty = λ i. if i == k then false else s.node_data_hash_dirty i;
        })
        refl (node_set_other w.validates k j ns.update_number t a s.local.net h)

  add_node-Same : (k : ℕ) (ni : Bytes) (s : State) → j ≢ k → Same s (add_node k ni s)
  unfolding add_node enter_node set_net put_node
  add_node-Same k ni s h =
      kept-Same (enter_node k ni s) (add_node k ni s) (scheduled-Keeps (enter_node k ni s))
      ∙ rw (ne→== j k h) refl

  -- What holds if the handling goes on.
  abbrev Goes : (Handling → Type 0) → Next → Type 0
  Goes P (goes h) = P h
  Goes P (returns s) = Unit

  Goes_map :
      (P Q : Handling → Type 0) → ((h : Handling) → P h → Q h) → (n : Next) → Goes P n → Goes Q n
  Goes_map P Q f (goes h) p = f h p
  Goes_map P Q f (returns s) p = tt

  node_endpoint-Same :
      (w : World) (m : Source) (a : Bytes) (h : Handling)
      → Goes (λ h'. Same h.state h'.state) (node_endpoint w m a h)
  unfolding node_endpoint
  node_endpoint-Same w m a h =
      let P = Goes (λ h'. Same h.state h'.state) in
      let s = h.state in
      let lid = tlv_data a in
      let met = goes (meet w m lid h) in
      let own = goes (record h { seen_lid = true; is_local = true }) in
      let is_own = same_id (ni_len_of s) lid (node_of s s.local.own).node_id in
      if_both P h.seen_lid (goes h)
        (if not (tlv_len a == 4 + ni_len_of s) then returns s else if is_own then own else met) refl
        (if_both P (not (tlv_len a == 4 + ni_len_of s)) (returns s) (if is_own then own else met) tt
          (if_both P is_own own met refl
            (kept-Same s (meet w m lid h).state (meet-Keeps w m lid h))))

  req_net_state-Same :
      (w : World) (m : Source) (h : Handling) → Same h.state (req_net_state w m h).state
  unfolding req_net_state with_reply
  req_net_state-Same w m h =
      let y = push_network_state w.ext m.l 0 (h.state, h.reply) in
      if_both (λ (h' : Handling). Same h.state h'.state) (is_some m.dst) (with_reply h y) h
        (kept-Same h.state y.0 (push_network_state-Keeps w.ext m.l 0 (h.state, h.reply))) refl

  net_state-Same : (m : Source) (a : Bytes) (h : Handling) → Same h.state (net_state m a h).state
  unfolding net_state
  net_state-Same m a h =
      ground (arith, kept-Same h.state (consistent m h).state (consistent-Keeps m h))

  module _ (w : World) (m : Source) (ns : NodeState) (h : Handling) where
    abbrev Outcome : Handling → Type 0
    Outcome h' = Same h.state h'.state ⊎ IsNews w m h.state ns j

    -- Node `k` of the state `r` gets the data.
    step :
        (k : ℕ) (r : State)
        → (j ≢ k → Same h.state r)
        → (j ≡ k → IsNews w m h.state ns j)
        → Goes Outcome (
            if k == r.local.own
            then returns (collide w ns.update_number r)
            else goes (record h { state = store_data w k ns r; updated_or_requested_state = true }))
    step k r same news =
        let h' = record h { state = store_data w k ns r; updated_or_requested_state = true } in
        if_both (Goes Outcome) (k == r.local.own) (returns (collide w ns.update_number r)) (goes h')
          tt
          (elim (ℕ_discrete j k) [
            | yes e ↦ inr (news e)
            | no n ↦ inl (store_data-Same w k ns r n ∙ same n)
          ])

    take_data-Outcome :
        ((known h.state ns.node_id ≡ some j)
            ⊎ ((known h.state ns.node_id ≡ none) × (w.fresh h.state.local.net.graph.nodes ≡ some j))
          → IsNews w m h.state ns j)
        → Goes Outcome (take_data w (known h.state ns.node_id) ns h)
    unfolding take_data find_or_create
    take_data-Outcome news = elim (Option-cases (known h.state ns.node_id)) [
      | inr (k, e) ↦
          rw (e, take_data) (step k h.state (λ _. refl) (λ f. news (inl (e ∙ ap some (sym f)))))
      | inl e ↦ elim (Option-cases (w.fresh h.state.local.net.graph.nodes)) [
        | inl f ↦ rw (e, f, take_data) tt
        | inr (k, f) ↦
            rw (e, f, take_data)
              (step k (add_node k ns.node_id h.state) (λ n. add_node-Same k ns.node_id h.state n)
                (λ g. news (inr (e, f ∙ ap some (sym g)))))
      ]
    ]

    hear_state-Outcome : Goes Outcome (hear_state w m ns h)
    unfolding hear_state request_data with_reply push_req_node_data_tlv
    hear_state-Outcome =
        let s = h.state in
        let n = known s ns.node_id in
        let P = Goes Outcome in
        let accepts = (s.ep m.l).accept_node_data_updates_via_multicast in
        let refused = not (is_some m.dst) && not accepts in
        let empty = length ns.node_data == 0 in
        let asked = goes (request_data m ns h) in
        let matches = same_id s.hash_len (w.ext.hash ns.node_data) ns.node_data_hash in
        let kept = push_once-Keeps m.l 2 (take (ni_len_of s) ns.node_id) (s, h.reply) in
        let checks = if not matches then goes h else take_data w n ns h in
        if_split P (not (is_interesting s n ns)) (goes h)
          (if refused || empty then asked else checks) (λ _. inl refl)
          (λ news.
            if_split P (refused || empty) asked checks
              (λ _. inl (kept-Same s (request_data m ns h).state kept))
              (λ supplied.
                if_split P (not matches) (goes h) (take_data w n ns h) (λ _. inl refl)
                  (λ checked. take_data-Outcome (λ named. record {
                    named = named;
                    news = ground arith;
                    accepted = ground arith;
                    with_data = ground arith;
                    checked = ground arith;
                  }))))

  -- What a TLV of a message does to node `j`: the fields of a node state TLV are those of its payload.
  module _ (w : World) (m : Source) (a : Bytes) (h : Handling) (other : j ≢ h.state.local.own) where
    abbrev read : NodeState
    read = read_node_state (ni_len_of h.state) h.state.hash_len (tlv_data a)

    abbrev Changes : Handling → Type 0
    Changes h' = Same h.state h'.state ⊎ ((tlv_id a ≡ 5) × IsNews w m h.state read j)

    node_state_tlv-Changes : tlv_id a ≡ 5 → Goes Changes (node_state_tlv w m a h)
    unfolding node_state_tlv
    node_state_tlv-Changes e =
        if_both (Goes Changes) (ltb (tlv_len a) (8 + ni_len_of h.state + h.state.hash_len)) (goes h)
          (hear_state w m read h) (inl refl)
          (Goes_map (Outcome w m read h) Changes
            (λ h' o. elim o [ inl p ↦ inl p | inr q ↦ inr (e, q) ]) (hear_state w m read h)
            (hear_state-Outcome w m read h))

    handle_tlv-Changes : Goes Changes (handle_tlv w m a h)
    unfolding handle_tlv
    handle_tlv-Changes =
        let P = Goes Changes in
        let Q = λ (h' : Handling). Same h.state h'.state in
        let node = if tlv_id a == 5 then node_state_tlv w m a h else goes h in
        let from4 = if tlv_id a == 4 then goes (net_state m a h) else node in
        let from2 = if tlv_id a == 2 then goes (req_node_state w m a h) else from4 in
        let from1 = if tlv_id a == 1 then goes (req_net_state w m h) else from2 in
        if_both P (tlv_id a == 3) (node_endpoint w m a h) from1
          (Goes_map Q Changes (λ h' p. inl p) (node_endpoint w m a h) (node_endpoint-Same w m a h))
          (if_both P (tlv_id a == 1) (goes (req_net_state w m h)) from2
            (inl (req_net_state-Same w m h))
            (if_both P (tlv_id a == 2) (goes (req_node_state w m a h)) from4
              (inl (req_node_state-Same w m a h other))
              (if_both P (tlv_id a == 4) (goes (net_state m a h)) node (inl (net_state-Same m a h))
                (if_split P (tlv_id a == 5) (node_state_tlv w m a h) (goes h)
                  (λ e. node_state_tlv-Changes ((==_iff (tlv_id a) 5).0 e)) (λ _. inl refl)))))

-- Handling a TLV of a message, which does not end the handling, leaves a node other than the own one as it is,
-- unless the TLV is a node state that names the node or creates it, is news, comes by unicast or where data are
-- accepted by multicast, and has data that match their hash.
pub handle_tlv_fresh :
    (w : World) (m : Source) (a : Bytes) (h h' : Handling) (j : ℕ)
    → j ≢ h.state.local.own
    → handle_tlv w m a h ≡ goes h'
    → (node_of h'.state j ≡ node_of h.state j)
      ⊎ ((tlv_id a ≡ 5)
          × IsNews w m h.state
              (read_node_state (ni_len_of h.state) h.state.hash_len (tlv_data a))
              j)
handle_tlv_fresh w m a h h' j other e =
    subst (Goes j (Changes j w m a h other)) e (handle_tlv-Changes j w m a h other)
