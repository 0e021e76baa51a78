-- ===== src/Dncp/Proto/Collision.antt =====
-- Another node publishes with this node's id (DNCP_T_NODE_STATE in src/dncp_proto.c, with `dncp_self_flush`
-- in src/dncp.c).
use hnetd.Common.{
  ℕ, ◌+◌, ◌-◌, ◌%◌, ◌^◌, ◌<◌, ◌≡◌, refl, ap, ◌∙◌, true, false, some, arith, ◌==◌, ==_refl, length,
}
use hnetd.Dncp.Graph.{Node, put_node, same_id}
use hnetd.Dncp.Graph.Replace.{schedule-graph, put_node_own}
use hnetd.Dncp.Publish.Number.{own_number, self_flush-own_number}
use hnetd.Dncp.Proto.{State, node_of, set_net}
use hnetd.Dncp.Proto.Exchange.{known}
use hnetd.Dncp.Proto.Receive.{
  World, Source, Handling, returns, update_number_gt, scheduled, dirty_hash, flush_own,
}
use hnetd.Dncp.Proto.Message.{
  NodeState, is_interesting, find_or_create, take_data, hear_state, collide,
}

-- The number that the next flush publishes is newer than the one that was received, also past 2 ^ 32.
pub update_number_gt-jump :
    (u : ℕ) → u < 2 ^ 32 → update_number_gt u (((u + 1000 - 1) % 2 ^ 32 + 1) % 2 ^ 32) ≡ true
unfolding update_number_gt
update_number_gt-jump u h = ground arith

collide-republish_tlvs :
    (w : World) (u : ℕ) (s : State)
    → s.collided ≡ false
    → (collide w u s).local.republish_tlvs ≡ true
unfolding collide scheduled set_net
collide-republish_tlvs w u s c = rw (c, collide) refl

collide-own_number :
    (w : World) (u : ℕ) (s : State)
    → s.collided ≡ false
    → own_number (collide w u s).local ≡ (u + 1000 - 1) % 2 ^ 32
unfolding collide scheduled set_net
collide-own_number w u s c =
    let own = s.local.own in
    let n = record (node_of s own) { update_number = (u + 1000 - 1) % 2 ^ 32 } in
    rw (c, collide)
      (ap (λ g. (g.node own).update_number) (schedule-graph (put_node own n s.local.net))
        ∙ ap (λ (x : Node). x.update_number) (put_node_own own n s.local.net))

flush_own-collide :
    (w : World) (u : ℕ) (s : State)
    → s.collided ≡ false
    → u < 2 ^ 32
    → update_number_gt u (own_number (flush_own w (collide w u s)).local) ≡ true
unfolding flush_own dirty_hash
flush_own-collide w u s c h =
    ap (update_number_gt u) (
      self_flush-own_number w.validates w.flush (collide w u s).local
        (collide-republish_tlvs w u s c)
      ∙ ap (λ (n : ℕ). (n + 1) % 2 ^ 32) (collide-own_number w u s c))
    ∙ update_number_gt-jump u h

-- A unicast node state for the own node that is news and has data that match their hash ends the handling of
-- the message; if it is the first collision, then the next flush publishes a number that is newer than the
-- one received.
pub hear_state_collides :
    (w : World) (m : Source) (ns : NodeState) (h : Handling) (d : ℕ)
    → m.dst ≡ some d
    → known h.state ns.node_id ≡ some h.state.local.own
    → is_interesting h.state (some h.state.local.own) ns ≡ true
    → 0 < length ns.node_data
    → same_id h.state.hash_len (w.ext.hash ns.node_data) ns.node_data_hash ≡ true
    → h.state.collided ≡ false
    → ns.update_number < 2 ^ 32
    → (s' : State) × (hear_state w m ns h ≡ returns s')
      × (update_number_gt ns.update_number (own_number (flush_own w s').local) ≡ true)
unfolding hear_state take_data find_or_create
hear_state_collides w m ns h d e k news long checked c l =
    let some_data : (length ns.node_data == 0) ≡ false = ground arith in
    (
      collide w ns.update_number h.state,
      rw (e, hear_state, k, news, some_data, checked, take_data, ==_refl h.state.local.own) refl,
      flush_own-collide w ns.update_number h.state c l,
    )
