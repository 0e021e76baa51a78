-- ===== src/Dncp/Proto/Stale.antt =====
-- A request for the own node's state while its TLVs are dirty (DNCP_T_REQ_NODE_STATE in src/dncp_proto.c).
use hnetd.Common.{
  ℕ, ◌^◌, ◌<◌, ◌≡◌, refl, ◌∙◌, true, false, some, arith, ◌==◌, ==_refl, length, take,
}
use hnetd.Tlv.Buf.{attr}
use hnetd.Dncp.Graph.{same_id}
use hnetd.Dncp.Proto.{State, ni_len_of}
use hnetd.Dncp.Proto.Push.{node_state, push_once, push_node_state_tlv}
use hnetd.Dncp.Proto.Receive.{
  World, Source, Handling, goes, with_reply, dirty_hash, flush_own, answer,
}
use hnetd.Dncp.Proto.Message.{is_interesting, hear_state, handle_tlv, NodeState}
use hnetd.Dncp.Proto.Codec.{IsSendable, state_of}
use hnetd.Dncp.Proto.Exchange.{known, hears}

-- What a receiver does with data that do not match their hash.
hear_state_mismatched :
    (w : World) (m : Source) (ns : NodeState) (h : Handling) (d : ℕ)
    → m.dst ≡ some d
    → is_interesting h.state (known h.state ns.node_id) ns ≡ true
    → 0 < length ns.node_data
    → same_id h.state.hash_len (w.ext.hash ns.node_data) ns.node_data_hash ≡ false
    → hear_state w m ns h ≡ goes h
unfolding hear_state
hear_state_mismatched w m ns h d e news long broken =
    let some_data : (length ns.node_data == 0) ≡ false = ground arith in
    rw (e, hear_state, news, some_data, broken) refl

answer_own :
    (w : World) (m : Source) (h : Handling)
    → let s = flush_own w h.state in
      answer w m h.state.local.own h
      ≡ with_reply h (push_once m.l 5 (node_state h.state.local.own true s) (s, h.reply))
unfolding answer push_node_state_tlv
answer_own w m h = rw (==_refl h.state.local.own, answer) refl

-- The hash is sent as it was before the flush.
old_hash :
    (w : World) (s : State)
    → (flush_own w s).node_data_hash s.local.own ≡ s.node_data_hash s.local.own
unfolding flush_own dirty_hash
old_hash w s = refl

-- The own node, the state after the flush, and the node state that answers a request: with the new data and
-- the old hash.
module _ (w : World) (h : Handling) where
  abbrev pub own : ℕ
  own = h.state.local.own

  abbrev pub flushed : State
  flushed = flush_own w h.state

  abbrev pub answered : NodeState
  answered = record (state_of own flushed) {
    node_data_hash = take flushed.hash_len (h.state.node_data_hash own);
  }

-- The answer to a request for the own node's state holds the data that the flush has just published, but the
-- hash from before the flush. A receiver by unicast for which it is news ignores it, if there are data and the
-- old hash is not that of the new data.
pub answer_stale :
    (w : World) (m : Source) (h : Handling) (w' : World) (m' : Source) (h' : Handling) (d : ℕ)
    → IsSendable (own w h) (flushed w h)
    → length (node_state (own w h) true (flushed w h)) < 2 ^ 16
    → ni_len_of h'.state ≡ ni_len_of (flushed w h)
    → h'.state.hash_len ≡ (flushed w h).hash_len
    → m'.dst ≡ some d
    → 0 < length (answered w h).node_data
    → is_interesting h'.state (known h'.state (answered w h).node_id) (answered w h) ≡ true
    → same_id h'.state.hash_len (w'.ext.hash (answered w h).node_data) (answered w h).node_data_hash
      ≡ false
    → let payload = node_state (own w h) true (flushed w h) in
      (answer w m (own w h) h ≡ with_reply h (push_once m.l 5 payload (flushed w h, h.reply)))
      × (handle_tlv w' m' (attr 5 payload) h' ≡ goes h')
unfolding flush_own dirty_hash
answer_stale w m h w' m' h' d v short ids hashes e long news broken = (
  answer_own w m h,
  hears w' m' h' (flushed w h) (own w h) v short ids hashes
      ∙ hear_state_mismatched w' m' (answered w h) h' d e news long broken,
)
