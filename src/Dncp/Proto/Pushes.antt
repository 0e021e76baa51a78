-- ===== src/Dncp/Proto/Pushes.antt =====
-- What replies and the network state that is sent leave alone (src/dncp_proto.c): relations that hold
-- of sending a message and of calculating the network hash, and are closed under composition.
use hnetd.Common.{
  ℕ, zero, suc, ◌+◌, ◌*◌, Bool, false, not, ◌&&◌, ◌||◌, Option, none, some, List, [], ◌∷◌, leb,
  ◌==◌, if◌then◌else◌, length, take,
}
use hnetd.Bitops.{Bytes}
use hnetd.Pa.State.{is_some}
use hnetd.Dncp.Graph.Flush.{if_both}
use hnetd.Dncp.Proto.{State, Reply, Ext, Event, ni_len_of, calculate_network_hash}
use hnetd.Dncp.Proto.Push.{
  log, reply_send, send_full, push_fuel, push_tlv, push_once, push_node_state_tlv, put,
  push_network_state_tlv, push_node_states, push_network_state, bytes_to_exp, ep_id_data,
  reachable_nodes, buf_len, node_state, send_network_state,
}
use hnetd.Tlv.Buf.{buf_init}

-- What holds for both cases of a value that may be missing.
pub opt_both {ℓ κ} :
    {A : Type ℓ} {B : Type 0} (P : B → Type κ) (o : Option A) (x : B) (f : A → B)
    → P x
    → ((a : A) → P (f a))
    → P (elim o as (λ _. B) [ none ↦ x | some a ↦ f a ])
opt_both P none x f p q = p
opt_both P (some a) x f p q = q a

-- A relation between the states before and after
pub record Stable (R : State → State → Type 0) : Type 0 where
  pub start : (s : State) → R s s
  pub step : {s t u : State} → R s t → R t u → R s u
  pub logged : (e : Event) (s : State) → R s (log e s)
  pub hashed : (x : Ext) (s : State) → R s (calculate_network_hash x s)

module _ {R : State → State → Type 0} (k : Stable R) where
  reply_send-Stable : (r : Reply) (s : State) → R s (reply_send r s)
  unfolding reply_send
  reply_send-Stable r s = opt_both (R s) r.buf s _ (k.start s) (λ b. k.logged _ s)

  send_full-Stable : (len : ℕ) (x : State × Reply) → R x.0 (send_full len x).0
  unfolding send_full
  send_full-Stable len (s, r) =
      opt_both (λ (y : State × Reply). R s y.0) r.buf (s, r) _ (k.start s)
        (λ b.
          if_both (λ (y : State × Reply). R s y.0) _ _ (s, r) (reply_send-Stable r s) (k.start s))

  push_fuel-Stable :
      (fuel l t : ℕ) (payload : Bytes) (x : State × Reply) → R x.0 (push_fuel fuel l t payload x).0
  unfolding push_fuel
  push_fuel-Stable zero l t payload x = k.start x.0
  push_fuel-Stable (suc fuel) l t payload x =
      let (s, r) = send_full (length payload) x in
      let started : State × Reply =
        (s, record r { buf = some (buf_init (bytes_to_exp (s.ep l).maximum_unicast_size)) }) in
      let headed = push_fuel fuel l 3 (ep_id_data l s) started in
      let on_stream = (s.ep l).conf.unicast_is_reliable_stream in
      let full = send_full-Stable (length payload) x in
      let P = λ (y : State × Reply). R x.0 y.0 in
      if_both P (is_some r.buf) (s, r) (if on_stream then started else headed) full
        (if_both P on_stream started headed full
          (k.step full (push_fuel-Stable fuel l 3 (ep_id_data l s) started)))

  push_tlv-Stable :
      (l t : ℕ) (payload : Bytes) (x : State × Reply) → R x.0 (push_tlv l t payload x).0
  unfolding push_tlv
  push_tlv-Stable l t payload x = push_fuel-Stable 2 l t payload x

  pub push_once-Stable :
      (l t : ℕ) (payload : Bytes) (x : State × Reply) → R x.0 (push_once l t payload x).0
  unfolding push_once
  push_once-Stable l t payload x = push_tlv-Stable l t payload x

  push_network_state_tlv-Stable :
      (x : Ext) (l : ℕ) (y : State × Reply) → R y.0 (push_network_state_tlv x l y).0
  unfolding push_network_state_tlv
  push_network_state_tlv-Stable x l (s, r) =
      let hash = take s.hash_len (calculate_network_hash x s).network_hash in
      let pushed = push_tlv l 4 hash (s, r) in
      k.step (push_tlv-Stable l 4 hash (s, r)) (k.hashed x pushed.0)

  push_node_states-Stable :
      (l : ℕ) (ks : List ℕ) (x : State × Reply) → R x.0 (push_node_states l ks x).0
  unfolding push_node_states push_node_state_tlv
  push_node_states-Stable l [] x = k.start x.0
  push_node_states-Stable l (j ∷ ks) x =
      k.step (push_once-Stable l 5 (node_state j false x.0) x)
        (push_node_states-Stable l ks (push_node_state_tlv l j false x))

  pub push_network_state-Stable :
      (x : Ext) (l maximum_size : ℕ) (y : State × Reply)
      → R y.0 (push_network_state x l maximum_size y).0
  unfolding push_network_state
  push_network_state-Stable x l maximum_size y =
      let e = push_network_state_tlv-Stable x l y in
      let (s, r) = push_network_state_tlv x l y in
      let nodes = reachable_nodes s s.local.net.graph.nodes in
      let needed = buf_len r + length nodes * (4 + (8 + ni_len_of s + s.hash_len)) in
      if_both (λ (z : State × Reply). R y.0 z.0)
        ((not s.local.net.graph_dirty || maximum_size == 0)
          && (maximum_size == 0 || leb needed maximum_size))
        (push_node_states l nodes (s, r)) (s, r) (k.step e (push_node_states-Stable l nodes (s, r)))
        e

  pub send_network_state-Stable :
      (x : Ext) (l : ℕ) (src dst : Option ℕ) (maximum_size : ℕ) (always_ep_id : Bool) (s : State)
      → R s (send_network_state x l src dst maximum_size always_ep_id s)
  unfolding send_network_state
  send_network_state-Stable x l src dst maximum_size always_ep_id s =
      let started : Reply = record { buf = some (buf_init 0); from = src; to = 0 } in
      let headed =
        if (s.ep l).conf.unicast_is_reliable_stream && is_some dst && not always_ep_id
        then started
        else put 3 (ep_id_data l s) started in
      let (s', r) = push_network_state x l maximum_size (s, headed) in
      let e = push_network_state-Stable x l maximum_size (s, headed) in
      opt_both (R s) r.buf s' _ e (λ b. k.step e (k.logged _ s'))
