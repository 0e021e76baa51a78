-- ===== src/Dncp/Proto/Keeps.antt =====
-- What leaves the nodes alone when a message is handled: replies, and the peers (src/dncp_proto.c).
use hnetd.Common.{
  ℕ, ◌+◌, ◌≡◌, refl, ◌∙◌, Bool, true, false, not, ◌||◌, Option, none, some, ◌++◌, if◌then◌else◌,
}
use hnetd.Bitops.{Bytes}
use hnetd.Pa.State.{is_some}
use hnetd.Dncp.Graph.Flush.{if_both}
use hnetd.Dncp.Graph.Replace.{schedule-graph}
use hnetd.Dncp.Proto.{State, Reply, Ext, set_net, modify_ep, modify_peer, to_be32}
use hnetd.Dncp.Proto.NetworkHash.{calculate-graph}
use hnetd.Dncp.Proto.Pushes.{opt_both, Stable, push_once-Stable, push_network_state-Stable}
use hnetd.Dncp.Proto.Push.{log, push_once, push_network_state}
use hnetd.Tlv.Buf.{attr}
use hnetd.Dncp.Proto.Receive.{
  World, Source, Handling, scheduled, add_peer, find_or_add, has_tlv, heard, meet, consistent,
}

-- The nodes stay as they are.
abbrev pub Keeps : State → State → Type 0
Keeps s s' = s'.local.net.graph ≡ s.local.net.graph

-- What holds for both cases of a test, with what it says.
pub if_split {ℓ κ} :
    {A : Type ℓ} (P : A → Type κ) (b : Bool) (x y : A)
    → (b ≡ true → P x)
    → (b ≡ false → P y)
    → P (if b then x else y)
if_split P true x y p q = p refl
if_split P false x y p q = q refl

keeps : Stable Keeps
unfolding log
keeps = record {
  start = λ s. refl;
  step = λ e f. f ∙ e;
  logged = λ e s. refl;
  hashed = calculate-graph;
}

-- Replies
pub push_once-Keeps :
    (l t : ℕ) (payload : Bytes) (x : State × Reply) → Keeps x.0 (push_once l t payload x).0
push_once-Keeps = push_once-Stable keeps

pub push_network_state-Keeps :
    (x : Ext) (l maximum_size : ℕ) (y : State × Reply)
    → Keeps y.0 (push_network_state x l maximum_size y).0
push_network_state-Keeps = push_network_state-Stable keeps

-- Peers
pub scheduled-Keeps : (s : State) → Keeps s (scheduled s)
unfolding scheduled set_net
scheduled-Keeps s = schedule-graph s.local.net

add_peer-Keeps : (t : Bytes) (s : State) → Keeps s (add_peer t s)
unfolding add_peer modify_peer log
add_peer-Keeps t s = scheduled-Keeps _

abbrev KeepsFirst : State → State × Option Bytes → Type 0
KeepsFirst s x = Keeps s x.0

find_or_add-Keeps :
    (w : World) (multicast : Bool) (t : Bytes) (s : State) → Keeps s (find_or_add w multicast t s).0
unfolding find_or_add
find_or_add-Keeps w multicast t s =
    if_both (KeepsFirst s) (has_tlv t s.local.tlvs) (s, some t)
      (if multicast || not w.tlv_fits then (s, none) else (add_peer t s, some t)) refl
      (if_both (KeepsFirst s) (multicast || not w.tlv_fits) (s, none) (add_peer t s, some t) refl
        (add_peer-Keeps t s))

pub heard-Keeps : (w : World) (m : Source) (lid : Bytes) (s : State) → Keeps s (heard w m lid s).0
unfolding heard modify_peer
heard-Keeps w m lid s =
    let multicast = not (is_some m.dst) in
    let (s', t) = find_or_add w multicast (attr 8 (lid ++ to_be32 (s.ep m.l).ep_id)) s in
    let e = find_or_add-Keeps w multicast (attr 8 (lid ++ to_be32 (s.ep m.l).ep_id)) s in
    opt_both (KeepsFirst s) t (s', none) _ e
      (λ a.
        if_both (Keeps s) multicast s' (modify_peer a (λ p. record p { last_sa6 = m.src }) s') e e)

pub meet-Keeps :
    (w : World) (m : Source) (lid : Bytes) (h : Handling) → Keeps h.state (meet w m lid h).state
unfolding meet modify_peer
meet-Keeps w m lid h =
    let (s, ne) = heard w m lid h.state in
    let e = heard-Keeps w m lid h.state in
    let now = s.local.net.now in
    let met = record h { state = s; seen_lid = true; ne = ne; is_local = false } in
    let P = λ (h' : Handling). Keeps h.state h'.state in
    opt_both P ne
      (if is_some m.dst then met else record met { should_request_network_state = true }) _
      (if_both P (is_some m.dst) met (record met { should_request_network_state = true }) e e)
      (λ t.
        if_both P (is_some m.dst)
          (record met { state = modify_peer t (λ p. record p { last_contact = now }) s }) met e e)

pub consistent-Keeps : (m : Source) (h : Handling) → Keeps h.state (consistent m h).state
unfolding consistent modify_peer modify_ep
consistent-Keeps m h =
    let s =
      modify_ep m.l (λ e. record e { trickle = record e.trickle { c = e.trickle.c + 1 } })
        h.state in
    let now = s.local.net.now in
    opt_both (Keeps h.state) h.ne s
      (λ t.
        modify_peer t
          (λ p. record p { trickle = record p.trickle { c = p.trickle.c + 1 }; last_contact = now })
          s)
      refl (λ t. refl)
