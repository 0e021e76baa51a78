-- ===== src/Dncp/Timeout/Peers.antt =====
-- What a timeout decides of a peer (`dncp_ext_timeout` in src/dncp_timeout.c).
use mathlib.Core.Path.{subst}
use hnetd.Common.{
  ℕ, ◌+◌, ◌*◌, ◌/◌, ◌<◌, ◌≡◌, refl, ap, ◌∙◌, inl, inr, Bool, true, false, ◌&&◌, none, some, List,
  [], ◌∷◌, arith, ltb, ◌==◌, if◌then◌else◌, Bool-cases, Option-cases,
}
use hnetd.Bitops.{Bytes}
use hnetd.Dncp.Trickle.{tmin}
use hnetd.Dncp.Graph.{Peer, tlv_peer}
use hnetd.Dncp.Graph.Replace.{schedule-graph, schedule-now}
use hnetd.Dncp.Proto.{State, Ep, ni_len_of, set_net, find_ep}
use hnetd.Dncp.Proto.Push.{log}
use hnetd.Dncp.Proto.Receive.{World, scheduled}
use hnetd.Dncp.Trickle.{handle_trickle_and_ka}
use hnetd.Dncp.Trickle.Schedule.{Sooner, tmin-Sooner, tmin_mono}
use hnetd.Dncp.Graph.Flush.{if_both}
use hnetd.Dncp.Timeout.Watched.{
  Read, Kept, Read-refl, Read-trans, Kept-refl, Kept-trans, set_peer_trickle, send_all-Kept,
}
use hnetd.Dncp.Timeout.{
  Conf, Timed, within, set_next, without_tlv, remove_tlv, neighbor_interval, valid_until,
  judge_peer, run_peer, run_peer_timer,
}

-- What the loop over the peers decides of a TLV: it is no peer's or the peer is not watched, the peer has been
-- silent for too long, or it is valid until a time.
pub data Verdict : Type 0 where
  exempt : Verdict
  silent : Verdict
  valid : ℕ → Verdict

unfoldable pub is_dropped : Verdict → Bool
is_dropped exempt = false
is_dropped silent = true
is_dropped (valid d) = false

unfoldable pub sooner : Verdict → ℕ → ℕ
sooner exempt n = n
sooner silent n = n
sooner (valid d) n = tmin n d

-- The verdict on a peer that is valid until `until`
abbrev verdict_at : Bool → ℕ → ℕ → Verdict
verdict_at always now until =
    if always then exempt else if ltb now until then valid until else silent

-- The verdict on a peer on endpoint `l`
unfoldable pub peer_verdict : Conf → State → Bytes → Peer → ℕ → Verdict
peer_verdict c s t ne l =
    let interval = neighbor_interval c ne s in
    verdict_at (interval == 0 && (s.ep l).conf.unicast_is_reliable_stream) s.local.net.now
      (valid_until c interval (s.peer t))

unfoldable pub verdict : Conf → State → Bytes → Verdict
verdict c s t = elim (tlv_peer (ni_len_of s) t) [
  | none ↦ exempt
  | some ne ↦ elim (find_ep s ne.ep_id s.eps) [ none ↦ exempt | some l ↦ peer_verdict c s t ne l ]
]

-- Reading the same, the verdicts are the same.
find_ep_same :
    (s s' : State) (ep_id : ℕ) (ls : List ℕ)
    → ((l : ℕ) → (s'.ep l).ep_id ≡ (s.ep l).ep_id)
    → find_ep s' ep_id ls ≡ find_ep s ep_id ls
unfolding find_ep
find_ep_same s s' ep_id [] e = refl
find_ep_same s s' ep_id (l ∷ ls) e =
    λ i. if e l i == ep_id then some l else find_ep_same s s' ep_id ls e i

interval_same :
    (c : Conf) (ne : Peer) (s s' : State)
    → s'.local.net.graph ≡ s.local.net.graph
    → neighbor_interval c ne s' ≡ neighbor_interval c ne s
unfolding neighbor_interval
interval_same c ne s s' e =
    ap
      (λ g.
        neighbor_interval c ne
          (record s { local = record s.local { net = record s.local.net { graph = g } } }))
      e

until_same :
    (c : Conf) (interval : ℕ) (t : Bytes) (s s' : State)
    → Read s s'
    → valid_until c interval (s'.peer t) ≡ valid_until c interval (s.peer t)
unfolding valid_until
until_same c interval t s s' r =
    ap (λ a. a + interval * c.keepalive_multiplier_percent / 100) (r.contact t)

peer_verdict_same :
    (c : Conf) (s s' : State) (t : Bytes) (ne : Peer) (l : ℕ)
    → Read s s'
    → peer_verdict c s' t ne l ≡ peer_verdict c s t ne l
unfolding peer_verdict
peer_verdict_same c s s' t ne l r =
    (λ i.
      let interval = interval_same c ne s s' r.graph i in
      verdict_at (interval == 0 && r.stream l i) (r.now i) (valid_until c interval (s'.peer t)))
    ∙ ap
        (verdict_at (neighbor_interval c ne s == 0 && (s.ep l).conf.unicast_is_reliable_stream)
          s.local.net.now)
        (until_same c (neighbor_interval c ne s) t s s' r)

pub verdict_same :
    (c : Conf) (s s' : State) (t : Bytes) → Read s s' → verdict c s' t ≡ verdict c s t
unfolding verdict
verdict_same c s s' t r = λ i. elim (tlv_peer ((r.graph i).ni_len) t) [
  | none ↦ exempt
  | some ne ↦ elim ((ap (find_ep s' ne.ep_id) r.eps ∙ find_ep_same s s' ne.ep_id s.eps r.ep_id) i) [
    | none ↦ exempt
    | some l ↦ peer_verdict_same c s s' t ne l r i
  ]
]

-- A time until which a peer is valid is yet to come.
pub valid_later : (c : Conf) (s : State) (t : Bytes) (d : ℕ) → verdict c s t ≡ valid d → 0 < d
unfolding verdict peer_verdict
valid_later c s t d = ground arith

-- One turn of the loop, in which the verdict on the TLV `t` is `v`.
pub record Turn (v : Verdict) (t : Bytes) (x x' : Timed) : Type 0 where
  pub read : Read x.state x'.state
  pub tlvs :
      x'.state.local.tlvs
      ≡ (if is_dropped v then without_tlv t x.state.local.tlvs else x.state.local.tlvs)
  pub count : x'.num_neighbor_dropped ≡ (if is_dropped v then 1 else 0) + x.num_neighbor_dropped
  pub next : Sooner (sooner v x.next) x'.next

Sooner-refl : (n : ℕ) → Sooner n n
Sooner-refl n p = (p, omega arith)

stay : (t : Bytes) (x : Timed) → Turn exempt t x x
unfolding is_dropped sooner
stay t x = record {
  read = Read-refl x.state;
  tlvs = refl;
  count = omega arith;
  next = Sooner-refl _;
}

remove_tlv-Read : (t : Bytes) (s : State) → Read s (remove_tlv t s)
unfolding remove_tlv scheduled set_net log
remove_tlv-Read t s = record {
  eps = refl;
  ep_id = λ l. refl;
  stream = λ l. refl;
  contact = λ t. refl;
  graph = schedule-graph s.local.net;
  now = schedule-now s.local.net;
}

judge_peer-Turn :
    (c : Conf) (e : Ep) (interval : ℕ) (t : Bytes) (x : Timed)
    → Turn
        (verdict_at
          (interval == 0 && e.conf.unicast_is_reliable_stream)
          x.state.local.net.now
          (valid_until c interval (x.state.peer t)))
        t
        x
        (judge_peer c e interval t x)
unfolding judge_peer within set_next remove_tlv scheduled set_net log is_dropped sooner
judge_peer-Turn c e interval t x =
    let until = valid_until c interval (x.state.peer t) in
    let always = interval == 0 && e.conf.unicast_is_reliable_stream in
    elim (Bool-cases always) [
      | inl a ↦ rw a (stay t x)
      | inr a ↦ elim (Bool-cases (ltb x.state.local.net.now until)) [
        | inl b ↦
            rw (a, b)
              (record {
                read = Read-refl x.state;
                tlvs = refl;
                count = omega arith;
                next = Sooner-refl _;
              })
        | inr b ↦
            rw (a, b)
              (record {
                read = remove_tlv-Read t x.state;
                tlvs = refl;
                count = omega arith;
                next = Sooner-refl _;
              })
      ]
    ]

-- A step before the verdict
record Before (x x' : Timed) : Type 0 where
  kept : Kept x.state x'.state
  count : x'.num_neighbor_dropped ≡ x.num_neighbor_dropped
  next : Sooner x.next x'.next

pub sooner_mono : (v : Verdict) (a b : ℕ) → Sooner a b → Sooner (sooner v a) (sooner v b)
unfolding sooner
sooner_mono exempt a b h = h
sooner_mono silent a b h = h
sooner_mono (valid d) a b h = tmin_mono a b d h

pub Sooner-trans : (a b c : ℕ) → Sooner a b → Sooner b c → Sooner a c
Sooner-trans a b c e f p = let (q, h) = e p in let (r, k) = f q in (r, omega arith)

Before-Turn :
    (v : Verdict) (t : Bytes) (x x1 x2 : Timed) → Before x x1 → Turn v t x1 x2 → Turn v t x x2
Before-Turn v t x x1 x2 b e = record {
  read = Read-trans b.kept.read e.read;
  tlvs = e.tlvs ∙ ap (λ ts. if is_dropped v then without_tlv t ts else ts) b.kept.tlvs;
  count = e.count ∙ ap (λ n. (if is_dropped v then 1 else 0) + n) b.count;
  next = Sooner-trans _ _ _ (sooner_mono v x.next x1.next b.next) e.next;
}

run_peer_timer-Before :
    (w : World) (l : ℕ) (t : Bytes) (x : Timed) → Before x (run_peer_timer w l t x)
unfolding run_peer_timer set_next within
run_peer_timer-Before w l t x =
    let p = x.state.peer t in
    let (t', sent, next) =
      handle_trickle_and_ka p.trickle (x.state.ep l).conf x.state.local.net.now
        (w.ext.random_peer t) w.random true in
    record {
      kept =
          Kept-trans (set_peer_trickle t (λ _. t') x.state)
            (send_all-Kept w l (some p.last_sa6) sent _);
      count = refl;
      next = tmin-Sooner x.next next;
    }

run_peer-at :
    (c : Conf) (w : World) (t : Bytes) (ne : Peer) (l : ℕ) (x x1 : Timed)
    → Before x x1
    → Turn
        (peer_verdict c x.state t ne l)
        t
        x
        (judge_peer c (x.state.ep l) (neighbor_interval c ne x.state) t x1)
unfolding peer_verdict
run_peer-at c w t ne l x x1 b =
    let interval = neighbor_interval c ne x.state in
    let always = interval == 0 && (x.state.ep l).conf.unicast_is_reliable_stream in
    let e : verdict_at always x1.state.local.net.now (valid_until c interval (x1.state.peer t))
        ≡ verdict_at always x.state.local.net.now (valid_until c interval (x.state.peer t)) =
      λ i.
        verdict_at always (b.kept.read.now i)
          (until_same c interval t x.state x1.state b.kept.read i) in
    Before-Turn _ t x x1 _ b (
      subst (λ v. Turn v t x1 (judge_peer c (x.state.ep l) interval t x1)) e
        (judge_peer-Turn c (x.state.ep l) interval t x1))

abbrev pub one_peer : Conf → World → Bytes → Timed → Timed
one_peer c w t x = elim (tlv_peer (ni_len_of x.state) t) [
  | none ↦ x
  | some ne ↦ run_peer w c t ne x
]

pub run_peer-Turn :
    (c : Conf) (w : World) (t : Bytes) (x : Timed)
    → Turn (verdict c x.state t) t x (one_peer c w t x)
unfolding verdict run_peer
run_peer-Turn c w t x = elim (Option-cases (tlv_peer (ni_len_of x.state) t)) [
  | inl e ↦ rw (one_peer, e, verdict) (stay t x)
  | inr (ne, e) ↦ elim (Option-cases (find_ep x.state ne.ep_id x.state.eps)) [
    | inl f ↦ rw (one_peer, e, verdict, run_peer, f) (stay t x)
    | inr (l, f) ↦
        rw (one_peer, e, verdict, run_peer, f)
          (run_peer-at c w t ne l x _ (
            if_both (Before x) (x.state.ep l).unicast_only (run_peer_timer w l t x) x
              (run_peer_timer-Before w l t x)
              (record { kept = Kept-refl x.state; count = refl; next = Sooner-refl _ })))
  ]
]
