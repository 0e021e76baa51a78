-- ===== src/Dncp/Timeout/Ready.antt =====
-- An endpoint that is enabled or disabled (`dncp_ext_ep_ready` in src/dncp_timeout.c).
use mathlib.Core.List.{Memᴰ}
use mathlib.Core.List.Memᴰ
use mathlib.Core.Path.{subst}
use hnetd.Common.{
  ℕ, ◌≡◌, refl, ap, ◌∙◌, sym, Bool, true, false, not, none, some, List, [], ◌∷◌, inl, inr,
  Bool-cases, ◌==◌, ==_refl, if◌then◌else◌, arith,
}
use hnetd.Bitops.{Bytes}
use hnetd.Tlv.Equal.{tlv_cmp_refl}
use hnetd.Dncp.Graph.{tlv_peer, xor}
use hnetd.Dncp.Proto.{State, Ep, same_tlv, ni_len_of, modify_ep, restarted, set_net, ep_changed}
use hnetd.Dncp.Proto.Push.{log}
use hnetd.Dncp.Proto.Receive.{World, scheduled, has_tlv}
use hnetd.Dncp.Graph.Flush.{if_both}
use hnetd.Dncp.Graph.Replace.{schedule-graph}
use hnetd.Dncp.Timeout.{
  Conf, without_tlv, remove_tlv, remove_tlv_matching, keepalive_tlv, set_keepalive_interval,
}
use hnetd.Dncp.Timeout.Dropped.{keep, is_gone, keep-true, not_gone}

-- Whether a TLV is that of a peer on the endpoint with an id
unfoldable pub is_peer_on : ℕ → ℕ → Bytes → Bool
is_peer_on nidlen ep_id t = elim (tlv_peer nidlen t) [ none ↦ false | some ne ↦ ne.ep_id == ep_id ]

-- The loop that removes the peers on an endpoint
unfoldable pub remove_peers : ℕ → List Bytes → State → State
remove_peers ep_id [] s = s
remove_peers ep_id (t ∷ ts) s =
    remove_peers ep_id ts (if is_peer_on (ni_len_of s) ep_id t then remove_tlv t s else s)

-- `dncp_ext_ep_ready` at the time `now`, where `rand` is what `random` returns
unfoldable pub ext_ep_ready : World → Conf → ℕ → ℕ → ℕ → Bool → State → State
ext_ep_ready w c rand now l enabled s0 =
    let s = modify_ep l (λ e. record e { enabled = enabled }) s0 in
    let start = scheduled (
      modify_ep l
        (λ e. record e {
          trickle = record (restarted e.conf now rand e.trickle) { last_sent = now };
        })
        s) in
    let stop =
      set_keepalive_interval w c l c.keepalive_interval
        (remove_peers (s.ep l).ep_id s.local.tlvs s) in
    if xor (s0.ep l).enabled enabled
    then log (ep_changed l enabled) (if enabled then start else stop)
    else s0

remove_tlv-ni_len : (t : Bytes) (s : State) → ni_len_of (remove_tlv t s) ≡ ni_len_of s
unfolding remove_tlv scheduled set_net log
remove_tlv-ni_len t s = ap (λ g. g.ni_len) (schedule-graph s.local.net)

if_ni_len :
    (b : Bool) (t : Bytes) (s : State) → ni_len_of (if b then remove_tlv t s else s) ≡ ni_len_of s
if_ni_len true t s = remove_tlv-ni_len t s
if_ni_len false t s = refl

if_tlvs :
    (b : Bool) (t : Bytes) (s : State)
    → (if b then remove_tlv t s else s).local.tlvs
      ≡ (if b then without_tlv t s.local.tlvs else s.local.tlvs)
unfolding remove_tlv scheduled set_net log
if_tlvs true t s = refl
if_tlvs false t s = refl

-- Disabling an endpoint removes exactly the local TLVs of the peers on it, and keeps the others in their order.
pub remove_peers-left :
    (ep_id : ℕ) (ts : List Bytes) (s : State)
    → (remove_peers ep_id ts s).local.tlvs
      ≡ keep (λ a. not (is_gone (is_peer_on (ni_len_of s) ep_id) ts a)) s.local.tlvs
unfolding remove_peers is_gone
remove_peers-left ep_id [] s = sym (keep-true _ (λ a. refl) s.local.tlvs)
remove_peers-left ep_id (t ∷ ts) s =
    let b = is_peer_on (ni_len_of s) ep_id t in
    remove_peers-left ep_id ts (if b then remove_tlv t s else s)
    ∙ (λ i. keep (λ a. not (is_gone (is_peer_on (if_ni_len b t s i) ep_id) ts a)) (if_tlvs b t s i))
    ∙ sym (not_gone (is_peer_on (ni_len_of s) ep_id) t ts s.local.tlvs)

-- What is left of a list is in it.
left_in :
    (p : Bytes → Bool) (t : Bytes) (xs : List Bytes) → Memᴰ t (keep p xs) → (p t ≡ true) × Memᴰ t xs
unfolding keep
left_in p t [] m = absurd (Memᴰ.not-nil m)
left_in p t (x ∷ xs) m = elim (Bool-cases (p x)) [
  | inl e ↦
      elim (Memᴰ.cases_cons (subst (λ b. Memᴰ t (if b then x ∷ keep p xs else keep p xs)) e m)) [
        | inl h ↦ (ap p h ∙ e, Memᴰ.head h)
        | inr h ↦ let (q, k) = left_in p t xs h in (q, Memᴰ.tail k)
      ]
  | inr e ↦
      let (q, k) =
        left_in p t xs (subst (λ b. Memᴰ t (if b then x ∷ keep p xs else keep p xs)) e m) in
      (q, Memᴰ.tail k)
]

same_tlv_refl : (t : Bytes) → same_tlv t t ≡ true
unfolding same_tlv
same_tlv_refl t = rw (same_tlv, tlv_cmp_refl t) refl

-- An expired TLV among `ts` is gone.
gone_in :
    (p : Bytes → Bool) (t : Bytes) (ts : List Bytes)
    → Memᴰ t ts
    → p t ≡ true
    → is_gone p ts t ≡ true
unfolding is_gone
gone_in p t [] m e = absurd (Memᴰ.not-nil m)
gone_in p t (x ∷ ts) m e = elim (Memᴰ.cases_cons m) [
  | inl h ↦ rw (sym h, e, same_tlv_refl t) refl
  | inr h ↦ rw (gone_in p t ts h e) (ground arith)
]

without_in : (a t : Bytes) (xs : List Bytes) → Memᴰ t (without_tlv a xs) → Memᴰ t xs
unfolding without_tlv
without_in a t [] m = m
without_in a t (x ∷ xs) m = elim (Bool-cases (same_tlv a x)) [
  | inl e ↦ Memᴰ.tail (
      without_in a t xs
        (subst (λ b. Memᴰ t (if b then without_tlv a xs else x ∷ without_tlv a xs)) e m))
  | inr e ↦
      elim (Memᴰ.cases_cons
        (subst (λ b. Memᴰ t (if b then without_tlv a xs else x ∷ without_tlv a xs)) e m)) [
          | inl h ↦ Memᴰ.head h
          | inr h ↦ Memᴰ.tail (without_in a t xs h)
        ]
]

-- The TLVs that are left by a step that adds none
abbrev NoneAdded : Bytes → State → State → Type 0
NoneAdded t s s' = Memᴰ t s'.local.tlvs → Memᴰ t s.local.tlvs

matching-NoneAdded : (a t : Bytes) (s : State) → NoneAdded t s (remove_tlv_matching a s)
unfolding remove_tlv_matching remove_tlv scheduled set_net log
matching-NoneAdded a t s =
    if_both (NoneAdded t s) (has_tlv a s.local.tlvs) (remove_tlv a s) s
      (without_in a t s.local.tlvs) (λ m. m)

default-NoneAdded :
    (w : World) (c : Conf) (l : ℕ) (t : Bytes) (s : State)
    → NoneAdded t s (set_keepalive_interval w c l c.keepalive_interval s)
unfolding set_keepalive_interval modify_ep
default-NoneAdded w c l t s =
    let old = (s.ep l).conf.published_keepalive_interval in
    rw (==_refl c.keepalive_interval) (
      if_both (NoneAdded t s) (old == c.keepalive_interval) s _ (λ m. m)
        (if_both (NoneAdded t s) (old == c.keepalive_interval) s _ (λ m. m)
          (matching-NoneAdded (keepalive_tlv (s.ep l).ep_id old) t s)))

remove_peers-gone :
    (ep_id : ℕ) (s : State) (t : Bytes)
    → Memᴰ t (remove_peers ep_id s.local.tlvs s).local.tlvs
    → is_peer_on (ni_len_of s) ep_id t ≡ false
remove_peers-gone ep_id s t m =
    let p = is_peer_on (ni_len_of s) ep_id in
    let (q, k) =
      left_in (λ a. not (is_gone p s.local.tlvs a)) t s.local.tlvs
        (subst (λ ts. Memᴰ t ts) (remove_peers-left ep_id s.local.tlvs s) m) in
    elim (Bool-cases (p t)) [ inl e ↦ absurd (cc (gone_in p t s.local.tlvs k e, q)) | inr e ↦ e ]

-- After an enabled endpoint is disabled, no local TLV is that of a peer on it.
pub ext_ep_ready-gone :
    (w : World) (c : Conf) (rand now l : ℕ) (s : State) (t : Bytes)
    → (s.ep l).enabled ≡ true
    → Memᴰ t (ext_ep_ready w c rand now l false s).local.tlvs
    → is_peer_on (ni_len_of s) (s.ep l).ep_id t ≡ false
unfolding ext_ep_ready modify_ep log xor
ext_ep_ready-gone w c rand now l s t on m =
    let s1 = modify_ep l (λ e. record e { enabled = false }) s in
    let removed = remove_peers (s1.ep l).ep_id s1.local.tlvs s1 in
    let stop = set_keepalive_interval w c l c.keepalive_interval removed in
    let same : (s1.ep l).ep_id ≡ (s.ep l).ep_id =
      if_both (λ (e : Ep). e.ep_id ≡ (s.ep l).ep_id) (l == l) _ (s.ep l) refl refl in
    let k : Memᴰ t stop.local.tlvs =
      subst (λ b. Memᴰ t (if xor b false then log (ep_changed l false) stop else s).local.tlvs) on
        m in
    sym (ap (λ i. is_peer_on (ni_len_of s) i t) same)
    ∙ remove_peers-gone (s1.ep l).ep_id s1 t (default-NoneAdded w c l t removed k)
