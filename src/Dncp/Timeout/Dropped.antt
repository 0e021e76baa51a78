-- ===== src/Dncp/Timeout/Dropped.antt =====
-- Which peers a timeout drops, and when the next timeout is (`dncp_ext_timeout` in src/dncp_timeout.c).
use mathlib.Core.Path.{fun_ext, subst}
use mathlib.Core.List.{Memᴰ}
use mathlib.Core.List.Memᴰ
use hnetd.Common.{
  ℕ, ◌+◌, ◌-◌, ◌^◌, min, max, ◌<◌, some, ◌≤◌, ◌≡◌, refl, sym, ap, ◌∙◌, Bool, true, false, not, ◌&&◌,
  ◌||◌, List, [], ◌∷◌, arith, if◌then◌else◌, inl, inr, Bool-cases,
}
use hnetd.Bitops.{Bytes}
use hnetd.Dncp.Trickle.{tmin}
use hnetd.Dncp.Trickle.Schedule.{Sooner, tmin_earlier}
use hnetd.Dncp.Proto.{State, same_tlv, set_net}
use hnetd.Dncp.Proto.Receive.{World}
use hnetd.Dncp.Timeout.{Conf, Timed, within, without_tlv, run_peers}
use hnetd.Dncp.Timeout.Run.{before_peers, reschedule, ext_timeout}
use hnetd.Dncp.Timeout.Peers.{
  Verdict, valid, is_dropped, sooner, verdict, verdict_same, sooner_mono, Sooner-trans, valid_later,
  one_peer, run_peer-Turn,
}

-- The TLVs that pass a test
unfoldable pub keep : (Bytes → Bool) → List Bytes → List Bytes
keep p [] = []
keep p (a ∷ rest) = if p a then a ∷ keep p rest else keep p rest

-- Whether a TLV is one of the expired ones among `ts`.
unfoldable pub is_gone : (Bytes → Bool) → List Bytes → Bytes → Bool
is_gone expired [] a = false
is_gone expired (t ∷ ts) a = (expired t && same_tlv t a) || is_gone expired ts a

-- The earliest of `n` and the times until which the TLVs `ts` are valid
pub soonest : (Bytes → Verdict) → List Bytes → ℕ → ℕ
soonest v [] n = n
soonest v (t ∷ ts) n = soonest v ts (sooner (v t) n)

pub count_if : (Bytes → Bool) → List Bytes → ℕ
count_if p [] = 0
count_if p (t ∷ ts) = (if p t then 1 else 0) + count_if p ts

keep-without_tlv :
    (t : Bytes) (p : Bytes → Bool) (xs : List Bytes)
    → keep p (without_tlv t xs) ≡ keep (λ a. not (same_tlv t a) && p a) xs
unfolding keep without_tlv
keep-without_tlv t p [] = refl
keep-without_tlv t p (a ∷ xs) = ground (arith, keep-without_tlv t p xs)

pub keep-true : (p : Bytes → Bool) → ((a : Bytes) → p a ≡ true) → (xs : List Bytes) → keep p xs ≡ xs
unfolding keep
keep-true p h [] = refl
keep-true p h (a ∷ xs) = rw (h a) (ap (λ r. a ∷ r) (keep-true p h xs))

keep_ext :
    (p q : Bytes → Bool) → ((a : Bytes) → p a ≡ q a) → (xs : List Bytes) → keep p xs ≡ keep q xs
keep_ext p q h xs = ap (λ f. keep f xs) (fun_ext h)

-- The TLVs that are left, how many peers have been dropped, and the next event.
pub record Dropped (v : Bytes → Verdict) (ts : List Bytes) (x x' : Timed) : Type 0 where
  pub left :
      x'.state.local.tlvs
      ≡ keep (λ a. not (is_gone (λ t. is_dropped (v t)) ts a)) x.state.local.tlvs
  pub count : x'.num_neighbor_dropped ≡ count_if (λ t. is_dropped (v t)) ts + x.num_neighbor_dropped
  pub next : Sooner (soonest v ts x.next) x'.next

pub not_gone :
    (expired : Bytes → Bool) (t : Bytes) (ts : List Bytes) (xs : List Bytes)
    → keep (λ a. not (is_gone expired (t ∷ ts) a)) xs
      ≡ keep (λ a. not (is_gone expired ts a)) (if expired t then without_tlv t xs else xs)
unfolding is_gone
not_gone expired t ts xs = elim (Bool-cases (expired t)) [
  | inr e ↦ rw e refl
  | inl e ↦ rw e (
      keep_ext _ (λ a. not (same_tlv t a) && not (is_gone expired ts a)) (λ a. ground arith) xs
      ∙ sym (keep-without_tlv t (λ a. not (is_gone expired ts a)) xs))
]

soonest_mono :
    (v : Bytes → Verdict) (ts : List Bytes) (a b : ℕ)
    → Sooner a b
    → Sooner (soonest v ts a) (soonest v ts b)
unfolding soonest
soonest_mono v [] a b h = h
soonest_mono v (t ∷ ts) a b h =
    soonest_mono v ts (sooner (v t) a) (sooner (v t) b) (sooner_mono (v t) a b h)

-- The loop over the peers removes exactly the local TLVs of the peers that have been silent for too
-- long, keeps the others in their order, counts the peers that it drops, and has the next event no
-- later than the earliest time until which a peer is valid.
pub run_peers-Dropped :
    (c : Conf) (w : World) (ts : List Bytes) (x : Timed)
    → Dropped (verdict c x.state) ts x (run_peers w c ts x)
unfolding run_peers count_if is_gone soonest
run_peers-Dropped c w [] x = record {
  left = sym (keep-true _ (λ a. refl) x.state.local.tlvs);
  count = omega arith;
  next = λ p. (p, omega arith);
}
run_peers-Dropped c w (t ∷ ts) x =
    let x1 = one_peer c w t x in
    let turn = run_peer-Turn c w t x in
    let rest = run_peers-Dropped c w ts x1 in
    let same : verdict c x1.state ≡ verdict c x.state =
      fun_ext (λ a. verdict_same c x.state x1.state a turn.read) in
    record {
      left =
          rest.left
          ∙ (λ i. keep (λ a. not (is_gone (λ t. is_dropped (same i t)) ts a)) (turn.tlvs i))
          ∙ sym (not_gone (λ t. is_dropped (verdict c x.state t)) t ts x.state.local.tlvs);
      count =
          rest.count ∙ (λ i. count_if (λ t. is_dropped (same i t)) ts + turn.count i) ∙ omega arith;
      next =
          Sooner-trans _ _ _ (soonest_mono (verdict c x.state) ts _ x1.next turn.next)
            (subst (λ v. Sooner (soonest v ts x1.next) (run_peers w c ts x1).next) same rest.next);
    }

sooner_le : (v : Verdict) (n : ℕ) → 0 < n → (0 < sooner v n) × (sooner v n ≤ n)
unfolding sooner
sooner_le (valid d) n p = grind (arith, tmin_earlier n d)
sooner_le _ n p = (p, omega arith)

soonest_le :
    (v : Bytes → Verdict) (ts : List Bytes) (n : ℕ)
    → 0 < n
    → (0 < soonest v ts n) × (soonest v ts n ≤ n)
unfolding soonest
soonest_le v [] n p = (p, omega arith)
soonest_le v (t ∷ ts) n p =
    let (q, h) = sooner_le (v t) n p in
    let (q', h') = soonest_le v ts (sooner (v t) n) q in (q', omega arith)

soonest_valid :
    (v : Bytes → Verdict) (ts : List Bytes) (n : ℕ) (t : Bytes) (d : ℕ)
    → Memᴰ t ts
    → v t ≡ valid d
    → 0 < d
    → (0 < soonest v ts n) × (soonest v ts n ≤ d)
unfolding soonest sooner
soonest_valid v [] n t d m e p = absurd (Memᴰ.not-nil m)
soonest_valid v (a ∷ ts) n t d m e p = elim (Memᴰ.cases_cons m) [
  | inl h ↦
      let b : sooner (v a) n ≡ tmin n d = ap (λ u. sooner u n) (ap v (sym h) ∙ e) in
      let (_, q, _, q', _) = tmin_earlier n d in
      let (r, k) = soonest_le v ts (sooner (v a) n) (rw b (q' p)) in (r, grind (arith, b, q, k, p))
  | inr h ↦ soonest_valid v ts (sooner (v a) n) t d h e p
]

-- After the loop over the peers the next event is set, and no later than the time until which any of
-- the peers is valid.
pub run_peers_timely :
    (c : Conf) (w : World) (ts : List Bytes) (x : Timed) (t : Bytes) (d : ℕ)
    → Memᴰ t ts
    → verdict c x.state t ≡ valid d
    → (0 < (run_peers w c ts x).next) × ((run_peers w c ts x).next ≤ d)
run_peers_timely c w ts x t d i e =
    let s = run_peers-Dropped c w ts x in
    let (p, h) =
      soonest_valid (verdict c x.state) ts x.next t d i e (valid_later c x.state t d e) in
    let (q, k) = s.next p in (q, omega arith)

-- The timer that is set for an event
reschedule_timely :
    (later d : ℕ) (x : Timed)
    → 0 < x.next
    → x.next ≤ d
    → (reschedule later x).state.local.net.immediate_scheduled ≡ false
    → (k : ℕ) × ((reschedule later x).delay ≡ some k) × (k ≤ 2 ^ 16) × (later + k ≤ max later d)
unfolding reschedule
reschedule_timely later d x p h f =
    let k = min (x.next - later) (2 ^ 16) in (k, ground (arith, f, p), omega arith, omega arith)

-- If the timeout leaves no immediate one scheduled, then for each of the peers that it finds valid
-- until a time `d` it sets the timer, to no more than 2 ^ 16 ms, and to `d` or earlier if the clock,
-- which it reads again then, is not past `d`; so no peer is forgotten.
pub ext_timeout_timely :
    (w : World) (c : Conf) (version now later : ℕ) (s : State) (t : Bytes) (d : ℕ)
    → Memᴰ t (before_peers w c version now s).state.local.tlvs
    → verdict c (before_peers w c version now s).state t ≡ valid d
    → (ext_timeout w c version now later s).state.local.net.immediate_scheduled ≡ false
    → (k : ℕ) × ((ext_timeout w c version now later s).delay ≡ some k)
      × (k ≤ 2 ^ 16)
      × (later + k ≤ max later d)
unfolding ext_timeout within set_net
ext_timeout_timely w c version now later s t d i e f =
    let y = before_peers w c version now s in
    let x = run_peers w c y.state.local.tlvs y in
    let (p, h) = run_peers_timely c w y.state.local.tlvs y t d i e in
    reschedule_timely later d x p h f
