-- ===== src/Dncp/Trickle/Schedule.antt =====
-- What one run of the Trickle and keep-alive handler sends, and when it asks to be run again.
use hnetd.Common.{
  ℕ, ◌+◌, ◌*◌, ◌≤◌, ◌<◌, ◌≡◌, ap, ◌≢◌, ◌⊎◌, inl, inr, Bool, List, [], arith, List-cases, length,
  length-append,
}
use hnetd.Dncp.Trickle.{
  Trickle, Endpoint, Sent, as_int, trickle_set_i, trickle_upgrade, trickle_send_nocheck,
  trickle_send, tmin, handle_keepalive, handle_trickle, handle_trickle_and_ka,
}
use hnetd.Dncp.Trickle.Bounds.{IsConfigured, trickle_set_i_bounds, last_sent-trickle_set_i}

-- What is known of the state between the two halves of the handler.
record Halfway (t : Trickle) (l : Endpoint) (now : ℕ) (sent : List Sent) (next : ℕ) : Type 0 where
  quiet : (sent ≢ []) → (now < t.send_time) × (now < t.interval_end_time)
  few : length sent ≤ 1
  no_deadline : l.published_keepalive_interval ≡ 0 → next ≡ 0
  deadline :
      l.published_keepalive_interval ≢ 0
      → (next ≡ t.last_sent + l.published_keepalive_interval) × (now < next)

handle_keepalive-Halfway :
    (t : Trickle) (l : Endpoint) (now rand : ℕ) (p : Bool)
    → IsConfigured l
    → let (t', sent, next) = handle_keepalive t l now rand p in Halfway t' l now sent next
unfolding handle_keepalive trickle_send_nocheck tmin
handle_keepalive-Halfway t l now rand p c =
    let t' = (trickle_send_nocheck t l now p).0 in
    record {
      quiet = ground (arith, trickle_set_i_bounds t' l now rand t'.i c);
      few = ground arith;
      no_deadline = ground arith;
      deadline = ground (arith, last_sent-trickle_set_i t' l now rand t'.i);
    }

-- What is known of the state at the end: nothing of the Trickle timer is due.
record Settled (t : Trickle) (now : ℕ) : Type 0 where
  ends_later : now < t.interval_end_time
  sends_later : (t.send_time ≡ 0) ⊎ (now < t.send_time)

handle_trickle-Settled :
    (t : Trickle) (l : Endpoint) (now rand : ℕ) (p : Bool)
    → IsConfigured l
    → Settled (handle_trickle t l now rand p).0 now
unfolding handle_trickle trickle_upgrade trickle_send trickle_send_nocheck
handle_trickle-Settled t l now rand p c =
    ground (arith, trickle_set_i_bounds t l now rand (as_int (t.i * 2)) c)

handle_trickle_sent :
    (t : Trickle) (l : Endpoint) (now rand : ℕ) (p : Bool)
    → t.last_sent ≤ now
    → let (t', sent) = handle_trickle t l now rand p in
      (length sent ≤ 1)
      × (t'.num_sent ≡ t.num_sent + length sent)
      × (t.last_sent ≤ t'.last_sent)
      × (now < t.send_time → now < t.interval_end_time → sent ≡ [])
unfolding handle_trickle trickle_upgrade trickle_set_i trickle_send trickle_send_nocheck
handle_trickle_sent t l now rand p before = ground arith

handle_keepalive_sent :
    (t : Trickle) (l : Endpoint) (now rand : ℕ) (p : Bool)
    → t.last_sent ≤ now
    → let (t', sent, next) = handle_keepalive t l now rand p in
      (t'.num_sent ≡ t.num_sent + length sent) × (t'.last_sent ≤ now)
unfolding handle_keepalive trickle_set_i trickle_send_nocheck
handle_keepalive_sent t l now rand p before = ground arith

pub tmin_earlier :
    (x y : ℕ)
    → ((x ≡ 0) ⊎ (tmin x y ≤ x))
      × ((y ≡ 0) ⊎ (tmin x y ≤ y))
      × ((tmin x y ≡ x) ⊎ (tmin x y ≡ y))
      × (0 < y → 0 < tmin x y)
      × (0 < x → 0 < tmin x y)
unfolding tmin
tmin_earlier x y = ground arith

-- `b` is no later than `a`, if `a` is a time.
abbrev pub Sooner : ℕ → ℕ → Type 0
Sooner a b = 0 < a → (0 < b) × (b ≤ a)

pub tmin-Sooner : (a d : ℕ) → Sooner a (tmin a d)
unfolding tmin
tmin-Sooner a d = ground arith

pub tmin_mono : (a b d : ℕ) → Sooner a b → Sooner (tmin a d) (tmin b d)
unfolding tmin
tmin_mono a b d h = ground (arith, h)

-- One run of the handler sends at most one message, whatever is due, and counts what it sends, if
-- the endpoint is configured and the last message was not sent in the future.
pub handle_trickle_and_ka_sends :
    (t : Trickle) (l : Endpoint) (now rand rand' : ℕ) (p : Bool)
    → IsConfigured l
    → t.last_sent ≤ now
    → let (t', sent, next) = handle_trickle_and_ka t l now rand rand' p in
      (length sent ≤ 1) × (t'.num_sent ≡ t.num_sent + length sent)
unfolding handle_trickle_and_ka
handle_trickle_and_ka_sends t l now rand rand' p c before =
    let (t', sent, next) = handle_keepalive t l now rand p in
    let half = handle_keepalive-Halfway t l now rand p c in
    let kept = handle_keepalive_sent t l now rand p before in
    let sends = handle_trickle_sent t' l now rand' p kept.1 in
    let sent' = (handle_trickle t' l now rand' p).1 in
    elim (List-cases sent) [
      | inl e ↦ ground (arith, length-append sent sent', ap length e)
      | inr (m, rest, e) ↦
          let q = half.quiet (λ n. ground arith) in
          ground (arith, length-append sent sent', ap length (sends.3 q.0 q.1))
    ]

-- The handler asks to be run again strictly later, and no later than the next event of the timer:
-- the end of the interval, the send time if there is one, and the next keep-alive if keep-alives
-- are published. The endpoint is configured, and the last message was not sent in the future.
pub handle_trickle_and_ka_next :
    (t : Trickle) (l : Endpoint) (now rand rand' : ℕ) (p : Bool)
    → IsConfigured l
    → t.last_sent ≤ now
    → let (t', sent, next) = handle_trickle_and_ka t l now rand rand' p in
      (now < next)
      × (next ≤ t'.interval_end_time)
      × ((t'.send_time ≡ 0) ⊎ (next ≤ t'.send_time))
      × ((l.published_keepalive_interval ≡ 0)
          ⊎ (next ≤ t'.last_sent + l.published_keepalive_interval))
unfolding handle_trickle_and_ka
handle_trickle_and_ka_next t l now rand rand' p c before =
    let (t', sent, next) = handle_keepalive t l now rand p in
    let t'' = (handle_trickle t' l now rand' p).0 in
    let half = handle_keepalive-Halfway t l now rand p c in
    let kept = handle_keepalive_sent t l now rand p before in
    let sends = handle_trickle_sent t' l now rand' p kept.1 in
    let settled = handle_trickle-Settled t' l now rand' p c in
    ground (
      arith,
      tmin_earlier next t''.interval_end_time,
      tmin_earlier (tmin next t''.interval_end_time) t''.send_time,
    )
