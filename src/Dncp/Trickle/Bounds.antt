-- ===== src/Dncp/Trickle/Bounds.antt =====
-- The bounds of the Trickle interval and of the times that a timer holds.
use hnetd.Common.{ℕ, zero, suc, ◌+◌, ◌*◌, ◌/◌, ◌^◌, ◌≤◌, ◌<◌, min, ◌≡◌, refl, ap, Bool, arith}
use native.Mathlib.Nat.{pow-suc}
use hnetd.Dncp.Trickle.{
  Trickle, Endpoint, as_int, trickle_set_i, trickle_upgrade, trickle_send_nocheck, trickle_send,
  handle_keepalive, handle_trickle, handle_trickle_and_ka,
}

-- What the source needs of a configuration: i / 2 is no zero divisor, and i * 2 fits an int.
pub record IsConfigured (l : Endpoint) : Type 0 where
  pub positive : 2 ≤ l.trickle_imin
  pub ordered : l.trickle_imin ≤ l.trickle_imax
  pub fits : l.trickle_imax < 2 ^ 30

-- A number that fits an int is not changed.
pub as_int_small : (n : ℕ) → n < 2 ^ 31 → as_int n ≡ n
unfolding as_int
as_int_small n h = ground arith

-- The invariant of a running timer at time `now`.
pub record IsRunning (t : Trickle) (l : Endpoint) (now : ℕ) : Type 0 where
  pub lower : l.trickle_imin ≤ t.i
  pub upper : t.i ≤ l.trickle_imax
  pub sends_inside : t.send_time < t.interval_end_time
  pub ends_soon : t.interval_end_time ≤ now + t.i
  pub sent_before : t.last_sent ≤ now

-- After `trickle_set_i` on a configured endpoint the interval is within its bounds, the timer sends in
-- the second half of the interval, and the counter is zero.
pub trickle_set_i_bounds :
    (t : Trickle) (l : Endpoint) (now rand i : ℕ)
    → IsConfigured l
    → let t' = trickle_set_i t l now rand i in
      (l.trickle_imin ≤ t'.i)
      × (t'.i ≤ l.trickle_imax)
      × (now + t'.i / 2 ≤ t'.send_time)
      × (t'.send_time < t'.interval_end_time)
      × (t'.interval_end_time ≡ now + t'.i)
      × (t'.c ≡ 0)
unfolding trickle_set_i
trickle_set_i_bounds t l now rand i h =
    rw (as_int_small l.trickle_imin (omega arith), as_int_small l.trickle_imax (omega arith))
      (ground arith)

pub last_sent-trickle_set_i :
    (t : Trickle) (l : Endpoint) (now rand i : ℕ)
    → (trickle_set_i t l now rand i).last_sent ≡ t.last_sent
unfolding trickle_set_i
last_sent-trickle_set_i t l now rand i = refl

pub trickle_send_nocheck-IsRunning :
    {t : Trickle} {l : Endpoint} {now : ℕ} (p : Bool)
    → IsRunning t l now
    → IsRunning (trickle_send_nocheck t l now p).0 l now
unfolding trickle_send_nocheck
trickle_send_nocheck-IsRunning p v = ground arith

pub trickle_set_i-IsRunning :
    {t : Trickle} {l : Endpoint} {now : ℕ} (rand i : ℕ)
    → IsConfigured l
    → IsRunning t l now
    → IsRunning (trickle_set_i t l now rand i) l now
trickle_set_i-IsRunning {t} {l} {now} rand i c v =
    ground (arith, trickle_set_i_bounds t l now rand i c, last_sent-trickle_set_i t l now rand i)

handle_keepalive-IsRunning :
    {t : Trickle} {l : Endpoint} {now : ℕ} (rand : ℕ) (p : Bool)
    → IsConfigured l
    → IsRunning t l now
    → IsRunning (handle_keepalive t l now rand p).0 l now
unfolding handle_keepalive
handle_keepalive-IsRunning {t} {l} {now} rand p c v =
    let (t', m) = trickle_send_nocheck t l now p in
    ground (arith, trickle_set_i-IsRunning rand t'.i c (trickle_send_nocheck-IsRunning p v))

handle_trickle-IsRunning :
    {t : Trickle} {l : Endpoint} {now : ℕ} (rand : ℕ) (p : Bool)
    → IsConfigured l
    → IsRunning t l now
    → IsRunning (handle_trickle t l now rand p).0 l now
unfolding handle_trickle trickle_upgrade trickle_send
handle_trickle-IsRunning {t} {l} {now} rand p c v =
    ground (
      arith,
      trickle_set_i-IsRunning rand (as_int (t.i * 2)) c v,
      trickle_send_nocheck-IsRunning p v,
    )

-- A run of the handler on a configured endpoint keeps a running timer running.
pub handle_trickle_and_ka-IsRunning :
    {t : Trickle} {l : Endpoint} {now : ℕ} (rand rand' : ℕ) (p : Bool)
    → IsConfigured l
    → IsRunning t l now
    → IsRunning (handle_trickle_and_ka t l now rand rand' p).0 l now
unfolding handle_trickle_and_ka
handle_trickle_and_ka-IsRunning rand rand' p c v =
    handle_trickle-IsRunning rand' p c (handle_keepalive-IsRunning rand p c v)

-- `n` expiries of the interval in a row, at the times and with the random numbers of `at`.
pub upgrades : ℕ → (ℕ → ℕ × ℕ) → Endpoint → Trickle → Trickle
upgrades zero at l t = t
upgrades (suc n) at l t = let t' = upgrades n at l t in trickle_upgrade t' l (at n).0 (at n).1

i-trickle_upgrade :
    (t : Trickle) (l : Endpoint) (now rand : ℕ)
    → IsConfigured l
    → l.trickle_imin ≤ t.i
    → t.i ≤ l.trickle_imax
    → (trickle_upgrade t l now rand).i ≡ min l.trickle_imax (t.i * 2)
unfolding trickle_upgrade trickle_set_i
i-trickle_upgrade t l now rand c lo hi =
    rw
      (
        as_int_small l.trickle_imin (omega arith),
        as_int_small l.trickle_imax (omega arith),
        as_int_small (t.i * 2) (omega arith),
      )
      (ground arith)

-- On a configured endpoint the interval doubles with each expiry up to its maximum: after `n` expiries
-- it is the smaller of the maximum and 2 ^ n times what it was, and within its bounds, if it was within
-- its bounds.
pub upgrades_double :
    (n : ℕ) (at : ℕ → ℕ × ℕ) (l : Endpoint) (t : Trickle)
    → IsConfigured l
    → l.trickle_imin ≤ t.i
    → t.i ≤ l.trickle_imax
    → ((upgrades n at l t).i ≡ min l.trickle_imax (t.i * 2 ^ n))
      × (l.trickle_imin ≤ (upgrades n at l t).i)
unfolding upgrades
upgrades_double zero at l t c lo hi = (omega arith, lo)
upgrades_double (suc n) at l t c lo hi =
    let (e, low) = upgrades_double n at l t c lo hi in
    let u = i-trickle_upgrade (upgrades n at l t) l (at n).0 (at n).1 c low (omega arith) in
    (omega (arith, u, e, ap (λ (k : ℕ). t.i * k) (pow-suc 2 n)), omega (arith, u, low))
