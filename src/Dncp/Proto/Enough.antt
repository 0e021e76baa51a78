-- ===== src/Dncp/Proto/Enough.antt =====
-- The fuel of the functions that put TLVs into a reply is enough (src/dncp_proto.c).
use native.Mathlib.Numerals.{towards_suc}
use hnetd.Common.{
  ℕ, zero, suc, ◌+◌, ◌-◌, ◌*◌, ◌%◌, ◌^◌, ◌≤◌, ◌<◌, ◌≡◌, refl, sym, ap, ◌∙◌, inl, inr, true, false,
  not, ◌||◌, none, some, [], ◌∷◌, arith, ltb, ◌==◌, if◌then◌else◌, ltb→lt, Bool-cases, length, take,
  drop, length-drop,
}
use hnetd.Bitops.{Bytes}
use hnetd.Tlv.{tlv_pad_len}
use hnetd.Tlv.Order.{tlv_pad_len_positive}
use hnetd.Tlv.Sort.{in_buf, copied}
use hnetd.Tlv.Buf.{Buf, buf_init}
use hnetd.Pa.State.{is_some}
use hnetd.Dncp.Graph.Flush.{if_both}
use hnetd.Dncp.Proto.{State, Reply, sent, same_tlv}
use hnetd.Dncp.Proto.Pushes.{opt_both}
use hnetd.Dncp.Proto.Push.{
  doublings, bytes_to_exp, overflows, send_full, ep_id_data, put, push_fuel, push_tlv, is_there,
  reply_send, log,
}

-- A TLV that fits into the buffer that is there needs no other call.
push_ready :
    (fuel l t : ℕ) (payload : Bytes) (s : State) (r : Reply) (b : Buf)
    → overflows b (length payload) ≡ false
    → push_fuel (suc fuel) l t payload (s, record r { buf = some b })
      ≡ (s, put t payload (record r { buf = some b }))
unfolding push_fuel send_full
push_ready fuel l t payload s r b f = rw (f, send_full) refl

-- Sending a full reply keeps what a new buffer depends on.
abbrev SameHead : ℕ → State → State → Type 0
SameHead l s s' =
    (ep_id_data l s' ≡ ep_id_data l s)
    × ((s'.ep l).maximum_unicast_size ≡ (s.ep l).maximum_unicast_size)

send_full_same : (len l : ℕ) (x : State × Reply) → SameHead l x.0 (send_full len x).0
unfolding send_full reply_send log ep_id_data
send_full_same len l (s, r) =
    let P = λ (y : State × Reply). SameHead l s y.0 in
    opt_both P r.buf (s, r) _ (refl, refl)
      (λ b.
        if_both P (overflows b len) (reply_send r s, record r { buf = none }) (s, r)
          (opt_both (SameHead l s) r.buf s
            (λ b'. log (sent r.from (some r.to) (take b'.len b'.mem)) s) (refl, refl)
            (λ b'. (refl, refl)))
          (refl, refl))

-- A new buffer of an endpoint
abbrev pub new_buf : ℕ → State → Buf
new_buf l s = buf_init (bytes_to_exp (s.ep l).maximum_unicast_size)

-- If the endpoint's id fits into a new buffer, then two calls of `_push_tlv`, one inside of the other, are all
-- that there are: more fuel changes nothing.
pub push_tlv_enough :
    (fuel l t : ℕ) (payload : Bytes) (x : State × Reply)
    → overflows (new_buf l x.0) (length (ep_id_data l x.0)) ≡ false
    → push_fuel (suc (suc fuel)) l t payload x ≡ push_tlv l t payload x
unfolding push_fuel push_tlv
push_tlv_enough fuel l t payload x h =
    let (s, r) = send_full (length payload) x in
    let (same, size) = send_full_same (length payload) l x in
    let started = record r { buf = some (new_buf l s) } in
    let fits : overflows (new_buf l s) (length (ep_id_data l s)) ≡ false =
      ap (λ (n : ℕ). overflows (buf_init (bytes_to_exp n)) (length (ep_id_data l s))) size
      ∙ ap (λ d. overflows (new_buf l x.0) (length d)) same
      ∙ h in
    let ready = λ (n : ℕ). push_ready n l 3 (ep_id_data l s) s r (new_buf l s) fits in
    let headed : push_fuel (suc fuel) l 3 (ep_id_data l s) (s, started)
        ≡ push_fuel 1 l 3 (ep_id_data l s) (s, started) =
      ready fuel ∙ sym (ready 0) in
    ap
      (λ (y : State × Reply).
        let z =
          if is_some r.buf
          then (s, r)
          else if (s.ep l).conf.unicast_is_reliable_stream
          then (s, started)
          else y in
        (z.0, put t payload z.1))
      headed

double : (i : ℕ) → 2 ^ i * 2 ≡ 2 ^ (i + 1)
double i = simp towards_suc (omega arith)

-- `_bytes_to_exp`: the loop ends at the first power of two that is not below the number of bytes.
doublings_lem :
    (fuel bytes v i : ℕ)
    → v ≡ 2 ^ i
    → 0 < v
    → v < 2 * bytes
    → bytes ≤ v + fuel
    → (bytes ≤ 2 ^ doublings fuel bytes v i) × (2 ^ doublings fuel bytes v i < 2 * bytes)
unfolding doublings
doublings_lem zero bytes v i e p l m = rw (← e) (omega arith, l)
doublings_lem (suc fuel) bytes v i e p l m = elim (Bool-cases (ltb v bytes)) [
  | inl t ↦ rw t (
      doublings_lem fuel bytes (v * 2) (i + 1) (ap (λ (n : ℕ). n * 2) e ∙ double i) (omega arith)
        (omega (arith, ltb→lt v bytes t)) (omega arith))
  | inr t ↦ rw (t, ← e) (ground arith, l)
]

suc_pow : (e : ℕ) → 2 ^ suc e ≡ 2 ^ e * 2
suc_pow e = sym (double e ∙ ap (λ (n : ℕ). 2 ^ n) (omega arith))

lt-pow : (n : ℕ) → n < 2 ^ n
lt-pow zero = omega arith
lt-pow (suc n) = omega (arith, lt-pow n, suc_pow n)

-- One less, as the type of a TLV holds it.
one_less : (e : ℕ) → e < 2 ^ 16 → (suc e + 2 ^ 16 - 1) % 2 ^ 16 ≡ e
one_less e h = omega arith

exponent :
    (d bytes : ℕ)
    → (bytes ≤ 2 ^ d) × (2 ^ d < 2 * bytes)
    → 2 ≤ bytes
    → bytes ≤ 2 ^ 16
    → (2 ^ ((d + 2 ^ 16 - 1) % 2 ^ 16) < bytes) × (bytes ≤ 2 * 2 ^ ((d + 2 ^ 16 - 1) % 2 ^ 16))
exponent zero bytes p l m = absurd (omega arith)
exponent (suc e) bytes (p, q) l m =
    let d = suc_pow e in
    let below : 2 ^ e < bytes = omega (arith, d) in
    let small : e < 2 ^ 16 = omega (arith, lt-pow e) in
    rw (one_less e small) (below, omega (arith, d))

-- The exponent of `_bytes_to_exp` is that of the largest power of two below the number of bytes.
pub bytes_to_exp_bounds :
    (bytes : ℕ)
    → 2 ≤ bytes
    → bytes ≤ 2 ^ 16
    → (2 ^ bytes_to_exp bytes < bytes) × (bytes ≤ 2 * 2 ^ bytes_to_exp bytes)
unfolding bytes_to_exp
bytes_to_exp_bounds bytes l m =
    exponent (doublings bytes bytes 1 0) bytes
      (doublings_lem bytes bytes 1 0 refl (omega arith) (omega arith) (omega arith)) l m

-- The walk of `_maybe_pop_tlv` ends within the length of the memory: any two amounts of fuel that reach it give
-- the same.
pub is_there_enough :
    (f g pos : ℕ) (p : Bytes) (last_pos : ℕ) (last : Bytes)
    → length p ≤ f
    → length p ≤ g
    → is_there f pos p last_pos last ≡ is_there g pos p last_pos last
unfolding is_there in_buf
is_there_enough zero zero pos p last_pos last h k = refl
is_there_enough zero (suc g) pos [] last_pos last h k = refl
is_there_enough zero (suc g) pos (x ∷ p) last_pos last h k = absurd (omega arith)
is_there_enough (suc f) zero pos [] last_pos last h k = refl
is_there_enough (suc f) zero pos (x ∷ p) last_pos last h k = absurd (omega arith)
is_there_enough (suc f) (suc g) pos p last_pos last h k =
    let n = tlv_pad_len p in
    ap
      (λ b.
        if not (in_buf p) || pos == last_pos
        then false
        else if same_tlv (copied p) last
        then true
        else b)
      (is_there_enough f g (pos + n) (drop n p) last_pos last
        (omega (arith, length-drop n p, tlv_pad_len_positive p))
        (omega (arith, length-drop n p, tlv_pad_len_positive p)))
