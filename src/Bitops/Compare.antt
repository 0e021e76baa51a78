-- ===== src/Bitops/Compare.antt =====
-- `bmemcmp` compares exactly the first bits.
use Prim.Native.Nat.{compare, Ordering, bit_and}
use mathlib.Core.Path.{subst}
use hnetd.Common.{
  ℕ, zero, suc, ◌+◌, ◌-◌, ◌*◌, ◌/◌, ◌%◌, ◌^◌, ◌≤◌, ◌<◌, ◌≡◌, refl, sym, ap, ◌∙◌, ◌↔◌, inl, inr,
  Bool, true, ◌&&◌, arith, dec_lt, ℕ_discrete, ltb, ◌==◌, lt→ltb, not_lt→ltb, Bool-cases,
}
use hnetd.Common.Bits.{bit, bit-bit_and, bit_ext, bit_and-le, all_below, all_below_sound}
use hnetd.Bitops.{Bytes, byte_at, memcmp, bmemcmp}
use hnetd.Bitops.Copy.{high_bit, bit_of, same_bool, same_bool→eq}

-- Every element of the memory is a byte.
abbrev pub IsBytes : Bytes → Type 0
IsBytes m = (i : ℕ) → byte_at m i < 256

-- The memories agree on their first `n` bits.
abbrev pub SameBits : Bytes → Bytes → ℕ → Type 0
SameBits m1 m2 n = (j k : ℕ) → k < 8 → 8 * j + k < n → bit_of m1 j k ≡ bit_of m2 j k

compare_refl : (a : ℕ) → compare a a ≡ Ordering.eq
compare_refl a = ground arith

compare-eq : (a b : ℕ) → compare a b ≡ Ordering.eq → a ≡ b
compare-eq a b h = ground arith

pub memcmp-eq :
    (m1 m2 : Bytes) (i n : ℕ)
    → memcmp m1 m2 i n ≡ Ordering.eq
    → (j : ℕ) → i ≤ j
    → j < i + n
    → byte_at m1 j ≡ byte_at m2 j
unfolding memcmp
memcmp-eq m1 m2 i zero h j lo hi = absurd (omega arith)
memcmp-eq m1 m2 i (suc n) h j lo hi =
    let same : byte_at m1 i ≡ byte_at m2 i = ground arith in
    let rest : memcmp m1 m2 (i + 1) n ≡ Ordering.eq = ground arith in
    elim (ℕ_discrete i j) [
      | yes e ↦ rw (← e) same
      | no e ↦ memcmp-eq m1 m2 (i + 1) n rest j (omega arith) (omega arith)
    ]

pub memcmp_same :
    (m1 m2 : Bytes) (i n : ℕ)
    → ((j : ℕ) → i ≤ j → j < i + n → byte_at m1 j ≡ byte_at m2 j)
    → memcmp m1 m2 i n ≡ Ordering.eq
unfolding memcmp
memcmp_same m1 m2 i zero h = refl
memcmp_same m1 m2 i (suc n) h =
    ground (arith, h i, memcmp_same m1 m2 (i + 1) n (λ j lo hi. h j (omega arith) (omega arith)))

-- The mask of the `r` highest bits of a byte.
abbrev tail_mask : ℕ → ℕ
tail_mask r = 0xff * 2 ^ (8 - r) % 256

tail_row : ℕ → ℕ → Bool
tail_row r k = same_bool (high_bit (tail_mask r) k) (ltb k r)

tail_table : all_below 8 (λ r. all_below 8 (tail_row r)) ≡ true
unfolding tail_row
tail_table = refl

high_bit-tail_mask : (r k : ℕ) → r < 8 → k < 8 → high_bit (tail_mask r) k ≡ ltb k r
unfolding tail_row
high_bit-tail_mask r k hr hk =
    let row = all_below_sound 8 (λ r. all_below 8 (tail_row r)) r tail_table hr in
    same_bool→eq _ _ (all_below_sound 8 (tail_row r) k row hk)

-- Bytes are equal if their bits are, counted from the highest.
byte_ext : (x y : ℕ) → x < 256 → y < 256 → ((k : ℕ) → k < 8 → high_bit x k ≡ high_bit y k) → x ≡ y
byte_ext x y hx hy h = bit_ext 8 x y hx hy (λ i hi.
    let e : 7 - (7 - i) ≡ i = omega arith in
    subst (λ (t : ℕ). bit x t ≡ bit y t) e (h (7 - i) (omega arith)))

and_true : (b : Bool) → (b && true) ≡ b
and_true b = ground arith

masked_iff :
    (x y r : ℕ)
    → x < 256
    → y < 256
    → r < 8
    → (bit_and x (tail_mask r) ≡ bit_and y (tail_mask r))
      ↔ ((k : ℕ) → k < r → high_bit x k ≡ high_bit y k)
masked_iff x y r hx hy hr = (
  λ e k hk.
      let at_k = λ (z : ℕ). bit-bit_and z (tail_mask r) (7 - k) in
      let m = high_bit-tail_mask r k hr (omega arith) ∙ lt→ltb k r hk in
      sym (at_k x ∙ ap (λ t. high_bit x k && t) m ∙ and_true (high_bit x k))
      ∙ ap (λ (t : ℕ). high_bit t k) e
      ∙ at_k y
      ∙ ap (λ t. high_bit y k && t) m
      ∙ and_true (high_bit y k),
  λ h.
      byte_ext (bit_and x (tail_mask r)) (bit_and y (tail_mask r))
        (omega (arith, bit_and-le x (tail_mask r))) (omega (arith, bit_and-le y (tail_mask r)))
        (λ k hk.
          rw (bit-bit_and x, bit-bit_and y, high_bit-tail_mask r k hr hk)
            (elim (dec_lt k r) [
              | yes p ↦ rw (h k p) refl
              | no p ↦ rw (not_lt→ltb k r p) (ground arith)
            ])),
)

module _ (m1 m2 : Bytes) (n : ℕ) (v : IsBytes m1) (w : IsBytes m2) where
  bmemcmp_sound : bmemcmp m1 m2 n ≡ Ordering.eq → SameBits m1 m2 n
  unfolding bmemcmp
  bmemcmp_sound e j k hk in_front =
      let whole : memcmp m1 m2 0 (n / 8) ≡ Ordering.eq = ground arith in
      elim (dec_lt j (n / 8)) [
        | yes p ↦
            ap (λ (t : ℕ). high_bit t k)
              (memcmp-eq m1 m2 0 (n / 8) whole j (omega arith) (omega arith))
        | no p ↦
            let last : j ≡ n / 8 = omega arith in
            let masked : bit_and (byte_at m1 (n / 8)) (tail_mask (n % 8))
                ≡ bit_and (byte_at m2 (n / 8)) (tail_mask (n % 8)) =
              ground arith in
            rw last (
              (masked_iff (byte_at m1 (n / 8)) (byte_at m2 (n / 8)) (n % 8) (v _) (w _)
                  (omega arith)).0
                masked k (omega arith))
      ]

  bmemcmp_complete : SameBits m1 m2 n → bmemcmp m1 m2 n ≡ Ordering.eq
  unfolding bmemcmp
  bmemcmp_complete h =
      let whole = memcmp_same m1 m2 0 (n / 8) (λ j lo hi.
        byte_ext (byte_at m1 j) (byte_at m2 j) (v j) (w j) (λ k hk. h j k hk (omega arith))) in
      rw (whole, bmemcmp)
        (elim (Bool-cases (n % 8 == 0)) [
          | inl exact ↦ rw exact
          | inr rest ↦
              rw
                (
                  rest,
                  (masked_iff (byte_at m1 (n / 8)) (byte_at m2 (n / 8)) (n % 8) (v _) (w _)
                        (omega arith)).1
                      (λ k hk. h (n / 8) k (omega arith) (omega arith)),
                )
                (compare_refl _)
        ])

-- `bmemcmp` returns 0 exactly if the two memories, of bytes, agree on their first `bitlen` bits.
pub bmemcmp_iff :
    (m1 m2 : Bytes) (bitlen : ℕ)
    → IsBytes m1
    → IsBytes m2
    → (bmemcmp m1 m2 bitlen ≡ Ordering.eq) ↔ SameBits m1 m2 bitlen
bmemcmp_iff m1 m2 n v w = (bmemcmp_sound m1 m2 n v w, bmemcmp_complete m1 m2 n v w)
