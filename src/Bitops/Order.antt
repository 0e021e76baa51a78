-- ===== src/Bitops/Order.antt =====
-- The order of memories that memcmp decides (used in src/tlv.c).
use Prim.Native.Nat.{Ordering}
use hnetd.Common.{ℕ, zero, suc, ◌+◌, ◌≡◌, refl, arith}
use hnetd.Bitops.{Bytes, memcmp}

abbrev pub opposite : Ordering → Ordering
opposite Ordering.eq = Ordering.eq
opposite Ordering.lt = Ordering.gt
opposite Ordering.gt = Ordering.lt

pub memcmp_swap : (m1 m2 : Bytes) (i n : ℕ) → memcmp m2 m1 i n ≡ opposite (memcmp m1 m2 i n)
unfolding memcmp
memcmp_swap m1 m2 i zero = refl
memcmp_swap m1 m2 i (suc n) = ground (arith, memcmp_swap m1 m2 (i + 1) n)

pub memcmp_trans :
    (m1 m2 m3 : Bytes) (i n : ℕ)
    → memcmp m1 m2 i n ≡ Ordering.lt
    → memcmp m2 m3 i n ≡ Ordering.lt
    → memcmp m1 m3 i n ≡ Ordering.lt
unfolding memcmp
memcmp_trans m1 m2 m3 i zero p q = absurd (cc p)
memcmp_trans m1 m2 m3 i (suc n) p q = ground (arith, memcmp_trans m1 m2 m3 (i + 1) n)

pub memcmp-eq_left :
    (m1 m2 m3 : Bytes) (i n : ℕ)
    → memcmp m1 m2 i n ≡ Ordering.eq
    → memcmp m1 m3 i n ≡ memcmp m2 m3 i n
unfolding memcmp
memcmp-eq_left m1 m2 m3 i zero p = refl
memcmp-eq_left m1 m2 m3 i (suc n) p = ground (arith, memcmp-eq_left m1 m2 m3 (i + 1) n)
