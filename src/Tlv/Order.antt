-- ===== src/Tlv/Order.antt =====
-- The order of TLVs (src/tlv.c).
use Prim.Native.Nat.{Ordering}
use hnetd.Common.{ℕ, zero, suc, ◌≤◌, ◌<◌, ◌≡◌, refl, List, [], ◌∷◌, ◌++◌, arith, length}
use hnetd.Bitops.{Bytes, byte_at, memcmp}
use hnetd.Bitops.Compare.{memcmp-eq}
use hnetd.Bitops.Order.{opposite, memcmp_swap, memcmp_trans, memcmp-eq_left}
use hnetd.Tlv.{tlv_len, tlv_raw_len, tlv_pad_len, tlv_cmp}

-- TLVs with the same header have the same length.
same_raw_len : (a b : Bytes) → memcmp a b 0 4 ≡ Ordering.eq → tlv_raw_len a ≡ tlv_raw_len b
unfolding tlv_raw_len tlv_len
same_raw_len a b e =
    let p = memcmp-eq a b 0 4 e 2 (omega arith) (omega arith) in
    let q = memcmp-eq a b 0 4 e 3 (omega arith) (omega arith) in rw (p, q) refl

pub tlv_cmp_swap : (a b : Bytes) → tlv_cmp b a ≡ opposite (tlv_cmp a b)
unfolding tlv_cmp
tlv_cmp_swap a b =
    ground (arith, memcmp_swap a b 0 4, memcmp_swap a b 0 (tlv_raw_len a), same_raw_len a b)

pub tlv_cmp-eq_left : (a b c : Bytes) → tlv_cmp a b ≡ Ordering.eq → tlv_cmp a c ≡ tlv_cmp b c
unfolding tlv_cmp
tlv_cmp-eq_left a b c e =
    ground
      (arith, memcmp-eq_left a b c 0 4, memcmp-eq_left a b c 0 (tlv_raw_len a), same_raw_len a b)

pub tlv_cmp_trans :
    (a b c : Bytes)
    → tlv_cmp a b ≡ Ordering.lt
    → tlv_cmp b c ≡ Ordering.lt
    → tlv_cmp a c ≡ Ordering.lt
unfolding tlv_cmp
tlv_cmp_trans a b c p q = ground (
  arith,
  memcmp_trans a b c 0 4,
  memcmp_trans a b c 0 (tlv_raw_len a),
  memcmp-eq_left a b c 0 4,
  same_raw_len a b,
  memcmp_swap a b 0 4,
  memcmp_swap b c 0 4,
  memcmp-eq_left c b a 0 4,
  memcmp_swap a c 0 4,
)

-- A TLV takes four bytes at least.
pub tlv_pad_len_positive : (a : Bytes) → 4 ≤ tlv_pad_len a
unfolding tlv_pad_len tlv_raw_len
tlv_pad_len_positive a = omega arith

byte_at-append : (p q : Bytes) (i : ℕ) → i < length p → byte_at (p ++ q) i ≡ byte_at p i
byte_at-append [] q i h = absurd (omega arith)
byte_at-append (x ∷ p) q zero h = refl
byte_at-append (x ∷ p) q (suc i) h = byte_at-append p q i (omega arith)

pub tlv_raw_len-append : (a q : Bytes) → 4 ≤ length a → tlv_raw_len (a ++ q) ≡ tlv_raw_len a
unfolding tlv_raw_len tlv_len
tlv_raw_len-append a q h =
    rw (byte_at-append a q 2 (omega arith), byte_at-append a q 3 (omega arith)) refl

-- The padded length holds the length, and the header.
pub tlv_raw_len-bounds : (a : Bytes) → (4 ≤ tlv_raw_len a) × (tlv_raw_len a ≤ tlv_pad_len a)
unfolding tlv_pad_len tlv_raw_len
tlv_raw_len-bounds a = (omega arith, omega arith)

-- The length of a TLV does not depend on what stands behind it.
pub tlv_pad_len-append : (a q : Bytes) → 4 ≤ length a → tlv_pad_len (a ++ q) ≡ tlv_pad_len a
unfolding tlv_pad_len
tlv_pad_len-append a q h = rw (tlv_raw_len-append a q h) refl

-- The pieces of a memory, one after the other.
abbrev pub concat : List Bytes → Bytes
concat [] = []
concat (t ∷ ts) = t ++ concat ts

-- TLVs that are as long as they say, with their padding.
abbrev pub AreWhole : List Bytes → Type 0
AreWhole [] = Unit
AreWhole (t ∷ ts) = (length t ≡ tlv_pad_len t) × AreWhole ts
