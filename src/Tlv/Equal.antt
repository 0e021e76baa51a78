-- ===== src/Tlv/Equal.antt =====
-- `tlv_attr_equal` and `tlv_attr_cmp` (src/tlv.c) of a TLV with itself.
use Prim.Native.Nat.{Ordering}
use hnetd.Common.{ℕ, zero, suc, ◌+◌, ◌≡◌, refl, true, Option, none, some, arith, ==_refl}
use hnetd.Bitops.{Bytes, memcmp}
use hnetd.Tlv.{tlv_cmp, tlv_raw_len, tlv_pad_len, tlv_attr_equal}

memcmp_refl : (m : Bytes) (i n : ℕ) → memcmp m m i n ≡ Ordering.eq
unfolding memcmp
memcmp_refl m i zero = refl
memcmp_refl m i (suc n) = ground (arith, memcmp_refl m (i + 1) n)

pub tlv_attr_equal_refl : (a : Option Bytes) → tlv_attr_equal a a ≡ true
unfolding tlv_attr_equal
tlv_attr_equal_refl none = refl
tlv_attr_equal_refl (some a) = rw (==_refl (tlv_pad_len a), memcmp_refl a 0 (tlv_pad_len a)) refl

-- What a TLV is equal to is not a null pointer.
pub some_published :
    (a : Bytes) (c : Option Bytes) → tlv_attr_equal (some a) c ≡ true → (b : Bytes) × (c ≡ some b)
unfolding tlv_attr_equal
some_published a none e = absurd (cc e)
some_published a (some b) e = (b, refl)

pub tlv_cmp_refl : (a : Bytes) → tlv_cmp a a ≡ Ordering.eq
unfolding tlv_cmp
tlv_cmp_refl a = rw (tlv_cmp, memcmp_refl a 0 4, memcmp_refl a 0 (tlv_raw_len a)) refl
