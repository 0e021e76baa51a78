-- ===== src/Tlv.antt =====
-- TLVs (src/tlv.h, src/tlv.c). A TLV is the memory from its header on: two bytes of its type, two of
-- its length, and the payload.
pub mod Order
pub mod Equal
pub mod Sort
pub mod Buf
use Prim.Native.Nat.{Ordering}
use hnetd.Common.{
  ℕ, ◌+◌, ◌-◌, ◌*◌, ◌/◌, ◌^◌, Bool, true, false, not, Option, none, some, ◌==◌, if◌then◌else◌,
}
use hnetd.Bitops.{Bytes, byte_at, memcmp}

-- `tlv_id`: the type field.
unfoldable pub tlv_id : Bytes → ℕ
tlv_id a = byte_at a 0 * 2 ^ 8 + byte_at a 1

-- `tlv_len`: the length field.
unfoldable pub tlv_len : Bytes → ℕ
tlv_len a = byte_at a 2 * 2 ^ 8 + byte_at a 3

-- `tlv_raw_len`: with the header.
unfoldable pub tlv_raw_len : Bytes → ℕ
tlv_raw_len a = tlv_len a + 4

-- `tlv_pad_len`: rounded up to TLV_ATTR_ALIGN.
unfoldable pub tlv_pad_len : Bytes → ℕ
tlv_pad_len a = (tlv_raw_len a + 4 - 1) / 4 * 4

-- `tlv_attr_cmp` of two TLVs: by their headers, then by all but the padding.
unfoldable pub tlv_cmp : Bytes → Bytes → Ordering
tlv_cmp a1 a2 = elim (memcmp a1 a2 0 4) [
  | Ordering.eq ↦ memcmp a1 a2 0 (tlv_raw_len a1)
  | Ordering.lt ↦ Ordering.lt
  | Ordering.gt ↦ Ordering.gt
]

-- `tlv_attr_cmp`, the sign of its result; `none` is a null pointer.
pub tlv_attr_cmp : Option Bytes → Option Bytes → Ordering
tlv_attr_cmp none none = Ordering.eq
tlv_attr_cmp none (some a2) = Ordering.lt
tlv_attr_cmp (some a1) none = Ordering.gt
tlv_attr_cmp (some a1) (some a2) = tlv_cmp a1 a2

-- `tlv_attr_equal`
unfoldable pub tlv_attr_equal : Option Bytes → Option Bytes → Bool
tlv_attr_equal none none = true
tlv_attr_equal none (some a2) = false
tlv_attr_equal (some a1) none = false
tlv_attr_equal (some a1) (some a2) =
    if not (tlv_pad_len a1 == tlv_pad_len a2)
    then false
    else elim (memcmp a1 a2 0 (tlv_pad_len a1)) [
      | Ordering.eq ↦ true
      | Ordering.lt ↦ false
      | Ordering.gt ↦ false
    ]
