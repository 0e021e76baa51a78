-- ===== src/Bitops.antt =====
-- Copying and comparing memory by bits (src/bitops.c). Memory is a list of bytes, and an address is
-- an index; bit 0 is the highest bit of byte 0.
pub mod Hex
pub mod Copy
pub mod Bmemcpy
pub mod Compare
pub mod Order
mod Tests
use Prim.Native.Nat.{compare, Ordering, bit_and, bit_or, bit_xor}
use hnetd.Common.{
  ℕ, zero, suc, ◌+◌, ◌-◌, ◌*◌, ◌/◌, ◌%◌, ◌^◌, List, [], ◌∷◌, ◌==◌, if◌then◌else◌, get_or, set,
}

abbrev pub Bytes : Type 0
Bytes = List ℕ

-- A read out of bounds is 0 in the model. The theorems keep to reads inside the memory.
abbrev pub byte_at : Bytes → ℕ → ℕ
byte_at m i = get_or m i 0

bbytecpy_masks : Bytes
bbytecpy_masks = 0x00 ∷ 0x80 ∷ 0xc0 ∷ 0xe0 ∷ 0xf0 ∷ 0xf8 ∷ 0xfc ∷ 0xfe ∷ 0xff ∷ []

-- The mask of `nbits` bits from bit `frombit` of a byte on.
pub byte_mask : ℕ → ℕ → ℕ
unfolding bbytecpy_masks
byte_mask frombit nbits = byte_at bbytecpy_masks nbits / 2 ^ frombit

-- The byte that `bbytecpy` leaves in `*dst`.
pub bbytecpy : ℕ → ℕ → ℕ → ℕ → ℕ
bbytecpy dst src frombit nbits =
    let mask = byte_mask frombit nbits in
    bit_or (bit_and dst (bit_xor mask 0xff)) (bit_and src mask)

-- `bbytecpy(dst + i, src + i, frombit, nbits)`
pub copy_byte : Bytes → Bytes → ℕ → ℕ → ℕ → Bytes
copy_byte dst src i frombit nbits =
    set dst i (bbytecpy (byte_at dst i) (byte_at src i) frombit nbits)

-- `memcpy(dst + i, src + i, n)`
pub memcpy : Bytes → Bytes → ℕ → ℕ → Bytes
memcpy dst src i zero = dst
memcpy dst src i (suc n) = memcpy (set dst i (byte_at src i)) src (i + 1) n

-- The head of the copy: the rest of the first byte, if the copy starts inside it. With the memory
-- come the first whole byte and the number of whole bytes.
pub copy_head : Bytes → Bytes → ℕ → ℕ → ℕ → Bytes × ℕ × ℕ
copy_head dst src frombyte frombitrem nbyte =
    if frombitrem == 0
    then (dst, frombyte, nbyte)
    else (copy_byte dst src frombyte frombitrem (8 - frombitrem), frombyte + 1, nbyte - 1)

pub bmemcpy : Bytes → Bytes → ℕ → ℕ → Bytes
bmemcpy dst src frombit nbits =
    let tobit = frombit + nbits in
    let frombyte = frombit / 8 in
    let nbyte = tobit / 8 - frombyte in
    let frombitrem = frombit % 8 in
    let tobitrem = tobit % 8 in
    let (dst', first, whole) = copy_head dst src frombyte frombitrem nbyte in
    let copied = memcpy dst' src first whole in
    if nbyte == 0
    then copy_byte dst src frombyte frombitrem nbits
    else if tobitrem == 0
    then copied
    else copy_byte copied src (first + whole) 0 tobitrem

-- `memcmp(m1 + i, m2 + i, n)`: the sign of its result, which is all that the callers read.
unfoldable pub memcmp : Bytes → Bytes → ℕ → ℕ → Ordering
memcmp m1 m2 i zero = Ordering.eq
memcmp m1 m2 i (suc n) = elim (compare (byte_at m1 i) (byte_at m2 i)) [
  | Ordering.eq ↦ memcmp m1 m2 (i + 1) n
  | Ordering.lt ↦ Ordering.lt
  | Ordering.gt ↦ Ordering.gt
]

-- The sign of what `bmemcmp` returns.
unfoldable pub bmemcmp : Bytes → Bytes → ℕ → Ordering
bmemcmp m1 m2 bitlen =
    let bytes = bitlen / 8 in
    let rembit = bitlen % 8 in
    let mask = 0xff * 2 ^ (8 - rembit) % 256 in
    elim (memcmp m1 m2 0 bytes) [
      | Ordering.eq ↦
          if rembit == 0
          then Ordering.eq
          else compare (bit_and (byte_at m1 bytes) mask) (bit_and (byte_at m2 bytes) mask)
      | Ordering.lt ↦ Ordering.lt
      | Ordering.gt ↦ Ordering.gt
    ]
