-- ===== src/Tlv/Buf.antt =====
-- Buffers of TLVs (`tlv_buf_init`, `tlv_new`, `tlv_set_raw_len` and `tlv_fill_pad` in src/tlv.c). Of a buffer
-- the outer TLV is kept, `head`: its type, its length, and the memory behind its header. Memory that is
-- needed is there.
use hnetd.Common.{ℕ, ◌+◌, ◌-◌, ◌*◌, ◌/◌, ◌%◌, ◌^◌, [], ◌∷◌, ◌++◌, length, take, replicate}
use hnetd.Bitops.{Bytes}
use hnetd.Tlv.{tlv_raw_len, tlv_pad_len}

-- `struct tlv_buf`. What was written behind the end stays in the memory.
pub record Buf : Type 0 where
  pub id : ℕ
  pub len : ℕ
  pub mem : Bytes

-- `tlv_init`: the header of a TLV, its type and its length.
unfoldable pub header : ℕ → ℕ → Bytes
header id len = id / 2 ^ 8 % 2 ^ 8 ∷ id % 2 ^ 8 ∷ len / 2 ^ 8 % 2 ^ 8 ∷ len % 2 ^ 8 ∷ []

-- `tlv_fill_pad` of a TLV.
unfoldable pub fill_pad : Bytes → Bytes
fill_pad a = take (tlv_raw_len a) a ++ replicate (tlv_pad_len a - tlv_raw_len a) 0

-- A TLV with its payload, as `tlv_new` and the copy of the payload leave it.
unfoldable pub attr : ℕ → Bytes → Bytes
attr id payload = fill_pad (header id (length payload) ++ payload)

-- `tlv_buf_init`
unfoldable pub buf_init : ℕ → Buf
buf_init id = record { id = id; len = 0; mem = [] }

-- The length of what is in the buffer, with padding (`tlv_pad_len` of the head without the header).
unfoldable pub padded : ℕ → ℕ
padded len = (len + 4 - 1) / 4 * 4

-- `tlv_new`, with the copy of the payload behind it
unfoldable pub buf_new : ℕ → Bytes → Buf → Buf
buf_new t payload b =
    let a = attr t payload in
    record b { len = (padded b.len + tlv_pad_len a) % 2 ^ 16; mem = take (padded b.len) b.mem ++ a }
