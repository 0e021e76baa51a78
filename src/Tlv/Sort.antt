-- ===== src/Tlv/Sort.antt =====
-- `tlv_sort` (src/tlv.c). The C library's qsort is a parameter: the function of the comparison and of the
-- list.
pub mod Correct
mod Tests
use Prim.Native.Nat.{Ordering}
use hnetd.Common.{
  ℕ, zero, suc, ◌-◌, Bool, true, false, not, ◌&&◌, some, List, [], ◌∷◌, ◌++◌, leb, ◌==◌,
  if◌then◌else◌, length, take, drop, replicate,
}
use hnetd.Bitops.{Bytes}
use hnetd.Tlv.{tlv_raw_len, tlv_pad_len, tlv_attr_cmp}
use hnetd.Tlv.Order.{concat}

-- The condition of `tlv_for_each_in_buf`.
unfoldable pub in_buf : Bytes → Bool
in_buf p = leb 4 (length p) && leb 4 (tlv_raw_len p) && leb (tlv_raw_len p) (length p)

-- What `memcpy(t, a, tlv_pad_len(a))` copies; the bytes behind the end of the buffer read as 0.
pub copied : Bytes → Bytes
copied p = take (tlv_pad_len p) p ++ replicate (tlv_pad_len p - length p) 0

-- The TLVs that `tlv_for_each_in_buf` visits. As each has four bytes at least, the length of the buffer
-- is fuel enough.
pub attrs : ℕ → Bytes → List Bytes
attrs zero p = []
attrs (suc fuel) p =
    let rest = attrs fuel (drop (tlv_pad_len p) p) in if in_buf p then copied p ∷ rest else []

-- `_qsort_tlv_cmp`
pub qsort_tlv_cmp : Bytes → Bytes → Ordering
qsort_tlv_cmp t1 t2 = tlv_attr_cmp (some t1) (some t2)

-- `tlv_sort`: its result, and the data that it leaves.
pub tlv_sort : ((Bytes → Bytes → Ordering) → List Bytes → List Bytes) → Bytes → Bool × Bytes
tlv_sort qsort buf =
    let al = attrs (length buf) buf in
    let tmp = concat (qsort qsort_tlv_cmp al) in
    if leb (length al) 1
    then (true, buf)
    else if not (length tmp == length buf)
    then (false, buf)
    else (true, tmp)
