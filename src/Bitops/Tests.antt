-- ===== src/Bitops/Tests.antt =====
-- Tests of the bit operations.
use Prim.Native.Nat.{Ordering}
use hnetd.Common.{zero, suc, ◌≡◌, refl, ◌↔◌, [], ◌∷◌, arith}
use hnetd.Bitops.{
  memcmp, Bytes, bmemcpy, bmemcmp, copy_byte, memcpy, copy_head, bbytecpy, byte_mask,
}
use hnetd.Bitops.Copy.{Copied}
use hnetd.Bitops.Bmemcpy.{bmemcpy-Copied}
use hnetd.Bitops.Compare.{IsBytes, SameBits, bmemcmp_iff}

abbrev ones : Bytes
ones = 0xff ∷ 0xff ∷ 0xff ∷ []

abbrev pattern_bytes : Bytes
pattern_bytes = 0x12 ∷ 0x34 ∷ 0x56 ∷ []

abbrev tail_differs : Bytes
tail_differs = 0x12 ∷ 0x3b ∷ 0x00 ∷ []

-- Bits 4 to 19 of the pattern over ones.
bmemcpy_runs : bmemcpy ones pattern_bytes 4 16 ≡ 0xf2 ∷ 0x34 ∷ 0x5f ∷ []
unfolding bmemcpy copy_byte memcpy copy_head bbytecpy byte_mask
bmemcpy_runs = refl

bmemcmp_runs :
    (bmemcmp pattern_bytes tail_differs 12 ≡ Ordering.eq)
    × (bmemcmp pattern_bytes tail_differs 13 ≡ Ordering.lt)
unfolding bmemcmp memcmp
bmemcmp_runs = (refl, refl)

bmemcpy-Copied_example : Copied (bmemcpy ones pattern_bytes 4 16) ones pattern_bytes 4 20
bmemcpy-Copied_example = bmemcpy-Copied ones pattern_bytes 4 16 (omega arith) (omega arith)

pattern_IsBytes : IsBytes pattern_bytes
pattern_IsBytes zero = omega arith
pattern_IsBytes (suc zero) = omega arith
pattern_IsBytes (suc (suc zero)) = omega arith
pattern_IsBytes (suc (suc (suc i))) = omega arith

tail_IsBytes : IsBytes tail_differs
tail_IsBytes zero = omega arith
tail_IsBytes (suc zero) = omega arith
tail_IsBytes (suc (suc zero)) = omega arith
tail_IsBytes (suc (suc (suc i))) = omega arith

bmemcmp_iff_example :
    (bmemcmp pattern_bytes tail_differs 12 ≡ Ordering.eq) ↔ SameBits pattern_bytes tail_differs 12
bmemcmp_iff_example = bmemcmp_iff pattern_bytes tail_differs 12 pattern_IsBytes tail_IsBytes
