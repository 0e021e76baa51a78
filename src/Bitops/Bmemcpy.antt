-- ===== src/Bitops/Bmemcpy.antt =====
-- The whole of `bmemcpy`: its three parts meet without a gap.
use hnetd.Common.{
  ℕ, ◌+◌, ◌-◌, ◌*◌, ◌/◌, ◌%◌, ◌≤◌, ◌<◌, ◌≡◌, refl, inl, inr, arith, ◌==◌, Bool-cases, length,
}
use hnetd.Bitops.{Bytes, memcpy, copy_head, bmemcpy}
use hnetd.Bitops.Copy.{
  Copied, Copied-nil, Copied-append, Copied-bounds, copy_byte-Copied, memcpy-Copied,
}

copy_head-Copied :
    (dst src : Bytes) (f to : ℕ)
    → f / 8 < to
    → to ≤ length dst
    → let (m, first, whole) = copy_head dst src (f / 8) (f % 8) (to - f / 8) in
      Copied m dst src f (8 * first) × (first + whole ≡ to) × (f ≤ 8 * first)
unfolding copy_head
copy_head-Copied dst src f to across fits = elim (Bool-cases (f % 8 == 0)) [
  | inl aligned ↦ rw aligned (
    Copied-bounds f (8 * (f / 8)) (ground arith) refl (Copied-nil dst src (8 * (f / 8))),
    omega arith,
    ground arith,
  )
  | inr unaligned ↦ rw unaligned (
    Copied-bounds f (8 * (f / 8 + 1)) (omega arith) (omega arith) (
        copy_byte-Copied dst src (f / 8) (f % 8) (8 - f % 8) (omega arith) (omega arith)
          (omega arith)),
    omega arith,
    omega arith,
  )
]

whole-Copied :
    (dst src : Bytes) (f to : ℕ)
    → f / 8 < to
    → to ≤ length dst
    → let (m, first, whole) = copy_head dst src (f / 8) (f % 8) (to - f / 8) in
      Copied (memcpy m src first whole) dst src f (8 * to) × (first + whole ≡ to)
whole-Copied dst src f to across fits =
    let (m, first, whole) = copy_head dst src (f / 8) (f % 8) (to - f / 8) in
    let (head, ends, before) = copy_head-Copied dst src f to across fits in
    let body = memcpy-Copied m src first whole (omega (arith, head.size)) in
    (
      Copied-append _ m dst src f (8 * first) (8 * to) before (omega arith) head
          (Copied-bounds (8 * first) (8 * to) refl (omega arith) body),
      ends,
    )

-- `bmemcpy(dst, src, frombit, nbits)` takes the bits from `frombit` up to `frombit + nbits` from the
-- source and leaves every other bit and the length of the destination as they are, if the copied
-- bits and the first byte lie in the destination.
pub bmemcpy-Copied :
    (dst src : Bytes) (frombit nbits : ℕ)
    → frombit / 8 < length dst
    → frombit + nbits ≤ 8 * length dst
    → Copied (bmemcpy dst src frombit nbits) dst src frombit (frombit + nbits)
unfolding bmemcpy
bmemcpy-Copied dst src f n in_memory fits =
    let to = (f + n) / 8 in
    elim (Bool-cases (to - f / 8 == 0)) [
      | inl inside ↦ rw inside (
          Copied-bounds f (f + n) (omega arith) (omega arith)
            (copy_byte-Copied dst src (f / 8) (f % 8) n in_memory (omega arith) (ground arith)))
      | inr across ↦
          let (body, ends) = whole-Copied dst src f to (ground arith) (omega arith) in
          rw across (elim (Bool-cases ((f + n) % 8 == 0)) [
            | inl exact ↦ rw exact (Copied-bounds f (f + n) refl (ground arith) body)
            | inr rest ↦
                rw (rest, ends)
                  (Copied-append _ _ dst src f (8 * to) (f + n) (ground arith) (omega arith) body (
                    Copied-bounds (8 * to) (f + n) (omega arith) (omega arith) (
                      copy_byte-Copied _ src to 0 ((f + n) % 8) (ground (arith, body.size))
                        (omega arith) (omega arith))))
          ])
    ]
