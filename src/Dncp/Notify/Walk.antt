-- ===== src/Dncp/Notify/Walk.antt =====
-- The walk over the TLVs of a container (src/dncp_notify.c) ends, and stays inside of it.
use hnetd.Common.{
  ℕ, zero, suc, ◌≤◌, ◌<◌, ◌≡◌, refl, sym, ◌∙◌, inl, inr, true, false, List, [], ◌∷◌, ◌++◌, arith,
  Bool-cases, length, drop, length-append, length-drop, take-append_length, drop-append_length,
}
use hnetd.Bitops.{Bytes}
use hnetd.Tlv.{tlv_pad_len}
use hnetd.Tlv.Order.{concat, AreWhole, tlv_pad_len_positive, tlv_pad_len-append}
use hnetd.Dncp.Notify.{ensure_valid, tlvs}

-- Behind a TLV that ENSURE_VALID lets pass, less memory is left.
length-rest : (p : Bytes) → ensure_valid p ≡ true → length (drop (tlv_pad_len p) p) < length p
unfolding ensure_valid
length-rest p t =
    let positive = tlv_pad_len_positive p in
    let shorter = length-drop (tlv_pad_len p) p in ground arith

empty_invalid : (p : Bytes) → length p ≤ 0 → ensure_valid p ≡ false
unfolding ensure_valid
empty_invalid p h = ground arith

-- The length of the memory is fuel enough for the walk: more fuel finds nothing more.
pub tlvs_enough : (m n : ℕ) (p : Bytes) → length p ≤ m → length p ≤ n → tlvs m p ≡ tlvs n p
unfolding tlvs
tlvs_enough zero zero p h k = refl
tlvs_enough zero (suc n) p h k = rw (empty_invalid p h) refl
tlvs_enough (suc m) zero p h k = rw (empty_invalid p k) refl
tlvs_enough (suc m) (suc n) p h k = elim (Bool-cases (ensure_valid p)) [
  | inl t ↦
      let less = length-rest p t in
      rw (t, tlvs_enough m n (drop (tlv_pad_len p) p) (omega arith) (omega arith)) refl
  | inr e ↦ rw e refl
]

whole_valid : (t p : Bytes) → length t ≡ tlv_pad_len t → ensure_valid (t ++ p) ≡ true
unfolding ensure_valid
whole_valid t p w =
    let positive = tlv_pad_len_positive t in
    let same = tlv_pad_len-append t p (omega arith) in let long = length-append t p in ground arith

-- The walk over TLVs put one after the other, each as long as it says, finds exactly these.
pub tlvs-concat :
    (fuel : ℕ) (ts : List Bytes)
    → AreWhole ts
    → length (concat ts) ≤ fuel
    → tlvs fuel (concat ts) ≡ ts
unfolding tlvs
tlvs-concat zero [] w h = refl
tlvs-concat (suc fuel) [] w h = rw (empty_invalid [] (omega arith)) refl
tlvs-concat zero (t ∷ ts) w h =
    let positive = tlv_pad_len_positive t in
    let long = length-append t (concat ts) in absurd (omega arith)
tlvs-concat (suc fuel) (t ∷ ts) w h =
    let positive = tlv_pad_len_positive t in
    let long = length-append t (concat ts) in
    let same = tlv_pad_len-append t (concat ts) (omega arith) ∙ sym w.0 in
    rw
      (
        whole_valid t (concat ts) w.0,
        same,
        take-append_length t (concat ts),
        drop-append_length t (concat ts),
        tlvs-concat fuel ts w.1 (omega arith),
      )
      refl
