-- ===== src/Dncp/Notify/Tests.antt =====
-- Tests of the notifications: the TLV of type 33 changes from 1 to 2, that of type 32 stays.
use hnetd.Common.{◌≡◌, refl, true, false, Option, some, List, [], ◌∷◌, ◌++◌, arith}
use hnetd.Bitops.{Bytes, memcmp}
use hnetd.Tlv.{tlv_cmp, tlv_pad_len, tlv_raw_len, tlv_len}
use hnetd.Dncp.Notify.{
  container, tlvs, ensure_valid, removed, added, tell_each, notify_tlvs_changed,
}
use hnetd.Tlv.Order.{concat, AreWhole}
use hnetd.Dncp.Notify.Difference.{missing_from, IsSorted, notify_tlvs_changed_lem}
use hnetd.Dncp.Notify.Walk.{tlvs-concat}

abbrev kept : Bytes
kept = 0 ∷ 32 ∷ 0 ∷ 4 ∷ 7 ∷ 7 ∷ 7 ∷ 7 ∷ []

-- One byte of payload and three of padding.
abbrev first_value : Bytes
first_value = 0 ∷ 33 ∷ 0 ∷ 1 ∷ 1 ∷ 0 ∷ 0 ∷ 0 ∷ []

abbrev second_value : Bytes
second_value = 0 ∷ 33 ∷ 0 ∷ 1 ∷ 2 ∷ 0 ∷ 0 ∷ 0 ∷ []

abbrev both : List Bytes
both = kept ∷ first_value ∷ []

both-AreWhole : AreWhole both
unfolding tlv_pad_len tlv_raw_len tlv_len
both-AreWhole = (refl, (refl, tt))

tlvs-concat_example : tlvs 16 (concat both) ≡ both
tlvs-concat_example = tlvs-concat 16 both both-AreWhole (omega arith)

abbrev a_old : Option Bytes
a_old = some (concat both)

abbrev a_new : Option Bytes
a_new = some (kept ++ second_value)

notify_runs :
    notify_tlvs_changed (1 ∷ []) a_old a_new
    ≡ record { subscriber = 1; tlv = first_value; add = false }
      ∷ record { subscriber = 1; tlv = second_value; add = true }
      ∷ []
unfolding notify_tlvs_changed container tlvs ensure_valid removed added tell_each tlv_cmp
    tlv_pad_len tlv_raw_len tlv_len memcmp
notify_runs = refl

old_IsSorted : IsSorted (container a_old)
unfolding container tlvs ensure_valid tlv_cmp tlv_pad_len tlv_raw_len tlv_len memcmp
old_IsSorted = ((refl, tt), (tt, tt))

new_IsSorted : IsSorted (container a_new)
unfolding container tlvs ensure_valid tlv_cmp tlv_pad_len tlv_raw_len tlv_len memcmp
new_IsSorted = ((refl, tt), (tt, tt))

notify_tlvs_changed_lem_example :
    notify_tlvs_changed (1 ∷ []) a_old a_new
    ≡ tell_each (1 ∷ []) (missing_from (container a_new) (container a_old)) false
      ++ tell_each (1 ∷ []) (missing_from (container a_old) (container a_new)) true
notify_tlvs_changed_lem_example =
    notify_tlvs_changed_lem (1 ∷ []) a_old a_new old_IsSorted new_IsSorted
