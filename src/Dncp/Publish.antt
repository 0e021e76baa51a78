-- ===== src/Dncp/Publish.antt =====
-- How the node publishes its own TLVs (`_produce_new_tlvs` and `dncp_self_flush` in src/dncp.c).
pub mod Sync
pub mod Number
mod Tests
use hnetd.Common.{
  ℕ, zero, suc, ◌+◌, ◌-◌, ◌*◌, ◌/◌, ◌%◌, ◌^◌, ◌≤◌, ◌<◌, min, max, ◌≡◌, refl, sym, ap, ◌∙◌, ◌≢◌, ◌↔◌,
  ◌⊎◌, inl, inr, Bool, true, false, not, ◌&&◌, ◌||◌, Option, none, some, List, [], ◌∷◌, ◌++◌, map,
  arith, dec_lt, ℕ_discrete, ltb, leb, ◌==◌, if◌then◌else◌, ltb→lt, lt→ltb, leb→le, not_lt→ltb,
  ==_refl, ne→==, le→leb, ==_iff, Bool-cases, Option-cases, List-cases, length, get_elem?, get_or,
  take, drop, replicate, length-append, length-take, length-drop, length-replicate,
  take-append_length, drop-append_length, set, length-set, get_or-set_self, get_or-set_ne,
}
use hnetd.Bitops.{Bytes}
use hnetd.Tlv.{tlv_attr_equal}
use hnetd.Tlv.Buf.{fill_pad}
use hnetd.Pa.State.{is_some}
use hnetd.Dncp.Graph.{Net, node_set}

-- `struct dncp_struct` with the own node, and the TLVs of the vlist `tlvs`, in its order.
pub record Local : Type 0 where
  pub net : Net
  pub own : ℕ
  pub tlvs : List Bytes
  pub tlvs_dirty : Bool
  pub republish_tlvs : Bool

-- What the subscribers and the memory do: the TLVs that the callbacks leave, if they change any, and
-- whether the memory suffices for the first and for the second buffer.
pub record Outside : Type 0 where
  pub callback : List Bytes → Option (List Bytes)
  pub first_fits : Bool
  pub second_fits : Bool

unfoldable pub packed_data : List Bytes → Bytes
packed_data [] = []
packed_data (a ∷ rest) = fill_pad a ++ packed_data rest

-- The buffer of `_produce_new_tlvs`: a TLV of type 0 around the local ones.
unfoldable pub packed : List Bytes → Bytes
packed tlvs =
    let inner = packed_data tlvs in
    0 ∷ 0 ∷ length inner / 2 ^ 8 % 2 ^ 8 ∷ length inner % 2 ^ 8 ∷ inner

unfoldable pub own_container : Local → Option Bytes
own_container s = (s.net.graph.node s.own).tlv_container

-- `_produce_new_tlvs`
unfoldable pub produce_new_tlvs : Bool → Local → Option Bytes × Local
produce_new_tlvs fits s =
    let a = packed s.tlvs in
    let clean = record s { tlvs_dirty = false } in
    if not s.tlvs_dirty || not fits
    then (none, s)
    else if tlv_attr_equal (some a) (own_container s)
    then (none, clean)
    else (some a, clean)

-- The callbacks of `dncp_notify_subscribers_about_to_republish_tlvs`, which may change the local TLVs.
unfoldable pub republish : Outside → Local → Local
republish out s = elim (out.callback s.tlvs) [
  | none ↦ s
  | some tlvs ↦ record s { tlvs = tlvs; tlvs_dirty = true }
]

-- The last part of `dncp_self_flush`. Without new TLVs the container is published again.
unfoldable pub publish_tlvs : (ℕ → Bytes → Bool) → Option Bytes → Local → Local
publish_tlvs validates a s =
    let n = s.net.graph.node s.own in
    let published : Option Bytes = elim a [ none ↦ n.tlv_container | some b ↦ some b ] in
    record s {
      net = node_set validates s.own ((n.update_number + 1) % 2 ^ 32) s.net.now published s.net;
    }

-- `dncp_self_flush` after the first buffer, which is `a`
unfoldable pub flush_rest : (ℕ → Bytes → Bool) → Outside → Option Bytes → Local → Local
flush_rest validates out a s1 =
    let s2 = record (republish out s1) { republish_tlvs = false } in
    let (a2, s3) = produce_new_tlvs out.second_fits s2 in
    let chosen : Option Bytes = elim a2 [ none ↦ a | some b ↦ some b ] in
    publish_tlvs validates chosen s3

-- `dncp_self_flush`
unfoldable pub self_flush : (ℕ → Bytes → Bool) → Outside → Local → Local
self_flush validates out s =
    let (a, s1) = produce_new_tlvs out.first_fits s in
    if not (is_some a) && not s1.republish_tlvs then s1 else flush_rest validates out a s1
