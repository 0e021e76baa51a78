-- ===== src/Dncp/Index/Tests.antt =====
-- Tests of the index: the TLVs of type 8 behind one of type 4, before one of type 9.
use hnetd.Common.{ℕ, ◌≡◌, refl, ◌≢◌, true, some, List, [], ◌∷◌, arith, get_or}
use hnetd.Bitops.{Bytes}
use hnetd.Tlv.{tlv_id}
use hnetd.Dncp.Index.{Types, add_tlv_index, tlvs_with_type}
use hnetd.Dncp.Index.Finds.{Ascending}
use hnetd.Dncp.Index.Visits.{IsIndex, tlvs_with_type-of_type}
use hnetd.Dncp.Index.Added.{add_tlv_index-IsIndex}

abbrev tlv : ℕ → ℕ → Bytes
tlv t x = 0 ∷ t ∷ 0 ∷ 1 ∷ x ∷ 0 ∷ 0 ∷ 0 ∷ []

abbrev tlvs : List Bytes
tlvs = tlv 4 1 ∷ tlv 8 1 ∷ tlv 8 2 ∷ tlv 9 1 ∷ []

abbrev no_types : Types
no_types = record { index_of = []; num_indexes = 0 }

no_types-IsIndex : IsIndex no_types
no_types-IsIndex = record { distinct = λ t u n e. absurd (n refl); bounded = λ t. omega arith }

abbrev types : Types
types = add_tlv_index 4 (add_tlv_index 8 no_types)

types-IsIndex : IsIndex types
types-IsIndex =
    (add_tlv_index-IsIndex (add_tlv_index 8 no_types) 4
      ((add_tlv_index-IsIndex no_types 8 no_types-IsIndex).0)).0

tlvs-Ascending : Ascending tlvs
unfolding tlv_id
tlvs-Ascending = (
  (omega arith, (omega arith, (omega arith, tt))),
  ((omega arith, (omega arith, tt)), ((omega arith, tt), (tt, tt))),
)

has_index : get_or types.index_of 8 0 ≢ 0
unfolding add_tlv_index
has_index e = cc e

tlvs_with_type-of_type_example :
    tlvs_with_type types tlvs 8 true true ≡ some (tlv 8 1 ∷ tlv 8 2 ∷ [])
unfolding tlv_id
tlvs_with_type-of_type_example =
    tlvs_with_type-of_type types tlvs 8 true true types-IsIndex has_index tlvs-Ascending

add_tlv_index-IsIndex_example :
    let o = add_tlv_index 8 no_types in
    IsIndex o
    × (get_or o.index_of 8 0 ≢ 0)
    × ((u : ℕ) → u ≢ 8 → get_or o.index_of u 0 ≡ get_or no_types.index_of u 0)
add_tlv_index-IsIndex_example = add_tlv_index-IsIndex no_types 8 no_types-IsIndex
