-- ===== src/Dncp/Index.antt =====
-- The index of a node's TLVs by their types (`dncp_add_tlv_index`, `dncp_node_recalculate_index` and
-- `dncp_node_get_tlv_with_type` in src/dncp.c). A pointer to a TLV of the node is its place in the list of the
-- node's TLVs.
pub mod Steps
pub mod Finds
pub mod Visits
pub mod Added
mod Tests
use hnetd.Common.{
  ℕ, ◌+◌, ◌-◌, ◌*◌, Bool, true, false, not, ◌&&◌, Option, none, some, List, [], ◌∷◌, ◌++◌, ltb, leb,
  ◌==◌, if◌then◌else◌, length, get_or, drop, replicate, set,
}
use hnetd.Bitops.{Bytes}
use hnetd.Tlv.{tlv_id}

-- `tlv_type_to_index` and `num_tlv_indexes`. An index of 0 is none.
pub record Types : Type 0 where
  pub index_of : List ℕ
  pub num_indexes : ℕ

-- `dncp_add_tlv_index`, when `realloc` does not fail. The indexes of the nodes are recalculated.
pub add_tlv_index : ℕ → Types → Types
add_tlv_index t o =
    let grown =
      if ltb t (length o.index_of)
      then o.index_of
      else o.index_of ++ replicate (t + 1 - length o.index_of) 0 in
    if not (get_or o.index_of t 0 == 0)
    then o
    else record { index_of = set grown t (o.num_indexes + 1); num_indexes = o.num_indexes + 1 }

-- The variables of `dncp_node_recalculate_index`: the type of the TLV before, its index, and the slots
-- of `tlv_index`.
pub record Scan : Type 0 where
  pub type : Option ℕ
  pub idx : ℕ
  pub slots : ℕ → Option ℕ

unfoldable pub put : ℕ → ℕ → (ℕ → Option ℕ) → ℕ → Option ℕ
put j v slots k = if k == j then some v else slots k

pub is_type : ℕ → Option ℕ → Bool
is_type t none = false
is_type t (some u) = t == u

-- The first half of the loop, for another type than the one before.
unfoldable pub entered : List ℕ → ℕ → ℕ → Scan → Scan
unfolding put
entered index_of pos t s =
    let i = get_or index_of t 0 in
    record {
      type = some t;
      idx = i;
      slots = if i == 0 then s.slots else put (2 * i - 2) pos s.slots;
    }

-- Its second half.
unfoldable pub mark_next : ℕ → Scan → Scan
unfolding put
mark_next pos s = record s {
  slots = if s.idx == 0 then s.slots else put (2 * s.idx - 1) (pos + 1) s.slots;
}

-- The loop on a TLV of type `t` at `pos`, until the `break`.
pub turn : List ℕ → ℕ → ℕ → Scan → Option Scan
turn index_of pos t s =
    if is_type t s.type
    then some (mark_next pos s)
    else if leb (length index_of) t
    then none
    else some (mark_next pos (entered index_of pos t s))

pub scan_tlvs : List ℕ → List Bytes → ℕ → Scan → Scan
scan_tlvs index_of [] pos s = s
scan_tlvs index_of (a ∷ rest) pos s = elim (turn index_of pos (tlv_id a) s) [
  | none ↦ s
  | some s' ↦ scan_tlvs index_of rest (pos + 1) s'
]

-- `dncp_node_recalculate_index`. `valid` says whether `tlv_container_valid` is `tlv_container`; if not, it
-- is a null pointer.
pub recalculate_index : Types → List Bytes → Bool → ℕ → Option ℕ
recalculate_index o tlvs valid k =
    let first_half =
      (scan_tlvs o.index_of tlvs 0 (record { type = none; idx = 0; slots = λ _. none })).slots in
    if valid && leb (2 * o.num_indexes) k then first_half (k - 2 * o.num_indexes) else first_half k

-- `dncp_node_get_tlv_with_type`, of a type that has an index
pub get_tlv_with_type : Types → (ℕ → Option ℕ) → ℕ → Bool → Bool → Option ℕ
get_tlv_with_type o slots t first valid =
    let index = get_or o.index_of t 0 - 1 + (if valid then o.num_indexes else 0) in
    slots (index * 2 + (if first then 0 else 1))

-- `tlv_next` from one place to another. It is `none` if that place does not come.
pub walk : List Bytes → ℕ → ℕ → Option (List Bytes)
walk [] pos next = if pos == next then some [] else none
walk (a ∷ rest) pos next =
    let others = walk rest (pos + 1) next in
    if pos == next then some [] else elim others [ none ↦ none | some tail ↦ some (a ∷ tail) ]

-- The TLVs that `dncp_node_for_each_tlv_with_t_v` visits.
pub for_each_tlv : List Bytes → Option ℕ → Option ℕ → Option (List Bytes)
for_each_tlv tlvs none next = some []
for_each_tlv tlvs (some first) none = none
for_each_tlv tlvs (some first) (some next) = walk (drop first tlvs) first next

pub tlvs_with_type : Types → List Bytes → ℕ → Bool → Bool → Option (List Bytes)
tlvs_with_type o tlvs t is_valid valid =
    let slots = recalculate_index o tlvs is_valid in
    for_each_tlv tlvs (get_tlv_with_type o slots t true valid)
      (get_tlv_with_type o slots t false valid)
