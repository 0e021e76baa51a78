-- ===== src/Dncp/Index/Visits.antt =====
-- The index of all types, and what the iteration over a type visits.

use hnetd.Common.{
  ℕ, zero, suc, ◌+◌, ◌-◌, ◌*◌, ◌≤◌, ◌<◌, ◌≡◌, refl, sym, ap, ◌∙◌, ◌≢◌, inl, inr, Bool, true, false,
  not, ◌&&◌, Option, none, some, List, [], ◌∷◌, arith, ℕ_discrete, leb, if◌then◌else◌, ne→==,
  le→leb, ==_iff, Bool-cases, length, get_or,
}
use hnetd.Bitops.{Bytes}
use hnetd.Tlv.{tlv_id}
use hnetd.Dncp.Index.Finds.{of_type, Ascending, scan_before}
use hnetd.Dncp.Index.Steps.{put_ne, mark_idx, scan_same, scan_enter, scan_break}
use hnetd.Dncp.Index.{
  Types, Scan, is_type, entered, mark_next, scan_tlvs, recalculate_index, get_tlv_with_type,
  for_each_tlv, tlvs_with_type,
}

-- An index is that of one type, and is at most the number of indexes.
pub record IsIndex (o : Types) : Type 0 where
  pub distinct :
      (t u : ℕ) → get_or o.index_of t 0 ≢ 0 → get_or o.index_of u 0 ≡ get_or o.index_of t 0 → u ≡ t
  pub bounded : (t : ℕ) → get_or o.index_of t 0 ≤ o.num_indexes

get_or_bound : (xs : List ℕ) (t : ℕ) → get_or xs t 0 ≢ 0 → t < length xs
get_or_bound [] t n = absurd (n refl)
get_or_bound (x ∷ xs) zero n = omega arith
get_or_bound (x ∷ xs) (suc t) n = omega (arith, get_or_bound xs t n)

mark_beyond :
    (pos m : ℕ) (s : Scan) (k : ℕ)
    → 2 * m ≤ k
    → s.idx ≤ m
    → s.slots k ≡ none
    → (mark_next pos s).slots k ≡ none
unfolding mark_next
mark_beyond pos m s k b d h = elim (ℕ_discrete s.idx 0) [
  | yes z ↦ rw ((==_iff s.idx 0).1 z) h
  | no z ↦ rw (ne→== s.idx 0 z) (put_ne (2 * s.idx - 1) (pos + 1) s.slots k (λ e. omega arith) ∙ h)
]

entered_beyond :
    (index_of : List ℕ) (pos m u : ℕ) (s : Scan) (k : ℕ)
    → get_or index_of u 0 ≤ m
    → 2 * m ≤ k
    → s.slots k ≡ none
    → ((entered index_of pos u s).idx ≤ m) × ((entered index_of pos u s).slots k ≡ none)
unfolding entered
entered_beyond index_of pos m u s k w b h =
    let j = get_or index_of u 0 in
    (
      w,
      elim (ℕ_discrete j 0) [
        | yes z ↦ rw z h
        | no z ↦
            rw (ne→== j 0 z) (put_ne (2 * j - 2) pos s.slots k (λ e. omega (arith, w, b, z, e)) ∙ h)
      ],
    )

-- No slot of the second half is written.
scan_bounded :
    (o : Types) (tlvs : List Bytes) (pos : ℕ) (s : Scan) (k : ℕ)
    → IsIndex o
    → 2 * o.num_indexes ≤ k
    → s.idx ≤ o.num_indexes
    → s.slots k ≡ none
    → (scan_tlvs o.index_of tlvs pos s).slots k ≡ none
unfolding scan_tlvs
scan_bounded o [] pos s k w b d h = h
scan_bounded o (a ∷ rest) pos s k w b d h = elim (Bool-cases (is_type (tlv_id a) s.type)) [
  | inl y ↦ rw (scan_same o.index_of a rest pos s y) (
      scan_bounded o rest (pos + 1) (mark_next pos s) k w b (omega (arith, d, mark_idx pos s))
        (mark_beyond pos o.num_indexes s k b d h))
  | inr y ↦ elim (Bool-cases (leb (length o.index_of) (tlv_id a))) [
    | inl l ↦ rw (scan_break o.index_of a rest pos s y l) h
    | inr l ↦
        let s' = entered o.index_of pos (tlv_id a) s in
        let (d', h') =
          entered_beyond o.index_of pos o.num_indexes (tlv_id a) s k (w.bounded (tlv_id a)) b h in
        rw (scan_enter o.index_of a rest pos s y l) (
          scan_bounded o rest (pos + 1) (mark_next pos s') k w b
            (omega (arith, d', mark_idx pos s')) (mark_beyond pos o.num_indexes s' k b d' h'))
  ]
]

abbrev blank : Scan
blank = record { type = none; idx = 0; slots = λ _. none }

blank_type : (t : ℕ) → is_type t none ≡ false
unfolding is_type
blank_type t = refl

-- The first half of the index leads to the TLVs of the type.
leads :
    (o : Types) (tlvs : List Bytes) (t : ℕ) (w : IsIndex o) (n : get_or o.index_of t 0 ≢ 0)
    → Ascending tlvs
    → for_each_tlv tlvs
        ((scan_tlvs o.index_of tlvs 0 blank).slots (2 * get_or o.index_of t 0 - 2))
        ((scan_tlvs o.index_of tlvs 0 blank).slots (2 * get_or o.index_of t 0 - 1))
      ≡ some (of_type t tlvs)
leads o tlvs t w n v =
    scan_before o.index_of t n (λ u. w.distinct t u n) tlvs [] blank (get_or_bound o.index_of t n) v
      (blank_type t) (λ e. n (sym e)) (refl, refl)

module _ (o : Types) (tlvs : List Bytes) where
  abbrev half : ℕ → Option ℕ
  half = (scan_tlvs o.index_of tlvs 0 blank).slots

  near :
      (is_valid : Bool) (k : ℕ)
      → k < 2 * o.num_indexes
      → recalculate_index o tlvs is_valid k ≡ half k
  unfolding recalculate_index
  near true k b = rw (let e : leb (2 * o.num_indexes) k ≡ false = ground arith in e) refl
  near false k b = refl

  far :
      (k : ℕ)
      → 2 * o.num_indexes ≤ k
      → recalculate_index o tlvs true k ≡ half (k - 2 * o.num_indexes)
  unfolding recalculate_index
  far k b = rw (le→leb (2 * o.num_indexes) k b) refl

  beyond : (k : ℕ) → IsIndex o → 2 * o.num_indexes ≤ k → recalculate_index o tlvs false k ≡ none
  unfolding recalculate_index
  beyond k w b = scan_bounded o tlvs 0 blank k w b (omega arith) refl

  -- The place of a slot of the type.
  module _ (t : ℕ) (w : IsIndex o) (n : get_or o.index_of t 0 ≢ 0) where
    abbrev i : ℕ
    i = get_or o.index_of t 0

    get_near :
        (is_valid first : Bool)
        → get_tlv_with_type o (recalculate_index o tlvs is_valid) t first false
          ≡ half (2 * i - (if first then 2 else 1))
    unfolding get_tlv_with_type
    get_near is_valid true =
        near is_valid ((i - 1 + 0) * 2 + 0) (omega (arith, w.bounded t))
        ∙ ap half (let e : (i - 1 + 0) * 2 + 0 ≡ 2 * i - 2 = omega arith in e)
    get_near is_valid false =
        near is_valid ((i - 1 + 0) * 2 + 1) (omega (arith, w.bounded t))
        ∙ ap half (let e : (i - 1 + 0) * 2 + 1 ≡ 2 * i - 1 = omega arith in e)

    get_far :
        (first : Bool)
        → get_tlv_with_type o (recalculate_index o tlvs true) t first true
          ≡ half (2 * i - (if first then 2 else 1))
    unfolding get_tlv_with_type
    get_far true =
        let m = o.num_indexes in
        far ((i - 1 + m) * 2 + 0) (omega arith)
        ∙ ap half (let e : (i - 1 + m) * 2 + 0 - 2 * m ≡ 2 * i - 2 = omega arith in e)
    get_far false =
        let m = o.num_indexes in
        far ((i - 1 + m) * 2 + 1) (omega arith)
        ∙ ap half (let e : (i - 1 + m) * 2 + 1 - 2 * m ≡ 2 * i - 1 = omega arith in e)

    get_beyond :
        (first : Bool) → get_tlv_with_type o (recalculate_index o tlvs false) t first true ≡ none
    unfolding get_tlv_with_type
    get_beyond first = beyond _ w (ground arith)

each_none : (tlvs : List Bytes) (next : Option ℕ) → for_each_tlv tlvs none next ≡ some []
unfolding for_each_tlv
each_none tlvs next = refl

-- For a type with an index, and TLVs that ascend by type, the loop `dncp_node_for_each_tlv_with_t_v` visits
-- exactly the TLVs of the type, in order; or none, if it asks for valid TLVs and the node has no valid ones. It
-- never leaves the TLVs.
pub tlvs_with_type-of_type :
    (o : Types) (tlvs : List Bytes) (t : ℕ) (is_valid valid : Bool)
    → IsIndex o
    → get_or o.index_of t 0 ≢ 0
    → Ascending tlvs
    → tlvs_with_type o tlvs t is_valid valid
      ≡ some (if valid && not is_valid then [] else of_type t tlvs)
unfolding tlvs_with_type
tlvs_with_type-of_type o tlvs t is_valid false w n v =
    rw (get_near o tlvs t w n is_valid true, get_near o tlvs t w n is_valid false)
      (leads o tlvs t w n v)
tlvs_with_type-of_type o tlvs t true true w n v =
    rw (get_far o tlvs t w n true, get_far o tlvs t w n false) (leads o tlvs t w n v)
tlvs_with_type-of_type o tlvs t false true w n v =
    rw (get_beyond o tlvs t w n true) (each_none tlvs _)
