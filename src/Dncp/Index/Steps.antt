-- ===== src/Dncp/Index/Steps.antt =====
-- One turn of the loop of `dncp_node_recalculate_index`.
use hnetd.Common.{
  ℕ, ◌+◌, ◌≡◌, refl, ◌≢◌, true, false, Option, some, List, ◌∷◌, leb, ==_refl, ne→==, length,
}
use hnetd.Bitops.{Bytes}
use hnetd.Tlv.{tlv_id}
use hnetd.Dncp.Index.{Scan, put, is_type, entered, mark_next, turn, scan_tlvs}

pub put_ne : (j v : ℕ) (slots : ℕ → Option ℕ) (k : ℕ) → k ≢ j → put j v slots k ≡ slots k
unfolding put
put_ne j v slots k n = rw (ne→== k j n) refl

pub put_same : (j v : ℕ) (slots : ℕ → Option ℕ) → put j v slots j ≡ some v
unfolding put
put_same j v slots = rw (==_refl j) refl

pub mark_idx : (pos : ℕ) (s : Scan) → (mark_next pos s).idx ≡ s.idx
unfolding mark_next
mark_idx pos s = refl

pub mark_type : (pos : ℕ) (s : Scan) → (mark_next pos s).type ≡ s.type
unfolding mark_next
mark_type pos s = refl

-- The three ways of a turn.
pub scan_same :
    (index_of : List ℕ) (a : Bytes) (rest : List Bytes) (pos : ℕ) (s : Scan)
    → is_type (tlv_id a) s.type ≡ true
    → scan_tlvs index_of (a ∷ rest) pos s ≡ scan_tlvs index_of rest (pos + 1) (mark_next pos s)
unfolding scan_tlvs turn
scan_same index_of a rest pos s y = rw (y, scan_tlvs, turn) refl

pub scan_enter :
    (index_of : List ℕ) (a : Bytes) (rest : List Bytes) (pos : ℕ) (s : Scan)
    → is_type (tlv_id a) s.type ≡ false
    → leb (length index_of) (tlv_id a) ≡ false
    → scan_tlvs index_of (a ∷ rest) pos s
      ≡ scan_tlvs index_of rest (pos + 1) (mark_next pos (entered index_of pos (tlv_id a) s))
unfolding scan_tlvs turn
scan_enter index_of a rest pos s y l = rw (y, scan_tlvs, turn, l) refl

pub scan_break :
    (index_of : List ℕ) (a : Bytes) (rest : List Bytes) (pos : ℕ) (s : Scan)
    → is_type (tlv_id a) s.type ≡ false
    → leb (length index_of) (tlv_id a) ≡ true
    → scan_tlvs index_of (a ∷ rest) pos s ≡ s
unfolding scan_tlvs turn
scan_break index_of a rest pos s y l = rw (y, scan_tlvs, turn, l) refl
