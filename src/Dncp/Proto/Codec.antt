-- ===== src/Dncp/Proto/Codec.antt =====
-- Reading what `_push_node_state_tlv` writes (src/dncp_proto.c).
use hnetd.Common.{
  ℕ, suc, ◌+◌, ◌-◌, ◌*◌, ◌^◌, ◌≤◌, ◌<◌, ◌≡◌, refl, sym, ap, ◌∙◌, true, [], ◌∷◌, ◌++◌, arith, length,
  take, drop, replicate, length-append, length-take, take-append_length, drop-append_length,
}
use mathlib.Core.List.{append_assoc, append-nil}
use hnetd.Bitops.{Bytes, byte_at}
use hnetd.Tlv.{tlv_id, tlv_len, tlv_raw_len, tlv_pad_len}
use hnetd.Tlv.Buf.{attr, fill_pad, header}
use hnetd.Dncp.Graph.{be32}
use hnetd.Dncp.Proto.{State, node_of, ni_len_of, to_be32, container_data, tlv_data}
use hnetd.Dncp.Proto.Push.{node_state}
use hnetd.Dncp.Proto.Message.{NodeState, read_node_state}

byte_at_past : (p q : Bytes) (i : ℕ) → byte_at (p ++ q) (length p + i) ≡ byte_at q i
byte_at_past [] q i = ap (byte_at q) (omega arith)
byte_at_past (x ∷ p) q i =
    ap (byte_at (x ∷ (p ++ q))) (let e : suc (length p) + i ≡ suc (length p + i) = omega arith in e)
    ∙ byte_at_past p q i

be32_past : (p q : Bytes) → be32 (p ++ q) (length p) ≡ be32 q 0
unfolding be32
be32_past p q = omega (
  arith,
  byte_at_past p q 0,
  byte_at_past p q 1,
  byte_at_past p q 2,
  byte_at_past p q 3,
  ap (byte_at (p ++ q)) (let e : length p ≡ length p + 0 = omega arith in e),
)

pub be32-to_be32 : (n : ℕ) (q : Bytes) → n < 2 ^ 32 → be32 (to_be32 n ++ q) 0 ≡ n
unfolding be32 to_be32
be32-to_be32 n q h = omega arith

-- A number that stands in a payload behind `p`.
pub be32_at :
    (p q : Bytes) (n k : ℕ) → n < 2 ^ 32 → length p ≡ k → be32 (p ++ (to_be32 n ++ q)) k ≡ n
be32_at p q n k h e =
    ap (be32 (p ++ (to_be32 n ++ q))) (sym e) ∙ be32_past p (to_be32 n ++ q) ∙ be32-to_be32 n q h

take_at : (p q : Bytes) (k : ℕ) → length p ≡ k → take k (p ++ q) ≡ p
take_at p q k e = ap (λ (n : ℕ). take n (p ++ q)) (sym e) ∙ take-append_length p q

drop_at : (p q : Bytes) (k : ℕ) → length p ≡ k → drop k (p ++ q) ≡ q
drop_at p q k e = ap (λ (n : ℕ). drop n (p ++ q)) (sym e) ∙ drop-append_length p q

length-to_be32 : (n : ℕ) → length (to_be32 n) ≡ 4
unfolding to_be32
length-to_be32 n = refl

module _ (i h d : Bytes) (u m nilen hlen : ℕ) (li : length i ≡ nilen) (lh : length h ≡ hlen)
    (lu : u < 2 ^ 32) (lm : m < 2 ^ 32) where
  abbrev layout : Bytes
  layout = i ++ (to_be32 u ++ (to_be32 m ++ (h ++ d)))

  -- The payload, split behind each of its parts.
  split2 : layout ≡ (i ++ to_be32 u) ++ (to_be32 m ++ (h ++ d))
  split2 = sym (append_assoc i (to_be32 u) (to_be32 m ++ (h ++ d)))

  split3 : layout ≡ ((i ++ to_be32 u) ++ to_be32 m) ++ (h ++ d)
  split3 = split2 ∙ sym (append_assoc (i ++ to_be32 u) (to_be32 m) (h ++ d))

  split4 : layout ≡ (((i ++ to_be32 u) ++ to_be32 m) ++ h) ++ d
  split4 = split3 ∙ sym (append_assoc ((i ++ to_be32 u) ++ to_be32 m) h d)

  length2 : length (i ++ to_be32 u) ≡ nilen + 4
  length2 = omega (arith, length-append i (to_be32 u), length-to_be32 u)

  length3 : length ((i ++ to_be32 u) ++ to_be32 m) ≡ nilen + 8
  length3 = omega (arith, length2, length-append (i ++ to_be32 u) (to_be32 m), length-to_be32 m)

  length4 : length (((i ++ to_be32 u) ++ to_be32 m) ++ h) ≡ 8 + nilen + hlen
  length4 = omega (arith, length3, length-append ((i ++ to_be32 u) ++ to_be32 m) h)

  pub read_layout : read_node_state nilen hlen layout ≡ record {
    node_id = i;
    update_number = u;
    ms_since_origination = m;
    node_data_hash = h;
    node_data = d;
  }
  unfolding read_node_state
  read_layout = λ j. record {
    node_id = take_at i (to_be32 u ++ (to_be32 m ++ (h ++ d))) nilen li j;
    update_number = be32_at i (to_be32 m ++ (h ++ d)) u nilen lu li j;
    ms_since_origination =
        (ap (λ p. be32 p (nilen + 4)) split2
            ∙ be32_at (i ++ to_be32 u) (h ++ d) m (nilen + 4) lm length2)
          j;
    node_data_hash =
        (ap (λ p. take hlen (drop (nilen + 8) p)) split3
            ∙ ap (take hlen) (drop_at ((i ++ to_be32 u) ++ to_be32 m) (h ++ d) (nilen + 8) length3)
            ∙ take_at h d hlen lh)
          j;
    node_data =
        (ap (drop (8 + nilen + hlen)) split4
            ∙ drop_at (((i ++ to_be32 u) ++ to_be32 m) ++ h) d (8 + nilen + hlen) length4)
          j;
  }

-- What a node needs for its state to be sent: its id and hash have their lengths, and the numbers fit.
pub record IsSendable (k : ℕ) (s : State) : Type 0 where
  pub id_whole : ni_len_of s ≤ length (node_of s k).node_id
  pub hash_whole : s.hash_len ≤ length (s.node_data_hash k)
  pub number_fits : (node_of s k).update_number < 2 ^ 32
  pub age_fits : s.local.net.now - (node_of s k).origination_time < 2 ^ 32

-- The state of node `k` as it is sent, with its data
abbrev pub state_of : ℕ → State → NodeState
state_of k s = record {
  node_id = take (ni_len_of s) (node_of s k).node_id;
  update_number = (node_of s k).update_number;
  ms_since_origination = s.local.net.now - (node_of s k).origination_time;
  node_data_hash = take s.hash_len (s.node_data_hash k);
  node_data = container_data (node_of s k).tlv_container;
}

length_taken : (n : ℕ) (xs : Bytes) → n ≤ length xs → length (take n xs) ≡ n
length_taken n xs h = omega (arith, length-take n xs)

pub read_node_state-node_state :
    (k : ℕ) (s : State)
    → IsSendable k s
    → read_node_state (ni_len_of s) s.hash_len (node_state k true s) ≡ state_of k s
unfolding node_state
read_node_state-node_state k s v =
    read_layout (take (ni_len_of s) (node_of s k).node_id) (take s.hash_len (s.node_data_hash k))
      (container_data (node_of s k).tlv_container) (node_of s k).update_number
      (s.local.net.now - (node_of s k).origination_time) (ni_len_of s) s.hash_len
      (length_taken (ni_len_of s) (node_of s k).node_id v.id_whole)
      (length_taken s.hash_len (s.node_data_hash k) v.hash_whole) v.number_fits v.age_fits

-- A TLV that was put into a buffer, and its fields.
fill_pad_whole :
    (b : Bytes)
    → tlv_raw_len b ≡ length b
    → fill_pad b ≡ b ++ replicate (tlv_pad_len b - length b) 0
unfolding fill_pad
fill_pad_whole b e = rw e (
    ap (λ q. q ++ replicate (tlv_pad_len b - length b) 0)
      (ap (take (length b)) (sym (append-nil b)) ∙ take-append_length b []))

raw_len-header :
    (t : ℕ) (p : Bytes)
    → length p < 2 ^ 16
    → tlv_raw_len (header t (length p) ++ p) ≡ length (header t (length p) ++ p)
unfolding tlv_raw_len tlv_len header
raw_len-header t p h = omega arith

module _ (t : ℕ) (p : Bytes) (h : length p < 2 ^ 16) where
  abbrev pad : Bytes
  pad = let b = header t (length p) ++ p in replicate (tlv_pad_len b - length b) 0

  attr_split : attr t p ≡ header t (length p) ++ (p ++ pad)
  unfolding attr
  attr_split =
      fill_pad_whole (header t (length p) ++ p) (raw_len-header t p h)
      ∙ append_assoc (header t (length p)) p pad

  pub tlv_len-attr : tlv_len (attr t p) ≡ length p
  unfolding tlv_len header
  tlv_len-attr = ap (λ a. byte_at a 2 * 2 ^ 8 + byte_at a 3) attr_split ∙ omega arith

  pub tlv_id-attr : t < 2 ^ 16 → tlv_id (attr t p) ≡ t
  unfolding tlv_id header
  tlv_id-attr k = ap (λ a. byte_at a 0 * 2 ^ 8 + byte_at a 1) attr_split ∙ omega arith

  pub tlv_data-attr : tlv_data (attr t p) ≡ p
  unfolding tlv_data header
  tlv_data-attr =
      ap (λ (n : ℕ). take n (drop 4 (attr t p))) tlv_len-attr
      ∙ ap (λ a. take (length p) (drop 4 a)) attr_split
      ∙ take-append_length p pad

pub length-node_state :
    (k : ℕ) (s : State)
    → IsSendable k s
    → length (node_state k true s)
      ≡ 8 + ni_len_of s + s.hash_len + length (container_data (node_of s k).tlv_container)
unfolding node_state
length-node_state k s v =
    let n = node_of s k in
    let hash = take s.hash_len (s.node_data_hash k) in
    let d = container_data n.tlv_container in
    let age = s.local.net.now - n.origination_time in
    omega (
      arith,
      length-append (take (ni_len_of s) n.node_id)
          (to_be32 n.update_number ++ (to_be32 age ++ (hash ++ d))),
      length-append (to_be32 n.update_number) (to_be32 age ++ (hash ++ d)),
      length-append (to_be32 age) (hash ++ d),
      length-append hash d,
      length-to_be32 n.update_number,
      length-to_be32 age,
      length_taken (ni_len_of s) n.node_id v.id_whole,
      length_taken s.hash_len (s.node_data_hash k) v.hash_whole,
    )
