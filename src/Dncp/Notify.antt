-- ===== src/Dncp/Notify.antt =====
-- What the subscribers of DNCP are told (src/dncp_notify.c). The pointer that walks over a container is
-- the list of the TLVs that are left.
pub mod Difference
pub mod Walk
pub mod Subscribe
mod Tests
use Prim.Native.Nat.{Ordering}
use hnetd.Common.{
  ℕ, zero, suc, Bool, true, false, not, ◌&&◌, Option, none, some, List, [], ◌∷◌, ◌++◌, map, ltb,
  if◌then◌else◌, length, take, drop,
}
use hnetd.Bitops.{Bytes}
use hnetd.Tlv.{tlv_pad_len, tlv_cmp}

-- ENSURE_VALID: a header, and then the whole TLV, lie before the end.
pub ensure_valid : Bytes → Bool
ensure_valid p = not (ltb (length p) 4) && not (ltb (length p) (tlv_pad_len p))

-- The TLVs from a pointer on that ENSURE_VALID lets pass, with `tlv_next` between them. As each has four
-- bytes at least, the length of the memory is fuel enough.
pub tlvs : ℕ → Bytes → List Bytes
tlvs zero p = []
tlvs (suc fuel) p =
    let rest = tlvs fuel (drop (tlv_pad_len p) p) in
    if ensure_valid p then take (tlv_pad_len p) p ∷ rest else []

-- The data of a container, which may be a null pointer.
pub container : Option Bytes → List Bytes
container none = []
container (some a) = tlvs (length a) a

-- The TLVs of which the first part of `dncp_notify_subscribers_tlvs_changed` tells.
pub removed : List Bytes → List Bytes → List Bytes
removed [] np = []
removed (o ∷ op) [] = o ∷ removed op []
removed (o ∷ op) (n ∷ np) = elim (tlv_cmp o n) [
  | Ordering.eq ↦ removed op np
  | Ordering.lt ↦ o ∷ removed op (n ∷ np)
  | Ordering.gt ↦ removed (o ∷ op) np
]

-- The TLVs of which the second part tells.
pub added : List Bytes → List Bytes → List Bytes
added [] np = np
added (o ∷ op) [] = []
added (o ∷ op) (n ∷ np) = elim (tlv_cmp o n) [
  | Ordering.eq ↦ added op np
  | Ordering.lt ↦ added op (n ∷ np)
  | Ordering.gt ↦ n ∷ added (o ∷ op) np
]

-- A call of a subscriber's `tlv_change_cb`.
pub record Change : Type 0 where
  pub subscriber : ℕ
  pub tlv : Bytes
  pub add : Bool

pub tell_each : List ℕ → List Bytes → Bool → List Change
tell_each [] ts add = []
tell_each (s ∷ ss) ts add =
    map (λ t. record { subscriber = s; tlv = t; add = add }) ts ++ tell_each ss ts add

-- `dncp_notify_subscribers_tlvs_changed`, for the subscribers to TLVs
pub notify_tlvs_changed : List ℕ → Option Bytes → Option Bytes → List Change
notify_tlvs_changed subscribers a_old a_new =
    let op = container a_old in
    let np = container a_new in
    tell_each subscribers (removed op np) false ++ tell_each subscribers (added op np) true
