-- ===== src/Dncp/Notify/Difference.antt =====
-- The changes that subscribers are told of (src/dncp_notify.c) are the difference of the two sets.
use Prim.Native.Nat.{Ordering}
use hnetd.Common.{
  ℕ, ◌≡◌, refl, sym, ap, ◌∙◌, ◌⊎◌, inl, inr, Bool, true, false, ◌||◌, Option, List, [], ◌∷◌, ◌++◌,
  if◌then◌else◌,
}
use hnetd.Bitops.{Bytes}
use hnetd.Bitops.Order.{opposite}
use hnetd.Tlv.{tlv_cmp}
use hnetd.Tlv.Order.{tlv_cmp_swap, tlv_cmp_trans, tlv_cmp-eq_left}
use hnetd.Dncp.Notify.{removed, added, container, tell_each, notify_tlvs_changed}

abbrev pub is_eq : Ordering → Bool
is_eq Ordering.eq = true
is_eq Ordering.lt = false
is_eq Ordering.gt = false

-- Whether a TLV equal to `x` is in the list.
abbrev pub occurs : Bytes → List Bytes → Bool
occurs x [] = false
occurs x (y ∷ ys) = is_eq (tlv_cmp x y) || occurs x ys

-- The TLVs of a list that do not occur in another.
abbrev pub missing_from : List Bytes → List Bytes → List Bytes
missing_from ys [] = []
missing_from ys (x ∷ xs) = let rest = missing_from ys xs in if occurs x ys then rest else x ∷ rest

-- All members are above `x`.
abbrev pub Above : Bytes → List Bytes → Type 0
Above x [] = Unit
Above x (y ∷ ys) = (tlv_cmp x y ≡ Ordering.lt) × Above x ys

-- Sorted, without duplicates.
abbrev pub IsSorted : List Bytes → Type 0
IsSorted [] = Unit
IsSorted (x ∷ xs) = Above x xs × IsSorted xs

Above-trans : (x y : Bytes) (ys : List Bytes) → tlv_cmp x y ≡ Ordering.lt → Above y ys → Above x ys
Above-trans x y [] e a = tt
Above-trans x y (z ∷ zs) e a = (tlv_cmp_trans x y z e a.0, Above-trans x y zs e a.1)

-- What lies below a list does not occur in it.
occurs_below : (x : Bytes) (ys : List Bytes) → Above x ys → occurs x ys ≡ false
occurs_below x [] a = refl
occurs_below x (y ∷ ys) a = rw (a.0, occurs_below x ys a.1) refl

-- A member below a list adds nothing to what is missing of the list.
missing_from_below :
    (n : Bytes) (ns xs : List Bytes) → Above n xs → missing_from (n ∷ ns) xs ≡ missing_from ns xs
missing_from_below n ns [] a = refl
missing_from_below n ns (x ∷ xs) a =
    let flipped : tlv_cmp x n ≡ Ordering.gt = tlv_cmp_swap n x ∙ ap opposite a.0 in
    rw (flipped, missing_from_below n ns xs a.1) refl

Above-eq_left :
    (x y : Bytes) (ys : List Bytes) → tlv_cmp x y ≡ Ordering.eq → Above x ys → Above y ys
Above-eq_left x y [] e a = tt
Above-eq_left x y (z ∷ zs) e a = (sym (tlv_cmp-eq_left x y z e) ∙ a.0, Above-eq_left x y zs e a.1)

missing_from_none : (xs : List Bytes) → missing_from [] xs ≡ xs
missing_from_none [] = refl
missing_from_none (x ∷ xs) = ap (x ∷◌) (missing_from_none xs)

-- The order of two TLVs, as an equation of each kind.
Compared : Bytes → Bytes → Type 0
Compared x y =
    (tlv_cmp x y ≡ Ordering.eq) ⊎ (tlv_cmp x y ≡ Ordering.lt) ⊎ (tlv_cmp x y ≡ Ordering.gt)

Ordering-cases : (o : Ordering) → (o ≡ Ordering.eq) ⊎ (o ≡ Ordering.lt) ⊎ (o ≡ Ordering.gt)
Ordering-cases Ordering.eq = inl refl
Ordering-cases Ordering.lt = inr (inl refl)
Ordering-cases Ordering.gt = inr (inr refl)

-- The merge of the first part tells exactly of the old TLVs that do not occur among the new ones, in
-- their order, if both lists are sorted without duplicates.
pub removed-missing_from :
    (old new : List Bytes) → IsSorted old → IsSorted new → removed old new ≡ missing_from new old
unfolding removed
removed-missing_from [] new s t = refl
removed-missing_from (o ∷ op) [] s t = ap (o ∷◌) (removed-missing_from op [] s.1 t)
removed-missing_from (o ∷ op) (n ∷ np) s t = elim (Ordering-cases (tlv_cmp o n)) [
  | inl e ↦
      rw (removed, e, missing_from_below n np op (Above-eq_left o n op e s.0))
        (removed-missing_from op np s.1 t.1)
  | inr (inl e) ↦
      rw (removed, e, occurs_below o np (Above-trans o n np e t.0))
        (ap (o ∷◌) (removed-missing_from op (n ∷ np) s.1 t))
  | inr (inr e) ↦
      let below : tlv_cmp n o ≡ Ordering.lt = tlv_cmp_swap o n ∙ ap opposite e in
      rw (removed, e, missing_from_below n np op (Above-trans n o op below s.0))
        (removed-missing_from (o ∷ op) np s t.1)
]

-- The merge of the second part tells exactly of the new TLVs that do not occur among the old ones, in
-- their order, if both lists are sorted without duplicates.
pub added-missing_from :
    (old new : List Bytes) → IsSorted old → IsSorted new → added old new ≡ missing_from old new
unfolding added
added-missing_from [] new s t = sym (missing_from_none new)
added-missing_from (o ∷ op) [] s t = refl
added-missing_from (o ∷ op) (n ∷ np) s t = elim (Ordering-cases (tlv_cmp o n)) [
  | inl e ↦
      let same : tlv_cmp n o ≡ Ordering.eq = tlv_cmp_swap o n ∙ ap opposite e in
      rw (added, e, same, missing_from_below o op np (Above-eq_left n o np same t.0))
        (added-missing_from op np s.1 t.1)
  | inr (inl e) ↦
      let above : tlv_cmp n o ≡ Ordering.gt = tlv_cmp_swap o n ∙ ap opposite e in
      rw (added, e, above, missing_from_below o op np (Above-trans o n np e t.0))
        (added-missing_from op (n ∷ np) s.1 t)
  | inr (inr e) ↦
      let below : tlv_cmp n o ≡ Ordering.lt = tlv_cmp_swap o n ∙ ap opposite e in
      rw (added, e, below, occurs_below n op (Above-trans n o op below s.0))
        (ap (n ∷◌) (added-missing_from (o ∷ op) np s t.1))
]

-- When a node's container changes between two that hold sorted TLVs without duplicates, every subscriber
-- is told of the removal of exactly the old TLVs that are not among the new ones, and after all of
-- that, of the addition of exactly the new TLVs that are not among the old ones, each in its order.
pub notify_tlvs_changed_lem :
    (subscribers : List ℕ) (a_old a_new : Option Bytes)
    → IsSorted (container a_old)
    → IsSorted (container a_new)
    → notify_tlvs_changed subscribers a_old a_new
      ≡ tell_each subscribers (missing_from (container a_new) (container a_old)) false
        ++ tell_each subscribers (missing_from (container a_old) (container a_new)) true
unfolding notify_tlvs_changed
notify_tlvs_changed_lem ss old new s t =
    rw
      (
        removed-missing_from (container old) (container new) s t,
        added-missing_from (container old) (container new) s t,
      )
      refl
