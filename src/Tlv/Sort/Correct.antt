-- ===== src/Tlv/Sort/Correct.antt =====
-- What `tlv_sort` (src/tlv.c) does to a buffer of whole TLVs.
use Prim.Native.Nat.{Ordering}
use mathlib.Core.List.{Permᴰ}
use mathlib.Core.List.Permᴰ
use hnetd.Common.{
  ℕ, zero, suc, ◌-◌, ◌≤◌, ◌≡◌, refl, sym, ap, ◌∙◌, ◌≢◌, inl, inr, Bool, true, List, [], ◌∷◌, ◌++◌,
  arith, leb, leb→le, ==_refl, Bool-cases, length, length-append, take-append_length,
  drop-append_length,
}
use hnetd.Bitops.{Bytes}
use hnetd.Tlv.{tlv_pad_len, tlv_attr_cmp}
use hnetd.Bitops.Order.{opposite}
use hnetd.Tlv.Order.{
  tlv_cmp_swap, tlv_cmp_trans, concat, AreWhole, tlv_pad_len-append, tlv_raw_len-append,
  tlv_raw_len-bounds,
}
use hnetd.Tlv.Sort.{in_buf, copied, attrs, qsort_tlv_cmp, tlv_sort}

append_nil : (p : Bytes) → p ++ [] ≡ p
append_nil [] = refl
append_nil (x ∷ p) = ap (x ∷◌) (append_nil p)

whole_in_buf : (t p : Bytes) → length t ≡ tlv_pad_len t → in_buf (t ++ p) ≡ true
unfolding in_buf
whole_in_buf t p w =
    let bounds = tlv_raw_len-bounds t in
    let same = tlv_raw_len-append t p (omega arith) in let long = length-append t p in ground arith

copied_whole : (t p : Bytes) → length t ≡ tlv_pad_len t → copied (t ++ p) ≡ t
unfolding copied
copied_whole t p w =
    let bounds = tlv_raw_len-bounds t in
    let same = tlv_pad_len-append t p (omega arith) ∙ sym w in
    let none_left : length t - length (t ++ p) ≡ 0 = omega (arith, length-append t p) in
    rw (same, none_left, take-append_length t p) (append_nil t)

-- The walk over whole TLVs finds exactly these.
pub attrs-concat :
    (fuel : ℕ) (ts : List Bytes)
    → AreWhole ts
    → length (concat ts) ≤ fuel
    → attrs fuel (concat ts) ≡ ts
unfolding attrs in_buf
attrs-concat zero [] w h = refl
attrs-concat (suc fuel) [] w h = refl
attrs-concat zero (t ∷ ts) w h =
    let bounds = tlv_raw_len-bounds t in absurd (omega (arith, length-append t (concat ts), w.0))
attrs-concat (suc fuel) (t ∷ ts) w h =
    let bounds = tlv_raw_len-bounds t in
    let long = length-append t (concat ts) in
    let same = tlv_pad_len-append t (concat ts) (omega arith) ∙ sym w.0 in
    rw
      (
        whole_in_buf t (concat ts) w.0,
        copied_whole t (concat ts) w.0,
        same,
        drop-append_length t (concat ts),
        attrs-concat fuel ts w.1 (omega arith),
      )
      refl

-- Each two neighbours are in order.
abbrev pub AreAscending : (Bytes → Bytes → Ordering) → List Bytes → Type 0
AreAscending cmp [] = Unit
AreAscending cmp (x ∷ []) = Unit
AreAscending cmp (x ∷ y ∷ ys) = (cmp x y ≢ Ordering.gt) × AreAscending cmp (y ∷ ys)

-- A consistent comparison.
pub record IsOrder (cmp : Bytes → Bytes → Ordering) : Type 0 where
  pub swaps : (x y : Bytes) → cmp y x ≡ opposite (cmp x y)
  pub chains :
      (x y z : Bytes) → cmp x y ≡ Ordering.lt → cmp y z ≡ Ordering.lt → cmp x z ≡ Ordering.lt

-- What the C library says of qsort.
pub record IsSorting (qsort : (Bytes → Bytes → Ordering) → List Bytes → List Bytes) : Type 0 where
  pub permutes : (cmp : Bytes → Bytes → Ordering) (l : List Bytes) → Permᴰ l (qsort cmp l)
  pub ascends :
      (cmp : Bytes → Bytes → Ordering) (l : List Bytes)
      → IsOrder cmp
      → AreAscending cmp (qsort cmp l)

qsort_tlv_cmp-IsOrder : IsOrder qsort_tlv_cmp
unfolding qsort_tlv_cmp tlv_attr_cmp
qsort_tlv_cmp-IsOrder = record { swaps = tlv_cmp_swap; chains = tlv_cmp_trans }

Permᴰ-AreWhole : {l m : List Bytes} → Permᴰ l m → AreWhole l → AreWhole m
Permᴰ-AreWhole Permᴰ.nil w = tt
Permᴰ-AreWhole (Permᴰ.cons e p) w = (rw (← e) w.0, Permᴰ-AreWhole p w.1)
Permᴰ-AreWhole (Permᴰ.swap d e) w = (rw (← e) w.1.0, (rw (← d) w.0, w.1.1))
Permᴰ-AreWhole (Permᴰ.trans p q) w = Permᴰ-AreWhole q (Permᴰ-AreWhole p w)

length-concat : {l m : List Bytes} → Permᴰ l m → length (concat l) ≡ length (concat m)
length-concat Permᴰ.nil = refl
length-concat (Permᴰ.cons {a = a} {b = b} {l₁ = l} {l₂ = m} e p) =
    let lengths = length-concat p in
    let same = ap length e in omega (arith, length-append a (concat l), length-append b (concat m))
length-concat (Permᴰ.swap {a = a} {b = b} {a' = c} {b' = d} {l = l} e f) =
    let same = ap length e in
    let same' = ap length f in
    omega (
      arith,
      length-append a (b ++ concat l),
      length-append b (concat l),
      length-append c (d ++ concat l),
      length-append d (concat l),
    )
length-concat (Permᴰ.trans p q) = length-concat p ∙ length-concat q

-- The outcome `r` of sorting: a permutation of the TLVs, whole and in ascending order.
pub record SortsTo (ts : List Bytes) (r : Bool × Bytes) : Type 0 where
  pub sorted : List Bytes
  pub permuted : Permᴰ ts sorted
  pub whole : AreWhole sorted
  pub ascending : AreAscending qsort_tlv_cmp sorted
  pub result : r ≡ (true, concat sorted)

short_ascending : (ts : List Bytes) → leb (length ts) 1 ≡ true → AreAscending qsort_tlv_cmp ts
short_ascending [] t = tt
short_ascending (x ∷ []) t = tt
short_ascending (x ∷ y ∷ ts) t = absurd (omega (arith, leb→le _ _ t))

-- On a buffer of whole TLVs, `tlv_sort` succeeds and leaves the same TLVs in ascending order, if qsort
-- sorts.
pub tlv_sort_lem :
    (qsort : (Bytes → Bytes → Ordering) → List Bytes → List Bytes) (ts : List Bytes)
    → IsSorting qsort
    → AreWhole ts
    → SortsTo ts (tlv_sort qsort (concat ts))
unfolding tlv_sort
tlv_sort_lem qsort ts s w =
    let walk = attrs-concat (length (concat ts)) ts w (omega arith) in
    let p = s.permutes qsort_tlv_cmp ts in
    elim (Bool-cases (leb (length ts) 1)) [
      | inl t ↦ record {
        sorted = ts;
        permuted = Permᴰ.refl ts;
        whole = w;
        ascending = short_ascending ts t;
        result = rw (walk, t) refl;
      }
      | inr e ↦ record {
        sorted = qsort qsort_tlv_cmp ts;
        permuted = p;
        whole = Permᴰ-AreWhole p w;
        ascending = s.ascends qsort_tlv_cmp ts qsort_tlv_cmp-IsOrder;
        result = rw (walk, e, length-concat p, ==_refl) refl;
      }
    ]
