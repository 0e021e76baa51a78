-- ===== src/Tlv/Sort/Tests.antt =====
-- Tests of the sorting, with an insertion sort for the C library's qsort.
use Prim.Native.Nat.{Ordering}
use mathlib.Core.List.{Permᴰ}
use mathlib.Core.List.Permᴰ
use hnetd.Common.{
  ◌≡◌, refl, sym, ap, ◌∙◌, ◌≢◌, inl, inr, Bool, true, false, List, [], ◌∷◌, if◌then◌else◌,
  Bool-cases,
}
use hnetd.Bitops.{Bytes}
use hnetd.Bitops.Order.{opposite}
use hnetd.Tlv.{tlv_raw_len, tlv_pad_len, tlv_len}
use hnetd.Tlv.Order.{concat, AreWhole}
use hnetd.Tlv.Sort.{tlv_sort}
use hnetd.Tlv.Sort.Correct.{AreAscending, IsOrder, IsSorting, SortsTo, tlv_sort_lem}

abbrev is_above : Ordering → Bool
is_above Ordering.lt = false
is_above Ordering.eq = false
is_above Ordering.gt = true

module _ (cmp : Bytes → Bytes → Ordering) where
  insert : Bytes → List Bytes → List Bytes
  insert x [] = x ∷ []
  insert x (y ∷ ys) = if is_above (cmp x y) then y ∷ insert x ys else x ∷ y ∷ ys

  sort : List Bytes → List Bytes
  sort [] = []
  sort (x ∷ xs) = insert x (sort xs)

  insert_permutes : (x : Bytes) (ys : List Bytes) → Permᴰ (x ∷ ys) (insert x ys)
  unfolding insert
  insert_permutes x [] = Permᴰ.refl (x ∷ [])
  insert_permutes x (y ∷ ys) = elim (Bool-cases (is_above (cmp x y))) [
    | inl t ↦ rw t (Permᴰ.trans (Permᴰ.swap refl refl) (Permᴰ.cons refl (insert_permutes x ys)))
    | inr e ↦ rw e (Permᴰ.refl (x ∷ y ∷ ys))
  ]

  sort_permutes : (l : List Bytes) → Permᴰ l (sort l)
  unfolding sort
  sort_permutes [] = Permᴰ.nil
  sort_permutes (x ∷ xs) =
      Permᴰ.trans (Permᴰ.cons refl (sort_permutes xs)) (insert_permutes x (sort xs))

  not_above : (o : Ordering) → is_above o ≡ false → o ≢ Ordering.gt
  not_above o e h = cc (sym e ∙ ap is_above h)

  above : (o : Ordering) → is_above o ≡ true → opposite o ≢ Ordering.gt
  above Ordering.lt t h = absurd (cc t)
  above Ordering.eq t h = absurd (cc t)
  above Ordering.gt t h = cc h

  module _ (order : IsOrder cmp) where
    -- Behind a lower head, the insertion into an ascending list is ascending.
    insert_ascends_behind :
        (h x : Bytes) (ys : List Bytes)
        → cmp h x ≢ Ordering.gt
        → AreAscending cmp (h ∷ ys)
        → AreAscending cmp (h ∷ insert x ys)
    unfolding insert
    insert_ascends_behind h x [] low a = (low, tt)
    insert_ascends_behind h x (y ∷ ys) low a = elim (Bool-cases (is_above (cmp x y))) [
      | inl t ↦ rw t (
        a.0,
        insert_ascends_behind y x ys (λ g. above (cmp x y) t (sym (order.swaps x y) ∙ g)) a.1,
      )
      | inr e ↦ rw e (low, (not_above (cmp x y) e, a.1))
    ]

    insert_ascends :
        (x : Bytes) (ys : List Bytes) → AreAscending cmp ys → AreAscending cmp (insert x ys)
    unfolding insert
    insert_ascends x [] a = tt
    insert_ascends x (y ∷ ys) a = elim (Bool-cases (is_above (cmp x y))) [
      | inl t ↦
          rw t (insert_ascends_behind y x ys (λ g. above (cmp x y) t (sym (order.swaps x y) ∙ g)) a)
      | inr e ↦ rw e (not_above (cmp x y) e, a)
    ]

    sort_ascends : (l : List Bytes) → AreAscending cmp (sort l)
    unfolding sort
    sort_ascends [] = tt
    sort_ascends (x ∷ xs) = insert_ascends x (sort xs) (sort_ascends xs)

sort-IsSorting : IsSorting sort
sort-IsSorting = record {
  permutes = sort_permutes;
  ascends = λ cmp l order. sort_ascends cmp order l;
}

abbrev two_tlvs : List Bytes
two_tlvs = (0 ∷ 33 ∷ 0 ∷ 1 ∷ 1 ∷ 0 ∷ 0 ∷ 0 ∷ []) ∷ (0 ∷ 32 ∷ 0 ∷ 0 ∷ []) ∷ []

two_AreWhole : AreWhole two_tlvs
unfolding tlv_pad_len tlv_raw_len tlv_len
two_AreWhole = (refl, (refl, tt))

tlv_sort_lem_example : SortsTo two_tlvs (tlv_sort sort (concat two_tlvs))
tlv_sort_lem_example = tlv_sort_lem sort two_tlvs sort-IsSorting two_AreWhole
