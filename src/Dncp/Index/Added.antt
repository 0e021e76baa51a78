-- ===== src/Dncp/Index/Added.antt =====
-- What adding a type to the index does (`dncp_add_tlv_index` in src/dncp.c).
use mathlib.Core.Path.{subst}
use hnetd.Common.{
  ℕ, zero, suc, ◌+◌, ◌-◌, ◌<◌, ◌≡◌, refl, sym, ◌∙◌, ◌≢◌, inl, inr, List, [], ◌∷◌, ◌++◌, arith,
  ℕ_discrete, ltb, ltb→lt, ne→==, Bool-cases, length, get_or, replicate, length-append,
  length-replicate, set, get_or-set_self, get_or-set_ne,
}
use hnetd.Dncp.Index.{Types, add_tlv_index}
use hnetd.Dncp.Index.Visits.{IsIndex}

abbrev none_yet : ℕ
none_yet = 0

zeros : (k u : ℕ) → get_or (replicate k none_yet) u 0 ≡ none_yet
zeros zero u = refl
zeros (suc k) zero = refl
zeros (suc k) (suc u) = zeros k u

grown_same : (xs : List ℕ) (k u : ℕ) → get_or (xs ++ replicate k 0) u 0 ≡ get_or xs u 0
grown_same [] k u = zeros k u
grown_same (x ∷ xs) k zero = refl
grown_same (x ∷ xs) k (suc u) = grown_same xs k u

-- The table after growing.
record Grown (o : Types) (t : ℕ) (xs : List ℕ) : Type 0 where
  room : t < length xs
  same : (u : ℕ) → get_or xs u 0 ≡ get_or o.index_of u 0

added :
    (o : Types) (t : ℕ)
    → get_or o.index_of t 0 ≡ 0
    → (xs : List ℕ) × Grown o t xs
      × (add_tlv_index t o
          ≡ record { index_of = set xs t (o.num_indexes + 1); num_indexes = o.num_indexes + 1 })
unfolding add_tlv_index
added o t z = elim (Bool-cases (ltb t (length o.index_of))) [
  | inl l ↦ (
    o.index_of,
    record { room = ltb→lt t (length o.index_of) l; same = λ u. refl },
    rw (z, l) refl,
  )
  | inr l ↦
      let k = t + 1 - length o.index_of in
      (
        o.index_of ++ replicate k 0,
        record {
          room =
              omega (arith, length-append o.index_of (replicate k 0), length-replicate k none_yet);
          same = grown_same o.index_of k;
        },
        rw (z, l) refl,
      )
]

added_before : (o : Types) (t : ℕ) → get_or o.index_of t 0 ≢ 0 → add_tlv_index t o ≡ o
unfolding add_tlv_index
added_before o t n = rw (ne→== (get_or o.index_of t 0) 0 n) refl

added_distinct :
    (o : Types) (t : ℕ) (xs : List ℕ)
    → IsIndex o
    → Grown o t xs
    → IsIndex (record { index_of = set xs t (o.num_indexes + 1); num_indexes = o.num_indexes + 1 })
added_distinct o t xs w g =
    let own = λ (u : ℕ) (p : t ≡ u).
      subst (λ v. get_or (set xs t (o.num_indexes + 1)) v 0 ≡ o.num_indexes + 1) p
        (get_or-set_self xs t (o.num_indexes + 1) 0 g.room) in
    let other = λ (u : ℕ) (d : t ≢ u). get_or-set_ne xs (o.num_indexes + 1) 0 d ∙ g.same u in
    record {
      distinct = λ a b n e. elim (ℕ_discrete t a) [
        | yes p ↦ elim (ℕ_discrete t b) [
          | yes q ↦ sym q ∙ p
          | no q ↦ absurd (omega (arith, own a p, other b q, e, w.bounded b))
        ]
        | no p ↦ elim (ℕ_discrete t b) [
          | yes q ↦ absurd (omega (arith, own b q, other a p, e, w.bounded a))
          | no q ↦ w.distinct a b (λ z. n (other a p ∙ z)) (sym (other b q) ∙ e ∙ other a p)
        ]
      ];
      bounded = λ u. elim (ℕ_discrete t u) [
        | yes p ↦ omega (arith, own u p)
        | no p ↦ omega (arith, w.bounded u, other u p)
      ];
    }

-- Adding a type keeps the indexes distinct and bounded, gives the type an index, and keeps the index of every
-- other type.
pub add_tlv_index-IsIndex :
    (o : Types) (t : ℕ)
    → IsIndex o
    → let o' = add_tlv_index t o in
      IsIndex o'
      × (get_or o'.index_of t 0 ≢ 0)
      × ((u : ℕ) → u ≢ t → get_or o'.index_of u 0 ≡ get_or o.index_of u 0)
add_tlv_index-IsIndex o t w = elim (ℕ_discrete (get_or o.index_of t 0) 0) [
  | no n ↦ rw (added_before o t n) (w, n, λ u d. refl)
  | yes z ↦
      let (xs, g, e) = added o t z in
      rw e (
        added_distinct o t xs w g,
        λ q. omega (arith, q, get_or-set_self xs t (o.num_indexes + 1) 0 g.room),
        λ u d. get_or-set_ne xs (o.num_indexes + 1) 0 (λ p. d (sym p)) ∙ g.same u,
      )
]
