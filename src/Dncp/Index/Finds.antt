-- ===== src/Dncp/Index/Finds.antt =====
-- The slots of the index for one type (`dncp_node_recalculate_index` in src/dncp.c).
use mathlib.Core.Path.{subst}
use hnetd.Common.{
  ℕ, ◌+◌, ◌-◌, ◌*◌, ◌≤◌, ◌<◌, ◌≡◌, refl, sym, ap, ◌∙◌, ◌≢◌, inl, inr, true, false, Option, none,
  some, List, [], ◌∷◌, ◌++◌, arith, ℕ_discrete, leb, ◌==◌, if◌then◌else◌, ==_refl, ne→==, ==_iff,
  Bool-cases, length, get_or, length-append, drop-append_length,
}
use hnetd.Bitops.{Bytes}
use hnetd.Tlv.{tlv_id}
use hnetd.Dncp.Index.Steps.{
  put_ne, put_same, mark_idx, mark_type, scan_same, scan_enter, scan_break,
}
use hnetd.Dncp.Index.{Scan, is_type, entered, mark_next, scan_tlvs, walk, for_each_tlv}

-- The TLVs of a type, in order.
abbrev pub of_type : ℕ → List Bytes → List Bytes
of_type t [] = []
of_type t (a ∷ rest) = if tlv_id a == t then a ∷ of_type t rest else of_type t rest

abbrev pub Above : ℕ → List Bytes → Type 0
Above t [] = Unit
Above t (a ∷ rest) = (t ≤ tlv_id a) × Above t rest

-- The types ascend, as `tlv_attr_cmp` orders the TLVs.
abbrev pub Ascending : List Bytes → Type 0
Ascending [] = Unit
Ascending (a ∷ rest) = Above (tlv_id a) rest × Ascending rest

of_type_own :
    (t : ℕ) (a : Bytes) (rest : List Bytes)
    → tlv_id a ≡ t
    → of_type t (a ∷ rest) ≡ a ∷ of_type t rest
of_type_own t a rest e = rw ((==_iff (tlv_id a) t).1 e) refl

of_type_other :
    (t : ℕ) (a : Bytes) (rest : List Bytes) → tlv_id a ≢ t → of_type t (a ∷ rest) ≡ of_type t rest
of_type_other t a rest e = rw (ne→== (tlv_id a) t e) refl

Above-none : (t u : ℕ) (tlvs : List Bytes) → t < u → Above u tlvs → of_type t tlvs ≡ []
Above-none t u [] b v = refl
Above-none t u (a ∷ rest) b v =
    of_type_other t a rest (λ e. omega (arith, v.0)) ∙ Above-none t u rest b v.1

append_one :
    (before : List Bytes) (a : Bytes) (rest : List Bytes)
    → (before ++ a ∷ []) ++ rest ≡ before ++ a ∷ rest
append_one [] a rest = refl
append_one (x ∷ xs) a rest = ap (x ∷◌) (append_one xs a rest)

-- A type `t` with its index, which no other type has.
module _ (index_of : List ℕ) (t : ℕ) (n : get_or index_of t 0 ≢ 0)
    (own : (u : ℕ) → get_or index_of u 0 ≡ get_or index_of t 0 → u ≡ t) where
  abbrev pub i : ℕ
  i = get_or index_of t 0

  -- The slots of the type are as given.
  abbrev pub Slots : Option ℕ → Option ℕ → (ℕ → Option ℕ) → Type 0
  Slots first next slots = (slots (2 * i - 2) ≡ first) × (slots (2 * i - 1) ≡ next)

  entered_other :
      (pos u : ℕ) (s : Scan) (first next : Option ℕ)
      → u ≢ t
      → Slots first next s.slots
      → ((entered index_of pos u s).idx ≢ i) × Slots first next (entered index_of pos u s).slots
  unfolding entered
  entered_other pos u s first next d h =
      let j = get_or index_of u 0 in
      (
        λ e. d (own u e),
        elim (ℕ_discrete j 0) [
          | yes z ↦ rw z h
          | no z ↦ rw (ne→== j 0 z) (
            put_ne (2 * j - 2) pos s.slots (2 * i - 2) (λ e. d (own u (omega arith))) ∙ h.0,
            put_ne (2 * j - 2) pos s.slots (2 * i - 1) (λ e. omega arith) ∙ h.1,
          )
        ],
      )

  mark_other :
      (pos : ℕ) (s : Scan) (first next : Option ℕ)
      → s.idx ≢ i
      → Slots first next s.slots
      → Slots first next (mark_next pos s).slots
  unfolding mark_next
  mark_other pos s first next d h = elim (ℕ_discrete s.idx 0) [
    | yes z ↦ rw ((==_iff s.idx 0).1 z) h
    | no z ↦ rw (ne→== s.idx 0 z) (
      put_ne (2 * s.idx - 1) (pos + 1) s.slots (2 * i - 2) (λ e. omega arith) ∙ h.0,
      put_ne (2 * s.idx - 1) (pos + 1) s.slots (2 * i - 1) (λ e. omega arith) ∙ h.1,
    )
  ]

  -- The TLVs of other types leave the slots.
  scan_other :
      (tlvs : List Bytes) (pos : ℕ) (s : Scan) (first next : Option ℕ)
      → of_type t tlvs ≡ []
      → s.idx ≢ i
      → Slots first next s.slots
      → Slots first next (scan_tlvs index_of tlvs pos s).slots
  unfolding scan_tlvs
  scan_other [] pos s first next z d h = h
  scan_other (a ∷ rest) pos s first next z d h = elim (ℕ_discrete (tlv_id a) t) [
    | yes e ↦ absurd (cc (sym (of_type_own t a rest e) ∙ z))
    | no e ↦
        let u = tlv_id a in
        let z' : of_type t rest ≡ [] = sym (of_type_other t a rest e) ∙ z in
        elim (Bool-cases (is_type u s.type)) [
          | inl y ↦ rw (scan_same index_of a rest pos s y) (
              scan_other rest (pos + 1) (mark_next pos s) first next z'
                (λ q. d (sym (mark_idx pos s) ∙ q)) (mark_other pos s first next d h))
          | inr y ↦ elim (Bool-cases (leb (length index_of) u)) [
            | inl l ↦ rw (scan_break index_of a rest pos s y l) h
            | inr l ↦
                let (d', h') = entered_other pos u s first next e h in
                rw (scan_enter index_of a rest pos s y l) (
                  scan_other rest (pos + 1) (mark_next pos (entered index_of pos u s)) first next z'
                    (λ q. d' (sym (mark_idx pos (entered index_of pos u s)) ∙ q))
                    (mark_other pos (entered index_of pos u s) first next d' h'))
          ]
        ]
  ]

  -- The slots find the TLVs of the type in the list from `pos` on.
  record Run (tlvs : List Bytes) (pos : ℕ) (first : Option ℕ) (slots : ℕ → Option ℕ) : Type 0 where
    next : ℕ
    after : pos ≤ next
    found : Slots first (some next) slots
    walked : walk tlvs pos next ≡ some (of_type t tlvs)

  walk_end : (tlvs : List Bytes) (pos : ℕ) → walk tlvs pos pos ≡ some []
  unfolding walk
  walk_end [] pos = rw (==_refl pos) refl
  walk_end (a ∷ rest) pos = rw (==_refl pos) refl

  walk_more :
      (a : Bytes) (rest tail : List Bytes) (pos next : ℕ)
      → pos < next
      → walk rest (pos + 1) next ≡ some tail
      → walk (a ∷ rest) pos next ≡ some (a ∷ tail)
  unfolding walk
  walk_more a rest as' pos next b e = rw (ne→== pos next (λ q. omega arith), e) refl

  idle :
      (tlvs : List Bytes) (pos : ℕ) (first : Option ℕ) (slots : ℕ → Option ℕ)
      → of_type t tlvs ≡ []
      → Slots first (some pos) slots
      → Run tlvs pos first slots
  idle tlvs pos first slots z h = record {
    next = pos;
    after = omega arith;
    found = h;
    walked = walk_end tlvs pos ∙ ap (λ xs. some xs) (sym z);
  }

  mark_own :
      (pos : ℕ) (s : Scan) (first next : Option ℕ)
      → s.idx ≡ i
      → Slots first next s.slots
      → Slots first (some (pos + 1)) (mark_next pos s).slots
  unfolding mark_next
  mark_own pos s first next d h =
      rw (d, ne→== i 0 n)
        (
          put_ne (2 * i - 1) (pos + 1) s.slots (2 * i - 2) (λ e. omega arith) ∙ h.0,
          put_same (2 * i - 1) (pos + 1) s.slots,
        )

  type_is : (u : ℕ) (o : Option ℕ) → o ≡ some t → u ≡ t → is_type u o ≡ true
  unfolding is_type
  type_is u o y e = rw (y, e) (==_refl t)

  type_not : (u : ℕ) (o : Option ℕ) → o ≡ some t → u ≢ t → is_type u o ≡ false
  unfolding is_type
  type_not u o y e = rw y (ne→== u t e)

  -- After a TLV of the type.
  scan-Run :
      (tlvs : List Bytes) (pos : ℕ) (s : Scan) (first : Option ℕ)
      → Above t tlvs
      → Ascending tlvs
      → s.type ≡ some t
      → s.idx ≡ i
      → Slots first (some pos) s.slots
      → Run tlvs pos first (scan_tlvs index_of tlvs pos s).slots
  unfolding scan_tlvs
  scan-Run [] pos s first b v y d h = idle [] pos first s.slots refl h
  scan-Run (a ∷ rest) pos s first b v y d h = elim (ℕ_discrete (tlv_id a) t) [
    | yes e ↦
        let r =
          scan-Run rest (pos + 1) (mark_next pos s) first b.1 v.1 (mark_type pos s ∙ y)
            (mark_idx pos s ∙ d) (mark_own pos s first (some pos) d h) in
        rw (scan_same index_of a rest pos s (type_is (tlv_id a) s.type y e)) (record {
          next = r.next;
          after = omega (arith, r.after);
          found = r.found;
          walked =
              walk_more a rest (of_type t rest) pos r.next (omega (arith, r.after)) r.walked
              ∙ ap (λ xs. some xs) (sym (of_type_own t a rest e));
        })
    | no e ↦
        let u = tlv_id a in
        let z = Above-none t u rest (omega (arith, b.0)) v.0 in
        let z' = of_type_other t a rest e ∙ z in
        let y' = type_not u s.type y e in
        elim (Bool-cases (leb (length index_of) u)) [
          | inl l ↦
              rw (scan_break index_of a rest pos s y' l) (idle (a ∷ rest) pos first s.slots z' h)
          | inr l ↦
              let s' = entered index_of pos u s in
              let (d', h') = entered_other pos u s first (some pos) e h in
              rw (scan_enter index_of a rest pos s y' l) (
                idle (a ∷ rest) pos first _ z' (
                  scan_other rest (pos + 1) (mark_next pos s') first (some pos) z
                    (λ q. d' (sym (mark_idx pos s') ∙ q))
                    (mark_other pos s' first (some pos) d' h')))
        ]
  ]

  type_is_ne : (u : ℕ) (o : Option ℕ) → is_type u o ≡ true → u ≢ t → is_type t o ≡ false
  unfolding is_type
  type_is_ne u none y e = absurd (cc y)
  type_is_ne u (some w) y e = ne→== t w (λ q. e ((==_iff u w).0 y ∙ sym q))

  -- The slots lead `for_each_tlv` to these TLVs.
  abbrev pub Leads : List Bytes → List Bytes → (ℕ → Option ℕ) → Type 0
  Leads tlvs result slots = for_each_tlv tlvs (slots (2 * i - 2)) (slots (2 * i - 1)) ≡ some result

  Leads-nowhere :
      (tlvs : List Bytes) (slots : ℕ → Option ℕ) → Slots none none slots → Leads tlvs [] slots
  unfolding for_each_tlv
  Leads-nowhere tlvs slots h = rw (h.0, for_each_tlv) refl

  Leads-to :
      (before tlvs : List Bytes) (slots : ℕ → Option ℕ)
      → Run tlvs (length before) (some (length before)) slots
      → Leads (before ++ tlvs) (of_type t tlvs) slots
  unfolding for_each_tlv
  Leads-to before tlvs slots r =
      rw (r.found.0, r.found.1, for_each_tlv, drop-append_length before tlvs) r.walked

  other_type : (u : ℕ) → u ≢ t → is_type t (some u) ≡ false
  unfolding is_type
  other_type u e = ne→== t u (λ q. e (sym q))

  entered_is : (pos u : ℕ) (s : Scan) → (entered index_of pos u s).type ≡ some u
  unfolding entered
  entered_is pos u s = refl

  entered_type : (pos u : ℕ) (s : Scan) → (mark_next pos (entered index_of pos u s)).type ≡ some u
  entered_type pos u s = mark_type pos (entered index_of pos u s) ∙ entered_is pos u s

  entered_at : (pos u : ℕ) (s : Scan) → u ≡ t → (entered index_of pos u s).idx ≡ i
  unfolding entered
  entered_at pos u s e = ap (λ w. get_or index_of w 0) e

  entered_idx : (pos u : ℕ) (s : Scan) → u ≡ t → (mark_next pos (entered index_of pos u s)).idx ≡ i
  entered_idx pos u s e = mark_idx pos (entered index_of pos u s) ∙ entered_at pos u s e

  entered_first :
      (pos u : ℕ) (s : Scan) → u ≡ t → (entered index_of pos u s).slots (2 * i - 2) ≡ some pos
  unfolding entered
  entered_first pos u s e = rw (e, ne→== i 0 n) (put_same (2 * i - 2) pos s.slots)

  entered_own :
      (pos u : ℕ) (s : Scan)
      → u ≡ t
      → Slots (some pos) (some (pos + 1)) (mark_next pos (entered index_of pos u s)).slots
  entered_own pos u s e =
      let s' = entered index_of pos u s in
      mark_own pos s' (some pos) (s'.slots (2 * i - 1)) (entered_at pos u s e)
        (entered_first pos u s e, refl)

  moved :
      (before : List Bytes) (a : Bytes) (rest result : List Bytes) (s : Scan)
      → Leads
          ((before ++ a ∷ []) ++ rest)
          result
          (scan_tlvs index_of rest (length (before ++ a ∷ [])) s).slots
      → Leads (before ++ a ∷ rest) result (scan_tlvs index_of rest (length before + 1) s).slots
  moved before a rest result s h =
      subst (λ p. Leads (before ++ a ∷ rest) result (scan_tlvs index_of rest p s).slots)
        (length-append before (a ∷ []))
        (subst
          (λ all. Leads all result (scan_tlvs index_of rest (length (before ++ a ∷ [])) s).slots)
          (append_one before a rest) h)

  -- Before the first TLV of the type.
  pub scan_before :
      (tlvs before : List Bytes) (s : Scan)
      → t < length index_of
      → Ascending tlvs
      → is_type t s.type ≡ false
      → s.idx ≢ i
      → Slots none none s.slots
      → Leads (before ++ tlvs) (of_type t tlvs) (scan_tlvs index_of tlvs (length before) s).slots
  unfolding scan_tlvs
  scan_before [] before s m v y d h = Leads-nowhere (before ++ []) s.slots h
  scan_before (a ∷ rest) before s m v y d h = elim (ℕ_discrete (tlv_id a) t) [
    | yes e ↦
        let pos = length before in
        let s' = mark_next pos (entered index_of pos (tlv_id a) s) in
        let r =
          scan-Run rest (pos + 1) s' (some pos) (subst (λ u. Above u rest) e v.0) v.1
            (entered_type pos (tlv_id a) s ∙ ap (λ u. some u) e) (entered_idx pos (tlv_id a) s e)
            (entered_own pos (tlv_id a) s e) in
        rw
          (scan_enter index_of a rest pos s (subst (λ u. is_type u s.type ≡ false) (sym e) y)
            (subst (λ u. leb (length index_of) u ≡ false) (sym e) (ground arith)))
          (Leads-to before (a ∷ rest) (scan_tlvs index_of rest (pos + 1) s').slots (record {
            next = r.next;
            after = omega (arith, r.after);
            found = r.found;
            walked =
                walk_more a rest (of_type t rest) pos r.next (omega (arith, r.after)) r.walked
                ∙ ap (λ xs. some xs) (sym (of_type_own t a rest e));
          }))
    | no e ↦
        let pos = length before in
        let u = tlv_id a in
        rw (of_type_other t a rest e) (elim (Bool-cases (is_type u s.type)) [
          | inl k ↦ rw (scan_same index_of a rest pos s k) (
              moved before a rest (of_type t rest) (mark_next pos s) (
                scan_before rest (before ++ a ∷ []) (mark_next pos s) m v.1
                  (ap (is_type t) (mark_type pos s) ∙ y) (λ q. d (sym (mark_idx pos s) ∙ q))
                  (mark_other pos s none none d h)))
          | inr k ↦ elim (Bool-cases (leb (length index_of) u)) [
            | inl l ↦ rw (scan_break index_of a rest pos s k l) (
                rw (Above-none t u rest (ground arith) v.0)
                  (Leads-nowhere (before ++ a ∷ rest) s.slots h))
            | inr l ↦
                let s' = entered index_of pos u s in
                let (d', h') = entered_other pos u s none none e h in
                rw (scan_enter index_of a rest pos s k l) (
                  moved before a rest (of_type t rest) (mark_next pos s') (
                    scan_before rest (before ++ a ∷ []) (mark_next pos s') m v.1
                      (ap (is_type t) (mark_type pos s' ∙ entered_is pos u s) ∙ other_type u e)
                      (λ q. d' (sym (mark_idx pos s') ∙ q)) (mark_other pos s' none none d' h')))
          ]
        ])
  ]
