-- ===== src/Dncp/Publish/Sync.antt =====
-- The published and the local TLVs after a flush (`dncp_self_flush` in src/dncp.c).
use mathlib.Core.Path.{subst}
use hnetd.Common.{
  ℕ, ◌+◌, ◌%◌, ◌^◌, ◌≡◌, refl, sym, ap, ◌∙◌, inl, inr, Bool, true, false, not, ◌&&◌, ◌||◌, Option,
  none, some, List, arith, if◌then◌else◌, Bool-cases, Option-cases,
}
use hnetd.Bitops.{Bytes}
use hnetd.Tlv.{tlv_attr_equal}
use hnetd.Tlv.Equal.{tlv_attr_equal_refl, some_published}
use hnetd.Pa.State.{is_some}
use hnetd.Dncp.Graph.Flush.{if_both}
use hnetd.Dncp.Graph.Replace.{node_set-tlv_container}
use hnetd.Dncp.Publish.{
  Local, Outside, packed, own_container, produce_new_tlvs, republish, publish_tlvs, flush_rest,
  self_flush,
}

-- The own node's data are the local TLVs `tlvs`.
abbrev pub is_published : Local → List Bytes → Bool
is_published s tlvs = tlv_attr_equal (some (packed tlvs)) (own_container s)

-- There is nothing to flush, and the local TLVs are published.
pub record Synced (s : Local) : Type 0 where
  pub clean : s.tlvs_dirty ≡ false
  pub published : is_published s s.tlvs ≡ true

publish_same :
    (validates : ℕ → Bytes → Bool) (a : Option Bytes) (s : Local)
    → ((publish_tlvs validates a s).tlvs ≡ s.tlvs)
      × ((publish_tlvs validates a s).tlvs_dirty ≡ s.tlvs_dirty)
unfolding publish_tlvs
publish_same validates a s = (refl, refl)

publish-own_container :
    (validates : ℕ → Bytes → Bool) (b : Bytes) (s : Local)
    → own_container (publish_tlvs validates (some b) s)
      ≡ (if tlv_attr_equal (some b) (own_container s) then own_container s else some b)
unfolding publish_tlvs own_container
publish-own_container validates b s =
    node_set-tlv_container validates s.own (((s.net.graph.node s.own).update_number + 1) % 2 ^ 32)
      s.net.now b s.net

publish_again :
    (validates : ℕ → Bytes → Bool) (s : Local) (c : Bytes)
    → own_container s ≡ some c
    → publish_tlvs validates none s ≡ publish_tlvs validates (some c) s
unfolding publish_tlvs own_container
publish_again validates s c e = rw (e, publish_tlvs) refl

-- Publishing the local TLVs.
publish_new-Synced :
    (validates : ℕ → Bytes → Bool) (s : Local)
    → s.tlvs_dirty ≡ false
    → Synced (publish_tlvs validates (some (packed s.tlvs)) s)
publish_new-Synced validates s d =
    let a = some (packed s.tlvs) in
    let (same, clean) = publish_same validates a s in
    let c = publish-own_container validates (packed s.tlvs) s in
    record {
      clean = clean ∙ d;
      published =
          ap (λ ts. tlv_attr_equal (some (packed ts)) (own_container (publish_tlvs validates a s)))
            same
          ∙ ap (tlv_attr_equal a) c
          ∙ (elim (Bool-cases (is_published s s.tlvs)) [
            | inl t ↦ rw t t
            | inr t ↦ rw t (tlv_attr_equal_refl a)
          ]);
    }

-- Publishing the same data once more.
publish_old-Synced :
    (validates : ℕ → Bytes → Bool) (s : Local) → Synced s → Synced (publish_tlvs validates none s)
publish_old-Synced validates s v =
    let (b, e) = some_published (packed s.tlvs) (own_container s) v.published in
    let (same, clean) = publish_same validates (some b) s in
    let c = publish-own_container validates b s in
    let kept : tlv_attr_equal (some b) (own_container s) ≡ true =
      ap (tlv_attr_equal (some b)) e ∙ tlv_attr_equal_refl (some b) in
    subst Synced (sym (publish_again validates s b e)) (record {
      clean = clean ∙ v.clean;
      published =
          ap
            (λ ts.
              tlv_attr_equal (some (packed ts)) (own_container (publish_tlvs validates (some b) s)))
            same
          ∙ ap (tlv_attr_equal (some (packed s.tlvs))) (c ∙ rw kept refl)
          ∙ v.published;
    })

-- The ways through `produce_new_tlvs`, when the memory suffices.
produce_none :
    (fits : Bool) (s : Local) → s.tlvs_dirty ≡ false → produce_new_tlvs fits s ≡ (none, s)
unfolding produce_new_tlvs
produce_none fits s d =
    rw (let e : (not s.tlvs_dirty || not fits) ≡ true = ground arith in e, produce_new_tlvs) refl

abbrev cleaned : Local → Local
cleaned s = record s { tlvs_dirty = false }

produce_equal :
    (s : Local)
    → s.tlvs_dirty ≡ true
    → is_published s s.tlvs ≡ true
    → produce_new_tlvs true s ≡ (none, cleaned s)
unfolding produce_new_tlvs
produce_equal s d p =
    rw (let e : (not s.tlvs_dirty || not true) ≡ false = ground arith in e, produce_new_tlvs, p)
      refl

produce_some :
    (s : Local)
    → s.tlvs_dirty ≡ true
    → is_published s s.tlvs ≡ false
    → produce_new_tlvs true s ≡ (some (packed s.tlvs), cleaned s)
unfolding produce_new_tlvs
produce_some s d p =
    rw (let e : (not s.tlvs_dirty || not true) ≡ false = ground arith in e, produce_new_tlvs, p)
      refl

-- The state after the callbacks.
abbrev called : List Bytes → Local → Local
called tlvs s = record s { tlvs = tlvs; tlvs_dirty = false; republish_tlvs = false }

abbrev unasked : Local → Local
unasked s = record s { republish_tlvs = false }

republish_none : (out : Outside) (s : Local) → out.callback s.tlvs ≡ none → republish out s ≡ s
unfolding republish
republish_none out s q = rw (q, republish) refl

republish_some :
    (out : Outside) (s : Local) (tlvs : List Bytes)
    → out.callback s.tlvs ≡ some tlvs
    → republish out s ≡ record s { tlvs = tlvs; tlvs_dirty = true }
unfolding republish
republish_some out s tlvs q = rw (q, republish) refl

module _ (validates : ℕ → Bytes → Bool) (out : Outside) (a : Option Bytes) (s : Local) where
  abbrev finish : Option Bytes × Local → Local
  finish x =
      publish_tlvs validates (elim x.0 as (λ _. Option Bytes) [ none ↦ a | some b ↦ some b ]) x.1

  -- The second buffer, and the state after it.
  abbrev second : Local → Option Bytes × Local
  second r = produce_new_tlvs out.second_fits (unasked r)

  rest_finish :
      (r : Local) (x : Option Bytes × Local)
      → republish out s ≡ r
      → second r ≡ x
      → flush_rest validates out a s ≡ finish x
  unfolding flush_rest
  rest_finish r x e f = ap (λ y. finish (second y)) e ∙ ap finish f

  rest_quiet :
      out.callback s.tlvs ≡ none
      → s.tlvs_dirty ≡ false
      → flush_rest validates out a s ≡ publish_tlvs validates a (unasked s)
  rest_quiet q d =
      rest_finish s (none, unasked s) (republish_none out s q)
        (produce_none out.second_fits (unasked s) d)

  -- The callbacks change the local TLVs to others, or to those that are published.
  module _ (tlvs : List Bytes) (q : out.callback s.tlvs ≡ some tlvs)
      (f : out.second_fits ≡ true) where
    abbrev changed : Local
    changed = record s { tlvs = tlvs; tlvs_dirty = true }

    rest_changed :
        is_published s tlvs ≡ false
        → flush_rest validates out a s ≡ publish_tlvs validates (some (packed tlvs)) (called tlvs s)
    unfolding own_container
    rest_changed p =
        rest_finish changed (some (packed tlvs), called tlvs s) (republish_some out s tlvs q)
          (ap (λ b. produce_new_tlvs b (unasked changed)) f ∙ produce_some (unasked changed) refl p)

    rest_restored :
        is_published s tlvs ≡ true
        → flush_rest validates out a s ≡ publish_tlvs validates a (called tlvs s)
    unfolding own_container
    rest_restored p =
        rest_finish changed (none, called tlvs s) (republish_some out s tlvs q)
          (ap (λ b. produce_new_tlvs b (unasked changed)) f
            ∙ produce_equal (unasked changed) refl p)

-- After the first buffer: there is none and the local TLVs are published, or it has the local TLVs.
module _ (validates : ℕ → Bytes → Bool) (out : Outside) (s : Local) (d : s.tlvs_dirty ≡ false)
    (f : out.second_fits ≡ true)
    (fresh : (tlvs : List Bytes)
      → out.callback s.tlvs ≡ some tlvs
      → is_published s tlvs ≡ false) where
  rest_old-Synced : is_published s s.tlvs ≡ true → Synced (flush_rest validates out none s)
  unfolding own_container
  rest_old-Synced p = elim (Option-cases (out.callback s.tlvs)) [
    | inl q ↦
        subst Synced (sym (rest_quiet validates out none s q d))
          (publish_old-Synced validates (unasked s) (record { clean = d; published = p }))
    | inr (tlvs, q) ↦
        subst Synced (sym (rest_changed validates out none s tlvs q f (fresh tlvs q)))
          (publish_new-Synced validates (called tlvs s) refl)
  ]

  rest_new-Synced : Synced (flush_rest validates out (some (packed s.tlvs)) s)
  rest_new-Synced = elim (Option-cases (out.callback s.tlvs)) [
    | inl q ↦
        subst Synced (sym (rest_quiet validates out (some (packed s.tlvs)) s q d))
          (publish_new-Synced validates (unasked s) d)
    | inr (tlvs, q) ↦
        subst Synced
          (sym (rest_changed validates out (some (packed s.tlvs)) s tlvs q f (fresh tlvs q)))
          (publish_new-Synced validates (called tlvs s) refl)
  ]

-- The flush after the first buffer.
abbrev flushed : (ℕ → Bytes → Bool) → Outside → Option Bytes × Local → Local
flushed validates out x =
    if not (is_some x.0) && not x.1.republish_tlvs then x.1 else flush_rest validates out x.0 x.1

flush_after :
    (validates : ℕ → Bytes → Bool) (out : Outside) (s : Local) (x : Option Bytes × Local)
    → out.first_fits ≡ true
    → produce_new_tlvs true s ≡ x
    → self_flush validates out s ≡ flushed validates out x
unfolding self_flush
flush_after validates out s x f e =
    ap (λ b. flushed validates out (produce_new_tlvs b s)) f ∙ ap (flushed validates out) e

-- A flush of a node whose local TLVs are dirty or published, when the memory suffices, leaves the local TLVs
-- published and clean, also when the callbacks change them; but the callbacks may not change them back to the
-- TLVs that are published.
pub self_flush-Synced :
    (validates : ℕ → Bytes → Bool) (out : Outside) (s : Local)
    → (s.tlvs_dirty ≡ false → is_published s s.tlvs ≡ true)
    → out.first_fits ≡ true
    → out.second_fits ≡ true
    → ((tlvs : List Bytes) → out.callback s.tlvs ≡ some tlvs → is_published s tlvs ≡ false)
    → Synced (self_flush validates out s)
unfolding own_container
self_flush-Synced validates out s v f1 f2 fresh = elim (Bool-cases s.tlvs_dirty) [
  | inr d ↦ subst Synced (sym (flush_after validates out s (none, s) f1 (produce_none true s d))) (
      if_both Synced (not s.republish_tlvs) s _ (record { clean = d; published = v d })
        (rest_old-Synced validates out s d f2 fresh (v d)))
  | inl d ↦ elim (Bool-cases (is_published s s.tlvs)) [
    | inl p ↦
        subst Synced (sym (flush_after validates out s (none, cleaned s) f1 (produce_equal s d p)))
          (if_both Synced (not s.republish_tlvs) (cleaned s) _
            (record { clean = refl; published = p })
            (rest_old-Synced validates out (cleaned s) refl f2 fresh p))
    | inr p ↦
        subst Synced
          (sym
            (flush_after validates out s (some (packed s.tlvs), cleaned s) f1 (produce_some s d p)))
          (rest_new-Synced validates out (cleaned s) refl f2 fresh)
  ]
]

-- The gap of `self_flush-Synced`: if the local TLVs are not those that are published, and the callbacks change
-- them back to those, then the flush leaves the local TLVs clean, and publishes what they were before the
-- callbacks.
pub self_flush_stale :
    (validates : ℕ → Bytes → Bool) (out : Outside) (s : Local) (tlvs : List Bytes)
    → s.tlvs_dirty ≡ true
    → is_published s s.tlvs ≡ false
    → out.first_fits ≡ true
    → out.second_fits ≡ true
    → out.callback s.tlvs ≡ some tlvs
    → is_published s tlvs ≡ true
    → let s' = self_flush validates out s in
      (s'.tlvs ≡ tlvs) × (s'.tlvs_dirty ≡ false) × (own_container s' ≡ some (packed s.tlvs))
unfolding own_container
self_flush_stale validates out s tlvs d p f1 f2 q r =
    let a = some (packed s.tlvs) in
    let all =
      flush_after validates out s (a, cleaned s) f1 (produce_some s d p)
      ∙ rest_restored validates out a (cleaned s) tlvs q f2 r in
    let (same, clean) = publish_same validates a (called tlvs (cleaned s)) in
    (
      ap (λ x. x.tlvs) all ∙ same,
      ap (λ x. x.tlvs_dirty) all ∙ clean,
      ap own_container all
          ∙ publish-own_container validates (packed s.tlvs) (called tlvs (cleaned s))
          ∙ rw p refl,
    )
