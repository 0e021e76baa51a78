-- ===== src/Dncp/Publish/Number.antt =====
-- The update number that a flush publishes (`dncp_self_flush` in src/dncp.c).
use hnetd.Common.{
  ℕ, ◌+◌, ◌%◌, ◌^◌, ◌≡◌, ap, ◌∙◌, ◌≢◌, Bool, true, false, not, ◌&&◌, Option, none, some, arith,
  if◌then◌else◌,
}
use hnetd.Bitops.{Bytes}
use hnetd.Pa.State.{is_some}
use hnetd.Dncp.Graph.Replace.{node_set-update_number, node_set_other}
use hnetd.Dncp.Graph.Flush.{if_both}
use hnetd.Dncp.Publish.{
  Local, Outside, produce_new_tlvs, republish, publish_tlvs, flush_rest, self_flush,
}

-- The own node's number.
abbrev pub own_number : Local → ℕ
own_number s = (s.net.graph.node s.own).update_number

-- Filling a buffer and the callbacks leave the nodes alone.
record SameNode (s s' : Local) : Type 0 where
  net : s'.net ≡ s.net
  own : s'.own ≡ s.own
  asked : s'.republish_tlvs ≡ s.republish_tlvs

produce-SameNode : (fits : Bool) (s : Local) → SameNode s (produce_new_tlvs fits s).1
unfolding produce_new_tlvs
produce-SameNode fits s = record { net = ground arith; own = ground arith; asked = ground arith }

republish-SameNode : (out : Outside) (s : Local) → SameNode s (republish out s)
unfolding republish
republish-SameNode out s = record { net = ground arith; own = ground arith; asked = ground arith }

same_number : {s s' : Local} → SameNode s s' → own_number s' ≡ own_number s
same_number e = λ i. ((e.net i).graph.node (e.own i)).update_number

publish_tlvs-own_number :
    (validates : ℕ → Bytes → Bool) (a : Option Bytes) (s : Local)
    → own_number (publish_tlvs validates a s) ≡ (own_number s + 1) % 2 ^ 32
unfolding publish_tlvs
publish_tlvs-own_number validates a s =
    node_set-update_number validates s.own ((own_number s + 1) % 2 ^ 32) s.net.now
      (elim a as (λ _. Option Bytes) [
        | none ↦ (s.net.graph.node s.own).tlv_container
        | some b ↦ some b
      ])
      s.net

flush_rest-own_number :
    (validates : ℕ → Bytes → Bool) (out : Outside) (a : Option Bytes) (s : Local)
    → own_number (flush_rest validates out a s) ≡ (own_number s + 1) % 2 ^ 32
unfolding flush_rest
flush_rest-own_number validates out a s =
    let called = record (republish out s) { republish_tlvs = false } in
    let (a2, s3) = produce_new_tlvs out.second_fits called in
    publish_tlvs-own_number validates
      (elim a2 as (λ _. Option Bytes) [ none ↦ a | some b ↦ some b ]) s3
    ∙ ap (λ (n : ℕ). (n + 1) % 2 ^ 32)
        (same_number (produce-SameNode out.second_fits called)
          ∙ same_number (republish-SameNode out s))

if_asked :
    (b asked : Bool) → asked ≡ true → (x y : Local) → (if not b && not asked then x else y) ≡ y
if_asked b asked e x y = ground arith

-- A flush that is asked for publishes the next number, also if the local TLVs have not changed.
pub self_flush-own_number :
    (validates : ℕ → Bytes → Bool) (out : Outside) (s : Local)
    → s.republish_tlvs ≡ true
    → own_number (self_flush validates out s) ≡ (own_number s + 1) % 2 ^ 32
unfolding self_flush
self_flush-own_number validates out s e =
    let (a, s1) = produce_new_tlvs out.first_fits s in
    let same = produce-SameNode out.first_fits s in
    ap own_number (if_asked (is_some a) s1.republish_tlvs (same.asked ∙ e) s1 _)
    ∙ flush_rest-own_number validates out a s1
    ∙ ap (λ (n : ℕ). (n + 1) % 2 ^ 32) (same_number same)

-- A flush leaves the other nodes.
module _ (validates : ℕ → Bytes → Bool) (out : Outside) (j : ℕ) where
  abbrev Others : Local → Local → Type 0
  Others s s' = s'.net.graph.node j ≡ s.net.graph.node j

  publish_tlvs-Others :
      (a : Option Bytes) (s : Local) → j ≢ s.own → Others s (publish_tlvs validates a s)
  unfolding publish_tlvs
  publish_tlvs-Others a s h =
      node_set_other validates s.own j ((own_number s + 1) % 2 ^ 32) s.net.now
        (elim a as (λ _. Option Bytes) [
          | none ↦ (s.net.graph.node s.own).tlv_container
          | some b ↦ some b
        ])
        s.net h

  same-Others : {s s' : Local} → SameNode s s' → Others s s'
  same-Others e = ap (λ o. o.graph.node j) e.net

  flush_rest-Others :
      (a : Option Bytes) (s : Local) → j ≢ s.own → Others s (flush_rest validates out a s)
  unfolding flush_rest
  flush_rest-Others a s h =
      let called = record (republish out s) { republish_tlvs = false } in
      let (a2, s3) = produce_new_tlvs out.second_fits called in
      let second = produce-SameNode out.second_fits called in
      let first = republish-SameNode out s in
      publish_tlvs-Others (elim a2 as (λ _. Option Bytes) [ none ↦ a | some b ↦ some b ]) s3
        (λ e. h (e ∙ second.own ∙ first.own))
      ∙ same-Others second
      ∙ same-Others first

  pub self_flush-Others : (s : Local) → j ≢ s.own → Others s (self_flush validates out s)
  unfolding self_flush
  self_flush-Others s h =
      let (a, s1) = produce_new_tlvs out.first_fits s in
      let same = produce-SameNode out.first_fits s in
      let quiet = not (is_some a) && not s1.republish_tlvs in
      if_both (Others s) quiet s1 _ (same-Others same)
        (flush_rest-Others a s1 (λ e. h (e ∙ same.own)) ∙ same-Others same)
