-- ===== src/Dncp/Graph/Flush.antt =====
-- The nodes that leave the list at the end of `dncp_prune` (src/dncp_timeout.c, `update_node` and
-- `dncp_node_set` in src/dncp.c).
use mathlib.Core.List.{Memᴰ}
use mathlib.Core.List.Memᴰ
use hnetd.Common.{
  ℕ, ◌≡◌, refl, sym, ap, ◌∙◌, ◌↔◌, inl, inr, Bool, true, false, Option, none, List, [], ◌∷◌,
  if◌then◌else◌, Bool-cases,
}
use hnetd.Bitops.{Bytes}
use hnetd.Tlv.{tlv_attr_equal}
use hnetd.Dncp.Graph.{
  Net, Node, node_changed, tlvs_changed, schedules_timeout, is_marked, is_reachable, tell,
  flush_nodes, forget_node, node_set, put_node, replace_data, schedule, marked_nodes,
}

-- The times stay, and no subscriber is told that a node is not reachable any more.
pub record Calm (o o' : Net) : Type 0 where
  pub times : o'.last_reachable_prune ≡ o.last_reachable_prune
  pub silent : (j : ℕ) → Memᴰ (node_changed j false) o'.told → Memᴰ (node_changed j false) o.told

pub Calm-refl : (o : Net) → Calm o o
Calm-refl o = record { times = refl; silent = λ j m. m }

pub Calm-trans : (o o' o'' : Net) → Calm o o' → Calm o' o'' → Calm o o''
Calm-trans o o' o'' c c' = record {
  times = c'.times ∙ c.times;
  silent = λ j m. c.silent j (c'.silent j m);
}

pub if_both {ℓ κ} :
    {A : Type ℓ} (P : A → Type κ) (b : Bool) (x y : A) → P x → P y → P (if b then x else y)
if_both P true x y p q = p
if_both P false x y p q = q

pub tlvs_changed-Calm :
    (k : ℕ) (old new : Option Bytes) (o : Net) → Calm o (tell (tlvs_changed k old new) o)
unfolding tell
tlvs_changed-Calm k old new o = record {
  times = refl;
  silent = λ j m. elim (Memᴰ.cases_cons m) [ inl e ↦ absurd (cc e) | inr i ↦ i ];
}

schedules-Calm :
    (o : Net) → Calm o (tell schedules_timeout (record o { immediate_scheduled = true }))
unfolding tell
schedules-Calm o = record {
  times = refl;
  silent = λ j m. elim (Memᴰ.cases_cons m) [ inl e ↦ absurd (cc e) | inr i ↦ i ];
}

schedule-Calm : (o : Net) → Calm o (schedule o)
unfolding schedule
schedule-Calm o = if_both (Calm o) o.immediate_scheduled o _ (Calm-refl o) (schedules-Calm o)

put_node-Calm : (k : ℕ) (n : Node) (o o' : Net) → Calm o o' → Calm o (put_node k n o')
unfolding put_node
put_node-Calm k n o o' c = record { times = c.times; silent = c.silent }

dirty-Calm :
    (b g : Bool) (o o' : Net)
    → Calm o o'
    → Calm o (record o' { network_hash_dirty = b; graph_dirty = g })
dirty-Calm b g o o' c = record { times = c.times; silent = c.silent }

replace_data-Calm :
    (k : ℕ) (n : Node) (a : Option Bytes) (valid : Bool) (o : Net)
    → Calm o (replace_data k n a valid o)
unfolding replace_data
replace_data-Calm k n a valid o = dirty-Calm _ true o _ (
    put_node-Calm k _ o _
      (if_both (Calm o) (is_reachable o k) _ o (tlvs_changed-Calm k _ _ o) (Calm-refl o)))

pub node_set-Calm :
    (validates : ℕ → Bytes → Bool) (k update_number t : ℕ) (a : Option Bytes) (o : Net)
    → Calm o (node_set validates k update_number t a o)
unfolding node_set
node_set-Calm validates k update_number t a o = if_both (Calm o) _ o _ (Calm-refl o) (
    Calm-trans o _ _
      (dirty-Calm true _ o _ (
        if_both (Calm o) (tlv_attr_equal a (o.graph.node k).tlv_container) _ _
          (put_node-Calm k _ o o (Calm-refl o)) (replace_data-Calm k _ a _ o)))
      (schedule-Calm _))

forget_node-Calm :
    (validates : ℕ → Bytes → Bool) (k : ℕ) (o : Net) → Calm o (forget_node validates k o)
unfolding forget_node
forget_node-Calm validates k o =
    Calm-trans o _ _ (dirty-Calm true true o _ (node_set-Calm validates k 0 0 none o))
      (schedule-Calm _)

pub flush_nodes-Calm :
    (validates : ℕ → Bytes → Bool) (ks : List ℕ) (o : Net) → Calm o (flush_nodes validates ks o)
unfolding flush_nodes
flush_nodes-Calm validates [] o = Calm-refl o
flush_nodes-Calm validates (k ∷ ks) o =
    Calm-trans o _ _
      (if_both (Calm o) (is_marked o k) o _ (Calm-refl o) (forget_node-Calm validates k o))
      (flush_nodes-Calm validates ks _)

-- The nodes that stay are the marked ones.
pub marked_nodes-Mem :
    (o : Net) (ks : List ℕ) (j : ℕ)
    → Memᴰ j (marked_nodes o ks) ↔ (Memᴰ j ks × (is_marked o j ≡ true))
unfolding marked_nodes
marked_nodes-Mem o [] j = (λ m. absurd (Memᴰ.not-nil m), λ (m, t). absurd (Memᴰ.not-nil m))
marked_nodes-Mem o (k ∷ ks) j = elim (Bool-cases (is_marked o k)) [
  | inl u ↦ rw u (
    λ m. elim (Memᴰ.cases_cons m) [
      | inl e ↦ (Memᴰ.head e, ap (is_marked o) e ∙ u)
      | inr i ↦ let (x, t) = (marked_nodes-Mem o ks j).0 i in (Memᴰ.tail x, t)
    ],
    λ (m, t). elim (Memᴰ.cases_cons m) [
      | inl e ↦ Memᴰ.head e
      | inr i ↦ Memᴰ.tail ((marked_nodes-Mem o ks j).1 (i, t))
    ],
  )
  | inr u ↦ rw u (
    λ m. let (x, t) = (marked_nodes-Mem o ks j).0 m in (Memᴰ.tail x, t),
    λ (m, t). elim (Memᴰ.cases_cons m) [
      | inl e ↦ absurd (cc (sym t ∙ ap (is_marked o) e ∙ u))
      | inr i ↦ (marked_nodes-Mem o ks j).1 (i, t)
    ],
  )
]
