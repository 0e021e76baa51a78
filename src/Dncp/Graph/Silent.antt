-- ===== src/Dncp/Graph/Silent.antt =====
-- What `dncp_prune` tells the subscribers of lost nodes (src/dncp_timeout.c).
use mathlib.Core.List.{Memᴰ}
use mathlib.Core.List.Memᴰ
use mathlib.Core.Path.{subst}
use hnetd.Common.{
  ℕ, zero, suc, ◌+◌, ◌<◌, ◌≡◌, sym, ap, ◌∙◌, ◌≢◌, ◌⊎◌, inl, inr, Bool, true, false, not, ◌||◌, some,
  List, [], ◌∷◌, ltb, Bool-cases, Option-cases, length,
}
use hnetd.Bitops.{Bytes}
use hnetd.Dncp.Graph.{
  Net, Peer, node_changed, is_live, is_marked, is_reachable, prune_rec, prune_peers, peers,
  find_neigh_bidir, touch_node, node_set_reachable, tell_reachable, tell, xor, flood, age_nodes,
  prune,
}
use hnetd.Dncp.Graph.Marks.{visit}
use hnetd.Dncp.Graph.Age.{is_recent, recent_same, keep, keep-Steady, keep_times, keep_other}
use hnetd.Dncp.Graph.Flush.{if_both, flush_nodes-Calm}
use hnetd.Dncp.Graph.Prune.{IsNew, filled, flood_own, prune-Pruned}
use hnetd.Dncp.Graph.Walk.{Walk}

-- Node `j` is not newly told to be lost.
abbrev Silent : ℕ → Net → Net → Type 0
Silent j o o' = Memᴰ (node_changed j false) o'.told → Memᴰ (node_changed j false) o.told

gains-Silent : (j k : ℕ) (o : Net) → Silent j o (tell_reachable k true o)
unfolding tell_reachable tell
gains-Silent j k o m = elim (Memᴰ.cases_cons m) [
  | inl e ↦ absurd (cc e)
  | inr m' ↦ elim (Memᴰ.cases_cons m') [ inl e ↦ absurd (cc e) | inr i ↦ i ]
]

loses-Silent : (j k : ℕ) (o : Net) → j ≢ k → Silent j o (tell_reachable k false o)
unfolding tell_reachable tell
loses-Silent j k o n m = elim (Memᴰ.cases_cons m) [
  | inl e ↦ absurd (n (cc e))
  | inr m' ↦ elim (Memᴰ.cases_cons m') [ inl e ↦ absurd (cc e) | inr i ↦ i ]
]

visit-Silent : (j k : ℕ) (o : Net) → Silent j o (visit k o)
unfolding node_set_reachable touch_node
visit-Silent j k o =
    if_both (Silent j o) (xor (is_reachable (touch_node k o) k) true) _ _
      (gains-Silent j k (record (touch_node k o) { network_hash_dirty = true })) (λ m. m)

keep-Silent : (j k : ℕ) (o : Net) → j ≢ k → Silent j o (keep k o)
unfolding node_set_reachable touch_node
keep-Silent j k o n =
    if_both (Silent j o) (xor (is_reachable (touch_node k o) k) false) _ _
      (loses-Silent j k (record (touch_node k o) { network_hash_dirty = true }) n) (λ m. m)

loop-Silent :
    (j : ℕ) (next : ℕ → Net → Net) (k : ℕ) (ps : List Peer) (o : Net)
    → ((i : ℕ) (o : Net) → Silent j o (next i o))
    → Silent j o (prune_peers next k ps o)
unfolding prune_peers
loop-Silent j next k [] o h = λ m. m
loop-Silent j next k (ne ∷ ps) o h = elim (Option-cases (find_neigh_bidir o.graph k ne)) [
  | inl e ↦ rw (e, prune_peers) (loop-Silent j next k ps o h)
  | inr (i, e) ↦ rw (e, prune_peers) (λ m. h i o (loop-Silent j next k ps (next i o) h m))
]

prune_rec-Silent : (j fuel k : ℕ) (o : Net) → Silent j o (prune_rec fuel k o)
unfolding prune_rec
prune_rec-Silent j zero k o = λ m. m
prune_rec-Silent j (suc fuel) k o =
    if_both (Silent j o) (is_marked o k || not (is_live o.graph o.now k)) o _ (λ m. m)
      (λ m. visit-Silent j k o (
        loop-Silent j (prune_rec fuel) k (peers o.graph k) (visit k o)
          (λ i o'. prune_rec-Silent j fuel i o') m))

-- Aging tells that a node is lost only if it is recent and not marked.
age_nodes-Silent :
    (j : ℕ) (ks : List ℕ) (next_time : ℕ) (o : Net)
    → (is_marked o j ≡ true) ⊎ (is_recent o j ≡ false)
    → Silent j o (age_nodes ks next_time o).1
unfolding age_nodes
age_nodes-Silent j [] next_time o c = λ m. m
age_nodes-Silent j (k ∷ ks) next_time o c = elim (Bool-cases (is_marked o k)) [
  | inl t ↦ rw t (age_nodes-Silent j ks _ o c)
  | inr t ↦ elim (Bool-cases (ltb (o.last_reachable_prune k + o.grace_interval) o.now)) [
    | inl u ↦ rw (t, u) (age_nodes-Silent j ks next_time o c)
    | inr u ↦
        let n : j ≢ k = λ e. elim c [
          | inl x ↦ cc (sym t ∙ ap (is_marked o) (sym e) ∙ x)
          | inr y ↦ cc (sym y ∙ ap (is_recent o) e ∙ ap not u)
        ] in
        let same = recent_same o (keep k o) j (keep-Steady k o) (ap (λ g. g j) (keep_times k o)) in
        let c' : (is_marked (keep k o) j ≡ true) ⊎ (is_recent (keep k o) j ≡ false) = elim c [
          | inl x ↦ inl (keep_other k o j n ∙ x)
          | inr y ↦ inr (same ∙ y)
        ] in
        rw (t, u) (λ m. keep-Silent j k o n (age_nodes-Silent j ks _ (keep k o) c' m))
  ]
]

flood-Silent : (j version k : ℕ) (o : Net) → o.own_node ≡ some k → Silent j o (flood version o)
flood-Silent j version k o e =
    subst (Silent j o) (sym (flood_own version k o e))
      (prune_rec-Silent j (length o.graph.nodes) k (record o { version = version }))

aged-Silent :
    (version k : ℕ) (o : Net) (j : ℕ)
    → o.own_node ≡ some k
    → Memᴰ k o.graph.nodes
    → IsNew version o
    → is_recent o j ≡ false
    → ((is_marked (flood version o) j ≡ true) ⊎ (is_recent (flood version o) j ≡ false))
aged-Silent version k o j e i n old =
    let f = filled version k o e n i in
    elim (Bool-cases (is_marked (flood version o) j)) [
      | inl t ↦ inl t
      | inr t ↦ inr (
          recent_same (record o { version = version }) (flood version o) j f.steady (f.others j t)
          ∙ old)
    ]

flushed-Silent :
    (validates : ℕ → Bytes → Bool) (version : ℕ) (o : Net) (j : ℕ)
    → Silent j
        (age_nodes (flood version o).graph.nodes 0 (flood version o)).1
        (prune validates version o)
unfolding prune
flushed-Silent validates version o j m =
    let aged = age_nodes (flood version o).graph.nodes 0 (flood version o) in
    (flush_nodes-Calm validates aged.1.graph.nodes (record aged.1 { next_prune = aged.0 })).silent j
      m

-- The gap in the notice of a lost node: a node to which no walk leads, and that was reached more than the grace
-- interval ago, leaves the list, and no subscriber is told by `node_changed` that it is lost. This holds also
-- for a node that counted as reachable until now, since the time of reaching it is that of the last pruning,
-- which may be long ago.
pub prune_silent :
    (validates : ℕ → Bytes → Bool) (version k : ℕ) (o : Net) (j : ℕ)
    → o.own_node ≡ some k
    → Memᴰ k o.graph.nodes
    → IsNew version o
    → ((i : ℕ) → o.last_reachable_prune i < o.now)
    → ¬ Walk o.graph o.now k j
    → is_recent o j ≡ false
    → (¬ Memᴰ j (prune validates version o).graph.nodes)
      × (Memᴰ (node_changed j false) (prune validates version o).told
          → Memᴰ (node_changed j false) o.told)
prune_silent validates version k o j e i n past lost old = (
  λ m.
      let (_, kept) = ((prune-Pruned validates version k o e i n past).kept j).0 m in
      elim kept [ inl w ↦ lost w | inr r ↦ cc (sym old ∙ r) ],
  λ m. flood-Silent j version k o e (
      age_nodes-Silent j (flood version o).graph.nodes 0 (flood version o)
        (aged-Silent version k o j e i n old) (flushed-Silent validates version o j m)),
)
