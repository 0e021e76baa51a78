-- ===== src/Dncp/Graph/Prune.antt =====
-- What is reachable after `dncp_prune` (src/dncp_timeout.c).
use mathlib.Core.List.{Memᴰ}
use mathlib.Core.Path.{subst}
use hnetd.Common.{
  ℕ, ◌<◌, ◌≡◌, refl, sym, ap, ◌∙◌, ◌≢◌, ◌↔◌, ◌⊎◌, inl, inr, Bool, true, false, Option, none, some,
  arith, ◌==◌, ==_refl, ne→==, ==_iff, Bool-cases, length,
}
use hnetd.Bitops.{Bytes}
use hnetd.Dncp.Graph.{
  Net, is_marked, is_reachable, prune_rec, flood, age_nodes, marked_nodes, prune,
}
use hnetd.Dncp.Graph.Walk.{Walk, walk_inside, walk_live}
use hnetd.Dncp.Graph.Count.{unmarked_le_length}
use hnetd.Dncp.Graph.Age.{Aged, age_nodes-Aged, is_recent, recent_same}
use hnetd.Dncp.Graph.Flush.{flush_nodes-Calm, marked_nodes-Mem}
use hnetd.Dncp.Graph.Marks.{Steady}
use hnetd.Dncp.Graph.Flood.{prune_rec-Flooded}

-- The list gets a version that no node has.
abbrev pub IsNew : ℕ → Net → Type 0
IsNew version o = (j : ℕ) → o.node_version j ≢ version

abbrev start : ℕ → Net → Net
start version o = record o { version = version }

-- After flooding from `k`, the marked nodes are those that a walk from `k` leads to.
pub record Filled (k : ℕ) (o o' : Net) : Type 0 where
  pub steady : Steady o o'
  pub sound : (j : ℕ) → is_marked o' j ≡ true → Walk o.graph o.now k j
  pub complete : (j : ℕ) → Walk o.graph o.now k j → is_marked o' j ≡ true
  pub reached : (j : ℕ) → is_marked o' j ≡ true → o'.last_reachable_prune j ≡ o.now
  pub others :
      (j : ℕ) → is_marked o' j ≡ false → o'.last_reachable_prune j ≡ o.last_reachable_prune j

unmarked_start :
    (version : ℕ) (o : Net) (j : ℕ) → IsNew version o → is_marked (start version o) j ≡ false
unfolding is_marked
unmarked_start version o j n = ne→== (o.node_version j) version (n j)

-- With the number of nodes as fuel, `_prune_rec` of a node in the list, which has a version that no
-- node has yet, marks exactly the nodes to which a walk over live nodes and peers that name each other
-- leads, sets their time to now, and leaves the time of the others.
pub prune_rec-Filled :
    (version k : ℕ) (o : Net)
    → IsNew version o
    → Memᴰ k o.graph.nodes
    → Filled k (start version o) (prune_rec (length o.graph.nodes) k (start version o))
prune_rec-Filled version k o n i =
    let s = start version o in
    let f =
      prune_rec-Flooded o.graph o.now (length o.graph.nodes) k s i
        (refl, refl, unmarked_le_length (is_marked s) o.graph.nodes) in
    let o' = prune_rec (length o.graph.nodes) k s in
    record {
      steady = f.marks.steady;
      sound = λ j t. elim (f.marks.fresh j t) [
        | inl x ↦ absurd (cc (sym x ∙ unmarked_start version o j n))
        | inr w ↦ w
      ];
      complete = λ j w.
          walk_inside (is_marked o')
            (λ a b m e l. f.closed a b (unmarked_start version o a n) m e l) (f.done (walk_live w))
            w;
      reached = λ j t. f.marks.reached j (unmarked_start version o j n) t;
      others = λ j t. f.marks.others j (unmarked_start version o j n ∙ sym t);
    }

-- What pruning from the own node `k` leaves.
pub record Pruned (k : ℕ) (o o' : Net) : Type 0 where
  -- The nodes that count as reachable are those that a walk from the own node leads to.
  pub reachable : (j : ℕ) → (is_reachable o' j ≡ true) ↔ Walk o.graph o.now k j
  -- These nodes stay, and those that were reached a short time ago.
  pub kept :
      (j : ℕ)
      → Memᴰ j o'.graph.nodes
        ↔ (Memᴰ j o.graph.nodes × (Walk o.graph o.now k j ⊎ (is_recent o j ≡ true)))

pub flood_own :
    (version k : ℕ) (o : Net)
    → o.own_node ≡ some k
    → flood version o ≡ prune_rec (length o.graph.nodes) k (start version o)
unfolding flood
flood_own version k o e =
    ap
      (λ (x : Option ℕ). elim x as (λ _. Net) [
        | none ↦ start version o
        | some i ↦ prune_rec (length o.graph.nodes) i (start version o)
      ])
      e

pub filled :
    (version k : ℕ) (o : Net)
    → o.own_node ≡ some k
    → IsNew version o
    → Memᴰ k o.graph.nodes
    → Filled k (start version o) (flood version o)
filled version k o e n i =
    subst (Filled k (start version o)) (sym (flood_own version k o e))
      (prune_rec-Filled version k o n i)

module _ (validates : ℕ → Bytes → Bool) (version k : ℕ) (o : Net)
    (f : Filled k (start version o) (flood version o))
    (past : (j : ℕ) → o.last_reachable_prune j < o.now) where
  abbrev filled_net : Net
  filled_net = flood version o

  abbrev aged_net : Net
  aged_net = (age_nodes filled_net.graph.nodes 0 filled_net).1

  aged : Aged filled_net.graph.nodes filled_net aged_net
  aged = age_nodes-Aged filled_net.graph.nodes 0 filled_net

  same_graph : aged_net.graph ≡ o.graph
  same_graph = aged.steady.graph ∙ f.steady.graph

  reachable_when :
      (j : ℕ)
      → is_reachable (prune validates version o) j ≡ (o.now == filled_net.last_reachable_prune j)
  unfolding prune is_reachable
  reachable_when j =
      ap (λ g. o.now == g j)
        ((flush_nodes-Calm validates aged_net.graph.nodes (record aged_net {
          next_prune = (age_nodes filled_net.graph.nodes 0 filled_net).0;
        })).times
          ∙ aged.times)

  reachable_iff :
      (j : ℕ) → (is_reachable (prune validates version o) j ≡ true) ↔ Walk o.graph o.now k j
  reachable_iff j = elim (Bool-cases (is_marked filled_net j)) [
    | inl t ↦
        (λ _. f.sound j t, λ _. reachable_when j ∙ ap (o.now ==◌) (f.reached j t) ∙ ==_refl o.now)
    | inr t ↦ (
      λ q. absurd (
          omega (
            arith,
            past j,
            f.others j t,
            (==_iff o.now (filled_net.last_reachable_prune j)).0 (sym (reachable_when j) ∙ q),
          )),
      λ w. absurd (cc (sym t ∙ f.complete j w)),
    )
  ]

  -- A node that was not reached is as recent as it was.
  recent_unmarked :
      (j : ℕ) → is_marked filled_net j ≡ false → is_recent filled_net j ≡ is_recent o j
  recent_unmarked j t = recent_same (start version o) filled_net j f.steady (f.others j t)

  marked_iff :
      (j : ℕ)
      → Memᴰ j o.graph.nodes
      → (is_marked aged_net j ≡ true) ↔ (Walk o.graph o.now k j ⊎ (is_recent o j ≡ true))
  marked_iff j i =
      let i' = subst (λ g. Memᴰ j g.nodes) (sym f.steady.graph) i in
      elim (Bool-cases (is_marked filled_net j)) [
        | inl t ↦ (λ _. inl (f.sound j t), λ _. (aged.marks j).1 (inl t))
        | inr t ↦ (
          λ m. elim ((aged.marks j).0 m) [
            | inl x ↦ absurd (cc (sym t ∙ x))
            | inr (_, r) ↦ inr (sym (recent_unmarked j t) ∙ r)
          ],
          λ m. elim m [
            | inl w ↦ absurd (cc (sym t ∙ f.complete j w))
            | inr r ↦ (aged.marks j).1 (inr (i', recent_unmarked j t ∙ r))
          ],
        )
      ]

  kept_nodes : (prune validates version o).graph.nodes ≡ marked_nodes aged_net aged_net.graph.nodes
  unfolding prune
  kept_nodes = refl

  kept_iff :
      (j : ℕ)
      → Memᴰ j (prune validates version o).graph.nodes
        ↔ (Memᴰ j o.graph.nodes × (Walk o.graph o.now k j ⊎ (is_recent o j ≡ true)))
  kept_iff j =
      let m = marked_nodes-Mem aged_net aged_net.graph.nodes j in
      (
        λ x.
            let (i, t) = m.0 (subst (Memᴰ j) kept_nodes x) in
            let i' = subst (λ g. Memᴰ j g.nodes) same_graph i in (i', (marked_iff j i').0 t),
        λ (i, w).
            subst (Memᴰ j) (sym kept_nodes)
              (m.1 (subst (λ g. Memᴰ j g.nodes) (sym same_graph) i, (marked_iff j i).1 w)),
      )

-- Pruning keeps the nodes that a walk from the own node reaches, over live nodes and peers that name
-- each other, and the nodes that were reached at most the grace interval ago; and afterwards exactly
-- the former count as reachable. The own node is in the list, the list gets a new version, and all
-- nodes were reached before now.
pub prune-Pruned :
    (validates : ℕ → Bytes → Bool) (version k : ℕ) (o : Net)
    → o.own_node ≡ some k
    → Memᴰ k o.graph.nodes
    → IsNew version o
    → ((j : ℕ) → o.last_reachable_prune j < o.now)
    → Pruned k o (prune validates version o)
prune-Pruned validates version k o e i n past =
    let f = filled version k o e n i in
    record {
      reachable = reachable_iff validates version k o f past;
      kept = kept_iff validates version k o f past;
    }
