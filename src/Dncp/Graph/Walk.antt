-- ===== src/Dncp/Graph/Walk.antt =====
-- Walks in the graph of the nodes, over live nodes and peers that name each other.
use mathlib.Core.List.{Memᴰ}
use mathlib.Core.Option.{some-injective}
use hnetd.Common.{
  ℕ, ◌≡◌, refl, sym, ap, ◌∙◌, inl, inr, Bool, true, false, none, some, List, [], ◌∷◌, arith,
  Bool-cases, Option-cases,
}
use hnetd.Dncp.Graph.{Graph, Peer, peers, find_neigh_bidir, find_node, answers, is_live, same_id}

-- A peer TLV of `k` names `j`, and one of `j` answers it.
pub record Edge (g : Graph) (k j : ℕ) : Type 0 where
  pub peer : Peer
  pub listed : Memᴰ peer (peers g k)
  pub found : find_neigh_bidir g k peer ≡ some j

-- A walk over nodes that have not expired.
pub data Walk (g : Graph) (now : ℕ) : ℕ → ℕ → Type 0 where
  stays : {k : ℕ} → is_live g now k ≡ true → Walk g now k k
  goes : {k j i : ℕ} → is_live g now k ≡ true → Edge g k j → Walk g now j i → Walk g now k i

pub walk_live : {g : Graph} {now k i : ℕ} → Walk g now k i → is_live g now k ≡ true
walk_live (stays l) = l
walk_live (goes l e w) = l

pub walk_end : {g : Graph} {now k i : ℕ} → Walk g now k i → is_live g now i ≡ true
walk_end (stays l) = l
walk_end (goes l e w) = walk_end w

-- What contains the start, and with a node its live neighbours, contains the walk.
pub walk_inside :
    {g : Graph} {now k i : ℕ} (marked : ℕ → Bool)
    → ((j l : ℕ) → marked j ≡ true → Edge g j l → is_live g now l ≡ true → marked l ≡ true)
    → marked k ≡ true
    → Walk g now k i
    → marked i ≡ true
walk_inside marked closed m (stays l) = m
walk_inside marked closed m (goes {j = j} l e w) =
    walk_inside marked closed (closed _ j m e (walk_live w)) w

find_node-Mem :
    (g : Graph) (ni : List ℕ) (ks : List ℕ) (j : ℕ) → find_node g ni ks ≡ some j → Memᴰ j ks
unfolding find_node
find_node-Mem g ni [] j e = absurd (cc e)
find_node-Mem g ni (k ∷ ks) j e = elim (Bool-cases (same_id g.ni_len (g.node k).node_id ni)) [
  | inl t ↦ Memᴰ.head (some-injective _ _ (ground (arith, sym e)))
  | inr t ↦ Memᴰ.tail (find_node-Mem g ni ks j (ground (arith, e)))
]

edge_none :
    (g : Graph) (k : ℕ) (ne : Peer)
    → find_node g ne.node_id g.nodes ≡ none
    → find_neigh_bidir g k ne ≡ none
unfolding find_neigh_bidir
edge_none g k ne n = rw (n, find_neigh_bidir) refl

edge_some :
    (g : Graph) (k : ℕ) (ne : Peer) (i : ℕ)
    → find_node g ne.node_id g.nodes ≡ some i
    → answers g k ne (peers g i) ≡ true
    → find_neigh_bidir g k ne ≡ some i
unfolding find_neigh_bidir
edge_some g k ne i n t = rw (n, find_neigh_bidir, t) refl

edge_unanswered :
    (g : Graph) (k : ℕ) (ne : Peer) (i : ℕ)
    → find_node g ne.node_id g.nodes ≡ some i
    → answers g k ne (peers g i) ≡ false
    → find_neigh_bidir g k ne ≡ none
unfolding find_neigh_bidir
edge_unanswered g k ne i n t = rw (n, find_neigh_bidir, t) refl

-- An edge ends at a node of the list.
pub edge_inside :
    (g : Graph) (k : ℕ) (ne : Peer) (j : ℕ) → find_neigh_bidir g k ne ≡ some j → Memᴰ j g.nodes
edge_inside g k ne j e = elim (Option-cases (find_node g ne.node_id g.nodes)) [
  | inl n ↦ absurd (cc (e, edge_none g k ne n))
  | inr (i, n) ↦ elim (Bool-cases (answers g k ne (peers g i))) [
    | inl t ↦
        find_node-Mem g ne.node_id g.nodes j
          (n ∙ ap (λ x. some x) (some-injective _ _ (sym (edge_some g k ne i n t) ∙ e)))
    | inr t ↦ absurd (cc (e, edge_unanswered g k ne i n t))
  ]
]
