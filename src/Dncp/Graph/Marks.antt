-- ===== src/Dncp/Graph/Marks.antt =====
-- The marks that `_prune_rec` leaves on the nodes (src/dncp_timeout.c), and how they add up.

use hnetd.Common.{
  ℕ, ◌≡◌, refl, sym, ap, ◌∙◌, ◌≢◌, ◌⊎◌, inl, inr, Bool, true, false, ℕ_discrete, if◌then◌else◌,
  ==_refl, ne→==, Bool-cases,
}
use hnetd.Dncp.Graph.{
  Net, is_marked, touch_node, node_set_reachable, tell_reachable, is_reachable, tell, at, xor,
}

-- What pruning does not change.
pub record Steady (o o' : Net) : Type 0 where
  pub graph : o'.graph ≡ o.graph
  pub version : o'.version ≡ o.version
  pub now : o'.now ≡ o.now
  pub last_prune : o'.last_prune ≡ o.last_prune
  pub grace : o'.grace_interval ≡ o.grace_interval

pub Steady-refl : (o : Net) → Steady o o
Steady-refl o = record { graph = refl; version = refl; now = refl; last_prune = refl; grace = refl }

pub Steady-trans : (o o' o'' : Net) → Steady o o' → Steady o' o'' → Steady o o''
Steady-trans o o' o'' s s' = record {
  graph = s'.graph ∙ s.graph;
  version = s'.version ∙ s.version;
  now = s'.now ∙ s.now;
  last_prune = s'.last_prune ∙ s.last_prune;
  grace = s'.grace ∙ s.grace;
}

-- The step from `o` to `o'` marks more nodes: those that `new` allows. They are reached now.
pub record Marks (new : ℕ → Type 0) (o o' : Net) : Type 0 where
  pub steady : Steady o o'
  pub keeps : (j : ℕ) → is_marked o j ≡ true → is_marked o' j ≡ true
  pub fresh : (j : ℕ) → is_marked o' j ≡ true → (is_marked o j ≡ true) ⊎ new j
  pub reached :
      (j : ℕ) → is_marked o j ≡ false → is_marked o' j ≡ true → o'.last_reachable_prune j ≡ o.now
  pub others :
      (j : ℕ)
      → is_marked o j ≡ is_marked o' j
      → o'.last_reachable_prune j ≡ o.last_reachable_prune j

-- Telling changes nothing that pruning reads.
pub record Quiet (o o' : Net) : Type 0 where
  pub steady : Steady o o'
  pub versions : o'.node_version ≡ o.node_version
  pub times : o'.last_reachable_prune ≡ o.last_reachable_prune

abbrev pub told_of : Bool → ℕ → Bool → Net → Net
told_of b k value o =
    if b then tell_reachable k value (record o { network_hash_dirty = true }) else o

pub told_of-Quiet : (b : Bool) (k : ℕ) (value : Bool) (o : Net) → Quiet o (told_of b k value o)
unfolding tell_reachable tell
told_of-Quiet true k true o = record {
  steady = record { graph = refl; version = refl; now = refl; last_prune = refl; grace = refl };
  versions = refl;
  times = refl;
}
told_of-Quiet true k false o = record {
  steady = record { graph = refl; version = refl; now = refl; last_prune = refl; grace = refl };
  versions = refl;
  times = refl;
}
told_of-Quiet false k value o = record { steady = Steady-refl o; versions = refl; times = refl }

-- The first part of `_prune_rec` on a node.
abbrev pub visit : ℕ → Net → Net
visit k o = node_set_reachable k true (touch_node k o)

visit-Steady : (k : ℕ) (o : Net) → Steady o (visit k o)
unfolding node_set_reachable touch_node
visit-Steady k o =
    let q =
      (told_of-Quiet (xor (is_reachable (touch_node k o) k) true) k true (touch_node k o)).steady in
    record {
      graph = q.graph;
      version = q.version;
      now = q.now;
      last_prune = q.last_prune;
      grace = q.grace;
    }

visit-node_version : (k : ℕ) (o : Net) → (visit k o).node_version ≡ at k o.version o.node_version
unfolding node_set_reachable touch_node
visit-node_version k o =
    (told_of-Quiet (xor (is_reachable (touch_node k o) k) true) k true (touch_node k o)).versions

visit-last_reachable_prune :
    (k : ℕ) (o : Net) → (visit k o).last_reachable_prune ≡ at k o.now o.last_reachable_prune
unfolding node_set_reachable touch_node
visit-last_reachable_prune k o =
    let b = xor (is_reachable (touch_node k o) k) true in
    let q = told_of-Quiet b k true (touch_node k o) in
    ap (λ n. at k n (told_of b k true (touch_node k o)).last_reachable_prune) q.steady.now
    ∙ ap (at k o.now) q.times

pub at_same : (k v : ℕ) (f : ℕ → ℕ) → at k v f k ≡ v
unfolding at
at_same k v f = rw (==_refl k) refl

pub at_other : (k v : ℕ) (f : ℕ → ℕ) (j : ℕ) → j ≢ k → at k v f j ≡ f j
unfolding at
at_other k v f j n = rw (ne→== j k n) refl

pub visit_marked : (k : ℕ) (o : Net) → is_marked (visit k o) k ≡ true
unfolding is_marked
visit_marked k o =
    rw (visit-node_version k o, at_same k o.version o.node_version, (visit-Steady k o).version)
      (==_refl o.version)

pub visit_other : (k : ℕ) (o : Net) (j : ℕ) → j ≢ k → is_marked (visit k o) j ≡ is_marked o j
unfolding is_marked
visit_other k o j n =
    rw (visit-node_version k o, at_other k o.version o.node_version j n, (visit-Steady k o).version)
      refl

-- Visiting a node marks it.
pub visit-Marks : (k : ℕ) (o : Net) → is_marked o k ≡ false → Marks (λ j. j ≡ k) o (visit k o)
visit-Marks k o f = record {
  steady = visit-Steady k o;
  keeps = λ j t. elim (ℕ_discrete j k) [
    | yes e ↦ absurd (cc (sym t ∙ ap (is_marked o) e ∙ f))
    | no n ↦ visit_other k o j n ∙ t
  ];
  fresh =
      λ j t. elim (ℕ_discrete j k) [ yes e ↦ inr e | no n ↦ inl (sym (visit_other k o j n) ∙ t) ];
  reached = λ j u t. elim (ℕ_discrete j k) [
    | yes e ↦
        ap (λ g. g j) (visit-last_reachable_prune k o)
        ∙ ap (at k o.now o.last_reachable_prune) e
        ∙ at_same k o.now o.last_reachable_prune
    | no n ↦ absurd (cc (sym u ∙ sym (visit_other k o j n) ∙ t))
  ];
  others = λ j s. elim (ℕ_discrete j k) [
    | yes e ↦ absurd (
        cc (sym f ∙ ap (is_marked o) (sym e) ∙ s ∙ ap (is_marked (visit k o)) e ∙ visit_marked k o))
    | no n ↦
        ap (λ g. g j) (visit-last_reachable_prune k o) ∙ at_other k o.now o.last_reachable_prune j n
  ];
}

pub Marks-mono :
    (a b : ℕ → Type 0) (o o' : Net) → ((j : ℕ) → a j → b j) → Marks a o o' → Marks b o o'
Marks-mono a b o o' h m = record {
  steady = m.steady;
  keeps = m.keeps;
  fresh = λ j t. elim (m.fresh j t) [ inl x ↦ inl x | inr y ↦ inr (h j y) ];
  reached = m.reached;
  others = m.others;
}

pub Marks-none : (a : ℕ → Type 0) (o : Net) → Marks a o o
Marks-none a o = record {
  steady = Steady-refl o;
  keeps = λ j t. t;
  fresh = λ j t. inl t;
  reached = λ j u t. absurd (cc (sym u ∙ t));
  others = λ j s. refl;
}

-- A node marked neither before nor after was not in between.
between :
    (a : ℕ → Type 0) (o o' o'' : Net) (j : ℕ)
    → Marks a o o'
    → Marks a o' o''
    → is_marked o j ≡ is_marked o'' j
    → (is_marked o j ≡ is_marked o' j) × (is_marked o' j ≡ is_marked o'' j)
between a o o' o'' j m m' s = elim (Bool-cases (is_marked o' j)) [
  | inl t ↦ let u = m'.keeps j t in (s ∙ u ∙ sym t, t ∙ sym u)
  | inr t ↦ elim (Bool-cases (is_marked o j)) [
    | inl u ↦ absurd (cc (sym t ∙ m.keeps j u))
    | inr u ↦ (u ∙ sym t, t ∙ sym u ∙ s)
  ]
]

pub Marks-trans : (a : ℕ → Type 0) (o o' o'' : Net) → Marks a o o' → Marks a o' o'' → Marks a o o''
Marks-trans a o o' o'' m m' = record {
  steady = Steady-trans o o' o'' m.steady m'.steady;
  keeps = λ j t. m'.keeps j (m.keeps j t);
  fresh = λ j t. elim (m'.fresh j t) [ inl x ↦ m.fresh j x | inr y ↦ inr y ];
  reached = λ j u t. elim (Bool-cases (is_marked o' j)) [
    | inl x ↦ m'.others j (x ∙ sym t) ∙ m.reached j u x
    | inr x ↦ m'.reached j x t ∙ m.steady.now
  ];
  others = λ j s. let (x, y) = between a o o' o'' j m m' s in m'.others j y ∙ m.others j x;
}
