-- ===== src/Dncp/Graph/Age.antt =====
-- The loop of `dncp_prune` over the nodes that were not reached (src/dncp_timeout.c).
use mathlib.Core.List.{Memᴰ}
use mathlib.Core.List.Memᴰ
use hnetd.Common.{
  ℕ, ◌+◌, ◌≡◌, refl, sym, ap, ◌∙◌, ◌≢◌, ◌↔◌, ◌⊎◌, inl, inr, Bool, true, false, not, List, [], ◌∷◌,
  ℕ_discrete, ltb, ==_refl, Bool-cases,
}
use hnetd.Dncp.Graph.{
  Net, is_marked, is_reachable, touch_node, node_set_reachable, at, xor, age_nodes,
}
use hnetd.Dncp.Graph.Marks.{Steady, Steady-refl, Steady-trans, told_of-Quiet, at_same, at_other}

-- Whether a node that is not reached is kept.
abbrev pub is_recent : Net → ℕ → Bool
is_recent o k = not (ltb (o.last_reachable_prune k + o.grace_interval) o.now)

-- Aging the nodes of `ks` marks the recent ones, and changes no times.
pub record Aged (ks : List ℕ) (o o' : Net) : Type 0 where
  pub steady : Steady o o'
  pub times : o'.last_reachable_prune ≡ o.last_reachable_prune
  pub marks :
      (j : ℕ)
      → (is_marked o' j ≡ true) ↔ ((is_marked o j ≡ true) ⊎ (Memᴰ j ks × (is_recent o j ≡ true)))

-- What one turn does for a recent node.
abbrev pub keep : ℕ → Net → Net
keep k o = node_set_reachable k false (touch_node k o)

pub keep-Steady : (k : ℕ) (o : Net) → Steady o (keep k o)
unfolding node_set_reachable touch_node
keep-Steady k o =
    let q =
      (told_of-Quiet (xor (is_reachable (touch_node k o) k) false) k false
        (touch_node k o)).steady in
    record {
      graph = q.graph;
      version = q.version;
      now = q.now;
      last_prune = q.last_prune;
      grace = q.grace;
    }

pub keep_times : (k : ℕ) (o : Net) → (keep k o).last_reachable_prune ≡ o.last_reachable_prune
unfolding node_set_reachable touch_node
keep_times k o =
    (told_of-Quiet (xor (is_reachable (touch_node k o) k) false) k false (touch_node k o)).times

keep_versions : (k : ℕ) (o : Net) → (keep k o).node_version ≡ at k o.version o.node_version
unfolding node_set_reachable touch_node
keep_versions k o =
    (told_of-Quiet (xor (is_reachable (touch_node k o) k) false) k false (touch_node k o)).versions

keep_marked : (k : ℕ) (o : Net) → is_marked (keep k o) k ≡ true
unfolding is_marked
keep_marked k o =
    rw (keep_versions k o, at_same k o.version o.node_version, (keep-Steady k o).version)
      (==_refl o.version)

pub keep_other : (k : ℕ) (o : Net) (j : ℕ) → j ≢ k → is_marked (keep k o) j ≡ is_marked o j
unfolding is_marked
keep_other k o j n =
    rw (keep_versions k o, at_other k o.version o.node_version j n, (keep-Steady k o).version) refl

pub recent_same :
    (o o' : Net) (j : ℕ)
    → Steady o o'
    → o'.last_reachable_prune j ≡ o.last_reachable_prune j
    → is_recent o' j ≡ is_recent o j
recent_same o o' j s e = rw (e, s.grace, s.now) refl

-- The three turns of the loop.
Aged-marked :
    (k : ℕ) (ks : List ℕ) (o o' : Net) → is_marked o k ≡ true → Aged ks o o' → Aged (k ∷ ks) o o'
Aged-marked k ks o o' t w = record {
  steady = w.steady;
  times = w.times;
  marks = λ j. (
    λ m. elim ((w.marks j).0 m) [ inl x ↦ inl x | inr (i, r) ↦ inr (Memᴰ.tail i, r) ],
    λ m. elim m [
      | inl x ↦ (w.marks j).1 (inl x)
      | inr (i, r) ↦ elim (Memᴰ.cases_cons i) [
        | inl e ↦ (w.marks j).1 (inl (ap (is_marked o) e ∙ t))
        | inr i' ↦ (w.marks j).1 (inr (i', r))
      ]
    ],
  );
}

Aged-old :
    (k : ℕ) (ks : List ℕ) (o o' : Net) → is_recent o k ≡ false → Aged ks o o' → Aged (k ∷ ks) o o'
Aged-old k ks o o' t w = record {
  steady = w.steady;
  times = w.times;
  marks = λ j. (
    λ m. elim ((w.marks j).0 m) [ inl x ↦ inl x | inr (i, r) ↦ inr (Memᴰ.tail i, r) ],
    λ m. elim m [
      | inl x ↦ (w.marks j).1 (inl x)
      | inr (i, r) ↦ elim (Memᴰ.cases_cons i) [
        | inl e ↦ absurd (cc (sym r ∙ ap (is_recent o) e ∙ t))
        | inr i' ↦ (w.marks j).1 (inr (i', r))
      ]
    ],
  );
}

Aged-recent :
    (k : ℕ) (ks : List ℕ) (o o' : Net)
    → is_recent o k ≡ true
    → Aged ks (keep k o) o'
    → Aged (k ∷ ks) o o'
Aged-recent k ks o o' t w =
    let s = keep-Steady k o in
    let same = λ (j : ℕ). recent_same o (keep k o) j s (ap (λ g. g j) (keep_times k o)) in
    record {
      steady = Steady-trans o (keep k o) o' s w.steady;
      times = w.times ∙ keep_times k o;
      marks = λ j. (
        λ m. elim ((w.marks j).0 m) [
          | inl x ↦ elim (ℕ_discrete j k) [
            | yes e ↦ inr (Memᴰ.head e, ap (is_recent o) e ∙ t)
            | no n ↦ inl (sym (keep_other k o j n) ∙ x)
          ]
          | inr (i, r) ↦ inr (Memᴰ.tail i, sym (same j) ∙ r)
        ],
        λ m. elim (ℕ_discrete j k) [
          | yes e ↦ (w.marks j).1 (inl (ap (is_marked (keep k o)) e ∙ keep_marked k o))
          | no n ↦ elim m [
            | inl x ↦ (w.marks j).1 (inl (keep_other k o j n ∙ x))
            | inr (i, r) ↦ elim (Memᴰ.cases_cons i) [
              | inl e ↦ absurd (n e)
              | inr i' ↦ (w.marks j).1 (inr (i', same j ∙ r))
            ]
          ]
        ],
      );
    }

pub age_nodes-Aged :
    (ks : List ℕ) (next_time : ℕ) (o : Net) → Aged ks o (age_nodes ks next_time o).1
unfolding age_nodes
age_nodes-Aged [] next_time o = record {
  steady = Steady-refl o;
  times = refl;
  marks = λ j. (λ m. inl m, λ m. elim m [ inl x ↦ x | inr (i, r) ↦ absurd (Memᴰ.not-nil i) ]);
}
age_nodes-Aged (k ∷ ks) next_time o = elim (Bool-cases (is_marked o k)) [
  | inl t ↦ rw t (Aged-marked k ks o _ t (age_nodes-Aged ks _ o))
  | inr t ↦ elim (Bool-cases (ltb (o.last_reachable_prune k + o.grace_interval) o.now)) [
    | inl u ↦ rw (t, u) (Aged-old k ks o _ (ap not u) (age_nodes-Aged ks next_time o))
    | inr u ↦ rw (t, u) (Aged-recent k ks o _ (ap not u) (age_nodes-Aged ks _ (keep k o)))
  ]
]
