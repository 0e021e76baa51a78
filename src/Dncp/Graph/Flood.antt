-- ===== src/Dncp/Graph/Flood.antt =====
-- The marks of `_prune_rec` and the walks in the graph (src/dncp_timeout.c).
use mathlib.Core.List.{Memᴰ}
use mathlib.Core.List.Memᴰ
use mathlib.Core.Path.{subst}
use mathlib.Core.Option.{some-injective}
use hnetd.Common.{
  ℕ, zero, suc, ◌≤◌, ◌≡◌, refl, sym, ap, ◌∙◌, inl, inr, true, false, not, ◌||◌, none, some, List,
  [], ◌∷◌, arith, ℕ_discrete, Bool-cases, Option-cases,
}
use hnetd.Dncp.Graph.{
  Graph, Peer, Net, peers, find_neigh_bidir, is_live, is_marked, prune_rec, prune_peers,
}
use hnetd.Dncp.Graph.Walk.{Edge, Walk, stays, goes, edge_inside}
use hnetd.Dncp.Graph.Count.{unmarked, unmarked_less, unmarked_mono, unmarked_zero}
use hnetd.Dncp.Graph.Marks.{
  Marks, visit, visit_marked, visit_other, visit-Marks, Marks-mono, Marks-none, Marks-trans,
}

module _ (g : Graph) (now : ℕ) where
  -- The nodes that are newly marked have their live neighbours marked.
  abbrev pub Closed : Net → Net → Type 0
  Closed o o' =
      (j l : ℕ)
      → is_marked o j ≡ false
      → is_marked o' j ≡ true
      → Edge g j l
      → is_live g now l ≡ true
      → is_marked o' l ≡ true

  Closed-trans :
      (a : ℕ → Type 0) (o o' o'' : Net)
      → Marks a o' o''
      → Closed o o'
      → Closed o' o''
      → Closed o o''
  Closed-trans a o o' o'' m c c' j l u t e live = elim (Bool-cases (is_marked o' j)) [
    | inl x ↦ m.keeps l (c j l u x e live)
    | inr x ↦ c' j l x t e live
  ]

  -- What `_prune_rec` of node `k` does.
  pub record Flooded (k : ℕ) (o o' : Net) : Type 0 where
    pub marks : Marks (Walk g now k) o o'
    pub done : is_live g now k ≡ true → is_marked o' k ≡ true
    pub closed : Closed o o'

  -- What its loop over some of the peers does.
  record Looped (k : ℕ) (ps : List Peer) (o o' : Net) : Type 0 where
    marks : Marks (λ i. (j : ℕ) × Edge g k j × Walk g now j i) o o'
    done :
        (ne : Peer) (j : ℕ)
        → Memᴰ ne ps
        → find_neigh_bidir g k ne ≡ some j
        → is_live g now j ≡ true
        → is_marked o' j ≡ true
    closed : Closed o o'

  abbrev Ready : ℕ → Net → Type 0
  Ready fuel o = (o.graph ≡ g) × (o.now ≡ now) × (unmarked (is_marked o) g.nodes ≤ fuel)

  still-Ready :
      (a : ℕ → Type 0) (fuel : ℕ) (o o' : Net) → Marks a o o' → Ready fuel o → Ready fuel o'
  still-Ready a fuel o o' m (x, y, z) = (
    m.steady.graph ∙ x,
    m.steady.now ∙ y,
    omega (arith, z, unmarked_mono (is_marked o) (is_marked o') g.nodes m.keeps),
  )

  loop_none :
      (next : ℕ → Net → Net) (k : ℕ) (ne : Peer) (ps : List Peer) (o : Net)
      → find_neigh_bidir o.graph k ne ≡ none
      → prune_peers next k (ne ∷ ps) o ≡ prune_peers next k ps o
  unfolding prune_peers
  loop_none next k ne ps o e = rw (e, prune_peers) refl

  loop_some :
      (next : ℕ → Net → Net) (k : ℕ) (ne : Peer) (ps : List Peer) (o : Net) (j : ℕ)
      → find_neigh_bidir o.graph k ne ≡ some j
      → prune_peers next k (ne ∷ ps) o ≡ prune_peers next k ps (next j o)
  unfolding prune_peers
  loop_some next k ne ps o j e = rw (e, prune_peers) refl

  -- One more peer in front, which leads nowhere, or to `j`.
  loop_skips :
      (k : ℕ) (ne : Peer) (ps : List Peer) (o o' : Net)
      → find_neigh_bidir g k ne ≡ none
      → Looped k ps o o'
      → Looped k (ne ∷ ps) o o'
  loop_skips k ne ps o o' e w = record {
    marks = w.marks;
    done = λ p j i q live. elim (Memᴰ.cases_cons i) [
      | inl s ↦ absurd (cc (sym e ∙ ap (find_neigh_bidir g k) (sym s) ∙ q))
      | inr rest ↦ w.done p j rest q live
    ];
    closed = w.closed;
  }

  loop_visits :
      (k : ℕ) (ne : Peer) (ps : List Peer) (o o' o'' : Net) (j : ℕ)
      → Edge g k j
      → find_neigh_bidir g k ne ≡ some j
      → Flooded j o o'
      → Looped k ps o' o''
      → Looped k (ne ∷ ps) o o''
  loop_visits k ne ps o o' o'' j edge e f w =
      let a = λ (i : ℕ). (l : ℕ) × Edge g k l × Walk g now l i in
      let first = Marks-mono (Walk g now j) a o o' (λ i x. (j, edge, x)) f.marks in
      record {
        marks = Marks-trans a o o' o'' first w.marks;
        done = λ p l i q live. elim (Memᴰ.cases_cons i) [
          | inl s ↦
              let same : j ≡ l =
                some-injective _ _ (sym e ∙ ap (find_neigh_bidir g k) (sym s) ∙ q) in
              w.marks.keeps l (
                subst (λ x. is_marked o' x ≡ true) same
                  (f.done (subst (λ x. is_live g now x ≡ true) (sym same) live)))
          | inr rest ↦ w.done p l rest q live
        ];
        closed = Closed-trans a o o' o'' w.marks f.closed w.closed;
      }

  loop :
      (fuel : ℕ) (next : ℕ → Net → Net) (k : ℕ) (ps : List Peer) (o : Net)
      → ((j : ℕ) (o : Net) → Memᴰ j g.nodes → Ready fuel o → Flooded j o (next j o))
      → ((ne : Peer) → Memᴰ ne ps → Memᴰ ne (peers g k))
      → Ready fuel o
      → Looped k ps o (prune_peers next k ps o)
  unfolding prune_peers
  loop fuel next k [] o h sub r = record {
    marks = Marks-none _ o;
    done = λ ne j i e live. absurd (Memᴰ.not-nil i);
    closed = λ j l u t e live. absurd (cc (sym u ∙ t));
  }
  loop fuel next k (ne ∷ ps) o h sub r =
      let sub' = λ (p : Peer) (i : Memᴰ p ps). sub p (Memᴰ.tail i) in
      elim (Option-cases (find_neigh_bidir g k ne)) [
        | inl e ↦
            rw (loop_none next k ne ps o (ap (λ x. find_neigh_bidir x k ne) r.0 ∙ e))
              (loop_skips k ne ps o _ e (loop fuel next k ps o h sub' r))
        | inr (j, e) ↦
            let edge : Edge g k j = record {
              peer = ne;
              listed = sub ne (Memᴰ.head refl);
              found = e;
            } in
            let f = h j o (edge_inside g k ne j e) r in
            rw (loop_some next k ne ps o j (ap (λ x. find_neigh_bidir x k ne) r.0 ∙ e)) (
              loop_visits k ne ps o (next j o) _ j edge e f (
                loop fuel next k ps (next j o) h sub'
                  (still-Ready (Walk g now j) fuel o (next j o) f.marks r)))
      ]

  rec_stops :
      (fuel k : ℕ) (o : Net)
      → (is_marked o k || not (is_live o.graph o.now k)) ≡ true
      → prune_rec (suc fuel) k o ≡ o
  unfolding prune_rec
  rec_stops fuel k o t = rw (t, prune_rec) refl

  rec_goes :
      (fuel k : ℕ) (o : Net)
      → (is_marked o k || not (is_live o.graph o.now k)) ≡ false
      → prune_rec (suc fuel) k o ≡ prune_peers (prune_rec fuel) k (peers o.graph k) (visit k o)
  unfolding prune_rec
  rec_goes fuel k o t = rw (t, prune_rec) refl

  -- A node that is marked or has expired is left alone.
  Flooded-none : (k : ℕ) (o : Net) → (is_live g now k ≡ true → is_marked o k ≡ true) → Flooded k o o
  Flooded-none k o h = record {
    marks = Marks-none (Walk g now k) o;
    done = h;
    closed = λ j l u t e live. absurd (cc (sym u ∙ t));
  }

  Flooded-visit :
      (k : ℕ) (o o' : Net)
      → is_marked o k ≡ false
      → is_live g now k ≡ true
      → Looped k (peers g k) (visit k o) o'
      → Flooded k o o'
  Flooded-visit k o o' f live w =
      let v = visit-Marks k o f in
      record {
        marks =
            Marks-trans (Walk g now k) o (visit k o) o'
              (Marks-mono _ (Walk g now k) o (visit k o)
                (λ j e. subst (Walk g now k) (sym e) (stays live)) v)
              (Marks-mono _ (Walk g now k) (visit k o) o' (λ i (j, e, x). goes live e x) w.marks);
        done = λ _. w.marks.keeps k (visit_marked k o);
        closed = λ j l u t e alive. elim (ℕ_discrete j k) [
          | yes s ↦
              let e' = subst (λ x. Edge g x l) s e in w.done e'.peer l e'.listed e'.found alive
          | no n ↦ w.closed j l (visit_other k o j n ∙ u) t e alive
        ];
      }

  -- With fuel for the nodes that are not marked.
  pub prune_rec-Flooded :
      (fuel k : ℕ) (o : Net) → Memᴰ k g.nodes → Ready fuel o → Flooded k o (prune_rec fuel k o)
  unfolding prune_rec
  prune_rec-Flooded zero k o i (x, y, z) =
      Flooded-none k o (λ _. unmarked_zero (is_marked o) g.nodes k i (omega (arith, z)))
  prune_rec-Flooded (suc fuel) k o i (x, y, z) =
      let alive : is_live o.graph o.now k ≡ is_live g now k =
        ap (λ h. is_live h o.now k) x ∙ ap (λ n. is_live g n k) y in
      elim (Bool-cases (is_marked o k)) [
        | inl t ↦ rw (rec_stops fuel k o (rw t refl)) (Flooded-none k o (λ _. t))
        | inr t ↦ elim (Bool-cases (is_live g now k)) [
          | inr u ↦
              rw (rec_stops fuel k o (rw (t, alive, u) refl))
                (Flooded-none k o (λ q. absurd (cc (sym u ∙ q))))
          | inl u ↦
              let v = visit-Marks k o t in
              let goes_on =
                rec_goes fuel k o (rw (t, alive, u) refl)
                ∙ ap (λ h. prune_peers (prune_rec fuel) k (peers h k) (visit k o)) x in
              subst (Flooded k o) (sym goes_on) (
                Flooded-visit k o _ t u (
                  loop fuel (prune_rec fuel) k (peers g k) (visit k o)
                    (λ j o' m r. prune_rec-Flooded fuel j o' m r) (λ p m. m)
                    (
                      v.steady.graph ∙ x,
                      v.steady.now ∙ y,
                      omega (
                        arith,
                        z,
                        unmarked_less (is_marked o) (is_marked (visit k o)) g.nodes k v.keeps i t
                            (visit_marked k o),
                      ),
                    )))
        ]
      ]
