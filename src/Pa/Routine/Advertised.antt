-- ===== src/Pa/Routine/Advertised.antt =====
-- The advertised prefix that takes precedence over a pair (part 1 of `pa_routine` in src/pa_core.c).
use mathlib.Core.List.{Memᴰ}
use mathlib.Core.List.Memᴰ
use mathlib.Core.Option.{some-injective}
use mathlib.Core.Path.{subst}
use hnetd.Common.{
  ℕ, ◌<◌, ◌≡◌, ◌≢◌, ◌↔◌, refl, sym, ap, ◌∙◌, ◌⊎◌, inl, inr, Bool, true, false, ◌&&◌, Option, none,
  some, List, [], ◌∷◌, arith, ◌==◌, ==_refl, ==_iff, Bool-cases, if◌then◌else◌,
}
use hnetd.Pa.Prefix.{Prefix, prefix_overlap}
use hnetd.Pa.State.{Advp, Ldp, Core, modify}
use hnetd.Pa.Routine.{precedes, is_better, find_best, set_best}

-- An advertised prefix on the link that overlaps the delegated prefix
pub record Eligible (dp : Prefix) (link : ℕ) (a : Advp) : Type 0 where
  pub overlaps : prefix_overlap dp a.prefix ≡ true
  pub on_link : a.link ≡ some link

-- `b` has a higher priority than `a`, or the same and a higher identifier.
abbrev pub Beats : Advp → Advp → Type 0
Beats b a = (a.priority < b.priority) ⊎ ((a.priority ≡ b.priority) × (a.node_id < b.node_id))

-- The advertised prefix `a` takes precedence over a pair of the node `me`.
abbrev pub Precedes : ℕ → Advp → Ldp → Type 0
Precedes me a l =
    (l.published ≡ false)
    ⊎ (l.priority < a.priority)
    ⊎ ((a.priority ≡ l.priority) × (a.node_id ≢ me))

-- No eligible one of the advertised prefixes beats `a`.
pub record Best (dp : Prefix) (link : ℕ) (advps : List Advp) (a : Advp) : Type 0 where
  pub advertised : Memᴰ a advps
  pub eligible : Eligible dp link a
  pub unbeaten : (b : Advp) → Memᴰ b advps → Eligible dp link b → ¬ Beats b a

-- The best advertised prefix for a pair, if it takes precedence over it
pub record Precedent (c : Core) (k : ℕ) (a : Advp) : Type 0 where
  pub best : Best (c.dp (c.ldp k).dp).prefix (c.ldp k).link c.advps a
  pub takes : Precedes c.node_id a (c.ldp k)

on_link_iff :
    (link : ℕ) (o : Option ℕ)
    → (elim o as (λ _. Bool) [ none ↦ false | some on ↦ on == link ]) ≡ true
    → o ≡ some link
on_link_iff link none e = absurd (cc e)
on_link_iff link (some on) e = ap some ((==_iff on link).0 e)

better_some :
    (link : ℕ) (b a : Advp) → is_better link (some b) a ≡ true → (a.link ≡ some link) × Beats a b
unfolding is_better
better_some link b a e = (on_link_iff link a.link (ground (arith, e)), ground (arith, e))

better_none : (link : ℕ) (a : Advp) → is_better link none a ≡ true → a.link ≡ some link
unfolding is_better
better_none link a e = on_link_iff link a.link (ground (arith, e))

better_on :
    (link : ℕ) (best : Option Advp) (a : Advp) → is_better link best a ≡ true → a.link ≡ some link
better_on link none a e = better_none link a e
better_on link (some b) a e = (better_some link b a e).0

worse_some :
    (link : ℕ) (b a : Advp) → a.link ≡ some link → is_better link (some b) a ≡ false → ¬ Beats a b
unfolding is_better
worse_some link b a l e x =
    let f =
      ap (λ (o : Option ℕ). elim o as (λ _. Bool) [ none ↦ false | some on ↦ on == link ]) l
      ∙ ==_refl link in
    ground (arith, e, f, x)

worse_none : (link : ℕ) (a : Advp) → a.link ≡ some link → is_better link none a ≢ false
unfolding is_better
worse_none link a l e =
    let f =
      ap (λ (o : Option ℕ). elim o as (λ _. Bool) [ none ↦ false | some on ↦ on == link ]) l
      ∙ ==_refl link in
    ground (arith, e, f)

not_itself : (a b : Advp) → a ≡ b → ¬ Beats a b
not_itself a b e x =
    let p = ap (λ (y : Advp). y.priority) e in
    let n = ap (λ (y : Advp). y.node_id) e in ground (arith, x, p, n)

not_back : (a b : Advp) → Beats a b → ¬ Beats b a
not_back a b x y = ground (arith, x, y)

not_over : (a b c : Advp) → ¬ Beats a b → ¬ Beats b c → ¬ Beats a c
not_over a b c x y z = ground (arith, x, y, z)

module _ (dp : Prefix) (link : ℕ) where
  abbrev better : Option Advp → Advp → Option Advp
  better best a = if prefix_overlap dp a.prefix && is_better link best a then some a else best

  -- One of the advertised prefixes, or the best so far
  abbrev Among : List Advp → Option Advp → Advp → Type 0
  Among advps best a = (best ≡ some a) ⊎ (Memᴰ a advps × Eligible dp link a)

  -- What is compared with the next prefix is the best so far or the next one.
  better_from :
      (best : Option Advp) (x a : Advp)
      → better best x ≡ some a
      → (best ≡ some a) ⊎ ((x ≡ a) × Eligible dp link x)
  better_from best x a e = elim (Bool-cases (prefix_overlap dp x.prefix && is_better link best x)) [
    | inr f ↦ inl (subst (λ b. (if b then some x else best) ≡ some a) f e)
    | inl f ↦
        let same = some-injective x a (subst (λ b. (if b then some x else best) ≡ some a) f e) in
        inr (
          same,
          record {
            overlaps = ground (arith, f);
            on_link = better_on link best x (ground (arith, f));
          },
        )
  ]

  find_best-Among :
      (advps : List Advp) (best : Option Advp) (a : Advp)
      → find_best dp link advps best ≡ some a
      → Among advps best a
  unfolding find_best
  find_best-Among [] best a e = inl e
  find_best-Among (x ∷ rest) best a e = elim (find_best-Among rest (better best x) a e) [
    | inr (m, g) ↦ inr (Memᴰ.tail m, g)
    | inl f ↦ elim (better_from best x a f) [
      | inl g ↦ inl g
      | inr (same, g) ↦ inr (Memᴰ.head (sym same), subst (Eligible dp link) same g)
    ]
  ]

  -- What the comparison with `x` drops does not beat what is left.
  better_over :
      (best : Option Advp) (x b : Advp)
      → Among (x ∷ []) best b
      → (y : Advp) × (better best x ≡ some y) × (¬ Beats b y)
  better_over best x b m =
      let test = prefix_overlap dp x.prefix && is_better link best x in
      elim (Bool-cases test) [
        | inl f ↦ (x, rw f refl, over_new best x b m f)
        | inr f ↦ let (y, e, n) = over_old best x b m f in (y, rw f e, n)
      ]
    where
      over_new :
          (best : Option Advp) (x b : Advp)
          → Among (x ∷ []) best b
          → (prefix_overlap dp x.prefix && is_better link best x) ≡ true
          → ¬ Beats b x
      over_new none x b (inl e) f = absurd (cc e)
      over_new (some c) x b (inl e) f =
          let same = some-injective c b e in
          subst (λ d. ¬ Beats d x) same
            (not_back x c ((better_some link c x (ground (arith, f))).1))
      over_new best x b (inr (m, g)) f = not_itself b x (Memᴰ.eq_of_singleton m)

      over_old :
          (best : Option Advp) (x b : Advp)
          → Among (x ∷ []) best b
          → (prefix_overlap dp x.prefix && is_better link best x) ≡ false
          → (y : Advp) × (best ≡ some y) × (¬ Beats b y)
      over_old none x b (inl e) f = absurd (cc e)
      over_old (some c) x b (inl e) f = (c, refl, not_itself b c (sym (some-injective c b e)))
      over_old none x b (inr (m, g)) f =
          let same = Memᴰ.eq_of_singleton m in
          let h = subst (Eligible dp link) same g in
          let o = h.overlaps in absurd (worse_none link x h.on_link (ground (arith, f, o)))
      over_old (some c) x b (inr (m, g)) f =
          let same = Memᴰ.eq_of_singleton m in
          let h = subst (Eligible dp link) same g in
          let o = h.overlaps in
          (
            c,
            refl,
            subst (λ d. ¬ Beats d c) (sym same)
                (worse_some link c x h.on_link (ground (arith, f, o))),
          )

  find_best-over :
      (advps : List Advp) (best : Option Advp) (b : Advp)
      → Among advps best b
      → (y : Advp) × (find_best dp link advps best ≡ some y) × (¬ Beats b y)
  unfolding find_best
  find_best-over [] best b (inl e) = (b, e, not_itself b b refl)
  find_best-over [] best b (inr (m, g)) = absurd (Memᴰ.not-nil m)
  find_best-over (x ∷ rest) best b (inl e) =
      let (y, f, n) = better_over best x b (inl e) in
      let (z, h, n') = find_best-over rest (better best x) y (inl f) in (z, h, not_over b y z n n')
  find_best-over (x ∷ rest) best b (inr (m, g)) = elim (Memᴰ.cases_cons m) [
    | inr h ↦ find_best-over rest (better best x) b (inr (h, g))
    | inl h ↦
        let (y, f, n) = better_over best x b (inr (Memᴰ.head h, g)) in
        let (z, h', n') = find_best-over rest (better best x) y (inl f) in
        (z, h', not_over b y z n n')
  ]

  -- `find_best` finds the best advertised prefix, and finds one if any is eligible.
  find_best-Best :
      (advps : List Advp) (a : Advp) → find_best dp link advps none ≡ some a → Best dp link advps a
  find_best-Best advps a e = elim (find_best-Among advps none a e) [
    | inl f ↦ absurd (cc f)
    | inr (m, g) ↦ record {
      advertised = m;
      eligible = g;
      unbeaten = λ b m' g'.
          let (y, f, n) = find_best-over advps none b (inr (m', g')) in
          subst (λ d. ¬ Beats b d) (some-injective y a (sym f ∙ e)) n;
    }
  ]

precedes_iff : (me : ℕ) (a : Advp) (l : Ldp) → (precedes me a l ≡ true) ↔ Precedes me a l
unfolding precedes
precedes_iff me a l = ground (arith, ==_iff a.node_id me)

-- Two best ones take precedence over the same pairs.
best_same :
    (dp : Prefix) (link : ℕ) (advps : List Advp) (a b : Advp) (me : ℕ) (l : Ldp)
    → Best dp link advps a
    → Best dp link advps b
    → Precedes me a l
    → Precedes me b l
best_same dp link advps a b me l v w p =
    let x = v.unbeaten b w.advertised w.eligible in
    let y = w.unbeaten a v.advertised v.eligible in
    let e : a.priority ≡ b.priority = ground (arith, x, y) in
    let n : a.node_id ≡ b.node_id = ground (arith, x, y, e) in
    subst
      (λ i.
        (l.published ≡ false) ⊎ (l.priority < b.priority) ⊎ ((b.priority ≡ l.priority) × (i ≢ me)))
      n
      (subst (λ i. (l.published ≡ false) ⊎ (l.priority < i) ⊎ ((i ≡ l.priority) × (a.node_id ≢ me)))
        e p)

-- What the first part takes of the best prefix
abbrev pick : ℕ → Ldp → Option Advp → Option Advp
pick me l none = none
pick me l (some a) = if precedes me a l then some a else none

pick-some :
    (me : ℕ) (l : Ldp) (o : Option Advp) (a : Advp)
    → pick me l o ≡ some a
    → (o ≡ some a) × (precedes me a l ≡ true)
pick-some me l none a e = absurd (cc e)
pick-some me l (some b) a e = elim (Bool-cases (precedes me b l)) [
  | inr f ↦ absurd (cc (subst (λ t. (if t then some b else none) ≡ some a) f e))
  | inl f ↦
      let same = some-injective b a (subst (λ t. (if t then some b else none) ≡ some a) f e) in
      (ap some same, subst (λ d. precedes me d l ≡ true) same f)
]

pick-none :
    (me : ℕ) (l : Ldp) (o : Option Advp) (b : Advp)
    → pick me l o ≡ none
    → o ≡ some b
    → precedes me b l ≢ true
pick-none me l none b e f t = absurd (cc f)
pick-none me l (some a) b e f t =
    let g = subst (λ d. precedes me d l ≡ true) (sym (some-injective a b f)) t in
    cc (subst (λ t'. (if t' then some a else none) ≡ none) g e)

picked :
    (k : ℕ) (c : Core)
    → ((set_best k c).ldp k).best_assignment
      ≡ pick c.node_id (c.ldp k) (find_best (c.dp (c.ldp k).dp).prefix (c.ldp k).link c.advps none)
unfolding set_best modify
picked k c = rw (==_refl k) refl

-- The first part of the routine finds what takes precedence.
pub set_best-Precedent :
    (k : ℕ) (c : Core) (a : Advp)
    → ((set_best k c).ldp k).best_assignment ≡ some a
    → Precedent c k a
set_best-Precedent k c a e =
    let (f, t) = pick-some c.node_id (c.ldp k) _ a (sym (picked k c) ∙ e) in
    record {
      best = find_best-Best (c.dp (c.ldp k).dp).prefix (c.ldp k).link c.advps a f;
      takes = (precedes_iff c.node_id a (c.ldp k)).0 t;
    }

-- If it finds nothing, nothing takes precedence.
pub set_best-none :
    (k : ℕ) (c : Core) (a : Advp)
    → ((set_best k c).ldp k).best_assignment ≡ none
    → ¬ Precedent c k a
set_best-none k c a e p =
    let l = c.ldp k in
    let dp = (c.dp l.dp).prefix in
    let (y, f, n) =
      find_best-over dp l.link c.advps none a (inr (p.best.advertised, p.best.eligible)) in
    let takes =
      best_same dp l.link c.advps a y c.node_id l p.best (find_best-Best dp l.link c.advps y f)
        p.takes in
    pick-none c.node_id l _ y (sym (picked k c) ∙ e) f ((precedes_iff c.node_id y l).1 takes)
