-- ===== src/Pa/Routine/Override.antt =====
-- Whether a rule may assign a prefix (`pa_rule_valid_assignment` in src/pa_core.c). The walk over the
-- tree meets the assigned prefixes of all pairs, the pair itself among them, and the advertised ones.
mod Tests
use mathlib.Core.List.{Memᴰ}
use mathlib.Core.List.Memᴰ
use hnetd.Common.{
  ℕ, ◌≤◌, ◌<◌, ◌≡◌, refl, inl, inr, Bool, true, false, not, ◌&&◌, ◌||◌, none, some, List, [], ◌∷◌,
  arith, ltb, leb, if◌then◌else◌,
}
use hnetd.Pa.Prefix.{Prefix, prefix_overlap}
use hnetd.Pa.State.{Advp, Ldp, Core}
use hnetd.Pa.Routine.{precedes, no_advp_precedes}

module _ (override_rule_priority override_priority : ℕ) (safety : Bool) where
  -- The rule that holds a pair's prefix has no lower rule priority.
  pub held_firmly : Ldp → Bool
  held_firmly l = (l.published || l.adopting) && leb override_rule_priority l.rule_priority

  -- The pair itself stands in the way.
  unfoldable pub own_refuses : Ldp → Bool
  own_refuses l = elim l.best_assignment [
    | some a ↦ leb override_priority a.priority
    | none ↦
        if l.assigned
        then if held_firmly l
          then true
          else safety && l.published && leb override_priority l.priority
        else false
  ]

  -- An assigned prefix of the tree stands in the way.
  pub ldp_refuses : Ldp → Bool
  ldp_refuses l =
      if held_firmly l then true else safety && l.published && ltb override_priority l.priority

  unfoldable pub no_ldp_refuses : Prefix → Core → List ℕ → Bool
  no_ldp_refuses p c [] = true
  no_ldp_refuses p c (j ∷ js) =
      not ((c.ldp j).assigned && prefix_overlap p (c.ldp j).prefix && ldp_refuses (c.ldp j))
      && no_ldp_refuses p c js

  unfoldable pub no_advp_refuses : Prefix → List Advp → Bool
  no_advp_refuses p [] = true
  no_advp_refuses p (a ∷ as') =
      not (prefix_overlap p a.prefix && leb override_priority a.priority) && no_advp_refuses p as'

  unfoldable pub rule_valid_assignment : Core → ℕ → Prefix → Bool
  rule_valid_assignment c k p =
      not (own_refuses (c.ldp k)) && no_ldp_refuses p c c.ldps && no_advp_refuses p c.advps

  -- A pair that publishes an overlapping prefix gives way to the new assignment.
  abbrev pub GivesWay : Ldp → Type 0
  GivesWay l =
      (l.published ≡ true → l.rule_priority < override_rule_priority)
      × (l.adopting ≡ true → l.rule_priority < override_rule_priority)
      × (safety ≡ true → l.published ≡ true → l.priority ≤ override_priority)

  gives_way : (l : Ldp) → ldp_refuses l ≡ false → GivesWay l
  unfolding ldp_refuses held_firmly
  gives_way l e = ground arith

  head_allows :
      (p : Prefix) (l : Ldp) (rest : Bool)
      → l.assigned ≡ true
      → prefix_overlap p l.prefix ≡ true
      → (not (l.assigned && prefix_overlap p l.prefix && ldp_refuses l) && rest) ≡ true
      → ldp_refuses l ≡ false
  head_allows p l rest a o t = ground arith

  others_give_way :
      (p : Prefix) (c : Core) (js : List ℕ) (j : ℕ)
      → no_ldp_refuses p c js ≡ true
      → Memᴰ j js
      → (c.ldp j).assigned ≡ true
      → prefix_overlap p (c.ldp j).prefix ≡ true
      → GivesWay (c.ldp j)
  unfolding no_ldp_refuses
  others_give_way p c [] j t m a o = absurd (Memᴰ.not-nil m)
  others_give_way p c (i ∷ js) j t m a o = elim (Memᴰ.cases_cons m) [
    | inl e ↦ gives_way (c.ldp j) (head_allows p (c.ldp j) (no_ldp_refuses p c js) a o (rw e t))
    | inr r ↦ others_give_way p c js j (ground arith) r a o
  ]

  outranked :
      (me : ℕ) (l : Ldp) (advps : List Advp)
      → no_advp_refuses l.prefix advps ≡ true
      → l.published ≡ true
      → l.priority ≡ override_priority
      → no_advp_precedes me l advps ≡ true
  unfolding no_advp_refuses no_advp_precedes precedes
  outranked me l [] t u e = refl
  outranked me l (a ∷ as') t u e = ground (arith, outranked me l as')

  -- What a caller of `pa_rule_valid_assignment` may rely on, where `l` is the pair's state once the
  -- prefix is published at the override priority.
  pub record IsOverriding (c : Core) (k : ℕ) (l : Ldp) : Type 0 where
    pub own : (c.ldp k).best_assignment ≡ none → (c.ldp k).assigned ≡ true → GivesWay (c.ldp k)
    pub best : (a : Advp) → (c.ldp k).best_assignment ≡ some a → a.priority < override_priority
    pub others :
        (j : ℕ)
        → Memᴰ j c.ldps
        → (c.ldp j).assigned ≡ true
        → prefix_overlap l.prefix (c.ldp j).prefix ≡ true
        → GivesWay (c.ldp j)
    pub outranks : no_advp_precedes c.node_id l c.advps ≡ true

  -- If `pa_rule_valid_assignment` accepts a prefix, the rule that holds the pair now, the best
  -- assignment and the rules of all pairs with an overlapping assigned prefix have lower priorities
  -- than the given ones, and once the prefix is published at the override priority, no advertised
  -- prefix takes precedence over it.
  pub rule_valid_assignment_lem :
      (c : Core) (k : ℕ) (l : Ldp)
      → rule_valid_assignment c k l.prefix ≡ true
      → l.published ≡ true
      → l.priority ≡ override_priority
      → IsOverriding c k l
  unfolding rule_valid_assignment own_refuses held_firmly
  rule_valid_assignment_lem c k l t u e = record {
    own = λ n a. ground (arith, n);
    best = λ a b. ground (arith, b);
    others = λ j m a o. others_give_way l.prefix c c.ldps j (ground arith) m a o;
    outranks = outranked c.node_id l c.advps (ground arith) u e;
  }
