-- ===== src/Pa/Rules/Best.antt =====
-- The sorted list of rules, and the answer that is chosen from it.
use mathlib.Core.Path.{subst}
use mathlib.Core.Option.{some-injective}
use hnetd.Common.{
  ℕ, ◌≡◌, refl, sym, ◌∙◌, ◌≢◌, inl, inr, true, Option, none, some, List, [], ◌∷◌, ltb, leb, ◌==◌,
  ==_iff, Bool-cases, Option-cases,
}
use hnetd.Pa.State.{Core}
use hnetd.Pa.Rules.{
  Target, Arg, Rule, Ranked, Made, Choice, is_match, insert_rule, rank_of, sort_rules, try_rule,
  choose, best_rule,
}

-- Every answer of the rule to this pair has the property.
abbrev pub Replies {ℓ} : (Made → Type ℓ) → Core → ℕ → Rule → Type ℓ
Replies P c k r =
    (f : Core → ℕ → ℕ → Target × Arg) (prio : ℕ)
    → r.match ≡ some f
    → let (t, a) = f c k prio in
      is_match t ≡ true → P (record { target = t; arg = a; by_rule = r.id })

-- The same, if the rule takes part: if it has a priority for the pair.
abbrev pub Answers {ℓ} : (Made → Type ℓ) → Core → ℕ → Rule → Type ℓ
Answers P c k r = rank_of c k r ≢ 0 → Replies P c k r

abbrev pub All {ℓ κ} : {A : Type ℓ} → (A → Type κ) → List A → Type κ
All P [] = Unit
All P (x ∷ xs) = P x × All P xs

module _ {ℓ} (P : Made → Type ℓ) (c : Core) (k : ℕ) where
  abbrev Holds : Option Made → Type ℓ
  Holds o = (m : Made) → o ≡ some m → P m

  try_rule-Holds :
      (r : Rule) (best : Choice)
      → Replies P c k r
      → Holds best.made
      → Holds (try_rule c k r best).made
  unfolding try_rule
  try_rule-Holds r best p h = elim (Option-cases r.match) [
    | inl q ↦ rw (q, try_rule) h
    | inr (f, q) ↦
        rw (q, try_rule)
          (elim (Bool-cases (is_match (f c k best.prio).0)) [
            | inl t ↦ rw t (λ m e. subst P (some-injective _ _ e) (p f best.prio q t))
            | inr t ↦ rw t h
          ])
  ]

  choose-Holds :
      (xs : List Ranked) (best : Choice)
      → All (λ x. Replies P c k x.rule) xs
      → Holds best.made
      → Holds (choose c k xs best).made
  unfolding choose
  choose-Holds [] best p h = h
  choose-Holds (x ∷ xs) best p h = elim (Bool-cases (leb x.rank best.prio)) [
    | inl t ↦ rw (t, choose) h
    | inr t ↦
        rw (t, choose)
          (choose-Holds xs (try_rule c k x.rule best) p.1 (try_rule-Holds x.rule best p.0 h))
  ]

  insert_rule-All :
      (r : Ranked) (xs : List Ranked)
      → Replies P c k r.rule
      → All (λ x. Replies P c k x.rule) xs
      → All (λ x. Replies P c k x.rule) (insert_rule r xs)
  unfolding insert_rule
  insert_rule-All r [] q qs = (q, tt)
  insert_rule-All r (x ∷ xs) q qs = elim (Bool-cases (ltb x.rank r.rank)) [
    | inl t ↦ rw t (q, qs)
    | inr t ↦ rw t (qs.0, insert_rule-All r xs q qs.1)
  ]

  sort_rules-All :
      (rs : List Rule) (xs : List Ranked)
      → All (Answers P c k) rs
      → All (λ x. Replies P c k x.rule) xs
      → All (λ x. Replies P c k x.rule) (sort_rules c k rs xs)
  unfolding sort_rules
  sort_rules-All [] xs p q = q
  sort_rules-All (r ∷ rs) xs p q = elim (Bool-cases (rank_of c k r == 0)) [
    | inl t ↦ rw t (sort_rules-All rs xs p.1 q)
    | inr t ↦
        let taken : rank_of c k r ≢ 0 = λ e. absurd (cc (sym t ∙ (==_iff _ 0).1 e)) in
        rw t (sort_rules-All rs _ p.1 (insert_rule-All _ xs (p.0 taken) q))
  ]

  -- What holds of every answer of the rules holds of the one that is chosen.
  pub best_rule-Holds :
      (rs : List Rule) (prio : ℕ) → All (Answers P c k) rs → Holds (best_rule c k rs prio)
  unfolding best_rule
  best_rule-Holds rs prio p =
      choose-Holds (sort_rules c k rs []) (record { prio = prio; made = none })
        (sort_rules-All rs [] p tt) (λ m e. cc)

-- A rule that takes part has a priority by its own function.
pub rank_of_positive :
    (c : Core) (k : ℕ) (r : Rule) (g : Core → ℕ → ℕ)
    → r.get_max_priority ≡ some g
    → rank_of c k r ≢ 0
    → g c k ≢ 0
unfolding rank_of
rank_of_positive c k r g e ranked zero_priority = elim (Option-cases r.filter_accept) [
  | inl p ↦ ranked (rw (p, rank_of, e) zero_priority)
  | inr (accept, p) ↦ elim (Bool-cases (accept c k)) [
    | inl t ↦ ranked (rw (p, rank_of, t, e) zero_priority)
    | inr t ↦ ranked (rw (p, rank_of, t) refl)
  ]
]
