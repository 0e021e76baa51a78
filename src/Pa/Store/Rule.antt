-- ===== src/Pa/Store/Rule.antt =====
-- The rule of the store (`pa_store_get_max_priority`, `pa_store_match` and `pa_store_rule_init` of
-- src/pa_store.c), which proposes the prefix of the link that was applied last.
use mathlib.Core.Option.{some-injective}
use hnetd.Common.{
  ℕ, ◌≤◌, ◌≡◌, refl, sym, ap, ◌∙◌, ◌≢◌, inl, inr, Bool, true, false, not, ◌&&◌, ◌||◌, Option, none,
  some, List, [], ◌∷◌, ◌++◌, arith, ℕ_discrete, ltb, ◌==◌, if◌then◌else◌, ne→==, Bool-cases,
  Option-cases,
}
use hnetd.Pa.Prefix.{Prefix, prefix_cpy, prefix_contains}
use hnetd.Pa.State.{Core, is_some}
use hnetd.Pa.Rules.{
  Target, Arg, Rule, rank_of, rule_no_match, rule_publish, rule_backoff, rule_adopt,
}
use hnetd.Pa.Rules.Best.{rank_of_positive}
use hnetd.Pa.Routine.Override.{rule_valid_assignment}
use hnetd.Pa.System.Reach.{Behaves}
use hnetd.Pa.UserRules.Behaved.{answer}
use hnetd.Pa.Store.Lists.{member}
use hnetd.Pa.Store.{Store, find_link}

-- `struct pa_store_rule`, less the store. `get_plen_range` changes the least and the greatest length.
pub record StoreRule : Type 0 where
  pub rule_priority : ℕ
  pub priority : ℕ
  pub get_plen_range : Option (Core → ℕ → ℕ × ℕ → ℕ × ℕ)

-- `pa_store_get_max_priority`
unfoldable pub store_get_max_priority : StoreRule → Store → Core → ℕ → ℕ
store_get_max_priority r s c k =
    let ldp = c.ldp k in
    if is_some ldp.best_assignment || ldp.published
    then 0
    else elim (find_link s ldp.link s.links) [
      | none ↦ 0
      | some l ↦ if (s.link_at l).n_prefixes == 0 then 0 else r.rule_priority
    ]

-- The lengths from `min` to `max` in `pa_store_match`.
unfoldable pub plen_range : StoreRule → Core → ℕ → ℕ × ℕ
plen_range r c k = elim r.get_plen_range [ none ↦ (0, 255) | some f ↦ f c k (0, 255) ]

-- The conditions on a stored prefix.
unfoldable pub store_fits : StoreRule → Core → ℕ → Prefix → Bool
store_fits r c k p =
    let d = (c.dp (c.ldp k).dp).prefix in
    let lengths = plen_range r c k in
    not (ltb p.plen d.plen)
    && not (ltb p.plen lengths.0)
    && not (ltb lengths.1 p.plen)
    && prefix_contains d p
    && rule_valid_assignment 0 0 false c k p

-- The prefixes of the link. It is there when `get_max_priority` was not 0.
unfoldable pub candidates : Store → Core → ℕ → List ℕ
candidates s c k = elim (find_link s (c.ldp k).link s.links) [
  | none ↦ []
  | some l ↦ (s.link_at l).prefixes
]

unfoldable pub first_fit : StoreRule → Store → Core → ℕ → List ℕ → Option ℕ
first_fit r s c k [] = none
first_fit r s c k (p ∷ ps) =
    let rest = first_fit r s c k ps in if store_fits r c k (s.prefix_at p) then some p else rest

-- What `pa_store_match` answers for the prefix it has found.
unfoldable pub found_answer : Store → Arg → Core → ℕ → ℕ → Target × Arg
found_answer s arg c k p =
    if not (c.ldp k).backoff
    then (rule_backoff, arg)
    else (rule_publish, record arg { prefix = prefix_cpy (s.prefix_at p) arg.prefix })

-- `pa_store_match`
unfoldable pub store_match : StoreRule → Store → Arg → Core → ℕ → Target × Arg
store_match r s arg0 c k =
    let arg = record arg0 { priority = r.priority; rule_priority = r.rule_priority } in
    elim (first_fit r s c k (candidates s c k)) [
      | none ↦ (rule_no_match, arg)
      | some p ↦ found_answer s arg c k p
    ]

-- `pa_store_rule_init`, with the length range that was set: the rule as it answers while the store is
-- `s`. The store changes only between two runs of the routine, when a prefix is applied, so one run
-- meets one store.
unfoldable pub store_rule : ℕ → StoreRule → Store → Arg → Rule
store_rule id r s arg = record {
  id = id;
  filter_accept = none;
  get_max_priority = some (store_get_max_priority r s);
  max_priority = 0;
  match = some (λ c k prio. store_match r s arg c k);
}

no_adopt : (s : Store) (arg : Arg) (c : Core) (k p : ℕ) → (found_answer s arg c k p).0 ≢ rule_adopt
unfolding found_answer
no_adopt s arg c k p e = ground arith

copied_prefix :
    (s : Store) (arg : Arg) (c : Core) (k p : ℕ)
    → (found_answer s arg c k p).0 ≡ rule_publish
    → (found_answer s arg c k p).1.prefix ≡ prefix_cpy (s.prefix_at p) arg.prefix
unfolding found_answer
copied_prefix s arg c k p e = ground arith

-- The argument with the priorities of the rule.
abbrev ranked : StoreRule → Arg → Arg
ranked r arg = record arg { priority = r.priority; rule_priority = r.rule_priority }

store_match-none :
    (r : StoreRule) (s : Store) (arg : Arg) (c : Core) (k : ℕ)
    → first_fit r s c k (candidates s c k) ≡ none
    → store_match r s arg c k ≡ (rule_no_match, ranked r arg)
unfolding store_match
store_match-none r s arg c k n = rw (n, store_match) refl

store_match-some :
    (r : StoreRule) (s : Store) (arg : Arg) (c : Core) (k p : ℕ)
    → first_fit r s c k (candidates s c k) ≡ some p
    → store_match r s arg c k ≡ found_answer s (ranked r arg) c k p
unfolding store_match
store_match-some r s arg c k p e = rw (e, store_match) refl

no_match_ne_adopt : rule_no_match ≢ rule_adopt
no_match_ne_adopt e = cc e

no_match_ne_publish : rule_no_match ≢ rule_publish
no_match_ne_publish e = cc e

store_target :
    (r : StoreRule) (s : Store) (arg : Arg) (c : Core) (k : ℕ)
    → (store_match r s arg c k).0 ≢ rule_adopt
store_target r s arg c k e = elim (Option-cases (first_fit r s c k (candidates s c k))) [
  | inl n ↦ no_match_ne_adopt (sym (ap (λ x. x.0) (store_match-none r s arg c k n)) ∙ e)
  | inr (p, n) ↦
      no_adopt s (ranked r arg) c k p (sym (ap (λ x. x.0) (store_match-some r s arg c k p n)) ∙ e)
]

-- A prefix that the rule may propose: of an allowed length, inside of the delegated prefix, and
-- accepted without overriding.
pub record Fits (r : StoreRule) (c : Core) (k : ℕ) (p : Prefix) : Type 0 where
  pub below : (c.dp (c.ldp k).dp).prefix.plen ≤ p.plen
  pub shortest : (plen_range r c k).0 ≤ p.plen
  pub longest : p.plen ≤ (plen_range r c k).1
  pub inside : prefix_contains (c.dp (c.ldp k).dp).prefix p ≡ true
  pub accepted : rule_valid_assignment 0 0 false c k p ≡ true

store_fits-Fits :
    (r : StoreRule) (c : Core) (k : ℕ) (p : Prefix) → store_fits r c k p ≡ true → Fits r c k p
unfolding store_fits
store_fits-Fits r c k p e = ground (arith, e)

not-Fits :
    (r : StoreRule) (c : Core) (k : ℕ) (p : Prefix) → store_fits r c k p ≡ false → ¬ Fits r c k p
unfolding store_fits
not-Fits r c k p e f =
    let a = f.below in
    let b = f.shortest in
    let d = f.longest in let i = f.inside in let v = f.accepted in ground (arith, e, a, b, d, i, v)

-- The list has a prefix that fits, behind prefixes that do not.
pub record Latest (r : StoreRule) (s : Store) (c : Core) (k : ℕ) (ps : List ℕ) (at : ℕ)
    : Type 0 where
  pub newer : List ℕ
  pub older : List ℕ
  pub split : ps ≡ newer ++ (at ∷ older)
  pub unfit : (q : ℕ) → member q newer ≡ true → ¬ Fits r c k (s.prefix_at q)
  pub fits : Fits r c k (s.prefix_at at)

first_fit-Latest :
    (r : StoreRule) (s : Store) (c : Core) (k : ℕ) (ps : List ℕ) (at : ℕ)
    → first_fit r s c k ps ≡ some at
    → Latest r s c k ps at
unfolding first_fit
first_fit-Latest r s c k [] at e = absurd (cc e)
first_fit-Latest r s c k (p ∷ ps) at e = elim (Bool-cases (store_fits r c k (s.prefix_at p))) [
  | inl t ↦
      let same : p ≡ at = some-injective _ _ (ground (arith, e)) in
      record {
        newer = [];
        older = ps;
        split = ap (◌∷ ps) same;
        unfit = λ q h. absurd (cc h);
        fits = store_fits-Fits r c k _ (ap (λ q. store_fits r c k (s.prefix_at q)) (sym same) ∙ t);
      }
  | inr t ↦
      let x = first_fit-Latest r s c k ps at (ground (arith, e)) in
      record {
        newer = p ∷ x.newer;
        older = x.older;
        split = ap (p ∷◌) x.split;
        unfit = λ q h. elim (ℕ_discrete p q) [
          | yes i ↦ not-Fits r c k _ (ap (λ j. store_fits r c k (s.prefix_at j)) (sym i) ∙ t)
          | no i ↦ x.unfit q (ground (arith, ne→== p q i))
        ];
        fits = x.fits;
      }
]

-- What the rule publishes, given the prefix memory `old` of its answer.
pub record IsStored (r : StoreRule) (s : Store) (c : Core) (k : ℕ) (old published : Prefix)
    : Type 0 where
  pub link : ℕ
  pub of_link : find_link s (c.ldp k).link s.links ≡ some link
  pub at : ℕ
  pub latest : Latest r s c k (s.link_at link).prefixes at
  pub copied : published ≡ prefix_cpy (s.prefix_at at) old

linked :
    (r : StoreRule) (s : Store) (c : Core) (k : ℕ)
    → store_get_max_priority r s c k ≢ 0
    → (l : ℕ) × find_link s (c.ldp k).link s.links ≡ some l
unfolding store_get_max_priority
linked r s c k n = elim (Option-cases (find_link s (c.ldp k).link s.links)) [
  | inl e ↦ absurd (n (ground arith))
  | inr x ↦ x
]

candidates_lem :
    (s : Store) (c : Core) (k l : ℕ)
    → find_link s (c.ldp k).link s.links ≡ some l
    → candidates s c k ≡ (s.link_at l).prefixes
unfolding candidates
candidates_lem s c k l e = rw (e, candidates) refl

store_published :
    (r : StoreRule) (s : Store) (arg : Arg) (c : Core) (k l : ℕ)
    → find_link s (c.ldp k).link s.links ≡ some l
    → (store_match r s arg c k).0 ≡ rule_publish
    → IsStored r s c k arg.prefix (store_match r s arg c k).1.prefix
store_published r s arg c k l found e = elim (Option-cases (first_fit r s c k (candidates s c k))) [
  | inl n ↦ absurd (no_match_ne_publish (sym (ap (λ x. x.0) (store_match-none r s arg c k n)) ∙ e))
  | inr (p, n) ↦
      let same = store_match-some r s arg c k p n in
      record {
        link = l;
        of_link = found;
        at = p;
        latest =
            first_fit-Latest r s c k _ p
              (ap (first_fit r s c k) (sym (candidates_lem s c k l found)) ∙ n);
        copied =
            ap (λ x. x.1.prefix) same
            ∙ copied_prefix s (ranked r arg) c k p (sym (ap (λ x. x.0) same) ∙ e);
      }
]

-- The store's rule never asks for an adoption.
pub store_rule-Behaves :
    (id : ℕ) (r : StoreRule) (s : Store) (arg : Arg) → Behaves (store_rule id r s arg)
unfolding store_rule
store_rule-Behaves id r s arg c k ranked f prio e t a =
    absurd (store_target r s arg c k (ap (λ (x : Target × Arg). x.0) (answer c k prio e) ∙ a))

-- When the store's rule takes part, that is, has a priority for the pair, and has a prefix published,
-- the store knows the link, and the prefix is a copy of the first one in the link's list that fits: one
-- of the allowed lengths, inside of the delegated prefix, and accepted by `pa_rule_valid_assignment`
-- without overriding.
pub store_rule-IsStored :
    (id : ℕ) (r : StoreRule) (s : Store) (arg : Arg) (c : Core) (k : ℕ)
    → rank_of c k (store_rule id r s arg) ≢ 0
    → (store_match r s arg c k).0 ≡ rule_publish
    → IsStored r s c k arg.prefix (store_match r s arg c k).1.prefix
unfolding store_rule
store_rule-IsStored id r s arg c k ranked target =
    let (l, found) =
      linked r s c k
        (rank_of_positive c k (store_rule id r s arg) (store_get_max_priority r s) refl ranked) in
    store_published r s arg c k l found target
