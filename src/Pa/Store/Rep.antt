-- ===== src/Pa/Store/Rep.antt =====
-- How the lists of the store fit together, and what removing a prefix does to them (src/pa_store.c).
use mathlib.Core.Path.{subst}
use mathlib.Core.Option.{some-injective}
use hnetd.Common.{
  ℕ, suc, ◌^◌, ◌≤◌, ◌<◌, ◌≡◌, refl, sym, ap, ◌∙◌, ◌≢◌, inl, inr, Bool, true, not, ◌&&◌, Option,
  none, some, List, [], ◌∷◌, arith, ℕ_discrete, ◌==◌, ==_refl, ne→==, ==_iff, Bool-cases,
  Option-cases, length,
}
use hnetd.Pa.State.{is_some}
use hnetd.Pa.Store.Lists.{
  remove, last, member, Distinct, owned, member-remove, remove-Distinct, length-remove,
  owned-remove_own, owned-remove_other, member-owned, last-member,
}
use hnetd.Pa.Store.{
  Store, count_down, at_link, store_updated, private_link_destroy, cut, uncache, link_behind,
}

-- Each cached prefix belongs to one live link. The list of a link is the part of the list of the store
-- that belongs to it, in the same order, and the counters count.
pub record Rep (s : Store) (owner : ℕ → ℕ) : Type 0 where
  pub distinct : Distinct s.prefixes
  pub links_distinct : Distinct s.links
  pub counted : s.n_prefixes ≡ length s.prefixes
  pub small : length s.prefixes < 2 ^ 32
  pub lists : (l : ℕ) → member l s.links ≡ true → (s.link_at l).prefixes ≡ owned owner l s.prefixes
  pub counts :
      (l : ℕ) → member l s.links ≡ true → (s.link_at l).n_prefixes ≡ length (s.link_at l).prefixes
  pub live : (p : ℕ) → member p s.prefixes ≡ true → member (owner p) s.links ≡ true

pub store_updated-Rep : (s : Store) (owner : ℕ → ℕ) → Rep s owner → Rep (store_updated s) owner
unfolding store_updated
store_updated-Rep s owner v = record {
  distinct = v.distinct;
  links_distinct = v.links_distinct;
  counted = v.counted;
  small = v.small;
  lists = v.lists;
  counts = v.counts;
  live = v.live;
}

-- Facts of a cached prefix.
module _ (s : Store) (owner : ℕ → ℕ) (v : Rep s owner) (p : ℕ)
    (here : member p s.prefixes ≡ true) where
  pub in_link : member p (s.link_at (owner p)).prefixes ≡ true
  in_link =
      rw (v.lists (owner p) (v.live p here))
        (member-owned owner (owner p) p s.prefixes ∙ rw (==_refl (owner p)) here)

-- A prefix in the list of a live link is cached, and belongs to it.
pub from_link :
    (s : Store) (owner : ℕ → ℕ) (l p : ℕ)
    → Rep s owner
    → member l s.links ≡ true
    → member p (s.link_at l).prefixes ≡ true
    → (owner p ≡ l) × (member p s.prefixes ≡ true)
from_link s owner l p v here h =
    let both : ((owner p == l) && member p s.prefixes) ≡ true =
      sym (member-owned owner l p s.prefixes) ∙ (rw (← v.lists l here) h) in
    ground (arith, both)

-- The counters after one prefix less.
count_down_lem : (n m : ℕ) → n ≡ suc m → n < 2 ^ 32 → count_down n ≡ m
unfolding count_down
count_down_lem n m e b = omega arith

pub length-owned : (owner : ℕ → ℕ) (l : ℕ) (xs : List ℕ) → length (owned owner l xs) ≤ length xs
length-owned owner l [] = omega arith
length-owned owner l (x ∷ xs) = ground (arith, length-owned owner l xs)

cut-Rep :
    (s : Store) (owner : ℕ → ℕ) (l p : ℕ)
    → Rep s owner
    → member p s.prefixes ≡ true
    → owner p ≡ l
    → Rep (cut l p s) owner
unfolding cut at_link
cut-Rep s owner l p v here own =
    let shorter = length-remove p s.prefixes here in
    record {
      distinct = remove-Distinct p s.prefixes v.distinct;
      links_distinct = v.links_distinct;
      counted =
          count_down_lem s.n_prefixes (length (remove p s.prefixes)) (v.counted ∙ shorter)
            (omega (arith, v.counted, v.small));
      small = omega (arith, v.small);
      lists = λ j h. elim (ℕ_discrete j l) [
        | yes e ↦
            rw (e, ==_refl l)
              (ap (remove p) (v.lists l (rw (← e) h))
                ∙ sym (owned-remove_own owner l p s.prefixes own))
        | no e ↦
            rw (ne→== j l e)
              (v.lists j h ∙ sym (owned-remove_other owner j p s.prefixes (λ q. e (sym q ∙ own))))
      ];
      counts = λ j h. elim (ℕ_discrete j l) [
        | yes e ↦
            let here_l : member l s.links ≡ true = rw (← e) h in
            let own_here : member p (s.link_at l).prefixes ≡ true =
              subst (λ m. member p (s.link_at m).prefixes ≡ true) own (in_link s owner v p here) in
            let less = length-remove p (s.link_at l).prefixes own_here in
            rw (e, ==_refl l)
              (count_down_lem (s.link_at l).n_prefixes _ (v.counts l here_l ∙ less) (
                omega (
                  arith,
                  v.counts l here_l,
                  ap length (v.lists l here_l),
                  length-owned owner l s.prefixes,
                  v.small,
                )))
        | no e ↦ rw (ne→== j l e) (v.counts j h)
      ];
      live = λ q h. v.live q (ground (arith, member-remove p q s.prefixes v.distinct, h));
    }

-- A live link that counts no prefixes owns none.
empty_owns_none :
    (s : Store) (owner : ℕ → ℕ) (l q : ℕ)
    → Rep s owner
    → member l s.links ≡ true
    → (s.link_at l).n_prefixes ≡ 0
    → member q s.prefixes ≡ true
    → owner q ≢ l
empty_owns_none s owner l q v here zero_count hq own =
    let inside : member q (s.link_at l).prefixes ≡ true =
      subst (λ m. member q (s.link_at m).prefixes ≡ true) own (in_link s owner v q hq) in
    let less = length-remove q (s.link_at l).prefixes inside in
    absurd (omega (arith, v.counts l here))

destroy-Rep :
    (s : Store) (owner : ℕ → ℕ) (l : ℕ)
    → Rep s owner
    → member l s.links ≡ true
    → (s.link_at l).n_prefixes ≡ 0
    → Rep (private_link_destroy l s) owner
unfolding private_link_destroy
destroy-Rep s owner l v here zero_count = record {
  distinct = v.distinct;
  links_distinct = remove-Distinct l s.links v.links_distinct;
  counted = v.counted;
  small = v.small;
  lists = λ j h. v.lists j (ground (arith, member-remove l j s.links v.links_distinct, h));
  counts = λ j h. v.counts j (ground (arith, member-remove l j s.links v.links_distinct, h));
  live = λ q h.
      member-remove l (owner q) s.links v.links_distinct
      ∙ rw (ne→== (owner q) l (empty_owns_none s owner l q v here zero_count h)) (v.live q h);
}

and_left : (a b : Bool) → (a && b) ≡ true → a ≡ true
and_left a b t = ground arith

cut-links : (l p : ℕ) (s : Store) → (cut l p s).links ≡ s.links
unfolding cut at_link
cut-links l p s = refl

pub uncache-Rep :
    (s : Store) (owner : ℕ → ℕ) (l p : ℕ)
    → Rep s owner
    → member p s.prefixes ≡ true
    → owner p ≡ l
    → Rep (uncache l p s) owner
unfolding uncache
uncache-Rep s owner l p v here own =
    let w = cut-Rep s owner l p v here own in
    let k = (cut l p s).link_at l in
    let here_l : member l (cut l p s).links ≡ true =
      subst (λ m. member m (cut l p s).links ≡ true) own
        (ap (member (owner p)) (cut-links l p s) ∙ v.live p here) in
    store_updated-Rep _ owner (elim (Bool-cases (k.n_prefixes == 0 && not (is_some k.link))) [
      | inl t ↦ rw t (
          destroy-Rep (cut l p s) owner l w here_l
            ((==_iff k.n_prefixes 0).0 (and_left _ (not (is_some k.link)) t)))
      | inr t ↦ rw t w
    ])

-- A store of the outcome, if there is one, and it satisfies the property.
abbrev pub Gives {ℓ} : {A : Type 0} → Option A → (A → Type ℓ) → Type ℓ
Gives {A = A} o P = (x : A) × (o ≡ some x) × P x

pub member_head : (l : ℕ) (ls : List ℕ) → member l (l ∷ ls) ≡ true
member_head l ls = ground arith

pub member_behind : (j l : ℕ) (ls : List ℕ) → member j ls ≡ true → member j (l ∷ ls) ≡ true
member_behind j l ls h = ground arith

pub member_rest : (j l : ℕ) (ls : List ℕ) → j ≢ l → member j (l ∷ ls) ≡ true → member j ls ≡ true
member_rest j l ls n h = ground arith

-- The link whose list ends with a cached prefix is the one that it belongs to.
pub link_behind-owner :
    (s : Store) (owner : ℕ → ℕ) (p : ℕ) (ls : List ℕ)
    → Rep s owner
    → ((l : ℕ) → member l ls ≡ true → member l s.links ≡ true)
    → last (s.link_at (owner p)).prefixes ≡ some p
    → member (owner p) ls ≡ true
    → link_behind s p ls ≡ some (owner p)
unfolding link_behind
link_behind-owner s owner p [] v sub e here = absurd (cc here)
link_behind-owner s owner p (l ∷ ls) v sub e here =
    let ih = λ (other : owner p ≢ l).
      link_behind-owner s owner p ls v (λ j h. sub j (member_behind j l ls h)) e
        (member_rest (owner p) l ls other here) in
    elim (Option-cases (last (s.link_at l).prefixes)) [
      | inl n ↦
          rw (n, link_behind)
            (ih (λ q.
              absurd (cc (sym e ∙ subst (λ m. last (s.link_at m).prefixes ≡ none) (sym q) n))))
      | inr (q, n) ↦ elim (ℕ_discrete q p) [
        | yes same ↦
            let ends : last (s.link_at l).prefixes ≡ some p = n ∙ ap some same in
            let own =
              (from_link s owner l p v (sub l (member_head l ls))
                (last-member (s.link_at l).prefixes p ends)).0 in
            rw (n, link_behind, same, ==_refl p) (ap some (sym own))
        | no differ ↦
            rw (n, link_behind, ne→== q p differ)
              (ih (λ own. differ (
                some-injective _ _
                  (sym n ∙ subst (λ m. last (s.link_at m).prefixes ≡ some p) own e))))
      ]
    ]
