-- ===== src/Pa/Store/Trim.antt =====
-- The order in which the store's prefixes were used, and its limits (the last part of `pa_store_cache` in
-- src/pa_store.c).
use mathlib.Core.Path.{subst}
use hnetd.Common.{
  ℕ, ◌≡◌, refl, sym, ap, ◌∙◌, ◌≢◌, inl, inr, Bool, true, false, not, ◌&&◌, Option, none, some, List,
  arith, ltb, ◌==◌, if◌then◌else◌, Bool-cases, length,
}
use hnetd.Pa.Store.Lists.{remove, last, member, owned, last-member, last-some, last-owned}
use hnetd.Pa.Store.{
  Store, at_link, store_updated, private_link_destroy, cut, uncache, uncache_last_from_link,
  uncache_last_from_store, trim_link, trim_store,
}
use hnetd.Pa.Store.Rep.{Rep, Gives, from_link, uncache-Rep, link_behind-owner}

-- The specification: the cached prefixes in the order of their last use, the latest first. The last of
-- the chosen ones leaves.
abbrev pub evict : List ℕ → List ℕ → List ℕ
evict chosen order = elim (last chosen) [ none ↦ order | some q ↦ remove q order ]

evict-some :
    (chosen order : List ℕ) (q : ℕ) → last chosen ≡ some q → evict chosen order ≡ remove q order
evict-some chosen order q e =
    ap (λ (o : Option ℕ). elim o as (λ _. List ℕ) [ none ↦ order | some q ↦ remove q order ]) e

abbrev pub is_over : ℕ → ℕ → Bool
is_over max_prefixes n = not (max_prefixes == 0) && ltb max_prefixes n

-- No more than the maximum of a link, where 0 is no maximum.
abbrev pub lru_link : ℕ → (ℕ → ℕ) → ℕ → List ℕ → List ℕ
lru_link max_prefixes owner l order =
    let mine = owned owner l order in
    if is_over max_prefixes (length mine) then evict mine order else order

-- No more than the maximum in all.
abbrev pub lru_store : ℕ → List ℕ → List ℕ
lru_store max_prefixes order =
    if is_over max_prefixes (length order) then evict order order else order

abbrev pub owner_after : ℕ → ℕ → (ℕ → ℕ) → ℕ → ℕ
owner_after l p owner j = if j == p then l else owner j

uncache-prefixes : (l p : ℕ) (s : Store) → (uncache l p s).prefixes ≡ remove p s.prefixes
unfolding uncache cut at_link store_updated private_link_destroy
uncache-prefixes l p s = ground arith

uncache-max_prefixes : (l p : ℕ) (s : Store) → (uncache l p s).max_prefixes ≡ s.max_prefixes
unfolding uncache cut at_link store_updated private_link_destroy
uncache-max_prefixes l p s = ground arith

uncache-prefix_at : (l p : ℕ) (s : Store) → (uncache l p s).prefix_at ≡ s.prefix_at
unfolding uncache cut at_link store_updated private_link_destroy
uncache-prefix_at l p s = ground arith

-- What trimming leaves.
pub record Trimmed (s : Store) (owner : ℕ → ℕ) (left : List ℕ) (s' : Store) : Type 0 where
  pub rep : Rep s' owner
  pub order : s'.prefixes ≡ left
  pub max : s'.max_prefixes ≡ s.max_prefixes
  pub stored : s'.prefix_at ≡ s.prefix_at

uncached :
    (s : Store) (owner : ℕ → ℕ) (l p : ℕ)
    → Rep s owner
    → member p s.prefixes ≡ true
    → owner p ≡ l
    → Trimmed s owner (remove p s.prefixes) (uncache l p s)
uncached s owner l p v here own = record {
  rep = uncache-Rep s owner l p v here own;
  order = uncache-prefixes l p s;
  max = uncache-max_prefixes l p s;
  stored = uncache-prefix_at l p s;
}

uncache_last_from_link-Trimmed :
    (s : Store) (owner : ℕ → ℕ) (l : ℕ)
    → Rep s owner
    → member l s.links ≡ true
    → length (owned owner l s.prefixes) ≢ 0
    → Gives
        (uncache_last_from_link l s)
        (Trimmed s owner (evict (owned owner l s.prefixes) s.prefixes))
unfolding uncache_last_from_link
uncache_last_from_link-Trimmed s owner l v here n =
    let mine = v.lists l here in
    let (p, e) = last-some (owned owner l s.prefixes) n in
    let ends : last (s.link_at l).prefixes ≡ some p = ap last mine ∙ e in
    let (own, cached) = from_link s owner l p v here (last-member (s.link_at l).prefixes p ends) in
    (
      uncache l p s,
      rw (ends, uncache_last_from_link) refl,
      subst (λ o. Trimmed s owner o (uncache l p s)) (sym (evict-some _ s.prefixes p e))
          (uncached s owner l p v cached own),
    )

uncache_last_from_store-Trimmed :
    (s : Store) (owner : ℕ → ℕ)
    → Rep s owner
    → length s.prefixes ≢ 0
    → Gives (uncache_last_from_store s) (Trimmed s owner (evict s.prefixes s.prefixes))
unfolding uncache_last_from_store
uncache_last_from_store-Trimmed s owner v n =
    let (p, e) = last-some s.prefixes n in
    let cached = last-member s.prefixes p e in
    let ends : last (s.link_at (owner p)).prefixes ≡ some p =
      ap last (v.lists (owner p) (v.live p cached)) ∙ last-owned owner s.prefixes p e in
    let found = link_behind-owner s owner p s.links v (λ l h. h) ends (v.live p cached) in
    (
      uncache (owner p) p s,
      rw (e, uncache_last_from_store, found) refl,
      subst (λ o. Trimmed s owner o (uncache (owner p) p s)) (sym (evict-some _ s.prefixes p e))
          (uncached s owner (owner p) p v cached refl),
    )

over_positive : (m n : ℕ) → is_over m n ≡ true → n ≢ 0
over_positive m n t z = ground arith

pub trim_link-Trimmed :
    (s : Store) (owner : ℕ → ℕ) (l : ℕ)
    → Rep s owner
    → member l s.links ≡ true
    → Gives
        (trim_link l s)
        (Trimmed s owner (lru_link (s.link_at l).max_prefixes owner l s.prefixes))
unfolding trim_link
trim_link-Trimmed s owner l v here =
    let k = s.link_at l in
    let mine = owned owner l s.prefixes in
    let same : k.n_prefixes ≡ length mine = v.counts l here ∙ ap length (v.lists l here) in
    let over = λ (b : Bool) (t : is_over k.max_prefixes (length mine) ≡ b).
      ap (is_over k.max_prefixes) same ∙ t in
    elim (Bool-cases (is_over k.max_prefixes (length mine))) [
      | inr t ↦
          rw (over false t, t)
            (s, refl, record { rep = v; order = refl; max = refl; stored = refl })
      | inl t ↦
          rw (over true t, t)
            (uncache_last_from_link-Trimmed s owner l v here
              (over_positive k.max_prefixes (length mine) t))
    ]

pub trim_store-Trimmed :
    (s : Store) (owner : ℕ → ℕ)
    → Rep s owner
    → Gives (trim_store s) (Trimmed s owner (lru_store s.max_prefixes s.prefixes))
unfolding trim_store
trim_store-Trimmed s owner v =
    let n = length s.prefixes in
    let over =
      λ (b : Bool) (t : is_over s.max_prefixes n ≡ b). ap (is_over s.max_prefixes) v.counted ∙ t in
    elim (Bool-cases (is_over s.max_prefixes n)) [
      | inr t ↦
          rw (over false t, t)
            (s, refl, record { rep = v; order = refl; max = refl; stored = refl })
      | inl t ↦
          rw (over true t, t)
            (uncache_last_from_store-Trimmed s owner v (over_positive s.max_prefixes n t))
    ]
