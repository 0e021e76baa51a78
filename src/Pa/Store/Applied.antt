-- ===== src/Pa/Store/Applied.antt =====
-- What the store does when the core applies a prefix (`pa_store_applied_cb` in src/pa_store.c).
use mathlib.Core.Option.{some-injective}
use hnetd.Common.{
  ℕ, ◌+◌, ◌^◌, ◌<◌, ◌≡◌, refl, sym, ap, ◌∙◌, inl, inr, true, false, Option, none, some, List, [],
  ◌∷◌, arith, ℕ_discrete, Bool-cases, Option-cases, length,
}
use hnetd.Pa.Prefix.{Prefix}
use hnetd.Pa.State.{Ldp}
use hnetd.Pa.Store.Lists.{member}
use hnetd.Pa.Store.{Store, find_link, store_cache, touch, applied_cb, find_prefix}
use hnetd.Pa.Store.Rep.{Rep, Gives, from_link}
use hnetd.Pa.Store.Moves.{touch-Rep}
use hnetd.Pa.Store.Cache.{store_cache-Cached, store_cache_hit, find_prefix-member}

-- What `find_link` returns is in the list, and is the first link there of the core's link.
pub find_link-member :
    (s : Store) (n : ℕ) (ls : List ℕ) (l : ℕ)
    → find_link s n ls ≡ some l
    → (member l ls ≡ true) × ((s.link_at l).link ≡ some n)
unfolding find_link
find_link-member s n [] l e = absurd (cc e)
find_link-member s n (x ∷ ls) l e = elim (Option-cases (s.link_at x).link) [
  | inl i ↦
      let rest = find_link-member s n ls l (ground (arith, e)) in (ground (arith, rest), rest.1)
  | inr (m, i) ↦ elim (ℕ_discrete m n) [
    | yes q ↦
        let same : x ≡ l = some-injective _ _ (ground (arith, e)) in
        (ground arith, ap (λ j. (s.link_at j).link) (sym same) ∙ i ∙ ap (λ j. some j) q)
    | no q ↦
        let rest = find_link-member s n ls l (ground (arith, e)) in (ground (arith, rest), rest.1)
  ]
]

abbrev pub Consistent : Store → Type 0
Consistent s = (o : ℕ → ℕ) × Rep s o

-- Caching keeps the lists consistent, also when `malloc` fails.
cached :
    (l : ℕ) (prefix : Prefix) (mem : Option ℕ) (s : Store) (owner : ℕ → ℕ)
    → Rep s owner
    → member l s.links ≡ true
    → ((p : ℕ) → mem ≡ some p → member p s.prefixes ≡ false)
    → length s.prefixes + 1 < 2 ^ 32
    → Gives (store_cache l prefix mem s) (λ r. Consistent r.0)
unfolding store_cache
cached l prefix (some p) s owner v here fresh room =
    let (r, e, c) = store_cache-Cached s owner l prefix p v here (fresh p refl) room in
    (r, e, (c.owner_of, c.rep))
cached l prefix none s owner v here fresh room =
    elim (Option-cases (find_prefix s prefix (s.link_at l).prefixes)) [
      | inl n ↦ ((s, false), rw (n, store_cache) refl, (owner, v))
      | inr (q, e) ↦
          let (own, there) =
            from_link s owner l q v here (find_prefix-member s prefix (s.link_at l).prefixes q e) in
          (
            (touch l q s, true),
            store_cache_hit l prefix none s q e,
            (owner, touch-Rep s owner l q v there own),
          )
    ]

-- The callback on a pair whose prefix is applied or no longer applied never goes wrong, and leaves consistent
-- lists, if what `malloc` returns, when it does not fail, is not in use. The store has room for one more to
-- count.
pub applied_cb-Rep :
    (ldp : Ldp) (mem : Option ℕ) (s : Store) (owner : ℕ → ℕ)
    → Rep s owner
    → ((p : ℕ) → mem ≡ some p → member p s.prefixes ≡ false)
    → length s.prefixes + 1 < 2 ^ 32
    → Gives (applied_cb ldp mem s) Consistent
unfolding applied_cb
applied_cb-Rep ldp mem s owner v fresh room = elim (Bool-cases ldp.applied) [
  | inr t ↦ (s, rw (t, applied_cb) refl, (owner, v))
  | inl t ↦ elim (Option-cases (find_link s ldp.link s.links)) [
    | inl n ↦ (s, rw (t, applied_cb, n) refl, (owner, v))
    | inr (l, found) ↦
        let (r, e, c) =
          cached l ldp.prefix mem s owner v (find_link-member s ldp.link s.links l found).0 fresh
            room in
        (r.0, rw (t, applied_cb, found, e) refl, c)
  ]
]
