-- ===== src/Pa/Store/Cache.antt =====
-- `pa_store_cache` (src/pa_store.c) against a list in the order of last use.
use mathlib.Core.Path.{subst}
use mathlib.Core.Option.{some-injective}
use hnetd.Common.{
  ℕ, ◌+◌, ◌-◌, ◌^◌, ◌≤◌, ◌<◌, ◌≡◌, refl, sym, ap, ◌∙◌, ◌≢◌, ◌⊎◌, ℕ_discrete, Bool-cases, ne→==, inl,
  inr, Bool, true, false, Option, none, some, List, [], ◌∷◌, arith, ==_refl, Option-cases, length,
}
use hnetd.Pa.Prefix.{Prefix, prefix_cpy, prefix_equals}
use hnetd.Pa.Store.Lists.{
  last_from, remove, front, member, owned, last-member, length-remove, length-front,
}
use hnetd.Pa.Store.{
  Store, at_link, store_updated, find_prefix, touch, enter, trim_link, trim_store, store_cache,
}
use hnetd.Pa.Store.Rep.{Rep, Gives, from_link, store_updated-Rep}
use hnetd.Pa.Store.Moves.{enter-Rep, touch-Rep}
use hnetd.Pa.Store.Trim.{
  evict, lru_link, lru_store, owner_after, Trimmed, trim_link-Trimmed, trim_store-Trimmed,
}

-- What `find_prefix` finds in the list of a link is in that list.
pub find_prefix-member :
    (s : Store) (prefix : Prefix) (ps : List ℕ) (p : ℕ)
    → find_prefix s prefix ps ≡ some p
    → member p ps ≡ true
unfolding find_prefix
find_prefix-member s prefix [] p e = absurd (cc e)
find_prefix-member s prefix (q ∷ ps) p e = ground (arith, find_prefix-member s prefix ps p)

-- It is the prefix that was looked for, and if it finds none, there is none.
find_prefix-equals :
    (s : Store) (prefix : Prefix) (ps : List ℕ) (p : ℕ)
    → find_prefix s prefix ps ≡ some p
    → prefix_equals prefix (s.prefix_at p) ≡ true
unfolding find_prefix
find_prefix-equals s prefix [] p e = absurd (cc e)
find_prefix-equals s prefix (q ∷ ps) p e =
    elim (Bool-cases (prefix_equals prefix (s.prefix_at q))) [
      | inl t ↦
          let same : q ≡ p = some-injective _ _ (ground (arith, e)) in
          ap (λ j. prefix_equals prefix (s.prefix_at j)) (sym same) ∙ t
      | inr t ↦ find_prefix-equals s prefix ps p (ground (arith, e))
    ]

find_prefix-none :
    (s : Store) (prefix : Prefix) (ps : List ℕ) (q : ℕ)
    → find_prefix s prefix ps ≡ none
    → member q ps ≡ true
    → prefix_equals prefix (s.prefix_at q) ≡ false
unfolding find_prefix
find_prefix-none s prefix [] q e m = absurd (cc m)
find_prefix-none s prefix (p ∷ ps) q e m =
    elim (Bool-cases (prefix_equals prefix (s.prefix_at p))) [
      | inl t ↦ absurd (none-ne-some p (ground (arith, e)))
      | inr t ↦ elim (ℕ_discrete p q) [
        | yes same ↦ ap (λ j. prefix_equals prefix (s.prefix_at j)) (sym same) ∙ t
        | no other ↦
            find_prefix-none s prefix ps q (ground (arith, e)) (ground (arith, m, ne→== p q other))
      ]
    ]
  where
    none-ne-some : (p : ℕ) → ¬ (some p ≡ none)
    none-ne-some p e = cc e

touch-prefixes : (l p : ℕ) (s : Store) → (touch l p s).prefixes ≡ front p s.prefixes
unfolding touch at_link store_updated
touch-prefixes l p s = ground arith

enter-prefixes :
    (l p : ℕ) (prefix : Prefix) (s : Store) → (enter l p prefix s).prefixes ≡ p ∷ s.prefixes
unfolding enter at_link
enter-prefixes l p prefix s = refl

enter_link :
    (l p : ℕ) (prefix : Prefix) (s : Store)
    → ((enter l p prefix s).link_at l).max_prefixes ≡ (s.link_at l).max_prefixes
unfolding enter at_link
enter_link l p prefix s = rw (==_refl l) refl

touch-prefix_at : (l p : ℕ) (s : Store) → (touch l p s).prefix_at ≡ s.prefix_at
unfolding touch at_link store_updated
touch-prefix_at l p s = ground arith

enter-prefix_at :
    (l p : ℕ) (prefix : Prefix) (s : Store)
    → (enter l p prefix s).prefix_at p ≡ prefix_cpy prefix (s.prefix_at p)
unfolding enter at_link
enter-prefix_at l p prefix s = rw (==_refl p) refl

enter-prefix_other :
    (l p : ℕ) (prefix : Prefix) (s : Store) (j : ℕ)
    → j ≢ p
    → (enter l p prefix s).prefix_at j ≡ s.prefix_at j
unfolding enter at_link
enter-prefix_other l p prefix s j n = rw (ne→== j p n) refl

-- The order after a new prefix has entered.
abbrev pub lru_enter : Store → (ℕ → ℕ) → ℕ → ℕ → List ℕ
lru_enter s owner l p =
    lru_store s.max_prefixes
      (lru_link (s.link_at l).max_prefixes (owner_after l p owner) l (p ∷ s.prefixes))

-- The link had the prefix `q`, which equals `prefix`; it is moved to the front, and nothing else changes.
pub record Used (s : Store) (owner : ℕ → ℕ) (l : ℕ) (prefix : Prefix) (q : ℕ) (s' : Store)
    (owner' : ℕ → ℕ) : Type 0 where
  pub of_link : member q (s.link_at l).prefixes ≡ true
  pub equal : prefix_equals prefix (s.prefix_at q) ≡ true
  pub moved : s'.prefixes ≡ front q s.prefixes
  pub stored : s'.prefix_at ≡ s.prefix_at
  pub owners : owner' ≡ owner

-- The link had no prefix that equals `prefix`; a copy at the address `p` is the link's, at the front,
-- and what is over a limit has left.
pub record Entered (s : Store) (owner : ℕ → ℕ) (l : ℕ) (prefix : Prefix) (p : ℕ) (s' : Store)
    (owner' : ℕ → ℕ) : Type 0 where
  pub absent :
      (q : ℕ)
      → member q (s.link_at l).prefixes ≡ true
      → prefix_equals prefix (s.prefix_at q) ≡ false
  pub limited : s'.prefixes ≡ lru_enter s owner l p
  pub stored : s'.prefix_at p ≡ prefix_cpy prefix (s.prefix_at p)
  pub others : (j : ℕ) → j ≢ p → s'.prefix_at j ≡ s.prefix_at j
  pub owners : owner' ≡ owner_after l p owner

-- The result `r` of caching: it succeeds, the lists fit together again, and one of the two has happened.
pub record Cached (s : Store) (owner : ℕ → ℕ) (l : ℕ) (prefix : Prefix) (p : ℕ) (r : Store × Bool)
    : Type 0 where
  pub owner_of : ℕ → ℕ
  pub rep : Rep r.0 owner_of
  pub change :
      ((q : ℕ) × Used s owner l prefix q r.0 owner_of) ⊎ Entered s owner l prefix p r.0 owner_of
  pub done : r.1 ≡ true

store_updated-prefix_at : (s : Store) → (store_updated s).prefix_at ≡ s.prefix_at
unfolding store_updated
store_updated-prefix_at s = refl

enter_links : (l p : ℕ) (prefix : Prefix) (s : Store) → (enter l p prefix s).links ≡ s.links
unfolding enter at_link
enter_links l p prefix s = refl

enter-max_prefixes :
    (l p : ℕ) (prefix : Prefix) (s : Store) → (enter l p prefix s).max_prefixes ≡ s.max_prefixes
unfolding enter at_link
enter-max_prefixes l p prefix s = refl

store_updated-prefixes : (s : Store) → (store_updated s).prefixes ≡ s.prefixes
unfolding store_updated
store_updated-prefixes s = refl

-- The two ways through `store_cache`.
pub store_cache_hit :
    (l : ℕ) (prefix : Prefix) (mem : Option ℕ) (s : Store) (q : ℕ)
    → find_prefix s prefix (s.link_at l).prefixes ≡ some q
    → store_cache l prefix mem s ≡ some (touch l q s, true)
unfolding store_cache
store_cache_hit l prefix mem s q e = rw (e, store_cache) refl

store_cache_new :
    (l : ℕ) (prefix : Prefix) (p : ℕ) (s s1 s2 : Store)
    → find_prefix s prefix (s.link_at l).prefixes ≡ none
    → trim_link l (enter l p prefix s) ≡ some s1
    → trim_store s1 ≡ some s2
    → store_cache l prefix (some p) s ≡ some (store_updated s2, true)
unfolding store_cache
store_cache_new l prefix p s s1 s2 n e1 e2 = rw (n, store_cache, e1, e2) refl

-- A new prefix enters, and both limits are applied.
module _ (s : Store) (owner : ℕ → ℕ) (l : ℕ) (prefix : Prefix) (p : ℕ) (v : Rep s owner)
    (here : member l s.links ≡ true) (fresh : member p s.prefixes ≡ false)
    (room : length s.prefixes + 1 < 2 ^ 32) where
  abbrev entered : Store
  entered = enter l p prefix s

  abbrev limited : List ℕ
  limited = lru_link (s.link_at l).max_prefixes (owner_after l p owner) l (p ∷ s.prefixes)

  entered-Trimmed : Gives (trim_link l entered) (Trimmed entered (owner_after l p owner) limited)
  entered-Trimmed =
      let g =
        trim_link-Trimmed entered (owner_after l p owner) l
          (enter-Rep s owner l p prefix v here fresh room)
          (ap (member l) (enter_links l p prefix s) ∙ here) in
      subst
        (λ m. Gives (trim_link l entered) (
          Trimmed entered (owner_after l p owner)
            (lru_link m (owner_after l p owner) l (p ∷ s.prefixes))))
        (enter_link l p prefix s)
        (subst
          (λ o. Gives (trim_link l entered) (
            Trimmed entered (owner_after l p owner)
              (lru_link (entered.link_at l).max_prefixes (owner_after l p owner) l o)))
          (enter-prefixes l p prefix s) g)

  kept_stored :
      (s1 s2 : Store)
      → s2.prefix_at ≡ s1.prefix_at
      → s1.prefix_at ≡ entered.prefix_at
      → (store_updated s2).prefix_at ≡ entered.prefix_at
  kept_stored s1 s2 e f = store_updated-prefix_at s2 ∙ e ∙ f

  new_cached :
      find_prefix s prefix (s.link_at l).prefixes ≡ none
      → Gives (store_cache l prefix (some p) s) (Cached s owner l prefix p)
  new_cached n =
      let (s1, e1, t1) = entered-Trimmed in
      let (s2, e2, t2) = trim_store-Trimmed s1 (owner_after l p owner) t1.rep in
      (
        (store_updated s2, true),
        store_cache_new l prefix p s s1 s2 n e1 e2,
        record {
          owner_of = owner_after l p owner;
          rep = store_updated-Rep s2 (owner_after l p owner) t2.rep;
          change = inr (record {
            absent = λ q m. find_prefix-none s prefix (s.link_at l).prefixes q n m;
            limited =
                store_updated-prefixes s2
                ∙ t2.order
                ∙ ap (λ m. lru_store m s1.prefixes) (t1.max ∙ enter-max_prefixes l p prefix s)
                ∙ ap (lru_store s.max_prefixes) t1.order;
            stored =
                ap (λ f. f p) (kept_stored s1 s2 t2.stored t1.stored)
                ∙ enter-prefix_at l p prefix s;
            others = λ j other.
                ap (λ f. f j) (kept_stored s1 s2 t2.stored t1.stored)
                ∙ enter-prefix_other l p prefix s j other;
            owners = refl;
          });
          done = refl;
        },
      )

-- Caching a prefix for a live link, with fresh memory for it, never goes wrong, and leaves consistent
-- lists: if the link has an equal prefix, that one moves to the front and nothing stored changes; else
-- a copy of the prefix enters at the front as the link's, all others stay as they are stored, the last
-- of the link leaves if the link has too many, and then the last of all if the store has too many. The
-- store has room for one more to count.
pub store_cache-Cached :
    (s : Store) (owner : ℕ → ℕ) (l : ℕ) (prefix : Prefix) (p : ℕ)
    → Rep s owner
    → member l s.links ≡ true
    → member p s.prefixes ≡ false
    → length s.prefixes + 1 < 2 ^ 32
    → Gives (store_cache l prefix (some p) s) (Cached s owner l prefix p)
store_cache-Cached s owner l prefix p v here fresh room =
    elim (Option-cases (find_prefix s prefix (s.link_at l).prefixes)) [
      | inl n ↦ new_cached s owner l prefix p v here fresh room n
      | inr (q, e) ↦
          let mine = find_prefix-member s prefix (s.link_at l).prefixes q e in
          let (own, cached) = from_link s owner l q v here mine in
          (
            (touch l q s, true),
            store_cache_hit l prefix (some p) s q e,
            record {
              owner_of = owner;
              rep = touch-Rep s owner l q v cached own;
              change = inl (
                q,
                record {
                  of_link = mine;
                  equal = find_prefix-equals s prefix (s.link_at l).prefixes q e;
                  moved = touch-prefixes l q s;
                  stored = touch-prefix_at l q s;
                  owners = refl;
                },
              );
              done = refl;
            },
          )
    ]

length-remove_le : (p : ℕ) (xs : List ℕ) → length (remove p xs) ≤ length xs
length-remove_le p [] = omega arith
length-remove_le p (x ∷ xs) = ground (arith, length-remove_le p xs)

length-evict : (chosen order : List ℕ) → length (evict chosen order) ≤ length order
length-evict [] order = omega arith
length-evict (x ∷ xs) order = length-remove_le (last_from x xs) order

length-evict_self : (order : List ℕ) → length (evict order order) ≡ length order - 1
length-evict_self [] = omega arith
length-evict_self (x ∷ xs) =
    omega
      (arith, length-remove (last_from x xs) (x ∷ xs) (last-member (x ∷ xs) (last_from x xs) refl))

length-lru_link :
    (m : ℕ) (owner : ℕ → ℕ) (l : ℕ) (order : List ℕ)
    → length (lru_link m owner l order) ≤ length order
length-lru_link m owner l order = ground (arith, length-evict (owned owner l order) order)

length-lru_store :
    (m : ℕ) (order : List ℕ) → m ≢ 0 → length order ≤ m + 1 → length (lru_store m order) ≤ m
length-lru_store m order n b = ground (arith, length-evict_self order)

-- A store with a maximum that is within it stays within it, whatever is cached: the order that caching
-- leaves is not longer than the maximum.
pub store_cache_bounded :
    (s s' : Store) (owner : ℕ → ℕ) (l : ℕ) (prefix : Prefix) (p : ℕ) (done : Bool)
    → Rep s owner
    → member l s.links ≡ true
    → member p s.prefixes ≡ false
    → length s.prefixes + 1 < 2 ^ 32
    → s.max_prefixes ≢ 0
    → length s.prefixes ≤ s.max_prefixes
    → store_cache l prefix (some p) s ≡ some (s', done)
    → length s'.prefixes ≤ s.max_prefixes
store_cache_bounded s s' owner l prefix p done v here fresh room m b e =
    let (r, e', c) = store_cache-Cached s owner l prefix p v here fresh room in
    let same : r.0 ≡ s' = ap (λ x. x.0) (some-injective r (s', done) (sym e' ∙ e)) in
    let e2 : r.0.prefixes ≡ s'.prefixes = ap (λ x. x.prefixes) same in
    subst (λ o. length o ≤ s.max_prefixes) e2
      (elim c.change [
        | inr x ↦
            subst (λ o. length o ≤ s.max_prefixes) (sym x.limited)
              (length-lru_store s.max_prefixes _ m (
                omega (
                  arith,
                  b,
                  length-lru_link (s.link_at l).max_prefixes (owner_after l p owner) l
                      (p ∷ s.prefixes),
                )))
        | inl (q, x) ↦
            let (own, cached) = from_link s owner l q v here x.of_link in
            subst (λ o. length o ≤ s.max_prefixes) (sym x.moved)
              (omega (arith, b, length-front q s.prefixes cached))
      ])
