-- ===== src/Pa/Store.antt =====
-- The store of prefixes that were applied before (src/pa_store.c, src/pa_store.h). A pointer to a cached
-- prefix or to a store link is a number; the lists are in the order of the C lists, the head first. What
-- reads a wrong address gives `none`. Files are left out, but for whether one is set.
pub mod Lists
pub mod Rep
pub mod Moves
pub mod Trim
pub mod Cache
pub mod Rule
pub mod Applied
mod Tests
use hnetd.Common.{
  ℕ, ◌+◌, ◌-◌, ◌%◌, ◌^◌, Bool, true, false, not, ◌&&◌, Option, none, some, List, [], ◌∷◌, ltb, ◌==◌,
  if◌then◌else◌,
}
use hnetd.Bitops.{Bytes}
use hnetd.Pa.Prefix.{Prefix, prefix_cpy, prefix_equals}
use hnetd.Pa.State.{Ldp, is_some}
use hnetd.Pa.Store.Lists.{remove, last, front}

-- `struct pa_store_link`
pub record StoreLink : Type 0 where
  pub name : Bytes
  pub link : Option ℕ
  pub max_prefixes : ℕ
  pub n_prefixes : ℕ
  pub prefixes : List ℕ

-- `struct pa_store`, with the links and the cached prefixes at their addresses.
pub record Store : Type 0 where
  pub links : List ℕ
  pub link_at : ℕ → StoreLink
  pub prefixes : List ℕ
  pub prefix_at : ℕ → Prefix
  pub max_prefixes : ℕ
  pub n_prefixes : ℕ
  pub has_file : Bool
  pub pending_changes : Bool
  pub save_delay : ℕ
  pub save_timer : Option ℕ
  pub token_count : ℕ
  pub token_delay : ℕ
  pub token_timer : Option ℕ

-- A uint32_t that is counted up or down.
pub count_up : ℕ → ℕ
count_up n = (n + 1) % 2 ^ 32

pub count_down : ℕ → ℕ
count_down n = (n + 2 ^ 32 - 1) % 2 ^ 32

unfoldable pub at_link : ℕ → (StoreLink → StoreLink) → Store → Store
at_link l f s = record s { link_at = λ j. if j == l then f (s.link_at l) else s.link_at j }

-- `pa_store_updated`
pub store_updated : Store → Store
store_updated s = record s {
  pending_changes = true;
  save_timer =
      if s.has_file && not (s.token_count == 0) && not (is_some s.save_timer)
      then some s.save_delay
      else s.save_timer;
}

-- `pa_store_private_link_destroy`
pub private_link_destroy : ℕ → Store → Store
private_link_destroy l s = record s { links = remove l s.links }

-- The first part of `pa_store_uncache`: the prefix leaves both lists.
pub cut : ℕ → ℕ → Store → Store
cut l p s0 =
    let s =
      at_link l
        (λ k. record k { prefixes = remove p k.prefixes; n_prefixes = count_down k.n_prefixes })
        s0 in
    record s { prefixes = remove p s.prefixes; n_prefixes = count_down s.n_prefixes }

-- `pa_store_uncache`
pub uncache : ℕ → ℕ → Store → Store
uncache l p s0 =
    let s = cut l p s0 in
    let k = s.link_at l in
    store_updated
      (if k.n_prefixes == 0 && not (is_some k.link) then private_link_destroy l s else s)

-- `pa_store_uncache_last_from_link`
pub uncache_last_from_link : ℕ → Store → Option Store
uncache_last_from_link l s = elim (last (s.link_at l).prefixes) [
  | none ↦ none
  | some p ↦ some (uncache l p s)
]

-- The link whose list has the prefix at its end: what `list_entry(p->in_link.next, ...)` means.
pub link_behind : Store → ℕ → List ℕ → Option ℕ
link_behind s p [] = none
link_behind s p (l ∷ ls) =
    let rest = link_behind s p ls in
    elim (last (s.link_at l).prefixes) [ none ↦ rest | some q ↦ if q == p then some l else rest ]

-- `pa_store_uncache_last_from_store`
pub uncache_last_from_store : Store → Option Store
uncache_last_from_store s = elim (last s.prefixes) [
  | none ↦ none
  | some p ↦ elim (link_behind s p s.links) [ none ↦ none | some l ↦ some (uncache l p s) ]
]

-- The search of `pa_store_cache` in the list of the link.
pub find_prefix : Store → Prefix → List ℕ → Option ℕ
find_prefix s prefix [] = none
find_prefix s prefix (p ∷ ps) =
    let rest = find_prefix s prefix ps in
    if prefix_equals prefix (s.prefix_at p) then some p else rest

-- The prefix is there: it moves to the front of both lists.
pub touch : ℕ → ℕ → Store → Store
touch l p s0 =
    let s = record s0 { prefixes = front p s0.prefixes } in
    elim (s.link_at l).prefixes [
      | [] ↦ s
      | q ∷ qs ↦
          if q == p
          then s
          else store_updated (at_link l (λ k. record k { prefixes = front p k.prefixes }) s)
    ]

-- The new prefix at the front of both lists.
pub enter : ℕ → ℕ → Prefix → Store → Store
enter l p prefix s0 =
    let s =
      at_link l (λ k. record k { prefixes = p ∷ k.prefixes; n_prefixes = count_up k.n_prefixes })
        s0 in
    record s {
      prefixes = p ∷ s.prefixes;
      prefix_at = λ j. if j == p then prefix_cpy prefix (s.prefix_at p) else s.prefix_at j;
      n_prefixes = count_up s.n_prefixes;
    }

pub trim_link : ℕ → Store → Option Store
trim_link l s =
    let k = s.link_at l in
    if not (k.max_prefixes == 0) && ltb k.max_prefixes k.n_prefixes
    then uncache_last_from_link l s
    else some s

pub trim_store : Store → Option Store
trim_store s =
    if not (s.max_prefixes == 0) && ltb s.max_prefixes s.n_prefixes
    then uncache_last_from_store s
    else some s

-- `pa_store_cache`. `mem` is what `malloc` returns. With the store comes whether the call succeeds.
pub store_cache : ℕ → Prefix → Option ℕ → Store → Option (Store × Bool)
store_cache l prefix mem s = elim (find_prefix s prefix (s.link_at l).prefixes) [
  | some p ↦ some (touch l p s, true)
  | none ↦ elim mem [
    | none ↦ some (s, false)
    | some p ↦ elim (trim_link l (enter l p prefix s)) [
      | none ↦ none
      | some s1 ↦ elim (trim_store s1) [ none ↦ none | some s2 ↦ some (store_updated s2, true) ]
    ]
  ]
]

unfoldable pub find_link : Store → ℕ → List ℕ → Option ℕ
find_link s n [] = none
find_link s n (l ∷ ls) =
    let rest = find_link s n ls in
    elim (s.link_at l).link [ none ↦ rest | some m ↦ if m == n then some l else rest ]

-- `pa_store_applied_cb`
pub applied_cb : Ldp → Option ℕ → Store → Option Store
applied_cb ldp mem s = if not ldp.applied then some s else elim (find_link s ldp.link s.links) [
  | none ↦ some s
  | some l ↦ elim (store_cache l ldp.prefix mem s) [ none ↦ none | some (s', _) ↦ some s' ]
]

-- `pa_token_to`, when the timer has fired.
pub token_to : Store → Store
token_to s0 =
    let s = record s0 { token_timer = none } in
    let s1 = record s { token_count = count_up s.token_count } in
    let s2 = if s1.pending_changes then store_updated s1 else s1 in
    if s.token_count == 100 then s else record s2 { token_timer = some s2.token_delay }

-- `pa_save_to`, when the timer has fired, before the file is written.
pub save_to : Store → Store
save_to s = record s {
  save_timer = none;
  pending_changes = false;
  token_count = count_down s.token_count;
}

-- `pa_store_init`
pub store_init : ℕ → Store → Store
store_init max_prefixes s = record s {
  max_prefixes = max_prefixes;
  links = [];
  prefixes = [];
  has_file = false;
  n_prefixes = 0;
  pending_changes = false;
  save_timer = none;
  token_timer = none;
  token_count = 0;
}
