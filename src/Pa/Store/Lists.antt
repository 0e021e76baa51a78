-- ===== src/Pa/Store/Lists.antt =====
-- The doubly linked lists of the store (src/pa_store.c), as lists of addresses.
use mathlib.Core.Option.{some-injective}
use hnetd.Common.{
  ℕ, suc, ◌≡◌, refl, ap, ◌∙◌, ◌≢◌, inl, inr, Bool, true, false, not, ◌&&◌, ◌||◌, Option, none, some,
  List, [], ◌∷◌, arith, ℕ_discrete, ◌==◌, if◌then◌else◌, ==_refl, ne→==, ==_iff, Bool-cases, length,
}

-- `list_del`
abbrev pub remove : ℕ → List ℕ → List ℕ
remove p [] = []
remove p (x ∷ xs) = if x == p then xs else x ∷ remove p xs

-- `list_move` to the head
abbrev pub front : ℕ → List ℕ → List ℕ
front p xs = p ∷ remove p xs

-- The entry before the head of the list, which is the last one.
abbrev pub last_from : ℕ → List ℕ → ℕ
last_from x [] = x
last_from x (y ∷ ys) = last_from y ys

abbrev pub last : List ℕ → Option ℕ
last [] = none
last (x ∷ xs) = some (last_from x xs)

abbrev pub member : ℕ → List ℕ → Bool
member p [] = false
member p (x ∷ xs) = (x == p) || member p xs

abbrev pub Distinct : List ℕ → Type 0
Distinct [] = Unit
Distinct (x ∷ xs) = (member x xs ≡ false) × Distinct xs

-- The members that belong to `l`.
abbrev pub owned : (ℕ → ℕ) → ℕ → List ℕ → List ℕ
owned owner l [] = []
owned owner l (p ∷ ps) = if owner p == l then p ∷ owned owner l ps else owned owner l ps

pub member-remove :
    (p q : ℕ) (xs : List ℕ) → Distinct xs → member q (remove p xs) ≡ (not (q == p) && member q xs)
member-remove p q [] d = ground arith
member-remove p q (x ∷ xs) d = ground (arith, member-remove p q xs)

pub remove-Distinct : (p : ℕ) (xs : List ℕ) → Distinct xs → Distinct (remove p xs)
remove-Distinct p [] d = tt
remove-Distinct p (x ∷ xs) d = ground (arith, remove-Distinct p xs, member-remove p x xs)

pub remove_absent : (p : ℕ) (xs : List ℕ) → member p xs ≡ false → remove p xs ≡ xs
remove_absent p [] h = refl
remove_absent p (x ∷ xs) h = ground (arith, remove_absent p xs)

pub length-remove :
    (p : ℕ) (xs : List ℕ) → member p xs ≡ true → length xs ≡ suc (length (remove p xs))
length-remove p [] h = absurd (cc h)
length-remove p (x ∷ xs) h = ground (arith, length-remove p xs)

-- Removing and selecting commute for a member of the selection, and do not meet for any other.
pub owned-remove_own :
    (owner : ℕ → ℕ) (l p : ℕ) (xs : List ℕ)
    → owner p ≡ l
    → owned owner l (remove p xs) ≡ remove p (owned owner l xs)
owned-remove_own owner l p [] e = refl
owned-remove_own owner l p (x ∷ xs) e = elim (ℕ_discrete x p) [
  | yes same ↦ rw (same, ==_refl p, (==_iff (owner p) l).1 e, ==_refl p) refl
  | no other ↦ elim (Bool-cases (owner x == l)) [
    | inl t ↦ rw (ne→== x p other, t, ne→== x p other) (ap (x ∷◌) (owned-remove_own owner l p xs e))
    | inr t ↦ rw (ne→== x p other, t) (owned-remove_own owner l p xs e)
  ]
]

pub owned-remove_other :
    (owner : ℕ → ℕ) (l p : ℕ) (xs : List ℕ)
    → owner p ≢ l
    → owned owner l (remove p xs) ≡ owned owner l xs
owned-remove_other owner l p [] e = refl
owned-remove_other owner l p (x ∷ xs) e = elim (ℕ_discrete x p) [
  | yes same ↦ rw (same, ==_refl p, ne→== (owner p) l e) refl
  | no other ↦ elim (Bool-cases (owner x == l)) [
    | inl t ↦ rw (ne→== x p other, t) (ap (x ∷◌) (owned-remove_other owner l p xs e))
    | inr t ↦ rw (ne→== x p other, t) (owned-remove_other owner l p xs e)
  ]
]

pub member-owned :
    (owner : ℕ → ℕ) (l p : ℕ) (xs : List ℕ)
    → member p (owned owner l xs) ≡ ((owner p == l) && member p xs)
member-owned owner l p [] = ground arith
member-owned owner l p (x ∷ xs) = elim (ℕ_discrete x p) [
  | yes same ↦ elim (Bool-cases (owner p == l)) [
    | inl t ↦ rw (same, t, ==_refl p) refl
    | inr t ↦ rw (same, t) (member-owned owner l p xs ∙ rw t refl)
  ]
  | no other ↦ elim (Bool-cases (owner x == l)) [
    | inl t ↦ rw (t, ne→== x p other) (member-owned owner l p xs)
    | inr t ↦ rw (t, ne→== x p other) (member-owned owner l p xs)
  ]
]

pub last-member : (xs : List ℕ) (p : ℕ) → last xs ≡ some p → member p xs ≡ true
last-member [] p e = absurd (cc e)
last-member (x ∷ []) p e = let same : x ≡ p = some-injective _ _ e in ground arith
last-member (x ∷ y ∷ ys) p e = ground (arith, last-member (y ∷ ys) p e)

last-cons : (x p : ℕ) (xs : List ℕ) → last xs ≡ some p → last (x ∷ xs) ≡ some p
last-cons x p [] e = absurd (cc e)
last-cons x p (y ∷ ys) e = e

-- The last of all is the last of its owner's.
pub last-owned :
    (owner : ℕ → ℕ) (xs : List ℕ) (p : ℕ)
    → last xs ≡ some p
    → last (owned owner (owner p) xs) ≡ some p
last-owned owner [] p e = absurd (cc e)
last-owned owner (x ∷ []) p e =
    let same : x ≡ p = some-injective _ _ e in rw (same, ==_refl (owner p)) refl
last-owned owner (x ∷ y ∷ ys) p e =
    let ih = last-owned owner (y ∷ ys) p e in
    elim (Bool-cases (owner x == owner p)) [
      | inl t ↦ rw t (last-cons x p (owned owner (owner p) (y ∷ ys)) ih)
      | inr t ↦ rw t ih
    ]

-- A selection does not change with the owner of what is not in the list.
pub owned_ext :
    (owner : ℕ → ℕ) (m l p : ℕ) (xs : List ℕ)
    → member p xs ≡ false
    → owned (λ j. if j == p then m else owner j) l xs ≡ owned owner l xs
owned_ext owner m l p [] h = refl
owned_ext owner m l p (x ∷ xs) h = elim (Bool-cases (x == p)) [
  | inl t ↦ absurd (ground arith)
  | inr t ↦ elim (Bool-cases (owner x == l)) [
    | inl u ↦ rw (t, u) (ap (x ∷◌) (owned_ext owner m l p xs (ground arith)))
    | inr u ↦ rw (t, u) (owned_ext owner m l p xs (ground arith))
  ]
]

pub last-some : (xs : List ℕ) → length xs ≢ 0 → (p : ℕ) × (last xs ≡ some p)
last-some [] n = absurd (n refl)
last-some (x ∷ xs) n = (last_from x xs, refl)

pub owned-front_own :
    (owner : ℕ → ℕ) (l p : ℕ) (xs : List ℕ)
    → owner p ≡ l
    → owned owner l (front p xs) ≡ front p (owned owner l xs)
owned-front_own owner l p xs e =
    rw ((==_iff (owner p) l).1 e) (ap (p ∷◌) (owned-remove_own owner l p xs e))

pub owned-front_other :
    (owner : ℕ → ℕ) (l p : ℕ) (xs : List ℕ)
    → owner p ≢ l
    → owned owner l (front p xs) ≡ owned owner l xs
owned-front_other owner l p xs e = rw (ne→== (owner p) l e) (owned-remove_other owner l p xs e)

pub front-Distinct : (p : ℕ) (xs : List ℕ) → Distinct xs → Distinct (front p xs)
front-Distinct p xs d = (member-remove p p xs d ∙ rw (==_refl p) refl, remove-Distinct p xs d)

pub length-front : (p : ℕ) (xs : List ℕ) → member p xs ≡ true → length (front p xs) ≡ length xs
length-front p xs h = omega (arith, length-remove p xs h)

pub member-front :
    (p q : ℕ) (xs : List ℕ)
    → Distinct xs
    → member p xs ≡ true
    → member q (front p xs) ≡ true
    → member q xs ≡ true
member-front p q xs d here h = elim (ℕ_discrete q p) [
  | yes e ↦ rw e here
  | no e ↦ ground (arith, member-remove p q xs d)
]
