-- ===== src/Dncp/Graph/Count.antt =====
-- Counting the nodes that are not yet marked.
use mathlib.Core.List.{Memᴰ}
use mathlib.Core.List.Memᴰ
use hnetd.Common.{
  ℕ, suc, ◌≤◌, ◌<◌, ◌≡◌, ap, ◌∙◌, inl, inr, Bool, true, false, List, [], ◌∷◌, arith, if◌then◌else◌,
  Bool-cases, length,
}

abbrev pub unmarked : (ℕ → Bool) → List ℕ → ℕ
unmarked marked [] = 0
unmarked marked (k ∷ ks) = if marked k then unmarked marked ks else suc (unmarked marked ks)

pub unmarked_le_length : (m : ℕ → Bool) (ks : List ℕ) → unmarked m ks ≤ length ks
unmarked_le_length m [] = omega arith
unmarked_le_length m (k ∷ ks) = ground (arith, unmarked_le_length m ks)

-- Marking more leaves fewer.
pub unmarked_mono :
    (m m' : ℕ → Bool) (ks : List ℕ)
    → ((j : ℕ) → m j ≡ true → m' j ≡ true)
    → unmarked m' ks ≤ unmarked m ks
unmarked_mono m m' [] h = omega arith
unmarked_mono m m' (k ∷ ks) h = elim (Bool-cases (m k)) [
  | inl t ↦ rw (t, h k t) (unmarked_mono m m' ks h)
  | inr t ↦ elim (Bool-cases (m' k)) [
    | inl u ↦ rw (t, u) (omega (arith, unmarked_mono m m' ks h))
    | inr u ↦ rw (t, u) (omega (arith, unmarked_mono m m' ks h))
  ]
]

-- Marking one more of them leaves one less at least.
pub unmarked_less :
    (m m' : ℕ → Bool) (ks : List ℕ) (k : ℕ)
    → ((j : ℕ) → m j ≡ true → m' j ≡ true)
    → Memᴰ k ks
    → m k ≡ false
    → m' k ≡ true
    → unmarked m' ks < unmarked m ks
unmarked_less m m' [] k h i f t = absurd (Memᴰ.not-nil i)
unmarked_less m m' (x ∷ ks) k h (Memᴰ.head e) f t =
    rw (← e, f, t) (omega (arith, unmarked_mono m m' ks h))
unmarked_less m m' (x ∷ ks) k h (Memᴰ.tail i) f t = elim (Bool-cases (m x)) [
  | inl u ↦ rw (u, h x u) (unmarked_less m m' ks k h i f t)
  | inr u ↦ elim (Bool-cases (m' x)) [
    | inl w ↦ rw (u, w) (omega (arith, unmarked_mono m m' ks h))
    | inr w ↦ rw (u, w) (omega (arith, unmarked_less m m' ks k h i f t))
  ]
]

-- A marked node is left when none is unmarked.
pub unmarked_zero :
    (m : ℕ → Bool) (ks : List ℕ) (k : ℕ) → Memᴰ k ks → unmarked m ks ≡ 0 → m k ≡ true
unmarked_zero m [] k i z = absurd (Memᴰ.not-nil i)
unmarked_zero m (x ∷ ks) k i z = elim (Bool-cases (m x)) [
  | inr t ↦ absurd (ground (arith, z))
  | inl t ↦ elim (Memᴰ.cases_cons i) [
    | inl e ↦ ap m e ∙ t
    | inr rest ↦ unmarked_zero m ks k rest (ground (arith, z))
  ]
]
