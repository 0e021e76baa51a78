-- ===== src/Pa/UserRules/Candidates.antt =====
-- The candidate subset of the random rules (`pa_rule_candidate_subset` in src/pa_rules.c).
use mathlib.Core.Path.{subst}
use hnetd.Common.{
  ℕ, zero, suc, ◌+◌, ◌-◌, ◌*◌, ◌%◌, ◌^◌, ◌≤◌, ◌<◌, min, ◌≡◌, ◌≢◌, ◌||◌, List, arith, ℕ_discrete,
  ltb, leb, ◌==◌, if◌then◌else◌, get_or, ne→==, inl, inr, Bool-cases, leb→le, ◌∙◌, refl, ap,
}
use native.Mathlib.Nat.{pow-suc}

-- The result and the two out parameters.
pub record Subset : Type 0 where
  pub found : ℕ
  pub min_plen : ℕ
  pub overflow_n : ℕ

pow_mono : (n k : ℕ) → n ≤ k → 2 ^ n ≤ 2 ^ k
pow_mono n zero h = rw (let e : n ≡ 0 = omega arith in e) (omega arith)
pow_mono n (suc k) h = elim (ℕ_discrete n (suc k)) [
  | yes e ↦ rw e (omega arith)
  | no e ↦ omega (arith, pow-suc 2 k, pow_mono n k)
]

le-mul_positive : (n x : ℕ) → n ≢ 0 → x ≤ n * x
le-mul_positive n x h = grind arith

mul_mono : (n x y : ℕ) → x ≤ y → n * x ≤ n * y
mul_mono n x y h = grind arith

-- `(uint64_t) (1 << k)`: the int 1 << 31 is negative, and its conversion keeps the sign.
unfoldable pub shifted : ℕ → ℕ
shifted k = if k == 31 then 2 ^ 64 - 2 ^ 31 else 2 ^ k

module _ (count : List ℕ) (desired_plen : ℕ) where
  -- What the code adds for the available prefixes of length `plen`, a uint64_t.
  unfoldable pub share : ℕ → ℕ
  unfolding shifted
  share plen = get_or count plen 0 * shifted (desired_plen - plen) % 2 ^ 64

  -- The prefixes of the desired length in the available prefixes of length `plen`.
  pub available : ℕ → ℕ
  available plen = get_or count plen 0 * 2 ^ (desired_plen - plen)

  -- All prefixes of the desired length in the available prefixes of length at most `plen`.
  pub supply : ℕ → ℕ
  supply zero = available 0
  supply (suc plen) = available (suc plen) + supply plen

  -- The counts are 16-bit numbers, and no available prefix is 31 bits shorter than the desired length.
  pub record Shiftable : Type 0 where
    pub small : (plen : ℕ) → get_or count plen 0 < 2 ^ 16
    pub not_31 : (plen : ℕ) → desired_plen - plen ≡ 31 → get_or count plen 0 ≡ 0

  -- Then the code adds what is available.
  share-available :
      (plen : ℕ)
      → Shiftable
      → get_or count plen 0 ≢ 0
      → desired_plen - plen < 32
      → (share plen ≡ available plen) × (available plen < 2 ^ 47)
  unfolding share shifted available
  share-available plen v some_count near =
      let other : ¬ (desired_plen - plen ≡ 31) = λ e. some_count (v.not_31 plen e) in
      let less : available plen < 2 ^ 47 = omega (
        arith,
        v.small plen,
        mul_mono (get_or count plen 0) (2 ^ (desired_plen - plen)) (2 ^ 30)
            (pow_mono (desired_plen - plen) 30 (omega (arith, near, other))),
      ) in
      (rw (ne→== (desired_plen - plen) 31 other) (omega (arith, less)), less)

  available_none : (plen : ℕ) → get_or count plen 0 ≡ 0 → available plen ≡ 0
  unfolding available
  available_none plen e = rw e (omega arith)

module _ (count : List ℕ) (desired_plen desired_set_size : ℕ) where
  -- One turn of the loop; `next` is the rest of it.
  unfoldable pub subset_turn : ℕ → ℕ → ℕ → (ℕ → ℕ → Subset) → Subset
  subset_turn plen c min_plen next =
      let c' = (c + share count desired_plen plen) % 2 ^ 64 in
      if get_or count plen 0 == 0
      then next c min_plen
      else if leb 32 (desired_plen - plen) || ltb desired_set_size c'
      then record { found = desired_set_size; min_plen = plen; overflow_n = desired_set_size - c }
      else if c' == desired_set_size
      then record { found = c' % 2 ^ 32; min_plen = plen; overflow_n = 0 }
      else next c' plen

  abbrev last_turn : ℕ → ℕ → Subset
  last_turn c m = record { found = c % 2 ^ 32; min_plen = m; overflow_n = 0 }

  -- The loop from `plen` down to 0.
  unfoldable pub subset_loop : ℕ → ℕ → ℕ → Subset
  subset_loop zero c min_plen = subset_turn 0 c min_plen last_turn
  subset_loop (suc plen) c min_plen = subset_turn (suc plen) c min_plen (subset_loop plen)

  -- `pa_rule_candidate_subset`, with what `*min_plen` holds before.
  unfoldable pub candidate_subset : ℕ → Subset
  candidate_subset min_plen = subset_loop desired_plen 0 min_plen

  -- A long difference of lengths alone fills the set.
  available_large :
      (plen : ℕ)
      → desired_set_size < 2 ^ 32
      → get_or count plen 0 ≢ 0
      → 32 ≤ desired_plen - plen
      → desired_set_size < available count desired_plen plen
  unfolding available
  available_large plen bound some_count far = omega (
    arith,
    pow_mono 32 (desired_plen - plen) far,
    le-mul_positive (get_or count plen 0) (2 ^ (desired_plen - plen)) some_count,
  )

  -- An available prefix 31 bits shorter than the desired length fills the set, however large that is.
  pub subset_turn-wraps :
      (plen m : ℕ) (next : ℕ → ℕ → Subset)
      → desired_set_size < 2 ^ 32
      → get_or count plen 0 ≢ 0
      → get_or count plen 0 < 2 ^ 16
      → desired_plen - plen ≡ 31
      → (subset_turn plen 0 m next).found ≡ desired_set_size
  unfolding subset_turn share shifted
  subset_turn-wraps plen m next bound some_count small e =
      rw e (ground (arith, some_count, small, bound))

  subset_turn-empty :
      (plen c m : ℕ) (next : ℕ → ℕ → Subset)
      → get_or count plen 0 ≡ 0
      → subset_turn plen c m next ≡ next c m
  unfolding subset_turn
  subset_turn-empty plen c m next e = rw e refl

  subset_loop-wraps :
      (plen q m : ℕ)
      → desired_set_size < 2 ^ 32
      → get_or count plen 0 ≢ 0
      → get_or count plen 0 < 2 ^ 16
      → desired_plen - plen ≡ 31
      → plen ≤ q
      → ((p : ℕ) → plen < p → p ≤ q → get_or count p 0 ≡ 0)
      → (subset_loop q 0 m).found ≡ desired_set_size
  unfolding subset_loop
  subset_loop-wraps plen zero m bound n small e le none_longer =
      subst (λ r. (subset_turn r 0 m last_turn).found ≡ desired_set_size)
        (let same : plen ≡ 0 = omega arith in same)
        (subset_turn-wraps plen m last_turn bound n small e)
  subset_loop-wraps plen (suc q) m bound n small e le none_longer = elim (ℕ_discrete plen (suc q)) [
    | yes same ↦
        subst (λ r. (subset_turn r 0 m (subset_loop q)).found ≡ desired_set_size) same
          (subset_turn-wraps plen m (subset_loop q) bound n small e)
    | no other ↦
        ap (λ (s : Subset). s.found)
          (subset_turn-empty (suc q) 0 m _
            (none_longer (suc q) (omega (arith, other)) (omega arith)))
        ∙ subset_loop-wraps plen q m bound n small e (omega (arith, other))
            (λ p a b. none_longer p a (omega arith))
  ]

  -- If the longest available prefix is exactly 31 bits shorter than the desired length, the result is
  -- the desired size of the set (a uint32_t), also where that is more than the 2 ^ 31 prefixes that
  -- each such prefix contains.
  pub candidate_subset_wraps :
      (plen min_plen : ℕ)
      → desired_set_size < 2 ^ 32
      → get_or count plen 0 ≢ 0
      → get_or count plen 0 < 2 ^ 16
      → desired_plen - plen ≡ 31
      → ((p : ℕ) → plen < p → p ≤ desired_plen → get_or count p 0 ≡ 0)
      → (candidate_subset min_plen).found ≡ desired_set_size
  unfolding candidate_subset
  candidate_subset_wraps plen m bound n small e none_longer =
      subset_loop-wraps plen desired_plen m bound n small e (omega arith) none_longer

  module _ (v : Shiftable count desired_plen) (bound : desired_set_size < 2 ^ 32) where
    -- One turn counts what is available at its length, up to the desired size.
    subset_turn-found :
        (plen c m rest : ℕ) (next : ℕ → ℕ → Subset)
        → c ≤ desired_set_size
        → ((c' m' : ℕ)
            → c' ≤ desired_set_size
            → (next c' m').found ≡ min desired_set_size (c' + rest))
        → (subset_turn plen c m next).found
          ≡ min desired_set_size (c + (available count desired_plen plen + rest))
    unfolding subset_turn
    subset_turn-found plen c m rest next le h = elim (ℕ_discrete (get_or count plen 0) 0) [
      | yes e ↦ ground (arith, available_none count desired_plen plen e, h c m le, e)
      | no e ↦ elim (Bool-cases (leb 32 (desired_plen - plen))) [
        | inl f ↦
            ground (arith, available_large plen bound e (leb→le 32 (desired_plen - plen) f), e, f)
        | inr f ↦
            let (same, less) = share-available count desired_plen plen v e (ground (arith, f)) in
            let total : (c + share count desired_plen plen) % 2 ^ 64
                ≡ c + available count desired_plen plen =
              rw same (omega (arith, less, le, bound)) in
            ground (arith, total, le, bound, e, f, h (c + available count desired_plen plen) plen)
      ]
    ]

    subset_loop-found :
        (plen c m : ℕ)
        → c ≤ desired_set_size
        → (subset_loop plen c m).found ≡ min desired_set_size (c + supply count desired_plen plen)
    unfolding subset_loop supply
    subset_loop-found zero c m le =
        omega (arith, subset_turn-found 0 c m 0 last_turn le (λ c' m' le'. omega arith))
    subset_loop-found (suc plen) c m le =
        subset_turn-found (suc plen) c m (supply count desired_plen plen) (subset_loop plen) le
          (subset_loop-found plen)

    -- The result is the number of prefixes of the desired length that the available ones contain, but
    -- no more than the desired size of the set (a uint32_t), if the counts are 16-bit numbers and no
    -- available prefix is exactly 31 bits shorter than the desired length.
    pub candidate_subset-found :
        (min_plen : ℕ)
        → (candidate_subset min_plen).found
          ≡ min desired_set_size (supply count desired_plen desired_plen)
    unfolding candidate_subset
    candidate_subset-found m = omega (arith, subset_loop-found desired_plen 0 m (omega arith))
