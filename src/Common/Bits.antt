-- ===== src/Common/Bits.antt =====
-- The bits of a number, and what the native bit operations do to them. Each operation is read
-- through the digit recursion that defines it.
use Prim.Native.Nat.{
  bit_and, bit_or, bit_xor, digits, bit_and-bitwise, bit_or-bitwise, bit_xor-bitwise, differ,
}
use native.Mathlib.Nat.{pow-suc}
use hnetd.Common.{
  ℕ, zero, suc, ◌+◌, ◌*◌, ◌/◌, ◌%◌, ◌^◌, ◌≤◌, ◌<◌, min, max, ◌≡◌, refl, ap, ◌∙◌, Bool, true, false,
  not, ◌&&◌, ◌||◌, arith, ◌==◌,
}

-- Bit `i` of a number, counted from the lowest.
abbrev pub bit : ℕ → ℕ → Bool
bit a zero = a % 2 == 1
bit a (suc i) = bit (a / 2) i

pub bit-zero : (i : ℕ) → bit 0 i ≡ false
bit-zero zero = refl
bit-zero (suc i) = bit-zero i

-- The bits of a number that is put together from its higher digits and its lowest one.
bit-cons : (i x d : ℕ) → d < 2 → bit (x * 2 + d) (suc i) ≡ bit x i
bit-cons i x d h = ap (λ t. bit t i) (omega arith)

bit-cons_zero : (x d : ℕ) → d < 2 → bit (x * 2 + d) zero ≡ (d == 1)
bit-cons_zero x d h = ap (λ t. t == 1) (omega arith)

bit-and_digits : (n i a b : ℕ) → a ≤ n → bit (digits (λ _. 0) min n a b) i ≡ (bit a i && bit b i)
bit-and_digits zero i zero b h = rw (bit-zero i)
bit-and_digits (suc n) i zero b h = rw (bit-zero i)
bit-and_digits zero i (suc a) b h = absurd (omega arith)
bit-and_digits (suc n) zero (suc a) b h = ground arith
bit-and_digits (suc n) (suc i) (suc a) b h =
    bit-cons i (digits (λ _. 0) min n (suc a / 2) (b / 2)) (min (suc a % 2) (b % 2)) (omega arith)
    ∙ bit-and_digits n i (suc a / 2) (b / 2) (omega arith)

pub bit-bit_and : (a b i : ℕ) → bit (bit_and a b) i ≡ (bit a i && bit b i)
bit-bit_and a b i = rw bit_and-bitwise (bit-and_digits a i a b (omega arith))

bit-or_digits : (n i a b : ℕ) → a ≤ n → bit (digits (λ y. y) max n a b) i ≡ (bit a i || bit b i)
bit-or_digits zero i zero b h = rw (bit-zero i)
bit-or_digits (suc n) i zero b h = rw (bit-zero i)
bit-or_digits zero i (suc a) b h = absurd (omega arith)
bit-or_digits (suc n) zero (suc a) b h = ground arith
bit-or_digits (suc n) (suc i) (suc a) b h =
    bit-cons i (digits (λ y. y) max n (suc a / 2) (b / 2)) (max (suc a % 2) (b % 2)) (omega arith)
    ∙ bit-or_digits n i (suc a / 2) (b / 2) (omega arith)

pub bit-bit_or : (a b i : ℕ) → bit (bit_or a b) i ≡ (bit a i || bit b i)
bit-bit_or a b i = rw bit_or-bitwise (bit-or_digits a i a b (omega arith))

abbrev pub differs : Bool → Bool → Bool
differs true b = not b
differs false b = b

differ_digits :
    (x y : ℕ) → x < 2 → y < 2 → (differ x y < 2) × ((differ x y == 1) ≡ differs (x == 1) (y == 1))
differ_digits zero zero p q = (omega arith, refl)
differ_digits zero (suc zero) p q = (omega arith, refl)
differ_digits (suc zero) zero p q = (omega arith, refl)
differ_digits (suc zero) (suc zero) p q = (omega arith, refl)
differ_digits (suc (suc x)) y p q = absurd (omega arith)
differ_digits x (suc (suc y)) p q = absurd (omega arith)

bit-xor_digits :
    (n i a b : ℕ) → a ≤ n → bit (digits (λ y. y) differ n a b) i ≡ differs (bit a i) (bit b i)
bit-xor_digits zero i zero b h = rw (bit-zero i) refl
bit-xor_digits (suc n) i zero b h = rw (bit-zero i) refl
bit-xor_digits zero i (suc a) b h = absurd (omega arith)
bit-xor_digits (suc n) zero (suc a) b h =
    let d = differ_digits (suc a % 2) (b % 2) (omega arith) (omega arith) in
    bit-cons_zero (digits (λ y. y) differ n (suc a / 2) (b / 2)) (differ (suc a % 2) (b % 2)) d.0
    ∙ d.1
bit-xor_digits (suc n) (suc i) (suc a) b h =
    let d = differ_digits (suc a % 2) (b % 2) (omega arith) (omega arith) in
    bit-cons i (digits (λ y. y) differ n (suc a / 2) (b / 2)) (differ (suc a % 2) (b % 2)) d.0
    ∙ bit-xor_digits n i (suc a / 2) (b / 2) (omega arith)

pub bit-bit_xor : (a b i : ℕ) → bit (bit_xor a b) i ≡ differs (bit a i) (bit b i)
bit-bit_xor a b i = rw bit_xor-bitwise (bit-xor_digits a i a b (omega arith))

-- A claim about every number below a bound, by evaluation.
abbrev pub all_below : ℕ → (ℕ → Bool) → Bool
all_below zero p = true
all_below (suc n) p = p n && all_below n p

pub all_below_sound : (n : ℕ) (p : ℕ → Bool) (x : ℕ) → all_below n p ≡ true → x < n → p x ≡ true
all_below_sound zero p x h lt = absurd (omega arith)
all_below_sound (suc n) p x h lt = ground (arith, all_below_sound n p x)

-- Two numbers of `w` bits with the same bits are equal.
pub bit_ext : (w a b : ℕ) → a < 2 ^ w → b < 2 ^ w → ((i : ℕ) → i < w → bit a i ≡ bit b i) → a ≡ b
bit_ext zero a b ha hb h = omega arith
bit_ext (suc w) a b ha hb h =
    let e = pow-suc 2 w in
    let ih =
      bit_ext w (a / 2) (b / 2) (omega arith) (omega arith) (λ i hi. h (suc i) (omega arith)) in
    let low : a % 2 ≡ b % 2 = ground (arith, h 0 (omega arith)) in omega arith

and_digits-le : (n a b : ℕ) → a ≤ n → digits (λ _. 0) min n a b ≤ a
and_digits-le zero a b h = omega arith
and_digits-le (suc n) zero b h = omega arith
and_digits-le (suc n) (suc a) b h = omega (arith, and_digits-le n (suc a / 2) (b / 2) (omega arith))

pub bit_and-le : (a b : ℕ) → bit_and a b ≤ a
bit_and-le a b = rw bit_and-bitwise (and_digits-le a a b (omega arith))
