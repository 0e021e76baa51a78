-- ===== src/Bitops/Hex/RoundTrip.antt =====
-- Writing bytes in hexadecimal and reading them back (src/bitops.c).
use Prim.Native.Nat.{bit_and}
use hnetd.Common.{
  ℕ, zero, suc, ◌*◌, ◌/◌, ◌^◌, ◌≤◌, ◌<◌, ◌≡◌, refl, Bool, true, false, Option, none, some, [], ◌∷◌,
  arith, ◌==◌, ==_iff, length,
}
use mathlib.Core.Path.{subst}
use mathlib.Core.Option.{some-injective}
use hnetd.Common.Bits.{all_below, all_below_sound}
use hnetd.Bitops.{Bytes, byte_at}
use hnetd.Bitops.Hex.{hexdigits, hexvals, hexval, skip, pair_value, read_pair, unhexlify, hexlify}

-- All members are bytes.
abbrev pub AllBytes : Bytes → Type 0
AllBytes [] = Unit
AllBytes (b ∷ bs) = (b < 256) × AllBytes bs

abbrev reads_as : Option ℕ → Option ℕ → ℕ → Bool
reads_as none l b = false
reads_as (some h) none b = false
reads_as (some h) (some l) b = pair_value h l == b

abbrev reads : ℕ → Bool
reads b =
    reads_as (hexval (byte_at hexdigits (b / 2 ^ 4))) (hexval (byte_at hexdigits (bit_and b 0x0f)))
      b

all_read : all_below 256 reads ≡ true
unfolding hexvals hexval hexdigits pair_value
all_read = refl

-- Two digits that are read as a byte.
record Digits (x y : Option ℕ) (b : ℕ) : Type 0 where
  pub high : ℕ
  pub low : ℕ
  pub high_read : x ≡ some high
  pub low_read : y ≡ some low
  pub value : pair_value high low ≡ b

reads_as-Digits : (x y : Option ℕ) (b : ℕ) → reads_as x y b ≡ true → Digits x y b
reads_as-Digits none y b t = absurd (cc t)
reads_as-Digits (some h) none b t = absurd (cc t)
reads_as-Digits (some h) (some l) b t = record {
  high = h;
  low = l;
  high_read = refl;
  low_read = refl;
  value = (==_iff (pair_value h l) b).0 t;
}

digits :
    (b : ℕ)
    → b < 256
    → Digits
        (hexval (byte_at hexdigits (b / 2 ^ 4)))
        (hexval (byte_at hexdigits (bit_and b 0x0f)))
        b
digits b lt = reads_as-Digits _ _ b (all_below_sound 256 reads b all_read lt)

skip-hexlify : (bs : Bytes) → AllBytes bs → skip (hexlify bs) ≡ hexlify bs
unfolding skip hexlify
skip-hexlify [] v = refl
skip-hexlify (b ∷ bs) v = rw (digits b v.0).high_read refl

-- Reading what `hexlify` wrote for a list of bytes gives the bytes back.
pub unhexlify-hexlify : (bs : Bytes) → AllBytes bs → unhexlify (length bs) (hexlify bs) ≡ some bs
unfolding unhexlify hexlify read_pair
unhexlify-hexlify [] v = refl
unhexlify-hexlify (b ∷ bs) v =
    let d = digits b v.0 in
    rw (d.high_read, d.low_read, skip-hexlify bs v.1, unhexlify-hexlify bs v.1, d.value) refl

length-skip : (src : Bytes) → length (skip src) ≤ length src
unfolding skip
length-skip [] = omega arith
length-skip (x ∷ src) = ground (arith, length-skip src)

-- At most `n` bytes, two for each of `m` characters at most.
abbrev Fits : ℕ → ℕ → Bytes → Type 0
Fits n m bs = (length bs ≤ n) × (2 * length bs ≤ m) × AllBytes bs

read_pair-Fits :
    (x y : Option ℕ) (rest : Option Bytes) (n m : ℕ) (bs : Bytes)
    → ((cs : Bytes) → rest ≡ some cs → Fits n m cs)
    → read_pair x y rest ≡ some bs
    → Fits (suc n) (suc (suc m)) bs
unfolding read_pair pair_value
read_pair-Fits none y rest n m bs ih e = absurd (cc e)
read_pair-Fits (some x) none rest n m bs ih e = absurd (cc e)
read_pair-Fits (some x) (some y) none n m bs ih e = absurd (cc e)
read_pair-Fits (some x) (some y) (some cs) n m bs ih e =
    let f = ih cs refl in
    subst (Fits (suc n) (suc (suc m))) (some-injective _ _ e)
      (omega arith, omega arith, (omega arith, f.2))

-- Whatever the string, `unhexlify` writes at most `len` bytes, and one for two characters at most.
pub unhexlify_bounds :
    (len : ℕ) (src bs : Bytes)
    → unhexlify len src ≡ some bs
    → (length bs ≤ len) × (2 * length bs ≤ length src) × AllBytes bs
unfolding unhexlify
unhexlify_bounds zero src bs e =
    subst (Fits zero (length src)) (some-injective _ _ e) (omega arith, omega arith, tt)
unhexlify_bounds (suc len) [] bs e =
    subst (Fits (suc len) 0) (some-injective _ _ e) (omega arith, omega arith, tt)
unhexlify_bounds (suc len) (x ∷ []) bs e =
    subst (Fits (suc len) 1) (some-injective _ _ e) (omega arith, omega arith, tt)
unhexlify_bounds (suc len) (x ∷ y ∷ src) bs e =
    let l = length-skip src in
    read_pair-Fits (hexval x) (hexval y) (unhexlify len (skip src)) len (length src) bs
      (λ cs f. let h = unhexlify_bounds len (skip src) cs f in (h.0, omega arith, h.2)) e
