-- ===== src/Bitops/Copy.antt =====
-- What the copies by bits do to every bit of the memory.
use hnetd.Common.{
  ℕ, zero, suc, ◌+◌, ◌-◌, ◌*◌, ◌/◌, ◌%◌, ◌≤◌, ◌<◌, ◌≡◌, refl, sym, ◌∙◌, Bool, true, not, ◌&&◌, ◌||◌,
  arith, ℕ_discrete, ltb, leb, ◌==◌, if◌then◌else◌, ==_refl, ne→==, le→leb, length, set, length-set,
  get_or-set_self, get_or-set_ne,
}
use hnetd.Common.Bits.{
  bit, differs, bit-bit_and, bit-bit_or, bit-bit_xor, all_below, all_below_sound,
}
use hnetd.Bitops.{Bytes, byte_at, byte_mask, bbytecpy, copy_byte, memcpy}

-- Bit `k` of a byte and bit `n` of a memory, the highest first.
abbrev pub high_bit : ℕ → ℕ → Bool
high_bit b k = bit b (7 - k)

abbrev pub bit_at : Bytes → ℕ → Bool
bit_at m n = high_bit (byte_at m (n / 8)) (n % 8)

-- Whether `k` is in the range of `n` bits from `f` on.
abbrev pub in_range : ℕ → ℕ → ℕ → Bool
in_range f n k = leb f k && ltb k (f + n)

abbrev pub same_bool : Bool → Bool → Bool
same_bool a b = not (differs a b)

mask_row : ℕ → ℕ → ℕ → Bool
mask_row f n k = not (leb (f + n) 8) || same_bool (high_bit (byte_mask f n) k) (in_range f n k)

mask_table : all_below 8 (λ f. all_below 9 (λ n. all_below 8 (mask_row f n))) ≡ true
unfolding mask_row byte_mask
mask_table = refl

full_table : all_below 8 (λ k. high_bit 0xff k) ≡ true
full_table = refl

pub same_bool→eq : (a b : Bool) → same_bool a b ≡ true → a ≡ b
same_bool→eq a b h = ground arith

or-elim_not : (a b : Bool) → (not a || b) ≡ true → a ≡ true → b ≡ true
or-elim_not a b h e = ground arith

high_bit-byte_mask :
    (f n k : ℕ) → f < 8 → f + n ≤ 8 → k < 8 → high_bit (byte_mask f n) k ≡ in_range f n k
unfolding mask_row
high_bit-byte_mask f n k hf hn hk =
    let row_f =
      all_below_sound 8 (λ f. all_below 9 (λ n. all_below 8 (mask_row f n))) f mask_table hf in
    let row_n = all_below_sound 9 (λ n. all_below 8 (mask_row f n)) n row_f (omega arith) in
    let row_k = all_below_sound 8 (mask_row f n) k row_n hk in
    let fits = le→leb (f + n) 8 hn in same_bool→eq _ _ (or-elim_not _ _ row_k fits)

select : (m d s : Bool) → (d && differs m true || s && m) ≡ (if m then s else d)
select m d s = ground arith

-- `bbytecpy` takes the bits of its range from the source, and the others from the destination.
high_bit-bbytecpy :
    (d s f n k : ℕ)
    → f < 8
    → f + n ≤ 8
    → k < 8
    → high_bit (bbytecpy d s f n) k ≡ (if in_range f n k then high_bit s k else high_bit d k)
unfolding bbytecpy
high_bit-bbytecpy d s f n k hf hn hk =
    let mask = byte_mask f n in
    rw
      (
        bit-bit_or,
        bit-bit_and d,
        bit-bit_xor,
        bit-bit_and s,
        all_below_sound 8 (λ k. high_bit 0xff k) k full_table hk,
        high_bit-byte_mask f n k hf hn hk,
      )
      (select (in_range f n k) (high_bit d k) (high_bit s k))

abbrev pub bit_of : Bytes → ℕ → ℕ → Bool
bit_of m j k = high_bit (byte_at m j) k

bit_of-copy_byte :
    (d s : Bytes) (i f n j k : ℕ)
    → i < length d
    → f < 8
    → f + n ≤ 8
    → k < 8
    → bit_of (copy_byte d s i f n) j k
      ≡ (if j == i && in_range f n k then bit_of s j k else bit_of d j k)
unfolding copy_byte
bit_of-copy_byte d s i f n j k hi hf hn hk = elim (ℕ_discrete j i) [
  | yes e ↦
      rw (e, get_or-set_self d i (bbytecpy (byte_at d i) (byte_at s i) f n) 0 hi)
        (high_bit-bbytecpy (byte_at d i) (byte_at s i) f n k hf hn hk ∙ rw (==_refl i) refl)
  | no e ↦
      rw (get_or-set_ne d (bbytecpy (byte_at d i) (byte_at s i) f n) 0 (λ q. e (sym q)))
        (rw (ne→== j i e) refl)
]

length-memcpy : (d s : Bytes) (i n : ℕ) → length (memcpy d s i n) ≡ length d
unfolding memcpy
length-memcpy d s i zero = refl
length-memcpy d s i (suc n) =
    length-memcpy (set d i (byte_at s i)) s (i + 1) n ∙ length-set d i (byte_at s i)

byte_at-memcpy :
    (d s : Bytes) (i n j : ℕ)
    → i + n ≤ length d
    → byte_at (memcpy d s i n) j ≡ (if in_range i n j then byte_at s j else byte_at d j)
unfolding memcpy
byte_at-memcpy d s i zero j h = ground arith
byte_at-memcpy d s i (suc n) j h =
    let d' = set d i (byte_at s i) in
    let ih = byte_at-memcpy d' s (i + 1) n j (omega (arith, length-set d i (byte_at s i))) in
    elim (ℕ_discrete j i) [
      | yes e ↦ ground (arith, ih, get_or-set_self d i (byte_at s i) 0)
      | no e ↦ ground (arith, ih, get_or-set_ne d {i = i} {j = j} (byte_at s i) 0 (λ q. e (sym q)))
    ]

-- `m` is the memory `d` with its bits from `a` up to `b` taken from `s`.
pub record Copied (m d s : Bytes) (a b : ℕ) : Type 0 where
  pub size : length m ≡ length d
  pub bits :
      (j k : ℕ)
      → k < 8
      → bit_of m j k
        ≡ (if leb a (8 * j + k) && ltb (8 * j + k) b then bit_of s j k else bit_of d j k)

pub Copied-nil : (d s : Bytes) (a : ℕ) → Copied d d s a a
Copied-nil d s a = record { size = refl; bits = λ j k hk. ground arith }

pub Copied-append :
    (m' m d s : Bytes) (a b c : ℕ)
    → a ≤ b
    → b ≤ c
    → Copied m d s a b
    → Copied m' m s b c
    → Copied m' d s a c
Copied-append m' m d s a b c p q u v = record {
  size = v.size ∙ u.size;
  bits = λ j k hk. ground (arith, u.bits j k hk, v.bits j k hk);
}

-- The same with the bounds given by equations.
pub Copied-bounds :
    {m d s : Bytes} {a b : ℕ} (a' b' : ℕ) → a ≡ a' → b ≡ b' → Copied m d s a b → Copied m d s a' b'
Copied-bounds a' b' p q c = rw (← p, ← q) c

pub copy_byte-Copied :
    (d s : Bytes) (i f n : ℕ)
    → i < length d
    → f < 8
    → f + n ≤ 8
    → Copied (copy_byte d s i f n) d s (8 * i + f) (8 * i + f + n)
copy_byte-Copied d s i f n hi hf hn = record {
  size = unfold copy_byte in length-set d i _;
  bits = λ j k hk. ground (arith, bit_of-copy_byte d s i f n j k hi hf hn hk);
}

pub memcpy-Copied :
    (d s : Bytes) (i n : ℕ) → i + n ≤ length d → Copied (memcpy d s i n) d s (8 * i) (8 * (i + n))
memcpy-Copied d s i n h = record {
  size = length-memcpy d s i n;
  bits = λ j k hk. rw (byte_at-memcpy d s i n j h) (ground arith);
}
