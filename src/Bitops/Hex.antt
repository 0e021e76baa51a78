-- ===== src/Bitops/Hex.antt =====
-- The hexadecimal conversions of src/bitops.c. A string is the list of its characters before the
-- terminating zero, each of them a byte.
pub mod RoundTrip
mod Tests
use Prim.Native.Nat.{bit_or, bit_and}
use hnetd.Common.{
  ℕ, zero, suc, ◌*◌, ◌/◌, ◌%◌, ◌^◌, Bool, true, false, Option, none, some, List, [], ◌∷◌, ◌++◌, map,
  if◌then◌else◌, get_or, replicate,
}
use hnetd.Bitops.{Bytes, byte_at}

abbrev is_digit : Option ℕ → Bool
is_digit none = false
is_digit (some d) = true

-- "0123456789abcdef"
pub hexdigits : Bytes
hexdigits = 48 ∷ 49 ∷ 50 ∷ 51 ∷ 52 ∷ 53 ∷ 54 ∷ 55 ∷ 56 ∷ 57 ∷ 97 ∷ 98 ∷ 99 ∷ 100 ∷ 101 ∷ 102 ∷ []

-- The values of the characters below 128; a negative entry, which marks a character that is no
-- digit, is `none`.
pub hexvals : List (Option ℕ)
hexvals =
    replicate 48 none
    ++ map some (0 ∷ 1 ∷ 2 ∷ 3 ∷ 4 ∷ 5 ∷ 6 ∷ 7 ∷ 8 ∷ 9 ∷ [])
    ++ replicate 7 none
    ++ map some (10 ∷ 11 ∷ 12 ∷ 13 ∷ 14 ∷ 15 ∷ [])
    ++ replicate 26 none
    ++ map some (10 ∷ 11 ∷ 12 ∷ 13 ∷ 14 ∷ 15 ∷ [])
    ++ replicate 25 none

-- The value of a character; one from 128 on is negative as an int8_t.
pub hexval : ℕ → Option ℕ
unfolding hexvals
hexval x = get_or hexvals x none

-- The loop behind a pair: skips up to a digit or the end.
pub skip : Bytes → Bytes
skip [] = []
skip (x ∷ xs) = if is_digit (hexval x) then x ∷ xs else skip xs

-- `x << 4 | y`, stored in a byte
pub pair_value : ℕ → ℕ → ℕ
pair_value x y = bit_or (x * 2 ^ 4) y % 256

-- One turn of the loop: what is written if the two characters have these values.
pub read_pair : Option ℕ → Option ℕ → Option Bytes → Option Bytes
read_pair none y rest = none
read_pair (some x) none rest = none
read_pair (some x) (some y) none = none
read_pair (some x) (some y) (some bs) = some (pair_value x y ∷ bs)

-- `unhexlify(dst, len, src)`: the bytes that it has written when it returns their number, or `none`
-- when it returns -1.
pub unhexlify : ℕ → Bytes → Option Bytes
unhexlify zero src = some []
unhexlify (suc len) [] = some []
unhexlify (suc len) (x ∷ []) = some []
unhexlify (suc len) (x ∷ y ∷ src) = read_pair (hexval x) (hexval y) (unhexlify len (skip src))

-- The string that `hexlify(dst, src, len)` writes, for the `len` bytes of the list.
pub hexlify : Bytes → Bytes
unfolding hexdigits
hexlify [] = []
hexlify (b ∷ bs) = byte_at hexdigits (b / 2 ^ 4) ∷ byte_at hexdigits (bit_and b 0x0f) ∷ hexlify bs
