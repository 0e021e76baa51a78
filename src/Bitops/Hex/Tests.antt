-- ===== src/Bitops/Hex/Tests.antt =====
-- Tests of the hexadecimal conversions.
use hnetd.Common.{◌≡◌, refl, none, some, [], ◌∷◌, arith}
use hnetd.Bitops.{Bytes}
use hnetd.Bitops.Hex.{unhexlify, hexlify, hexval, hexvals, skip, read_pair, pair_value}
use hnetd.Bitops.Hex.RoundTrip.{unhexlify-hexlify}

abbrev two : Bytes
two = 0x01 ∷ 0xab ∷ []

abbrev three : Bytes
three = 0x12 ∷ 0x34 ∷ 0x56 ∷ []

-- Separators between the pairs are skipped; a pair with another character is an error.
unhexlify_runs :
    (unhexlify 8 (48 ∷ 49 ∷ 58 ∷ 97 ∷ 66 ∷ []) ≡ some (0x01 ∷ 0xab ∷ []))
    × (unhexlify 8 (48 ∷ 122 ∷ []) ≡ none)
unfolding unhexlify hexval hexvals skip read_pair pair_value
unhexlify_runs = (refl, refl)

unhexlify-hexlify_example : unhexlify 3 (hexlify three) ≡ some three
unhexlify-hexlify_example = unhexlify-hexlify three (omega arith, (omega arith, (omega arith, tt)))
