-- ===== src/Codec/Base128.antt =====
-- jni/iodine/src/base128.c: seven bits to a char. A char is its unsigned value.
pub mod Bits
pub mod RoundTrip
pub mod Size
pub mod Text
use andiodine.Common.{ℕ, zero, suc, ◌+◌, bit_and, bit_or, Bool, true, false, ◌||◌, ◌==◌}
use andiodine.Common.{
  if◌then◌else◌, Option, none, some, List, [], ◌∷◌, ◌++◌, get_or, set, replicate,
}
use andiodine.Common.Bits.{shl, shr}
use andiodine.Codec.{Phase, p0, p1, p2, p3, p4, p5, p6, p7, EncodeStep, DecodeStep, next_or_zero}
use andiodine.Codec.{Encoded, encode_loop, decode_loop, chars_from}

-- `cb128`: a-z, A-Z, 0-9 and the bytes 0o274 to 0o375.
alphabet : List ℕ
unfolding chars_from
alphabet = chars_from 26 b'a' ++ (chars_from 26 b'A' ++ (chars_from 10 b'0' ++ chars_from 66 0o274))

pub cb128 : ℕ → ℕ
unfolding alphabet
cb128 v = get_or alphabet v 0

-- `base128_reverse_init`: from a zeroed table, `rev128[cb128[i]] = i` for each `i`.
fill_reverse : List ℕ → ℕ → List ℕ → List ℕ
fill_reverse [] i rev = rev
fill_reverse (c ∷ cs) i rev = fill_reverse cs (i + 1) (set rev c i)

pub rev128 : ℕ → ℕ
unfolding alphabet fill_reverse
rev128 c = get_or (fill_reverse alphabet 0 (replicate 256 0)) c 0

-- The eight `buf[iout] = ...` of the loop; every one but the first ends a byte.
pub encode_step : EncodeStep
encode_step p0 x xs = (cb128 (shr (bit_and x 0xfe) 1), x ∷ xs, p1)
encode_step p1 x xs =
    (cb128 (bit_or (shl (bit_and x 0x01) 6) (shr (bit_and (next_or_zero xs) 0xfc) 2)), xs, p2)
encode_step p2 x xs =
    (cb128 (bit_or (shl (bit_and x 0x03) 5) (shr (bit_and (next_or_zero xs) 0xf8) 3)), xs, p3)
encode_step p3 x xs =
    (cb128 (bit_or (shl (bit_and x 0x07) 4) (shr (bit_and (next_or_zero xs) 0xf0) 4)), xs, p4)
encode_step p4 x xs =
    (cb128 (bit_or (shl (bit_and x 0x0f) 3) (shr (bit_and (next_or_zero xs) 0xe0) 5)), xs, p5)
encode_step p5 x xs =
    (cb128 (bit_or (shl (bit_and x 0x1f) 2) (shr (bit_and (next_or_zero xs) 0xc0) 6)), xs, p6)
encode_step p6 x xs =
    (cb128 (bit_or (shl (bit_and x 0x3f) 1) (shr (bit_and (next_or_zero xs) 0x80) 7)), xs, p7)
encode_step p7 x xs = (cb128 (bit_and x 0x7f), xs, p0)

-- Before the second char of the block a break takes the first one back.
pub useless : Phase → Bool
useless p1 = true
useless _ = false

pub encode : ℕ → List ℕ → Encoded
encode buflen bytes = encode_loop encode_step useless buflen p0 [] bytes

-- The value that a phase makes of its two chars' table entries, `str[iin..slen)` behind the chars
-- used up, and the next phase.
pub decode_pair : Phase → ℕ → ℕ → List ℕ → ℕ × List ℕ × Phase
decode_pair p0 c d r =
    (bit_or (shl (bit_and (rev128 c) 0x7f) 1) (shr (bit_and (rev128 d) 0x40) 6), d ∷ r, p1)
decode_pair p1 c d r =
    (bit_or (shl (bit_and (rev128 c) 0x3f) 2) (shr (bit_and (rev128 d) 0x60) 5), d ∷ r, p2)
decode_pair p2 c d r =
    (bit_or (shl (bit_and (rev128 c) 0x1f) 3) (shr (bit_and (rev128 d) 0x70) 4), d ∷ r, p3)
decode_pair p3 c d r =
    (bit_or (shl (bit_and (rev128 c) 0x0f) 4) (shr (bit_and (rev128 d) 0x78) 3), d ∷ r, p4)
decode_pair p4 c d r =
    (bit_or (shl (bit_and (rev128 c) 0x07) 5) (shr (bit_and (rev128 d) 0x7c) 2), d ∷ r, p5)
decode_pair p5 c d r =
    (bit_or (shl (bit_and (rev128 c) 0x03) 6) (shr (bit_and (rev128 d) 0x7e) 1), d ∷ r, p6)
decode_pair _ c d r = (bit_or (shl (bit_and (rev128 c) 0x01) 7) (bit_and (rev128 d) 0x7f), r, p0)

-- The guard of each phase: two chars are left, and neither is '\0'.
pub decode_step : DecodeStep
decode_step ph (c ∷ d ∷ r) = if c == 0 || d == 0 then none else some (decode_pair ph c d r)
decode_step ph _ = none

pub decode : ℕ → List ℕ → List ℕ
decode buflen str = decode_loop decode_step buflen p0 str
