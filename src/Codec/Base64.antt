-- ===== src/Codec/Base64.antt =====
-- jni/iodine/src/base64.c: six bits to a char. A char is its unsigned value.
pub mod Bits
pub mod RoundTrip
pub mod Size
pub mod Text
use andiodine.Common.{ℕ, suc, ◌+◌, bit_and, bit_or, Bool, true, false, ◌||◌, ◌==◌}
use andiodine.Common.{if◌then◌else◌, none, some, List, [], ◌∷◌, ◌++◌, get_or, set, replicate}
use andiodine.Common.Bits.{shl, shr}
use andiodine.Codec.{Phase, p0, p1, p2, p3, EncodeStep, DecodeStep, next_or_zero}
use andiodine.Codec.{Encoded, encode_loop, decode_loop, chars_from}

-- `cb64`: a-z, A-Z, '-', 0-9 and '+'.
alphabet : List ℕ
unfolding chars_from
alphabet =
    chars_from 26 b'a' ++ (chars_from 26 b'A' ++ (b'-' ∷ (chars_from 10 b'0' ++ (b'+' ∷ []))))

pub cb64 : ℕ → ℕ
unfolding alphabet
cb64 v = get_or alphabet v 0

-- `base64_reverse_init`: from a zeroed table, `rev64[cb64[i]] = i` for each `i`.
fill_reverse : List ℕ → ℕ → List ℕ → List ℕ
fill_reverse [] i rev = rev
fill_reverse (c ∷ cs) i rev = fill_reverse cs (i + 1) (set rev c i)

pub rev64 : ℕ → ℕ
unfolding alphabet fill_reverse
rev64 c = get_or (fill_reverse alphabet 0 (replicate 256 0)) c 0

-- The four `buf[iout] = ...` of the loop; the phases behind `p3` are not reached.
pub encode_step : EncodeStep
encode_step p0 x xs = (cb64 (shr (bit_and x 0xfc) 2), x ∷ xs, p1)
encode_step p1 x xs =
    (cb64 (bit_or (shl (bit_and x 0x03) 4) (shr (bit_and (next_or_zero xs) 0xf0) 4)), xs, p2)
encode_step p2 x xs =
    (cb64 (bit_or (shl (bit_and x 0x0f) 2) (shr (bit_and (next_or_zero xs) 0xc0) 6)), xs, p3)
encode_step _ x xs = (cb64 (bit_and x 0x3f), xs, p0)

-- Before the second char of the block a break takes the first one back.
pub useless : Phase → Bool
useless p1 = true
useless _ = false

pub encode : ℕ → List ℕ → Encoded
encode buflen bytes = encode_loop encode_step useless buflen p0 [] bytes

-- The value that a phase makes of its two chars, `str[iin..slen)` behind the chars used up, and
-- the next phase; the phases behind `p2` are not reached.
pub decode_pair : Phase → ℕ → ℕ → List ℕ → ℕ × List ℕ × Phase
decode_pair p0 c d r =
    (bit_or (shl (bit_and (rev64 c) 0x3f) 2) (shr (bit_and (rev64 d) 0x30) 4), d ∷ r, p1)
decode_pair p1 c d r =
    (bit_or (shl (bit_and (rev64 c) 0x0f) 4) (shr (bit_and (rev64 d) 0x3c) 2), d ∷ r, p2)
decode_pair _ c d r = (bit_or (shl (bit_and (rev64 c) 0x03) 6) (bit_and (rev64 d) 0x3f), r, p0)

-- The guard of each phase: two chars are left, and neither is '\0'.
pub decode_step : DecodeStep
decode_step ph (c ∷ d ∷ r) = if c == 0 || d == 0 then none else some (decode_pair ph c d r)
decode_step ph _ = none

pub decode : ℕ → List ℕ → List ℕ
decode buflen str = decode_loop decode_step buflen p0 str
