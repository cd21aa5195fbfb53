-- ===== src/Codec/Base32.antt =====
-- jni/iodine/src/base32.c: five bits to a char. A char is its unsigned value.
pub mod Bits
pub mod Points
pub mod RoundTrip
pub mod Size
pub mod Text
pub mod CaseFold
mod Tests
use andiodine.Common.{ℕ, suc, ◌+◌, bit_and, bit_or, Bool, true, false, ◌||◌, ◌==◌}
use andiodine.Common.{if◌then◌else◌, none, some, List, [], ◌∷◌, ◌++◌, get_or, set, replicate}
use andiodine.Common.Bits.{shl, shr}
use andiodine.Codec.{Phase, p0, p1, p2, p3, p4, p5, p6, p7, EncodeStep, DecodeStep, next_or_zero}
use andiodine.Codec.{Encoded, encode_loop, decode_loop, chars_from}

-- `cb32`: a-z and 0-5; `cb32_ucase`: A-Z and 0-5.
alphabet : ℕ → List ℕ
unfolding chars_from
alphabet first_letter = chars_from 26 first_letter ++ chars_from 6 b'0'

pub cb32 : ℕ → ℕ
unfolding alphabet
cb32 v = get_or (alphabet b'a') v 0

-- `base32_reverse_init`: from a zeroed table, `rev32[cb32[i]] = rev32[cb32_ucase[i]] = i`.
fill_reverse : List ℕ → List ℕ → ℕ → List ℕ → List ℕ
fill_reverse (c ∷ cs) (u ∷ us) i rev = fill_reverse cs us (i + 1) (set (set rev c i) u i)
fill_reverse _ _ i rev = rev

pub rev32 : ℕ → ℕ
unfolding alphabet fill_reverse
rev32 c = get_or (fill_reverse (alphabet b'a') (alphabet b'A') 0 (replicate 256 0)) c 0

pub b32_5to8 : ℕ → ℕ
b32_5to8 v = cb32 (bit_and v 31)

pub b32_8to5 : ℕ → ℕ
b32_8to5 c = rev32 c

-- The eight `buf[iout] = ...` of the loop; those of `p1`, `p3`, `p4`, `p6` and `p7` end a byte.
pub encode_step : EncodeStep
encode_step p0 x xs = (cb32 (shr (bit_and x 0xf8) 3), x ∷ xs, p1)
encode_step p1 x xs =
    (cb32 (bit_or (shl (bit_and x 0x07) 2) (shr (bit_and (next_or_zero xs) 0xc0) 6)), xs, p2)
encode_step p2 x xs = (cb32 (shr (bit_and x 0x3e) 1), x ∷ xs, p3)
encode_step p3 x xs =
    (cb32 (bit_or (shl (bit_and x 0x01) 4) (shr (bit_and (next_or_zero xs) 0xf0) 4)), xs, p4)
encode_step p4 x xs =
    (cb32 (bit_or (shl (bit_and x 0x0f) 1) (shr (bit_and (next_or_zero xs) 0x80) 7)), xs, p5)
encode_step p5 x xs = (cb32 (shr (bit_and x 0x7c) 2), x ∷ xs, p6)
encode_step p6 x xs =
    (cb32 (bit_or (shl (bit_and x 0x03) 3) (shr (bit_and (next_or_zero xs) 0xe0) 5)), xs, p7)
encode_step p7 x xs = (cb32 (bit_and x 0x1f), xs, p0)

-- A break in the middle of a byte takes the previous char back.
pub useless : Phase → Bool
useless p1 = true
useless p3 = true
useless p6 = true
useless _ = false

pub encode : ℕ → List ℕ → Encoded
encode buflen bytes = encode_loop encode_step useless buflen p0 [] bytes

-- The five `ubuf[iout] = ...` with their guards: two or three chars are left, none of them '\0'.
-- The phases behind `p4` are not reached.
pub decode_step : DecodeStep
decode_step p0 (c ∷ d ∷ r) =
    if c == 0 || d == 0
    then none
    else some (bit_or (shl (bit_and (rev32 c) 0x1f) 3) (shr (bit_and (rev32 d) 0x1c) 2), d ∷ r, p1)
decode_step p1 (c ∷ d ∷ e ∷ r) =
    if c == 0 || (d == 0 || e == 0)
    then none
    else some (
      bit_or (bit_or (shl (bit_and (rev32 c) 0x03) 6) (shl (bit_and (rev32 d) 0x1f) 1))
          (shr (bit_and (rev32 e) 0x10) 4),
      e ∷ r,
      p2,
    )
decode_step p2 (c ∷ d ∷ r) =
    if c == 0 || d == 0
    then none
    else some (bit_or (shl (bit_and (rev32 c) 0x0f) 4) (shr (bit_and (rev32 d) 0x1e) 1), d ∷ r, p3)
decode_step p3 (c ∷ d ∷ e ∷ r) =
    if c == 0 || (d == 0 || e == 0)
    then none
    else some (
      bit_or (bit_or (shl (bit_and (rev32 c) 0x01) 7) (shl (bit_and (rev32 d) 0x1f) 2))
          (shr (bit_and (rev32 e) 0x18) 3),
      e ∷ r,
      p4,
    )
decode_step p4 (c ∷ d ∷ r) =
    if c == 0 || d == 0
    then none
    else some (bit_or (shl (bit_and (rev32 c) 0x07) 5) (bit_and (rev32 d) 0x1f), r, p0)
decode_step _ _ = none

pub decode : ℕ → List ℕ → List ℕ
decode buflen str = decode_loop decode_step buflen p0 str
