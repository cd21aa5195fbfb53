-- ===== src/Codec.antt =====
-- The loops that jni/iodine/src/base32.c, base64.c and base128.c share. Each file's `while (1)`
-- is unrolled over a block; a phase is the place in the block that a round has reached.
-- The lists `rest` are `data[iin..size)` and `str[iin..slen)`, and `room` is `*buflen - iout`.
pub mod Laws
pub mod Sync
pub mod Capacity
pub mod Text
pub mod Base32
pub mod Base64
pub mod Base128
mod Tests
use andiodine.Common.{
  ℕ, zero, suc, ◌+◌, Bool, if◌then◌else◌, Option, none, some, List, [], ◌∷◌, ◌++◌,
}

-- The next char of the block to fill, or the next byte of the block to decode.
pub data Phase : Type 0 where
  p0 p1 p2 p3 p4 p5 p6 p7 : Phase

-- What an encoder leaves: the chars of `buf` before the final '\0', and the data not encoded,
-- `data[*buflen..size)`.
pub record Encoded : Type 0 where
  pub text : List ℕ
  pub left : List ℕ

-- `iout--`: the last char is overwritten by the '\0'.
pub drop_last : List ℕ → List ℕ
drop_last [] = []
drop_last (x ∷ []) = []
drop_last (x ∷ y ∷ xs) = x ∷ drop_last (y ∷ xs)

-- One char of the block: what is written, `data[iin..size)` after it, and the next phase. The
-- arguments are the phase, `data[iin]` and the data behind it.
abbrev pub EncodeStep : Type 0
EncodeStep = Phase → ℕ → List ℕ → ℕ × List ℕ × Phase

-- The byte that a phase decodes, `str[iin..slen)` after it, and the next phase; `none` where the
-- loop breaks.
abbrev pub DecodeStep : Type 0
DecodeStep = Phase → List ℕ → Option (ℕ × List ℕ × Phase)

module _ (step : EncodeStep) (useless : Phase → Bool) where
  -- The `break`; where `useless` holds the previous char is taken back.
  pub encode_stop : Phase → List ℕ → List ℕ → Encoded
  unfolding drop_last
  encode_stop ph out rest = record { text = if useless ph then drop_last out else out; left = rest }

  pub encode_loop : ℕ → Phase → List ℕ → List ℕ → Encoded
  unfolding encode_stop
  encode_loop zero ph out rest = encode_stop ph out rest
  encode_loop (suc room) ph out [] = encode_stop ph out []
  encode_loop (suc room) ph out (x ∷ xs) =
      let (c, rest, ph') = step ph x xs in encode_loop room ph' (out ++ (c ∷ [])) rest

module _ (step : DecodeStep) where
  pub decode_loop : ℕ → Phase → List ℕ → List ℕ
  decode_loop zero ph rest = []
  decode_loop (suc room) ph rest = elim (step ph rest) [
    | none ↦ []
    | some (b, rest', ph') ↦ b ∷ decode_loop room ph' rest'
  ]

-- `(iin + 1 < size) ? udata[iin + 1] : 0`
abbrev pub next_or_zero : List ℕ → ℕ
next_or_zero [] = 0
next_or_zero (x ∷ xs) = x

-- `n` consecutive codes from `c` on, to write an alphabet.
pub chars_from : ℕ → ℕ → List ℕ
chars_from zero c = []
chars_from (suc n) c = c ∷ chars_from n (c + 1)
