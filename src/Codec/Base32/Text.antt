-- ===== src/Codec/Base32/Text.antt =====
-- The text of base32_encode has no '\0' and no dot.
use andiodine.Common.{ℕ, ◌+◌, ◌*◌, ◌/◌, ◌%◌, ◌<◌, ◌≡◌, refl, sym, arith, subst}
use andiodine.Common.{List, [], All}
use andiodine.Common.Bits.{
  IsByte, all_below, all_below_sound, join_fields, low_1, low_2, low_3, low_4, low_5, high_3,
  high_4, high_5, high_6, high_7,
}
use andiodine.Codec.{p0, p1, p2, p3, p4, p5, p6, p7, next_or_zero}
use andiodine.Codec.Text.{is_text, IsText, GivesText, encode_loop-IsText, next_or_zero-IsByte}
use andiodine.Codec.Base32.{cb32, encode_step, useless, encode}
use andiodine.Codec.Base32.Bits.{inner_1, inner_2}

cb32-IsText : (v : ℕ) → v < 32 → IsText (cb32 v)
unfolding all_below cb32
cb32-IsText = all_below_sound (λ v. is_text (cb32 v)) 32 refl

-- A value that is known as a sum gives a char.
char_of : (v w : ℕ) → v ≡ w → w < 32 → IsText (cb32 v)
char_of v w e h = subst (λ x. IsText (cb32 x)) (sym e) (cb32-IsText w h)

step-GivesText : GivesText encode_step
unfolding encode_step
step-GivesText p0 x xs hx hxs = (char_of _ (x / 8) (high_3 x hx) (omega arith), (hx, hxs))
step-GivesText p1 x xs hx hxs =
    let hy = next_or_zero-IsByte xs hxs in
    (
      char_of _ (x % 8 * 4 + next_or_zero xs / 64)
          (join_fields 2 (low_3 x hx) (high_6 (next_or_zero xs) hy) (omega arith)) (omega arith),
      hxs,
    )
step-GivesText p2 x xs hx hxs = (char_of _ (x / 2 % 32) (inner_1 x hx) (omega arith), (hx, hxs))
step-GivesText p3 x xs hx hxs =
    let hy = next_or_zero-IsByte xs hxs in
    (
      char_of _ (x % 2 * 16 + next_or_zero xs / 16)
          (join_fields 4 (low_1 x hx) (high_4 (next_or_zero xs) hy) (omega arith)) (omega arith),
      hxs,
    )
step-GivesText p4 x xs hx hxs =
    let hy = next_or_zero-IsByte xs hxs in
    (
      char_of _ (x % 16 * 2 + next_or_zero xs / 128)
          (join_fields 1 (low_4 x hx) (high_7 (next_or_zero xs) hy) (omega arith)) (omega arith),
      hxs,
    )
step-GivesText p5 x xs hx hxs = (char_of _ (x / 4 % 32) (inner_2 x hx) (omega arith), (hx, hxs))
step-GivesText p6 x xs hx hxs =
    let hy = next_or_zero-IsByte xs hxs in
    (
      char_of _ (x % 4 * 8 + next_or_zero xs / 32)
          (join_fields 3 (low_2 x hx) (high_5 (next_or_zero xs) hy) (omega arith)) (omega arith),
      hxs,
    )
step-GivesText p7 x xs hx hxs = (char_of _ (x % 32) (low_5 x hx) (omega arith), hxs)

pub base32_encode-IsText :
    (buflen : ℕ) (bytes : List ℕ) → All IsByte bytes → All IsText (encode buflen bytes).text
unfolding encode
base32_encode-IsText buflen bytes h =
    encode_loop-IsText encode_step useless buflen p0 [] bytes step-GivesText tt h
