-- ===== src/Codec/Base32/Bits.antt =====
-- The masks of base32.c as arithmetic, and its alphabet against its reverse table.
use andiodine.Common.{ℕ, ◌/◌, ◌%◌, ◌<◌, ◌≡◌, refl, bit_and, arith, ap, ◌∙◌}
use andiodine.Common.{false, not, ◌==◌}
use andiodine.Common.Bits.{shr, all_below, all_below_sound, agree_below, low_5}
use andiodine.Codec.Base32.{cb32, rev32, b32_5to8, b32_8to5}

pub rev32-cb32 : (v : ℕ) → v < 32 → rev32 (cb32 v) ≡ v
unfolding all_below rev32 cb32
rev32-cb32 = agree_below 32 _ _ refl

pub cb32-ne-zero : (v : ℕ) → v < 32 → (cb32 v == 0) ≡ false
unfolding all_below cb32
cb32-ne-zero v h = ground (arith, all_below_sound (λ v. not (cb32 v == 0)) 32 refl v h)

pub inner_1 : (x : ℕ) → x < 256 → shr (bit_and x 0x3e) 1 ≡ x / 2 % 32
unfolding all_below
inner_1 = agree_below 256 _ _ refl

pub inner_2 : (x : ℕ) → x < 256 → shr (bit_and x 0x7c) 2 ≡ x / 4 % 32
unfolding all_below
inner_2 = agree_below 256 _ _ refl

pub middle_1 : (v : ℕ) → v < 32 → shr (bit_and v 0x1e) 1 ≡ v / 2
unfolding all_below
middle_1 = agree_below 32 _ _ refl

pub middle_2 : (v : ℕ) → v < 32 → shr (bit_and v 0x1c) 2 ≡ v / 4
unfolding all_below
middle_2 = agree_below 32 _ _ refl

pub middle_3 : (v : ℕ) → v < 32 → shr (bit_and v 0x18) 3 ≡ v / 8
unfolding all_below
middle_3 = agree_below 32 _ _ refl

pub middle_4 : (v : ℕ) → v < 32 → shr (bit_and v 0x10) 4 ≡ v / 16
unfolding all_below
middle_4 = agree_below 32 _ _ refl

-- A char of five bits decodes to them.
pub b32_8to5-b32_5to8 : (v : ℕ) → v < 32 → b32_8to5 (b32_5to8 v) ≡ v
unfolding b32_8to5 b32_5to8
b32_8to5-b32_5to8 v h =
    let low : bit_and v 31 ≡ v = low_5 v (omega arith) ∙ omega arith in
    ap (λ (c : ℕ). rev32 (cb32 c)) low ∙ rev32-cb32 v h
