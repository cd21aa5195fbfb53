-- ===== src/Codec/Base64/Bits.antt =====
-- The masks of base64.c as arithmetic, and its alphabet against its reverse table.
use andiodine.Common.{ℕ, ◌/◌, ◌<◌, ◌≡◌, refl, bit_and, arith}
use andiodine.Common.{false, not, ◌==◌}
use andiodine.Common.Bits.{shr, all_below, all_below_sound, agree_below}
use andiodine.Codec.Base64.{cb64, rev64}

pub rev64-cb64 : (v : ℕ) → v < 64 → rev64 (cb64 v) ≡ v
unfolding all_below rev64 cb64
rev64-cb64 = agree_below 64 _ _ refl

pub cb64-ne-zero : (v : ℕ) → v < 64 → (cb64 v == 0) ≡ false
unfolding all_below cb64
cb64-ne-zero v h = ground (arith, all_below_sound (λ v. not (cb64 v == 0)) 64 refl v h)

pub middle_4 : (v : ℕ) → v < 64 → shr (bit_and v 0x30) 4 ≡ v / 16
unfolding all_below
middle_4 = agree_below 64 _ _ refl

pub middle_2 : (v : ℕ) → v < 64 → shr (bit_and v 0x3c) 2 ≡ v / 4
unfolding all_below
middle_2 = agree_below 64 _ _ refl
