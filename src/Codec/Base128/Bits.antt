-- ===== src/Codec/Base128/Bits.antt =====
-- The masks of base128.c as arithmetic, and its alphabet against its reverse table.
use andiodine.Common.{ℕ, ◌/◌, ◌<◌, ◌≡◌, refl, bit_and, arith}
use andiodine.Common.{false, not, ◌==◌}
use andiodine.Common.Bits.{shr, all_below, all_below_sound, agree_below}
use andiodine.Codec.Base128.{cb128, rev128}

pub rev128-cb128 : (v : ℕ) → v < 128 → rev128 (cb128 v) ≡ v
unfolding all_below rev128 cb128
rev128-cb128 = agree_below 128 _ _ refl

pub cb128-ne-zero : (v : ℕ) → v < 128 → (cb128 v == 0) ≡ false
unfolding all_below cb128
cb128-ne-zero v h = ground (arith, all_below_sound (λ v. not (cb128 v == 0)) 128 refl v h)

pub middle_6 : (v : ℕ) → v < 128 → shr (bit_and v 0x40) 6 ≡ v / 64
unfolding all_below
middle_6 = agree_below 128 _ _ refl

pub middle_5 : (v : ℕ) → v < 128 → shr (bit_and v 0x60) 5 ≡ v / 32
unfolding all_below
middle_5 = agree_below 128 _ _ refl

pub middle_4 : (v : ℕ) → v < 128 → shr (bit_and v 0x70) 4 ≡ v / 16
unfolding all_below
middle_4 = agree_below 128 _ _ refl

pub middle_3 : (v : ℕ) → v < 128 → shr (bit_and v 0x78) 3 ≡ v / 8
unfolding all_below
middle_3 = agree_below 128 _ _ refl

pub middle_2 : (v : ℕ) → v < 128 → shr (bit_and v 0x7c) 2 ≡ v / 4
unfolding all_below
middle_2 = agree_below 128 _ _ refl

pub middle_1 : (v : ℕ) → v < 128 → shr (bit_and v 0x7e) 1 ≡ v / 2
unfolding all_below
middle_1 = agree_below 128 _ _ refl
