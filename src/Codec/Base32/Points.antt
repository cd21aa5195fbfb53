-- ===== src/Codec/Base32/Points.antt =====
-- Where base32's encoder and decoder stand between two chars of a block.
use andiodine.Common.{ℕ, ◌+◌, ◌*◌, ◌/◌, ◌%◌, ◌<◌, ◌≡◌, ap, ◌∙◌, arith, some}
use andiodine.Common.{List, [], ◌∷◌}
use andiodine.Common.Bits.{join_fields, join_three_fields}
use andiodine.Common.Bits.{low_1, low_2, low_3, low_4, low_5}
use andiodine.Codec.{Phase, p0, p1, p2, p3, p4, p5, p6, p7}
use andiodine.Codec.Base32.{cb32, decode_step}
use andiodine.Codec.Base32.Bits.{rev32-cb32, cb32-ne-zero, middle_1, middle_2, middle_3, middle_4}

-- The five bits of each char that the decoder has not used up: none at the start of a block, one
-- char where the next one ends a byte, and two where the encoder is inside a byte.
pub data Point : Type 0 where
  start : Point
  at1 at2 at4 at5 at7 : ℕ → Point
  at3 at6 : ℕ → ℕ → Point

abbrev pub enc : Point → Phase
enc start = p0
enc (at1 v) = p1
enc (at2 v) = p2
enc (at3 v w) = p3
enc (at4 v) = p4
enc (at5 v) = p5
enc (at6 v w) = p6
enc (at7 v) = p7

abbrev pub dec : Point → Phase
dec start = p0
dec (at1 v) = p0
dec (at2 v) = p1
dec (at3 v w) = p1
dec (at4 v) = p2
dec (at5 v) = p3
dec (at6 v w) = p3
dec (at7 v) = p4

abbrev pub pending : Point → List ℕ
pending start = []
pending (at1 v) = cb32 v ∷ []
pending (at2 v) = cb32 v ∷ []
pending (at3 v w) = cb32 v ∷ cb32 w ∷ []
pending (at4 v) = cb32 v ∷ []
pending (at5 v) = cb32 v ∷ []
pending (at6 v w) = cb32 v ∷ cb32 w ∷ []
pending (at7 v) = cb32 v ∷ []

-- What the pending chars hold of the byte `x` that comes next.
abbrev pub Carries : Point → ℕ → Type 0
Carries start x = Unit
Carries (at1 v) x = (v < 32) × (v ≡ x / 8)
Carries (at2 v) x = (v < 32) × (v % 4 ≡ x / 64)
Carries (at3 v w) x = (v < 32) × (v % 4 ≡ x / 64) × (w ≡ x / 2 % 32)
Carries (at4 v) x = (v < 32) × (v % 16 ≡ x / 16)
Carries (at5 v) x = (v < 32) × (v % 2 ≡ x / 128)
Carries (at6 v w) x = (v < 32) × (v % 2 ≡ x / 128) × (w ≡ x / 4 % 32)
Carries (at7 v) x = (v < 32) × (v % 8 ≡ x / 32)

-- The decoder on chars of the alphabet.
module _ (v w u : ℕ) (r : List ℕ) (hv : v < 32) (hw : w < 32) (hu : u < 32) where
  pub decode_0 : decode_step p0 (cb32 v ∷ cb32 w ∷ r) ≡ some (v * 8 + w / 4, cb32 w ∷ r, p1)
  unfolding decode_step
  decode_0 =
      rw (cb32-ne-zero v hv, cb32-ne-zero w hw, rev32-cb32 v hv, rev32-cb32 w hw)
        (ap (λ b. some (b, cb32 w ∷ r, p1))
          (join_fields 3 (low_5 v (omega arith)) (middle_2 w hw) (omega arith) ∙ omega arith))

  pub decode_1 :
      decode_step p1 (cb32 v ∷ cb32 w ∷ cb32 u ∷ r)
      ≡ some (v % 4 * 64 + w * 2 + u / 16, cb32 u ∷ r, p2)
  unfolding decode_step
  decode_1 =
      rw (cb32-ne-zero v hv, cb32-ne-zero w hw, cb32-ne-zero u hu)
        (rw (rev32-cb32 v hv, rev32-cb32 w hw, rev32-cb32 u hu)
          (ap (λ b. some (b, cb32 u ∷ r, p2))
            (join_three_fields 6 1 (v % 4 * 32 + w % 32) (low_2 v (omega arith))
                (low_5 w (omega arith)) (middle_4 u hu) (omega arith) (omega arith)
              ∙ omega arith)))

  pub decode_2 : decode_step p2 (cb32 v ∷ cb32 w ∷ r) ≡ some (v % 16 * 16 + w / 2, cb32 w ∷ r, p3)
  unfolding decode_step
  decode_2 =
      rw (cb32-ne-zero v hv, cb32-ne-zero w hw, rev32-cb32 v hv, rev32-cb32 w hw)
        (ap (λ b. some (b, cb32 w ∷ r, p3))
          (join_fields 4 (low_4 v (omega arith)) (middle_1 w hw) (omega arith)))

  pub decode_3 :
      decode_step p3 (cb32 v ∷ cb32 w ∷ cb32 u ∷ r)
      ≡ some (v % 2 * 128 + w * 4 + u / 8, cb32 u ∷ r, p4)
  unfolding decode_step
  decode_3 =
      rw (cb32-ne-zero v hv, cb32-ne-zero w hw, cb32-ne-zero u hu)
        (rw (rev32-cb32 v hv, rev32-cb32 w hw, rev32-cb32 u hu)
          (ap (λ b. some (b, cb32 u ∷ r, p4))
            (join_three_fields 7 2 (v % 2 * 32 + w % 32) (low_1 v (omega arith))
                (low_5 w (omega arith)) (middle_3 u hu) (omega arith) (omega arith)
              ∙ omega arith)))

  pub decode_4 : decode_step p4 (cb32 v ∷ cb32 w ∷ r) ≡ some (v % 8 * 32 + w, r, p0)
  unfolding decode_step
  decode_4 =
      rw (cb32-ne-zero v hv, cb32-ne-zero w hw, rev32-cb32 v hv, rev32-cb32 w hw)
        (ap (λ b. some (b, r, p0))
          (join_fields 5 (low_3 v (omega arith)) (low_5 w (omega arith)) (omega arith)
            ∙ omega arith))
