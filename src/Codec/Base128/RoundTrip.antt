-- ===== src/Codec/Base128/RoundTrip.antt =====
-- base128: what was encoded decodes to the data that the encoder used up.
use andiodine.Common.{ℕ, ◌+◌, ◌*◌, ◌/◌, ◌%◌, ◌≤◌, ◌<◌, ◌≡◌, refl, ap, ◌∙◌, arith}
use andiodine.Common.{none, some}
use andiodine.Common.{List, [], ◌∷◌, ◌++◌, length, All}
use andiodine.Common.Bits.{IsByte, join_fields}
use andiodine.Common.Bits.{high_1, high_2, high_3, high_4, high_5, high_6, high_7}
use andiodine.Common.Bits.{low_1, low_2, low_3, low_4, low_5, low_6, low_7}
use andiodine.Codec.{Phase, p0, p1, p2, p3, p4, p5, p6, p7}
use andiodine.Codec.{encode_stop, next_or_zero}
use andiodine.Codec.Sync.{Points, Round, InStep, waits, finds, recovers}
use andiodine.Codec.Base128.{cb128, encode_step, useless, encode, decode_pair, decode_step}
use andiodine.Codec.Base128.{decode}
use andiodine.Codec.Base128.Bits.{rev128-cb128, cb128-ne-zero}
use andiodine.Codec.Base128.Bits.{middle_1, middle_2, middle_3, middle_4, middle_5, middle_6}

-- The seven bits that a phase writes, of the byte `x` and the next byte `y`.
abbrev value : Phase → ℕ → ℕ → ℕ
value p0 x y = x / 2
value p1 x y = x % 2 * 64 + y / 4
value p2 x y = x % 4 * 32 + y / 8
value p3 x y = x % 8 * 16 + y / 16
value p4 x y = x % 16 * 8 + y / 32
value p5 x y = x % 32 * 4 + y / 64
value p6 x y = x % 64 * 2 + y / 128
value p7 x y = x % 128

abbrev after : Phase → Phase
after p0 = p1
after p1 = p2
after p2 = p3
after p3 = p4
after p4 = p5
after p5 = p6
after p6 = p7
after p7 = p0

-- What the decoder's phase leaves of the second char `c`, and the phase that follows.
abbrev after_last : Phase → ℕ → List ℕ → List ℕ
after_last p6 c r = r
after_last _ c r = c ∷ r

abbrev after_byte : Phase → Phase
after_byte p6 = p0
after_byte ph = after ph

value-lt : (ph : Phase) (x y : ℕ) → IsByte x → IsByte y → value ph x y < 128
value-lt p0 x y hx hy = omega arith
value-lt p1 x y hx hy = omega arith
value-lt p2 x y hx hy = omega arith
value-lt p3 x y hx hy = omega arith
value-lt p4 x y hx hy = omega arith
value-lt p5 x y hx hy = omega arith
value-lt p6 x y hx hy = omega arith
value-lt p7 x y hx hy = omega arith

next_or_zero-IsByte : (xs : List ℕ) → All IsByte xs → IsByte (next_or_zero xs)
next_or_zero-IsByte [] h = omega arith
next_or_zero-IsByte (x ∷ xs) h = h.0

-- What is known of the seven bits `v` in front of the decoder when byte `x` comes next.
abbrev Carries : Phase → ℕ → ℕ → Type 0
Carries p0 v x = v ≡ x / 2
Carries p1 v x = v % 64 ≡ x / 4
Carries p2 v x = v % 32 ≡ x / 8
Carries p3 v x = v % 16 ≡ x / 16
Carries p4 v x = v % 8 ≡ x / 32
Carries p5 v x = v % 4 ≡ x / 64
Carries p6 v x = v % 2 ≡ x / 128
Carries p7 v x = ⊥

module _ (x : ℕ) (xs : List ℕ) (hx : IsByte x) (hy : IsByte (next_or_zero xs)) where
  first_step : encode_step p0 x xs ≡ (cb128 (value p0 x (next_or_zero xs)), x ∷ xs, p1)
  unfolding encode_step
  first_step = rw (high_1 x hx)

  step_value :
      (ph : Phase) (v : ℕ)
      → Carries ph v x
      → encode_step (after ph) x xs
        ≡ (cb128 (value (after ph) x (next_or_zero xs)), xs, after (after ph))
  unfolding encode_step
  step_value p0 v c =
      ap (λ v. (cb128 v, xs, p2))
        (join_fields 6 (low_1 x hx) (high_2 (next_or_zero xs) hy) (omega arith))
  step_value p1 v c =
      ap (λ v. (cb128 v, xs, p3))
        (join_fields 5 (low_2 x hx) (high_3 (next_or_zero xs) hy) (omega arith))
  step_value p2 v c =
      ap (λ v. (cb128 v, xs, p4))
        (join_fields 4 (low_3 x hx) (high_4 (next_or_zero xs) hy) (omega arith))
  step_value p3 v c =
      ap (λ v. (cb128 v, xs, p5))
        (join_fields 3 (low_4 x hx) (high_5 (next_or_zero xs) hy) (omega arith))
  step_value p4 v c =
      ap (λ v. (cb128 v, xs, p6))
        (join_fields 2 (low_5 x hx) (high_6 (next_or_zero xs) hy) (omega arith))
  step_value p5 v c =
      ap (λ v. (cb128 v, xs, p7))
        (join_fields 1 (low_6 x hx) (high_7 (next_or_zero xs) hy) (omega arith))
  step_value p6 v c = rw (low_7 x hx)
  step_value p7 v c = elim c [ ]

-- The guard passes on two chars of the alphabet.
decode_step_pair :
    (ph : Phase) (v w : ℕ) (r : List ℕ)
    → v < 128
    → w < 128
    → decode_step ph (cb128 v ∷ cb128 w ∷ r) ≡ some (decode_pair ph (cb128 v) (cb128 w) r)
unfolding decode_step
decode_step_pair ph v w r hv hw = rw (cb128-ne-zero v hv, cb128-ne-zero w hw)

module _ (x y v : ℕ) (r : List ℕ) (hx : IsByte x) (hy : IsByte y) (hv : v < 128) where
  -- The decoder, with `v` in front, finds the byte that the encoder was given.
  decode_value :
      (ph : Phase)
      → Carries ph v x
      → let c = cb128 (value (after ph) x y) in
        decode_pair ph (cb128 v) c r ≡ (x, after_last ph c r, after_byte ph)
  unfolding decode_pair
  decode_value p0 c =
      rw (rev128-cb128 v hv, rev128-cb128 _ (value-lt p1 x y hx hy))
        (ap (λ b. (b, cb128 (value p1 x y) ∷ r, p1))
          (join_fields 1 (low_7 v (omega arith)) (middle_6 _ (value-lt p1 x y hx hy)) (omega arith)
            ∙ omega arith))
  decode_value p1 c =
      rw (rev128-cb128 v hv, rev128-cb128 _ (value-lt p2 x y hx hy))
        (ap (λ b. (b, cb128 (value p2 x y) ∷ r, p2))
          (join_fields 2 (low_6 v (omega arith)) (middle_5 _ (value-lt p2 x y hx hy)) (omega arith)
            ∙ omega arith))
  decode_value p2 c =
      rw (rev128-cb128 v hv, rev128-cb128 _ (value-lt p3 x y hx hy))
        (ap (λ b. (b, cb128 (value p3 x y) ∷ r, p3))
          (join_fields 3 (low_5 v (omega arith)) (middle_4 _ (value-lt p3 x y hx hy)) (omega arith)
            ∙ omega arith))
  decode_value p3 c =
      rw (rev128-cb128 v hv, rev128-cb128 _ (value-lt p4 x y hx hy))
        (ap (λ b. (b, cb128 (value p4 x y) ∷ r, p4))
          (join_fields 4 (low_4 v (omega arith)) (middle_3 _ (value-lt p4 x y hx hy)) (omega arith)
            ∙ omega arith))
  decode_value p4 c =
      rw (rev128-cb128 v hv, rev128-cb128 _ (value-lt p5 x y hx hy))
        (ap (λ b. (b, cb128 (value p5 x y) ∷ r, p5))
          (join_fields 5 (low_3 v (omega arith)) (middle_2 _ (value-lt p5 x y hx hy)) (omega arith)
            ∙ omega arith))
  decode_value p5 c =
      rw (rev128-cb128 v hv, rev128-cb128 _ (value-lt p6 x y hx hy))
        (ap (λ b. (b, cb128 (value p6 x y) ∷ r, p6))
          (join_fields 6 (low_2 v (omega arith)) (middle_1 _ (value-lt p6 x y hx hy)) (omega arith)
            ∙ omega arith))
  decode_value p6 c =
      rw (rev128-cb128 v hv, rev128-cb128 _ (value-lt p7 x y hx hy))
        (ap (λ b. (b, r, p0))
          (join_fields 7 (low_1 v (omega arith)) (low_7 (x % 128) (omega arith)) (omega arith)
            ∙ omega arith))
  decode_value p7 c = elim c [ ]

data Point : Type 0 where
  start : Point
  behind : Phase → ℕ → Point

abbrev enc : Point → Phase
enc start = p0
enc (behind ph v) = after ph

abbrev dec : Point → Phase
dec start = p0
dec (behind ph v) = ph

abbrev pending : Point → List ℕ
pending start = []
pending (behind ph v) = cb128 v ∷ []

abbrev Fits : Point → List ℕ → Type 0
Fits start rest = All IsByte rest
Fits (behind ph v) rest = (v < 128) × Carries ph v (next_or_zero rest) × All IsByte rest

-- Between two chars of a block the decoder is one char behind.
abbrev points : Points encode_step useless decode_step
points = record { Point = Point; enc = enc; dec = dec; pending = pending; Fits = Fits }

takes_pair :
    (ph : Phase) (x y v : ℕ) (r : List ℕ)
    → IsByte x
    → IsByte y
    → v < 128
    → Carries ph v x
    → let c = cb128 (value (after ph) x y) in
      decode_step ph (cb128 v ∷ c ∷ r) ≡ some (x, after_last ph c r, after_byte ph)
takes_pair ph x y v r hx hy hv c =
    decode_step_pair ph v _ r hv (value-lt (after ph) x y hx hy)
    ∙ ap some (decode_value x y v r hx hy hv ph c)

rounds :
    (q : Point) (x : ℕ) (xs : List ℕ)
    → Fits q (x ∷ xs)
    → Round encode_step useless decode_step points q x xs
unfolding useless
rounds start x xs (hx, hxs) =
    waits (cb128 (x / 2)) (behind p0 (x / 2)) (first_step x xs hx (next_or_zero-IsByte xs hxs)) refl
      refl (omega arith, refl, (hx, hxs))
rounds (behind p6 v) x xs (hv, c, (hx, hxs)) =
    let hy = next_or_zero-IsByte xs hxs in
    finds (cb128 (x % 128)) start (cb128 v ∷ cb128 (x % 128) ∷ []) (step_value x xs hx hy p6 v c)
      refl refl (λ r. takes_pair p6 x (next_or_zero xs) v r hx hy hv c) hxs
rounds (behind p7 v) x xs (hv, c, (hx, hxs)) = elim c [ ]
rounds (behind ph v) x xs (hv, c, (hx, hxs)) =
    let hy = next_or_zero-IsByte xs hxs in
    let w = value (after ph) x (next_or_zero xs) in
    finds (cb128 w) (behind (after ph) w) (cb128 v ∷ []) (step_value x xs hx hy ph v c) refl refl
      (λ r. takes_pair ph x (next_or_zero xs) v r hx hy hv c)
      (value-lt (after ph) x (next_or_zero xs) hx hy, omega arith, hxs)

stops :
    (q : Point) (rest : List ℕ)
    → Fits q rest
    → decode_step (dec q) (encode_stop encode_step useless (enc q) (pending q) rest).text ≡ none
unfolding decode_step encode_stop useless
stops start rest h = refl
stops (behind p0 v) rest h = refl
stops (behind ph v) rest h = refl

in_step : InStep encode_step useless decode_step points
in_step = record { stops = stops; rounds = rounds }

-- For every *buflen of base128_encode and a decoder with room for all of the data, the text
-- decodes to exactly the bytes that the encoder used up; with the bytes left over they make up
-- the data.
pub base128_decode-encode :
    (buflen R : ℕ) (bytes : List ℕ)
    → All IsByte bytes
    → length bytes ≤ R
    → decode R (encode buflen bytes).text ++ (encode buflen bytes).left ≡ bytes
unfolding decode encode
base128_decode-encode buflen R bytes h le =
    recovers encode_step useless decode_step points in_step buflen R start bytes le h
