-- ===== src/Codec/Base64/RoundTrip.antt =====
-- base64: what was encoded decodes to the data that the encoder used up.
use andiodine.Common.{ℕ, ◌+◌, ◌*◌, ◌/◌, ◌%◌, ◌≤◌, ◌<◌, ◌≡◌, refl, ap, ◌∙◌, arith}
use andiodine.Common.{none, some}
use andiodine.Common.{List, [], ◌∷◌, ◌++◌, length, All}
use andiodine.Common.Bits.{IsByte, join_fields}
use andiodine.Common.Bits.{high_2, high_4, high_6, low_2, low_4, low_6}
use andiodine.Codec.{Phase, p0, p1, p2, p3}
use andiodine.Codec.{encode_stop, next_or_zero}
use andiodine.Codec.Sync.{Points, Round, InStep, waits, finds, recovers}
use andiodine.Codec.Base64.{cb64, encode_step, useless, encode, decode_pair, decode_step}
use andiodine.Codec.Base64.{decode}
use andiodine.Codec.Base64.Bits.{rev64-cb64, cb64-ne-zero, middle_2, middle_4}

-- The six bits that a phase writes, of the byte `x` and the next byte `y`.
abbrev value : Phase → ℕ → ℕ → ℕ
value p0 x y = x / 4
value p1 x y = x % 4 * 16 + y / 16
value p2 x y = x % 16 * 4 + y / 64
value _ x y = x % 64

abbrev after : Phase → Phase
after p0 = p1
after p1 = p2
after p2 = p3
after _ = p0

-- What the decoder's phase leaves of the second char `c`, and the phase that follows.
abbrev after_last : Phase → ℕ → List ℕ → List ℕ
after_last p2 c r = r
after_last _ c r = c ∷ r

abbrev after_byte : Phase → Phase
after_byte p2 = p0
after_byte ph = after ph

value-lt : (ph : Phase) (x y : ℕ) → IsByte x → IsByte y → value ph x y < 64
value-lt p0 x y hx hy = omega arith
value-lt p1 x y hx hy = omega arith
value-lt p2 x y hx hy = omega arith
value-lt ph x y hx hy = omega arith

next_or_zero-IsByte : (xs : List ℕ) → All IsByte xs → IsByte (next_or_zero xs)
next_or_zero-IsByte [] h = omega arith
next_or_zero-IsByte (x ∷ xs) h = h.0

-- What is known of the six bits `v` in front of the decoder when byte `x` comes next.
abbrev Carries : Phase → ℕ → ℕ → Type 0
Carries p0 v x = v ≡ x / 4
Carries p1 v x = v % 16 ≡ x / 16
Carries p2 v x = v % 4 ≡ x / 64
Carries _ v x = ⊥

module _ (x : ℕ) (xs : List ℕ) (hx : IsByte x) (hy : IsByte (next_or_zero xs)) where
  first_step : encode_step p0 x xs ≡ (cb64 (value p0 x (next_or_zero xs)), x ∷ xs, p1)
  unfolding encode_step
  first_step = rw (high_2 x hx)

  step_value :
      (ph : Phase) (v : ℕ)
      → Carries ph v x
      → encode_step (after ph) x xs
        ≡ (cb64 (value (after ph) x (next_or_zero xs)), xs, after (after ph))
  unfolding encode_step
  step_value p0 v c =
      ap (λ w. (cb64 w, xs, p2))
        (join_fields 4 (low_2 x hx) (high_4 (next_or_zero xs) hy) (omega arith))
  step_value p1 v c =
      ap (λ w. (cb64 w, xs, p3))
        (join_fields 2 (low_4 x hx) (high_6 (next_or_zero xs) hy) (omega arith))
  step_value p2 v c = rw (low_6 x hx)
  step_value _ v c = elim c [ ]

-- The guard passes on two chars of the alphabet.
decode_step_pair :
    (ph : Phase) (v w : ℕ) (r : List ℕ)
    → v < 64
    → w < 64
    → decode_step ph (cb64 v ∷ cb64 w ∷ r) ≡ some (decode_pair ph (cb64 v) (cb64 w) r)
unfolding decode_step
decode_step_pair ph v w r hv hw = rw (cb64-ne-zero v hv, cb64-ne-zero w hw)

module _ (x y v : ℕ) (r : List ℕ) (hx : IsByte x) (hy : IsByte y) (hv : v < 64) where
  -- The decoder, with `v` in front, finds the byte that the encoder was given.
  decode_value :
      (ph : Phase)
      → Carries ph v x
      → let c = cb64 (value (after ph) x y) in
        decode_pair ph (cb64 v) c r ≡ (x, after_last ph c r, after_byte ph)
  unfolding decode_pair
  decode_value p0 c =
      rw (rev64-cb64 v hv, rev64-cb64 _ (value-lt p1 x y hx hy))
        (ap (λ b. (b, cb64 (value p1 x y) ∷ r, p1))
          (join_fields 2 (low_6 v (omega arith)) (middle_4 _ (value-lt p1 x y hx hy)) (omega arith)
            ∙ omega arith))
  decode_value p1 c =
      rw (rev64-cb64 v hv, rev64-cb64 _ (value-lt p2 x y hx hy))
        (ap (λ b. (b, cb64 (value p2 x y) ∷ r, p2))
          (join_fields 4 (low_4 v (omega arith)) (middle_2 _ (value-lt p2 x y hx hy)) (omega arith)
            ∙ omega arith))
  decode_value p2 c =
      rw (rev64-cb64 v hv, rev64-cb64 _ (value-lt p3 x y hx hy))
        (ap (λ b. (b, r, p0))
          (join_fields 6 (low_2 v (omega arith)) (low_6 (x % 64) (omega arith)) (omega arith)
            ∙ omega arith))
  decode_value _ c = elim c [ ]

data Point : Type 0 where
  start : Point
  behind : Phase → ℕ → Point

abbrev enc : Point → Phase
enc start = p0
enc (behind ph v) = after ph

abbrev dec : Point → Phase
dec start = p0
dec (behind ph v) = ph

abbrev pending : Point → List ℕ
pending start = []
pending (behind ph v) = cb64 v ∷ []

abbrev Fits : Point → List ℕ → Type 0
Fits start rest = All IsByte rest
Fits (behind ph v) rest = (v < 64) × Carries ph v (next_or_zero rest) × All IsByte rest

-- Between two chars of a block the decoder is one char behind.
abbrev points : Points encode_step useless decode_step
points = record { Point = Point; enc = enc; dec = dec; pending = pending; Fits = Fits }

takes_pair :
    (ph : Phase) (x y v : ℕ) (r : List ℕ)
    → IsByte x
    → IsByte y
    → v < 64
    → Carries ph v x
    → let c = cb64 (value (after ph) x y) in
      decode_step ph (cb64 v ∷ c ∷ r) ≡ some (x, after_last ph c r, after_byte ph)
takes_pair ph x y v r hx hy hv c =
    decode_step_pair ph v _ r hv (value-lt (after ph) x y hx hy)
    ∙ ap some (decode_value x y v r hx hy hv ph c)

rounds :
    (q : Point) (x : ℕ) (xs : List ℕ)
    → Fits q (x ∷ xs)
    → Round encode_step useless decode_step points q x xs
unfolding useless
rounds start x xs (hx, hxs) =
    waits (cb64 (x / 4)) (behind p0 (x / 4)) (first_step x xs hx (next_or_zero-IsByte xs hxs)) refl
      refl (omega arith, refl, (hx, hxs))
rounds (behind p2 v) x xs (hv, c, (hx, hxs)) =
    let hy = next_or_zero-IsByte xs hxs in
    finds (cb64 (x % 64)) start (cb64 v ∷ cb64 (x % 64) ∷ []) (step_value x xs hx hy p2 v c) refl
      refl (λ r. takes_pair p2 x (next_or_zero xs) v r hx hy hv c) hxs
rounds (behind p0 v) x xs (hv, c, (hx, hxs)) =
    let hy = next_or_zero-IsByte xs hxs in
    let w = value p1 x (next_or_zero xs) in
    finds (cb64 w) (behind p1 w) (cb64 v ∷ []) (step_value x xs hx hy p0 v c) refl refl
      (λ r. takes_pair p0 x (next_or_zero xs) v r hx hy hv c)
      (value-lt p1 x (next_or_zero xs) hx hy, omega arith, hxs)
rounds (behind p1 v) x xs (hv, c, (hx, hxs)) =
    let hy = next_or_zero-IsByte xs hxs in
    let w = value p2 x (next_or_zero xs) in
    finds (cb64 w) (behind p2 w) (cb64 v ∷ []) (step_value x xs hx hy p1 v c) refl refl
      (λ r. takes_pair p1 x (next_or_zero xs) v r hx hy hv c)
      (value-lt p2 x (next_or_zero xs) hx hy, omega arith, hxs)
rounds (behind ph v) x xs (hv, c, (hx, hxs)) = elim c [ ]

stops :
    (q : Point) (rest : List ℕ)
    → Fits q rest
    → decode_step (dec q) (encode_stop encode_step useless (enc q) (pending q) rest).text ≡ none
unfolding decode_step encode_stop useless
stops start rest h = refl
stops (behind p0 v) rest h = refl
stops (behind ph v) rest h = refl

in_step : InStep encode_step useless decode_step points
in_step = record { stops = stops; rounds = rounds }

-- For every *buflen of base64_encode and a decoder with room for all of the data, the text
-- decodes to exactly the bytes that the encoder used up; with the bytes left over they make up
-- the data.
pub base64_decode-encode :
    (buflen R : ℕ) (bytes : List ℕ)
    → All IsByte bytes
    → length bytes ≤ R
    → decode R (encode buflen bytes).text ++ (encode buflen bytes).left ≡ bytes
unfolding decode encode
base64_decode-encode buflen R bytes h le =
    recovers encode_step useless decode_step points in_step buflen R start bytes le h
