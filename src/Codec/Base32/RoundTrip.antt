-- ===== src/Codec/Base32/RoundTrip.antt =====
-- base32: what was encoded decodes to the data that the encoder used up.
use andiodine.Common.{ℕ, ◌+◌, ◌*◌, ◌/◌, ◌%◌, ◌≤◌, ◌≡◌, refl, ap, ◌∙◌, arith, Option, none, some}
use andiodine.Common.{List, [], ◌∷◌, ◌++◌, length, All}
use andiodine.Common.Bits.{IsByte, join_fields, low_1, low_2, low_3, low_4, low_5}
use andiodine.Common.Bits.{high_3, high_4, high_5, high_6, high_7}
use andiodine.Codec.{Phase, p1, p2, p3, p4, p5, p6, p7, next_or_zero, encode_stop}
use andiodine.Codec.Sync.{Points, Round, InStep, waits, finds, recovers}
use andiodine.Codec.Base32.{cb32, encode_step, decode_step, useless, encode, decode}
use andiodine.Codec.Base32.Bits.{inner_1, inner_2}
use andiodine.Codec.Base32.Points.{Point, start, at1, at2, at3, at4, at5, at6, at7, Carries}
use andiodine.Codec.Base32.Points.{enc, dec, pending, decode_0, decode_1, decode_2, decode_3}
use andiodine.Codec.Base32.Points.{decode_4}

abbrev Fits : Point → List ℕ → Type 0
Fits q rest = Carries q (next_or_zero rest) × All IsByte rest

abbrev points : Points encode_step useless decode_step
points = record { Point = Point; enc = enc; dec = dec; pending = pending; Fits = Fits }

next_or_zero-IsByte : (xs : List ℕ) → All IsByte xs → IsByte (next_or_zero xs)
next_or_zero-IsByte [] h = omega arith
next_or_zero-IsByte (x ∷ xs) h = h.0

-- Five bits that end byte `x`, and begin byte `y` with its `k` high bits.
module _ (x : ℕ) (xs : List ℕ) (hx : IsByte x) (hxs : All IsByte xs) where
  abbrev y : ℕ
  y = next_or_zero xs

  ends_1 : encode_step p1 x xs ≡ (cb32 (x % 8 * 4 + y / 64), xs, p2)
  unfolding encode_step
  ends_1 =
      let hy = next_or_zero-IsByte xs hxs in
      ap (λ v. (cb32 v, xs, p2)) (join_fields 2 (low_3 x hx) (high_6 y hy) (omega arith))

  ends_3 : encode_step p3 x xs ≡ (cb32 (x % 2 * 16 + y / 16), xs, p4)
  unfolding encode_step
  ends_3 =
      let hy = next_or_zero-IsByte xs hxs in
      ap (λ v. (cb32 v, xs, p4)) (join_fields 4 (low_1 x hx) (high_4 y hy) (omega arith))

  ends_4 : encode_step p4 x xs ≡ (cb32 (x % 16 * 2 + y / 128), xs, p5)
  unfolding encode_step
  ends_4 =
      let hy = next_or_zero-IsByte xs hxs in
      ap (λ v. (cb32 v, xs, p5)) (join_fields 1 (low_4 x hx) (high_7 y hy) (omega arith))

  ends_6 : encode_step p6 x xs ≡ (cb32 (x % 4 * 8 + y / 32), xs, p7)
  unfolding encode_step
  ends_6 =
      let hy = next_or_zero-IsByte xs hxs in
      ap (λ v. (cb32 v, xs, p7)) (join_fields 3 (low_2 x hx) (high_5 y hy) (omega arith))

same_byte :
    {b x : ℕ} (rest : List ℕ) (ph : Phase)
    → b ≡ x
    → ◌≡◌ {A = Option (ℕ × List ℕ × Phase)} (some (b, rest, ph)) (some (x, rest, ph))
same_byte rest ph e = ap (λ t. some (t, rest, ph)) e

rounds :
    (q : Point) (x : ℕ) (xs : List ℕ)
    → Fits q (x ∷ xs)
    → Round encode_step useless decode_step points q x xs
unfolding useless encode_step
rounds start x xs (c, (hx, hxs)) =
    waits (cb32 (x / 8)) (at1 (x / 8)) (rw (high_3 x hx)) refl refl (omega arith, (hx, hxs))
rounds (at2 v) x xs ((hv, c), (hx, hxs)) =
    waits (cb32 (x / 2 % 32)) (at3 v (x / 2 % 32)) (rw (inner_1 x hx)) refl refl
      ((hv, c, refl), (hx, hxs))
rounds (at5 v) x xs ((hv, c), (hx, hxs)) =
    waits (cb32 (x / 4 % 32)) (at6 v (x / 4 % 32)) (rw (inner_2 x hx)) refl refl
      ((hv, c, refl), (hx, hxs))
rounds (at1 v) x xs ((hv, c), (hx, hxs)) =
    let y = next_or_zero xs in
    let hy = next_or_zero-IsByte xs hxs in
    let w = x % 8 * 4 + y / 64 in
    finds (cb32 w) (at2 w) (cb32 v ∷ []) (ends_1 x xs hx hxs) refl refl
      (λ r. decode_0 v w 0 r hv (omega arith) (omega arith) ∙ same_byte _ _ (omega arith))
      ((omega arith, omega arith), hxs)
rounds (at3 v w) x xs ((hv, c, e), (hx, hxs)) =
    let y = next_or_zero xs in
    let hy = next_or_zero-IsByte xs hxs in
    let u = x % 2 * 16 + y / 16 in
    finds (cb32 u) (at4 u) (cb32 v ∷ cb32 w ∷ []) (ends_3 x xs hx hxs) refl refl
      (λ r. decode_1 v w u r hv (omega arith) (omega arith) ∙ same_byte _ _ (omega arith))
      ((omega arith, omega arith), hxs)
rounds (at4 v) x xs ((hv, c), (hx, hxs)) =
    let y = next_or_zero xs in
    let hy = next_or_zero-IsByte xs hxs in
    let w = x % 16 * 2 + y / 128 in
    finds (cb32 w) (at5 w) (cb32 v ∷ []) (ends_4 x xs hx hxs) refl refl
      (λ r. decode_2 v w 0 r hv (omega arith) (omega arith) ∙ same_byte _ _ (omega arith))
      ((omega arith, omega arith), hxs)
rounds (at6 v w) x xs ((hv, c, e), (hx, hxs)) =
    let y = next_or_zero xs in
    let hy = next_or_zero-IsByte xs hxs in
    let u = x % 4 * 8 + y / 32 in
    finds (cb32 u) (at7 u) (cb32 v ∷ cb32 w ∷ []) (ends_6 x xs hx hxs) refl refl
      (λ r. decode_3 v w u r hv (omega arith) (omega arith) ∙ same_byte _ _ (omega arith))
      ((omega arith, omega arith), hxs)
rounds (at7 v) x xs ((hv, c), (hx, hxs)) =
    let w = x % 32 in
    finds (cb32 w) start (cb32 v ∷ cb32 w ∷ []) (rw (low_5 x hx)) refl refl
      (λ r. decode_4 v w 0 r hv (omega arith) (omega arith) ∙ same_byte _ _ (omega arith)) (tt, hxs)

stops :
    (q : Point) (rest : List ℕ)
    → Fits q rest
    → decode_step (dec q) (encode_stop encode_step useless (enc q) (pending q) rest).text ≡ none
unfolding decode_step encode_stop useless
stops start rest h = refl
stops (at1 v) rest h = refl
stops (at2 v) rest h = refl
stops (at3 v w) rest h = refl
stops (at4 v) rest h = refl
stops (at5 v) rest h = refl
stops (at6 v w) rest h = refl
stops (at7 v) rest h = refl

in_step : InStep encode_step useless decode_step points
in_step = record { stops = stops; rounds = rounds }

-- For every *buflen of base32_encode and a decoder with room for all of the data, the text
-- decodes to exactly the bytes that the encoder used up; with the bytes left over they make up
-- the data.
pub base32_decode-encode :
    (buflen R : ℕ) (bytes : List ℕ)
    → All IsByte bytes
    → length bytes ≤ R
    → decode R (encode buflen bytes).text ++ (encode buflen bytes).left ≡ bytes
unfolding decode encode
base32_decode-encode buflen R bytes h le =
    recovers encode_step useless decode_step points in_step buflen R start bytes le (tt, h)
