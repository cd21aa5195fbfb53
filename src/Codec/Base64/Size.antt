-- ===== src/Codec/Base64/Size.antt =====
-- base64: how much of the data an output buffer holds, and how long the text is.
use andiodine.Common.{ℕ, ◌+◌, ◌*◌, ◌≤◌, ◌<◌, ◌≡◌, arith, true, false, List, [], length}
use andiodine.Codec.{Phase, p0, p1, p2}
use andiodine.Codec.Laws.{length-encode_loop}
use andiodine.Codec.Capacity.{Counts, uses_all, holds}
use andiodine.Codec.Base64.{encode_step, useless, encode}

-- The bits of the current byte that are written when a phase begins.
abbrev credit : Phase → ℕ
credit p0 = 0
credit p1 = 6
credit p2 = 4
credit _ = 2

pays :
    (ph : Phase) (x : ℕ) (xs : List ℕ)
    → 8 * length (encode_step ph x xs).1 + (6 + credit ph)
      ≡ 8 * (length xs + 1) + credit (encode_step ph x xs).2
unfolding encode_step
pays p0 x xs = omega arith
pays p1 x xs = omega arith
pays p2 x xs = omega arith
pays ph x xs = omega arith

shrinks : (ph : Phase) (x : ℕ) (xs : List ℕ) → length (encode_step ph x xs).1 ≤ length xs + 1
unfolding encode_step
shrinks p0 x xs = omega arith
shrinks p1 x xs = omega arith
shrinks p2 x xs = omega arith
shrinks ph x xs = omega arith

partial : (ph : Phase) → credit ph < 8
partial p0 = omega arith
partial p1 = omega arith
partial p2 = omega arith
partial ph = omega arith

keeps : (ph : Phase) → useless ph ≡ false → credit ph < 6
unfolding useless
keeps p0 u = ground arith
keeps p1 u = ground arith
keeps p2 u = ground arith
keeps ph u = ground arith

drops : (ph : Phase) → useless ph ≡ true → (6 ≤ credit ph) × (credit ph < 2 * 6)
unfolding useless
drops p0 u = ground arith
drops p1 u = ground arith
drops p2 u = ground arith
drops ph u = ground arith

counts : Counts encode_step useless 6 credit
counts = record {
  pays = λ ph x xs. omega (arith, pays ph x xs);
  shrinks = λ ph x xs. omega (arith, shrinks ph x xs);
  partial = partial;
  keeps = keeps;
  drops = drops;
}

-- If the data has no more bits than six for each of the *buflen chars, base64_encode uses all of
-- it.
pub base64_encode_all :
    (buflen : ℕ) (bytes : List ℕ) → 8 * length bytes ≤ 6 * buflen → (encode buflen bytes).left ≡ []
unfolding encode
base64_encode_all buflen bytes h =
    uses_all encode_step useless 6 credit counts (omega arith) buflen p0 [] bytes (omega arith)

-- The text never has more than `*buflen` chars, and has as few as hold the bits of the bytes used
-- up: six bits a char, and the last char begins before those bits end.
pub base64_encode-length :
    (buflen : ℕ) (bytes : List ℕ)
    → let e = encode buflen bytes in
      (length e.text ≤ buflen)
      × (8 * length bytes ≤ 6 * length e.text + 8 * length e.left)
      × (6 * length e.text + 8 * length e.left < 8 * length bytes + 6)
unfolding encode
base64_encode-length buflen bytes =
    let (lo, hi) =
      holds encode_step useless 6 credit counts (omega arith) buflen p0 [] bytes (length bytes)
        (omega arith) (omega arith) in
    (omega (arith, length-encode_loop encode_step useless buflen p0 [] bytes), lo, hi)
