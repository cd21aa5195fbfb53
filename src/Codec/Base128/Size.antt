-- ===== src/Codec/Base128/Size.antt =====
-- base128: how much of the data an output buffer holds, and how long the text is.
use andiodine.Common.{ℕ, ◌+◌, ◌*◌, ◌≤◌, ◌<◌, ◌≡◌, arith, true, false, List, [], length}
use andiodine.Codec.{Phase, p0, p1, p2, p3, p4, p5, p6, p7}
use andiodine.Codec.Laws.{length-encode_loop}
use andiodine.Codec.Capacity.{Counts, uses_all, holds}
use andiodine.Codec.Base128.{encode_step, useless, encode}

-- The bits of the current byte that are written when a phase begins.
abbrev credit : Phase → ℕ
credit p0 = 0
credit p1 = 7
credit p2 = 6
credit p3 = 5
credit p4 = 4
credit p5 = 3
credit p6 = 2
credit p7 = 1

pays :
    (ph : Phase) (x : ℕ) (xs : List ℕ)
    → 8 * length (encode_step ph x xs).1 + (7 + credit ph)
      ≡ 8 * (length xs + 1) + credit (encode_step ph x xs).2
unfolding encode_step
pays p0 x xs = omega arith
pays p1 x xs = omega arith
pays p2 x xs = omega arith
pays p3 x xs = omega arith
pays p4 x xs = omega arith
pays p5 x xs = omega arith
pays p6 x xs = omega arith
pays p7 x xs = omega arith

shrinks : (ph : Phase) (x : ℕ) (xs : List ℕ) → length (encode_step ph x xs).1 ≤ length xs + 1
unfolding encode_step
shrinks p0 x xs = omega arith
shrinks p1 x xs = omega arith
shrinks p2 x xs = omega arith
shrinks p3 x xs = omega arith
shrinks p4 x xs = omega arith
shrinks p5 x xs = omega arith
shrinks p6 x xs = omega arith
shrinks p7 x xs = omega arith

partial : (ph : Phase) → credit ph < 8
partial p0 = omega arith
partial p1 = omega arith
partial p2 = omega arith
partial p3 = omega arith
partial p4 = omega arith
partial p5 = omega arith
partial p6 = omega arith
partial p7 = omega arith

keeps : (ph : Phase) → useless ph ≡ false → credit ph < 7
unfolding useless
keeps p0 u = ground arith
keeps p1 u = ground arith
keeps p2 u = ground arith
keeps p3 u = ground arith
keeps p4 u = ground arith
keeps p5 u = ground arith
keeps p6 u = ground arith
keeps p7 u = ground arith

drops : (ph : Phase) → useless ph ≡ true → (7 ≤ credit ph) × (credit ph < 2 * 7)
unfolding useless
drops p0 u = ground arith
drops p1 u = ground arith
drops p2 u = ground arith
drops p3 u = ground arith
drops p4 u = ground arith
drops p5 u = ground arith
drops p6 u = ground arith
drops p7 u = ground arith

counts : Counts encode_step useless 7 credit
counts = record {
  pays = λ ph x xs. omega (arith, pays ph x xs);
  shrinks = λ ph x xs. omega (arith, shrinks ph x xs);
  partial = partial;
  keeps = keeps;
  drops = drops;
}

-- If the data has no more bits than seven for each of the *buflen chars, base128_encode uses all
-- of it.
pub base128_encode_all :
    (buflen : ℕ) (bytes : List ℕ) → 8 * length bytes ≤ 7 * buflen → (encode buflen bytes).left ≡ []
unfolding encode
base128_encode_all buflen bytes h =
    uses_all encode_step useless 7 credit counts (omega arith) buflen p0 [] bytes (omega arith)

-- The text never has more than `*buflen` chars, and has as few as hold the bits of the bytes used
-- up: seven bits a char, and the last char begins before those bits end.
pub base128_encode-length :
    (buflen : ℕ) (bytes : List ℕ)
    → let e = encode buflen bytes in
      (length e.text ≤ buflen)
      × (8 * length bytes ≤ 7 * length e.text + 8 * length e.left)
      × (7 * length e.text + 8 * length e.left < 8 * length bytes + 7)
unfolding encode
base128_encode-length buflen bytes =
    let (lo, hi) =
      holds encode_step useless 7 credit counts (omega arith) buflen p0 [] bytes (length bytes)
        (omega arith) (omega arith) in
    (omega (arith, length-encode_loop encode_step useless buflen p0 [] bytes), lo, hi)
