-- ===== src/Dns/Numbers.antt =====
-- Numbers and data in DNS messages: read.c. A writer gives the bytes that it stores at `*dst`; a
-- reader takes the bytes from `*src` on and gives the value with the bytes behind it. The callers
-- see to it that the bytes are there.
mod Tests
use andiodine.Common.{
  ℕ, ◌^◌, ◌+◌, ◌*◌, ◌/◌, ◌%◌, ◌<◌, ◌≤◌, ◌≡◌, refl, sym, ap, ap₂, ◌∙◌, arith, bit_or,
}
use andiodine.Common.{List, [], ◌∷◌, ◌++◌, length, take, drop, get_or, take-append, All}
use andiodine.Common.Bits.{shl, shr, IsByte}
use andiodine.Common.Fields.{bit_or_below}

-- A store to an `unsigned char`.
abbrev to_byte : ℕ → ℕ
to_byte v = v % 256

unfoldable pub putbyte : ℕ → List ℕ
putbyte value = to_byte value ∷ []

unfoldable pub putshort : ℕ → List ℕ
putshort value = to_byte (shr value 8) ∷ to_byte value ∷ []

unfoldable pub putlong : ℕ → List ℕ
putlong value =
    to_byte (shr value 24) ∷ to_byte (shr value 16) ∷ to_byte (shr value 8) ∷ to_byte value ∷ []

-- `data` is the `len` bytes.
unfoldable pub putdata : List ℕ → (len : ℕ) → List ℕ
putdata bytes len = take len bytes

unfoldable pub readshort : List ℕ → ℕ × List ℕ
readshort src = (bit_or (shl (get_or src 0 0) 8) (get_or src 1 0), drop 2 src)

unfoldable pub readlong : List ℕ → ℕ × List ℕ
readlong src = (
  bit_or
      (bit_or (bit_or (shl (get_or src 0 0) 24) (shl (get_or src 1 0) 16)) (shl (get_or src 2 0) 8))
      (get_or src 3 0),
  drop 4 src,
)

unfoldable pub readdata : List ℕ → (len : ℕ) → List ℕ × List ℕ
readdata src len = (take len src, drop len src)

-- A short that is written is read back, whatever follows it.
pub readshort-putshort :
    (value : ℕ) (rest : List ℕ)
    → value < 2 ^ 16
    → readshort (putshort value ++ rest) ≡ (value, rest)
unfolding readshort putshort
readshort-putshort value rest h =
    ap (λ (v : ℕ). (v, rest))
      (bit_or_below 8 (value / 256 % 256) (value % 256) (omega arith) ∙ omega arith)

-- A number below 2^32 that putlong writes is read back by readlong, which stops behind it.
pub readlong-putlong :
    (value : ℕ) (rest : List ℕ) → value < 2 ^ 32 → readlong (putlong value ++ rest) ≡ (value, rest)
unfolding readlong putlong
readlong-putlong value rest h =
    let b = value / 2 ^ 24 % 256 in
    let c = value / 2 ^ 16 % 256 in
    let d = value / 256 % 256 in
    let e = value % 256 in
    let top : bit_or (shl b 24) (shl c 16) ≡ shl (b * 256 + c) 16 =
      bit_or_below 24 b (shl c 16) (omega arith) ∙ omega arith in
    let middle : bit_or (shl (b * 256 + c) 16) (shl d 8) ≡ shl (b * 65536 + c * 256 + d) 8 =
      bit_or_below 16 (b * 256 + c) (shl d 8) (omega arith) ∙ omega arith in
    ap (λ (v : ℕ). (v, rest))
      (ap (λ (v : ℕ). bit_or (bit_or v (shl d 8)) e) top
        ∙ ap (λ (v : ℕ). bit_or v e) middle
        ∙ bit_or_below 8 (b * 65536 + c * 256 + d) e (omega arith)
        ∙ omega arith)
