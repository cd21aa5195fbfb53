-- ===== src/Hostname/WithDots.antt =====
-- A text with a dot behind every 57 chars: what is in it, and how long it and its labels are.
use andiodine.Common.{ℕ, suc, ◌+◌, ◌-◌, ◌/◌, ◌%◌, ◌≤◌, ◌≡◌, refl, ap, ◌∙◌, arith}
use andiodine.Common.{Bool, true, false, ltb, ◌==◌, ◌&&◌, if◌then◌else◌, Bool-cases, inl, inr, All}
use andiodine.Common.{List, [], ◌∷◌, length}
use andiodine.Common.Reversed.{onto}
use andiodine.Common.{subst}
use andiodine.Codec.Text.{IsText}
use andiodine.Hostname.{c_string}

-- A dot belongs behind `n` chars.
abbrev pub dot_behind : ℕ → Bool
dot_behind n = if n == 0 then false else n % 57 == 0

-- The text before a position, reversed, and what comes behind it: with its dots.
abbrev pub with_dots : (front back : List ℕ) → List ℕ
with_dots [] back = back
with_dots (c ∷ front) back =
    with_dots front (if dot_behind (length front) then b'.' ∷ c ∷ back else c ∷ back)

-- Before the first 57 chars there is no dot to place.
pub with_dots-few :
    (front back : List ℕ) → length front ≤ 57 → with_dots front back ≡ onto front back
with_dots-few [] back h = refl
with_dots-few (c ∷ front) back h =
    let b : dot_behind (length front) ≡ false = ground arith in
    rw b (with_dots-few front (c ∷ back) (omega arith))

read_char :
    (c : ℕ) (back : List ℕ) (dot : Bool)
    → IsText c
    → c_string (if dot then b'.' ∷ c ∷ back else c ∷ back)
      ≡ (if dot then b'.' ∷ c ∷ c_string back else c ∷ c_string back)
read_char c back true h = let e : (c == 0) ≡ false = ground (arith, h) in rw e refl
read_char c back false h = let e : (c == 0) ≡ false = ground (arith, h) in rw e refl

-- The text of `front` is all read before the string ends.
pub c_string-with_dots :
    (front back : List ℕ)
    → All IsText front
    → c_string (with_dots front back) ≡ with_dots front (c_string back)
c_string-with_dots [] back h = refl
c_string-with_dots (c ∷ front) back (hc, h) =
    c_string-with_dots front (if dot_behind (length front) then b'.' ∷ c ∷ back else c ∷ back) h
    ∙ ap (with_dots front) (read_char c back (dot_behind (length front)) hc)

-- The text without its dots.
abbrev pub undots : List ℕ → List ℕ
undots [] = []
undots (c ∷ cs) = let rest = undots cs in if c == b'.' then rest else c ∷ rest

undots_char :
    (c : ℕ) (back : List ℕ) (dot : Bool)
    → IsText c
    → undots (if dot then b'.' ∷ c ∷ back else c ∷ back) ≡ c ∷ undots back
undots_char c back true h = let e : (c == b'.') ≡ false = ground (arith, h) in rw e refl
undots_char c back false h = let e : (c == b'.') ≡ false = ground (arith, h) in rw e refl

pub undots-with_dots :
    (front back : List ℕ)
    → All IsText front
    → undots (with_dots front back) ≡ onto front (undots back)
undots-with_dots [] back h = refl
undots-with_dots (c ∷ front) back (hc, h) =
    undots-with_dots front (if dot_behind (length front) then b'.' ∷ c ∷ back else c ∷ back) h
    ∙ ap (onto front) (undots_char c back (dot_behind (length front)) hc)

-- How many chars the label at a position can still take.
abbrev pub room : ℕ → ℕ
room n = if n == 0 then 57 else 56 - (n - 1) % 57

-- Every label has at most 57 chars, and the first one at most `r`.
abbrev pub labels_fit : (r : ℕ) → List ℕ → Bool
labels_fit r [] = true
labels_fit r (c ∷ cs) =
    let after = labels_fit 57 cs in
    let within = labels_fit (r - 1) cs in if c == b'.' then after else ltb 0 r && within

fits_char :
    (c : ℕ) (back : List ℕ) (n : ℕ)
    → IsText c
    → labels_fit (room (suc n)) back ≡ true
    → labels_fit (room n) (if dot_behind n then b'.' ∷ c ∷ back else c ∷ back) ≡ true
fits_char c back n h hb =
    let e : (c == b'.') ≡ false = ground (arith, h) in
    elim (Bool-cases (dot_behind n)) [
      | inl b ↦
          let full : room (suc n) ≡ 56 = ground (arith, b) in
          rw (b, e) (subst (λ (k : ℕ). labels_fit k back ≡ true) full hb)
      | inr b ↦
          let left : room (suc n) ≡ room n - 1 = ground (arith, b) in
          let place : ltb 0 (room n) ≡ true = ground (arith, b) in
          rw (b, e, place) (subst (λ (k : ℕ). labels_fit k back ≡ true) left hb)
    ]

pub labels_fit-with_dots :
    (front back : List ℕ)
    → All IsText front
    → labels_fit (room (length front)) back ≡ true
    → labels_fit 57 (with_dots front back) ≡ true
labels_fit-with_dots [] back h hb = hb
labels_fit-with_dots (c ∷ front) back (hc, h) hb =
    labels_fit-with_dots front (if dot_behind (length front) then b'.' ∷ c ∷ back else c ∷ back) h
      (fits_char c back (length front) hc hb)

length_char :
    (n c : ℕ) (back : List ℕ)
    → n + (n - 1) / 57 + length (if dot_behind n then b'.' ∷ c ∷ back else c ∷ back)
      ≡ suc n + (suc n - 1) / 57 + length back
length_char n c back = elim (Bool-cases (dot_behind n)) [
  | inl b ↦
      let counts : n + (n - 1) / 57 + 1 ≡ n + n / 57 = ground (arith, b) in
      rw b (omega (arith, counts))
  | inr b ↦ let counts : (n - 1) / 57 ≡ n / 57 = ground (arith, b) in rw b (omega (arith, counts))
]

pub length-with_dots :
    (front back : List ℕ)
    → length (with_dots front back) ≡ length front + (length front - 1) / 57 + length back
length-with_dots [] back = ground arith
length-with_dots (c ∷ front) back =
    length-with_dots front (if dot_behind (length front) then b'.' ∷ c ∷ back else c ∷ back)
    ∙ length_char (length front) c back
