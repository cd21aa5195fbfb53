-- ===== src/Hostname/Dotify.antt =====
-- `inline_dotify` puts a dot behind every 57 chars, working from the end of the text in its buffer.
use andiodine.Common.{
  ℕ, zero, suc, ◌+◌, ◌-◌, ◌/◌, ◌%◌, ◌≤◌, ◌≡◌, ◌≢◌, refl, ap, ap₂, sym, ◌∙◌, arith,
}
use andiodine.Common.{Bool, true, false, ltb, ◌==◌, if◌then◌else◌, Bool-cases, inl, inr, All}
use andiodine.Common.{
  List, [], ◌∷◌, ◌++◌, length, get_or, set, length-append, take, drop, take-append-drop,
  length-take_of_le,
}
use andiodine.Common.Reversed.{
  onto, onto-append, get_or-onto, set-onto, length-onto, onto-onto_nil, All-onto,
}
use andiodine.Codec.Text.{IsText}
use andiodine.Hostname.WithDots.{c_string-with_dots, dot_behind, with_dots, with_dots-few}
use andiodine.Hostname.{dotify_loop, inline_dotify, c_string}

-- A write to the last place of the gap.
write_gap :
    (front gap back : List ℕ) (z v w : ℕ)
    → w ≡ length gap + length front
    → set (onto front (onto (z ∷ gap) back)) w v ≡ onto front (onto gap (v ∷ back))
write_gap front gap back z v w e =
    let at : w ≡ length (gap ++ front) = omega (arith, length-append gap front) in
    ap₂ (λ buf (i : ℕ). set buf i v) (sym (onto-append gap front (z ∷ back))) at
    ∙ set-onto (gap ++ front) z v back
    ∙ onto-append gap front (v ∷ back)

-- How far the loop is: `front` is not yet moved, and `gap` is for the dots still to be placed.
record At (front gap : List ℕ) (fuel writer reader pos dots : ℕ) : Type 0 where
  fuel_is : fuel ≡ length front
  pos_is : pos ≡ length front
  reader_is : reader ≡ pos - 1
  writer_is : writer ≡ reader + dots
  gap_is : dots ≡ length gap
  dots_is : dots ≡ (pos - 1) / 57

-- One char is moved to the end of the gap.
move_char :
    (front gap back : List ℕ) (c g writer reader : ℕ)
    → reader ≡ length front
    → writer ≡ reader + length (g ∷ gap)
    → let buf = onto (c ∷ front) (onto (g ∷ gap) back) in
      set buf writer (get_or buf reader 0) ≡ onto front (onto (gap ++ (c ∷ [])) (c ∷ back))
move_char front gap back c g writer reader er ew =
    let buf = onto (c ∷ front) (onto (g ∷ gap) back) in
    let read : get_or buf reader 0 ≡ c =
      ap (λ (k : ℕ). get_or buf k 0) er ∙ get_or-onto front c (onto (g ∷ gap) back) 0 in
    ap (set buf writer) read
    ∙ write_gap (c ∷ front) gap back g c writer (omega arith)
    ∙ ap (onto front) (sym (onto-append gap (c ∷ []) (c ∷ back)))

-- The gap with a char at its end begins somewhere.
gap-cases :
    (gap : List ℕ) (c : ℕ)
    → (z : ℕ) × (gap' : List ℕ) × (gap ++ (c ∷ []) ≡ z ∷ gap') × (length gap' ≡ length gap)
gap-cases [] c = (c, [], refl, refl)
gap-cases (g ∷ gap) c = (g, gap ++ (c ∷ []), refl, omega (arith, length-append gap (c ∷ [])))

dotify_loop-with_dots :
    (front gap back : List ℕ) (fuel writer reader pos dots : ℕ)
    → At front gap fuel writer reader pos dots
    → dotify_loop fuel (onto front (onto gap back)) writer reader pos dots ≡ with_dots front back
unfolding dotify_loop
dotify_loop-with_dots [] [] back zero w r p d v = refl
dotify_loop-with_dots [] (g ∷ gap) back zero w r p d v =
    absurd (omega (arith, v.gap_is, v.dots_is, v.pos_is))
dotify_loop-with_dots [] gap back (suc fuel) w r p d v = absurd (omega (arith, v.fuel_is))
dotify_loop-with_dots (c ∷ front) gap back zero w r p d v = absurd (omega (arith, v.fuel_is))
dotify_loop-with_dots (c ∷ front) [] back (suc fuel) w r p d v =
    let none' : (d == 0) ≡ true = ground (arith, v.gap_is) in
    rw none' (sym (with_dots-few (c ∷ front) back (omega (arith, v.gap_is, v.dots_is, v.pos_is))))
dotify_loop-with_dots (c ∷ front) (g ∷ gap) back (suc fuel) w r p d v =
    let some' : (d == 0) ≡ false = ground (arith, v.gap_is) in
    let moved =
      move_char front gap back c g w r (omega (arith, v.pos_is, v.reader_is))
        (omega (arith, v.writer_is, v.gap_is)) in
    elim (Bool-cases ((p - 1) % 57 == 0)) [
      | inl here ↦
          let (z, gap', split, same) = gap-cases gap c in
          let dot : dot_behind (length front) ≡ true =
            ground (arith, v.gap_is, v.dots_is, v.pos_is) in
          let exact : (p - 1) % 57 ≡ 0 = ground (arith, here) in
          rw (some', here, moved, split, dot)
            (ap (λ buf. dotify_loop fuel buf (w - 2) (r - 1) (p - 1) (d - 1))
                (write_gap front gap' (c ∷ back) z b'.' (w - 1)
                  (omega (arith, v.pos_is, v.reader_is, v.writer_is, v.gap_is)))
              ∙ dotify_loop-with_dots front gap' (b'.' ∷ c ∷ back) fuel (w - 2) (r - 1) (p - 1)
                  (d - 1)
                  (record {
                    fuel_is = omega (arith, v.fuel_is);
                    pos_is = omega (arith, v.pos_is);
                    reader_is = omega (arith, v.reader_is);
                    writer_is =
                        omega (arith, v.writer_is, v.reader_is, v.pos_is, v.dots_is, v.gap_is);
                    gap_is = omega (arith, v.gap_is, same);
                    dots_is = omega (arith, v.dots_is, v.pos_is, exact);
                  }))
      | inr not_here ↦
          let dot : dot_behind (length front) ≡ false = ground (arith, v.pos_is) in
          let exact : (p - 1) % 57 ≢ 0 = ground (arith, not_here) in
          rw (some', not_here, moved, dot)
            (dotify_loop-with_dots front (gap ++ (c ∷ [])) (c ∷ back) fuel (w - 1) (r - 1) (p - 1) d
              (record {
                fuel_is = omega (arith, v.fuel_is);
                pos_is = omega (arith, v.pos_is);
                reader_is = omega (arith, v.reader_is);
                writer_is = omega (arith, v.writer_is, v.reader_is, v.pos_is, v.dots_is, v.gap_is);
                gap_is = omega (arith, v.gap_is, length-append gap (c ∷ []));
                dots_is = omega (arith, v.dots_is, v.pos_is, exact);
              }))
    ]

-- The text with a dot behind every 57 chars, at the end too.
unfoldable pub dotted : List ℕ → List ℕ
dotted text = with_dots (onto text []) (if dot_behind (length text) then b'.' ∷ [] else [])

c_string-append : (text rest : List ℕ) → All IsText text → c_string (text ++ (0 ∷ rest)) ≡ text
c_string-append [] rest h = refl
c_string-append (c ∷ text) rest (hc, h) =
    let e : (c == 0) ≡ false = ground (arith, hc) in rw (e, c_string-append text rest h) refl

c_string-end :
    (dot : Bool) (rest : List ℕ)
    → c_string (if dot then b'.' ∷ 0 ∷ rest else 0 ∷ rest) ≡ (if dot then b'.' ∷ [] else [])
c_string-end true rest = refl
c_string-end false rest = refl

-- When the dots fit, the buffer's string becomes the text with its dots.
pub c_string-inline_dotify :
    (text rest : List ℕ) (buflen : ℕ)
    → All IsText text
    → length text + length text / 57 ≤ buflen
    → length text / 57 ≤ length rest
    → c_string (inline_dotify (text ++ (0 ∷ rest)) buflen) ≡ dotted text
unfolding inline_dotify dotted
c_string-inline_dotify text rest buflen h hb hr =
    let total = length text in
    let d = total / 57 in
    let gap = onto (take d rest) [] in
    let back = drop d rest in
    let front = onto text [] in
    let fits : ltb buflen (total + d) ≡ false = ground (arith, hb) in
    let same : length front ≡ total = omega (arith, length-onto text []) in
    let buffer : text ++ (0 ∷ rest) ≡ onto (0 ∷ front) (onto gap back) = sym (
      ap (onto (0 ∷ front)) (onto-onto_nil (take d rest) [] back ∙ take-append-drop d rest)
      ∙ onto-onto_nil text [] (0 ∷ rest)) in
    rw (c_string-append text rest h, fits)
      (ap
          (λ buf.
            c_string (
              dotify_loop (total + d - d + 1) buf (total + d) (total + d - d) (total + d - d + 1)
                d))
          buffer
        ∙ ap c_string (
            dotify_loop-with_dots (0 ∷ front) gap back (total + d - d + 1) (total + d)
              (total + d - d) (total + d - d + 1) d
              (record {
                fuel_is = omega (arith, same);
                pos_is = omega (arith, same);
                reader_is = omega arith;
                writer_is = omega arith;
                gap_is = omega (arith, length-onto (take d rest) [], length-take_of_le d rest hr);
                dots_is = omega arith;
              }))
        ∙ c_string-with_dots front (if dot_behind (length front) then b'.' ∷ 0 ∷ back else 0 ∷ back)
            (All-onto IsText text [] h tt)
        ∙ ap (with_dots front) (c_string-end (dot_behind (length front)) back)
        ∙ ap (λ (n : ℕ). with_dots front (if dot_behind n then b'.' ∷ [] else [])) same)
