-- ===== src/Hostname/Undotify.antt =====
-- `inline_undotify` moves the chars that are no dots to the front of the buffer.
use andiodine.Common.{ℕ, ◌+◌, ◌≡◌, refl, ap, sym, ◌∙◌, arith}
use andiodine.Common.{◌==◌, Bool-cases, inl, inr, List, [], ◌∷◌, ◌++◌, length}
use andiodine.Common.{get_or, set, take, length-append, append_assoc, subst}
use andiodine.Common.Reversed.{onto, get_or-onto_from, set-onto, take-onto}
use andiodine.Hostname.{undotify_loop, inline_undotify}
use andiodine.Hostname.WithDots.{undots}

get_or-behind :
    (gap : List ℕ) (c : ℕ) (rest : List ℕ) → get_or (gap ++ (c ∷ rest)) (length gap) 0 ≡ c
get_or-behind [] c rest = refl
get_or-behind (g ∷ gap) c rest = get_or-behind gap c rest

-- What the loop reads behind `front`, which is done, and the chars of `gap`, one per dot.
read_next :
    (front gap : List ℕ) (c : ℕ) (rest : List ℕ)
    → get_or (onto front (gap ++ (c ∷ rest))) (length front + length gap) 0 ≡ c
read_next front gap c rest =
    get_or-onto_from front (length gap) (gap ++ (c ∷ rest)) 0 ∙ get_or-behind gap c rest

-- A char that is kept goes behind `front`, and the gap moves on.
keep_char :
    (front gap : List ℕ) (c : ℕ) (rest : List ℕ)
    → (gap' : List ℕ) × (set (onto front (gap ++ (c ∷ rest))) (length front) c
        ≡ onto (c ∷ front) (gap' ++ rest))
      × (length gap' ≡ length gap)
keep_char front [] c rest = ([], set-onto front c c rest, refl)
keep_char front (g ∷ gap) c rest = (
  gap ++ (c ∷ []),
  set-onto front g c (gap ++ (c ∷ rest))
      ∙ ap (onto (c ∷ front)) (sym (append_assoc gap (c ∷ []) rest)),
  omega (arith, length-append gap (c ∷ [])),
)

-- What the loop has to leave of a text behind `front`, where it had counted `dots`.
abbrev Leaves : (front text : List ℕ) (dots : ℕ) → List ℕ × ℕ → Type 0
Leaves front text dots (buf, counted) =
    (take (length front + length (undots text)) buf ≡ onto front (undots text))
    × (counted + length (undots text) ≡ dots + length text)

-- The loop leaves the text without its dots at the front, and has counted the dots.
undotify_loop-undots :
    (front gap text rest : List ℕ) (writer reader dots : ℕ)
    → writer ≡ length front
    → reader ≡ length front + length gap
    → dots ≡ length gap
    → Leaves front text dots
        (undotify_loop (length text) (onto front (gap ++ (text ++ rest))) writer reader dots)
unfolding undotify_loop
undotify_loop-undots front gap [] rest w r d ew er ed = (
  ap (λ (n : ℕ). take n (onto front (gap ++ rest))) (omega arith) ∙ take-onto front (gap ++ rest),
  omega arith,
)
undotify_loop-undots front gap (c ∷ text) rest w r d ew er ed =
    let buf = onto front (gap ++ (c ∷ (text ++ rest))) in
    let read : get_or buf r 0 ≡ c =
      ap (λ (n : ℕ). get_or buf n 0) er ∙ read_next front gap c (text ++ rest) in
    elim (Bool-cases (c == b'.')) [
      | inl dot ↦
          rw (read, dot)
            (let (taken, counts) =
                subst
                  (λ buf.
                    Leaves front text (d + 1) (undotify_loop (length text) buf w (r + 1) (d + 1)))
                  (ap (onto front) (append_assoc gap (c ∷ []) (text ++ rest)))
                  (undotify_loop-undots front (gap ++ (c ∷ [])) text rest w (r + 1) (d + 1) ew
                    (omega (arith, er, length-append gap (c ∷ [])))
                    (omega (arith, ed, length-append gap (c ∷ [])))) in
              (taken, omega (arith, counts)))
      | inr plain ↦
          rw (read, plain)
            (let (gap', written, same) = keep_char front gap c (text ++ rest) in
              let there : set buf w c ≡ onto (c ∷ front) (gap' ++ (text ++ rest)) =
                ap (λ (n : ℕ). set buf n c) ew ∙ written in
              let (taken, counts) =
                subst
                  (λ buf.
                    Leaves (c ∷ front) text d (undotify_loop (length text) buf (w + 1) (r + 1) d))
                  (sym there)
                  (undotify_loop-undots (c ∷ front) gap' text rest (w + 1) (r + 1) d
                    (omega (arith, ew)) (omega (arith, er, same)) (omega (arith, ed, same))) in
              (
                ap
                      (λ (n : ℕ).
                        take n (undotify_loop (length text) (set buf w c) (w + 1) (r + 1) d).0)
                      (omega arith)
                    ∙ taken,
                omega (arith, counts),
              ))
    ]

-- For `len` chars at the front of a buffer.
pub inline_undotify-undots :
    (text rest : List ℕ)
    → let r = inline_undotify (text ++ rest) (length text) in take r.1 r.0 ≡ undots text
unfolding inline_undotify
inline_undotify-undots text rest =
    let (buf, dots) = undotify_loop (length text) (text ++ rest) 0 0 0 in
    let (taken, counts) = undotify_loop-undots [] [] text rest 0 0 0 refl refl refl in
    ap (λ (n : ℕ). take n buf) (omega (arith, counts)) ∙ taken
