-- ===== src/Topdomain/Labels.antt =====
-- A domain passes the check exactly if it is two or more proper labels.
use andiodine.Common.{ℕ, ◌+◌, ◌≤◌, ◌<◌, ◌≡◌, refl, arith, ◌↔◌}
use andiodine.Common.{true, ltb, ◌==◌, if◌then◌else◌, Bool-cases, inl, inr, Option, none}
use andiodine.Common.{List, [], ◌∷◌, length, get_or, All}
use andiodine.Topdomain.{
  TopdomainError, allowed, check_end, check_dot, check_chars, check_topdomain,
}

-- A char joins the first label.
abbrev pub add_char : ℕ → List ℕ × List (List ℕ) → List ℕ × List (List ℕ)
add_char c (l, ls) = (c ∷ l, ls)

-- What stands before the first dot, and the labels behind it.
abbrev pub labels : List ℕ → List ℕ × List (List ℕ)
labels [] = ([], [])
labels (c ∷ cs) =
    let rest = labels cs in if c == b'.' then ([], rest.0 ∷ rest.1) else add_char c rest

abbrev pub Allowed : ℕ → Type 0
Allowed c = allowed c ≡ true

-- A label: 1 to 63 chars, all of them allowed.
abbrev pub IsLabel : List ℕ → Type 0
IsLabel l = (0 < length l) × (length l ≤ 63) × All Allowed l

-- What the loop asks of the rest of the name, behind `k` chars of a label and `dots` dots.
abbrev Passes : ℕ → ℕ → List ℕ × List (List ℕ) → Type 0
Passes dots k (l, ls) =
    (0 < k + length l)
    × (k + length l ≤ 63)
    × All Allowed l
    × All IsLabel ls
    × (0 < dots + length ls)

check_end-Passes : (dots k : ℕ) → (check_end dots k ≡ none) ↔ Passes dots k ([], [])
check_end-Passes dots k = elim (Bool-cases (dots == 0)) [
  | inl no_dot ↦ rw no_dot (λ e. cc, λ (_, _, _, _, h). absurd (ground arith))
  | inr dot ↦ elim (Bool-cases (k == 0)) [
    | inl empty ↦ rw (dot, empty) (λ e. cc, λ (h, _, _, _, _). absurd (ground arith))
    | inr chars ↦ elim (Bool-cases (ltb 63 k)) [
      | inl long ↦ rw (dot, chars, long) (λ e. cc, λ (_, h, _, _, _). absurd (ground arith))
      | inr short ↦
          rw (dot, chars, short)
            (λ e. (ground arith, ground arith, tt, tt, ground arith), λ h. refl)
    ]
  ]
]

check_dot-Passes :
    (dots k : ℕ) (o : Option TopdomainError) (w : List ℕ × List (List ℕ))
    → (o ≡ none) ↔ Passes (dots + 1) 0 w
    → (check_dot k o ≡ none) ↔ Passes dots k ([], w.0 ∷ w.1)
check_dot-Passes dots k o w (to, of) = elim (Bool-cases (k == 0)) [
  | inl empty ↦ rw empty (λ e. cc, λ (h, _, _, _, _). absurd (ground arith))
  | inr chars ↦ elim (Bool-cases (ltb 63 k)) [
    | inl long ↦ rw (chars, long) (λ e. cc, λ (_, h, _, _, _). absurd (ground arith))
    | inr short ↦
        rw (chars, short)
          (
            λ e.
                let (pos, le, chars', ls, _) = to e in
                (
                  ground arith,
                  ground arith,
                  tt,
                  ((omega arith, omega arith, chars'), ls),
                  omega arith,
                ),
            λ (_, _, _, ((pos, le, chars'), ls), _).
                of (omega arith, omega arith, chars', ls, omega arith),
          )
  ]
]

check_chars-Passes :
    (cs : List ℕ) (dots k : ℕ) → (check_chars cs dots k ≡ none) ↔ Passes dots k (labels cs)
check_chars-Passes [] dots k = check_end-Passes dots k
check_chars-Passes (c ∷ cs) dots k = elim (Bool-cases (c == b'.')) [
  | inl dot ↦ rw dot (
      check_dot-Passes dots k (check_chars cs (dots + 1) 0) (labels cs)
        (check_chars-Passes cs (dots + 1) 0))
  | inr char ↦
      let (to, of) = check_chars-Passes cs dots (k + 1) in
      elim (Bool-cases (allowed c)) [
        | inl ok ↦
            rw (char, ok)
              (
                λ e.
                    let (pos, le, chars, ls, dot) = to e in
                    (omega arith, omega arith, (refl, chars), ls, dot),
                λ (pos, le, (_, chars), ls, dot). of (omega arith, omega arith, chars, ls, dot),
              )
        | inr bad ↦ rw (char, bad) (λ e. cc, λ (_, _, (ok, _), _, _). cc)
      ]
]

starts_dot : (str : List ℕ) → (get_or str 0 0 == b'.') ≡ true → length (labels str).0 ≡ 0
starts_dot [] e = refl
starts_dot (c ∷ cs) e = rw e refl

-- A domain passes check_topdomain exactly if it has 3 to 128 chars and is two or more labels,
-- each of 1 to 63 letters, digits and hyphens, with a dot between them.
pub check_topdomain-IsLabel :
    (str : List ℕ)
    → (check_topdomain str ≡ none) ↔ (
        (3 ≤ length str)
        × (length str ≤ 128)
        × IsLabel (labels str).0
        × All IsLabel (labels str).1
        × (0 < length (labels str).1))
unfolding check_topdomain
check_topdomain-IsLabel str = elim (Bool-cases (ltb (length str) 3)) [
  | inl short ↦ rw short (λ e. cc, λ (h, _, _, _, _). absurd (ground arith))
  | inr long_enough ↦ elim (Bool-cases (ltb 128 (length str))) [
    | inl long ↦ rw (long_enough, long) (λ e. cc, λ (_, h, _, _, _). absurd (ground arith))
    | inr fits ↦ elim (Bool-cases (get_or str 0 0 == b'.')) [
      | inl dot ↦
          let none' = starts_dot str dot in
          rw (long_enough, fits, dot) (λ e. cc, λ (_, _, (h, _, _), _, _). absurd (omega arith))
      | inr char ↦
          let (to, of) = check_chars-Passes str 0 0 in
          rw (long_enough, fits, char)
            (
              λ e.
                  let (pos, le, chars, ls, dots) = to e in
                  (ground arith, ground arith, (omega arith, omega arith, chars), ls, omega arith),
              λ (_, _, (pos, le, chars), ls, dots).
                  of (omega arith, omega arith, chars, ls, omega arith),
            )
    ]
  ]
]
