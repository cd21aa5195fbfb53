-- ===== src/Dns/Names.antt =====
-- Host names in DNS messages: `putname` of read.c.
use andiodine.Common.{ℕ, ◌+◌, ◌-◌, Bool, false, ◌||◌, ltb, ◌==◌, if◌then◌else◌}
use andiodine.Common.{List, [], ◌∷◌, ◌++◌, length, Option, none, some}

-- A word before the next dot, if it is not empty, and the words behind it.
abbrev add_word : List ℕ × List (List ℕ) → List (List ℕ)
add_word ([], ws) = ws
add_word (c ∷ w, ws) = (c ∷ w) ∷ ws

abbrev split_words : List ℕ → List ℕ × List (List ℕ)
split_words [] = ([], [])
split_words (c ∷ cs) =
    let (w, ws) = split_words cs in if c == b'.' then ([], add_word (w, ws)) else (c ∷ w, ws)

-- What the calls of `strtok` give: the words between dots that are not empty.
abbrev pub words : List ℕ → List (List ℕ)
words host = add_word (split_words host)

-- `left`, where `none` is a number below 0: as a size_t it is larger than every length.
abbrev exceeds : ℕ → Option ℕ → Bool
exceeds n none = false
exceeds n (some left) = ltb left n

abbrev minus : Option ℕ → ℕ → Option ℕ
minus none n = none
minus (some left) n = if ltb left n then none else some (left - n)

-- A word with its length before it.
abbrev before_rest : List ℕ → Option (List ℕ) → Option (List ℕ)
before_rest w none = none
before_rest w (some rest) = some (length w ∷ (w ++ rest))

unfoldable pub put_words : List (List ℕ) → (left : Option ℕ) → Option (List ℕ)
put_words [] left = some (0 ∷ [])
put_words (w ∷ ws) left =
    let rest = put_words ws (minus left (length w + 1)) in
    if ltb 63 (length w) || exceeds (length w) left then none else before_rest w rest

-- The bytes that are stored, or `none` for -1.
unfoldable pub putname : (buflen : ℕ) → (host : List ℕ) → Option (List ℕ)
putname buflen host = put_words (words host) (some buflen)
