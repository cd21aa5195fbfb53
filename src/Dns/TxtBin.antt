-- ===== src/Dns/TxtBin.antt =====
-- Data in TXT records, in strings of at most 252 bytes behind their length: read.c.
pub mod RoundTrip
mod Tests
use andiodine.Common.{ℕ, zero, suc, ◌+◌, ◌-◌, min, Bool, ltb, if◌then◌else◌, Option, none, some}
use andiodine.Common.{List, [], ◌∷◌, ◌++◌, length, take, drop}

-- What was written, and the count that is returned; `none` is a failure behind what was written.
abbrev pub Written : Type 0
Written = List ℕ × Option ℕ

-- A piece of `n` bytes stands before the rest.
abbrev pub piece : List ℕ → ℕ → Written → Written
piece bytes n (w, none) = (bytes ++ w, none)
piece bytes n (w, some used) = (bytes ++ w, some (n + used))

-- `tocopy`
abbrev pub txt_len : List ℕ → ℕ
txt_len from = min (length from) 252

-- The loop, with at least `fuel` bytes of room for rounds: each uses at least one byte of `from`.
unfoldable pub put_loop : (fuel bufremain : ℕ) → List ℕ → Written
put_loop zero bufremain from = ([], some 0)
put_loop (suc fuel) bufremain from =
    let n = txt_len from in
    let rest = put_loop fuel (bufremain - 1 - n) (drop n from) in
    if ltb 0 (length from)
    then if ltb bufremain (n + 1) then ([], none) else piece (n ∷ take n from) (n + 1) rest
    else ([], some 0)

unfoldable pub puttxtbin : (bufremain : ℕ) → List ℕ → Written
puttxtbin bufremain from = put_loop (length from) bufremain from

unfoldable pub read_loop : (fuel : ℕ) → List ℕ → (dstremain : ℕ) → Written
read_loop zero src dstremain = ([], some 0)
read_loop (suc fuel) [] dstremain = ([], some 0)
read_loop (suc fuel) (n ∷ src) dstremain =
    let rest = read_loop fuel (drop n src) (dstremain - n) in
    if ltb (length src) n
    then ([], none)
    else if ltb dstremain n
    then ([], none)
    else piece (take n src) n rest

-- What was written to `dst`, and the count that is returned: 0 if a string is illegal.
abbrev pub or_zero : Option ℕ → ℕ
or_zero none = 0
or_zero (some n) = n

unfoldable pub readtxtbin : List ℕ → (dstremain : ℕ) → List ℕ × ℕ
readtxtbin src dstremain = let (w, used) = read_loop (length src) src dstremain in (w, or_zero used)
