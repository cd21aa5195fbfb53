-- ===== src/Dns/TxtBin/RoundTrip.antt =====
-- Data that is put into TXT strings is read back.
use andiodine.Common.{ℕ, zero, suc, ◌+◌, ◌-◌, ◌/◌, ◌≤◌, ◌<◌, ◌≡◌, refl, ap, ap₂, sym, ◌∙◌, arith}
use andiodine.Common.{false, ltb, if◌then◌else◌, Bool-cases, inl, inr, none, some}
use andiodine.Common.{List, [], ◌∷◌, ◌++◌, length, take, drop, take-append}
use andiodine.Common.{take-append-drop, length-take_of_le, length-drop, length-append}
use andiodine.Dns.TxtBin.{
  Written, piece, txt_len, put_loop, puttxtbin, read_loop, readtxtbin, or_zero,
}

drop-append {ℓ} : {A : Type ℓ} (xs ys : List A) → drop (length xs) (xs ++ ys) ≡ ys
drop-append [] ys = refl
drop-append (x ∷ xs) ys = drop-append xs ys

-- A string at the front is read as one piece.
read_loop-piece :
    (fuel dstremain : ℕ) (s rest : List ℕ)
    → length s ≤ dstremain
    → read_loop (suc fuel) (length s ∷ (s ++ rest)) dstremain
      ≡ piece s (length s) (read_loop fuel rest (dstremain - length s))
unfolding read_loop
read_loop-piece fuel dstremain s rest h =
    let long : ltb (length (s ++ rest)) (length s) ≡ false = ground (arith, length-append s rest) in
    let fits : ltb dstremain (length s) ≡ false = ground arith in
    rw (long, fits, take-append s rest, drop-append s rest) refl

nil_of_length {ℓ} : {A : Type ℓ} (xs : List A) → length xs ≡ 0 → xs ≡ []
nil_of_length [] e = refl
nil_of_length (x ∷ xs) e = absurd (omega arith)

-- The strings of `from`, each behind its length.
strings : ℕ → List ℕ → List ℕ
strings zero from = []
strings (suc fuel) from =
    let n = txt_len from in
    let rest = strings fuel (drop n from) in
    if ltb 0 (length from) then n ∷ (take n from ++ rest) else []

read_loop-nil : (fuel dstremain : ℕ) → read_loop fuel [] dstremain ≡ ([], some 0)
unfolding read_loop
read_loop-nil zero d = refl
read_loop-nil (suc fuel) d = refl

piece-rest :
    (n : ℕ) (from : List ℕ)
    → n ≤ length from
    → piece (take n from) n (drop n from, some (length (drop n from))) ≡ (from, some (length from))
piece-rest n from h =
    let e : n + length (drop n from) ≡ length from = omega (arith, length-drop n from) in
    ap₂ (λ w (k : ℕ). (w, some k)) (take-append-drop n from) e

read-strings :
    (fuel more : ℕ) (from : List ℕ) (dstremain : ℕ)
    → length from ≤ fuel
    → fuel ≤ more
    → length from ≤ dstremain
    → read_loop more (strings fuel from) dstremain ≡ (from, some (length from))
unfolding strings
read-strings zero more from d hf hm hd =
    let e = nil_of_length from (omega arith) in rw e (read_loop-nil more d)
read-strings (suc fuel) zero from d hf hm hd = absurd (omega arith)
read-strings (suc fuel) (suc more) from d hf hm hd = elim (Bool-cases (ltb 0 (length from))) [
  | inl data' ↦
      let n = txt_len from in
      let len : length (take n from) ≡ n = length-take_of_le n from (omega arith) in
      let rest = strings fuel (drop n from) in
      let left = length-drop n from in
      let pos : 0 < length from = ground arith in
      rw data' (
        ap (λ (k : ℕ). read_loop (suc more) (k ∷ (take n from ++ rest)) d) (sym len)
        ∙ read_loop-piece more d (take n from) rest (omega arith)
        ∙ ap₂ (λ (k : ℕ) w. piece (take n from) k w) len
            (read-strings fuel more (drop n from) (d - length (take n from)) (omega arith)
              (omega arith) (omega arith))
        ∙ piece-rest n from (omega arith))
  | inr empty ↦
      let e : from ≡ [] = nil_of_length from (ground arith) in
      rw (empty, e) (read_loop-nil (suc more) d)
]

-- One byte for every 252 bytes, and for a rest.
abbrev pub txt_size : ℕ → ℕ
txt_size n = n + (n + 251) / 252

length-strings :
    (fuel : ℕ) (from : List ℕ)
    → length from ≤ fuel
    → length (strings fuel from) ≡ txt_size (length from)
unfolding strings
length-strings zero from hf = omega arith
length-strings (suc fuel) from hf = elim (Bool-cases (ltb 0 (length from))) [
  | inl data' ↦
      let n = txt_len from in
      let pos : 0 < length from = ground arith in
      let left = length-drop n from in
      let len : length (take n from) ≡ n = length-take_of_le n from (omega arith) in
      rw data' (
        omega (
          arith,
          length-append (take n from) (strings fuel (drop n from)),
          length-strings fuel (drop n from) (omega arith),
        ))
  | inr empty ↦ rw empty (ground arith)
]

put-strings :
    (fuel room : ℕ) (from : List ℕ)
    → length from ≤ fuel
    → length (strings fuel from) ≤ room
    → put_loop fuel room from ≡ (strings fuel from, some (length (strings fuel from)))
unfolding put_loop strings
put-strings zero room from hf hr = refl
put-strings (suc fuel) room from hf hr = elim (Bool-cases (ltb 0 (length from))) [
  | inl data' ↦
      let n = txt_len from in
      let rest = strings fuel (drop n from) in
      let len : length (take n from) ≡ n = length-take_of_le n from (omega arith) in
      let hr' : suc (length (take n from ++ rest)) ≤ room = rw data' at hr in
      let both = length-append (take n from) rest in
      let fits : ltb room (n + 1) ≡ false = ground arith in
      let pos : 0 < length from = ground arith in
      let left = length-drop n from in
      let count : n + 1 + length rest ≡ suc (length (take n from ++ rest)) = omega arith in
      rw (data', fits)
        (ap (piece (n ∷ take n from) (n + 1))
            (put-strings fuel (room - 1 - n) (drop n from) (omega arith) (omega arith))
          ∙ ap (λ (k : ℕ). (n ∷ (take n from ++ rest), some k)) count)
  | inr empty ↦ rw empty refl
]

piece-none : (bytes : List ℕ) (n : ℕ) (w : Written) → w.1 ≡ none → (piece bytes n w).1 ≡ none
piece-none bytes n (w, none) e = refl
piece-none bytes n (w, some k) e = cc

nothing_short : {room : ℕ} → ¬ (room < 0)
nothing_short h = absurd (omega arith)

put-fails :
    (fuel room : ℕ) (from : List ℕ)
    → length from ≤ fuel
    → room < length (strings fuel from)
    → (put_loop fuel room from).1 ≡ none
unfolding put_loop strings
put-fails zero room from hf hr = absurd (omega arith)
put-fails (suc fuel) room from hf hr = elim (Bool-cases (ltb 0 (length from))) [
  | inl data' ↦
      let n = txt_len from in
      let rest = strings fuel (drop n from) in
      let len : length (take n from) ≡ n = length-take_of_le n from (omega arith) in
      let hr' : room < suc (length (take n from ++ rest)) = rw data' at hr in
      let both = length-append (take n from) rest in
      let pos : 0 < length from = ground arith in
      let left = length-drop n from in
      elim (Bool-cases (ltb room (n + 1))) [
        | inl small ↦ rw (data', small) refl
        | inr fits ↦
            let enough : n + 1 ≤ room = ground arith in
            rw (data', fits)
              (piece-none (n ∷ take n from) (n + 1) (put_loop fuel (room - 1 - n) (drop n from))
                (put-fails fuel (room - 1 - n) (drop n from) (omega arith) (omega arith)))
      ]
  | inr empty ↦ absurd (nothing_short (rw empty at hr))
]

-- With room for the data and one byte for every 252 bytes of it or part of that, puttxtbin writes
-- exactly that many bytes and returns their number, and readtxtbin gets the data back from them
-- if it has room for it.
pub readtxtbin-puttxtbin :
    (bufremain dstremain : ℕ) (from : List ℕ)
    → txt_size (length from) ≤ bufremain
    → length from ≤ dstremain
    → let (w, used) = puttxtbin bufremain from in
      (used ≡ some (length w))
      × (length w ≡ txt_size (length from))
      × (readtxtbin w dstremain ≡ (from, length from))
unfolding puttxtbin readtxtbin
readtxtbin-puttxtbin bufremain dstremain from hb hd =
    let k = length from in
    let w = strings k from in
    let size : length w ≡ txt_size k = length-strings k from (omega arith) in
    let put = put-strings k bufremain from (omega arith) (omega arith) in
    rw put (
      refl,
      size,
      ap (λ (r : Written). (r.0, or_zero r.1))
          (read-strings k (length w) from dstremain (omega arith) (omega arith) hd),
    )

-- With less room than the data and one byte for every 252 bytes of it or part of that, puttxtbin
-- returns -1.
pub puttxtbin_fails :
    (bufremain : ℕ) (from : List ℕ)
    → bufremain < txt_size (length from)
    → (puttxtbin bufremain from).1 ≡ none
unfolding puttxtbin
puttxtbin_fails bufremain from h =
    put-fails (length from) bufremain from (omega arith)
      (omega (arith, length-strings (length from) from (omega arith)))
