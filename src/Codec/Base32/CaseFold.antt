-- ===== src/Codec/Base32/CaseFold.antt =====
-- base32 survives a DNS relay that changes the case of letters.
use andiodine.Common.{ℕ, zero, suc, ◌+◌, ◌<◌, ◌≡◌, refl, ap, arith, Bool, true, false, ◌&&◌, ◌||◌}
use andiodine.Common.{
  leb, ◌==◌, if◌then◌else◌, Option, none, some, inl, inr, Option-cases, List, [], ◌∷◌, All,
}
use andiodine.Common.Bits.{IsByte, all_below, agree_below}
use andiodine.Codec.{Phase, p0, p1, p2, p3, p4, p5, p6, p7, decode_loop}
use andiodine.Codec.Base32.{rev32, decode_step, decode}
use mathlib.Core.List.{map}

-- An ASCII letter in lower case, and any other char as it is.
unfoldable pub to_lower : ℕ → ℕ
to_lower c = if leb b'A' c && leb c b'Z' then c + 32 else c

rev32-to_lower : (c : ℕ) → c < 256 → rev32 (to_lower c) ≡ rev32 c
unfolding all_below rev32 to_lower
rev32-to_lower = agree_below 256 _ _ refl

to_lower-zero : (c : ℕ) → (to_lower c == 0) ≡ (c == 0)
unfolding to_lower
to_lower-zero c = ground arith

-- `decode_step` finds the same byte, and leaves the rest of the changed text.
abbrev lower_rest : Option (ℕ × List ℕ × Phase) → Option (ℕ × List ℕ × Phase)
lower_rest none = none
lower_rest (some (b, r, ph)) = some (b, map to_lower r, ph)

lower_rest-if :
    (b : Bool) (o : Option (ℕ × List ℕ × Phase))
    → (if b then none else lower_rest o) ≡ lower_rest (if b then none else o)
lower_rest-if true o = refl
lower_rest-if false o = refl

decode_step-to_lower :
    (ph : Phase) (str : List ℕ)
    → All IsByte str
    → decode_step ph (map to_lower str) ≡ lower_rest (decode_step ph str)
unfolding decode_step
decode_step-to_lower p0 (c ∷ d ∷ r) (hc, (hd, hr)) =
    rw (to_lower-zero c, to_lower-zero d, rev32-to_lower c hc, rev32-to_lower d hd)
      (lower_rest-if (c == 0 || d == 0) _)
decode_step-to_lower p0 (c ∷ []) h = refl
decode_step-to_lower p0 [] h = refl
decode_step-to_lower p1 (c ∷ d ∷ e ∷ r) (hc, (hd, (he, hr))) =
    rw
      (
        to_lower-zero c,
        to_lower-zero d,
        to_lower-zero e,
        rev32-to_lower c hc,
        rev32-to_lower d hd,
        rev32-to_lower e he,
      )
      (lower_rest-if (c == 0 || (d == 0 || e == 0)) _)
decode_step-to_lower p1 (c ∷ d ∷ []) h = refl
decode_step-to_lower p1 (c ∷ []) h = refl
decode_step-to_lower p1 [] h = refl
decode_step-to_lower p2 (c ∷ d ∷ r) (hc, (hd, hr)) =
    rw (to_lower-zero c, to_lower-zero d, rev32-to_lower c hc, rev32-to_lower d hd)
      (lower_rest-if (c == 0 || d == 0) _)
decode_step-to_lower p2 (c ∷ []) h = refl
decode_step-to_lower p2 [] h = refl
decode_step-to_lower p3 (c ∷ d ∷ e ∷ r) (hc, (hd, (he, hr))) =
    rw
      (
        to_lower-zero c,
        to_lower-zero d,
        to_lower-zero e,
        rev32-to_lower c hc,
        rev32-to_lower d hd,
        rev32-to_lower e he,
      )
      (lower_rest-if (c == 0 || (d == 0 || e == 0)) _)
decode_step-to_lower p3 (c ∷ d ∷ []) h = refl
decode_step-to_lower p3 (c ∷ []) h = refl
decode_step-to_lower p3 [] h = refl
decode_step-to_lower p4 (c ∷ d ∷ r) (hc, (hd, hr)) =
    rw (to_lower-zero c, to_lower-zero d, rev32-to_lower c hc, rev32-to_lower d hd)
      (lower_rest-if (c == 0 || d == 0) _)
decode_step-to_lower p4 (c ∷ []) h = refl
decode_step-to_lower p4 [] h = refl
decode_step-to_lower p5 str h = refl
decode_step-to_lower p6 str h = refl
decode_step-to_lower p7 str h = refl

-- What a phase leaves is a part of the text.
decode_step-IsByte :
    (ph ph' : Phase) (str r : List ℕ) (b : ℕ)
    → All IsByte str
    → decode_step ph str ≡ some (b, r, ph')
    → All IsByte r
unfolding decode_step
decode_step-IsByte p0 ph' (c ∷ d ∷ r) r' b h p = ground arith
decode_step-IsByte p0 ph' (c ∷ []) r b h p = cc
decode_step-IsByte p0 ph' [] r b h p = cc
decode_step-IsByte p1 ph' (c ∷ d ∷ e ∷ r) r' b h p = ground arith
decode_step-IsByte p1 ph' (c ∷ d ∷ []) r b h p = cc
decode_step-IsByte p1 ph' (c ∷ []) r b h p = cc
decode_step-IsByte p1 ph' [] r b h p = cc
decode_step-IsByte p2 ph' (c ∷ d ∷ r) r' b h p = ground arith
decode_step-IsByte p2 ph' (c ∷ []) r b h p = cc
decode_step-IsByte p2 ph' [] r b h p = cc
decode_step-IsByte p3 ph' (c ∷ d ∷ e ∷ r) r' b h p = ground arith
decode_step-IsByte p3 ph' (c ∷ d ∷ []) r b h p = cc
decode_step-IsByte p3 ph' (c ∷ []) r b h p = cc
decode_step-IsByte p3 ph' [] r b h p = cc
decode_step-IsByte p4 ph' (c ∷ d ∷ r) r' b h p = ground arith
decode_step-IsByte p4 ph' (c ∷ []) r b h p = cc
decode_step-IsByte p4 ph' [] r b h p = cc
decode_step-IsByte p5 ph' str r b h p = cc
decode_step-IsByte p6 ph' str r b h p = cc
decode_step-IsByte p7 ph' str r b h p = cc

decode_loop-to_lower :
    (room : ℕ) (ph : Phase) (str : List ℕ)
    → All IsByte str
    → decode_loop decode_step room ph (map to_lower str) ≡ decode_loop decode_step room ph str
unfolding decode_loop
decode_loop-to_lower zero ph str h = refl
decode_loop-to_lower (suc room) ph str h = elim (Option-cases (decode_step ph str)) [
  | inl e ↦ rw (decode_step-to_lower ph str h, e, decode_loop) refl
  | inr ((b, r, ph'), e) ↦
      rw (decode_step-to_lower ph str h, e, decode_loop)
        (ap (λ l. b ∷ l) (decode_loop-to_lower room ph' r (decode_step-IsByte ph ph' str r b h e)))
]

-- A text of bytes decodes like the same text in lower case, illegal chars and '\0' included.
pub base32_decode-to_lower :
    (buflen : ℕ) (str : List ℕ)
    → All IsByte str
    → decode buflen (map to_lower str) ≡ decode buflen str
unfolding decode
base32_decode-to_lower buflen str h = decode_loop-to_lower buflen p0 str h
