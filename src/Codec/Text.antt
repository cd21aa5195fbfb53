-- ===== src/Codec/Text.antt =====
-- The chars of an encoded text: none is a '\0', which would end the text, and none is a dot, which
-- would be taken for one between labels.
use andiodine.Common.{ℕ, zero, suc, ◌≡◌, arith, Bool, true, false, not, ◌&&◌, ◌==◌}
use andiodine.Common.{List, [], ◌∷◌, ◌++◌, All, All-append, if◌then◌else◌}
use andiodine.Common.Bits.{IsByte}
use andiodine.Codec.{Phase, EncodeStep, drop_last, next_or_zero, encode_stop, encode_loop}

abbrev pub is_text : ℕ → Bool
is_text c = not (c == 0) && not (c == b'.')

abbrev pub IsText : ℕ → Type 0
IsText c = is_text c ≡ true

All-drop_last : (out : List ℕ) → All IsText out → All IsText (drop_last out)
unfolding drop_last
All-drop_last [] h = tt
All-drop_last (x ∷ []) h = tt
All-drop_last (x ∷ y ∷ xs) (hx, h) = (hx, All-drop_last (y ∷ xs) h)

-- What an encoder's step must promise.
abbrev pub GivesText : EncodeStep → Type 0
GivesText step =
    (ph : Phase) (x : ℕ) (xs : List ℕ)
    → IsByte x
    → All IsByte xs
    → let r = step ph x xs in IsText r.0 × All IsByte r.1

module _ (step : EncodeStep) (useless : Phase → Bool) where
  encode_stop-IsText :
      (ph : Phase) (out rest : List ℕ)
      → All IsText out
      → All IsText (encode_stop step useless ph out rest).text
  unfolding encode_stop
  encode_stop-IsText ph out rest h = go (useless ph)
    where
      go : (b : Bool) → All IsText (if b then drop_last out else out)
      go true = All-drop_last out h
      go false = h

  pub encode_loop-IsText :
      (room : ℕ) (ph : Phase) (out rest : List ℕ)
      → GivesText step
      → All IsText out
      → All IsByte rest
      → All IsText (encode_loop step useless room ph out rest).text
  unfolding encode_loop
  encode_loop-IsText zero ph out rest law h hr = encode_stop-IsText ph out rest h
  encode_loop-IsText (suc room) ph out [] law h hr = encode_stop-IsText ph out [] h
  encode_loop-IsText (suc room) ph out (x ∷ xs) law h (hx, hxs) =
      let r = step ph x xs in
      let (char_ok, rest_ok) = law ph x xs hx hxs in
      encode_loop-IsText room r.2 (out ++ (r.0 ∷ [])) r.1 law
        (All-append IsText out (r.0 ∷ []) h (char_ok, tt)) rest_ok

pub next_or_zero-IsByte : (xs : List ℕ) → All IsByte xs → IsByte (next_or_zero xs)
next_or_zero-IsByte [] h = omega arith
next_or_zero-IsByte (x ∷ xs) h = h.0
