-- ===== src/Codec/Laws.antt =====
-- What holds of the encoders' and decoders' loops whatever the alphabet and the block are.
use andiodine.Common.{ℕ, zero, suc, ◌+◌, ◌≤◌, ◌≡◌, refl, ap, ◌∙◌, arith, Bool-cases, none, some}
use andiodine.Common.{Bool, false, inl, inr}
use andiodine.Common.{List, [], ◌∷◌, ◌++◌, length, length-append, Option-cases}
use andiodine.Codec.{Phase, Encoded, drop_last, EncodeStep, DecodeStep}
use andiodine.Codec.{encode_stop, encode_loop, decode_loop}

-- The loop with a char in front of its output.
abbrev cons_text : ℕ → Encoded → Encoded
cons_text a e = record { text = a ∷ e.text; left = e.left }

abbrev pub append_text : List ℕ → Encoded → Encoded
append_text pre e = record { text = pre ++ e.text; left = e.left }

length-drop_last : (out : List ℕ) → length (drop_last out) ≤ length out
unfolding drop_last
length-drop_last [] = omega arith
length-drop_last (x ∷ []) = omega arith
length-drop_last (x ∷ y ∷ xs) = omega (arith, length-drop_last (y ∷ xs))

module _ (step : EncodeStep) (useless : Phase → Bool) where
  -- A char in front of a char that was written already stays in front of all that follows.
  pub encode_loop-cons :
      (room : ℕ) (ph : Phase) (a b : ℕ) (out rest : List ℕ)
      → encode_loop step useless room ph (a ∷ b ∷ out) rest
        ≡ cons_text a (encode_loop step useless room ph (b ∷ out) rest)
  unfolding encode_loop
  encode_loop-cons zero ph a b out rest = ground arith
  encode_loop-cons (suc room) ph a b out [] = ground arith
  encode_loop-cons (suc room) ph a b out (x ∷ xs) =
      let (c, rest, ph') = step ph x xs in encode_loop-cons room ph' a b (out ++ (c ∷ [])) rest

  -- At a phase that takes nothing back this holds of a first char too.
  pub encode_loop-first :
      (room : ℕ) (ph : Phase) (a : ℕ) (rest : List ℕ)
      → useless ph ≡ false
      → encode_loop step useless room ph (a ∷ []) rest
        ≡ cons_text a (encode_loop step useless room ph [] rest)
  unfolding encode_loop
  encode_loop-first zero ph a rest h = rw h
  encode_loop-first (suc room) ph a [] h = rw h
  encode_loop-first (suc room) ph a (x ∷ xs) h =
      let (c, rest, ph') = step ph x xs in encode_loop-cons room ph' a c [] rest

  -- The text never passes `*buflen` chars.
  pub length-encode_loop :
      (room : ℕ) (ph : Phase) (out rest : List ℕ)
      → length (encode_loop step useless room ph out rest).text ≤ length out + room
  unfolding encode_loop
  length-encode_loop zero ph out rest = ground (arith, length-drop_last out)
  length-encode_loop (suc room) ph out [] = ground (arith, length-drop_last out)
  length-encode_loop (suc room) ph out (x ∷ xs) =
      let (c, rest, ph') = step ph x xs in
      omega (arith, length-encode_loop room ph' (out ++ (c ∷ [])) rest, length-append out (c ∷ []))

module _ (step : DecodeStep) where
  -- Nor does the decoded data.
  pub length-decode_loop :
      (room : ℕ) (ph : Phase) (rest : List ℕ) → length (decode_loop step room ph rest) ≤ room
  unfolding decode_loop
  length-decode_loop zero ph rest = omega arith
  length-decode_loop (suc room) ph rest = elim (Option-cases (step ph rest)) [
    | inl e ↦ rw (e, decode_loop) (omega arith)
    | inr ((b, rest', ph'), e) ↦
        rw (e, decode_loop) (omega (arith, length-decode_loop room ph' rest'))
  ]

module _ (step : EncodeStep) (useless : Phase → Bool) where
  encode_loop-append :
      (room : ℕ) (ph : Phase) (pre : List ℕ) (b : ℕ) (out rest : List ℕ)
      → encode_loop step useless room ph (pre ++ (b ∷ out)) rest
        ≡ append_text pre (encode_loop step useless room ph (b ∷ out) rest)
  encode_loop-append room ph [] b out rest = refl
  encode_loop-append room ph (a ∷ []) b out rest =
      encode_loop-cons step useless room ph a b out rest
  encode_loop-append room ph (a ∷ a' ∷ pre) b out rest =
      encode_loop-cons step useless room ph a a' (pre ++ (b ∷ out)) rest
      ∙ ap (cons_text a) (encode_loop-append room ph (a' ∷ pre) b out rest)

  -- Where nothing is taken back, any text in front stays in front.
  pub encode_loop-prefix :
      (room : ℕ) (ph : Phase) (pre rest : List ℕ)
      → useless ph ≡ false
      → encode_loop step useless room ph pre rest
        ≡ append_text pre (encode_loop step useless room ph [] rest)
  encode_loop-prefix room ph [] rest u = refl
  encode_loop-prefix room ph (a ∷ []) rest u = encode_loop-first step useless room ph a rest u
  encode_loop-prefix room ph (a ∷ b ∷ pre) rest u =
      encode_loop-cons step useless room ph a b pre rest
      ∙ ap (cons_text a) (encode_loop-prefix room ph (b ∷ pre) rest u)

  pub encode_loop_step :
      (room : ℕ) (ph ph' : Phase) (out : List ℕ) (c x : ℕ) (xs rest : List ℕ)
      → step ph x xs ≡ (c, rest, ph')
      → encode_loop step useless (suc room) ph out (x ∷ xs)
        ≡ encode_loop step useless room ph' (out ++ (c ∷ [])) rest
  unfolding encode_loop
  encode_loop_step room ph ph' out c x xs rest e =
      ap (λ t. encode_loop step useless room t.2 (out ++ (t.0 ∷ [])) t.1) e

  pub encode_loop_full :
      (ph : Phase) (out rest : List ℕ)
      → encode_loop step useless 0 ph out rest ≡ encode_stop step useless ph out rest
  unfolding encode_loop
  encode_loop_full ph out rest = refl

  pub encode_loop_end :
      (room : ℕ) (ph : Phase) (out : List ℕ)
      → encode_loop step useless room ph out [] ≡ encode_stop step useless ph out []
  unfolding encode_loop
  encode_loop_end zero ph out = refl
  encode_loop_end (suc room) ph out = refl

  pub left-encode_stop :
      (ph : Phase) (out rest : List ℕ) → (encode_stop step useless ph out rest).left ≡ rest
  unfolding encode_stop
  left-encode_stop ph out rest = refl

  -- What a break leaves of a single char: that char or nothing.
  pub encode_stop_single :
      (P : List ℕ → Type 0) (ph : Phase) (a : ℕ) (rest : List ℕ)
      → P []
      → P (a ∷ [])
      → P (encode_stop step useless ph (a ∷ []) rest).text
  unfolding encode_stop
  encode_stop_single P ph a rest h h' = elim (Bool-cases (useless ph)) [
    | inl e ↦ rw e h
    | inr e ↦ rw e h'
  ]

module _ (step : DecodeStep) where
  pub decode_round :
      (room : ℕ) (ph ph' : Phase) (str rest : List ℕ) (b : ℕ)
      → step ph str ≡ some (b, rest, ph')
      → decode_loop step (suc room) ph str ≡ b ∷ decode_loop step room ph' rest
  unfolding decode_loop
  decode_round room ph ph' str rest b e = rw (e, decode_loop) refl

  pub decode_break :
      (room : ℕ) (ph : Phase) (str : List ℕ)
      → step ph str ≡ none
      → decode_loop step room ph str ≡ []
  unfolding decode_loop
  decode_break zero ph str e = refl
  decode_break (suc room) ph str e = rw (e, decode_loop) refl
