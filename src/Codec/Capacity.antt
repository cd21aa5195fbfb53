-- ===== src/Codec/Capacity.antt =====
-- How many chars the encoders write, by counting bits: `credit` is the number of bits of the
-- current byte that are written when a phase begins.
use andiodine.Common.{ℕ, zero, suc, ◌+◌, ◌*◌, ◌≤◌, ◌<◌, ◌≡◌, refl, ap, arith, Bool, true, false}
use andiodine.Common.{Bool-cases, inl, inr, List, [], ◌∷◌, ◌++◌, length, length-append}
use andiodine.Codec.{Phase, Encoded, EncodeStep, drop_last, encode_stop, encode_loop}
use andiodine.Codec.Laws.{encode_loop_full, encode_loop_end, encode_loop_step}

length-drop_last : (out : List ℕ) → 0 < length out → length (drop_last out) + 1 ≡ length out
unfolding drop_last
length-drop_last [] h = absurd (omega arith)
length-drop_last (x ∷ []) h = omega arith
length-drop_last (x ∷ y ∷ xs) h = omega (arith, length-drop_last (y ∷ xs) (omega arith))

module _ (step : EncodeStep) (useless : Phase → Bool) (width : ℕ) (credit : Phase → ℕ) where
  pub record Counts : Type 0 where
    -- Each char writes `width` bits.
    pub pays :
        (ph : Phase) (x : ℕ) (xs : List ℕ)
        → 8 * length (step ph x xs).1 + (width + credit ph)
          ≡ 8 * suc (length xs) + credit (step ph x xs).2
    pub shrinks : (ph : Phase) (x : ℕ) (xs : List ℕ) → length (step ph x xs).1 ≤ suc (length xs)
    pub partial : (ph : Phase) → credit ph < 8
    -- What is written of a byte begins in the last char that is kept.
    pub keeps : (ph : Phase) → useless ph ≡ false → credit ph < width
    pub drops : (ph : Phase) → useless ph ≡ true → (width ≤ credit ph) × (credit ph < 2 * width)

  module _ (law : Counts) (positive : 0 < width) where
    -- With room for all bits nothing is left.
    pub uses_all :
        (room : ℕ) (ph : Phase) (out rest : List ℕ)
        → 8 * length rest ≤ width * room + credit ph
        → (encode_loop step useless room ph out rest).left ≡ []
    unfolding encode_loop
    uses_all zero ph out [] h = refl
    uses_all zero ph out (x ∷ xs) h = absurd (omega (arith, law.partial ph))
    uses_all (suc room) ph out [] h = refl
    uses_all (suc room) ph out (x ∷ xs) h =
        let (c, rest, ph') = step ph x xs in
        uses_all room ph' (out ++ (c ∷ [])) rest (omega (arith, law.pays ph x xs))

    -- The text holds the bits of the bytes used up, in as few chars as they need.
    abbrev Holds : ℕ → Encoded → Type 0
    Holds n e =
        (8 * n ≤ width * length e.text + 8 * length e.left)
        × (width * length e.text + 8 * length e.left < 8 * n + width)

    Holds-drop :
        (ph : Phase) (out rest : List ℕ) (n : ℕ)
        → length rest ≤ n
        → width * length out + 8 * length rest ≡ 8 * n + credit ph
        → useless ph ≡ true
        → Holds n (record { text = drop_last out; left = rest })
    Holds-drop ph [] rest n le e u = absurd (omega (arith, law.drops ph u))
    Holds-drop ph (c ∷ out) rest n le e u = omega (
      arith,
      law.drops ph u,
      ap (λ (t : ℕ). width * t) (length-drop_last (c ∷ out) (omega arith)),
    )

    Holds-stop :
        (ph : Phase) (out rest : List ℕ) (n : ℕ)
        → length rest ≤ n
        → width * length out + 8 * length rest ≡ 8 * n + credit ph
        → Holds n (encode_stop step useless ph out rest)
    unfolding encode_stop
    Holds-stop ph out rest n le e = elim (Bool-cases (useless ph)) [
      | inl u ↦ rw u (Holds-drop ph out rest n le e u)
      | inr u ↦ rw u (omega (arith, law.keeps ph u))
    ]

    pub holds :
        (room : ℕ) (ph : Phase) (out rest : List ℕ) (n : ℕ)
        → length rest ≤ n
        → width * length out + 8 * length rest ≡ 8 * n + credit ph
        → Holds n (encode_loop step useless room ph out rest)
    holds zero ph out rest n le e =
        rw (encode_loop_full step useless ph out rest) (Holds-stop ph out rest n le e)
    holds (suc room) ph out [] n le e =
        rw (encode_loop_end step useless (suc room) ph out) (Holds-stop ph out [] n le e)
    holds (suc room) ph out (x ∷ xs) n le e =
        let (c, rest, ph') = step ph x xs in
        rw (encode_loop_step step useless room ph ph' out c x xs rest refl) (
          holds room ph' (out ++ (c ∷ [])) rest n (omega (arith, law.shrinks ph x xs)) (
            omega
              (arith, law.pays ph x xs, ap (λ (t : ℕ). width * t) (length-append out (c ∷ [])))))
