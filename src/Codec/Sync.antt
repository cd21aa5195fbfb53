-- ===== src/Codec/Sync.antt =====
-- An encoder and a decoder that run in step: what a codec has to show, and the round trip that
-- follows for its loops.
use andiodine.Common.{ℕ, zero, suc, ◌≤◌, ◌≡◌, ap, arith, Bool, false, none, some}
use andiodine.Common.{List, [], ◌∷◌, ◌++◌, append_assoc, length}
use andiodine.Codec.{Phase, Encoded, EncodeStep, DecodeStep, encode_stop, encode_loop, decode_loop}
use andiodine.Codec.Laws.{append_text, encode_loop_full, encode_loop_end, encode_loop_step}
use andiodine.Codec.Laws.{left-encode_stop, encode_loop-prefix, decode_round, decode_break}

module _ (step : EncodeStep) (useless : Phase → Bool) (take_byte : DecodeStep) where
  -- `Point` describes where the two stand: the encoder at `enc` with the chars `pending` not yet
  -- used up by the decoder, which is at `dec`; `Fits` ties the point to the data not yet encoded.
  pub record Points : Type 1 where
    pub Point : Type 0
    pub enc : Point → Phase
    pub dec : Point → Phase
    pub pending : Point → List ℕ
    pub Fits : Point → List ℕ → Type 0

  -- One char of the encoder: the decoder still waits, or it finds byte `x`.
  pub data Round (s : Points) (q : s.Point) (x : ℕ) (xs : List ℕ) : Type 0 where
    waits :
        (c : ℕ) (q' : s.Point)
        → step (s.enc q) x xs ≡ (c, x ∷ xs, s.enc q')
        → s.dec q' ≡ s.dec q
        → s.pending q' ≡ s.pending q ++ (c ∷ [])
        → s.Fits q' (x ∷ xs)
        → Round s q x xs
    finds :
        (c : ℕ) (q' : s.Point) (front : List ℕ)
        → step (s.enc q) x xs ≡ (c, xs, s.enc q')
        → useless (s.enc q') ≡ false
        → s.pending q ++ (c ∷ []) ≡ front ++ s.pending q'
        → ((r : List ℕ)
            → take_byte (s.dec q) (front ++ (s.pending q' ++ r))
              ≡ some (x, s.pending q' ++ r, s.dec q'))
        → s.Fits q' xs
        → Round s q x xs

  pub record InStep (s : Points) : Type 0 where
    -- At a break the decoder finds no further byte.
    pub stops :
        (q : s.Point) (rest : List ℕ)
        → s.Fits q rest
        → take_byte (s.dec q) (encode_stop step useless (s.enc q) (s.pending q) rest).text ≡ none
    pub rounds : (q : s.Point) (x : ℕ) (xs : List ℕ) → s.Fits q (x ∷ xs) → Round s q x xs

  module _ (s : Points) (law : InStep s) where
    abbrev Recovers : Encoded → ℕ → s.Point → List ℕ → Type 0
    Recovers e R q rest = decode_loop take_byte R (s.dec q) e.text ++ e.left ≡ rest

    Recovers-stop :
        (q : s.Point) (R : ℕ) (rest : List ℕ)
        → s.Fits q rest
        → Recovers (encode_stop step useless (s.enc q) (s.pending q) rest) R q rest
    Recovers-stop q R rest h =
        rw (decode_break take_byte R _ _ (law.stops q rest h))
          (left-encode_stop step useless (s.enc q) (s.pending q) rest)

    Recovers-found :
        (room R : ℕ) (q q' : s.Point) (x : ℕ) (xs front : List ℕ)
        → ((r : List ℕ)
            → take_byte (s.dec q) (front ++ (s.pending q' ++ r))
              ≡ some (x, s.pending q' ++ r, s.dec q'))
        → let t = encode_loop step useless room (s.enc q') [] xs in
          Recovers (append_text (s.pending q') t) R q' xs
          → Recovers (append_text (front ++ s.pending q') t) (suc R) q (x ∷ xs)
    Recovers-found room R q q' x xs front takes ih =
        let t = encode_loop step useless room (s.enc q') [] xs in
        rw
          (
            append_assoc front (s.pending q') t.text,
            decode_round take_byte R (s.dec q) _ _ _ x (takes t.text),
          )
          (ap (λ l. x ∷ l) ih)

    -- The decoder, given room for the data, finds exactly what the encoder used up.
    pub recovers :
        (room R : ℕ) (q : s.Point) (rest : List ℕ)
        → length rest ≤ R
        → s.Fits q rest
        → Recovers (encode_loop step useless room (s.enc q) (s.pending q) rest) R q rest
    recovers zero R q rest le h =
        rw (encode_loop_full step useless (s.enc q) (s.pending q) rest) (Recovers-stop q R rest h)
    recovers (suc room) R q [] le h =
        rw (encode_loop_end step useless (suc room) (s.enc q) (s.pending q))
          (Recovers-stop q R [] h)
    recovers (suc room) zero q (x ∷ xs) le h = absurd (omega arith)
    recovers (suc room) (suc R) q (x ∷ xs) le h = elim (law.rounds q x xs h) [
      | waits c q' e d p h' ↦
          rw (encode_loop_step step useless room (s.enc q) _ (s.pending q) c x xs _ e, ← p, ← d)
            (recovers room (suc R) q' (x ∷ xs) le h')
      | finds c q' front e u p takes h' ↦
          rw
            (
              encode_loop_step step useless room (s.enc q) _ (s.pending q) c x xs _ e,
              p,
              encode_loop-prefix step useless room (s.enc q') (front ++ s.pending q') xs u,
            )
            (Recovers-found room R q q' x xs front takes (
              rw (encode_loop-prefix step useless room (s.enc q') (s.pending q') xs u) at
                (recovers room R q' xs (omega arith) h')))
    ]
