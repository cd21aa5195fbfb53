-- ===== src/Server/Answer/Txt.antt =====
-- What `write_dns` puts into an answer of type TXT, `dns_namedec` takes out again.
use andiodine.Common.{ℕ, zero, suc, ◌-◌, ◌≤◌, ◌≡◌, refl, ap, sym, ◌∙◌, arith, ltb, ◌==◌}
use andiodine.Common.{Bool-cases, inl, inr, All, false}
use andiodine.Common.{List, [], ◌∷◌, ◌++◌, length, take, drop, take-append-drop, length-take}
use andiodine.Common.Bits.{IsByte}
use andiodine.Hostname.{Encoder}
use andiodine.Hostname.RoundTrip.{Encodes}
use andiodine.Hostname.Encoders.{
  base32_encoder, base64_encoder, base128_encoder, base32_encoder-Encodes, base64_encoder-Encodes,
  base128_encoder-Encodes,
}
use andiodine.Server.Answer.{txt_data}
use andiodine.Server.Answer.Names.{none_of_none}
use andiodine.Client.Namedec.{from_text, dns_namedec}

take_more : (n : ℕ) (xs : List ℕ) → length xs ≤ n → take n xs ≡ xs
take_more zero [] h = refl
take_more zero (x ∷ xs) h = absurd (omega arith)
take_more (suc n) [] h = refl
take_more (suc n) (x ∷ xs) h = ap (λ ys. x ∷ ys) (take_more n xs (omega arith))

module _ (enc : Encoder) (v : Encodes enc) where
  from_text-letter : (R c : ℕ) (text : List ℕ) → from_text R (c ∷ text) enc ≡ enc.decode R text
  from_text-letter R c [] = sym (none_of_none enc v R)
  from_text-letter R c (d ∷ text) =
      let long : ltb (suc (suc (length text))) 2 ≡ false = ground arith in rw long refl

  -- A text whose letter stands for this encoder.
  namedec-text :
      (base64u_encoder : Encoder) (letter size R : ℕ) (bytes : List ℕ)
      → All IsByte bytes
      → length bytes ≤ R
      → let encoded = enc.encode size bytes in
        dns_namedec base64u_encoder R (letter ∷ encoded.text)
          ≡ from_text R (letter ∷ encoded.text) enc
        → dns_namedec base64u_encoder R (letter ∷ encoded.text) ++ encoded.left ≡ bytes
  namedec-text base64u_encoder letter size R bytes hb hr chosen =
      let encoded = enc.encode size bytes in
      ap (λ got. got ++ encoded.left) (chosen ∙ from_text-letter R letter encoded.text)
      ∙ v.inverse size R bytes hb hr

module _ (base64u_encoder : Encoder) (v : Encodes base64u_encoder) where
  starts_t :
      (R : ℕ) (rest : List ℕ)
      → dns_namedec base64u_encoder R (b't' ∷ rest) ≡ from_text R (b't' ∷ rest) base32_encoder
  unfolding dns_namedec
  starts_t R rest = refl

  starts_s :
      (R : ℕ) (rest : List ℕ)
      → dns_namedec base64u_encoder R (b's' ∷ rest) ≡ from_text R (b's' ∷ rest) base64_encoder
  unfolding dns_namedec
  starts_s R rest = refl

  starts_u :
      (R : ℕ) (rest : List ℕ)
      → dns_namedec base64u_encoder R (b'u' ∷ rest) ≡ from_text R (b'u' ∷ rest) base64u_encoder
  unfolding dns_namedec
  starts_u R rest = refl

  starts_v :
      (R : ℕ) (rest : List ℕ)
      → dns_namedec base64u_encoder R (b'v' ∷ rest) ≡ from_text R (b'v' ∷ rest) base128_encoder
  unfolding dns_namedec
  starts_v R rest = refl

  namedec-raw :
      (size R : ℕ) (bytes : List ℕ)
      → length bytes ≤ R
      → dns_namedec base64u_encoder R (b'r' ∷ take size bytes) ++ drop size bytes ≡ bytes
  unfolding dns_namedec
  namedec-raw size R bytes h =
      ap (λ got. got ++ drop size bytes)
        (take_more R (take size bytes) (omega (arith, length-take size bytes)))
      ∙ take-append-drop size bytes

  -- For every downenc, raw data included, and an encoder for base64u that keeps the laws of
  -- encoders: from the text of a TXT answer dns_namedec gets exactly the data that was put in, if
  -- it has room for all of the data; with the data not put in it is all of it.
  pub dns_namedec-txt_data :
      (size R downenc : ℕ) (bytes : List ℕ)
      → All IsByte bytes
      → length bytes ≤ R
      → let (text, left) = txt_data base64u_encoder size bytes downenc in
        dns_namedec base64u_encoder R text ++ left ≡ bytes
  unfolding txt_data
  dns_namedec-txt_data size R downenc bytes hb h =
      let n = size - 1 in
      elim (Bool-cases (downenc == b'S')) [
        | inl s ↦ rw s (
            namedec-text base64_encoder base64_encoder-Encodes base64u_encoder b's' n R bytes hb h
              (starts_s R _))
        | inr s ↦ elim (Bool-cases (downenc == b'U')) [
          | inl u ↦
              rw (s, u)
                (namedec-text base64u_encoder v base64u_encoder b'u' n R bytes hb h (starts_u R _))
          | inr u ↦ elim (Bool-cases (downenc == b'V')) [
            | inl w ↦
                rw (s, u, w)
                  (namedec-text base128_encoder base128_encoder-Encodes base64u_encoder b'v' n R
                    bytes hb h (starts_v R _))
            | inr w ↦ elim (Bool-cases (downenc == b'R')) [
              | inl r ↦ rw (s, u, w, r) (namedec-raw n R bytes h)
              | inr r ↦
                  rw (s, u, w, r)
                    (namedec-text base32_encoder base32_encoder-Encodes base64u_encoder b't' n R
                      bytes hb h (starts_t R _))
            ]
          ]
        ]
      ]
