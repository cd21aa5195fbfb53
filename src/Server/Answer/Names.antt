-- ===== src/Server/Answer/Names.antt =====
-- What `write_dns_nameenc` puts into a host name, `dns_namedec` takes out again.
use andiodine.Common.{ℕ, suc, ◌+◌, ◌-◌, ◌/◌, ◌≤◌, ◌≡◌, refl, ap, sym, ◌∙◌, arith, min}
use andiodine.Common.{false, ltb, ◌==◌, if◌then◌else◌, Bool-cases, inl, inr, All}
use andiodine.Common.{List, [], ◌∷◌, ◌++◌, append_assoc, length, replicate, take, drop}
use andiodine.Common.{length-append, length-replicate}
use andiodine.Common.Reversed.{onto}
use andiodine.Common.Bits.{IsByte}
use andiodine.Codec.Text.{IsText}
use andiodine.Hostname.{
  Encoder, c_string, inline_dotify, inline_undotify, unpack_data, end_with_dot,
}
use andiodine.Hostname.WithDots.{with_dots, undots}
use andiodine.Hostname.Dotify.{dotted, c_string-inline_dotify}
use andiodine.Hostname.Undotify.{inline_undotify-undots}
use andiodine.Hostname.RoundTrip.{Encodes, undots-dotted, undots-end_with_dot, if_not}
use andiodine.Hostname.Encoders.{
  base32_encoder, base64_encoder, base128_encoder, base32_encoder-Encodes, base64_encoder-Encodes,
  base128_encoder-Encodes,
}
use andiodine.Server.Answer.{Rotation, nameenc_space, nameenc_with, write_dns_nameenc}
use andiodine.Client.Namedec.{from_name, dns_namedec}

-- A text that begins with `c`.
abbrev StartsWith : ℕ → List ℕ → Type 0
StartsWith c xs = (rest : List ℕ) × (xs ≡ c ∷ rest)

with_dots-onto :
    (c : ℕ) (text front : List ℕ)
    → ((back : List ℕ) → StartsWith c (with_dots front back))
    → (back : List ℕ) → StartsWith c (with_dots (onto text front) back)
with_dots-onto c [] front h back = h back
with_dots-onto c (d ∷ text) front h back = with_dots-onto c text (d ∷ front) (λ back'. h _) back

dotted-StartsWith : (c : ℕ) (text : List ℕ) → StartsWith c (dotted (c ∷ text))
unfolding dotted
dotted-StartsWith c text = with_dots-onto c text (c ∷ []) (λ back. (back, refl)) _

end_with_dot-split : (name : List ℕ) → (init : List ℕ) × (end_with_dot name ≡ init ++ (b'.' ∷ []))
end_with_dot-split [] = ([], refl)
end_with_dot-split (c ∷ []) = elim (Bool-cases (c == b'.')) [
  | inl e ↦ ([], rw e (ap (λ d. d ∷ []) (ground (arith, e))))
  | inr e ↦ (c ∷ [], rw e refl)
]
end_with_dot-split (c ∷ d ∷ cs) =
    let (init, e) = end_with_dot-split (d ∷ cs) in (c ∷ init, ap (λ rest. c ∷ rest) e)

undots-before_dot : (init : List ℕ) → undots (init ++ (b'.' ∷ [])) ≡ undots init
undots-before_dot [] = refl
undots-before_dot (c ∷ init) =
    ap (λ rest. if c == b'.' then rest else c ∷ rest) (undots-before_dot init)

-- A name that begins with a char of the text keeps it, and ends in a dot.
keeps_letter :
    (c : ℕ) (rest : List ℕ)
    → (c == b'.') ≡ false
    → (init : List ℕ) × (end_with_dot (c ∷ rest) ≡ c ∷ (init ++ (b'.' ∷ [])))
keeps_letter c [] h = ([], rw h refl)
keeps_letter c (d ∷ cs) h =
    let (init, e) = end_with_dot-split (d ∷ cs) in (init, ap (λ rest. c ∷ rest) e)

undots_letter : (c : ℕ) (cs : List ℕ) → (c == b'.') ≡ false → undots (c ∷ cs) ≡ c ∷ undots cs
undots_letter c cs h = rw h refl

tail_eq : {c : ℕ} {xs ys : List ℕ} → c ∷ xs ≡ c ∷ ys → xs ≡ ys
tail_eq e = ap (drop 1) e

-- The letter, the text with its dots, and the dot behind it.
dotted_name :
    (c : ℕ) (text : List ℕ)
    → IsText c
    → All IsText text
    → (init : List ℕ) × (end_with_dot (dotted (c ∷ text)) ≡ c ∷ (init ++ (b'.' ∷ [])))
      × (undots init ≡ text)
dotted_name c text hc h =
    let no_dot : (c == b'.') ≡ false = ground (arith, hc) in
    let (rest, starts) = dotted-StartsWith c text in
    let (init, split) = keeps_letter c rest no_dot in
    let whole = ap end_with_dot starts ∙ split in
    let same : undots (end_with_dot (dotted (c ∷ text))) ≡ c ∷ text =
      undots-end_with_dot (dotted (c ∷ text)) ∙ undots-dotted (c ∷ text) (hc, h) in
    (
      init,
      whole,
      tail_eq (
          ap (λ xs. c ∷ xs) (sym (undots-before_dot init))
          ∙ sym (undots_letter c (init ++ (b'.' ∷ [])) no_dot)
          ∙ sym (ap undots whole)
          ∙ same),
    )

nil_of_short : (xs : List ℕ) → length xs ≤ 0 → xs ≡ []
nil_of_short [] h = refl
nil_of_short (x ∷ xs) h = absurd (omega arith)

nil_of_append : (xs ys : List ℕ) → xs ++ ys ≡ [] → xs ≡ []
nil_of_append [] ys e = refl
nil_of_append (x ∷ xs) ys e = cc e

module _ (enc : Encoder) (v : Encodes enc) where
  pub none_of_none : (R : ℕ) → enc.decode R [] ≡ []
  none_of_none R =
      let encoded = enc.encode 0 [] in
      let nothing = nil_of_short encoded.text (v.fits 0 []) in
      nil_of_append (enc.decode R []) encoded.left (
        ap (λ text. enc.decode R text ++ encoded.left) (sym nothing)
        ∙ v.inverse 0 R [] tt (omega arith))

  unpack-undots :
      (R : ℕ) (init rest : List ℕ)
      → unpack_data R (init ++ rest) (length init) enc ≡ enc.decode R (undots init)
  unfolding unpack_data
  unpack-undots R init rest =
      let r = inline_undotify (init ++ rest) (length init) in
      if_not enc.eats_dots (enc.decode R (take r.1 r.0))
        (enc.decode R (take (length init) (init ++ rest))) v.no_dots.1
      ∙ ap (enc.decode R) (inline_undotify-undots init rest)

  from_name-undots :
      (R c x y : ℕ) (init : List ℕ)
      → from_name R (c ∷ (init ++ (b'.' ∷ x ∷ y ∷ []))) enc ≡ enc.decode R (undots init)
  from_name-undots R c x y [] = sym (none_of_none R)
  from_name-undots R c x y (d ∷ init) =
      let end = b'.' ∷ x ∷ y ∷ [] in
      let n = length (init ++ end) in
      let long : n ≡ length init + 3 = length-append init end in
      let fits : ltb (suc (suc n)) 5 ≡ false = ground (arith, long) in
      rw fits (
        ap (λ (k : ℕ). unpack_data R ((d ∷ init) ++ end) k enc) (omega (arith, long))
        ∙ unpack-undots R (d ∷ init) end)

  nameenc-text :
      (buflen : ℕ) (bytes : List ℕ)
      → 6 ≤ buflen
      → let text = (enc.encode (nameenc_space buflen enc) bytes).text in
        2 + length text + (1 + length text) / 57 ≤ buflen
  nameenc-text buflen bytes h =
      let fits = v.fits (nameenc_space buflen enc) bytes in
      let S = min 0xff buflen - 4 - 2 in
      let shrunk : nameenc_space buflen enc ≡ S - S / 57 =
        if_not enc.places_dots (S - S / 57) S v.no_dots.0 in
      omega (arith, fits, shrunk)

  -- The name: its letter, what is decoded to the text, and the topdomain.
  nameenc-split :
      (letter buflen : ℕ) (bytes : List ℕ) (t : Rotation)
      → IsText letter
      → All IsByte bytes
      → 6 ≤ buflen
      → let named = nameenc_with letter enc buflen bytes t in
        (init : List ℕ) × (named.name
          ≡ letter
            ∷ (init ++ (b'.' ∷ (b'a' + named.rotation.td1) ∷ (b'a' + named.rotation.td2) ∷ [])))
        × (undots init ≡ (enc.encode (nameenc_space buflen enc) bytes).text)
  nameenc-split letter buflen bytes t hl hb h =
      let text = (enc.encode (nameenc_space buflen enc) bytes).text in
      let short = nameenc-text buflen bytes h in
      let n = buflen - length (letter ∷ text) - 1 in
      let behind : List ℕ = replicate n 0 in
      let buf : List ℕ = (letter ∷ text) ++ (0 ∷ behind) in
      let is_text = v.is_text (nameenc_space buflen enc) bytes hb in
      let room : length (letter ∷ text) / 57 ≤ length behind =
        omega (arith, short, length-replicate {A = ℕ} n 0) in
      let read =
        ap c_string (if_not enc.places_dots (inline_dotify buf buflen) buf v.no_dots.0)
        ∙ c_string-inline_dotify (letter ∷ text) behind buflen (hl, is_text) (omega (arith, short))
            room in
      let named = nameenc_with letter enc buflen bytes t in
      let x = b'a' + named.rotation.td1 in
      let y = b'a' + named.rotation.td2 in
      let (init, whole, undone) = dotted_name letter text hl is_text in
      (
        init,
        ap (λ name. end_with_dot name ++ (x ∷ y ∷ [])) read
            ∙ ap (λ name. name ++ (x ∷ y ∷ [])) whole
            ∙ ap (λ name. letter ∷ name) (append_assoc init (b'.' ∷ []) (x ∷ y ∷ [])),
        undone,
      )

  module _ (base64u_encoder : Encoder) where
    -- A name whose letter stands for this encoder.
    namedec-nameenc :
        (letter buflen R : ℕ) (bytes : List ℕ) (t : Rotation)
        → IsText letter
        → All IsByte bytes
        → 6 ≤ buflen
        → length bytes ≤ R
        → ((rest : List ℕ)
            → dns_namedec base64u_encoder R (letter ∷ rest) ≡ from_name R (letter ∷ rest) enc)
        → let named = nameenc_with letter enc buflen bytes t in
          dns_namedec base64u_encoder R named.name ++ named.left ≡ bytes
    namedec-nameenc letter buflen R bytes t hl hb h hr chosen =
        let named = nameenc_with letter enc buflen bytes t in
        let x = b'a' + named.rotation.td1 in
        let y = b'a' + named.rotation.td2 in
        let (init, is_name, undone) = nameenc-split letter buflen bytes t hl hb h in
        ap (λ got. got ++ named.left)
          (ap (dns_namedec base64u_encoder R) is_name
            ∙ chosen (init ++ (b'.' ∷ x ∷ y ∷ []))
            ∙ from_name-undots R letter x y init
            ∙ ap (enc.decode R) undone)
        ∙ v.inverse (nameenc_space buflen enc) R bytes hb hr

module _ (base64u_encoder : Encoder) (v : Encodes base64u_encoder) where
  starts_h :
      (R : ℕ) (rest : List ℕ)
      → dns_namedec base64u_encoder R (b'h' ∷ rest) ≡ from_name R (b'h' ∷ rest) base32_encoder
  unfolding dns_namedec
  starts_h R rest = refl

  starts_i :
      (R : ℕ) (rest : List ℕ)
      → dns_namedec base64u_encoder R (b'i' ∷ rest) ≡ from_name R (b'i' ∷ rest) base64_encoder
  unfolding dns_namedec
  starts_i R rest = refl

  starts_j :
      (R : ℕ) (rest : List ℕ)
      → dns_namedec base64u_encoder R (b'j' ∷ rest) ≡ from_name R (b'j' ∷ rest) base64u_encoder
  unfolding dns_namedec
  starts_j R rest = refl

  starts_k :
      (R : ℕ) (rest : List ℕ)
      → dns_namedec base64u_encoder R (b'k' ∷ rest) ≡ from_name R (b'k' ∷ rest) base128_encoder
  unfolding dns_namedec
  starts_k R rest = refl

  -- For every downenc, an encoder for base64u that keeps the laws of encoders, and a buffer of
  -- six bytes or more: from the host name that write_dns_nameenc writes dns_namedec gets exactly
  -- the data that was put in, if it has room for all of the data; with the data not put in it is
  -- all of it.
  pub dns_namedec-write_dns_nameenc :
      (buflen R downenc : ℕ) (bytes : List ℕ) (t : Rotation)
      → All IsByte bytes
      → 6 ≤ buflen
      → length bytes ≤ R
      → let named = write_dns_nameenc base64u_encoder buflen bytes downenc t in
        dns_namedec base64u_encoder R named.name ++ named.left ≡ bytes
  unfolding write_dns_nameenc
  dns_namedec-write_dns_nameenc buflen R downenc bytes t hb h hr =
      elim (Bool-cases (downenc == b'S')) [
        | inl s ↦ rw s (
            namedec-nameenc base64_encoder base64_encoder-Encodes base64u_encoder b'i' buflen R
              bytes t (ground arith) hb h hr (starts_i R))
        | inr s ↦ elim (Bool-cases (downenc == b'U')) [
          | inl u ↦
              rw (s, u)
                (namedec-nameenc base64u_encoder v base64u_encoder b'j' buflen R bytes t
                  (ground arith) hb h hr (starts_j R))
          | inr u ↦ elim (Bool-cases (downenc == b'V')) [
            | inl w ↦
                rw (s, u, w)
                  (namedec-nameenc base128_encoder base128_encoder-Encodes base64u_encoder b'k'
                    buflen R bytes t (ground arith) hb h hr (starts_k R))
            | inr w ↦
                rw (s, u, w)
                  (namedec-nameenc base32_encoder base32_encoder-Encodes base64u_encoder b'h' buflen
                    R bytes t (ground arith) hb h hr (starts_h R))
          ]
        ]
      ]
