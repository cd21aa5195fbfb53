-- ===== src/Hostname/RoundTrip.antt =====
-- What `build_hostname` puts into a host name, `unpack_data` takes out again.
use andiodine.Common.{ℕ, ◌+◌, ◌-◌, ◌/◌, ◌≤◌, ◌≡◌, refl, ap, ◌∙◌, arith, min}
use andiodine.Common.{
  Bool, true, false, not, ltb, ◌==◌, ◌&&◌, if◌then◌else◌, Bool-cases, inl, inr, All,
}
use andiodine.Common.{List, [], ◌∷◌, ◌++◌, append-nil, length, replicate, take}
use andiodine.Common.{length-append, length-replicate}
use andiodine.Common.Reversed.{onto, onto-onto_nil, All-onto, length-onto}
use andiodine.Common.Bits.{IsByte}
use andiodine.Codec.Text.{IsText}
use andiodine.Hostname.{Encoder, c_string, inline_dotify, inline_undotify, unpack_data}
use andiodine.Hostname.{end_with_dot, hostname_space, build_hostname}
use andiodine.Hostname.WithDots.{room, dot_behind, undots, undots-with_dots, labels_fit}
use andiodine.Hostname.WithDots.{labels_fit-with_dots, length-with_dots}
use andiodine.Hostname.Dotify.{dotted, c_string-inline_dotify}
use andiodine.Hostname.Undotify.{inline_undotify-undots}

-- What the encoders of base32.c, base64.c and base128.c have in common.
pub record Encodes (enc : Encoder) : Type 0 where
  pub no_dots : (enc.places_dots ≡ false) × (enc.eats_dots ≡ false)
  pub is_text :
      (buflen : ℕ) (bytes : List ℕ) → All IsByte bytes → All IsText (enc.encode buflen bytes).text
  pub fits : (buflen : ℕ) (bytes : List ℕ) → length (enc.encode buflen bytes).text ≤ buflen
  pub inverse :
      (buflen R : ℕ) (bytes : List ℕ)
      → All IsByte bytes
      → length bytes ≤ R
      → enc.decode R (enc.encode buflen bytes).text ++ (enc.encode buflen bytes).left ≡ bytes

undots_text : (text : List ℕ) → All IsText text → undots text ≡ text
undots_text [] h = refl
undots_text (c ∷ text) (hc, h) =
    let e : (c == b'.') ≡ false = ground (arith, hc) in rw (e, undots_text text h) refl

undots-end : (dot : Bool) → undots (if dot then b'.' ∷ [] else []) ≡ []
undots-end true = refl
undots-end false = refl

-- The dots that were put in are taken out again.
pub undots-dotted : (text : List ℕ) → All IsText text → undots (dotted text) ≡ text
unfolding dotted
undots-dotted text h =
    let dot = dot_behind (length text) in
    undots-with_dots (onto text []) (if dot then b'.' ∷ [] else []) (All-onto IsText text [] h tt)
    ∙ ap (onto (onto text [])) (undots-end dot)
    ∙ onto-onto_nil text [] []
    ∙ append-nil text

pub undots-end_with_dot : (name : List ℕ) → undots (end_with_dot name) ≡ undots name
undots-end_with_dot [] = refl
undots-end_with_dot (c ∷ []) = elim (Bool-cases (c == b'.')) [
  | inl e ↦ rw e (rw e refl)
  | inr e ↦ rw e (rw e refl)
]
undots-end_with_dot (c ∷ d ∷ cs) =
    ap (λ rest. if c == b'.' then rest else c ∷ rest) (undots-end_with_dot (d ∷ cs))

more_fits :
    {x x' y y' : Bool} (b m : Bool)
    → (x ≡ true → x' ≡ true)
    → (y ≡ true → y' ≡ true)
    → (if b then x else m && y) ≡ true
    → (if b then x' else m && y') ≡ true
more_fits true m f g h = f h
more_fits false true f g h = g h
more_fits false false f g h = h

labels_fit-end_with_dot :
    (r : ℕ) (name : List ℕ) → labels_fit r name ≡ true → labels_fit r (end_with_dot name) ≡ true
labels_fit-end_with_dot r [] h = refl
labels_fit-end_with_dot r (c ∷ []) h = elim (Bool-cases (c == b'.')) [
  | inl e ↦ rw e h
  | inr e ↦ rw e h
]
labels_fit-end_with_dot r (c ∷ d ∷ cs) h =
    more_fits (c == b'.') (ltb 0 r) (labels_fit-end_with_dot 57 (d ∷ cs))
      (labels_fit-end_with_dot (r - 1) (d ∷ cs)) h

length-end_with_dot : (name : List ℕ) → length (end_with_dot name) ≤ length name + 1
length-end_with_dot [] = omega arith
length-end_with_dot (c ∷ []) = elim (Bool-cases (c == b'.')) [
  | inl e ↦ rw e (omega arith)
  | inr e ↦ rw e (omega arith)
]
length-end_with_dot (c ∷ d ∷ cs) = omega (arith, length-end_with_dot (d ∷ cs))

labels_fit-end : (r : ℕ) (dot : Bool) → labels_fit r (if dot then b'.' ∷ [] else []) ≡ true
labels_fit-end r true = refl
labels_fit-end r false = refl

labels_fit-dotted : (text : List ℕ) → All IsText text → labels_fit 57 (dotted text) ≡ true
unfolding dotted
labels_fit-dotted text h =
    labels_fit-with_dots (onto text []) (if dot_behind (length text) then b'.' ∷ [] else [])
      (All-onto IsText text [] h tt)
      (labels_fit-end (room (length (onto text []))) (dot_behind (length text)))

length-end : (dot : Bool) → length {A = ℕ} (if dot then b'.' ∷ [] else []) ≡ (if dot then 1 else 0)
length-end true = refl
length-end false = refl

length-dotted : (text : List ℕ) → length (dotted text) ≤ length text + length text / 57
unfolding dotted
length-dotted text =
    let dot = dot_behind (length text) in
    let e = length-with_dots (onto text []) (if dot then b'.' ∷ [] else []) in
    ground (arith, e, length-onto text [], length-end dot)

-- The name before the topdomain: its chars are the encoder's, with dots.
name_of : (buflen : ℕ) → List ℕ → (topdomain : List ℕ) → Encoder → (maxlen : ℕ) → List ℕ
name_of buflen bytes topdomain enc maxlen =
    end_with_dot
      (dotted (enc.encode (hostname_space buflen maxlen (length topdomain) enc) bytes).text)

pub if_not {ℓ} : {A : Type ℓ} → (b : Bool) (x y : A) → b ≡ false → (if not b then x else y) ≡ x
if_not b x y e = rw e refl

module _ (enc : Encoder) (v : Encodes enc) where
  -- The space that is left for the dots is enough.
  dots_fit :
      (buflen maxlen n : ℕ) (bytes : List ℕ)
      → n + 8 ≤ min maxlen buflen
      → let text = (enc.encode (hostname_space buflen maxlen n enc) bytes).text in
        length text + length text / 57 + n + 8 ≤ min maxlen buflen
  dots_fit buflen maxlen n bytes h =
      let fits = v.fits (hostname_space buflen maxlen n enc) bytes in
      let S = min maxlen buflen - n - 8 in
      let shrunk : hostname_space buflen maxlen n enc ≡ S - S / 57 =
        if_not enc.places_dots (S - S / 57) S v.no_dots.0 in
      omega (arith, fits, shrunk, h)

  build_hostname-name :
      (buflen : ℕ) (bytes topdomain : List ℕ) (maxlen : ℕ)
      → All IsByte bytes
      → length topdomain + 8 ≤ min maxlen buflen
      → (build_hostname buflen bytes topdomain enc maxlen).0
        ≡ name_of buflen bytes topdomain enc maxlen ++ topdomain
  unfolding build_hostname name_of
  build_hostname-name buflen bytes topdomain maxlen hb h =
      let space = hostname_space buflen maxlen (length topdomain) enc in
      let text = (enc.encode space bytes).text in
      let fits = dots_fit buflen maxlen (length topdomain) bytes h in
      let buf = text ++ (0 ∷ replicate (buflen - length text - 1) 0) in
      ap (λ b. end_with_dot (c_string b) ++ topdomain)
        (if_not enc.places_dots (inline_dotify buf buflen) buf v.no_dots.0)
      ∙ ap (λ name. end_with_dot name ++ topdomain)
          (c_string-inline_dotify text (replicate (buflen - length text - 1) 0) buflen
            (v.is_text space bytes hb) (omega (arith, fits))
            (omega (arith, fits, length-replicate {A = ℕ} (buflen - length text - 1) 0)))

  -- The data of a name, of which `topdomain` is the end.
  unpack_data-name :
      (buflen outlen maxlen : ℕ) (bytes topdomain : List ℕ)
      → All IsByte bytes
      → let name = name_of buflen bytes topdomain enc maxlen in
        let space = hostname_space buflen maxlen (length topdomain) enc in
        unpack_data outlen (name ++ topdomain) (length (name ++ topdomain) - length topdomain) enc
        ≡ enc.decode outlen (enc.encode space bytes).text
  unfolding unpack_data name_of
  unpack_data-name buflen outlen maxlen bytes topdomain hb =
      let name = name_of buflen bytes topdomain enc maxlen in
      let text = (enc.encode (hostname_space buflen maxlen (length topdomain) enc) bytes).text in
      let shorter : length (name ++ topdomain) - length topdomain ≡ length name =
        omega (arith, length-append name topdomain) in
      let r = inline_undotify (name ++ topdomain) (length name) in
      ap (λ (n : ℕ). unpack_data outlen (name ++ topdomain) n enc) shorter
      ∙ if_not enc.eats_dots (enc.decode outlen (take r.1 r.0))
          (enc.decode outlen (take (length name) (name ++ topdomain))) v.no_dots.1
      ∙ ap (enc.decode outlen) (
          inline_undotify-undots name topdomain
          ∙ undots-end_with_dot (dotted text)
          ∙ undots-dotted text
              (v.is_text (hostname_space buflen maxlen (length topdomain) enc) bytes hb))

  -- For an encoder whose text has neither dots nor zeros, keeps to the space it is given and is
  -- decoded to the data used up, and a topdomain that leaves eight chars of the buffer and of
  -- maxlen: from the chars before the topdomain unpack_data gets exactly the data that
  -- build_hostname put in, if it has room for all of the data; with the data not used up it is
  -- all of it.
  pub unpack_data-build_hostname :
      (buflen outlen maxlen : ℕ) (bytes topdomain : List ℕ)
      → All IsByte bytes
      → length bytes ≤ outlen
      → length topdomain + 8 ≤ min maxlen buflen
      → let (host, left) = build_hostname buflen bytes topdomain enc maxlen in
        unpack_data outlen host (length host - length topdomain) enc ++ left ≡ bytes
  unfolding unpack_data build_hostname
  unpack_data-build_hostname buflen outlen maxlen bytes topdomain hb ho h =
      let name = name_of buflen bytes topdomain enc maxlen in
      let named = build_hostname-name buflen bytes topdomain maxlen hb h in
      let space = hostname_space buflen maxlen (length topdomain) enc in
      ap
        (λ host.
          unpack_data outlen host (length host - length topdomain) enc
          ++ (build_hostname buflen bytes topdomain enc maxlen).1)
        named
      ∙ ap (λ got. got ++ (enc.encode space bytes).left)
          (unpack_data-name buflen outlen maxlen bytes topdomain hb)
      ∙ v.inverse space outlen bytes hb ho

  -- For such an encoder and topdomain, the host name that build_hostname writes is a name and the
  -- topdomain, with at most 57 chars between two dots of the name, and is at least seven chars
  -- shorter than the buffer and than maxlen.
  pub build_hostname_lem :
      (buflen maxlen : ℕ) (bytes topdomain : List ℕ)
      → All IsByte bytes
      → length topdomain + 8 ≤ min maxlen buflen
      → let host = (build_hostname buflen bytes topdomain enc maxlen).0 in
        (name : List ℕ) × (host ≡ name ++ topdomain)
        × (labels_fit 57 name ≡ true)
        × (length host + 7 ≤ min maxlen buflen)
  unfolding name_of
  build_hostname_lem buflen maxlen bytes topdomain hb h =
      let name = name_of buflen bytes topdomain enc maxlen in
      let named = build_hostname-name buflen bytes topdomain maxlen hb h in
      let space = hostname_space buflen maxlen (length topdomain) enc in
      let text = (enc.encode space bytes).text in
      (
        name,
        named,
        labels_fit-end_with_dot 57 (dotted text)
            (labels_fit-dotted text (v.is_text space bytes hb)),
        omega (
          arith,
          ap length named,
          length-append name topdomain,
          length-end_with_dot (dotted text),
          length-dotted text,
          dots_fit buflen maxlen (length topdomain) bytes h,
        ),
      )
