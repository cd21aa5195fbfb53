-- ===== src/Server/Answer.antt =====
-- How the data of an answer is encoded: `write_dns` and `write_dns_nameenc` of iodined.c.
pub mod Names
pub mod Txt
mod Tests
use andiodine.Common.{ℕ, ◌+◌, ◌-◌, ◌/◌, min, Bool, true, false, not, leb, ◌==◌, if◌then◌else◌}
use andiodine.Common.{List, [], ◌∷◌, ◌++◌, length, take, drop, replicate}
use andiodine.Hostname.{Encoder, c_string, inline_dotify, end_with_dot}
use andiodine.Hostname.Encoders.{base32_encoder, base64_encoder, base128_encoder}

-- `td1` and `td2`.
pub record Rotation : Type 0 where
  pub td1 : ℕ
  pub td2 : ℕ

abbrev rotate : Rotation → Rotation
rotate t = record {
  td1 = if leb 26 (t.td1 + 3) then t.td1 + 3 - 26 else t.td1 + 3;
  td2 = if leb 25 (t.td2 + 7) then t.td2 + 7 - 25 else t.td2 + 7;
}

-- What a name or a text holds: `name` of a host name, the data that was not encoded, and the
-- counters of the topdomain.
pub record Named : Type 0 where
  pub name : List ℕ
  pub left : List ℕ
  pub rotation : Rotation

-- `space`, the most chars of encoded text.
abbrev pub nameenc_space : (buflen : ℕ) → Encoder → ℕ
nameenc_space buflen enc =
    let space = min 0xff buflen - 4 - 2 in if not enc.places_dots then space - space / 57 else space

-- The string in `buf`, which has six bytes or more.
abbrev pub nameenc_with : (letter : ℕ) → Encoder → (buflen : ℕ) → List ℕ → Rotation → Named
nameenc_with letter enc buflen bytes t =
    let encoded = enc.encode (nameenc_space buflen enc) bytes in
    let text = letter ∷ encoded.text in
    let buf = text ++ (0 ∷ replicate (buflen - length text - 1) 0) in
    let name = c_string (if not enc.places_dots then inline_dotify buf buflen else buf) in
    let t' = rotate t in
    record {
      name = end_with_dot name ++ ((b'a' + t'.td1) ∷ (b'a' + t'.td2) ∷ []);
      left = encoded.left;
      rotation = t';
    }

-- `buf[0]`
abbrev pub nameenc_letter : (downenc : ℕ) → ℕ
nameenc_letter downenc =
    if downenc == b'S'
    then b'i'
    else if downenc == b'U'
    then b'j'
    else if downenc == b'V'
    then b'k'
    else b'h'

module _ (base64u_encoder : Encoder) where
  abbrev pub encoder_for : (downenc : ℕ) → Encoder
  encoder_for downenc =
      if downenc == b'S'
      then base64_encoder
      else if downenc == b'U'
      then base64u_encoder
      else if downenc == b'V'
      then base128_encoder
      else base32_encoder

  unfoldable pub write_dns_nameenc : (buflen : ℕ) → List ℕ → (downenc : ℕ) → Rotation → Named
  write_dns_nameenc buflen bytes downenc t =
      nameenc_with (nameenc_letter downenc) (encoder_for downenc) buflen bytes t

  -- `txtbuf`, in an answer of type TXT, and the data that is not in it.
  unfoldable pub txt_data : (size : ℕ) → List ℕ → (downenc : ℕ) → List ℕ × List ℕ
  txt_data size bytes downenc =
      let s = base64_encoder.encode (size - 1) bytes in
      let u = base64u_encoder.encode (size - 1) bytes in
      let v = base128_encoder.encode (size - 1) bytes in
      let t = base32_encoder.encode (size - 1) bytes in
      if downenc == b'S'
      then (b's' ∷ s.text, s.left)
      else if downenc == b'U'
      then (b'u' ∷ u.text, u.left)
      else if downenc == b'V'
      then (b'v' ∷ v.text, v.left)
      else if downenc == b'R'
      then (b'r' ∷ take (size - 1) bytes, drop (size - 1) bytes)
      else (b't' ∷ t.text, t.left)
