-- ===== src/Server/Answer/Tests.antt =====
-- Answers at concrete data.
use andiodine.Common.{ℕ, ◌≡◌, refl, arith, List, [], ◌∷◌, ◌++◌, replicate}
use andiodine.Hostname.Encoders.{base64_encoder, base64_encoder-Encodes}
use andiodine.Server.Answer.{Rotation, write_dns_nameenc, txt_data}
use andiodine.Server.Answer.Names.{dns_namedec-write_dns_nameenc}
use andiodine.Server.Answer.Txt.{dns_namedec-txt_data}
use andiodine.Client.Namedec.{dns_namedec}

abbrev rotation : Rotation
rotation = record { td1 = 24; td2 = 20 }

-- 60 bytes, which are more than one label of chars.
abbrev sixty : List ℕ
sixty = replicate 30 0xa5 ++ replicate 30 0x5a

dns_namedec-write_dns_nameenc_example :
    let named = write_dns_nameenc base64_encoder 1024 sixty b'V' rotation in
    dns_namedec base64_encoder 4096 named.name ++ named.left ≡ sixty
dns_namedec-write_dns_nameenc_example =
    dns_namedec-write_dns_nameenc base64_encoder base64_encoder-Encodes 1024 4096 b'V' sixty
      rotation (ground arith) (omega arith) (omega arith)

dns_namedec-txt_data_example :
    let (text, left) = txt_data base64_encoder 65536 (7 ∷ 0 ∷ 255 ∷ []) b'S' in
    dns_namedec base64_encoder 4096 text ++ left ≡ 7 ∷ 0 ∷ 255 ∷ []
dns_namedec-txt_data_example =
    dns_namedec-txt_data base64_encoder base64_encoder-Encodes 65536 4096 b'S' (7 ∷ 0 ∷ 255 ∷ [])
      (omega arith) (omega arith)

rotated : (write_dns_nameenc base64_encoder 1024 (1 ∷ []) b'T' rotation).rotation.td1 ≡ 1
unfolding write_dns_nameenc
rotated = refl
