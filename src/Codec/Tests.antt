-- ===== src/Codec/Tests.antt =====
-- Runs of the three encodings, and their theorems at concrete data.
use andiodine.Common.{ℕ, ◌+◌, ◌*◌, ◌≤◌, ◌<◌, ◌≡◌, arith, List, [], ◌∷◌, ◌++◌, length}
use andiodine.Codec.Base32
use andiodine.Codec.Base64
use andiodine.Codec.Base128
use andiodine.Codec.Base32.RoundTrip.{base32_decode-encode}
use andiodine.Codec.Base64.RoundTrip.{base64_decode-encode}
use andiodine.Codec.Base128.RoundTrip.{base128_decode-encode}
use andiodine.Codec.Base32.Size.{base32_encode-length}
use andiodine.Codec.Base32.CaseFold.{base32_decode-to_lower, to_lower}
use mathlib.Core.List.{map}

-- Six bytes: more than a block of base32 and two blocks of base64.
abbrev sample : List ℕ
sample = 0 ∷ 255 ∷ 85 ∷ 170 ∷ 129 ∷ 99 ∷ []

base32_decode-encode_example :
    Base32.decode 6 (Base32.encode 6 sample).text ++ (Base32.encode 6 sample).left ≡ sample
base32_decode-encode_example = base32_decode-encode 6 6 sample (omega arith) (omega arith)

base64_decode-encode_example :
    Base64.decode 6 (Base64.encode 7 sample).text ++ (Base64.encode 7 sample).left ≡ sample
base64_decode-encode_example = base64_decode-encode 7 6 sample (omega arith) (omega arith)

base128_decode-encode_example :
    Base128.decode 6 (Base128.encode 7 sample).text ++ (Base128.encode 7 sample).left ≡ sample
base128_decode-encode_example = base128_decode-encode 7 6 sample (omega arith) (omega arith)

base32_encode-length_example :
    let e = Base32.encode 6 sample in
    (length e.text ≤ 6)
    × (48 ≤ 5 * length e.text + 8 * length e.left)
    × (5 * length e.text + 8 * length e.left < 53)
base32_encode-length_example = base32_encode-length 6 sample

base32_decode-to_lower_example :
    Base32.decode 9 (map to_lower (b'N' ∷ b'f' ∷ b'X' ∷ b'w' ∷ []))
    ≡ Base32.decode 9 (b'N' ∷ b'f' ∷ b'X' ∷ b'w' ∷ [])
base32_decode-to_lower_example =
    base32_decode-to_lower 9 (b'N' ∷ b'f' ∷ b'X' ∷ b'w' ∷ []) (omega arith)
