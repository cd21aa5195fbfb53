-- ===== src/Codec/Base32/Tests.antt =====
-- Runs of base32.c's functions, the first ones with a vector of tests/base32.c.
use andiodine.Common.{ℕ, ◌≡◌, refl, List, [], ◌∷◌}
use andiodine.Codec.{encode_loop, decode_loop}
use andiodine.Codec.Base32.{cb32, rev32, encode_step, useless, encode, decode_step, decode}

abbrev plain : List ℕ
plain =
    b'i' ∷ b'o' ∷ b'd' ∷ b'i' ∷ b'n' ∷ b'e' ∷ b't' ∷ b'e' ∷ b's' ∷ b't' ∷ b'i' ∷ b'n' ∷ b'g' ∷ b't'
    ∷ b'e' ∷ b's' ∷ b't' ∷ b'i' ∷ b'n' ∷ b'g' ∷ []

abbrev encoded : List ℕ
encoded =
    b'n' ∷ b'f' ∷ b'x' ∷ b'w' ∷ b'i' ∷ b'0' ∷ b'l' ∷ b'o' ∷ b'm' ∷ b'v' ∷ b'0' ∷ b'g' ∷ b'k' ∷ b'2'
    ∷ b'1' ∷ b'u' ∷ b'n' ∷ b'f' ∷ b'x' ∷ b'g' ∷ b'o' ∷ b'3' ∷ b'd' ∷ b'f' ∷ b'o' ∷ b'n' ∷ b'0'
    ∷ b'g' ∷ b's' ∷ b'1' ∷ b't' ∷ b'h' ∷ []

encode_vector : (encode 32 plain).text ≡ encoded
unfolding encode encode_step useless cb32 encode_loop
encode_vector = refl

decode_vector : decode 20 encoded ≡ plain
unfolding decode decode_step rev32 decode_loop
decode_vector = refl

-- Six chars of room hold three bytes in five chars: the sixth char would hold half of a byte.
encode_cut :
    encode 6 (0 ∷ 255 ∷ 85 ∷ 170 ∷ [])
    ≡ record { text = b'a' ∷ b'd' ∷ b'5' ∷ b'v' ∷ b'l' ∷ []; left = 170 ∷ [] }
unfolding encode encode_step useless cb32 encode_loop
encode_cut = refl

decode_upper : decode 9 (b'N' ∷ b'F' ∷ b'X' ∷ b'W' ∷ []) ≡ b'i' ∷ b'o' ∷ []
unfolding decode decode_step rev32 decode_loop
decode_upper = refl
