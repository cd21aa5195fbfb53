-- ===== src/Hostname/Encoders.antt =====
-- The `struct encoder` tables of base32.c, base64.c and base128.c.
use andiodine.Common.{refl, false}
use andiodine.Codec.Base32
use andiodine.Codec.Base64
use andiodine.Codec.Base128
use andiodine.Codec.Base32.RoundTrip.{base32_decode-encode}
use andiodine.Codec.Base64.RoundTrip.{base64_decode-encode}
use andiodine.Codec.Base128.RoundTrip.{base128_decode-encode}
use andiodine.Codec.Base32.Size.{base32_encode-length}
use andiodine.Codec.Base64.Size.{base64_encode-length}
use andiodine.Codec.Base128.Size.{base128_encode-length}
use andiodine.Codec.Base32.Text.{base32_encode-IsText}
use andiodine.Codec.Base64.Text.{base64_encode-IsText}
use andiodine.Codec.Base128.Text.{base128_encode-IsText}
use andiodine.Hostname.{Encoder}
use andiodine.Hostname.RoundTrip.{Encodes}

-- `base32_encoder`.
abbrev pub base32_encoder : Encoder
base32_encoder = record {
  encode = Base32.encode;
  decode = Base32.decode;
  places_dots = false;
  eats_dots = false;
}

pub base32_encoder-Encodes : Encodes base32_encoder
base32_encoder-Encodes = record {
  no_dots = (refl, refl);
  is_text = base32_encode-IsText;
  fits = λ buflen bytes. (base32_encode-length buflen bytes).0;
  inverse = base32_decode-encode;
}

-- `base64_encoder`.
abbrev pub base64_encoder : Encoder
base64_encoder = record {
  encode = Base64.encode;
  decode = Base64.decode;
  places_dots = false;
  eats_dots = false;
}

pub base64_encoder-Encodes : Encodes base64_encoder
base64_encoder-Encodes = record {
  no_dots = (refl, refl);
  is_text = base64_encode-IsText;
  fits = λ buflen bytes. (base64_encode-length buflen bytes).0;
  inverse = base64_decode-encode;
}

-- `base128_encoder`.
abbrev pub base128_encoder : Encoder
base128_encoder = record {
  encode = Base128.encode;
  decode = Base128.decode;
  places_dots = false;
  eats_dots = false;
}

pub base128_encoder-Encodes : Encodes base128_encoder
base128_encoder-Encodes = record {
  no_dots = (refl, refl);
  is_text = base128_encode-IsText;
  fits = λ buflen bytes. (base128_encode-length buflen bytes).0;
  inverse = base128_decode-encode;
}
