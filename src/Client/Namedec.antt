-- ===== src/Client/Namedec.antt =====
-- How the data of an answer is decoded: `dns_namedec` of client.c.
use andiodine.Common.{ℕ, ◌-◌, Bool, ltb, ◌==◌, ◌||◌, if◌then◌else◌}
use andiodine.Common.{List, [], length, get_or, take, drop}
use andiodine.Hostname.{Encoder, unpack_data}
use andiodine.Hostname.Encoders.{base32_encoder, base64_encoder, base128_encoder}

-- A small letter or its capital.
abbrev either_case : ℕ → ℕ → Bool
either_case small c = c == small || c == small - 32

-- A host name, behind whose letter and data there are three chars: ".xy".
abbrev pub from_name : (outdatalen : ℕ) → List ℕ → Encoder → List ℕ
from_name outdatalen buf enc =
    let unpacked = unpack_data outdatalen (drop 1 buf) (length buf - 4) enc in
    if ltb (length buf) 5 then [] else unpacked

-- TXT data.
abbrev pub from_text : (outdatalen : ℕ) → List ℕ → Encoder → List ℕ
from_text outdatalen buf enc =
    let decoded = enc.decode outdatalen (drop 1 buf) in if ltb (length buf) 2 then [] else decoded

-- `buf` holds `buflen` chars, one at least; the warning for an unknown letter is not modelled.
unfoldable pub dns_namedec : (base64u_encoder : Encoder) → (outdatalen : ℕ) → List ℕ → List ℕ
dns_namedec base64u_encoder outdatalen buf =
    let c = get_or buf 0 0 in
    if either_case b'h' c
    then from_name outdatalen buf base32_encoder
    else if either_case b'i' c
    then from_name outdatalen buf base64_encoder
    else if either_case b'j' c
    then from_name outdatalen buf base64u_encoder
    else if either_case b'k' c
    then from_name outdatalen buf base128_encoder
    else if either_case b't' c
    then from_text outdatalen buf base32_encoder
    else if either_case b's' c
    then from_text outdatalen buf base64_encoder
    else if either_case b'u' c
    then from_text outdatalen buf base64u_encoder
    else if either_case b'v' c
    then from_text outdatalen buf base128_encoder
    else if either_case b'r' c
    then take outdatalen (drop 1 buf)
    else []
