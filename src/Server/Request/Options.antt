-- ===== src/Server/Request/Options.antt =====
-- What a client tests and sets before it sends data: the branches of `handle_null_request` of
-- iodined.c that change a codec, the mode or the size of fragments.
use andiodine.Common.{ℕ, zero, suc, ◌+◌, bit_and, bit_or, Bool, true, false, ◌&&◌, ◌||◌, ltb, ◌==◌}
use andiodine.Common.{
  if◌then◌else◌, List, [], ◌∷◌, length, get_or, get_elem?, take, Option, none, some,
}
use andiodine.Common.Bits.{shl, shr}
use andiodine.User.{Query, User, EncoderName, base32, base64, base64u, base128}
use andiodine.Codec.Base32.{b32_8to5}
use andiodine.Server.Users.{user_switch_codec}
use andiodine.Server.Request.{
  Config, Effect, reply, Handled, badlen, badcodec, badfrag, checked, checked_user,
}
use andiodine.Server.Request.Login.{downenc_of}

-- `name` of the encoders.
abbrev pub name_of : EncoderName → List ℕ
name_of base32 = b'B' ∷ b'a' ∷ b's' ∷ b'e' ∷ b'3' ∷ b'2' ∷ []
name_of base64 = b'B' ∷ b'a' ∷ b's' ∷ b'e' ∷ b'6' ∷ b'4' ∷ []
name_of base64u = b'B' ∷ b'a' ∷ b's' ∷ b'e' ∷ b'6' ∷ b'4' ∷ b'u' ∷ []
name_of base128 = b'B' ∷ b'a' ∷ b's' ∷ b'e' ∷ b'1' ∷ b'2' ∷ b'8' ∷ []

abbrev codec_of : ℕ → Option EncoderName
codec_of codec =
    if codec == 5
    then some base32
    else if codec == 6
    then some base64
    else if codec == 26
    then some base64u
    else if codec == 7
    then some base128
    else none

abbrev switch_codec : List User → (userid : ℕ) → Query → Option EncoderName → Handled
switch_codec users userid q none =
    (users, reply q badcodec (downenc_of (get_elem? users userid)) ∷ [])
switch_codec users userid q (some enc) = (
  user_switch_codec users userid enc,
  reply q (name_of enc) (downenc_of (get_elem? users userid)) ∷ [],
)

unfoldable pub handle_codec_switch :
    Config → (now : ℕ) → List User → Query → List ℕ → (domain_len : ℕ) → Handled
handle_codec_switch cfg now users q chars domain_len =
    let userid = b32_8to5 (get_or chars 1 0) in
    let switched = switch_codec users userid q (codec_of (b32_8to5 (get_or chars 2 0))) in
    if ltb domain_len 3
    then (users, reply q badlen b'T' ∷ [])
    else checked cfg now users userid q switched

-- A letter in either case.
abbrev pub letter : ℕ → ℕ → Bool
letter upper c = c == upper || c == upper + 32

abbrev lazy_text : List ℕ
lazy_text = b'L' ∷ b'a' ∷ b'z' ∷ b'y' ∷ []

abbrev immediate_text : List ℕ
immediate_text = b'I' ∷ b'm' ∷ b'm' ∷ b'e' ∷ b'd' ∷ b'i' ∷ b'a' ∷ b't' ∷ b'e' ∷ []

abbrev raw_text : List ℕ
raw_text = b'R' ∷ b'a' ∷ b'w' ∷ []

abbrev with_downenc : Query → User → ℕ → List ℕ → User × List Effect
with_downenc q u enc text = (record u { downenc = enc }, reply q text enc ∷ [])

-- The option in `in[2]`.
unfoldable pub set_option : Query → (option : ℕ) → User → User × List Effect
set_option q option u =
    if letter b'T' option
    then with_downenc q u b'T' (name_of base32)
    else if letter b'S' option
    then with_downenc q u b'S' (name_of base64)
    else if letter b'U' option
    then with_downenc q u b'U' (name_of base64u)
    else if letter b'V' option
    then with_downenc q u b'V' (name_of base128)
    else if letter b'R' option
    then with_downenc q u b'R' raw_text
    else if letter b'L' option
    then (record u { lazy = true }, reply q lazy_text u.downenc ∷ [])
    else if letter b'I' option
    then (record u { lazy = false }, reply q immediate_text u.downenc ∷ [])
    else (u, reply q badcodec u.downenc ∷ [])

unfoldable pub handle_options :
    Config → (now : ℕ) → List User → Query → List ℕ → (domain_len : ℕ) → Handled
handle_options cfg now users q chars domain_len =
    let userid = b32_8to5 (get_or chars 1 0) in
    let set' = checked_user cfg now users userid q (set_option q (get_or chars 2 0)) in
    if ltb domain_len 3 then (users, reply q badlen b'T' ∷ []) else set'

-- `DOWNCODECCHECK1`
abbrev pub downcodeccheck1 : List ℕ
downcodeccheck1 =
    0 ∷ 0 ∷ 0 ∷ 0 ∷ 255 ∷ 255 ∷ 255 ∷ 255 ∷ 85 ∷ 85 ∷ 85 ∷ 85 ∷ 170 ∷ 170 ∷ 170 ∷ 170 ∷ 129 ∷ 99
    ∷ 200 ∷ 210 ∷ 199 ∷ 124 ∷ 178 ∷ 23 ∷ 95 ∷ 79 ∷ 206 ∷ 201 ∷ 73 ∷ 45 ∷ 82 ∷ 33 ∷ 97 ∷ 169 ∷ 113
    ∷ 32 ∷ 37 ∷ 179 ∷ 6 ∷ 115 ∷ 230 ∷ 216 ∷ 68 ∷ 48 ∷ 121 ∷ 80 ∷ 87 ∷ 191 ∷ []

-- `T_TXT`, `T_SRV`, `T_MX`, `T_CNAME` and `T_A`; and `T_NULL` and `T_TXT`.
abbrev name_type : ℕ → Bool
name_type t = t == 16 || (t == 33 || (t == 15 || (t == 5 || t == 1)))

abbrev raw_type : ℕ → Bool
raw_type t = t == 10 || t == 16

-- The encoding that `in[1]` names, if it is available for the type of the query.
abbrev pub available_encoding : (qtype c : ℕ) → Option ℕ
available_encoding qtype c =
    if letter b'T' c && name_type qtype
    then some b'T'
    else if letter b'S' c && name_type qtype
    then some b'S'
    else if letter b'U' c && name_type qtype
    then some b'U'
    else if letter b'V' c && name_type qtype
    then some b'V'
    else if letter b'R' c && raw_type qtype
    then some b'R'
    else none

abbrev pub check_answer : Query → Option ℕ → Effect
check_answer q none = reply q badcodec b'T'
check_answer q (some enc) = reply q downcodeccheck1 enc

unfoldable pub handle_downenc_check : Query → List ℕ → (domain_len : ℕ) → Effect
handle_downenc_check q chars domain_len =
    if ltb domain_len 6
    then reply q badlen b'T'
    else if b32_8to5 (get_or chars 2 0) == 1
    then check_answer q (available_encoding q.qtype (get_or chars 1 0))
    else reply q badlen b'T'

-- The sequence from `v` on, in `buf` from index 3 on.
abbrev pub probe_bytes : (k v : ℕ) → List ℕ
probe_bytes zero v = []
probe_bytes (suc k) v = v ∷ probe_bytes k (bit_and (v + 107) 0xff)

-- `buf`, of 2048 bytes.
abbrev pub probe : (req_frag_size v : ℕ) → List ℕ
probe n v = bit_and (shr n 8) 0xff ∷ bit_and n 0xff ∷ 107 ∷ probe_bytes 2045 v

unfoldable pub requested_size : List ℕ → ℕ
requested_size chars =
    bit_or
      (bit_or (shl (bit_and (b32_8to5 (get_or chars 1 0)) 1) 10)
        (shl (bit_and (b32_8to5 (get_or chars 2 0)) 31) 5))
      (bit_and (b32_8to5 (get_or chars 3 0)) 31)

-- `v` is what `rand` gives, cut to a byte.
unfoldable pub probe_user : (v req_frag_size : ℕ) → Query → User → User × List Effect
probe_user v n q u =
    if ltb n 2 || ltb 2047 n
    then (u, reply q badfrag u.downenc ∷ [])
    else (u, reply q (take n (probe n v)) u.downenc ∷ [])

unfoldable pub handle_fragsize_probe :
    Config → (now v : ℕ) → List User → Query → List ℕ → (domain_len : ℕ) → Handled
handle_fragsize_probe cfg now v users q chars domain_len =
    let userid = bit_and (shr (b32_8to5 (get_or chars 1 0)) 1) 15 in
    let probed = checked_user cfg now users userid q (probe_user v (requested_size chars) q) in
    if ltb domain_len 16 then (users, reply q badlen b'T' ∷ []) else probed

-- `max_frag_size`
abbrev max_frag_size : List ℕ → ℕ
max_frag_size unpacked = bit_or (shl (get_or unpacked 1 0) 8) (get_or unpacked 2 0)

unfoldable pub set_fragsize : Query → (unpacked : List ℕ) → User → User × List Effect
set_fragsize q unpacked u =
    let n = max_frag_size unpacked in
    let taken' = get_or unpacked 1 0 ∷ get_or unpacked 2 0 ∷ [] in
    if ltb n 2
    then (u, reply q badfrag u.downenc ∷ [])
    else (record u { fragsize = n }, reply q taken' u.downenc ∷ [])

unfoldable pub handle_set_fragsize :
    Config → (now : ℕ) → List User → Query → (unpacked : List ℕ) → Handled
handle_set_fragsize cfg now users q unpacked =
    let set' = checked_user cfg now users (get_or unpacked 0 0) q (set_fragsize q unpacked) in
    if ltb (length unpacked) 3 then (users, reply q badlen b'T' ∷ []) else set'
