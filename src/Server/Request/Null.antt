-- ===== src/Server/Request/Null.antt =====
-- The request in a name: `handle_null_request` of iodined.c.
use andiodine.Common.{ℕ, bit_and, ltb, if◌then◌else◌, List, [], ◌∷◌, get_or, Option}
use andiodine.User.{Query, User}
use andiodine.Hostname.{Encoder}
use andiodine.Server.Request.{Config, reply, Handled, request_chars}
use andiodine.Server.Request.Login.{unpack, handle_version, handle_login, handle_ip_request}
use andiodine.Server.Request.Options.{
  letter, handle_codec_switch, handle_options, handle_downenc_check,
}
use andiodine.Server.Request.Options.{handle_fragsize_probe, handle_set_fragsize}
use andiodine.Server.Request.Queries.{handle_ping, is_hex_digit, handle_data}

-- The branches of the handler, by the first char of the name.
pub data Command : Type 0 where
  greeting login ip_request echo codec_switch options downenc_check fragsize_probe set_fragsize ping
        fragment unknown :
      Command

unfoldable pub command_of : ℕ → Command
command_of c =
    if letter b'V' c
    then greeting
    else if letter b'L' c
    then login
    else if letter b'I' c
    then ip_request
    else if letter b'Z' c
    then echo
    else if letter b'S' c
    then codec_switch
    else if letter b'O' c
    then options
    else if letter b'Y' c
    then downenc_check
    else if letter b'R' c
    then fragsize_probe
    else if letter b'N' c
    then set_fragsize
    else if letter b'P' c
    then ping
    else if is_hex_digit c
    then fragment
    else unknown

-- `in[0]`
abbrev pub command_char : Query → (domain_len : ℕ) → ℕ
command_char q domain_len = get_or (request_chars q domain_len) 0 0

module _ (md5 : List ℕ → List ℕ) (uncompress : List ℕ → Option (List ℕ))
    (base64u_encoder : Encoder) where
  -- A branch, with `in`, of which `domain_len` chars count. `random` is what `rand` gives.
  unfoldable pub run :
      Config
      → (now random : ℕ) → List User
      → Query
      → (chars : List ℕ) → (domain_len : ℕ) → Command
      → Handled
  run cfg now random users q chars n greeting = handle_version now random users q (unpack chars n)
  run cfg now random users q chars n login = handle_login md5 cfg now users q (unpack chars n)
  run cfg now random users q chars n ip_request = handle_ip_request cfg now users q chars
  run cfg now random users q chars n echo = (users, reply q chars b'T' ∷ [])
  run cfg now random users q chars n codec_switch = handle_codec_switch cfg now users q chars n
  run cfg now random users q chars n options = handle_options cfg now users q chars n
  run cfg now random users q chars n downenc_check = (users, handle_downenc_check q chars n ∷ [])
  run cfg now random users q chars n fragsize_probe =
      handle_fragsize_probe cfg now (bit_and random 0xff) users q chars n
  run cfg now random users q chars n set_fragsize =
      handle_set_fragsize cfg now users q (unpack chars n)
  run cfg now random users q chars n ping = handle_ping cfg now users q (unpack chars n)
  run cfg now random users q chars n fragment =
      handle_data base64u_encoder uncompress cfg now users q chars n
  run cfg now random users q chars n unknown = (users, [])

  unfoldable pub handle_null_request :
      Config → (now random : ℕ) → List User → Query → (domain_len : ℕ) → Handled
  handle_null_request cfg now random users q domain_len =
      let ran =
        run cfg now random users q (request_chars q domain_len) domain_len
          (command_of (command_char q domain_len)) in
      if ltb domain_len 2 then (users, []) else ran
