-- ===== src/Server/Request/Login.antt =====
-- Version greeting, login and the request for an address: the first branches of
-- `handle_null_request` of iodined.c.
use andiodine.Common.{
  ℕ, zero, suc, ◌+◌, ◌-◌, ◌*◌, ◌/◌, ◌%◌, ◌^◌, Bool, true, false, ◌&&◌, ltb, leb, ◌==◌,
}
use andiodine.Common.{
  same_bytes, if◌then◌else◌, List, [], ◌∷◌, ◌++◌, length, get_or, get_elem?, take, drop,
}
use andiodine.Common.{Option, none, some}
use andiodine.Common.Search.{modify}
use mathlib.Core.List.{map}
use andiodine.User.{Query, User, Packet, CachedAnswer, SeenQuery, base32, dns_null, t_unset}
use andiodine.Codec.Base32.{b32_8to5}
use andiodine.Hostname.{unpack_data}
use andiodine.Hostname.Encoders.{base32_encoder}
use andiodine.Login.{login_calculate}
use andiodine.Server.Users.{find_available_user}
use andiodine.Server.Request.{
  Config, Effect, reply, Handled, sin_addr, badip, badlen, at_user, checked,
}
use andiodine.Server.Request.{check_user_and_ip, big_endian, address_bytes}

abbrev pub version : ℕ
version = 0x00000502

-- `sizeof(unpacked)`
abbrev pub unpacked_size : ℕ
unpacked_size = 65536

-- `unpacked` from the chars behind the first one, of `domain_len` chars.
abbrev pub unpack : List ℕ → (domain_len : ℕ) → List ℕ
unpack chars domain_len = unpack_data unpacked_size (drop 1 chars) (domain_len - 1) base32_encoder

-- The version that the client sent, or 0.
abbrev pub client_version : List ℕ → ℕ
client_version unpacked =
    if ltb 4 (length unpacked)
    then get_or unpacked 0 0 * 2 ^ 24
      + (get_or unpacked 1 0 * 2 ^ 16 + (get_or unpacked 2 0 * 256 + get_or unpacked 3 0))
    else 0

-- The kinds of answers to a greeting, as their four letters.
abbrev pub vack : List ℕ
vack = b'V' ∷ b'A' ∷ b'C' ∷ b'K' ∷ []

abbrev pub vnak : List ℕ
vnak = b'V' ∷ b'N' ∷ b'A' ∷ b'K' ∷ []

abbrev pub vful : List ℕ
vful = b'V' ∷ b'F' ∷ b'U' ∷ b'L' ∷ []

-- `users[userid].downenc`
abbrev pub downenc_of : Option User → ℕ
downenc_of none = 0
downenc_of (some u) = u.downenc

unfoldable pub send_version_response :
    List User → (ack : List ℕ) → (payload userid : ℕ) → Query → Effect
send_version_response users ack payload userid q =
    reply q (ack ++ (big_endian payload ++ (userid % 256 ∷ [])))
      (downenc_of (get_elem? users userid))

abbrev empty_packet : Packet → Packet
empty_packet p = record p { len = 0; offset = 0; seqno = 0; fragment = 0 }

abbrev pub forget_answer : CachedAnswer → CachedAnswer
forget_answer a = record a { query = record a.query { id = 0 }; answerlen = 0 }

abbrev pub forget_seen : SeenQuery → SeenQuery
forget_seen s = record s { seen_type = t_unset }

-- The user in a slot that was just taken. `seed` is what `rand` gives.
unfoldable pub new_user : (seed : ℕ) → Query → User → User
new_user seed q u = record u {
  seed = seed;
  host = sin_addr q.from;
  q = record q { id = 0; id2 = 0 };
  encoder = base32;
  downenc = b'T';
  q_sendrealsoon = record u.q_sendrealsoon { id = 0; id2 = 0 };
  q_sendrealsoon_new = false;
  outpacket = record (empty_packet u.outpacket) { sentlen = 0 };
  outfragresent = 0;
  inpacket = empty_packet u.inpacket;
  fragsize = 100;
  conn = dns_null;
  lazy = false;
  outpacketq_nexttouse = 0;
  outpacketq_filled = 0;
  dnscache = map forget_answer u.dnscache;
  dnscache_lastfilled = 0;
  qmemping = map forget_seen u.qmemping;
  qmemping_lastfilled = 0;
  qmemdata = map forget_seen u.qmemdata;
  qmemdata_lastfilled = 0;
}

abbrev pub accept_version : (seed : ℕ) → Query → List User × Option ℕ → Handled
accept_version seed q (users, none) =
    (users, send_version_response users vful (length users) 0 q ∷ [])
accept_version seed q (users, some userid) =
    let users' = modify users userid (new_user seed q) in
    (users', send_version_response users' vack seed userid q ∷ [])

-- `seed` is what `rand` gives.
unfoldable pub handle_version : (now seed : ℕ) → List User → Query → (unpacked : List ℕ) → Handled
handle_version now seed users q unpacked =
    let accepted = accept_version seed q (find_available_user now users) in
    if client_version unpacked == version
    then accepted
    else (users, send_version_response users vnak version 0 q ∷ [])

-- `%d`, with as many digits as the first number says at most.
abbrev decimal : ℕ → ℕ → List ℕ → List ℕ
decimal zero n behind = behind
decimal (suc k) n behind =
    let more = decimal k (n / 10) ((b'0' + n % 10) ∷ behind) in
    if ltb n 10 then (b'0' + n) ∷ behind else more

abbrev pub decimal_of : ℕ → List ℕ
decimal_of n = decimal 10 n []

-- `inet_ntoa`
abbrev pub dotted_quad : ℕ → List ℕ
dotted_quad a =
    decimal_of (a % 256)
    ++ (b'.'
        ∷ (decimal_of (a / 256 % 256)
            ++ (b'.' ∷ (decimal_of (a / 2 ^ 16 % 256) ++ (b'.' ∷ decimal_of (a / 2 ^ 24 % 256))))))

-- The addresses, the mtu and the network mask, as the client reads them.
abbrev pub login_answer : Config → User → List ℕ
login_answer cfg u =
    dotted_quad cfg.my_ip
    ++ (b'-'
        ∷ (dotted_quad u.tun_ip
            ++ (b'-' ∷ (decimal_of cfg.my_mtu ++ (b'-' ∷ decimal_of cfg.netmask)))))

abbrev pub lnak : List ℕ
lnak = b'L' ∷ b'N' ∷ b'A' ∷ b'K' ∷ []

module _ (md5 : List ℕ → List ℕ) where
  -- The hash that was sent is the right one.
  unfoldable pub right_hash : Config → User → (unpacked : List ℕ) → Bool
  right_hash cfg u unpacked =
      leb 18 (length unpacked)
      && same_bytes (login_calculate md5 cfg.password u.seed) (take 16 (drop 1 unpacked))

  unfoldable pub login_user :
      Config → (now : ℕ) → Query → (unpacked : List ℕ) → User → User × List Effect
  login_user cfg now q unpacked u =
      let seen = record u { last_pkt = now } in
      if right_hash cfg u unpacked
      then (record seen { authenticated = true }, reply q (login_answer cfg u) u.downenc ∷ [])
      else (seen, reply q lnak b'T' ∷ [])

  unfoldable pub handle_login :
      Config → (now : ℕ) → List User → Query → (unpacked : List ℕ) → Handled
  handle_login cfg now users q unpacked =
      let userid = get_or unpacked 0 0 in
      let logged_in =
        at_user users userid (get_elem? users userid) (login_user cfg now q unpacked) in
      if ltb (length unpacked) 17
      then (users, reply q badlen b'T' ∷ [])
      else if check_user_and_ip cfg now users userid q
      then logged_in
      else (users, reply q badip b'T' ∷ [])

-- INADDR_ANY is 0.
unfoldable pub handle_ip_request : Config → (now : ℕ) → List User → Query → List ℕ → Handled
handle_ip_request cfg now users q chars =
    let address = if cfg.ns_ip == 0 then q.destination else cfg.ns_ip in
    checked cfg now users (b32_8to5 (get_or chars 1 0)) q
      (users, reply q (b'I' ∷ address_bytes address) b'T' ∷ [])
