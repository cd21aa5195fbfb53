-- ===== src/Server/Request/Raw.antt =====
-- Packets that come over UDP without DNS: `raw_decode` and the handlers that it calls, of
-- iodined.c.
use andiodine.Common.{ℕ, ◌+◌, ◌-◌, ◌^◌, bit_and, Bool, true, false, not, ◌&&◌, ◌||◌, ltb, ◌==◌}
use andiodine.Common.{
  same_bytes, if◌then◌else◌, List, [], ◌∷◌, length, get_or, get_elem?, take, drop, Option,
}
use andiodine.User.{Query, User, raw_udp, memcpy}
use andiodine.Login.{login_calculate}
use andiodine.Server.Request.{
  Config, Effect, raw_sent, Handled, sin_addr, test_user, at_user, check_authenticated_user_and_ip,
}
use andiodine.Server.Request.Traffic.{raw_message, handle_full_packet}

-- The tests of `handle_raw_login`: as for a query, but the address may be another.
abbrev pub may_log_in : (now : ℕ) → User → Bool
may_log_in now u =
    if not u.active || u.disabled
    then false
    else if not u.authenticated
    then false
    else if ltb (u.last_pkt + 60) now
    then false
    else true

-- `last_pkt` and `q`
abbrev pub heard_of : (now : ℕ) → Query → User → User
heard_of now q u = record u { last_pkt = now; q = q }

-- `if (check_authenticated_user_and_ip(userid, q) != 0) return;` and the test behind it.
unfoldable pub checked_raw :
    Config → (now : ℕ) → List User → (userid : ℕ) → Query → Handled → Handled
checked_raw cfg now users userid q rest =
    if check_authenticated_user_and_ip cfg now users userid q
      && test_user (λ u. u.authenticated_raw) (get_elem? users userid)
    then rest
    else (users, [])

module _ (md5 : List ℕ → List ℕ) where
  -- The user with the right hash; `seed - 1` is taken modulo 2^32.
  unfoldable pub raw_login_user :
      Config → (now : ℕ) → Query → (userid : ℕ) → (packet : List ℕ) → User → User × List Effect
  raw_login_user cfg now q userid packet u =
      let hash = login_calculate md5 cfg.password (u.seed + 1) in
      let answer = login_calculate md5 cfg.password (u.seed + 2 ^ 32 - 1) in
      if same_bytes (take 16 packet) hash
      then (
        record (heard_of now q u) {
          host = sin_addr q.from;
          conn = raw_udp;
          authenticated_raw = true;
        },
        raw_sent q (raw_message answer userid 0x10) ∷ [],
      )
      else (u, [])

  unfoldable pub handle_raw_login :
      Config → (now : ℕ) → List User → Query → (userid : ℕ) → (packet : List ℕ) → Handled
  handle_raw_login cfg now users q userid packet =
      let logged_in =
        at_user users userid (get_elem? users userid) (raw_login_user cfg now q userid packet) in
      if ltb (length packet) 16 || not (test_user (may_log_in now) (get_elem? users userid))
      then (users, [])
      else logged_in

-- The whole packet is received at once.
abbrev pub receive_raw : (now : ℕ) → Query → (packet : List ℕ) → User → User
receive_raw now q packet u = record (heard_of now q u) {
  inpacket = record u.inpacket {
    offset = 0;
    bytes = memcpy u.inpacket.bytes packet;
    len = length packet;
  };
}

module _ (uncompress : List ℕ → Option (List ℕ)) where
  unfoldable pub handle_raw_data :
      Config → (now : ℕ) → List User → Query → (userid : ℕ) → (packet : List ℕ) → Handled
  handle_raw_data cfg now users q userid packet =
      let (received, _) =
        at_user users userid (get_elem? users userid) (λ u. (receive_raw now q packet u, [])) in
      checked_raw cfg now users userid q (handle_full_packet uncompress now received userid)

unfoldable pub handle_raw_ping : Config → (now : ℕ) → List User → Query → (userid : ℕ) → Handled
handle_raw_ping cfg now users q userid =
    let pinged =
      at_user users userid (get_elem? users userid)
        (λ u. (heard_of now q u, raw_sent q (raw_message [] userid 0x30) ∷ [])) in
    checked_raw cfg now users userid q pinged

abbrev pub raw_ident : List ℕ
raw_ident = 0x10 ∷ 0xd1 ∷ 0x9e ∷ []

module _ (md5 : List ℕ → List ℕ) (uncompress : List ℕ → Option (List ℕ)) where
  -- The last component is true for 1: the packet was none of DNS.
  unfoldable pub raw_decode :
      Config → (now : ℕ) → List User → (packet : List ℕ) → Query → Handled × Bool
  raw_decode cfg now users packet q =
      let user = bit_and (get_or packet 3 0) 0x0F in
      let cmd = bit_and (get_or packet 3 0) 0xF0 in
      let rest = drop 4 packet in
      let login = handle_raw_login md5 cfg now users q user rest in
      let whole = handle_raw_data uncompress cfg now users q user rest in
      let ping = handle_raw_ping cfg now users q user in
      if ltb (length packet) 4 || not (same_bytes (take 3 packet) raw_ident)
      then ((users, []), false)
      else if cmd == 0x10
      then (login, true)
      else if cmd == 0x20
      then (whole, true)
      else if cmd == 0x30
      then (ping, true)
      else ((users, []), true)
