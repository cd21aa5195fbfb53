-- ===== src/Server/Users.antt =====
-- The table of the users, indexed by the userid: user.c. `now` is what `time(NULL)` returns.
mod Tests
pub mod Login
pub mod Init
pub mod Addresses
pub mod Blocking
use andiodine.Common.{ℕ, zero, suc, ◌+◌, Bool, true, false, not, ◌&&◌, ◌||◌, ltb, leb, ◌==◌}
use andiodine.Common.{List, [], ◌∷◌, length, get_or, set, Option, none, some, if◌then◌else◌}
use andiodine.Common.Search.{find_first, modify}
use andiodine.User.{User, Connection, raw_udp, dns_null, EncoderName}

-- `c == CONN_RAW_UDP` and `c == CONN_DNS_NULL`
abbrev pub is_raw_udp : Connection → Bool
is_raw_udp raw_udp = true
is_raw_udp dns_null = false

abbrev pub is_dns_null : Connection → Bool
is_dns_null raw_udp = false
is_dns_null dns_null = true

-- `active && !disabled && last_pkt + 60 > now`
abbrev pub online : ℕ → User → Bool
online now u = u.active && (not u.disabled && ltb now (u.last_pkt + 60))

abbrev pub waits_on_reply : ℕ → User → Bool
waits_on_reply now u = online now u && (not (u.q.id == 0) && is_dns_null u.conn)

unfoldable pub users_waiting_on_reply : ℕ → List User → ℕ
users_waiting_on_reply now [] = 0
users_waiting_on_reply now (u ∷ us) =
    let rest = users_waiting_on_reply now us in if waits_on_reply now u then suc rest else rest

abbrev pub has_ip : ℕ → ℕ → User → Bool
has_ip now ip u =
    u.active
    && (u.authenticated && (not u.disabled && (ltb now (u.last_pkt + 60) && (ip == u.tun_ip))))

-- `none` is -1.
unfoldable pub find_user_by_ip : ℕ → List User → ℕ → Option ℕ
find_user_by_ip now users ip = find_first (has_ip now ip) users

-- The user can take a packet at once.
abbrev pub can_take : ℕ → User → Bool
can_take now u =
    online now u && (is_raw_udp u.conn || (is_dns_null u.conn && ltb u.outpacketq_filled 1))

-- `ret` is 1 unless the loop breaks.
abbrev pub not_found : Option ℕ → Bool
not_found none = true
not_found (some i) = false

unfoldable pub all_users_waiting_to_send : ℕ → List User → Bool
all_users_waiting_to_send now users = not_found (find_first (can_take now) users)

-- Not used at all, or not used in one minute.
abbrev pub available : ℕ → User → Bool
available now u = (not u.active || ltb (u.last_pkt + 60) now) && not u.disabled

abbrev pub taken : ℕ → User → User
taken now u = record u {
  active = true;
  authenticated = false;
  authenticated_raw = false;
  last_pkt = now;
  fragsize = 4096;
  conn = dns_null;
}

-- `none` is -1.
abbrev pub take_slot : ℕ → List User → Option ℕ → List User × Option ℕ
take_slot now users none = (users, none)
take_slot now users (some i) = (modify users i (taken now), some i)

unfoldable pub find_available_user : ℕ → List User → List User × Option ℕ
find_available_user now users = take_slot now users (find_first (available now) users)

-- A negative userid, which is refused as well, is no number here.
unfoldable pub user_switch_codec : List User → ℕ → EncoderName → List User
user_switch_codec users userid enc =
    if leb (length users) userid
    then users
    else modify users userid (λ u. record u { encoder = enc })

-- All values of `Connection` are below `CONN_MAX`.
unfoldable pub user_set_conn_type : List User → ℕ → Connection → List User
user_set_conn_type users userid c =
    if leb (length users) userid then users else modify users userid (λ u. record u { conn = c })
