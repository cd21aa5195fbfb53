-- ===== src/Server/Request/Tests.antt =====
-- The handlers at a server with one user.
use andiodine.Common.{ap, sym, ◌∙◌}
use andiodine.Common.{ℕ, zero, suc, ◌≡◌, ◌≢◌, refl, true, false, ◌⊎◌, ◌+◌, same_bytes}
use andiodine.Common.{
  List, [], ◌∷◌, ◌++◌, some, take, drop, subst, get_or, get_elem?, replicate, arith,
}
use mathlib.Core.List.{map}
use andiodine.Server.QueryMemory.{zero_seen}
use andiodine.Server.Users.{find_available_user, find_user_by_ip}
use andiodine.Server.Outpacket.Queue.{IsValid}
use andiodine.Server.Outpacket.Ack.{backlog}
use andiodine.Server.Request.Traffic.{ip_dst, tunnel_tun}
use andiodine.Server.Request.Arrival.{arrive, tunnel_tun-backlog}
use andiodine.Server.Request.Options.{downcodeccheck1}
use andiodine.Server.Request.Raw.{raw_decode}
use andiodine.Server.Request.RawGuard.{RawStranger, WrongHash, raw_decode_guard}
use andiodine.Server.Request.Fresh.{IsFresh, handle_version-IsFresh}
use andiodine.User.{Query, User, zero_query}
use andiodine.User.Example.{alice}
use andiodine.Hostname.Encoders.{base64_encoder}
use andiodine.Server.Request.{Config, check_user_and_ip, check_authenticated_user_and_ip}
use andiodine.Server.Request.Null.{greeting, login, ping, command_of, handle_null_request}
use andiodine.Login.{login_calculate}
use andiodine.Server.Request.Login.{right_hash, login_user, handle_login, handle_version}
use andiodine.Server.Request.LoggedIn.{IsAuthenticated, Proven, handle_login_guard}
use andiodine.Server.Request.Guard.{Refused, Stranger, handle_null_request_guard}

abbrev config : Config
config = record {
  check_ip = true;
  my_ip = 0x0100000a;
  my_mtu = 1130;
  netmask = 27;
  ns_ip = 0;
  password = 1 ∷ 2 ∷ 3 ∷ 4 ∷ 5 ∷ 6 ∷ 7 ∷ 8 ∷ 9 ∷ 10 ∷ 11 ∷ 12 ∷ 13 ∷ 14 ∷ 15 ∷ 16 ∷ [];
  topdomain = b't' ∷ b'.' ∷ b'd' ∷ [];
}

-- Alice is at 10.0.0.2.
abbrev table : List User
table = record alice { host = 10 ∷ 0 ∷ 0 ∷ 2 ∷ [] } ∷ []

-- A ping for user 0, that comes from 10.0.0.9.
abbrev foreign_ping : Query
foreign_ping = record zero_query {
  name = b'p' ∷ b'a' ∷ b'a' ∷ b'a' ∷ b'a' ∷ b'a' ∷ b'a' ∷ b'.' ∷ b't' ∷ b'.' ∷ b'd' ∷ [];
  id = 7;
  from = 2 ∷ 0 ∷ 0 ∷ 53 ∷ 10 ∷ 0 ∷ 0 ∷ 9 ∷ [];
}

foreign-Stranger : Stranger config 10 table foreign_ping
unfolding check_authenticated_user_and_ip check_user_and_ip same_bytes
foreign-Stranger zero = refl
foreign-Stranger (suc userid) = refl

a_ping : command_of b'p' ≡ ping
unfolding command_of
a_ping = refl

not_greeting : command_of b'p' ≢ greeting
not_greeting e = cc (a_ping, e)

not_login : command_of b'p' ≢ login
not_login e = cc (a_ping, e)

handle_null_request_guard_example :
    Refused table foreign_ping
      (handle_null_request (λ bytes. bytes) some base64_encoder config 10 3 table foreign_ping 8)
handle_null_request_guard_example =
    handle_null_request_guard config 10 table foreign_ping foreign-Stranger (λ bytes. bytes) some
      base64_encoder 3 8 not_greeting not_login

-- Alice before she logs in, with the seed 256.
abbrev at_the_door : List User
at_the_door = record alice { host = 10 ∷ 0 ∷ 0 ∷ 2 ∷ []; authenticated = false; seed = 256 } ∷ []

abbrev login_query : Query
login_query = record foreign_ping { from = 2 ∷ 0 ∷ 0 ∷ 53 ∷ 10 ∷ 0 ∷ 0 ∷ 2 ∷ [] }

-- The hash is the first 16 bytes here: the password, of which the seed changes each third byte of
-- four.
abbrev login_data : List ℕ
login_data = 0 ∷ 1 ∷ 2 ∷ 2 ∷ 4 ∷ 5 ∷ 6 ∷ 6 ∷ 8 ∷ 9 ∷ 10 ∷ 10 ∷ 12 ∷ 13 ∷ 14 ∷ 14 ∷ 16 ∷ 0 ∷ 0 ∷ []

logs_in : IsAuthenticated (handle_login (take 16) config 10 at_the_door login_query login_data).0 0
unfolding handle_login check_user_and_ip login_user right_hash login_calculate same_bytes
logs_in = refl

handle_login_guard_example :
    IsAuthenticated at_the_door 0 ⊎ Proven (take 16) config 10 at_the_door login_query login_data 0
handle_login_guard_example =
    handle_login_guard (take 16) config 10 at_the_door login_query login_data 0 logs_in

-- Alice is logged in, but not over UDP.
alice-RawStranger : RawStranger config 10 table login_query 0
alice-RawStranger u e here authenticated =
    let known : record alice { host = 10 ∷ 0 ∷ 0 ∷ 2 ∷ [] } ≡ u = cc e in
    subst (λ (v : User). v.authenticated_raw ≡ false) known refl

-- A login over UDP with a hash of zeros.
abbrev false_login : List ℕ
false_login =
    0x10 ∷ 0xd1 ∷ 0x9e ∷ 0x10 ∷ 0 ∷ 0 ∷ 0 ∷ 0 ∷ 0 ∷ 0 ∷ 0 ∷ 0 ∷ 0 ∷ 0 ∷ 0 ∷ 0 ∷ 0 ∷ 0 ∷ 0 ∷ 0 ∷ []

abbrev right_for : User → List ℕ
right_for v = login_calculate (take 16) config.password (v.seed + 1)

wrong_hash : WrongHash config 10 table login_query (take 16) 0 (drop 4 false_login)
unfolding login_calculate
wrong_hash u e a d l t h =
    let known : record alice { host = 10 ∷ 0 ∷ 0 ∷ 2 ∷ [] } ≡ u = cc e in
    let first : 0 ≡ 1 = ap (λ bytes. get_or bytes 0 0) (h ∙ sym (ap right_for known)) in
    omega (arith, first)

raw_decode_guard_example :
    (raw_decode (take 16) some config 10 table false_login login_query).0 ≡ (table, [])
raw_decode_guard_example =
    raw_decode_guard config 10 table login_query (take 16) some false_login alice-RawStranger
      wrong_hash

-- A greeting of version 0x00000502; alice has not been heard of for long.
abbrev greeting_data : List ℕ
greeting_data = 0 ∷ 0 ∷ 5 ∷ 2 ∷ 0 ∷ 0 ∷ []

abbrev thirty : List ℕ
thirty = take 30 (downcodeccheck1)

abbrev remembered : List User
remembered =
    record alice {
      qmemping = map (λ i. record zero_seen { seen_type = 10 }) thirty;
      qmemdata = map (λ i. record zero_seen { seen_type = 10 }) (take 15 thirty);
    }
    ∷ []

slot_taken : (find_available_user 1000 remembered).1 ≡ some 0
unfolding find_available_user
slot_taken = refl

handle_version-IsFresh_example :
    IsFresh (get_or (handle_version 1000 77 remembered login_query greeting_data).0 0 alice)
handle_version-IsFresh_example =
    handle_version-IsFresh 1000 77 0 remembered login_query greeting_data alice refl slot_taken refl
      refl

-- A packet for alice, who has three packets to get already.
abbrev from_tun : List ℕ
from_tun = replicate 20 0 ++ (5 ∷ 0 ∷ 0 ∷ 0 ∷ [])

abbrev addressed : User
addressed = record alice { tun_ip = 5 }

addressed-IsValid : IsValid addressed
addressed-IsValid = omega arith

has_address : find_user_by_ip 10 (addressed ∷ []) (ip_dst from_tun) ≡ some 0
unfolding find_user_by_ip
has_address = refl

tunnel_tun-backlog_example :
    (u' : User) × (get_elem? (tunnel_tun (λ bytes. bytes) 10 (addressed ∷ []) from_tun).0 0
      ≡ some u')
    × (backlog u' ≡ arrive false from_tun (backlog addressed))
tunnel_tun-backlog_example =
    tunnel_tun-backlog (λ bytes. bytes) 10 0 (addressed ∷ []) from_tun addressed (λ e. cc e)
      has_address refl addressed-IsValid refl (λ e. cc e)
