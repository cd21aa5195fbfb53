-- ===== src/Server/Request.antt =====
-- The requests that come to the server: what the handlers of iodined.c share.
pub mod Login
pub mod Options
pub mod Traffic
pub mod Queries
pub mod Null
pub mod Guard
pub mod Arrival
pub mod Fresh
pub mod Known
pub mod LoggedIn
pub mod RawGuard
pub mod Raw
pub mod Tunnel
mod Tests
use andiodine.Common.{
  ℕ, zero, suc, ◌+◌, ◌*◌, ◌/◌, ◌%◌, ◌^◌, Bool, true, false, not, ◌&&◌, ◌||◌, ltb, leb, ◌==◌,
}
use andiodine.Common.{
  same_bytes, if◌then◌else◌, List, [], ◌∷◌, ◌++◌, length, get_elem?, set, take, drop,
}
use andiodine.Common.{Option, none, some}
use andiodine.User.{Query, User, Reply}

-- The variables that are set once: `check_ip`, `my_ip`, `my_mtu`, `netmask`, `ns_ip`, `password`
-- and `topdomain`. An `in_addr_t` is the number that its bytes make, the first one the lowest.
pub record Config : Type 0 where
  pub check_ip : Bool
  pub my_ip : ℕ
  pub my_mtu : ℕ
  pub netmask : ℕ
  pub ns_ip : ℕ
  pub password : List ℕ
  pub topdomain : List ℕ

-- What the server does: a call of `write_dns`, a packet that `send_raw` sends to the sender of a
-- query, and a packet that is written to the tun device.
pub data Effect : Type 0 where
  dns_reply : Reply → Effect
  raw_sent : Query → List ℕ → Effect
  tun_written : List ℕ → Effect

-- The table of the users after a call, and what was done.
abbrev pub Handled : Type 0
Handled = List User × List Effect

-- `write_dns(dns_fd, q, ...)`
abbrev pub reply : Query → List ℕ → ℕ → Effect
reply q payload encoding = dns_reply (record { to = q; payload = payload; encoding = encoding })

abbrev pub dns_replies : List Reply → List Effect
dns_replies [] = []
dns_replies (r ∷ rs) = dns_reply r ∷ dns_replies rs

-- `tempin->sin_addr` of the address as bytes.
abbrev pub sin_addr : List ℕ → List ℕ
sin_addr from = take 4 (drop 4 from)

-- The tests on one user.
abbrev pub passes : Config → (now : ℕ) → Query → User → Bool
passes cfg now q u =
    if not u.active || u.disabled
    then false
    else if ltb (u.last_pkt + 60) now
    then false
    else if not cfg.check_ip
    then true
    else same_bytes u.host (sin_addr q.from)

abbrev pub test_user : (User → Bool) → Option User → Bool
test_user test none = false
test_user test (some u) = test u

-- True for 0. A negative userid, which is refused as well, is a number above all userids here.
unfoldable pub check_user_and_ip : Config → (now : ℕ) → List User → (userid : ℕ) → Query → Bool
check_user_and_ip cfg now users userid q = test_user (passes cfg now q) (get_elem? users userid)

unfoldable pub check_authenticated_user_and_ip :
    Config → (now : ℕ) → List User → (userid : ℕ) → Query → Bool
check_authenticated_user_and_ip cfg now users userid q =
    check_user_and_ip cfg now users userid q
    && test_user (λ u. u.authenticated) (get_elem? users userid)

abbrev pub badip : List ℕ
badip = b'B' ∷ b'A' ∷ b'D' ∷ b'I' ∷ b'P' ∷ []

abbrev pub badlen : List ℕ
badlen = b'B' ∷ b'A' ∷ b'D' ∷ b'L' ∷ b'E' ∷ b'N' ∷ []

abbrev pub badcodec : List ℕ
badcodec = b'B' ∷ b'A' ∷ b'D' ∷ b'C' ∷ b'O' ∷ b'D' ∷ b'E' ∷ b'C' ∷ []

abbrev pub badfrag : List ℕ
badfrag = b'B' ∷ b'A' ∷ b'D' ∷ b'F' ∷ b'R' ∷ b'A' ∷ b'G' ∷ []

-- What is done with one user, whose userid was checked.
abbrev pub at_user : List User → (userid : ℕ) → Option User → (User → User × List Effect) → Handled
at_user users userid none f = (users, [])
at_user users userid (some u) f = let (u', es) = f u in (set users userid u', es)

-- `if (check_authenticated_user_and_ip(userid, q) != 0)`, and what follows.
unfoldable pub checked : Config → (now : ℕ) → List User → (userid : ℕ) → Query → Handled → Handled
checked cfg now users userid q rest =
    if check_authenticated_user_and_ip cfg now users userid q
    then rest
    else (users, reply q badip b'T' ∷ [])

-- As above, for what concerns only that user.
unfoldable pub checked_user :
    Config → (now : ℕ) → List User → (userid : ℕ) → Query → (User → User × List Effect) → Handled
checked_user cfg now users userid q f =
    checked cfg now users userid q (at_user users userid (get_elem? users userid) f)

-- A 32-bit number, the highest byte first.
abbrev pub big_endian : ℕ → List ℕ
big_endian v = v / 2 ^ 24 % 256 ∷ v / 2 ^ 16 % 256 ∷ v / 256 % 256 ∷ v % 256 ∷ []

-- The bytes of an `in_addr_t`, as they are sent.
abbrev pub address_bytes : ℕ → List ℕ
address_bytes a = a % 256 ∷ a / 256 % 256 ∷ a / 2 ^ 16 % 256 ∷ a / 2 ^ 24 % 256 ∷ []

-- `in`, and its chars behind the first one with their number.
abbrev pub request_chars : Query → (domain_len : ℕ) → List ℕ
request_chars q domain_len = take domain_len (take 512 q.name)
