-- ===== src/Server/Request/Tunnel.antt =====
-- A query that comes to the server: `tunnel_dns` of iodined.c.
use andiodine.Common.{ℕ, ◌+◌, ◌-◌, Bool, not, ◌&&◌, ◌||◌, leb, ◌==◌}
use andiodine.Common.{same_bytes, if◌then◌else◌, List, [], length, get_or, drop, Option}
use mathlib.Core.List.{map}
use andiodine.User.{Query, User}
use andiodine.Hostname.{Encoder}
use andiodine.Server.Request.{Config, Handled}
use andiodine.Server.Request.Options.{letter}
use andiodine.Server.Request.Null.{handle_null_request}

-- `tolower`
abbrev pub lower : ℕ → ℕ
lower c = if leb b'A' c && leb c b'Z' then c + 32 else c

-- The name ends in the topdomain, in any case of letters.
abbrev ends_in : List ℕ → List ℕ → Bool
ends_in name topdomain =
    leb (length topdomain) (length name)
    && same_bytes (map lower (drop (length name - length topdomain) name)) (map lower topdomain)

-- `inside_topdomain`: there is a dot before the topdomain, or nothing.
unfoldable pub inside_topdomain : List ℕ → (topdomain : List ℕ) → Bool
inside_topdomain name topdomain =
    let domain_len = length name - length topdomain in
    ends_in name topdomain && (domain_len == 0 || get_or name (domain_len - 1) 0 == b'.')

-- "ns." and "www." in any case.
abbrev is_ns : List ℕ → (domain_len : ℕ) → Bool
is_ns name domain_len =
    domain_len == 3
    && (letter b'N' (get_or name 0 0) && (letter b'S' (get_or name 1 0) && get_or name 2 0 == b'.'))

abbrev is_www : List ℕ → (domain_len : ℕ) → Bool
is_www name domain_len =
    domain_len == 4
    && (letter b'W' (get_or name 0 0)
        && (letter b'W' (get_or name 1 0)
            && (letter b'W' (get_or name 2 0) && get_or name 3 0 == b'.')))

-- `T_NULL`, `T_PRIVATE`, `T_CNAME`, `T_A`, `T_MX`, `T_SRV` and `T_TXT`.
abbrev is_tunnel_type : ℕ → Bool
is_tunnel_type t =
    t == 10 || (t == 65399 || (t == 5 || (t == 1 || (t == 15 || (t == 33 || t == 16)))))

-- What becomes of a query: it goes to `handle_null_request`, is answered by `handle_a_request` or
-- `handle_ns_request`, is forwarded if there is another port for that, or is dropped.
pub data Answer : Type 0 where
  null_request a_request www_request ns_request forwarded dropped : Answer

unfoldable pub answer_of : Config → Query → Answer
answer_of cfg q =
    let domain_len = length q.name - length cfg.topdomain in
    if not (inside_topdomain q.name cfg.topdomain)
    then forwarded
    else if q.qtype == 1 && is_ns q.name domain_len
    then a_request
    else if q.qtype == 1 && is_www q.name domain_len
    then www_request
    else if is_tunnel_type q.qtype
    then null_request
    else if q.qtype == 2
    then ns_request
    else dropped

module _ (md5 : List ℕ → List ℕ) (uncompress : List ℕ → Option (List ℕ))
    (base64u_encoder : Encoder) where
  -- The users and what is done for a query that goes to `handle_null_request`; the other answers
  -- change no user.
  abbrev answer_with : Config → (now random : ℕ) → List User → Query → Answer → Handled
  answer_with cfg now random users q null_request =
      handle_null_request md5 uncompress base64u_encoder cfg now random users q
        (length q.name - length cfg.topdomain)
  answer_with cfg now random users q a_request = (users, [])
  answer_with cfg now random users q www_request = (users, [])
  answer_with cfg now random users q ns_request = (users, [])
  answer_with cfg now random users q forwarded = (users, [])
  answer_with cfg now random users q dropped = (users, [])

  unfoldable pub tunnel_dns : Config → (now random : ℕ) → List User → Query → Handled × Answer
  tunnel_dns cfg now random users q =
      let a = answer_of cfg q in (answer_with cfg now random users q a, a)
