-- ===== src/Server/Loop.antt =====
-- A round of the loop of `tunnel` of iodined.c: the loops over the users, and between them the calls
-- for what `select` reports.
pub mod Realsoon
mod Tests
use andiodine.Common.{
  ℕ, Bool, true, false, not, ◌&&◌, ◌==◌, if◌then◌else◌, List, [], ◌∷◌, ◌++◌, Option, none, some,
}
use mathlib.Core.List.{map}
use andiodine.User.{Query, User, Reply}
use andiodine.Server.Users.{online, is_dns_null}
use andiodine.Hostname.{Encoder}
use andiodine.Server.Request.{Config, Handled, dns_replies}
use andiodine.Server.Request.Traffic.{tunnel_tun}
use andiodine.Server.Request.Raw.{raw_decode}
use andiodine.Server.Request.Tunnel.{tunnel_dns}
use andiodine.Server.SendChunk.{QueryAt, at_q_sendrealsoon, send_chunk_or_dataless}

abbrev pub start_user : (now : ℕ) → User → User
start_user now u = if online now u then record u { q_sendrealsoon_new = false } else u

-- The first loop over the users; that it sets the time for `select` is not modelled.
unfoldable pub start_round : (now : ℕ) → List User → List User
start_round now users = map (start_user now) users

-- The user is online in DNS mode, and has a query to answer that is not one of this round.
abbrev pub is_due : (now : ℕ) → User → Bool
is_due now u =
    online now u
    && (not (u.q_sendrealsoon.id == 0) && (is_dns_null u.conn && not u.q_sendrealsoon_new))

unfoldable pub send_due : (now : ℕ) → User → User × List Reply
send_due now u =
    let (u', out, more) = send_chunk_or_dataless u at_q_sendrealsoon in
    if is_due now u then (u', out) else (u, [])

-- The last loop: "Send realsoon's if tun or dns didn't already".
unfoldable pub end_round : (now : ℕ) → List User → List User × List Reply
end_round now [] = ([], [])
end_round now (u ∷ us) =
    let (u', out) = send_due now u in let (us', outs) = end_round now us in (u' ∷ us', out ++ outs)

-- What came from the DNS socket: nothing, a query, which is given as decoded, or a packet without
-- DNS, of which the query is the sender.
pub data FromDns : Type 0 where
  nothing : FromDns
  a_query : Query → FromDns
  a_packet : List ℕ → Query → FromDns

module _ (compress2 md5 : List ℕ → List ℕ) (uncompress : List ℕ → Option (List ℕ))
    (base64u_encoder : Encoder) where
  -- `if (FD_ISSET(tun_fd, &fds))`
  abbrev pub round_tun : (now : ℕ) → List User → Option (List ℕ) → Handled
  round_tun now users none = (users, [])
  round_tun now users (some read) = tunnel_tun compress2 now users read

  -- `if (FD_ISSET(dns_fd, &fds))`
  abbrev pub round_dns : Config → (now random : ℕ) → List User → FromDns → Handled
  round_dns cfg now random users nothing = (users, [])
  round_dns cfg now random users (a_query q) =
      (tunnel_dns md5 uncompress base64u_encoder cfg now random users q).0
  round_dns cfg now random users (a_packet packet q) =
      (raw_decode md5 uncompress cfg now users packet q).0

  -- One round, without the answers of another name server, which change no user.
  unfoldable pub round :
      Config → (now random : ℕ) → List User → (tun : Option (List ℕ)) → FromDns → Handled
  round cfg now random users tun dns =
      let (users1, es1) = round_tun now (start_round now users) tun in
      let (users2, es2) = round_dns cfg now random users1 dns in
      let (users3, out) = end_round now users2 in (users3, es1 ++ (es2 ++ dns_replies out))
