-- ===== src/Server/Request/Traffic.antt =====
-- Pings, data and whole packets: the last branches of `handle_null_request`, `handle_full_packet`
-- and `tunnel_tun` of iodined.c.
use andiodine.Common.{ℕ, ◌+◌, ◌-◌, ◌*◌, ◌^◌, min, bit_and, bit_or, Bool, not, ◌==◌}
use andiodine.Common.{
  if◌then◌else◌, List, [], ◌∷◌, length, get_or, get_elem?, take, Option, none, some,
}
use andiodine.Common.Search.{modify}
use andiodine.User.{User, Reply, Connection, raw_udp, dns_null}
use andiodine.Server.Outpacket.{start_new_outpacket, save_to_outpacketq}
use andiodine.Server.SendChunk.{at_q, at_q_sendrealsoon, send_chunk_or_dataless}
use andiodine.Server.Users.{find_user_by_ip}
use andiodine.Server.Request.{Effect, raw_sent, tun_written, dns_replies, Handled, at_user}

-- The packet of `send_raw`.
unfoldable pub raw_message : List ℕ → (user cmd : ℕ) → List ℕ
raw_message buf user cmd =
    0x10 ∷ 0xd1 ∷ 0x9e ∷ bit_or cmd (bit_and user 0x0F) ∷ take (min (4096 - 4) (length buf)) buf

abbrev pub sent_chunk : User × List Reply × Bool → User × List Effect
sent_chunk (u, out, more) = (u, dns_replies out)

-- A query that waits is answered at once.
abbrev pub send_if_waiting : User → User × List Effect
send_if_waiting u =
    let soon = sent_chunk (send_chunk_or_dataless u at_q_sendrealsoon) in
    let now_sent = sent_chunk (send_chunk_or_dataless u at_q) in
    if not (u.q_sendrealsoon.id == 0) then soon else if not (u.q.id == 0) then now_sent else (u, [])

-- A compressed packet for a user, by his connection.
abbrev pub give_by : Connection → (userid : ℕ) → List ℕ → User → User × List Effect
give_by dns_null userid packet u =
    let started = send_if_waiting (start_new_outpacket u packet (length packet)) in
    if u.outpacket.len == 0 then started else ((save_to_outpacketq u packet (length packet)).0, [])
give_by raw_udp userid packet u = (u, raw_sent u.q (raw_message packet userid 0x20) ∷ [])

unfoldable pub give_packet : (userid : ℕ) → List ℕ → User → User × List Effect
give_packet userid packet u = give_by u.conn userid packet u

abbrev pub give_to : List User → List ℕ → (ret : List Effect) → Option ℕ → Handled
give_to users packet to_tun none = (users, to_tun)
give_to users packet to_tun (some userid) =
    at_user users userid (get_elem? users userid) (give_packet userid packet)

-- `ip_dst` of the IP header behind the four bytes that the tun device adds.
abbrev pub ip_dst : List ℕ → ℕ
ip_dst packet =
    get_or packet 20 0
    + (get_or packet 21 0 * 2 ^ 8 + (get_or packet 22 0 * 2 ^ 16 + get_or packet 23 0 * 2 ^ 24))

module _ (compress2 : List ℕ → List ℕ) where
  -- `read` is what `read_tun` gives.
  unfoldable pub tunnel_tun : (now : ℕ) → List User → (read : List ℕ) → Handled
  tunnel_tun now users read =
      let given = give_to users (compress2 read) [] (find_user_by_ip now users (ip_dst read)) in
      if length read == 0 then (users, []) else given

abbrev pub packet_done : User → User
packet_done u = record u { inpacket = record u.inpacket { len = 0; offset = 0 } }

module _ (uncompress : List ℕ → Option (List ℕ)) where
  abbrev route : (now : ℕ) → List User → (packet : List ℕ) → Option (List ℕ) → Handled
  route now users packet none = (users, [])
  route now users packet (some out) =
      give_to users packet (tun_written out ∷ []) (find_user_by_ip now users (ip_dst out))

  -- The packet that `userid` has sent, as far as `packet` says.
  abbrev pub full_packet_of : (now : ℕ) → List User → (userid : ℕ) → (packet : List ℕ) → Handled
  full_packet_of now users userid packet =
      let (users', es) = route now users packet (uncompress packet) in
      (modify users' userid packet_done, es)

  abbrev full_packet_at : (now : ℕ) → List User → (userid : ℕ) → Option User → Handled
  full_packet_at now users userid none = (users, [])
  full_packet_at now users userid (some u) =
      full_packet_of now users userid (take u.inpacket.len u.inpacket.bytes)

  unfoldable pub handle_full_packet : (now : ℕ) → List User → (userid : ℕ) → Handled
  handle_full_packet now users userid = full_packet_at now users userid (get_elem? users userid)
