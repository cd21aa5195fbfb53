-- ===== src/Tunnel/Downstream.antt =====
-- A packet from the server to the client, over `send_chunk_or_dataless` and
-- `process_downstream_ack` of iodined.c, and `tunnel_dns` and `send_ping` of client.c.
pub mod Round
pub mod Progress
pub mod Delivery
use andiodine.Common.{ℕ, zero, suc, List, [], ◌∷◌, ◌++◌, drop}
use andiodine.User.{Packet, User, Reply}
use andiodine.Server.Outpacket.{process_downstream_ack}
use andiodine.Server.SendChunk.{QueryAt, send_chunk_or_dataless}
use andiodine.Server.Ping.{ping_ack}
use andiodine.Client.Downstream.{read_header, Arrival, ignored, partial, whole, receive_downstream}
use andiodine.Client.Send.{ack_byte}

-- The reply to the query itself.
abbrev pub first_payload : List Reply → List ℕ
first_payload [] = []
first_payload (r ∷ rs) = r.payload

-- What the client tells the server with its next ping.
abbrev pub acked : User → Packet → User
acked u p = let (s, f) = ping_ack (u.user_id ∷ ack_byte p ∷ []) in process_downstream_ack u s f

-- A query is answered with the next chunk, the client takes it, and acknowledges it.
unfoldable pub round : QueryAt → User → Packet → User × Packet × Arrival
round at u p =
    let (u', replies, more) = send_chunk_or_dataless u at in
    let pkt = first_payload replies in
    let (p', arrival) = receive_downstream p (read_header pkt) (drop 2 pkt) in
    (acked u' p', p', arrival)

-- The packet that is complete, if one is.
abbrev pub completed : Arrival → List (List ℕ)
completed ignored = []
completed partial = []
completed (whole packet) = packet ∷ []

-- That many rounds; the last component is the packets that were complete.
abbrev pub rounds : ℕ → QueryAt → User → Packet → User × Packet × List (List ℕ)
rounds zero at u p = (u, p, [])
rounds (suc k) at u p =
    let (u', p', arrival) = round at u p in
    let (u'', p'', later) = rounds k at u' p' in (u'', p'', completed arrival ++ later)
