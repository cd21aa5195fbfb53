-- ===== src/Server/SendChunk.antt =====
-- Sending the next fragment of the current packet to a user: `send_chunk_or_dataless` of iodined.c.
pub mod Frame
pub mod Delivery
pub mod Stable
pub mod Used
mod Tests
use andiodine.Common.{ℕ, ◌+◌, ◌-◌, min, bit_and, bit_or, Bool, true, false, ◌&&◌, ltb, ◌==◌}
use andiodine.Common.{if◌then◌else◌, List, [], ◌∷◌, ◌++◌, take, drop}
use andiodine.Common.Bits.{shl}
use andiodine.User.{Query, User, Reply}
use andiodine.Server.Outpacket.{forget_outpacket, get_from_outpacketq}
use andiodine.Server.DnsCache.{save_to_dnscache}
use andiodine.Server.QueryMemory.{save_to_qmem_pingordata}

-- What `q` points to: every caller passes `&users[userid].q` or `&users[userid].q_sendrealsoon`.
pub data QueryAt : Type 0 where
  at_q at_q_sendrealsoon : QueryAt

abbrev pub query_at : QueryAt → User → Query
query_at at_q u = u.q
query_at at_q_sendrealsoon u = u.q_sendrealsoon

abbrev pub set_query : QueryAt → Query → User → User
set_query at_q q u = record u { q = q }
set_query at_q_sendrealsoon q u = record u { q_sendrealsoon = q }

-- `sizeof(pkt)-2`
abbrev pub chunk_max : ℕ
chunk_max = 4094

-- A packet that was sent too many times is dropped for the next one.
unfoldable pub drop_resent : User → User
drop_resent u =
    if ltb 0 u.outpacket.len && ltb 5 u.outfragresent
    then (get_from_outpacketq (forget_outpacket u)).0
    else u

-- `datalen`
abbrev pub chunk_len : User → ℕ
chunk_len u =
    if ltb 0 u.outpacket.len
    then min (min u.fragsize (u.outpacket.len - u.outpacket.offset)) chunk_max
    else 0

abbrev pub is_last : User → ℕ
is_last u =
    if ltb 0 u.outpacket.len && (u.outpacket.len == u.outpacket.offset + chunk_len u) then 1 else 0

-- `sentlen = datalen; outfragresent++;`
abbrev pub count_sent : User → User
count_sent u =
    if ltb 0 u.outpacket.len
    then record u {
      outpacket = record u.outpacket { sentlen = chunk_len u };
      outfragresent = u.outfragresent + 1;
    }
    else u

-- `pkt[0]` and `pkt[1]`
abbrev pub data_header : User → ℕ → List ℕ
data_header u last =
    bit_or (bit_or (shl 1 7) (shl (bit_and u.inpacket.seqno 7) 4)) (bit_and u.inpacket.fragment 15)
    ∷ bit_or
        (bit_or (shl (bit_and u.outpacket.seqno 7) 5) (shl (bit_and u.outpacket.fragment 15) 1))
        (bit_and last 1)
    ∷ []

-- `pkt`
abbrev pub chunk_packet : User → List ℕ
chunk_packet u =
    data_header u (is_last u) ++ take (chunk_len u) (drop u.outpacket.offset u.outpacket.bytes)

-- The last duplicate of the query, which is answered as well.
abbrev pub duplicate : Query → Query
duplicate q = if q.id2 == 0 then q else record q { id = q.id2; from = q.from2 }

abbrev pub replies : Query → List ℕ → ℕ → List Reply
replies q pkt downenc =
    let first : Reply = record { to = q; payload = pkt; encoding = downenc } in
    let again : Reply = record { to = duplicate q; payload = pkt; encoding = downenc } in
    if q.id2 == 0 then first ∷ [] else first ∷ again ∷ []

-- The query is remembered with its answer, and used up.
unfoldable pub use_query : QueryAt → List ℕ → ℕ → User → User
use_query at pkt len u =
    let q = duplicate (query_at at u) in
    let remembered = save_to_qmem_pingordata (set_query at q u) q in
    set_query at (record q { id = 0 }) (save_to_dnscache remembered q pkt len)

-- The rest of the function, once a packet sent too often is dropped. The last component is true for
-- `return 1`: call again, another packet is ready.
unfoldable pub send_next : User → QueryAt → User × List Reply × Bool
send_next u at =
    let datalen = chunk_len u in
    let pkt = chunk_packet u in
    let sent = use_query at pkt (datalen + 2) (count_sent u) in
    let out = replies (query_at at u) pkt u.downenc in
    let (next, more) = get_from_outpacketq (forget_outpacket sent) in
    if ltb 0 datalen && (datalen == sent.outpacket.len)
    then (next, out, more)
    else (sent, out, false)

unfoldable pub send_chunk_or_dataless : User → QueryAt → User × List Reply × Bool
send_chunk_or_dataless u at = send_next (drop_resent u) at
