-- ===== src/Client/Tunnel.antt =====
-- The tunnel as the client runs it: `tunnel_tun` and `tunnel_dns` of client.c.
use andiodine.Common.{ℕ, ◌+◌, min, bit_and, Bool, true, false, not, ◌&&◌, ◌||◌, leb, ltb, ◌==◌}
use andiodine.Common.{same_bytes, if◌then◌else◌, List, [], ◌∷◌, ◌++◌, length, take, drop, get_or}
use andiodine.Common.{Option, none, some}
use andiodine.User.{Packet, Query, Connection, raw_udp, dns_null}
use andiodine.Seqno.{recent_seqno}
use andiodine.Client.{Client, Event, tun_written, Acted}
use andiodine.Client.Send.{send_raw_data, is_sending, send_chunk, send_ping}
use andiodine.Client.Downstream.{
  DownHeader, read_header, Arrival, ignored, partial, whole, receive_downstream,
}

-- What `read_dns_withq` gives: an error, or the bytes of a reply, none for one of no use.
pub data Got : Type 0 where
  failed : Got
  got : List ℕ → Got

abbrev pub got_bytes : Got → List ℕ
got_bytes failed = []
got_bytes (got buf) = buf

abbrev pub is_error : Got → Bool
is_error failed = true
is_error (got buf) = false

-- `send_ping_soon`, set to a number of milliseconds.
abbrev pub ping_in : ℕ → Client → Client
ping_in ms c = record c { send_ping_soon = ms }

abbrev pub ping_within : ℕ → Client → Client
ping_within ms c = if c.send_ping_soon == 0 || ltb ms c.send_ping_soon then ping_in ms c else c

abbrev restart_counts : Client → Client
restart_counts c = record c {
  selecttimeout = 1;
  send_query_sendcnt = some 0;
  send_query_recvcnt = 0;
}

-- The packet that is sent, and no longer sent.
abbrev pub clear_outpkt : Client → Client
clear_outpkt c = record c {
  outpkt = record c.outpkt { offset = 0; len = 0; sentlen = 0 };
  outchunkresent = 0;
}

-- The reply is not for a ping or a data query of this user.
abbrev pub not_ours : Client → Query → Bool
not_ours c q =
    let c0 = get_or q.name 0 0 in
    not (c0 == b'P')
    && (not (c0 == b'p') && (not (c0 == c.userid_char) && not (c0 == c.userid_char2)))

-- SERVFAIL is 2.
abbrev pub count_servfail : Client → Got → Query → Client
count_servfail c r q =
    if not (is_error r && (q.rcode == 2 && (c.lazymode && ltb 1 c.selecttimeout)))
    then c
    else if ltb c.packrecv 500 && ltb c.packrecv_servfail 4
    then record c { packrecv_servfail = c.packrecv_servfail + 1 }
    else if ltb c.packrecv 500 && c.packrecv_servfail == 4
    then restart_counts (record c { packrecv_servfail = c.packrecv_servfail + 1 })
    else if leb 500 c.packrecv && ltb 0 c.packrecv_servfail
    then record c { packrecv_servfail = 0 }
    else c

abbrev pub badip : List ℕ
badip = b'B' ∷ b'A' ∷ b'D' ∷ b'I' ∷ b'P' ∷ []

abbrev pub count_packet : Client → Client
count_packet c = record c {
  packrecv = if bit_and c.packrecv 0x1000000 == 0 then c.packrecv + 1 else c.packrecv;
  send_query_recvcnt = c.send_query_recvcnt + 1;
}

abbrev pub recent_id : Client → Query → Bool
recent_id c q = q.id == c.chunkid || (q.id == c.chunkid_prev || q.id == c.chunkid_prev2)

abbrev pub count_out_of_sequence : Client → Client
count_out_of_sequence c =
    let c' = record c { packrecv_oos = c.packrecv_oos + 1 } in
    if c.lazymode && (ltb c.packrecv 1000 && c.packrecv_oos + 1 == 5) then restart_counts c' else c'

-- `if (send_something_now)`
abbrev pub ping_if : Bool → Client → Acted
ping_if something c =
    let (c', es) = send_ping c in if something then (ping_in 0 c', es) else (c, [])

-- `inpkt` for a new sequence number that comes without data.
abbrev pub skip_packet : Client → DownHeader → (read : ℕ) → Client
skip_packet c h read =
    let inpkt = c.inpkt in
    if read == 2
      && (not (h.new_down_seqno == inpkt.seqno) && not (recent_seqno inpkt.seqno h.new_down_seqno))
    then ping_in 500 (record c {
      inpkt = record inpkt { seqno = h.new_down_seqno; fragment = h.new_down_fragment; len = 0 };
    })
    else c

module _ (compress2 : List ℕ → List ℕ) where
  -- `outpkt` for a packet from the tun device; `out` has 64 KB.
  abbrev pub new_outpkt : Packet → List ℕ → Packet
  new_outpkt p packet =
      let out = compress2 packet in
      record p {
        bytes = take (min (length out) 65536) out;
        sentlen = 0;
        offset = 0;
        seqno = bit_and (p.seqno + 1) 7;
        len = length out;
        fragment = 0;
      }

  abbrev send_new : Connection → Client → Acted
  send_new dns_null c = let (c', es) = send_chunk c in (ping_in 0 c', es)
  send_new raw_udp c = send_raw_data c

  -- `read` is what `read_tun` gives; the last component is true for a result above 0.
  unfoldable pub tunnel_tun : Client → (read : List ℕ) → Client × List Event × Bool
  tunnel_tun c read =
      let c' = record c { outpkt = new_outpkt c.outpkt read; outchunkresent = 0 } in
      let (sent, es) = send_new c.conn c' in
      if length read == 0 || is_sending c then (c, [], false) else (sent, es, true)

abbrev pub is_raw : Connection → Bool
is_raw raw_udp = true
is_raw dns_null = false

abbrev pub next_chunk : Client → Client
next_chunk c = record c {
  outpkt = record c.outpkt {
    offset = c.outpkt.offset + c.outpkt.sentlen;
    fragment = c.outpkt.fragment + 1;
  };
  outchunkresent = 0;
}

-- The ack of the chunk sent last, and `send_something_now`.
unfoldable pub ack_chunk : Client → DownHeader → (something : Bool) → Client × List Event × Bool
ack_chunk c h something =
    let p = c.outpkt in
    let (more, es) = send_chunk (next_chunk c) in
    if not (is_sending c && (h.up_ack_seqno == p.seqno && h.up_ack_fragment == p.fragment))
    then (c, [], something)
    else if leb p.len (p.offset + p.sentlen)
    then (ping_within 20 (clear_outpkt c), [], something)
    else (ping_in 0 more, es, false)

module _ (uncompress : List ℕ → Option (List ℕ)) where
  abbrev pub write_tun : Option (List ℕ) → List Event
  write_tun none = []
  write_tun (some packet) = tun_written packet ∷ []

  -- The client behind the loop that takes the data, and `send_something_now`.
  abbrev pub behind_arrival : Client → (something : Bool) → Arrival → Client × List Event × Bool
  behind_arrival c something ignored = (ping_in 500 c, [], something)
  behind_arrival c something partial =
      if c.inpkt.len == 0 then (ping_in 5 c, [], something) else (c, [], true)
  behind_arrival c something (whole packet) =
      (ping_in 5 c, write_tun (uncompress packet), something)

  unfoldable pub take_downstream :
      Client → DownHeader → List ℕ → (something : Bool) → Client × List Event × Bool
  take_downstream c h chunk something =
      let (p, arrival) = receive_downstream c.inpkt h chunk in
      let taken = behind_arrival (record c { inpkt = p }) something arrival in
      if length chunk == 0 then (c, [], something) else taken

  -- A reply to one of the last three queries.
  unfoldable pub recent_reply :
      Client → (now : ℕ) → Query → DownHeader → (read : ℕ) → List ℕ → (something : Bool) → Acted
  recent_reply c now q h read chunk something =
      let c1 = record c { lastdownstreamtime = now } in
      let c2 = if q.id == c.chunkid && c.lazymode then ping_within 900 c1 else c1 in
      let (c3, es, s3) = take_downstream (skip_packet c2 h read) h chunk something in
      let (c4, es', s4) = ack_chunk c3 h s3 in
      let (c5, es'') = ping_if s4 c4 in (c5, es ++ (es' ++ es''))

  -- A reply of at least two bytes.
  unfoldable pub take_reply : Client → (now : ℕ) → Query → List ℕ → Client × List Event × Bool
  take_reply c now q buf =
      let h = read_header buf in
      let old =
        ltb 2 (length buf)
        && (not (h.new_down_seqno == c.inpkt.seqno)
            && recent_seqno c.inpkt.seqno h.new_down_seqno) in
      let something = not (c.send_ping_soon == 0) in
      let c1 = count_packet (if old then ping_in 500 c else ping_in 0 c) in
      let (stale, es) = ping_if something (count_out_of_sequence c1) in
      let (fresh, es') =
        recent_reply c1 now q h (if old then 2 else length buf) (if old then [] else drop 2 buf)
          something in
      if recent_id c q then (fresh, es', true) else (stale, es, false)

  -- The last component is true for a result above 0.
  unfoldable pub tunnel_dns : Client → (now : ℕ) → Got → Query → Client × List Event × Bool
  tunnel_dns c now r q =
      let buf = got_bytes r in
      let taken = take_reply c now q buf in
      if is_raw c.conn
      then (c, [], true)
      else if not_ours c q
      then (ping_in 700 c, [], false)
      else if ltb (length buf) 2
      then (ping_in 900 (count_servfail c r q), [], false)
      else if same_bytes buf badip
      then (c, [], false)
      else taken
