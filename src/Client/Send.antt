-- ===== src/Client/Send.antt =====
-- What the client sends in a tunnel: `send_raw`, `send_packet`, `send_chunk` and `send_ping` of
-- client.c.
use andiodine.Common.{ℕ, ◌+◌, ◌-◌, min, bit_and, bit_or, Bool, not, leb, ltb, ◌==◌}
use andiodine.Common.{if◌then◌else◌, List, [], ◌∷◌, ◌++◌, length, take, drop}
use andiodine.Common.Bits.{shl, shr}
use andiodine.User.{Packet, Connection, raw_udp, dns_null}
use andiodine.Hostname.{build_hostname}
use andiodine.Hostname.Encoders.{base32_encoder}
use andiodine.Server.Upstream.{build_header}
use andiodine.Client.{Client, raw_sent, Acted}
use andiodine.Client.Query.{send_query, next_seed}

abbrev pub raw_ident : List ℕ
raw_ident = 0x10 ∷ 0xd1 ∷ 0x9e ∷ []

-- `raw_header` with the command, and the data that fits `packet`.
unfoldable pub send_raw : List ℕ → (user cmd : ℕ) → List ℕ
send_raw buf user cmd =
    raw_ident ++ (bit_or cmd (bit_and user 0x0F) ∷ take (min (4096 - 4) (length buf)) buf)

unfoldable pub send_raw_data : Client → Acted
send_raw_data c =
    let outpkt = c.outpkt in
    let packet = send_raw (take outpkt.len outpkt.bytes) c.userid 0x20 in
    (record c { outpkt = record outpkt { len = 0 } }, raw_sent packet ∷ [])

unfoldable pub send_packet : Client → (cmd : ℕ) → List ℕ → Acted
send_packet c cmd bytes =
    let name = (build_hostname 4095 bytes c.topdomain base32_encoder c.hostname_maxlen).0 in
    send_query c (cmd ∷ name)

unfoldable pub is_sending : Client → Bool
is_sending c = not (c.outpkt.len == 0)

-- `p` and `avail`
abbrev pub to_send : Packet → List ℕ
to_send p = take (p.len - p.offset) (drop p.offset p.bytes)

-- The name of the chunk behind its header, and the data that is not in it.
unfoldable pub chunk_name : Client → List ℕ × List ℕ
chunk_name c = build_hostname 4091 (to_send c.outpkt) c.topdomain c.dataenc c.hostname_maxlen

-- `outpkt.sentlen`
unfoldable pub chunk_sentlen : Client → ℕ
chunk_sentlen c = length (to_send c.outpkt) - length (chunk_name c).1

-- `datacmcchars[datacmc]`
abbrev pub cmc_char_of : ℕ → ℕ
cmc_char_of n = if ltb n 26 then b'a' + n else b'0' + (n - 26)

abbrev sent_all : Client → ℕ
sent_all c = if chunk_sentlen c == length (to_send c.outpkt) then 1 else 0

-- `buf`
unfoldable pub chunk_hostname : Client → List ℕ
chunk_hostname c =
    c.userid_char
    ∷ (build_header c.outpkt c.inpkt (sent_all c) ++ (cmc_char_of c.datacmc ∷ (chunk_name c).0))

abbrev pub chunk_sent : Client → Client
chunk_sent c = record c {
  outpkt = record c.outpkt { sentlen = chunk_sentlen c };
  datacmc = if leb 36 (c.datacmc + 1) then 0 else c.datacmc + 1;
}

unfoldable pub send_chunk : Client → Acted
send_chunk c = send_query (chunk_sent c) (chunk_hostname c)

abbrev pub seed_bytes : Client → List ℕ
seed_bytes c = bit_and (shr c.rand_seed 8) 0xff ∷ bit_and c.rand_seed 0xff ∷ []

-- The state of the downstream packet, as it is acknowledged.
abbrev pub ack_byte : Packet → ℕ
ack_byte p = bit_or (shl (bit_and p.seqno 7) 4) (bit_and p.fragment 15)

abbrev pub ping_data : Client → List ℕ
ping_data c = c.userid ∷ ack_byte c.inpkt ∷ seed_bytes c

abbrev pub ping_by : Connection → Client → Acted
ping_by dns_null c = send_packet (next_seed c) b'p' (ping_data c)
ping_by raw_udp c = (c, raw_sent (send_raw [] c.userid 0x30) ∷ [])

unfoldable pub send_ping : Client → Acted
send_ping c = ping_by c.conn c
