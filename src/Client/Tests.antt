-- ===== src/Client/Tests.antt =====
-- A client in the middle of a transfer.
use andiodine.Common.{ℕ, ◌≡◌, ◌≢◌, refl, arith, true, false, List, [], ◌∷◌, inl, inr, some}
use andiodine.Common.{◌++◌}
use andiodine.User.{Query, zero_packet, zero_query, dns_null}
use andiodine.User.Example.{alice}
use andiodine.Hostname.Encoders.{base32_encoder}
use andiodine.Server.SendChunk.{data_header}
use andiodine.Client.{Client}
use andiodine.Client.Query.{send_query, next_id}
use andiodine.Client.Downstream.{read_header}
use andiodine.Client.Header.{read_header-data_header}
use andiodine.Client.Ids.{send_query_ids}
use andiodine.Client.Tunnel.{got, tunnel_dns}
use andiodine.Client.Taken.{tunnel_dns_refused}

-- Fragment 1 of packet 3 was the last to come.
abbrev carol : Client
carol = record {
  running = true;
  topdomain = b't' ∷ b'.' ∷ b'c' ∷ b'o' ∷ [];
  rand_seed = 65535;
  outpkt = zero_packet;
  inpkt = record zero_packet { len = 2; bytes = 1 ∷ 2 ∷ []; seqno = 3; fragment = 1 };
  outchunkresent = 0;
  userid = 4;
  userid_char = b'4';
  userid_char2 = b'4';
  chunkid = 57809;
  chunkid_prev = 50082;
  chunkid_prev2 = 42355;
  dataenc = base32_encoder;
  downenc = b'T';
  do_qtype = 10;
  conn = dns_null;
  selecttimeout = 4;
  lazymode = true;
  send_ping_soon = 0;
  lastdownstreamtime = 0;
  send_query_sendcnt = some 3;
  send_query_recvcnt = 1;
  hostname_maxlen = 255;
  edns0 = true;
  datacmc = 0;
  packrecv = 7;
  packrecv_oos = 0;
  packrecv_servfail = 0;
  answers = [];
}

-- 0 is passed over.
next_id_test : next_id 57809 ≡ 7727
next_id_test = refl

send_query_ids_example :
    let c = (send_query (send_query carol (b'p' ∷ [])).0 (b'p' ∷ [])).0 in
    (c.chunkid ≢ 0)
    × (c.chunkid_prev ≢ 0)
    × (c.chunkid ≢ c.chunkid_prev)
    × (c.chunkid ≢ c.chunkid_prev2)
    × (c.chunkid_prev ≢ c.chunkid_prev2)
send_query_ids_example = send_query_ids carol (b'p' ∷ []) (b'p' ∷ []) (omega arith)

read_header-data_header_example :
    let h = read_header (data_header alice 1 ++ (9 ∷ [])) in
    (h.new_down_seqno ≡ 7)
    × (h.new_down_fragment ≡ 2)
    × (h.up_ack_seqno ≡ 0)
    × (h.up_ack_fragment ≡ 0)
    × (h.last_fragment ≡ 1)
read_header-data_header_example =
    read_header-data_header alice 1 (9 ∷ []) (omega arith) (omega arith) (omega arith) (omega arith)
      (omega arith)

abbrev reply_to : Query
reply_to = record zero_query { name = b'4' ∷ []; id = 50082 }

-- The last fragment of packet 3: 0x60 + 4 + 1.
abbrev reply : List ℕ
reply = 128 ∷ 101 ∷ 8 ∷ []

tunnel_dns_refused_example :
    let (c', es, done) = tunnel_dns some carol 5 (got (7 ∷ [])) reply_to in
    (c'.inpkt ≡ carol.inpkt) × (c'.outpkt ≡ carol.outpkt) × (es ≡ []) × (done ≡ false)
tunnel_dns_refused_example =
    tunnel_dns_refused some carol 5 (got (7 ∷ [])) reply_to refl (inr (inl (omega arith)))
