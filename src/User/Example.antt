-- ===== src/User/Example.antt =====
-- A user for the tests: as `iodined` would have it in the middle of a transfer.
use andiodine.Common.{ℕ, true, false, List, [], ◌∷◌, length}
use andiodine.User.{Packet, User, zero_packet, zero_query, base32, dns_null}

abbrev pub packet : List ℕ → Packet
packet bytes = record zero_packet { len = length bytes; bytes = bytes }

-- Three of five bytes are sent, the ring has gone round, and two packets wait.
abbrev pub alice : User
alice = record {
  user_id = 0;
  active = true;
  authenticated = true;
  authenticated_raw = false;
  disabled = false;
  last_pkt = 0;
  seed = 0;
  tun_ip = 0;
  host = [];
  q = zero_query;
  q_sendrealsoon = zero_query;
  q_sendrealsoon_new = false;
  inpacket = zero_packet;
  outpacket = record {
    len = 5;
    sentlen = 3;
    offset = 0;
    bytes = 1 ∷ 2 ∷ 3 ∷ 4 ∷ 5 ∷ [];
    seqno = 7;
    fragment = 2;
  };
  outfragresent = 1;
  encoder = base32;
  downenc = b'T';
  out_acked_seqno = 0;
  out_acked_fragment = 0;
  fragsize = 3;
  conn = dns_null;
  lazy = true;
  qmemping = [];
  qmemping_lastfilled = 0;
  qmemdata = [];
  qmemdata_lastfilled = 0;
  outpacketq = packet (8 ∷ 9 ∷ []) ∷ zero_packet ∷ zero_packet ∷ packet (6 ∷ []) ∷ [];
  outpacketq_nexttouse = 3;
  outpacketq_filled = 2;
  dnscache = [];
  dnscache_lastfilled = 0;
}
