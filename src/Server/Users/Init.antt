-- ===== src/Server/Users/Init.antt =====
-- The table at the start, with an address for every user: `init_users` of user.c.
use andiodine.Common.{ℕ, zero, suc, ◌+◌, ◌-◌, ◌*◌, ◌/◌, ◌%◌, ◌^◌, min, bit_and, false, ◌&&◌, ◌==◌}
use andiodine.Common.{if◌then◌else◌, List, [], ◌∷◌, replicate}
use andiodine.User.{
  User, raw_udp, base32, zero_packet, zero_query, outpacketq_len, qmemping_len, qmemdata_len,
  dnscache_len,
}
use andiodine.Server.DnsCache.{zero_answer}
use andiodine.Server.QueryMemory.{zero_seen}

-- `USERS`
abbrev pub max_users : ℕ
max_users = 16

-- What `calloc` gives: CONN_RAW_UDP is 0. The encoder is a null pointer, which nothing uses before a
-- greeting sets it.
abbrev pub zero_user : User
zero_user = record {
  user_id = 0;
  active = false;
  authenticated = false;
  authenticated_raw = false;
  disabled = false;
  last_pkt = 0;
  seed = 0;
  tun_ip = 0;
  host = replicate 4 0;
  q = zero_query;
  q_sendrealsoon = zero_query;
  q_sendrealsoon_new = false;
  inpacket = zero_packet;
  outpacket = zero_packet;
  outfragresent = 0;
  encoder = base32;
  downenc = 0;
  out_acked_seqno = 0;
  out_acked_fragment = 0;
  fragsize = 0;
  conn = raw_udp;
  lazy = false;
  qmemping = replicate qmemping_len zero_seen;
  qmemping_lastfilled = 0;
  qmemdata = replicate qmemdata_len zero_seen;
  qmemdata_lastfilled = 0;
  outpacketq = replicate outpacketq_len zero_packet;
  outpacketq_nexttouse = 0;
  outpacketq_filled = 0;
  dnscache = replicate dnscache_len zero_answer;
  dnscache_lastfilled = 0;
}

-- `netmask` with `netbits` ones at its end, then shifted to the top of its 32 bits.
abbrev ones : ℕ → ℕ
ones zero = 0
ones (suc n) = ones n * 2 + 1

abbrev netmask : (netbits : ℕ) → ℕ
netmask netbits = ones netbits * 2 ^ (32 - netbits) % 2 ^ 32

-- `htonl`, of a number of 32 bits.
abbrev pub htonl : ℕ → ℕ
htonl v =
    v / 2 ^ 24 % 256 + (v / 2 ^ 16 % 256 * 2 ^ 8 + (v / 2 ^ 8 % 256 * 2 ^ 16 + v % 256 * 2 ^ 24))

-- `ipstart.s_addr + inet_addr("0.0.0.n")`, for `n` below 256.
abbrev pub address_at : (ipstart n : ℕ) → ℕ
address_at ipstart n = (ipstart + n * 2 ^ 24) % 2 ^ 32

abbrev pub user_at : (i ip : ℕ) → User
user_at i ip = record zero_user { user_id = i; tun_ip = ip }

-- The loop from user `i` on, with `k` users left.
abbrev pub users_from : (ipstart my_ip k i skip : ℕ) → List User
users_from ipstart my_ip zero i skip = []
users_from ipstart my_ip (suc k) i skip =
    let is_taken = address_at ipstart (i + skip + 1) == my_ip && skip == 0 in
    let moved =
      user_at i (address_at ipstart (i + (skip + 1) + 1))
      ∷ users_from ipstart my_ip k (i + 1) (skip + 1) in
    let kept =
      user_at i (address_at ipstart (i + skip + 1)) ∷ users_from ipstart my_ip k (i + 1) skip in
    if is_taken then moved else kept

-- `netbits` is from 8 to 30, which `main` sees to.
unfoldable pub init_users : (my_ip netbits : ℕ) → List User
init_users my_ip netbits =
    users_from (bit_and my_ip (htonl (netmask netbits))) my_ip
      (min (2 ^ (32 - netbits) - 3) max_users) 0 0
