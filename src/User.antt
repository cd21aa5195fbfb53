-- ===== src/User.antt =====
-- The server's state: `struct packet` and `struct query` of jni/iodine/src/common.h, and
-- `struct tun_user` of user.h. A C string is the list of its chars before the '\0', a char its
-- unsigned value, and an address the list of its bytes.
pub mod Example
use andiodine.Common.{
  ℕ, min, ◌≤◌, ◌≡◌, ap, sym, ◌∙◌, arith, Bool, List, [], ◌++◌, length, take, drop,
}
use andiodine.Common.{take-append, take-min, length-append, length-take_of_le}

-- `data` is `bytes`; of its 64 KB only what was written is kept.
pub record Packet : Type 0 where
  pub len : ℕ
  pub sentlen : ℕ
  pub offset : ℕ
  pub bytes : List ℕ
  pub seqno : ℕ
  pub fragment : ℕ

pub record Query : Type 0 where
  pub name : List ℕ
  pub qtype : ℕ
  pub rcode : ℕ
  pub id : ℕ
  pub destination : ℕ
  pub from : List ℕ
  pub id2 : ℕ
  pub from2 : List ℕ

-- `enum connection`
pub data Connection : Type 0 where
  raw_udp dns_null : Connection

-- The encoders that `encoder` can point to; `base64u` is generated at build time.
pub data EncoderName : Type 0 where
  base32 base64 base64u base128 : EncoderName

-- One slot of `dnscache_q`, `dnscache_answer` and `dnscache_answerlen`.
pub record CachedAnswer : Type 0 where
  pub query : Query
  pub answer : List ℕ
  pub answerlen : ℕ

-- One slot of `qmemping_cmc` and `qmemping_type`, or of `qmemdata_cmc` and `qmemdata_type`.
pub record SeenQuery : Type 0 where
  pub cmc : List ℕ
  pub seen_type : ℕ

pub record User : Type 0 where
  pub user_id : ℕ
  pub active : Bool
  pub authenticated : Bool
  pub authenticated_raw : Bool
  pub disabled : Bool
  pub last_pkt : ℕ
  pub seed : ℕ
  pub tun_ip : ℕ
  pub host : List ℕ
  pub q : Query
  pub q_sendrealsoon : Query
  pub q_sendrealsoon_new : Bool
  pub inpacket : Packet
  pub outpacket : Packet
  pub outfragresent : ℕ
  pub encoder : EncoderName
  pub downenc : ℕ
  pub out_acked_seqno : ℕ
  pub out_acked_fragment : ℕ
  pub fragsize : ℕ
  pub conn : Connection
  pub lazy : Bool
  pub qmemping : List SeenQuery
  pub qmemping_lastfilled : ℕ
  pub qmemdata : List SeenQuery
  pub qmemdata_lastfilled : ℕ
  pub outpacketq : List Packet
  pub outpacketq_nexttouse : ℕ
  pub outpacketq_filled : ℕ
  pub dnscache : List CachedAnswer
  pub dnscache_lastfilled : ℕ

-- A call of `write_dns`: the query that is answered, the data and its encoding.
pub record Reply : Type 0 where
  pub to : Query
  pub payload : List ℕ
  pub encoding : ℕ

abbrev pub outpacketq_len : ℕ
outpacketq_len = 4

abbrev pub dnscache_len : ℕ
dnscache_len = 4

abbrev pub qmemping_len : ℕ
qmemping_len = 30

abbrev pub qmemdata_len : ℕ
qmemdata_len = 15

-- `T_UNSET`: the type of a slot that remembers nothing.
abbrev pub t_unset : ℕ
t_unset = 65432

-- What `calloc` gives.
abbrev pub zero_packet : Packet
zero_packet = record { len = 0; sentlen = 0; offset = 0; bytes = []; seqno = 0; fragment = 0 }

abbrev pub zero_query : Query
zero_query = record {
  name = [];
  qtype = 0;
  rcode = 0;
  id = 0;
  destination = 0;
  from = [];
  id2 = 0;
  from2 = [];
}

-- `memcpy(dst, src, n)` with the whole of `src`.
abbrev pub memcpy : (dst src : List ℕ) → List ℕ
memcpy dst src = src ++ drop (length src) dst

-- After a copy of as many bytes as fit, the buffer begins with what fits.
pub take-memcpy :
    (size : ℕ) (dst src : List ℕ)
    → let n = min (length src) size in take n (memcpy dst (take n src)) ≡ take size src
take-memcpy size dst src =
    let n = min (length src) size in
    ap (λ (k : ℕ). take k (memcpy dst (take n src))) (sym (length-take_of_le n src (omega arith)))
    ∙ take-append (take n src) (drop (length (take n src)) dst)
    ∙ take-min size src

pub take-memcpy_of_le :
    (n : ℕ) (dst src : List ℕ) → n ≤ length src → take n (memcpy dst (take n src)) ≡ take n src
take-memcpy_of_le n dst src h =
    ap (λ (k : ℕ). take k (memcpy dst (take n src))) (sym (length-take_of_le n src h))
    ∙ take-append (take n src) (drop (length (take n src)) dst)

pub length-memcpy_le :
    (dst src : List ℕ) (n : ℕ) → n ≤ length src → n ≤ length (memcpy dst (take n src))
length-memcpy_le dst src n h =
    omega (
      arith,
      length-append (take n src) (drop (length (take n src)) dst),
      length-take_of_le n src h,
    )
