-- ===== src/Client.antt =====
-- The state of the client: the variables of jni/iodine/src/client.c, and the static ones of its
-- functions. A C string is the list of its chars, a char its unsigned value.
pub mod Query
pub mod Send
pub mod Downstream
pub mod Tunnel
pub mod Frame
pub mod Ids
pub mod Taken
pub mod Arrived
mod Tests
pub mod Header
pub mod Reassembly
pub mod Namedec
use andiodine.Common.{ℕ, Bool, List, Option}
use andiodine.User.{Packet, Connection}
use andiodine.Hostname.{Encoder}

pub record Client : Type 0 where
  pub running : Bool
  pub topdomain : List ℕ
  pub rand_seed : ℕ
  pub outpkt : Packet
  pub inpkt : Packet
  pub outchunkresent : ℕ
  pub userid : ℕ
  pub userid_char : ℕ
  pub userid_char2 : ℕ
  pub chunkid : ℕ
  pub chunkid_prev : ℕ
  pub chunkid_prev2 : ℕ
  pub dataenc : Encoder
  pub downenc : ℕ
  pub do_qtype : ℕ
  pub conn : Connection
  pub selecttimeout : ℕ
  pub lazymode : Bool
  pub send_ping_soon : ℕ
  pub lastdownstreamtime : ℕ
  -- `none` is -1: not yet counting.
  pub send_query_sendcnt : Option ℕ
  pub send_query_recvcnt : ℕ
  pub hostname_maxlen : ℕ
  pub edns0 : Bool
  -- Of `send_chunk`.
  pub datacmc : ℕ
  -- Of `tunnel_dns`.
  pub packrecv : ℕ
  pub packrecv_oos : ℕ
  pub packrecv_servfail : ℕ
  -- What the next calls of `handshake_waitdns` put into `in`; nothing for an error or a timeout.
  pub answers : List (List ℕ)

-- What the client sends to the name server and to the raw server, and writes to the tun device.
pub data Event : Type 0 where
  dns_sent raw_sent tun_written : List ℕ → Event

-- The client after a call, and what it did.
abbrev pub Acted : Type 0
Acted = Client × List Event
