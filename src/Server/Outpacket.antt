-- ===== src/Server/Outpacket.antt =====
-- The packet that is being sent to a user, and the queue of packets behind it: iodined.c. Each
-- function takes `users[userid]` and returns what it becomes, with its result.
pub mod Queue
pub mod Ack
mod Tests
use andiodine.Common.{ℕ, ◌+◌, ◌-◌, ◌%◌, Bool, true, false, not, ◌||◌, ltb, leb, ◌==◌, min}
use andiodine.Common.{if◌then◌else◌, List, take, get_or, set}
use andiodine.User.{Packet, User, zero_packet, memcpy, outpacketq_len}

-- `sizeof(users[userid].outpacket.data)`
abbrev pub packet_size : ℕ
packet_size = 65536

-- `users[userid].outpacket.len = 0; ...offset = 0; ...sentlen = 0; outfragresent = 0;`
abbrev pub forget_outpacket : User → User
forget_outpacket u = record u {
  outpacket = record u.outpacket { len = 0; offset = 0; sentlen = 0 };
  outfragresent = 0;
}

-- The data is compressed already; `bytes` is `data[0..datalen)`.
unfoldable pub start_new_outpacket : User → List ℕ → ℕ → User
start_new_outpacket u bytes datalen =
    let n = min datalen packet_size in
    let p = u.outpacket in
    record u {
      outpacket = record {
        len = n;
        sentlen = 0;
        offset = 0;
        bytes = memcpy p.bytes (take n bytes);
        seqno = (p.seqno + 1) % 8;
        fragment = 0;
      };
      outfragresent = 0;
    }

-- `false`: the queue is full and the packet is dropped.
unfoldable pub save_to_outpacketq : User → List ℕ → ℕ → User × Bool
save_to_outpacketq u bytes datalen =
    let sum = u.outpacketq_nexttouse + u.outpacketq_filled in
    let fill = if leb outpacketq_len sum then sum - outpacketq_len else sum in
    let n = min datalen packet_size in
    let p = get_or u.outpacketq fill zero_packet in
    if leb outpacketq_len u.outpacketq_filled then (u, false) else (
      record u {
        outpacketq =
            set u.outpacketq fill (record p { bytes = memcpy p.bytes (take n bytes); len = n });
        outpacketq_filled = u.outpacketq_filled + 1;
      },
      true,
    )

-- `false`: no packet was waiting.
unfoldable pub get_from_outpacketq : User → User × Bool
get_from_outpacketq u =
    let use' = u.outpacketq_nexttouse in
    let p = get_or u.outpacketq use' zero_packet in
    let started = start_new_outpacket u p.bytes p.len in
    if u.outpacketq_filled == 0 then (u, false) else (
      record started {
        outpacketq_nexttouse = if leb outpacketq_len (use' + 1) then 0 else use' + 1;
        outpacketq_filled = u.outpacketq_filled - 1;
      },
      true,
    )

-- `fragment++` on a `char`
abbrev pub next_fragment : ℕ → ℕ
next_fragment f = (f + 1) % 256

-- The fields that an accepted ack sets before the packet is looked at again.
abbrev pub advance : User → User
advance u =
    let p = u.outpacket in
    record u {
      outpacket = record p {
        offset = p.offset + p.sentlen;
        sentlen = 0;
        fragment = next_fragment p.fragment;
      };
      outfragresent = 0;
    }

unfoldable pub process_downstream_ack : User → ℕ → ℕ → User
process_downstream_ack u down_seq down_frag =
    let p = u.outpacket in
    let a = advance u in
    let done = record a {
      outpacket = record a.outpacket { len = 0; offset = 0; fragment = p.fragment };
    } in
    if p.len == 0
    then u
    else if not (p.seqno == down_seq) || not (p.fragment == down_frag)
    then u
    else if leb p.len a.outpacket.offset
    then (get_from_outpacketq done).0
    else a
