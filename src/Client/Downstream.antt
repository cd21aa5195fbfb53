-- ===== src/Client/Downstream.antt =====
-- A fragment from the server, put together with those before it: `tunnel_dns` of client.c.
use andiodine.Common.{ℕ, ◌+◌, ◌-◌, min, bit_and, Bool, true, false, not, ◌&&◌, leb, ltb, ◌==◌}
use andiodine.Common.{if◌then◌else◌, List, ◌++◌, length, take, drop, get_or}
use andiodine.Common.Bits.{shr}
use andiodine.User.{Packet}

-- The data header, the first two bytes of a reply.
pub record DownHeader : Type 0 where
  pub new_down_seqno : ℕ
  pub new_down_fragment : ℕ
  pub up_ack_seqno : ℕ
  pub up_ack_fragment : ℕ
  pub last_fragment : ℕ

unfoldable pub read_header : List ℕ → DownHeader
read_header buf =
    let b0 = get_or buf 0 0 in
    let b1 = get_or buf 1 0 in
    record {
      new_down_seqno = bit_and (shr b1 5) 7;
      new_down_fragment = bit_and (shr b1 1) 15;
      up_ack_seqno = bit_and (shr b0 4) 7;
      up_ack_fragment = bit_and b0 15;
      last_fragment = bit_and b1 1;
    }

-- `sizeof(inpkt.data)`
abbrev pub inpkt_size : ℕ
inpkt_size = 65536

-- The cases of a fragment; false for the two that end in `break`. The sequence number is not a
-- recent one.
unfoldable pub place_fragment : Packet → (seqno fragment : ℕ) → Packet × Bool
place_fragment p seqno fragment =
    if not (seqno == p.seqno)
    then (record p { seqno = seqno; fragment = fragment; len = 0 }, true)
    else if p.fragment == 0 && (fragment == 0 && p.len == 0)
    then (p, true)
    else if leb fragment p.fragment
    then (p, false)
    else if ltb (p.fragment + 1) fragment
    then (p, false)
    else (p, true)

-- The data is put behind what is there.
unfoldable pub append_fragment : Packet → (fragment : ℕ) → List ℕ → Packet
append_fragment p fragment chunk =
    let datalen = min (length chunk) (inpkt_size - p.len) in
    record p {
      fragment = fragment;
      bytes = take p.len p.bytes ++ (take datalen chunk ++ drop (p.len + datalen) p.bytes);
      len = p.len + datalen;
    }

-- What became of a fragment; `whole` has the packet that it completes.
pub data Arrival : Type 0 where
  ignored partial : Arrival
  whole : List ℕ → Arrival

-- Behind the last fragment the packet is taken out.
abbrev pub complete : Packet → (last : ℕ) → Packet × Arrival
complete p last =
    if last == 0 then (p, partial) else (record p { len = 0 }, whole (take p.len p.bytes))

-- `chunk` is the reply behind its header.
unfoldable pub receive_downstream : Packet → DownHeader → (chunk : List ℕ) → Packet × Arrival
receive_downstream p h chunk =
    let (q, ok) = place_fragment p h.new_down_seqno h.new_down_fragment in
    if ok
    then complete (append_fragment q h.new_down_fragment chunk) h.last_fragment
    else (q, ignored)
