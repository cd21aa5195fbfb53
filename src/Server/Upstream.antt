-- ===== src/Server/Upstream.antt =====
-- A fragment of a packet from a client: its header, and the packet put together in
-- `handle_null_request` of iodined.c; and the header that `send_chunk` of client.c writes.
pub mod Header
pub mod Reassembly
mod Tests
use andiodine.Common.{ℕ, ◌+◌, ◌-◌, min, bit_and, bit_or, Bool, true, false, not, ◌&&◌, leb, ◌==◌}
use andiodine.Common.{if◌then◌else◌, List, [], ◌∷◌, ◌++◌, length, take, drop, get_or}
use andiodine.Common.Bits.{shl, shr}
use andiodine.Codec.Base32.{b32_5to8, b32_8to5}
use andiodine.User.{Packet, User}
use andiodine.Seqno.{recent_seqno}

pub record DataHeader : Type 0 where
  pub up_seq : ℕ
  pub up_frag : ℕ
  pub dn_seq : ℕ
  pub dn_frag : ℕ
  pub lastfrag : ℕ

-- `buf[1]`, `buf[2]` and `buf[3]`, from `outpkt`, `inpkt` and whether all that is left is sent.
unfoldable pub build_header : (outpkt inpkt : Packet) → (sent_all : ℕ) → List ℕ
build_header outpkt inpkt sent_all =
    b32_5to8 (bit_or (shl (bit_and outpkt.seqno 7) 2) (shr (bit_and outpkt.fragment 15) 2))
    ∷ b32_5to8 (bit_or (shl (bit_and outpkt.fragment 3) 3) (bit_and inpkt.seqno 7))
    ∷ b32_5to8 (bit_or (shl (bit_and inpkt.fragment 15) 1) sent_all)
    ∷ []

-- `in` from `in[1]` on.
unfoldable pub decode_header : List ℕ → DataHeader
decode_header chars =
    let x = b32_8to5 (get_or chars 0 0) in
    let y = b32_8to5 (get_or chars 1 0) in
    let z = b32_8to5 (get_or chars 2 0) in
    record {
      up_seq = bit_and (shr x 2) 7;
      up_frag = bit_or (shl (bit_and x 3) 2) (bit_and (shr y 3) 3);
      dn_seq = bit_and y 7;
      dn_frag = shr z 1;
      lastfrag = bit_and z 1;
    }

-- `sizeof(users[userid].inpacket.data)`
abbrev pub inpacket_size : ℕ
inpacket_size = 65536

-- The four cases of a fragment; the second component is `upstream_ok`.
unfoldable pub accept_fragment : Packet → (up_seq up_frag : ℕ) → Packet × Bool
accept_fragment p up_seq up_frag =
    if up_seq == p.seqno && leb up_frag p.fragment
    then (p, false)
    else if not (up_seq == p.seqno) && recent_seqno p.seqno up_seq
    then (p, false)
    else if not (up_seq == p.seqno)
    then (record p { seqno = up_seq; fragment = up_frag; len = 0; offset = 0 }, true)
    else (record p { fragment = up_frag }, true)

-- The data of the fragment, decoded, is put behind what is there.
unfoldable pub store_fragment : Packet → List ℕ → Packet
store_fragment p unpacked =
    let n = min (length unpacked) (inpacket_size - p.offset) in
    record p {
      bytes = take p.offset p.bytes ++ (take n unpacked ++ drop (p.offset + n) p.bytes);
      len = p.len + n;
      offset = p.offset + n;
    }

-- `inpacket` after a fragment.
unfoldable pub receive_fragment : Packet → (up_seq up_frag : ℕ) → List ℕ → Packet
receive_fragment p up_seq up_frag unpacked =
    let (q, upstream_ok) = accept_fragment p up_seq up_frag in
    if upstream_ok then store_fragment q unpacked else q
