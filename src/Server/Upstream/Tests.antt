-- ===== src/Server/Upstream/Tests.antt =====
-- Headers and fragments at concrete packets.
use andiodine.Common.{◌≡◌, refl, arith, false, [], ◌∷◌}
use andiodine.User.{Packet, zero_packet}
use andiodine.Seqno.{recent_seqno, recent_loop}
use andiodine.Server.Upstream.{build_header, decode_header}
use andiodine.Server.Upstream.Header.{decode_header-build_header}
use andiodine.Server.Upstream.Reassembly.{Received, receive_all, concat}
use andiodine.Server.Upstream.Reassembly.{receive_all-concat}

-- The packet received last has number 6.
abbrev old_packet : Packet
old_packet = record zero_packet { seqno = 6; fragment = 3 }

new_seqno : recent_seqno 6 7 ≡ false
unfolding recent_seqno recent_loop
new_seqno = refl

decode_header-build_header_example :
    decode_header (build_header (record zero_packet { seqno = 5; fragment = 9 }) old_packet 1)
    ≡ record { up_seq = 5; up_frag = 9; dn_seq = 6; dn_frag = 3; lastfrag = 1 }
decode_header-build_header_example =
    decode_header-build_header (record zero_packet { seqno = 5; fragment = 9 }) old_packet 1
      (omega arith) (omega arith) (omega arith) (omega arith) (omega arith)

receive_all-concat_example :
    Received
      (receive_all old_packet 7 0 ((1 ∷ 2 ∷ []) ∷ (3 ∷ []) ∷ []))
      (concat ((1 ∷ 2 ∷ []) ∷ (3 ∷ []) ∷ []))
receive_all-concat_example =
    receive_all-concat old_packet 7 (1 ∷ 2 ∷ []) ((3 ∷ []) ∷ []) (omega arith) new_seqno
      (omega arith)
