-- ===== src/Tunnel/Tests.antt =====
-- A packet on its way through the tunnel.
use andiodine.Common.{◌+◌, ◌-◌, ◌/◌, ◌≡◌, refl, arith, [], ◌∷◌}
use andiodine.User.{User, zero_packet}
use andiodine.User.Example.{alice}
use andiodine.Server.Outpacket.Queue.{content, waiting}
use andiodine.Server.Outpacket.Ack.{backlog, next_packet}
use andiodine.Server.SendChunk.{at_q}
use andiodine.Server.SendChunk.Delivery.{room}
use andiodine.Tunnel.Downstream.{rounds}
use andiodine.Tunnel.Downstream.Round.{Ready}
use andiodine.Tunnel.Downstream.Delivery.{packet_delivered}

-- A user with a packet of two chunks that was not sent yet.
abbrev erin : User
erin = record alice {
  outpacket = record alice.outpacket { sentlen = 0; fragment = 0 };
  outfragresent = 0;
}

erin-Ready : Ready erin 7 0
erin-Ready = record {
  valid = omega arith;
  busy = (omega arith, omega arith);
  seq = refl;
  frag = refl;
  seq_in = omega arith;
  up_in = (omega arith, omega arith);
  some_room = omega arith;
}

packet_delivered_example :
    let (u', p', packets) = rounds ((5 - 1) / room erin + 1) at_q erin zero_packet in
    (packets ≡ content erin.outpacket ∷ []) × (backlog u' ≡ next_packet (waiting erin))
packet_delivered_example =
    packet_delivered at_q erin zero_packet erin-Ready refl (omega arith) (omega arith)
