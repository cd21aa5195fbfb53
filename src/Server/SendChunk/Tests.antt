-- ===== src/Server/SendChunk/Tests.antt =====
-- Sending at a concrete user.
use andiodine.Common.{◌≡◌, refl, arith, take}
use andiodine.User.{User}
use andiodine.User.Example.{alice}
use andiodine.Server.Outpacket.{process_downstream_ack}
use andiodine.Server.Outpacket.Queue.{IsValid}
use andiodine.Server.Outpacket.Ack.{backlog, remaining, acknowledge}
use andiodine.Server.SendChunk.{at_q, send_chunk_or_dataless}
use andiodine.Server.SendChunk.Delivery.{sent_data, room, send_chunk-data}
use andiodine.Server.SendChunk.Delivery.{send_chunk_whole, send_chunk_acked}
use andiodine.Server.SendChunk.Used.{send_chunk-IsValid}

-- A user whose packet fits one reply.
abbrev dave : User
dave = record alice { fragsize = 200; outpacket = record alice.outpacket { sentlen = 0 } }

alice-IsValid : IsValid alice
alice-IsValid = omega arith

dave-IsValid : IsValid dave
dave-IsValid = omega arith

send_chunk-data_example :
    sent_data (send_chunk_or_dataless dave at_q).1 ≡ take (room dave) (remaining dave.outpacket)
send_chunk-data_example = send_chunk-data dave at_q (omega arith, omega arith)

send_chunk_whole_example :
    backlog (send_chunk_or_dataless dave at_q).0 ≡ acknowledge (room dave) (backlog dave)
send_chunk_whole_example = send_chunk_whole dave at_q (omega arith, omega arith) dave-IsValid refl

send_chunk_acked_example :
    let u = (send_chunk_or_dataless alice at_q).0 in
    backlog (process_downstream_ack u 7 2) ≡ acknowledge (room alice) (backlog alice)
send_chunk_acked_example =
    send_chunk_acked alice at_q (omega arith, omega arith) alice-IsValid (omega arith)

send_chunk-IsValid_example : IsValid (send_chunk_or_dataless alice at_q).0
send_chunk-IsValid_example = send_chunk-IsValid alice at_q alice-IsValid
