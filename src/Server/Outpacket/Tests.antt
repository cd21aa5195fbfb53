-- ===== src/Server/Outpacket/Tests.antt =====
-- Runs of the packet queue, and its theorems at a concrete user.
use andiodine.Common.{◌≡◌, refl, arith, [], ◌∷◌}
use andiodine.Common.{none, some, if◌then◌else◌}
use andiodine.User.Example.{alice}
use andiodine.Server.Outpacket.{start_new_outpacket, save_to_outpacketq, get_from_outpacketq}
use andiodine.Server.Outpacket.{process_downstream_ack}
use andiodine.Server.Outpacket.Queue.{waiting, content, IsValid, enqueue, dequeue, save_refines}
use andiodine.Server.Outpacket.Queue.{get_refines}
use andiodine.Server.Outpacket.Ack.{backlog, acknowledge, ack_refines, ack-IsValid}

alice-IsValid : IsValid alice
alice-IsValid = omega arith

waiting-alice : waiting alice ≡ (6 ∷ []) ∷ (8 ∷ 9 ∷ []) ∷ []
waiting-alice = refl

-- The last fragment is acknowledged: the packet that waits longest is next, with a new number.
ack_last :
    let u =
      process_downstream_ack
        (record alice { fragsize = 5; outpacket = record alice.outpacket { sentlen = 5 } })
        7
        2 in
    (content u.outpacket ≡ 6 ∷ []) × (u.outpacket.seqno ≡ 0) × (waiting u ≡ (8 ∷ 9 ∷ []) ∷ [])
unfolding process_downstream_ack get_from_outpacketq start_new_outpacket
ack_last = (refl, refl, refl)

save_refines_example :
    let (u, done) = save_to_outpacketq alice (4 ∷ []) 1 in
    (waiting u, done) ≡ enqueue (waiting alice) (4 ∷ [])
save_refines_example = save_refines alice (4 ∷ []) alice-IsValid

get_refines_example :
    let (u, done) = get_from_outpacketq alice in
    (waiting u, if done then some (content u.outpacket) else none) ≡ dequeue (waiting alice)
get_refines_example = get_refines alice alice-IsValid

ack_refines_example : backlog (process_downstream_ack alice 7 2) ≡ acknowledge 3 (backlog alice)
ack_refines_example = ack_refines alice 7 2 alice-IsValid (omega arith) refl refl

ack-IsValid_example : IsValid (process_downstream_ack alice 7 2)
ack-IsValid_example = ack-IsValid alice 7 2 alice-IsValid
