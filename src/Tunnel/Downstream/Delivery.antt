-- ===== src/Tunnel/Downstream/Delivery.antt =====
-- As many rounds as the packet has chunks bring it to the client whole.
use andiodine.Common.{
  ℕ, zero, suc, ◌+◌, ◌-◌, ◌*◌, ◌/◌, ◌%◌, ◌≤◌, ◌<◌, ◌≡◌, ◌≢◌, refl, ap, ap₂, sym, subst, ◌∙◌, arith,
}
use andiodine.Common.{List, [], ◌∷◌, ◌++◌, length, take, drop, append_assoc}
use andiodine.Common.{length-take, length-drop, take-append-drop, take_all, take-min, length-append}
use native.Mathlib.Nat.{mod-add-div', mod-lt, div-lt_iff_lt-mul}
use andiodine.User.{Packet, User}
use andiodine.Server.Outpacket.{process_downstream_ack}
use andiodine.Server.Outpacket.Queue.{content, waiting}
use andiodine.Server.Outpacket.Ack.{remaining, length-remaining, backlog, next_packet}
use andiodine.Server.SendChunk.{QueryAt, send_chunk_or_dataless}
use andiodine.Server.SendChunk.Delivery.{room}
use andiodine.Client.Downstream.{
  read_header, Arrival, partial, whole, receive_downstream, inpkt_size,
}
use andiodine.Client.Reassembly.{Awaits, fresh, next}
use andiodine.Tunnel.Downstream.{first_payload, round, completed, rounds}
use andiodine.Tunnel.Downstream.Round.{Ready, takes, is_last-more, is_last-end, ping_ack-ack_byte}
use andiodine.Tunnel.Downstream.Progress.{goes_on, ends}

-- What follows the first round.
then_rounds : ℕ → QueryAt → User × Packet × Arrival → User × Packet × List (List ℕ)
then_rounds k at (u, p, arrival) =
    let (u', p', later) = rounds k at u p in (u', p', completed arrival ++ later)

module _ (at : QueryAt) where
  -- A round in which the client then holds fragment `f` of packet `s`.
  round-acked :
      (u : User) (p : Packet) (s f : ℕ) (a : Arrival)
      → let pkt = first_payload (send_chunk_or_dataless u at).1 in
        let r = receive_downstream p (read_header pkt) (drop 2 pkt) in
        s < 8
        → f < 16
        → r.0.seqno ≡ s
        → r.0.fragment ≡ f
        → r.1 ≡ a
        → round at u p ≡ (process_downstream_ack (send_chunk_or_dataless u at).0 s f, r.0, a)
  unfolding round
  round-acked u p s f a hs hf es ef ea =
      let u' = (send_chunk_or_dataless u at).0 in
      let pkt = first_payload (send_chunk_or_dataless u at).1 in
      let q = (receive_downstream p (read_header pkt) (drop 2 pkt)).0 in
      ap₂ (λ w b. (w, q, b))
        (ap (λ x. process_downstream_ack u' x.0 x.1)
          (ping_ack-ack_byte u'.user_id q s f es ef hs hf))
        ea

  -- What the rounds bring, behind the bytes that the client has.
  abbrev Brings : User × Packet × List (List ℕ) → User → ℕ → List ℕ → Type 0
  Brings (u', p', packets) u s bytes =
      (packets ≡ bytes ∷ []) × (backlog u' ≡ next_packet (waiting u)) × (p'.seqno ≡ s)

  rounds_bring :
      (k : ℕ) (u : User) (p : Packet) (s f : ℕ) (got : List ℕ)
      → Ready u s f
      → Awaits p s f got
      → f + k < 16
      → length got + length (remaining u.outpacket) ≤ inpkt_size
      → k * room u < length (remaining u.outpacket)
      → length (remaining u.outpacket) ≤ k * room u + room u
      → Brings (rounds (suc k) at u p) u s (got ++ remaining u.outpacket)
  unfolding then_rounds
  rounds_bring zero u p s f got v w hf fits lo hi =
      let rem = remaining u.outpacket in
      let size = length-remaining u.outpacket v.valid.current in
      let pkt = first_payload (send_chunk_or_dataless u at).1 in
      let r = receive_downstream p (read_header pkt) (drop 2 pkt) in
      let last = is_last-end u v.busy (omega (arith, v.valid.progress)) (omega (arith, size)) in
      let (whole', seq, frag) = (takes at u p s f got v (omega arith) w fits).1 last in
      let e = round-acked u p s f r.1 v.seq_in (omega arith) seq frag refl in
      let all : take (room u) rem ≡ rem =
        sym (take-min (room u) rem)
        ∙ ap (λ (n : ℕ). take n rem) (omega (arith, hi))
        ∙ take_all rem in
      subst (λ x. Brings (then_rounds zero at x) u s (got ++ rem))
        (sym (
          round-acked u p s f (whole (got ++ take (room u) rem)) v.seq_in (omega arith) seq frag
            whole'))
        (ap (λ c. (got ++ c) ∷ []) all, ends at u s f v (omega (arith, size)), seq)
  rounds_bring (suc k) u p s f got v w hf fits lo hi =
      let rem = remaining u.outpacket in
      let size = length-remaining u.outpacket v.valid.current in
      let pkt = first_payload (send_chunk_or_dataless u at).1 in
      let q = (receive_downstream p (read_header pkt) (drop 2 pkt)).0 in
      let u' = process_downstream_ack (send_chunk_or_dataless u at).0 s f in
      let more = is_last-more u v.busy (omega (arith, size)) in
      let (partial', held) = (takes at u p s f got v (omega arith) w fits).0 more in
      let (v', rest, same_room, same_waiting) =
        goes_on at u s f v (omega arith) (omega (arith, size)) in
      let chunk = take (room u) rem in
      let left : length (remaining u'.outpacket) ≡ length rem - room u =
        ap length rest ∙ length-drop (room u) rem in
      let (packets, behind, seq) =
        rounds_bring k u' q s (f + 1) (got ++ chunk) v' (next held) (omega arith)
          (omega (arith, left, length-append got chunk, length-take (room u) rem))
          (subst (λ (n : ℕ). k * n < length (remaining u'.outpacket)) (sym same_room)
            (omega (arith, left)))
          (subst (λ (n : ℕ). length (remaining u'.outpacket) ≤ k * n + n) (sym same_room)
            (omega (arith, left))) in
      let bytes : (got ++ chunk) ++ remaining u'.outpacket ≡ got ++ rem =
        append_assoc got chunk (remaining u'.outpacket)
        ∙ ap (λ b. got ++ b) (ap (λ b. chunk ++ b) rest ∙ take-append-drop (room u) rem) in
      subst (λ x. Brings (then_rounds (suc k) at x) u s (got ++ rem))
        (sym (round-acked u p s f partial v.seq_in (omega arith) held.seq held.frag partial'))
        (packets ∙ ap (λ b. b ∷ []) bytes, behind ∙ ap next_packet same_waiting, seq)

-- For a well-formed user who has the first chunk of a packet to send, sent at most five times so
-- far, of at most 16 chunks as large as fragsize and the buffer allow, and a client whose last
-- packet had another number: if as many queries are answered as the packet has chunks, and each
-- reply is taken and acknowledged by the next ping, then the client has exactly this packet,
-- whole, and the server goes on with the packet that waits longest.
pub packet_delivered :
    (at : QueryAt) (u : User) (p : Packet)
    → Ready u u.outpacket.seqno 0
    → u.outpacket.offset ≡ 0
    → p.seqno ≢ u.outpacket.seqno
    → u.outpacket.len ≤ 16 * room u
    → let (u', p', packets) = rounds ((u.outpacket.len - 1) / room u + 1) at u p in
      (packets ≡ content u.outpacket ∷ []) × (backlog u' ≡ next_packet (waiting u))
packet_delivered at u p v start new few =
    let n = room u in
    let len = u.outpacket.len in
    let k = (len - 1) / n in
    let whole' : remaining u.outpacket ≡ content u.outpacket =
      ap (λ (i : ℕ). drop i (content u.outpacket)) start in
    let size : length (remaining u.outpacket) ≡ len =
      omega (arith, length-remaining u.outpacket v.valid.current) in
    let some' : 0 < len = ground (arith, v.busy.0) in
    let split : (len - 1) % n + k * n ≡ len - 1 = mod-add-div' (len - 1) n in
    let below = mod-lt (len - 1) v.some_room in
    let bound : k < 16 = (div-lt_iff_lt-mul v.some_room).1 (omega (arith, few, some')) in
    let one : k + 1 ≡ suc k = omega arith in
    let (packets, behind, seq) =
      rounds_bring at k u p u.outpacket.seqno 0 [] v (fresh (λ e. new (sym e)))
        (omega (arith, bound)) (omega (arith, size, v.valid.current.0))
        (omega (arith, size, split, below, some')) (omega (arith, size, split, below, some')) in
    (
      ap (λ (j : ℕ). (rounds j at u p).2) one ∙ packets ∙ ap (λ b. b ∷ []) whole',
      ap (λ (j : ℕ). backlog (rounds j at u p).0) one ∙ behind,
    )
