-- ===== src/Server/SendChunk/Delivery.antt =====
-- A chunk and its ack move exactly the bytes in the reply from the backlog to the client.
use andiodine.Common.{ℕ, ◌+◌, ◌-◌, ◌≤◌, ◌≡◌, ◌≢◌, refl, ap, ap₂, sym, ◌∙◌, arith, min}
use andiodine.Common.{true, false, ◌&&◌, ltb, ◌==◌, Bool-cases, inl, inr}
use andiodine.Common.{List, [], ◌∷◌, length, take, drop, take-take, drop-take}
use andiodine.User.{User, Query, Reply}
use andiodine.Server.Outpacket.{forget_outpacket, get_from_outpacketq, process_downstream_ack}
use andiodine.Server.Outpacket.Queue.{IsValid, waiting}
use andiodine.Server.Outpacket.Ack.{backlog, remaining, acknowledge, next_packet, get-backlog}
use andiodine.Server.Outpacket.Ack.{length-remaining, acknowledge_all, ack_refines}
use andiodine.Server.SendChunk.{QueryAt, query_at, drop_resent, chunk_len, chunk_packet, count_sent}
use andiodine.Server.SendChunk.{use_query, replies, send_chunk_or_dataless, send_next, chunk_max}
use andiodine.Server.SendChunk.Frame.{sending, use_query-sending, backlog-sending, IsValid-sending}

-- A packet is under way, and was not sent too often.
abbrev pub Sending : User → Type 0
Sending u = (u.outpacket.len ≢ 0) × (u.outfragresent ≤ 5)

-- The most bytes of data that a reply can hold.
abbrev pub room : User → ℕ
room u = min u.fragsize chunk_max

-- The data behind the header of the first reply.
abbrev pub sent_data : List Reply → List ℕ
sent_data [] = []
sent_data (r ∷ rs) = drop 2 r.payload

drop_resent-Sending : (u : User) → Sending u → drop_resent u ≡ u
unfolding drop_resent
drop_resent-Sending u (ne, few) =
    let b : (ltb 0 u.outpacket.len && ltb 5 u.outfragresent) ≡ false = ground arith in rw b refl

pub chunk_len-room :
    (u : User) → Sending u → chunk_len u ≡ min (room u) (u.outpacket.len - u.outpacket.offset)
chunk_len-room u (ne, few) =
    let b : ltb 0 u.outpacket.len ≡ true = ground arith in rw b (omega arith)

pub chunk_data :
    (u : User)
    → Sending u
    → take (chunk_len u) (drop u.outpacket.offset u.outpacket.bytes)
      ≡ take (room u) (remaining u.outpacket)
chunk_data u s =
    let p = u.outpacket in
    ap (λ (k : ℕ). take k (drop p.offset p.bytes)) (chunk_len-room u s)
    ∙ sym (take-take (room u) (p.len - p.offset) (drop p.offset p.bytes))
    ∙ ap (take (room u)) (sym (drop-take p.offset p.len p.bytes))

sent_data-replies :
    (q : Query) (pkt : List ℕ) (downenc : ℕ) → sent_data (replies q pkt downenc) ≡ drop 2 pkt
sent_data-replies q pkt downenc = elim (Bool-cases (q.id2 == 0)) [
  | inl single ↦ rw single refl
  | inr twice ↦ rw twice refl
]

-- The state after the replies, before the packet is looked at again.
abbrev pub sent : User → QueryAt → User
sent u at = use_query at (chunk_packet u) (chunk_len u + 2) (count_sent u)

pub sending-sent :
    (u : User) (at : QueryAt)
    → Sending u
    → sending (sent u at) ≡ (
      record u.outpacket { sentlen = chunk_len u },
      u.outpacketq,
      u.outpacketq_nexttouse,
      u.outpacketq_filled,
      u.lazy,
      u.fragsize,
      u.outfragresent + 1,
      u.inpacket,
    )
sending-sent u at (ne, few) =
    let b : ltb 0 u.outpacket.len ≡ true = ground arith in
    use_query-sending at (chunk_packet u) (chunk_len u + 2) (count_sent u) ∙ rw b refl

whole : (k len : ℕ) → k ≡ len → len ≢ 0 → (ltb 0 k && (k == len)) ≡ true
whole k len e ne = ground arith

not_whole : (k len : ℕ) → k ≢ len → (ltb 0 k && (k == len)) ≡ false
not_whole k len ne = ground arith

-- What is sent.
abbrev pub out : User → QueryAt → List Reply
out u at = replies (query_at at u) (chunk_packet u) u.downenc

sent-len : (u : User) (at : QueryAt) → Sending u → (sent u at).outpacket.len ≡ u.outpacket.len
sent-len u at s = ap (λ w. w.0.len) (sending-sent u at s)

pub send_next-not_whole :
    (u : User) (at : QueryAt)
    → Sending u
    → chunk_len u ≢ u.outpacket.len
    → send_next u at ≡ (sent u at, out u at, false)
unfolding send_next
send_next-not_whole u at s ne =
    rw (not_whole (chunk_len u) (sent u at).outpacket.len (λ e. ne (e ∙ sent-len u at s))) refl

pub send_next-whole :
    (u : User) (at : QueryAt)
    → Sending u
    → chunk_len u ≡ u.outpacket.len
    → send_next u at ≡ (
      (get_from_outpacketq (forget_outpacket (sent u at))).0,
      out u at,
      (get_from_outpacketq (forget_outpacket (sent u at))).1,
    )
unfolding send_next
send_next-whole u at s e =
    let len = sent-len u at s in
    rw (whole (chunk_len u) (sent u at).outpacket.len (e ∙ sym len) (λ z. s.0 (sym len ∙ z))) refl

pub send_chunk-next :
    (u : User) (at : QueryAt) → Sending u → send_chunk_or_dataless u at ≡ send_next u at
unfolding send_chunk_or_dataless
send_chunk-next u at s = ap (λ w. send_next w at) (drop_resent-Sending u s)

pub send_next-replies : (u : User) (at : QueryAt) → (send_next u at).1 ≡ out u at
unfolding send_next
send_next-replies u at =
    elim (Bool-cases (ltb 0 (chunk_len u) && (chunk_len u == (sent u at).outpacket.len))) [
      | inl all ↦ rw all refl
      | inr some' ↦ rw some' refl
    ]

-- With a packet under way that was sent at most five times, the data in the first reply is the
-- next bytes of it, as many as fragsize and the buffer of 4096 bytes have room for.
pub send_chunk-data :
    (u : User) (at : QueryAt)
    → Sending u
    → sent_data (send_chunk_or_dataless u at).1 ≡ take (room u) (remaining u.outpacket)
send_chunk-data u at s =
    ap (λ r. sent_data r.1) (send_chunk-next u at s)
    ∙ ap sent_data (send_next-replies u at)
    ∙ sent_data-replies (query_at at u) (chunk_packet u) u.downenc
    ∙ chunk_data u s

-- The user with the chunk counted as sent.
abbrev pub with_sent : User → User
with_sent u = record u {
  outpacket = record u.outpacket { sentlen = chunk_len u };
  outfragresent = u.outfragresent + 1;
}

pub with_sent-IsValid : (u : User) → Sending u → IsValid u → IsValid (with_sent u)
with_sent-IsValid u s v = record {
  slots = v.slots;
  next_in = v.next_in;
  filled_in = v.filled_in;
  fits = v.fits;
  current = v.current;
  progress = omega (arith, v.progress, chunk_len-room u s);
}

pub sent-IsValid : (u : User) (at : QueryAt) → Sending u → IsValid u → IsValid (sent u at)
sent-IsValid u at s v =
    IsValid-sending (with_sent u) (sent u at) (sym (sending-sent u at s)) (with_sent-IsValid u s v)

pub forget_outpacket-IsValid : (u : User) → IsValid u → IsValid (forget_outpacket u)
forget_outpacket-IsValid u v = record {
  slots = v.slots;
  next_in = v.next_in;
  filled_in = v.filled_in;
  fits = v.fits;
  current = (omega arith, omega arith);
  progress = omega arith;
}

acknowledge-min :
    (n : ℕ) (current : List ℕ) (ws : List (List ℕ))
    → acknowledge (min n (length current)) (current, ws) ≡ acknowledge n (current, ws)
acknowledge-min n current ws = elim (Bool-cases (ltb n (length current))) [
  | inl less ↦
      let e : min n (length current) ≡ n = ground arith in
      ap (λ (k : ℕ). acknowledge k (current, ws)) e
  | inr all ↦
      acknowledge_all (min n (length current)) current ws (ground arith)
      ∙ sym (acknowledge_all n current ws (ground arith))
]

-- Acknowledging what was sent is acknowledging as much as there was room for.
acknowledge-chunk_len :
    (u : User) (ws : List (List ℕ))
    → Sending u
    → IsValid u
    → acknowledge (chunk_len u) (remaining u.outpacket, ws)
      ≡ acknowledge (room u) (remaining u.outpacket, ws)
acknowledge-chunk_len u ws s v =
    let e : chunk_len u ≡ min (room u) (length (remaining u.outpacket)) =
      chunk_len-room u s ∙ ap (min (room u)) (sym (length-remaining u.outpacket v.current)) in
    ap (λ (k : ℕ). acknowledge k (remaining u.outpacket, ws)) e
    ∙ acknowledge-min (room u) (remaining u.outpacket) ws

-- In a well-formed user with a packet under way that was sent at most five times and that fits
-- one reply from its start, one call ends the packet without an ack and starts the packet that
-- waits longest.
pub send_chunk_whole :
    (u : User) (at : QueryAt)
    → Sending u
    → IsValid u
    → chunk_len u ≡ u.outpacket.len
    → backlog (send_chunk_or_dataless u at).0 ≡ acknowledge (room u) (backlog u)
send_chunk_whole u at s v e =
    let forgotten = forget_outpacket (sent u at) in
    ap (λ r. backlog r.0) (send_chunk-next u at s ∙ send_next-whole u at s e)
    ∙ get-backlog forgotten (forget_outpacket-IsValid (sent u at) (sent-IsValid u at s v)) refl
    ∙ ap (λ b. next_packet b.1) (backlog-sending (sent u at) (with_sent u) (sending-sent u at s))
    ∙ sym (
        acknowledge_all (room u) (remaining u.outpacket) (waiting u)
          (omega (arith, length-remaining u.outpacket v.current, chunk_len-room u s, e)))

-- In a well-formed user with a packet under way that was sent at most five times, and that does
-- not go out in one piece, sending a chunk and then getting its ack takes off the backlog exactly
-- as many bytes as fit a reply, or ends the packet and starts the next one.
pub send_chunk_acked :
    (u : User) (at : QueryAt)
    → Sending u
    → IsValid u
    → chunk_len u ≢ u.outpacket.len
    → let u' = (send_chunk_or_dataless u at).0 in
      backlog (process_downstream_ack u' u.outpacket.seqno u.outpacket.fragment)
      ≡ acknowledge (room u) (backlog u)
send_chunk_acked u at s v ne =
    let w = sent u at in
    let packet : w.outpacket ≡ (with_sent u).outpacket = ap (λ x. x.0) (sending-sent u at s) in
    ap (λ r. backlog (process_downstream_ack r.0 u.outpacket.seqno u.outpacket.fragment))
      (send_chunk-next u at s ∙ send_next-not_whole u at s ne)
    ∙ ack_refines w u.outpacket.seqno u.outpacket.fragment (sent-IsValid u at s v)
        (λ z. s.0 (sym (sent-len u at s) ∙ z)) (ap (λ p. p.seqno) packet)
        (ap (λ p. p.fragment) packet)
    ∙ ap₂ (λ p b. acknowledge p.sentlen b) packet
        (backlog-sending w (with_sent u) (sending-sent u at s))
    ∙ acknowledge-chunk_len u (waiting u) s v
