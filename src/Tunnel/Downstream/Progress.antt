-- ===== src/Tunnel/Downstream/Progress.antt =====
-- One round takes the chunk off what the server has to send.
use andiodine.Common.{ℕ, ◌+◌, ◌-◌, ◌≤◌, ◌<◌, ◌≡◌, ◌≢◌, refl, ap, ap₂, sym, subst, ◌∙◌, arith, min}
use andiodine.Common.{false, leb, ◌==◌, ◌||◌, not, Bool-cases, inl, inr}
use andiodine.Common.{drop, drop-drop}
use andiodine.User.{User}
use andiodine.Server.Outpacket.{
  next_fragment, advance, forget_outpacket, get_from_outpacketq, process_downstream_ack,
}
use andiodine.Server.Outpacket.Queue.{content, waiting}
use andiodine.Server.Outpacket.Ack.{
  remaining, length-remaining, backlog, next_packet, acknowledge_all, ack_ignored,
}
use andiodine.Server.SendChunk.{QueryAt, chunk_len, send_chunk_or_dataless}
use andiodine.Server.SendChunk.Frame.{sending, IsValid-sending}
use andiodine.Server.SendChunk.Delivery.{room, sent, with_sent, sending-sent, chunk_len-room}
use andiodine.Server.SendChunk.Delivery.{send_next-not_whole, send_chunk-next, with_sent-IsValid}
use andiodine.Client.Downstream.{}
use andiodine.Tunnel.Downstream.Round.{Ready}
use andiodine.Server.Outpacket.Ack.{acknowledge}
use andiodine.Server.SendChunk.Frame.{backlog-sending}
use andiodine.Server.Outpacket.{start_new_outpacket}
use andiodine.Server.SendChunk.Delivery.{send_chunk_whole, send_chunk_acked, send_next-whole}

-- An ack of a chunk that does not end the packet.
ack_more :
    (w : User) (s f : ℕ)
    → w.outpacket.len ≢ 0
    → w.outpacket.seqno ≡ s
    → w.outpacket.fragment ≡ f
    → w.outpacket.offset + w.outpacket.sentlen < w.outpacket.len
    → process_downstream_ack w s f ≡ advance w
unfolding process_downstream_ack
ack_more w s f ne es ef more =
    let b1 : (w.outpacket.len == 0) ≡ false = ground arith in
    let b2 : (not (w.outpacket.seqno == s) || not (w.outpacket.fragment == f)) ≡ false =
      ground arith in
    let b3 : leb w.outpacket.len (w.outpacket.offset + w.outpacket.sentlen) ≡ false =
      ground arith in
    rw (b1, b2, b3) refl

-- All that the queue and the next chunk depend on, behind an ack.
advance-sending :
    (w w' : User) → sending w ≡ sending w' → sending (advance w) ≡ sending (advance w')
advance-sending w w' e =
    ap
      (λ s. (
        record s.0 {
          offset = s.0.offset + s.0.sentlen;
          sentlen = 0;
          fragment = next_fragment s.0.fragment;
        },
        s.1,
        s.2,
        s.3,
        s.4,
        s.5,
        0,
        s.7,
      ))
      e

Ready-sending : (w w' : User) (s f : ℕ) → sending w ≡ sending w' → Ready w s f → Ready w' s f
Ready-sending w w' s f e v =
    let packet : w.outpacket ≡ w'.outpacket = ap (λ x. x.0) e in
    record {
      valid = IsValid-sending w w' e v.valid;
      busy = (
        subst (λ x. x.len ≢ 0) packet v.busy.0,
        subst (λ (n : ℕ). n ≤ 5) (ap (λ x. x.6) e) v.busy.1,
      );
      seq = ap (λ x. x.seqno) (sym packet) ∙ v.seq;
      frag = ap (λ x. x.fragment) (sym packet) ∙ v.frag;
      seq_in = v.seq_in;
      up_in = subst (λ x. (x.seqno < 256) × (x.fragment < 256)) (ap (λ x. x.7) e) v.up_in;
      some_room = subst (λ (n : ℕ). 0 < min n 4094) (ap (λ x. x.5) e) v.some_room;
    }

-- The packet behind packet `s` has another number.
next_ignores :
    (w : User) (s f : ℕ)
    → w.outpacket.len ≡ 0
    → w.outpacket.seqno ≡ s
    → s < 8
    → process_downstream_ack (get_from_outpacketq w).0 s f ≡ (get_from_outpacketq w).0
unfolding get_from_outpacketq start_new_outpacket
next_ignores w s f none' es hs = elim (Bool-cases (w.outpacketq_filled == 0)) [
  | inl empty ↦ rw empty (ack_ignored w s f (inl none'))
  | inr ready ↦ rw ready (ack_ignored _ s f (inr (inl (omega (arith, es)))))
]

module _ (at : QueryAt) (u : User) (s f : ℕ) where
  Ready-advance : Ready u s f → f < 16 → Ready (advance (with_sent u)) s (f + 1)
  Ready-advance v hf =
      let w = with_sent-IsValid u v.busy v.valid in
      record {
        valid = record {
          slots = w.slots;
          next_in = w.next_in;
          filled_in = w.filled_in;
          fits = w.fits;
          current = w.current;
          progress = omega (arith, w.progress);
        };
        busy = (v.busy.0, omega arith);
        seq = v.seq;
        frag = omega (arith, v.frag);
        seq_in = v.seq_in;
        up_in = v.up_in;
        some_room = v.some_room;
      }

  -- With more to come, the server goes on behind the chunk.
  pub goes_on :
      Ready u s f
      → f < 16
      → room u < u.outpacket.len - u.outpacket.offset
      → let u' = process_downstream_ack (send_chunk_or_dataless u at).0 s f in
        Ready u' s (f + 1)
        × (remaining u'.outpacket ≡ drop (room u) (remaining u.outpacket))
        × (room u' ≡ room u)
        × (waiting u' ≡ waiting u)
  goes_on v hf more =
      let w = sent u at in
      let e : sending (advance (with_sent u)) ≡ sending (advance w) =
        sym (advance-sending w (with_sent u) (sending-sent u at v.busy)) in
      let packet : w.outpacket ≡ (with_sent u).outpacket =
        ap (λ x. x.0) (sending-sent u at v.busy) in
      let chunk : chunk_len u ≡ room u = omega (arith, chunk_len-room u v.busy) in
      let same : process_downstream_ack (send_chunk_or_dataless u at).0 s f ≡ advance w =
        ap (λ r. process_downstream_ack r.0 s f)
          (send_chunk-next u at v.busy ∙ send_next-not_whole u at v.busy (omega arith))
        ∙ ack_more w s f (λ z. v.busy.0 (ap (λ p. p.len) (sym packet) ∙ z))
            (ap (λ p. p.seqno) packet ∙ v.seq) (ap (λ p. p.fragment) packet ∙ v.frag)
            (omega (
              arith,
              ap (λ p. p.offset) packet,
              ap (λ p. p.sentlen) packet,
              ap (λ p. p.len) packet,
            )) in
      let lists = backlog-sending (advance (with_sent u)) (advance w) e in
      subst
        (λ u'.
          Ready u' s (f + 1)
          × (remaining u'.outpacket ≡ drop (room u) (remaining u.outpacket))
          × (room u' ≡ room u)
          × (waiting u' ≡ waiting u))
        (sym same)
        (
          Ready-sending (advance (with_sent u)) (advance w) s (f + 1) e (Ready-advance v hf),
          ap (λ b. b.0) (sym lists)
              ∙ sym (drop-drop u.outpacket.offset (chunk_len u) (content u.outpacket))
              ∙ ap (λ (n : ℕ). drop n (remaining u.outpacket)) chunk,
          ap (λ x. min x.5 4094) (sym e),
          ap (λ b. b.1) (sym lists),
        )

  -- A packet that went out in one piece is gone before its ack.
  ended :
      Ready u s f
      → chunk_len u ≡ u.outpacket.len
      → process_downstream_ack (send_chunk_or_dataless u at).0 s f ≡ (send_chunk_or_dataless u at).0
  ended v one =
      let w = forget_outpacket (sent u at) in
      let same : (send_chunk_or_dataless u at).0 ≡ (get_from_outpacketq w).0 =
        ap (λ r. r.0) (send_chunk-next u at v.busy ∙ send_next-whole u at v.busy one) in
      subst (λ x. process_downstream_ack x s f ≡ x) (sym same)
        (next_ignores w s f refl
          (omega (arith, ap (λ x. x.0.seqno) (sending-sent u at v.busy), v.seq)) v.seq_in)

  -- At the end, the packet that waits longest follows.
  pub ends :
      Ready u s f
      → u.outpacket.len - u.outpacket.offset ≤ room u
      → backlog (process_downstream_ack (send_chunk_or_dataless u at).0 s f)
        ≡ next_packet (waiting u)
  ends v rest =
      let all : acknowledge (room u) (backlog u) ≡ next_packet (waiting u) =
        acknowledge_all (room u) (remaining u.outpacket) (waiting u)
          (omega (arith, length-remaining u.outpacket v.valid.current)) in
      elim (Bool-cases (chunk_len u == u.outpacket.len)) [
        | inl one ↦
            ap backlog (ended v (ground (arith, one)))
            ∙ send_chunk_whole u at v.busy v.valid (ground (arith, one))
            ∙ all
        | inr many ↦
            ap₂ (λ (a b : ℕ). backlog (process_downstream_ack (send_chunk_or_dataless u at).0 a b))
              (sym v.seq) (sym v.frag)
            ∙ send_chunk_acked u at v.busy v.valid (ground (arith, many))
            ∙ all
      ]
