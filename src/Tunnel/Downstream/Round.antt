-- ===== src/Tunnel/Downstream/Round.antt =====
-- One round moves one chunk: what the server and the client hold before and after it.
use andiodine.Common.{
  ℕ, ◌+◌, ◌-◌, ◌*◌, ◌%◌, ◌≤◌, ◌<◌, ◌≡◌, ◌≢◌, refl, ap, ap₂, sym, subst, ◌∙◌, arith, min,
}
use andiodine.Common.{true, false, ltb, ◌==◌, ◌&&◌, if◌then◌else◌, Bool-cases, inl, inr}
use andiodine.Common.{List, [], ◌∷◌, ◌++◌, length, take, drop, length-take, bit_or}
use andiodine.Common.Bits.{shl, low_3, low_4}
use andiodine.Common.Fields.{bit_or_below}
use andiodine.User.{Packet, User, Query}
use andiodine.Server.Outpacket.{}
use andiodine.Server.Outpacket.Queue.{IsValid}
use andiodine.Server.Outpacket.Ack.{remaining}
use andiodine.Server.SendChunk.{
  QueryAt, query_at, chunk_len, chunk_packet, is_last, replies, send_chunk_or_dataless,
}
use andiodine.Server.SendChunk.Delivery.{Sending, room, chunk_len-room, chunk_data}
use andiodine.Server.SendChunk.Delivery.{send_chunk-next, send_next-replies}
use andiodine.Server.Ping.{ping_ack}
use andiodine.Client.Send.{ack_byte}
use andiodine.Client.Downstream.{
  read_header, Arrival, partial, whole, receive_downstream, inpkt_size,
}
use andiodine.Client.Header.{read_header-data_header}
use andiodine.Client.Reassembly.{Awaits, Holds, received}
use andiodine.Tunnel.Downstream.{first_payload}

-- Fragment `f` of packet `s` is the next to be sent.
pub record Ready (u : User) (s f : ℕ) : Type 0 where
  pub valid : IsValid u
  pub busy : Sending u
  pub seq : u.outpacket.seqno ≡ s
  pub frag : u.outpacket.fragment ≡ f
  pub seq_in : s < 8
  pub up_in : (u.inpacket.seqno < 256) × (u.inpacket.fragment < 256)
  pub some_room : 0 < room u

first_payload-replies :
    (q : Query) (pkt : List ℕ) (downenc : ℕ) → first_payload (replies q pkt downenc) ≡ pkt
first_payload-replies q pkt downenc = elim (Bool-cases (q.id2 == 0)) [
  | inl single ↦ rw single refl
  | inr twice ↦ rw twice refl
]

-- What the client gets.
payload :
    (u : User) (at : QueryAt)
    → Sending u
    → first_payload (send_chunk_or_dataless u at).1 ≡ chunk_packet u
payload u at s =
    ap (λ r. first_payload r.1) (send_chunk-next u at s)
    ∙ ap first_payload (send_next-replies u at)
    ∙ first_payload-replies (query_at at u) (chunk_packet u) u.downenc

-- The ack in a ping is the packet's number and fragment.
pub ping_ack-ack_byte :
    (id : ℕ) (p : Packet) (s f : ℕ)
    → p.seqno ≡ s
    → p.fragment ≡ f
    → s < 8
    → f < 16
    → ping_ack (id ∷ ack_byte p ∷ []) ≡ (s, f)
ping_ack-ack_byte id p s f es ef hs hf =
    let b : ack_byte p ≡ s * 16 + f =
      ap₂ (λ (s f : ℕ). bit_or (shl s 4) f) (low_3 p.seqno (omega arith))
        (low_4 p.fragment (omega arith))
      ∙ bit_or_below 4 (p.seqno % 8) (p.fragment % 16) (omega arith)
      ∙ omega arith in
    ap₂ (λ (a b : ℕ). (a, b)) (omega (arith, b))
      (low_4 (ack_byte p) (omega (arith, b)) ∙ omega (arith, b))

last_of_less :
    (len off chunk n : ℕ)
    → chunk ≡ min n (len - off)
    → n < len - off
    → (ltb 0 len && (len == off + chunk)) ≡ false
last_of_less len off chunk n e h = ground arith

last_of_rest :
    (len off chunk n : ℕ)
    → len ≢ 0
    → off ≤ len
    → chunk ≡ min n (len - off)
    → len - off ≤ n
    → (ltb 0 len && (len == off + chunk)) ≡ true
last_of_rest len off chunk n ne ho e h = ground arith

pub is_last-more :
    (u : User) → Sending u → room u < u.outpacket.len - u.outpacket.offset → is_last u ≡ 0
is_last-more u s h =
    let b =
      last_of_less u.outpacket.len u.outpacket.offset (chunk_len u) (room u) (chunk_len-room u s)
        h in
    ap (λ t. if t then 1 else 0) b

pub is_last-end :
    (u : User)
    → Sending u
    → u.outpacket.offset ≤ u.outpacket.len
    → u.outpacket.len - u.outpacket.offset ≤ room u
    → is_last u ≡ 1
is_last-end u s ho h =
    let b =
      last_of_rest u.outpacket.len u.outpacket.offset (chunk_len u) (room u) s.0 ho
        (chunk_len-room u s) h in
    ap (λ t. if t then 1 else 0) b

is_last-below : (u : User) → is_last u < 2
is_last-below u =
    elim (Bool-cases
      (ltb 0 u.outpacket.len && (u.outpacket.len == u.outpacket.offset + chunk_len u))) [
        | inl last ↦ rw last (omega arith)
        | inr more ↦ rw more (omega arith)
      ]

-- What the client has behind a chunk with that flag.
abbrev pub Gets : Packet × Arrival → (last s f : ℕ) → List ℕ → Type 0
Gets (q, arrival) last s f bytes =
    ((last ≡ 0) → (arrival ≡ partial) × Holds q s f bytes)
    × ((last ≡ 1) → (arrival ≡ whole bytes) × (q.seqno ≡ s) × (q.fragment ≡ f))

cong-Gets :
    (p : Packet) (pkt pkt' : List ℕ) (l l' s s' f f' : ℕ) (b b' : List ℕ)
    → pkt ≡ pkt'
    → l ≡ l'
    → s ≡ s'
    → f ≡ f'
    → b ≡ b'
    → Gets (receive_downstream p (read_header pkt) (drop 2 pkt)) l s f b
    → Gets (receive_downstream p (read_header pkt') (drop 2 pkt')) l' s' f' b'
cong-Gets p pkt pkt' l l' s s' f f' b b' ep el es ef eb g =
    subst (λ x. Gets (receive_downstream p (read_header x) (drop 2 x)) l' s' f' b') ep
      (subst (λ (x : ℕ). Gets (receive_downstream p (read_header pkt) (drop 2 pkt)) x s' f' b') el
        (subst (λ (x : ℕ). Gets (receive_downstream p (read_header pkt) (drop 2 pkt)) l x f' b') es
          (subst (λ (x : ℕ). Gets (receive_downstream p (read_header pkt) (drop 2 pkt)) l s x b') ef
            (subst (λ x. Gets (receive_downstream p (read_header pkt) (drop 2 pkt)) l s f x) eb
              g))))

module _ (at : QueryAt) (u : User) (p : Packet) (s f : ℕ) (got : List ℕ) where
  -- What the client makes of the chunk.
  pub takes :
      Ready u s f
      → f < 16
      → Awaits p s f got
      → length got + length (remaining u.outpacket) ≤ inpkt_size
      → let pkt = first_payload (send_chunk_or_dataless u at).1 in
        Gets
          (receive_downstream p (read_header pkt) (drop 2 pkt))
          (is_last u)
          s
          f
          (got ++ take (room u) (remaining u.outpacket))
  takes v hf w fits =
      let pkt = chunk_packet u in
      let h = read_header pkt in
      let chunk = drop 2 pkt in
      let same : chunk ≡ take (room u) (remaining u.outpacket) = chunk_data u v.busy in
      let (hs, hg, _, _, hl) =
        read_header-data_header u (is_last u) chunk (omega (arith, v.seq, v.seq_in))
          (omega (arith, v.frag)) v.up_in.0 v.up_in.1 (is_last-below u) in
      let es : h.new_down_seqno ≡ s = omega (arith, hs, v.seq, v.seq_in) in
      let ef : h.new_down_fragment ≡ f = omega (arith, hg, v.frag) in
      let waits : Awaits p h.new_down_seqno h.new_down_fragment got =
        subst (λ (x : ℕ). Awaits p x h.new_down_fragment got) (sym es)
          (subst (λ (x : ℕ). Awaits p s x got) (sym ef) w) in
      cong-Gets p pkt (first_payload (send_chunk_or_dataless u at).1) h.last_fragment (is_last u)
        h.new_down_seqno s h.new_down_fragment f (got ++ chunk)
        (got ++ take (room u) (remaining u.outpacket)) (sym (payload u at v.busy)) hl es ef
        (ap (λ c. got ++ c) same)
        (received p h got chunk waits
          (omega (arith, fits, ap length same, length-take (room u) (remaining u.outpacket))))
