-- ===== src/Client/Taken.antt =====
-- What `tunnel_dns` takes from a reply with data.
use andiodine.Common.{ℕ, ◌+◌, ◌<◌, ◌≡◌, ◌≢◌, refl, ap, ap₂, ◌∙◌, arith}
use andiodine.Common.{
  Bool, true, false, not, ◌&&◌, ltb, leb, ◌==◌, ◌⊎◌, same_bytes, same_bytes_refl, same_bytes_ne,
  if◌then◌else◌, Bool-cases, inl, inr,
}
use andiodine.Common.{List, [], ◌++◌, length, drop, length-drop, append-nil, Option}
use andiodine.Common.{◌||◌}
use andiodine.User.{Packet, Query, Connection, raw_udp, dns_null}
use andiodine.Seqno.{recent_seqno}
use andiodine.Client.{Client}
use andiodine.Client.Query.{next_chunkid, next_seed, send_query}
use andiodine.Client.Send.{
  is_sending, send_packet, ping_by, send_ping, chunk_sent, chunk_hostname, send_chunk,
}
use andiodine.Client.Downstream.{
  DownHeader, read_header, Arrival, ignored, partial, whole, receive_downstream,
}
use andiodine.Client.Tunnel.{
  Got, got, not_ours, badip, recent_id, ping_in, ping_within, clear_outpkt, ping_if, next_chunk,
  skip_packet,
}
use andiodine.Client.Tunnel.{
  write_tun, behind_arrival, take_downstream, ack_chunk, recent_reply, count_packet, is_raw,
  take_reply, tunnel_dns,
}
use andiodine.Client.Tunnel.{is_raw}
use andiodine.Client.Tunnel.{got_bytes, is_error, count_servfail}
use andiodine.Client.Frame.{tun_writes, tun_writes-append, Stable, Quiet, send_query-Quiet}

-- The downstream packet is this one.
abbrev InpktIs : Packet → Client → Type 0
InpktIs p c = c.inpkt ≡ p

InpktIs-Stable : (p : Packet) → Stable (InpktIs p)
unfolding next_chunkid
InpktIs-Stable p = record {
  of_id = λ c h. h;
  of_counts = λ c t r n l h. h;
  of_seed = λ c h. h;
  of_answers = λ c as' h. h;
}

send_query-inpkt :
    (c : Client) (hostname : List ℕ) → Quiet (InpktIs c.inpkt) (send_query c hostname)
unfolding next_chunkid
send_query-inpkt c hostname =
    send_query-Quiet (InpktIs c.inpkt) (InpktIs-Stable c.inpkt) c hostname refl

ping_by-inpkt : (conn : Connection) (c : Client) → Quiet (InpktIs c.inpkt) (ping_by conn c)
unfolding send_packet
ping_by-inpkt dns_null c = send_query-inpkt (next_seed c) _
ping_by-inpkt raw_udp c = (refl, refl)

ping_if-inpkt : (b : Bool) (c : Client) → Quiet (InpktIs c.inpkt) (ping_if b c)
unfolding send_ping
ping_if-inpkt true c = ping_by-inpkt c.conn c
ping_if-inpkt false c = (refl, refl)

send_chunk-inpkt : (c : Client) → Quiet (InpktIs c.inpkt) (send_chunk c)
unfolding send_chunk
send_chunk-inpkt c = send_query-inpkt (chunk_sent c) (chunk_hostname c)

ping_within-inpkt : (ms : ℕ) (c : Client) → (ping_within ms c).inpkt ≡ c.inpkt
ping_within-inpkt ms c = elim (Bool-cases (c.send_ping_soon == 0 || ltb ms c.send_ping_soon)) [
  | inl b ↦ rw b refl
  | inr b ↦ rw b refl
]

ack_chunk-inpkt :
    (c : Client) (h : DownHeader) (something : Bool)
    → let r = ack_chunk c h something in Quiet (InpktIs c.inpkt) (r.0, r.1)
unfolding ack_chunk
ack_chunk-inpkt c h something =
    let other = not (
      is_sending c
      && (h.up_ack_seqno == c.outpkt.seqno && h.up_ack_fragment == c.outpkt.fragment)) in
    elim (Bool-cases other) [
      | inl o ↦ rw o (refl, refl)
      | inr ack ↦ elim (Bool-cases (leb c.outpkt.len (c.outpkt.offset + c.outpkt.sentlen))) [
        | inl end' ↦ rw (ack, end') (ping_within-inpkt 20 (clear_outpkt c), refl)
        | inr more ↦ rw (ack, more) (send_chunk-inpkt (next_chunk c))
      ]
    ]

skip_packet-inpkt :
    (c : Client) (h : DownHeader) (read : ℕ) → read ≢ 2 → (skip_packet c h read).inpkt ≡ c.inpkt
skip_packet-inpkt c h read more = let b : (read == 2) ≡ false = ground arith in rw b refl

not_old :
    (p : Packet) (h : DownHeader) (n : ℕ)
    → (h.new_down_seqno ≡ p.seqno) ⊎ (recent_seqno p.seqno h.new_down_seqno ≡ false)
    → (ltb 2 n && (not (h.new_down_seqno == p.seqno) && recent_seqno p.seqno h.new_down_seqno))
      ≡ false
not_old p h n (inl same) = ground arith
not_old p h n (inr other) = ground arith

in_time : (b : Bool) (c : Client) → (if b then ping_within 900 c else c).inpkt ≡ c.inpkt
in_time true c = ping_within-inpkt 900 c
in_time false c = refl

-- The packets are the same.
Same : Client → Client → Type 0
Same c c' = (c.inpkt ≡ c'.inpkt) × (c.outpkt ≡ c'.outpkt)

count_servfail-Same : (c : Client) (r : Got) (q : Query) → Same (count_servfail c r q) c
unfolding Same
count_servfail-Same c r q =
    elim (Bool-cases
      (not (is_error r && (q.rcode == 2 && (c.lazymode && ltb 1 c.selecttimeout))))) [
        | inl other ↦ rw other (refl, refl)
        | inr servfail ↦ elim (Bool-cases (ltb c.packrecv 500 && ltb c.packrecv_servfail 4)) [
          | inl few ↦ rw (servfail, few) (refl, refl)
          | inr more ↦ elim (Bool-cases (ltb c.packrecv 500 && c.packrecv_servfail == 4)) [
            | inl fifth ↦ rw (servfail, more, fifth) (refl, refl)
            | inr late ↦ elim (Bool-cases (leb 500 c.packrecv && ltb 0 c.packrecv_servfail)) [
              | inl reset ↦ rw (servfail, more, late, reset) (refl, refl)
              | inr none' ↦ rw (servfail, more, late, none') (refl, refl)
            ]
          ]
        ]
      ]

is_badip :
    (c : Client) (buf : List ℕ) (q : Query)
    → not_ours c q ≡ false
    → ltb (length buf) 2 ≡ false
    → (not_ours c q ≡ true) ⊎ (length buf < 2) ⊎ (buf ≡ badip)
    → same_bytes buf badip ≡ true
is_badip c buf q ours long (inl other) = cc
is_badip c buf q ours long (inr (inl short)) = ground arith
is_badip c buf q ours long (inr (inr bad)) =
    ap (λ b. same_bytes b badip) bad ∙ same_bytes_refl badip

module _ (uncompress : List ℕ → Option (List ℕ)) where
  -- What is written for an arrival.
  abbrev pub arrival_writes : Arrival → List (List ℕ)
  arrival_writes ignored = []
  arrival_writes partial = []
  arrival_writes (whole packet) = tun_writes (write_tun uncompress (uncompress packet))

  behind_arrival-inpkt :
      (c : Client) (something : Bool) (arrival : Arrival)
      → let r = behind_arrival uncompress c something arrival in
        (r.0.inpkt ≡ c.inpkt) × (tun_writes r.1 ≡ arrival_writes arrival)
  behind_arrival-inpkt c something ignored = (refl, refl)
  behind_arrival-inpkt c something partial = elim (Bool-cases (c.inpkt.len == 0)) [
    | inl b ↦ rw b (refl, refl)
    | inr b ↦ rw b (refl, refl)
  ]
  behind_arrival-inpkt c something (whole packet) = (refl, refl)

  take_downstream-inpkt :
      (c : Client) (h : DownHeader) (chunk : List ℕ) (something : Bool)
      → length chunk ≢ 0
      → let r = take_downstream uncompress c h chunk something in
        let (p, arrival) = receive_downstream c.inpkt h chunk in
        (r.0.inpkt ≡ p) × (tun_writes r.1 ≡ arrival_writes arrival)
  unfolding take_downstream
  take_downstream-inpkt c h chunk something some' =
      let (p, arrival) = receive_downstream c.inpkt h chunk in
      let b : (length chunk == 0) ≡ false = ground arith in
      rw b (behind_arrival-inpkt (record c { inpkt = p }) something arrival)

  recent_reply-inpkt :
      (c : Client) (now : ℕ) (q : Query) (h : DownHeader) (read : ℕ) (chunk : List ℕ)
      (something : Bool)
      → length chunk ≢ 0
      → read ≢ 2
      → let r = recent_reply uncompress c now q h read chunk something in
        let (p, arrival) = receive_downstream c.inpkt h chunk in
        (r.0.inpkt ≡ p) × (tun_writes r.1 ≡ arrival_writes arrival)
  unfolding recent_reply
  recent_reply-inpkt c now q h read chunk something some' more =
      let c1 = record c { lastdownstreamtime = now } in
      let c2 = if q.id == c.chunkid && c.lazymode then ping_within 900 c1 else c1 in
      let same : c2.inpkt ≡ c.inpkt = in_time (q.id == c.chunkid && c.lazymode) c1 in
      let d = skip_packet c2 h read in
      let skipped : d.inpkt ≡ c.inpkt = skip_packet-inpkt c2 h read more ∙ same in
      let t = take_downstream uncompress d h chunk something in
      let a = ack_chunk t.0 h t.2 in
      let (taken, writes) = take_downstream-inpkt d h chunk something some' in
      let (acked, quiet) = ack_chunk-inpkt t.0 h t.2 in
      let (pinged, silent) = ping_if-inpkt a.2 a.0 in
      (
        pinged ∙ acked ∙ taken ∙ ap (λ p. (receive_downstream p h chunk).0) skipped,
        tun_writes-append t.1 (a.1 ++ (ping_if a.2 a.0).1)
            ∙ ap₂ (λ x y. x ++ y)
                (writes ∙ ap (λ p. arrival_writes (receive_downstream p h chunk).1) skipped)
                (tun_writes-append a.1 (ping_if a.2 a.0).1 ∙ ap₂ (λ x y. x ++ y) quiet silent)
            ∙ append-nil (arrival_writes (receive_downstream c.inpkt h chunk).1),
      )

  -- A recent reply with data is taken as `receive_downstream` says, whatever is acknowledged or
  -- sent by the same call.
  pub tunnel_dns-arrival :
      (c : Client) (now : ℕ) (q : Query) (buf : List ℕ)
      → c.conn ≡ dns_null
      → not_ours c q ≡ false
      → 2 < length buf
      → buf ≢ badip
      → recent_id c q ≡ true
      → (let s = (read_header buf).new_down_seqno in
          (s ≡ c.inpkt.seqno) ⊎ (recent_seqno c.inpkt.seqno s ≡ false))
      → let r = tunnel_dns uncompress c now (got buf) q in
        let (p, arrival) = receive_downstream c.inpkt (read_header buf) (drop 2 buf) in
        (r.0.inpkt ≡ p) × (tun_writes r.1 ≡ arrival_writes arrival)
  unfolding tunnel_dns take_reply
  tunnel_dns-arrival c now q buf conn ours long good recent new =
      let h = read_header buf in
      let b1 : is_raw c.conn ≡ false = ap is_raw conn in
      let b2 : ltb (length buf) 2 ≡ false = ground arith in
      let b3 : (ltb 2 (length buf)
            && (not (h.new_down_seqno == c.inpkt.seqno)
                && recent_seqno c.inpkt.seqno h.new_down_seqno))
          ≡ false =
        not_old c.inpkt h (length buf) new in
      rw (b1, ours, b2, same_bytes_ne buf badip good, b3, recent)
        (recent_reply-inpkt (count_packet (ping_in 0 c)) now q h (length buf) (drop 2 buf)
          (not (c.send_ping_soon == 0)) (omega (arith, length-drop 2 buf)) (omega arith))

  -- A reply to a client in DNS mode that is not for this user, has fewer than two bytes (as after
  -- an error) or is BADIP changes neither packet, and nothing is sent or written.
  pub tunnel_dns_refused :
      (c : Client) (now : ℕ) (r : Got) (q : Query)
      → c.conn ≡ dns_null
      → (not_ours c q ≡ true) ⊎ (length (got_bytes r) < 2) ⊎ (got_bytes r ≡ badip)
      → let (c', es, done) = tunnel_dns uncompress c now r q in
        (c'.inpkt ≡ c.inpkt) × (c'.outpkt ≡ c.outpkt) × (es ≡ []) × (done ≡ false)
  unfolding tunnel_dns Same
  tunnel_dns_refused c now r q conn why =
      let b1 : is_raw c.conn ≡ false = ap is_raw conn in
      elim (Bool-cases (not_ours c q)) [
        | inl other ↦ rw (b1, other) (refl, refl, refl, refl)
        | inr ours ↦ elim (Bool-cases (ltb (length (got_bytes r)) 2)) [
          | inl short ↦
              rw (b1, ours, short) (let (i, o) = count_servfail-Same c r q in (i, o, refl, refl))
          | inr long ↦
              let bad = is_badip c (got_bytes r) q ours long why in
              rw (b1, ours, long, bad) (refl, refl, refl, refl)
        ]
      ]
