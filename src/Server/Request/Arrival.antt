-- ===== src/Server/Request/Arrival.antt =====
-- A packet from the tun device goes to the user that has its address: `tunnel_tun` of iodined.c.
use andiodine.Common.{ℕ, zero, suc, ◌≡◌, ◌≢◌, refl, ap, ap₂, ◌∙◌, arith, Bool, false, leb, ◌==◌}
use andiodine.Common.{
  if◌then◌else◌, Bool-cases, List, [], ◌∷◌, length, get_elem?, set, take, some, inl, inr,
}
use andiodine.User.{User, dns_null, outpacketq_len, take-memcpy}
use andiodine.Server.Outpacket.{packet_size, start_new_outpacket, save_to_outpacketq}
use andiodine.Server.Outpacket.Queue.{IsValid, waiting, enqueue, save_refines}
use andiodine.Server.Outpacket.Ack.{remaining, backlog}
use andiodine.Server.Users.{find_user_by_ip}
use andiodine.Server.Request.Traffic.{ip_dst, give_by, give_packet, send_if_waiting, tunnel_tun}

-- A packet arrives at a backlog: it is the current one if there is none, or else joins the queue.
abbrev pub arrive : (idle : Bool) → List ℕ → List ℕ × List (List ℕ) → List ℕ × List (List ℕ)
arrive idle packet (current, ws) =
    if idle then (take packet_size packet, ws) else (current, (enqueue ws packet).0)

get_elem?-set :
    (users : List User) (i : ℕ) (u v : User)
    → get_elem? users i ≡ some u
    → get_elem? (set users i v) i ≡ some v
get_elem?-set [] i u v e = cc e
get_elem?-set (w ∷ us) zero u v e = refl
get_elem?-set (w ∷ us) (suc i) u v e = get_elem?-set us i u v e

waits_not : (u : User) → u.q.id ≡ 0 → u.q_sendrealsoon.id ≡ 0 → send_if_waiting u ≡ (u, [])
waits_not u e e' = rw (e', e) refl

start-backlog :
    (u : User) (packet : List ℕ)
    → backlog (start_new_outpacket u packet (length packet)) ≡ (take packet_size packet, waiting u)
unfolding start_new_outpacket
start-backlog u packet =
    ap (λ current. (current, waiting u)) (take-memcpy packet_size u.outpacket.bytes packet)

-- The queries that wait are as before.
start-queries :
    (u : User) (packet : List ℕ)
    → let u' = start_new_outpacket u packet (length packet) in
      (u'.q ≡ u.q) × (u'.q_sendrealsoon ≡ u.q_sendrealsoon)
unfolding start_new_outpacket
start-queries u packet = (refl, refl)

save-outpacket :
    (u : User) (packet : List ℕ)
    → ((save_to_outpacketq u packet (length packet)).0).outpacket ≡ u.outpacket
unfolding save_to_outpacketq
save-outpacket u packet = elim (Bool-cases (leb outpacketq_len u.outpacketq_filled)) [
  | inl full ↦ rw full refl
  | inr room ↦ rw room refl
]

save-backlog :
    (u : User) (packet : List ℕ)
    → IsValid u
    → backlog (save_to_outpacketq u packet (length packet)).0 ≡ arrive false packet (backlog u)
save-backlog u packet v =
    ap₂ (λ p ws. (remaining p, ws)) (save-outpacket u packet)
      (ap (λ r. r.0) (save_refines u packet v))

give_packet-backlog :
    (userid : ℕ) (packet : List ℕ) (u : User)
    → IsValid u
    → u.conn ≡ dns_null
    → (u.outpacket.len ≡ 0 → (u.q.id ≡ 0) × (u.q_sendrealsoon.id ≡ 0))
    → backlog (give_packet userid packet u).0 ≡ arrive (u.outpacket.len == 0) packet (backlog u)
unfolding give_packet
give_packet-backlog userid packet u v c none_waits =
    let started = start_new_outpacket u packet (length packet) in
    let (same, same') = start-queries u packet in
    ap (λ conn. backlog (give_by conn userid packet u).0) c
    ∙ elim (Bool-cases (u.outpacket.len == 0)) [
      | inl idle ↦
          let (e, e') = none_waits (ground arith) in
          rw idle (
            ap (λ r. backlog r.0)
              (waits_not started (ap (λ w. w.id) same ∙ e) (ap (λ w. w.id) same' ∙ e'))
            ∙ start-backlog u packet)
      | inr busy ↦ rw busy (save-backlog u packet v)
    ]

-- A packet from the tun device for the address of a well-formed user in DNS mode, who has no
-- query waiting if he is idle: it is compressed and, cut to 64 KB, becomes the packet to send if
-- he is idle, or else joins his queue or is dropped if the queue is full; what he was to get
-- before is as it was.
pub tunnel_tun-backlog :
    (compress2 : List ℕ → List ℕ) (now userid : ℕ) (users : List User) (read : List ℕ) (u : User)
    → length read ≢ 0
    → find_user_by_ip now users (ip_dst read) ≡ some userid
    → get_elem? users userid ≡ some u
    → IsValid u
    → u.conn ≡ dns_null
    → (u.outpacket.len ≡ 0 → (u.q.id ≡ 0) × (u.q_sendrealsoon.id ≡ 0))
    → (u' : User) × (get_elem? (tunnel_tun compress2 now users read).0 userid ≡ some u')
      × (backlog u' ≡ arrive (u.outpacket.len == 0) (compress2 read) (backlog u))
unfolding tunnel_tun
tunnel_tun-backlog compress2 now userid users read u ne found here v c none_waits =
    let got : (length read == 0) ≡ false = ground arith in
    let given = (give_packet userid (compress2 read) u).0 in
    (
      given,
      rw (got, found, here) (get_elem?-set users userid u given here),
      give_packet-backlog userid (compress2 read) u v c none_waits,
    )
