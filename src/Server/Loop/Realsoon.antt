-- ===== src/Server/Loop/Realsoon.antt =====
-- No query that was to be answered soon is left behind a round of `tunnel` of iodined.c.
use andiodine.Common.{
  ℕ, zero, suc, ◌≡◌, refl, subst, arith, true, false, ◌==◌, Bool-cases, inl, inr,
}
use andiodine.Common.{
  Option-cases, List, [], ◌∷◌, length, All, All-set, get_elem?, Option, none, some,
}
use andiodine.Common.{◌⊎◌}
use andiodine.User.{User, Query, Connection, raw_udp, dns_null}
use andiodine.Hostname.{Encoder}
use andiodine.Server.Users.{online, is_dns_null, find_user_by_ip}
use andiodine.Server.Outpacket.{start_new_outpacket}
use andiodine.Server.SendChunk.{QueryAt, at_q, at_q_sendrealsoon, set_query}
use andiodine.Server.SendChunk.Used.{send_chunk-used}
use andiodine.Server.SendChunk.Stable.{
  Stable, start_new_outpacket-Stable, save_to_outpacketq-Stable, send_chunk-Stable,
}
use andiodine.Server.Request.{Config}
use andiodine.Server.Request.Traffic.{
  ip_dst, give_by, give_packet, give_to, send_if_waiting, tunnel_tun,
}
use andiodine.Server.Loop.{
  start_user, start_round, is_due, send_due, end_round, nothing, round_tun, round,
}

-- The user is not online or not in DNS mode, or has no query to answer soon.
abbrev pub IsAnswered : (now : ℕ) → User → Type 0
IsAnswered now u = (online now u ≡ false) ⊎ (is_dns_null u.conn ≡ false) ⊎ (u.q_sendrealsoon.id ≡ 0)

-- A query that is to be answered soon, if there is one, does not come from this round.
IsOld : (now : ℕ) → User → Type 0
IsOld now u = online now u ≡ true → u.q_sendrealsoon_new ≡ false

IsOld-set_query :
    (now : ℕ) (u : User) (at : QueryAt) (q : Query) → IsOld now u → IsOld now (set_query at q u)
unfolding IsOld
IsOld-set_query now u at_q q h = h
IsOld-set_query now u at_q_sendrealsoon q h = h

IsOld-Stable : (now : ℕ) → Stable (IsOld now)
unfolding IsOld
IsOld-Stable now = record {
  of_outpackets = λ u p resent ring next filled h. h;
  of_dnscache = λ u cache last h. h;
  of_qmemping = λ u qmem last h. h;
  of_qmemdata = λ u qmem last h. h;
  of_query = IsOld-set_query now;
}

start_user-IsOld : (now : ℕ) (u : User) → IsOld now (start_user now u)
unfolding IsOld
start_user-IsOld now u = elim (Bool-cases (online now u)) [
  | inl on ↦ rw on (λ h. refl)
  | inr off ↦ rw off (λ h. cc (h, off))
]

start_round-IsOld : (now : ℕ) (users : List User) → All (IsOld now) (start_round now users)
unfolding start_round
start_round-IsOld now [] = tt
start_round-IsOld now (u ∷ us) = (start_user-IsOld now u, start_round-IsOld now us)

send_if_waiting-IsOld : (now : ℕ) (u : User) → IsOld now u → IsOld now (send_if_waiting u).0
send_if_waiting-IsOld now u h = elim (Bool-cases (u.q_sendrealsoon.id == 0)) [
  | inr soon ↦ rw soon (send_chunk-Stable (IsOld now) (IsOld-Stable now) u at_q_sendrealsoon h)
  | inl empty ↦ elim (Bool-cases (u.q.id == 0)) [
    | inr waits ↦ rw (empty, waits) (send_chunk-Stable (IsOld now) (IsOld-Stable now) u at_q h)
    | inl none' ↦ rw (empty, none') h
  ]
]

give_by-IsOld :
    (now : ℕ) (conn : Connection) (userid : ℕ) (packet : List ℕ) (u : User)
    → IsOld now u
    → IsOld now (give_by conn userid packet u).0
give_by-IsOld now raw_udp userid packet u h = h
give_by-IsOld now dns_null userid packet u h =
    let n = length packet in
    elim (Bool-cases (u.outpacket.len == 0)) [
      | inl idle ↦ rw idle (
          send_if_waiting-IsOld now (start_new_outpacket u packet n)
            (start_new_outpacket-Stable (IsOld now) (IsOld-Stable now) u packet n h))
      | inr busy ↦ rw busy (save_to_outpacketq-Stable (IsOld now) (IsOld-Stable now) u packet n h)
    ]

All-get {ℓ} :
    (P : User → Type ℓ) (users : List User) (i : ℕ) (u : User)
    → get_elem? users i ≡ some u
    → All P users
    → P u
All-get P [] i u e h = cc e
All-get P (v ∷ us) zero u e (h, hs) = subst P (cc e) h
All-get P (v ∷ us) (suc i) u e (h, hs) = All-get P us i u e hs

give_to-IsOld :
    (now : ℕ) (users : List User) (packet : List ℕ) (o : Option ℕ)
    → All (IsOld now) users
    → All (IsOld now) (give_to users packet [] o).0
unfolding give_packet
give_to-IsOld now users packet none h = h
give_to-IsOld now users packet (some i) h = elim (Option-cases (get_elem? users i)) [
  | inl nobody ↦ rw nobody h
  | inr (u, e) ↦ rw e (
      All-set (IsOld now) users i _ h
        (give_by-IsOld now u.conn i packet u (All-get (IsOld now) users i u e h)))
]

not_due : (now : ℕ) (u : User) → is_due now u ≡ false → IsOld now u → IsAnswered now u
unfolding IsOld
not_due now u idle old = elim (Bool-cases (online now u)) [
  | inr off ↦ inl off
  | inl on ↦ elim (Bool-cases (is_dns_null u.conn)) [
    | inr raw ↦ inr (inl raw)
    | inl dns ↦ let seen : u.q_sendrealsoon_new ≡ false = old on in inr (inr (ground arith))
  ]
]

send_due-IsAnswered : (now : ℕ) (u : User) → IsOld now u → IsAnswered now (send_due now u).0
unfolding send_due
send_due-IsAnswered now u old = elim (Bool-cases (is_due now u)) [
  | inl due ↦ rw due (inr (inr (send_chunk-used u at_q_sendrealsoon)))
  | inr idle ↦ rw idle (not_due now u idle old)
]

end_round-IsAnswered :
    (now : ℕ) (users : List User)
    → All (IsOld now) users
    → All (IsAnswered now) (end_round now users).0
unfolding end_round
end_round-IsAnswered now [] h = tt
end_round-IsAnswered now (u ∷ us) (h, hs) =
    (send_due-IsAnswered now u h, end_round-IsAnswered now us hs)

module _ (compress2 md5 : List ℕ → List ℕ) (uncompress : List ℕ → Option (List ℕ))
    (base64u_encoder : Encoder) where
  round_tun-IsOld :
      (now : ℕ) (users : List User) (tun : Option (List ℕ))
      → All (IsOld now) users
      → All (IsOld now) (round_tun compress2 md5 uncompress base64u_encoder now users tun).0
  unfolding tunnel_tun
  round_tun-IsOld now users none h = h
  round_tun-IsOld now users (some read) h = elim (Bool-cases (length read == 0)) [
    | inl empty ↦ rw empty h
    | inr full ↦
        rw full
          (give_to-IsOld now users (compress2 read) (find_user_by_ip now users (ip_dst read)) h)
  ]

  -- After a round of tunnel in which nothing came from the DNS socket, whether or not a packet
  -- came from the tun device, no user that is online in DNS mode has a query left that was to be
  -- answered soon.
  pub round-IsAnswered :
      (cfg : Config) (now random : ℕ) (users : List User) (tun : Option (List ℕ))
      → All
          (IsAnswered now)
          (round compress2 md5 uncompress base64u_encoder cfg now random users tun nothing).0
  unfolding round
  round-IsAnswered cfg now random users tun =
      let started = start_round now users in
      end_round-IsAnswered now
        (round_tun compress2 md5 uncompress base64u_encoder now started tun).0
        (round_tun-IsOld now started tun (start_round-IsOld now users))
