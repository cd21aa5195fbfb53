-- ===== src/Server/Users/Blocking.antt =====
-- When the server stops reading from the tun device, and when it waits for queries.
use andiodine.Common.{ℕ, ◌+◌, ◌<◌, ◌≡◌, refl, arith, Bool, true, false}
use andiodine.Common.{List, length, get_or, Option, none, some, ltb, Bool-cases, ◌↔◌, inl, inr}
use andiodine.Common.{◌&&◌, ◌||◌}
use andiodine.Common.Search.{find_first, find_first-FirstAt, FirstAt}
use andiodine.User.{User, Connection, dns_null, raw_udp}
use andiodine.Server.Users.{
  not_found, can_take, is_raw_udp, is_dns_null, online, all_users_waiting_to_send,
}

-- Active, not disabled, and heard of in the last minute.
abbrev pub Online : ℕ → User → Type 0
Online now u = (u.active ≡ true) × (u.disabled ≡ false) × (now < u.last_pkt + 60)

-- A user with a packet waiting, who cannot take another at once.
abbrev pub Queued : User → Type 0
Queued u = (u.conn ≡ dns_null) × (0 < u.outpacketq_filled)

free : Connection → ℕ → Bool
free c n = is_raw_udp c || (is_dns_null c && ltb n 1)

free-Queued : (c : Connection) (n : ℕ) → free c n ≡ false → (c ≡ dns_null) × (0 < n)
unfolding free
free-Queued raw_udp n e = cc
free-Queued dns_null n e = (refl, ground arith)

Queued-free : (c : Connection) (n : ℕ) → c ≡ dns_null → 0 < n → free c n ≡ false
unfolding free
Queued-free c n e h = rw e (ground arith)

Online-online : (now : ℕ) (u : User) → Online now u → online now u ≡ true
Online-online now u (a, b, h) = ground arith

online-Online : (now : ℕ) (u : User) → online now u ≡ true → Online now u
online-Online now u e = ground arith

Queued-can_take : (now : ℕ) (u : User) → can_take now u ≡ false → Online now u → Queued u
unfolding free
Queued-can_take now u e v =
    let is_online = Online-online now u v in
    free-Queued u.conn u.outpacketq_filled (rw is_online at e)

can_take-Queued : (now : ℕ) (u : User) → (Online now u → Queued u) → can_take now u ≡ false
unfolding free
can_take-Queued now u h = elim (Bool-cases (online now u)) [
  | inl is_online ↦
      let (is_dns, waits) = h (online-Online now u is_online) in
      rw is_online (Queued-free u.conn u.outpacketq_filled is_dns waits)
  | inr offline ↦ rw offline refl
]

-- All_users_waiting_to_send holds exactly if every user that is active, not disabled and recent
-- is a DNS user with a packet in his queue.
pub all_users_waiting_to_send_iff :
    (now : ℕ) (users : List User) (d : User)
    → (all_users_waiting_to_send now users ≡ true)
      ↔ ((j : ℕ) → j < length users → Online now (get_or users j d) → Queued (get_or users j d))
unfolding all_users_waiting_to_send
all_users_waiting_to_send_iff now users d =
    all_wait (find_first (can_take now) users) (find_first-FirstAt (can_take now) d users)
  where
    all_wait :
        (o : Option ℕ)
        → FirstAt (can_take now) d users o
        → (not_found o ≡ true)
          ↔ ((j : ℕ) → j < length users → Online now (get_or users j d) → Queued (get_or users j d))
    all_wait none h = (λ e j hj v. Queued-can_take now (get_or users j d) (h j hj) v, λ g. refl)
    all_wait (some i) (hi, here, before) =
        (λ e. cc, λ g. cc (can_take-Queued now (get_or users i d) (g i hi)))
