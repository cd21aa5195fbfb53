-- ===== src/Server/Request/RawGuard.antt =====
-- Who is not logged in cannot use the packets without DNS: `raw_decode` of iodined.c.
use andiodine.Common.{
  ℕ, zero, suc, ◌+◌, ◌≤◌, ◌≡◌, ◌≢◌, arith, true, same_bytes_ne, refl, ap, bit_and, false, not, ◌&&◌,
  ◌||◌, ltb, ◌==◌, same_bytes,
}
use andiodine.Common.{
  if◌then◌else◌, Bool-cases, Option-cases, inl, inr, List, [], ◌∷◌, length, get_or, get_elem?, set,
  take, drop, Option, some,
}
use andiodine.User.{Query, User}
use andiodine.Login.{login_calculate}
use andiodine.Server.Request.{Config, Handled, at_user, test_user, check_authenticated_user_and_ip}
use andiodine.Server.Request.Known.{IsKnown, check_authenticated-IsKnown}
use andiodine.Server.Request.Raw.{
  may_log_in, checked_raw, raw_login_user, handle_raw_login, handle_raw_data, handle_raw_ping,
}
use andiodine.Server.Request.Raw.{raw_ident, raw_decode}

set_same :
    (users : List User) (i : ℕ) (u : User) → get_elem? users i ≡ some u → set users i u ≡ users
set_same [] i u e = refl
set_same (v ∷ us) zero u e = ap (λ w. w ∷ us) (cc e)
set_same (v ∷ us) (suc i) u e = ap (λ ws. v ∷ ws) (set_same us i u e)

-- The userid in the header of a packet.
abbrev pub raw_userid : List ℕ → ℕ
raw_userid packet = bit_and (get_or packet 3 0) 0x0F

module _ (cfg : Config) (now : ℕ) (users : List User) (q : Query) where
  -- No user with this userid takes part, at the address of the packet unless the check of addresses
  -- is off, and is logged in over DNS and over UDP.
  abbrev pub RawStranger : (userid : ℕ) → Type 0
  RawStranger userid =
      (u : User)
      → get_elem? users userid ≡ some u
      → IsKnown cfg now q u
      → u.authenticated ≡ true
      → u.authenticated_raw ≡ false

  fails-RawStranger :
      (userid : ℕ)
      → RawStranger userid
      → (check_authenticated_user_and_ip cfg now users userid q
          && test_user (λ u. u.authenticated_raw) (get_elem? users userid))
        ≡ false
  fails-RawStranger userid stranger =
      elim (Bool-cases (check_authenticated_user_and_ip cfg now users userid q)) [
        | inr foreign ↦ rw foreign refl
        | inl known ↦ elim (Option-cases (get_elem? users userid)) [
          | inl nobody ↦ rw (known, nobody) refl
          | inr (u, e) ↦
              let (here, authenticated) =
                check_authenticated-IsKnown cfg now q users userid u e known in
              rw (known, e) (stranger u e here authenticated)
        ]
      ]

  checked_raw-same :
      (userid : ℕ) (rest : Handled)
      → RawStranger userid
      → checked_raw cfg now users userid q rest ≡ (users, [])
  unfolding checked_raw
  checked_raw-same userid rest stranger = rw (fails-RawStranger userid stranger) refl

  -- If a user with this userid takes part and is logged in over DNS, then the packet does not begin
  -- with the hash of the password and his seed plus one.
  abbrev pub WrongHash : (List ℕ → List ℕ) → (userid : ℕ) → (packet : List ℕ) → Type 0
  WrongHash md5 userid packet =
      (u : User)
      → get_elem? users userid ≡ some u
      → u.active ≡ true
      → u.disabled ≡ false
      → u.authenticated ≡ true
      → now ≤ u.last_pkt + 60
      → take 16 packet ≢ login_calculate md5 cfg.password (u.seed + 1)

  may_log_in-lem :
      (u : User)
      → may_log_in now u ≡ true
      → (u.active ≡ true)
        × (u.disabled ≡ false)
        × (u.authenticated ≡ true)
        × (now ≤ u.last_pkt + 60)
  may_log_in-lem u e = ground (arith, e)

  module _ (md5 : List ℕ → List ℕ) where
    at_login :
        (userid : ℕ) (packet : List ℕ) (u : User)
        → get_elem? users userid ≡ some u
        → WrongHash md5 userid packet
        → (if not (may_log_in now u)
            then (users, [])
            else at_user users userid (some u) (raw_login_user md5 cfg now q userid packet))
          ≡ (users, [])
    unfolding raw_login_user
    at_login userid packet u e wrong = elim (Bool-cases (may_log_in now u)) [
      | inr barred ↦ rw barred refl
      | inl may ↦
          let (a, d, l, t) = may_log_in-lem u may in
          let fails =
            same_bytes_ne (take 16 packet) (login_calculate md5 cfg.password (u.seed + 1))
              (wrong u e a d l t) in
          rw (may, fails) (ap (λ us. (us, [])) (set_same users userid u e))
    ]

    handle_raw_login-same :
        (userid : ℕ) (packet : List ℕ)
        → WrongHash md5 userid packet
        → handle_raw_login md5 cfg now users q userid packet ≡ (users, [])
    unfolding handle_raw_login raw_login_user
    handle_raw_login-same userid packet wrong = elim (Bool-cases (ltb (length packet) 16)) [
      | inl short ↦ rw short refl
      | inr long ↦ elim (Option-cases (get_elem? users userid)) [
        | inl nobody ↦ rw (long, nobody) refl
        | inr (u, e) ↦ rw (long, e) (at_login userid packet u e wrong)
      ]
    ]

    module _ (uncompress : List ℕ → Option (List ℕ)) where
      -- A packet without DNS changes nothing and is not answered in this case: the user with its
      -- userid, if there is one, is not logged in over UDP, or not over DNS, or is not active, is
      -- disabled or was not heard of in the last minute, or, unless the check of addresses is
      -- off, has another address than the packet comes from; and if he is logged in over DNS and
      -- takes part, then the packet does not begin with the hash of the password and his seed
      -- plus one.
      pub raw_decode_guard :
          (packet : List ℕ)
          → RawStranger (raw_userid packet)
          → WrongHash md5 (raw_userid packet) (drop 4 packet)
          → (raw_decode md5 uncompress cfg now users packet q).0 ≡ (users, [])
      unfolding raw_decode handle_raw_data handle_raw_ping
      raw_decode_guard packet stranger wrong =
          let cmd = bit_and (get_or packet 3 0) 0xF0 in
          let login = handle_raw_login-same (raw_userid packet) (drop 4 packet) wrong in
          elim (Bool-cases (ltb (length packet) 4 || not (same_bytes (take 3 packet) raw_ident))) [
            | inl other ↦ rw other refl
            | inr raw ↦ elim (Bool-cases (cmd == 0x10)) [
              | inl c ↦ rw (raw, c) login
              | inr c ↦ elim (Bool-cases (cmd == 0x20)) [
                | inl c' ↦ rw (raw, c, c') (checked_raw-same (raw_userid packet) _ stranger)
                | inr c' ↦ elim (Bool-cases (cmd == 0x30)) [
                  | inl c'' ↦ rw (raw, c, c', c'') (checked_raw-same (raw_userid packet) _ stranger)
                  | inr c'' ↦ rw (raw, c, c', c'') refl
                ]
              ]
            ]
          ]
