-- ===== src/Server/Request/LoggedIn.antt =====
-- Who is logged in after a login request: `handle_null_request` of iodined.c, command L.
use andiodine.Common.{
  ℕ, zero, suc, ◌≤◌, ◌≡◌, refl, ap, sym, ◌∙◌, arith, Bool, true, ◌⊎◌, leb, same_bytes,
}
use andiodine.Common.{take, drop, eq_of_same_bytes}
use andiodine.Common.{
  ltb, Bool-cases, inl, inr, List, [], ◌∷◌, length, get_or, get_elem?, set, Option, none, some,
}
use andiodine.User.{Query, User}
use andiodine.Server.Request.{Config, at_user, test_user, check_user_and_ip}
use andiodine.Login.{login_calculate}
use andiodine.Server.Request.Known.{IsKnown, and_left, and_right, check-IsKnown}
use andiodine.Server.Request.Login.{right_hash, login_user, handle_login}

-- `users[i].authenticated`; no user has an index out of range.
abbrev pub IsAuthenticated : List User → ℕ → Type 0
IsAuthenticated users i = test_user (λ u. u.authenticated) (get_elem? users i) ≡ true

-- After an entry is set, it passes a test only if the new entry passes, and any other entry only
-- if it passed before.
module _ (test : User → Bool) where
  test_user-set :
      (users : List User) (j i : ℕ) (v : User)
      → test_user test (get_elem? (set users j v) i) ≡ true
      → (test_user test (get_elem? users i) ≡ true) ⊎ ((i ≡ j) × (test v ≡ true))
  test_user-set [] j i v h = inl h
  test_user-set (u ∷ us) zero zero v h = inr (refl, h)
  test_user-set (u ∷ us) zero (suc i) v h = inl h
  test_user-set (u ∷ us) (suc j) zero v h = inl h
  test_user-set (u ∷ us) (suc j) (suc i) v h = elim (test_user-set us j i v h) [
    | inl before ↦ inl before
    | inr (e, t) ↦ inr (ap suc e, t)
  ]

module _ (md5 : List ℕ → List ℕ) (cfg : Config) (now : ℕ) (users : List User) (q : Query)
    (unpacked : List ℕ) where
  -- User `i` is the one that the request names and is known to take part, and the 16 bytes behind
  -- the userid are the hash of the password and the user's seed.
  abbrev pub Proven : ℕ → Type 0
  Proven i =
      (i ≡ get_or unpacked 0 0)
      × (u : User) × (get_elem? users i ≡ some u)
      × IsKnown cfg now q u
      × (18 ≤ length unpacked)
      × (take 16 (drop 1 unpacked) ≡ login_calculate md5 cfg.password u.seed)

  right_hash-equal :
      (u : User)
      → right_hash md5 cfg u unpacked ≡ true
      → (18 ≤ length unpacked)
        × (take 16 (drop 1 unpacked) ≡ login_calculate md5 cfg.password u.seed)
  unfolding right_hash
  right_hash-equal u e =
      let sent = take 16 (drop 1 unpacked) in
      let hash = login_calculate md5 cfg.password u.seed in
      let long = and_left (leb 18 (length unpacked)) (same_bytes hash sent) e in
      (
        ground (arith, long),
        sym (
            eq_of_same_bytes hash sent
              (and_right (leb 18 (length unpacked)) (same_bytes hash sent) e)),
      )

  login_user-authenticated :
      (u : User)
      → ((login_user md5 cfg now q unpacked u).0).authenticated ≡ true
      → (u.authenticated ≡ true) ⊎ (right_hash md5 cfg u unpacked ≡ true)
  unfolding login_user
  login_user-authenticated u = elim (Bool-cases (right_hash md5 cfg u unpacked)) [
    | inl right ↦ λ h. inr right
    | inr wrong ↦ rw wrong (λ h. inl h)
  ]

  at_login :
      (i : ℕ)
      → check_user_and_ip cfg now users (get_or unpacked 0 0) q ≡ true
      → (o : Option User) → get_elem? users (get_or unpacked 0 0) ≡ o
      → IsAuthenticated
          (at_user users (get_or unpacked 0 0) o (login_user md5 cfg now q unpacked)).0
          i
      → IsAuthenticated users i ⊎ Proven i
  at_login i known none e h = inl h
  at_login i known (some u) e h =
      let userid = get_or unpacked 0 0 in
      elim (test_user-set (λ u. u.authenticated) users userid i
        (login_user md5 cfg now q unpacked u).0 h) [
          | inl before ↦ inl before
          | inr (same, now_in) ↦ elim (login_user-authenticated u now_in) [
            | inl before ↦ inl (rw (same, e) before)
            | inr right ↦ inr (
              same,
              u,
              ap (get_elem? users) same ∙ e,
              check-IsKnown cfg now q users userid u e known,
              (right_hash-equal u right).0,
              (right_hash-equal u right).1,
            )
          ]
        ]

  -- A user that is authenticated after a login request was so before, or else is the user that
  -- the request names, is active, not disabled and was heard of in the last minute, has the
  -- address that the request comes from unless the check of addresses is off, and the request has
  -- 18 bytes or more, of which the 16 behind the userid are the hash of the password and the seed
  -- of this user.
  pub handle_login_guard :
      (i : ℕ)
      → IsAuthenticated (handle_login md5 cfg now users q unpacked).0 i
      → IsAuthenticated users i ⊎ Proven i
  unfolding handle_login
  handle_login_guard i = elim (Bool-cases (ltb (length unpacked) 17)) [
    | inl short ↦ rw short (λ h. inl h)
    | inr long ↦ elim (Bool-cases (check_user_and_ip cfg now users (get_or unpacked 0 0) q)) [
      | inl known ↦ rw (long, known) (at_login i known (get_elem? users (get_or unpacked 0 0)) refl)
      | inr foreign ↦ rw (long, foreign) (λ h. inl h)
    ]
  ]
