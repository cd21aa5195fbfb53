-- ===== src/Server/Request/Known.antt =====
-- What the tests on the sender of a request say, as properties: `check_user_and_ip` of iodined.c.
use andiodine.Common.{ℕ, ◌+◌, ◌≤◌, ◌≡◌, refl, arith, Bool, true, false, not, ◌&&◌, ◌||◌, ltb}
use andiodine.Common.{Bool-cases, inl, inr, List, get_elem?, some, eq_of_same_bytes}
use andiodine.Common.{◌⊎◌}
use andiodine.User.{Query, User}
use andiodine.Server.Request.{
  Config, sin_addr, passes, test_user, check_user_and_ip, check_authenticated_user_and_ip,
}

-- The user is active, not disabled and was heard of in the last minute; and, unless the check of
-- addresses is off, the query comes from the address that the user has.
abbrev pub IsKnown : Config → (now : ℕ) → Query → User → Type 0
IsKnown cfg now q u =
    (u.active ≡ true)
    × (u.disabled ≡ false)
    × (now ≤ u.last_pkt + 60)
    × ((cfg.check_ip ≡ false) ⊎ (u.host ≡ sin_addr q.from))

pub and_left : (a b : Bool) → (a && b) ≡ true → a ≡ true
and_left true b e = refl
and_left false b e = cc e

pub and_right : (a b : Bool) → (a && b) ≡ true → b ≡ true
and_right true b e = e
and_right false b e = cc e

module _ (cfg : Config) (now : ℕ) (q : Query) where
  passes-IsKnown : (u : User) → passes cfg now q u ≡ true → IsKnown cfg now q u
  passes-IsKnown u e = elim (Bool-cases (not u.active || u.disabled)) [
    | inl barred ↦ cc (rw barred at e)
    | inr allowed ↦ elim (Bool-cases (ltb (u.last_pkt + 60) now)) [
      | inl late ↦ cc (rw (allowed, late) at e)
      | inr in_time ↦ (
        ground (arith, allowed),
        ground (arith, allowed),
        ground (arith, in_time),
        elim (Bool-cases cfg.check_ip) [
          | inl on ↦
              inr (eq_of_same_bytes u.host (sin_addr q.from) (rw (allowed, in_time, on) at e))
          | inr off ↦ inl off
        ],
      )
    ]
  ]

  pub check-IsKnown :
      (users : List User) (i : ℕ) (u : User)
      → get_elem? users i ≡ some u
      → check_user_and_ip cfg now users i q ≡ true
      → IsKnown cfg now q u
  unfolding check_user_and_ip
  check-IsKnown users i u here e = passes-IsKnown u (rw here at e)

  pub check_authenticated-IsKnown :
      (users : List User) (i : ℕ) (u : User)
      → get_elem? users i ≡ some u
      → check_authenticated_user_and_ip cfg now users i q ≡ true
      → IsKnown cfg now q u × (u.authenticated ≡ true)
  unfolding check_authenticated_user_and_ip
  check_authenticated-IsKnown users i u here e =
      let known = check_user_and_ip cfg now users i q in
      let authenticated = test_user (λ v. v.authenticated) (get_elem? users i) in
      (
        check-IsKnown users i u here (and_left known authenticated e),
        rw here at (and_right known authenticated e),
      )
