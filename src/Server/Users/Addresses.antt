-- ===== src/Server/Users/Addresses.antt =====
-- The addresses that `init_users` of user.c gives.
use andiodine.Common.{
  ℕ, zero, suc, ◌+◌, ◌-◌, ◌^◌, ◌≤◌, ◌<◌, ◌≡◌, ◌≢◌, refl, ap, sym, subst, ◌∙◌, arith, min, true,
  ◌&&◌, ◌==◌,
}
use andiodine.Common.{Bool-cases, inl, inr, List, [], ◌∷◌, length, All}
use andiodine.User.{User}
use andiodine.Server.Users.Init.{address_at, users_from, max_users, init_users}

-- No user has this address.
abbrev pub NoneHas : (ip : ℕ) → List User → Type 0
NoneHas ip = All (λ u. u.tun_ip ≢ ip)

-- No two users have the same address.
abbrev pub AllDiffer : List User → Type 0
AllDiffer [] = Unit
AllDiffer (u ∷ us) = NoneHas u.tun_ip us × AllDiffer us

address_at-ne : (ipstart n m : ℕ) → n < m → m < 256 → address_at ipstart m ≢ address_at ipstart n
address_at-ne ipstart n m h hm e = omega (arith, e)

module _ (ipstart my_ip : ℕ) where
  -- An address that was passed is not given again.
  none_passed :
      (k i skip n : ℕ)
      → n ≤ i + skip
      → i + (k + k) + skip + 2 ≤ 256
      → NoneHas (address_at ipstart n) (users_from ipstart my_ip k i skip)
  none_passed zero i skip n h hb = tt
  none_passed (suc k) i skip n h hb =
      elim (Bool-cases (address_at ipstart (i + skip + 1) == my_ip && skip == 0)) [
        | inl gone ↦ rw gone (
          address_at-ne ipstart n (i + (skip + 1) + 1) (omega arith) (omega arith),
          none_passed k (i + 1) (skip + 1) n (omega arith) (omega arith),
        )
        | inr free ↦ rw free (
          address_at-ne ipstart n (i + skip + 1) (omega arith) (omega arith),
          none_passed k (i + 1) skip n (omega arith) (omega arith),
        )
      ]

  users_from-AllDiffer :
      (k i skip : ℕ) → i + (k + k) + skip + 2 ≤ 256 → AllDiffer (users_from ipstart my_ip k i skip)
  users_from-AllDiffer zero i skip hb = tt
  users_from-AllDiffer (suc k) i skip hb =
      elim (Bool-cases (address_at ipstart (i + skip + 1) == my_ip && skip == 0)) [
        | inl gone ↦ rw gone (
          none_passed k (i + 1) (skip + 1) (i + (skip + 1) + 1) (omega arith) (omega arith),
          users_from-AllDiffer k (i + 1) (skip + 1) (omega arith),
        )
        | inr free ↦ rw free (
          none_passed k (i + 1) skip (i + skip + 1) (omega arith) (omega arith),
          users_from-AllDiffer k (i + 1) skip (omega arith),
        )
      ]

  users_from-NoneHas :
      (k i : ℕ) → i + (k + k) + 2 ≤ 256 → NoneHas my_ip (users_from ipstart my_ip k i 0)
  users_from-NoneHas zero i hb = tt
  users_from-NoneHas (suc k) i hb =
      let here = address_at ipstart (i + 0 + 1) in
      elim (Bool-cases (here == my_ip && true)) [
        | inl gone ↦
            let same : here ≡ my_ip = ground (arith, gone) in
            rw gone (
              λ e.
                  address_at-ne ipstart (i + 0 + 1) (i + (0 + 1) + 1) (omega arith) (omega arith)
                    (e ∙ sym same),
              subst (λ (ip : ℕ). NoneHas ip (users_from ipstart my_ip k (i + 1) (0 + 1))) same
                  (none_passed k (i + 1) (0 + 1) (i + 0 + 1) (omega arith) (omega arith)),
            )
        | inr free ↦
            rw free (λ e. ground (arith, free, e), users_from-NoneHas k (i + 1) (omega arith))
      ]

  length-users_from : (k i skip : ℕ) → length (users_from ipstart my_ip k i skip) ≡ k
  length-users_from zero i skip = refl
  length-users_from (suc k) i skip =
      elim (Bool-cases (address_at ipstart (i + skip + 1) == my_ip && skip == 0)) [
        | inl gone ↦ rw gone (ap suc (length-users_from k (i + 1) (skip + 1)))
        | inr free ↦ rw free (ap suc (length-users_from k (i + 1) skip))
      ]

-- Init_users makes as many users as the network has addresses less three, at most 16; no two of
-- them have the same address, and none has that of the server.
pub init_users-AllDiffer :
    (my_ip netbits : ℕ)
    → let users = init_users my_ip netbits in
      (length users ≡ min (2 ^ (32 - netbits) - 3) max_users)
      × AllDiffer users
      × NoneHas my_ip users
unfolding init_users
init_users-AllDiffer my_ip netbits =
    let k = min (2 ^ (32 - netbits) - 3) max_users in
    (
      length-users_from _ my_ip k 0 0,
      users_from-AllDiffer _ my_ip k 0 0 (omega arith),
      users_from-NoneHas _ my_ip k 0 (omega arith),
    )
