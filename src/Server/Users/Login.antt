-- ===== src/Server/Users/Login.antt =====
-- Which user an address or a new login gets.
use andiodine.Common.{ℕ, ◌+◌, ◌≤◌, ◌<◌, ◌≡◌, ◌≢◌, refl, subst, sym, ap, ◌∙◌, arith, true, false}
use andiodine.Common.{List, length, get_or, Option, none, some, ◌⊎◌}
use andiodine.Common.Search.{
  find_first, find_first-FirstAt, modify, get_or-modify_self, find_first_unique,
}
use andiodine.Common.Search.{get_or-modify_ne}
use andiodine.User.{User}
use andiodine.Server.Users.{
  has_ip, find_user_by_ip, available, taken, take_slot, find_available_user,
}

-- A user who takes part: logged in, not disabled, and heard of in the last minute.
abbrev pub LoggedIn : ℕ → User → Type 0
LoggedIn now u =
    (u.active ≡ true) × (u.authenticated ≡ true) × (u.disabled ≡ false) × (now < u.last_pkt + 60)

has_ip-LoggedIn :
    (now ip : ℕ) (u : User) → has_ip now ip u ≡ true → (u.tun_ip ≡ ip) × LoggedIn now u
has_ip-LoggedIn now ip u e = ground arith

LoggedIn-has_ip : (now : ℕ) (u : User) → LoggedIn now u → has_ip now u.tun_ip u ≡ true
LoggedIn-has_ip now u (a, b, c, h) = ground arith

other_ip : (now ip : ℕ) (u : User) → u.tun_ip ≢ ip → has_ip now ip u ≡ false
other_ip now ip u ne = ground arith

available-cases :
    (now : ℕ) (u : User)
    → available now u ≡ true
    → (u.disabled ≡ false) × ((u.active ≡ false) ⊎ (u.last_pkt + 60 < now))
available-cases now u e = ground arith

unavailable-cases :
    (now : ℕ) (u : User)
    → available now u ≡ false
    → (u.disabled ≡ true) ⊎ ((u.active ≡ true) × (now ≤ u.last_pkt + 60))
unavailable-cases now u e = ground arith

-- A user that find_user_by_ip gives is in range, has that address, is active, authenticated and
-- not disabled, and was heard of in the last minute.
pub find_user_by_ip-LoggedIn :
    (now ip i : ℕ) (users : List User) (d : User)
    → find_user_by_ip now users ip ≡ some i
    → (i < length users) × ((get_or users i d).tun_ip ≡ ip) × LoggedIn now (get_or users i d)
unfolding find_user_by_ip
find_user_by_ip-LoggedIn now ip i users d e =
    let found = rw e at (find_first-FirstAt (has_ip now ip) d users) in
    let (ip_is, in_use) = has_ip-LoggedIn now ip (get_or users i d) found.1 in
    (found.0, ip_is, in_use)

-- A user who is logged in and recent is found by his address if no user before him in the table
-- has it.
pub find_user_by_ip_finds :
    (now i : ℕ) (users : List User) (d : User)
    → i < length users
    → LoggedIn now (get_or users i d)
    → ((j : ℕ) → j < i → (get_or users j d).tun_ip ≢ (get_or users i d).tun_ip)
    → find_user_by_ip now users (get_or users i d).tun_ip ≡ some i
unfolding find_user_by_ip
find_user_by_ip_finds now i users d hi v unique =
    find_first_unique (has_ip now (get_or users i d).tun_ip) d users i (
      hi,
      LoggedIn-has_ip now (get_or users i d) v,
      λ j hj. other_ip now (get_or users i d).tun_ip (get_or users j d) (unique j hj),
    )

take_slot-index : (now : ℕ) (users : List User) (o : Option ℕ) → (take_slot now users o).1 ≡ o
take_slot-index now users none = refl
take_slot-index now users (some i) = refl

pub find_available_user-index :
    (now : ℕ) (users : List User)
    → (find_available_user now users).1 ≡ find_first (available now) users
unfolding find_available_user
find_available_user-index now users = take_slot-index now users (find_first (available now) users)

-- What a login that takes slot `i` does to the table.
abbrev pub TakesFreeSlot : ℕ → User → ℕ → List User → List User → Type 0
TakesFreeSlot now d i users users' =
    let old = get_or users i d in
    let new = get_or users' i d in
    (i < length users)
    × (old.disabled ≡ false)
    × ((old.active ≡ false) ⊎ (old.last_pkt + 60 < now))
    × (new.active ≡ true)
    × (new.authenticated ≡ false)
    × (new.authenticated_raw ≡ false)
    × (new.last_pkt ≡ now)
    × ((j : ℕ) → j ≢ i → get_or users' j d ≡ get_or users j d)

-- The slot that find_available_user gives to a new login is in range, not disabled, and was
-- unused or its user not heard of for over a minute; it is then active, heard of now, and not
-- authenticated in either way, and every other slot is as before.
pub find_available_user_safe :
    (now i : ℕ) (users : List User) (d : User)
    → (find_available_user now users).1 ≡ some i
    → TakesFreeSlot now d i users (find_available_user now users).0
unfolding find_available_user
find_available_user_safe now i users d e =
    let found : find_first (available now) users ≡ some i =
      sym (find_available_user-index now users) ∙ e in
    let (hi, here, before) = rw found at (find_first-FirstAt (available now) d users) in
    let (enabled, unused) = available-cases now (get_or users i d) here in
    let changed : get_or (modify users i (taken now)) i d ≡ taken now (get_or users i d) =
      get_or-modify_self users i (taken now) d hi in
    subst (λ r. TakesFreeSlot now d i users r.0) (sym (ap (take_slot now users) found))
      (
        hi,
        enabled,
        unused,
        ap (λ u. u.active) changed,
        ap (λ u. u.authenticated) changed,
        ap (λ u. u.authenticated_raw) changed,
        ap (λ u. u.last_pkt) changed,
        λ j ne. get_or-modify_ne users i j (taken now) d ne,
      )

-- If find_available_user gives no slot, every slot is disabled or belongs to an active user heard
-- of in the last minute.
pub find_available_user_full :
    (now j : ℕ) (users : List User) (d : User)
    → (find_available_user now users).1 ≡ none
    → j < length users
    → let u = get_or users j d in
      (u.disabled ≡ true) ⊎ ((u.active ≡ true) × (now ≤ u.last_pkt + 60))
find_available_user_full now j users d e hj =
    let full : find_first (available now) users ≡ none =
      sym (find_available_user-index now users) ∙ e in
    let all_used = rw full at (find_first-FirstAt (available now) d users) in
    unavailable-cases now (get_or users j d) (all_used j hj)
