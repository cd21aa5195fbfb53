-- ===== src/Server/Users/Tests.antt =====
-- The user table at three concrete users.
use andiodine.Common.{ℕ, ◌≡◌, ◌≢◌, ◌<◌, zero, suc, refl, arith, true, List, [], ◌∷◌, get_or}
use andiodine.Common.{none, some}
use andiodine.Common.{min, ◌^◌, ◌-◌, length}
use mathlib.Core.List.{map}
use andiodine.Server.Users.Init.{max_users, init_users}
use andiodine.Server.Users.Addresses.{NoneHas, AllDiffer, init_users-AllDiffer}
use andiodine.User.{User, base128}
use andiodine.User.Example.{alice}
use andiodine.Server.Users.{find_user_by_ip, find_available_user}
use andiodine.Server.Users.{users_waiting_on_reply, user_switch_codec}
use andiodine.Server.Users.Login.{find_user_by_ip-LoggedIn, LoggedIn}
use andiodine.Server.Users.Login.{find_available_user_safe, TakesFreeSlot}

-- One user is disabled, one has been quiet for long, and one takes part.
abbrev three : List User
three =
    record alice { disabled = true; tun_ip = 1; last_pkt = 990 }
    ∷ record alice { tun_ip = 2; last_pkt = 900 }
    ∷ record alice { tun_ip = 3; last_pkt = 990 }
    ∷ []

no_reply_pending : users_waiting_on_reply 1000 three ≡ 0
unfolding users_waiting_on_reply
no_reply_pending = refl

switched : (get_or (user_switch_codec three 1 base128) 1 alice).encoder ≡ base128
unfolding user_switch_codec
switched = refl

found : find_user_by_ip 1000 three 3 ≡ some 2
unfolding find_user_by_ip
found = refl

available_slot : (find_available_user 1000 three).1 ≡ some 1
unfolding find_available_user
available_slot = refl

none_free : (find_available_user 950 three).1 ≡ none
unfolding find_available_user
none_free = refl

ips : (j : ℕ) → j < 2 → (get_or three j alice).tun_ip ≢ 3
ips zero h = omega arith
ips (suc zero) h = omega arith
ips (suc (suc j)) h = absurd (omega arith)

find_user_by_ip-LoggedIn_example :
    (2 < 3) × ((get_or three 2 alice).tun_ip ≡ 3) × LoggedIn 1000 (get_or three 2 alice)
find_user_by_ip-LoggedIn_example = find_user_by_ip-LoggedIn 1000 3 2 three alice found

find_available_user_safe_example :
    TakesFreeSlot 1000 alice 1 three (find_available_user 1000 three).0
find_available_user_safe_example = find_available_user_safe 1000 1 three alice available_slot

-- The server has 10.0.0.2 in a network of 29 bits: five users, from 10.0.0.1 on.
five_users :
    map (λ u. u.tun_ip) (init_users 0x0200000a 29)
    ≡ 0x0100000a ∷ 0x0300000a ∷ 0x0400000a ∷ 0x0500000a ∷ 0x0600000a ∷ []
unfolding init_users
five_users = refl

init_users-AllDiffer_example :
    let users = init_users 0x0200000a 29 in
    (length users ≡ min (2 ^ (32 - 29) - 3) max_users) × AllDiffer users × NoneHas 0x0200000a users
init_users-AllDiffer_example = init_users-AllDiffer 0x0200000a 29
