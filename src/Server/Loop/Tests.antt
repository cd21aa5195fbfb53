-- ===== src/Server/Loop/Tests.antt =====
-- A round with one user who waits for an answer, put there in the round before.
use andiodine.Common.{ℕ, true, List, [], ◌∷◌, ◌++◌, All, replicate, some}
use andiodine.User.{User, zero_query}
use andiodine.User.Example.{alice}
use andiodine.Hostname.Encoders.{base64_encoder}
use andiodine.Server.Request.{Config}
use andiodine.Server.Loop.{nothing, round}
use andiodine.Server.Loop.Realsoon.{IsAnswered, round-IsAnswered}

abbrev config : Config
config = record {
  check_ip = true;
  my_ip = 0x0100000a;
  my_mtu = 1130;
  netmask = 27;
  ns_ip = 0;
  password = [];
  topdomain = b't' ∷ b'.' ∷ b'd' ∷ [];
}

abbrev waiting_users : List User
waiting_users =
    record alice { q_sendrealsoon = record zero_query { id = 9 }; q_sendrealsoon_new = true }
    ∷ record alice { tun_ip = 5 }
    ∷ []

-- A packet for the other user comes from the tun device in the same round.
abbrev from_tun : List ℕ
from_tun = replicate 20 0 ++ (5 ∷ 0 ∷ 0 ∷ 0 ∷ [])

round-IsAnswered_example :
    All
      (IsAnswered 10)
      (round
        (λ bytes. bytes)
        (λ bytes. bytes)
        some
        base64_encoder
        config
        10
        3
        waiting_users
        (some from_tun)
        nothing).0
round-IsAnswered_example =
    round-IsAnswered (λ bytes. bytes) (λ bytes. bytes) some base64_encoder config 10 3 waiting_users
      (some from_tun)
