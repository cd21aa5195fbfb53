-- ===== src/Server/DnsCache/Tests.antt =====
-- The answer cache at a concrete user.
use andiodine.Common.{ℕ, ◌≡◌, refl, arith, List, [], ◌∷◌, some}
use andiodine.User.{Query, User, zero_query}
use andiodine.User.Example.{alice}
use andiodine.Server.DnsCache.{save_to_dnscache, answer_from_dnscache}
use andiodine.Server.DnsCache.Recent.{IsValid}
use andiodine.Server.DnsCache.Recent.{resend_after_save}

abbrev query : List ℕ → ℕ → Query
query name id = record zero_query { name = name; qtype = 16; id = id }

-- The ring is full, and the answer stored last stands in the last slot.
abbrev bob : User
bob = record alice {
  dnscache =
      record { query = query (b'a' ∷ []) 1; answer = 1 ∷ []; answerlen = 1 }
      ∷ record { query = query (b'b' ∷ []) 2; answer = 2 ∷ []; answerlen = 1 }
      ∷ record { query = query (b'c' ∷ []) 3; answer = 3 ∷ []; answerlen = 1 }
      ∷ record { query = query (b'd' ∷ []) 4; answer = 4 ∷ []; answerlen = 1 }
      ∷ [];
  dnscache_lastfilled = 3;
}

bob-IsValid : IsValid bob
bob-IsValid = record { slots = refl; last_in = omega arith }

resend_after_save_example :
    answer_from_dnscache
      (save_to_dnscache bob (query (b'e' ∷ []) 5) (7 ∷ 8 ∷ []) 2)
      (query (b'e' ∷ []) 9)
    ≡ some (
      record { to = query (b'e' ∷ []) 9; payload = 7 ∷ 8 ∷ []; encoding = b'T' },
      query (b'e' ∷ []) 0,
    )
resend_after_save_example =
    resend_after_save bob (query (b'e' ∷ []) 5) (query (b'e' ∷ []) 9) (7 ∷ 8 ∷ []) bob-IsValid
      (omega arith) (omega arith) (omega arith) refl refl
