-- ===== src/Server/QueryMemory/Tests.antt =====
-- The query memory at a concrete user.
use andiodine.Common.{ℕ, ◌≡◌, refl, arith, List, [], ◌∷◌, some, replicate}
use andiodine.User.{Query, User, zero_query}
use andiodine.User.Example.{alice}
use andiodine.Server.QueryMemory.{zero_seen, save_to_qmem, answer_from_qmem}
use andiodine.Server.QueryMemory.{data_cmc, cmc_char}
use andiodine.Server.QueryMemory.Detection.{save_all, duplicate_detected}

abbrev data_query : List ℕ → Query
data_query name = record zero_query { name = name; qtype = 10 }

abbrev carol : User
carol = record alice { qmemdata = replicate 15 zero_seen; qmemping = replicate 30 zero_seen }

duplicate_detected_example :
    let q = data_query (b'0' ∷ []) in
    let m =
      save_all 15
        ((5 ∷ 6 ∷ 7 ∷ 8 ∷ [], 10) ∷ [])
        (save_to_qmem carol.qmemdata 15 0 (1 ∷ 2 ∷ 3 ∷ 4 ∷ []) 10) in
    answer_from_qmem q m.0 15 (1 ∷ 2 ∷ 3 ∷ 4 ∷ [])
    ≡ some (record { to = q; payload = b'x' ∷ []; encoding = b'T' }, record q { id = 0 })
duplicate_detected_example =
    duplicate_detected (data_query (b'0' ∷ [])) 15 (carol.qmemdata, 0) (1 ∷ 2 ∷ 3 ∷ 4 ∷ [])
      ((5 ∷ 6 ∷ 7 ∷ 8 ∷ [], 10) ∷ []) (refl, omega arith) (omega arith) (omega arith)

same_cmc :
    data_cmc (b'0' ∷ b'A' ∷ b'b' ∷ b'c' ∷ b'd' ∷ b'X' ∷ [])
    ≡ data_cmc (b'0' ∷ b'a' ∷ b'b' ∷ b'C' ∷ b'd' ∷ b'x' ∷ [])
unfolding cmc_char
same_cmc = refl
