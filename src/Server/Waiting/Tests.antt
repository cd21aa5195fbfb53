-- ===== src/Server/Waiting/Tests.antt =====
-- Waiting queries at a concrete user.
use andiodine.Common.{ℕ, List, [], ◌∷◌}
use andiodine.User.{Query, User, zero_query}
use andiodine.User.Example.{alice}

abbrev query : ℕ → List ℕ → Query
query id from = record zero_query { name = b'0' ∷ b'a' ∷ []; qtype = 10; id = id; from = from }

-- A query waits, and comes again under another id.
abbrev erin : User
erin = record alice { q = query 7 (1 ∷ []) }
