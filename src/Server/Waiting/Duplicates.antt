-- ===== src/Server/Waiting/Duplicates.antt =====
-- A relay that repeats a waiting query gets the answer under both ids.
use andiodine.Common.{ℕ}
use andiodine.Common.{List}
use andiodine.User.{Query, User}
use andiodine.Server.Waiting.{with_duplicate}

-- Where an answer to a query goes, and the id it has.
abbrev pub address : Query → ℕ × List ℕ
address q = (q.id, q.from)

-- The user once the duplicate of the query in `q` is remembered.
abbrev pub waiting_twice : User → Query → User
waiting_twice u q = record u { q = with_duplicate u.q q }
