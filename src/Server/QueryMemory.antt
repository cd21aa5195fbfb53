-- ===== src/Server/QueryMemory.antt =====
-- The memory of the queries seen last, by which a repeated query is dropped: iodined.c.
pub mod Seen
pub mod Detection
mod Tests
use andiodine.Common.{ℕ, zero, suc, ◌+◌, Bool, true, false, ◌||◌, ◌&&◌, not, ltb, leb, ◌==◌}
use andiodine.Common.{List, [], ◌∷◌, if◌then◌else◌, Option, none, some, length, take, drop, get_or}
use andiodine.Common.{set, same_bytes}
use andiodine.Common.RingLog.{next_slot}
use andiodine.Codec.Base32
use andiodine.User.{Query, User, SeenQuery, Reply, t_unset, qmemping_len, qmemdata_len}

abbrev pub zero_seen : SeenQuery
zero_seen = record { cmc = []; seen_type = 0 }

-- `qmem_cmc` and `qmem_type` are the slots of `qmem`; the result is these and `*qmem_lastfilled`.
unfoldable pub save_to_qmem :
    List SeenQuery → (qmem_len lastfilled : ℕ) → List ℕ → ℕ → List SeenQuery × ℕ
save_to_qmem qmem qmem_len lastfilled cmc_to_add type_to_add =
    let fill = next_slot qmem_len lastfilled in
    (set qmem fill (record { cmc = take 4 cmc_to_add; seen_type = type_to_add }), fill)

-- `name[i + 1]` in lower case.
unfoldable pub cmc_char : List ℕ → ℕ → ℕ
cmc_char name i = let c = get_or name (i + 1) 0 in if leb b'A' c && leb c b'Z' then c + 32 else c

-- The four chars behind the first one.
abbrev pub data_cmc : List ℕ → List ℕ
data_cmc name = cmc_char name 0 ∷ cmc_char name 1 ∷ cmc_char name 2 ∷ cmc_char name 3 ∷ []

-- What stands before the first '.', if there is one: `strchr(name, '.')`.
abbrev pub before_dot : List ℕ → Option (List ℕ)
before_dot [] = none
before_dot (c ∷ cs) =
    let rest = before_dot cs in
    if c == b'.' then some [] else elim rest [ none ↦ none | some w ↦ some (c ∷ w) ]

abbrev pub save_ping : User → Query → List ℕ → User
save_ping u q cmc =
    let (qmem, fill) = save_to_qmem u.qmemping qmemping_len u.qmemping_lastfilled cmc q.qtype in
    if ltb (length cmc) 4 then u else record u { qmemping = qmem; qmemping_lastfilled = fill }

-- The decoder has room for the eight bytes of `cmc`.
unfoldable pub save_to_qmem_pingordata : User → Query → User
save_to_qmem_pingordata u q =
    let first = get_or q.name 0 0 in
    let (qmem, fill) =
      save_to_qmem u.qmemdata qmemdata_len u.qmemdata_lastfilled (data_cmc q.name) q.qtype in
    if first == b'P' || first == b'p'
    then elim (before_dot q.name) [ none ↦ u | some w ↦ save_ping u q (Base32.decode 8 (drop 1 w)) ]
    else if ltb (length q.name) 5
    then u
    else record u { qmemdata = qmem; qmemdata_lastfilled = fill }

-- The slot is in use, and holds this query.
unfoldable pub matches : ℕ → List ℕ → SeenQuery → Bool
matches qtype cmc s =
    not (s.seen_type == t_unset) && (s.seen_type == qtype && same_bytes s.cmc (take 4 cmc))

-- The loop from slot `i` on, with `k` slots left.
abbrev pub scan : List SeenQuery → ℕ → List ℕ → (k i : ℕ) → Bool
scan qmem qtype cmc zero i = false
scan qmem qtype cmc (suc k) i =
    let rest = scan qmem qtype cmc k (suc i) in
    if matches qtype cmc (get_or qmem i zero_seen) then true else rest

-- A duplicate: the illegal reply that is sent, and the query, which is used up.
abbrev pub illegal_reply : Query → Reply × Query
illegal_reply q = (record { to = q; payload = b'x' ∷ []; encoding = b'T' }, record q { id = 0 })

-- `none`: the query is not a duplicate.
unfoldable pub answer_from_qmem :
    Query → List SeenQuery → (qmem_len : ℕ) → List ℕ → Option (Reply × Query)
answer_from_qmem q qmem qmem_len cmc_to_check =
    if scan qmem q.qtype cmc_to_check qmem_len 0 then some (illegal_reply q) else none

unfoldable pub answer_from_qmem_data : User → Query → Option (Reply × Query)
answer_from_qmem_data u q = answer_from_qmem q u.qmemdata qmemdata_len (data_cmc q.name)
