-- ===== src/Server/DnsCache.antt =====
-- The cache of the answers sent last, from which a repeated query is answered: iodined.c.
pub mod Recent
mod Tests
use andiodine.Common.{ℕ, zero, suc, ◌+◌, Bool, true, false, ◌||◌, not, ltb, leb, ◌==◌, List, []}
use andiodine.Common.{if◌then◌else◌, Option, none, some, take, get_or, set, same_bytes}
use andiodine.Common.RingLog.{next_slot, slot_back}
use andiodine.User.{Query, User, CachedAnswer, Reply, zero_query, memcpy, dnscache_len}

-- `sizeof(users[userid].dnscache_answer[fill])`
abbrev pub answer_size : ℕ
answer_size = 4096

abbrev pub zero_answer : CachedAnswer
zero_answer = record { query = zero_query; answer = []; answerlen = 0 }

unfoldable pub save_to_dnscache : User → Query → List ℕ → ℕ → User
save_to_dnscache u q answer answerlen =
    let fill = next_slot dnscache_len u.dnscache_lastfilled in
    let old = get_or u.dnscache fill zero_answer in
    if ltb answer_size answerlen then u else record u {
      dnscache = set u.dnscache fill (record {
        query = q;
        answer = memcpy old.answer (take answerlen answer);
        answerlen = answerlen;
      });
      dnscache_lastfilled = fill;
    }

-- The three `continue`s of the loop: the slot holds no answer to this query.
unfoldable pub skips : CachedAnswer → Query → Bool
skips e q =
    e.query.id == 0
    || (e.answerlen == 0
        || (not (e.query.qtype == q.qtype) || not (same_bytes e.query.name q.name)))

-- The loop from round `i` on, with `k` rounds left.
unfoldable pub find_answer : User → Query → (k i : ℕ) → Option CachedAnswer
find_answer u q zero i = none
find_answer u q (suc k) i =
    let e = get_or u.dnscache (slot_back dnscache_len u.dnscache_lastfilled i) zero_answer in
    let rest = find_answer u q k (suc i) in if skips e q then rest else some e

-- A match: the reply that is sent, and the query, which is used up.
abbrev pub respond : User → Query → Option CachedAnswer → Option (Reply × Query)
respond u q none = none
respond u q (some e) = some (
  record { to = q; payload = take e.answerlen e.answer; encoding = u.downenc },
  record q { id = 0 },
)

-- `none`: this is a new query.
unfoldable pub answer_from_dnscache : User → Query → Option (Reply × Query)
answer_from_dnscache u q = respond u q (find_answer u q dnscache_len 0)
