-- ===== src/Server/Waiting.antt =====
-- The queries that wait for an answer, when a data query or a ping comes in: the ends of both
-- branches of `handle_null_request` of iodined.c, with the user whose query it is.
pub mod NotLazy
pub mod Duplicates
mod Tests
use andiodine.Common.{ℕ, Bool, true, false, not, ◌&&◌, ◌||◌, ltb, ◌==◌, if◌then◌else◌, same_bytes}
use andiodine.Common.{List, [], ◌++◌, Option, none, some}
use andiodine.User.{Query, User, Reply}
use andiodine.Server.SendChunk.{QueryAt, at_q, at_q_sendrealsoon, send_chunk_or_dataless}

-- `q->type == w.type && !strcmp(q->name, w.name)` for a query `w` that waits.
abbrev pub same_query : Query → Query → Bool
same_query q w = not (w.id == 0) && (q.qtype == w.qtype && same_bytes q.name w.name)

-- The last duplicate is kept, and the answer will go to both.
abbrev pub with_duplicate : Query → Query → Query
with_duplicate w q = record w { id2 = q.id; from2 = q.from }

-- Duplicates of waiting queries; `none` if this is none.
unfoldable pub remember_duplicate : User → Query → Option User
remember_duplicate u q =
    if same_query q u.q && u.lazy
    then some (record u { q = with_duplicate u.q q })
    else if same_query q u.q_sendrealsoon
    then some (record u { q_sendrealsoon = with_duplicate u.q_sendrealsoon q })
    else none

-- A call of `send_chunk_or_dataless`; the last component is `didsend`, which is 0 again if another
-- packet is ready.
abbrev pub send_at : User → QueryAt → User × List Reply × Bool
send_at u at = let (u', out, more) = send_chunk_or_dataless u at in (u', out, not more)

-- A query that must be answered soon is answered now.
unfoldable pub send_soon : User → User × List Reply × Bool
send_soon u = if u.q_sendrealsoon.id == 0 then (u, [], false) else send_at u at_q_sendrealsoon

-- The waiting query becomes the one that is answered soon.
abbrev pub answer_soon : User → User
answer_soon u = record u {
  q_sendrealsoon = u.q;
  q_sendrealsoon_new = true;
  q = record u.q { id = 0 };
}

-- An earlier query must go, to make room for the new one.
unfoldable pub finish_waiting :
    User → (didsend upstream_ok lastfrag : Bool) → User × List Reply × Bool
finish_waiting u didsend upstream_ok lastfrag =
    if u.q.id == 0
    then (u, [], didsend)
    else if (ltb 0 u.outpacket.len && not didsend)
        || ((upstream_ok && (not lastfrag && not didsend))
            || ((not upstream_ok && not didsend) || not u.lazy))
    then send_at u at_q
    else (answer_soon u, [], true)

-- `memcpy(&users[userid].q, q, ...)` and `last_pkt = time(NULL)`
abbrev pub save_query : User → Query → ℕ → User
save_query u q now = record u { q = q; last_pkt = now }

abbrev pub sent_only : User × List Reply × Bool → User × List Reply
sent_only (u, out, didsend) = (u, out)

-- The ack of the fragment, if it is still to be sent.
unfoldable pub ack_upstream : User → (didsend upstream_ok lastfrag : Bool) → User × List Reply
ack_upstream u didsend upstream_ok lastfrag =
    if ltb 0 u.outpacket.len && not didsend
    then sent_only (send_at u at_q)
    else if not didsend || not u.lazy
    then if upstream_ok && lastfrag then (answer_soon u, []) else sent_only (send_at u at_q)
    else (u, [])

-- All that follows a fragment of data in query `q`.
unfoldable pub answer_data_query :
    User → Query → ℕ → (upstream_ok lastfrag : Bool) → User × List Reply
answer_data_query u q now upstream_ok lastfrag =
    let (a, soon, didsend) = send_soon u in
    let (b, waiting, didsend') = finish_waiting a didsend upstream_ok lastfrag in
    let (c, ack) = ack_upstream (save_query b q now) didsend' upstream_ok lastfrag in
    (c, soon ++ (waiting ++ ack))

-- The earlier query, when a ping comes in.
unfoldable pub finish_ping : User → User × List Reply × Bool
finish_ping u = if u.q.id == 0 then (u, [], false) else send_at u at_q

-- All that follows the ack in the ping `q`.
unfoldable pub answer_ping : User → Query → ℕ → User × List Reply
answer_ping u q now =
    let (a, soon, _) = send_soon u in
    let (b, waiting, didsend) = finish_ping a in
    let c = save_query b q now in
    let (d, now_sent, _) = send_at c at_q in
    if (not didsend && ltb 0 c.outpacket.len) || not c.lazy
    then (d, soon ++ (waiting ++ now_sent))
    else (c, soon ++ waiting)
