-- ===== src/Server/SendChunk/Used.antt =====
-- What every call of `send_chunk_or_dataless` does to the user and to the query.
use andiodine.Common.{if◌then◌else◌, [], ◌∷◌}
use andiodine.Common.{ℕ, ◌+◌, ◌≡◌, refl, ap, sym, ◌∙◌, arith, ◌&&◌}
use andiodine.Common.{ltb, ◌==◌, Bool-cases, inl, inr, List}
use mathlib.Core.List.{map}
use andiodine.User.{User, Query, Reply}
use andiodine.Server.Outpacket.{forget_outpacket, get_from_outpacketq, start_new_outpacket}
use andiodine.Server.Outpacket.Queue.{IsValid, get-IsValid}
use andiodine.Server.SendChunk.{QueryAt, at_q, at_q_sendrealsoon, query_at, set_query, drop_resent}
use andiodine.Server.SendChunk.{
  duplicate, replies, chunk_len, chunk_packet, count_sent, use_query, send_next,
}
use andiodine.Server.SendChunk.{send_chunk_or_dataless}
use andiodine.Server.SendChunk.Stable.{Stable, send_chunk-Stable}
use andiodine.Common.{Bool}
use andiodine.Server.SendChunk.Frame.{IsValid-sending, use_query-sending}
use andiodine.Server.SendChunk.Delivery.{send_next-replies, sent, forget_outpacket-IsValid}

drop_resent-IsValid : (u : User) → IsValid u → IsValid (drop_resent u)
unfolding drop_resent
drop_resent-IsValid u v = elim (Bool-cases (ltb 0 u.outpacket.len && ltb 5 u.outfragresent)) [
  | inl dropped ↦ rw dropped (get-IsValid (forget_outpacket u) (forget_outpacket-IsValid u v))
  | inr kept ↦ rw kept v
]

count_sent-IsValid : (u : User) → IsValid u → IsValid (count_sent u)
count_sent-IsValid u v = elim (Bool-cases (ltb 0 u.outpacket.len)) [
  | inl busy ↦ rw busy (record {
    slots = v.slots;
    next_in = v.next_in;
    filled_in = v.filled_in;
    fits = v.fits;
    current = v.current;
    progress = omega (arith, v.progress);
  })
  | inr idle ↦ rw idle v
]

any_sent-IsValid : (u : User) (at : QueryAt) → IsValid u → IsValid (sent u at)
any_sent-IsValid u at v =
    IsValid-sending (count_sent u) (sent u at)
      (sym (use_query-sending at (chunk_packet u) (chunk_len u + 2) (count_sent u)))
      (count_sent-IsValid u v)

send_next-IsValid : (u : User) (at : QueryAt) → IsValid u → IsValid (send_next u at).0
unfolding send_next
send_next-IsValid u at v =
    let w = any_sent-IsValid u at v in
    elim (Bool-cases (ltb 0 (chunk_len u) && (chunk_len u == (sent u at).outpacket.len))) [
      | inl all ↦
          rw all
            (get-IsValid (forget_outpacket (sent u at)) (forget_outpacket-IsValid (sent u at) w))
      | inr part ↦ rw part w
    ]

-- Every call keeps a user well formed, also when it gives a packet up or ends one.
pub send_chunk-IsValid :
    (u : User) (at : QueryAt) → IsValid u → IsValid (send_chunk_or_dataless u at).0
unfolding send_chunk_or_dataless
send_chunk-IsValid u at v = send_next-IsValid (drop_resent u) at (drop_resent-IsValid u v)

get_from_outpacketq-query :
    (at : QueryAt) (u : User) → query_at at (get_from_outpacketq u).0 ≡ query_at at u
unfolding get_from_outpacketq start_new_outpacket
get_from_outpacketq-query at_q u = elim (Bool-cases (u.outpacketq_filled == 0)) [
  | inl empty ↦ rw empty refl
  | inr ready ↦ rw ready refl
]
get_from_outpacketq-query at_q_sendrealsoon u = elim (Bool-cases (u.outpacketq_filled == 0)) [
  | inl empty ↦ rw empty refl
  | inr ready ↦ rw ready refl
]

query_at-set_query : (at : QueryAt) (q : Query) (u : User) → query_at at (set_query at q u) ≡ q
query_at-set_query at_q q u = refl
query_at-set_query at_q_sendrealsoon q u = refl

query_at-forget : (at : QueryAt) (u : User) → query_at at (forget_outpacket u) ≡ query_at at u
query_at-forget at_q u = refl
query_at-forget at_q_sendrealsoon u = refl

use_query-used :
    (at : QueryAt) (pkt : List ℕ) (n : ℕ) (u : User) → (query_at at (use_query at pkt n u)).id ≡ 0
unfolding use_query
use_query-used at pkt n u = ap (λ q. q.id) (query_at-set_query at _ _)

send_next-used : (u : User) (at : QueryAt) → (query_at at (send_next u at).0).id ≡ 0
unfolding send_next
send_next-used u at =
    let used = use_query-used at (chunk_packet u) (chunk_len u + 2) (count_sent u) in
    elim (Bool-cases (ltb 0 (chunk_len u) && (chunk_len u == (sent u at).outpacket.len))) [
      | inl all ↦ rw all (
          ap (λ q. q.id)
            (get_from_outpacketq-query at (forget_outpacket (sent u at))
              ∙ query_at-forget at (sent u at))
          ∙ used)
      | inr part ↦ rw part used
    ]

-- After every call the query that was answered has id 0, so it is not answered again.
pub send_chunk-used :
    (u : User) (at : QueryAt) → (query_at at (send_chunk_or_dataless u at).0).id ≡ 0
unfolding send_chunk_or_dataless
send_chunk-used u at = send_next-used (drop_resent u) at

lazy-Stable : (b : Bool) → Stable (λ u. u.lazy ≡ b)
lazy-Stable b = record {
  of_outpackets = λ u p resent ring next filled h. h;
  of_dnscache = λ u cache last h. h;
  of_qmemping = λ u qmem last h. h;
  of_qmemdata = λ u qmem last h. h;
  of_query = set_query-lazy b;
}
  where
    set_query-lazy :
        (b : Bool) (u : User) (at : QueryAt) (q : Query) → u.lazy ≡ b → (set_query at q u).lazy ≡ b
    set_query-lazy b u at_q q h = h
    set_query-lazy b u at_q_sendrealsoon q h = h

-- The user's `lazy` is not touched.
pub send_chunk-lazy : (u : User) (at : QueryAt) → (send_chunk_or_dataless u at).0.lazy ≡ u.lazy
send_chunk-lazy u at = send_chunk-Stable (λ w. w.lazy ≡ u.lazy) (lazy-Stable u.lazy) u at refl

drop_resent-query : (at : QueryAt) (u : User) → query_at at (drop_resent u) ≡ query_at at u
unfolding drop_resent
drop_resent-query at u = elim (Bool-cases (ltb 0 u.outpacket.len && ltb 5 u.outfragresent)) [
  | inl dropped ↦
      rw dropped (get_from_outpacketq-query at (forget_outpacket u) ∙ query_at-forget at u)
  | inr kept ↦ rw kept refl
]

-- The queries that are answered: the one that `q` points to and its duplicate, if it has one.
abbrev pub targets : Query → List Query
targets q = if q.id2 == 0 then q ∷ [] else q ∷ duplicate q ∷ []

replies-targets :
    (q : Query) (pkt : List ℕ) (downenc : ℕ)
    → map (λ (r : Reply). r.to) (replies q pkt downenc) ≡ targets q
replies-targets q pkt downenc = elim (Bool-cases (q.id2 == 0)) [
  | inl single ↦ rw single refl
  | inr twice ↦ rw twice refl
]

-- A reply goes to each of them.
pub send_chunk-replies :
    (u : User) (at : QueryAt)
    → map (λ (r : Reply). r.to) (send_chunk_or_dataless u at).1 ≡ targets (query_at at u)
unfolding send_chunk_or_dataless
send_chunk-replies u at =
    let fresh = drop_resent u in
    ap (map (λ (r : Reply). r.to)) (send_next-replies fresh at)
    ∙ replies-targets (query_at at fresh) (chunk_packet fresh) fresh.downenc
    ∙ ap targets (drop_resent-query at u)
