-- ===== src/Server/SendChunk/Frame.antt =====
-- What remembering a query leaves as it is: all about the packets to send.
use andiodine.Common.{Bool}
use andiodine.Common.{ℕ, ◌+◌, ◌≤◌, ◌≡◌, refl, ap, sym, ◌∙◌, ◌||◌, ltb, ◌==◌}
use andiodine.Common.{List, length, get_or, Option-cases, Bool-cases, inl, inr, drop}
use andiodine.Common.{subst, ◌<◌, All}
use andiodine.User.{outpacketq_len, User, Query, Packet}
use andiodine.Codec.Base32
use andiodine.Server.DnsCache.{save_to_dnscache, answer_size}
use andiodine.Server.QueryMemory.{save_to_qmem_pingordata, save_ping, before_dot}
use andiodine.Server.Outpacket.Ack.{backlog}
use andiodine.Server.Outpacket.Queue.{IsValid, Fits}
use andiodine.Server.SendChunk.{
  QueryAt, at_q, at_q_sendrealsoon, set_query, query_at, use_query, duplicate,
}

-- All that the queue of packets is made of, `lazy`, and what limits the next chunk.
abbrev pub sending : User → Packet × List Packet × ℕ × ℕ × Bool × ℕ × ℕ × Packet
sending u = (
  u.outpacket, u.outpacketq, u.outpacketq_nexttouse, u.outpacketq_filled, u.lazy, u.fragsize,
  u.outfragresent, u.inpacket,
)

save_to_dnscache-sending :
    (u : User) (q : Query) (answer : List ℕ) (n : ℕ)
    → sending (save_to_dnscache u q answer n) ≡ sending u
unfolding save_to_dnscache
save_to_dnscache-sending u q answer n = elim (Bool-cases (ltb answer_size n)) [
  | inl long ↦ rw long refl
  | inr short ↦ rw short refl
]

save_ping-sending : (u : User) (q : Query) (cmc : List ℕ) → sending (save_ping u q cmc) ≡ sending u
save_ping-sending u q cmc = elim (Bool-cases (ltb (length cmc) 4)) [
  | inl short ↦ rw short refl
  | inr long ↦ rw long refl
]

save_to_qmem_pingordata-sending :
    (u : User) (q : Query) → sending (save_to_qmem_pingordata u q) ≡ sending u
unfolding save_to_qmem_pingordata
save_to_qmem_pingordata-sending u q =
    let ping = get_or q.name 0 0 == b'P' || get_or q.name 0 0 == b'p' in
    elim (Bool-cases ping) [
      | inl is_ping ↦ elim (Option-cases (before_dot q.name)) [
        | inl no_dot ↦ rw (is_ping, no_dot) refl
        | inr (w, dot) ↦ rw (is_ping, dot) (save_ping-sending u q (Base32.decode 8 (drop 1 w)))
      ]
      | inr is_data ↦ elim (Bool-cases (ltb (length q.name) 5)) [
        | inl short ↦ rw (is_data, short) refl
        | inr long ↦ rw (is_data, long) refl
      ]
    ]

set_query-sending : (at : QueryAt) (q : Query) (u : User) → sending (set_query at q u) ≡ sending u
set_query-sending at_q q u = refl
set_query-sending at_q_sendrealsoon q u = refl

pub use_query-sending :
    (at : QueryAt) (pkt : List ℕ) (n : ℕ) (u : User) → sending (use_query at pkt n u) ≡ sending u
unfolding use_query
use_query-sending at pkt n u =
    let q = duplicate (query_at at u) in
    set_query-sending at _ _
    ∙ save_to_dnscache-sending (save_to_qmem_pingordata (set_query at q u) q) q pkt n
    ∙ save_to_qmem_pingordata-sending (set_query at q u) q
    ∙ set_query-sending at q u

pub backlog-sending : (u u' : User) → sending u ≡ sending u' → backlog u ≡ backlog u'
backlog-sending u u' e =
    ap
      (λ s. backlog (record u {
        outpacket = s.0;
        outpacketq = s.1;
        outpacketq_nexttouse = s.2;
        outpacketq_filled = s.3;
      }))
      e

pub IsValid-sending : (u u' : User) → sending u ≡ sending u' → IsValid u → IsValid u'
IsValid-sending u u' e v =
    let packets : u.outpacketq ≡ u'.outpacketq = ap (λ s. s.1) e in
    let packet : u.outpacket ≡ u'.outpacket = ap (λ s. s.0) e in
    record {
      slots = ap length (sym packets) ∙ v.slots;
      next_in = subst (λ (n : ℕ). n < outpacketq_len) (ap (λ s. s.2) e) v.next_in;
      filled_in = subst (λ (n : ℕ). n ≤ outpacketq_len) (ap (λ s. s.3) e) v.filled_in;
      fits = subst (All Fits) packets v.fits;
      current = subst Fits packet v.current;
      progress = subst (λ p. p.offset + p.sentlen ≤ p.len) packet v.progress;
    }
