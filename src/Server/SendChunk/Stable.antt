-- ===== src/Server/SendChunk/Stable.antt =====
-- What no part of `send_chunk_or_dataless` breaks: all that is not about the packets to send, the
-- queries and what is remembered of them.
use andiodine.Common.{ℕ, ◌+◌, ◌&&◌, ◌||◌, ltb, ◌==◌}
use andiodine.Common.{List, length, get_or, drop, Option-cases, Bool-cases, inl, inr}
use andiodine.User.{User, Query, Packet, CachedAnswer, SeenQuery}
use andiodine.Codec.Base32
use andiodine.Server.DnsCache.{save_to_dnscache, answer_size}
use andiodine.Server.QueryMemory.{save_to_qmem_pingordata, save_ping, before_dot}
use andiodine.Server.Outpacket.{forget_outpacket, get_from_outpacketq, start_new_outpacket}
use andiodine.Server.Outpacket.{save_to_outpacketq}
use andiodine.User.{outpacketq_len}
use andiodine.Common.{leb}
use andiodine.Server.SendChunk.{
  QueryAt, set_query, query_at, use_query, duplicate, drop_resent, count_sent, chunk_len,
  chunk_packet, send_next, send_chunk_or_dataless,
}
use andiodine.Server.SendChunk.Delivery.{sent}

-- A property of the user that the writes of the functions below keep.
pub record Stable {ℓ} (P : User → Type ℓ) : Type ℓ where
  pub of_outpackets :
      (u : User) (p : Packet) (resent : ℕ) (ring : List Packet) (next filled : ℕ)
      → P u
      → P (record u {
        outpacket = p;
        outfragresent = resent;
        outpacketq = ring;
        outpacketq_nexttouse = next;
        outpacketq_filled = filled;
      })
  pub of_dnscache :
      (u : User) (cache : List CachedAnswer) (last : ℕ)
      → P u
      → P (record u { dnscache = cache; dnscache_lastfilled = last })
  pub of_qmemping :
      (u : User) (qmem : List SeenQuery) (last : ℕ)
      → P u
      → P (record u { qmemping = qmem; qmemping_lastfilled = last })
  pub of_qmemdata :
      (u : User) (qmem : List SeenQuery) (last : ℕ)
      → P u
      → P (record u { qmemdata = qmem; qmemdata_lastfilled = last })
  pub of_query : (u : User) (at : QueryAt) (q : Query) → P u → P (set_query at q u)

module _ {ℓ} (P : User → Type ℓ) (stable : Stable P) where
  pub start_new_outpacket-Stable :
      (u : User) (bytes : List ℕ) (n : ℕ) → P u → P (start_new_outpacket u bytes n)
  unfolding start_new_outpacket
  start_new_outpacket-Stable u bytes n h =
      stable.of_outpackets u _ _ u.outpacketq u.outpacketq_nexttouse u.outpacketq_filled h

  pub save_to_outpacketq-Stable :
      (u : User) (bytes : List ℕ) (n : ℕ) → P u → P (save_to_outpacketq u bytes n).0
  unfolding save_to_outpacketq
  save_to_outpacketq-Stable u bytes n h =
      elim (Bool-cases (leb outpacketq_len u.outpacketq_filled)) [
        | inl full ↦ rw full h
        | inr room ↦
            rw room
              (stable.of_outpackets u u.outpacket u.outfragresent _ u.outpacketq_nexttouse _ h)
      ]

  get_from_outpacketq-Stable : (u : User) → P u → P (get_from_outpacketq u).0
  unfolding get_from_outpacketq start_new_outpacket
  get_from_outpacketq-Stable u h = elim (Bool-cases (u.outpacketq_filled == 0)) [
    | inl empty ↦ rw empty h
    | inr ready ↦ rw ready (stable.of_outpackets u _ _ u.outpacketq _ _ h)
  ]

  forget_outpacket-Stable : (u : User) → P u → P (forget_outpacket u)
  forget_outpacket-Stable u h =
      stable.of_outpackets u _ _ u.outpacketq u.outpacketq_nexttouse u.outpacketq_filled h

  drop_resent-Stable : (u : User) → P u → P (drop_resent u)
  unfolding drop_resent
  drop_resent-Stable u h = elim (Bool-cases (ltb 0 u.outpacket.len && ltb 5 u.outfragresent)) [
    | inl dropped ↦
        rw dropped (get_from_outpacketq-Stable (forget_outpacket u) (forget_outpacket-Stable u h))
    | inr kept ↦ rw kept h
  ]

  count_sent-Stable : (u : User) → P u → P (count_sent u)
  count_sent-Stable u h = elim (Bool-cases (ltb 0 u.outpacket.len)) [
    | inl busy ↦
        rw busy
          (stable.of_outpackets u _ _ u.outpacketq u.outpacketq_nexttouse u.outpacketq_filled h)
    | inr idle ↦ rw idle h
  ]

  save_to_dnscache-Stable :
      (u : User) (q : Query) (answer : List ℕ) (n : ℕ) → P u → P (save_to_dnscache u q answer n)
  unfolding save_to_dnscache
  save_to_dnscache-Stable u q answer n h = elim (Bool-cases (ltb answer_size n)) [
    | inl long ↦ rw long h
    | inr short ↦ rw short (stable.of_dnscache u _ _ h)
  ]

  save_ping-Stable : (u : User) (q : Query) (cmc : List ℕ) → P u → P (save_ping u q cmc)
  save_ping-Stable u q cmc h = elim (Bool-cases (ltb (length cmc) 4)) [
    | inl short ↦ rw short h
    | inr long ↦ rw long (stable.of_qmemping u _ _ h)
  ]

  save_to_qmem_pingordata-Stable : (u : User) (q : Query) → P u → P (save_to_qmem_pingordata u q)
  unfolding save_to_qmem_pingordata
  save_to_qmem_pingordata-Stable u q h =
      elim (Bool-cases (get_or q.name 0 0 == b'P' || get_or q.name 0 0 == b'p')) [
        | inl is_ping ↦ elim (Option-cases (before_dot q.name)) [
          | inl no_dot ↦ rw (is_ping, no_dot) h
          | inr (w, dot) ↦ rw (is_ping, dot) (save_ping-Stable u q (Base32.decode 8 (drop 1 w)) h)
        ]
        | inr is_data ↦ elim (Bool-cases (ltb (length q.name) 5)) [
          | inl short ↦ rw (is_data, short) h
          | inr long ↦ rw (is_data, long) (stable.of_qmemdata u _ _ h)
        ]
      ]

  use_query-Stable :
      (at : QueryAt) (pkt : List ℕ) (n : ℕ) (u : User) → P u → P (use_query at pkt n u)
  unfolding use_query
  use_query-Stable at pkt n u h =
      let q = duplicate (query_at at u) in
      let asked = set_query at q u in
      let remembered = save_to_qmem_pingordata asked q in
      stable.of_query (save_to_dnscache remembered q pkt n) at (record q { id = 0 })
        (save_to_dnscache-Stable remembered q pkt n
          (save_to_qmem_pingordata-Stable asked q (stable.of_query u at q h)))

  send_next-Stable : (u : User) (at : QueryAt) → P u → P (send_next u at).0
  unfolding send_next
  send_next-Stable u at h =
      let same : P (sent u at) =
        use_query-Stable at (chunk_packet u) (chunk_len u + 2) (count_sent u)
          (count_sent-Stable u h) in
      elim (Bool-cases (ltb 0 (chunk_len u) && (chunk_len u == (sent u at).outpacket.len))) [
        | inl all ↦ rw all (
            get_from_outpacketq-Stable (forget_outpacket (sent u at))
              (forget_outpacket-Stable (sent u at) same))
        | inr part ↦ rw part same
      ]

  pub send_chunk-Stable : (u : User) (at : QueryAt) → P u → P (send_chunk_or_dataless u at).0
  unfolding send_chunk_or_dataless
  send_chunk-Stable u at h = send_next-Stable (drop_resent u) at (drop_resent-Stable u h)
