-- ===== src/Server/Request/Fresh.antt =====
-- A new user gets nothing of who had the slot before: `handle_null_request` of iodined.c, command
-- V.
use andiodine.Common.{
  ℕ, zero, suc, ◌+◌, ◌<◌, ◌≡◌, refl, ap, sym, subst, ◌∙◌, arith, true, false, ◌==◌,
}
use andiodine.Common.{List, [], ◌∷◌, length, get_or, Option, none, some}
use andiodine.Common.RingLog.{slot_back}
use andiodine.Common.Search.{find_first, find_first-FirstAt, modify, get_or-modify_self}
use mathlib.Core.List.{map}
use andiodine.User.{
  Query, User, CachedAnswer, SeenQuery, qmemping_len, qmemdata_len, dnscache_len, t_unset,
}
use andiodine.Server.Users.{available, taken, take_slot, find_available_user}
use andiodine.Server.Users.Login.{find_available_user-index}
use andiodine.Server.Outpacket.Ack.{backlog}
use andiodine.Server.DnsCache.{zero_answer, skips, find_answer, answer_from_dnscache}
use andiodine.Server.QueryMemory.{
  zero_seen, matches, scan, answer_from_qmem, answer_from_qmem_data, data_cmc,
}
use andiodine.Server.Request.Login.{
  forget_answer, forget_seen, new_user, client_version, version, accept_version, handle_version,
}

-- Nothing is there of what was sent to or received from a user: no packet is on its way in either
-- direction, nothing is remembered, no query waits, and nobody is logged in.
pub record IsFresh (u : User) : Type 0 where
  pub no_packet : backlog u ≡ ([], [])
  pub not_sent :
      (u.outpacket.len ≡ 0)
      × (u.outpacket.offset ≡ 0)
      × (u.outpacket.sentlen ≡ 0)
      × (u.outpacket.seqno ≡ 0)
      × (u.outpacket.fragment ≡ 0)
      × (u.outfragresent ≡ 0)
  pub not_received :
      (u.inpacket.len ≡ 0)
      × (u.inpacket.offset ≡ 0)
      × (u.inpacket.seqno ≡ 0)
      × (u.inpacket.fragment ≡ 0)
  pub no_query :
      (u.q.id ≡ 0)
      × (u.q.id2 ≡ 0)
      × (u.q_sendrealsoon.id ≡ 0)
      × (u.q_sendrealsoon.id2 ≡ 0)
      × (u.q_sendrealsoon_new ≡ false)
  pub no_answer : (q : Query) → answer_from_dnscache u q ≡ none
  pub no_ping : (q : Query) (cmc : List ℕ) → answer_from_qmem q u.qmemping qmemping_len cmc ≡ none
  pub no_data : (q : Query) → answer_from_qmem_data u q ≡ none
  pub not_logged_in : (u.authenticated ≡ false) × (u.authenticated_raw ≡ false)

get_or-map :
    (s : List SeenQuery) (i : ℕ)
    → i < length s
    → (get_or (map forget_seen s) i zero_seen).seen_type ≡ t_unset
get_or-map [] i h = absurd (omega arith)
get_or-map (x ∷ xs) zero h = refl
get_or-map (x ∷ xs) (suc i) h = get_or-map xs i (omega arith)

forgotten_slot :
    (qtype : ℕ) (cmc : List ℕ) (s : SeenQuery) → s.seen_type ≡ t_unset → matches qtype cmc s ≡ false
unfolding matches
forgotten_slot qtype cmc s e = rw e refl

scan-forgotten :
    (s : List SeenQuery) (qtype : ℕ) (cmc : List ℕ) (k i : ℕ)
    → i + k < suc (length s)
    → scan (map forget_seen s) qtype cmc k i ≡ false
scan-forgotten s qtype cmc zero i h = refl
scan-forgotten s qtype cmc (suc k) i h =
    rw
      (forgotten_slot qtype cmc (get_or (map forget_seen s) i zero_seen)
        (get_or-map s i (omega arith)))
      (scan-forgotten s qtype cmc k (suc i) (omega arith))

qmem-forgotten :
    (s : List SeenQuery) (q : Query) (cmc : List ℕ) (n : ℕ)
    → length s ≡ n
    → answer_from_qmem q (map forget_seen s) n cmc ≡ none
unfolding answer_from_qmem
qmem-forgotten s q cmc n e = rw (scan-forgotten s q.qtype cmc n 0 (omega arith)) refl

get_or-forget_answer :
    (s : List CachedAnswer) (i : ℕ) → (get_or (map forget_answer s) i zero_answer).query.id ≡ 0
get_or-forget_answer [] i = refl
get_or-forget_answer (x ∷ xs) zero = refl
get_or-forget_answer (x ∷ xs) (suc i) = get_or-forget_answer xs i

skips-forgotten : (e : CachedAnswer) (q : Query) → e.query.id ≡ 0 → skips e q ≡ true
unfolding skips
skips-forgotten e q h = rw h refl

find_answer-forgotten :
    (u : User) (s : List CachedAnswer) (q : Query) (k i : ℕ)
    → u.dnscache ≡ map forget_answer s
    → find_answer u q k i ≡ none
unfolding find_answer
find_answer-forgotten u s q zero i e = refl
find_answer-forgotten u s q (suc k) i e =
    let j = slot_back dnscache_len u.dnscache_lastfilled i in
    let gone : skips (get_or u.dnscache j zero_answer) q ≡ true =
      rw e (
        skips-forgotten (get_or (map forget_answer s) j zero_answer) q
          (get_or-forget_answer s j)) in
    rw gone (find_answer-forgotten u s q k (suc i) e)

dnscache-forgotten :
    (u : User) (s : List CachedAnswer) (q : Query)
    → u.dnscache ≡ map forget_answer s
    → answer_from_dnscache u q ≡ none
unfolding answer_from_dnscache
dnscache-forgotten u s q e = rw (find_answer-forgotten u s q dnscache_len 0 e) refl

new_user-IsFresh :
    (now seed : ℕ) (q : Query) (u : User)
    → length u.qmemping ≡ qmemping_len
    → length u.qmemdata ≡ qmemdata_len
    → IsFresh (new_user seed q (taken now u))
unfolding new_user answer_from_qmem_data
new_user-IsFresh now seed q u pings datas = record {
  no_packet = refl;
  not_sent = (refl, refl, refl, refl, refl, refl);
  not_received = (refl, refl, refl, refl);
  no_query = (refl, refl, refl, refl, refl);
  no_answer = λ q'. dnscache-forgotten (new_user seed q (taken now u)) u.dnscache q' refl;
  no_ping = λ q' cmc. qmem-forgotten u.qmemping q' cmc qmemping_len pings;
  no_data = λ q'. qmem-forgotten u.qmemdata q' (data_cmc q'.name) qmemdata_len datas;
  not_logged_in = (refl, refl);
}

length-modify {ℓ} :
    {A : Type ℓ} (xs : List A) (i : ℕ) (f : A → A) → length (modify xs i f) ≡ length xs
length-modify [] i f = refl
length-modify (x ∷ xs) zero f = refl
length-modify (x ∷ xs) (suc i) f = ap suc (length-modify xs i f)

-- What the slot of a new login becomes.
new_slot :
    (now i : ℕ) (users : List User) (d : User) (f : User → User)
    → (find_available_user now users).1 ≡ some i
    → get_or (modify (find_available_user now users).0 i f) i d ≡ f (taken now (get_or users i d))
unfolding find_available_user
new_slot now i users d f e =
    let found : find_first (available now) users ≡ some i =
      sym (find_available_user-index now users) ∙ e in
    let (hi, here, before) = rw found at (find_first-FirstAt (available now) d users) in
    subst (λ r. get_or (modify r.0 i f) i d ≡ f (taken now (get_or users i d)))
      (sym (ap (take_slot now users) found))
      (get_or-modify_self (modify users i (taken now)) i f d
          (rw (length-modify users i (taken now)) hi)
        ∙ ap f (get_or-modify_self users i (taken now) d hi))

accepted :
    (seed i : ℕ) (q : Query) (r : List User × Option ℕ)
    → r.1 ≡ some i
    → (accept_version seed q r).0 ≡ modify r.0 i (new_user seed q)
accepted seed i q (users, none) e = cc e
accepted seed i q (users, some j) e = ap (λ (k : ℕ). modify users k (new_user seed q)) (cc e)

-- If a version greeting with the right version gets a slot, whose memories have their full
-- length, then nothing is left there of the user before: the queue is empty, the counters of the
-- packet to send and of the packet being received are 0, neither stored query nor its duplicate
-- has an id, no answer is found in the cache, no query is taken for a repeated one, and the slot
-- is not authenticated in either way.
pub handle_version-IsFresh :
    (now seed i : ℕ) (users : List User) (q : Query) (unpacked : List ℕ) (d : User)
    → client_version unpacked ≡ version
    → (find_available_user now users).1 ≡ some i
    → length (get_or users i d).qmemping ≡ qmemping_len
    → length (get_or users i d).qmemdata ≡ qmemdata_len
    → IsFresh (get_or (handle_version now seed users q unpacked).0 i d)
unfolding handle_version
handle_version-IsFresh now seed i users q unpacked d same found pings datas =
    let test : (client_version unpacked == version) ≡ true = ground arith in
    let slot =
      ap (λ us. get_or us i d) (accepted seed i q (find_available_user now users) found)
      ∙ new_slot now i users d (new_user seed q) found in
    rw test (subst IsFresh (sym slot) (new_user-IsFresh now seed q (get_or users i d) pings datas))
