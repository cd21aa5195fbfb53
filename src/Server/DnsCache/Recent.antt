-- ===== src/Server/DnsCache/Recent.antt =====
-- The cache is the list of the four answers sent last, the newest first.
use andiodine.Common.{ℕ, zero, suc, ◌≤◌, ◌<◌, ◌≡◌, ◌≢◌, refl, ap, ◌∙◌, arith}
use andiodine.Common.{true, false, ltb, if◌then◌else◌, Option, none, some}
use andiodine.Common.{Bool-cases, inl, inr, ◌⊎◌, sym}
use andiodine.Common.{List, [], ◌∷◌, length, take, get_or, set, length-set, same_bytes}
use andiodine.Common.{take_all, same_bytes_refl, eq_of_same_bytes}
use andiodine.Common.RingLog.{next_slot, next_slot-lt, slot_back, recents_from, recents_from-save}
use andiodine.User.{Query, User, CachedAnswer, memcpy, dnscache_len, take-memcpy_of_le}
use andiodine.Server.DnsCache.{zero_answer, answer_size, save_to_dnscache, skips, find_answer}
use andiodine.Server.DnsCache.{answer_from_dnscache, respond}

pub record IsValid (u : User) : Type 0 where
  pub slots : length u.dnscache ≡ dnscache_len
  pub last_in : u.dnscache_lastfilled < dnscache_len

-- The `k` answers sent last.
abbrev pub newest : User → ℕ → List CachedAnswer
newest u k = recents_from zero_answer dnscache_len u.dnscache u.dnscache_lastfilled 0 k

-- The first answer to a query.
abbrev pub first_answer : Query → List CachedAnswer → Option CachedAnswer
first_answer q [] = none
first_answer q (e ∷ es) = if skips e q then first_answer q es else some e

find_answer-first :
    (u : User) (q : Query) (k i : ℕ)
    → find_answer u q k i
      ≡ first_answer q (recents_from zero_answer dnscache_len u.dnscache u.dnscache_lastfilled i k)
unfolding find_answer
find_answer-first u q zero i = refl
find_answer-first u q (suc k) i =
    let e = get_or u.dnscache (slot_back dnscache_len u.dnscache_lastfilled i) zero_answer in
    ap (λ r. if skips e q then r else some e) (find_answer-first u q k (suc i))

-- What is stored for an answer.
abbrev pub entry : User → Query → List ℕ → CachedAnswer
entry u q answer =
    let old = get_or u.dnscache (next_slot dnscache_len u.dnscache_lastfilled) zero_answer in
    record {
      query = q;
      answer = memcpy old.answer (take (length answer) answer);
      answerlen = length answer;
    }

saved : (u : User) (q : Query) (answer : List ℕ) → User
saved u q answer =
    let fill = next_slot dnscache_len u.dnscache_lastfilled in
    record u { dnscache = set u.dnscache fill (entry u q answer); dnscache_lastfilled = fill }

save_to_dnscache-fits :
    (u : User) (q : Query) (answer : List ℕ)
    → length answer ≤ answer_size
    → save_to_dnscache u q answer (length answer) ≡ saved u q answer
unfolding save_to_dnscache saved
save_to_dnscache-fits u q answer small =
    let b : ltb answer_size (length answer) ≡ false = ground arith in rw b refl

newest-saved :
    (u : User) (q : Query) (answer : List ℕ) (k : ℕ)
    → IsValid u
    → k < dnscache_len
    → newest (saved u q answer) (suc k) ≡ entry u q answer ∷ newest u k
unfolding saved
newest-saved u q answer k v hk =
    recents_from-save zero_answer dnscache_len u.dnscache (entry u q answer) u.dnscache_lastfilled k
      v.last_in hk (omega (arith, v.slots))

-- Storing an answer keeps the ring well formed, also an answer that is too long to be stored.
pub save_to_dnscache-IsValid :
    (u : User) (q : Query) (answer : List ℕ) (n : ℕ)
    → IsValid u
    → IsValid (save_to_dnscache u q answer n)
unfolding save_to_dnscache
save_to_dnscache-IsValid u q answer n v = elim (Bool-cases (ltb answer_size n)) [
  | inl long ↦ rw long v
  | inr short ↦ rw short (record {
    slots = length-set u.dnscache _ _ ∙ v.slots;
    last_in = next_slot-lt dnscache_len u.dnscache_lastfilled v.last_in;
  })
]

answer_from_dnscache-respond :
    (u : User) (q : Query)
    → answer_from_dnscache u q ≡ respond u q (first_answer q (newest u dnscache_len))
unfolding answer_from_dnscache
answer_from_dnscache-respond u q = ap (respond u q) (find_answer-first u q dnscache_len 0)

answer_from_saved :
    (u : User) (q q' : Query) (answer : List ℕ)
    → IsValid u
    → answer_from_dnscache (saved u q answer) q'
      ≡ respond u q' (first_answer q' (entry u q answer ∷ newest u 3))
unfolding saved
answer_from_saved u q q' answer v =
    answer_from_dnscache-respond (saved u q answer) q'
    ∙ ap (respond u q') (ap (first_answer q') (newest-saved u q answer 3 v (omega arith)))

skips-same :
    (u : User) (q q' : Query) (answer : List ℕ)
    → q.id ≢ 0
    → 0 < length answer
    → q'.name ≡ q.name
    → q'.qtype ≡ q.qtype
    → skips (entry u q answer) q' ≡ false
unfolding skips
skips-same u q q' answer hid pos hn ht =
    let same : same_bytes q.name q'.name ≡ true =
      ap (same_bytes q.name) hn ∙ same_bytes_refl q.name in
    ground arith

skips-other :
    (u : User) (q q' : Query) (answer : List ℕ)
    → (q'.name ≢ q.name) ⊎ (q'.qtype ≢ q.qtype)
    → skips (entry u q answer) q' ≡ true
unfolding skips
skips-other u q q' answer (inl hn) = elim (Bool-cases (same_bytes q.name q'.name)) [
  | inl same ↦ absurd (hn (sym (eq_of_same_bytes q.name q'.name same)))
  | inr differs ↦ ground arith
]
skips-other u q q' answer (inr ht) = ground arith

-- In a user with a well-formed cache, right after a non-empty answer of at most 4096 bytes to a
-- query with a nonzero id is stored, a query with the same name and type gets that answer in full
-- and is used up.
pub resend_after_save :
    (u : User) (q q' : Query) (answer : List ℕ)
    → IsValid u
    → q.id ≢ 0
    → 0 < length answer
    → length answer ≤ answer_size
    → q'.name ≡ q.name
    → q'.qtype ≡ q.qtype
    → answer_from_dnscache (save_to_dnscache u q answer (length answer)) q'
      ≡ some (record { to = q'; payload = answer; encoding = u.downenc }, record q' { id = 0 })
resend_after_save u q q' answer v hid pos small hn ht =
    let same : skips (entry u q answer) q' ≡ false = skips-same u q q' answer hid pos hn ht in
    ap (λ w. answer_from_dnscache w q') (save_to_dnscache-fits u q answer small)
    ∙ answer_from_saved u q q' answer v
    ∙ rw same (
        ap (λ p. some (record { to = q'; payload = p; encoding = u.downenc }, record q' { id = 0 }))
          (take-memcpy_of_le (length answer) _ answer (omega arith) ∙ take_all answer))

-- In a user with a well-formed cache, right after an answer of at most 4096 bytes is stored, a
-- query of another name or type is answered from the three answers stored before, the newest
-- first, and not from the fourth.
pub other_after_save :
    (u : User) (q q' : Query) (answer : List ℕ)
    → IsValid u
    → length answer ≤ answer_size
    → (q'.name ≢ q.name) ⊎ (q'.qtype ≢ q.qtype)
    → answer_from_dnscache (save_to_dnscache u q answer (length answer)) q'
      ≡ respond u q' (first_answer q' (newest u 3))
other_after_save u q q' answer v small other =
    let differs : skips (entry u q answer) q' ≡ true = skips-other u q q' answer other in
    ap (λ w. answer_from_dnscache w q') (save_to_dnscache-fits u q answer small)
    ∙ answer_from_saved u q q' answer v
    ∙ rw differs refl
