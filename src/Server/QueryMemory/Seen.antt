-- ===== src/Server/QueryMemory/Seen.antt =====
-- The memory as the list of the queries seen last: the order of its slots does not matter.
use andiodine.Common.{ℕ, zero, suc, ◌+◌, ◌≤◌, ◌<◌, ◌≡◌, ◌≢◌, refl, ap, sym, arith, subst}
use andiodine.Common.{Bool, true, false, ◌||◌, if◌then◌else◌, Bool-cases, inl, inr}
use andiodine.Common.{List, [], ◌∷◌, get_or, none, some}
use andiodine.Common.RingLog.{slot_back, slot_back-lt, recents_from}
use andiodine.User.{Query, SeenQuery}
use andiodine.Server.QueryMemory.{zero_seen, matches, scan, answer_from_qmem, illegal_reply}

-- Does one of these queries match?
abbrev pub any_match : ℕ → List ℕ → List SeenQuery → Bool
any_match qtype cmc [] = false
any_match qtype cmc (s ∷ ss) = matches qtype cmc s || any_match qtype cmc ss

-- The `k` queries seen last, the newest first.
abbrev pub seen : List SeenQuery → (qmem_len lastfilled k : ℕ) → List SeenQuery
seen qmem n last k = recents_from zero_seen n qmem last 0 k

module _ (qmem : List SeenQuery) (qtype : ℕ) (cmc : List ℕ) where
  abbrev SlotMatches : ℕ → Type 0
  SlotMatches j = matches qtype cmc (get_or qmem j zero_seen) ≡ true

  scan_finds : (k i j : ℕ) → i ≤ j → j < i + k → SlotMatches j → scan qmem qtype cmc k i ≡ true
  scan_finds zero i j lo hi h = absurd (omega arith)
  scan_finds (suc k) i j lo hi h = elim (Bool-cases (matches qtype cmc (get_or qmem i zero_seen))) [
    | inl here ↦ rw here refl
    | inr not_here ↦
        let ne : i ≢ j = λ e. cc in
        rw not_here (scan_finds k (suc i) j (omega arith) (omega arith) h)
  ]

  scan_sound : (k i : ℕ) → scan qmem qtype cmc k i ≡ true → (j : ℕ) × (j < i + k) × SlotMatches j
  scan_sound zero i e = cc
  scan_sound (suc k) i e = elim (Bool-cases (matches qtype cmc (get_or qmem i zero_seen))) [
    | inl here ↦ (i, omega arith, here)
    | inr not_here ↦ let (j, hi, h) = scan_sound k (suc i) (rw not_here at e) in (j, omega arith, h)
  ]

  module _ (n last : ℕ) where
    seen_finds :
        (k i j : ℕ)
        → i ≤ j
        → j < i + k
        → SlotMatches (slot_back n last j)
        → any_match qtype cmc (recents_from zero_seen n qmem last i k) ≡ true
    seen_finds zero i j lo hi h = absurd (omega arith)
    seen_finds (suc k) i j lo hi h =
        elim (Bool-cases (matches qtype cmc (get_or qmem (slot_back n last i) zero_seen))) [
          | inl here ↦ rw here refl
          | inr not_here ↦
              let ne : i ≢ j = λ e. cc in
              rw not_here (seen_finds k (suc i) j (omega arith) (omega arith) h)
        ]

    seen_sound :
        (k i : ℕ)
        → any_match qtype cmc (recents_from zero_seen n qmem last i k) ≡ true
        → (j : ℕ) × (j < i + k) × SlotMatches (slot_back n last j)
    seen_sound zero i e = cc
    seen_sound (suc k) i e =
        elim (Bool-cases (matches qtype cmc (get_or qmem (slot_back n last i) zero_seen))) [
          | inl here ↦ (i, omega arith, here)
          | inr not_here ↦
              let (j, hi, h) = seen_sound k (suc i) (rw not_here at e) in (j, omega arith, h)
        ]

    -- A longer list of the newest queries has all the matches of a shorter one.
    pub any_match-longer :
        (k k' : ℕ)
        → k ≤ k'
        → any_match qtype cmc (seen qmem n last k) ≡ true
        → any_match qtype cmc (seen qmem n last k') ≡ true
    any_match-longer k k' hk e =
        let (j, hj, h) = seen_sound k 0 e in seen_finds k' 0 j (omega arith) (omega arith) h

slot_back-involutive : (n last i : ℕ) → last < n → i < n → slot_back n last (slot_back n last i) ≡ i
slot_back-involutive n last i hl hi = ground arith

Bool-ext : (a b : Bool) → (a ≡ true → b ≡ true) → (b ≡ true → a ≡ true) → a ≡ b
Bool-ext true b f g = sym (f refl)
Bool-ext false true f g = g refl
Bool-ext false false f g = refl

scan-seen :
    (qmem : List SeenQuery) (n last qtype : ℕ) (cmc : List ℕ)
    → last < n
    → scan qmem qtype cmc n 0 ≡ any_match qtype cmc (seen qmem n last n)
scan-seen qmem n last qtype cmc hl =
    Bool-ext (scan qmem qtype cmc n 0) (any_match qtype cmc (seen qmem n last n))
      (λ e.
        let (j, hj, h) = scan_sound qmem qtype cmc n 0 e in
        seen_finds qmem qtype cmc n last n 0 (slot_back n last j) (omega arith)
          (omega (arith, slot_back-lt n last j hl (omega arith)))
          (subst (SlotMatches qmem qtype cmc) (sym (slot_back-involutive n last j hl (omega arith)))
            h))
      (λ e.
        let (j, hj, h) = seen_sound qmem qtype cmc n last n 0 e in
        scan_finds qmem qtype cmc n 0 (slot_back n last j) (omega arith)
          (omega (arith, slot_back-lt n last j hl (omega arith))) h)

-- With *qmem_lastfilled in range, a query is answered as a duplicate exactly if one of the
-- qmem_len queries remembered last matches, whatever the order of the slots.
pub answer_from_qmem-seen :
    (q : Query) (qmem : List SeenQuery) (qmem_len lastfilled : ℕ) (cmc : List ℕ)
    → lastfilled < qmem_len
    → answer_from_qmem q qmem qmem_len cmc ≡ (
        if any_match q.qtype cmc (seen qmem qmem_len lastfilled qmem_len)
        then some (illegal_reply q)
        else none)
unfolding answer_from_qmem
answer_from_qmem-seen q qmem n last cmc hl =
    ap (λ b. if b then some (illegal_reply q) else none) (scan-seen qmem n last q.qtype cmc hl)
