-- ===== src/Server/QueryMemory/Detection.antt =====
-- A repeated query is detected as long as it is not overwritten in the memory.
use andiodine.Common.{ℕ, suc, ◌+◌, ◌≤◌, ◌<◌, ◌≡◌, ◌≢◌, refl, ap, ap₂, sym, ◌∙◌, arith}
use andiodine.Common.{Bool, true, false, ◌||◌, ◌==◌, ltb, if◌then◌else◌}
use andiodine.Common.{List, [], ◌∷◌, length, take, get_or, length-set, none, some}
use andiodine.Common.{same_bytes, same_bytes_refl}
use andiodine.Common.RingLog.{next_slot-lt, recents_from-save}
use andiodine.User.{Query, User, SeenQuery, t_unset, qmemdata_len}
use andiodine.Server.QueryMemory.{zero_seen, matches, save_to_qmem, answer_from_qmem, illegal_reply}
use andiodine.Server.QueryMemory.{data_cmc, save_to_qmem_pingordata, answer_from_qmem_data}
use andiodine.Server.QueryMemory.Seen.{any_match, any_match-longer, seen, answer_from_qmem-seen}

or_true : (b : Bool) → (b || true) ≡ true
or_true true = refl
or_true false = refl

-- The slots and `lastfilled` fit the length of the memory.
abbrev pub IsValid : ℕ → List SeenQuery × ℕ → Type 0
IsValid n (qmem, last) = (length qmem ≡ n) × (last < n)

-- Queries are remembered one after another, the first of the list first.
abbrev pub save_all : ℕ → List (List ℕ × ℕ) → List SeenQuery × ℕ → List SeenQuery × ℕ
save_all n [] m = m
save_all n ((cmc, ty) ∷ qs) m = save_all n qs (save_to_qmem m.0 n m.1 cmc ty)

save_to_qmem-IsValid :
    (n : ℕ) (m : List SeenQuery × ℕ) (cmc : List ℕ) (ty : ℕ)
    → IsValid n m
    → IsValid n (save_to_qmem m.0 n m.1 cmc ty)
unfolding save_to_qmem
save_to_qmem-IsValid n m cmc ty v = (length-set m.0 _ _ ∙ v.0, next_slot-lt n m.1 v.1)

seen-save :
    (n : ℕ) (m : List SeenQuery × ℕ) (cmc : List ℕ) (ty k : ℕ)
    → IsValid n m
    → k < n
    → let m' = save_to_qmem m.0 n m.1 cmc ty in
      seen m'.0 n m'.1 (suc k) ≡ record { cmc = take 4 cmc; seen_type = ty } ∷ seen m.0 n m.1 k
unfolding save_to_qmem
seen-save n m cmc ty k v hk =
    recents_from-save zero_seen n m.0 (record { cmc = take 4 cmc; seen_type = ty }) m.1 k v.1 hk
      (omega (arith, v.0))

save_all-IsValid :
    (n : ℕ) (qs : List (List ℕ × ℕ)) (m : List SeenQuery × ℕ)
    → IsValid n m
    → IsValid n (save_all n qs m)
save_all-IsValid n [] m v = v
save_all-IsValid n (q ∷ qs) m v =
    save_all-IsValid n qs (save_to_qmem m.0 n m.1 q.0 q.1) (save_to_qmem-IsValid n m q.0 q.1 v)

-- A match among the `k` newest is not overwritten as long as there is room for the queries that
-- follow.
any_match-save_all :
    (n k qtype : ℕ) (cmc : List ℕ) (qs : List (List ℕ × ℕ)) (m : List SeenQuery × ℕ)
    → IsValid n m
    → k + length qs ≤ n
    → any_match qtype cmc (seen m.0 n m.1 k) ≡ true
    → let m' = save_all n qs m in any_match qtype cmc (seen m'.0 n m'.1 n) ≡ true
any_match-save_all n k qtype cmc [] m v hk h =
    any_match-longer m.0 qtype cmc n m.1 k n (omega arith) h
any_match-save_all n k qtype cmc (q ∷ qs) m v hk h =
    let m' = save_to_qmem m.0 n m.1 q.0 q.1 in
    let s : SeenQuery = record { cmc = take 4 q.0; seen_type = q.1 } in
    any_match-save_all n (suc k) qtype cmc qs m' (save_to_qmem-IsValid n m q.0 q.1 v) (omega arith)
      (ap (any_match qtype cmc) (seen-save n m q.0 q.1 k v (omega arith))
        ∙ ap (λ b. matches qtype cmc s || b) h
        ∙ or_true (matches qtype cmc s))

matches_self :
    (qtype : ℕ) (cmc : List ℕ)
    → qtype ≢ t_unset
    → matches qtype cmc (record { cmc = take 4 cmc; seen_type = qtype }) ≡ true
unfolding matches
matches_self qtype cmc ne =
    let same : same_bytes (take 4 cmc) (take 4 cmc) ≡ true = same_bytes_refl (take 4 cmc) in
    ground arith

-- In a well-formed memory, a query whose type is not T_UNSET and that was remembered is answered,
-- when it comes again, with the single byte x in encoding T, and its id becomes 0, as long as
-- fewer than qmem_len queries were remembered since.
pub duplicate_detected :
    (q : Query) (n : ℕ) (m : List SeenQuery × ℕ) (cmc : List ℕ) (later : List (List ℕ × ℕ))
    → IsValid n m
    → q.qtype ≢ t_unset
    → length later < n
    → let m' = save_all n later (save_to_qmem m.0 n m.1 cmc q.qtype) in
      answer_from_qmem q m'.0 n cmc
      ≡ some (record { to = q; payload = b'x' ∷ []; encoding = b'T' }, record q { id = 0 })
duplicate_detected q n m cmc later v ne hl =
    let saved = save_to_qmem m.0 n m.1 cmc q.qtype in
    let saved-v = save_to_qmem-IsValid n m cmc q.qtype v in
    let m' = save_all n later saved in
    let first : any_match q.qtype cmc (seen saved.0 n saved.1 1) ≡ true =
      ap (any_match q.qtype cmc) (seen-save n m cmc q.qtype 0 v (omega arith))
      ∙ ap (λ b. b || false) (matches_self q.qtype cmc ne) in
    let found : any_match q.qtype cmc (seen m'.0 n m'.1 n) ≡ true =
      any_match-save_all n 1 q.qtype cmc later saved saved-v (omega arith) first in
    answer_from_qmem-seen q m'.0 n m'.1 cmc (save_all-IsValid n later saved saved-v).1
    ∙ ap (λ b. if b then some (illegal_reply q) else none) found

-- In a user with a well-formed data memory, after a data query of at least five chars and a type
-- other than T_UNSET is remembered, a query of the same type whose chars behind the first have the
-- same first four in lower case is answered as a duplicate.
pub data_duplicate :
    (u : User) (q q' : Query)
    → IsValid qmemdata_len (u.qmemdata, u.qmemdata_lastfilled)
    → (get_or q.name 0 0 ≢ b'P') × (get_or q.name 0 0 ≢ b'p')
    → 5 ≤ length q.name
    → q.qtype ≢ t_unset
    → q'.qtype ≡ q.qtype
    → data_cmc q'.name ≡ data_cmc q.name
    → answer_from_qmem_data (save_to_qmem_pingordata u q) q'
      ≡ some (record { to = q'; payload = b'x' ∷ []; encoding = b'T' }, record q' { id = 0 })
unfolding save_to_qmem_pingordata answer_from_qmem_data
data_duplicate u q q' v (not_P, not_p) long ne ht hc =
    let b : (get_or q.name 0 0 == b'P' || get_or q.name 0 0 == b'p') ≡ false = ground arith in
    let b' : ltb (length q.name) 5 ≡ false = ground arith in
    rw (b, b')
      (ap
          (λ (p : List ℕ × ℕ).
            let m = save_to_qmem u.qmemdata qmemdata_len u.qmemdata_lastfilled p.0 p.1 in
            answer_from_qmem q' m.0 qmemdata_len (data_cmc q'.name))
          (ap₂ (λ c (n : ℕ). (c, n)) (sym hc) (sym ht))
        ∙ duplicate_detected q' qmemdata_len (u.qmemdata, u.qmemdata_lastfilled) (data_cmc q'.name)
            [] v (λ e. ne (sym ht ∙ e)) (omega arith))
