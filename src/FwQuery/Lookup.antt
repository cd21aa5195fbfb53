-- ===== src/FwQuery/Lookup.antt =====
-- A forwarded query is found by its id until 16 more were forwarded.
use andiodine.Common.{ℕ, ◌+◌, ◌-◌, ◌≤◌, ◌<◌, ◌≡◌, ◌≢◌, ap, sym, ◌∙◌, arith, subst}
use andiodine.Common.{◌==◌, leb, if◌then◌else◌, List, [], ◌∷◌, length, get_or, set, All}
use andiodine.Common.{
  Option, none, some, length-set, get_or-set_self, get_or-set_ne, inl, inr, Bool-cases,
}
use andiodine.Common.RingLog.{next_slot, next_slot-lt}
use andiodine.Common.Search.{find_first, find_first-FirstAt, FirstAt}
use andiodine.FwQuery.{
  FwQuery, Forwarded, fw_query_put, fw_query_get, fw_query_cache_size, entry_at,
}
use andiodine.FwQuery.{has_id, zero_fw_query}

pub record IsValid (st : Forwarded) : Type 0 where
  pub slots : length st.fwq ≡ fw_query_cache_size
  pub next_in : st.fwq_ix < fw_query_cache_size

-- Queries are forwarded one after another.
abbrev pub put_all : Forwarded → List FwQuery → Forwarded
put_all st [] = st
put_all st (q ∷ qs) = put_all (fw_query_put st q) qs

-- How many queries can be stored before slot `s` is written.
gap : ℕ → ℕ → ℕ
gap ix s = if leb ix s then s - ix else s + fw_query_cache_size - ix

gap-next :
    (ix s : ℕ)
    → ix < fw_query_cache_size
    → s < fw_query_cache_size
    → 0 < gap ix s
    → (ix ≢ s) × (gap (next_slot fw_query_cache_size ix) s ≡ gap ix s - 1)
unfolding gap
gap-next ix s hi hs h = ground arith

gap-start : (ix : ℕ) → ix < fw_query_cache_size → gap (next_slot fw_query_cache_size ix) ix ≡ 15
unfolding gap
gap-start ix hi = ground arith

-- Slot `s` holds `q`, and no other slot has its id.
record Holds (st : Forwarded) (q : FwQuery) (s : ℕ) : Type 0 where
  valid : IsValid st
  in_range : s < fw_query_cache_size
  here : get_or st.fwq s zero_fw_query ≡ q
  others : (j : ℕ) → j < fw_query_cache_size → j ≢ s → (get_or st.fwq j zero_fw_query).id ≢ q.id

put-IsValid : (st : Forwarded) (q : FwQuery) → IsValid st → IsValid (fw_query_put st q)
unfolding fw_query_put
put-IsValid st q v = record {
  slots = length-set st.fwq st.fwq_ix q ∙ v.slots;
  next_in = next_slot-lt fw_query_cache_size st.fwq_ix v.next_in;
}

Holds-put :
    (st : Forwarded) (q r : FwQuery) (s : ℕ)
    → r.id ≢ q.id
    → 0 < gap st.fwq_ix s
    → Holds st q s
    → Holds (fw_query_put st r) q s
unfolding fw_query_put
Holds-put st q r s ne h v =
    let (ix_ne, _) = gap-next st.fwq_ix s v.valid.next_in v.in_range h in
    record {
      valid = put-IsValid st r v.valid;
      in_range = v.in_range;
      here = get_or-set_ne st.fwq st.fwq_ix s r zero_fw_query ix_ne ∙ v.here;
      others = λ j hj nj. other_id j hj nj;
    }
  where
    other_id :
        (j : ℕ)
        → j < fw_query_cache_size
        → j ≢ s
        → (get_or (set st.fwq st.fwq_ix r) j zero_fw_query).id ≢ q.id
    other_id j hj nj = elim (Bool-cases (st.fwq_ix == j)) [
      | inl written ↦
          let e : st.fwq_ix ≡ j = ground arith in
          subst (λ (i : ℕ). (get_or (set st.fwq st.fwq_ix r) i zero_fw_query).id ≢ q.id) e
            (λ z. ne (
              sym (
                ap (λ w. w.id)
                  (get_or-set_self st.fwq st.fwq_ix r zero_fw_query
                    (omega (arith, v.valid.next_in, v.valid.slots))))
              ∙ z))
      | inr kept ↦
          let e : st.fwq_ix ≢ j = ground arith in
          λ z.
            v.others j hj nj
              (sym (ap (λ w. w.id) (get_or-set_ne st.fwq st.fwq_ix j r zero_fw_query e)) ∙ z)
    ]

Holds-put_all :
    (st : Forwarded) (q : FwQuery) (s : ℕ) (later : List FwQuery)
    → All (λ r. r.id ≢ q.id) later
    → length later ≤ gap st.fwq_ix s
    → Holds st q s
    → Holds (put_all st later) q s
unfolding fw_query_put
Holds-put_all st q s [] ne h v = v
Holds-put_all st q s (r ∷ later) (ne, nes) h v =
    let (_, next) = gap-next st.fwq_ix s v.valid.next_in v.in_range (omega arith) in
    Holds-put_all (fw_query_put st r) q s later nes (omega arith)
      (Holds-put st q r s ne (omega arith) v)

Holds-get : (st : Forwarded) (q : FwQuery) (s : ℕ) → Holds st q s → fw_query_get st q.id ≡ some q
unfolding fw_query_get
Holds-get st q s v =
    first_is (find_first (has_id q.id) st.fwq)
      (find_first-FirstAt (has_id q.id) zero_fw_query st.fwq)
  where
    id_here : (get_or st.fwq s zero_fw_query).id ≡ q.id
    id_here = ap (λ w. w.id) v.here

    only_here : (i : ℕ) → i < length st.fwq → (get_or st.fwq i zero_fw_query).id ≡ q.id → i ≡ s
    only_here i hi e = elim (Bool-cases (i == s)) [
      | inl same ↦ ground arith
      | inr other ↦ absurd (v.others i (omega (arith, v.valid.slots)) (ground arith) e)
    ]

    first_is :
        (o : Option ℕ) → FirstAt (has_id q.id) zero_fw_query st.fwq o → entry_at st.fwq o ≡ some q
    first_is none all_fail =
        let miss = all_fail s (omega (arith, v.in_range, v.valid.slots)) in
        absurd (ground (arith, id_here))
    first_is (some i) (hi, found, before) =
        let e : i ≡ s = only_here i hi (ground arith) in
        ap some (ap (λ (j : ℕ). get_or st.fwq j zero_fw_query) e ∙ v.here)

-- In a well-formed table, an answer finds the forwarded query with its id if fewer than 16
-- queries were forwarded since, and neither the table before nor these have another query with
-- that id.
pub get-put_all :
    (st : Forwarded) (q : FwQuery) (later : List FwQuery)
    → IsValid st
    → ((j : ℕ) → j < fw_query_cache_size → (get_or st.fwq j zero_fw_query).id ≢ q.id)
    → All (λ r. r.id ≢ q.id) later
    → length later < fw_query_cache_size
    → fw_query_get (put_all (fw_query_put st q) later) q.id ≡ some q
unfolding fw_query_put
get-put_all st q later v fresh ne h = Holds-get (put_all (fw_query_put st q) later) q st.fwq_ix (
    Holds-put_all (fw_query_put st q) q st.fwq_ix later ne
      (omega (arith, gap-start st.fwq_ix v.next_in))
      (record {
        valid = put-IsValid st q v;
        in_range = v.next_in;
        here = get_or-set_self st.fwq st.fwq_ix q zero_fw_query (omega (arith, v.next_in, v.slots));
        others = λ j hj nj z. fresh j hj (
            sym
              (ap (λ w. w.id) (get_or-set_ne st.fwq st.fwq_ix j q zero_fw_query (λ e. nj (sym e))))
            ∙ z);
      }))
