-- ===== src/Seqno.antt =====
-- Sequence numbers of three bits, of which the last four are recent: `recent_seqno` of common.c.
mod Tests
use andiodine.Common.{
  ℕ, zero, suc, ◌+◌, ◌-◌, ◌%◌, ◌<◌, ◌≡◌, refl, arith, Bool, true, false, ltb, leb, ◌==◌,
}
use andiodine.Common.{if◌then◌else◌}
use andiodine.Common.Bits.{all_below, all_below_sound}

-- `ourseqno--`, and 7 when that is below 0.
abbrev pub previous_seqno : ℕ → ℕ
previous_seqno n = if n == 0 then 7 else n - 1

-- The loop with `k` rounds left.
unfoldable pub recent_loop : (k ourseqno gotseqno : ℕ) → Bool
recent_loop zero ourseqno gotseqno = false
recent_loop (suc k) ourseqno gotseqno =
    let rest = recent_loop k (previous_seqno ourseqno) gotseqno in
    if gotseqno == ourseqno then true else rest

unfoldable pub recent_seqno : (ourseqno gotseqno : ℕ) → Bool
recent_seqno ourseqno gotseqno = recent_loop 4 ourseqno gotseqno

abbrev same_Bool : Bool → Bool → Bool
same_Bool true b = b
same_Bool false true = false
same_Bool false false = true

eq_of_same_Bool : (a b : Bool) → same_Bool a b ≡ true → a ≡ b
eq_of_same_Bool true true e = refl
eq_of_same_Bool true false e = cc
eq_of_same_Bool false true e = cc
eq_of_same_Bool false false e = refl

seqno_table :
    all_below
      (λ our. all_below (λ got. same_Bool (recent_seqno our got) (ltb ((our + 8 - got) % 8) 4)) 8)
      8
    ≡ true
unfolding all_below recent_seqno recent_loop
seqno_table = refl

-- For numbers of three bits, gotseqno is recent exactly if it is less than four steps behind
-- ourseqno, counted modulo 8.
pub recent_seqno_distance :
    (ourseqno gotseqno : ℕ)
    → ourseqno < 8
    → gotseqno < 8
    → recent_seqno ourseqno gotseqno ≡ ltb ((ourseqno + 8 - gotseqno) % 8) 4
recent_seqno_distance our got ho hg =
    eq_of_same_Bool _ _ (all_below_sound _ 8 (all_below_sound _ 8 seqno_table our ho) got hg)
