-- ===== src/Common/RingLog.antt =====
-- A fixed array in which the slot behind the last one filled is overwritten next: how the server
-- keeps its recent queries. The view `recents` is what the array holds, the newest first.
use Prim.Native.Nat.{ℕ, zero, suc, ◌+◌, ◌-◌, ◌≤◌, ◌<◌}
use mathlib.Core.Path.{◌≡◌, refl, ap, ap₂, ◌∙◌}
use mathlib.Core.Logic.{◌≢◌}
use mathlib.Core.List.{List, [], ◌∷◌}
use native.Mathlib.Omega.{arith}
use andiodine.Common.Tests.{ltb, leb, if◌then◌else◌}
use andiodine.Common.Lists.{length, get_or, set, get_or-set_self, get_or-set_ne}

-- `fill = last + 1; if (fill >= n) fill = 0;`
abbrev pub next_slot : (n last : ℕ) → ℕ
next_slot n last = if leb n (last + 1) then 0 else last + 1

-- `use = last - i; if (use < 0) use += n;`
abbrev pub slot_back : (n last i : ℕ) → ℕ
slot_back n last i = if ltb last i then last + n - i else last - i

slot_back-zero : (n last : ℕ) → slot_back n last 0 ≡ last
slot_back-zero n last = ground arith

slot_back-suc :
    (n last i : ℕ)
    → last < n
    → suc i < n
    → slot_back n (next_slot n last) (suc i) ≡ slot_back n last i
slot_back-suc n last i hl hi = ground arith

slot_back-ne : (n last i : ℕ) → last < n → suc i < n → next_slot n last ≢ slot_back n last i
slot_back-ne n last i hl hi = ground arith

pub next_slot-lt : (n last : ℕ) → last < n → next_slot n last < n
next_slot-lt n last h = ground arith

pub slot_back-lt : (n last i : ℕ) → last < n → i < n → slot_back n last i < n
slot_back-lt n last i hl hi = ground arith

module _ {ℓ} {A : Type ℓ} (d : A) (n : ℕ) where
  -- The `k` entries from the `i`-th newest on.
  abbrev pub recents_from : List A → (last i k : ℕ) → List A
  recents_from slots last i zero = []
  recents_from slots last i (suc k) =
      get_or slots (slot_back n last i) d ∷ recents_from slots last (suc i) k

  recents_from-set :
      (slots : List A) (v : A) (last i k : ℕ)
      → last < n
      → i + k < n
      → recents_from (set slots (next_slot n last) v) (next_slot n last) (suc i) k
        ≡ recents_from slots last i k
  recents_from-set slots v last i zero hl hk = refl
  recents_from-set slots v last i (suc k) hl hk =
      ap₂ ◌∷◌
        (ap (λ (j : ℕ). get_or (set slots (next_slot n last) v) j d)
            (slot_back-suc n last i hl (omega arith))
          ∙ get_or-set_ne slots (next_slot n last) (slot_back n last i) v d
              (slot_back-ne n last i hl (omega arith)))
        (recents_from-set slots v last (suc i) k hl (omega arith))

  -- Filling the next slot puts the entry in front and forgets the oldest one.
  pub recents_from-save :
      (slots : List A) (v : A) (last k : ℕ)
      → last < n
      → k < n
      → n ≤ length slots
      → recents_from (set slots (next_slot n last) v) (next_slot n last) 0 (suc k)
        ≡ v ∷ recents_from slots last 0 k
  recents_from-save slots v last k hl hk hs =
      ap₂ ◌∷◌
        (ap (λ (j : ℕ). get_or (set slots (next_slot n last) v) j d)
            (slot_back-zero n (next_slot n last))
          ∙ get_or-set_self slots (next_slot n last) v d (omega (arith, next_slot-lt n last hl)))
        (recents_from-set slots v last 0 k hl (omega arith))
