-- ===== src/Common/RingQueue.antt =====
-- A fixed array used in a circle as a queue: the view `items` is what waits, the oldest first.
use Prim.Native.Nat.{ℕ, zero, suc, ◌+◌, ◌-◌, ◌≤◌, ◌<◌}
use mathlib.Core.Path.{◌≡◌, refl, ap, ap₂, ◌∙◌}
use mathlib.Core.Logic.{◌≢◌}
use mathlib.Core.List.{List, [], ◌∷◌, ◌++◌}
use native.Mathlib.Omega.{arith}
use andiodine.Common.Tests.{leb, if◌then◌else◌}
use andiodine.Common.Lists.{length, get_or, set, get_or-set_self, get_or-set_ne}
use andiodine.Common.RingLog.{next_slot}

-- `fill = first + i; if (fill >= n) fill -= n;`
abbrev pub slot_ahead : (n first i : ℕ) → ℕ
slot_ahead n first i = if leb n (first + i) then first + i - n else first + i

pub slot_ahead-lt : (n first i : ℕ) → first < n → i < n → slot_ahead n first i < n
slot_ahead-lt n first i hf hi = ground arith

slot_ahead-ne :
    (n first i j : ℕ) → first < n → i < j → j < n → slot_ahead n first j ≢ slot_ahead n first i
slot_ahead-ne n first i j hf hij hj = ground arith

slot_ahead-next :
    (n first i : ℕ)
    → first < n
    → suc i < n
    → slot_ahead n (next_slot n first) i ≡ slot_ahead n first (suc i)
slot_ahead-next n first i hf hi = ground arith

pub slot_ahead-zero : (n first : ℕ) → first < n → slot_ahead n first 0 ≡ first
slot_ahead-zero n first hf = ground arith

module _ {ℓ} {A : Type ℓ} (d : A) (n : ℕ) where
  -- The `k` entries from the `i`-th on, counted from the slot `first`.
  abbrev pub items_from : List A → (first i k : ℕ) → List A
  items_from slots first i zero = []
  items_from slots first i (suc k) =
      get_or slots (slot_ahead n first i) d ∷ items_from slots first (suc i) k

  -- A write to the slot behind the last entry adds it at the end.
  pub items_from-save :
      (slots : List A) (v : A) (first i k j : ℕ)
      → first < n
      → i + k ≡ j
      → j < n
      → n ≤ length slots
      → items_from (set slots (slot_ahead n first j) v) first i (suc k)
        ≡ items_from slots first i k ++ (v ∷ [])
  items_from-save slots v first i zero j hf e hj hs =
      ap (λ w. w ∷ [])
        (ap (λ (p : ℕ). get_or (set slots (slot_ahead n first j) v) (slot_ahead n first p) d)
            (omega arith)
          ∙ get_or-set_self slots (slot_ahead n first j) v d
              (omega (arith, slot_ahead-lt n first j hf hj)))
  items_from-save slots v first i (suc k) j hf e hj hs =
      ap₂ ◌∷◌
        (get_or-set_ne slots (slot_ahead n first j) (slot_ahead n first i) v d
          (slot_ahead-ne n first i j hf (omega arith) hj))
        (items_from-save slots v first (suc i) k j hf (omega arith) hj hs)

  -- From the next slot on the same entries are seen, less the first.
  pub items_from-next :
      (slots : List A) (first i k : ℕ)
      → first < n
      → suc i + k ≤ n
      → items_from slots (next_slot n first) i k ≡ items_from slots first (suc i) k
  items_from-next slots first i zero hf hk = refl
  items_from-next slots first i (suc k) hf hk =
      ap₂ ◌∷◌ (ap (λ (p : ℕ). get_or slots p d) (slot_ahead-next n first i hf (omega arith)))
        (items_from-next slots first (suc i) k hf (omega arith))
