-- ===== src/Common/Reversed.antt =====
-- A buffer as what stands before a position, reversed, and what stands from it on.
use Prim.Native.Nat.{ℕ, suc, ◌+◌}
use mathlib.Core.Path.{◌≡◌, refl, ap, ◌∙◌}
use mathlib.Core.List.{List, [], ◌∷◌, ◌++◌}
use native.Mathlib.Omega.{arith}
use andiodine.Common.Lists.{length, get_or, set, All, take}

module _ {ℓ} {A : Type ℓ} where
  -- The reverse of `front` before `back`.
  abbrev pub onto : (front back : List A) → List A
  onto [] back = back
  onto (x ∷ front) back = onto front (x ∷ back)

  pub onto-append :
      (front front' back : List A) → onto (front ++ front') back ≡ onto front' (onto front back)
  onto-append [] front' back = refl
  onto-append (x ∷ front) front' back = onto-append front front' (x ∷ back)

  pub onto-onto : (front back rest : List A) → onto front back ++ rest ≡ onto front (back ++ rest)
  onto-onto [] back rest = refl
  onto-onto (x ∷ front) back rest = onto-onto front (x ∷ back) rest

  pub length-onto : (front back : List A) → length (onto front back) ≡ length front + length back
  length-onto [] back = omega arith
  length-onto (x ∷ front) back = omega (arith, length-onto front (x ∷ back))

  -- The entry behind the front, and what is written there.
  pub get_or-onto_from :
      (front : List A) (i : ℕ) (back : List A) (d : A)
      → get_or (onto front back) (length front + i) d ≡ get_or back i d
  get_or-onto_from [] i back d = ap (λ (k : ℕ). get_or back k d) (omega arith)
  get_or-onto_from (x ∷ front) i back d =
      ap (λ (k : ℕ). get_or (onto front (x ∷ back)) k d) (omega arith)
      ∙ get_or-onto_from front (suc i) (x ∷ back) d

  pub get_or-onto :
      (front : List A) (x : A) (back : List A) (d : A)
      → get_or (onto front (x ∷ back)) (length front) d ≡ x
  get_or-onto front x back d =
      ap (λ (k : ℕ). get_or (onto front (x ∷ back)) k d) (omega arith)
      ∙ get_or-onto_from front 0 (x ∷ back) d

  set-onto_from :
      (front : List A) (i : ℕ) (back : List A) (v : A)
      → set (onto front back) (length front + i) v ≡ onto front (set back i v)
  set-onto_from [] i back v = ap (λ (k : ℕ). set back k v) (omega arith)
  set-onto_from (x ∷ front) i back v =
      ap (λ (k : ℕ). set (onto front (x ∷ back)) k v) (omega arith)
      ∙ set-onto_from front (suc i) (x ∷ back) v

  pub set-onto :
      (front : List A) (x v : A) (back : List A)
      → set (onto front (x ∷ back)) (length front) v ≡ onto front (v ∷ back)
  set-onto front x v back =
      ap (λ (k : ℕ). set (onto front (x ∷ back)) k v) (omega arith)
      ∙ set-onto_from front 0 (x ∷ back) v

  take-onto_from :
      (front : List A) (i : ℕ) (back : List A)
      → take (length front + i) (onto front back) ≡ onto front (take i back)
  take-onto_from [] i back = ap (λ (k : ℕ). take k back) (omega arith)
  take-onto_from (x ∷ front) i back =
      ap (λ (k : ℕ). take k (onto front (x ∷ back))) (omega arith)
      ∙ take-onto_from front (suc i) (x ∷ back)

  pub take-onto : (front back : List A) → take (length front) (onto front back) ≡ onto front []
  take-onto front back =
      ap (λ (k : ℕ). take k (onto front back)) (omega arith) ∙ take-onto_from front 0 back

  pub All-onto {κ} :
      (P : A → Type κ) (front back : List A) → All P front → All P back → All P (onto front back)
  All-onto P [] back hf hb = hb
  All-onto P (x ∷ front) back (hx, hf) hb = All-onto P front (x ∷ back) hf (hx, hb)

  pub onto-onto_nil : (xs front back : List A) → onto (onto xs front) back ≡ onto front (xs ++ back)
  onto-onto_nil [] front back = refl
  onto-onto_nil (x ∷ xs) front back = onto-onto_nil xs (x ∷ front) back
