-- ===== src/Common/Search.antt =====
-- The loop that looks for the first entry with a property and breaks there.
use Prim.Native.Nat.{ℕ, zero, suc, ◌<◌}
use mathlib.Core.Path.{◌≡◌, refl, ap}
use mathlib.Core.Logic.{◌≢◌, inl, inr}
use mathlib.Core.Bool.{Bool, true, false}
use mathlib.Core.Option.{Option, none, some}
use mathlib.Core.List.{List, [], ◌∷◌}
use native.Mathlib.Omega.{arith}
use andiodine.Common.Tests.{if◌then◌else◌, Bool-cases, ltb}
use andiodine.Common.Lists.{length, get_or}

same_index : (i j : ℕ) → ltb i j ≡ false → ltb j i ≡ false → j ≡ i
same_index i j h h' = ground arith

module _ {ℓ} {A : Type ℓ} (test : A → Bool) where
  -- `for (i = 0; i < n; i++) if (test) { ret = i; break; }`
  abbrev pub find_first : List A → Option ℕ
  find_first [] = none
  find_first (x ∷ xs) =
      let rest = find_first xs in
      if test x then some 0 else elim rest [ none ↦ none | some i ↦ some (suc i) ]

  -- What the result of the loop says: `i` is the first entry with the property, or there is none.
  abbrev pub FirstAt : A → List A → Option ℕ → Type 0
  FirstAt d xs none = (j : ℕ) → j < length xs → test (get_or xs j d) ≡ false
  FirstAt d xs (some i) =
      (i < length xs)
      × (test (get_or xs i d) ≡ true)
      × ((j : ℕ) → j < i → test (get_or xs j d) ≡ false)

  FirstAt-skip :
      (d x : A) (xs : List A) (o : Option ℕ)
      → test x ≡ false
      → FirstAt d xs o
      → FirstAt d (x ∷ xs) (elim o [ none ↦ none | some i ↦ some (suc i) ])
  FirstAt-skip d x xs none e h = λ j hj. all_fail j hj
    where
      all_fail : (j : ℕ) → j < suc (length xs) → test (get_or (x ∷ xs) j d) ≡ false
      all_fail zero hj = e
      all_fail (suc j) hj = h j (omega arith)
  FirstAt-skip d x xs (some i) e (hi, here, before) = (omega arith, here, earlier)
    where
      earlier : (j : ℕ) → j < suc i → test (get_or (x ∷ xs) j d) ≡ false
      earlier zero hj = e
      earlier (suc j) hj = before j (omega arith)

  pub find_first-FirstAt : (d : A) (xs : List A) → FirstAt d xs (find_first xs)
  find_first-FirstAt d [] = λ j hj. absurd (omega arith)
  find_first-FirstAt d (x ∷ xs) = elim (Bool-cases (test x)) [
    | inl here ↦ rw here (omega arith, here, λ j hj. absurd (omega arith))
    | inr not_here ↦
        rw not_here (FirstAt-skip d x xs (find_first xs) not_here (find_first-FirstAt d xs))
  ]

  FirstAt-unique :
      (d : A) (xs : List A) (o : Option ℕ) (i : ℕ)
      → FirstAt d xs o
      → FirstAt d xs (some i)
      → o ≡ some i
  FirstAt-unique d xs none i h (hi, here, before) = cc (h i hi)
  FirstAt-unique d xs (some j) i (hj, there, before_j) (hi, here, before) =
      elim (Bool-cases (ltb i j)) [
        | inl less ↦ cc (before_j i (ground arith))
        | inr not_less ↦ elim (Bool-cases (ltb j i)) [
          | inl more ↦ cc (before j (ground arith))
          | inr not_more ↦ ap (λ (k : ℕ). some k) (same_index i j not_less not_more)
        ]
      ]

  pub find_first_unique :
      (d : A) (xs : List A) (i : ℕ) → FirstAt d xs (some i) → find_first xs ≡ some i
  find_first_unique d xs i h = FirstAt-unique d xs (find_first xs) i (find_first-FirstAt d xs) h

-- Code that changes the fields of one entry.
module _ {ℓ} {A : Type ℓ} where
  abbrev pub modify : List A → ℕ → (A → A) → List A
  modify [] i f = []
  modify (x ∷ xs) zero f = f x ∷ xs
  modify (x ∷ xs) (suc i) f = x ∷ modify xs i f

  pub get_or-modify_self :
      (xs : List A) (i : ℕ) (f : A → A) (d : A)
      → i < length xs
      → get_or (modify xs i f) i d ≡ f (get_or xs i d)
  get_or-modify_self [] i f d h = absurd (omega arith)
  get_or-modify_self (x ∷ xs) zero f d h = refl
  get_or-modify_self (x ∷ xs) (suc i) f d h = get_or-modify_self xs i f d (omega arith)

  pub get_or-modify_ne :
      (xs : List A) (i j : ℕ) (f : A → A) (d : A)
      → j ≢ i
      → get_or (modify xs i f) j d ≡ get_or xs j d
  get_or-modify_ne [] i j f d h = refl
  get_or-modify_ne (x ∷ xs) zero zero f d h = absurd (h refl)
  get_or-modify_ne (x ∷ xs) zero (suc j) f d h = refl
  get_or-modify_ne (x ∷ xs) (suc i) zero f d h = refl
  get_or-modify_ne (x ∷ xs) (suc i) (suc j) f d h = get_or-modify_ne xs i j f d (λ e. h (ap suc e))
