-- ===== src/Common/Fields.antt =====
-- `|` of a shifted number and a field that fits below it is a sum, at any width.
use Prim.Native.Nat.{
  ℕ, zero, suc, ◌+◌, ◌*◌, ◌/◌, ◌%◌, ◌^◌, ◌≤◌, ◌<◌, bit_or, bit_or-bitwise, digits, max,
}
use mathlib.Core.Path.{◌≡◌, refl, sym, ap, ap₂, ◌∙◌}
use native.Mathlib.Omega.{arith}
use native.Mathlib.Nat.{pow-suc, mul_assoc}
use andiodine.Common.Bits.{shl}

or_digits : ℕ → ℕ → ℕ → ℕ
or_digits n a b = digits (λ b. b) max n a b

or_digits-suc :
    (n a b : ℕ)
    → 0 < a
    → or_digits (suc n) a b ≡ or_digits n (a / 2) (b / 2) * 2 + max (a % 2) (b % 2)
unfolding or_digits
or_digits-suc n zero b h = absurd (omega arith)
or_digits-suc n (suc a) b h = refl

or_digits-none : (n b : ℕ) → or_digits n 0 b ≡ b
unfolding or_digits
or_digits-none zero b = refl
or_digits-none (suc n) b = refl

or_digits-zero : (n a : ℕ) → a ≤ n → or_digits n a 0 ≡ a
or_digits-zero n zero h = or_digits-none n 0
or_digits-zero zero (suc a) h = absurd (omega arith)
or_digits-zero (suc n) (suc a) h =
    or_digits-suc n (suc a) 0 (omega arith)
    ∙ ap (λ (k : ℕ). k * 2 + max (suc a % 2) 0) (or_digits-zero n (suc a / 2) (omega arith))
    ∙ omega arith

-- One more bit in the low field.
or_digits-double :
    (n m r : ℕ)
    → ((n' : ℕ) → m ≤ n' → or_digits n' m (r / 2) ≡ m + r / 2)
    → m * 2 ≤ n
    → or_digits n (m * 2) r ≡ m * 2 + r
or_digits-double n zero r ih h = or_digits-none n r ∙ omega arith
or_digits-double zero (suc m) r ih h = absurd (omega arith)
or_digits-double (suc n) (suc m) r ih h =
    let half : suc m * 2 / 2 ≡ suc m = omega arith in
    let even : suc m * 2 % 2 ≡ 0 = omega arith in
    or_digits-suc n (suc m * 2) r (omega arith)
    ∙ ap₂ (λ (a e : ℕ). or_digits n a (r / 2) * 2 + max e (r % 2)) half even
    ∙ ap (λ (k : ℕ). k * 2 + max 0 (r % 2)) (ih n (omega arith))
    ∙ omega arith

or_digits-fields :
    (k n q r : ℕ) → q * 2 ^ k ≤ n → r < 2 ^ k → or_digits n (q * 2 ^ k) r ≡ q * 2 ^ k + r
or_digits-fields zero n q r h hr =
    let none' : r ≡ 0 = omega arith in
    ap (or_digits n (q * 2 ^ 0)) none' ∙ or_digits-zero n (q * 2 ^ 0) h ∙ omega arith
or_digits-fields (suc k) n q r h hr =
    let e : q * 2 ^ suc k ≡ q * 2 ^ k * 2 =
      ap (λ (m : ℕ). q * m) (pow-suc 2 k) ∙ sym (mul_assoc q (2 ^ k) 2) in
    ap (λ (a : ℕ). or_digits n a r) e
    ∙ or_digits-double n (q * 2 ^ k) r
        (λ n' hn. or_digits-fields k n' q (r / 2) hn (omega (arith, pow-suc 2 k))) (omega arith)
    ∙ ap (λ (a : ℕ). a + r) (sym e)

pub bit_or_below : (bits q r : ℕ) → r < 2 ^ bits → bit_or (shl q bits) r ≡ shl q bits + r
unfolding or_digits
bit_or_below bits q r h =
    (λ i. bit_or-bitwise (shl q bits) r i) ∙ or_digits-fields bits (shl q bits) q r (omega arith) h
