-- ===== src/Common/Bits.antt =====
-- C's shifts and masks on a byte as arithmetic. Each law is a table over all bytes, checked by
-- evaluation.
use Prim.Native.Nat.{ℕ, zero, suc, ◌+◌, ◌*◌, ◌/◌, ◌%◌, ◌^◌, ◌<◌, bit_and, bit_or}
use mathlib.Core.Path.{◌≡◌, refl, ◌∙◌}
use mathlib.Core.Bool.{Bool, true, false}
use native.Mathlib.Omega.{arith}
use native.Mathlib.Nat.{
  mul-add-div_right, div-eq_of_lt, mul-add-mod_self_right, mod-eq_of_lt, one-le-pow,
}
use andiodine.Common.Tests.{◌==◌, ==_iff, if◌then◌else◌}

-- `v << bits`
abbrev pub shl : (v bits : ℕ) → ℕ
shl v bits = v * 2 ^ bits

-- `v >> bits`
abbrev pub shr : (v bits : ℕ) → ℕ
shr v bits = v / 2 ^ bits

abbrev pub IsByte : ℕ → Type 0
IsByte b = b < 256

module _ (test : ℕ → Bool) where
  -- A table of `test` over the numbers below a bound.
  unfoldable pub all_below : ℕ → Bool
  all_below zero = true
  all_below (suc top) = if test top then all_below top else false

  pub all_below_sound : (bound : ℕ) → all_below bound ≡ true → (x : ℕ) → x < bound → test x ≡ true
  unfolding all_below
  all_below_sound zero table x below = elim below [ ]
  all_below_sound (suc top) table x below = ground (arith, all_below_sound top (ground arith) x)

-- `f` and `g` agree below `n`, if a run over the table says so.
pub agree_below :
    (n : ℕ) (f g : ℕ → ℕ) → all_below (λ x. f x == g x) n ≡ true → (x : ℕ) → x < n → f x ≡ g x
agree_below n f g t x h = (==_iff (f x) (g x)).0 (all_below_sound _ n t x h)

-- A shifted field, or-ed with what fits below it, is a sum.
fields_table :
    all_below (λ k. all_below (λ n. bit_or (n / 2 ^ k * 2 ^ k) (n % 2 ^ k) == n) 256) 8 ≡ true
unfolding all_below
fields_table = refl

split_fields : (p q r : ℕ) → 0 < p → r < p → ((q * p + r) / p ≡ q) × ((q * p + r) % p ≡ r)
split_fields p q r hp hr = (
  mul-add-div_right hp q r ∙ omega (arith, div-eq_of_lt hr),
  mul-add-mod_self_right q p r ∙ mod-eq_of_lt hr,
)

pub bit_or_fields :
    (k q r : ℕ) → k < 8 → r < 2 ^ k → q * 2 ^ k + r < 256 → bit_or (q * 2 ^ k) r ≡ q * 2 ^ k + r
bit_or_fields k q r hk hr h =
    let (d, m) = split_fields (2 ^ k) q r (one-le-pow k 2 (omega arith)) hr in
    let row = all_below_sound _ 8 fields_table k hk in
    let cell = all_below_sound _ 256 row (q * 2 ^ k + r) h in rw (d, m) at ((==_iff _ _).0 cell)

-- `(x & m) >> k` for the masks of high bits, and `x & m` for those of low bits.
pub high_1 : (x : ℕ) → x < 256 → shr (bit_and x 0xfe) 1 ≡ x / 2
unfolding all_below
high_1 = agree_below 256 _ _ refl

pub high_2 : (x : ℕ) → x < 256 → shr (bit_and x 0xfc) 2 ≡ x / 4
unfolding all_below
high_2 = agree_below 256 _ _ refl

pub high_3 : (x : ℕ) → x < 256 → shr (bit_and x 0xf8) 3 ≡ x / 8
unfolding all_below
high_3 = agree_below 256 _ _ refl

pub high_4 : (x : ℕ) → x < 256 → shr (bit_and x 0xf0) 4 ≡ x / 16
unfolding all_below
high_4 = agree_below 256 _ _ refl

pub high_5 : (x : ℕ) → x < 256 → shr (bit_and x 0xe0) 5 ≡ x / 32
unfolding all_below
high_5 = agree_below 256 _ _ refl

pub high_6 : (x : ℕ) → x < 256 → shr (bit_and x 0xc0) 6 ≡ x / 64
unfolding all_below
high_6 = agree_below 256 _ _ refl

pub high_7 : (x : ℕ) → x < 256 → shr (bit_and x 0x80) 7 ≡ x / 128
unfolding all_below
high_7 = agree_below 256 _ _ refl

pub low_1 : (x : ℕ) → x < 256 → bit_and x 0x01 ≡ x % 2
unfolding all_below
low_1 = agree_below 256 _ _ refl

pub low_2 : (x : ℕ) → x < 256 → bit_and x 0x03 ≡ x % 4
unfolding all_below
low_2 = agree_below 256 _ _ refl

pub low_3 : (x : ℕ) → x < 256 → bit_and x 0x07 ≡ x % 8
unfolding all_below
low_3 = agree_below 256 _ _ refl

pub low_4 : (x : ℕ) → x < 256 → bit_and x 0x0f ≡ x % 16
unfolding all_below
low_4 = agree_below 256 _ _ refl

pub low_5 : (x : ℕ) → x < 256 → bit_and x 0x1f ≡ x % 32
unfolding all_below
low_5 = agree_below 256 _ _ refl

pub low_6 : (x : ℕ) → x < 256 → bit_and x 0x3f ≡ x % 64
unfolding all_below
low_6 = agree_below 256 _ _ refl

pub low_7 : (x : ℕ) → x < 256 → bit_and x 0x7f ≡ x % 128
unfolding all_below
low_7 = agree_below 256 _ _ refl

-- Two fields read and joined: `(a << k) | b`.
pub join_fields :
    (k : ℕ) {a b q r : ℕ}
    → a ≡ q
    → b ≡ r
    → (k < 8) × (r < 2 ^ k) × (q * 2 ^ k + r < 256)
    → bit_or (shl a k) b ≡ q * 2 ^ k + r
join_fields k {q = q} {r = r} ea eb (hk, hr, h) = rw (ea, eb) (bit_or_fields k q r hk hr h)

-- Three fields joined, `(a << k) | (b << l) | c`, where the first two make up `p` at bit `l`.
pub join_three_fields :
    (k l : ℕ) {a b c q r s : ℕ} (p : ℕ)
    → a ≡ q
    → b ≡ r
    → c ≡ s
    → (k < 8) × (r * 2 ^ l < 2 ^ k) × (q * 2 ^ k + r * 2 ^ l ≡ p * 2 ^ l)
    → (l < 8) × (s < 2 ^ l) × (p * 2 ^ l + s < 256)
    → bit_or (bit_or (shl a k) (shl b l)) c ≡ p * 2 ^ l + s
join_three_fields k l {q = q} {r = r} {s = s} p ea eb ec (hk, hr, e) (hl, hs, h) =
    rw (ea, eb, ec, bit_or_fields k q (r * 2 ^ l) hk hr (omega arith), e)
      (bit_or_fields l p s hl hs h)
