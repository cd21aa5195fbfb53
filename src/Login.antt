-- ===== src/Login.antt =====
-- The hash by which a client logs in: `login_calculate` of jni/iodine/src/login.c.
use andiodine.Common.{ℕ, ◌/◌, ◌%◌, ◌^◌, bit_xor, List, [], ◌∷◌, take}

-- `k ^= seed` on each 32-bit word of `temp`, whose bytes stand in network order.
abbrev pub xor_seed : (seed : ℕ) → List ℕ → List ℕ
xor_seed seed (a ∷ b ∷ c ∷ d ∷ rest) =
    bit_xor a (seed / 2 ^ 24 % 256)
    ∷ bit_xor b (seed / 2 ^ 16 % 256)
    ∷ bit_xor c (seed / 256 % 256)
    ∷ bit_xor d (seed % 256)
    ∷ xor_seed seed rest
xor_seed seed rest = []

-- `md5` is what md5_init, md5_append and md5_finish compute; `pass` has 32 bytes, `buflen` is 16, and
-- a seed is taken modulo 2^32.
unfoldable pub login_calculate : (md5 : List ℕ → List ℕ) → (pass : List ℕ) → (seed : ℕ) → List ℕ
login_calculate md5 pass seed = md5 (xor_seed (seed % 2 ^ 32) (take 32 pass))
