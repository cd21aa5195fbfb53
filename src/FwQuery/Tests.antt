-- ===== src/FwQuery/Tests.antt =====
-- Forwarded queries at concrete entries.
use andiodine.Common.{
  ℕ, ◌≡◌, ◌≢◌, ◌<◌, zero, suc, replicate, sym, ap, ◌∙◌, refl, arith, [], ◌∷◌, some, get_or,
}
use andiodine.FwQuery.{FwQuery, fw_query_init, fw_query_put, fw_query_get}
use andiodine.FwQuery.Lookup.{IsValid, put_all, get-put_all}

abbrev forwarded : ℕ → FwQuery
forwarded id = record { addr = 127 ∷ 0 ∷ 0 ∷ 1 ∷ []; id = id }

init-IsValid : IsValid fw_query_init
unfolding fw_query_init
init-IsValid = record { slots = refl; next_in = omega arith }

get_or-replicate {ℓ} : {A : Type ℓ} (n j : ℕ) (d : A) → get_or (replicate n d) j d ≡ d
get_or-replicate zero j d = refl
get_or-replicate (suc n) zero d = refl
get_or-replicate (suc n) (suc j) d = get_or-replicate n j d

abbrev five : ℕ
five = 5

five_ne_zero : five ≢ 0
five_ne_zero = omega arith

init_free : (j : ℕ) → j < 16 → (get_or fw_query_init.fwq j (record { addr = []; id = 0 })).id ≢ 5
unfolding fw_query_init
init_free j h e =
    five_ne_zero
      (sym e ∙ ap (λ (w : FwQuery). w.id) (get_or-replicate 16 j (record { addr = []; id = 0 })))

get-put_all_example :
    fw_query_get
      (put_all (fw_query_put fw_query_init (forwarded 5)) (forwarded 6 ∷ forwarded 7 ∷ []))
      5
    ≡ some (forwarded 5)
get-put_all_example =
    get-put_all fw_query_init (forwarded 5) (forwarded 6 ∷ forwarded 7 ∷ []) init-IsValid init_free
      (omega arith) (omega arith)
