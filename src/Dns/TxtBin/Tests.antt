-- ===== src/Dns/TxtBin/Tests.antt =====
-- TXT data at concrete bytes.
use andiodine.Common.{◌≡◌, refl, arith, [], ◌∷◌, length, some}
use andiodine.Dns.TxtBin.{puttxtbin, put_loop, readtxtbin, read_loop}
use andiodine.Dns.TxtBin.RoundTrip.{txt_size, readtxtbin-puttxtbin}

three_bytes : puttxtbin 4 (7 ∷ 8 ∷ 9 ∷ []) ≡ (3 ∷ 7 ∷ 8 ∷ 9 ∷ [], some 4)
unfolding puttxtbin put_loop
three_bytes = refl

cut_short : readtxtbin (2 ∷ 7 ∷ []) 10 ≡ ([], 0)
unfolding readtxtbin read_loop
cut_short = refl

readtxtbin-puttxtbin_example :
    let (w, used) = puttxtbin 4 (7 ∷ 8 ∷ 9 ∷ []) in
    (used ≡ some (length w)) × (length w ≡ txt_size 3) × (readtxtbin w 3 ≡ (7 ∷ 8 ∷ 9 ∷ [], 3))
readtxtbin-puttxtbin_example = readtxtbin-puttxtbin 4 3 (7 ∷ 8 ∷ 9 ∷ []) (omega arith) (omega arith)
