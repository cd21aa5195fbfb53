-- ===== src/Dns/Numbers/Tests.antt =====
-- Numbers of DNS messages at concrete values.
use andiodine.Common.{◌≡◌, refl, [], ◌∷◌}
use andiodine.Dns.Numbers.{putshort}

short_bytes : putshort 0x1234 ≡ 0x12 ∷ 0x34 ∷ []
unfolding putshort
short_bytes = refl
