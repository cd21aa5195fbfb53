-- ===== src/Topdomain/Tests.antt =====
-- The check at concrete domains.
use andiodine.Common.{ℕ, ◌≡◌, refl, List, [], ◌∷◌, length, All, ◌≤◌, ◌<◌, ◌↔◌, none, some}
use andiodine.Topdomain.{check_topdomain, consecutive_dots}
use andiodine.Topdomain.Labels.{labels, IsLabel, check_topdomain-IsLabel}

abbrev domain : List ℕ
domain = b't' ∷ b'.' ∷ b'c' ∷ b'o' ∷ []

two_dots : check_topdomain (b't' ∷ b'.' ∷ b'.' ∷ b'c' ∷ []) ≡ some consecutive_dots
unfolding check_topdomain
two_dots = refl

check_topdomain-IsLabel_example : (check_topdomain domain ≡ none) ↔ (
    (3 ≤ length domain)
    × (length domain ≤ 128)
    × IsLabel (labels domain).0
    × All IsLabel (labels domain).1
    × (0 < length (labels domain).1))
check_topdomain-IsLabel_example = check_topdomain-IsLabel domain
