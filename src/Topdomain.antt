-- ===== src/Topdomain.antt =====
-- The check of the domain that the tunnel runs under: `check_topdomain` of common.c.
pub mod Labels
mod Tests
use andiodine.Common.{ℕ, ◌+◌, Bool, true, false, ◌&&◌, ◌||◌, ltb, leb, ◌==◌, if◌then◌else◌}
use andiodine.Common.{List, [], ◌∷◌, length, get_or, Option, none, some}

-- The values of `errormsg`.
pub data TopdomainError : Type 0 where
  too_short too_long starts_with_dot consecutive_dots too_long_part illegal_character no_dots
        ends_with_dot :
      TopdomainError

-- `[a-zA-Z0-9-]`; a dot, which is allowed too, is tested apart.
abbrev pub allowed : ℕ → Bool
allowed c =
    (leb b'a' c && leb c b'z')
    || ((leb b'A' c && leb c b'Z') || ((leb b'0' c && leb c b'9') || c == b'-'))

-- Behind the loop.
abbrev pub check_end : (dots chunklen : ℕ) → Option TopdomainError
check_end dots chunklen =
    if dots == 0
    then some no_dots
    else if chunklen == 0
    then some ends_with_dot
    else if ltb 63 chunklen
    then some too_long_part
    else none

-- A dot, with what the rest of the name gives.
abbrev pub check_dot : (chunklen : ℕ) → Option TopdomainError → Option TopdomainError
check_dot chunklen rest =
    if chunklen == 0
    then some consecutive_dots
    else if ltb 63 chunklen
    then some too_long_part
    else rest

abbrev pub check_chars : List ℕ → (dots chunklen : ℕ) → Option TopdomainError
check_chars [] dots chunklen = check_end dots chunklen
check_chars (c ∷ cs) dots chunklen =
    let behind_dot = check_chars cs (dots + 1) 0 in
    let behind_char = check_chars cs dots (chunklen + 1) in
    if c == b'.'
    then check_dot chunklen behind_dot
    else if allowed c
    then behind_char
    else some illegal_character

-- `none` is the result 0, and an error the result 1 with its message.
unfoldable pub check_topdomain : List ℕ → Option TopdomainError
check_topdomain str =
    if ltb (length str) 3
    then some too_short
    else if ltb 128 (length str)
    then some too_long
    else if get_or str 0 0 == b'.'
    then some starts_with_dot
    else check_chars str 0 0
