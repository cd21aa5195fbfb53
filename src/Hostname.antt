-- ===== src/Hostname.antt =====
-- Data as the labels of a host name: encoding.c.
pub mod WithDots
pub mod Dotify
pub mod Undotify
pub mod RoundTrip
pub mod Encoders
mod Tests
use andiodine.Common.{ℕ, zero, suc, ◌+◌, ◌-◌, ◌/◌, ◌%◌, min, Bool, true, false, not, ltb, ◌==◌}
use andiodine.Common.{if◌then◌else◌, List, [], ◌∷◌, ◌++◌, length, get_or, set, take, replicate}
use andiodine.Codec.{Encoded}

-- `struct encoder`, less the block sizes, which nothing calls.
pub record Encoder : Type 0 where
  pub encode : ℕ → List ℕ → Encoded
  pub decode : ℕ → List ℕ → List ℕ
  pub places_dots : Bool
  pub eats_dots : Bool

-- `strlen`, and the chars before the '\0'.
abbrev pub c_string : List ℕ → List ℕ
c_string [] = []
c_string (c ∷ cs) = let rest = c_string cs in if c == 0 then [] else c ∷ rest

-- The loop of `inline_dotify`; `writer` and `reader` are positions in `buf`. Each round lowers `pos`,
-- which therefore serves as fuel.
pub dotify_loop : (fuel : ℕ) → List ℕ → (writer reader pos dots : ℕ) → List ℕ
dotify_loop zero buf writer reader pos dots = buf
dotify_loop (suc fuel) buf writer reader pos dots =
    let moved = set buf writer (get_or buf reader 0) in
    let pos' = pos - 1 in
    let dotted =
      dotify_loop fuel (set moved (writer - 1) b'.') (writer - 2) (reader - 1) pos' (dots - 1) in
    let plain = dotify_loop fuel moved (writer - 1) (reader - 1) pos' dots in
    if dots == 0 then buf else if pos' % 57 == 0 then dotted else plain

-- The buffer is all of `buf`, which may be longer than the `buflen` that the caller gives.
unfoldable pub inline_dotify : List ℕ → (buflen : ℕ) → List ℕ
inline_dotify buf buflen =
    let total = length (c_string buf) in
    let dots = total / 57 in
    let writer = if ltb buflen (total + dots) then buflen else total + dots in
    let reader = writer - dots in dotify_loop (reader + 1) buf writer reader (reader + 1) dots

-- The loop of `inline_undotify` with `k` chars left; the result is the buffer and `dots`.
pub undotify_loop : (k : ℕ) → List ℕ → (writer reader dots : ℕ) → List ℕ × ℕ
undotify_loop zero buf writer reader dots = (buf, dots)
undotify_loop (suc k) buf writer reader dots =
    let skipped = undotify_loop k buf writer (reader + 1) (dots + 1) in
    let kept =
      undotify_loop k (set buf writer (get_or buf reader 0)) (writer + 1) (reader + 1) dots in
    if get_or buf reader 0 == b'.' then skipped else kept

-- The buffer, and the new length.
unfoldable pub inline_undotify : List ℕ → (len : ℕ) → List ℕ × ℕ
inline_undotify buf len = let (buf', dots) = undotify_loop len buf 0 0 0 in (buf', len - dots)

-- `buf` is the `datalen` chars and what stands behind them.
unfoldable pub unpack_data : (buflen : ℕ) → List ℕ → (datalen : ℕ) → Encoder → List ℕ
unpack_data buflen chars datalen enc =
    let (undotted, len) = inline_undotify chars datalen in
    if not enc.eats_dots
    then enc.decode buflen (take len undotted)
    else enc.decode buflen (take datalen chars)

-- `if (*b != '.') *++b = '.';` on the last char.
abbrev pub end_with_dot : List ℕ → List ℕ
end_with_dot [] = b'.' ∷ []
end_with_dot (c ∷ []) = if c == b'.' then c ∷ [] else c ∷ b'.' ∷ []
end_with_dot (c ∷ d ∷ cs) = c ∷ end_with_dot (d ∷ cs)

-- `space`, the most chars of encoded text.
abbrev pub hostname_space : (buflen maxlen topdomain_len : ℕ) → Encoder → ℕ
hostname_space buflen maxlen topdomain_len enc =
    let space = min maxlen buflen - topdomain_len - 8 in
    if not enc.places_dots then space - space / 57 else space

-- The string in `buf`, and the data that was not used up. The caller sees to it that `topdomain` and
-- eight chars fit the buffer and `maxlen`, and that there is data.
unfoldable pub build_hostname :
    (buflen : ℕ) → List ℕ → (topdomain : List ℕ) → Encoder → (maxlen : ℕ) → List ℕ × List ℕ
build_hostname buflen bytes topdomain enc maxlen =
    let encoded = enc.encode (hostname_space buflen maxlen (length topdomain) enc) bytes in
    let text = encoded.text in
    let buf = text ++ (0 ∷ replicate (buflen - length text - 1) 0) in
    let name = c_string (if not enc.places_dots then inline_dotify buf buflen else buf) in
    (end_with_dot name ++ topdomain, encoded.left)
