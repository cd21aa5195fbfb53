-- ===== src/Hostname/Tests.antt =====
-- Host names of concrete data.
use andiodine.Common.{
  ℕ, ◌+◌, ◌-◌, ◌≤◌, ◌≡◌, refl, arith, true, List, [], ◌∷◌, ◌++◌, length, replicate,
}
use andiodine.Common.{All, All-append, zero, suc}
use andiodine.Common.Bits.{IsByte}
use andiodine.Hostname.{
  c_string, inline_dotify, dotify_loop, inline_undotify, undotify_loop, unpack_data, build_hostname,
}
use andiodine.Hostname.WithDots.{labels_fit}
use andiodine.Hostname.Encoders.{base32_encoder, base32_encoder-Encodes}
use andiodine.Hostname.RoundTrip.{unpack_data-build_hostname, build_hostname_lem}

abbrev t_co : List ℕ
t_co = b't' ∷ b'.' ∷ b'c' ∷ b'o' ∷ []

-- 72 chars of Base32, and so a dot.
abbrev payload : List ℕ
payload = replicate 40 200 ++ (7 ∷ 0 ∷ 46 ∷ [])

All-replicate : (n c : ℕ) → IsByte c → All IsByte (replicate n c)
All-replicate zero c h = tt
All-replicate (suc n) c h = (h, All-replicate n c h)

payload-IsByte : All IsByte payload
payload-IsByte =
    All-append IsByte (replicate 40 200) (7 ∷ 0 ∷ 46 ∷ []) (All-replicate 40 200 (omega arith))
      (omega arith, (omega arith, (omega arith, tt)))

unpack_data-build_hostname_example :
    let (host, left) = build_hostname 4091 payload t_co base32_encoder 255 in
    unpack_data 65536 host (length host - 4) base32_encoder ++ left ≡ payload
unpack_data-build_hostname_example =
    unpack_data-build_hostname base32_encoder base32_encoder-Encodes 4091 65536 255 payload t_co
      payload-IsByte (omega arith) (omega arith)

build_hostname_lem_example :
    let host = (build_hostname 4091 payload t_co base32_encoder 100).0 in
    (name : List ℕ) × (host ≡ name ++ t_co) × (labels_fit 57 name ≡ true) × (length host + 7 ≤ 100)
build_hostname_lem_example =
    build_hostname_lem base32_encoder base32_encoder-Encodes 4091 100 payload t_co payload-IsByte
      (omega arith)

-- 60 chars get one dot, behind the 57th.
inline_dotify_test :
    c_string (inline_dotify (replicate 60 b'a' ++ (0 ∷ replicate 19 0)) 80)
    ≡ replicate 57 b'a' ++ (b'.' ∷ replicate 3 b'a')
unfolding inline_dotify dotify_loop
inline_dotify_test = refl

inline_undotify_test : (inline_undotify (b'a' ∷ b'.' ∷ b'b' ∷ b'c' ∷ b'.' ∷ []) 5).1 ≡ 3
unfolding inline_undotify undotify_loop
inline_undotify_test = refl
