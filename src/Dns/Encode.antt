-- ===== src/Dns/Encode.antt =====
-- The messages of queries: `dns_encode` of dns.c for QR_QUERY.
use andiodine.Common.{ℕ, ◌+◌, ◌-◌, min, Bool, ltb, if◌then◌else◌}
use andiodine.Common.{List, [], ◌∷◌, ◌++◌, length, Option, none, some}
use andiodine.User.{Query}
use andiodine.Dns.Numbers.{putbyte, putshort}
use andiodine.Dns.Names.{putname}

-- `sizeof(HEADER)`
abbrev pub header_size : ℕ
header_size = 12

-- The header of a query, with `rd`, one question and `arcount` additional records.
abbrev pub query_header : (id arcount : ℕ) → List ℕ
query_header id arcount =
    putshort id ++ (1 ∷ 0 ∷ (putshort 1 ++ (putshort 0 ++ (putshort 0 ++ putshort arcount))))

-- The OPT record for messages of up to 4096 bytes.
abbrev pub opt_record : List ℕ
opt_record =
    putbyte 0x00
    ++ (putshort 0x0029
        ++ (putshort 0x1000 ++ (putshort 0x0000 ++ (putshort 0x8000 ++ putshort 0x0000))))

-- What `putname` leaves before the next field: nothing, if it fails.
abbrev pub stored : Option (List ℕ) → List ℕ
stored none = []
stored (some name) = name

-- `edns0` is `dnsc_use_edns0`. No message for 0.
unfoldable pub dns_encode_query : (edns0 : Bool) (buflen : ℕ) → Query → (host : List ℕ) → List ℕ
dns_encode_query edns0 buflen q host =
    let name = stored (putname (min (length host) (buflen - header_size)) host) in
    let question = name ++ (putshort q.qtype ++ putshort 1) in
    let len = header_size + length question in
    if ltb buflen header_size
    then []
    else if ltb buflen len
    then []
    else if edns0
    then if ltb buflen (len + 11) then [] else query_header q.id 1 ++ (question ++ opt_record)
    else query_header q.id 0 ++ question
