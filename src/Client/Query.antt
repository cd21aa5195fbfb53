-- ===== src/Client/Query.antt =====
-- Sending a query: `send_query`, `send_lazy_switch` and `handshake_lazyoff` of client.c.
use andiodine.Common.{
  ℕ, zero, suc, ◌+◌, ◌*◌, ◌-◌, ◌%◌, ◌^◌, bit_and, Bool, true, false, not, ◌&&◌, ◌||◌,
}
use andiodine.Common.{ltb, ◌==◌, same_bytes, if◌then◌else◌, List, [], ◌∷◌, ◌++◌, length, take}
use andiodine.Common.{Option, none, some}
use andiodine.Common.Bits.{shr}
use andiodine.Codec.Base32.{b32_5to8}
use andiodine.User.{Query}
use andiodine.Dns.Encode.{dns_encode_query}
use andiodine.Client.{Client, Event, dns_sent, Acted}

-- The ids of the last three queries, as 16-bit numbers; 0 is not used.
abbrev pub next_id : ℕ → ℕ
next_id id = let next = (id + 7727) % 2 ^ 16 in if next == 0 then 7727 else next

unfoldable pub next_chunkid : Client → Client
next_chunkid c = record c {
  chunkid_prev2 = c.chunkid_prev;
  chunkid_prev = c.chunkid;
  chunkid = next_id c.chunkid;
}

-- `q`, of which only these fields are set.
abbrev pub query_to_send : Client → Query
query_to_send c = record {
  name = [];
  qtype = c.do_qtype;
  rcode = 0;
  id = c.chunkid;
  destination = 0;
  from = [];
  id2 = 0;
  from2 = [];
}

-- Too few answers for `sendcnt` queries.
abbrev pub too_few : (sendcnt recvcnt : ℕ) → Bool
too_few sendcnt recvcnt =
    (ltb 6 sendcnt && recvcnt == 0) || (ltb 10 sendcnt && ltb (4 * recvcnt) sendcnt)

abbrev pub count_at : ℕ → Client → Client × Bool
count_at n c =
    let c' = record c { send_query_sendcnt = some (n + 1) } in
    if not (ltb n 100 && c.lazymode)
    then (c, false)
    else if not (too_few (n + 1) c.send_query_recvcnt)
    then (c', false)
    else if ltb 1 c.selecttimeout
    then (
      record c { selecttimeout = 1; send_query_sendcnt = some 0; send_query_recvcnt = 0 },
      false,
    )
    else (record c' { lazymode = false; selecttimeout = 1 }, true)

abbrev pub count_from : Option ℕ → Client → Client × Bool
count_from none c = (c, false)
count_from (some n) c = count_at n c

-- The statistics; true if lazy mode is to be switched off at the server.
unfoldable pub count_query : Client → Client × Bool
count_query c = count_from c.send_query_sendcnt c

abbrev pub before : Event → Acted → Acted
before e (c, es) = (c, e ∷ es)

-- `sizeof(packet)`
abbrev packet_max : ℕ
packet_max = 4096

module _ (handshake_lazyoff : Client → Acted) where
  abbrev pub after_count : Client × Bool → Acted
  after_count (c, off) = let switched = handshake_lazyoff c in if off then switched else (c, [])

  unfoldable pub send_query_with : Client → (hostname : List ℕ) → Acted
  send_query_with c hostname =
      let c' = next_chunkid c in
      let packet = dns_encode_query c.edns0 packet_max (query_to_send c') hostname in
      let sent = after_count (count_query c') in
      if length packet == 0 then (c', []) else before (dns_sent packet) sent

-- The three chars of `rand_seed` that make a name new.
abbrev pub rand_chars : Client → List ℕ
rand_chars c =
    b32_5to8 (bit_and (shr c.rand_seed 10) 0x1f)
    ∷ b32_5to8 (bit_and (shr c.rand_seed 5) 0x1f)
    ∷ b32_5to8 (bit_and c.rand_seed 0x1f)
    ∷ []

abbrev pub next_seed : Client → Client
next_seed c = record c { rand_seed = (c.rand_seed + 1) % 2 ^ 16 }

-- `buf`, of 512 bytes.
unfoldable pub lazy_switch_name : Client → List ℕ
lazy_switch_name c =
    let buf =
      (b'o' ∷ b32_5to8 c.userid ∷ (if c.lazymode then b'l' else b'i') ∷ [])
      ++ (rand_chars c ++ (b'.' ∷ [])) in
    buf ++ take (512 - length buf) c.topdomain

-- Within `handshake_lazyoff` lazy mode is off, so no query asks for it again.
unfoldable pub send_lazy_switch : Client → Acted
send_lazy_switch c = send_query_with (λ c'. (c', [])) (next_seed c) (lazy_switch_name c)

abbrev pub immediate : List ℕ
immediate = b'I' ∷ b'm' ∷ b'm' ∷ b'e' ∷ b'd' ∷ b'i' ∷ b'a' ∷ b't' ∷ b'e' ∷ []

-- `handshake_waitdns`: the next answer.
abbrev pub next_answer : List (List ℕ) → List ℕ × List (List ℕ)
next_answer [] = ([], [])
next_answer (a ∷ later) = (a, later)

abbrev pub and_then : Acted → (Client → Acted) → Acted
and_then (c, es) f = let (c', es') = f c in (c', es ++ es')

-- The loop with `k` rounds left.
unfoldable pub lazyoff_rounds : (k : ℕ) → Client → Acted
lazyoff_rounds zero c = (c, [])
lazyoff_rounds (suc k) c =
    let (c1, es) = send_lazy_switch c in
    let (got, later) = next_answer c1.answers in
    let c2 = record c1 { answers = later } in
    let again = and_then (c2, es) (lazyoff_rounds k) in
    if not c.running
    then (c, [])
    else if same_bytes got immediate
    then (record c2 { lazymode = false; selecttimeout = 1 }, es)
    else again

unfoldable pub handshake_lazyoff : Client → Acted
handshake_lazyoff c = lazyoff_rounds 5 c

unfoldable pub send_query : Client → (hostname : List ℕ) → Acted
send_query c hostname = send_query_with handshake_lazyoff c hostname
