-- ===== src/Server/Request/Queries.antt =====
-- Pings and data queries: the last two branches of `handle_null_request` of iodined.c.
use andiodine.Common.{ℕ, ◌+◌, ◌-◌, Bool, ◌&&◌, ◌||◌, ltb, leb, ◌==◌}
use andiodine.Common.{
  if◌then◌else◌, List, [], ◌∷◌, ◌++◌, length, get_or, get_elem?, set, drop, Option, none, some,
}
use andiodine.User.{Query, User, Reply, EncoderName, base32, base64, base64u, base128, qmemping_len}
use andiodine.Hostname.{Encoder, unpack_data}
use andiodine.Hostname.Encoders.{base32_encoder, base64_encoder, base128_encoder}
use andiodine.Server.Outpacket.{process_downstream_ack}
use andiodine.Server.DnsCache.{answer_from_dnscache}
use andiodine.Server.QueryMemory.{answer_from_qmem, answer_from_qmem_data}
use andiodine.Server.Upstream.{decode_header, accept_fragment, receive_fragment}
use andiodine.Server.Ping.{ping_ack}
use andiodine.Server.Waiting.{remember_duplicate, answer_ping, answer_data_query}
use andiodine.Server.Request.{
  Config, Effect, dns_reply, dns_replies, Handled, at_user, checked, checked_user,
}
use andiodine.Server.Request.Login.{unpacked_size}
use andiodine.Server.Request.Traffic.{handle_full_packet}

-- `return` if the query was answered from one of the two memories.
abbrev pub unless_answered {ℓ} :
    {A : Type ℓ} → A → Option (Reply × Query) → A × List Effect → A × List Effect
unless_answered same none rest = rest
unless_answered same (some (r, q)) rest = (same, dns_reply r ∷ [])

-- `return` if it is a duplicate of a query that waits.
abbrev pub unless_waiting : Option User → User × List Effect → User × List Effect
unless_waiting none rest = rest
unless_waiting (some u) rest = (u, [])

unfoldable pub ping_user : (now : ℕ) → Query → (unpacked : List ℕ) → User → User × List Effect
ping_user now q unpacked u =
    let (s, f) = ping_ack unpacked in
    let (u', out) = answer_ping (process_downstream_ack u s f) q now in
    unless_answered u (answer_from_dnscache u q) (
      unless_answered u (answer_from_qmem q u.qmemping qmemping_len unpacked)
        (unless_waiting (remember_duplicate u q) (u', dns_replies out)))

unfoldable pub handle_ping : Config → (now : ℕ) → List User → Query → (unpacked : List ℕ) → Handled
handle_ping cfg now users q unpacked =
    let pinged = checked_user cfg now users (get_or unpacked 0 0) q (ping_user now q unpacked) in
    if q.id == 0 || ltb (length unpacked) 4 then (users, []) else pinged

-- `code`: the userid, as a hexadecimal digit.
abbrev pub hex_digit : ℕ → ℕ
hex_digit c =
    if leb b'0' c && leb c b'9'
    then c - b'0'
    else if leb b'a' c && leb c b'f'
    then c - b'a' + 10
    else c - b'A' + 10

abbrev pub is_hex_digit : ℕ → Bool
is_hex_digit c =
    (leb b'0' c && leb c b'9') || ((leb b'a' c && leb c b'f') || (leb b'A' c && leb c b'F'))

-- `base64u_encoder` is generated when the program is built.
module _ (base64u_encoder : Encoder) where
  -- `users[userid].encoder`
  abbrev pub encoder_of : EncoderName → Encoder
  encoder_of base32 = base32_encoder
  encoder_of base64 = base64_encoder
  encoder_of base64u = base64u_encoder
  encoder_of base128 = base128_encoder

  -- The data of a fragment, behind the five chars of its header.
  abbrev pub fragment_data : User → List ℕ → (domain_len : ℕ) → List ℕ
  fragment_data u chars domain_len =
      unpack_data unpacked_size (drop 5 chars) (domain_len - 5) (encoder_of u.encoder)

  -- The user behind the ack and the fragment; the last component is `upstream_ok`.
  unfoldable pub take_fragment : User → List ℕ → (domain_len : ℕ) → User × Bool
  take_fragment u chars domain_len =
      let h = decode_header (drop 1 chars) in
      let acked = process_downstream_ack u h.dn_seq h.dn_frag in
      (
        record acked {
          inpacket =
              receive_fragment acked.inpacket h.up_seq h.up_frag
                (fragment_data acked chars domain_len);
        },
        (accept_fragment acked.inpacket h.up_seq h.up_frag).1,
      )

  module _ (uncompress : List ℕ → Option (List ℕ)) where
    -- What follows a fragment: the packet, if it is complete, and the queries that wait.
    abbrev after_fragment :
        (now : ℕ) → List User → (userid : ℕ) → Query → (upstream_ok lastfrag : Bool) → Handled
    after_fragment now users userid q upstream_ok lastfrag =
        let whole = handle_full_packet uncompress now users userid in
        let (users', es) = if upstream_ok && lastfrag then whole else (users, []) in
        let (users'', es') = at_user users' userid (get_elem? users' userid) (λ u.
          let (u', out) = answer_data_query u q now upstream_ok lastfrag in
          (u', dns_replies out)) in
        (users'', es ++ es')

    -- A duplicate of a waiting query changes only its user.
    abbrev unless_duplicate : List User → (userid : ℕ) → Option User → Handled → Handled
    unless_duplicate users userid none rest = rest
    unless_duplicate users userid (some u) rest = (set users userid u, [])

    abbrev data_at :
        (now : ℕ)
        → List User
        → (userid : ℕ) → Query
        → List ℕ
        → (domain_len : ℕ) → Option User
        → Handled
    data_at now users userid q chars domain_len none = (users, [])
    data_at now users userid q chars domain_len (some u) =
        let (u', ok) = take_fragment u chars domain_len in
        let last = (decode_header (drop 1 chars)).lastfrag == 1 in
        unless_answered users (answer_from_dnscache u q) (
          unless_answered users (answer_from_qmem_data u q) (
            unless_duplicate users userid (remember_duplicate u q)
              (after_fragment now (set users userid u') userid q ok last)))

    unfoldable pub handle_data :
        Config → (now : ℕ) → List User → Query → List ℕ → (domain_len : ℕ) → Handled
    handle_data cfg now users q chars domain_len =
        let userid = hex_digit (get_or chars 0 0) in
        let taken =
          checked cfg now users userid q
            (data_at now users userid q chars domain_len (get_elem? users userid)) in
        if ltb domain_len 6 || q.id == 0 then (users, []) else taken
