-- ===== src/Server/Request/Guard.antt =====
-- Who is not logged in changes nothing, and only the right hash logs a user in.
use andiodine.Common.{ℕ, ◌≡◌, ◌≢◌, refl, true, false, ◌||◌, ltb, ◌==◌}
use andiodine.Common.{Bool-cases, inl, inr, List, [], ◌∷◌, length, get_or, All, Option, none, some}
use andiodine.User.{Query, User}
use andiodine.Hostname.{Encoder}
use andiodine.Server.Request.{
  Config, Effect, dns_reply, raw_sent, tun_written, reply, Handled, badip, request_chars,
}
use andiodine.Server.Request.{check_authenticated_user_and_ip, checked, checked_user}
use andiodine.Server.Request.Login.{unpack, handle_ip_request}
use andiodine.Server.Request.Options.{handle_codec_switch, handle_options, handle_downenc_check}
use andiodine.Server.Request.Options.{handle_fragsize_probe, handle_set_fragsize}
use andiodine.Server.Request.Queries.{handle_ping, handle_data}
use andiodine.Server.Request.Null.{
  Command, greeting, login, ip_request, echo, codec_switch, options, downenc_check, fragsize_probe,
  set_fragsize, ping, fragment, unknown, command_of, command_char, run, handle_null_request,
}
use andiodine.Common.{bit_and}
use andiodine.Codec.Base32.{b32_8to5}
use andiodine.Server.Request.{badlen}
use andiodine.Server.Request.Options.{check_answer, available_encoding}

-- The effect is a reply to this query.
abbrev pub IsReplyTo : Query → Effect → Type 0
IsReplyTo q (dns_reply r) = r.to ≡ q
IsReplyTo q (raw_sent q' m) = true ≡ false
IsReplyTo q (tun_written m) = true ≡ false

-- No user is changed, and nothing is done but to reply to the query.
pub record Refused (users : List User) (q : Query) (r : Handled) : Type 0 where
  pub same : r.0 ≡ users
  pub replies : All (IsReplyTo q) r.1

-- No user that this query could come from is logged in.
abbrev pub Stranger : Config → (now : ℕ) → List User → Query → Type 0
Stranger cfg now users q =
    (userid : ℕ) → check_authenticated_user_and_ip cfg now users userid q ≡ false

one_reply :
    (users : List User) (q : Query) (payload : List ℕ) (enc : ℕ)
    → Refused users q (users, reply q payload enc ∷ [])
one_reply users q payload enc = record { same = refl; replies = (refl, tt) }

one_effect :
    (users : List User) (q : Query) (e : Effect) → IsReplyTo q e → Refused users q (users, e ∷ [])
one_effect users q e h = record { same = refl; replies = (h, tt) }

nothing : (users : List User) (q : Query) → Refused users q (users, [])
nothing users q = record { same = refl; replies = tt }

check_answer-reply : (q : Query) (enc : Option ℕ) → IsReplyTo q (check_answer q enc)
check_answer-reply q none = refl
check_answer-reply q (some enc) = refl

downenc_check-reply :
    (q : Query) (chars : List ℕ) (domain_len : ℕ)
    → IsReplyTo q (handle_downenc_check q chars domain_len)
unfolding handle_downenc_check
downenc_check-reply q chars domain_len = elim (Bool-cases (ltb domain_len 6)) [
  | inl short ↦ rw short refl
  | inr long ↦ elim (Bool-cases (b32_8to5 (get_or chars 2 0) == 1)) [
    | inl one ↦
        rw (long, one) (check_answer-reply q (available_encoding q.qtype (get_or chars 1 0)))
    | inr other ↦ rw (long, other) refl
  ]
]

module _ (cfg : Config) (now : ℕ) (users : List User) (q : Query)
    (stranger : Stranger cfg now users q) where
  checked-Refused :
      (userid : ℕ) (rest : Handled) → Refused users q (checked cfg now users userid q rest)
  unfolding checked
  checked-Refused userid rest = rw (stranger userid) (one_reply users q badip b'T')

  checked_user-Refused :
      (userid : ℕ) (f : User → User × List Effect)
      → Refused users q (checked_user cfg now users userid q f)
  unfolding checked_user
  checked_user-Refused userid f = checked-Refused userid _

  ip_request-Refused : (chars : List ℕ) → Refused users q (handle_ip_request cfg now users q chars)
  unfolding handle_ip_request
  ip_request-Refused chars = checked-Refused (b32_8to5 (get_or chars 1 0)) _

  codec_switch-Refused :
      (chars : List ℕ) (n : ℕ) → Refused users q (handle_codec_switch cfg now users q chars n)
  unfolding handle_codec_switch
  codec_switch-Refused chars n = elim (Bool-cases (ltb n 3)) [
    | inl short ↦ rw short (one_reply users q badlen b'T')
    | inr long ↦ rw long (checked-Refused (b32_8to5 (get_or chars 1 0)) _)
  ]

  options-Refused :
      (chars : List ℕ) (n : ℕ) → Refused users q (handle_options cfg now users q chars n)
  unfolding handle_options
  options-Refused chars n = elim (Bool-cases (ltb n 3)) [
    | inl short ↦ rw short (one_reply users q badlen b'T')
    | inr long ↦ rw long (checked_user-Refused (b32_8to5 (get_or chars 1 0)) _)
  ]

  fragsize_probe-Refused :
      (v : ℕ) (chars : List ℕ) (n : ℕ)
      → Refused users q (handle_fragsize_probe cfg now v users q chars n)
  unfolding handle_fragsize_probe
  fragsize_probe-Refused v chars n = elim (Bool-cases (ltb n 16)) [
    | inl short ↦ rw short (one_reply users q badlen b'T')
    | inr long ↦ rw long (checked_user-Refused _ _)
  ]

  set_fragsize-Refused :
      (unpacked : List ℕ) → Refused users q (handle_set_fragsize cfg now users q unpacked)
  unfolding handle_set_fragsize
  set_fragsize-Refused unpacked = elim (Bool-cases (ltb (length unpacked) 3)) [
    | inl short ↦ rw short (one_reply users q badlen b'T')
    | inr long ↦ rw long (checked_user-Refused _ _)
  ]

  ping-Refused : (unpacked : List ℕ) → Refused users q (handle_ping cfg now users q unpacked)
  unfolding handle_ping
  ping-Refused unpacked = elim (Bool-cases (q.id == 0 || ltb (length unpacked) 4)) [
    | inl short ↦ rw short (nothing users q)
    | inr long ↦ rw long (checked_user-Refused _ _)
  ]

  module _ (md5 : List ℕ → List ℕ) (uncompress : List ℕ → Option (List ℕ)) (base64u : Encoder) where
    data-Refused :
        (chars : List ℕ) (n : ℕ)
        → Refused users q (handle_data base64u uncompress cfg now users q chars n)
    unfolding handle_data
    data-Refused chars n = elim (Bool-cases (ltb n 6 || q.id == 0)) [
      | inl short ↦ rw short (nothing users q)
      | inr long ↦ rw long (checked-Refused _ _)
    ]

    run-Refused :
        (random : ℕ) (chars : List ℕ) (n : ℕ) (c : Command)
        → c ≢ greeting
        → c ≢ login
        → Refused users q (run md5 uncompress base64u cfg now random users q chars n c)
    unfolding run
    run-Refused random chars n greeting ng nl = absurd (ng refl)
    run-Refused random chars n login ng nl = absurd (nl refl)
    run-Refused random chars n ip_request ng nl = ip_request-Refused chars
    run-Refused random chars n echo ng nl = one_reply users q chars b'T'
    run-Refused random chars n codec_switch ng nl = codec_switch-Refused chars n
    run-Refused random chars n options ng nl = options-Refused chars n
    run-Refused random chars n downenc_check ng nl =
        one_effect users q (handle_downenc_check q chars n) (downenc_check-reply q chars n)
    run-Refused random chars n fragsize_probe ng nl =
        fragsize_probe-Refused (bit_and random 0xff) chars n
    run-Refused random chars n set_fragsize ng nl = set_fragsize-Refused (unpack chars n)
    run-Refused random chars n ping ng nl = ping-Refused (unpack chars n)
    run-Refused random chars n fragment ng nl = data-Refused chars n
    run-Refused random chars n unknown ng nl = nothing users q

    -- If no user is logged in at the address of a query, as check_authenticated_user_and_ip tests
    -- for every userid, then a request that is neither a version greeting nor a login changes no
    -- user and does nothing but reply to the query.
    pub handle_null_request_guard :
        (random domain_len : ℕ)
        → command_of (command_char q domain_len) ≢ greeting
        → command_of (command_char q domain_len) ≢ login
        → Refused users q
            (handle_null_request md5 uncompress base64u cfg now random users q domain_len)
    unfolding handle_null_request
    handle_null_request_guard random n no_version no_login = elim (Bool-cases (ltb n 2)) [
      | inl short ↦ rw short (nothing users q)
      | inr long ↦ rw long (
          run-Refused random (request_chars q n) n (command_of (command_char q n)) no_version
            no_login)
    ]
