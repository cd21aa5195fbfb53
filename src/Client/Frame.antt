-- ===== src/Client/Frame.antt =====
-- What sending a query leaves as it is.
use andiodine.Common.{ℕ, zero, suc, ◌+◌, ◌≡◌, refl, ap, ap₂, ◌∙◌}
use andiodine.Common.{Bool, false, not, ◌&&◌, ltb, ◌==◌, same_bytes, Bool-cases, inl, inr}
use andiodine.Common.{List, [], ◌∷◌, ◌++◌, length, Option, none, some}
use andiodine.Dns.Encode.{dns_encode_query}
use andiodine.Client.{Client, Event, dns_sent, raw_sent, tun_written, Acted}
use andiodine.Client.Query.{
  next_chunkid, count_query, count_from, count_at, too_few, next_answer, immediate, query_to_send,
  send_query_with,
}
use andiodine.Client.Query.{
  next_seed, send_lazy_switch, lazy_switch_name, lazyoff_rounds, handshake_lazyoff, send_query,
}

-- The packets that are written to the tun device.
abbrev pub tun_writes : List Event → List (List ℕ)
tun_writes [] = []
tun_writes (dns_sent m ∷ es) = tun_writes es
tun_writes (raw_sent m ∷ es) = tun_writes es
tun_writes (tun_written m ∷ es) = m ∷ tun_writes es

pub tun_writes-append :
    (es es' : List Event) → tun_writes (es ++ es') ≡ tun_writes es ++ tun_writes es'
tun_writes-append [] es' = refl
tun_writes-append (dns_sent m ∷ es) es' = tun_writes-append es es'
tun_writes-append (raw_sent m ∷ es) es' = tun_writes-append es es'
tun_writes-append (tun_written m ∷ es) es' = ap (λ r. m ∷ r) (tun_writes-append es es')

-- A property of the client that no part of `send_query` breaks.
pub record Stable {ℓ} (P : Client → Type ℓ) : Type ℓ where
  pub of_id : (c : Client) → P c → P (next_chunkid c)
  pub of_counts :
      (c : Client) (t r : ℕ) (n : Option ℕ) (l : Bool)
      → P c
      → P (record c {
        selecttimeout = t;
        send_query_sendcnt = n;
        send_query_recvcnt = r;
        lazymode = l;
      })
  pub of_seed : (c : Client) → P c → P (next_seed c)
  pub of_answers : (c : Client) (as' : List (List ℕ)) → P c → P (record c { answers = as' })

-- A call that keeps the property, and writes nothing to the tun device.
abbrev pub Quiet {ℓ} : (Client → Type ℓ) → Acted → Type ℓ
Quiet P (c, es) = P c × (tun_writes es ≡ [])

module _ {ℓ} (P : Client → Type ℓ) (stable : Stable P) where
  count_at-Stable : (n : ℕ) (c : Client) → P c → P (count_at n c).0
  count_at-Stable n c h = elim (Bool-cases (not (ltb n 100 && c.lazymode))) [
    | inl off ↦ rw off h
    | inr on ↦ elim (Bool-cases (not (too_few (n + 1) c.send_query_recvcnt))) [
      | inl enough ↦
          rw (on, enough)
            (stable.of_counts c c.selecttimeout c.send_query_recvcnt (some (n + 1)) c.lazymode h)
      | inr few ↦ elim (Bool-cases (ltb 1 c.selecttimeout)) [
        | inl slow ↦ rw (on, few, slow) (stable.of_counts c 1 0 (some 0) c.lazymode h)
        | inr fast ↦
            rw (on, few, fast) (stable.of_counts c 1 c.send_query_recvcnt (some (n + 1)) false h)
      ]
    ]
  ]

  count_from-Stable : (n : Option ℕ) (c : Client) → P c → P (count_from n c).0
  count_from-Stable none c h = h
  count_from-Stable (some n) c h = count_at-Stable n c h

  count_query-Stable : (c : Client) → P c → P (count_query c).0
  unfolding count_query
  count_query-Stable c h = count_from-Stable c.send_query_sendcnt c h

  send_query_with-Quiet :
      (lazyoff : Client → Acted) (c : Client) (hostname : List ℕ)
      → ((c' : Client) → P c' → Quiet P (lazyoff c'))
      → P (next_chunkid c)
      → Quiet P (send_query_with lazyoff c hostname)
  unfolding send_query_with
  send_query_with-Quiet lazyoff c hostname off h =
      let c' = next_chunkid c in
      let packet = dns_encode_query c.edns0 4096 (query_to_send c') hostname in
      let h' = count_query-Stable c' h in
      elim (Bool-cases (length packet == 0)) [
        | inl none' ↦ rw none' (h, refl)
        | inr some' ↦ elim (Bool-cases (count_query c').1) [
          | inl switch ↦ rw (some', switch) (off (count_query c').0 h')
          | inr stay ↦ rw (some', stay) (h', refl)
        ]
      ]

  send_lazy_switch-Quiet : (c : Client) → P c → Quiet P (send_lazy_switch c)
  unfolding send_lazy_switch
  send_lazy_switch-Quiet c h =
      send_query_with-Quiet (λ c'. (c', [])) (next_seed c) (lazy_switch_name c)
        (λ c' h'. (h', refl)) (stable.of_id (next_seed c) (stable.of_seed c h))

  lazyoff_rounds-Quiet : (k : ℕ) (c : Client) → P c → Quiet P (lazyoff_rounds k c)
  unfolding lazyoff_rounds
  lazyoff_rounds-Quiet zero c h = (h, refl)
  lazyoff_rounds-Quiet (suc k) c h =
      let (c1, es) = send_lazy_switch c in
      let (h1, quiet) = send_lazy_switch-Quiet c h in
      let (got, later) = next_answer c1.answers in
      let c2 = record c1 { answers = later } in
      let h2 = stable.of_answers c1 later h1 in
      let (h3, quiet3) = lazyoff_rounds-Quiet k c2 h2 in
      elim (Bool-cases (not c.running)) [
        | inl stopped ↦ rw stopped (h, refl)
        | inr running ↦ elim (Bool-cases (same_bytes got immediate)) [
          | inl off ↦
              rw (running, off)
                (stable.of_counts c2 1 c2.send_query_recvcnt c2.send_query_sendcnt false h2, quiet)
          | inr wait ↦
              rw (running, wait)
                (
                  h3,
                  tun_writes-append es (lazyoff_rounds k c2).1 ∙ ap₂ (λ a b. a ++ b) quiet quiet3,
                )
        ]
      ]

  pub send_query-Quiet :
      (c : Client) (hostname : List ℕ) → P (next_chunkid c) → Quiet P (send_query c hostname)
  unfolding send_query handshake_lazyoff
  send_query-Quiet c hostname h =
      send_query_with-Quiet handshake_lazyoff c hostname (lazyoff_rounds-Quiet 5) h
