-- ===== src/Client/Ids.antt =====
-- The ids of the last three queries, by which `tunnel_dns` knows a recent reply.
use andiodine.Common.{ℕ, ◌^◌, ◌<◌, ◌≡◌, ◌≢◌, refl, ap, sym, ◌∙◌, arith}
use andiodine.Common.{List}
use andiodine.Client.{Client}
use andiodine.Client.Query.{next_id, next_chunkid, send_query}
use andiodine.Client.Frame.{Stable, send_query-Quiet}

next_id-lem :
    (id : ℕ)
    → id < 2 ^ 16
    → (next_id id ≢ 0) × (next_id id < 2 ^ 16) × (next_id id ≢ id) × (next_id (next_id id) ≢ id)
next_id-lem id h = ground arith

-- The last id follows the one before it.
Follows : Client → Type 0
Follows c = (c.chunkid ≡ next_id c.chunkid_prev) × (c.chunkid_prev < 2 ^ 16)

Follow : Client → Type 0
Follow c =
    (c.chunkid ≡ next_id c.chunkid_prev)
    × (c.chunkid_prev ≡ next_id c.chunkid_prev2)
    × (c.chunkid_prev2 < 2 ^ 16)

next_chunkid-Follows : (c : Client) → c.chunkid < 2 ^ 16 → Follows (next_chunkid c)
unfolding Follows next_chunkid
next_chunkid-Follows c h = (refl, h)

Follows-below : (c : Client) → Follows c → c.chunkid < 2 ^ 16
unfolding Follows
Follows-below c (e, h) = omega (arith, e, (next_id-lem c.chunkid_prev h).1)

next_chunkid-Follow : (c : Client) → Follows c → Follow (next_chunkid c)
unfolding Follow Follows next_chunkid
next_chunkid-Follow c (e, h) = (refl, e, h)

Follow-Follows : (c : Client) → Follow c → Follows c
unfolding Follow Follows
Follow-Follows c (e, e', h) = (e, omega (arith, e', (next_id-lem c.chunkid_prev2 h).1))

Follows-Stable : Stable Follows
unfolding Follows
Follows-Stable = record {
  of_id = λ c h. next_chunkid-Follows c (Follows-below c h);
  of_counts = λ c t r n l h. h;
  of_seed = λ c h. h;
  of_answers = λ c as' h. h;
}

Follow-Stable : Stable Follow
unfolding Follow
Follow-Stable = record {
  of_id = λ c h. next_chunkid-Follow c (Follow-Follows c h);
  of_counts = λ c t r n l h. h;
  of_seed = λ c h. h;
  of_answers = λ c as' h. h;
}

-- If the id before is one of 16 bits, then after two calls of send_query the last three ids are
-- different and the last two are not 0, also when queries are sent within them to switch lazy
-- mode off.
pub send_query_ids :
    (c : Client) (hostname hostname' : List ℕ)
    → c.chunkid < 2 ^ 16
    → let c' = (send_query (send_query c hostname).0 hostname').0 in
      (c'.chunkid ≢ 0)
      × (c'.chunkid_prev ≢ 0)
      × (c'.chunkid ≢ c'.chunkid_prev)
      × (c'.chunkid ≢ c'.chunkid_prev2)
      × (c'.chunkid_prev ≢ c'.chunkid_prev2)
unfolding Follow
send_query_ids c hostname hostname' h =
    let (one, _) = send_query-Quiet Follows Follows-Stable c hostname (next_chunkid-Follows c h) in
    let c1 = (send_query c hostname).0 in
    let ((e, e', h'), _) =
      send_query-Quiet Follow Follow-Stable c1 hostname' (next_chunkid-Follow c1 one) in
    let c' = (send_query c1 hostname').0 in
    let (nz', in', ne', ne2) = next_id-lem c'.chunkid_prev2 h' in
    let (nz, _, ne, _) = next_id-lem c'.chunkid_prev (omega (arith, e', in')) in
    (
      λ z. nz (sym e ∙ z),
      λ z. nz' (sym e' ∙ z),
      λ z. ne (sym e ∙ z),
      λ z. ne2 (sym (e ∙ ap next_id e') ∙ z),
      λ z. ne' (sym e' ∙ z),
    )
