-- ===== src/Server/Waiting/NotLazy.antt =====
-- Without lazy mode no query is left waiting.
use andiodine.Common.{ℕ, ◌≡◌, refl, ◌∙◌, arith, Bool, true, false, not, ◌&&◌, ◌||◌, ltb, ◌==◌}
use andiodine.Common.{Bool-cases, inl, inr}
use andiodine.User.{Query, User}
use andiodine.Server.SendChunk.{at_q, at_q_sendrealsoon}
use andiodine.Server.SendChunk.Used.{send_chunk-lazy, send_chunk-used}
use andiodine.Server.Waiting.{send_soon, finish_waiting, save_query}
use andiodine.Server.Waiting.{ack_upstream, answer_data_query, finish_ping, answer_ping}

send_soon-lazy : (u : User) → (send_soon u).0.lazy ≡ u.lazy
unfolding send_soon
send_soon-lazy u = elim (Bool-cases (u.q_sendrealsoon.id == 0)) [
  | inl none' ↦ rw none' refl
  | inr waits ↦ rw waits (send_chunk-lazy u at_q_sendrealsoon)
]

finish_ping-lazy : (u : User) → (finish_ping u).0.lazy ≡ u.lazy
unfolding finish_ping
finish_ping-lazy u = elim (Bool-cases (u.q.id == 0)) [
  | inl none' ↦ rw none' refl
  | inr waits ↦ rw waits (send_chunk-lazy u at_q)
]

finish_waiting-lazy :
    (u : User) (didsend ok last : Bool) → (finish_waiting u didsend ok last).0.lazy ≡ u.lazy
unfolding finish_waiting
finish_waiting-lazy u d ok last =
    let now =
      (ltb 0 u.outpacket.len && not d)
      || ((ok && (not last && not d)) || ((not ok && not d) || not u.lazy)) in
    elim (Bool-cases (u.q.id == 0)) [
      | inl none' ↦ rw none' refl
      | inr waits ↦ elim (Bool-cases now) [
        | inl at_once ↦ rw (waits, at_once) (send_chunk-lazy u at_q)
        | inr later ↦ rw (waits, later) refl
      ]
    ]

ack_upstream-used :
    (u : User) (didsend ok last : Bool)
    → u.lazy ≡ false
    → (ack_upstream u didsend ok last).0.q.id ≡ 0
unfolding ack_upstream
ack_upstream-used u d ok last h =
    let must : (not d || not u.lazy) ≡ true = ground arith in
    elim (Bool-cases (ltb 0 u.outpacket.len && not d)) [
      | inl waiting ↦ rw waiting (send_chunk-used u at_q)
      | inr idle ↦ elim (Bool-cases (ok && last)) [
        | inl complete ↦ rw (idle, must, complete) refl
        | inr more ↦ rw (idle, must, more) (send_chunk-used u at_q)
      ]
    ]

-- If the user is not lazy, then after a data query no query is left waiting in q, whatever came
-- before and whether or not the fragment was new or the last.
pub answer_data_query-used :
    (u : User) (q : Query) (now : ℕ) (upstream_ok lastfrag : Bool)
    → u.lazy ≡ false
    → (answer_data_query u q now upstream_ok lastfrag).0.q.id ≡ 0
unfolding answer_data_query
answer_data_query-used u q now ok last h =
    let a = send_soon u in
    let b = finish_waiting a.0 a.2 ok last in
    ack_upstream-used (save_query b.0 q now) b.2 ok last
      (finish_waiting-lazy a.0 a.2 ok last ∙ send_soon-lazy u ∙ h)

-- If the user is not lazy, then after a ping no query is left waiting in q.
pub answer_ping-used :
    (u : User) (q : Query) (now : ℕ) → u.lazy ≡ false → (answer_ping u q now).0.q.id ≡ 0
unfolding answer_ping
answer_ping-used u q now h =
    let b = finish_ping (send_soon u).0 in
    let c = save_query b.0 q now in
    let not_lazy : c.lazy ≡ false = finish_ping-lazy (send_soon u).0 ∙ send_soon-lazy u ∙ h in
    let must : ((not b.2 && ltb 0 c.outpacket.len) || not c.lazy) ≡ true = ground arith in
    rw must (send_chunk-used c at_q)
