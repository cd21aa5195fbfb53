-- ===== src/Server/Outpacket/Ack.antt =====
-- What an ack of a downstream fragment does to the data that is still to be sent.
use andiodine.Common.{ℕ, ◌+◌, ◌-◌, ◌≤◌, ◌<◌, ◌≡◌, ◌≢◌, refl, ap, sym, ◌∙◌, arith}
use andiodine.Common.{true, false, not, ◌||◌, ltb, leb, ◌==◌, if◌then◌else◌, ◌⊎◌, inl, inr}
use andiodine.Common.{Bool-cases, none, some, List, [], ◌∷◌, length, take, drop}
use andiodine.Common.{length-drop, length-take_of_le, drop-drop, drop-nil}
use andiodine.User.{Packet, User}
use andiodine.Server.Outpacket.{advance, start_new_outpacket, get_from_outpacketq}
use andiodine.Server.Outpacket.{process_downstream_ack}
use andiodine.Server.Outpacket.Queue.{content, waiting, IsValid, Fits, dequeue}
use andiodine.Server.Outpacket.Queue.{get_refines, get-IsValid}

-- The bytes of the current packet that are not acknowledged.
abbrev pub remaining : Packet → List ℕ
remaining p = drop p.offset (content p)

-- All that is to be sent: the rest of the current packet, and the packets behind it.
abbrev pub backlog : User → List ℕ × List (List ℕ)
backlog u = (remaining u.outpacket, waiting u)

-- The next packet of a queue becomes the current one.
abbrev pub next_packet : List (List ℕ) → List ℕ × List (List ℕ)
next_packet [] = ([], [])
next_packet (w ∷ ws) = (w, ws)

-- `n` bytes are acknowledged.
abbrev pub acknowledge : ℕ → List ℕ × List (List ℕ) → List ℕ × List (List ℕ)
acknowledge n (current, ws) =
    if ltb n (length current) then (drop n current, ws) else next_packet ws

-- The fields of a user whose current packet is done, before the queue is looked at.
abbrev done : User → User
done u = record (advance u) {
  outpacket = record (advance u).outpacket { len = 0; offset = 0; fragment = u.outpacket.fragment };
}

pub length-remaining : (p : Packet) → Fits p → length (remaining p) ≡ p.len - p.offset
length-remaining p h =
    length-drop p.offset (content p)
    ∙ ap (λ (n : ℕ). n - p.offset) (length-take_of_le p.len p.bytes h.1)

some-ne-none {ℓ} : {A : Type ℓ} {a : A} → some a ≢ none
some-ne-none e = cc

next_of_dequeue :
    (ws ws' : List (List ℕ)) (c : List ℕ) → (ws', some c) ≡ dequeue ws → (c, ws') ≡ next_packet ws
next_of_dequeue [] ws' c e = absurd (some-ne-none (ap (λ p. p.1) e))
next_of_dequeue (w ∷ ws) ws' c e = ground arith

none_of_dequeue : (ws ws' : List (List ℕ)) → (ws', none) ≡ dequeue ws → ([], ws') ≡ next_packet ws
none_of_dequeue [] ws' e = ground arith
none_of_dequeue (w ∷ ws) ws' e = absurd (some-ne-none (sym (ap (λ p. p.1) e)))

remaining-empty : (p : Packet) → p.len ≡ 0 → remaining p ≡ []
remaining-empty p e = ap (λ (n : ℕ). drop p.offset (take n p.bytes)) e ∙ drop-nil p.offset

-- Once the current packet is done the next one is current.
pub get-backlog :
    (u : User)
    → IsValid u
    → u.outpacket.len ≡ 0
    → backlog (get_from_outpacketq u).0 ≡ next_packet (waiting u)
unfolding get_from_outpacketq start_new_outpacket
get-backlog u v e =
    let law = get_refines u v in
    elim (Bool-cases (u.outpacketq_filled == 0)) [
      | inl empty ↦ rw empty (
          ap (λ r. (r, waiting u)) (remaining-empty u.outpacket e)
          ∙ none_of_dequeue (waiting u) (waiting u) (rw empty at law))
      | inr ready ↦ rw ready (next_of_dequeue (waiting u) _ _ (rw ready at law))
    ]

-- An ack changes nothing if no packet is under way or its sequence number or fragment is not the
-- current one.
pub ack_ignored :
    (u : User) (down_seq down_frag : ℕ)
    → (u.outpacket.len ≡ 0) ⊎ (u.outpacket.seqno ≢ down_seq) ⊎ (u.outpacket.fragment ≢ down_frag)
    → process_downstream_ack u down_seq down_frag ≡ u
unfolding process_downstream_ack
ack_ignored u s f (inl e) = let b : (u.outpacket.len == 0) ≡ true = ground arith in rw b refl
ack_ignored u s f (inr other) =
    let p = u.outpacket in
    let b : (not (p.seqno == s) || not (p.fragment == f)) ≡ true = ground arith in
    elim (Bool-cases (p.len == 0)) [ inl none' ↦ rw none' refl | inr some' ↦ rw (some', b) refl ]

done-IsValid : (u : User) → IsValid u → IsValid (done u)
done-IsValid u v = record {
  slots = v.slots;
  next_in = v.next_in;
  filled_in = v.filled_in;
  fits = v.fits;
  current = (omega arith, omega arith);
  progress = omega arith;
}

pub acknowledge_all :
    (n : ℕ) (current : List ℕ) (ws : List (List ℕ))
    → length current ≤ n
    → acknowledge n (current, ws) ≡ next_packet ws
acknowledge_all n current ws h = ground arith

pub acknowledge_some :
    (n : ℕ) (current : List ℕ) (ws : List (List ℕ))
    → n < length current
    → acknowledge n (current, ws) ≡ (drop n current, ws)
acknowledge_some n current ws h = ground arith

-- In a well-formed user, an ack for the fragment sent last, with a packet under way, takes
-- exactly the bytes sent last off what is still to be sent; when that ends the packet, the packet
-- that waits longest follows.
pub ack_refines :
    (u : User) (down_seq down_frag : ℕ)
    → IsValid u
    → u.outpacket.len ≢ 0
    → u.outpacket.seqno ≡ down_seq
    → u.outpacket.fragment ≡ down_frag
    → backlog (process_downstream_ack u down_seq down_frag)
      ≡ acknowledge u.outpacket.sentlen (backlog u)
unfolding process_downstream_ack
ack_refines u s f v ne es ef =
    let p = u.outpacket in
    let b : (p.len == 0) ≡ false = ground arith in
    let b' : (not (p.seqno == s) || not (p.fragment == f)) ≡ false = ground arith in
    elim (Bool-cases (leb p.len (p.offset + p.sentlen))) [
      | inl all ↦
          rw (b, b', all)
            (get-backlog (done u) (done-IsValid u v) refl
              ∙ sym (
                  acknowledge_all p.sentlen (remaining p) (waiting u)
                    (ground (arith, length-remaining p v.current))))
      | inr more ↦
          rw (b, b', more)
            (ap (λ r. (r, waiting u)) (sym (drop-drop p.offset p.sentlen (content p)))
              ∙ sym (
                  acknowledge_some p.sentlen (remaining p) (waiting u)
                    (ground (arith, length-remaining p v.current))))
    ]

-- Every ack, proper or not, keeps a user well formed: four slots, counters in range, packets
-- within their buffers, no more sent than there is.
pub ack-IsValid :
    (u : User) (down_seq down_frag : ℕ)
    → IsValid u
    → IsValid (process_downstream_ack u down_seq down_frag)
unfolding process_downstream_ack
ack-IsValid u s f v =
    let p = u.outpacket in
    elim (Bool-cases (p.len == 0)) [
      | inl none' ↦ rw none' v
      | inr some' ↦ elim (Bool-cases (not (p.seqno == s) || not (p.fragment == f))) [
        | inl other ↦ rw (some', other) v
        | inr proper ↦ elim (Bool-cases (leb p.len (p.offset + p.sentlen))) [
          | inl all ↦ rw (some', proper, all) (get-IsValid (done u) (done-IsValid u v))
          | inr more ↦
              rw (some', proper, more)
                (record {
                  slots = v.slots;
                  next_in = v.next_in;
                  filled_in = v.filled_in;
                  fits = v.fits;
                  current = v.current;
                  progress = omega (arith, v.progress);
                })
        ]
      ]
    ]
