-- ===== src/Server/Upstream/Reassembly.antt =====
-- The fragments of a packet, in order and with any repeats dropped, make up the packet.
use andiodine.Common.{ℕ, ◌+◌, ◌-◌, ◌≤◌, ◌<◌, ◌≡◌, ◌≢◌, refl, ap, ap₂, subst, sym, ◌∙◌, arith, min}
use andiodine.Common.{Bool, true, false, ◌⊎◌, ◌&&◌, leb, ◌==◌, if◌then◌else◌, inl, inr}
use andiodine.Common.{
  List, [], ◌∷◌, ◌++◌, append-nil, append_assoc, length, take, drop, take-append, take_all,
}
use andiodine.Common.{length-append}
use andiodine.User.{Packet}
use andiodine.Seqno.{recent_seqno}
use andiodine.Server.Upstream.{accept_fragment, store_fragment, receive_fragment, inpacket_size}

-- The bytes received of the packet: `len` and `offset` move together.
pub record Received (p : Packet) (got : List ℕ) : Type 0 where
  pub len_offset : p.len ≡ p.offset
  pub has : length got ≡ p.len
  pub prefix_is : take p.len p.bytes ≡ got

store_fragment-Received :
    (p : Packet) (got unpacked : List ℕ)
    → Received p got
    → length got + length unpacked ≤ inpacket_size
    → Received (store_fragment p unpacked) (got ++ unpacked)
unfolding store_fragment
store_fragment-Received p got unpacked v h =
    let n = min (length unpacked) (inpacket_size - p.offset) in
    let all : n ≡ length unpacked = omega (arith, v.len_offset, v.has) in
    let before : take p.offset p.bytes ≡ got =
      ap (λ (k : ℕ). take k p.bytes) (sym v.len_offset) ∙ v.prefix_is in
    let chunk : take n unpacked ≡ unpacked =
      ap (λ (k : ℕ). take k unpacked) all ∙ take_all unpacked in
    let behind = drop (p.offset + n) p.bytes in
    let size : p.len + n ≡ length (got ++ unpacked) =
      omega (arith, length-append got unpacked, v.has) in
    record {
      len_offset = omega (arith, v.len_offset);
      has = sym size;
      prefix_is =
          ap₂ (λ (k : ℕ) w. take k w) size
            (ap₂ (λ a b. a ++ (b ++ behind)) before chunk ∙ sym (append_assoc got unpacked behind))
          ∙ take-append (got ++ unpacked) behind;
    }

-- What follows the four cases.
finish : Packet × Bool → List ℕ → Packet
finish r unpacked = if r.1 then store_fragment r.0 unpacked else r.0

receive-finish :
    (p q : Packet) (s f : ℕ) (ok : Bool) (unpacked : List ℕ)
    → accept_fragment p s f ≡ (q, ok)
    → receive_fragment p s f unpacked ≡ finish (q, ok) unpacked
unfolding receive_fragment finish
receive-finish p q s f ok unpacked e = ap (λ r. finish r unpacked) e

accept-repeat :
    (p : Packet) (s f : ℕ)
    → (s ≡ p.seqno) × (f ≤ p.fragment) ⊎ (s ≢ p.seqno) × (recent_seqno p.seqno s ≡ true)
    → accept_fragment p s f ≡ (p, false)
unfolding accept_fragment
accept-repeat p s f (inl (same, old)) =
    let b : (s == p.seqno && leb f p.fragment) ≡ true = ground arith in rw b refl
accept-repeat p s f (inr (other, recent)) =
    let b : (s == p.seqno) ≡ false = ground arith in rw (b, recent) refl

accept-new :
    (p : Packet) (s f : ℕ)
    → s ≢ p.seqno
    → recent_seqno p.seqno s ≡ false
    → accept_fragment p s f ≡ (record p { seqno = s; fragment = f; len = 0; offset = 0 }, true)
unfolding accept_fragment
accept-new p s f other old = let b : (s == p.seqno) ≡ false = ground arith in rw (b, old) refl

accept-next :
    (p : Packet) (s f : ℕ)
    → s ≡ p.seqno
    → p.fragment < f
    → accept_fragment p s f ≡ (record p { fragment = f }, true)
unfolding accept_fragment
accept-next p s f same more =
    let b : (s == p.seqno) ≡ true = ground arith in
    let b' : leb f p.fragment ≡ false = ground arith in rw (b, b') refl

-- A fragment of the current packet that is not newer than the last one, and any fragment of a
-- recent packet, leaves the packet being received as it is.
pub repeat_ignored :
    (p : Packet) (up_seq up_frag : ℕ) (unpacked : List ℕ)
    → (up_seq ≡ p.seqno) × (up_frag ≤ p.fragment)
      ⊎ (up_seq ≢ p.seqno) × (recent_seqno p.seqno up_seq ≡ true)
    → receive_fragment p up_seq up_frag unpacked ≡ p
unfolding finish
repeat_ignored p s f unpacked h = receive-finish p p s f false unpacked (accept-repeat p s f h)

-- Fragment `f` of packet `s` was the last one received, and the bytes are these.
Holds : Packet → ℕ → ℕ → List ℕ → Type 0
Holds p s f got = Received p got × (p.seqno ≡ s) × (p.fragment ≡ f)

-- The first fragment of a new packet starts it afresh.
receive-new :
    (p : Packet) (s f : ℕ) (unpacked : List ℕ)
    → s ≢ p.seqno
    → recent_seqno p.seqno s ≡ false
    → length unpacked ≤ inpacket_size
    → Holds (receive_fragment p s f unpacked) s f unpacked
unfolding finish Holds store_fragment
receive-new p s f unpacked other old h =
    let q = record p { seqno = s; fragment = f; len = 0; offset = 0 } in
    let empty : Received q [] = record { len_offset = refl; has = refl; prefix_is = refl } in
    subst (λ w. Holds w s f unpacked)
      (sym (receive-finish p q s f true unpacked (accept-new p s f other old)))
      (store_fragment-Received q [] unpacked empty (omega arith), refl, refl)

receive-next :
    (p : Packet) (s f f' : ℕ) (got unpacked : List ℕ)
    → Holds p s f got
    → f < f'
    → length got + length unpacked ≤ inpacket_size
    → Holds (receive_fragment p s f' unpacked) s f' (got ++ unpacked)
unfolding finish Holds store_fragment
receive-next p s f f' got unpacked (v, seq, frag) more h =
    let q = record p { fragment = f' } in
    let same : Received q got = record {
      len_offset = v.len_offset;
      has = v.has;
      prefix_is = v.prefix_is;
    } in
    subst (λ w. Holds w s f' (got ++ unpacked))
      (sym (receive-finish p q s f' true unpacked (accept-next p s f' (sym seq) (omega arith))))
      (store_fragment-Received q got unpacked same h, seq, refl)

-- The fragments of one packet arrive in their order, from number `f` on.
abbrev pub receive_all : Packet → (up_seq up_frag : ℕ) → List (List ℕ) → Packet
receive_all p s f [] = p
receive_all p s f (c ∷ cs) = receive_all (receive_fragment p s f c) s (f + 1) cs

abbrev pub concat : List (List ℕ) → List ℕ
concat [] = []
concat (c ∷ cs) = c ++ concat cs

receive_all-Received :
    (p : Packet) (s f : ℕ) (got : List ℕ) (cs : List (List ℕ))
    → Holds p s f got
    → length got + length (concat cs) ≤ inpacket_size
    → Received (receive_all p s (f + 1) cs) (got ++ concat cs)
unfolding Holds
receive_all-Received p s f got [] (v, _, _) h = rw (append-nil got) v
receive_all-Received p s f got (c ∷ cs) v h =
    let both = length-append c (concat cs) in
    subst (Received (receive_all (receive_fragment p s (f + 1) c) s (f + 1 + 1) cs))
      (append_assoc got c (concat cs))
      (receive_all-Received (receive_fragment p s (f + 1) c) s (f + 1) (got ++ c) cs
        (receive-next p s f (f + 1) got c v (omega arith) (omega arith))
        (omega (arith, length-append got c)))

-- If the sequence number is not that of the packet received last and not a recent one, and the
-- data fits 64 KB, then the fragments of a packet, received in order and numbered from 0 on, are
-- in the buffer one behind the other and nothing else is counted.
pub receive_all-concat :
    (p : Packet) (up_seq : ℕ) (c : List ℕ) (cs : List (List ℕ))
    → up_seq ≢ p.seqno
    → recent_seqno p.seqno up_seq ≡ false
    → length (concat (c ∷ cs)) ≤ inpacket_size
    → Received (receive_all p up_seq 0 (c ∷ cs)) (concat (c ∷ cs))
receive_all-concat p s c cs other old h =
    let both = length-append c (concat cs) in
    receive_all-Received (receive_fragment p s 0 c) s 0 c cs
      (receive-new p s 0 c other old (omega arith)) (omega arith)
