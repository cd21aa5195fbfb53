-- ===== src/Client/Reassembly.antt =====
-- The fragments of a downstream packet, in order, make up the packet; others change nothing.
use andiodine.Common.{ℕ, ◌+◌, ◌-◌, ◌≤◌, ◌<◌, ◌≡◌, ◌≢◌, refl, ap, ap₂, sym, subst, ◌∙◌, arith, min}
use andiodine.Common.{Bool, true, false, ◌⊎◌, ◌&&◌, ltb, leb, ◌==◌, if◌then◌else◌, inl, inr}
use andiodine.Common.{
  List, [], ◌++◌, append_assoc, length, take, drop, take-append, take_all, length-append,
}
use andiodine.User.{Packet}
use andiodine.Client.Downstream.{
  DownHeader, inpkt_size, place_fragment, append_fragment, complete, Arrival,
}
use andiodine.Client.Downstream.{ignored, partial, whole, receive_downstream}

-- Fragment `f` of packet `s` came last, and these are the bytes so far.
pub record Holds (p : Packet) (s f : ℕ) (bytes : List ℕ) : Type 0 where
  pub seq : p.seqno ≡ s
  pub frag : p.fragment ≡ f
  pub has : p.len ≡ length bytes
  pub prefix_is : take p.len p.bytes ≡ bytes

append_fragment-Holds :
    (p : Packet) (s f f' : ℕ) (bytes chunk : List ℕ)
    → Holds p s f bytes
    → length bytes + length chunk ≤ inpkt_size
    → Holds (append_fragment p f' chunk) s f' (bytes ++ chunk)
unfolding append_fragment
append_fragment-Holds p s f f' bytes chunk v h =
    let n = min (length chunk) (inpkt_size - p.len) in
    let all : n ≡ length chunk = omega (arith, v.has) in
    let behind = drop (p.len + n) p.bytes in
    let size : p.len + n ≡ length (bytes ++ chunk) =
      omega (arith, length-append bytes chunk, v.has) in
    record {
      seq = v.seq;
      frag = refl;
      has = size;
      prefix_is =
          ap₂ (λ (k : ℕ) w. take k w) size
            (ap₂ (λ a b. a ++ (b ++ behind)) v.prefix_is
                (ap (λ (k : ℕ). take k chunk) all ∙ take_all chunk)
              ∙ sym (append_assoc bytes chunk behind))
          ∙ take-append (bytes ++ chunk) behind;
    }

-- The packet before a fragment `f` of packet `s`, behind `bytes`: it starts a packet, or follows
-- the fragment before it, or a reply without data.
pub data Awaits (p : Packet) (s : ℕ) : ℕ → List ℕ → Type 0 where
  fresh : {f : ℕ} → s ≢ p.seqno → Awaits p s f []
  next : {f : ℕ} {bytes : List ℕ} → Holds p s f bytes → Awaits p s (f + 1) bytes
  header_came : Holds p s 0 [] → Awaits p s 0 []

-- A fragment that is awaited is taken.
placed :
    (p : Packet) (s f : ℕ) (bytes : List ℕ)
    → Awaits p s f bytes
    → (q : Packet) × (g : ℕ) × (place_fragment p s f ≡ (q, true)) × Holds q s g bytes
unfolding place_fragment
placed p s f bytes (fresh other) =
    let b : (s == p.seqno) ≡ false = ground arith in
    (
      record p { seqno = s; fragment = f; len = 0 },
      f,
      rw b refl,
      record { seq = refl; frag = refl; has = refl; prefix_is = refl },
    )
placed p s f bytes (next {f = g} v) =
    let b1 : (s == p.seqno) ≡ true = ground (arith, v.seq) in
    let b2 : (p.fragment == 0 && (g + 1 == 0 && p.len == 0)) ≡ false = ground arith in
    let b3 : leb (g + 1) p.fragment ≡ false = ground (arith, v.frag) in
    let b4 : ltb (p.fragment + 1) (g + 1) ≡ false = ground (arith, v.frag) in
    (p, g, rw (b1, b2, b3, b4) refl, v)
placed p s f bytes (header_came v) =
    let b1 : (s == p.seqno) ≡ true = ground (arith, v.seq) in
    let b2 : (p.fragment == 0 && (0 == 0 && p.len == 0)) ≡ true = ground (arith, v.frag, v.has) in
    (p, 0, rw (b1, b2) refl, v)

-- What follows the cases.
taken : Packet × Bool → DownHeader → List ℕ → Packet × Arrival
taken r h chunk =
    if r.1
    then complete (append_fragment r.0 h.new_down_fragment chunk) h.last_fragment
    else (r.0, ignored)

receive-taken :
    (p : Packet) (h : DownHeader) (chunk : List ℕ)
    → receive_downstream p h chunk
      ≡ taken (place_fragment p h.new_down_seqno h.new_down_fragment) h chunk
unfolding receive_downstream taken
receive-taken p h chunk = refl

-- The packet goes on, or is complete.
abbrev pub Took : Packet × Arrival → DownHeader → List ℕ → Type 0
Took (q, arrival) h bytes =
    ((h.last_fragment ≡ 0)
      → (arrival ≡ partial) × Holds q h.new_down_seqno h.new_down_fragment bytes)
    × ((h.last_fragment ≡ 1)
        → (arrival ≡ whole bytes)
          × (q.seqno ≡ h.new_down_seqno)
          × (q.fragment ≡ h.new_down_fragment))

complete-Took :
    (x : Packet) (h : DownHeader) (bytes : List ℕ)
    → Holds x h.new_down_seqno h.new_down_fragment bytes
    → Took (complete x h.last_fragment) h bytes
complete-Took x h bytes v = (
  λ more.
      subst
        (λ (l : ℕ).
          ((complete x l).1 ≡ partial)
          × Holds (complete x l).0 h.new_down_seqno h.new_down_fragment bytes)
        (sym more) (refl, v),
  λ last.
      subst
        (λ (l : ℕ).
          ((complete x l).1 ≡ whole bytes)
          × ((complete x l).0.seqno ≡ h.new_down_seqno)
          × ((complete x l).0.fragment ≡ h.new_down_fragment))
        (sym last) (ap whole v.prefix_is, v.seq, v.frag),
)

-- A fragment that is awaited is put behind the bytes so far.
pub received :
    (p : Packet) (h : DownHeader) (bytes chunk : List ℕ)
    → Awaits p h.new_down_seqno h.new_down_fragment bytes
    → length bytes + length chunk ≤ inpkt_size
    → Took (receive_downstream p h chunk) h (bytes ++ chunk)
unfolding taken
received p h bytes chunk w fits =
    let (q, g, e, v) = placed p h.new_down_seqno h.new_down_fragment bytes w in
    let x = append_fragment q h.new_down_fragment chunk in
    subst (λ r. Took r h (bytes ++ chunk))
      (sym (receive-taken p h chunk ∙ ap (λ r. taken r h chunk) e))
      (complete-Took x h (bytes ++ chunk)
        (append_fragment-Holds q h.new_down_seqno g h.new_down_fragment bytes chunk v fits))

-- Behind the last fragment nothing is held.
pub receive-len :
    (p : Packet) (h : DownHeader) (bytes chunk : List ℕ)
    → Awaits p h.new_down_seqno h.new_down_fragment bytes
    → h.last_fragment ≡ 1
    → (receive_downstream p h chunk).0.len ≡ 0
unfolding taken
receive-len p h bytes chunk w last =
    let (q, g, e, v) = placed p h.new_down_seqno h.new_down_fragment bytes w in
    ap (λ r. r.0.len) (receive-taken p h chunk ∙ ap (λ r. taken r h chunk) e)
    ∙ ap (λ (l : ℕ). (complete (append_fragment q h.new_down_fragment chunk) l).0.len) last

refused :
    (p : Packet) (h : DownHeader)
    → h.new_down_seqno ≡ p.seqno
    → (h.new_down_fragment ≤ p.fragment) × (p.len + p.fragment ≢ 0)
      ⊎ (p.fragment + 1 < h.new_down_fragment)
    → place_fragment p h.new_down_seqno h.new_down_fragment ≡ (p, false)
unfolding place_fragment
refused p h same (inl (old, some')) =
    let f = h.new_down_fragment in
    let b1 : (h.new_down_seqno == p.seqno) ≡ true = ground (arith, same) in
    let b2 : (p.fragment == 0 && (f == 0 && p.len == 0)) ≡ false = ground arith in
    let b3 : leb f p.fragment ≡ true = ground (arith, old) in rw (b1, b2, b3) refl
refused p h same (inr skipped) =
    let f = h.new_down_fragment in
    let b1 : (h.new_down_seqno == p.seqno) ≡ true = ground (arith, same) in
    let b2 : (p.fragment == 0 && (f == 0 && p.len == 0)) ≡ false = ground arith in
    let b3 : leb f p.fragment ≡ false = ground arith in
    let b4 : ltb (p.fragment + 1) f ≡ true = ground arith in rw (b1, b2, b3, b4) refl

-- A fragment of the packet received last leaves that packet as it is, if it is not newer than the
-- last fragment and the packet is not still empty at fragment 0, or if it is more than one
-- fragment ahead.
pub receive_downstream_ignored :
    (p : Packet) (h : DownHeader) (chunk : List ℕ)
    → h.new_down_seqno ≡ p.seqno
    → (h.new_down_fragment ≤ p.fragment) × (p.len + p.fragment ≢ 0)
      ⊎ (p.fragment + 1 < h.new_down_fragment)
    → receive_downstream p h chunk ≡ (p, ignored)
unfolding taken
receive_downstream_ignored p h chunk same old =
    receive-taken p h chunk ∙ ap (λ r. taken r h chunk) (refused p h same old)
