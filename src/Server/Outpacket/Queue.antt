-- ===== src/Server/Outpacket/Queue.antt =====
-- The ring of waiting packets is a queue of at most four packets.
use andiodine.Common.{ℕ, zero, suc, ◌+◌, ◌-◌, ◌≤◌, ◌<◌, ◌≡◌, refl, ap, ap₂, sym, ◌∙◌, arith, min}
use andiodine.Common.{
  Option, none, some, Bool, true, false, leb, ◌==◌, if◌then◌else◌, Bool-cases, inl, inr,
}
use andiodine.Common.{
  List, [], ◌∷◌, ◌++◌, length, take, get_or, set, All, length-set, All-set, All-get_or,
}
use andiodine.Common.RingLog.{next_slot, next_slot-lt}
use andiodine.Common.RingQueue.{slot_ahead, items_from, items_from-save, items_from-next}
use andiodine.Common.RingQueue.{slot_ahead-zero}
use andiodine.User.{
  Packet, User, zero_packet, memcpy, take-memcpy, take-memcpy_of_le, length-memcpy_le,
  outpacketq_len,
}
use andiodine.Server.Outpacket.{packet_size, start_new_outpacket, save_to_outpacketq}
use andiodine.Server.Outpacket.{get_from_outpacketq}
use mathlib.Core.List.{map, map-append}
use native.Mathlib.Numerals.{add-one}

-- The bytes that a packet holds.
abbrev pub content : Packet → List ℕ
content p = take p.len p.bytes

abbrev waiting_of : List Packet → (first filled : ℕ) → List (List ℕ)
waiting_of slots first filled =
    map content (items_from zero_packet outpacketq_len slots first 0 filled)

-- The packets behind the one being sent, the next one first.
abbrev pub waiting : User → List (List ℕ)
waiting u = waiting_of u.outpacketq u.outpacketq_nexttouse u.outpacketq_filled

-- A packet holds its bytes, and fits the buffer.
abbrev pub Fits : Packet → Type 0
Fits p = (p.len ≤ packet_size) × (p.len ≤ length p.bytes)

-- The ring has its four slots, its counters are in range, each packet fits its buffer,
-- and no more of the current packet is sent than there is.
pub record IsValid (u : User) : Type 0 where
  pub slots : length u.outpacketq ≡ outpacketq_len
  pub next_in : u.outpacketq_nexttouse < outpacketq_len
  pub filled_in : u.outpacketq_filled ≤ outpacketq_len
  pub fits : All Fits u.outpacketq
  pub current : Fits u.outpacket
  pub progress : u.outpacket.offset + u.outpacket.sentlen ≤ u.outpacket.len

-- As an abstract queue: what `save_to_outpacketq` and `get_from_outpacketq` promise.
abbrev pub dequeue : List (List ℕ) → List (List ℕ) × Option (List ℕ)
dequeue [] = ([], none)
dequeue (w ∷ ws) = (ws, some w)

abbrev pub enqueue : List (List ℕ) → List ℕ → List (List ℕ) × Bool
enqueue ws bytes =
    if leb outpacketq_len (length ws)
    then (ws, false)
    else (ws ++ (take packet_size bytes ∷ []), true)

length-waiting_of :
    (slots : List Packet) (first i k : ℕ)
    → length (map content (items_from zero_packet outpacketq_len slots first i k)) ≡ k
length-waiting_of slots first i zero = refl
length-waiting_of slots first i (suc k) = ap suc (length-waiting_of slots first (suc i) k)

abbrev filled_packet : Packet → List ℕ → Packet
filled_packet p bytes =
    let n = min (length bytes) packet_size in
    record p { bytes = memcpy p.bytes (take n bytes); len = n }

content-filled_packet :
    (p : Packet) (bytes : List ℕ) → content (filled_packet p bytes) ≡ take packet_size bytes
content-filled_packet p bytes = take-memcpy packet_size p.bytes bytes

waiting_of-save :
    (slots : List Packet) (first k : ℕ) (p : Packet) (bytes : List ℕ)
    → first < outpacketq_len
    → k < outpacketq_len
    → length slots ≡ outpacketq_len
    → waiting_of
        (set slots (slot_ahead outpacketq_len first k) (filled_packet p bytes))
        first
        (suc k)
      ≡ waiting_of slots first k ++ (take packet_size bytes ∷ [])
waiting_of-save slots first k p bytes hf hk hs =
    ap (map content) (
      items_from-save zero_packet outpacketq_len slots (filled_packet p bytes) first 0 k k hf
        (omega arith) hk (omega arith))
    ∙ map-append content (items_from zero_packet outpacketq_len slots first 0 k)
        (filled_packet p bytes ∷ [])
    ∙ ap (λ w. waiting_of slots first k ++ (w ∷ [])) (content-filled_packet p bytes)

-- In a well-formed user, save_to_outpacketq puts the data, cut to 64 KB, behind all the packets
-- that wait, or drops it and changes nothing of the queue when four packets wait; its result says
-- which.
pub save_refines :
    (u : User) (bytes : List ℕ)
    → IsValid u
    → let (u', done) = save_to_outpacketq u bytes (length bytes) in
      (waiting u', done) ≡ enqueue (waiting u) bytes
unfolding save_to_outpacketq
save_refines u bytes v = elim (Bool-cases (leb outpacketq_len filled)) [
  | inl full ↦ rw (full, length-waiting_of slots first 0 filled, full) refl
  | inr room ↦
      rw (room, length-waiting_of slots first 0 filled, room, add-one)
        (ap (λ w. (w, true))
          (waiting_of-save slots first filled
            (get_or slots (slot_ahead outpacketq_len first filled) zero_packet) bytes v.next_in
            (ground arith) v.slots))
]
  where
    open u use {outpacketq as slots, outpacketq_nexttouse as first, outpacketq_filled as filled}

waiting_of-next :
    (slots : List Packet) (first k : ℕ)
    → first < outpacketq_len
    → suc k ≤ outpacketq_len
    → waiting_of slots first (suc k)
      ≡ content (get_or slots first zero_packet)
        ∷ waiting_of slots (next_slot outpacketq_len first) k
waiting_of-next slots first k hf hk =
    ap₂ ◌∷◌
      (ap (λ (i : ℕ). content (get_or slots i zero_packet))
        (slot_ahead-zero outpacketq_len first hf))
      (sym (
        ap (map content)
          (items_from-next zero_packet outpacketq_len slots first 0 k hf (omega arith))))

content-start_new_outpacket :
    (u : User) (p : Packet)
    → Fits p
    → content (start_new_outpacket u p.bytes p.len).outpacket ≡ content p
unfolding start_new_outpacket
content-start_new_outpacket u p (small, has) =
    let e : min p.len packet_size ≡ p.len = omega arith in
    rw e (take-memcpy_of_le p.len u.outpacket.bytes p.bytes has)

-- In a well-formed user, get_from_outpacketq makes the packet that waits longest the current one
-- and takes it off the queue, or reports that none waits.
pub get_refines :
    (u : User)
    → IsValid u
    → let (u', done) = get_from_outpacketq u in
      (waiting u', if done then some (content u'.outpacket) else none) ≡ dequeue (waiting u)
unfolding get_from_outpacketq start_new_outpacket
get_refines u v = elim (Bool-cases (filled == 0)) [
  | inl empty ↦ let e : filled ≡ 0 = ground arith in rw (empty, e) refl
  | inr ready ↦
      let e : filled ≡ suc (filled - 1) = ground arith in
      let p = get_or slots first zero_packet in
      let fits : Fits p = All-get_or Fits slots first zero_packet v.fits (omega arith) in
      rw ready (
        ap (λ c. (waiting_of slots (next_slot outpacketq_len first) (filled - 1), some c))
          (content-start_new_outpacket u p fits)
        ∙ sym (
            ap dequeue (
              ap (waiting_of slots first) e
              ∙ waiting_of-next slots first (filled - 1) v.next_in (omega (arith, v.filled_in)))))
]
  where
    open u use {outpacketq as slots, outpacketq_nexttouse as first, outpacketq_filled as filled}

-- Both operations keep the user well formed.
pub save-IsValid :
    (u : User) (bytes : List ℕ) → IsValid u → IsValid (save_to_outpacketq u bytes (length bytes)).0
unfolding save_to_outpacketq
save-IsValid u bytes v = elim (Bool-cases (leb outpacketq_len u.outpacketq_filled)) [
  | inl full ↦ rw full v
  | inr room ↦
      let first = u.outpacketq_nexttouse in
      let fill = slot_ahead outpacketq_len first u.outpacketq_filled in
      let p = get_or u.outpacketq fill zero_packet in
      rw room (record {
        slots = length-set u.outpacketq fill (filled_packet p bytes) ∙ v.slots;
        next_in = v.next_in;
        filled_in = ground arith;
        fits = All-set Fits u.outpacketq fill (filled_packet p bytes) v.fits (
          omega arith,
          length-memcpy_le p.bytes bytes (min (length bytes) packet_size) (omega arith),
        );
        current = v.current;
        progress = v.progress;
      })
]

pub start-Fits :
    (u : User) (bytes : List ℕ) (n : ℕ)
    → n ≤ length bytes
    → Fits (start_new_outpacket u bytes n).outpacket
unfolding start_new_outpacket
start-Fits u bytes n h =
    (omega arith, length-memcpy_le u.outpacket.bytes bytes (min n packet_size) (omega arith))

pub get-IsValid : (u : User) → IsValid u → IsValid (get_from_outpacketq u).0
unfolding get_from_outpacketq start_new_outpacket
get-IsValid u v = elim (Bool-cases (u.outpacketq_filled == 0)) [
  | inl empty ↦ rw empty v
  | inr ready ↦
      let p = get_or u.outpacketq u.outpacketq_nexttouse zero_packet in
      let fits : Fits p =
        All-get_or Fits u.outpacketq u.outpacketq_nexttouse zero_packet v.fits (omega arith) in
      rw ready (record {
        slots = v.slots;
        next_in = next_slot-lt outpacketq_len u.outpacketq_nexttouse v.next_in;
        filled_in = omega (arith, v.filled_in);
        fits = v.fits;
        current = start-Fits u p.bytes p.len fits.1;
        progress = omega arith;
      })
]
