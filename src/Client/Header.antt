-- ===== src/Client/Header.antt =====
-- The client reads from the header of a reply what the server wrote into it.
use andiodine.Common.{ℕ, ◌+◌, ◌*◌, ◌/◌, ◌%◌, ◌<◌, ◌≡◌, ap, ap₂, ◌∙◌, arith, bit_and, bit_or}
use andiodine.Common.{List, ◌++◌}
use andiodine.Common.Bits.{shl, shr, low_1, low_3, low_4}
use andiodine.Common.Fields.{bit_or_below}
use andiodine.User.{User}
use andiodine.Server.SendChunk.{data_header}
use andiodine.Client.Downstream.{DownHeader, read_header}

-- The two bytes, as sums.
first_byte :
    (seq frag : ℕ)
    → seq < 256
    → frag < 256
    → bit_or (bit_or (shl 1 7) (shl (bit_and seq 7) 4)) (bit_and frag 15)
      ≡ 128 + seq % 8 * 16 + frag % 16
first_byte seq frag hs hf =
    ap₂ (λ (s f : ℕ). bit_or (bit_or (shl 1 7) (shl s 4)) f) (low_3 seq hs) (low_4 frag hf)
    ∙ ap (λ (b : ℕ). bit_or b (frag % 16))
        (bit_or_below 7 1 (seq % 8 * 16) (omega arith) ∙ omega arith)
    ∙ bit_or_below 4 (8 + seq % 8) (frag % 16) (omega arith)
    ∙ omega arith

second_byte :
    (seq frag last : ℕ)
    → seq < 256
    → frag < 256
    → last < 2
    → bit_or (bit_or (shl (bit_and seq 7) 5) (shl (bit_and frag 15) 1)) (bit_and last 1)
      ≡ seq % 8 * 32 + frag % 16 * 2 + last
second_byte seq frag last hs hf hl =
    ap₂ (λ (s f : ℕ). bit_or (bit_or (shl s 5) (shl f 1)) (bit_and last 1)) (low_3 seq hs)
      (low_4 frag hf)
    ∙ ap₂ (λ (b l : ℕ). bit_or b l)
        (bit_or_below 5 (seq % 8) (frag % 16 * 2) (omega arith) ∙ omega arith)
        (low_1 last (omega arith) ∙ omega arith)
    ∙ bit_or_below 1 (seq % 8 * 16 + frag % 16) last (omega arith)
    ∙ omega arith

-- The five fields of a header.
abbrev header_of : (ds df us uf l : ℕ) → DownHeader
header_of ds df us uf l = record {
  new_down_seqno = ds;
  new_down_fragment = df;
  up_ack_seqno = us;
  up_ack_fragment = uf;
  last_fragment = l;
}

-- What is read from two bytes that are such sums.
fields_of :
    (b0 b1 us uf ds df l : ℕ)
    → b0 ≡ 128 + us % 8 * 16 + uf % 16
    → b1 ≡ ds % 8 * 32 + df % 16 * 2 + l
    → l < 2
    → (bit_and (shr b1 5) 7 ≡ ds % 8)
      × (bit_and (shr b1 1) 15 ≡ df % 16)
      × (bit_and (shr b0 4) 7 ≡ us % 8)
      × (bit_and b0 15 ≡ uf % 16)
      × (bit_and b1 1 ≡ l)
fields_of b0 b1 us uf ds df l e0 e1 hl = (
  low_3 (b1 / 32) (omega arith) ∙ omega arith,
  low_4 (b1 / 2) (omega arith) ∙ omega arith,
  low_3 (b0 / 16) (omega arith) ∙ omega arith,
  low_4 b0 (omega arith) ∙ omega arith,
  low_1 b1 (omega arith) ∙ omega arith,
)

-- For sequence and fragment numbers below 256 and a flag of 0 or 1, the client reads from the two
-- bytes that the server wrote the sequence numbers modulo 8, the fragment numbers modulo 16, and
-- the flag, whatever follows them.
pub read_header-data_header :
    (u : User) (last : ℕ) (rest : List ℕ)
    → u.outpacket.seqno < 256
    → u.outpacket.fragment < 256
    → u.inpacket.seqno < 256
    → u.inpacket.fragment < 256
    → last < 2
    → let h = read_header (data_header u last ++ rest) in
      (h.new_down_seqno ≡ u.outpacket.seqno % 8)
      × (h.new_down_fragment ≡ u.outpacket.fragment % 16)
      × (h.up_ack_seqno ≡ u.inpacket.seqno % 8)
      × (h.up_ack_fragment ≡ u.inpacket.fragment % 16)
      × (h.last_fragment ≡ last)
unfolding read_header
read_header-data_header u last rest hos hof his hif hl =
    fields_of _ _ u.inpacket.seqno u.inpacket.fragment u.outpacket.seqno u.outpacket.fragment last
      (first_byte u.inpacket.seqno u.inpacket.fragment his hif)
      (second_byte u.outpacket.seqno u.outpacket.fragment last hos hof hl) hl
