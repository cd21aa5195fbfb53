-- ===== src/Server/Upstream/Header.antt =====
-- The server reads from a header what the client wrote into it.
use andiodine.Common.{ℕ, ◌+◌, ◌*◌, ◌/◌, ◌%◌, ◌<◌, ◌≡◌, ap, ap₂, ◌∙◌, arith, bit_and, bit_or}
use andiodine.Common.Bits.{shl, shr, low_1, low_2, low_3, low_4}
use andiodine.Common.Fields.{bit_or_below}
use andiodine.Codec.Base32.{b32_5to8, b32_8to5}
use andiodine.Codec.Base32.Bits.{b32_8to5-b32_5to8}
use andiodine.User.{Packet}
use andiodine.Server.Upstream.{DataHeader, build_header, decode_header}

-- The three codes, as sums.
module _ (out_seq out_frag : ℕ) where
  first_code :
      out_seq < 256
      → out_frag < 256
      → b32_8to5 (b32_5to8 (bit_or (shl (bit_and out_seq 7) 2) (shr (bit_and out_frag 15) 2)))
        ≡ out_seq % 8 * 4 + out_frag % 16 / 4
  first_code hs hf =
      ap₂ (λ (s f : ℕ). b32_8to5 (b32_5to8 (bit_or (shl s 2) (shr f 2)))) (low_3 out_seq hs)
        (low_4 out_frag hf)
      ∙ ap (λ (c : ℕ). b32_8to5 (b32_5to8 c))
          (bit_or_below 2 (out_seq % 8) (out_frag % 16 / 4) (omega arith))
      ∙ b32_8to5-b32_5to8 (out_seq % 8 * 4 + out_frag % 16 / 4) (omega arith)

  second_code :
      (in_seq : ℕ)
      → out_frag < 256
      → in_seq < 256
      → b32_8to5 (b32_5to8 (bit_or (shl (bit_and out_frag 3) 3) (bit_and in_seq 7)))
        ≡ out_frag % 4 * 8 + in_seq % 8
  second_code in_seq hf hs =
      ap₂ (λ (f s : ℕ). b32_8to5 (b32_5to8 (bit_or (shl f 3) s))) (low_2 out_frag hf)
        (low_3 in_seq hs)
      ∙ ap (λ (c : ℕ). b32_8to5 (b32_5to8 c))
          (bit_or_below 3 (out_frag % 4) (in_seq % 8) (omega arith))
      ∙ b32_8to5-b32_5to8 (out_frag % 4 * 8 + in_seq % 8) (omega arith)

third_code :
    (in_frag last : ℕ)
    → in_frag < 256
    → last < 2
    → b32_8to5 (b32_5to8 (bit_or (shl (bit_and in_frag 15) 1) last)) ≡ in_frag % 16 * 2 + last
third_code in_frag last hf hl =
    ap (λ (f : ℕ). b32_8to5 (b32_5to8 (bit_or (shl f 1) last))) (low_4 in_frag hf)
    ∙ ap (λ (c : ℕ). b32_8to5 (b32_5to8 c)) (bit_or_below 1 (in_frag % 16) last (omega arith))
    ∙ b32_8to5-b32_5to8 (in_frag % 16 * 2 + last) (omega arith)

-- What the server makes of three codes.
fields : ℕ → ℕ → ℕ → DataHeader
fields x y z = record {
  up_seq = bit_and (shr x 2) 7;
  up_frag = bit_or (shl (bit_and x 3) 2) (bit_and (shr y 3) 3);
  dn_seq = bit_and y 7;
  dn_frag = shr z 1;
  lastfrag = bit_and z 1;
}

up_frag_of :
    (x y f : ℕ)
    → x < 32
    → y < 32
    → x % 4 ≡ f % 16 / 4
    → y / 8 ≡ f % 4
    → bit_or (shl (bit_and x 3) 2) (bit_and (shr y 3) 3) ≡ f % 16
up_frag_of x y f hx hy ex ey =
    ap₂ (λ (a b : ℕ). bit_or (shl a 2) b) (low_2 x (omega arith)) (low_2 (y / 8) (omega arith))
    ∙ bit_or_below 2 (x % 4) (y / 8 % 4) (omega arith)
    ∙ omega arith

header_of : (us uf ds df l : ℕ) → DataHeader
header_of us uf ds df l = record {
  up_seq = us;
  up_frag = uf;
  dn_seq = ds;
  dn_frag = df;
  lastfrag = l;
}

header_eq :
    (us uf ds df l us' uf' ds' df' l' : ℕ)
    → us ≡ us'
    → uf ≡ uf'
    → ds ≡ ds'
    → df ≡ df'
    → l ≡ l'
    → header_of us uf ds df l ≡ header_of us' uf' ds' df' l'
header_eq us uf ds df l us' uf' ds' df' l' a b c d e =
    ap₂ (λ (x y : ℕ). header_of x y ds df l) a b
    ∙ ap₂ (λ (x y : ℕ). header_of us' uf' x y l) c d
    ∙ ap (header_of us' uf' ds' df') e

fields_eq :
    (x y z us uf ds df l : ℕ)
    → x ≡ us % 8 * 4 + uf % 16 / 4
    → y ≡ uf % 4 * 8 + ds % 8
    → z ≡ df % 16 * 2 + l
    → l < 2
    → fields x y z ≡ header_of (us % 8) (uf % 16) (ds % 8) (df % 16) l
unfolding fields header_of
fields_eq x y z us uf ds df l ex ey ez hl =
    header_eq _ _ _ _ _ (us % 8) (uf % 16) (ds % 8) (df % 16) l
      (low_3 (x / 4) (omega arith) ∙ omega arith)
      (up_frag_of x y uf (omega arith) (omega arith) (omega arith) (omega arith))
      (low_3 y (omega arith) ∙ omega arith) (omega arith) (low_1 z (omega arith) ∙ omega arith)

-- For sequence and fragment numbers below 256 and a flag of 0 or 1, the server reads from the
-- three chars that the client wrote the sequence numbers modulo 8, the fragment numbers modulo
-- 16, and the flag.
pub decode_header-build_header :
    (outpkt inpkt : Packet) (sent_all : ℕ)
    → outpkt.seqno < 256
    → outpkt.fragment < 256
    → inpkt.seqno < 256
    → inpkt.fragment < 256
    → sent_all < 2
    → decode_header (build_header outpkt inpkt sent_all) ≡ record {
      up_seq = outpkt.seqno % 8;
      up_frag = outpkt.fragment % 16;
      dn_seq = inpkt.seqno % 8;
      dn_frag = inpkt.fragment % 16;
      lastfrag = sent_all;
    }
unfolding decode_header build_header fields header_of
decode_header-build_header o i l hos hof his hif hl =
    fields_eq _ _ _ o.seqno o.fragment i.seqno i.fragment l (first_code o.seqno o.fragment hos hof)
      (second_code o.seqno o.fragment i.seqno hof his) (third_code i.fragment l hif hl) hl
