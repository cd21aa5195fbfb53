-- ===== src/Server/Ping.antt =====
-- The ack in a ping: `handle_null_request` of iodined.c.
use andiodine.Common.{ℕ, bit_and, List, get_or}
use andiodine.Common.Bits.{shr}

-- `dn_seq` and `dn_frag`
abbrev pub ping_ack : List ℕ → ℕ × ℕ
ping_ack unpacked = (shr (get_or unpacked 1 0) 4, bit_and (get_or unpacked 1 0) 15)
