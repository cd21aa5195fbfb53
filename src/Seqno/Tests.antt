-- ===== src/Seqno/Tests.antt =====
-- Sequence numbers at concrete values.
use andiodine.Common.{◌≡◌, arith, ltb}
use andiodine.Seqno.{recent_seqno, recent_seqno_distance}

recent_seqno_distance_example : recent_seqno 1 6 ≡ ltb 3 4
recent_seqno_distance_example = recent_seqno_distance 1 6 (omega arith) (omega arith)
