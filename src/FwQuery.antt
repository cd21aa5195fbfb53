-- ===== src/FwQuery.antt =====
-- The queries that were forwarded to another name server, until its answer comes: fw_query.c.
pub mod Lookup
mod Tests
use andiodine.Common.{ℕ, Bool, ◌==◌, List, [], replicate, get_or, set, Option, none, some}
use andiodine.Common.RingLog.{next_slot}
use andiodine.Common.Search.{find_first}

-- `addr` is the list of the `addrlen` bytes in use.
pub record FwQuery : Type 0 where
  pub addr : List ℕ
  pub id : ℕ

-- `FW_QUERY_CACHE_SIZE`
abbrev pub fw_query_cache_size : ℕ
fw_query_cache_size = 16

abbrev pub zero_fw_query : FwQuery
zero_fw_query = record { addr = []; id = 0 }

-- The static variables.
pub record Forwarded : Type 0 where
  pub fwq : List FwQuery
  pub fwq_ix : ℕ

unfoldable pub fw_query_init : Forwarded
fw_query_init = record { fwq = replicate fw_query_cache_size zero_fw_query; fwq_ix = 0 }

-- `++fwq_ix`, back to 0 at the end, is the slot behind it.
unfoldable pub fw_query_put : Forwarded → FwQuery → Forwarded
fw_query_put st q = record {
  fwq = set st.fwq st.fwq_ix q;
  fwq_ix = next_slot fw_query_cache_size st.fwq_ix;
}

-- `&(fwq[i])`, or NULL.
abbrev pub entry_at : List FwQuery → Option ℕ → Option FwQuery
entry_at fwq none = none
entry_at fwq (some i) = some (get_or fwq i zero_fw_query)

abbrev pub has_id : ℕ → FwQuery → Bool
has_id query_id q = q.id == query_id

unfoldable pub fw_query_get : Forwarded → ℕ → Option FwQuery
fw_query_get st query_id = entry_at st.fwq (find_first (has_id query_id) st.fwq)
