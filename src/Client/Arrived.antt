-- ===== src/Client/Arrived.antt =====
-- What a reply with data does to the packet that the client receives, and what the client writes
-- to the tun device: `tunnel_dns` of client.c.
use andiodine.Common.{ℕ, ◌+◌, ◌≤◌, ◌<◌, ◌≡◌, ◌≢◌, ◌⊎◌}
use andiodine.Common.{List, [], ◌∷◌, ◌++◌, length, Option, none, some}
use andiodine.User.{Packet}
use andiodine.Client.{Client}
use andiodine.Client.Downstream.{DownHeader, inpkt_size}
use andiodine.Client.Reassembly.{Holds, Awaits}

-- A fragment comes to a packet: it is the next of a packet of which `bytes` is there, and not the
-- last one; it is the next and the last one; or it belongs to the current packet and was there
-- before or is not the next one.
pub data Incoming (p : Packet) (h : DownHeader) (chunk : List ℕ) : Type 0 where
  more :
      (bytes : List ℕ)
      → Awaits p h.new_down_seqno h.new_down_fragment bytes
      → length bytes + length chunk ≤ inpkt_size
      → h.last_fragment ≡ 0
      → Incoming p h chunk
  final :
      (bytes : List ℕ)
      → Awaits p h.new_down_seqno h.new_down_fragment bytes
      → length bytes + length chunk ≤ inpkt_size
      → h.last_fragment ≡ 1
      → Incoming p h chunk
  unwanted :
      h.new_down_seqno ≡ p.seqno
      → (h.new_down_fragment ≤ p.fragment) × (p.len + p.fragment ≢ 0)
        ⊎ (p.fragment + 1 < h.new_down_fragment)
      → Incoming p h chunk

-- The packet that uncompress gives, if it gives one.
abbrev pub to_tun : Option (List ℕ) → List (List ℕ)
to_tun none = []
to_tun (some packet) = packet ∷ []

module _ (uncompress : List ℕ → Option (List ℕ)) where
  -- The packet and what is written behind it. A fragment that is not the last one is put behind
  -- the others. The last one completes the packet, which is decompressed and written, and then is
  -- no longer held. An unwanted one changes nothing.
  abbrev pub Becomes :
      (p : Packet) (h : DownHeader) (chunk : List ℕ)
      → Incoming p h chunk
      → Packet × List (List ℕ)
      → Type 0
  Becomes p h chunk (more bytes w fits e) (p', writes) =
      Holds p' h.new_down_seqno h.new_down_fragment (bytes ++ chunk) × (writes ≡ [])
  Becomes p h chunk (final bytes w fits e) (p', writes) =
      (p'.seqno ≡ h.new_down_seqno)
      × (p'.fragment ≡ h.new_down_fragment)
      × (p'.len ≡ 0)
      × (writes ≡ to_tun (uncompress (bytes ++ chunk)))
  Becomes p h chunk (unwanted e why) (p', writes) = (p' ≡ p) × (writes ≡ [])
