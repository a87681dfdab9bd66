-- ===== src/Control/Tests.antt =====
-- The theorems about the control frames at concrete messages.
use cpp_ipc_dds.Common.{
  ℕ, ◌≤◌, ◌≡◌, refl, List, [], ◌∷◌, arith, length, replicate, length-replicate,
}
use cpp_ipc_dds.Control.{
  Ident, Heartbeat, Ack, deserialize_ack, Ack2, Nack, NackBitmap, serialize_nack_bitmap,
  deserialize_nack_bitmap,
}
use cpp_ipc_dds.Control.Frames.{Allocates}
use cpp_ipc_dds.Control.RoundTrip.{IsIdent, older_ack, deserialize_ack-older_ack}
use cpp_ipc_dds.Control.NackList.{deserialize_nack_bitmap-serialize_nack_bitmap}
use cpp_ipc_dds.Control.Window.{IsWindow}

abbrev zeroed : ℕ → List ℕ
zeroed n = replicate n 0

zeroed-Allocates : Allocates zeroed
zeroed-Allocates n = length-replicate n 0

abbrev some_ident : Ident
some_ident = record {
  page_cnt = 713;
  total_size = 1048576;
  data_msg_id = 7;
  peer_id = 0xFFFFFFFF;
  sequence = 3;
}

some_ident-IsIdent : IsIdent some_ident
some_ident-IsIdent = record {
  page_cnt = omega arith;
  total_size = omega arith;
  data_msg_id = omega arith;
  peer_id = omega arith;
  sequence = omega arith;
}

abbrev no_ident : Ident
no_ident = record { page_cnt = 0; total_size = 0; data_msg_id = 0; peer_id = 0; sequence = 0 }

abbrev heartbeat : Heartbeat
heartbeat = record { ident = some_ident; flags = 5; round = 1 }

abbrev no_heartbeat : Heartbeat
no_heartbeat = record { ident = no_ident; flags = 0; round = 0 }

abbrev ack : Ack
ack = record { ident = some_ident; integrity_flags = 1; payload_crc32c = 0xDEADBEEF }

abbrev no_ack : Ack
no_ack = record { ident = no_ident; integrity_flags = 0; payload_crc32c = 0 }

deserialize_ack-older_ack_example :
    (length (older_ack zeroed some_ident) ≡ 30)
    × (deserialize_ack no_ack (older_ack zeroed some_ident)
        ≡ record no_ack { ident = record some_ident { sequence = no_ident.sequence } })
deserialize_ack-older_ack_example =
    deserialize_ack-older_ack zeroed some_ident no_ack zeroed-Allocates some_ident-IsIdent

abbrev ack2 : Ack2
ack2 = record { ack = ack; lost_pages = 12; observed_bps = 125000000 }

abbrev no_ack2 : Ack2
no_ack2 = record { ack = no_ack; lost_pages = 0; observed_bps = 0 }

abbrev nack : Nack
nack = record { ident = some_ident; missing_pages = 2 ∷ 5 ∷ 713 ∷ [] }

abbrev window : NackBitmap
window = record { ident = some_ident; base_page = 3; bit_cnt = 10; bitmap = 1 ∷ 2 ∷ [] }

window-IsWindow : IsWindow window
window-IsWindow = record { bits = omega arith; bytes = refl }

deserialize_nack_bitmap-serialize_nack_bitmap_example :
    (length (serialize_nack_bitmap zeroed window) ≤ 1472)
    × (deserialize_nack_bitmap window (serialize_nack_bitmap zeroed window)
        ≡ record window { bit_cnt = 16 })
deserialize_nack_bitmap-serialize_nack_bitmap_example =
    deserialize_nack_bitmap-serialize_nack_bitmap zeroed window window zeroed-Allocates
      some_ident-IsIdent (omega arith) window-IsWindow
