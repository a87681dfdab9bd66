-- ===== src/NackSend/Tests.antt =====
-- The theorems about the NACKs that are sent, for a receiver that lacks the pages 2 and 4 of five.
use cpp_ipc_dds.Common.{ℕ, ◌-◌, ◌≡◌, refl, ◌≢◌, true, ◌&&◌, some, List, [], ◌∷◌, arith, ltb}
use cpp_ipc_dds.Control.{Ident, NackBitmap, reset_window, set_bit, set_missing, is_missing}
use cpp_ipc_dds.Control.Window.{IsWindow}
use cpp_ipc_dds.NackSend.{
  scanned, scan_missing, fill_window, nothing, send_nack_bitmap_for_missing, send_nack_auto,
}
use cpp_ipc_dds.NackSend.Selection.{send_nack_bitmap_for_missing_lem, send_nack_auto_asks}

abbrev some_ident : Ident
some_ident = record { page_cnt = 5; total_size = 6000; data_msg_id = 7; peer_id = 1; sequence = 3 }

abbrev flags : List ℕ
flags = 0 ∷ 1 ∷ 0 ∷ 1 ∷ 0 ∷ 1 ∷ []

abbrev both_lost : NackBitmap
both_lost = record { ident = some_ident; base_page = 2; bit_cnt = 3; bitmap = 5 ∷ [] }

both_lost_sent : send_nack_bitmap_for_missing some_ident flags ≡ some both_lost
unfolding send_nack_bitmap_for_missing fill_window scan_missing reset_window set_missing set_bit
both_lost_sent = refl

send_nack_bitmap_for_missing_lem_example :
    IsWindow both_lost
    × (is_missing both_lost 4 ≡ true && ltb (4 - (scanned some_ident flags).first_missing) 11496)
send_nack_bitmap_for_missing_lem_example =
    send_nack_bitmap_for_missing_lem some_ident flags both_lost 4 (omega arith) (omega arith)
      both_lost_sent

send_nack_auto_asks_example : send_nack_auto some_ident flags true ≢ nothing
send_nack_auto_asks_example =
    send_nack_auto_asks some_ident flags true 4 (omega arith) (omega arith) refl
