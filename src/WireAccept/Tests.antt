-- ===== src/WireAccept/Tests.antt =====
-- Concrete messages in both formats.
use cpp_ipc_dds.Common.{
  ℕ, ◌≡◌, refl, true, false, none, List, [], ◌∷◌, arith, ◌==◌, if◌then◌else◌, take, replicate,
  length-replicate,
}
use cpp_ipc_dds.Framing.{MsgBase}
use cpp_ipc_dds.Control.Frames.{Allocates}
use cpp_ipc_dds.Generic.{FieldEntry, serialize}
use cpp_ipc_dds.Generic.Parse.{shape_of}
use cpp_ipc_dds.Generic.RoundTrip.{AreFields}
use cpp_ipc_dds.DzFlat.{write_header}
use cpp_ipc_dds.WireAccept.{
  tlv_accepted, tlv_id_skipped, DzFlatRxStats, note_dzflat_rx, accept_wire, GenericMessage,
  dzflat_data, has_dzflat, generic_sink,
}
use cpp_ipc_dds.WireAccept.Outcomes.{Reported, accept_wire-Reported}
use cpp_ipc_dds.WireAccept.Carrier.{accept_wire-serialize}
use cpp_ipc_dds.WireAccept.Mixed.{accept_wire_mixed}

abbrev zeroed : ℕ → List ℕ
zeroed n = replicate n 0

zeroed-Allocates : Allocates zeroed
zeroed-Allocates n = length-replicate n 0

abbrev base : MsgBase
base = record { total_size = 0; total_page_cnt = 0; msg_id = 9 }

abbrev x_field : FieldEntry
x_field = record { name = b'x' ∷ []; kind = 6; bytes = 2 ∷ 1 ∷ 0 ∷ 0 ∷ [] }

x_field-AreFields : AreFields (x_field ∷ [])
unfolding shape_of
x_field-AreFields = (
  record { named = omega arith; name_fits = omega arith; known = omega arith; shaped = refl },
  tt,
)

abbrev no_counts : DzFlatRxStats
no_counts = record {
  dzflat_accepted_cnt = 0;
  dzflat_id_skipped_cnt = 0;
  dzflat_header_bad_cnt = 0;
  dzflat_schema_drop_cnt = 0;
  tlv_accepted_cnt = 0;
  tlv_id_skipped_cnt = 0;
  tlv_corrupt_drop_cnt = 0;
}

abbrev new_message : GenericMessage
new_message = record {
  fields = [];
  dzflat_seg = [];
  dzflat_borrow = none;
  dzflat_len_borrowed = 0;
  dzflat_seg_hash = 0;
}

abbrev some_seg : List ℕ
some_seg = replicate 48 7

accept_wire-Reported_example :
    Reported GenericMessage generic_sink
      (write_header some_seg 77 8 48 9)
      9
      no_counts
      new_message
      (accept_wire generic_sink (write_header some_seg 77 8 48 9) 9 no_counts new_message)
accept_wire-Reported_example =
    accept_wire-Reported generic_sink (write_header some_seg 77 8 48 9) 9 no_counts new_message

accept_wire-serialize_example :
    accept_wire generic_sink (serialize zeroed base (x_field ∷ [])) 9 no_counts new_message ≡ (
      if 9 == 9
      then record {
        result = true;
        stats = note_dzflat_rx tlv_accepted no_counts;
        object = record new_message { fields = x_field ∷ [] };
      }
      else record {
        result = false;
        stats = note_dzflat_rx tlv_id_skipped no_counts;
        object = new_message;
      })
accept_wire-serialize_example =
    accept_wire-serialize zeroed base x_field [] 9 no_counts new_message zeroed-Allocates
      (omega arith) x_field-AreFields (omega arith)

accept_wire_mixed_example :
    let p = write_header some_seg 77 8 48 9 in
    let first = accept_wire generic_sink p 9 no_counts new_message in
    let second =
      accept_wire generic_sink (serialize zeroed base (x_field ∷ [])) 9 first.stats first.object in
    (second.result ≡ true)
    × (second.object.fields ≡ x_field ∷ [])
    × (has_dzflat second.object ≡ true)
    × (dzflat_data second.object ≡ take 48 p)
accept_wire_mixed_example =
    accept_wire_mixed zeroed base x_field [] some_seg 77 8 48 no_counts new_message zeroed-Allocates
      (omega arith) x_field-AreFields (omega arith) (omega arith) (omega arith) (omega arith)
      (omega arith)
