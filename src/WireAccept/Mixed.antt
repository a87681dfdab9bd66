-- ===== src/WireAccept/Mixed.antt =====
-- One dynamic message that receives a segment, and then a message of the other format.
use cpp_ipc_dds.Common.{
  ℕ, ◌+◌, ◌-◌, ◌/◌, ◌^◌, ◌≤◌, ◌<◌, ◌≡◌, refl, true, List, ◌∷◌, arith, ltb, ◌==◌, length, take,
  length-take,
}
use cpp_ipc_dds.Framing.{MsgBase}
use cpp_ipc_dds.Control.Frames.{Allocates}
use cpp_ipc_dds.Generic.{FieldEntry, serialize}
use cpp_ipc_dds.Generic.RoundTrip.{AreFields, payload}
use cpp_ipc_dds.DzFlat.{write_header}
use cpp_ipc_dds.DzFlat.Header.{length-write_header}
use cpp_ipc_dds.WireAccept.{
  DzFlatRxStats, accept_wire, GenericMessage, dzflat_data, has_dzflat, generic_sink,
}
use cpp_ipc_dds.WireAccept.Carrier.{accept_wire-serialize, accept_wire-write_header}

-- A dynamic message takes a segment of `total_size` bytes with a written header, and then a
-- message that was serialized with the same id: fields with a name and the bytes that their type
-- lays down, over fewer than 65536 pages. The second call returns true, and the object holds the
-- fields of the message and still the segment: `has_dzflat` is true, and `dzflat_data` gives the
-- old segment, although the comment at `dzflat_read` says that fields and segment exclude each other.
pub accept_wire_mixed :
    (malloc : ℕ → List ℕ) (b : MsgBase) (f : FieldEntry) (fs : List FieldEntry) (seg : List ℕ)
    (schema_hash root_size total_size : ℕ) (st : DzFlatRxStats) (m : GenericMessage)
    → Allocates malloc
    → b.msg_id < 2 ^ 32
    → AreFields (f ∷ fs)
    → length (payload (f ∷ fs)) / 1460 < 2 ^ 16 - 1
    → schema_hash < 2 ^ 32
    → 32 + root_size ≤ total_size
    → total_size ≤ length seg
    → total_size < 2 ^ 32
    → let p = write_header seg schema_hash root_size total_size b.msg_id in
      let first = accept_wire generic_sink p b.msg_id st m in
      let second =
        accept_wire generic_sink (serialize malloc b (f ∷ fs)) b.msg_id first.stats first.object in
      (second.result ≡ true)
      × (second.object.fields ≡ f ∷ fs)
      × (has_dzflat second.object ≡ true)
      × (dzflat_data second.object ≡ take total_size p)
unfolding has_dzflat dzflat_data
accept_wire_mixed malloc b f fs seg h r t st m fresh id ok few hh hr ht hw =
    let p : List ℕ = write_header seg h r t b.msg_id in
    let same : (b.msg_id == b.msg_id) ≡ true = ground arith in
    let some_bytes : ltb 0 (length (take t p)) ≡ true =
      ground (arith, length-take t p, length-write_header seg h r t b.msg_id, hr, ht) in
    rw (accept_wire-write_header seg h r t b.msg_id b.msg_id st m hh id hr ht hw, same)
      (rw (accept_wire-serialize malloc b f fs b.msg_id _ _ fresh id ok few, same, some_bytes)
        (refl, refl, refl, refl))
