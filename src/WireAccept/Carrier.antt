-- ===== src/WireAccept/Carrier.antt =====
-- A dynamic message as the receiver of both formats.
use cpp_ipc_dds.Common.{
  ℕ, ◌+◌, ◌-◌, ◌/◌, ◌^◌, ◌≤◌, ◌<◌, ◌≡◌, refl, inl, inr, Bool, true, false, ◌&&◌, none, some, List,
  [], ◌∷◌, arith, leb, ◌==◌, ◌/=◌, if◌then◌else◌, Bool-cases, length, take, length-append,
}
use cpp_ipc_dds.Framing.{MsgBase, check_id, serialize_data_cut}
use cpp_ipc_dds.Framing.Stream.{framed, next_tail}
use cpp_ipc_dds.Framing.Write.{message_stream}
use cpp_ipc_dds.Framing.Tail.{check_id-tail_bytes}
use cpp_ipc_dds.Control.Frames.{Allocates, of_le-le_bytes}
use cpp_ipc_dds.Generic.{FieldEntry, sized_bytes, serialize}
use cpp_ipc_dds.Generic.RoundTrip.{
  AreFields, encoded, payload, serialize_lem, deserialize-serialize,
}
use cpp_ipc_dds.DzFlat.{
  magic, write_header, magic_of, has_dzflat_magic, looks_like_dzflat, dzflat_peek_msg_id,
}
use cpp_ipc_dds.DzFlat.Header.{Headed, write_header-Headed, Headed-looks, length-write_header}
use cpp_ipc_dds.WireAccept.{
  dzflat_accepted, dzflat_id_skipped, tlv_accepted, tlv_id_skipped, DzFlatRxStats, note_dzflat_rx,
  accept_wire, GenericMessage, generic_read, generic_deserialize, generic_sink,
}
use cpp_ipc_dds.WireAccept.Outcomes.{not_magic-looks}

-- The stream of a message begins with the length of the first name.
stream_head :
    (b : MsgBase) (f : FieldEntry) (fs : List FieldEntry)
    → length f.name < 2 ^ 31
    → magic_of (message_stream b (payload (f ∷ fs))) ≡ length f.name
unfolding message_stream framed
stream_head b f fs h = of_le-le_bytes 4 (length f.name) (omega (arith, h))

name_short :
    (f : FieldEntry) (fs : List FieldEntry)
    → length (payload (f ∷ fs)) / 1460 < 2 ^ 16 - 1
    → length f.name < magic
name_short f fs h = omega (
  arith,
  h,
  length-append (encoded f) (payload fs),
  length-append (sized_bytes f.name) (f.kind ∷ f.bytes),
)

and_false : (a : Bool) → (a && false) ≡ false
and_false true = refl
and_false false = refl

-- So it does not begin with the magic number.
stream_tlv :
    (b : MsgBase) (f : FieldEntry) (fs : List FieldEntry)
    → length (payload (f ∷ fs)) / 1460 < 2 ^ 16 - 1
    → has_dzflat_magic (message_stream b (payload (f ∷ fs))) ≡ false
unfolding has_dzflat_magic
stream_tlv b f fs h =
    let short = name_short f fs h in
    let other : (length f.name == magic) ≡ false = ground (arith, short) in
    rw (stream_head b f fs (omega (arith, short)), other)
      (and_false (leb 4 (length (message_stream b (payload (f ∷ fs))))))

-- A dynamic message that was serialized with the id `b.msg_id` (one or more fields with a name
-- and the bytes that their type lays down, over fewer than 65536 pages) is taken by a dynamic
-- message that expects that id, and its fields are then those that were serialized; one that
-- expects another id skips it and stays as it was.
pub accept_wire-serialize :
    (malloc : ℕ → List ℕ) (b : MsgBase) (f : FieldEntry) (fs : List FieldEntry) (expected : ℕ)
    (st : DzFlatRxStats) (m : GenericMessage)
    → Allocates malloc
    → b.msg_id < 2 ^ 32
    → AreFields (f ∷ fs)
    → length (payload (f ∷ fs)) / 1460 < 2 ^ 16 - 1
    → accept_wire generic_sink (serialize malloc b (f ∷ fs)) expected st m ≡ (
        if b.msg_id == expected
        then record {
          result = true;
          stats = note_dzflat_rx tlv_accepted st;
          object = record m { fields = f ∷ fs };
        }
        else record { result = false; stats = note_dzflat_rx tlv_id_skipped st; object = m })
unfolding accept_wire generic_sink generic_deserialize
accept_wire-serialize malloc b f fs expected st m fresh id ok h =
    let b' : MsgBase = serialize_data_cut (length (payload (f ∷ fs))) b in
    let whole = payload (f ∷ fs) in
    let w = serialize_lem malloc fresh b f fs h in
    let tlv : has_dzflat_magic (serialize malloc b (f ∷ fs)) ≡ false =
      rw w.0 (stream_tlv b' f fs h) in
    let not_flat = not_magic-looks (serialize malloc b (f ∷ fs)) tlv in
    let same : check_id (serialize malloc b (f ∷ fs)) expected ≡ b.msg_id == expected = rw w.0 (
      unfold message_stream in
      check_id-tail_bytes b' (length whole / 1460 + 1) expected (framed (next_tail b') 0 whole)
        id) in
    let back = deserialize-serialize malloc b (f ∷ fs) fresh ok h in
    elim (Bool-cases (b.msg_id == expected)) [
      | inl e ↦ rw (not_flat, tlv, same, e, back) refl
      | inr e ↦ rw (not_flat, tlv, same, e) refl
    ]

-- A segment with a written header, of sizes that agree, is taken by a dynamic message that
-- expects its id, and its bytes and its schema hash are then those of the segment; one that
-- expects another id skips it and stays as it was.
pub accept_wire-write_header :
    (seg : List ℕ) (schema_hash root_size total_size msg_id expected : ℕ) (st : DzFlatRxStats)
    (m : GenericMessage)
    → schema_hash < 2 ^ 32
    → msg_id < 2 ^ 32
    → 32 + root_size ≤ total_size
    → total_size ≤ length seg
    → total_size < 2 ^ 32
    → let p = write_header seg schema_hash root_size total_size msg_id in
      accept_wire generic_sink p expected st m ≡ (
        if msg_id == expected
        then record {
          result = true;
          stats = note_dzflat_rx dzflat_accepted st;
          object = record m {
            dzflat_seg = take total_size p;
            dzflat_seg_hash = schema_hash;
            dzflat_borrow = none;
            fields = [];
          };
        }
        else record { result = false; stats = note_dzflat_rx dzflat_id_skipped st; object = m })
unfolding accept_wire generic_sink generic_read
accept_wire-write_header seg h r t id expected st m hh hm hr ht hw =
    let p : List ℕ = write_header seg h r t id in
    let e : Headed h r t id p =
      write_header-Headed seg h r t id (omega arith) hh (omega arith) hw hm in
    let looks : looks_like_dzflat p ≡ true =
      Headed-looks e (omega (arith, length-write_header seg h r t id)) in
    let peek : dzflat_peek_msg_id p ≡ some id =
      unfold dzflat_peek_msg_id in rw (looks, e.id) refl in
    elim (Bool-cases (id == expected)) [
      | inl same ↦
          let equal : (id /= expected) ≡ false = ground (arith, same) in
          rw (looks, peek, equal, same, e.total, e.hash) refl
      | inr other ↦
          let differ : (id /= expected) ≡ true = ground (arith, other) in
          rw (looks, peek, differ, other) refl
    ]
