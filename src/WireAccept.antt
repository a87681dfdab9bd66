-- ===== src/WireAccept.antt =====
-- The entry of a received message in src/dzIPC/common/wire_accept.cc: one of two wire formats is
-- recognized, checked, and decoded into a message object, and each outcome is counted
-- (src/dzIPC/common/nodelet_config.cc).
pub mod Outcomes
pub mod Carrier
pub mod Mixed
mod Tests
use cpp_ipc_dds.Common.{
  ℕ, ◌+◌, Bool, true, false, not, ◌||◌, Option, none, some, List, [], ltb, ◌/=◌, if◌then◌else◌,
  length, take, u64,
}
use cpp_ipc_dds.Framing.{check_id}
use cpp_ipc_dds.DzFlat.{
  looks_like_dzflat, has_dzflat_magic, dzflat_peek_msg_id, schema_hash_of, total_size_of,
}
use cpp_ipc_dds.Generic.{FieldEntry}
use cpp_ipc_dds.Generic.Parse.{deserialize}

-- `detail::DzFlatRxEvent`
pub data DzFlatRxEvent : Type 0 where
  dzflat_accepted : DzFlatRxEvent
  dzflat_id_skipped : DzFlatRxEvent
  dzflat_header_bad : DzFlatRxEvent
  dzflat_schema_drop : DzFlatRxEvent
  tlv_accepted : DzFlatRxEvent
  tlv_id_skipped : DzFlatRxEvent
  tlv_corrupt_drop : DzFlatRxEvent

-- `DzFlatRxStats`; the array of counters has one element for each member.
pub record DzFlatRxStats : Type 0 where
  pub dzflat_accepted_cnt : ℕ
  pub dzflat_id_skipped_cnt : ℕ
  pub dzflat_header_bad_cnt : ℕ
  pub dzflat_schema_drop_cnt : ℕ
  pub tlv_accepted_cnt : ℕ
  pub tlv_id_skipped_cnt : ℕ
  pub tlv_corrupt_drop_cnt : ℕ

-- `NoteDzFlatRx`
unfoldable pub note_dzflat_rx : DzFlatRxEvent → DzFlatRxStats → DzFlatRxStats
note_dzflat_rx dzflat_accepted st = record st {
  dzflat_accepted_cnt = u64 (st.dzflat_accepted_cnt + 1);
}
note_dzflat_rx dzflat_id_skipped st = record st {
  dzflat_id_skipped_cnt = u64 (st.dzflat_id_skipped_cnt + 1);
}
note_dzflat_rx dzflat_header_bad st = record st {
  dzflat_header_bad_cnt = u64 (st.dzflat_header_bad_cnt + 1);
}
note_dzflat_rx dzflat_schema_drop st = record st {
  dzflat_schema_drop_cnt = u64 (st.dzflat_schema_drop_cnt + 1);
}
note_dzflat_rx tlv_accepted st = record st { tlv_accepted_cnt = u64 (st.tlv_accepted_cnt + 1) }
note_dzflat_rx tlv_id_skipped st = record st {
  tlv_id_skipped_cnt = u64 (st.tlv_id_skipped_cnt + 1);
}
note_dzflat_rx tlv_corrupt_drop st = record st {
  tlv_corrupt_drop_cnt = u64 (st.tlv_corrupt_drop_cnt + 1);
}

-- `DzFlatRxStats::defects`
abbrev pub defects : DzFlatRxStats → ℕ
defects st =
    u64 (u64 (st.dzflat_header_bad_cnt + st.dzflat_schema_drop_cnt) + st.tlv_corrupt_drop_cnt)

-- The virtual members of `IpcMsgBase` that a message class fills, on objects of type `S`.
pub record Sink {ℓ} (S : Type ℓ) : Type ℓ where
  pub dzflat_read : List ℕ → S → Bool × S
  pub deserialize_into : List ℕ → S → S
  pub deserialize_ok : S → Bool

-- What a call leaves: the result, the counters, and the object.
pub record Accepted {ℓ} (S : Type ℓ) : Type ℓ where
  pub result : Bool
  pub stats : DzFlatRxStats
  pub object : S

-- `id`, where `dzflat_peek_msg_id` gave one, is not the expected one.
abbrev pub other_id : Option ℕ → ℕ → Bool
other_id none expected = true
other_id (some id) expected = id /= expected

-- `AcceptWire`
unfoldable pub accept_wire {ℓ} : {S : Type ℓ} → Sink S → List ℕ → ℕ → DzFlatRxStats → S → Accepted S
accept_wire sink raw expected st s =
    let read = sink.dzflat_read raw s in
    let filled = sink.deserialize_into raw s in
    if looks_like_dzflat raw
    then if other_id (dzflat_peek_msg_id raw) expected
      then record { result = false; stats = note_dzflat_rx dzflat_id_skipped st; object = s }
      else if not read.0
      then record { result = false; stats = note_dzflat_rx dzflat_schema_drop st; object = read.1 }
      else record { result = true; stats = note_dzflat_rx dzflat_accepted st; object = read.1 }
    else if has_dzflat_magic raw
    then record { result = false; stats = note_dzflat_rx dzflat_header_bad st; object = s }
    else if not (check_id raw expected)
    then record { result = false; stats = note_dzflat_rx tlv_id_skipped st; object = s }
    else if not (sink.deserialize_ok filled)
    then record { result = false; stats = note_dzflat_rx tlv_corrupt_drop st; object = filled }
    else record { result = true; stats = note_dzflat_rx tlv_accepted st; object = filled }

-- What a `GenericMessage` holds: `fields_`, `dzflat_seg_`, `dzflat_borrow_`, `dzflat_len_` and
-- `dzflat_seg_hash_`.
pub record GenericMessage : Type 0 where
  pub fields : List FieldEntry
  pub dzflat_seg : List ℕ
  pub dzflat_borrow : Option (List ℕ)
  pub dzflat_len_borrowed : ℕ
  pub dzflat_seg_hash : ℕ

-- `GenericMessage::dzflat_read`
unfoldable pub generic_read : List ℕ → GenericMessage → Bool × GenericMessage
generic_read seg m = if not (looks_like_dzflat seg) then (false, m) else (
  true,
  record m {
    dzflat_seg = take (total_size_of seg) seg;
    dzflat_seg_hash = schema_hash_of seg;
    dzflat_borrow = none;
    fields = [];
  },
)

-- `GenericMessage::dzflat_adopt`
unfoldable pub dzflat_adopt : List ℕ → ℕ → GenericMessage → Bool × GenericMessage
dzflat_adopt buf schema_hash m = if not (looks_like_dzflat buf) then (false, m) else (
  true,
  record m {
    dzflat_borrow = some buf;
    dzflat_len_borrowed = total_size_of buf;
    dzflat_seg_hash = schema_hash;
    dzflat_seg = [];
    fields = [];
  },
)

-- `GenericMessage::dzflat_data` with the length of `dzflat_len`: the bytes of the segment.
unfoldable pub dzflat_data : GenericMessage → List ℕ
dzflat_data m = data_of m.dzflat_borrow
  where
    data_of : Option (List ℕ) → List ℕ
    data_of none = m.dzflat_seg
    data_of (some buf) = take m.dzflat_len_borrowed buf

-- `GenericMessage::has_dzflat`
unfoldable pub has_dzflat : GenericMessage → Bool
has_dzflat m = ltb 0 (length m.dzflat_seg) || borrowed m.dzflat_borrow
  where
    borrowed : Option (List ℕ) → Bool
    borrowed none = false
    borrowed (some buf) = true

-- `GenericMessage::deserialize` on the object; the loop of Generic.Parse ends on every buffer shorter than
-- 2 ^ 31 - 12 bytes.
unfoldable pub generic_deserialize : List ℕ → GenericMessage → GenericMessage
generic_deserialize buf m = record m { fields = fields_of (deserialize buf) }
  where
    fields_of : Option (List FieldEntry) → List FieldEntry
    fields_of none = []
    fields_of (some fs) = fs

-- The class `GenericMessage`. Its `deserialize` clears `_deser_overflow` and never sets it; `deserialize_ok`
-- is asked behind `check_id`, on buffers of at least 12 bytes, where `deserialize` has cleared it.
unfoldable pub generic_sink : Sink GenericMessage
generic_sink = record {
  dzflat_read = generic_read;
  deserialize_into = generic_deserialize;
  deserialize_ok = λ m. true;
}
