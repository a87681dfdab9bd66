-- ===== src/Control.antt =====
-- The control frames of include/ipc_msg/ipc_msg_base/udp_rtps_ack_msg.hpp: NACK, bitmap NACK, ACK,
-- ACK with congestion feedback, and heartbeat. A message object is the record of its members.
-- `malloc n` stands for the buffer of n bytes, of any contents, that `serialize_data_cut` allocates.
-- Multi-byte members lie in memory as on a little-endian host.
pub mod Frames
pub mod RoundTrip
pub mod NackList
pub mod Window
mod Tests
use cpp_ipc_dds.Common.{
  ℕ, zero, suc, ◌+◌, ◌-◌, ◌*◌, ◌/◌, ◌%◌, min, Bool, false, ◌||◌, List, [], ◌∷◌, ◌++◌, map, ltb, leb,
  ◌==◌, ◌/=◌, if◌then◌else◌, length, get_or, set, take, replicate, u16, le_bytes, of_le,
}
use cpp_ipc_dds.Framing.{
  MsgBase, Cursor, check_id, serialize_data_cut, serialize_fields, deserialize_data_cut,
  deserialize_fields,
}

abbrev pub nack_msg_id : ℕ
nack_msg_id = 0x445A4E4B

abbrev pub nack_bitmap_msg_id : ℕ
nack_bitmap_msg_id = 0x445A4E42

abbrev pub ack_msg_id : ℕ
ack_msg_id = 0x445A414B

abbrev pub ack2_msg_id : ℕ
ack2_msg_id = 0x445A4132

abbrev pub heartbeat_msg_id : ℕ
heartbeat_msg_id = 0x445A4842

-- `is_rtps_control_frame`
pub is_rtps_control_frame : ℕ → Bool
is_rtps_control_frame id =
    id == heartbeat_msg_id
    || id == ack_msg_id
    || id == ack2_msg_id
    || id == nack_msg_id
    || id == nack_bitmap_msg_id

-- The calls that every `serialize` makes: `serialize_data_cut(total)`, one `adapt_memcpy_tos` for
-- each field, `add_tail_msg`.
pub serialize_message : (ℕ → List ℕ) → ℕ → ℕ → List (List ℕ) → List ℕ
serialize_message malloc id total fs =
    let b = serialize_data_cut total (record { total_size = 0; total_page_cnt = 0; msg_id = id }) in
    serialize_fields b fs (record { buf = malloc b.total_size; page = 1; offset = 0 })

-- The calls of a `deserialize`: `deserialize_data_cut(buffer.size())`, then one `adapt_memcpy_tods`
-- for each of the lengths.
pub read_fields : List ℕ → List ℕ → Cursor → List (List ℕ) × Cursor
read_fields buf lens c =
    deserialize_fields
      (deserialize_data_cut (length buf)
        (record { total_size = 0; total_page_cnt = 0; msg_id = 0 }))
      buf lens c

abbrev pub start : Cursor
start = record { offset = 0; overflow = false }

-- The number that was copied into the field `i`.
abbrev pub field : List (List ℕ) → ℕ → ℕ
field fs i = of_le (get_or fs i [])

-- The members that every control message begins with. `peer_id` is `sender_id` in a heartbeat and
-- `receiver_id` in the others.
pub record Ident : Type 0 where
  pub page_cnt : ℕ
  pub total_size : ℕ
  pub data_msg_id : ℕ
  pub peer_id : ℕ
  pub sequence : ℕ

abbrev pub ident_fields : Ident → List (List ℕ)
ident_fields m =
    le_bytes 2 m.page_cnt
    ∷ le_bytes 4 m.total_size
    ∷ le_bytes 4 m.data_msg_id
    ∷ le_bytes 4 m.peer_id
    ∷ le_bytes 4 m.sequence
    ∷ []

abbrev pub read_ident : List (List ℕ) → Ident
read_ident fs = record {
  page_cnt = field fs 0;
  total_size = field fs 1;
  data_msg_id = field fs 2;
  peer_id = field fs 3;
  sequence = field fs 4;
}

-- `IpcRtpsHeartbeatMsg`
pub record Heartbeat : Type 0 where
  pub ident : Ident
  pub flags : ℕ
  pub round : ℕ

abbrev pub heartbeat_wire_size : ℕ
heartbeat_wire_size = 2 + 4 + 4 + 4 + 4 + 1 + 2 + 12

pub serialize_heartbeat : (ℕ → List ℕ) → Heartbeat → List ℕ
serialize_heartbeat malloc m =
    serialize_message malloc heartbeat_msg_id (2 + 4 + 4 + 4 + 4 + 1 + 2)
      (ident_fields m.ident ++ (le_bytes 1 m.flags ∷ le_bytes 2 m.round ∷ []))

pub deserialize_heartbeat : Heartbeat → List ℕ → Heartbeat
deserialize_heartbeat m buf =
    let fs = (read_fields buf (2 ∷ 4 ∷ 4 ∷ 4 ∷ 4 ∷ 1 ∷ 2 ∷ []) start).0 in
    if length buf /= heartbeat_wire_size
    then m
    else record { ident = read_ident fs; flags = field fs 5; round = field fs 6 }

-- `IpcRtpsAckMsg`
pub record Ack : Type 0 where
  pub ident : Ident
  pub integrity_flags : ℕ
  pub payload_crc32c : ℕ

abbrev pub ack_fields : Ack → List (List ℕ)
ack_fields m =
    ident_fields m.ident ++ (le_bytes 1 m.integrity_flags ∷ le_bytes 4 m.payload_crc32c ∷ [])

pub serialize_ack : (ℕ → List ℕ) → Ack → List ℕ
serialize_ack malloc m =
    serialize_message malloc ack_msg_id (2 + 4 + 4 + 4 + 4 + 1 + 4) (ack_fields m)

-- `min_size_for_seq` and `min_size_for_crc`, which are the same number.
abbrev pub min_size_for_seq : ℕ
min_size_for_seq = 2 + 4 + 4 + 4 + 4 + 1 + 4 + 12

abbrev pub min_size_for_crc : ℕ
min_size_for_crc = 2 + 4 + 4 + 4 + 4 + 1 + 4 + 12

-- `deserialize`, with its three tests of the buffer's size.
pub deserialize_ack : Ack → List ℕ → Ack
deserialize_ack m buf =
    let (fs, c) = read_fields buf (2 ∷ 4 ∷ 4 ∷ 4 ∷ []) start in
    let (seq, c1) = read_fields buf (4 ∷ []) c in
    let long = leb min_size_for_seq (length buf) in
    let sequence = if long then field seq 0 else m.ident.sequence in
    let crc = (read_fields buf (1 ∷ 4 ∷ []) (if long then c1 else c)).0 in
    let ident : Ident = record {
      page_cnt = field fs 0;
      total_size = field fs 1;
      data_msg_id = field fs 2;
      peer_id = field fs 3;
      sequence = sequence;
    } in
    if leb min_size_for_crc (length buf) || leb (min_size_for_seq + 1 + 4) (length buf)
    then record { ident = ident; integrity_flags = field crc 0; payload_crc32c = field crc 1 }
    else record m { ident = ident }

-- `IpcRtpsAck2Msg`
pub record Ack2 : Type 0 where
  pub ack : Ack
  pub lost_pages : ℕ
  pub observed_bps : ℕ

abbrev pub ack2_wire_size : ℕ
ack2_wire_size = 2 + 4 + 4 + 4 + 4 + 1 + 4 + 2 + 4 + 12

pub serialize_ack2 : (ℕ → List ℕ) → Ack2 → List ℕ
serialize_ack2 malloc m =
    serialize_message malloc ack2_msg_id (2 + 4 + 4 + 4 + 4 + 1 + 4 + 2 + 4)
      (ack_fields m.ack ++ (le_bytes 2 m.lost_pages ∷ le_bytes 4 m.observed_bps ∷ []))

pub deserialize_ack2 : Ack2 → List ℕ → Ack2
deserialize_ack2 m buf =
    let fs = (read_fields buf (2 ∷ 4 ∷ 4 ∷ 4 ∷ 4 ∷ 1 ∷ 4 ∷ 2 ∷ 4 ∷ []) start).0 in
    if length buf /= ack2_wire_size then m else record {
      ack = record {
        ident = read_ident fs;
        integrity_flags = field fs 5;
        payload_crc32c = field fs 6;
      };
      lost_pages = field fs 7;
      observed_bps = field fs 8;
    }

-- `IpcRtpsNackMsg`
pub record Nack : Type 0 where
  pub ident : Ident
  pub missing_pages : List ℕ

abbrev pub max_missing_pages : ℕ
max_missing_pages = 256

pub serialize_nack : (ℕ → List ℕ) → Nack → List ℕ
serialize_nack malloc m =
    let miss_cnt = min (length m.missing_pages) max_missing_pages in
    serialize_message malloc nack_msg_id (2 + 4 + 4 + 4 + 4 + 2 + miss_cnt * 2) (
      ident_fields m.ident
      ++ (le_bytes 2 miss_cnt ∷ map (le_bytes 2) (take miss_cnt m.missing_pages)))

pub deserialize_nack : List ℕ → Nack
deserialize_nack buf =
    let (fs, c) = read_fields buf (2 ∷ 4 ∷ 4 ∷ 4 ∷ 4 ∷ 2 ∷ []) start in
    let clamp_cnt = min (field fs 5) max_missing_pages in
    record {
      ident = read_ident fs;
      missing_pages = map of_le (read_fields buf (replicate clamp_cnt 2) c).0;
    }

-- `IpcRtpsNackBitmapMsg`
pub record NackBitmap : Type 0 where
  pub ident : Ident
  pub base_page : ℕ
  pub bit_cnt : ℕ
  pub bitmap : List ℕ

abbrev pub max_wire_bytes : ℕ
max_wire_bytes = 1459

abbrev pub fixed_field_bytes : ℕ
fixed_field_bytes = 2 + 4 + 4 + 4 + 4 + 2 + 2

abbrev pub max_bitmap_bytes : ℕ
max_bitmap_bytes = max_wire_bytes - fixed_field_bytes

abbrev pub max_bitmap_bits : ℕ
max_bitmap_bits = max_bitmap_bytes * 8

unfoldable pub reset_window : NackBitmap → ℕ → ℕ → NackBitmap
reset_window m base bits =
    let bit_cnt = u16 (min bits max_bitmap_bits) in
    record m { base_page = base; bit_cnt = bit_cnt; bitmap = replicate ((bit_cnt + 7) / 8) 0 }

-- The byte `v | (1 << k)`, and the test `(v & (1 << k)) != 0`.
unfoldable pub set_bit : ℕ → ℕ → ℕ
set_bit v zero = v - v % 2 + 1
set_bit v (suc k) = v % 2 + 2 * set_bit (v / 2) k

pub test_bit : ℕ → ℕ → Bool
test_bit v zero = v % 2 /= 0
test_bit v (suc k) = test_bit (v / 2) k

unfoldable pub set_missing : NackBitmap → ℕ → NackBitmap
unfolding set_bit
set_missing m page =
    let idx = page - m.base_page in
    if ltb page m.base_page then m else if leb m.bit_cnt idx then m else record m {
      bitmap = set m.bitmap (idx / 8) (set_bit (get_or m.bitmap (idx / 8) 0) (idx % 8));
    }

pub is_missing : NackBitmap → ℕ → Bool
unfolding test_bit
is_missing m page =
    let idx = page - m.base_page in
    if ltb page m.base_page
    then false
    else if leb m.bit_cnt idx || leb (length m.bitmap) (idx / 8)
    then false
    else test_bit (get_or m.bitmap (idx / 8) 0) (idx % 8)

abbrev pub map_bytes_of : NackBitmap → ℕ
map_bytes_of m =
    let bits = u16 (min m.bit_cnt max_bitmap_bits) in u16 (min ((bits + 7) / 8) (length m.bitmap))

pub serialize_nack_bitmap : (ℕ → List ℕ) → NackBitmap → List ℕ
serialize_nack_bitmap malloc m =
    let map_bytes = map_bytes_of m in
    serialize_message malloc nack_bitmap_msg_id (2 + 4 + 4 + 4 + 4 + 2 + 2 + map_bytes) (
      ident_fields m.ident
      ++ (le_bytes 2 m.base_page
          ∷ le_bytes 2 map_bytes
          ∷ (if ltb 0 map_bytes then take map_bytes m.bitmap ∷ [] else [])))

pub deserialize_nack_bitmap : NackBitmap → List ℕ → NackBitmap
deserialize_nack_bitmap m buf =
    let (fs, c) = read_fields buf (2 ∷ 4 ∷ 4 ∷ 4 ∷ 4 ∷ 2 ∷ 2 ∷ []) start in
    let avail = length buf - fixed_field_bytes - 12 in
    let taken = min (min (field fs 6) avail) max_bitmap_bytes in
    let map_read = get_or (read_fields buf (taken ∷ []) c).0 0 [] in
    if ltb (length buf) (fixed_field_bytes + 12) then m else record {
      ident = read_ident fs;
      base_page = field fs 5;
      bit_cnt = u16 (taken * 8);
      bitmap = if ltb 0 taken then map_read else [];
    }
