-- ===== src/Control/RoundTrip.antt =====
-- Heartbeats and acknowledgements: what a host serializes, another one reads.
use cpp_ipc_dds.Common.{
  ℕ, ◌+◌, ◌^◌, ◌<◌, ◌≡◌, refl, sym, ap, false, List, [], ◌∷◌, ◌++◌, append-nil, arith, ◌==◌, length,
  le_bytes,
}
use cpp_ipc_dds.Framing.{check_id}
use cpp_ipc_dds.Control.{
  serialize_message, start, Ident, ident_fields, read_ident, Heartbeat, heartbeat_msg_id,
  serialize_heartbeat, deserialize_heartbeat, Ack, ack_msg_id, ack_fields, serialize_ack,
  deserialize_ack, Ack2, ack2_msg_id, serialize_ack2, deserialize_ack2,
}
use cpp_ipc_dds.Control.Frames.{
  Allocates, of_le-le_bytes, length-serialize_message, check_id-serialize_message,
  read_fields-serialize_message,
}

-- The members are in the range of their types.
pub record IsIdent (m : Ident) : Type 0 where
  pub page_cnt : m.page_cnt < 2 ^ 16
  pub total_size : m.total_size < 2 ^ 32
  pub data_msg_id : m.data_msg_id < 2 ^ 32
  pub peer_id : m.peer_id < 2 ^ 32
  pub sequence : m.sequence < 2 ^ 32

pub read_ident-ident_fields :
    (m : Ident) (fs : List (List ℕ)) → IsIdent m → read_ident (ident_fields m ++ fs) ≡ m
read_ident-ident_fields m fs s =
    rw
      (
        of_le-le_bytes 2 m.page_cnt s.page_cnt,
        of_le-le_bytes 4 m.total_size s.total_size,
        of_le-le_bytes 4 m.data_msg_id s.data_msg_id,
        of_le-le_bytes 4 m.peer_id s.peer_id,
        of_le-le_bytes 4 m.sequence s.sequence,
      )
      refl

-- A heartbeat arrives as it was sent: 33 bytes that give back every member, whatever the receiving
-- object held before.
pub deserialize_heartbeat-serialize_heartbeat :
    (malloc : ℕ → List ℕ) (m old : Heartbeat)
    → Allocates malloc
    → IsIdent m.ident
    → m.flags < 2 ^ 8
    → m.round < 2 ^ 16
    → (length (serialize_heartbeat malloc m) ≡ 33)
      × (deserialize_heartbeat old (serialize_heartbeat malloc m) ≡ m)
unfolding serialize_heartbeat deserialize_heartbeat
deserialize_heartbeat-serialize_heartbeat malloc m old fresh s h1 h2 = (
  length-serialize_message malloc fresh heartbeat_msg_id 21 fs refl (omega arith),
  rw
      (
        length-serialize_message malloc fresh heartbeat_msg_id 21 fs refl (omega arith),
        read_fields-serialize_message malloc fresh heartbeat_msg_id 21 fs refl (omega arith) [] fs
            [] start (sym (append-nil fs)) refl,
        of_le-le_bytes 1 m.flags h1,
        of_le-le_bytes 2 m.round h2,
      )
      (ap (λ (i : Ident). record { ident = i; flags = m.flags; round = m.round })
        (read_ident-ident_fields m.ident [] s)),
)
  where
    fs : List (List ℕ)
    fs = ident_fields m.ident ++ (le_bytes 1 m.flags ∷ le_bytes 2 m.round ∷ [])

-- An acknowledgement arrives as it was sent: 35 bytes that give back every member, whatever the
-- receiving object held before.
pub deserialize_ack-serialize_ack :
    (malloc : ℕ → List ℕ) (m old : Ack)
    → Allocates malloc
    → IsIdent m.ident
    → m.integrity_flags < 2 ^ 8
    → m.payload_crc32c < 2 ^ 32
    → (length (serialize_ack malloc m) ≡ 35) × (deserialize_ack old (serialize_ack malloc m) ≡ m)
unfolding serialize_ack deserialize_ack
deserialize_ack-serialize_ack malloc m old fresh s h1 h2 = (
  size,
  rw
      (
        size,
        read_fields-serialize_message malloc fresh ack_msg_id 23 fs refl (omega arith) [] head
            (le_bytes 4 m.ident.sequence ∷ tail) start refl refl,
        read_fields-serialize_message malloc fresh ack_msg_id 23 fs refl (omega arith) head
            (le_bytes 4 m.ident.sequence ∷ []) tail (record { offset = 14; overflow = false }) refl
            refl,
        read_fields-serialize_message malloc fresh ack_msg_id 23 fs refl (omega arith)
            (head ++ (le_bytes 4 m.ident.sequence ∷ [])) tail []
            (record { offset = 18; overflow = false }) refl refl,
        of_le-le_bytes 1 m.integrity_flags h1,
        of_le-le_bytes 4 m.payload_crc32c h2,
      )
      (ap
        (λ (i : Ident). record {
          ident = i;
          integrity_flags = m.integrity_flags;
          payload_crc32c = m.payload_crc32c;
        })
        (read_ident-ident_fields m.ident [] s)),
)
  where
    fs : List (List ℕ)
    fs = ack_fields m

    head : List (List ℕ)
    head =
        le_bytes 2 m.ident.page_cnt
        ∷ le_bytes 4 m.ident.total_size
        ∷ le_bytes 4 m.ident.data_msg_id
        ∷ le_bytes 4 m.ident.peer_id
        ∷ []

    tail : List (List ℕ)
    tail = le_bytes 1 m.integrity_flags ∷ le_bytes 4 m.payload_crc32c ∷ []

    size : length (serialize_message malloc ack_msg_id 23 fs) ≡ 35
    size = length-serialize_message malloc fresh ack_msg_id 23 fs refl (omega arith)

-- An acknowledgement with a sequence number and without integrity members, which the comments describe as
-- the older format, of 30 bytes.
pub older_ack : (ℕ → List ℕ) → Ident → List ℕ
older_ack malloc i = serialize_message malloc ack_msg_id (2 + 4 + 4 + 4 + 4) (ident_fields i)

-- From an acknowledgement in the older format, an object takes the page count, the size, the
-- message id and the peer, and keeps its own integrity members; it also keeps its own sequence number, though the
-- frame has one.
pub deserialize_ack-older_ack :
    (malloc : ℕ → List ℕ) (i : Ident) (old : Ack)
    → Allocates malloc
    → IsIdent i
    → (length (older_ack malloc i) ≡ 30)
      × (deserialize_ack old (older_ack malloc i)
          ≡ record old { ident = record i { sequence = old.ident.sequence } })
unfolding older_ack deserialize_ack
deserialize_ack-older_ack malloc i old fresh s = (
  size,
  rw
      (
        size,
        read_fields-serialize_message malloc fresh ack_msg_id 18 (ident_fields i) refl (omega arith)
            [] head (le_bytes 4 i.sequence ∷ []) start refl refl,
        of_le-le_bytes 2 i.page_cnt s.page_cnt,
        of_le-le_bytes 4 i.total_size s.total_size,
        of_le-le_bytes 4 i.data_msg_id s.data_msg_id,
        of_le-le_bytes 4 i.peer_id s.peer_id,
      )
      refl,
)
  where
    head : List (List ℕ)
    head =
        le_bytes 2 i.page_cnt
        ∷ le_bytes 4 i.total_size
        ∷ le_bytes 4 i.data_msg_id
        ∷ le_bytes 4 i.peer_id
        ∷ []

    size : length (serialize_message malloc ack_msg_id 18 (ident_fields i)) ≡ 30
    size = length-serialize_message malloc fresh ack_msg_id 18 (ident_fields i) refl (omega arith)

-- An acknowledgement with congestion feedback arrives as it was sent, in 41 bytes.
pub deserialize_ack2-serialize_ack2 :
    (malloc : ℕ → List ℕ) (m old : Ack2)
    → Allocates malloc
    → IsIdent m.ack.ident
    → m.ack.integrity_flags < 2 ^ 8
    → m.ack.payload_crc32c < 2 ^ 32
    → m.lost_pages < 2 ^ 16
    → m.observed_bps < 2 ^ 32
    → (length (serialize_ack2 malloc m) ≡ 41) × (deserialize_ack2 old (serialize_ack2 malloc m) ≡ m)
unfolding serialize_ack2 deserialize_ack2
deserialize_ack2-serialize_ack2 malloc m old fresh s h1 h2 h3 h4 = (
  size,
  rw
      (
        size,
        read_fields-serialize_message malloc fresh ack2_msg_id 29 fs refl (omega arith) [] fs []
            start (sym (append-nil fs)) refl,
        of_le-le_bytes 1 m.ack.integrity_flags h1,
        of_le-le_bytes 4 m.ack.payload_crc32c h2,
        of_le-le_bytes 2 m.lost_pages h3,
        of_le-le_bytes 4 m.observed_bps h4,
      )
      (ap
        (λ (i : Ident). record {
          ack = record {
            ident = i;
            integrity_flags = m.ack.integrity_flags;
            payload_crc32c = m.ack.payload_crc32c;
          };
          lost_pages = m.lost_pages;
          observed_bps = m.observed_bps;
        })
        (read_ident-ident_fields m.ack.ident [] s)),
)
  where
    fs : List (List ℕ)
    fs = ack_fields m.ack ++ (le_bytes 2 m.lost_pages ∷ le_bytes 4 m.observed_bps ∷ [])

    size : length (serialize_message malloc ack2_msg_id 29 fs) ≡ 41
    size = length-serialize_message malloc fresh ack2_msg_id 29 fs refl (omega arith)

-- A receiver that checks a frame for an id takes heartbeats, acknowledgements and acknowledgements
-- with feedback for what they are and for nothing else.
pub check_id_control :
    (malloc : ℕ → List ℕ) (hb : Heartbeat) (ack : Ack) (ack2 : Ack2) (expected : ℕ)
    → Allocates malloc
    → (check_id (serialize_heartbeat malloc hb) expected ≡ heartbeat_msg_id == expected)
      × (check_id (serialize_ack malloc ack) expected ≡ ack_msg_id == expected)
      × (check_id (serialize_ack2 malloc ack2) expected ≡ ack2_msg_id == expected)
unfolding serialize_heartbeat serialize_ack serialize_ack2
check_id_control malloc hb ack ack2 expected fresh = (
  check_id-serialize_message malloc fresh heartbeat_msg_id 21 _ refl (omega arith) expected
      (omega arith),
  check_id-serialize_message malloc fresh ack_msg_id 23 _ refl (omega arith) expected (omega arith),
  check_id-serialize_message malloc fresh ack2_msg_id 29 _ refl (omega arith) expected
      (omega arith),
)
