-- ===== src/Handshake/Compat.antt =====
-- New and old handshake frames: a frame without a path state is never read as one with it.
use cpp_ipc_dds.Common.{
  ℕ, ◌+◌, ◌-◌, ◌*◌, ◌/◌, ◌^◌, ◌≤◌, ◌<◌, zero-add, ◌≡◌, refl, ap, ◌∙◌, Bool, true, false, List, [],
  ◌∷◌, ◌++◌, arith, ◌==◌, length, concat, length-append, le_bytes, of_le,
}
use cpp_ipc_dds.Framing.{MsgBase, tail_bytes}
use cpp_ipc_dds.Framing.Stream.{framed, framed_len, next_tail, length-framed}
use cpp_ipc_dds.Framing.Write.{message_stream}
use cpp_ipc_dds.Framing.Tail.{be16-append, be32-append, byte_split16, byte_split32}
use cpp_ipc_dds.Control.{serialize_message, start}
use cpp_ipc_dds.Control.Frames.{
  Allocates, message_base, of_le-le_bytes, serialize_message-message_stream,
  read_fields-serialize_message,
}
use cpp_ipc_dds.Handshake.{
  IdInit, pure_payload_size, has_path_state, peek_path_state, flag_byte, serialize_id_init,
  deserialize_id_init,
}

pure_payload_size-tail_bytes :
    (b : MsgBase) (page : ℕ) (pre : List ℕ)
    → b.total_page_cnt < 2 ^ 16
    → b.total_size < 2 ^ 32
    → b.total_size ≡ length pre + 12
    → b.total_page_cnt * 12 ≤ b.total_size
    → pure_payload_size (pre ++ tail_bytes b page) ≡ b.total_size - b.total_page_cnt * 12
unfolding pure_payload_size
pure_payload_size-tail_bytes b page pre h1 h2 e h3 =
    rw
      (
        be16-append pre (tail_bytes b page) 0 (length (pre ++ tail_bytes b page) - 12)
            (omega (arith, size)),
        be32-append pre (tail_bytes b page) 4 (length (pre ++ tail_bytes b page) - 8)
            (omega (arith, size)),
        byte_split16 _ h1,
        byte_split32 _ h2,
        size,
        ← e,
      )
      (ground arith)
  where
    size : length (pre ++ tail_bytes b page) ≡ length pre + 12
    size = length-append pre (tail_bytes b page)

-- The receiver finds the size of the payload in the tail, whatever the message and its size.
pub pure_payload_size-serialize_message :
    (malloc : ℕ → List ℕ) (id total : ℕ) (fs : List (List ℕ))
    → Allocates malloc
    → total ≡ length (concat fs)
    → total / 1460 < 2 ^ 16 - 1
    → pure_payload_size (serialize_message malloc id total fs) ≡ total
pure_payload_size-serialize_message malloc id total fs fresh sum few =
    ap pure_payload_size (serialize_message-message_stream malloc fresh id total fs sum few)
    ∙ in_stream
    ∙ omega (arith, sum)
  where
    b : MsgBase
    b = message_base malloc fresh id total fs sum few

    size :
        framed_len 0 + length (framed (next_tail b) 0 (concat fs)) ≡ framed_len (length (concat fs))
    size =
        length-framed (next_tail b) 0 (concat fs) (λ p. refl)
        ∙ ap framed_len (zero-add (length (concat fs)))

    in_stream :
        pure_payload_size (message_stream b (concat fs)) ≡ b.total_size - b.total_page_cnt * 12
    in_stream =
        unfold message_stream in
        (pure_payload_size-tail_bytes b (length (concat fs) / 1460 + 1)
          (framed (next_tail b) 0 (concat fs)) (omega arith) (omega arith)
          (omega (arith, size, sum)) (omega (arith, sum)))

flag_read : (b : Bool) → (of_le (le_bytes 1 (flag_byte b)) == 1) ≡ b
flag_read true = refl
flag_read false = refl

-- A frame with a path state arrives as it was sent.
pub deserialize_id_init-serialize_id_init :
    (malloc : ℕ → List ℕ) (id : ℕ) (m : IdInit)
    → Allocates malloc
    → m.path_state < 2 ^ 8
    → deserialize_id_init (serialize_id_init malloc id m) ≡ m
unfolding serialize_id_init deserialize_id_init has_path_state
deserialize_id_init-serialize_id_init malloc id m fresh h =
    rw
      (
        read_fields-serialize_message malloc fresh id 4 fs refl (omega arith) [] flags path start
            refl refl,
        read_fields-serialize_message malloc fresh id 4 fs refl (omega arith) flags path []
            (record { offset = 3; overflow = false }) refl refl,
        pure_payload_size-serialize_message malloc id 4 fs fresh refl (omega arith),
        of_le-le_bytes 1 m.path_state h,
        flag_read m.host_flag,
        flag_read m.cli_flag,
        flag_read m.run_status,
      )
      refl
  where
    flags : List (List ℕ)
    flags =
        le_bytes 1 (flag_byte m.host_flag)
        ∷ le_bytes 1 (flag_byte m.cli_flag)
        ∷ le_bytes 1 (flag_byte m.run_status)
        ∷ []

    path : List (List ℕ)
    path = le_bytes 1 m.path_state ∷ []

    fs : List (List ℕ)
    fs = flags ++ path

-- A frame of an older version, with the three flags only, gives the path state Unknown.
pub deserialize_id_init_old :
    (malloc : ℕ → List ℕ) (id : ℕ) (host cli run : Bool)
    → Allocates malloc
    → let old = serialize_message malloc id 3 (
        le_bytes 1 (flag_byte host)
        ∷ le_bytes 1 (flag_byte cli)
        ∷ le_bytes 1 (flag_byte run)
        ∷ []) in
      (peek_path_state old ≡ 0)
      × (deserialize_id_init old
          ≡ record { host_flag = host; cli_flag = cli; run_status = run; path_state = 0 })
unfolding peek_path_state deserialize_id_init has_path_state
deserialize_id_init_old malloc id host cli run fresh = (
  rw (pure_payload_size-serialize_message malloc id 3 flags fresh refl (omega arith)) refl,
  rw
      (
        read_fields-serialize_message malloc fresh id 3 flags refl (omega arith) [] flags [] start
            refl refl,
        pure_payload_size-serialize_message malloc id 3 flags fresh refl (omega arith),
        flag_read host,
        flag_read cli,
        flag_read run,
      )
      refl,
)
  where
    flags : List (List ℕ)
    flags =
        le_bytes 1 (flag_byte host) ∷ le_bytes 1 (flag_byte cli) ∷ le_bytes 1 (flag_byte run) ∷ []
