-- ===== src/Handshake.antt =====
-- The handshake message of include/ipc_msg/ipc_msg_base/udp_id_init_msg.hpp (IpcPubSubIdInitMsg):
-- three flags, and a path state that older versions do not send.
pub mod Compat
mod Tests
use cpp_ipc_dds.Common.{
  ℕ, ◌-◌, ◌*◌, Bool, ◌||◌, List, [], ◌∷◌, ltb, leb, ◌==◌, ◌/=◌, if◌then◌else◌, length, get_or, u32,
  le_bytes,
}
use cpp_ipc_dds.Framing.{Cursor, be16, be32}
use cpp_ipc_dds.Control.{serialize_message, read_fields, start, field}

-- `IpcPubSubIdInitMsg`. The path state is the number of its enum; `Unknown` is 0.
pub record IdInit : Type 0 where
  pub host_flag : Bool
  pub cli_flag : Bool
  pub run_status : Bool
  pub path_state : ℕ

abbrev pub path_unknown : ℕ
path_unknown = 0

-- `check_host`, `check_cli` and `check_run_status`, for frames that are long enough.
pub check_host : List ℕ → Bool
check_host buf = get_or buf 0 0 == 1

pub check_cli : List ℕ → Bool
check_cli buf = get_or buf 1 0 == 1

pub check_run_status : List ℕ → Bool
check_run_status buf = get_or buf 2 0 == 1

pub pure_payload_size : List ℕ → ℕ
pure_payload_size buf =
    let n = length buf in
    let total_size = be32 buf (n - 8) in
    let tails = u32 (be16 buf (n - 12) * 12) in
    if ltb n 12
    then 0
    else if ltb total_size tails || total_size /= u32 n
    then 0
    else total_size - tails

pub has_path_state : List ℕ → Bool
has_path_state buf = leb 4 (pure_payload_size buf)

pub peek_path_state : List ℕ → ℕ
unfolding has_path_state
peek_path_state buf = if has_path_state buf then get_or buf 3 0 else path_unknown

abbrev pub flag_byte : Bool → ℕ
flag_byte b = if b then 1 else 0

pub serialize_id_init : (ℕ → List ℕ) → ℕ → IdInit → List ℕ
serialize_id_init malloc id m = serialize_message malloc id (1 * 4) (
    le_bytes 1 (flag_byte m.host_flag)
    ∷ le_bytes 1 (flag_byte m.cli_flag)
    ∷ le_bytes 1 (flag_byte m.run_status)
    ∷ le_bytes 1 m.path_state
    ∷ [])

pub deserialize_id_init : List ℕ → IdInit
deserialize_id_init buf =
    let (fs, c) = read_fields buf (1 ∷ 1 ∷ 1 ∷ []) start in
    let path = (read_fields buf (1 ∷ []) c).0 in
    record {
      host_flag = field fs 0 == 1;
      cli_flag = field fs 1 == 1;
      run_status = field fs 2 == 1;
      path_state = if has_path_state buf then field path 0 else path_unknown;
    }
