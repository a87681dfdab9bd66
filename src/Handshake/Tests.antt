-- ===== src/Handshake/Tests.antt =====
-- The theorems about the handshake at concrete frames.
use cpp_ipc_dds.Common.{ℕ, ◌≡◌, true, false, List, arith, replicate, length-replicate}
use cpp_ipc_dds.Control.Frames.{Allocates}
use cpp_ipc_dds.Handshake.{IdInit, serialize_id_init, deserialize_id_init}
use cpp_ipc_dds.Handshake.Compat.{deserialize_id_init-serialize_id_init}

abbrev zeroed : ℕ → List ℕ
zeroed n = replicate n 0

zeroed-Allocates : Allocates zeroed
zeroed-Allocates n = length-replicate n 0

abbrev confirm_shm : IdInit
confirm_shm = record { host_flag = true; cli_flag = false; run_status = true; path_state = 2 }

deserialize_id_init-serialize_id_init_example :
    deserialize_id_init (serialize_id_init zeroed 9 confirm_shm) ≡ confirm_shm
deserialize_id_init-serialize_id_init_example =
    deserialize_id_init-serialize_id_init zeroed 9 confirm_shm zeroed-Allocates (omega arith)
