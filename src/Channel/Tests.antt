-- ===== src/Channel/Tests.antt =====
-- Fragments of two messages, interleaved.
use cpp_ipc_dds.Common.{ℕ, ◌-◌, ◌^◌, ◌≡◌, refl, List, [], ◌∷◌, arith, replicate, length-replicate}
use cpp_ipc_dds.Control.Frames.{Allocates}
use cpp_ipc_dds.Channel.{Fragment, msg_of, send_fragments, recv_all}
use cpp_ipc_dds.Channel.Apart.{of_id, messages_of, recv_all_delivers}

abbrev nines : ℕ → List ℕ
nines n = replicate n 9

nines-Allocates : Allocates nines
nines-Allocates n = length-replicate n 9

-- A message of 128 bytes with the id 3, and one of 70 bytes with the id 4.
abbrev interleaved : List Fragment
interleaved =
    msg_of 3 64 (replicate 64 7)
    ∷ msg_of 4 6 (replicate 64 8)
    ∷ msg_of 3 0 (replicate 64 7)
    ∷ msg_of 4 (2 ^ 32 - 58) (replicate 6 8)
    ∷ []

interleaved_both :
    (recv_all nines interleaved []).0 ≡ (3, replicate 128 7) ∷ (4, replicate 70 8) ∷ []
unfolding recv_all
interleaved_both = refl

own_fragments : of_id 3 interleaved ≡ send_fragments 3 (replicate 128 7)
unfolding of_id send_fragments
own_fragments = refl

recv_all_delivers_example :
    messages_of 3 (recv_all nines interleaved []).0 ≡ (3, replicate 128 7) ∷ []
recv_all_delivers_example =
    recv_all_delivers nines 3 3 (replicate 128 7) interleaved nines-Allocates (omega arith)
      (omega arith) (omega arith) own_fragments
