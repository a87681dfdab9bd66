-- ===== src/Ring/Tests.antt =====
-- The ring at a schedule in which a pop begins in the middle of the second push.
use cpp_ipc_dds.Common.{◌+◌, ◌≤◌, ◌≡◌, refl, List, [], ◌∷◌, length, take}
use cpp_ipc_dds.Ring.{Turn, send, receive, run, start}
use cpp_ipc_dds.Ring.Order.{run_order}

abbrev two_pushes : List Turn
two_pushes =
    send 7
    ∷ send 7
    ∷ send 7
    ∷ send 7
    ∷ send 8
    ∷ send 8
    ∷ receive
    ∷ receive
    ∷ send 8
    ∷ receive
    ∷ send 8
    ∷ receive
    ∷ []

two_pushes_popped : (run two_pushes start).popped ≡ 7 ∷ []
unfolding run
two_pushes_popped = refl

two_pushes_pushed : (run two_pushes start).pushed ≡ 7 ∷ 8 ∷ []
unfolding run
two_pushes_pushed = refl

run_order_example :
    ((run two_pushes start).popped
      ≡ take (length (run two_pushes start).popped) (run two_pushes start).pushed)
    × (length (run two_pushes start).popped ≤ length (run two_pushes start).pushed)
    × (length (run two_pushes start).pushed ≤ length (run two_pushes start).popped + 255)
run_order_example = run_order two_pushes
