-- ===== src/Queue/Tests.antt =====
-- The queue at concrete calls.
use cpp_ipc_dds.Common.{ℕ, ◌≡◌, refl, none, some, List, [], ◌∷◌, arith}
use cpp_ipc_dds.Queue.{Queue, make, try_dequeue}
use cpp_ipc_dds.Queue.Fifo.{
  Call, push_call, pop_call, size_call, done, message, count, calls, spec_calls, calls_refine,
}
use cpp_ipc_dds.Queue.Single.{push_all, try_dequeue_hangs}

-- Three messages into two cells: the first one is dropped.
abbrev three_messages : List Call
three_messages =
    push_call 7 ∷ push_call 8 ∷ push_call 9 ∷ size_call ∷ pop_call ∷ pop_call ∷ pop_call ∷ []

three_messages_answers :
    spec_calls 2 three_messages []
    ≡ done
      ∷ done
      ∷ done
      ∷ count 2
      ∷ message (some (some 8))
      ∷ message (some (some 9))
      ∷ message none
      ∷ []
unfolding spec_calls
three_messages_answers = refl

calls_refine_example : calls three_messages (make 2) ≡ some (spec_calls 2 three_messages [])
calls_refine_example = calls_refine 2 three_messages (omega arith) (omega arith)

try_dequeue_hangs_example :
    (q : Queue) × (push_all (7 ∷ 8 ∷ []) (make 1) ≡ some q)
    × ((fuel : ℕ) → try_dequeue fuel q ≡ none)
try_dequeue_hangs_example = try_dequeue_hangs 1 7 8 [] (omega arith) (omega arith)
