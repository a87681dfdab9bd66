-- ===== src/Registry/Tests.antt =====
-- Two channels and three queues.
use cpp_ipc_dds.Common.{◌≡◌, refl, List, [], ◌∷◌}
use cpp_ipc_dds.Registry.{
  ChannelKey, Call, register, unregister, snapshot, destroy, answers, register_subscriber,
}
use cpp_ipc_dds.Registry.Sets.{set_answers, answers-set_answers}

abbrev first_channel : ChannelKey
first_channel = record { topic_name = b'a' ∷ []; domain_id = 0; msg_id = 7; kind = 0 }

abbrev second_channel : ChannelKey
second_channel = record { topic_name = b'b' ∷ []; domain_id = 0; msg_id = 7; kind = 0 }

-- Queue 1 twice, queue 2 that is destroyed, queue 3 on the other channel, which is taken out.
abbrev some_calls : List Call
some_calls =
    register first_channel 1
    ∷ register first_channel 2
    ∷ register first_channel 1
    ∷ register second_channel 3
    ∷ snapshot first_channel
    ∷ destroy 2
    ∷ snapshot first_channel
    ∷ unregister second_channel 3
    ∷ snapshot second_channel
    ∷ []

answers-set_answers_example : answers some_calls [] [] ≡ set_answers some_calls [] (λ k. [])
answers-set_answers_example = answers-set_answers some_calls []

some_calls_run : answers some_calls [] [] ≡ (1 ∷ 2 ∷ []) ∷ (1 ∷ []) ∷ [] ∷ []
unfolding answers
some_calls_run = refl

-- A queue that has expired leaves an empty element behind.
expired_run : register_subscriber (5 ∷ []) first_channel 5 [] ≡ (first_channel, []) ∷ []
unfolding register_subscriber
expired_run = refl
