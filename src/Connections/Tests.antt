-- ===== src/Connections/Tests.antt =====
-- Connections at concrete masks.
use cpp_ipc_dds.Common.{◌≡◌, refl, true, false, [], ◌∷◌, replicate}
use cpp_ipc_dds.Connections.{Mask, connect}
use cpp_ipc_dds.Connections.Slots.{Connects, connect_lem}

abbrev three_of_four : Mask
three_of_four = true ∷ true ∷ false ∷ true ∷ []

third : connect three_of_four ≡ (false ∷ false ∷ true ∷ false ∷ [], replicate 4 true)
unfolding connect
third = refl

connect_lem_example : Connects three_of_four (connect three_of_four)
connect_lem_example = connect_lem three_of_four
