-- ===== src/Gaps/Tests.antt =====
-- The theorem about the counted runs, for a receiver that lacks the pages 2, 3 and 5 of five.
use cpp_ipc_dds.Common.{ℕ, ◌≡◌, refl, List, [], ◌∷◌, length}
use cpp_ipc_dds.Gaps.{record_fragment_gaps}
use cpp_ipc_dds.NackSend.Selection.{lost_pages}
use cpp_ipc_dds.Gaps.Totals.{grow, runs, behind, greatest, record_fragment_gaps_lem}

abbrev flags : List ℕ
flags = 0 ∷ 1 ∷ 0 ∷ 0 ∷ 1 ∷ 0 ∷ []

record_fragment_gaps_lem_example :
    let s = record_fragment_gaps flags 5 in
    let lost = lost_pages flags 1 5 in
    (s.gaps ≡ behind [] (runs lost))
    × (s.local_max ≡ greatest 0 (runs lost))
    × (s.missing ≡ length lost)
record_fragment_gaps_lem_example = record_fragment_gaps_lem flags 5

-- A run of two, and one of one, which stands first.
flags_run : behind [] (runs (lost_pages flags 1 5)) ≡ 1 ∷ 2 ∷ []
unfolding behind runs grow
flags_run = refl
