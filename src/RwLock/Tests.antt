-- ===== src/RwLock/Tests.antt =====
-- The lock at a schedule in which a writer waits for a reader.
use cpp_ipc_dds.Common.{ℕ, ◌≡◌, refl, ◌≢◌, List, [], ◌∷◌, arith, get_or}
use cpp_ipc_dds.RwLock.{
  idle, writing, reading, Choice, call_lock, call_lock_shared, proceed, run, start,
}
use cpp_ipc_dds.RwLock.Exclusion.{run_excludes}

-- Thread 1 reads; thread 0 sets the flag and waits; thread 1 gives back; thread 0 writes.
abbrev handover : List (ℕ × Choice)
handover =
    (1, call_lock_shared)
    ∷ (1, proceed)
    ∷ (0, call_lock)
    ∷ (0, proceed)
    ∷ (0, proceed)
    ∷ (1, proceed)
    ∷ (0, proceed)
    ∷ []

handover_reads :
    get_or (run ((1, call_lock_shared) ∷ (1, proceed) ∷ []) (start 2)).pcs 1 idle ≡ reading
unfolding run
handover_reads = refl

handover_writes : get_or (run handover (start 2)).pcs 0 idle ≡ writing
unfolding run
handover_writes = refl

run_excludes_example :
    (get_or (run handover (start 2)).pcs 1 idle ≢ writing)
    × (get_or (run handover (start 2)).pcs 1 idle ≢ reading)
run_excludes_example = run_excludes 2 handover 0 1 (omega arith) (omega arith) handover_writes
