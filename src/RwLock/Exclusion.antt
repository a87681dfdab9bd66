-- ===== src/RwLock/Exclusion.antt =====
-- A thread that writes is alone.
use cpp_ipc_dds.Common.{
  ℕ, zero, suc, ◌+◌, ◌-◌, ◌*◌, ◌%◌, ◌^◌, ◌≤◌, ◌<◌, ◌≡◌, refl, ap, ◌≢◌, inl, inr, Bool, true, false,
  not, ◌&&◌, List, [], ◌∷◌, arith, ltb, leb, ◌==◌, Bool-cases, ltb→lt, length, get_or, set,
  replicate, length-set, length-replicate,
}
use cpp_ipc_dds.RwLock.{
  w_flag, Pc, idle, locking, draining, writing, checking, reading, Choice, call_lock,
  call_lock_shared, proceed, fail_weak, lock_round, drain_round, shared_round, unlock_shared,
  thread_step, System, step, run, start,
}

-- Whether a thread waits for readers with the flag set, holds the lock for writing, for reading.
abbrev drains : Pc → ℕ
drains draining = 1
drains _ = 0

abbrev writes : Pc → ℕ
writes writing = 1
writes _ = 0

abbrev reads : Pc → ℕ
reads reading = 1
reads _ = 0

-- How many threads are in such a state.
count : (Pc → ℕ) → List Pc → ℕ
count w [] = 0
count w (p ∷ ps) = w p + count w ps

count-set :
    (w : Pc → ℕ) (ps : List Pc) (i : ℕ) (p : Pc)
    → i < length ps
    → count w (set ps i p) + w (get_or ps i idle) ≡ count w ps + w p
unfolding count
count-set w [] i p h = absurd (omega arith)
count-set w (q ∷ ps) zero p h = omega arith
count-set w (q ∷ ps) (suc i) p h = omega (arith, count-set w ps i p (omega arith))

count-replicate : (w : Pc → ℕ) (n : ℕ) → w idle ≡ 0 → count w (replicate n idle) ≡ 0
unfolding count
count-replicate w zero h = refl
count-replicate w (suc n) h = omega (arith, h, count-replicate w n h)

count_le : (ps : List Pc) → count reads ps ≤ length ps
unfolding count
count_le [] = omega arith
count_le (idle ∷ ps) = omega (arith, count_le ps)
count_le (locking ∷ ps) = omega (arith, count_le ps)
count_le (draining ∷ ps) = omega (arith, count_le ps)
count_le (writing ∷ ps) = omega (arith, count_le ps)
count_le (checking _ ∷ ps) = omega (arith, count_le ps)
count_le (reading ∷ ps) = omega (arith, count_le ps)

get_le_count : (w : Pc → ℕ) (ps : List Pc) (i : ℕ) → w idle ≡ 0 → w (get_or ps i idle) ≤ count w ps
unfolding count
get_le_count w [] i h = omega (arith, h)
get_le_count w (p ∷ ps) zero h = omega arith
get_le_count w (p ∷ ps) (suc i) h = omega (arith, get_le_count w ps i h)

-- The counter is the flag and the number of readers; one thread at most has set the flag, and while
-- it writes, nobody reads.
abbrev Safe : ℕ → ℕ → ℕ → ℕ → Type 0
Safe lc d w r = (lc ≡ w_flag * (d + w) + r) × (d + w ≤ 1) × (0 < w → r ≡ 0) × (r < 2 ^ 31)

abbrev IsSafe : System → Type 0
IsSafe s =
    (s.lc ≡ w_flag * (count drains s.pcs + count writes s.pcs) + count reads s.pcs)
    × (count drains s.pcs + count writes s.pcs ≤ 1)
    × (0 < count writes s.pcs → count reads s.pcs ≡ 0)
    × (length s.pcs < 2 ^ 31 - 1)

start-IsSafe : (n : ℕ) → n < 2 ^ 31 - 1 → IsSafe (start n)
start-IsSafe n h = (
  omega (
    arith,
    count-replicate drains n refl,
    count-replicate writes n refl,
    count-replicate reads n refl,
  ),
  omega (arith, count-replicate drains n refl, count-replicate writes n refl),
  λ pos. count-replicate reads n refl,
  omega (arith, length-replicate n idle),
)

-- The same with `d`, `w` and `r` other threads beside one at `p`.
abbrev SafeWith : ℕ → ℕ → ℕ → ℕ × Pc → Type 0
SafeWith d w r (lc, p) = Safe lc (d + drains p) (w + writes p) (r + reads p)

module _ (d w r : ℕ) (few : r + 1 < 2 ^ 31) where
  lock_round-Safe : (lc : ℕ) → SafeWith d w r (lc, locking) → SafeWith d w r (lock_round lc)
  unfolding lock_round
  lock_round-Safe lc s = elim (Bool-cases (lc == 0)) [
    | inl free ↦
        let e : lc ≡ 0 = ground (arith, free) in
        rw free (omega arith, omega arith, λ pos. omega arith, omega arith)
    | inr taken ↦ rw taken (elim (Bool-cases (ltb lc w_flag)) [
      | inl read ↦
          let e : lc < w_flag = ground (arith, read) in
          rw read (omega arith, omega arith, λ pos. absurd (omega arith), omega arith)
      | inr written ↦ rw written s
    ])
  ]

  drain_round-Safe : (lc : ℕ) → SafeWith d w r (lc, draining) → SafeWith d w r (drain_round lc)
  unfolding drain_round
  drain_round-Safe lc s = elim (Bool-cases (lc % w_flag == 0)) [
    | inl drained ↦
        let e : lc % w_flag ≡ 0 = ground (arith, drained) in
        rw drained (omega arith, omega arith, λ pos. omega arith, omega arith)
    | inr held ↦ rw held s
  ]

  shared_round-Safe :
      (weak : Bool) (lc old : ℕ)
      → SafeWith d w r (lc, checking old)
      → SafeWith d w r (shared_round weak lc old)
  unfolding shared_round
  shared_round-Safe weak lc old s = elim (Bool-cases (leb w_flag old)) [
    | inl flagged ↦ rw flagged s
    | inr free ↦ rw free (elim (Bool-cases (lc == old && not weak)) [
      | inl swapped ↦
          let e : lc ≡ old = ground (arith, swapped) in
          let low : old < w_flag = ground (arith, free) in
          rw swapped (omega arith, omega arith, λ pos. absurd (omega arith), omega arith)
      | inr again ↦ rw again s
    ])
  ]

  -- A step of the thread, whatever it chooses.
  thread_step-Safe :
      (c : Choice) (lc : ℕ) (p : Pc) → SafeWith d w r (lc, p) → SafeWith d w r (thread_step c lc p)
  unfolding thread_step unlock_shared
  thread_step-Safe call_lock lc idle s = s
  thread_step-Safe call_lock_shared lc idle s = s
  thread_step-Safe proceed lc idle s = s
  thread_step-Safe fail_weak lc idle s = s
  thread_step-Safe c lc locking s = lock_round-Safe lc s
  thread_step-Safe c lc draining s = drain_round-Safe lc s
  thread_step-Safe c lc writing s =
      let none_reads : r + 0 ≡ 0 = s.2 (omega arith) in
      (omega arith, omega arith, λ pos. absurd (omega arith), omega arith)
  thread_step-Safe fail_weak lc (checking old) s = shared_round-Safe true lc old s
  thread_step-Safe call_lock lc (checking old) s = shared_round-Safe false lc old s
  thread_step-Safe call_lock_shared lc (checking old) s = shared_round-Safe false lc old s
  thread_step-Safe proceed lc (checking old) s = shared_round-Safe false lc old s
  thread_step-Safe c lc reading s =
      (omega arith, omega arith, λ pos. absurd (ground (arith, s.2)), omega arith)

step-IsSafe : (x : ℕ × Choice) (s : System) → IsSafe s → IsSafe (step x s)
unfolding step
step-IsSafe (i, c) s h = elim (Bool-cases (ltb i (length s.pcs))) [
  | inr none_such ↦ rw none_such h
  | inl there ↦
      let p : Pc = get_or s.pcs i idle in
      let d : ℕ = count drains s.pcs - drains p in
      let w : ℕ = count writes s.pcs - writes p in
      let r : ℕ = count reads s.pcs - reads p in
      let ed : d + drains p ≡ count drains s.pcs =
        omega (arith, get_le_count drains s.pcs i refl) in
      let ew : w + writes p ≡ count writes s.pcs =
        omega (arith, get_le_count writes s.pcs i refl) in
      let er : r + reads p ≡ count reads s.pcs = omega (arith, get_le_count reads s.pcs i refl) in
      let lt : i < length s.pcs = ltb→lt i (length s.pcs) there in
      let before : SafeWith d w r (s.lc, p) =
        rw (ed, ew, er) (h.0, h.1, h.2, omega (arith, h.3, count_le s.pcs)) in
      let t : ℕ × Pc = thread_step c s.lc p in
      let after : SafeWith d w r t =
        thread_step-Safe d w r (omega (arith, er, h.3, count_le s.pcs)) c s.lc p before in
      let ed' : count drains (set s.pcs i t.1) ≡ d + drains t.1 =
        omega (arith, ed, count-set drains s.pcs i t.1 lt) in
      let ew' : count writes (set s.pcs i t.1) ≡ w + writes t.1 =
        omega (arith, ew, count-set writes s.pcs i t.1 lt) in
      let er' : count reads (set s.pcs i t.1) ≡ r + reads t.1 =
        omega (arith, er, count-set reads s.pcs i t.1 lt) in
      rw (there, ed', ew', er') (after.0, after.1, after.2, rw (length-set s.pcs i t.1) h.3)
]

run-IsSafe : (xs : List (ℕ × Choice)) (s : System) → IsSafe s → IsSafe (run xs s)
unfolding run
run-IsSafe [] s h = h
run-IsSafe (x ∷ xs) s h = run-IsSafe xs (step x s) (step-IsSafe x s h)

-- Two threads count twice.
count_two :
    (w : Pc → ℕ) (ps : List Pc) (i j : ℕ)
    → w idle ≡ 0
    → i ≢ j
    → w (get_or ps i idle) + w (get_or ps j idle) ≤ count w ps
unfolding count
count_two w [] i j z ne = omega (arith, z)
count_two w (p ∷ ps) zero zero z ne = absurd (ne refl)
count_two w (p ∷ ps) zero (suc j) z ne = omega (arith, get_le_count w ps j z)
count_two w (p ∷ ps) (suc i) zero z ne = omega (arith, get_le_count w ps i z)
count_two w (p ∷ ps) (suc i) (suc j) z ne =
    omega (arith, count_two w ps i j z (λ e. ne (ap (λ (k : ℕ). suc k) e)))

-- Fewer than 2^31 - 1 threads take and give back the lock in any interleaving. While one of them
-- writes, every other one neither writes nor reads.
pub run_excludes :
    (n : ℕ) (xs : List (ℕ × Choice)) (i j : ℕ)
    → n < 2 ^ 31 - 1
    → i ≢ j
    → get_or (run xs (start n)).pcs i idle ≡ writing
    → (get_or (run xs (start n)).pcs j idle ≢ writing)
      × (get_or (run xs (start n)).pcs j idle ≢ reading)
run_excludes n xs i j few ne e =
    let s : System = run xs (start n) in
    let safe = run-IsSafe xs (start n) (start-IsSafe n few) in
    let one : writes (get_or s.pcs i idle) ≡ 1 = ap writes e in
    let some_writes : 0 < count writes s.pcs =
      omega (arith, one, get_le_count writes s.pcs i refl) in
    (
      λ e'. absurd (omega (arith, one, ap writes e', count_two writes s.pcs i j refl ne, safe.1)),
      λ e'.
          absurd (omega (arith, ap reads e', get_le_count reads s.pcs j refl, safe.2 some_writes)),
    )
