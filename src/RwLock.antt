-- ===== src/RwLock.antt =====
-- The reader-writer spin lock of include/libipc/rw_lock.h (class rw_lock): threads that take and give
-- back the lock in any interleaving of their atomic operations. The counter lc_ is a uint32_t, whose
-- top bit is the writer's flag. Memory is sequentially consistent here; `yield` does nothing.
pub mod Exclusion
mod Tests
use cpp_ipc_dds.Common.{
  ℕ, ◌+◌, ◌%◌, ◌^◌, Bool, true, false, not, ◌&&◌, List, [], ◌∷◌, ltb, leb, ◌==◌, if◌then◌else◌,
  length, get_or, set, replicate, u32, sub32,
}

-- `w_flag`; for a uint32_t `x & w_flag` is the test `w_flag ≤ x`, and `x & w_mask` is `x % w_flag`.
abbrev pub w_flag : ℕ
w_flag = 2 ^ 31

-- Where a thread stands: before the `fetch_or` of `lock`, in its second loop, holding the lock for
-- writing; in the loop of `lock_shared` with its local `old`, holding the lock for reading.
pub data Pc : Type 0 where
  idle : Pc
  locking : Pc
  draining : Pc
  writing : Pc
  checking : ℕ → Pc
  reading : Pc

-- What an idle thread calls, and whether `compare_exchange_weak` fails for no reason.
pub data Choice : Type 0 where
  call_lock : Choice
  call_lock_shared : Choice
  proceed : Choice
  fail_weak : Choice

-- A round of the first loop of `lock`: the `fetch_or` and the two tests behind it.
lock_round : ℕ → ℕ × Pc
lock_round lc =
    if lc == 0
    then (w_flag, writing)
    else if ltb lc w_flag
    then (lc + w_flag, draining)
    else (lc, locking)

-- A round of the second loop.
drain_round : ℕ → ℕ × Pc
drain_round lc = if lc % w_flag == 0 then (lc, writing) else (lc, draining)

-- A round of the loop of `lock_shared`, whose `compare_exchange_weak` may fail where it could succeed.
shared_round : Bool → ℕ → ℕ → ℕ × Pc
shared_round weak lc old =
    if leb w_flag old
    then (lc, checking lc)
    else if lc == old && not weak
    then (u32 (old + 1), reading)
    else (lc, checking lc)

-- `unlock_shared`
unlock_shared : ℕ → ℕ
unlock_shared lc = sub32 lc 1

-- The next atomic operation of a thread.
pub thread_step : Choice → ℕ → Pc → ℕ × Pc
unfolding lock_round drain_round shared_round unlock_shared
thread_step call_lock lc idle = (lc, locking)
thread_step call_lock_shared lc idle = (lc, checking lc)
thread_step proceed lc idle = (lc, idle)
thread_step fail_weak lc idle = (lc, idle)
thread_step c lc locking = lock_round lc
thread_step c lc draining = drain_round lc
thread_step c lc writing = (0, idle)
thread_step fail_weak lc (checking old) = shared_round true lc old
thread_step c lc (checking old) = shared_round false lc old
thread_step c lc reading = (unlock_shared lc, idle)

-- The lock and the threads that use it.
pub record System : Type 0 where
  pub lc : ℕ
  pub pcs : List Pc

-- Thread `i` takes a step.
pub step : ℕ × Choice → System → System
unfolding thread_step
step (i, c) s =
    let (lc, pc) = thread_step c s.lc (get_or s.pcs i idle) in
    if ltb i (length s.pcs) then record { lc = lc; pcs = set s.pcs i pc } else s

-- A schedule of steps.
pub run : List (ℕ × Choice) → System → System
unfolding step
run [] s = s
run (x ∷ xs) s = run xs (step x s)

-- `n` threads before their first call.
abbrev pub start : ℕ → System
start n = record { lc = 0; pcs = replicate n idle }
