-- ===== src/Queue.antt =====
-- The bounded queue of include/dzIPC/common/circularqueue.h (class CircularQueue), used by one thread
-- at a time: cells with sequence numbers, and two positions. Positions and sequence numbers are
-- size_t of 64 bits; a message is a number that stands for the shared pointer.
pub mod Bounded
pub mod Fifo
pub mod Single
mod Tests
use cpp_ipc_dds.Common.{
  ℕ, zero, suc, ◌+◌, ◌-◌, ◌%◌, ◌^◌, Bool, true, false, Option, none, some, List, [], ◌∷◌, ltb, leb,
  ◌==◌, if◌then◌else◌, get_or, set, replicate, u64,
}

-- `capacity_`, `cells_` (the sequence numbers, and the messages), `enqueue_pos_` and `dequeue_pos_`.
pub record Queue : Type 0 where
  pub capacity : ℕ
  pub sequence : List ℕ
  pub cells : List (Option ℕ)
  pub enqueue_pos : ℕ
  pub dequeue_pos : ℕ

-- The numbers that the constructor gives `left` cells from cell `i` on.
numbers : ℕ → ℕ → List ℕ
numbers i zero = []
numbers i (suc left) = i ∷ numbers (i + 1) left

-- The constructor.
pub make : ℕ → Queue
unfolding numbers
make capacity =
    let n = if capacity == 0 then 1 else capacity in
    record {
      capacity = n;
      sequence = numbers 0 n;
      cells = replicate n none;
      enqueue_pos = 0;
      dequeue_pos = 0;
    }

-- `diff`, the signed difference of two size_t, as a bit pattern; it is negative from 2^63 on.
abbrev pub diff : ℕ → ℕ → ℕ
diff seq pos = (seq + 2 ^ 64 - pos) % 2 ^ 64

-- `try_enqueue`. In the branch for a positive difference the source loads the position again and
-- tries again; one thread alone finds the same position. `none` when the fuel for this runs out.
pub try_enqueue : ℕ → ℕ → Queue → Option (Bool × Queue)
try_enqueue zero msg q = none
try_enqueue (suc fuel) msg q =
    let pos = q.enqueue_pos in
    let cell = pos % q.capacity in
    let d = diff (get_or q.sequence cell 0) pos in
    let again = try_enqueue fuel msg q in
    if d == 0
    then some (
      true,
      record q {
        enqueue_pos = u64 (pos + 1);
        cells = set q.cells cell (some msg);
        sequence = set q.sequence cell (u64 (pos + 1));
      },
    )
    else if leb (2 ^ 63) d
    then some (false, q)
    else again

-- `try_dequeue`: `none` inside for the result false.
pub try_dequeue : ℕ → Queue → Option (Option (Option ℕ) × Queue)
try_dequeue zero q = none
try_dequeue (suc fuel) q =
    let pos = q.dequeue_pos in
    let cell = pos % q.capacity in
    let d = diff (get_or q.sequence cell 0) (u64 (pos + 1)) in
    let again = try_dequeue fuel q in
    if d == 0
    then some (
      some (get_or q.cells cell none),
      record q {
        dequeue_pos = u64 (pos + 1);
        cells = set q.cells cell none;
        sequence = set q.sequence cell (u64 (pos + q.capacity));
      },
    )
    else if leb (2 ^ 63) d
    then some (none, q)
    else again

-- The queue behind a dequeue whose result does not matter.
dropped : Option (Option (Option ℕ) × Queue) → Option Queue
dropped none = none
dropped (some (r, q)) = some q

-- `push`: the loop of `push_owned`, which drops the oldest message while there is no room.
pub push : ℕ → ℕ → Queue → Option Queue
unfolding try_enqueue try_dequeue dropped
push zero msg q = none
push (suc fuel) msg q = elim (try_enqueue (suc fuel) msg q) [
  | none ↦ none
  | some (true, q') ↦ some q'
  | some (false, q') ↦ elim (dropped (try_dequeue (suc fuel) q')) [
    | none ↦ none
    | some q'' ↦ push fuel msg q''
  ]
]

-- `size`
pub size : Queue → ℕ
size q =
    let used = (q.enqueue_pos + 2 ^ 64 - q.dequeue_pos) % 2 ^ 64 in
    if ltb q.capacity used then q.capacity else used
