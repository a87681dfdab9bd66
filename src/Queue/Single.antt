-- ===== src/Queue/Single.antt =====
-- A queue of one cell: a second message takes the place of the first, and no pop ever returns.
use cpp_ipc_dds.Common.{
  ℕ, zero, suc, ◌+◌, ◌-◌, ◌%◌, ◌^◌, ◌≤◌, ◌<◌, add-zero, ◌≡◌, refl, Option, none, some, List, [],
  ◌∷◌, arith, length,
}
use cpp_ipc_dds.Queue.{Queue, make, try_enqueue, try_dequeue, push}

-- Behind `n` pushes without a pop, the last one of `m`.
abbrev single : ℕ → ℕ → Queue
single n m = record {
  capacity = 1;
  sequence = n ∷ [];
  cells = some m ∷ [];
  enqueue_pos = n;
  dequeue_pos = 0;
}

-- Pushes, one after the other.
pub push_all : List ℕ → Queue → Option Queue
push_all [] q = some q
push_all (m ∷ ms) q = elim (push 1 m q) [ none ↦ none | some q' ↦ push_all ms q' ]

push-single : (n m m' : ℕ) → n + 1 < 2 ^ 63 → push 1 m' (single n m) ≡ some (single (n + 1) m')
unfolding push try_enqueue
push-single n m m' h =
    let zero_mod : n % 1 ≡ 0 = omega arith in
    let same : ((n + 2 ^ 64 - n) % 2 ^ 64) ≡ 0 = omega arith in
    let on : (n + 1) % 2 ^ 64 ≡ n + 1 = omega arith in rw (zero_mod, same, on, push) refl

push_all-single :
    (ms : List ℕ) (n m : ℕ)
    → n + length ms < 2 ^ 63
    → (m' : ℕ) × (push_all ms (single n m) ≡ some (single (n + length ms) m'))
unfolding push_all
push_all-single [] n m h = (m, rw add-zero refl)
push_all-single (x ∷ ms) n m h =
    let e : n + 1 + length ms ≡ n + suc (length ms) = omega arith in
    let (m', r) = push_all-single ms (n + 1) x (omega arith) in
    (m', rw (push-single n m x (omega arith), push_all) (rw (← e) r))

-- The dequeue position is never that of the cell's message.
try_dequeue-single : (fuel n m : ℕ) → 2 ≤ n → n < 2 ^ 63 → try_dequeue fuel (single n m) ≡ none
unfolding try_dequeue
try_dequeue-single zero n m two h = refl
try_dequeue-single (suc fuel) n m two h = ground (arith, try_dequeue-single fuel n m two h)

push_first : (c m : ℕ) → c ≤ 1 → push 1 m (make c) ≡ some (single 1 m)
unfolding push make try_enqueue
push_first zero m h = refl
push_first (suc zero) m h = refl
push_first (suc (suc c)) m h = absurd (omega arith)

-- A queue that is made with a capacity of 0 or 1 takes every message; after two of them without a
-- pop between, however many follow, try_dequeue repeats its loop for ever.
pub try_dequeue_hangs :
    (c m m' : ℕ) (ms : List ℕ)
    → c ≤ 1
    → length ms + 2 < 2 ^ 63
    → (q : Queue) × (push_all (m ∷ m' ∷ ms) (make c) ≡ some q)
      × ((fuel : ℕ) → try_dequeue fuel q ≡ none)
unfolding push_all
try_dequeue_hangs c m m' ms small h =
    let (last, e) = push_all-single ms 2 m' (omega arith) in
    (
      single (2 + length ms) last,
      rw (push_first c m small, push_all, push-single 1 m m' (omega arith)) e,
      λ fuel. try_dequeue-single fuel (2 + length ms) last (omega arith) (omega arith),
    )
