-- ===== src/Queue/Fifo.antt =====
-- Any sequence of calls on a queue of two cells or more gives what a list gives.
use cpp_ipc_dds.Common.{
  ℕ, suc, ◌+◌, ◌-◌, ◌%◌, ◌^◌, ◌≤◌, ◌<◌, ◌≡◌, refl, inl, inr, false, Option, none, some, List, [],
  ◌∷◌, ◌++◌, arith, ltb, if◌then◌else◌, Bool-cases, length, drop,
}
use mathlib.Core.Option
use cpp_ipc_dds.Queue.{Queue, make, try_dequeue, dropped, push, size}
use cpp_ipc_dds.Queue.Bounded.{
  Represents, make-Represents, enqueued, dequeued, try_enqueue_room, try_enqueue_full,
  try_dequeue_empty, try_dequeue-some, enqueued-Represents, dequeued-Represents,
}

-- The calls `push`, `try_pop` and `size`, and what they return; a pop gives no message if it returns
-- false.
pub data Call : Type 0 where
  push_call : ℕ → Call
  pop_call : Call
  size_call : Call

pub data Answer : Type 0 where
  done : Answer
  message : Option (Option ℕ) → Answer
  count : ℕ → Answer

-- One call on the code. The fuel lets `push` drop one message.
pub call : Call → Queue → Option (Answer × Queue)
call (push_call m) q = Option.map (λ q'. (done, q')) (push 2 m q)
call pop_call q = Option.map (λ r. (message r.0, r.1)) (try_dequeue 1 q)
call size_call q = some (count (size q), q)

-- The same on a list of at most `n` messages.
pub spec_call : ℕ → Call → List ℕ → Answer × List ℕ
spec_call n (push_call m) xs =
    if ltb (length xs) n then (done, xs ++ m ∷ []) else (done, drop 1 xs ++ m ∷ [])
spec_call n pop_call [] = (message none, [])
spec_call n pop_call (x ∷ xs) = (message (some (some x)), xs)
spec_call n size_call xs = (count (length xs), xs)

-- A sequence of calls; `none` if one does not return.
pub calls : List Call → Queue → Option (List Answer)
unfolding call
calls [] q = some []
calls (c ∷ cs) q = elim (call c q) [
  | none ↦ none
  | some (a, q') ↦ Option.map (λ as_. a ∷ as_) (calls cs q')
]

unfoldable pub spec_calls : ℕ → List Call → List ℕ → List Answer
unfolding spec_call
spec_calls n [] xs = []
spec_calls n (c ∷ cs) xs = (spec_call n c xs).0 ∷ spec_calls n cs (spec_call n c xs).1

push_room :
    (fuel m : ℕ) (q : Queue) (xs : List ℕ)
    → Represents q xs
    → length xs < q.capacity
    → push (suc fuel) m q ≡ some (enqueued m q)
unfolding push
push_room fuel m q xs h room = rw (try_enqueue_room q xs h fuel m room, push) refl

push_full :
    (fuel m : ℕ) (q : Queue) (x : ℕ) (xs : List ℕ)
    → Represents q (x ∷ xs)
    → length (x ∷ xs) ≡ q.capacity
    → push (suc (suc fuel)) m q ≡ some (enqueued m (dequeued q))
unfolding push dropped
push_full fuel m q x xs h full =
    rw
      (
        try_enqueue_full q (x ∷ xs) h (suc fuel) m full,
        push,
        try_dequeue-some q (x ∷ xs) h (suc fuel) (omega arith),
        push_room fuel m (dequeued q) xs (dequeued-Represents q x xs h) (omega (arith, full)),
      )
      refl

size_lem : (q : Queue) (xs : List ℕ) → Represents q xs → size q ≡ length xs
unfolding size
size_lem q xs h =
    let e : (q.enqueue_pos + 2 ^ 64 - q.dequeue_pos) % 2 ^ 64 ≡ length xs =
      omega (arith, h.used, h.long, h.fits) in
    let small : ltb q.capacity (length xs) ≡ false = ground (arith, h.fits) in rw (e, small) refl

-- A call answers as the list does, and the queue then holds the new list.
abbrev Simulates : ℕ → Call → Queue → List ℕ → Type 0
Simulates n c q xs =
    (q' : Queue) × (call c q ≡ some ((spec_call n c xs).0, q'))
    × Represents q' (spec_call n c xs).1
    × (q'.capacity ≡ n)
    × (q'.enqueue_pos ≤ q.enqueue_pos + 1)

module _ (n : ℕ) (q : Queue) (sized : q.capacity ≡ n) where
  push-Simulates :
      (m : ℕ) (xs : List ℕ)
      → Represents q xs
      → q.enqueue_pos + 1 + n < 2 ^ 63
      → Simulates n (push_call m) q xs
  unfolding call spec_call
  push-Simulates m xs h long = elim (Bool-cases (ltb (length xs) n)) [
    | inl room ↦
        let lt : length xs < q.capacity = ground (arith, room, sized) in
        rw (room, push_room 1 m q xs h lt)
          (
            enqueued m q,
            refl,
            enqueued-Represents q xs m h lt (omega (arith, long, sized)),
            sized,
            omega arith,
          )
    | inr full ↦ rw full (drops xs h (ground (arith, full, sized, h.fits)))
  ]
    where
      drops :
          (xs : List ℕ)
          → Represents q xs
          → length xs ≡ q.capacity
          → (q' : Queue) × (Option.map {B = Answer × Queue} (λ q'. (done, q')) (push 2 m q)
              ≡ some (done, q'))
            × Represents q' (drop 1 xs ++ m ∷ [])
            × (q'.capacity ≡ n)
            × (q'.enqueue_pos ≤ q.enqueue_pos + 1)
      drops [] h full = absurd (omega (arith, h.two))
      drops (x ∷ xs) h full = rw (push_full 0 m q x xs h full) (
        enqueued m (dequeued q),
        refl,
        enqueued-Represents (dequeued q) xs m (dequeued-Represents q x xs h) (omega (arith, full))
            (omega (arith, long, sized)),
        sized,
        omega arith,
      )

  call-Simulates :
      (c : Call) (xs : List ℕ)
      → Represents q xs
      → q.enqueue_pos + 1 + n < 2 ^ 63
      → Simulates n c q xs
  unfolding call spec_call
  call-Simulates (push_call m) xs h long = push-Simulates m xs h long
  call-Simulates pop_call [] h long =
      rw (try_dequeue_empty q [] h 0 refl) (q, refl, h, sized, omega arith)
  call-Simulates pop_call (x ∷ xs) h long =
      rw (try_dequeue-some q (x ∷ xs) h 0 (omega arith))
        (dequeued q, refl, dequeued-Represents q x xs h, sized, omega arith)
  call-Simulates size_call xs h long = rw (size_lem q xs h) (q, refl, h, sized, omega arith)

calls-Represents :
    (n : ℕ) (cs : List Call) (q : Queue) (xs : List ℕ)
    → Represents q xs
    → q.capacity ≡ n
    → q.enqueue_pos + length cs + n < 2 ^ 63
    → calls cs q ≡ some (spec_calls n cs xs)
unfolding calls spec_calls
calls-Represents n [] q xs h sized long = refl
calls-Represents n (c ∷ cs) q xs h sized long =
    let (q', e, h', sized', moved) = call-Simulates n q sized c xs h (omega arith) in
    rw (e, calls, calls-Represents n cs q' (spec_call n c xs).1 h' sized' (omega arith)) refl

make_capacity : (n : ℕ) → 2 ≤ n → ((make n).capacity ≡ n) × ((make n).enqueue_pos ≡ 0)
unfolding make
make_capacity n two = (ground arith, refl)

-- One thread's calls on a new queue of n ≥ 2 cells, fewer than 2^63 - n: they all return, and answer
-- as a list of at most n messages does that drops its oldest message for a new one when it is full.
pub calls_refine :
    (n : ℕ) (cs : List Call)
    → 2 ≤ n
    → length cs + n < 2 ^ 63
    → calls cs (make n) ≡ some (spec_calls n cs [])
calls_refine n cs two long =
    let fresh = make_capacity n two in
    calls-Represents n cs (make n) [] (make-Represents n two (omega arith)) fresh.0
      (omega (arith, fresh.1))
