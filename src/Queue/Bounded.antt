-- ===== src/Queue/Bounded.antt =====
-- A queue of two cells or more is a first-in-first-out queue that drops its oldest message when full.
use cpp_ipc_dds.Common.{
  ℕ, zero, suc, ◌+◌, ◌%◌, ◌^◌, ◌≤◌, ◌<◌, zero-add, add-zero, ◌≡◌, refl, sym, ap, ◌∙◌, ◌≢◌, true,
  false, none, some, List, [], ◌∷◌, ◌++◌, arith, dec_lt, leb, ◌==◌, mod_ne, length, get_or, set,
  length-append, length-set, length-replicate, get_or-set_self, get_or-set_ne, get_or-append_left,
  get_or-append_last, u64,
}
use native.Mathlib.Nat.{mod-eq_of_lt, mod-lt, add-mod_right}
use cpp_ipc_dds.Queue.{Queue, numbers, make, diff, try_enqueue, try_dequeue}

-- The queue holds the messages `xs`, oldest first: the cells from the dequeue position on hold them,
-- and the others are free.
pub record Represents (q : Queue) (xs : List ℕ) : Type 0 where
  pub two : 2 ≤ q.capacity
  pub long : q.enqueue_pos + q.capacity < 2 ^ 63
  pub cells : length q.cells ≡ q.capacity
  pub numbered : length q.sequence ≡ q.capacity
  pub used : q.enqueue_pos ≡ q.dequeue_pos + length xs
  pub fits : length xs ≤ q.capacity
  pub full :
      (k : ℕ)
      → k < length xs
      → (get_or q.sequence ((q.dequeue_pos + k) % q.capacity) 0 ≡ q.dequeue_pos + k + 1)
        × (get_or q.cells ((q.dequeue_pos + k) % q.capacity) none ≡ some (get_or xs k 0))
  pub free :
      (k : ℕ)
      → length xs ≤ k
      → k < q.capacity
      → get_or q.sequence ((q.dequeue_pos + k) % q.capacity) 0 ≡ q.dequeue_pos + k

length-numbers : (i n : ℕ) → length (numbers i n) ≡ n
unfolding numbers
length-numbers i zero = refl
length-numbers i (suc n) = omega (arith, length-numbers (i + 1) n)

get_or-numbers : (i n k : ℕ) → k < n → get_or (numbers i n) k 0 ≡ i + k
unfolding numbers
get_or-numbers i zero k h = absurd (omega arith)
get_or-numbers i (suc n) zero h = omega arith
get_or-numbers i (suc n) (suc k) h = omega (arith, get_or-numbers (i + 1) n k (omega arith))

pub make-Represents : (n : ℕ) → 2 ≤ n → n < 2 ^ 63 → Represents (make n) []
unfolding make
make-Represents n two small =
    let e : n == 0 ≡ false = ground arith in
    rw e (record {
      two = two;
      long = omega arith;
      cells = length-replicate n none;
      numbered = length-numbers 0 n;
      used = refl;
      fits = omega arith;
      full = λ k h. absurd (omega arith);
      free =
          λ k low high. rw (zero-add, mod-eq_of_lt high) (get_or-numbers 0 n k high ∙ zero-add k);
    })

diff_zero : (seq : ℕ) → seq < 2 ^ 63 → diff seq seq ≡ 0
diff_zero seq h = omega arith

diff_negative :
    (seq pos : ℕ)
    → seq < pos
    → pos < 2 ^ 63
    → (diff seq pos == 0 ≡ false) × (leb (2 ^ 63) (diff seq pos) ≡ true)
diff_negative seq pos lt h = (ground arith, ground arith)

-- Behind an enqueue of `m`.
abbrev pub enqueued : ℕ → Queue → Queue
enqueued m q = record q {
  enqueue_pos = u64 (q.enqueue_pos + 1);
  cells = set q.cells (q.enqueue_pos % q.capacity) (some m);
  sequence = set q.sequence (q.enqueue_pos % q.capacity) (u64 (q.enqueue_pos + 1));
}

-- Behind a dequeue.
abbrev pub dequeued : Queue → Queue
dequeued q = record q {
  dequeue_pos = u64 (q.dequeue_pos + 1);
  cells = set q.cells (q.dequeue_pos % q.capacity) none;
  sequence = set q.sequence (q.dequeue_pos % q.capacity) (u64 (q.dequeue_pos + q.capacity));
}

module _ (q : Queue) (xs : List ℕ) (h : Represents q xs) where
  -- There is room: the message is taken.
  pub try_enqueue_room :
      (fuel m : ℕ) → length xs < q.capacity → try_enqueue (suc fuel) m q ≡ some (true, enqueued m q)
  unfolding try_enqueue
  try_enqueue_room fuel m room =
      let e : get_or q.sequence (q.enqueue_pos % q.capacity) 0 ≡ q.enqueue_pos =
        rw h.used (h.free (length xs) (omega arith) room) in
      ground (arith, e, h.long)

  pub try_enqueue_full :
      (fuel m : ℕ) → length xs ≡ q.capacity → try_enqueue (suc fuel) m q ≡ some (false, q)
  unfolding try_enqueue
  try_enqueue_full fuel m full =
      let first_number : get_or q.sequence (q.dequeue_pos % q.capacity) 0 ≡ q.dequeue_pos + 1 =
        (rw add-zero at (h.full 0 (omega (arith, full, h.two)))).0 in
      let e : get_or q.sequence (q.enqueue_pos % q.capacity) 0 ≡ q.dequeue_pos + 1 =
        rw (h.used, full, add-mod_right q.dequeue_pos q.capacity) first_number in
      ground (arith, e, h.long, h.used, full, h.two)

  pub try_dequeue_empty : (fuel : ℕ) → length xs ≡ 0 → try_dequeue (suc fuel) q ≡ some (none, q)
  unfolding try_dequeue
  try_dequeue_empty fuel empty =
      let e : get_or q.sequence (q.dequeue_pos % q.capacity) 0 ≡ q.dequeue_pos =
        rw add-zero at (h.free 0 (omega (arith, empty)) (omega (arith, h.two))) in
      ground (arith, e, h.long, h.used, empty)

  pub try_dequeue-some :
      (fuel : ℕ)
      → 0 < length xs
      → try_dequeue (suc fuel) q ≡ some (some (some (get_or xs 0 0)), dequeued q)
  unfolding try_dequeue
  try_dequeue-some fuel some_left =
      let e : get_or q.sequence (q.dequeue_pos % q.capacity) 0 ≡ q.dequeue_pos + 1 =
        (rw add-zero at (h.full 0 some_left)).0 in
      let c : get_or q.cells (q.dequeue_pos % q.capacity) none ≡ some (get_or xs 0 0) =
        (rw add-zero at (h.full 0 some_left)).1 in
      ground (arith, e, c, h.long, h.used)

pub enqueued-Represents :
    (q : Queue) (xs : List ℕ) (m : ℕ)
    → Represents q xs
    → length xs < q.capacity
    → q.enqueue_pos + 1 + q.capacity < 2 ^ 63
    → Represents (enqueued m q) (xs ++ m ∷ [])
enqueued-Represents q xs m h room long =
    let len = length-append xs (m ∷ []) in
    let on : u64 (q.enqueue_pos + 1) ≡ q.enqueue_pos + 1 = omega (arith, long) in
    let cell : ℕ = q.enqueue_pos % q.capacity in
    let inside : cell < q.capacity = mod-lt q.enqueue_pos (omega (arith, h.two)) in
    rw on (record {
      two = h.two;
      long = long;
      cells = length-set q.cells cell (some m) ∙ h.cells;
      numbered = length-set q.sequence cell (q.enqueue_pos + 1) ∙ h.numbered;
      used = omega (arith, h.used, len);
      fits = omega (arith, len);
      full = λ k lt. elim (dec_lt k (length xs)) [
        | yes old ↦
            let ne : q.enqueue_pos % q.capacity ≢ (q.dequeue_pos + k) % q.capacity = λ e.
              mod_ne q.capacity (q.dequeue_pos + k) q.enqueue_pos (omega (arith, h.used))
                (omega (arith, h.used, h.fits)) (sym e) in
            (
              get_or-set_ne q.sequence cell _ _ 0 ne ∙ (h.full k old).0,
              get_or-set_ne q.cells cell _ _ none ne
                  ∙ (h.full k old).1
                  ∙ ap some (sym (get_or-append_left xs (m ∷ []) k 0 old)),
            )
        | no new ↦
            let e : k ≡ length xs = omega (arith, len) in
            rw (e, ← h.used)
              (
                get_or-set_self q.sequence cell _ 0 (omega (arith, h.numbered)),
                get_or-set_self q.cells cell _ none (omega (arith, h.cells))
                    ∙ ap some (sym (get_or-append_last xs m 0)),
              )
      ];
      free = λ k low high.
          let ne : q.enqueue_pos % q.capacity ≢ (q.dequeue_pos + k) % q.capacity =
            mod_ne q.capacity q.enqueue_pos (q.dequeue_pos + k) (omega (arith, h.used, len))
              (omega (arith, h.used)) in
          get_or-set_ne q.sequence cell _ _ 0 ne ∙ h.free k (omega (arith, len)) high;
    })

pub dequeued-Represents :
    (q : Queue) (x : ℕ) (xs : List ℕ) → Represents q (x ∷ xs) → Represents (dequeued q) xs
dequeued-Represents q x xs h =
    let on : u64 (q.dequeue_pos + 1) ≡ q.dequeue_pos + 1 = omega (arith, h.long, h.used) in
    let over : u64 (q.dequeue_pos + q.capacity) ≡ q.dequeue_pos + q.capacity =
      omega (arith, h.long, h.used) in
    let cell : ℕ = q.dequeue_pos % q.capacity in
    let inside : cell < q.capacity = mod-lt q.dequeue_pos (omega (arith, h.two)) in
    rw (on, over)
      (record {
        two = h.two;
        long = h.long;
        cells = length-set q.cells cell none ∙ h.cells;
        numbered = length-set q.sequence cell _ ∙ h.numbered;
        used = omega (arith, h.used);
        fits = omega (arith, h.fits);
        full = λ k lt.
            let next : q.dequeue_pos + 1 + k ≡ q.dequeue_pos + suc k = omega arith in
            let ne : q.dequeue_pos % q.capacity ≢ (q.dequeue_pos + suc k) % q.capacity =
              mod_ne q.capacity q.dequeue_pos (q.dequeue_pos + suc k) (omega arith)
                (omega (arith, h.fits)) in
            let old = h.full (suc k) (omega arith) in
            rw next (
              get_or-set_ne q.sequence cell _ _ 0 ne ∙ old.0,
              get_or-set_ne q.cells cell _ _ none ne ∙ old.1,
            );
        free = λ k low high.
            let next : q.dequeue_pos + 1 + k ≡ q.dequeue_pos + suc k = omega arith in
            elim (dec_lt (suc k) q.capacity) [
              | yes more ↦
                  let ne : q.dequeue_pos % q.capacity ≢ (q.dequeue_pos + suc k) % q.capacity =
                    mod_ne q.capacity q.dequeue_pos (q.dequeue_pos + suc k) (omega arith)
                      (omega arith) in
                  rw next
                    (get_or-set_ne q.sequence cell _ _ 0 ne ∙ h.free (suc k) (omega arith) more)
              | no last ↦
                  let e : suc k ≡ q.capacity = omega arith in
                  rw (next, e, add-mod_right q.dequeue_pos q.capacity)
                    (get_or-set_self q.sequence cell _ 0 (omega (arith, h.numbered)))
            ];
      })
