-- ===== src/Storage/Sizes/Agree.antt =====
-- The receiver of a loan finds the size class of the sender.
use cpp_ipc_dds.Common.{
  ℕ, zero, suc, ◌+◌, ◌-◌, ◌*◌, ◌/◌, ◌%◌, ◌^◌, ◌≤◌, ◌<◌, max, ◌≡◌, refl, ◌∙◌, inl, inr, false, some,
  arith, ltb, leb, ◌==◌, Bool-cases, ltb→lt, lt→ltb, le→ltb, lt→leb, u32, u64,
}
use cpp_ipc_dds.Storage.Sizes.{
  calc_chunk_size, loan_loop, loan_size_class, loan_capacity, loan_remain, recv_chunk_size,
}

-- A class has room for the mask and the capacity, is a multiple of 1024 bytes, and wastes at most
-- 1024 bytes besides the 16 in front.
pub record HoldsChunk (cap chunk_size : ℕ) : Type 0 where
  pub room : 16 + cap ≤ chunk_size
  pub tight : chunk_size ≤ 16 + cap + 1023
  pub aligned : chunk_size % 1024 ≡ 0

calc_chunk_size_lem : (cap : ℕ) → cap < 2 ^ 63 → HoldsChunk cap (calc_chunk_size cap)
calc_chunk_size_lem cap h =
    let e : calc_chunk_size cap ≡ ((15 + cap) / 1024 + 1) * 1024 = omega (arith, h) in
    rw e record { room = omega arith; tight = omega arith; aligned = omega arith }

-- `c` after `n` doublings.
doubled : ℕ → ℕ → ℕ
doubled zero c = c
doubled (suc n) c = doubled n (c * 2)

-- What a capacity has to be for a size.
abbrev Capacity : ℕ → ℕ → Type 0
Capacity size cap = (size ≤ cap) × (cap ≤ max (size + 1023) (2 * size - 1))

loan_loop_twice :
    (fuel size c : ℕ)
    → size ≤ 2 ^ 62
    → c < size
    → loan_loop (suc fuel) size c ≡ loan_loop fuel size (c * 2)
unfolding loan_loop
loan_loop_twice fuel size c h lt =
    let twice : u64 (c * 2) ≡ c * 2 = omega arith in
    let grows : ltb (c * 2) c ≡ false = le→ltb (c * 2) c (omega arith) in
    rw (lt→ltb c size lt, twice, grows) refl

loan_loop_lem :
    (fuel size c : ℕ)
    → size ≤ 2 ^ 62
    → 2 ^ 64 ≤ doubled fuel c
    → c < 2 * size
    → (cap : ℕ) × (loan_loop fuel size c ≡ some cap) × Capacity size cap
unfolding loan_loop doubled
loan_loop_lem zero size c h far below = absurd (omega arith)
loan_loop_lem (suc fuel) size c h far below = elim (Bool-cases (ltb c size)) [
  | inl more ↦
      let lt : c < size = ltb→lt c size more in
      let rest = loan_loop_lem fuel size (c * 2) h far (omega arith) in
      (rest.0, loan_loop_twice fuel size c h lt ∙ rest.1, rest.2)
  | inr enough ↦ (c, rw (loan_loop, enough) refl, (ground (arith, enough), omega arith))
]

far_enough : 2 ^ 64 ≤ doubled 47 (128 * 1024)
unfolding doubled
far_enough = omega arith

loan_size_class_lem :
    (size : ℕ) → size ≤ 2 ^ 62 → (cap : ℕ) × (loan_size_class size ≡ some cap) × Capacity size cap
unfolding loan_size_class
loan_size_class_lem size h = elim (Bool-cases (leb size (64 * 1024))) [
  | inl small ↦ (
    (size + 1024 - 1) / 1024 * 1024,
    rw (loan_size_class, small) refl,
    (omega arith, omega arith),
  )
  | inr big ↦
      let loop = loan_loop_lem 47 size (128 * 1024) h far_enough (ground (arith, big)) in
      (loop.0, rw (loan_size_class, big) loop.1, loop.2)
]

fits_int32 : (size cap : ℕ) → size ≤ 2 ^ 30 → Capacity size cap → cap < 2 ^ 31
fits_int32 size cap h c = omega (arith, h, c.1)

recv_lem :
    (cap : ℕ)
    → 0 < cap
    → cap < 2 ^ 31
    → recv_chunk_size (loan_remain cap) ≡ some (calc_chunk_size cap)
unfolding recv_chunk_size
recv_lem cap h lt =
    let back : u32 (64 + loan_remain cap) ≡ cap = omega (arith, lt) in
    let some_ : (cap == 0) ≡ false = ground (arith, h) in
    let positive : leb (2 ^ 31) cap ≡ false = lt→leb (2 ^ 31) cap lt in
    rw (back, some_, positive) refl

-- For every size up to 1 GiB `loan` asks for a capacity that holds it, after finitely many doublings;
-- `recv` computes from the `remain_` of the message the chunk size of that capacity; and a chunk of this
-- size has room for the mask and the capacity, in a multiple of 1024 bytes that wastes less than 1024.
pub loan_agrees :
    (size : ℕ)
    → size ≤ 2 ^ 30
    → (cap : ℕ) × (loan_capacity size ≡ some cap)
      × (size ≤ cap)
      × (recv_chunk_size (loan_remain cap) ≡ some (calc_chunk_size cap))
      × HoldsChunk cap (calc_chunk_size cap)
unfolding loan_capacity loan_size_class
loan_agrees size h = elim (Bool-cases (leb size 64)) [
  | inl small ↦ (
    1024,
    rw small refl,
    ground (arith, small),
    recv_lem 1024 (omega arith) (omega arith),
    calc_chunk_size_lem 1024 (omega arith),
  )
  | inr big ↦
      let class = loan_size_class_lem size (omega (arith, h)) in
      let large : 64 < size = ground (arith, big) in
      (
        class.0,
        rw big class.1,
        class.2.0,
        recv_lem class.0 (omega (arith, large, class.2.0)) (fits_int32 size class.0 h class.2),
        calc_chunk_size_lem class.0 (omega (arith, fits_int32 size class.0 h class.2)),
      )
]
