-- ===== src/Storage/Sizes.antt =====
-- The size classes of the chunks, src/libipc/ipc.cpp (calc_chunk_size, loan_size_class), and how the
-- receiver of a loan finds the class of its chunk: publish_loan sends the capacity in the int32_t
-- remain_, and recv computes the size from it. A size_t has 64 bits; a negative int32_t is a bit
-- pattern from 2^31 on.
pub mod Agree
mod Tests
use cpp_ipc_dds.Common.{
  ℕ, zero, suc, ◌+◌, ◌-◌, ◌*◌, ◌/◌, ◌%◌, ◌^◌, ◌||◌, Option, none, some, ltb, leb, ◌==◌,
  if◌then◌else◌, u32, u64,
}

-- `make_align`, for an `align` that is a power of two.
abbrev pub make_align : ℕ → ℕ → ℕ
make_align align size = u64 (size + align - 1) / align * align

-- `align_chunk_size`, with `large_msg_align` 1024.
abbrev pub align_chunk_size : ℕ → ℕ
align_chunk_size size = u64 (((size + 2 ^ 64 - 1) % 2 ^ 64 / 1024 + 1) * 1024)

-- `calc_chunk_size`: the mask of the receivers takes 4 bytes, aligned to 16.
abbrev pub calc_chunk_size : ℕ → ℕ
calc_chunk_size size = make_align 16 (align_chunk_size (u64 (make_align 16 4 + size)))

-- The `while` loop of `loan_size_class`; `none` when the fuel runs out.
unfoldable pub loan_loop : ℕ → ℕ → ℕ → Option ℕ
loan_loop zero size c = none
loan_loop (suc fuel) size c =
    let nxt = u64 (c * 2) in
    let rest = loan_loop fuel size nxt in
    if ltb c size then (if ltb nxt c then some size else rest) else some c

-- `loan_size_class`: from 2^17 on, 47 doublings reach the end of a size_t.
unfoldable pub loan_size_class : ℕ → Option ℕ
unfolding loan_loop
loan_size_class size =
    if leb size (64 * 1024)
    then some ((size + 1024 - 1) / 1024 * 1024)
    else loan_loop 47 size (128 * 1024)

-- The capacity that `loan` asks for; up to `large_msg_limit`, 64 bytes, a message has no chunk.
unfoldable pub loan_capacity : ℕ → Option ℕ
unfolding loan_size_class
loan_capacity size = loan_size_class (if leb size 64 then 64 + 1 else size)

-- `remain` in `publish_loan`, for a capacity that an int32_t holds.
abbrev pub loan_remain : ℕ → ℕ
loan_remain cap = u32 (u32 cap + 2 ^ 32 - 64)

-- The chunk size by which `recv` looks for the chunk; `none` where it gives up.
unfoldable pub recv_chunk_size : ℕ → Option ℕ
recv_chunk_size remain =
    let r_size = u32 (64 + remain) in
    if r_size == 0 || leb (2 ^ 31) r_size then none else some (calc_chunk_size r_size)
