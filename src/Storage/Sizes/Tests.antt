-- ===== src/Storage/Sizes/Tests.antt =====
-- Size classes at concrete sizes.
use cpp_ipc_dds.Common.{ℕ, ◌^◌, ◌≤◌, ◌≡◌, refl, none, some, arith}
use cpp_ipc_dds.Storage.Sizes.{
  calc_chunk_size, loan_size_class, loan_capacity, loan_remain, recv_chunk_size,
}
use cpp_ipc_dds.Storage.Sizes.Agree.{HoldsChunk, loan_agrees}

doubled_once : loan_size_class 200000 ≡ some 262144
unfolding loan_size_class
doubled_once = refl

chunk_of_1000 : calc_chunk_size 1000 ≡ 1024
chunk_of_1000 = refl

-- From 1 GiB on the capacity is 2^31, which an int32_t does not hold, and `recv` gives up.
too_large : recv_chunk_size (loan_remain (2 ^ 31)) ≡ none
unfolding recv_chunk_size
too_large = refl

loan_agrees_example :
    (cap : ℕ) × (loan_capacity 200000 ≡ some cap)
    × (200000 ≤ cap)
    × (recv_chunk_size (loan_remain cap) ≡ some (calc_chunk_size cap))
    × HoldsChunk cap (calc_chunk_size cap)
loan_agrees_example = loan_agrees 200000 (omega arith)
