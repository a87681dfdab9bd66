-- ===== src/Crc.antt =====
-- CRC32C, src/dzIPC/common/crc32c.cc: by a table (crc32c_sw) and by the SSE4.2 instructions (crc32c_hw),
-- one of which is chosen at the start. A uint32_t is the list of its 32 bits, the lowest first.
pub mod Linear
pub mod Table
pub mod Hardware
pub mod Detects
mod Tests
use cpp_ipc_dds.Common.{
  ℕ, zero, suc, ◌+◌, ◌*◌, ◌/◌, Bool, true, false, not, List, [], ◌∷◌, ◌++◌, map, foldl,
  if◌then◌else◌, bits_of, of_bits, bits_xor, length, get_or, take, drop, replicate,
}

-- `kCrc32cPolynomial`
unfoldable pub polynomial : List Bool
unfolding bits_of
polynomial = bits_of 32 0x82F63B78

-- `>> n` on a word of at least `n` bits.
abbrev pub shift_right : ℕ → List Bool → List Bool
shift_right n w = drop n w ++ replicate n false

abbrev pub lowest : List Bool → Bool
lowest [] = false
lowest (x ∷ xs) = x

-- The body of the inner loop of `make_table`.
unfoldable pub bit_round : List Bool → List Bool
unfolding bits_xor polynomial
bit_round crc = bits_xor (shift_right 1 crc) (if lowest crc then polynomial else replicate 32 false)

unfoldable pub bit_rounds : ℕ → List Bool → List Bool
unfolding bit_round
bit_rounds zero crc = crc
bit_rounds (suc n) crc = bit_rounds n (bit_round crc)

-- `make_table` from the entry `i` on, with `left` entries to go.
unfoldable pub make_table_from : ℕ → ℕ → List (List Bool)
unfolding bit_rounds bits_of
make_table_from i zero = []
make_table_from i (suc left) = bit_rounds 8 (bits_of 32 i) ∷ make_table_from (i + 1) left

unfoldable pub make_table : List (List Bool)
unfolding make_table_from
make_table = make_table_from 0 256

-- A uint8_t as a uint32_t.
abbrev pub widen : ℕ → List Bool
widen b = bits_of 8 b ++ replicate 24 false

-- A round of the loop of `crc32c_sw`.
unfoldable pub table_step : List Bool → ℕ → List Bool
unfolding bits_xor of_bits make_table bits_of
table_step crc b =
    bits_xor (shift_right 8 crc) (get_or make_table (of_bits (take 8 (bits_xor crc (widen b)))) [])

abbrev pub all_ones : List Bool
all_ones = replicate 32 true

-- `crc32c_sw`
unfoldable pub crc32c_sw : List ℕ → List Bool
unfolding table_step
crc32c_sw bytes = map not (foldl table_step all_ones bytes)

-- CRC32C by its definition: a byte is added to the register, which then makes 8 rounds.
unfoldable pub bitwise_step : List Bool → ℕ → List Bool
unfolding bit_rounds bits_xor bits_of
bitwise_step crc b = bit_rounds 8 (bits_xor crc (widen b))

unfoldable pub crc32c_bitwise : List ℕ → List Bool
unfolding bitwise_step
crc32c_bitwise bytes = map not (foldl bitwise_step all_ones bytes)

-- The first loop of `crc32c_hw`, with `words` rounds to go.
unfoldable pub hw_words : (List Bool → List ℕ → List Bool) → ℕ → List Bool → List ℕ → List Bool
hw_words mm_crc32_u64 zero crc bytes = crc
hw_words mm_crc32_u64 (suc words) crc bytes =
    hw_words mm_crc32_u64 words (mm_crc32_u64 crc (take 8 bytes)) (drop 8 bytes)

-- `crc32c_hw`; the intrinsics are parameters, and the word that is read from memory is its bytes.
unfoldable pub crc32c_hw :
    (List Bool → ℕ → List Bool) → (List Bool → List ℕ → List Bool) → List ℕ → List Bool
unfolding hw_words
crc32c_hw mm_crc32_u8 mm_crc32_u64 bytes =
    let words = length bytes / 8 in
    map not
      (foldl mm_crc32_u8 (hw_words mm_crc32_u64 words all_ones bytes) (drop (words * 8) bytes))
