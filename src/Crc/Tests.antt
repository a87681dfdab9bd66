-- ===== src/Crc/Tests.antt =====
-- Checksums of concrete bytes.
use cpp_ipc_dds.Common.{ℕ, ◌≡◌, refl, ◌≢◌, List, [], ◌∷◌, ◌++◌, foldl, arith, of_bits}
use cpp_ipc_dds.Crc.{bitwise_step, crc32c_sw, crc32c_bitwise, crc32c_hw}
use cpp_ipc_dds.Crc.Table.{crc32c_sw-crc32c_bitwise}
use cpp_ipc_dds.Crc.Hardware.{AddsByte, AddsWord, crc32c_hw-crc32c_sw}
use cpp_ipc_dds.Crc.Detects.{crc32c_sw_detects}

-- The check value of CRC32C, for the text "123456789".
abbrev digits : List ℕ
digits = 49 ∷ 50 ∷ 51 ∷ 52 ∷ 53 ∷ 54 ∷ 55 ∷ 56 ∷ 57 ∷ []

check_value : of_bits (crc32c_bitwise digits) ≡ 0xE3069283
unfolding crc32c_bitwise of_bits
check_value = refl

crc32c_sw-crc32c_bitwise_example : crc32c_sw digits ≡ crc32c_bitwise digits
crc32c_sw-crc32c_bitwise_example = crc32c_sw-crc32c_bitwise digits

adds_byte : AddsByte bitwise_step
unfolding AddsByte
adds_byte crc b = refl

adds_word : AddsWord (λ crc bs. foldl bitwise_step crc bs)
unfolding AddsWord
adds_word crc bs h = refl

crc32c_hw-crc32c_sw_example :
    crc32c_hw bitwise_step (λ crc bs. foldl bitwise_step crc bs) digits ≡ crc32c_sw digits
crc32c_hw-crc32c_sw_example =
    crc32c_hw-crc32c_sw bitwise_step (λ crc bs. foldl bitwise_step crc bs) digits adds_byte
      adds_word

crc32c_sw_detects_example :
    crc32c_sw ((49 ∷ 50 ∷ []) ++ 51 ∷ 52 ∷ []) ≢ crc32c_sw ((49 ∷ 50 ∷ []) ++ 179 ∷ 52 ∷ [])
crc32c_sw_detects_example =
    crc32c_sw_detects (49 ∷ 50 ∷ []) (52 ∷ []) 51 179 (omega arith) (omega arith) (omega arith)
