-- ===== src/Crc/Table.antt =====
-- The table gives what the definition of CRC32C gives.
use cpp_ipc_dds.Common.{
  ℕ, zero, suc, ◌+◌, ◌^◌, ◌<◌, zero-add, add-zero, ◌≡◌, refl, sym, ap, ap₂, ◌∙◌, subst, ◌≡⟨◌⟩◌, ◌∎,
  Bool, false, not, List, [], ◌∷◌, ◌++◌, map, foldl, append-nil, append_assoc, arith, bits_of,
  of_bits, bits_xor, length-bits_of, bits_of-of_bits, of_bits_lt, xor_comm, length-xor, xor_zeros,
  xor-append, length, get_or, take, drop, replicate, length-append, length-replicate, length-take,
  length-drop, take-append-drop, take-append_eq,
}
use cpp_ipc_dds.Crc.{
  bit_round, bit_rounds, make_table_from, make_table, widen, table_step, crc32c_sw, all_ones,
  bitwise_step, crc32c_bitwise,
}
use cpp_ipc_dds.Crc.Linear.{bit_rounds-xor, length-bit_rounds, shifted}

make_table_from_lem :
    (i left j : ℕ)
    → j < left
    → get_or (make_table_from i left) j [] ≡ bit_rounds 8 (bits_of 32 (i + j))
unfolding make_table_from
make_table_from_lem i zero j h = absurd (omega arith)
make_table_from_lem i (suc left) zero h = ap (λ n. bit_rounds 8 (bits_of 32 n)) (sym (add-zero i))
make_table_from_lem i (suc left) (suc j) h =
    let next : i + 1 + j ≡ i + suc j = omega arith in
    make_table_from_lem (i + 1) left j (omega arith) ∙ ap (λ n. bit_rounds 8 (bits_of 32 n)) next

-- Rounds on a word that begins with as many zeros shift it.
bit_rounds-zeros :
    (n : ℕ) (hi : List Bool)
    → n + length hi ≡ 32
    → bit_rounds n (replicate n false ++ hi) ≡ hi ++ replicate n false
unfolding bit_rounds
bit_rounds-zeros zero hi h = sym (append-nil hi)
bit_rounds-zeros (suc n) hi h =
    bit_rounds n (bit_round (false ∷ (replicate n false ++ hi)))
    ≡⟨ ap (bit_rounds n) (
        shifted (replicate n false ++ hi)
          (omega (arith, h, length-append (replicate n false) hi, length-replicate n false)))
      ∙ ap (bit_rounds n) (append_assoc (replicate n false) hi (false ∷ [])) ⟩
      bit_rounds n (replicate n false ++ (hi ++ false ∷ []))
    ≡⟨ bit_rounds-zeros n (hi ++ false ∷ []) (omega (arith, h, length-append hi (false ∷ []))) ⟩
      (hi ++ false ∷ []) ++ replicate n false
    ≡⟨ append_assoc hi (false ∷ []) (replicate n false) ⟩ hi ++ replicate (suc n) false ∎

-- Rounds on a word, from its low byte and the rest.
rounds_split :
    (lo hi : List Bool)
    → length lo ≡ 8
    → length hi ≡ 24
    → bit_rounds 8 (lo ++ hi)
      ≡ bits_xor (hi ++ replicate 8 false) (bit_rounds 8 (bits_of 32 (of_bits lo)))
rounds_split lo hi hlo hhi =
    let entry : bits_of 32 (of_bits lo) ≡ lo ++ replicate 24 false =
      ap (λ n. bits_of n (of_bits lo)) (omega (arith, hlo)) ∙ bits_of-of_bits lo 24 in
    let parts : bits_xor (replicate 8 false ++ hi) (lo ++ replicate 24 false) ≡ lo ++ hi =
      xor-append (replicate 8 false) hi lo (replicate 24 false) (sym hlo)
      ∙ ap₂ (λ x y. x ++ y) (xor_comm (replicate 8 false) lo ∙ xor_zeros 8 lo (omega (arith, hlo)))
          (xor_zeros 24 hi (omega (arith, hhi))) in
    bit_rounds 8 (lo ++ hi)
    ≡⟨ ap (bit_rounds 8) (sym parts) ⟩
      bit_rounds 8 (bits_xor (replicate 8 false ++ hi) (lo ++ replicate 24 false))
    ≡⟨ bit_rounds-xor 8 (replicate 8 false ++ hi) (lo ++ replicate 24 false) (omega (arith, hhi))
        (length-append lo (replicate 24 false) ∙ omega (arith, hlo)) ⟩
      bits_xor (bit_rounds 8 (replicate 8 false ++ hi)) (bit_rounds 8 (lo ++ replicate 24 false))
    ≡⟨ ap₂ bits_xor (bit_rounds-zeros 8 hi (omega (arith, hhi))) (ap (bit_rounds 8) (sym entry)) ⟩
      bits_xor (hi ++ replicate 8 false) (bit_rounds 8 (bits_of 32 (of_bits lo))) ∎

-- Only the low byte changes when a byte is added.
xor-widen :
    (crc : List Bool) (b : ℕ)
    → length crc ≡ 32
    → bits_xor crc (widen b) ≡ bits_xor (take 8 crc) (bits_of 8 b) ++ drop 8 crc
xor-widen crc b h =
    let low : length (take 8 crc) ≡ 8 = omega (arith, h, length-take 8 crc) in
    ap (λ w. bits_xor w (widen b)) (sym (take-append-drop 8 crc))
    ∙ xor-append (take 8 crc) (drop 8 crc) (bits_of 8 b) (replicate 24 false)
        (low ∙ sym (length-bits_of 8 b))
    ∙ ap (λ w. bits_xor (take 8 crc) (bits_of 8 b) ++ w)
        (xor_zeros 24 (drop 8 crc) (omega (arith, h, length-drop 8 crc)))

pub length-widen : (b : ℕ) → length (widen b) ≡ 32
length-widen b =
    length-append (bits_of 8 b) (replicate 24 false) ∙ omega (arith, length-bits_of 8 b)

pub length-xor_widen :
    (crc : List Bool) (b : ℕ) → length crc ≡ 32 → length (bits_xor crc (widen b)) ≡ 32
length-xor_widen crc b h = length-xor crc (widen b) (h ∙ sym (length-widen b)) ∙ length-widen b

pub length-bitwise_step :
    (crc : List Bool) (b : ℕ) → length crc ≡ 32 → length (bitwise_step crc b) ≡ 32
unfolding bitwise_step
length-bitwise_step crc b h =
    length-bit_rounds 8 (bits_xor crc (widen b)) (length-xor_widen crc b h)

table_step_lem : (crc : List Bool) (b : ℕ) → length crc ≡ 32 → table_step crc b ≡ bitwise_step crc b
unfolding table_step bitwise_step make_table
table_step_lem crc b h =
    let lo = bits_xor (take 8 crc) (bits_of 8 b) in
    let hlo : length lo ≡ 8 =
      length-xor (take 8 crc) (bits_of 8 b)
        (omega (arith, h, length-take 8 crc) ∙ sym (length-bits_of 8 b))
      ∙ length-bits_of 8 b in
    let small : of_bits lo < 256 = subst (λ n. of_bits lo < 2 ^ n) hlo (of_bits_lt lo) in
    rw (xor-widen crc b h, take-append_eq 8 lo (drop 8 crc) hlo)
      (ap (bits_xor (drop 8 crc ++ replicate 8 false)) (
          make_table_from_lem 0 256 (of_bits lo) small
          ∙ ap (λ n. bit_rounds 8 (bits_of 32 n)) (zero-add (of_bits lo)))
        ∙ sym (rounds_split lo (drop 8 crc) hlo (omega (arith, h, length-drop 8 crc))))

table_fold :
    (bytes : List ℕ) (crc : List Bool)
    → length crc ≡ 32
    → foldl table_step crc bytes ≡ foldl bitwise_step crc bytes
table_fold [] crc h = refl
table_fold (b ∷ bytes) crc h =
    rw (table_step_lem crc b h)
      (table_fold bytes (bitwise_step crc b) (length-bitwise_step crc b h))

-- On every sequence of bytes the loop with the table computes the CRC32C of the definition.
pub crc32c_sw-crc32c_bitwise : (bytes : List ℕ) → crc32c_sw bytes ≡ crc32c_bitwise bytes
unfolding crc32c_sw crc32c_bitwise
crc32c_sw-crc32c_bitwise bytes = ap (map not) (table_fold bytes all_ones refl)
