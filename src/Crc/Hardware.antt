-- ===== src/Crc/Hardware.antt =====
-- The two implementations agree, if the instructions do what their documentation says.
use cpp_ipc_dds.Common.{
  ℕ, zero, suc, ◌+◌, ◌*◌, ◌/◌, ◌≤◌, zero-add, suc-add, ◌≡◌, refl, sym, ap, ◌∙◌, ◌≡⟨◌⟩◌, ◌∎, Bool,
  not, List, [], ◌∷◌, ◌++◌, map, foldl, arith, length, take, drop, length-take, length-drop,
  take-append-drop, u64,
}
use cpp_ipc_dds.Crc.{all_ones, bitwise_step, crc32c_bitwise, crc32c_sw, hw_words, crc32c_hw}
use cpp_ipc_dds.Crc.Table.{crc32c_sw-crc32c_bitwise}

-- `_mm_crc32_u8` adds a byte to the register.
unfoldable pub AddsByte : (List Bool → ℕ → List Bool) → Type 0
AddsByte mm_crc32_u8 = (crc : List Bool) (b : ℕ) → mm_crc32_u8 crc b ≡ bitwise_step crc b

-- `_mm_crc32_u64` adds the eight bytes of a word, the lowest first.
unfoldable pub AddsWord : (List Bool → List ℕ → List Bool) → Type 0
AddsWord mm_crc32_u64 =
    (crc : List Bool) (bs : List ℕ)
    → length bs ≡ 8
    → mm_crc32_u64 crc bs ≡ foldl bitwise_step crc bs

pub foldl-append :
    (f : List Bool → ℕ → List Bool) (crc : List Bool) (xs ys : List ℕ)
    → foldl f crc (xs ++ ys) ≡ foldl f (foldl f crc xs) ys
foldl-append f crc [] ys = refl
foldl-append f crc (x ∷ xs) ys = foldl-append f (f crc x) xs ys

take_nil : (n : ℕ) → take {A = ℕ} n [] ≡ []
take_nil zero = refl
take_nil (suc n) = refl

take_add : (m n : ℕ) (xs : List ℕ) → take m xs ++ take n (drop m xs) ≡ take (m + n) xs
take_add zero n xs = ap (λ k. take k xs) (sym (zero-add n))
take_add (suc m) n [] = take_nil n ∙ sym (take_nil (suc m + n))
take_add (suc m) n (x ∷ xs) =
    ap (λ ys. x ∷ ys) (take_add m n xs) ∙ ap (λ k. take k (x ∷ xs)) (sym (suc-add m n))

hw_words_lem :
    (u64 : List Bool → List ℕ → List Bool) (words : ℕ) (crc : List Bool) (bytes : List ℕ)
    → AddsWord u64
    → words * 8 ≤ length bytes
    → hw_words u64 words crc bytes ≡ foldl bitwise_step crc (take (words * 8) bytes)
unfolding hw_words AddsWord
hw_words_lem u64 zero crc bytes w h = refl
hw_words_lem u64 (suc words) crc bytes w h =
    let more : 8 + words * 8 ≡ suc words * 8 = omega arith in
    let eight : length (take 8 bytes) ≡ 8 = omega (arith, length-take 8 bytes) in
    hw_words u64 words (u64 crc (take 8 bytes)) (drop 8 bytes)
    ≡⟨ hw_words_lem u64 words (u64 crc (take 8 bytes)) (drop 8 bytes) w
        (omega (arith, length-drop 8 bytes)) ⟩
      foldl bitwise_step (u64 crc (take 8 bytes)) (take (words * 8) (drop 8 bytes))
    ≡⟨ ap (λ c. foldl bitwise_step c (take (words * 8) (drop 8 bytes)))
        (w crc (take 8 bytes) eight) ⟩
      foldl bitwise_step (foldl bitwise_step crc (take 8 bytes)) (take (words * 8) (drop 8 bytes))
    ≡⟨ sym (foldl-append bitwise_step crc (take 8 bytes) (take (words * 8) (drop 8 bytes))) ⟩
      foldl bitwise_step crc (take 8 bytes ++ take (words * 8) (drop 8 bytes))
    ≡⟨ ap (foldl bitwise_step crc) (take_add 8 (words * 8) bytes ∙ ap (λ k. take k bytes) more) ⟩
      foldl bitwise_step crc (take (suc words * 8) bytes) ∎

fold_u8 :
    (u8s : List Bool → ℕ → List Bool) (crc : List Bool) (bytes : List ℕ)
    → AddsByte u8s
    → foldl u8s crc bytes ≡ foldl bitwise_step crc bytes
unfolding AddsByte
fold_u8 u8s crc [] h = refl
fold_u8 u8s crc (b ∷ bytes) h = rw (h crc b) (fold_u8 u8s (bitwise_step crc b) bytes h)

-- If `_mm_crc32_u8` and `_mm_crc32_u64` add their bytes to the register as CRC32C is defined, the
-- version for SSE4.2 and the version with the table give the same checksum of every sequence of bytes.
pub crc32c_hw-crc32c_sw :
    (mm_crc32_u8 : List Bool → ℕ → List Bool) (mm_crc32_u64 : List Bool → List ℕ → List Bool)
    (bytes : List ℕ)
    → AddsByte mm_crc32_u8
    → AddsWord mm_crc32_u64
    → crc32c_hw mm_crc32_u8 mm_crc32_u64 bytes ≡ crc32c_sw bytes
unfolding crc32c_hw
crc32c_hw-crc32c_sw u8s u64 bytes hb hw =
    let words = length bytes / 8 in
    ap (map not) (
      ap (λ c. foldl u8s c (drop (words * 8) bytes))
        (hw_words_lem u64 words all_ones bytes hw (omega arith))
      ∙ fold_u8 u8s _ (drop (words * 8) bytes) hb
      ∙ sym (foldl-append bitwise_step all_ones (take (words * 8) bytes) (drop (words * 8) bytes))
      ∙ ap (foldl bitwise_step all_ones) (take-append-drop (words * 8) bytes))
    ∙ unfold crc32c_bitwise in sym (crc32c_sw-crc32c_bitwise bytes)
