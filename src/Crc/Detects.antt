-- ===== src/Crc/Detects.antt =====
-- A changed byte changes the checksum.
use cpp_ipc_dds.Common.{
  ℕ, zero, suc, ◌/◌, ◌%◌, ◌^◌, ◌<◌, ◌≡◌, refl, sym, ap, ◌∙◌, ◌≢◌, Bool, true, false, not, List, [],
  ◌∷◌, ◌++◌, map, foldl, arith, ◌==◌, bits_of, bits_xor, length-bits_of, xor_comm, xor_assoc,
  xor_zeros, xor_self, length, get_or, take, drop, replicate, take-append_eq,
}
use cpp_ipc_dds.Crc.{widen, crc32c_sw, all_ones, bitwise_step, crc32c_bitwise}
use cpp_ipc_dds.Crc.Linear.{bit_rounds_injective}
use cpp_ipc_dds.Crc.Table.{
  crc32c_sw-crc32c_bitwise, length-bitwise_step, length-widen, length-xor_widen,
}
use cpp_ipc_dds.Crc.Hardware.{foldl-append}
use native.Mathlib.Nat.{pow-succ'}

xor_cancel :
    (a b c : List Bool)
    → length a ≡ length b
    → length a ≡ length c
    → bits_xor a b ≡ bits_xor a c
    → b ≡ c
xor_cancel a b c hb hc e = clear b hb ∙ ap (bits_xor a) e ∙ sym (clear c hc)
  where
    clear : (x : List Bool) → length a ≡ length x → x ≡ bits_xor a (bits_xor a x)
    clear x h =
        sym (xor_zeros (length a) x (omega (arith, h)))
        ∙ xor_comm x (replicate (length a) false)
        ∙ ap (λ w. bits_xor w x) (sym (xor_self a))
        ∙ xor_assoc a a x

bits_of_injective : (n x y : ℕ) → x < 2 ^ n → y < 2 ^ n → bits_of n x ≡ bits_of n y → x ≡ y
unfolding bits_of
bits_of_injective zero x y hx hy e = omega arith
bits_of_injective (suc n) x y hx hy e =
    let pow = pow-succ' 2 n in
    let low : (x % 2 == 1) ≡ (y % 2 == 1) = ap (λ w. get_or w 0 false) e in
    let same : x % 2 ≡ y % 2 = ground (arith, low) in
    let rest =
      bits_of_injective n (x / 2) (y / 2) (omega (arith, pow)) (omega (arith, pow))
        (ap (drop 1) e) in
    omega (arith, same, rest)

bitwise_step_state :
    (a b : List Bool) (x : ℕ)
    → length a ≡ 32
    → length b ≡ 32
    → bitwise_step a x ≡ bitwise_step b x
    → a ≡ b
unfolding bitwise_step
bitwise_step_state a b x ha hb e =
    let wide : length (widen x) ≡ 32 = length-widen x in
    let sums =
      bit_rounds_injective 8 (bits_xor a (widen x)) (bits_xor b (widen x)) (length-xor_widen a x ha)
        (length-xor_widen b x hb) e in
    xor_cancel (widen x) a b (wide ∙ sym ha) (wide ∙ sym hb)
      (xor_comm (widen x) a ∙ sums ∙ xor_comm b (widen x))

bitwise_step_byte :
    (crc : List Bool) (x y : ℕ)
    → length crc ≡ 32
    → x < 256
    → y < 256
    → bitwise_step crc x ≡ bitwise_step crc y
    → x ≡ y
unfolding bitwise_step
bitwise_step_byte crc x y h hx hy e =
    let sums =
      bit_rounds_injective 8 (bits_xor crc (widen x)) (bits_xor crc (widen y))
        (length-xor_widen crc x h) (length-xor_widen crc y h) e in
    let wide : widen x ≡ widen y =
      xor_cancel crc (widen x) (widen y) (h ∙ sym (length-widen x)) (h ∙ sym (length-widen y))
        sums in
    bits_of_injective 8 x y hx hy (
      sym (take-append_eq 8 (bits_of 8 x) (replicate 24 false) (length-bits_of 8 x))
      ∙ ap (take 8) wide
      ∙ take-append_eq 8 (bits_of 8 y) (replicate 24 false) (length-bits_of 8 y))

length-fold :
    (bytes : List ℕ) (a : List Bool) → length a ≡ 32 → length (foldl bitwise_step a bytes) ≡ 32
length-fold [] a h = h
length-fold (x ∷ bytes) a h = length-fold bytes (bitwise_step a x) (length-bitwise_step a x h)

fold_injective :
    (bytes : List ℕ) (a b : List Bool)
    → length a ≡ 32
    → length b ≡ 32
    → foldl bitwise_step a bytes ≡ foldl bitwise_step b bytes
    → a ≡ b
fold_injective [] a b ha hb e = e
fold_injective (x ∷ bytes) a b ha hb e = bitwise_step_state a b x ha hb (
    fold_injective bytes (bitwise_step a x) (bitwise_step b x) (length-bitwise_step a x ha)
      (length-bitwise_step b x hb) e)

not_twice : (w : List Bool) → map not (map not w) ≡ w
not_twice [] = refl
not_twice (true ∷ w) = ap (λ v. true ∷ v) (not_twice w)
not_twice (false ∷ w) = ap (λ v. false ∷ v) (not_twice w)

same_checksum :
    (front behind : List ℕ) (x y : ℕ)
    → x < 256
    → y < 256
    → crc32c_sw (front ++ x ∷ behind) ≡ crc32c_sw (front ++ y ∷ behind)
    → x ≡ y
unfolding crc32c_bitwise
same_checksum front behind x y hx hy e =
    let here = foldl bitwise_step all_ones front in
    let same : crc32c_bitwise (front ++ x ∷ behind) ≡ crc32c_bitwise (front ++ y ∷ behind) =
      sym (crc32c_sw-crc32c_bitwise (front ++ x ∷ behind))
      ∙ e
      ∙ crc32c_sw-crc32c_bitwise (front ++ y ∷ behind) in
    let folds : foldl bitwise_step all_ones (front ++ x ∷ behind)
        ≡ foldl bitwise_step all_ones (front ++ y ∷ behind) =
      sym (not_twice _) ∙ ap (map not) same ∙ not_twice _ in
    let len = length-fold front all_ones refl in
    bitwise_step_byte here x y len hx hy (
      fold_injective behind (bitwise_step here x) (bitwise_step here y)
        (length-bitwise_step here x len) (length-bitwise_step here y len)
        (sym (foldl-append bitwise_step all_ones front (x ∷ behind))
          ∙ folds
          ∙ foldl-append bitwise_step all_ones front (y ∷ behind)))

-- Two sequences of bytes that differ in one byte only, at any place, have different checksums.
pub crc32c_sw_detects :
    (front behind : List ℕ) (x y : ℕ)
    → x < 256
    → y < 256
    → x ≢ y
    → crc32c_sw (front ++ x ∷ behind) ≢ crc32c_sw (front ++ y ∷ behind)
crc32c_sw_detects front behind x y hx hy ne e = ne (same_checksum front behind x y hx hy e)
