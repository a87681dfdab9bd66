-- ===== src/Common/Bits.antt =====
-- Words as the lists of their bits, the lowest first.
use Prim.Native.Nat.{ℕ, zero, suc, ◌+◌, ◌*◌, ◌/◌, ◌%◌, ◌^◌, ◌≤◌, ◌<◌}
use mathlib.Core.Path.{◌≡◌, refl, sym, ap, ◌∙◌, ◌≡⟨◌⟩◌, ◌∎}
use native.Mathlib.Nat.{zero-add, suc-add, pow-succ'}
use mathlib.Core.Bool.{Bool, true, false, not}
use mathlib.Core.List.{List, [], ◌∷◌, ◌++◌}
use native.Mathlib.Omega.{arith}
use cpp_ipc_dds.Common.Tests.{if◌then◌else◌, ◌==◌}
use cpp_ipc_dds.Common.Lists.{length, replicate}

-- The `n` low bits of a number, and the number of a list of bits.
unfoldable pub bits_of : ℕ → ℕ → List Bool
bits_of zero x = []
bits_of (suc n) x = (x % 2 == 1) ∷ bits_of n (x / 2)

unfoldable pub of_bits : List Bool → ℕ
of_bits [] = 0
of_bits (true ∷ xs) = 1 + 2 * of_bits xs
of_bits (false ∷ xs) = 2 * of_bits xs

unfoldable pub bits_xor : List Bool → List Bool → List Bool
bits_xor (x ∷ xs) (y ∷ ys) = (if x then not y else y) ∷ bits_xor xs ys
bits_xor _ _ = []

pub length-bits_of : (n x : ℕ) → length (bits_of n x) ≡ n
unfolding bits_of
length-bits_of zero x = refl
length-bits_of (suc n) x = ap suc (length-bits_of n (x / 2))

bits_of-zero : (n : ℕ) → bits_of n 0 ≡ replicate n false
unfolding bits_of
bits_of-zero zero = refl
bits_of-zero (suc n) = ap (λ ys. false ∷ ys) (bits_of-zero n)

bits_of_odd : (n x : ℕ) → bits_of (suc n) (1 + 2 * x) ≡ true ∷ bits_of n x
unfolding bits_of
bits_of_odd n x =
    let odd : ((1 + 2 * x) % 2 == 1) ≡ true = ground arith in
    let half : (1 + 2 * x) / 2 ≡ x = omega arith in rw (odd, half) refl

bits_of_even : (n x : ℕ) → bits_of (suc n) (2 * x) ≡ false ∷ bits_of n x
unfolding bits_of
bits_of_even n x =
    let even : (2 * x % 2 == 1) ≡ false = ground arith in
    let half : 2 * x / 2 ≡ x = omega arith in rw (even, half) refl

pub bits_of-of_bits :
    (xs : List Bool) (m : ℕ) → bits_of (length xs + m) (of_bits xs) ≡ xs ++ replicate m false
unfolding bits_of of_bits
bits_of-of_bits [] m = rw (zero-add m) (bits_of-zero m)
bits_of-of_bits (true ∷ xs) m =
    rw (suc-add (length xs) m)
      (bits_of_odd (length xs + m) (of_bits xs) ∙ ap (λ ys. true ∷ ys) (bits_of-of_bits xs m))
bits_of-of_bits (false ∷ xs) m =
    rw (suc-add (length xs) m)
      (bits_of_even (length xs + m) (of_bits xs) ∙ ap (λ ys. false ∷ ys) (bits_of-of_bits xs m))

pub of_bits_lt : (xs : List Bool) → of_bits xs < 2 ^ length xs
unfolding of_bits
of_bits_lt [] = omega arith
of_bits_lt (true ∷ xs) = omega (arith, pow-succ' 2 (length xs), of_bits_lt xs)
of_bits_lt (false ∷ xs) = omega (arith, pow-succ' 2 (length xs), of_bits_lt xs)

pub xor_comm : (a b : List Bool) → bits_xor a b ≡ bits_xor b a
unfolding bits_xor
xor_comm [] [] = refl
xor_comm [] (y ∷ b) = refl
xor_comm (x ∷ a) [] = refl
xor_comm (true ∷ a) (true ∷ b) = ap (λ ys. false ∷ ys) (xor_comm a b)
xor_comm (true ∷ a) (false ∷ b) = ap (λ ys. true ∷ ys) (xor_comm a b)
xor_comm (false ∷ a) (true ∷ b) = ap (λ ys. true ∷ ys) (xor_comm a b)
xor_comm (false ∷ a) (false ∷ b) = ap (λ ys. false ∷ ys) (xor_comm a b)

pub xor_assoc : (a b c : List Bool) → bits_xor (bits_xor a b) c ≡ bits_xor a (bits_xor b c)
unfolding bits_xor
xor_assoc [] b c = refl
xor_assoc (x ∷ a) [] c = refl
xor_assoc (x ∷ a) (y ∷ b) [] = refl
xor_assoc (true ∷ a) (true ∷ b) (true ∷ c) = ap (λ ys. true ∷ ys) (xor_assoc a b c)
xor_assoc (true ∷ a) (true ∷ b) (false ∷ c) = ap (λ ys. false ∷ ys) (xor_assoc a b c)
xor_assoc (true ∷ a) (false ∷ b) (z ∷ c) = ap (λ ys. not z ∷ ys) (xor_assoc a b c)
xor_assoc (false ∷ a) (true ∷ b) (z ∷ c) = ap (λ ys. not z ∷ ys) (xor_assoc a b c)
xor_assoc (false ∷ a) (false ∷ b) (z ∷ c) = ap (λ ys. z ∷ ys) (xor_assoc a b c)

pub length-xor : (a b : List Bool) → length a ≡ length b → length (bits_xor a b) ≡ length b
unfolding bits_xor
length-xor [] [] h = refl
length-xor [] (y ∷ b) h = absurd (omega (arith, h))
length-xor (x ∷ a) [] h = absurd (omega (arith, h))
length-xor (x ∷ a) (y ∷ b) h = ap suc (length-xor a b (omega (arith, h)))

pub xor_zeros : (n : ℕ) (a : List Bool) → length a ≤ n → bits_xor a (replicate n false) ≡ a
unfolding bits_xor
xor_zeros n [] h = refl
xor_zeros zero (x ∷ a) h = absurd (omega arith)
xor_zeros (suc n) (true ∷ a) h = ap (λ ys. true ∷ ys) (xor_zeros n a (omega arith))
xor_zeros (suc n) (false ∷ a) h = ap (λ ys. false ∷ ys) (xor_zeros n a (omega arith))

pub xor_self : (xs : List Bool) → bits_xor xs xs ≡ replicate (length xs) false
unfolding bits_xor
xor_self [] = refl
xor_self (true ∷ xs) = ap (λ ys. false ∷ ys) (xor_self xs)
xor_self (false ∷ xs) = ap (λ ys. false ∷ ys) (xor_self xs)

pub xor-append :
    (a b c d : List Bool)
    → length a ≡ length c
    → bits_xor (a ++ b) (c ++ d) ≡ bits_xor a c ++ bits_xor b d
unfolding bits_xor
xor-append [] b [] d h = refl
xor-append [] b (y ∷ c) d h = absurd (omega (arith, h))
xor-append (x ∷ a) b [] d h = absurd (omega (arith, h))
xor-append (x ∷ a) b (y ∷ c) d h =
    ap (λ ys. (if x then not y else y) ∷ ys) (xor-append a b c d (omega (arith, h)))

-- Words whose difference is 0 are equal.
pub xor_zeros→≡ :
    (a b : List Bool) → length a ≡ length b → bits_xor a b ≡ replicate (length b) false → a ≡ b
xor_zeros→≡ a b h e =
    a
    ≡⟨ sym (xor_zeros (length b) a (omega (arith, h))) ⟩ bits_xor a (replicate (length b) false)
    ≡⟨ ap (bits_xor a) (sym (xor_self b)) ⟩ bits_xor a (bits_xor b b)
    ≡⟨ sym (xor_assoc a b b) ⟩ bits_xor (bits_xor a b) b
    ≡⟨ ap (λ w. bits_xor w b) e ⟩ bits_xor (replicate (length b) false) b
    ≡⟨ xor_comm (replicate (length b) false) b ⟩ bits_xor b (replicate (length b) false)
    ≡⟨ xor_zeros (length b) b (omega arith) ⟩ b ∎
