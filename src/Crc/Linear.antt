-- ===== src/Crc/Linear.antt =====
-- A round is linear over the bits, and no two words have the same next one.
use cpp_ipc_dds.Common.{
  ℕ, zero, suc, ◌+◌, ◌≡◌, refl, sym, ap, ap₂, ◌∙◌, ◌≡⟨◌⟩◌, ◌∎, Bool, true, false, not, List, [],
  ◌∷◌, ◌++◌, arith, if◌then◌else◌, bits_xor, length-bits_of, xor_comm, xor_assoc, length-xor,
  xor_zeros, xor_self, xor-append, xor_zeros→≡, length, take, replicate, length-append,
  take-append_eq,
}
use cpp_ipc_dds.Crc.{polynomial, bit_round, bit_rounds}

length-polynomial : length polynomial ≡ 32
unfolding polynomial
length-polynomial = length-bits_of 32 0x82F63B78

-- What is added to the shifted word.
abbrev feedback : Bool → List Bool
feedback b = if b then polynomial else replicate 32 false

length-feedback : (b : Bool) → length (feedback b) ≡ 32
length-feedback true = length-polynomial
length-feedback false = refl

feedback-xor : (a b : Bool) → feedback (if a then not b else b) ≡ bits_xor (feedback a) (feedback b)
unfolding bits_xor polynomial
feedback-xor true true = refl
feedback-xor true false = refl
feedback-xor false true = refl
feedback-xor false false = refl

-- (a + b) + (c + d) = (a + c) + (b + d)
xor_swap :
    (a b c d : List Bool)
    → bits_xor (bits_xor a b) (bits_xor c d) ≡ bits_xor (bits_xor a c) (bits_xor b d)
xor_swap a b c d =
    bits_xor (bits_xor a b) (bits_xor c d)
    ≡⟨ xor_assoc a b (bits_xor c d) ⟩ bits_xor a (bits_xor b (bits_xor c d))
    ≡⟨ ap (bits_xor a) (sym (xor_assoc b c d)) ⟩ bits_xor a (bits_xor (bits_xor b c) d)
    ≡⟨ ap (λ w. bits_xor a (bits_xor w d)) (xor_comm b c) ⟩ bits_xor a (bits_xor (bits_xor c b) d)
    ≡⟨ ap (bits_xor a) (xor_assoc c b d) ⟩ bits_xor a (bits_xor c (bits_xor b d))
    ≡⟨ sym (xor_assoc a c (bits_xor b d)) ⟩ bits_xor (bits_xor a c) (bits_xor b d) ∎

pub length-bit_round : (w : List Bool) → length w ≡ 32 → length (bit_round w) ≡ 32
unfolding bit_round
length-bit_round [] h = absurd (omega (arith, h))
length-bit_round (x ∷ w) h =
    length-xor (w ++ false ∷ []) (feedback x)
      (length-append w (false ∷ []) ∙ h' ∙ sym (length-feedback x))
    ∙ length-feedback x
  where
    h' : length w + 1 ≡ 32
    h' = omega (arith, h)

pub bit_round-xor :
    (a b : List Bool)
    → length a ≡ 32
    → length b ≡ 32
    → bit_round (bits_xor a b) ≡ bits_xor (bit_round a) (bit_round b)
unfolding bit_round bits_xor
bit_round-xor [] b ha hb = absurd (omega (arith, ha))
bit_round-xor (x ∷ a) [] ha hb = absurd (omega (arith, hb))
bit_round-xor (x ∷ a) (y ∷ b) ha hb =
    bits_xor (bits_xor a b ++ false ∷ []) (feedback (if x then not y else y))
    ≡⟨ ap₂ bits_xor (sym (xor-append a (false ∷ []) b (false ∷ []) (omega (arith, ha, hb))))
        (feedback-xor x y) ⟩
      bits_xor (bits_xor (a ++ false ∷ []) (b ++ false ∷ [])) (bits_xor (feedback x) (feedback y))
    ≡⟨ xor_swap (a ++ false ∷ []) (b ++ false ∷ []) (feedback x) (feedback y) ⟩
      bits_xor (bit_round (x ∷ a)) (bit_round (y ∷ b)) ∎

pub bit_rounds-xor :
    (n : ℕ) (a b : List Bool)
    → length a ≡ 32
    → length b ≡ 32
    → bit_rounds n (bits_xor a b) ≡ bits_xor (bit_rounds n a) (bit_rounds n b)
unfolding bit_rounds
bit_rounds-xor zero a b ha hb = refl
bit_rounds-xor (suc n) a b ha hb =
    rw (bit_round-xor a b ha hb)
      (bit_rounds-xor n (bit_round a) (bit_round b) (length-bit_round a ha) (length-bit_round b hb))

pub length-bit_rounds : (n : ℕ) (w : List Bool) → length w ≡ 32 → length (bit_rounds n w) ≡ 32
unfolding bit_rounds
length-bit_rounds zero w h = h
length-bit_rounds (suc n) w h = length-bit_rounds n (bit_round w) (length-bit_round w h)

-- A word whose lowest bits are 0 is shifted.
pub shifted : (w : List Bool) → length w ≡ 31 → bit_round (false ∷ w) ≡ w ++ false ∷ []
unfolding bit_round
shifted w h = xor_zeros 32 (w ++ false ∷ []) (omega (arith, length-append w (false ∷ []), h))

last_bit : List Bool → Bool
last_bit [] = false
last_bit (x ∷ []) = x
last_bit (x ∷ y ∷ w) = last_bit (y ∷ w)

last_bit-xor :
    (a b : List Bool)
    → length a ≡ length b
    → last_bit (bits_xor a b) ≡ (if last_bit a then not (last_bit b) else last_bit b)
unfolding last_bit bits_xor
last_bit-xor [] [] h = refl
last_bit-xor [] (y ∷ b) h = absurd (omega (arith, h))
last_bit-xor (x ∷ a) [] h = absurd (omega (arith, h))
last_bit-xor (x ∷ []) (y ∷ []) h = refl
last_bit-xor (x ∷ []) (y ∷ z ∷ b) h = absurd (omega (arith, h))
last_bit-xor (x ∷ z ∷ a) (y ∷ []) h = absurd (omega (arith, h))
last_bit-xor (x ∷ z ∷ a) (y ∷ u ∷ b) h = last_bit-xor (z ∷ a) (u ∷ b) (omega (arith, h))

last_bit-append : (w : List Bool) (x : Bool) → last_bit (w ++ x ∷ []) ≡ x
unfolding last_bit
last_bit-append [] x = refl
last_bit-append (y ∷ []) x = refl
last_bit-append (y ∷ z ∷ w) x = last_bit-append (z ∷ w) x

last_bit-feedback : (x : Bool) → last_bit (feedback x) ≡ x
unfolding last_bit polynomial
last_bit-feedback true = refl
last_bit-feedback false = refl

-- The highest bit of the polynomial is 1, so the highest bit of the result is the bit that left.
last_bit-bit_round : (x : Bool) (w : List Bool) → length w ≡ 31 → last_bit (bit_round (x ∷ w)) ≡ x
unfolding bit_round
last_bit-bit_round x w h =
    last_bit-xor (w ++ false ∷ []) (feedback x)
      (length-append w (false ∷ []) ∙ omega (arith, h, length-feedback x))
    ∙ rw (last_bit-append w false) (last_bit-feedback x)

bit_round_kernel :
    (w : List Bool) → length w ≡ 32 → bit_round w ≡ replicate 32 false → w ≡ replicate 32 false
unfolding last_bit
bit_round_kernel [] h e = absurd (omega (arith, h))
bit_round_kernel (true ∷ w) h e =
    absurd (ground (arith, sym (last_bit-bit_round true w (omega (arith, h))) ∙ ap last_bit e))
bit_round_kernel (false ∷ w) h e =
    let len : length w ≡ 31 = omega (arith, h) in
    let moved : w ++ false ∷ [] ≡ replicate 32 false = sym (shifted w len) ∙ e in
    ap (λ v. false ∷ v) (sym (take-append_eq 31 w (false ∷ []) len) ∙ ap (take 31) moved)

pub bit_round_injective :
    (a b : List Bool) → length a ≡ 32 → length b ≡ 32 → bit_round a ≡ bit_round b → a ≡ b
bit_round_injective a b ha hb e =
    let nothing : bit_round (bits_xor a b) ≡ replicate 32 false =
      bit_round-xor a b ha hb
      ∙ ap (λ w. bits_xor w (bit_round b)) e
      ∙ xor_self (bit_round b)
      ∙ ap (λ n. replicate n false) (length-bit_round b hb) in
    xor_zeros→≡ a b (ha ∙ sym hb) (
      bit_round_kernel (bits_xor a b) (length-xor a b (ha ∙ sym hb) ∙ hb) nothing
      ∙ ap (λ n. replicate n false) (sym hb))

pub bit_rounds_injective :
    (n : ℕ) (a b : List Bool)
    → length a ≡ 32
    → length b ≡ 32
    → bit_rounds n a ≡ bit_rounds n b
    → a ≡ b
unfolding bit_rounds
bit_rounds_injective zero a b ha hb e = e
bit_rounds_injective (suc n) a b ha hb e = bit_round_injective a b ha hb (
    bit_rounds_injective n (bit_round a) (bit_round b) (length-bit_round a ha)
      (length-bit_round b hb) e)
