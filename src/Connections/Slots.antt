-- ===== src/Connections/Slots.antt =====
-- `connect` gives a bit that no other connection has, and `conn_count` counts the bits.
use cpp_ipc_dds.Common.{
  ℕ, zero, suc, ◌+◌, ◌-◌, ◌≤◌, ◌<◌, min, ◌≡◌, refl, sym, ap, ap₂, ◌∙◌, inl, inr, true, false, some,
  [], ◌∷◌, arith, Bool-cases, bits_xor, xor_self, length,
}
use cpp_ipc_dds.Connections.{
  Mask, bits_and, bits_or, bits_not, inc, dec, is_zero, same_mask, zeros, connect, disconnect,
  count_loop, conn_count,
}

-- The number of bits that are set.
unfoldable pub ones : Mask → ℕ
ones [] = 0
ones (true ∷ xs) = ones xs + 1
ones (false ∷ xs) = ones xs

-- The lowest bit that is not set.
unfoldable free_bit : Mask → Mask
free_bit [] = []
free_bit (false ∷ xs) = true ∷ zeros xs
free_bit (true ∷ xs) = false ∷ free_bit xs

or_self : (xs : Mask) → bits_or xs xs ≡ xs
unfolding bits_or
or_self [] = refl
or_self (true ∷ xs) = ap (λ ys. true ∷ ys) (or_self xs)
or_self (false ∷ xs) = ap (λ ys. false ∷ ys) (or_self xs)

pub and_self : (xs : Mask) → bits_and xs xs ≡ xs
unfolding bits_and
and_self [] = refl
and_self (true ∷ xs) = ap (λ ys. true ∷ ys) (and_self xs)
and_self (false ∷ xs) = ap (λ ys. false ∷ ys) (and_self xs)

same_mask→≡ : (xs ys : Mask) → same_mask xs ys ≡ true → xs ≡ ys
unfolding same_mask
same_mask→≡ [] [] h = refl
same_mask→≡ (true ∷ xs) (true ∷ ys) h = ap (λ zs. true ∷ zs) (same_mask→≡ xs ys h)
same_mask→≡ (false ∷ xs) (false ∷ ys) h = ap (λ zs. false ∷ zs) (same_mask→≡ xs ys h)
same_mask→≡ (true ∷ xs) (false ∷ ys) h = absurd (ground (arith, h))
same_mask→≡ (false ∷ xs) (true ∷ ys) h = absurd (ground (arith, h))
same_mask→≡ [] (_ ∷ _) h = absurd (ground (arith, h))
same_mask→≡ (_ ∷ _) [] h = absurd (ground (arith, h))

xor-inc : (xs : Mask) → bits_xor (bits_or xs (inc xs)) xs ≡ free_bit xs
unfolding bits_xor bits_or inc free_bit
xor-inc [] = refl
xor-inc (true ∷ xs) = ap (λ ys. false ∷ ys) (xor-inc xs)
xor-inc (false ∷ xs) = ap (λ ys. true ∷ ys) (rw (or_self xs) (xor_self xs))

or-zeros : (xs : Mask) → bits_or xs (zeros xs) ≡ xs
unfolding bits_or
or-zeros [] = refl
or-zeros (true ∷ xs) = ap (λ ys. true ∷ ys) (or-zeros xs)
or-zeros (false ∷ xs) = ap (λ ys. false ∷ ys) (or-zeros xs)

or-inc : (xs : Mask) → bits_or xs (inc xs) ≡ bits_or xs (free_bit xs)
unfolding bits_or inc free_bit
or-inc [] = refl
or-inc (true ∷ xs) = ap (λ ys. true ∷ ys) (or-inc xs)
or-inc (false ∷ xs) = ap (λ ys. true ∷ ys) (or_self xs ∙ sym (or-zeros xs))

-- In both branches.
connect_free : (curr : Mask) → connect curr ≡ (free_bit curr, bits_or curr (free_bit curr))
unfolding connect
connect_free curr =
    let next = bits_or curr (inc curr) in
    elim (Bool-cases (same_mask next curr)) [
      | inl h ↦
          let e : next ≡ curr = same_mask→≡ next curr h in
          let z : zeros curr ≡ free_bit curr =
            sym (xor_self curr) ∙ ap (λ m. bits_xor m curr) (sym e) ∙ xor-inc curr in
          rw h (ap₂ (λ (a b : Mask). (a, b)) z (sym e ∙ or-inc curr))
      | inr h ↦ rw h (ap₂ (λ (a b : Mask). (a, b)) (xor-inc curr) (or-inc curr))
    ]

ones-zeros : (xs : Mask) → ones (zeros xs) ≡ 0
unfolding ones
ones-zeros [] = refl
ones-zeros (_ ∷ xs) = ones-zeros xs

ones_le : (xs : Mask) → ones xs ≤ length xs
unfolding ones
ones_le [] = omega arith
ones_le (true ∷ xs) = omega (arith, ones_le xs)
ones_le (false ∷ xs) = omega (arith, ones_le xs)

ones-free_bit : (xs : Mask) → ones (free_bit xs) ≡ min 1 (length xs - ones xs)
unfolding ones free_bit
ones-free_bit [] = refl
ones-free_bit (true ∷ xs) = ones-free_bit xs ∙ omega arith
ones-free_bit (false ∷ xs) = omega (arith, ones-zeros xs, ones_le xs)

and-zeros : (xs : Mask) → is_zero (bits_and (zeros xs) xs) ≡ true
unfolding bits_and is_zero
and-zeros [] = refl
and-zeros (_ ∷ xs) = and-zeros xs

and-free_bit : (xs : Mask) → is_zero (bits_and (free_bit xs) xs) ≡ true
unfolding bits_and is_zero free_bit
and-free_bit [] = refl
and-free_bit (true ∷ xs) = and-free_bit xs
and-free_bit (false ∷ xs) = and-zeros xs

disconnect-zeros : (xs : Mask) → disconnect (zeros xs) xs ≡ xs
unfolding disconnect bits_and bits_not
disconnect-zeros [] = refl
disconnect-zeros (true ∷ xs) = ap (λ ys. true ∷ ys) (disconnect-zeros xs)
disconnect-zeros (false ∷ xs) = ap (λ ys. false ∷ ys) (disconnect-zeros xs)

disconnect-free_bit : (xs : Mask) → disconnect (free_bit xs) (bits_or xs (free_bit xs)) ≡ xs
unfolding disconnect bits_and bits_not bits_or free_bit
disconnect-free_bit [] = refl
disconnect-free_bit (true ∷ xs) = ap (λ ys. true ∷ ys) (disconnect-free_bit xs)
disconnect-free_bit (false ∷ xs) = ap (λ ys. false ∷ ys) (rw (or-zeros xs) (disconnect-zeros xs))

-- What the result of `connect` has to be.
pub record Connects (curr : Mask) (r : Mask × Mask) : Type 0 where
  pub fresh : is_zero (bits_and r.0 curr) ≡ true
  pub single : ones r.0 ≡ min 1 (length curr - ones curr)
  pub joined : r.1 ≡ bits_or curr r.0
  pub undone : disconnect r.0 r.1 ≡ curr

-- For any connections, `connect` gives a connection id that has no bit of theirs, and has one bit, or
-- none exactly if all are taken. The new connections are the old ones with that bit, and `disconnect`
-- gives the old ones back.
pub connect_lem : (curr : Mask) → Connects curr (connect curr)
connect_lem curr = rw (connect_free curr) record {
  fresh = and-free_bit curr;
  single = ones-free_bit curr;
  joined = refl;
  undone = disconnect-free_bit curr;
}

is_zero→ones : (xs : Mask) → is_zero xs ≡ true → ones xs ≡ 0
unfolding is_zero ones
is_zero→ones [] h = refl
is_zero→ones (true ∷ xs) h = absurd (ground (arith, h))
is_zero→ones (false ∷ xs) h = is_zero→ones xs h

and-dec : (xs : Mask) → is_zero xs ≡ false → ones (bits_and xs (dec xs)) + 1 ≡ ones xs
unfolding bits_and dec is_zero ones
and-dec [] h = absurd (ground (arith, h))
and-dec (true ∷ xs) h = rw (and_self xs) refl
and-dec (false ∷ xs) h = and-dec xs h

count_loop_lem :
    (fuel cnt : ℕ) (cur : Mask) → ones cur < fuel → count_loop fuel cnt cur ≡ some (cnt + ones cur)
unfolding count_loop
count_loop_lem zero cnt cur h = absurd (omega arith)
count_loop_lem (suc fuel) cnt cur h = elim (Bool-cases (is_zero cur)) [
  | inl z ↦ rw (count_loop, z) (ap some (omega (arith, is_zero→ones cur z)))
  | inr z ↦
      let less : ones (bits_and cur (dec cur)) + 1 ≡ ones cur = and-dec cur z in
      let more = count_loop_lem fuel (cnt + 1) (bits_and cur (dec cur)) (omega arith) in
      rw (count_loop, z) (more ∙ ap some (omega arith))
]

-- The loop of `conn_count` ends with the number of the bits that are set.
pub conn_count_lem : (cc : Mask) → conn_count cc ≡ some (ones cc)
unfolding conn_count
conn_count_lem cc =
    count_loop_lem (length cc + 1) 0 cc (omega (arith, ones_le cc)) ∙ ap some (omega arith)
