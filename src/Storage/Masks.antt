-- ===== src/Storage/Masks.antt =====
-- Masks of receivers, and lists of chunks with the number of times that a chunk is in them.
use cpp_ipc_dds.Common.{
  ℕ, zero, suc, ◌+◌, ◌≤◌, ◌<◌, add-zero, ◌≡◌, refl, ap, subst, inl, inr, true, false, ◌&&◌, List,
  [], ◌∷◌, arith, ltb, ◌==◌, if◌then◌else◌, Bool-cases, lt→ltb, ==_iff,
}
use cpp_ipc_dds.IdPool.{max_count}
use cpp_ipc_dds.IdPool.Free.{Absent, count_from}
use cpp_ipc_dds.Connections.{Mask, bits_and, is_zero}
use cpp_ipc_dds.Storage.{remove}

-- The step after `sub_rc` computes with one mask what the owners' mask is computed by.
pub and_assoc : (a b c : Mask) → bits_and a (bits_and b c) ≡ bits_and (bits_and a b) c
unfolding bits_and
and_assoc [] b c = refl
and_assoc (x ∷ a) [] c = refl
and_assoc (x ∷ a) (y ∷ b) [] = refl
and_assoc (true ∷ a) (y ∷ b) (z ∷ c) = ap (λ m. (y && z) ∷ m) (and_assoc a b c)
and_assoc (false ∷ a) (y ∷ b) (z ∷ c) = ap (λ m. false ∷ m) (and_assoc a b c)

is_zero-and : (c o : Mask) → is_zero o ≡ true → is_zero (bits_and c o) ≡ true
unfolding bits_and is_zero
is_zero-and [] [] h = refl
is_zero-and [] (x ∷ o) h = refl
is_zero-and (y ∷ c) [] h = refl
is_zero-and (y ∷ c) (true ∷ o) h = absurd (ground (arith, h))
is_zero-and (true ∷ c) (false ∷ o) h = is_zero-and c o h
is_zero-and (false ∷ c) (false ∷ o) h = is_zero-and c o h

-- A mask that has a bit in common with another is not 0.
pub meets→nonzero : (c o : Mask) → is_zero (bits_and c o) ≡ false → is_zero o ≡ false
meets→nonzero c o h = elim (Bool-cases (is_zero o)) [
  | inl z ↦ absurd (ground (arith, h, is_zero-and c o z))
  | inr z ↦ z
]

-- 1 for the chunk itself, 0 for another.
abbrev pub one_at : ℕ → ℕ → ℕ
one_at id j = if id == j then 1 else 0

unfoldable pub occurrences : ℕ → List ℕ → ℕ
occurrences id [] = 0
occurrences id (x ∷ xs) = one_at x id + occurrences id xs

pub one_at_self : (id : ℕ) → one_at id id ≡ 1
one_at_self id = rw ((==_iff id id).1 refl) refl

pub occurrences-remove :
    (j id : ℕ) (xs : List ℕ)
    → 0 < occurrences id xs
    → occurrences j (remove id xs) + one_at id j ≡ occurrences j xs
unfolding occurrences remove
occurrences-remove j id [] h = absurd (omega arith)
occurrences-remove j id (x ∷ xs) h = elim (Bool-cases (x == id)) [
  | inl e ↦ rw (e, (==_iff x id).0 e) (omega arith)
  | inr e ↦
      let there = subst (λ b. 0 < (if b then 1 else 0) + occurrences id xs) e h in
      rw e (omega (arith, occurrences-remove j id xs (omega (arith, there))))
]

pub occurrences→Absent : (id : ℕ) (xs : List ℕ) → occurrences id xs ≡ 0 → Absent id xs
unfolding occurrences
occurrences→Absent id [] h = tt
occurrences→Absent id (x ∷ xs) h = (
  λ e. absurd (omega (arith, h, subst (λ y. one_at y id ≡ 1) e (one_at_self id))),
  occurrences→Absent id xs (omega (arith, h)),
)

-- 1 for the chunks of the size class.
abbrev pub in_store : ℕ → ℕ
in_store id = if ltb id max_count then 1 else 0

pub in_store→lt : (id : ℕ) → 0 < in_store id → id < max_count
in_store→lt id h = ground (arith, h)

pub in_store_lt : (id : ℕ) → id < max_count → in_store id ≡ 1
in_store_lt id h = rw (lt→ltb id max_count h) refl

pub in_store_le : (id : ℕ) → in_store id ≤ 1
in_store_le id = ground arith

abbrev below : ℕ → ℕ → ℕ
below id n = if ltb id n then 1 else 0

occurrences-count_from :
    (id i left : ℕ) → occurrences id (count_from i left) + below id i ≡ below id (i + left)
unfolding occurrences
occurrences-count_from id i zero = rw (add-zero i) (omega arith)
occurrences-count_from id i (suc left) =
    let next : below id (i + 1) ≡ below id i + one_at i id = ground arith in
    let shift : below id (i + suc left) ≡ below id (i + 1 + left) = ap (below id) (omega arith) in
    omega (arith, next, shift, occurrences-count_from id (i + 1) left)

pub all_free : (id : ℕ) → occurrences id (count_from 0 max_count) ≡ in_store id
all_free id =
    let none_below : below id 0 ≡ 0 = ground arith in
    omega (arith, none_below, occurrences-count_from id 0 max_count)
