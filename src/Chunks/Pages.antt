-- ===== src/Chunks/Pages.antt =====
-- The pages of a message as a list, the flags of the receiver as a list of numbers.
use cpp_ipc_dds.Common.{
  ℕ, zero, suc, ◌+◌, ◌*◌, ◌≤◌, ◌<◌, ◌≡◌, refl, sym, ap, ap₂, ◌∙◌, ◌≢◌, List, [], ◌∷◌, ◌++◌,
  append-nil, arith, length, get_or, set, take, drop, replicate, concat, slice, length-append,
  length-drop, take-append-drop, take-length, drop-drop, nil_of_length,
}

-- Every page but the last is full.
abbrev pub Full : List (List ℕ) → Type 0
Full [] = Unit
Full (p ∷ []) = length p ≤ 1472
Full (p ∷ q ∷ ps) = (length p ≡ 1472) × Full (q ∷ ps)

abbrev pub page : List (List ℕ) → ℕ → List ℕ
page pages i = get_or pages i []

pub length-page : (pages : List (List ℕ)) (i : ℕ) → Full pages → length (page pages i) ≤ 1472
length-page [] i f = omega arith
length-page (p ∷ []) zero f = f
length-page (p ∷ []) (suc i) f = omega arith
length-page (p ∷ q ∷ ps) zero f = omega (arith, f.0)
length-page (p ∷ q ∷ ps) (suc i) f = length-page (q ∷ ps) i f.1

-- The pages that a buffer holds at their places make up the buffer.
pub rebuild :
    (pages : List (List ℕ)) (xs : List ℕ)
    → Full pages
    → length xs ≡ length (concat pages)
    → ((i : ℕ) → i < length pages → slice xs (i * 1472) (length (page pages i)) ≡ page pages i)
    → xs ≡ concat pages
rebuild [] xs f n h = nil_of_length xs n
rebuild (p ∷ []) xs f n h =
    sym (take-length (length p) xs (omega (arith, ap length (append-nil p))))
    ∙ h 0 (omega arith)
    ∙ sym (append-nil p)
rebuild (p ∷ q ∷ ps) xs f n h =
    sym (take-append-drop 1472 xs)
    ∙ ap₂ ◌++◌ (rw f.0 at (h 0 (omega arith))) (
        rebuild (q ∷ ps) (drop 1472 xs) f.1
          (omega (arith, f.0, length-drop 1472 xs, length-append p (q ++ concat ps)))
          (λ i lt.
            ap (take (length (page (q ∷ ps) i))) (sym (drop-drop 1472 (i * 1472) xs))
            ∙ rw (next i) (h (suc i) (omega arith))))
  where
    next : (i : ℕ) → 1472 + i * 1472 ≡ suc i * 1472
    next i = omega arith

-- How many flags are set.
unfoldable pub marks : List ℕ → ℕ
marks [] = 0
marks (zero ∷ xs) = marks xs
marks (suc x ∷ xs) = suc (marks xs)

marks-le : (xs : List ℕ) → marks xs ≤ length xs
unfolding marks
marks-le [] = omega arith
marks-le (zero ∷ xs) = omega (arith, marks-le xs)
marks-le (suc x ∷ xs) = omega (arith, marks-le xs)

pub marks-set : (xs : List ℕ) (i : ℕ) → get_or xs i 1 ≡ 0 → marks (set xs i 1) ≡ marks xs + 1
unfolding marks
marks-set [] i h = absurd (omega arith)
marks-set (zero ∷ xs) zero h = omega arith
marks-set (suc x ∷ xs) zero h = absurd (omega arith)
marks-set (zero ∷ xs) (suc i) h = marks-set xs i h
marks-set (suc x ∷ xs) (suc i) h = omega (arith, marks-set xs i h)

pub marks_full : (xs : List ℕ) (i : ℕ) → length xs ≤ marks xs → i < length xs → get_or xs i 0 ≢ 0
unfolding marks
marks_full [] i h lt = absurd (omega arith)
marks_full (zero ∷ xs) i h lt = absurd (omega (arith, marks-le xs))
marks_full (suc x ∷ xs) zero h lt = omega arith
marks_full (suc x ∷ xs) (suc i) h lt = marks_full xs i (omega arith) (omega arith)

pub marks-replicate : (n : ℕ) → marks (replicate n 0) ≡ 0
unfolding marks
marks-replicate zero = refl
marks-replicate (suc n) = marks-replicate n

pub length-page_inner :
    (pages : List (List ℕ)) (i : ℕ)
    → Full pages
    → i + 1 < length pages
    → length (page pages i) ≡ 1472
length-page_inner [] i f h = absurd (omega arith)
length-page_inner (p ∷ []) i f h = absurd (omega arith)
length-page_inner (p ∷ q ∷ ps) zero f h = f.0
length-page_inner (p ∷ q ∷ ps) (suc i) f h = length-page_inner (q ∷ ps) i f.1 (omega arith)

pub length-page_last :
    (pages : List (List ℕ)) (i : ℕ)
    → Full pages
    → i + 1 ≡ length pages
    → i * 1472 + length (page pages i) ≡ length (concat pages)
length-page_last [] i f h = absurd (omega arith)
length-page_last (p ∷ []) zero f h = omega (arith, ap length (append-nil p))
length-page_last (p ∷ []) (suc i) f h = absurd (omega arith)
length-page_last (p ∷ q ∷ ps) zero f h = absurd (omega arith)
length-page_last (p ∷ q ∷ ps) (suc i) f h =
    omega
      (arith, f.0, length-append p (q ++ concat ps), length-page_last (q ∷ ps) i f.1 (omega arith))

pub marks_all : (xs : List ℕ) → ((i : ℕ) → i < length xs → get_or xs i 0 ≢ 0) → marks xs ≡ length xs
unfolding marks
marks_all [] h = refl
marks_all (zero ∷ xs) h = absurd (h 0 (omega arith) refl)
marks_all (suc x ∷ xs) h = ap suc (marks_all xs (λ i lt. h (suc i) (omega arith)))
