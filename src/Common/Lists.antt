-- ===== src/Common/Lists.antt =====
-- Lists as C arrays: native indices, reads and block writes.
use Prim.Native.Nat.{ℕ, zero, suc, ◌+◌, ◌-◌, ◌≤◌, ◌<◌, min}
use mathlib.Core.Path.{◌≡◌, refl, ap}
use mathlib.Core.Logic.{◌≢◌}
use mathlib.Core.List.{List, [], ◌∷◌, ◌++◌}
use mathlib.Core.Option.{Option, none, some}
use native.Mathlib.Omega.{arith}
use native.Mathlib.Nat.{zero-add, suc-add}

module _ {ℓ} {A : Type ℓ} where
  abbrev pub length : List A → ℕ
  length [] = 0
  length (x ∷ xs) = suc (length xs)

  abbrev pub get_elem? : List A → ℕ → Option A
  get_elem? [] i = none
  get_elem? (x ∷ xs) zero = some x
  get_elem? (x ∷ xs) (suc i) = get_elem? xs i

  abbrev pub get_or : List A → ℕ → A → A
  get_or [] i d = d
  get_or (x ∷ xs) zero d = x
  get_or (x ∷ xs) (suc i) d = get_or xs i d

  -- A write out of bounds changes nothing.
  abbrev pub set : List A → ℕ → A → List A
  set [] i v = []
  set (x ∷ xs) zero v = v ∷ xs
  set (x ∷ xs) (suc i) v = x ∷ set xs i v

  abbrev pub take : ℕ → List A → List A
  take zero xs = []
  take (suc n) [] = []
  take (suc n) (x ∷ xs) = x ∷ take n xs

  abbrev pub drop : ℕ → List A → List A
  drop zero xs = xs
  drop (suc n) [] = []
  drop (suc n) (x ∷ xs) = drop n xs

  abbrev pub replicate : ℕ → A → List A
  replicate zero v = []
  replicate (suc n) v = v ∷ replicate n v

  abbrev pub concat : List (List A) → List A
  concat [] = []
  concat (xs ∷ xss) = xs ++ concat xss

  -- The `n` elements from index `i` on: the source of a block copy.
  abbrev pub slice : List A → ℕ → ℕ → List A
  slice xs i n = take n (drop i xs)

  -- `memcpy(dst + i, src, n)`: what would fall behind the end of `dst` is not written.
  abbrev pub overwrite : List A → ℕ → List A → List A
  overwrite [] i src = []
  overwrite (x ∷ xs) (suc i) src = x ∷ overwrite xs i src
  overwrite (x ∷ xs) zero [] = x ∷ xs
  overwrite (x ∷ xs) zero (y ∷ src) = y ∷ overwrite xs zero src

  pub length-append : (xs ys : List A) → length (xs ++ ys) ≡ length xs + length ys
  length-append [] ys = omega arith
  length-append (x ∷ xs) ys = omega (arith, length-append xs ys)

  pub length-set : (xs : List A) (i : ℕ) (v : A) → length (set xs i v) ≡ length xs
  length-set [] i v = refl
  length-set (x ∷ xs) zero v = refl
  length-set (x ∷ xs) (suc i) v = ap suc (length-set xs i v)

  pub length-replicate : (n : ℕ) (v : A) → length (replicate n v) ≡ n
  length-replicate zero v = refl
  length-replicate (suc n) v = ap suc (length-replicate n v)

  pub length-take : (n : ℕ) (xs : List A) → length (take n xs) ≡ min n (length xs)
  length-take zero xs = omega arith
  length-take (suc n) [] = omega arith
  length-take (suc n) (x ∷ xs) = omega (arith, length-take n xs)

  pub length-drop : (n : ℕ) (xs : List A) → length (drop n xs) ≡ length xs - n
  length-drop zero xs = omega arith
  length-drop (suc n) [] = omega arith
  length-drop (suc n) (x ∷ xs) = omega (arith, length-drop n xs)

  pub length-overwrite :
      (xs : List A) (i : ℕ) (src : List A) → length (overwrite xs i src) ≡ length xs
  length-overwrite [] i src = refl
  length-overwrite (x ∷ xs) (suc i) src = ap suc (length-overwrite xs i src)
  length-overwrite (x ∷ xs) zero [] = refl
  length-overwrite (x ∷ xs) zero (y ∷ src) = ap suc (length-overwrite xs zero src)

  pub take-append-drop : (n : ℕ) (xs : List A) → take n xs ++ drop n xs ≡ xs
  take-append-drop zero xs = refl
  take-append-drop (suc n) [] = refl
  take-append-drop (suc n) (x ∷ xs) = ap (λ r. x ∷ r) (take-append-drop n xs)

  pub take-append : (xs ys : List A) → take (length xs) (xs ++ ys) ≡ xs
  take-append [] ys = refl
  take-append (x ∷ xs) ys = ap (λ r. x ∷ r) (take-append xs ys)

  pub drop-append : (xs ys : List A) → drop (length xs) (xs ++ ys) ≡ ys
  drop-append [] ys = refl
  drop-append (x ∷ xs) ys = drop-append xs ys

  -- Reading back the middle one of three blocks.
  pub slice-append :
      (xs ys zs : List A) (i n : ℕ)
      → i ≡ length xs
      → n ≡ length ys
      → slice (xs ++ (ys ++ zs)) i n ≡ ys
  slice-append xs ys zs i n hi hn = rw (hi, hn, drop-append, take-append)

  pub slice-append_before :
      (xs ys : List A) (i n : ℕ) → i + n ≤ length xs → slice (xs ++ ys) i n ≡ slice xs i n
  slice-append_before xs ys i zero h = refl
  slice-append_before [] ys i (suc n) h = absurd (omega arith)
  slice-append_before (x ∷ xs) ys zero (suc n) h =
      ap (λ r. x ∷ r) (slice-append_before xs ys zero n (omega arith))
  slice-append_before (x ∷ xs) ys (suc i) (suc n) h =
      slice-append_before xs ys i (suc n) (omega arith)

  pub overwrite_zero :
      (xs src : List A) → length src ≤ length xs → overwrite xs 0 src ≡ src ++ drop (length src) xs
  overwrite_zero [] [] h = refl
  overwrite_zero [] (y ∷ src) h = absurd (omega arith)
  overwrite_zero (x ∷ xs) [] h = refl
  overwrite_zero (x ∷ xs) (y ∷ src) h = ap (λ r. y ∷ r) (overwrite_zero xs src (omega arith))

  -- A block write behind the first block replaces as much of the second as it is long.
  pub overwrite-append :
      (pre xs src : List A) (i : ℕ)
      → i ≡ length pre
      → length src ≤ length xs
      → overwrite (pre ++ xs) i src ≡ pre ++ (src ++ drop (length src) xs)
  overwrite-append [] xs src i hi h = rw hi (overwrite_zero xs src h)
  overwrite-append (p ∷ pre) xs src i hi h =
      rw hi (ap (λ r. p ∷ r) (overwrite-append pre xs src (length pre) refl h))

  -- A block write that fits leaves the bytes before it, and puts its source behind them.
  pub take-overwrite :
      (xs : List A) (i : ℕ) (src : List A)
      → i + length src ≤ length xs
      → take (i + length src) (overwrite xs i src) ≡ take i xs ++ src
  take-overwrite [] zero [] h = refl
  take-overwrite [] zero (y ∷ src) h = absurd (omega arith)
  take-overwrite [] (suc i) src h = absurd (omega arith)
  take-overwrite (x ∷ xs) zero [] h = refl
  take-overwrite (x ∷ xs) zero (y ∷ src) h =
      let e : 0 + suc (length src) ≡ suc (0 + length src) = omega arith in
      rw e (ap (λ r. y ∷ r) (take-overwrite xs zero src (omega arith)))
  take-overwrite (x ∷ xs) (suc i) src h =
      let e : suc i + length src ≡ suc (i + length src) = omega arith in
      rw e (ap (λ r. x ∷ r) (take-overwrite xs i src (omega arith)))

  pub take-length : (n : ℕ) (xs : List A) → length xs ≤ n → take n xs ≡ xs
  take-length zero [] h = refl
  take-length zero (x ∷ xs) h = absurd (omega arith)
  take-length (suc n) [] h = refl
  take-length (suc n) (x ∷ xs) h = ap (λ r. x ∷ r) (take-length n xs (omega arith))

  pub drop-drop : (m n : ℕ) (xs : List A) → drop (m + n) xs ≡ drop n (drop m xs)
  drop-drop zero n xs = rw zero-add refl
  drop-drop (suc m) n [] = rw suc-add (drop-nil n)
    where
      drop-nil : (k : ℕ) → [] ≡ drop k []
      drop-nil zero = refl
      drop-nil (suc k) = refl
  drop-drop (suc m) n (x ∷ xs) = rw suc-add (drop-drop m n xs)

  -- The first `n` elements, at least one, and the others.
  pub split_at :
      (n : ℕ) (xs : List A)
      → 0 < n
      → n ≤ length xs
      → (x : A) × (ys : List A) × (zs : List A) × (xs ≡ (x ∷ ys) ++ zs) × (suc (length ys) ≡ n)
  split_at zero xs p h = absurd (omega arith)
  split_at (suc n) [] p h = absurd (omega arith)
  split_at (suc zero) (x ∷ xs) p h = (x, [], xs, refl, refl)
  split_at (suc (suc n)) (x ∷ xs) p h =
      let (y, ys, zs, e, k) = split_at (suc n) xs (omega arith) (omega arith) in
      (x, y ∷ ys, zs, ap (λ r. x ∷ r) e, ap suc k)

  pub get_or-append_right :
      (xs ys : List A) (i : ℕ) (d : A) → get_or (xs ++ ys) (length xs + i) d ≡ get_or ys i d
  get_or-append_right [] ys i d = rw zero-add refl
  get_or-append_right (x ∷ xs) ys i d = rw suc-add (get_or-append_right xs ys i d)

  pub length-slice : (xs : List A) (i n : ℕ) → i + n ≤ length xs → length (slice xs i n) ≡ n
  length-slice xs i n h = omega (arith, length-take n (drop i xs), length-drop i xs)

  pub nil_of_length : (xs : List A) → length xs ≡ 0 → xs ≡ []
  nil_of_length [] h = refl
  nil_of_length (x ∷ xs) h = absurd (omega arith)

  -- A block copy of the part that a block write covers, and of a part that it does not touch.
  pub slice-overwrite_self :
      (xs : List A) (i : ℕ) (src : List A)
      → i + length src ≤ length xs
      → slice (overwrite xs i src) i (length src) ≡ src
  slice-overwrite_self [] zero [] h = refl
  slice-overwrite_self [] zero (y ∷ src) h = absurd (omega arith)
  slice-overwrite_self [] (suc i) src h = absurd (omega arith)
  slice-overwrite_self (x ∷ xs) zero [] h = refl
  slice-overwrite_self (x ∷ xs) zero (y ∷ src) h =
      ap (λ r. y ∷ r) (slice-overwrite_self xs zero src (omega arith))
  slice-overwrite_self (x ∷ xs) (suc i) src h = slice-overwrite_self xs i src (omega arith)

  pub slice-overwrite_before :
      (xs : List A) (i : ℕ) (src : List A) (k n : ℕ)
      → k + n ≤ i
      → slice (overwrite xs i src) k n ≡ slice xs k n
  slice-overwrite_before xs i src k zero h = refl
  slice-overwrite_before [] i src k (suc n) h = refl
  slice-overwrite_before (x ∷ xs) zero src k (suc n) h = absurd (omega arith)
  slice-overwrite_before (x ∷ xs) (suc i) src zero (suc n) h =
      ap (λ r. x ∷ r) (slice-overwrite_before xs i src zero n (omega arith))
  slice-overwrite_before (x ∷ xs) (suc i) src (suc k) (suc n) h =
      slice-overwrite_before xs i src k (suc n) (omega arith)

  pub slice-overwrite_behind :
      (xs : List A) (i : ℕ) (src : List A) (k n : ℕ)
      → i + length src ≤ k
      → slice (overwrite xs i src) k n ≡ slice xs k n
  slice-overwrite_behind [] i src k n h = refl
  slice-overwrite_behind (x ∷ xs) zero [] k n h = refl
  slice-overwrite_behind (x ∷ xs) zero (y ∷ src) zero n h = absurd (omega arith)
  slice-overwrite_behind (x ∷ xs) zero (y ∷ src) (suc k) n h =
      slice-overwrite_behind xs zero src k n (omega arith)
  slice-overwrite_behind (x ∷ xs) (suc i) src zero n h = absurd (omega arith)
  slice-overwrite_behind (x ∷ xs) (suc i) src (suc k) n h =
      slice-overwrite_behind xs i src k n (omega arith)

  pub get_or-set_self :
      (xs : List A) (i : ℕ) (v d : A) → i < length xs → get_or (set xs i v) i d ≡ v
  get_or-set_self [] i v d h = absurd (omega arith)
  get_or-set_self (x ∷ xs) zero v d h = refl
  get_or-set_self (x ∷ xs) (suc i) v d h = get_or-set_self xs i v d (omega arith)

  pub get_or-set_ne :
      (xs : List A) (i j : ℕ) (v d : A) → i ≢ j → get_or (set xs i v) j d ≡ get_or xs j d
  get_or-set_ne [] i j v d h = refl
  get_or-set_ne (x ∷ xs) zero zero v d h = absurd (h refl)
  get_or-set_ne (x ∷ xs) zero (suc j) v d h = refl
  get_or-set_ne (x ∷ xs) (suc i) zero v d h = refl
  get_or-set_ne (x ∷ xs) (suc i) (suc j) v d h = get_or-set_ne xs i j v d (λ e. h (ap suc e))

  pub drop-set : (xs : List A) (i : ℕ) (v : A) → drop 1 (set xs (suc i) v) ≡ set (drop 1 xs) i v
  drop-set [] i v = refl
  drop-set (x ∷ xs) i v = refl

  pub get_or-drop : (xs : List A) (i : ℕ) (d : A) → get_or (drop 1 xs) i d ≡ get_or xs (suc i) d
  get_or-drop [] i d = refl
  get_or-drop (x ∷ xs) i d = refl

  pub take-append_eq : (n : ℕ) (xs ys : List A) → length xs ≡ n → take n (xs ++ ys) ≡ xs
  take-append_eq n xs ys e = rw (← e) (take-append xs ys)

  pub drop-append_eq : (n : ℕ) (xs ys : List A) → length xs ≡ n → drop n (xs ++ ys) ≡ ys
  drop-append_eq n xs ys e = rw (← e) (drop-append xs ys)

  pub drop-length : (n : ℕ) (xs : List A) → length xs ≤ n → drop n xs ≡ []
  drop-length zero [] h = refl
  drop-length zero (x ∷ xs) h = absurd (omega arith)
  drop-length (suc n) [] h = refl
  drop-length (suc n) (x ∷ xs) h = drop-length n xs (omega arith)

  pub set-append_right :
      (xs ys : List A) (i : ℕ) (v : A) → set (xs ++ ys) (length xs + i) v ≡ xs ++ set ys i v
  set-append_right [] ys i v = rw zero-add refl
  set-append_right (x ∷ xs) ys i v = rw suc-add (ap (λ r. x ∷ r) (set-append_right xs ys i v))
