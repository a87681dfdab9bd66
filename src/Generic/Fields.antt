-- ===== src/Generic/Fields.antt =====
-- Setters and getters of GenericMessage by name.
use cpp_ipc_dds.Common.{
  ℕ, zero, suc, ◌+◌, ◌*◌, ◌/◌, ◌^◌, ◌<◌, ◌≡◌, refl, ◌≢◌, true, false, some, List, [], ◌∷◌, ◌++◌,
  map, arith, ltb, leb, length, take, concat, length-append, take-length, take-append_eq,
  drop-append_eq, le_bytes, of_le,
}
use cpp_ipc_dds.Control.Frames.{of_le-le_bytes}
use cpp_ipc_dds.Generic.{
  FieldEntry, same_name, find_field, put_field, set_scalar, sized_bytes, set_string_impl,
  set_array_impl, got, scalar_of, get_scalar, string_of, get_string, elements_of, array_of,
  get_array_impl,
}

pub same_name_refl : (n : List ℕ) → same_name n n ≡ true
unfolding same_name
same_name_refl [] = refl
same_name_refl (x ∷ xs) = ground (arith, same_name_refl xs)

pub same_name→eq : (n m : List ℕ) → same_name n m ≡ true → n ≡ m
unfolding same_name
same_name→eq [] [] h = refl
same_name→eq [] (y ∷ ys) h = cc
same_name→eq (x ∷ xs) [] h = cc
same_name→eq (x ∷ xs) (y ∷ ys) h = ground (arith, same_name→eq xs ys)

-- A lookup of `m` behind a setter of `n` with the value `d`.
module _ (n : List ℕ) (k : ℕ) (d : List ℕ) where
  pub find_field-put_field_self :
      (fs : List FieldEntry)
      → find_field n (put_field n k d fs) ≡ some (record { name = n; kind = k; bytes = d })
  unfolding find_field put_field
  find_field-put_field_self [] = rw (same_name_refl n) refl
  find_field-put_field_self (f ∷ fs) =
      ground (arith, same_name_refl n, find_field-put_field_self fs)

  pub find_field-put_field_ne :
      (m : List ℕ) (fs : List FieldEntry)
      → n ≢ m
      → find_field m (put_field n k d fs) ≡ find_field m fs
  unfolding find_field put_field
  find_field-put_field_ne m [] ne = ground (arith, same_name→eq n m, ne)
  find_field-put_field_ne m (f ∷ fs) ne = ground (
    arith,
    same_name→eq n m,
    same_name→eq f.name m,
    same_name→eq f.name n,
    ne,
    find_field-put_field_ne m fs ne,
  )

pub length-le_bytes : (w n : ℕ) → length (le_bytes w n) ≡ w
length-le_bytes zero n = refl
length-le_bytes (suc w) n = omega (arith, length-le_bytes w (n / 256))

abbrev pub AllBelow : ℕ → List ℕ → Type 0
AllBelow bound [] = Unit
AllBelow bound (x ∷ xs) = (x < bound) × AllBelow bound xs

-- The getters on the bytes that the setters store.
module _ (n : List ℕ) (k : ℕ) where
  scalar_of_self :
      (w val : ℕ)
      → val < 256 ^ w
      → scalar_of w (some (record { name = n; kind = k; bytes = le_bytes w val })) ≡ got val
  unfolding scalar_of
  scalar_of_self w val fits =
      let whole : take w (le_bytes w val) ≡ le_bytes w val =
        take-length w (le_bytes w val) (omega (arith, length-le_bytes w val)) in
      let long : ltb w w ≡ false = ground arith in
      rw (length-le_bytes, long, whole, of_le-le_bytes w val fits) refl

  string_of_self :
      (val : List ℕ)
      → length val < 2 ^ 31
      → string_of (some (record { name = n; kind = k; bytes = sized_bytes val })) ≡ got val
  unfolding string_of
  string_of_self val fits =
      let sz : of_le (le_bytes 4 (length val)) ≡ length val =
        of_le-le_bytes 4 (length val) (omega arith) in
      let long : ltb (suc (suc (suc (suc (length val))))) 4 ≡ false = ground arith in
      let small : leb (2 ^ 31) (length val) ≡ false = ground arith in
      let there : ltb (suc (suc (suc (suc (length val))))) (4 + length val) ≡ false =
        ground arith in
      rw (sz, long, small, there, take-length (length val) val (omega arith)) refl

  elements_of_lem :
      (w : ℕ) (elements : List ℕ)
      → AllBelow (256 ^ w) elements
      → elements_of w (length elements) (concat (map (le_bytes w) elements)) ≡ elements
  unfolding elements_of
  elements_of_lem w [] fit = refl
  elements_of_lem w (x ∷ xs) fit =
      rw
        (
          take-append_eq w (le_bytes w x) (concat (map (le_bytes w) xs)) (length-le_bytes w x),
          drop-append_eq w (le_bytes w x) (concat (map (le_bytes w) xs)) (length-le_bytes w x),
          of_le-le_bytes w x fit.0,
          elements_of_lem w xs fit.1,
        )
        refl

  elements_size :
      (w : ℕ) (elements : List ℕ)
      → length (concat (map (le_bytes w) elements)) ≡ length elements * w
  elements_size w [] = omega arith
  elements_size w (x ∷ xs) = grind (
    arith,
    length-append (le_bytes w x) (concat (map (le_bytes w) xs)),
    length-le_bytes w x,
    elements_size w xs,
  )

  array_of_self :
      (w : ℕ) (elements : List ℕ)
      → length elements < 2 ^ 31
      → AllBelow (256 ^ w) elements
      → array_of w (
          some (record {
            name = n;
            kind = k;
            bytes = le_bytes 4 (length elements) ++ concat (map (le_bytes w) elements);
          }))
        ≡ got elements
  unfolding array_of
  array_of_self w elements few fit =
      let sz : of_le (le_bytes 4 (length elements)) ≡ length elements =
        of_le-le_bytes 4 (length elements) (omega arith) in
      let long : (m : ℕ) → ltb (suc (suc (suc (suc m)))) 4 ≡ false = λ m. ground arith in
      let small : leb (2 ^ 31) (length elements) ≡ false = ground arith in
      let there : ltb (suc (suc (suc (suc (length elements * w))))) (4 + length elements * w)
          ≡ false =
        ground arith in
      rw
        (
          sz,
          elements_size w elements,
          long (length elements * w),
          small,
          there,
          elements_of_lem w elements fit,
        )
        (ground arith)

-- What a scalar setter stores, the getter of the same size gets back, and no other name is touched.
pub get_scalar-set_scalar :
    (w : ℕ) (n m : List ℕ) (k val : ℕ) (fs : List FieldEntry)
    → val < 256 ^ w
    → n ≢ m
    → (get_scalar w n (set_scalar w n k val fs) ≡ got val)
      × (get_scalar w m (set_scalar w n k val fs) ≡ get_scalar w m fs)
unfolding get_scalar set_scalar
get_scalar-set_scalar w n m k val fs fits ne = (
  rw (find_field-put_field_self n k (le_bytes w val) fs) (scalar_of_self n k w val fits),
  rw (find_field-put_field_ne n k (le_bytes w val) m fs ne) refl,
)

pub get_string-set_string_impl :
    (n m : List ℕ) (k : ℕ) (val : List ℕ) (fs : List FieldEntry)
    → length val < 2 ^ 31
    → n ≢ m
    → (get_string n (set_string_impl n k val fs) ≡ got val)
      × (get_string m (set_string_impl n k val fs) ≡ get_string m fs)
unfolding get_string set_string_impl
get_string-set_string_impl n m k val fs fits ne = (
  rw (find_field-put_field_self n k (sized_bytes val) fs) (string_of_self n k val fits),
  rw (find_field-put_field_ne n k (sized_bytes val) m fs ne) refl,
)

pub get_array_impl-set_array_impl :
    (w : ℕ) (n m : List ℕ) (k : ℕ) (elements : List ℕ) (fs : List FieldEntry)
    → length elements < 2 ^ 31
    → AllBelow (256 ^ w) elements
    → n ≢ m
    → (get_array_impl w n (set_array_impl w n k elements fs) ≡ got elements)
      × (get_array_impl w m (set_array_impl w n k elements fs) ≡ get_array_impl w m fs)
unfolding get_array_impl set_array_impl
get_array_impl-set_array_impl w n m k elements fs few fit ne = (
  rw
      (find_field-put_field_self n k
        (le_bytes 4 (length elements) ++ concat (map (le_bytes w) elements)) fs)
      (array_of_self n k w elements few fit),
  rw
      (find_field-put_field_ne n k
        (le_bytes 4 (length elements) ++ concat (map (le_bytes w) elements)) m fs ne)
      refl,
)
