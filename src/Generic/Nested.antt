-- ===== src/Generic/Nested.antt =====
-- Messages inside messages, and that the setters build messages which can be serialized.
use cpp_ipc_dds.Common.{
  ℕ, suc, ◌+◌, ◌-◌, ◌/◌, ◌^◌, ◌<◌, ◌≡◌, refl, sym, ap, false, Option, some, List, [], ◌∷◌, ◌++◌,
  map, arith, ltb, leb, length, concat, take-length, le_bytes, of_le,
}
use cpp_ipc_dds.Framing.{MsgBase}
use cpp_ipc_dds.Control.Frames.{Allocates, of_le-le_bytes}
use cpp_ipc_dds.Generic.{
  FieldEntry, put_field, set_scalar, sized_bytes, set_string_impl, set_array_impl, set_string_array,
  Got, got, not_found, too_short, truncated, bad_length, wild, nested_of, nested_bytes, serialize,
  set_nested_impl,
}
use cpp_ipc_dds.Generic.Parse.{scalar, sized, array, shape_of, deserialize}
use cpp_ipc_dds.Generic.Layout.{AllLength, AllSmall, Shaped}
use cpp_ipc_dds.Generic.RoundTrip.{
  IsField, AreFields, payload, serialize_fits, deserialize-serialize,
}
use cpp_ipc_dds.Generic.Fields.{find_field-put_field_self, length-le_bytes}

parsed : Got (List ℕ) → Got (Option (List FieldEntry))
parsed (got d) = got (deserialize d)
parsed not_found = not_found
parsed too_short = too_short
parsed truncated = truncated
parsed bad_length = bad_length
parsed wild = wild

-- `get_nested`
pub get_nested : List ℕ → List FieldEntry → Got (Option (List FieldEntry))
unfolding parsed
get_nested n fs = parsed (nested_bytes n fs)

nested_of_self :
    (n : List ℕ) (k : ℕ) (s : List ℕ)
    → length s < 2 ^ 31
    → nested_of (some (record { name = n; kind = k; bytes = sized_bytes s })) ≡ got s
unfolding nested_of
nested_of_self n k s fits =
    let sz : of_le (le_bytes 4 (length s)) ≡ length s = of_le-le_bytes 4 (length s) (omega arith) in
    let long : ltb (suc (suc (suc (suc (length s))))) 4 ≡ false = ground arith in
    let small : leb (2 ^ 31) (length s) ≡ false = ground arith in
    let there : ltb (suc (suc (suc (suc (length s))))) (4 + length s) ≡ false = ground arith in
    rw (sz, long, small, there, take-length (length s) s (omega arith)) refl

-- A message that is set as a field is got back with all its fields.
pub get_nested-set_nested_impl :
    (malloc : ℕ → List ℕ) (b : MsgBase) (n : List ℕ) (val fs : List FieldEntry)
    → Allocates malloc
    → AreFields val
    → length (payload val) / 1460 < 2 ^ 16 - 1
    → get_nested n (set_nested_impl malloc b n val fs) ≡ got (some val)
unfolding get_nested set_nested_impl nested_bytes
get_nested-set_nested_impl malloc b n val fs fresh ok few =
    rw
      (
        find_field-put_field_self n 25 (sized_bytes (serialize malloc b val)) fs,
        nested_of_self n 25 (serialize malloc b val) (serialize_fits malloc b val fresh few),
        deserialize-serialize malloc b val fresh ok few,
      )
      refl

length-map : (f : ℕ → List ℕ) (xs : List ℕ) → length (map f xs) ≡ length xs
length-map f [] = refl
length-map f (x ∷ xs) = ap (λ (k : ℕ). suc k) (length-map f xs)

elements_AllLength : (w : ℕ) (xs : List ℕ) → AllLength w (map (le_bytes w) xs)
elements_AllLength w [] = tt
elements_AllLength w (x ∷ xs) = (length-le_bytes w x, elements_AllLength w xs)

put_field-AreFields :
    (n : List ℕ) (k : ℕ) (d : List ℕ) (fs : List FieldEntry)
    → IsField (record { name = n; kind = k; bytes = d })
    → AreFields fs
    → AreFields (put_field n k d fs)
unfolding put_field
put_field-AreFields n k d [] ok all = (ok, tt)
put_field-AreFields n k d (f ∷ fs) ok all = ground (arith, put_field-AreFields n k d fs ok all.1)

module _ (n : List ℕ) (k : ℕ) (named : 0 < length n) (fits : length n < 2 ^ 31) (known : k < 256)
    (fs : List FieldEntry) (all : AreFields fs) where
  put-Shaped : (d : List ℕ) → Shaped (shape_of k) d → AreFields (put_field n k d fs)
  put-Shaped d shaped =
      put_field-AreFields n k d fs
        (record { named = named; name_fits = fits; known = known; shaped = shaped }) all

  pub set_scalar-AreFields :
      (w val : ℕ) → shape_of k ≡ scalar w → AreFields (set_scalar w n k val fs)
  unfolding set_scalar
  set_scalar-AreFields w val e = put-Shaped (le_bytes w val) (rw e (length-le_bytes w val))

  pub set_string_impl-AreFields :
      (val : List ℕ)
      → shape_of k ≡ sized
      → length val < 2 ^ 31
      → AreFields (set_string_impl n k val fs)
  unfolding set_string_impl
  set_string_impl-AreFields val e small = put-Shaped (sized_bytes val) (rw e (val, refl, small))

  pub set_array_impl-AreFields :
      (w : ℕ) (elements : List ℕ)
      → shape_of k ≡ array w
      → length elements < 2 ^ 31
      → AreFields (set_array_impl w n k elements fs)
  unfolding set_array_impl
  set_array_impl-AreFields w elements e small = put-Shaped _ (
      rw e (
        map (le_bytes w) elements,
        ap (λ c. le_bytes 4 c ++ concat (map (le_bytes w) elements))
            (sym (length-map (le_bytes w) elements)),
        rw (length-map (le_bytes w) elements) small,
        elements_AllLength w elements,
      ))

-- The setters with a type of their own.
pub set_string_array-AreFields :
    (n : List ℕ) (arr : List (List ℕ)) (fs : List FieldEntry)
    → 0 < length n
    → length n < 2 ^ 31
    → length arr < 2 ^ 31
    → AllSmall arr
    → AreFields fs
    → AreFields (set_string_array n arr fs)
unfolding set_string_array shape_of
set_string_array-AreFields n arr fs named fits few small all =
    put-Shaped n 24 named fits (omega arith) fs all _ (arr, refl, few, small)

pub set_nested_impl-AreFields :
    (malloc : ℕ → List ℕ) (b : MsgBase) (n : List ℕ) (val fs : List FieldEntry)
    → Allocates malloc
    → 0 < length n
    → length n < 2 ^ 31
    → length (payload val) / 1460 < 2 ^ 16 - 1
    → AreFields fs
    → AreFields (set_nested_impl malloc b n val fs)
unfolding set_nested_impl shape_of
set_nested_impl-AreFields malloc b n val fs fresh named fits few all =
    put-Shaped n 25 named fits (omega arith) fs all _
      (serialize malloc b val, refl, serialize_fits malloc b val fresh few)
