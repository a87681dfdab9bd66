-- ===== src/Generic/Typed.antt =====
-- The setters and getters of GenericMessage for each scalar type. A value is its bit pattern.
use cpp_ipc_dds.Common.{
  ℕ, zero, suc, ◌^◌, ◌<◌, ◌≡◌, refl, ap, ◌∙◌, ◌≢◌, List, arith, ◌==◌, if◌then◌else◌, length,
}
use cpp_ipc_dds.Generic.{
  FieldEntry, Got, set_scalar, get_scalar, set_array_impl, get_array_impl, got,
}
use cpp_ipc_dds.Generic.Parse.{scalar, array, shape_of}
use cpp_ipc_dds.Generic.RoundTrip.{AreFields}
use cpp_ipc_dds.Generic.Fields.{AllBelow, get_scalar-set_scalar, get_array_impl-set_array_impl}
use cpp_ipc_dds.Generic.Nested.{set_scalar-AreFields, set_array_impl-AreFields}

-- The scalar constants of `FieldType`, and those of the arrays of them.
pub data FieldType : Type 0 where
  ft_bool : FieldType
  ft_int8 : FieldType
  ft_uint8 : FieldType
  ft_int16 : FieldType
  ft_uint16 : FieldType
  ft_int32 : FieldType
  ft_uint32 : FieldType
  ft_int64 : FieldType
  ft_uint64 : FieldType
  ft_float32 : FieldType
  ft_float64 : FieldType

pub code : FieldType → ℕ
code ft_bool = 1
code ft_int8 = 2
code ft_uint8 = 3
code ft_int16 = 4
code ft_uint16 = 5
code ft_int32 = 6
code ft_uint32 = 7
code ft_int64 = 8
code ft_uint64 = 9
code ft_float32 = 10
code ft_float64 = 11

pub array_code : FieldType → ℕ
array_code ft_bool = 13
array_code ft_int8 = 14
array_code ft_uint8 = 15
array_code ft_int16 = 16
array_code ft_uint16 = 17
array_code ft_int32 = 18
array_code ft_uint32 = 19
array_code ft_int64 = 20
array_code ft_uint64 = 21
array_code ft_float32 = 22
array_code ft_float64 = 23

-- The size of the value that a setter passes to `set_scalar` or `set_array_impl`.
unfoldable pub set_width : FieldType → ℕ
set_width ft_bool = 1
set_width ft_int8 = 1
set_width ft_uint8 = 1
set_width ft_int16 = 2
set_width ft_uint16 = 2
set_width ft_int32 = 4
set_width ft_uint32 = 4
set_width ft_int64 = 8
set_width ft_uint64 = 8
set_width ft_float32 = 4
set_width ft_float64 = 8

-- The size for which a getter instantiates `get_scalar` or `get_array_impl`.
pub get_width : FieldType → ℕ
get_width ft_bool = 1
get_width ft_int8 = 1
get_width ft_uint8 = 1
get_width ft_int16 = 2
get_width ft_uint16 = 2
get_width ft_int32 = 4
get_width ft_uint32 = 4
get_width ft_int64 = 8
get_width ft_uint64 = 8
get_width ft_float32 = 4
get_width ft_float64 = 8

-- What a setter passes for the value: `set_bool` 1 for true and 0 for false, the others the value.
unfoldable pub stored : FieldType → ℕ → ℕ
stored ft_bool val = if val == 0 then 0 else 1
stored _ val = val

-- `set_bool` and the others.
pub set_typed : FieldType → List ℕ → ℕ → List FieldEntry → List FieldEntry
unfolding code set_width stored
set_typed t n val fs = set_scalar (set_width t) n (code t) (stored t val) fs

pub set_typed_array : FieldType → List ℕ → List ℕ → List FieldEntry → List FieldEntry
unfolding array_code set_width
set_typed_array t n elements fs = set_array_impl (set_width t) n (array_code t) elements fs

-- `get_bool` compares what it reads with 0; the others return it.
unfoldable pub truth : Got ℕ → Got ℕ
truth (got val) = got (if val == 0 then 0 else 1)
truth g = g

unfoldable pub loaded : FieldType → Got ℕ → Got ℕ
unfolding truth
loaded ft_bool g = truth g
loaded _ g = g

-- `get_bool` and the others.
pub get_typed : FieldType → List ℕ → List FieldEntry → Got ℕ
unfolding get_width loaded
get_typed t n fs = loaded t (get_scalar (get_width t) n fs)

pub get_typed_array : FieldType → List ℕ → List FieldEntry → Got (List ℕ)
unfolding get_width
get_typed_array t n fs = get_array_impl (get_width t) n fs

-- The three tables agree: what a setter stores, its getter reads, and the deserializer expects.
widths : (t : FieldType) → get_width t ≡ set_width t
unfolding get_width set_width
widths ft_bool = refl
widths ft_int8 = refl
widths ft_uint8 = refl
widths ft_int16 = refl
widths ft_uint16 = refl
widths ft_int32 = refl
widths ft_uint32 = refl
widths ft_int64 = refl
widths ft_uint64 = refl
widths ft_float32 = refl
widths ft_float64 = refl

shapes :
    (t : FieldType)
    → (shape_of (code t) ≡ scalar (set_width t))
      × (shape_of (array_code t) ≡ array (set_width t))
      × (code t < 256)
      × (array_code t < 256)
unfolding shape_of code array_code set_width
shapes ft_bool = (refl, refl, omega arith, omega arith)
shapes ft_int8 = (refl, refl, omega arith, omega arith)
shapes ft_uint8 = (refl, refl, omega arith, omega arith)
shapes ft_int16 = (refl, refl, omega arith, omega arith)
shapes ft_uint16 = (refl, refl, omega arith, omega arith)
shapes ft_int32 = (refl, refl, omega arith, omega arith)
shapes ft_uint32 = (refl, refl, omega arith, omega arith)
shapes ft_int64 = (refl, refl, omega arith, omega arith)
shapes ft_uint64 = (refl, refl, omega arith, omega arith)
shapes ft_float32 = (refl, refl, omega arith, omega arith)
shapes ft_float64 = (refl, refl, omega arith, omega arith)

-- How many values a type has.
unfoldable pub values : FieldType → ℕ
unfolding set_width
values ft_bool = 2
values t = 256 ^ set_width t

stored_fits : (t : FieldType) (val : ℕ) → val < values t → stored t val < 256 ^ set_width t
unfolding stored values set_width
stored_fits ft_bool val h = ground (arith, h)
stored_fits ft_int8 val h = h
stored_fits ft_uint8 val h = h
stored_fits ft_int16 val h = h
stored_fits ft_uint16 val h = h
stored_fits ft_int32 val h = h
stored_fits ft_uint32 val h = h
stored_fits ft_int64 val h = h
stored_fits ft_uint64 val h = h
stored_fits ft_float32 val h = h
stored_fits ft_float64 val h = h

loaded-stored : (t : FieldType) (val : ℕ) → val < values t → loaded t (got (stored t val)) ≡ got val
unfolding loaded truth stored values
loaded-stored ft_bool zero h = refl
loaded-stored ft_bool (suc zero) h = refl
loaded-stored ft_bool (suc (suc n)) h = absurd (omega arith)
loaded-stored ft_int8 val h = refl
loaded-stored ft_uint8 val h = refl
loaded-stored ft_int16 val h = refl
loaded-stored ft_uint16 val h = refl
loaded-stored ft_int32 val h = refl
loaded-stored ft_uint32 val h = refl
loaded-stored ft_int64 val h = refl
loaded-stored ft_uint64 val h = refl
loaded-stored ft_float32 val h = refl
loaded-stored ft_float64 val h = refl

-- For every scalar type and every value of it, 0 or 1 for bool, and a name that is not empty and
-- shorter than 2 ^ 31: the getter reads the value that the setter stored, another name keeps its
-- value, and a message whose fields are as `serialize` wants them stays so.
pub get_typed-set_typed :
    (t : FieldType) (n m : List ℕ) (val : ℕ) (fs : List FieldEntry)
    → val < values t
    → n ≢ m
    → 0 < length n
    → length n < 2 ^ 31
    → AreFields fs
    → (get_typed t n (set_typed t n val fs) ≡ got val)
      × (get_typed t m (set_typed t n val fs) ≡ get_typed t m fs)
      × AreFields (set_typed t n val fs)
unfolding get_typed set_typed
get_typed-set_typed t n m val fs fits ne named short all =
    let s = shapes t in
    let g =
      get_scalar-set_scalar (set_width t) n m (code t) (stored t val) fs (stored_fits t val fits)
        ne in
    rw (widths t) (
      ap (loaded t) g.0 ∙ loaded-stored t val fits,
      ap (loaded t) g.1,
      set_scalar-AreFields n (code t) named short s.2 fs all (set_width t) (stored t val) s.0,
    )

-- The same for arrays of fewer than 2^31 elements.
pub get_typed_array-set_typed_array :
    (t : FieldType) (n m elements : List ℕ) (fs : List FieldEntry)
    → length elements < 2 ^ 31
    → AllBelow (256 ^ set_width t) elements
    → n ≢ m
    → 0 < length n
    → length n < 2 ^ 31
    → AreFields fs
    → (get_typed_array t n (set_typed_array t n elements fs) ≡ got elements)
      × (get_typed_array t m (set_typed_array t n elements fs) ≡ get_typed_array t m fs)
      × AreFields (set_typed_array t n elements fs)
unfolding get_typed_array set_typed_array
get_typed_array-set_typed_array t n m elements fs few fit ne named short all =
    let s = shapes t in
    let g = get_array_impl-set_array_impl (set_width t) n m (array_code t) elements fs few fit ne in
    rw (widths t) (
      g.0,
      g.1,
      set_array_impl-AreFields n (array_code t) named short s.3 fs all (set_width t) elements s.1
          few,
    )
