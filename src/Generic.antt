-- ===== src/Generic.antt =====
-- The dynamic message of include/ipc_msg/ipc_msg_base/generic_message.hpp (class GenericMessage):
-- named fields with a type, setters and getters by name, and the self-describing serialization. A
-- field's value is the list of its bytes; a float is its bit pattern. `int32_t` values are bit
-- patterns below 2^32, negative from 2^31 on. The zero-copy segment that the class can hold instead
-- of fields is left out.
pub mod Parse
pub mod Read
pub mod Layout
pub mod RoundTrip
pub mod Fields
pub mod Nested
pub mod Moves
pub mod Halts
pub mod Typed
mod Tests
use cpp_ipc_dds.Common.{
  ℕ, zero, suc, ◌+◌, ◌*◌, ◌^◌, Bool, true, false, ◌&&◌, ◌||◌, Option, none, some, List, [], ◌∷◌,
  ◌++◌, map, ltb, leb, ◌==◌, if◌then◌else◌, length, take, drop, concat, slice, u32, le_bytes, of_le,
}
use cpp_ipc_dds.Framing.{MsgBase, serialize_data_cut, serialize_fields}

-- `FieldEntry`
pub record FieldEntry : Type 0 where
  pub name : List ℕ
  pub kind : ℕ
  pub bytes : List ℕ

-- `==` of two names.
unfoldable pub same_name : List ℕ → List ℕ → Bool
same_name [] [] = true
same_name (x ∷ xs) (y ∷ ys) = x == y && same_name xs ys
same_name _ _ = false

-- `find_field`, with the field in place of its index.
unfoldable pub find_field : List ℕ → List FieldEntry → Option FieldEntry
unfolding same_name
find_field n [] = none
find_field n (f ∷ fs) = let rest = find_field n fs in if same_name f.name n then some f else rest

-- What every setter does with its bytes: the field of that name is overwritten in its place, or a new
-- one is added at the end.
unfoldable pub put_field : List ℕ → ℕ → List ℕ → List FieldEntry → List FieldEntry
unfolding same_name
put_field n k d [] = record { name = n; kind = k; bytes = d } ∷ []
put_field n k d (f ∷ fs) =
    let rest = put_field n k d fs in
    if same_name f.name n then record { name = n; kind = k; bytes = d } ∷ fs else f ∷ rest

-- `set_scalar<T>` with `w` for sizeof(T).
unfoldable pub set_scalar : ℕ → List ℕ → ℕ → ℕ → List FieldEntry → List FieldEntry
unfolding put_field
set_scalar w n k val = put_field n k (le_bytes w val)

-- A length and the bytes behind it, as strings and nested messages are kept.
abbrev pub sized_bytes : List ℕ → List ℕ
sized_bytes s = le_bytes 4 (length s) ++ s

-- `set_string_impl`
unfoldable pub set_string_impl : List ℕ → ℕ → List ℕ → List FieldEntry → List FieldEntry
unfolding put_field
set_string_impl n k val = put_field n k (sized_bytes val)

-- `set_array_impl<T>`
unfoldable pub set_array_impl : ℕ → List ℕ → ℕ → List ℕ → List FieldEntry → List FieldEntry
unfolding put_field
set_array_impl w n k elements =
    put_field n k (le_bytes 4 (length elements) ++ concat (map (le_bytes w) elements))

-- `set_string_array`
unfoldable pub set_string_array : List ℕ → List (List ℕ) → List FieldEntry → List FieldEntry
unfolding put_field
set_string_array n arr = put_field n 24 (le_bytes 4 (length arr) ++ concat (map sized_bytes arr))

-- What a getter returns or throws. `wild` is a read behind the end of the field's bytes, which the
-- source does not check for.
pub data Got {ℓ} (A : Type ℓ) : Type ℓ where
  got : A → Got A
  not_found : Got A
  too_short : Got A
  truncated : Got A
  bad_length : Got A
  wild : Got A

-- `read_raw<int32_t>(data, off)` on bytes that are there.
abbrev pub read_i32 : List ℕ → ℕ → ℕ
read_i32 d off = of_le (slice d off 4)

unfoldable pub scalar_of : ℕ → Option FieldEntry → Got ℕ
scalar_of w none = not_found
scalar_of w (some f) = if ltb (length f.bytes) w then too_short else got (of_le (slice f.bytes 0 w))

-- `get_scalar<T>`
pub get_scalar : ℕ → List ℕ → List FieldEntry → Got ℕ
unfolding scalar_of find_field
get_scalar w n fs = scalar_of w (find_field n fs)

unfoldable pub string_of : Option FieldEntry → Got (List ℕ)
string_of none = not_found
string_of (some f) =
    let sz = read_i32 f.bytes 0 in
    if ltb (length f.bytes) 4
    then too_short
    else if leb (2 ^ 31) sz
    then got []
    else if ltb (length f.bytes) (4 + sz)
    then wild
    else got (slice f.bytes 4 sz)

-- `get_string`
pub get_string : List ℕ → List FieldEntry → Got (List ℕ)
unfolding string_of find_field
get_string n fs = string_of (find_field n fs)

-- The elements of `w` bytes that `memcpy` fills the result with.
unfoldable pub elements_of : ℕ → ℕ → List ℕ → List ℕ
elements_of w zero d = []
elements_of w (suc count) d = of_le (take w d) ∷ elements_of w count (drop w d)

unfoldable pub array_of : ℕ → Option FieldEntry → Got (List ℕ)
unfolding elements_of
array_of w none = not_found
array_of w (some f) =
    let count = read_i32 f.bytes 0 in
    if ltb (length f.bytes) 4
    then too_short
    else if leb (2 ^ 31) count
    then bad_length
    else if ltb 0 count && ltb (length f.bytes) (4 + count * w)
    then truncated
    else got (elements_of w count (drop 4 f.bytes))

-- `get_array_impl<T>`
pub get_array_impl : ℕ → List ℕ → List FieldEntry → Got (List ℕ)
unfolding array_of find_field
get_array_impl w n fs = array_of w (find_field n fs)

-- The bytes of a nested message, which `get_nested` hands to `deserialize`.
unfoldable pub nested_of : Option FieldEntry → Got (List ℕ)
nested_of none = not_found
nested_of (some f) =
    let sz = read_i32 f.bytes 0 in
    if ltb (length f.bytes) 4
    then too_short
    else if leb (2 ^ 31) sz || ltb (length f.bytes) (4 + sz)
    then truncated
    else got (slice f.bytes 4 sz)

pub nested_bytes : List ℕ → List FieldEntry → Got (List ℕ)
unfolding nested_of find_field
nested_bytes n fs = nested_of (find_field n fs)

-- The sum that `serialize` computes before it writes.
unfoldable pub total_from : ℕ → List FieldEntry → ℕ
total_from total [] = total
total_from total (f ∷ fs) =
    total_from (u32 (u32 (u32 (u32 (total + 4) + length f.name) + 1) + length f.bytes)) fs

unfoldable pub total_data_size : List FieldEntry → ℕ
unfolding total_from
total_data_size fs = total_from 0 fs

-- The copies of `serialize` for one field.
abbrev pub field_copies : FieldEntry → List (List ℕ)
field_copies f =
    le_bytes 4 (length f.name)
    ∷ f.name
    ∷ (f.kind ∷ [])
    ∷ (if ltb 0 (length f.bytes) then f.bytes ∷ [] else [])

abbrev pub all_copies : List FieldEntry → List (List ℕ)
all_copies [] = []
all_copies (f ∷ fs) = field_copies f ++ all_copies fs

-- `serialize`, on an object with the members `b`; `malloc` gives the buffer that it allocates.
unfoldable pub serialize : (ℕ → List ℕ) → MsgBase → List FieldEntry → List ℕ
unfolding total_data_size serialize_fields
serialize malloc b [] = malloc (serialize_data_cut 0 b).total_size
serialize malloc b (f ∷ fs) =
    let b' = serialize_data_cut (total_data_size (f ∷ fs)) b in
    serialize_fields b' (all_copies (f ∷ fs))
      (record { buf = malloc b'.total_size; page = 1; offset = 0 })

-- `set_nested_impl`
unfoldable pub set_nested_impl :
    (ℕ → List ℕ) → MsgBase → List ℕ → List FieldEntry → List FieldEntry → List FieldEntry
unfolding put_field serialize
set_nested_impl malloc b n val = put_field n 25 (sized_bytes (serialize malloc b val))
