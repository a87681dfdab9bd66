-- ===== src/Generic/Parse.antt =====
-- `GenericMessage::deserialize` of include/ipc_msg/ipc_msg_base/generic_message.hpp. A position is
-- the source's `offset`, a uint32_t; `n` is `buf_size`.
use cpp_ipc_dds.Common.{
  ℕ, zero, suc, ◌+◌, ◌-◌, ◌*◌, ◌/◌, ◌%◌, ◌^◌, min, Bool, true, false, ◌&&◌, ◌||◌, Option, none,
  some, List, [], ◌∷◌, ◌++◌, ltb, leb, ◌==◌, if◌then◌else◌, length, replicate, slice, u32, sub32,
  of_le,
}
use cpp_ipc_dds.Generic.{FieldEntry, sized_bytes}

-- The `for` loop of `read_paged`, with `cut` rounds left.
unfoldable pub paged_cut : List ℕ → ℕ → ℕ → ℕ → ℕ → List ℕ → ℕ → List ℕ × ℕ
paged_cut buf n len zero pure dst offset = (dst, offset)
paged_cut buf n len (suc cut) pure dst offset =
    let copy = min (1460 - pure % 1460) (len - length dst) in
    let more =
      paged_cut buf n len cut (u32 (pure + copy)) (dst ++ slice buf offset copy)
        (u32 (offset + copy + 12)) in
    if ltb n (u32 (offset + copy)) then (dst, offset) else more

-- The copy of `read_paged` behind the loop; what is not copied stays zero.
unfoldable pub paged_rest : List ℕ → ℕ → ℕ → List ℕ × ℕ → List ℕ × ℕ
paged_rest buf n len (dst, offset) =
    let remaining = len - length dst in
    if ltb 0 remaining && leb (u32 (offset + remaining)) n
    then (dst ++ slice buf offset remaining, u32 (offset + remaining))
    else (dst ++ replicate remaining 0, offset)

-- `read_paged<T>` with `len` for sizeof(T): the bytes of the value, and the new offset. The loops of
-- `read_string_paged` and `read_bytes_paged` are the same.
unfoldable pub read_paged : List ℕ → ℕ → ℕ → ℕ → List ℕ × ℕ
unfolding paged_cut paged_rest
read_paged buf n len offset =
    let passed = offset / 1472 in
    let pure = offset - passed * 12 in
    let cut = sub32 (u32 (pure + len) / 1460) (pure / 1460) in
    paged_rest buf n len (paged_cut buf n len cut pure [] offset)

-- `read_string_paged` and `read_bytes_paged`
unfoldable pub read_bytes_paged : List ℕ → ℕ → ℕ → ℕ → List ℕ × ℕ
read_bytes_paged buf n size offset =
    if size == 0 || leb (2 ^ 31) size then ([], offset) else read_paged buf n size offset

-- The branches of the `switch` over the field's type.
pub data Shape : Type 0 where
  scalar : ℕ → Shape
  sized : Shape
  array : ℕ → Shape
  sized_array : Shape
  unknown : Shape

abbrev pub one_of : ℕ → List ℕ → Bool
one_of k [] = false
one_of k (x ∷ xs) = k == x || one_of k xs

unfoldable pub shape_of : ℕ → Shape
shape_of k =
    if one_of k (1 ∷ 2 ∷ 3 ∷ [])
    then scalar 1
    else if one_of k (4 ∷ 5 ∷ [])
    then scalar 2
    else if one_of k (6 ∷ 7 ∷ 10 ∷ [])
    then scalar 4
    else if one_of k (8 ∷ 9 ∷ 11 ∷ [])
    then scalar 8
    else if one_of k (12 ∷ 25 ∷ [])
    then sized
    else if one_of k (13 ∷ 14 ∷ 15 ∷ [])
    then array 1
    else if one_of k (16 ∷ 17 ∷ [])
    then array 2
    else if one_of k (18 ∷ 19 ∷ 22 ∷ [])
    then array 4
    else if one_of k (20 ∷ 21 ∷ 23 ∷ [])
    then array 8
    else if one_of k (24 ∷ 26 ∷ [])
    then sized_array
    else unknown

-- The tests before a read of `w` bytes: `offset + 1 > buf_size` for a byte, else with the tail.
abbrev pub no_room : ℕ → ℕ → ℕ → Bool
no_room n w offset =
    if w == 1 then ltb n (u32 (offset + 1)) else ltb (u32 (n + 12)) (u32 (offset + w))

-- The same before an element, where the size is a size_t.
abbrev pub no_room_elem : ℕ → ℕ → ℕ → Bool
no_room_elem n w offset =
    if w == 1 then ltb n (u32 (offset + 1)) else ltb (u32 (n + 12)) (offset + w)

abbrev pub behind : List ℕ → Option (List ℕ × ℕ) → Option (List ℕ × ℕ)
behind xs none = none
behind xs (some (ys, offset)) = some (xs ++ ys, offset)

-- The loop over the elements of an array. `none` where `deserialize` returns.
unfoldable pub read_elems : List ℕ → ℕ → ℕ → ℕ → ℕ → Option (List ℕ × ℕ)
read_elems buf n w zero offset = some ([], offset)
read_elems buf n w (suc count) offset =
    let v = read_paged buf n w offset in
    let rest = behind v.0 (read_elems buf n w count v.1) in
    if no_room_elem n w offset then none else rest

-- The bytes behind a length that has been read.
unfoldable pub sized_value : List ℕ → ℕ → List ℕ × ℕ → Option (List ℕ × ℕ)
sized_value buf n (sz, offset) =
    let s = read_bytes_paged buf n (of_le sz) offset in
    if leb (2 ^ 31) (of_le sz) then none else some (sized_bytes s.0, s.1)

-- A string or nested message, with its length.
unfoldable pub read_sized : List ℕ → ℕ → ℕ → Option (List ℕ × ℕ)
read_sized buf n offset =
    if no_room n 4 offset then none else sized_value buf n (read_paged buf n 4 offset)

-- The loop over an array of them.
unfoldable pub read_sized_elems : List ℕ → ℕ → ℕ → ℕ → Option (List ℕ × ℕ)
read_sized_elems buf n zero offset = some ([], offset)
read_sized_elems buf n (suc count) offset = elim (read_sized buf n offset) [
  | none ↦ none
  | some (v, offset') ↦ behind v (read_sized_elems buf n count offset')
]

-- The count of an array, and then its elements by `loop`.
unfoldable pub counted : (ℕ → ℕ → Option (List ℕ × ℕ)) → List ℕ × ℕ → Option (List ℕ × ℕ)
counted loop (c, offset) =
    let elements = behind c (loop (of_le c) offset) in
    if leb (2 ^ 31) (of_le c) then none else elements

-- The `switch`: the value of a field of the given shape.
unfoldable pub read_value : List ℕ → ℕ → Shape → ℕ → Option (List ℕ × ℕ)
read_value buf n (scalar w) offset =
    if no_room n w offset then none else some (read_paged buf n w offset)
read_value buf n sized offset = read_sized buf n offset
read_value buf n (array w) offset =
    if no_room n 4 offset then none else counted (read_elems buf n w) (read_paged buf n 4 offset)
read_value buf n sized_array offset =
    if no_room n 4 offset
    then none
    else counted (read_sized_elems buf n) (read_paged buf n 4 offset)
read_value buf n unknown offset = none

-- A field with the value that was read, if one was.
abbrev pub field_with : List ℕ → ℕ → Option (List ℕ × ℕ) → Option (FieldEntry × ℕ)
field_with name k none = none
field_with name k (some (v, offset)) = some (record { name = name; kind = k; bytes = v }, offset)

-- From the type on, for a field with the name `name`.
unfoldable pub read_typed : List ℕ → ℕ → List ℕ → List ℕ × ℕ → Option (FieldEntry × ℕ)
read_typed buf n name (t, offset) =
    field_with name (of_le t) (read_value buf n (shape_of (of_le t)) offset)

unfoldable pub read_named : List ℕ → ℕ → List ℕ × ℕ → Option (FieldEntry × ℕ)
read_named buf n (name, offset) =
    if ltb n (u32 (offset + 1)) then none else read_typed buf n name (read_paged buf n 1 offset)

unfoldable pub read_sized_name : List ℕ → ℕ → List ℕ × ℕ → Option (FieldEntry × ℕ)
read_sized_name buf n (sz, offset) =
    if of_le sz == 0 || leb (2 ^ 31) (of_le sz) || ltb n (u32 (offset + of_le sz))
    then none
    else read_named buf n (read_bytes_paged buf n (of_le sz) offset)

-- The body of the `while` loop behind the test for a tail: a field, or `none` where the loop ends.
unfoldable pub read_field : List ℕ → ℕ → ℕ → Option (FieldEntry × ℕ)
read_field buf n offset =
    if ltb n (u32 (offset + 4)) then none else read_sized_name buf n (read_paged buf n 4 offset)

-- The `while` loop. `none` when the fuel runs out.
unfoldable pub read_loop : ℕ → List ℕ → ℕ → ℕ → List FieldEntry → Option (List FieldEntry)
read_loop zero buf n offset fields = none
read_loop (suc fuel) buf n offset fields = elim (ltb (u32 (offset + 12)) n) [
  | false ↦ some fields
  | true ↦ elim (leb 1460 (offset % 1472)) [
    | true ↦ read_loop fuel buf n (u32 (offset + (1472 - offset % 1472))) fields
    | false ↦ elim (read_field buf n offset) [
      | none ↦ some fields
      | some (f, offset') ↦ read_loop fuel buf n offset' (fields ++ f ∷ [])
    ]
  ]
]

-- `deserialize`. Each round of the loop moves on by a byte or more, so the length of the buffer is
-- enough fuel.
unfoldable pub deserialize : List ℕ → Option (List FieldEntry)
deserialize buf =
    let fields = read_loop (length buf) buf (u32 (length buf)) 0 [] in
    if ltb (length buf) 12 then some [] else fields
