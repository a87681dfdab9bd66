-- ===== src/Generic/Tests.antt =====
-- The dynamic message at concrete fields.
use cpp_ipc_dds.Common.{
  ℕ, ◌≡◌, refl, ap, ◌≢◌, some, List, [], ◌∷◌, ◌++◌, arith, get_or, replicate, length-replicate,
}
use cpp_ipc_dds.Framing.{MsgBase}
use cpp_ipc_dds.Control.Frames.{Allocates}
use cpp_ipc_dds.Generic.{FieldEntry, got, set_nested_impl, sized_bytes, serialize}
use cpp_ipc_dds.Generic.Parse.{shape_of, deserialize}
use cpp_ipc_dds.Generic.RoundTrip.{AreFields, deserialize-serialize}
use cpp_ipc_dds.Generic.Typed.{
  ft_int32, set_width, values, set_typed, get_typed, get_typed-set_typed,
}
use cpp_ipc_dds.Generic.Nested.{get_nested, get_nested-set_nested_impl}
use cpp_ipc_dds.Generic.Halts.{deserialize_ends}

abbrev zeroed : ℕ → List ℕ
zeroed n = replicate n 0

zeroed-Allocates : Allocates zeroed
zeroed-Allocates n = length-replicate n 0

abbrev base : MsgBase
base = record { total_size = 0; total_page_cnt = 0; msg_id = 0 }

-- `x`, an int32 of 258, and `s`, the string `hi`.
abbrev x_field : FieldEntry
x_field = record { name = b'x' ∷ []; kind = 6; bytes = 2 ∷ 1 ∷ 0 ∷ 0 ∷ [] }

abbrev s_field : FieldEntry
s_field = record { name = b's' ∷ []; kind = 12; bytes = sized_bytes (b'h' ∷ b'i' ∷ []) }

abbrev two_fields : List FieldEntry
two_fields = x_field ∷ s_field ∷ []

two_fields-AreFields : AreFields two_fields
unfolding shape_of
two_fields-AreFields = (
  record { named = omega arith; name_fits = omega arith; known = omega arith; shaped = refl },
  (
    record {
      named = omega arith;
      name_fits = omega arith;
      known = omega arith;
      shaped = (b'h' ∷ b'i' ∷ [], refl, omega arith);
    },
    tt,
  ),
)

deserialize-serialize_example : deserialize (serialize zeroed base two_fields) ≡ some two_fields
deserialize-serialize_example =
    deserialize-serialize zeroed base two_fields zeroed-Allocates two_fields-AreFields (omega arith)

get_nested-set_nested_impl_example :
    get_nested (b'n' ∷ []) (set_nested_impl zeroed base (b'n' ∷ []) two_fields [])
    ≡ got (some two_fields)
get_nested-set_nested_impl_example =
    get_nested-set_nested_impl zeroed base (b'n' ∷ []) two_fields [] zeroed-Allocates
      two_fields-AreFields (omega arith)

names_differ : ◌≢◌ {A = List ℕ} (b'x' ∷ []) (b's' ∷ [])
names_differ e = absurd (omega (arith, ap (λ n. get_or n 0 0) e))

array_name_differs : ◌≢◌ {A = List ℕ} (b'a' ∷ []) (b's' ∷ [])
array_name_differs e = absurd (omega (arith, ap (λ n. get_or n 0 0) e))

get_typed-set_typed_example :
    (get_typed ft_int32 (b'x' ∷ []) (set_typed ft_int32 (b'x' ∷ []) 258 two_fields) ≡ got 258)
    × (get_typed ft_int32 (b's' ∷ []) (set_typed ft_int32 (b'x' ∷ []) 258 two_fields)
        ≡ get_typed ft_int32 (b's' ∷ []) two_fields)
    × AreFields (set_typed ft_int32 (b'x' ∷ []) 258 two_fields)
get_typed-set_typed_example =
    get_typed-set_typed ft_int32 (b'x' ∷ []) (b's' ∷ []) 258 two_fields
      (unfold values set_width in omega arith) names_differ (omega arith) (omega arith)
      two_fields-AreFields

-- Bytes that are no message: a name of one byte, and a type that does not exist.
abbrev garbage : List ℕ
garbage = (1 ∷ 0 ∷ 0 ∷ 0 ∷ 7 ∷ 99 ∷ []) ++ replicate 20 5

deserialize_ends_example : (fs : List FieldEntry) × (deserialize garbage ≡ some fs)
deserialize_ends_example = deserialize_ends garbage (omega arith)
