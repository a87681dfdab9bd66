-- ===== src/Framing/Tests.antt =====
-- The theorems about the framing at concrete messages.
use cpp_ipc_dds.Common.{ℕ, ◌≡◌, refl, false, List, [], ◌∷◌, ◌++◌, arith, length, replicate}
use cpp_ipc_dds.Framing.{
  MsgBase, serialize_data_cut, serialize_fields, deserialize_data_cut, deserialize_fields,
  adapt_memcpy_tods,
}
use cpp_ipc_dds.Framing.Stream.{framed_len}
use cpp_ipc_dds.Framing.RoundTrip.{lengths, deserialize_fields-serialize_fields}
use cpp_ipc_dds.Framing.Safety.{adapt_memcpy_tods_inside}

abbrev fresh_base : MsgBase
fresh_base = record { total_size = 0; total_page_cnt = 0; msg_id = 7 }

-- Two fields, of which the first fills its page and begins the next.
abbrev two_fields : List (List ℕ)
two_fields = replicate 1461 7 ∷ (1 ∷ 2 ∷ []) ∷ []

deserialize_fields-serialize_fields_example :
    let b = serialize_data_cut 1463 fresh_base in
    let stream =
      serialize_fields b two_fields (record { buf = replicate 1487 0; page = 1; offset = 0 }) in
    deserialize_fields
      (deserialize_data_cut (length stream) fresh_base)
      stream
      (lengths two_fields)
      (record { offset = 0; overflow = false })
    ≡ (two_fields, record { offset = framed_len 1463; overflow = false })
deserialize_fields-serialize_fields_example =
    deserialize_fields-serialize_fields fresh_base fresh_base two_fields (replicate 1487 0)
      (omega arith) refl

-- A read of four bytes at the end of a buffer of three.
abbrev short_base : MsgBase
short_base = record { total_size = 3; total_page_cnt = 1; msg_id = 7 }

adapt_memcpy_tods_inside_example :
    (adapt_memcpy_tods short_base
        ((1 ∷ 2 ∷ 3 ∷ []) ++ (9 ∷ 9 ∷ []))
        4
        (record { offset = 1; overflow = false })
      ≡ adapt_memcpy_tods short_base (1 ∷ 2 ∷ 3 ∷ []) 4 (record { offset = 1; overflow = false }))
    × (length
          (adapt_memcpy_tods short_base
            ((1 ∷ 2 ∷ 3 ∷ []) ++ (9 ∷ 9 ∷ []))
            4
            (record { offset = 1; overflow = false })).0
        ≡ 4)
adapt_memcpy_tods_inside_example =
    adapt_memcpy_tods_inside short_base (1 ∷ 2 ∷ 3 ∷ []) (9 ∷ 9 ∷ []) 4
      (record { offset = 1; overflow = false }) refl
