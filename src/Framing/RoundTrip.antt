-- ===== src/Framing/RoundTrip.antt =====
-- A deserializer that asks for the fields that a serializer wrote gets them back.
use cpp_ipc_dds.Common.{
  ℕ, ◌+◌, ◌-◌, ◌/◌, ◌^◌, ◌<◌, zero-add, ◌≡◌, refl, sym, ap, ◌∙◌, false, List, [], ◌∷◌, ◌++◌,
  append-nil, append_assoc, arith, length, concat, length-append,
}
use cpp_ipc_dds.Framing.{
  MsgBase, Cursor, tail_bytes, serialize_data_cut, serialize_fields, deserialize_data_cut,
  deserialize_fields,
}
use cpp_ipc_dds.Framing.Stream.{framed_len, next_tail}
use cpp_ipc_dds.Framing.Write.{message_stream, serialize_fields_lem}
use cpp_ipc_dds.Framing.Read.{Holds, adapt_memcpy_tods_lem}

abbrev pub lengths : List (List ℕ) → List ℕ
lengths [] = []
lengths (f ∷ fs) = length f ∷ lengths fs

pub deserialize_fields-Holds :
    {t : ℕ → List ℕ} (b : MsgBase) {buf : List ℕ} (q : List ℕ) (fs : List (List ℕ)) (after : List ℕ)
    (c : Cursor)
    → b.total_size ≡ length buf
    → length buf < 2 ^ 32
    → Holds t (q ++ (concat fs ++ after)) buf
    → c.offset ≡ framed_len (length q)
    → deserialize_fields b buf (lengths fs) c
      ≡ (fs, record c { offset = framed_len (length q + length (concat fs)) })
unfolding deserialize_fields
deserialize_fields-Holds b q [] after c sized small holds ho =
    let e : framed_len (length q + 0) ≡ c.offset = omega arith in rw e refl
deserialize_fields-Holds {t} b {buf} q (f ∷ fs) after c sized small holds ho =
    rw
      (
        adapt_memcpy_tods_lem {t = t} b q f (concat fs ++ after) c sized small
            (rw (← append_assoc f (concat fs) after) holds) ho,
        deserialize_fields-Holds {t = t} b (q ++ f) fs after
            (record c { offset = framed_len (length q + length f) }) sized small
            (rw (append_assoc, ← append_assoc f (concat fs) after) holds)
            (ap framed_len (sym (length-append q f))),
        sizes,
      )
      refl
  where
    sizes : length (q ++ f) + length (concat fs) ≡ length q + length (f ++ concat fs)
    sizes = omega (arith, length-append q f, length-append f (concat fs))

-- What a serializer writes for its fields, a deserializer that reads fields of the same lengths
-- gets back, field for field and without an overflow, for messages of any number of pages below
-- 65536 and whatever the allocated memory held.
pub deserialize_fields-serialize_fields :
    (b any : MsgBase) (fs : List (List ℕ)) (mem : List ℕ)
    → length (concat fs) / 1460 < 2 ^ 16 - 1
    → length mem ≡ (serialize_data_cut (length (concat fs)) b).total_size
    → let stream =
        serialize_fields
          (serialize_data_cut (length (concat fs)) b)
          fs
          (record { buf = mem; page = 1; offset = 0 }) in
      deserialize_fields
        (deserialize_data_cut (length stream) any)
        stream
        (lengths fs)
        (record { offset = 0; overflow = false })
      ≡ (fs, record { offset = framed_len (length (concat fs)); overflow = false })
deserialize_fields-serialize_fields b any fs mem h m = rw written.0 (
    deserialize_fields-Holds {t = next_tail b'}
      (deserialize_data_cut (length (message_stream b' (concat fs))) any) [] fs []
      (record { offset = 0; overflow = false }) refl (omega (arith, written.1, written.2))
      (record {
        tails = λ p. refl;
        behind = tail_bytes b' (length (concat fs) / 1460 + 1);
        is_stream = rw append-nil (unfold message_stream in refl);
      })
      refl
    ∙ rw zero-add refl)
  where
    b' : MsgBase
    b' = serialize_data_cut (length (concat fs)) b

    written :
        (serialize_fields b' fs (record { buf = mem; page = 1; offset = 0 })
          ≡ message_stream b' (concat fs))
        × (length (message_stream b' (concat fs)) ≡ length mem)
        × (length mem ≡ framed_len (length (concat fs)) + 12)
    written = serialize_fields_lem b fs mem h m
