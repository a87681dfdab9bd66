-- ===== src/Generic/RoundTrip.antt =====
-- A dynamic message is read back from its serialization.
use cpp_ipc_dds.Common.{
  ℕ, zero, suc, ◌+◌, ◌-◌, ◌/◌, ◌%◌, ◌^◌, ◌≤◌, ◌<◌, zero-add, ◌≡◌, refl, sym, ap, ◌∙◌, subst, true,
  false, some, List, [], ◌∷◌, ◌++◌, append-nil, append_assoc, arith, ltb, leb, ◌==◌, if◌then◌else◌,
  length, concat, length-append, u32, le_bytes, of_le,
}
use cpp_ipc_dds.Framing.{MsgBase, tail_bytes, serialize_data_cut, serialize_fields}
use cpp_ipc_dds.Framing.Stream.{framed_len, next_tail}
use cpp_ipc_dds.Framing.Write.{message_stream, serialize_fields_lem}
use cpp_ipc_dds.Framing.Read.{Holds}
use cpp_ipc_dds.Control.Frames.{Allocates, of_le-le_bytes}
use cpp_ipc_dds.Generic.{
  FieldEntry, sized_bytes, total_from, total_data_size, all_copies, serialize,
}
use cpp_ipc_dds.Generic.Parse.{
  shape_of, read_typed, read_named, read_sized_name, read_field, read_loop, deserialize,
}
use cpp_ipc_dds.Generic.Layout.{Shaped, room, shift, read_at, read_bytes_at, read_value_lem}

-- A field with a name, and with bytes as its type lays them out.
pub record IsField (f : FieldEntry) : Type 0 where
  pub named : 0 < length f.name
  pub name_fits : length f.name < 2 ^ 31
  pub known : f.kind < 256
  pub shaped : Shaped (shape_of f.kind) f.bytes

abbrev pub AreFields : List FieldEntry → Type 0
AreFields [] = Unit
AreFields (f ∷ fs) = IsField f × AreFields fs

-- The payload of one field, and of all.
abbrev pub encoded : FieldEntry → List ℕ
encoded f = sized_bytes f.name ++ (f.kind ∷ f.bytes)

abbrev pub payload : List FieldEntry → List ℕ
payload [] = []
payload (f ∷ fs) = encoded f ++ payload fs

concat-all_copies : (fs : List FieldEntry) → concat (all_copies fs) ≡ payload fs
concat-all_copies [] = refl
concat-all_copies (f ∷ fs) = copies f.bytes (concat-all_copies fs)
  where
    copies :
        (d : List ℕ)
        → concat (all_copies fs) ≡ payload fs
        → concat (
            (le_bytes 4 (length f.name)
              ∷ f.name
              ∷ (f.kind ∷ [])
              ∷ (if ltb 0 (length d) then d ∷ [] else []))
            ++ all_copies fs)
          ≡ (sized_bytes f.name ++ (f.kind ∷ d)) ++ payload fs
    copies [] rest = rw (rest, append_assoc f.name (f.kind ∷ []) (payload fs)) refl
    copies (x ∷ d) rest =
        let pos : ltb 0 (suc (length d)) ≡ true = ground arith in
        rw (pos, rest, append_assoc f.name (f.kind ∷ x ∷ d) (payload fs)) refl

fields_few : (fs : List FieldEntry) → length fs ≤ length (payload fs)
fields_few [] = omega arith
fields_few (f ∷ fs) =
    omega (arith, fields_few fs, length-append (f.name ++ (f.kind ∷ f.bytes)) (payload fs))

total_from_lem :
    (total : ℕ) (fs : List FieldEntry)
    → total + length (payload fs) < 2 ^ 32
    → total_from total fs ≡ total + length (payload fs)
unfolding total_from
total_from_lem total [] h = omega arith
total_from_lem total (f ∷ fs) h =
    let sizes : length (payload (f ∷ fs))
        ≡ 4 + length f.name + 1 + length f.bytes + length (payload fs) =
      omega (
        arith,
        length-append (f.name ++ (f.kind ∷ f.bytes)) (payload fs),
        length-append f.name (f.kind ∷ f.bytes),
      ) in
    let sum : u32 (u32 (u32 (u32 (total + 4) + length f.name) + 1) + length f.bytes)
        ≡ total + 4 + length f.name + 1 + length f.bytes =
      omega arith in
    rw sum (
      omega
        (arith, total_from_lem (total + 4 + length f.name + 1 + length f.bytes) fs (omega arith)))

module _ {t : ℕ → List ℕ} {buf : List ℕ} (few : length buf < 2 ^ 31) where
  read_field_lem :
      (f : FieldEntry) (q after : List ℕ)
      → IsField f
      → Holds t (q ++ (encoded f ++ after)) buf
      → read_field buf (length buf) (framed_len (length q))
        ≡ some (f, framed_len (length (q ++ encoded f)))
  unfolding read_field read_sized_name read_named read_typed
  read_field_lem f q after ok s =
      let head : List ℕ = le_bytes 4 (length f.name) in
      let kind : List ℕ = f.kind ∷ [] in
      let at_head : Holds t (q ++ (head ++ (f.name ++ (kind ++ (f.bytes ++ after))))) buf =
        subst (λ r. Holds t (q ++ (head ++ r)) buf) (append_assoc f.name (f.kind ∷ f.bytes) after)
          s in
      let at_name = shift few q head _ at_head in
      let at_kind = shift few (q ++ head) f.name _ at_name in
      let at_bytes = shift few ((q ++ head) ++ f.name) kind _ at_kind in
      let sz : of_le head ≡ length f.name =
        of_le-le_bytes 4 (length f.name) (omega (arith, ok.name_fits)) in
      let known : of_le kind ≡ f.kind = omega arith in
      let small : leb (2 ^ 31) (length f.name) ≡ false = ground (arith, ok.name_fits) in
      let pos : (length f.name == 0) ≡ false = ground (arith, ok.named) in
      let head_fits : ltb (length buf) (u32 (framed_len (length q) + 4)) ≡ false =
        ground (arith, room few q head _ at_head) in
      let name_fits : ltb (length buf) (u32 (framed_len (length (q ++ head)) + length f.name))
          ≡ false =
        ground (arith, room few (q ++ head) f.name _ at_name) in
      let whole : (((q ++ head) ++ f.name) ++ kind) ++ f.bytes ≡ q ++ encoded f =
        simp append_assoc in
      let kind_fits : ltb (length buf) (u32 (framed_len (length ((q ++ head) ++ f.name)) + 1))
          ≡ false =
        ground (arith, room few ((q ++ head) ++ f.name) kind _ at_kind) in
      rw
        (
          head_fits,
          read_at few q head _ 4 refl at_head,
          sz,
          small,
          pos,
          name_fits,
          read_bytes_at few (q ++ head) f.name _ ok.name_fits at_name,
          kind_fits,
          read_at few ((q ++ head) ++ f.name) kind _ 1 refl at_kind,
          known,
          read_value_lem few (shape_of f.kind) f.bytes (((q ++ head) ++ f.name) ++ kind) after
              ok.shaped at_bytes,
        )
        (ap (λ r. some (f, framed_len (length r))) whole)

  read_loop_lem :
      (fs fields : List FieldEntry) (q : List ℕ) (fuel : ℕ)
      → AreFields fs
      → Holds t (q ++ payload fs) buf
      → length buf ≡ framed_len (length (q ++ payload fs)) + 12
      → length fs < fuel
      → read_loop fuel buf (length buf) (framed_len (length q)) fields ≡ some (fields ++ fs)
  unfolding read_loop
  read_loop_lem fs fields q zero ok s size h = absurd (omega arith)
  read_loop_lem [] fields q (suc fuel) ok s size h =
      let size' : length buf ≡ framed_len (length q) + 12 = rw append-nil at size in
      rw append-nil (ground (arith, size'))
  read_loop_lem (f ∷ fs) fields q (suc fuel) ok s size h =
      let at_field : Holds t (q ++ (encoded f ++ payload fs)) buf = s in
      let at_rest = shift few q (encoded f) (payload fs) at_field in
      let same : length (q ++ (encoded f ++ payload fs)) ≡ length ((q ++ encoded f) ++ payload fs) =
        ap length (sym (append_assoc q (encoded f) (payload fs))) in
      let sizes : length (q ++ payload (f ∷ fs))
          ≡ length q + (length (encoded f) + length (payload fs)) =
        omega (arith, length-append q (payload (f ∷ fs)), length-append (encoded f) (payload fs)) in
      ground (
        arith,
        sizes,
        append_assoc fields (f ∷ []) fs,
        read_field_lem f q (payload fs) ok.0 at_field,
        read_loop_lem fs (fields ++ f ∷ []) (q ++ encoded f) fuel ok.1 at_rest (rw (← same) size)
            (omega (arith, h)),
      )

  -- A stream of fields and the last tail.
  deserialize_stream :
      (fs : List FieldEntry)
      → AreFields fs
      → Holds t (payload fs) buf
      → length buf ≡ framed_len (length (payload fs)) + 12
      → deserialize buf ≡ some fs
  unfolding deserialize
  deserialize_stream fs ok s size =
      let long : ltb (length buf) 12 ≡ false = ground (arith, size) in
      let fits : length buf % 2 ^ 32 ≡ length buf = omega (arith, few) in
      rw (long, fits)
        (read_loop_lem fs [] [] (length buf) ok s size (omega (arith, size, fields_few fs)))

module _ (malloc : ℕ → List ℕ) (fresh : Allocates malloc) (b : MsgBase) where
  -- The copies write the stream of the payload that they make up.
  copies_stream :
      (fs : List FieldEntry) (p : List ℕ)
      → concat (all_copies fs) ≡ p
      → length p / 1460 < 2 ^ 16 - 1
      → let b' = serialize_data_cut (length p) b in
        (serialize_fields b'
            (all_copies fs)
            (record { buf = malloc b'.total_size; page = 1; offset = 0 })
          ≡ message_stream b' p)
        × (length (message_stream b' p) ≡ framed_len (length p) + 12)
  copies_stream fs p e =
      subst
        (λ p.
          length p / 1460 < 2 ^ 16 - 1
          → let b' = serialize_data_cut (length p) b in
            (serialize_fields b' (all_copies fs)
                (record { buf = malloc b'.total_size; page = 1; offset = 0 })
              ≡ message_stream b' p)
            × (length (message_stream b' p) ≡ framed_len (length p) + 12))
        e
        (λ h.
          let w =
            serialize_fields_lem b (all_copies fs)
              (malloc (serialize_data_cut (length (concat (all_copies fs))) b).total_size) h
              (fresh _) in
          (w.0, w.1 ∙ w.2))

  pub serialize_lem :
      (f : FieldEntry) (fs : List FieldEntry)
      → length (payload (f ∷ fs)) / 1460 < 2 ^ 16 - 1
      → let b' = serialize_data_cut (length (payload (f ∷ fs))) b in
        (serialize malloc b (f ∷ fs) ≡ message_stream b' (payload (f ∷ fs)))
        × (length (message_stream b' (payload (f ∷ fs)))
            ≡ framed_len (length (payload (f ∷ fs))) + 12)
  unfolding serialize total_data_size
  serialize_lem f fs h =
      let total : total_from 0 (f ∷ fs) ≡ length (payload (f ∷ fs)) =
        total_from_lem 0 (f ∷ fs) (omega (arith, h)) ∙ zero-add _ in
      let w = copies_stream (f ∷ fs) (payload (f ∷ fs)) (concat-all_copies (f ∷ fs)) h in
      (rw total w.0, w.1)

-- The buffer of a message without fields.
empty_buffer : (buf : List ℕ) → read_loop 12 buf 12 0 [] ≡ some []
unfolding read_loop
empty_buffer buf = refl

pub serialize_fits :
    (malloc : ℕ → List ℕ) (b : MsgBase) (fs : List FieldEntry)
    → Allocates malloc
    → length (payload fs) / 1460 < 2 ^ 16 - 1
    → length (serialize malloc b fs) < 2 ^ 31
serialize_fits malloc b [] fresh h = unfold serialize in omega (arith, fresh 12)
serialize_fits malloc b (f ∷ fs) fresh h =
    let w = serialize_lem malloc fresh b f fs h in omega (arith, ap length w.0, w.1, h)

-- What `serialize` writes, `deserialize` reads back: the same fields with the same names, types and
-- bytes, in order. Each field has a name and the bytes that its type lays down, and the message has
-- fewer than 65536 pages.
pub deserialize-serialize :
    (malloc : ℕ → List ℕ) (b : MsgBase) (fs : List FieldEntry)
    → Allocates malloc
    → AreFields fs
    → length (payload fs) / 1460 < 2 ^ 16 - 1
    → deserialize (serialize malloc b fs) ≡ some fs
unfolding deserialize
deserialize-serialize malloc b [] fresh ok h =
    let size : length (serialize malloc b []) ≡ 12 = unfold serialize in fresh 12 in
    rw size (empty_buffer _)
deserialize-serialize malloc b (f ∷ fs) fresh ok h =
    let w = serialize_lem malloc fresh b f fs h in
    let b' : MsgBase = serialize_data_cut (length (payload (f ∷ fs))) b in
    subst (λ s. deserialize s ≡ some (f ∷ fs)) (sym w.0)
      (deserialize_stream {t = next_tail b'} (omega (arith, w.1, h)) (f ∷ fs) ok
        (record {
          tails = λ p. refl;
          behind = tail_bytes b' (length (payload (f ∷ fs)) / 1460 + 1);
          is_stream = unfold message_stream in refl;
        })
        w.1)
