-- ===== src/DzFlat/Tests.antt =====
-- Segments with concrete bytes.
use cpp_ipc_dds.Common.{
  ℕ, ◌+◌, ◌≤◌, ◌<◌, ◌≡◌, refl, ◌⊎◌, true, false, ◌&&◌, none, some, List, [], ◌∷◌, map, arith, ◌==◌,
  if◌then◌else◌, replicate,
}
use cpp_ipc_dds.DzFlat.{
  put_string, reserve, in_bounds, write_header, dzflat_peek_msg_id, Reader, bind_segment, as_string,
  elem_at, Writer,
}
use cpp_ipc_dds.DzFlat.Header.{bind_segment-write_header}
use cpp_ipc_dds.DzFlat.Append.{IsWriter}
use cpp_ipc_dds.DzFlat.Strings.{put_strings, reader_of, space, AllShort, put_strings-as_string}
use cpp_ipc_dds.DzFlat.Bounds.{elem_at_bounds}

abbrev empty_seg : List ℕ
empty_seg = replicate 48 0

bind_segment-write_header_example :
    let p = write_header empty_seg 77 8 48 5 in
    (bind_segment p 77 12
      ≡ (if 77 == 77 && 8 == 12 then some (record { seg = p; size = 48 }) else none))
    × (dzflat_peek_msg_id p ≡ some 5)
bind_segment-write_header_example =
    bind_segment-write_header empty_seg 77 8 48 5 77 12 (omega arith) (omega arith) (omega arith)
      (omega arith) (omega arith)

-- A message with a root of 8 bytes.
abbrev fresh_writer : Writer
fresh_writer = record { seg = replicate 64 0; cap = 64; cur = 40; ok = true }

abbrev two_strings : List (List ℕ)
two_strings = (104 ∷ 105 ∷ []) ∷ [] ∷ (33 ∷ []) ∷ []

fresh_writer-IsWriter : IsWriter fresh_writer
fresh_writer-IsWriter = record {
  used = omega arith;
  within = omega arith;
  long = omega arith;
  word = omega arith;
}

two_strings-AllShort : AllShort two_strings
unfolding AllShort
two_strings-AllShort = (omega arith, (omega arith, (omega arith, tt)))

put_strings-as_string_example :
    let r = put_strings two_strings fresh_writer in
    (map (as_string (reader_of r.1)) r.0 ≡ two_strings)
    ⊎ ((r.1.ok ≡ false) × (fresh_writer.cap < fresh_writer.cur + space two_strings))
put_strings-as_string_example =
    put_strings-as_string two_strings fresh_writer fresh_writer-IsWriter two_strings-AllShort

-- They are put at the offsets 40 and 48, and the empty one takes no room.
put_strings_run : (put_strings two_strings fresh_writer).1.cur ≡ 49
unfolding put_strings put_string reserve
put_strings_run = refl

abbrev some_reader : Reader
some_reader = record { seg = empty_seg; size = 48 }

elem_at_run : elem_at some_reader 4 (record { off = 36; cnt = 3 }) 2 ≡ some 44
unfolding elem_at in_bounds
elem_at_run = refl

elem_at_bounds_example : (0 < 44) × (44 + 4 ≤ some_reader.size)
elem_at_bounds_example =
    elem_at_bounds some_reader 4 (record { off = 36; cnt = 3 }) 2 44 (omega arith) elem_at_run
