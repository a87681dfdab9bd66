-- ===== src/Control/Frames.antt =====
-- Every control frame is one page, and its bytes are read back field by field.
use native.Mathlib.Nat.{pow-suc}
use cpp_ipc_dds.Common.{
  ℕ, zero, suc, ◌+◌, ◌-◌, ◌/◌, ◌^◌, ◌<◌, ◌≡◌, refl, sym, ap, ◌∙◌, subst, List, [], ◌∷◌, ◌++◌,
  append_assoc, arith, ◌==◌, length, concat, le_bytes, of_le,
}
use cpp_ipc_dds.Framing.{
  MsgBase, Cursor, check_id, tail_bytes, serialize_data_cut, serialize_fields,
}
use cpp_ipc_dds.Framing.Stream.{framed, framed_len, next_tail}
use cpp_ipc_dds.Framing.Write.{message_stream, serialize_fields_lem}
use cpp_ipc_dds.Framing.Read.{Holds}
use cpp_ipc_dds.Framing.Tail.{check_id-tail_bytes}
use cpp_ipc_dds.Framing.RoundTrip.{lengths, deserialize_fields-Holds}
use cpp_ipc_dds.Control.{serialize_message, read_fields}

-- `malloc n` gives n bytes.
abbrev pub Allocates : (ℕ → List ℕ) → Type 0
Allocates malloc = (n : ℕ) → length (malloc n) ≡ n

pub of_le-le_bytes : (w n : ℕ) → n < 256 ^ w → of_le (le_bytes w n) ≡ n
of_le-le_bytes zero n h = omega arith
of_le-le_bytes (suc w) n h =
    rw (of_le-le_bytes w (n / 256) (omega (arith, pow-suc 256 w))) (omega arith)

concat-append : (xs ys : List (List ℕ)) → concat (xs ++ ys) ≡ concat xs ++ concat ys
concat-append [] ys = refl
concat-append (x ∷ xs) ys = rw (concat-append xs ys) (sym (append_assoc x (concat xs) (concat ys)))

module _ (malloc : ℕ → List ℕ) (fresh : Allocates malloc) (id total : ℕ) (fs : List (List ℕ))
    (sum : total ≡ length (concat fs)) (few : total / 1460 < 2 ^ 16 - 1) where
  abbrev pub message_base : MsgBase
  message_base =
      serialize_data_cut (length (concat fs))
        (record { total_size = 0; total_page_cnt = 0; msg_id = id })

  written :
      (serialize_fields message_base fs
          (record { buf = malloc message_base.total_size; page = 1; offset = 0 })
        ≡ message_stream message_base (concat fs))
      × (length (message_stream message_base (concat fs)) ≡ length (malloc message_base.total_size))
      × (length (malloc message_base.total_size) ≡ framed_len (length (concat fs)) + 12)
  written =
      serialize_fields_lem (record { total_size = 0; total_page_cnt = 0; msg_id = id }) fs
        (malloc message_base.total_size) (omega arith) (fresh message_base.total_size)

  pub serialize_message-message_stream :
      serialize_message malloc id total fs ≡ message_stream message_base (concat fs)
  unfolding serialize_message
  serialize_message-message_stream =
      rw sum
        (serialize_fields_lem (record { total_size = 0; total_page_cnt = 0; msg_id = id }) fs
          (malloc message_base.total_size) (omega arith) (fresh message_base.total_size)).0

  pub length-serialize_message :
      length (serialize_message malloc id total fs) ≡ framed_len total + 12
  length-serialize_message =
      ap length serialize_message-message_stream
      ∙ written.1
      ∙ written.2
      ∙ ap (λ (n : ℕ). framed_len n + 12) (sym sum)

  -- A frame is recognized by its id, and by no other.
  pub check_id-serialize_message :
      (expected : ℕ)
      → id < 2 ^ 32
      → check_id (serialize_message malloc id total fs) expected ≡ id == expected
  check_id-serialize_message expected h =
      ap (λ (x : List ℕ). check_id x expected) serialize_message-message_stream
      ∙ unfold message_stream in
        (check_id-tail_bytes message_base (length (concat fs) / 1460 + 1) expected
          (framed (next_tail message_base) 0 (concat fs)) h)

  Holds-serialize_message :
      Holds (next_tail message_base) (concat fs) (serialize_message malloc id total fs)
  Holds-serialize_message = record {
    tails = λ p. refl;
    behind = tail_bytes message_base (length (concat fs) / 1460 + 1);
    is_stream = unfold message_stream in serialize_message-message_stream;
  }

  -- Reading from a field on: `before` was read, `now` is asked for, `after` is left.
  pub read_fields-serialize_message :
      (before now after : List (List ℕ)) (c : Cursor)
      → fs ≡ before ++ (now ++ after)
      → c.offset ≡ framed_len (length (concat before))
      → read_fields (serialize_message malloc id total fs) (lengths now) c
        ≡ (now, record c { offset = framed_len (length (concat before) + length (concat now)) })
  unfolding read_fields
  read_fields-serialize_message before now after c e ho =
      deserialize_fields-Holds {t = next_tail message_base} _ (concat before) now (concat after) c
        refl (omega (arith, length-serialize_message))
        (subst
          (λ (x : List ℕ). Holds (next_tail message_base) x (serialize_message malloc id total fs))
          (ap concat e
            ∙ concat-append before (now ++ after)
            ∙ ap (λ (x : List ℕ). concat before ++ x) (concat-append now after))
          Holds-serialize_message)
        ho
