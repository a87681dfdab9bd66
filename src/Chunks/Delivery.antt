-- ===== src/Chunks/Delivery.antt =====
-- From the serializer of one host to the deserializer of another: what is written, cut, numbered,
-- sent, received in any order and put together is read back.
use cpp_ipc_dds.Common.{
  ℕ, ◌+◌, ◌/◌, ◌^◌, ◌≤◌, ◌<◌, zero-add, ◌≡◌, refl, sym, ap, ◌∙◌, subst, false, some, List, [], ◌++◌,
  append-nil, arith, length, concat, length-append,
}
use mathlib.Core.Option.{some-injective}
use cpp_ipc_dds.Framing.{
  MsgBase, tail_bytes, serialize_data_cut, serialize_fields, deserialize_data_cut,
  deserialize_fields,
}
use cpp_ipc_dds.Framing.Stream.{framed, framed_len, length-framed}
use cpp_ipc_dds.Framing.Write.{message_stream, serialize_fields_lem}
use cpp_ipc_dds.Framing.RoundTrip.{lengths, deserialize_fields-Holds}
use cpp_ipc_dds.Chunks.{parse_tail, prepare_chunks, place_pages, empty_assembly}
use cpp_ipc_dds.Chunks.Pages.{page}
use cpp_ipc_dds.Chunks.Split.{Blocks, page_blocks}
use cpp_ipc_dds.Chunks.Sender.{Sendable, datagrams, prepare_chunks-message_stream}
use cpp_ipc_dds.Chunks.Reassembly.{IsMessage}
use cpp_ipc_dds.Chunks.Arrival.{Among, Tailed}
use cpp_ipc_dds.Chunks.Receipt.{
  announced, AllArrive, datagrams-Tailed, datagrams-IsMessage, received,
}

-- The size that `serialize_data_cut` puts down is one that `valid_chunk_meta` lets through.
serialize_data_cut-Sendable :
    (b : MsgBase) (src : List ℕ)
    → length src ≤ 66561772
    → b.msg_id < 2 ^ 32
    → Sendable (serialize_data_cut (length src) b) src
serialize_data_cut-Sendable b src h id = record {
  pages = omega arith;
  total = omega arith;
  small = omega arith;
  id = id;
}

-- The sender refuses no message of at most 64 MiB.
prepared :
    (b : MsgBase) (src : List ℕ)
    → Sendable b src
    → (bs : List (List ℕ)) × Blocks bs
      × (concat bs ≡ src)
      × (prepare_chunks (message_stream b src) ≡ some (datagrams b bs))
prepared b src s =
    let (bs, v, c) = page_blocks (length src) src (omega arith) in
    (
      bs,
      v,
      c,
      subst (λ (x : List ℕ). prepare_chunks (message_stream b x) ≡ some (datagrams b bs)) c
          (prepare_chunks-message_stream b bs v (subst (λ (x : List ℕ). Sendable b x) (sym c) s)),
    )

written :
    (b : MsgBase) (fs : List (List ℕ)) (mem : List ℕ)
    → length (concat fs) ≤ 66561772
    → length mem ≡ (serialize_data_cut (length (concat fs)) b).total_size
    → serialize_fields
        (serialize_data_cut (length (concat fs)) b)
        fs
        (record { buf = mem; page = 1; offset = 0 })
      ≡ message_stream (serialize_data_cut (length (concat fs)) b) (concat fs)
written b fs mem h m = (serialize_fields_lem b fs mem (omega arith) m).0

-- The sender refuses no message whose framed size is at most 64 MiB: what a serializer wrote for it
-- becomes `total_page_cnt` datagrams, which make up a stream of `total_size` bytes, and of which
-- all but the last have 1472 bytes.
pub prepare_chunks-serialize_fields :
    (b : MsgBase) (fs : List (List ℕ)) (mem : List ℕ)
    → length (concat fs) ≤ 66561772
    → b.msg_id < 2 ^ 32
    → length mem ≡ (serialize_data_cut (length (concat fs)) b).total_size
    → let b' = serialize_data_cut (length (concat fs)) b in
      (ds : List (List ℕ)) × (prepare_chunks
          (serialize_fields b' fs (record { buf = mem; page = 1; offset = 0 }))
        ≡ some ds)
      × IsMessage (announced b' 0) ds
prepare_chunks-serialize_fields b fs mem h id m =
    let b' = serialize_data_cut (length (concat fs)) b in
    let s = serialize_data_cut-Sendable b (concat fs) h id in
    let (bs, v, c, e) = prepared b' (concat fs) s in
    let s' = subst (λ (x : List ℕ). Sendable b' x) (sym c) s in
    (
      datagrams b' bs,
      ap prepare_chunks (written b fs mem h m) ∙ e,
      datagrams-IsMessage b' 0 bs v s',
    )

-- The datagrams are numbered from 1, and each says how many there are, what they make up and which
-- type of message it is.
pub parse_tail-prepare_chunks :
    (b : MsgBase) (fs : List (List ℕ)) (mem : List ℕ) (ds : List (List ℕ)) (i : ℕ)
    → length (concat fs) ≤ 66561772
    → b.msg_id < 2 ^ 32
    → length mem ≡ (serialize_data_cut (length (concat fs)) b).total_size
    → prepare_chunks (
        serialize_fields
          (serialize_data_cut (length (concat fs)) b)
          fs
          (record { buf = mem; page = 1; offset = 0 }))
      ≡ some ds
    → i < length ds
    → parse_tail (page ds i)
      ≡ some (record {
        page_cnt = length (concat fs) / 1460 + 1;
        now_page = i + 1;
        total_size = framed_len (length (concat fs)) + 12;
        msg_id = b.msg_id;
      })
parse_tail-prepare_chunks b fs mem ds i h id m e lt =
    let b' = serialize_data_cut (length (concat fs)) b in
    let s = serialize_data_cut-Sendable b (concat fs) h id in
    let (bs, v, c, e') = prepared b' (concat fs) s in
    let s' = subst (λ (x : List ℕ). Sendable b' x) (sym c) s in
    let known : datagrams b' bs ≡ ds =
      some-injective _ _ (sym e' ∙ sym (ap prepare_chunks (written b fs mem h m)) ∙ e) in
    rw (← s.pages, ← s.total)
      (subst (λ (x : List (List ℕ)). Tailed (announced b' 0) x) known
        (datagrams-Tailed b' 0 bs v s') i lt)

read_back :
    (b any : MsgBase) (fs bs : List (List ℕ)) (assembled last : List ℕ)
    → concat bs ≡ concat fs
    → length (concat fs) ≤ 66561772
    → length last ≡ 12
    → assembled ≡ framed (tail_bytes b) 0 (concat bs) ++ last
    → deserialize_fields
        (deserialize_data_cut (length assembled) any)
        assembled
        (lengths fs)
        (record { offset = 0; overflow = false })
      ≡ (fs, record { offset = framed_len (length (concat fs)); overflow = false })
read_back b any fs bs assembled last c h l e =
    deserialize_fields-Holds {t = tail_bytes b} (deserialize_data_cut (length assembled) any) [] fs
      [] (record { offset = 0; overflow = false }) refl
      (omega (
        arith,
        ap length e,
        ap length c,
        length-append (framed (tail_bytes b) 0 (concat bs)) last,
        length-framed (tail_bytes b) 0 (concat bs) (λ p. refl),
        ap framed_len (zero-add (length (concat bs))),
      ))
      (record { tails = λ p. refl; behind = last; is_stream = rw (append-nil, ← c) e }) refl
    ∙ rw zero-add refl

-- A message is serialized, cut, numbered and sent. Its datagrams arrive in any order and any number
-- of times, among others that the receiver's tests refuse. If each arrives at least once, the
-- counter of the receiver reaches the page count, and the deserializer gets back every field
-- from the buffer, without an overflow.
pub delivery :
    (b any : MsgBase) (sequence : ℕ) (fs : List (List ℕ)) (mem : List ℕ) (ds frames : List (List ℕ))
    → length (concat fs) ≤ 66561772
    → b.msg_id < 2 ^ 32
    → length mem ≡ (serialize_data_cut (length (concat fs)) b).total_size
    → prepare_chunks (
        serialize_fields
          (serialize_data_cut (length (concat fs)) b)
          fs
          (record { buf = mem; page = 1; offset = 0 }))
      ≡ some ds
    → AllArrive (announced (serialize_data_cut (length (concat fs)) b) sequence) ds frames
    → ((i : ℕ) → i < length ds → Among (page ds i) frames)
    → let meta = announced (serialize_data_cut (length (concat fs)) b) sequence in
      let a = place_pages meta frames (empty_assembly meta) in
      (a.received_cnt ≡ meta.page_cnt)
      × (deserialize_fields
            (deserialize_data_cut (length a.assembled) any)
            a.assembled
            (lengths fs)
            (record { offset = 0; overflow = false })
          ≡ (fs, record { offset = framed_len (length (concat fs)); overflow = false }))
delivery b any sequence fs mem ds frames h id m e arrive every =
    let b' = serialize_data_cut (length (concat fs)) b in
    let s = serialize_data_cut-Sendable b (concat fs) h id in
    let (bs, v, c, e') = prepared b' (concat fs) s in
    let s' = subst (λ (x : List ℕ). Sendable b' x) (sym c) s in
    let known : datagrams b' bs ≡ ds =
      some-injective _ _ (sym e' ∙ sym (ap prepare_chunks (written b fs mem h m)) ∙ e) in
    let r =
      received b' sequence bs v s' frames
        (subst (λ (x : List (List ℕ)). AllArrive (announced b' sequence) x frames) (sym known)
          arrive)
        (subst (λ (x : List (List ℕ)). (i : ℕ) → i < length x → Among (page x i) frames) (sym known)
          every) in
    (r.0, read_back b' any fs bs _ (tail_bytes b' (length bs)) c h refl r.1)
