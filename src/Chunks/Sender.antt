-- ===== src/Chunks/Sender.antt =====
-- What the sender makes of a serialized message: datagrams that the receiver knows by their tails.
use cpp_ipc_dds.Common.{
  ℕ, ◌+◌, ◌-◌, ◌*◌, ◌/◌, ◌^◌, ◌≤◌, ◌<◌, zero-add, ◌≡◌, refl, sym, ap, ◌∙◌, true, some, List, [],
  ◌∷◌, ◌++◌, append-nil, arith, le→ltb, length, get_or, concat, length-append,
}
use cpp_ipc_dds.Framing.{TailMsg, MsgBase, tail_bytes}
use cpp_ipc_dds.Framing.Stream.{framed, framed_len, next_tail, length-framed}
use cpp_ipc_dds.Framing.Write.{message_stream}
use cpp_ipc_dds.Framing.Tail.{be16-append, be32-append, byte_split16, byte_split32}
use cpp_ipc_dds.Chunks.{
  parse_tail, valid_chunk_meta, split_chunks, check_tail, checked, prepare_chunks,
}
use cpp_ipc_dds.Chunks.Pages.{page}
use cpp_ipc_dds.Chunks.Split.{
  Blocks, joined, pages_of, framed-joined, length-pages_of, split_from-joined,
  number_chunks-pages_of, page-pages_of,
}

-- A message as `serialize_data_cut` leaves it, of the size that `valid_chunk_meta` allows.
pub record Sendable (b : MsgBase) (src : List ℕ) : Type 0 where
  pub pages : b.total_page_cnt ≡ length src / 1460 + 1
  pub total : b.total_size ≡ framed_len (length src) + 12
  pub small : b.total_size ≤ 64 * 1024 * 1024
  pub id : b.msg_id < 2 ^ 32

-- The tail of a datagram that ends in `tail_bytes b page`.
pub parse_tail-tail_bytes :
    (b : MsgBase) (page : ℕ) (pre : List ℕ)
    → b.total_page_cnt < 2 ^ 16
    → page < 2 ^ 16
    → b.total_size < 2 ^ 32
    → b.msg_id < 2 ^ 32
    → parse_tail (pre ++ tail_bytes b page)
      ≡ some (record {
        page_cnt = b.total_page_cnt;
        now_page = page;
        total_size = b.total_size;
        msg_id = b.msg_id;
      })
unfolding parse_tail
parse_tail-tail_bytes b page pre h1 h2 h3 h4 =
    rw
      (
        le→ltb (length (pre ++ tail_bytes b page)) 12 (omega (arith, size)),
        be16-append pre (tail_bytes b page) 0 (length (pre ++ tail_bytes b page) - 12)
            (omega (arith, size)),
        be16-append pre (tail_bytes b page) 2 (length (pre ++ tail_bytes b page) - 10)
            (omega (arith, size)),
        be32-append pre (tail_bytes b page) 4 (length (pre ++ tail_bytes b page) - 8)
            (omega (arith, size)),
        be32-append pre (tail_bytes b page) 8 (length (pre ++ tail_bytes b page) - 4)
            (omega (arith, size)),
        byte_split16 _ h1,
        byte_split16 _ h2,
        byte_split32 _ h3,
        byte_split32 _ h4,
      )
      refl
  where
    size : length (pre ++ tail_bytes b page) ≡ length pre + 12
    size = length-append pre (tail_bytes b page)

-- The number of blocks is that of pages.
pub length-Blocks : (bs : List (List ℕ)) → Blocks bs → length bs ≡ length (concat bs) / 1460 + 1
length-Blocks [] v = absurd v
length-Blocks (x ∷ []) v = omega (arith, ap length (append-nil x))
length-Blocks (x ∷ y ∷ bs) v =
    omega (arith, v.0, length-Blocks (y ∷ bs) v.1, length-append x (y ++ concat bs))

valid_sizes :
    (tail : TailMsg)
    → 1 ≤ tail.page_cnt
    → (tail.page_cnt - 1) * 1472 + 12 ≤ tail.total_size
    → tail.total_size ≤ tail.page_cnt * 1472
    → tail.total_size ≤ 64 * 1024 * 1024
    → valid_chunk_meta tail ≡ true
unfolding valid_chunk_meta
valid_sizes tail h1 h2 h3 h4 = ground arith

check_tail_lem :
    (tail : TailMsg) (ds : List (List ℕ))
    → valid_chunk_meta tail ≡ true
    → tail.page_cnt ≡ length ds
    → check_tail (some tail) ds ≡ some ds
unfolding check_tail
check_tail_lem tail ds v n = ground (arith, v)

checked_lem :
    (d : List ℕ) (ds : List (List ℕ)) (tail : TailMsg)
    → parse_tail d ≡ some tail
    → valid_chunk_meta tail ≡ true
    → tail.page_cnt ≡ length (d ∷ ds)
    → checked (d ∷ ds) ≡ some (d ∷ ds)
unfolding checked
checked_lem d ds tail p v n = ap (λ o. check_tail o (d ∷ ds)) p ∙ check_tail_lem tail (d ∷ ds) v n

-- The datagrams of a message whose payload is cut into `bs`.
abbrev pub datagrams : MsgBase → List (List ℕ) → List (List ℕ)
datagrams b bs = pages_of (tail_bytes b) (tail_bytes b (length bs)) 0 bs

module _ (b : MsgBase) (bs : List (List ℕ)) (v : Blocks bs) (s : Sendable b (concat bs)) where
  few : length bs < 2 ^ 16
  few = omega (arith, s.total, s.small, length-Blocks bs v)

  counted_pages : b.total_page_cnt ≡ length bs
  counted_pages = s.pages ∙ sym (length-Blocks bs v)

  -- The tail of each datagram.
  pub parse_tail-datagrams :
      (i : ℕ)
      → i < length bs
      → parse_tail (page (datagrams b bs) i)
        ≡ some (record {
          page_cnt = b.total_page_cnt;
          now_page = i + 1;
          total_size = b.total_size;
          msg_id = b.msg_id;
        })
  parse_tail-datagrams i h =
      ap parse_tail (page-pages_of b (length bs) 0 bs i (omega arith) h)
      ∙ parse_tail-tail_bytes b (0 + i + 1) (get_or bs i []) (omega (arith, counted_pages, few))
          (omega (arith, few)) (omega (arith, s.small)) s.id
      ∙ ap
          (λ (n : ℕ). some (record {
            page_cnt = b.total_page_cnt;
            now_page = n;
            total_size = b.total_size;
            msg_id = b.msg_id;
          }))
          (index i)
    where
      index : (k : ℕ) → 0 + k + 1 ≡ k + 1
      index k = omega arith

  checked-datagrams : (ds : List (List ℕ)) → datagrams b bs ≡ ds → checked ds ≡ some ds
  checked-datagrams [] e = absurd (
      omega (
        arith,
        length-Blocks bs v,
        ap length e,
        length-pages_of (tail_bytes b) (λ p. refl) (tail_bytes b (length bs)) 0 bs,
      ))
  checked-datagrams (d ∷ ds) e =
      checked_lem d ds _
        (ap (λ x. parse_tail (page x 0)) (sym e)
          ∙ parse_tail-datagrams 0 (omega (arith, length-Blocks bs v)))
        (valid_sizes _ (omega (arith, s.pages)) (omega (arith, s.pages, s.total))
          (omega (arith, s.pages, s.total)) s.small)
        (omega (
          arith,
          counted_pages,
          ap length e,
          length-pages_of (tail_bytes b) (λ p. refl) (tail_bytes b (length bs)) 0 bs,
        ))

  -- The sender makes these datagrams of the stream of the message, and refuses nothing.
  pub prepare_chunks-message_stream :
      prepare_chunks (message_stream b (concat bs)) ≡ some (datagrams b bs)
  unfolding prepare_chunks split_chunks message_stream
  prepare_chunks-message_stream =
      rw
        (
          framed-joined (next_tail b) (λ p. refl) last 0 bs v,
          le→ltb (length (joined (next_tail b) last 0 bs)) 12 (omega (arith, size, s.total)),
          split_from-joined (next_tail b) (λ p. refl) last (length (joined (next_tail b) last 0 bs))
              0 bs v refl (omega arith),
          number_chunks-pages_of b (length (concat bs) / 1460 + 1) (length bs) 0 bs v (omega arith)
              few,
        )
        (checked-datagrams _ refl)
    where
      last : List ℕ
      last = tail_bytes b (length (concat bs) / 1460 + 1)

      size : length (joined (next_tail b) last 0 bs) ≡ b.total_size
      size = omega (
        arith,
        s.total,
        ap length (framed-joined (next_tail b) (λ p. refl) last 0 bs v),
        length-append (framed (next_tail b) 0 (concat bs)) last,
        length-framed (next_tail b) 0 (concat bs) (λ p. refl),
        ap framed_len (zero-add (length (concat bs))),
      )
