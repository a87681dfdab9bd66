-- ===== src/Framing/Copy.antt =====
-- One block copy of a serializer keeps the bytes a stream of Framing.Stream.
use cpp_ipc_dds.Common.{
  ℕ, suc, ◌+◌, ◌/◌, ◌%◌, ◌^◌, ◌≤◌, ◌<◌, zero-add, ◌≡◌, refl, ◌∙◌, List, ◌∷◌, ◌++◌, append_assoc,
  arith, length, take, overwrite, length-append, length-overwrite, take-overwrite, u16, u32,
}
use cpp_ipc_dds.Framing.{MsgBase, Out, tail_bytes, add_tail_msg}
use cpp_ipc_dds.Framing.Stream.{
  framed, framed_len, next_tail, framed-append, framed_inside, framed_full,
}

-- The serializer has written the payload `src`, and its locals agree.
pub record Wrote (b : MsgBase) (cap : ℕ) (src : List ℕ) (o : Out) : Type 0 where
  pub bytes : take o.offset o.buf ≡ framed (next_tail b) 0 src
  pub offset : o.offset ≡ framed_len (length src)
  pub page : o.page ≡ length src / 1460 + 1
  pub room : length o.buf ≡ cap

-- `cap` bytes hold the payload, no uint16_t page number and no uint32_t offset wraps.
abbrev pub Fits : ℕ → ℕ → Type 0
Fits cap n = (framed_len n ≤ cap) × (n / 1460 + 1 < 2 ^ 16)

module _ {b : MsgBase} {cap : ℕ} where
  -- Bytes that stay inside the page: one block copy.
  pub copy_inside :
      {src : List ℕ} {o : Out} (xs : List ℕ)
      → Wrote b cap src o
      → length src % 1460 + length xs < 1460
      → Fits cap (length src + length xs)
      → Wrote b cap
          (src ++ xs)
          (record o { buf = overwrite o.buf o.offset xs; offset = u32 (o.offset + length xs) })
  copy_inside {src} {o} xs w h fits =
      let offset_eq : u32 (o.offset + length xs) ≡ o.offset + length xs = omega (arith, w.offset) in
      record {
        bytes =
            rw
              (
                offset_eq,
                take-overwrite o.buf o.offset xs (omega (arith, w.offset, w.room)),
                w.bytes,
                framed-append (next_tail b) 0 src xs,
                zero-add,
                framed_inside (next_tail b) (length src) xs h,
              )
              refl;
        offset = omega (arith, w.offset, length-append src xs);
        page = omega (arith, w.page, length-append src xs);
        room = length-overwrite o.buf o.offset xs ∙ w.room;
      }

  -- Bytes that fill the page: a block copy, and the tail with the next page's number.
  pub copy_full :
      {src : List ℕ} {o : Out} (x : ℕ) (xs : List ℕ)
      → Wrote b cap src o
      → length src % 1460 + suc (length xs) ≡ 1460
      → Fits cap (length src + suc (length xs))
      → let behind = u32 (o.offset + suc (length xs)) in
        let page = u16 (o.page + 1) in
        Wrote b cap (src ++ (x ∷ xs)) (record {
          buf = add_tail_msg b (overwrite o.buf o.offset (x ∷ xs)) behind page;
          page = page;
          offset = u32 (behind + 12);
        })
  unfolding add_tail_msg
  copy_full {src} {o} x xs w h fits =
      let behind_eq : u32 (o.offset + suc (length xs)) ≡ o.offset + suc (length xs) =
        omega (arith, w.offset) in
      let page_eq : u16 (o.page + 1) ≡ (length src + suc (length xs)) / 1460 + 1 =
        omega (arith, w.page) in
      let offset_eq : u32 (o.offset + suc (length xs) + 12) ≡ o.offset + suc (length xs) + 12 =
        omega (arith, w.offset) in
      record {
        bytes =
            rw (behind_eq, page_eq, offset_eq)
              (take-overwrite (overwrite o.buf o.offset (x ∷ xs)) (o.offset + suc (length xs))
                  (tail_bytes b ((length src + suc (length xs)) / 1460 + 1))
                  (omega (arith, length-overwrite o.buf o.offset (x ∷ xs), w.offset, w.room))
                ∙ rw
                    (
                      take-overwrite o.buf o.offset (x ∷ xs) (omega (arith, w.offset, w.room)),
                      w.bytes,
                      framed-append (next_tail b) 0 src (x ∷ xs),
                      zero-add,
                      framed_full (next_tail b) (length src) x xs h,
                    )
                    (append_assoc (framed (next_tail b) 0 src) (x ∷ xs) _));
        offset = omega (arith, w.offset, length-append src (x ∷ xs));
        page = omega (arith, w.page, length-append src (x ∷ xs));
        room = length-overwrite _ _ _ ∙ length-overwrite o.buf o.offset (x ∷ xs) ∙ w.room;
      }
