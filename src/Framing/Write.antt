-- ===== src/Framing/Write.antt =====
-- The copy loop of a serializer writes the stream of Framing.Stream.
use cpp_ipc_dds.Common.{
  ℕ, zero, suc, ◌+◌, ◌-◌, ◌*◌, ◌/◌, ◌%◌, ◌^◌, ◌<◌, min, ◌≡◌, refl, sym, ap, ◌∙◌, subst, List, [],
  ◌∷◌, ◌++◌, append-nil, append_assoc, arith, ltb, if◌then◌else◌, lt→ltb, length, drop, concat,
  slice, overwrite, length-append, length-overwrite, take-append, drop-append, take-overwrite,
  take-length, drop-drop, split_at, u32, sub32,
}
use cpp_ipc_dds.Framing.{
  MsgBase, Out, tail_bytes, add_tail_msg, tos_cut, adapt_memcpy_tos, serialize_data_cut,
  serialize_fields,
}
use cpp_ipc_dds.Framing.Stream.{framed, framed_len, next_tail, length-framed}
use cpp_ipc_dds.Framing.Copy.{Wrote, Fits, copy_inside, copy_full}

-- What the loop of `adapt_memcpy_tos` leaves, begun with the payload `src` written and `todo` to
-- write: a part `more` of it is written, and the rest stays inside the page.
record Cut (b : MsgBase) (cap : ℕ) (whole src todo : List ℕ) (r : ℕ × Out) : Type 0 where
  more : List ℕ
  left : List ℕ
  split : todo ≡ more ++ left
  wrote : Wrote b cap (src ++ more) r.1
  rest : drop r.0 whole ≡ left
  count : r.0 + length left ≡ length whole
  short : length (src ++ more) % 1460 + length left < 1460

-- The loop with `cut` rounds left does what `Cut` says, from any state that it can be in.
abbrev Cuts : MsgBase → ℕ → List ℕ → ℕ → Type 0
Cuts b cap whole cut =
    (src todo : List ℕ) (pure has : ℕ) (o : Out)
    → Wrote b cap src o
    → Fits cap (length src + length todo)
    → drop has whole ≡ todo
    → has + length todo ≡ length whole
    → pure ≡ length src
    → cut ≡ (length src + length todo) / 1460 - length src / 1460
    → Cut b cap whole src todo (tos_cut b whole cut pure has o)

module _ {b : MsgBase} {cap : ℕ} where
  Cut-cons :
      (whole src zs : List ℕ) (x : ℕ) (ys : List ℕ) {r : ℕ × Out}
      → Cut b cap whole (src ++ (x ∷ ys)) zs r
      → Cut b cap whole src ((x ∷ ys) ++ zs) r
  Cut-cons whole src zs x ys c = record {
    more = (x ∷ ys) ++ c.more;
    left = c.left;
    split = rw c.split (sym (append_assoc (x ∷ ys) c.more c.left));
    wrote = rw (← append_assoc src (x ∷ ys) c.more) c.wrote;
    rest = c.rest;
    count = c.count;
    short = rw (← append_assoc src (x ∷ ys) c.more) c.short;
  }

  -- One round, for a `todo` whose first block fills the page.
  write_round :
      (whole : List ℕ) (cut : ℕ)
      → Cuts b cap whole cut
      → (src : List ℕ) (x : ℕ) (ys zs : List ℕ) (pure has : ℕ) (o : Out) → Wrote b cap src o
      → length src % 1460 + suc (length ys) ≡ 1460
      → Fits cap (length src + (suc (length ys) + length zs))
      → drop has whole ≡ (x ∷ ys) ++ zs
      → has + (suc (length ys) + length zs) ≡ length whole
      → pure ≡ length src
      → suc cut ≡ (length src + (suc (length ys) + length zs)) / 1460 - length src / 1460
      → Cut b cap whole src ((x ∷ ys) ++ zs) (tos_cut b whole (suc cut) pure has o)
  unfolding tos_cut
  write_round whole cut ih src x ys zs pure has o w full fits d c hp hc =
      rw (copy_eq, read_eq)
        (Cut-cons whole src zs x ys (
          ih (src ++ (x ∷ ys)) zs _ _ _ (copy_full x ys w full (omega arith)) (omega (arith, sizes))
            next (omega arith) (omega (arith, sizes)) (omega (arith, sizes))))
    where
      copy_eq : min (1460 - pure % 1460) (length whole - has) ≡ suc (length ys)
      copy_eq = omega arith

      read_eq : slice whole has (suc (length ys)) ≡ x ∷ ys
      read_eq = rw d (take-append (x ∷ ys) zs)

      next : drop (has + suc (length ys)) whole ≡ zs
      next = rw (drop-drop, d) (drop-append (x ∷ ys) zs)

      sizes : length (src ++ (x ∷ ys)) ≡ length src + suc (length ys)
      sizes = length-append src (x ∷ ys)

  tos_cut-Cut : (whole : List ℕ) (cut : ℕ) → Cuts b cap whole cut
  unfolding tos_cut
  tos_cut-Cut whole zero src todo pure has o w fits d c hp hc = record {
    more = [];
    left = todo;
    split = refl;
    wrote = rw append-nil w;
    rest = d;
    count = c;
    short = rw append-nil (omega arith);
  }
  tos_cut-Cut whole (suc cut) src todo pure has o w fits d c hp hc =
      from_split (split_at (1460 - length src % 1460) todo (omega arith) (omega arith))
        (tos_cut-Cut whole cut)
    where
      from_split :
          (x : ℕ) × (ys : List ℕ) × (zs : List ℕ) × (todo ≡ (x ∷ ys) ++ zs)
            × (suc (length ys) ≡ 1460 - length src % 1460)
          → Cuts b cap whole cut
          → Cut b cap whole src todo (tos_cut b whole (suc cut) pure has o)
      from_split (x, ys, zs, e, n) ih =
          let sizes : length todo ≡ suc (length ys) + length zs =
            rw e (length-append (x ∷ ys) zs) in
          subst (λ t. Cut b cap whole src t (tos_cut b whole (suc cut) pure has o)) (sym e)
            (write_round whole cut ih src x ys zs pure has o w (omega arith) (omega arith) (d ∙ e)
              (omega arith) hp (omega arith))

  -- The copy behind the loop, if anything is left.
  left-Wrote :
      (src left : List ℕ) (o : Out)
      → Wrote b cap src o
      → length src % 1460 + length left < 1460
      → Fits cap (length src + length left)
      → Wrote b cap (src ++ left) (
          if ltb 0 (length left)
          then record o {
            buf = overwrite o.buf o.offset left;
            offset = u32 (o.offset + length left);
          }
          else o)
  left-Wrote src [] o w h fits = rw append-nil w
  left-Wrote src (x ∷ left) o w h fits =
      rw (lt→ltb 0 (suc (length left)) (omega arith)) (copy_inside (x ∷ left) w h fits)

  Cut-Wrote :
      (src xs : List ℕ) (r : ℕ × Out)
      → Fits cap (length src + length xs)
      → Cut b cap xs src xs r
      → Wrote b cap (src ++ xs) (
          if ltb 0 (length xs - r.0)
          then record r.1 {
            buf = overwrite r.1.buf r.1.offset (slice xs r.0 (length xs - r.0));
            offset = u32 (r.1.offset + (length xs - r.0));
          }
          else r.1)
  Cut-Wrote src xs r fits c =
      rw (left_eq, c.rest, take-length (length c.left) c.left (omega arith), whole)
        (left-Wrote (src ++ c.more) c.left r.1 c.wrote c.short (
          omega (
            arith,
            sizes,
            ap length whole,
            length-append src xs,
            length-append (src ++ c.more) c.left,
          )))
    where
      left_eq : length xs - r.0 ≡ length c.left
      left_eq = omega (arith, c.count)

      sizes : length xs ≡ length c.more + length c.left
      sizes = ap length c.split ∙ length-append c.more c.left

      whole : src ++ xs ≡ (src ++ c.more) ++ c.left
      whole = ap (λ (t : List ℕ). src ++ t) c.split ∙ sym (append_assoc src c.more c.left)

-- `adapt_memcpy_tos` continues the stream by its source.
pub adapt_memcpy_tos-Wrote :
    {b : MsgBase} {cap : ℕ} {src : List ℕ} {o : Out} (xs : List ℕ)
    → Wrote b cap src o
    → Fits cap (length src + length xs)
    → Wrote b cap (src ++ xs) (adapt_memcpy_tos b xs o)
unfolding adapt_memcpy_tos
adapt_memcpy_tos-Wrote {b} {cap} {src} {o} xs w fits =
    Cut-Wrote src xs _ fits (
      tos_cut-Cut xs cut src xs pure 0 o w fits refl (omega arith) pure_eq (omega (arith, pure_eq)))
  where
    pure : ℕ
    pure = (o.offset + 2 ^ 32 + 12 - o.page * 12) % 2 ^ 32

    pure_eq : (o.offset + 2 ^ 32 + 12 - o.page * 12) % 2 ^ 32 ≡ length src
    pure_eq = omega (arith, w.offset, w.page)

    cut : ℕ
    cut =
        sub32 (u32 ((o.offset + 2 ^ 32 + 12 - o.page * 12) % 2 ^ 32 + length xs) / 1460)
          ((o.offset + 2 ^ 32 + 12 - o.page * 12) % 2 ^ 32 / 1460)

-- The stream of a whole message: the payload with a tail behind each page, and the last tail.
unfoldable pub message_stream : MsgBase → List ℕ → List ℕ
message_stream b src = framed (next_tail b) 0 src ++ tail_bytes b (length src / 1460 + 1)

serialize_fields-Wrote :
    {b : MsgBase} {cap : ℕ} (src : List ℕ) (fs : List (List ℕ)) (o : Out)
    → Wrote b cap src o
    → Fits cap (length src + length (concat fs))
    → cap ≡ framed_len (length src + length (concat fs)) + 12
    → serialize_fields b fs o ≡ message_stream b (src ++ concat fs)
unfolding serialize_fields add_tail_msg message_stream
serialize_fields-Wrote {b} src [] o w fits c =
    rw (append-nil, ← w.page, ← w.bytes)
      (sym (
          take-length (o.offset + 12) (overwrite o.buf o.offset (tail_bytes b o.page)) (
            omega (arith, length-overwrite o.buf o.offset (tail_bytes b o.page), w.room, w.offset)))
        ∙ take-overwrite o.buf o.offset (tail_bytes b o.page) (omega (arith, w.room, w.offset)))
serialize_fields-Wrote {b} {cap} src (f ∷ fs) o w fits c = rw (← append_assoc src f (concat fs)) (
    serialize_fields-Wrote (src ++ f) fs (adapt_memcpy_tos b f o)
      (adapt_memcpy_tos-Wrote f w (omega (arith, sizes)))
      (omega (arith, sizes, length-append src f)) (omega (arith, sizes, length-append src f)))
  where
    sizes : length (f ++ concat fs) ≡ length f + length (concat fs)
    sizes = length-append f (concat fs)

-- A serializer that announces the length of its fields, and has fewer than 65535 full pages of
-- them, writes the stream of the payload, whatever the allocated memory held, and fills that memory
-- exactly.
pub serialize_fields_lem :
    (b : MsgBase) (fs : List (List ℕ)) (mem : List ℕ)
    → length (concat fs) / 1460 < 2 ^ 16 - 1
    → length mem ≡ (serialize_data_cut (length (concat fs)) b).total_size
    → let b' = serialize_data_cut (length (concat fs)) b in
      (serialize_fields b' fs (record { buf = mem; page = 1; offset = 0 })
        ≡ message_stream b' (concat fs))
      × (length (message_stream b' (concat fs)) ≡ length mem)
      × (length mem ≡ framed_len (length (concat fs)) + 12)
unfolding message_stream
serialize_fields_lem b fs mem h m = (written, sizes, m ∙ total)
  where
    n : ℕ
    n = length (concat fs)

    b' : MsgBase
    b' = serialize_data_cut (length (concat fs)) b

    total : b'.total_size ≡ framed_len (length (concat fs)) + 12
    total = omega arith

    start : Wrote b' (length mem) [] (record { buf = mem; page = 1; offset = 0 })
    start = record { bytes = unfold framed in refl; offset = refl; page = refl; room = refl }

    written :
        serialize_fields b' fs (record { buf = mem; page = 1; offset = 0 })
        ≡ message_stream b' (concat fs)
    written = serialize_fields-Wrote [] fs _ start (omega (arith, total)) (omega (arith, total))

    sizes : length (message_stream b' (concat fs)) ≡ length mem
    sizes = omega (
      arith,
      total,
      length-append (framed (next_tail b') 0 (concat fs))
          (tail_bytes b' (length (concat fs) / 1460 + 1)),
      length-framed (next_tail b') 0 (concat fs) (λ p. refl),
    )
