-- ===== src/Framing/Read.antt =====
-- The copy loop of a deserializer: it reads back the payload of a stream, and on any bytes at all
-- it fills its destination without a read outside the buffer.
use cpp_ipc_dds.Common.{
  ℕ, zero, suc, ◌+◌, ◌-◌, ◌*◌, ◌/◌, ◌%◌, ◌^◌, ◌≤◌, ◌<◌, min, zero-add, ◌≡◌, refl, sym, ap, ◌∙◌,
  subst, inl, inr, Bool, true, false, List, [], ◌∷◌, ◌++◌, append-nil, append_assoc, arith, dec_lt,
  ltb, Bool-cases, le→leb, length, slice, length-append, slice-append, split_at, nil_of_length, u32,
  sub32,
}
use cpp_ipc_dds.Framing.{MsgBase, Cursor, tods_in_range, tods_cut, tods_rest, adapt_memcpy_tods}
use cpp_ipc_dds.Framing.Stream.{
  framed, framed_len, Tails, length-framed, framed-append, framed_inside, framed_full,
}

-- Bytes that do not pass the end of their page stand in the stream as they are.
framed_block :
    (t : ℕ → List ℕ) (k : ℕ) (xs : List ℕ)
    → k % 1460 + length xs ≤ 1460
    → (behind : List ℕ) × (framed t k xs ≡ xs ++ behind)
framed_block t k [] h = ([], unfold framed in refl)
framed_block t k (x ∷ xs) h = elim (dec_lt (k % 1460 + suc (length xs)) 1460) [
  | yes inside ↦ ([], framed_inside t k (x ∷ xs) inside ∙ sym (append-nil (x ∷ xs)))
  | no full ↦ (t ((k + suc (length xs)) / 1460), framed_full t k x xs (omega arith))
]

-- The buffer holds the stream of the payload `whole`, and something behind it.
pub record Holds (t : ℕ → List ℕ) (whole : List ℕ) (buf : List ℕ) : Type 0 where
  pub tails : Tails t
  pub behind : List ℕ
  pub is_stream : buf ≡ framed t 0 whole ++ behind

module _ {t : ℕ → List ℕ} {buf : List ℕ} where
  -- One block copy out of the stream.
  read_block :
      (q xs after : List ℕ)
      → Holds t (q ++ (xs ++ after)) buf
      → length q % 1460 + length xs ≤ 1460
      → (slice buf (framed_len (length q)) (length xs) ≡ xs)
        × (framed_len (length q) + length xs ≤ length buf)
  read_block q xs after s h = (
    rw e (slice-append (framed t 0 q) xs _ _ _ (sym sizes) refl),
    omega (
      arith,
      sizes,
      ap length e,
      length-append (framed t 0 q)
          (xs ++ (y.0 ++ (framed t (length q + length xs) after ++ s.behind))),
      length-append xs (y.0 ++ (framed t (length q + length xs) after ++ s.behind)),
    ),
  )
    where
      y : (behind : List ℕ) × (framed t (length q) xs ≡ xs ++ behind)
      y = framed_block t (length q) xs h

      sizes : length (framed t 0 q) ≡ framed_len (length q)
      sizes =
          let z : 0 + length q ≡ length q = zero-add (length q) in
          omega (arith, length-framed t 0 q s.tails, z)

      e : buf ≡ framed t 0 q ++ (xs ++ (y.0 ++ (framed t (length q + length xs) after ++ s.behind)))
      e =
          s.is_stream
          ∙ rw
              (
                framed-append t 0 q (xs ++ after),
                zero-add,
                framed-append t (length q) xs after,
                y.1,
              )
              (simp append_assoc)

-- What the loop of `adapt_memcpy_tods` leaves on a stream, begun behind the payload `q` with `dst`
-- read and `todo` asked for.
record Got (q dst todo : List ℕ) (flag : Bool) (r : List ℕ × Cursor × Bool) : Type 0 where
  more : List ℕ
  left : List ℕ
  split : todo ≡ more ++ left
  read : r.0 ≡ dst ++ more
  offset : r.1.offset ≡ framed_len (length (q ++ more))
  overflow : r.1.overflow ≡ flag
  going : r.2 ≡ false
  short : length (q ++ more) % 1460 + length left < 1460

abbrev Gets : (ℕ → List ℕ) → MsgBase → List ℕ → ℕ → ℕ → Type 0
Gets t b buf len cut =
    (q dst todo after : List ℕ) (pure : ℕ) (c : Cursor)
    → Holds t (q ++ (todo ++ after)) buf
    → c.offset ≡ framed_len (length q)
    → len ≡ length dst + length todo
    → pure ≡ length q
    → cut ≡ (length q + length todo) / 1460 - length q / 1460
    → Got q dst todo c.overflow (tods_cut b buf len cut pure dst c)

Got-cons :
    (q dst zs : List ℕ) (x : ℕ) (ys : List ℕ) (flag : Bool) {r : List ℕ × Cursor × Bool}
    → Got (q ++ (x ∷ ys)) (dst ++ (x ∷ ys)) zs flag r
    → Got q dst ((x ∷ ys) ++ zs) flag r
Got-cons q dst zs x ys flag g = record {
  more = (x ∷ ys) ++ g.more;
  left = g.left;
  split = rw g.split (sym (append_assoc (x ∷ ys) g.more g.left));
  read = g.read ∙ append_assoc dst (x ∷ ys) g.more;
  offset = rw (← append_assoc q (x ∷ ys) g.more) g.offset;
  overflow = g.overflow;
  going = g.going;
  short = rw (← append_assoc q (x ∷ ys) g.more) g.short;
}

in_range : (total at n : ℕ) → at + n ≤ total → tods_in_range total at n ≡ true
in_range total at n h = rw (le→leb at total (omega arith), le→leb n (total - at) (omega arith)) refl

module _ {t : ℕ → List ℕ} (b : MsgBase) {buf : List ℕ} (sized : b.total_size ≡ length buf)
    (small : length buf < 2 ^ 32) where
  read_round :
      (len cut : ℕ)
      → Gets t b buf len cut
      → (q dst : List ℕ) (x : ℕ) (ys zs after : List ℕ) (pure : ℕ) (c : Cursor)
      → Holds t (q ++ (((x ∷ ys) ++ zs) ++ after)) buf
      → length q % 1460 + suc (length ys) ≡ 1460
      → c.offset ≡ framed_len (length q)
      → len ≡ length dst + (suc (length ys) + length zs)
      → pure ≡ length q
      → suc cut ≡ (length q + (suc (length ys) + length zs)) / 1460 - length q / 1460
      → Got q dst ((x ∷ ys) ++ zs) c.overflow (tods_cut b buf len (suc cut) pure dst c)
  unfolding tods_cut
  read_round len cut ih q dst x ys zs after pure c holds full ho hl hp hc =
      rw
        (
          copy_eq,
          block.0,
          in_range b.total_size c.offset (suc (length ys)) (omega (arith, sized, block.1)),
        )
        (Got-cons q dst zs x ys c.overflow (
          ih (q ++ (x ∷ ys)) (dst ++ (x ∷ ys)) zs after _ _
            (rw append_assoc (rw append_assoc at holds)) (omega (arith, block.1, sizes))
            (omega (arith, length-append dst (x ∷ ys))) (omega (arith, block.1, sizes))
            (omega (arith, sizes))))
    where
      copy_eq : min (1460 - pure % 1460) (len - length dst) ≡ suc (length ys)
      copy_eq = omega arith

      block :
          (slice buf c.offset (suc (length ys)) ≡ x ∷ ys)
          × (c.offset + suc (length ys) ≤ length buf)
      block = rw ho (read_block q (x ∷ ys) (zs ++ after) (rw append_assoc at holds) (omega arith))

      sizes : length (q ++ (x ∷ ys)) ≡ length q + suc (length ys)
      sizes = length-append q (x ∷ ys)

  tods_cut-Got : (len cut : ℕ) → Gets t b buf len cut
  unfolding tods_cut
  tods_cut-Got len zero q dst todo after pure c holds ho hl hp hc = record {
    more = [];
    left = todo;
    split = refl;
    read = sym (append-nil dst);
    offset = rw append-nil ho;
    overflow = refl;
    going = refl;
    short = rw append-nil (omega arith);
  }
  tods_cut-Got len (suc cut) q dst todo after pure c holds ho hl hp hc =
      from_split (split_at (1460 - length q % 1460) todo (omega arith) (omega arith))
        (tods_cut-Got len cut)
    where
      from_split :
          (x : ℕ) × (ys : List ℕ) × (zs : List ℕ) × (todo ≡ (x ∷ ys) ++ zs)
            × (suc (length ys) ≡ 1460 - length q % 1460)
          → Gets t b buf len cut
          → Got q dst todo c.overflow (tods_cut b buf len (suc cut) pure dst c)
      from_split (x, ys, zs, e, n) ih =
          let sizes : length todo ≡ suc (length ys) + length zs =
            rw e (length-append (x ∷ ys) zs) in
          subst (λ d. Got q dst d c.overflow (tods_cut b buf len (suc cut) pure dst c)) (sym e)
            (read_round len cut ih q dst x ys zs after pure c
              (subst (λ d. Holds t (q ++ (d ++ after)) buf) e holds) (omega arith) ho (omega arith)
              hp (omega arith))

  -- The copy behind the loop, if anything is left.
  Holds-le :
      (q xs after : List ℕ) → Holds t (q ++ (xs ++ after)) buf → length q + length xs ≤ length buf
  Holds-le q xs after s = omega (
    arith,
    ap length s.is_stream,
    length-append (framed t 0 (q ++ (xs ++ after))) s.behind,
    length-framed t 0 (q ++ (xs ++ after)) s.tails,
    length-append q (xs ++ after),
    length-append xs after,
  )

  Got-rest :
      (q xs after : List ℕ) (flag : Bool) (r : List ℕ × Cursor × Bool)
      → Holds t (q ++ (xs ++ after)) buf
      → Got q [] xs flag r
      → tods_rest b buf (length xs) r.0 r.1
        ≡ (xs, record { offset = framed_len (length q + length xs); overflow = flag })
  unfolding tods_rest
  Got-rest q xs after flag r holds g =
      rw (left_eq, g.read, g.offset, g.overflow)
        (elim (Bool-cases (ltb 0 (length g.left))) [
          | inl some_left ↦
              rw
                (
                  some_left,
                  block.0,
                  in_range b.total_size (framed_len (length (q ++ g.more))) (length g.left)
                      (omega (arith, sized, block.1)),
                  end_eq,
                  g.split,
                )
                refl
          | inr none_left ↦ rw none_left (all_read (nil_of_length g.left (ground arith)))
        ])
    where
      sizes : length xs ≡ length g.more + length g.left
      sizes = ap length g.split ∙ length-append g.more g.left

      all_read :
          g.left ≡ []
          → ◌≡◌ {A = List ℕ × Cursor}
              (g.more, record { offset = framed_len (length (q ++ g.more)); overflow = flag })
              (xs, record { offset = framed_len (length q + length xs); overflow = flag })
      all_read e =
          let same : xs ≡ g.more = g.split ∙ rw e (append-nil g.more) in
          let len : framed_len (length (q ++ g.more)) ≡ framed_len (length q + length xs) =
            omega (arith, length-append q g.more, ap length same) in
          λ i. (sym same i, record { offset = len i; overflow = flag })

      left_eq : length xs - length r.0 ≡ length g.left
      left_eq = omega (arith, sizes, ap length g.read)

      block :
          (slice buf (framed_len (length (q ++ g.more))) (length g.left) ≡ g.left)
          × (framed_len (length (q ++ g.more)) + length g.left ≤ length buf)
      block =
          read_block (q ++ g.more) g.left after
            (subst (λ d. Holds t d buf)
              (ap (λ (t : List ℕ). q ++ (t ++ after)) g.split ∙ simp append_assoc) holds)
            (omega (arith, g.short))

      end_eq :
          u32 (framed_len (length (q ++ g.more)) + length g.left)
          ≡ framed_len (length q + length xs)
      end_eq = omega (arith, g.short, block.1, sizes, length-append q g.more)

-- On a stream, behind the payload `q`, `adapt_memcpy_tods` reads the next `xs` of the payload and
-- stops behind it, with the overflow flag as it was.
pub adapt_memcpy_tods_lem :
    {t : ℕ → List ℕ} (b : MsgBase) {buf : List ℕ} (q xs after : List ℕ) (c : Cursor)
    → b.total_size ≡ length buf
    → length buf < 2 ^ 32
    → Holds t (q ++ (xs ++ after)) buf
    → c.offset ≡ framed_len (length q)
    → adapt_memcpy_tods b buf (length xs) c
      ≡ (xs, record c { offset = framed_len (length q + length xs) })
unfolding adapt_memcpy_tods
adapt_memcpy_tods_lem {t} b {buf} q xs after c sized small holds ho =
    rw got.going (Got-rest b sized small q xs after c.overflow _ holds got)
  where
    pure : ℕ
    pure = c.offset - c.offset / 1472 * 12

    pure_eq : c.offset - c.offset / 1472 * 12 ≡ length q
    pure_eq = omega arith

    cut : ℕ
    cut =
        sub32 (u32 (c.offset - c.offset / 1472 * 12 + length xs) / 1460)
          ((c.offset - c.offset / 1472 * 12) / 1460)

    got : Got q [] xs c.overflow (tods_cut b buf (length xs) cut pure [] c)
    got =
        tods_cut-Got b sized small (length xs) cut q [] xs after pure c holds ho
          (sym (zero-add (length xs))) pure_eq
          (omega (arith, pure_eq, Holds-le b sized small q xs after holds))
