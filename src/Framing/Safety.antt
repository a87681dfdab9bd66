-- ===== src/Framing/Safety.antt =====
-- A deserializer on bytes that nobody vouches for.
use cpp_ipc_dds.Common.{
  ℕ, zero, suc, ◌+◌, ◌-◌, ◌*◌, ◌%◌, ◌^◌, ◌≤◌, ◌<◌, min, ◌≡◌, refl, ap, ◌∙◌, inl, inr, Bool, true,
  false, not, ◌||◌, List, [], ◌++◌, arith, ltb, leb, if◌then◌else◌, Bool-cases, lt→ltb, lt→leb,
  length, replicate, slice, length-append, length-replicate, slice-append_before, length-slice, u32,
  u64,
}
use native.Mathlib.Nat.{mod-eq_of_lt}
use cpp_ipc_dds.Framing.{
  MsgBase, Cursor, tods_in_range, tods_cut, tods_rest, adapt_memcpy_tods, tods_count_ok,
}

in_range→le : (total at n : ℕ) → tods_in_range total at n ≡ true → at + n ≤ total
in_range→le total at n h = ground arith

-- The destination is full, or the loop goes on with no more than it asked for.
abbrev Filled : ℕ → List ℕ × Cursor × Bool → Type 0
Filled len (dst, c, stopped) = (length dst ≤ len) × (stopped ≡ true → length dst ≡ len)

module _ (b : MsgBase) (src : List ℕ) (sized : b.total_size ≡ length src) (len : ℕ) where
  tods_cut-Filled :
      (cut pure : ℕ) (dst : List ℕ) (c : Cursor)
      → length dst ≤ len
      → Filled len (tods_cut b src len cut pure dst c)
  unfolding tods_cut
  tods_cut-Filled zero pure dst c h = (h, λ e. cc)
  tods_cut-Filled (suc cut) pure dst c h =
      elim (Bool-cases (tods_in_range b.total_size c.offset copy)) [
        | inl fits ↦ rw fits (
            tods_cut-Filled cut (u32 (pure + copy)) (dst ++ slice src c.offset copy) _ (
              omega (
                arith,
                length-append dst (slice src c.offset copy),
                length-slice src c.offset copy
                    (omega (arith, sized, in_range→le b.total_size c.offset copy fits)),
              )))
        | inr not_fits ↦ rw not_fits (
          omega (
            arith,
            length-append dst (replicate (len - length dst) 0),
            length-replicate {A = ℕ} (len - length dst) 0,
          ),
          λ _. omega (
            arith,
            length-append dst (replicate (len - length dst) 0),
            length-replicate {A = ℕ} (len - length dst) 0,
          ),
        )
      ]
    where
      copy : ℕ
      copy = min (1460 - pure % 1460) (len - length dst)

  tods_rest_full :
      (dst : List ℕ) (c : Cursor) → length dst ≤ len → length (tods_rest b src len dst c).0 ≡ len
  unfolding tods_rest
  tods_rest_full dst c h = elim (Bool-cases (ltb 0 (len - length dst))) [
    | inl some_left ↦
        rw some_left (elim (Bool-cases (tods_in_range b.total_size c.offset (len - length dst))) [
          | inl fits ↦ rw fits (
              omega (
                arith,
                length-append dst (slice src c.offset (len - length dst)),
                length-slice src c.offset (len - length dst) (
                    omega
                      (arith, sized, in_range→le b.total_size c.offset (len - length dst) fits)),
              ))
          | inr not_fits ↦ rw not_fits (
              omega (
                arith,
                length-append dst (replicate (len - length dst) 0),
                length-replicate {A = ℕ} (len - length dst) 0,
              ))
        ])
    | inr none_left ↦ rw none_left (ground arith)
  ]

-- `adapt_memcpy_tods` writes every byte of its destination once.
pub length-adapt_memcpy_tods :
    (b : MsgBase) (src : List ℕ) (len : ℕ) (c : Cursor)
    → b.total_size ≡ length src
    → length (adapt_memcpy_tods b src len c).0 ≡ len
unfolding adapt_memcpy_tods
length-adapt_memcpy_tods b src len c sized =
    by_stop (tods_cut b src len _ _ [] c) (tods_cut-Filled b src sized len _ _ [] c (omega arith))
  where
    by_stop :
        (r : List ℕ × Cursor × Bool)
        → Filled len r
        → length (if r.2 then (r.0, r.1) else tods_rest b src len r.0 r.1).0 ≡ len
    by_stop (dst, c', true) f = f.1 refl
    by_stop (dst, c', false) f = tods_rest_full b src sized len dst c' f.0

-- What stands in memory behind the buffer.
module _ (b : MsgBase) (src outside : List ℕ) (sized : b.total_size ≡ length src) (len : ℕ) where
  slice_inside :
      (at n : ℕ)
      → tods_in_range b.total_size at n ≡ true
      → slice (src ++ outside) at n ≡ slice src at n
  slice_inside at n fits =
      slice-append_before src outside at n
        (omega (arith, sized, in_range→le b.total_size at n fits))

  tods_cut_inside :
      (cut pure : ℕ) (dst : List ℕ) (c : Cursor)
      → tods_cut b (src ++ outside) len cut pure dst c ≡ tods_cut b src len cut pure dst c
  unfolding tods_cut
  tods_cut_inside zero pure dst c = refl
  tods_cut_inside (suc cut) pure dst c =
      let copy = min (1460 - pure % 1460) (len - length dst) in
      elim (Bool-cases (tods_in_range b.total_size c.offset copy)) [
        | inl fits ↦
            rw (fits, slice_inside c.offset copy fits)
              (tods_cut_inside cut (u32 (pure + copy)) (dst ++ slice src c.offset copy) _)
        | inr not_fits ↦ rw not_fits refl
      ]

  tods_rest_inside :
      (dst : List ℕ) (c : Cursor)
      → tods_rest b (src ++ outside) len dst c ≡ tods_rest b src len dst c
  unfolding tods_rest
  tods_rest_inside dst c =
      let remaining = len - length dst in
      elim (Bool-cases (tods_in_range b.total_size c.offset remaining)) [
        | inl fits ↦ rw (fits, slice_inside c.offset remaining fits) refl
        | inr not_fits ↦ rw not_fits refl
      ]

-- Whatever the bytes of the buffer and the offset are, `adapt_memcpy_tods` on an object whose total size is
-- that of the buffer reads nothing behind the buffer: the result, the offset and the overflow flag are
-- the same for any bytes `outside` that stand there. And it writes every byte of its destination once.
pub adapt_memcpy_tods_inside :
    (b : MsgBase) (src outside : List ℕ) (len : ℕ) (c : Cursor)
    → b.total_size ≡ length src
    → (adapt_memcpy_tods b (src ++ outside) len c ≡ adapt_memcpy_tods b src len c)
      × (length (adapt_memcpy_tods b (src ++ outside) len c).0 ≡ len)
unfolding adapt_memcpy_tods
adapt_memcpy_tods_inside b src outside len c sized = (
  same,
  ap (λ (r : List ℕ × Cursor). length r.0) same ∙ length-adapt_memcpy_tods b src len c sized,
)
  where
    finish : List ℕ → List ℕ × Cursor × Bool → List ℕ × Cursor
    finish whole r = if r.2 then (r.0, r.1) else tods_rest b whole len r.0 r.1

    rests : (r : List ℕ × Cursor × Bool) → finish (src ++ outside) r ≡ finish src r
    rests r = rw (tods_rest_inside b src outside sized len r.0 r.1) refl

    same : adapt_memcpy_tods b (src ++ outside) len c ≡ adapt_memcpy_tods b src len c
    same =
        ap (finish (src ++ outside)) (tods_cut_inside b src outside sized len _ _ [] c)
        ∙ rests (tods_cut b src len _ _ [] c)

product_small : (x y : ℕ) → x < 2 ^ 31 → y < 2 ^ 32 → x * y < 2 ^ 64
product_small x y hx hy = grind arith

room_test :
    (total at n : ℕ)
    → total < 2 ^ 32
    → ltb 0xFFFFFFFF n || not (tods_in_range total at n) ≡ not (leb (at + n) total)
room_test total at n h = ground arith

-- For a count that fits an int32_t and elements of 1 to 2^32 - 1 bytes, `tods_count_ok` accepts
-- exactly if that many elements fit between `at` and the end of the buffer; it sets the overflow
-- flag exactly if it refuses.
pub tods_count_ok_lem :
    (b : MsgBase) (at count elem : ℕ) (c : Cursor)
    → count < 2 ^ 31
    → 0 < elem
    → elem < 2 ^ 32
    → b.total_size < 2 ^ 32
    → tods_count_ok b at count elem c ≡ (
        if leb (at + count * elem) b.total_size
        then (true, c)
        else (false, record c { overflow = true }))
unfolding tods_count_ok
tods_count_ok_lem b at count elem c hc pos he ht =
    let no_wrap : u64 (count * elem) ≡ count * elem =
      mod-eq_of_lt (product_small count elem hc he) in
    rw
      (
        lt→leb (2 ^ 63) count (omega arith),
        lt→ltb 0 elem pos,
        no_wrap,
        room_test b.total_size at (count * elem) ht,
      )
      (by_fit (leb (at + count * elem) b.total_size))
  where
    by_fit :
        (fit : Bool)
        → ◌≡◌ {A = Bool × Cursor}
            (if not fit then (false, record c { overflow = true }) else (true, c))
            (if fit then (true, c) else (false, record c { overflow = true }))
    by_fit true = refl
    by_fit false = refl
