-- ===== src/Generic/Read.antt =====
-- `read_paged` reads what the deserializers of Framing read, on streams that Framing wrote.
use cpp_ipc_dds.Common.{
  ℕ, zero, suc, ◌+◌, ◌-◌, ◌%◌, ◌^◌, ◌<◌, min, ◌≡◌, refl, ap, ◌∙◌, inl, inr, Bool, true, false, List,
  [], ◌++◌, append-nil, arith, ltb, if◌then◌else◌, Bool-cases, length, slice, u32,
}
use cpp_ipc_dds.Framing.{MsgBase, Cursor, tods_cut, tods_rest, adapt_memcpy_tods}
use cpp_ipc_dds.Framing.Stream.{framed_len}
use cpp_ipc_dds.Framing.Read.{Holds, adapt_memcpy_tods_lem}
use cpp_ipc_dds.Generic.Parse.{paged_cut, paged_rest, read_paged}

module _ (b : MsgBase) (buf : List ℕ) (small : b.total_size < 2 ^ 32) where
  paged_cut-tods_cut :
      (len cut pure : ℕ) (dst : List ℕ) (c : Cursor)
      → (tods_cut b buf len cut pure dst c).2 ≡ false
      → paged_cut buf b.total_size len cut pure dst c.offset
        ≡ ((tods_cut b buf len cut pure dst c).0, (tods_cut b buf len cut pure dst c).1.offset)
  unfolding paged_cut tods_cut
  paged_cut-tods_cut len zero pure dst c h = refl
  paged_cut-tods_cut len (suc cut) pure dst c h =
      let copy : ℕ = min (1460 - pure % 1460) (len - length dst) in
      ground (
        arith,
        paged_cut-tods_cut len cut (u32 (pure + copy)) (dst ++ slice buf c.offset copy)
            (record c { offset = u32 (c.offset + copy + 12) }),
      )

  paged_rest-tods_rest :
      (len : ℕ) (dst : List ℕ) (c : Cursor)
      → (tods_rest b buf len dst c).1.overflow ≡ false
      → paged_rest buf b.total_size len (dst, c.offset)
        ≡ ((tods_rest b buf len dst c).0, (tods_rest b buf len dst c).1.offset)
  unfolding paged_rest tods_rest
  paged_rest-tods_rest len dst c h = elim (Bool-cases (ltb 0 (len - length dst))) [
    | inl some_left ↦ ground (arith, some_left)
    | inr none_left ↦ let e : len - length dst ≡ 0 = ground arith in rw (e, append-nil) refl
  ]

  tods_cut_stopped :
      (len cut pure : ℕ) (dst : List ℕ) (c : Cursor)
      → (tods_cut b buf len cut pure dst c).2 ≡ true
      → (tods_cut b buf len cut pure dst c).1.overflow ≡ true
  unfolding tods_cut
  tods_cut_stopped len zero pure dst c h = cc
  tods_cut_stopped len (suc cut) pure dst c h =
      let copy : ℕ = min (1460 - pure % 1460) (len - length dst) in
      ground (
        arith,
        tods_cut_stopped len cut (u32 (pure + copy)) (dst ++ slice buf c.offset copy)
            (record c { offset = u32 (c.offset + copy + 12) }),
      )

  -- A loop of Framing and the rest behind it, with what the loop returned as `r`.
  tods_behind : ℕ → List ℕ × Cursor × Bool → List ℕ × Cursor
  tods_behind len (dst, c, stopped) = if stopped then (dst, c) else tods_rest b buf len dst c

  paged_behind :
      (len : ℕ) (r : List ℕ × Cursor × Bool) (p : List ℕ × ℕ)
      → (r.2 ≡ true → r.1.overflow ≡ true)
      → (r.2 ≡ false → p ≡ (r.0, r.1.offset))
      → (tods_behind len r).1.overflow ≡ false
      → paged_rest buf b.total_size len p ≡ ((tods_behind len r).0, (tods_behind len r).1.offset)
  unfolding tods_behind
  paged_behind len (dst, c, true) p stop same h = absurd (cc (stop refl))
  paged_behind len (dst, c, false) p stop same h = rw (same refl) (paged_rest-tods_rest len dst c h)

  read_paged-tods :
      (len : ℕ) (c : Cursor)
      → (adapt_memcpy_tods b buf len c).1.overflow ≡ false
      → read_paged buf b.total_size len c.offset
        ≡ ((adapt_memcpy_tods b buf len c).0, (adapt_memcpy_tods b buf len c).1.offset)
  unfolding read_paged adapt_memcpy_tods tods_behind
  read_paged-tods len c h =
      paged_behind len _ _ (tods_cut_stopped len _ _ [] c) (paged_cut-tods_cut len _ _ [] c) h

-- On a stream, behind the payload `q`, `read_paged` reads the next `xs` of the payload and stops
-- behind it.
pub read_paged_lem :
    {t : ℕ → List ℕ} {buf : List ℕ} (q xs after : List ℕ)
    → length buf < 2 ^ 32
    → Holds t (q ++ (xs ++ after)) buf
    → read_paged buf (length buf) (length xs) (framed_len (length q))
      ≡ (xs, framed_len (length q + length xs))
read_paged_lem {t} {buf} q xs after small holds =
    read_paged-tods b buf small (length xs) c (ap (λ r. r.1.overflow) done)
    ∙ ap (λ r. (r.0, r.1.offset)) done
  where
    b : MsgBase
    b = record { total_size = length buf; total_page_cnt = 1; msg_id = 0 }

    c : Cursor
    c = record { offset = framed_len (length q); overflow = false }

    done :
        adapt_memcpy_tods b buf (length xs) c
        ≡ (xs, record c { offset = framed_len (length q + length xs) })
    done = adapt_memcpy_tods_lem {t = t} b q xs after c refl small holds refl
