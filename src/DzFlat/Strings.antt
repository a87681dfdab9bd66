-- ===== src/DzFlat/Strings.antt =====
-- Strings that are put into a segment one after the other are read back.
use cpp_ipc_dds.Common.{
  ℕ, ◌+◌, ◌-◌, ◌/◌, ◌^◌, ◌≤◌, ◌<◌, ◌≡◌, refl, ◌∙◌, ◌⊎◌, inl, inr, Bool, false, List, [], ◌∷◌, map,
  arith, ltb, leb, ◌==◌, Bool-cases, length, slice, overwrite, length-overwrite, take-length,
  slice-overwrite_self, slice-overwrite_before, u32,
}
use cpp_ipc_dds.DzFlat.{
  Reader, VarRef, in_bounds, as_string, Writer, reserve, empty_ref, put_string,
}
use cpp_ipc_dds.DzFlat.Append.{
  IsWriter, Extends, Reserved, reserve_lem, Extends-refl, Extends-trans,
}

-- A sequence of calls of `put_string`, and the segment that is read when it is complete.
unfoldable pub put_strings : List (List ℕ) → Writer → List VarRef × Writer
put_strings [] w = ([], w)
put_strings (s ∷ ss) w =
    let r = put_string s w in let rest = put_strings ss r.1 in (r.0.0 ∷ rest.0, rest.1)

abbrev pub reader_of : Writer → Reader
reader_of w = record { seg = w.seg; size = w.cur }

-- The reference gives the string in every segment that keeps the bytes in use.
Reads : VarRef → List ℕ → Writer → Type 0
Reads ref s w =
    (ref ≡ empty_ref) × (s ≡ [])
    ⊎ (0 < ref.off)
      × (ref.cnt ≡ length s)
      × (0 < length s)
      × (ref.off + length s ≤ w.cur)
      × (slice w.seg ref.off (length s) ≡ s)

Reads-as_string :
    (ref : VarRef) (s : List ℕ) (w : Writer) → Reads ref s w → as_string (reader_of w) ref ≡ s
unfolding as_string Reads in_bounds
Reads-as_string ref s w (inl e) = rw (e.0, e.1) refl
Reads-as_string ref s w (inr h) =
    let some_bytes : (ref.cnt == 0) ≡ false = ground (arith, h.1, h.2) in
    let apart : (ref.off == 0) ≡ false = ground (arith, h.0) in
    let inside : leb w.cur ref.off ≡ false = ground (arith, h.2, h.3) in
    let few : ltb ((w.cur - ref.off) / 1) ref.cnt ≡ false = ground (arith, h.1, h.3) in
    rw (some_bytes, apart, inside, few, h.1) (h.4)

Reads-Extends :
    (ref : VarRef) (s : List ℕ) (w w' : Writer) → Reads ref s w → Extends w w' → Reads ref s w'
unfolding Reads
Reads-Extends ref s w w' (inl e) x = inl e
Reads-Extends ref s w w' (inr h) x =
    inr (h.0, h.1, h.2, omega (arith, h.3, x.on), x.kept ref.off (length s) h.3 ∙ h.4)

-- A call that does not report a failure.
record Put (s : List ℕ) (w : Writer) (r : (VarRef × Bool) × Writer) : Type 0 where
  extends : Extends w r.1
  reads : Reads r.0.0 s r.1
  near : r.1.cur ≤ w.cur + (length s + 7)

-- One that does.
record Refused (s : List ℕ) (w : Writer) (r : (VarRef × Bool) × Writer) : Type 0 where
  told : r.0.1 ≡ false
  marked : r.1.ok ≡ false
  less : w.cap < w.cur + (length s + 7)

empty_lem : (s : List ℕ) → length s ≡ 0 → s ≡ []
empty_lem [] h = refl
empty_lem (x ∷ s) h = absurd (omega arith)

abbrev stored : List ℕ → ℕ × Writer → Writer
stored s r = record r.1 { seg = overwrite r.1.seg r.0 s }

stored-Extends :
    (s : List ℕ) (w : Writer) (r : ℕ × Writer) → Reserved (length s) w r → Extends w (stored s r)
stored-Extends s w r v =
    let x = v.extends in
    let valid = x.is_writer in
    record {
      on = x.on;
      cap = x.cap;
      ok = x.ok;
      kept = λ k n h.
          slice-overwrite_before r.1.seg r.0 s k n (omega (arith, h, v.apart)) ∙ x.kept k n h;
      is_writer = record {
        used = valid.used;
        within = valid.within;
        long = omega (arith, valid.long, length-overwrite r.1.seg r.0 s);
        word = valid.word;
      };
    }

stored-slice :
    (s : List ℕ) (w : Writer) (r : ℕ × Writer)
    → Reserved (length s) w r
    → slice (stored s r).seg r.0 (length s) ≡ s
stored-slice s w r v =
    let valid = v.extends.is_writer in
    slice-overwrite_self r.1.seg r.0 s (omega (arith, v.ends, valid.within, valid.long))

put_string_lem :
    (s : List ℕ) (w : Writer)
    → IsWriter w
    → length s < 2 ^ 32
    → Put s w (put_string s w) ⊎ Refused s w (put_string s w)
unfolding put_string Reads
put_string_lem s w v h =
    let n : u32 (length s) ≡ length s = omega arith in
    elim (Bool-cases (length s == 0)) [
      | inl nothing ↦
          rw (n, nothing)
            (inl record {
              extends = Extends-refl w v;
              reads = inl (refl, empty_lem s (ground (arith, nothing)));
              near = omega arith;
            })
      | inr more ↦ elim (reserve_lem (length s) w v) [
        | inl r ↦
            let apart : ((reserve (length s) w).0 == 0) ≡ false = ground (arith, r.apart, v.used) in
            rw (n, more, apart, take-length (length s) s (omega arith))
              (inl record {
                extends = stored-Extends s w (reserve (length s) w) r;
                reads = inr (
                  ground (arith, r.apart, v.used),
                  refl,
                  ground (arith, more),
                  omega (arith, r.ends),
                  stored-slice s w (reserve (length s) w) r,
                );
                near = omega (arith, r.ends, r.near);
              })
        | inr f ↦
            rw (n, more, f.zero) (inr record { told = refl; marked = f.marked; less = f.less })
      ]
    ]

-- A failure stays.
marked_lem : (bytes : ℕ) (w : Writer) → w.ok ≡ false → (reserve bytes w).1.ok ≡ false
unfolding reserve
marked_lem bytes w h = ground (arith, h)

put_string-marked : (s : List ℕ) (w : Writer) → w.ok ≡ false → (put_string s w).1.ok ≡ false
unfolding put_string
put_string-marked s w h = let r = marked_lem (u32 (length s)) w h in ground (arith, h, r)

put_strings-marked :
    (ss : List (List ℕ)) (w : Writer) → w.ok ≡ false → (put_strings ss w).1.ok ≡ false
unfolding put_strings
put_strings-marked [] w h = h
put_strings-marked (s ∷ ss) w h = put_strings-marked ss (put_string s w).1 (put_string-marked s w h)

-- Each string with the padding before the next one.
unfoldable pub space : List (List ℕ) → ℕ
space [] = 0
space (s ∷ ss) = (length s + 7) + space ss

unfoldable pub AllShort : List (List ℕ) → Type 0
AllShort [] = Unit
AllShort (s ∷ ss) = (length s < 2 ^ 32) × AllShort ss

-- The references and the strings agree one by one.
AllRead : List VarRef → List (List ℕ) → Writer → Type 0
AllRead [] [] w = Unit
AllRead [] (s ∷ ss) w = ⊥
AllRead (r ∷ rs) [] w = ⊥
AllRead (r ∷ rs) (s ∷ ss) w = Reads r s w × AllRead rs ss w

AllRead-as_string :
    (rs : List VarRef) (ss : List (List ℕ)) (w : Writer)
    → AllRead rs ss w
    → map (as_string (reader_of w)) rs ≡ ss
unfolding AllRead
AllRead-as_string [] [] w h = refl
AllRead-as_string [] (s ∷ ss) w h = elim h [ ]
AllRead-as_string (r ∷ rs) [] w h = elim h [ ]
AllRead-as_string (r ∷ rs) (s ∷ ss) w h =
    rw (Reads-as_string r s w h.0, AllRead-as_string rs ss w h.1) refl

put_strings_lem :
    (ss : List (List ℕ)) (w : Writer)
    → IsWriter w
    → AllShort ss
    → Extends w (put_strings ss w).1 × AllRead (put_strings ss w).0 ss (put_strings ss w).1
      ⊎ ((put_strings ss w).1.ok ≡ false) × (w.cap < w.cur + space ss)
unfolding put_strings AllShort AllRead space
put_strings_lem [] w v h = inl (Extends-refl w v, tt)
put_strings_lem (s ∷ ss) w v h = elim (put_string_lem s w v h.0) [
  | inr f ↦ inr (put_strings-marked ss (put_string s w).1 f.marked, omega (arith, f.less))
  | inl p ↦ elim (put_strings_lem ss (put_string s w).1 p.extends.is_writer h.1) [
    | inr g ↦ inr (g.0, omega (arith, g.1, p.near, p.extends.cap))
    | inl q ↦ inl (
      Extends-trans w (put_string s w).1 (put_strings ss (put_string s w).1).1 p.extends q.0,
      (
        Reads-Extends (put_string s w).0.0 s (put_string s w).1
            (put_strings ss (put_string s w).1).1 p.reads q.0,
        q.1,
      ),
    )
  ]
]

-- For a writer whose position is above 0 and inside its capacity, with a capacity below 2 ^ 32
-- and a segment that has the bytes of it: strings shorter than 2 ^ 32 that are put into the
-- segment one after the other are all read back as they were, by a reader of the finished
-- segment; or the writer is marked as failed, and the capacity was less than the strings take
-- with at most 7 bytes of padding each.
pub put_strings-as_string :
    (ss : List (List ℕ)) (w : Writer)
    → IsWriter w
    → AllShort ss
    → let r = put_strings ss w in
      (map (as_string (reader_of r.1)) r.0 ≡ ss) ⊎ ((r.1.ok ≡ false) × (w.cap < w.cur + space ss))
put_strings-as_string ss w v h = elim (put_strings_lem ss w v h) [
  | inl p ↦ inl (AllRead-as_string (put_strings ss w).0 ss (put_strings ss w).1 p.1)
  | inr f ↦ inr f
]
