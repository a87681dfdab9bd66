-- ===== src/DzFlat/Append.antt =====
-- `reserve` gives a region of its own, and changes nothing that was written before.
use cpp_ipc_dds.Common.{
  ℕ, ◌+◌, ◌-◌, ◌%◌, ◌^◌, ◌≤◌, ◌<◌, ◌≡◌, refl, ◌∙◌, ◌⊎◌, inl, inr, false, ◌||◌, List, arith, ltb,
  Bool-cases, length, replicate, slice, length-overwrite, slice-overwrite_before,
}
use cpp_ipc_dds.DzFlat.{align_up, Writer, reserve}

-- The segment has the bytes of its capacity, and a byte is in use.
pub record IsWriter (w : Writer) : Type 0 where
  pub used : 0 < w.cur
  pub within : w.cur ≤ w.cap
  pub long : w.cap ≤ length w.seg
  pub word : w.cap < 2 ^ 32

-- The bytes in use stay as they are, and the position does not go back.
pub record Extends (w w' : Writer) : Type 0 where
  pub on : w.cur ≤ w'.cur
  pub cap : w'.cap ≡ w.cap
  pub ok : w'.ok ≡ w.ok
  pub kept : (k n : ℕ) → k + n ≤ w.cur → slice w'.seg k n ≡ slice w.seg k n
  pub is_writer : IsWriter w'

-- A region of `bytes` bytes, aligned, between the old position and the new one.
pub record Reserved (bytes : ℕ) (w : Writer) (r : ℕ × Writer) : Type 0 where
  pub extends : Extends w r.1
  pub apart : w.cur ≤ r.0
  pub near : r.0 ≤ w.cur + 7
  pub aligned : r.0 % 8 ≡ 0
  pub ends : r.1.cur ≡ r.0 + bytes

-- A refusal: 0, the mark, and less room than the bytes take with their padding.
pub record Full (bytes : ℕ) (w : Writer) (r : ℕ × Writer) : Type 0 where
  pub zero : r.0 ≡ 0
  pub marked : r.1.ok ≡ false
  pub less : w.cap < w.cur + (bytes + 7)

-- `reserve` gives such a region, or it refuses.
pub reserve_lem :
    (bytes : ℕ) (w : Writer)
    → IsWriter w
    → Reserved bytes w (reserve bytes w) ⊎ Full bytes w (reserve bytes w)
unfolding reserve
reserve_lem bytes w v =
    elim (Bool-cases
      (ltb (align_up w.cur) w.cur || (ltb w.cap bytes || ltb (w.cap - bytes) (align_up w.cur)))) [
        | inl full ↦
            let w32 : w.cap < 2 ^ 32 = v.word in
            let c : w.cur ≤ w.cap = v.within in
            let short : w.cap < w.cur + (bytes + 7) = ground (arith, full, w32, c) in
            rw full (inr record { zero = refl; marked = refl; less = short })
        | inr room ↦
            let start : w.cur ≤ align_up w.cur = ground (arith, room) in
            let fits : align_up w.cur + bytes ≤ w.cap = ground (arith, room) in
            rw room (
              inl record {
                extends = elim (Bool-cases (ltb w.cur (align_up w.cur))) [
                  | inl pad ↦
                      let zeros : List ℕ = replicate (align_up w.cur - w.cur) 0 in
                      rw pad record {
                        on = omega arith;
                        cap = refl;
                        ok = refl;
                        kept = λ k n h. slice-overwrite_before w.seg w.cur zeros k n h;
                        is_writer = record {
                          used = omega (arith, v.used);
                          within = fits;
                          long = omega (arith, v.long, length-overwrite w.seg w.cur zeros);
                          word = v.word;
                        };
                      }
                  | inr same ↦ rw same record {
                    on = omega arith;
                    cap = refl;
                    ok = refl;
                    kept = λ k n h. refl;
                    is_writer = record {
                      used = omega (arith, v.used);
                      within = fits;
                      long = v.long;
                      word = v.word;
                    };
                  }
                ];
                apart = start;
                near = omega arith;
                aligned = omega arith;
                ends = refl;
              })
      ]

pub Extends-trans : (u v w : Writer) → Extends u v → Extends v w → Extends u w
Extends-trans u v w a b = record {
  on = omega (arith, a.on, b.on);
  cap = b.cap ∙ a.cap;
  ok = b.ok ∙ a.ok;
  kept = λ k n h. b.kept k n (omega (arith, a.on)) ∙ a.kept k n h;
  is_writer = b.is_writer;
}

pub Extends-refl : (w : Writer) → IsWriter w → Extends w w
Extends-refl w v = record {
  on = omega arith;
  cap = refl;
  ok = refl;
  kept = λ k n h. refl;
  is_writer = v;
}
