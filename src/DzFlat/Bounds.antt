-- ===== src/DzFlat/Bounds.antt =====
-- What a reader takes from a segment lies inside it, whatever the segment says.
use native.Mathlib.Nat.{le-div_iff_mul-le, mul-le-mul_right}
use cpp_ipc_dds.Common.{
  ℕ, suc, ◌+◌, ◌-◌, ◌*◌, ◌/◌, ◌≤◌, ◌<◌, ◌≡◌, refl, ◌⊎◌, inl, inr, true, some, [], arith, leb, ◌==◌,
  Bool-cases, length, length-slice,
}
use cpp_ipc_dds.DzFlat.{Reader, VarRef, in_bounds, as_span, elem_at}

in_bounds_lem :
    (rd : Reader) (off cnt stride : ℕ)
    → 0 < stride
    → in_bounds rd off cnt stride ≡ true
    → (0 < off) × (off + cnt * stride ≤ rd.size)
unfolding in_bounds
in_bounds_lem rd off cnt stride pos h =
    let apart : 0 < off = ground (arith, h) in
    let inside : off < rd.size = ground (arith, h) in
    let few : cnt ≤ (rd.size - off) / stride = ground (arith, h) in
    let room : cnt * stride ≤ rd.size - off = (le-div_iff_mul-le pos).0 few in (apart, omega arith)

-- For any `VarRef`, also one that another process made up: the bytes that `as_span` gives are none, or
-- as many as the elements take, from a region inside the segment.
pub as_span_bounds :
    (rd : Reader) (stride : ℕ) (r : VarRef)
    → 0 < stride
    → rd.size ≤ length rd.seg
    → (as_span rd stride r ≡ [])
      ⊎ ((length (as_span rd stride r) ≡ r.cnt * stride) × (r.off + r.cnt * stride ≤ rd.size))
unfolding as_span
as_span_bounds rd stride r pos h = elim (Bool-cases (r.cnt == 0)) [
  | inl nothing ↦ rw nothing (inl refl)
  | inr more ↦ elim (Bool-cases (in_bounds rd r.off r.cnt stride)) [
    | inr outside ↦ rw (more, outside) (inl refl)
    | inl inside ↦
        let fits = (in_bounds_lem rd r.off r.cnt stride pos inside).1 in
        rw (more, inside)
          (inr (length-slice rd.seg r.off (r.cnt * stride) (omega (arith, fits, h)), fits))
  ]
]

-- For any `VarRef`, index and element size above 0, an element that `elem_at` gives lies inside
-- the segment, behind its first byte.
pub elem_at_bounds :
    (rd : Reader) (stride : ℕ) (r : VarRef) (i o : ℕ)
    → 0 < stride
    → elem_at rd stride r i ≡ some o
    → (0 < o) × (o + stride ≤ rd.size)
unfolding elem_at
elem_at_bounds rd stride r i o pos h = elim (Bool-cases (leb r.cnt i)) [
  | inl behind ↦ absurd (ground (arith, rw behind at h))
  | inr before ↦ elim (Bool-cases (in_bounds rd r.off r.cnt stride)) [
    | inr outside ↦ absurd (ground (arith, rw (before, outside) at h))
    | inl inside ↦
        let e : r.off + i * stride ≡ o = ground (arith, rw (before, inside) at h) in
        let fits = in_bounds_lem rd r.off r.cnt stride pos inside in
        let lt : suc i ≤ r.cnt = ground (arith, before) in
        let below : suc i * stride ≤ r.cnt * stride = mul-le-mul_right stride lt in
        grind (arith, e, fits, below)
  ]
]
