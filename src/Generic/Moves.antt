-- ===== src/Generic/Moves.antt =====
-- The reads of `deserialize` move the offset on, and not behind the end of the buffer with a tail.
use cpp_ipc_dds.Common.{
  ℕ, zero, suc, ◌+◌, ◌-◌, ◌*◌, ◌/◌, ◌%◌, ◌^◌, ◌≤◌, ◌<◌, min, ◌≡◌, refl, inl, inr, ◌&&◌, ◌||◌,
  Option, none, some, List, [], ◌++◌, arith, ltb, leb, ◌==◌, Bool-cases, length, replicate, slice,
  u32, of_le,
}
use cpp_ipc_dds.Generic.Parse.{
  paged_cut, paged_rest, read_paged, read_bytes_paged, Shape, scalar, sized, array, sized_array,
  unknown, shape_of, behind, no_room, no_room_elem, read_elems, sized_value, read_sized,
  read_sized_elems, counted,
}

of_le-zeros : (k : ℕ) → of_le (replicate k 0) ≡ 0
of_le-zeros zero = refl
of_le-zeros (suc k) = omega (arith, of_le-zeros k)

-- An offset behind `offset`, at most a tail behind the end.
abbrev pub Within : ℕ → ℕ → ℕ → Type 0
Within n offset o = (offset ≤ o) × (o ≤ n + 12)

-- The same for the offset of a result, if there is one.
abbrev pub Ahead {ℓ} : {A : Type ℓ} → ℕ → ℕ → Option (A × ℕ) → Type 0
Ahead n offset none = Unit
Ahead n offset (some (x, o)) = (offset ≤ o) × (o ≤ n + 12)

-- The size of the scalars of a shape.
abbrev pub width : Shape → ℕ
width (scalar w) = w
width sized = 1
width (array w) = w
width sized_array = 1
width unknown = 1

pub shape_of-width : (k : ℕ) → width (shape_of k) < 2 ^ 31
unfolding shape_of
shape_of-width k = ground arith

behind-Ahead :
    (n offset o : ℕ) (xs : List ℕ) (r : Option (List ℕ × ℕ))
    → Within n offset o
    → Ahead n o r
    → Ahead n offset (behind xs r)
behind-Ahead n offset o xs none at h = tt
behind-Ahead n offset o xs (some (ys, o')) at h = (omega arith, h.1)

module _ (buf : List ℕ) (n : ℕ) (few : n < 2 ^ 31 - 12) where
  -- The loop moves on, or has done nothing.
  paged_cut_moves :
      (len cut pure : ℕ) (dst : List ℕ) (offset : ℕ)
      → offset ≤ n + 12
      → Within n offset (paged_cut buf n len cut pure dst offset).1
        × ((paged_cut buf n len cut pure dst offset).1 ≡ offset
            → (paged_cut buf n len cut pure dst offset).0 ≡ dst)
  unfolding paged_cut
  paged_cut_moves len zero pure dst offset h = ((omega arith, h), λ _. refl)
  paged_cut_moves len (suc cut) pure dst offset h =
      let copy : ℕ = min (1460 - pure % 1460) (len - length dst) in
      elim (Bool-cases (ltb n (u32 (offset + copy)))) [
        | inl stop ↦ rw stop ((omega arith, h), λ _. refl)
        | inr go ↦
            let fits : u32 (offset + copy) ≤ n = ground (arith, go) in
            let on : u32 (offset + copy + 12) ≡ offset + copy + 12 = omega (arith, few) in
            let moved =
              paged_cut_moves len cut (u32 (pure + copy)) (dst ++ slice buf offset copy)
                (u32 (offset + copy + 12)) (omega (arith, few)) in
            rw go ((omega (arith, moved.0), moved.0.1), λ e. absurd (omega (arith, moved.0)))
      ]

  paged_rest_moves :
      (len : ℕ) (offset o : ℕ) (dst : List ℕ)
      → len < 2 ^ 31
      → Within n offset o
      → (o ≡ offset → dst ≡ [])
      → Within n offset (paged_rest buf n len (dst, o)).1
        × ((paged_rest buf n len (dst, o)).1 ≡ offset → of_le (paged_rest buf n len (dst, o)).0 ≡ 0)
  unfolding paged_rest
  paged_rest_moves len offset o dst small at same =
      let left : ℕ = len - length dst in
      elim (Bool-cases (ltb 0 left && leb (u32 (o + left)) n)) [
        | inl fits ↦
            let some_left : 0 < left = ground (arith, fits) in
            let on : u32 (o + left) ≤ n = ground (arith, fits) in
            let exact : u32 (o + left) ≡ o + left = omega (arith, few) in
            rw fits ((omega arith, omega arith), λ e. absurd (omega arith))
        | inr stop ↦ rw stop (at, λ e. rw (same e) (of_le-zeros _))
      ]

  pub read_paged_moves :
      (len offset : ℕ)
      → len < 2 ^ 31
      → offset ≤ n + 12
      → Within n offset (read_paged buf n len offset).1
        × ((read_paged buf n len offset).1 ≡ offset → of_le (read_paged buf n len offset).0 ≡ 0)
  unfolding read_paged
  read_paged_moves len offset small h =
      let m = paged_cut_moves len _ (offset - offset / 1472 * 12) [] offset h in
      paged_rest_moves len offset _ _ small m.0 m.1

  pub read_bytes_paged_moves :
      (size offset : ℕ) → offset ≤ n + 12 → Within n offset (read_bytes_paged buf n size offset).1
  unfolding read_bytes_paged
  read_bytes_paged_moves size offset h = elim (Bool-cases (size == 0 || leb (2 ^ 31) size)) [
    | inl none_read ↦ rw none_read (omega arith, h)
    | inr some_read ↦ rw some_read (read_paged_moves size offset (ground (arith, some_read)) h).0
  ]

  pub read_elems-Ahead :
      (w count offset : ℕ)
      → w < 2 ^ 31
      → offset ≤ n + 12
      → Ahead n offset (read_elems buf n w count offset)
  unfolding read_elems
  read_elems-Ahead w zero offset small h = (omega arith, h)
  read_elems-Ahead w (suc count) offset small h =
      let v = read_paged_moves w offset small h in
      elim (Bool-cases (no_room_elem n w offset)) [
        | inl full ↦ rw full tt
        | inr fits ↦ rw fits (
            behind-Ahead n offset _ _ _ v.0
              (read_elems-Ahead w count (read_paged buf n w offset).1 small v.0.1))
      ]

  pub read_sized-Ahead : (offset : ℕ) → offset ≤ n + 12 → Ahead n offset (read_sized buf n offset)
  unfolding read_sized sized_value
  read_sized-Ahead offset h =
      let v = read_paged_moves 4 offset (omega arith) h in
      let size : ℕ = of_le (read_paged buf n 4 offset).0 in
      let body = read_bytes_paged_moves size (read_paged buf n 4 offset).1 v.0.1 in
      elim (Bool-cases (no_room n 4 offset)) [
        | inl full ↦ rw full tt
        | inr fits ↦ rw fits (elim (Bool-cases (leb (2 ^ 31) size)) [
          | inl negative ↦ rw negative tt
          | inr positive ↦ rw positive (omega (arith, v.0, body), body.1)
        ])
      ]

  pub read_sized_elems-Ahead :
      (count offset : ℕ) → offset ≤ n + 12 → Ahead n offset (read_sized_elems buf n count offset)
  unfolding read_sized_elems
  read_sized_elems-Ahead zero offset h = (omega arith, h)
  read_sized_elems-Ahead (suc count) offset h =
      next (read_sized buf n offset) (read_sized-Ahead offset h)
        (λ o at. read_sized_elems-Ahead count o at)
    where
      next :
          (r : Option (List ℕ × ℕ))
          → Ahead n offset r
          → ((o : ℕ) → o ≤ n + 12 → Ahead n o (read_sized_elems buf n count o))
          → Ahead n offset (elim r [
            | none ↦ none
            | some (v, offset') ↦ behind v (read_sized_elems buf n count offset')
          ])
      next none at ih = tt
      next (some (v, o)) at ih = behind-Ahead n offset o v _ at (ih o at.1)

  pub counted-Ahead :
      (loop : ℕ → ℕ → Option (List ℕ × ℕ)) (offset : ℕ)
      → offset ≤ n + 12
      → ((c o : ℕ) → o ≤ n + 12 → Ahead n o (loop c o))
      → Ahead n offset (counted loop (read_paged buf n 4 offset))
  unfolding counted
  counted-Ahead loop offset h each =
      let v = read_paged_moves 4 offset (omega arith) h in
      let count : ℕ = of_le (read_paged buf n 4 offset).0 in
      elim (Bool-cases (leb (2 ^ 31) count)) [
        | inl negative ↦ rw negative tt
        | inr positive ↦
            rw positive
              (behind-Ahead n offset _ _ _ v.0 (each count (read_paged buf n 4 offset).1 v.0.1))
      ]
