-- ===== src/Generic/Halts.antt =====
-- `deserialize` ends on any bytes: each round of its loop stops or moves the offset on.
use cpp_ipc_dds.Common.{
  ℕ, zero, suc, ◌+◌, ◌-◌, ◌%◌, ◌^◌, ◌≤◌, ◌<◌, ◌≡◌, refl, subst, ◌≢◌, inl, inr, Bool, true, false,
  ◌||◌, Option, none, some, List, [], ◌∷◌, ◌++◌, arith, ltb, leb, ◌==◌, Bool-cases, length, u32,
  of_le,
}
use cpp_ipc_dds.Generic.{FieldEntry}
use cpp_ipc_dds.Generic.Parse.{
  read_paged, Shape, scalar, sized, array, sized_array, unknown, shape_of, no_room, read_value,
  field_with, read_typed, read_named, read_sized_name, read_field, read_loop, deserialize,
}
use cpp_ipc_dds.Generic.Moves.{
  Within, Ahead, width, shape_of-width, read_paged_moves, read_bytes_paged_moves, read_elems-Ahead,
  read_sized-Ahead, read_sized_elems-Ahead, counted-Ahead,
}

module _ (buf : List ℕ) (n : ℕ) (few : n < 2 ^ 31 - 12) where
  read_value-Ahead :
      (k : Shape) (offset : ℕ)
      → width k < 2 ^ 31
      → offset ≤ n + 12
      → Ahead n offset (read_value buf n k offset)
  unfolding read_value
  read_value-Ahead (scalar w) offset small h = elim (Bool-cases (no_room n w offset)) [
    | inl full ↦ rw full tt
    | inr fits ↦ rw fits (read_paged_moves buf n few w offset small h).0
  ]
  read_value-Ahead sized offset small h = read_sized-Ahead buf n few offset h
  read_value-Ahead (array w) offset small h = elim (Bool-cases (no_room n 4 offset)) [
    | inl full ↦ rw full tt
    | inr fits ↦
        rw fits
          (counted-Ahead buf n few _ offset h (λ c o at. read_elems-Ahead buf n few w c o small at))
  ]
  read_value-Ahead sized_array offset small h = elim (Bool-cases (no_room n 4 offset)) [
    | inl full ↦ rw full tt
    | inr fits ↦
        rw fits
          (counted-Ahead buf n few _ offset h (λ c o at. read_sized_elems-Ahead buf n few c o at))
  ]
  read_value-Ahead unknown offset small h = tt

  field_with-Ahead :
      (name : List ℕ) (k offset o : ℕ) (r : Option (List ℕ × ℕ))
      → Within n offset o
      → Ahead n o r
      → Ahead n offset (field_with name k r)
  field_with-Ahead name k offset o none at h = tt
  field_with-Ahead name k offset o (some (v, o')) at h = (omega arith, h.1)

  read_named-Ahead :
      (name : List ℕ) (offset o : ℕ)
      → Within n offset o
      → Ahead n offset (read_named buf n (name, o))
  unfolding read_named read_typed
  read_named-Ahead name offset o at =
      let t = read_paged_moves buf n few 1 o (omega arith) at.1 in
      let kind : ℕ = of_le (read_paged buf n 1 o).0 in
      elim (Bool-cases (ltb n (u32 (o + 1)))) [
        | inl full ↦ rw full tt
        | inr fits ↦ rw fits (
            field_with-Ahead name kind offset _ _ (omega (arith, t.0), t.0.1)
              (read_value-Ahead (shape_of kind) _ (shape_of-width kind) t.0.1))
      ]

  -- A field is read from behind its offset: its name is not empty.
  read_field_past : (offset : ℕ) → offset ≤ n + 12 → Ahead n (suc offset) (read_field buf n offset)
  unfolding read_field read_sized_name
  read_field_past offset h =
      let v = read_paged_moves buf n few 4 offset (omega arith) h in
      let size : ℕ = of_le (read_paged buf n 4 offset).0 in
      let o : ℕ = (read_paged buf n 4 offset).1 in
      let name = read_bytes_paged_moves buf n few size o v.0.1 in
      elim (Bool-cases (ltb n (u32 (offset + 4)))) [
        | inl full ↦ rw full tt
        | inr fits ↦
            rw fits (elim (Bool-cases (size == 0 || leb (2 ^ 31) size || ltb n (u32 (o + size)))) [
              | inl stop ↦ rw stop tt
              | inr go ↦
                  let pos : size ≢ 0 = λ e. ground (arith, e, go) in
                  let moved : o ≢ offset = λ e. pos (v.1 e) in
                  rw go
                    (read_named-Ahead _ (suc offset) _ (omega (arith, v.0, name, moved), name.1))
            ])
      ]

  read_loop_ends :
      (fuel offset : ℕ) (fields : List FieldEntry)
      → offset ≤ n + 12
      → n < offset + 11 + fuel
      → 0 < fuel
      → (fs : List FieldEntry) × (read_loop fuel buf n offset fields ≡ some fs)
  unfolding read_loop
  read_loop_ends zero offset fields at enough pos = absurd (omega arith)
  read_loop_ends (suc fuel) offset fields at enough pos =
      cases (ltb (u32 (offset + 12)) n) (leb 1460 (offset % 1472)) (read_field buf n offset)
        (λ more tail.
          let open_end : offset + 12 < n = ground (arith, more, few) in
          let in_tail : 1460 ≤ offset % 1472 = ground (arith, tail) in
          let on : u32 (offset + (1472 - offset % 1472)) ≡ offset + (1472 - offset % 1472) =
            omega (arith, few) in
          read_loop_ends fuel (u32 (offset + (1472 - offset % 1472))) fields (omega arith)
            (omega arith) (omega arith))
        (λ more f o e.
          let open_end : offset + 12 < n = ground (arith, more, few) in
          let past : Ahead n (suc offset) (some (f, o)) =
            subst (λ r. Ahead n (suc offset) r) e (read_field_past offset at) in
          read_loop_ends fuel o (fields ++ f ∷ []) past.1 (omega (arith, past)) (omega arith))
    where
      cases :
          (more tail : Bool) (r : Option (FieldEntry × ℕ))
          → (more ≡ true
              → tail ≡ true
              → (fs : List FieldEntry) × (read_loop fuel buf n
                    (u32 (offset + (1472 - offset % 1472)))
                    fields
                  ≡ some fs))
          → (more ≡ true
              → (f : FieldEntry) (o : ℕ) → r ≡ some (f, o)
              → (fs : List FieldEntry) × (read_loop fuel buf n o (fields ++ f ∷ []) ≡ some fs))
          → (fs : List FieldEntry) × ((elim more [
            | false ↦ some fields
            | true ↦ elim tail [
              | true ↦ read_loop fuel buf n (u32 (offset + (1472 - offset % 1472))) fields
              | false ↦ elim r [
                | none ↦ some fields
                | some (f, offset') ↦ read_loop fuel buf n offset' (fields ++ f ∷ [])
              ]
            ]
          ])
              ≡ some fs)
      cases false tail r skip field = (fields, refl)
      cases true true r skip field = skip refl refl
      cases true false none skip field = (fields, refl)
      cases true false (some (f, o)) skip field = field refl f o refl

-- On any bytes, `deserialize` ends, with some fields.
pub deserialize_ends :
    (buf : List ℕ) → length buf < 2 ^ 31 - 12 → (fs : List FieldEntry) × (deserialize buf ≡ some fs)
unfolding deserialize
deserialize_ends buf few =
    let fits : length buf % 2 ^ 32 ≡ length buf = omega (arith, few) in
    elim (Bool-cases (ltb (length buf) 12)) [
      | inl short ↦ rw short ([], refl)
      | inr long ↦
          let twelve : 12 ≤ length buf = ground (arith, long) in
          rw (long, fits)
            (read_loop_ends buf (length buf) few (length buf) 0 [] (omega arith) (omega arith)
              (omega arith))
    ]
