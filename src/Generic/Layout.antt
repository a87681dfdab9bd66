-- ===== src/Generic/Layout.antt =====
-- Which bytes a field of a given type may hold, and that `deserialize` reads such a value back.
use cpp_ipc_dds.Common.{
  ℕ, suc, ◌+◌, ◌^◌, ◌≤◌, ◌<◌, ◌≡◌, refl, ap, subst, false, Option, some, List, [], ◌∷◌, ◌++◌, map,
  append-nil, append_assoc, arith, leb, ◌==◌, length, concat, length-append, le_bytes, of_le,
}
use cpp_ipc_dds.Framing.Stream.{framed, framed_len, length-framed}
use cpp_ipc_dds.Framing.Read.{Holds}
use cpp_ipc_dds.Control.Frames.{of_le-le_bytes}
use cpp_ipc_dds.Generic.{sized_bytes}
use cpp_ipc_dds.Generic.Parse.{
  no_room, no_room_elem, read_paged, read_bytes_paged, Shape, scalar, sized, array, sized_array,
  unknown, read_elems, sized_value, read_sized, read_sized_elems, counted, read_value,
}
use cpp_ipc_dds.Generic.Read.{read_paged_lem}

abbrev pub AllLength : ℕ → List (List ℕ) → Type 0
AllLength w [] = Unit
AllLength w (x ∷ xs) = (length x ≡ w) × AllLength w xs

abbrev pub AllSmall : List (List ℕ) → Type 0
AllSmall [] = Unit
AllSmall (x ∷ xs) = (length x < 2 ^ 31) × AllSmall xs

-- The layout of a value: its size, or a length and the bytes behind it, or a count and that many of
-- either.
abbrev pub Shaped : Shape → List ℕ → Type 0
Shaped (scalar w) d = length d ≡ w
Shaped sized d = (s : List ℕ) × (d ≡ sized_bytes s) × (length s < 2 ^ 31)
Shaped (array w) d =
    (es : List (List ℕ)) × (d ≡ le_bytes 4 (length es) ++ concat es)
    × (length es < 2 ^ 31)
    × AllLength w es
Shaped sized_array d =
    (ss : List (List ℕ)) × (d ≡ le_bytes 4 (length ss) ++ concat (map sized_bytes ss))
    × (length ss < 2 ^ 31)
    × AllSmall ss
Shaped unknown d = ⊥

module _ {t : ℕ → List ℕ} {buf : List ℕ} (few : length buf < 2 ^ 31) where
  pub Holds-room : (whole : List ℕ) → Holds t whole buf → framed_len (length whole) ≤ length buf
  Holds-room whole s = omega (
    arith,
    ap length s.is_stream,
    length-append (framed t 0 whole) s.behind,
    length-framed t 0 whole s.tails,
  )

  -- The bytes up to the end of `xs` lie in the buffer.
  pub room :
      (q xs after : List ℕ)
      → Holds t (q ++ (xs ++ after)) buf
      → framed_len (length q + length xs) ≤ length buf
  room q xs after s = omega (
    arith,
    Holds-room (q ++ (xs ++ after)) s,
    length-append q (xs ++ after),
    length-append xs after,
  )

  pub shift :
      (q xs after : List ℕ) → Holds t (q ++ (xs ++ after)) buf → Holds t ((q ++ xs) ++ after) buf
  shift q xs after s = rw append_assoc s

  pub read_at :
      (q xs after : List ℕ) (w : ℕ)
      → length xs ≡ w
      → Holds t (q ++ (xs ++ after)) buf
      → read_paged buf (length buf) w (framed_len (length q)) ≡ (xs, framed_len (length (q ++ xs)))
  read_at q xs after w e s =
      rw (← e, length-append) (read_paged_lem {t = t} q xs after (omega arith) s)

  pub read_bytes_at :
      (q xs after : List ℕ)
      → length xs < 2 ^ 31
      → Holds t (q ++ (xs ++ after)) buf
      → read_bytes_paged buf (length buf) (length xs) (framed_len (length q))
        ≡ (xs, framed_len (length (q ++ xs)))
  unfolding read_bytes_paged
  read_bytes_at q [] after h s = rw append-nil refl
  read_bytes_at q (x ∷ xs) after h s =
      let big : leb (2 ^ 31) (suc (length xs)) ≡ false = ground arith in
      let pos : (suc (length xs) == 0) ≡ false = ground arith in
      rw (big, pos) (read_at q (x ∷ xs) after _ refl s)

  pub no_room-false :
      (q xs after : List ℕ) (w : ℕ)
      → length xs ≡ w
      → Holds t (q ++ (xs ++ after)) buf
      → no_room (length buf) w (framed_len (length q)) ≡ false
  no_room-false q xs after w e s = ground (arith, room q xs after s)

  no_room_elem-false :
      (q xs after : List ℕ) (w : ℕ)
      → length xs ≡ w
      → Holds t (q ++ (xs ++ after)) buf
      → no_room_elem (length buf) w (framed_len (length q)) ≡ false
  no_room_elem-false q xs after w e s = ground (arith, room q xs after s)

  read_elems_lem :
      (w : ℕ) (es : List (List ℕ)) (q after : List ℕ)
      → AllLength w es
      → Holds t (q ++ (concat es ++ after)) buf
      → read_elems buf (length buf) w (length es) (framed_len (length q))
        ≡ some (concat es, framed_len (length (q ++ concat es)))
  unfolding read_elems
  read_elems_lem w [] q after h s = rw append-nil refl
  read_elems_lem w (e ∷ es) q after h s =
      let s' : Holds t (q ++ (e ++ (concat es ++ after))) buf =
        rw (← append_assoc e (concat es) after) s in
      rw
        (
          no_room_elem-false q e (concat es ++ after) w h.0 s',
          read_at q e (concat es ++ after) w h.0 s',
          read_elems_lem w es (q ++ e) after h.1 (shift q e (concat es ++ after) s'),
          append_assoc,
        )
        refl

  read_sized_lem :
      (x q after : List ℕ)
      → length x < 2 ^ 31
      → Holds t (q ++ (sized_bytes x ++ after)) buf
      → read_sized buf (length buf) (framed_len (length q))
        ≡ some (sized_bytes x, framed_len (length (q ++ sized_bytes x)))
  unfolding read_sized sized_value
  read_sized_lem x q after h s =
      let head : List ℕ = le_bytes 4 (length x) in
      let at_head : Holds t (q ++ (head ++ (x ++ after))) buf = s in
      let at_body : Holds t ((q ++ head) ++ (x ++ after)) buf = shift q head (x ++ after) at_head in
      let sz : of_le head ≡ length x = of_le-le_bytes 4 (length x) (omega arith) in
      let small : leb (2 ^ 31) (length x) ≡ false = ground arith in
      rw
        (
          no_room-false q head (x ++ after) 4 refl at_head,
          read_at q head (x ++ after) 4 refl at_head,
          sz,
          small,
          read_bytes_at (q ++ head) x after h at_body,
          append_assoc,
        )
        refl

  read_sized_elems_lem :
      (ss : List (List ℕ)) (q after : List ℕ)
      → AllSmall ss
      → Holds t (q ++ (concat (map sized_bytes ss) ++ after)) buf
      → read_sized_elems buf (length buf) (length ss) (framed_len (length q))
        ≡ some (concat (map sized_bytes ss), framed_len (length (q ++ concat (map sized_bytes ss))))
  unfolding read_sized_elems
  read_sized_elems_lem [] q after h s = rw append-nil refl
  read_sized_elems_lem (x ∷ ss) q after h s =
      let e : List ℕ = sized_bytes x in
      let es : List ℕ = concat (map sized_bytes ss) in
      let s' : Holds t (q ++ (e ++ (es ++ after))) buf = rw (← append_assoc e es after) s in
      rw
        (
          read_sized_lem x q (es ++ after) h.0 s',
          read_sized_elems,
          read_sized_elems_lem ss (q ++ e) after h.1 (shift q e (es ++ after) s'),
          append_assoc q e es,
        )
        refl

  -- A count `c` and the elements `es` behind it.
  counted_lem :
      (loop : ℕ → ℕ → Option (List ℕ × ℕ)) (c : ℕ) (q es after : List ℕ)
      → c < 2 ^ 31
      → Holds t (q ++ ((le_bytes 4 c ++ es) ++ after)) buf
      → (Holds t ((q ++ le_bytes 4 c) ++ (es ++ after)) buf
          → loop c (framed_len (length (q ++ le_bytes 4 c)))
            ≡ some (es, framed_len (length ((q ++ le_bytes 4 c) ++ es))))
      → (no_room (length buf) 4 (framed_len (length q)) ≡ false)
        × (counted loop (read_paged buf (length buf) 4 (framed_len (length q)))
            ≡ some (le_bytes 4 c ++ es, framed_len (length (q ++ (le_bytes 4 c ++ es)))))
  unfolding counted
  counted_lem loop c q es after h s body =
      let head : List ℕ = le_bytes 4 c in
      let at_head : Holds t (q ++ (head ++ (es ++ after))) buf = s in
      let sz : of_le head ≡ c = of_le-le_bytes 4 c (omega arith) in
      let small : leb (2 ^ 31) c ≡ false = ground arith in
      (
        no_room-false q head (es ++ after) 4 refl at_head,
        rw
            (
              read_at q head (es ++ after) 4 refl at_head,
              sz,
              small,
              body (shift q head (es ++ after) at_head),
              append_assoc,
            )
            refl,
      )

  -- A value of the layout that its type wants is read as it stands in the stream.
  pub read_value_lem :
      (k : Shape) (d q after : List ℕ)
      → Shaped k d
      → Holds t (q ++ (d ++ after)) buf
      → read_value buf (length buf) k (framed_len (length q))
        ≡ some (d, framed_len (length (q ++ d)))
  unfolding read_value
  read_value_lem (scalar w) d q after h s =
      rw (no_room-false q d after w h s, read_at q d after w h s) refl
  read_value_lem sized d q after (x, e, small) s = rw e (read_sized_lem x q after small (rw e at s))
  read_value_lem (array w) d q after (es, e, small, sizes) s =
      let s' : Holds t (q ++ ((le_bytes 4 (length es) ++ concat es) ++ after)) buf =
        subst (λ d. Holds t (q ++ (d ++ after)) buf) e s in
      let r =
        counted_lem (read_elems buf (length buf) w) (length es) q (concat es) after small s'
          (read_elems_lem w es (q ++ le_bytes 4 (length es)) after sizes) in
      rw (e, r.0) (r.1)
  read_value_lem sized_array d q after (ss, e, small, sizes) s =
      let s' : Holds t (q ++ ((le_bytes 4 (length ss) ++ concat (map sized_bytes ss)) ++ after))
          buf =
        subst (λ d. Holds t (q ++ (d ++ after)) buf) e s in
      let r =
        counted_lem (read_sized_elems buf (length buf)) (length ss) q (concat (map sized_bytes ss))
          after small s' (read_sized_elems_lem ss (q ++ le_bytes 4 (length ss)) after sizes) in
      rw (e, r.0) (r.1)
  read_value_lem unknown d q after h s = absurd h
