-- ===== src/Control/NackList.antt =====
-- The two NACKs: the pages that a receiver reports as missing are those that the sender reads.
use cpp_ipc_dds.Common.{
  ℕ, zero, suc, ◌+◌, ◌-◌, ◌*◌, ◌^◌, ◌≤◌, ◌<◌, min, ◌≡◌, refl, sym, ap, ◌∙◌, subst, false, List, [],
  ◌∷◌, ◌++◌, map, append-nil, arith, dec_lt, ltb, if◌then◌else◌, lt→ltb, le→ltb, length, get_or,
  take, replicate, concat, length-take, take-length, nil_of_length, u16, le_bytes, of_le,
}
use cpp_ipc_dds.Framing.{Cursor}
use cpp_ipc_dds.Framing.RoundTrip.{lengths}
use cpp_ipc_dds.Control.Window.{IsWindow}
use cpp_ipc_dds.Control.{
  serialize_message, read_fields, start, Ident, ident_fields, Nack, nack_msg_id, serialize_nack,
  deserialize_nack, NackBitmap, nack_bitmap_msg_id, map_bytes_of, serialize_nack_bitmap,
  deserialize_nack_bitmap,
}
use cpp_ipc_dds.Control.Frames.{
  Allocates, of_le-le_bytes, length-serialize_message, read_fields-serialize_message,
}
use cpp_ipc_dds.Control.RoundTrip.{IsIdent, read_ident-ident_fields}

-- Page numbers in the range of uint16_t.
abbrev pub ArePages : List ℕ → Type 0
ArePages [] = Unit
ArePages (x ∷ xs) = (x < 2 ^ 16) × ArePages xs

ArePages-take : (n : ℕ) (xs : List ℕ) → ArePages xs → ArePages (take n xs)
ArePages-take zero xs h = tt
ArePages-take (suc n) [] h = tt
ArePages-take (suc n) (x ∷ xs) h = (h.0, ArePages-take n xs h.1)

page_bytes : (xs : List ℕ) → length (concat (map (le_bytes 2) xs)) ≡ length xs * 2
page_bytes [] = refl
page_bytes (x ∷ xs) = omega (arith, page_bytes xs)

page_lengths : (xs : List ℕ) → lengths (map (le_bytes 2) xs) ≡ replicate (length xs) 2
page_lengths [] = refl
page_lengths (x ∷ xs) = ap (λ (r : List ℕ). 2 ∷ r) (page_lengths xs)

pages_read : (xs : List ℕ) → ArePages xs → map of_le (map (le_bytes 2) xs) ≡ xs
pages_read [] h = refl
pages_read (x ∷ xs) h = rw (of_le-le_bytes 2 x h.0, pages_read xs h.1) refl

-- A NACK with the page numbers `xs`.
nack_of :
    (malloc : ℕ → List ℕ) (i : Ident) (xs : List ℕ) (n : ℕ)
    → Allocates malloc
    → IsIdent i
    → ArePages xs
    → length xs ≡ n
    → n ≤ 256
    → deserialize_nack (
        serialize_message malloc nack_msg_id
          (20 + n * 2)
          (ident_fields i ++ (le_bytes 2 n ∷ map (le_bytes 2) xs)))
      ≡ record { ident = i; missing_pages = xs }
unfolding deserialize_nack
nack_of malloc i xs n fresh s pages e few =
    rw
      (
        read_fields-serialize_message malloc fresh nack_msg_id (20 + n * 2) fs sum (omega arith) []
            (ident_fields i ++ (le_bytes 2 n ∷ [])) (map (le_bytes 2) xs) start refl refl,
        of_le-le_bytes 2 n (omega arith),
        clamp,
        ← e,
        ← page_lengths xs,
        e,
        read_fields-serialize_message malloc fresh nack_msg_id (20 + n * 2) fs sum (omega arith)
            (ident_fields i ++ (le_bytes 2 n ∷ [])) (map (le_bytes 2) xs) []
            (record { offset = 20; overflow = false }) (sym (append-nil fs)) refl,
        pages_read xs pages,
      )
      (ap (λ (x : Ident). record { ident = x; missing_pages = xs })
        (read_ident-ident_fields i [] s))
  where
    fs : List (List ℕ)
    fs = ident_fields i ++ (le_bytes 2 n ∷ map (le_bytes 2) xs)

    sum : 20 + n * 2 ≡ length (concat fs)
    sum = omega (arith, e, page_bytes xs)

    clamp : min n 256 ≡ n
    clamp = omega arith

take-min : (n : ℕ) (xs : List ℕ) → take (min (length xs) n) xs ≡ take n xs
take-min zero xs = let none_taken : min (length xs) 0 ≡ 0 = omega arith in rw none_taken refl
take-min (suc n) [] = let none_left : min 0 (suc n) ≡ 0 = omega arith in rw none_left refl
take-min (suc n) (x ∷ xs) =
    let next : min (suc (length xs)) (suc n) ≡ suc (min (length xs) n) = omega arith in
    rw next (ap (λ (r : List ℕ). x ∷ r) (take-min n xs))

-- From a NACK the sender reads the first 256 of the pages that the receiver lists: all of them, if
-- there are no more.
pub deserialize_nack-serialize_nack :
    (malloc : ℕ → List ℕ) (m : Nack)
    → Allocates malloc
    → IsIdent m.ident
    → ArePages m.missing_pages
    → deserialize_nack (serialize_nack malloc m)
      ≡ record m { missing_pages = take 256 m.missing_pages }
unfolding serialize_nack
deserialize_nack-serialize_nack malloc m fresh s pages =
    nack_of malloc m.ident (take (min (length m.missing_pages) 256) m.missing_pages)
      (min (length m.missing_pages) 256) fresh s
      (ArePages-take (min (length m.missing_pages) 256) m.missing_pages pages)
      (omega (arith, length-take (min (length m.missing_pages) 256) m.missing_pages)) (omega arith)
    ∙ ap (λ (xs : List ℕ). record { ident = m.ident; missing_pages = xs })
        (take-min 256 m.missing_pages)

-- A bitmap NACK with the bitmap `bm`.
bitmap_of :
    (malloc : ℕ → List ℕ) (i : Ident) (base n : ℕ) (bm : List ℕ) (maps : List (List ℕ))
    (old : NackBitmap)
    → Allocates malloc
    → IsIdent i
    → base < 2 ^ 16
    → length bm ≡ n
    → n ≤ 1437
    → concat maps ≡ bm
    → (1 ≤ n → maps ≡ bm ∷ [])
    → let buf =
        serialize_message malloc nack_bitmap_msg_id
          (22 + n)
          (ident_fields i ++ (le_bytes 2 base ∷ le_bytes 2 n ∷ maps)) in
      (length buf ≤ 1472)
      × (deserialize_nack_bitmap old buf
          ≡ record { ident = i; base_page = base; bit_cnt = n * 8; bitmap = bm })
unfolding deserialize_nack_bitmap
bitmap_of malloc i base n bm maps old fresh s h e few c filled = (
  omega (arith, size),
  rw
      (
        read_fields-serialize_message malloc fresh nack_bitmap_msg_id (22 + n) fs sum (omega arith)
            [] (ident_fields i ++ (le_bytes 2 base ∷ le_bytes 2 n ∷ [])) maps start refl refl,
        of_le-le_bytes 2 base h,
        of_le-le_bytes 2 n (omega arith),
        size,
        le→ltb (34 + n) 34 (omega arith),
        taken,
        bits,
        map_read,
      )
      (ap (λ (x : Ident). record { ident = x; base_page = base; bit_cnt = n * 8; bitmap = bm })
        (read_ident-ident_fields i [] s)),
)
  where
    fs : List (List ℕ)
    fs = ident_fields i ++ (le_bytes 2 base ∷ le_bytes 2 n ∷ maps)

    sum : 22 + n ≡ length (concat fs)
    sum = omega (arith, e, ap length c)

    size : length (serialize_message malloc nack_bitmap_msg_id (22 + n) fs) ≡ 34 + n
    size = omega (
      arith,
      length-serialize_message malloc fresh nack_bitmap_msg_id (22 + n) fs sum (omega arith),
    )

    taken : min (min n (34 + n - 22 - 12)) 1437 ≡ n
    taken = omega arith

    bits : u16 (n * 8) ≡ n * 8
    bits = omega arith

    one_read :
        1 ≤ n
        → (read_fields
            (serialize_message malloc nack_bitmap_msg_id (22 + n) fs)
            (n ∷ [])
            (record { offset = 22; overflow = false })).0
          ≡ bm ∷ []
    one_read some_bits =
        subst
          (λ (k : ℕ).
            (read_fields (serialize_message malloc nack_bitmap_msg_id (22 + n) fs) (k ∷ [])
              (record { offset = 22; overflow = false })).0
            ≡ bm ∷ [])
          e
          (ap (λ (r : List (List ℕ) × Cursor). r.0)
            (read_fields-serialize_message malloc fresh nack_bitmap_msg_id (22 + n) fs sum
              (omega arith) (ident_fields i ++ (le_bytes 2 base ∷ le_bytes 2 n ∷ [])) (bm ∷ []) []
              (record { offset = 22; overflow = false })
              (ap (λ (x : List (List ℕ)). ident_fields i ++ (le_bytes 2 base ∷ le_bytes 2 n ∷ x))
                (filled some_bits))
              refl))

    map_read :
        (if ltb 0 n
          then get_or
              (read_fields
                (serialize_message malloc nack_bitmap_msg_id (22 + n) fs)
                (n ∷ [])
                (record { offset = 22; overflow = false })).0
              0
              []
          else [])
        ≡ bm
    map_read = elim (dec_lt 0 n) [
      | yes some_bits ↦ rw (lt→ltb 0 n some_bits, one_read some_bits) refl
      | no none_set ↦ rw (le→ltb 0 n (omega arith)) (sym (nil_of_length bm (omega arith)))
    ]

-- The bitmap as the last field, if it has a byte.
abbrev map_field : List ℕ → List (List ℕ)
map_field bm = if ltb 0 (length bm) then bm ∷ [] else []

map_field_some : (bm : List ℕ) → 1 ≤ length bm → map_field bm ≡ bm ∷ []
map_field_some bm h = rw (lt→ltb 0 (length bm) h) refl

concat-map_field : (bm : List ℕ) → concat (map_field bm) ≡ bm
concat-map_field [] = refl
concat-map_field (x ∷ xs) = ap concat (map_field_some (x ∷ xs) (omega arith)) ∙ append-nil (x ∷ xs)

-- A window that the receiver fills fits into one datagram, and the sender reads back the same
-- bitmap; its bit count is rounded up to whole bytes.
pub deserialize_nack_bitmap-serialize_nack_bitmap :
    (malloc : ℕ → List ℕ) (m old : NackBitmap)
    → Allocates malloc
    → IsIdent m.ident
    → m.base_page < 2 ^ 16
    → IsWindow m
    → (length (serialize_nack_bitmap malloc m) ≤ 1472)
      × (deserialize_nack_bitmap old (serialize_nack_bitmap malloc m)
          ≡ record m { bit_cnt = length m.bitmap * 8 })
unfolding serialize_nack_bitmap
deserialize_nack_bitmap-serialize_nack_bitmap malloc m old fresh s h w =
    rw (bytes, take-length (length m.bitmap) m.bitmap (omega arith))
      (bitmap_of malloc m.ident m.base_page (length m.bitmap) m.bitmap (map_field m.bitmap) old
        fresh s h refl (omega (arith, w.bytes, w.bits)) (concat-map_field m.bitmap)
        (map_field_some m.bitmap))
  where
    bytes : map_bytes_of m ≡ length m.bitmap
    bytes = omega (arith, w.bytes, w.bits)
