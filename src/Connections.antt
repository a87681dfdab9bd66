-- ===== src/Connections.antt =====
-- Who is connected to a broadcast channel, src/libipc/circ/elem_def.h (conn_head<P, true>). A cc_t is a
-- uint32_t with a bit for each connection; it is the list of its bits here, the lowest first. The
-- compare-exchange loops are atomic steps.
pub mod Slots
mod Tests
use cpp_ipc_dds.Common.{
  ℕ, zero, suc, ◌+◌, Bool, true, false, not, ◌&&◌, ◌||◌, Option, none, some, List, [], ◌∷◌,
  if◌then◌else◌, bits_xor, length, replicate,
}

abbrev pub Mask : Type 0
Mask = List Bool

-- `&`, `|` and `~`
unfoldable pub bits_and : Mask → Mask → Mask
bits_and (x ∷ xs) (y ∷ ys) = (x && y) ∷ bits_and xs ys
bits_and _ _ = []

unfoldable pub bits_or : Mask → Mask → Mask
bits_or (x ∷ xs) (y ∷ ys) = (x || y) ∷ bits_or xs ys
bits_or _ _ = []

unfoldable pub bits_not : Mask → Mask
bits_not [] = []
bits_not (x ∷ xs) = not x ∷ bits_not xs

-- `+ 1` and `- 1`, with the carry through the bits.
unfoldable pub inc : Mask → Mask
inc [] = []
inc (false ∷ xs) = true ∷ xs
inc (true ∷ xs) = false ∷ inc xs

unfoldable pub dec : Mask → Mask
dec [] = []
dec (true ∷ xs) = false ∷ xs
dec (false ∷ xs) = true ∷ dec xs

-- `== 0`, and `==`.
unfoldable pub is_zero : Mask → Bool
is_zero [] = true
is_zero (x ∷ xs) = not x && is_zero xs

unfoldable pub same_mask : Mask → Mask → Bool
same_mask [] [] = true
same_mask (x ∷ xs) (y ∷ ys) = (if x then y else not y) && same_mask xs ys
same_mask _ _ = false

-- A cc_t that is 0, of the width of `m`.
abbrev pub zeros : Mask → Mask
zeros m = replicate (length m) false

-- `connect`: the connection id, 0 if there is none left, and the new connections.
unfoldable pub connect : Mask → Mask × Mask
unfolding bits_or bits_xor inc same_mask
connect curr =
    let next = bits_or curr (inc curr) in
    if same_mask next curr then (zeros curr, curr) else (bits_xor next curr, next)

-- `disconnect`: the new connections, which are also the result.
unfoldable pub disconnect : Mask → Mask → Mask
unfolding bits_and bits_not
disconnect cc_id cc = bits_and cc (bits_not cc_id)

-- `connected`
unfoldable pub connected : Mask → Mask → Bool
unfolding bits_and is_zero
connected cc_id cc = not (is_zero (bits_and cc cc_id))

-- The loop of `conn_count`, with `cnt` so far; `none` when the fuel runs out.
unfoldable pub count_loop : ℕ → ℕ → Mask → Option ℕ
unfolding bits_and dec is_zero
count_loop zero cnt cur = none
count_loop (suc fuel) cnt cur = elim (is_zero cur) [
  | true ↦ some cnt
  | false ↦ count_loop fuel (cnt + 1) (bits_and cur (dec cur))
]

-- `conn_count`: a round takes away a bit.
unfoldable pub conn_count : Mask → Option ℕ
unfolding count_loop
conn_count cc = count_loop (length cc + 1) 0 cc
