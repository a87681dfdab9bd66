-- ===== src/Control/Window.antt =====
-- The window of a bitmap NACK: which pages it reports as missing.
use cpp_ipc_dds.Common.{
  ℕ, zero, suc, ◌+◌, ◌-◌, ◌*◌, ◌/◌, ◌%◌, ◌≤◌, ◌<◌, min, ◌≡◌, refl, ap, ◌∙◌, subst, ◌≢◌, inl, inr,
  Bool, true, false, ◌&&◌, ◌||◌, List, arith, ℕ_discrete, ltb, leb, ◌==◌, Bool-cases, length,
  get_or, set, replicate, length-set, length-replicate, get_or-set_self, get_or-set_ne, u16,
}
use cpp_ipc_dds.Control.{NackBitmap, reset_window, set_bit, test_bit, set_missing, is_missing}

-- The window has room for its bits.
pub record IsWindow (m : NackBitmap) : Type 0 where
  pub bits : m.bit_cnt ≤ 11496
  pub bytes : length m.bitmap ≡ (m.bit_cnt + 7) / 8

pub test_bit-set_bit_self : (v k : ℕ) → test_bit (set_bit v k) k ≡ true
unfolding test_bit set_bit
test_bit-set_bit_self v zero = ground arith
test_bit-set_bit_self v (suc k) =
    ap (λ (n : ℕ). test_bit n k) (half (v % 2) (set_bit (v / 2) k) (omega arith))
    ∙ test_bit-set_bit_self (v / 2) k
  where
    half : (r n : ℕ) → r < 2 → (r + 2 * n) / 2 ≡ n
    half r n h = omega arith

pub test_bit-set_bit_ne : (v k j : ℕ) → k ≢ j → test_bit (set_bit v k) j ≡ test_bit v j
unfolding test_bit set_bit
test_bit-set_bit_ne v zero zero h = absurd (h refl)
test_bit-set_bit_ne v zero (suc j) h = ap (λ (n : ℕ). test_bit n j) same
  where
    same : (v - v % 2 + 1) / 2 ≡ v / 2
    same = omega arith
test_bit-set_bit_ne v (suc k) zero h =
    let same : (v % 2 + 2 * set_bit (v / 2) k) % 2 ≡ v % 2 = omega arith in rw same refl
test_bit-set_bit_ne v (suc k) (suc j) h =
    let same : (v % 2 + 2 * set_bit (v / 2) k) / 2 ≡ set_bit (v / 2) k = omega arith in
    rw same (test_bit-set_bit_ne (v / 2) k j (λ e. h (ap suc e)))

zero_bit : (k : ℕ) → test_bit 0 k ≡ false
unfolding test_bit
zero_bit zero = refl
zero_bit (suc k) = zero_bit k

no_bit : (n i k : ℕ) → test_bit (get_or (replicate n 0) i 0) k ≡ false
no_bit zero i k = zero_bit k
no_bit (suc n) zero k = zero_bit k
no_bit (suc n) (suc i) k = no_bit n i k

-- An empty window of the wanted size reports no page.
pub is_missing-reset_window :
    (m : NackBitmap) (base bits page : ℕ)
    → IsWindow (reset_window m base bits) × (is_missing (reset_window m base bits) page ≡ false)
unfolding reset_window is_missing
is_missing-reset_window m base bits page = (
  record { bits = omega arith; bytes = length-replicate ((u16 (min bits 11496) + 7) / 8) 0 },
  ground (arith, no_bit ((u16 (min bits 11496) + 7) / 8) ((page - base) / 8) ((page - base) % 8)),
)

-- The page lies in the window.
abbrev pub in_window : NackBitmap → ℕ → Bool
in_window m page = leb m.base_page page && ltb (page - m.base_page) m.bit_cnt

abbrev marked : NackBitmap → ℕ → NackBitmap
marked m idx = record m {
  bitmap = set m.bitmap (idx / 8) (set_bit (get_or m.bitmap (idx / 8) 0) (idx % 8));
}

set_missing_inside :
    (m : NackBitmap) (page : ℕ)
    → in_window m page ≡ true
    → set_missing m page ≡ marked m (page - m.base_page)
unfolding set_missing
set_missing_inside m page h = ground arith

set_missing_outside :
    (m : NackBitmap) (page : ℕ) → in_window m page ≡ false → set_missing m page ≡ m
unfolding set_missing
set_missing_outside m page h = ground arith

marked-IsWindow : (m : NackBitmap) (idx : ℕ) → IsWindow m → IsWindow (marked m idx)
marked-IsWindow m idx w = record {
  bits = w.bits;
  bytes = length-set m.bitmap (idx / 8) (set_bit (get_or m.bitmap (idx / 8) 0) (idx % 8)) ∙ w.bytes;
}

-- One bit of a bitmap, after another one was set.
abbrev BitOfSet : List ℕ → ℕ → ℕ → Type 0
BitOfSet bm i j =
    test_bit (get_or (set bm (i / 8) (set_bit (get_or bm (i / 8) 0) (i % 8))) (j / 8) 0) (j % 8)
    ≡ test_bit (get_or bm (j / 8) 0) (j % 8) || j == i

bit_of_set : (bm : List ℕ) (i j : ℕ) → i / 8 < length bm → BitOfSet bm i j
bit_of_set bm i j h = elim (ℕ_discrete i j) [
  | yes same ↦
      subst (λ (k : ℕ). BitOfSet bm i k) same
        (rw
          (
            get_or-set_self bm (i / 8) (set_bit (get_or bm (i / 8) 0) (i % 8)) 0 h,
            test_bit-set_bit_self (get_or bm (i / 8) 0) (i % 8),
          )
          (ground arith))
  | no differ ↦ ground (arith, kept)
]
  where
    kept :
        i ≢ j
        → test_bit
            (get_or (set bm (i / 8) (set_bit (get_or bm (i / 8) 0) (i % 8))) (j / 8) 0)
            (j % 8)
          ≡ test_bit (get_or bm (j / 8) 0) (j % 8)
    kept ne = elim (ℕ_discrete (i / 8) (j / 8)) [
      | yes e ↦
          rw (← e, get_or-set_self bm (i / 8) (set_bit (get_or bm (i / 8) 0) (i % 8)) 0 h)
            (test_bit-set_bit_ne (get_or bm (i / 8) 0) (i % 8) (j % 8) (omega arith))
      | no byte ↦
          ap (λ (v : ℕ). test_bit v (j % 8))
            (get_or-set_ne bm (i / 8) (j / 8) (set_bit (get_or bm (i / 8) 0) (i % 8)) 0 byte)
    ]

is_missing_inside :
    (m : NackBitmap) (page : ℕ)
    → IsWindow m
    → in_window m page ≡ true
    → is_missing m page
      ≡ test_bit (get_or m.bitmap ((page - m.base_page) / 8) 0) ((page - m.base_page) % 8)
unfolding is_missing
is_missing_inside m page w h = ground arith

pub is_missing_outside :
    (m : NackBitmap) (page : ℕ) → in_window m page ≡ false → is_missing m page ≡ false
unfolding is_missing
is_missing_outside m page h = ground arith

-- In a window, `set_missing` makes the page that it is given missing if it lies in the window, and
-- leaves all others as they are.
pub is_missing-set_missing :
    (m : NackBitmap) (page other : ℕ)
    → IsWindow m
    → IsWindow (set_missing m page)
      × (is_missing (set_missing m page) other
          ≡ is_missing m other || (other == page && in_window m page))
is_missing-set_missing m page other w = elim (Bool-cases (in_window m page)) [
  | inr out ↦ rw (set_missing_outside m page out, out) (w, ground arith)
  | inl inside ↦
      rw (set_missing_inside m page inside, inside)
        (
          marked-IsWindow m (page - m.base_page) w,
          elim (Bool-cases (in_window m other)) [
            | inr out ↦
                rw
                  (
                    is_missing_outside m other out,
                    is_missing_outside (marked m (page - m.base_page)) other out,
                  )
                  (ground arith)
            | inl inside' ↦
                rw
                  (
                    is_missing_inside m other w inside',
                    is_missing_inside (marked m (page - m.base_page)) other
                        (marked-IsWindow m (page - m.base_page) w) inside',
                    bit_of_set m.bitmap (page - m.base_page) (other - m.base_page) (ground arith),
                  )
                  (ground arith)
          ],
        )
]

-- The window itself stays.
pub in_window-set_missing :
    (m : NackBitmap) (page other : ℕ) → in_window (set_missing m page) other ≡ in_window m other
in_window-set_missing m page other = elim (Bool-cases (in_window m page)) [
  | inr out ↦ rw (set_missing_outside m page out) refl
  | inl inside ↦ rw (set_missing_inside m page inside) refl
]

pub in_window-reset_window :
    (m : NackBitmap) (base bits page : ℕ)
    → in_window (reset_window m base bits) page
      ≡ leb base page && ltb (page - base) (min bits 11496)
unfolding reset_window
in_window-reset_window m base bits page =
    let small : u16 (min bits 11496) ≡ min bits 11496 = omega arith in rw small refl
