-- ===== src/Chunks/Split.antt =====
-- What the sender makes of a framed stream: datagrams of one page each, numbered from 1.
use cpp_ipc_dds.Common.{
  ℕ, zero, suc, ◌+◌, ◌-◌, ◌*◌, ◌/◌, ◌^◌, ◌≤◌, ◌<◌, add-zero, ◌≡◌, refl, sym, ap, ap₂, ◌∙◌, some,
  List, [], ◌∷◌, ◌++◌, append-nil, append_assoc, arith, dec_lt, le→ltb, length, get_or, concat,
  length-append, take-length, split_at, take-append_eq, drop-append_eq, drop-length,
  set-append_right, u16,
}
use native.Mathlib.Nat.{mod-eq_of_lt}
use cpp_ipc_dds.Framing.{MsgBase, tail_bytes}
use cpp_ipc_dds.Framing.Stream.{framed, next_tail, Tails, framed-append, framed_inside, framed_full}
use cpp_ipc_dds.Chunks.{split_from, write_now_page, number_chunks}
use cpp_ipc_dds.Chunks.Pages.{Full, page}

-- The payload cut at the page ends: every block but the last fills its page.
abbrev pub Blocks : List (List ℕ) → Type 0
Blocks [] = ⊥
Blocks (x ∷ []) = length x < 1460
Blocks (x ∷ y ∷ bs) = (length x ≡ 1460) × Blocks (y ∷ bs)

abbrev pub Cut : List ℕ → Type 0
Cut src = (bs : List (List ℕ)) × Blocks bs × (concat bs ≡ src)

add_block : (x zs : List ℕ) {src : List ℕ} → src ≡ x ++ zs → length x ≡ 1460 → Cut zs → Cut src
add_block x zs e n ([], v, c) = absurd v
add_block x zs e n (y ∷ bs, v, c) = (x ∷ y ∷ bs, (n, v), ap (λ (r : List ℕ). x ++ r) c ∙ sym e)

-- Every payload is cut so.
pub page_blocks : (n : ℕ) (src : List ℕ) → length src ≤ n → Cut src
page_blocks zero src h = (src ∷ [], omega arith, append-nil src)
page_blocks (suc n) src h = elim (dec_lt (length src) 1460) [
  | yes short ↦ (src ∷ [], short, append-nil src)
  | no long ↦
      let (x, ys, zs, e, k) = split_at 1460 src (omega arith) (omega arith) in
      add_block (x ∷ ys) zs e k
        (page_blocks n zs (omega (arith, ap length e, length-append (x ∷ ys) zs)))
]

-- The stream of such blocks from page `p + 1` on, with the tails `t` and the last tail `last`.
abbrev pub joined : (ℕ → List ℕ) → List ℕ → ℕ → List (List ℕ) → List ℕ
joined t last p [] = last
joined t last p (x ∷ []) = x ++ last
joined t last p (x ∷ y ∷ bs) = x ++ (t (p + 1) ++ joined t last (p + 1) (y ∷ bs))

-- Its pages.
abbrev pub pages_of : (ℕ → List ℕ) → List ℕ → ℕ → List (List ℕ) → List (List ℕ)
pages_of t last p [] = []
pages_of t last p (x ∷ []) = (x ++ last) ∷ []
pages_of t last p (x ∷ y ∷ bs) = (x ++ t (p + 1)) ∷ pages_of t last (p + 1) (y ∷ bs)

module _ (t : ℕ → List ℕ) (sized : Tails t) (last : List ℕ) where
  pub framed-joined :
      (p : ℕ) (bs : List (List ℕ))
      → Blocks bs
      → framed t (1460 * p) (concat bs) ++ last ≡ joined t last p bs
  framed-joined p [] v = absurd v
  framed-joined p (x ∷ []) v = rw (append-nil, framed_inside t (1460 * p) x (omega arith)) refl
  framed-joined p ([] ∷ y ∷ bs) v = absurd (omega (arith, v.0))
  framed-joined p ((a ∷ x) ∷ y ∷ bs) v =
      let next : 1460 * p + suc (length x) ≡ 1460 * (p + 1) = omega (arith, v.0) in
      let last_page : (1460 * p + suc (length x)) / 1460 ≡ p + 1 = omega (arith, v.0) in
      rw
        (
          framed-append t (1460 * p) (a ∷ x) (concat (y ∷ bs)),
          framed_full t (1460 * p) a x (omega (arith, v.0)),
          last_page,
          next,
        )
        (simp (append_assoc, framed-joined (p + 1) (y ∷ bs) v.1))

  pub concat-pages_of :
      (p : ℕ) (bs : List (List ℕ)) → Blocks bs → concat (pages_of t last p bs) ≡ joined t last p bs
  concat-pages_of p [] v = absurd v
  concat-pages_of p (x ∷ []) v = append-nil _
  concat-pages_of p (x ∷ y ∷ bs) v =
      rw (concat-pages_of (p + 1) (y ∷ bs) v.1) (append_assoc x (t (p + 1)) _)

  pub length-pages_of : (p : ℕ) (bs : List (List ℕ)) → length (pages_of t last p bs) ≡ length bs
  length-pages_of p [] = refl
  length-pages_of p (x ∷ []) = refl
  length-pages_of p (x ∷ y ∷ bs) = ap suc (length-pages_of (p + 1) (y ∷ bs))

  pub pages_of-Full :
      (p : ℕ) (bs : List (List ℕ)) → Blocks bs → length last ≡ 12 → Full (pages_of t last p bs)
  pages_of-Full p [] v l = absurd v
  pages_of-Full p (x ∷ []) v l = omega (arith, length-append x last)
  pages_of-Full p (x ∷ y ∷ []) v l = (
    omega (arith, v.0, sized (p + 1), length-append x (t (p + 1))),
    omega (arith, v.1, length-append y last),
  )
  pages_of-Full p (x ∷ y ∷ z ∷ bs) v l = (
    omega (arith, v.0, sized (p + 1), length-append x (t (p + 1))),
    pages_of-Full (p + 1) (y ∷ z ∷ bs) v.1 l,
  )

  split_from_page :
      (x : ℕ) (xs rest : List ℕ) (fuel : ℕ)
      → suc (length xs) ≡ 1472
      → split_from (suc fuel) ((x ∷ xs) ++ rest) ≡ (x ∷ xs) ∷ split_from fuel rest
  unfolding split_from
  split_from_page x xs rest fuel n =
      ap₂ ◌∷◌ (take-append_eq 1472 (x ∷ xs) rest n)
        (ap (split_from fuel) (drop-append_eq 1472 (x ∷ xs) rest n))

  split_from_last :
      (x : ℕ) (xs : List ℕ) (fuel : ℕ)
      → suc (length xs) ≤ 1472
      → split_from (suc fuel) (x ∷ xs) ≡ (x ∷ xs) ∷ []
  unfolding split_from
  split_from_last x xs fuel n =
      ap₂ ◌∷◌ (take-length 1472 (x ∷ xs) n)
        (ap (split_from fuel) (drop-length 1472 (x ∷ xs) n) ∙ nothing fuel)
    where
      nothing : (k : ℕ) → split_from k [] ≡ []
      nothing zero = refl
      nothing (suc k) = refl

  split_page :
      (d rest : List ℕ) (fuel : ℕ)
      → length d ≡ 1472
      → split_from (suc fuel) (d ++ rest) ≡ d ∷ split_from fuel rest
  split_page [] rest fuel n = absurd (omega arith)
  split_page (x ∷ xs) rest fuel n = split_from_page x xs rest fuel n

  split_last :
      (d : List ℕ) (fuel : ℕ) → 12 ≤ length d → length d ≤ 1472 → split_from (suc fuel) d ≡ d ∷ []
  split_last [] fuel m n = absurd (omega arith)
  split_last (x ∷ xs) fuel m n = split_from_last x xs fuel n

  -- The loop of the sender cuts the stream at the page ends.
  pub split_from-joined :
      (fuel p : ℕ) (bs : List (List ℕ))
      → Blocks bs
      → length last ≡ 12
      → length (joined t last p bs) ≤ fuel
      → split_from fuel (joined t last p bs) ≡ pages_of t last p bs
  split_from-joined fuel p [] v l f = absurd v
  split_from-joined zero p (x ∷ []) v l f = absurd (omega (arith, length-append x last))
  split_from-joined (suc fuel) p (x ∷ []) v l f =
      split_last (x ++ last) fuel (omega (arith, length-append x last))
        (omega (arith, length-append x last))
  split_from-joined zero p (x ∷ y ∷ bs) v l f =
      absurd (omega (arith, v.0, length-append x (t (p + 1) ++ joined t last (p + 1) (y ∷ bs))))
  split_from-joined (suc fuel) p (x ∷ y ∷ bs) v l f =
      rw (← append_assoc x (t (p + 1)) (joined t last (p + 1) (y ∷ bs))) (
        split_page (x ++ t (p + 1)) (joined t last (p + 1) (y ∷ bs)) fuel
          (omega (arith, v.0, sized (p + 1), length-append x (t (p + 1))))
        ∙ ap (λ (r : List (List ℕ)). (x ++ t (p + 1)) ∷ r)
            (split_from-joined fuel (p + 1) (y ∷ bs) v.1 l (
              omega (
                arith,
                v.0,
                sized (p + 1),
                length-append x (t (p + 1) ++ joined t last (p + 1) (y ∷ bs)),
                length-append (t (p + 1)) (joined t last (p + 1) (y ∷ bs)),
              ))))

-- `write_now_page` puts the number into a tail, and changes nothing else.
write_now_page-tail_bytes :
    (b : MsgBase) (xs : List ℕ) (old new : ℕ)
    → write_now_page (xs ++ tail_bytes b old) new ≡ xs ++ tail_bytes b new
unfolding write_now_page
write_now_page-tail_bytes b xs old new =
    rw
      (
        le→ltb (length (xs ++ tail_bytes b old)) 12 (omega (arith, size)),
        at10,
        at9,
        set-append_right,
        set-append_right,
      )
      refl
  where
    size : length (xs ++ tail_bytes b old) ≡ length xs + 12
    size = length-append xs (tail_bytes b old)

    at10 : length (xs ++ tail_bytes b old) - 10 ≡ length xs + 2
    at10 = omega (arith, size)

    at9 : length (xs ++ tail_bytes b old) - 9 ≡ length xs + 3
    at9 = omega (arith, size)

-- The numbering corrects the pages of a stream, and makes their numbers 1, 2, 3, ...
pub number_chunks-pages_of :
    (b : MsgBase) (old n p : ℕ) (bs : List (List ℕ))
    → Blocks bs
    → p + length bs ≡ n
    → n < 2 ^ 16
    → number_chunks p (pages_of (next_tail b) (tail_bytes b old) p bs)
      ≡ some (pages_of (tail_bytes b) (tail_bytes b n) p bs)
unfolding number_chunks
number_chunks-pages_of b old n p [] v e h = absurd v
number_chunks-pages_of b old n p (x ∷ []) v e h =
    rw
      (
        le→ltb (length (x ++ tail_bytes b old)) 12
            (omega (arith, length-append x (tail_bytes b old))),
        write_now_page-tail_bytes b x old (u16 (p + 1)),
        mod-eq_of_lt {n = p + 1} {m = 2 ^ 16} (omega arith),
        ← e,
      )
      refl
number_chunks-pages_of b old n p (x ∷ y ∷ bs) v e h =
    rw
      (
        number_chunks-pages_of b old n (p + 1) (y ∷ bs) v.1 (omega arith) h,
        le→ltb (length (x ++ next_tail b (p + 1))) 12
            (omega (arith, length-append x (next_tail b (p + 1)))),
        write_now_page-tail_bytes b x (p + 1 + 1) (u16 (p + 1)),
        mod-eq_of_lt {n = p + 1} {m = 2 ^ 16} (omega arith),
      )
      refl

-- The page of index `i`: its block, and a tail with the number `i + 1`.
pub page-pages_of :
    (b : MsgBase) (n p : ℕ) (bs : List (List ℕ)) (i : ℕ)
    → p + length bs ≡ n
    → i < length bs
    → page (pages_of (tail_bytes b) (tail_bytes b n) p bs) i
      ≡ get_or bs i [] ++ tail_bytes b (p + i + 1)
page-pages_of b n p [] i e h = absurd (omega arith)
page-pages_of b n p (x ∷ []) zero e h = rw (add-zero, ← e) refl
page-pages_of b n p (x ∷ []) (suc i) e h = absurd (omega arith)
page-pages_of b n p (x ∷ y ∷ bs) zero e h = rw add-zero refl
page-pages_of b n p (x ∷ y ∷ bs) (suc i) e h =
    let index : p + suc i + 1 ≡ p + 1 + i + 1 = omega arith in
    rw index (page-pages_of b n (p + 1) (y ∷ bs) i (omega arith) (omega arith))
