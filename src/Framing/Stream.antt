-- ===== src/Framing/Stream.antt =====
-- The byte stream that the framing stands for, one payload byte at a time: a specification for
-- the copy loops of Framing.
use cpp_ipc_dds.Common.{
  ℕ, suc, ◌+◌, ◌*◌, ◌/◌, ◌%◌, ◌<◌, ◌≡◌, refl, sym, ap, ◌∙◌, ◌≢◌, List, [], ◌∷◌, ◌++◌, append-nil,
  append_assoc, arith, ◌==◌, if◌then◌else◌, ne→==, length, length-append,
}
use cpp_ipc_dds.Framing.{MsgBase, tail_bytes}

-- What stands behind the payload byte at position `k`: at the end of page `p` its tail, `t p`.
abbrev pub page_end : (ℕ → List ℕ) → ℕ → List ℕ
page_end t k = if (k + 1) % 1460 == 0 then t ((k + 1) / 1460) else []

-- The tail behind page `p`, as the serializer writes it: with the number of the next page.
abbrev pub next_tail : MsgBase → ℕ → List ℕ
next_tail b p = tail_bytes b (p + 1)

abbrev pub Tails : (ℕ → List ℕ) → Type 0
Tails t = (p : ℕ) → length (t p) ≡ 12

-- The stream of the payload `xs` whose first byte has position `k` in the whole payload.
unfoldable pub framed : (ℕ → List ℕ) → ℕ → List ℕ → List ℕ
framed t k [] = []
framed t k (x ∷ xs) = x ∷ (page_end t k ++ framed t (k + 1) xs)

-- Where position `k` of the payload stands in the stream.
abbrev pub framed_len : ℕ → ℕ
framed_len k = k + 12 * (k / 1460)

length-page_end :
    (t : ℕ → List ℕ) (k : ℕ)
    → Tails t
    → framed_len k + 1 + length (page_end t k) ≡ framed_len (k + 1)
length-page_end t k sized = ground (arith, sized ((k + 1) / 1460))

pub length-framed :
    (t : ℕ → List ℕ) (k : ℕ) (xs : List ℕ)
    → Tails t
    → framed_len k + length (framed t k xs) ≡ framed_len (k + length xs)
unfolding framed
length-framed t k [] sized = omega arith
length-framed t k (x ∷ xs) sized = omega (
  arith,
  length-append (page_end t k) (framed t (k + 1) xs),
  length-page_end t k sized,
  length-framed t (k + 1) xs sized,
  ap framed_len (shift k (length xs)),
)
  where
    shift : (i n : ℕ) → i + suc n ≡ i + 1 + n
    shift i n = omega arith

pub framed-append :
    (t : ℕ → List ℕ) (k : ℕ) (xs ys : List ℕ)
    → framed t k (xs ++ ys) ≡ framed t k xs ++ framed t (k + length xs) ys
unfolding framed
framed-append t k [] ys = let e : k + 0 ≡ k = omega arith in rw e refl
framed-append t k (x ∷ xs) ys =
    let e : k + suc (length xs) ≡ k + 1 + length xs = omega arith in
    rw (e, framed-append t (k + 1) xs ys) (ap (λ r. x ∷ r) (sym (append_assoc (page_end t k) _ _)))

page_end_last : (t : ℕ → List ℕ) (k : ℕ) → (k + 1) % 1460 ≡ 0 → page_end t k ≡ t ((k + 1) / 1460)
page_end_last t k h = rw (h) refl

page_end_inner : (t : ℕ → List ℕ) (k : ℕ) → (k + 1) % 1460 ≢ 0 → page_end t k ≡ []
page_end_inner t k h = rw (ne→== _ _ h) refl

-- Payload that stays inside one page is copied as it is.
pub framed_inside :
    (t : ℕ → List ℕ) (k : ℕ) (xs : List ℕ) → k % 1460 + length xs < 1460 → framed t k xs ≡ xs
unfolding framed
framed_inside t k [] h = refl
framed_inside t k (x ∷ xs) h = ground (arith, framed_inside t (k + 1) xs)

-- Payload that ends with its page is followed by the tail of the next page number.
pub framed_full :
    (t : ℕ → List ℕ) (k : ℕ) (x : ℕ) (xs : List ℕ)
    → k % 1460 + suc (length xs) ≡ 1460
    → framed t k (x ∷ xs) ≡ (x ∷ xs) ++ t ((k + suc (length xs)) / 1460)
unfolding framed
framed_full t k x [] h =
    ap (λ r. x ∷ r) (append-nil (page_end t k) ∙ page_end_last t k (omega arith))
framed_full t k x (y ∷ ys) h =
    let e : k + suc (suc (length ys)) ≡ k + 1 + suc (length ys) = omega arith in
    rw (e, page_end_inner t k (omega arith))
      (ap (λ r. x ∷ r) (framed_full t (k + 1) y ys (omega arith)))
