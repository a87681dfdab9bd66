-- ===== src/NackSend/Selection.antt =====
-- The pages that a NACK names are those that the receiver has not got.
use cpp_ipc_dds.Common.{
  ℕ, zero, suc, ◌+◌, ◌-◌, ◌≤◌, ◌<◌, min, ◌≡◌, refl, ap, ◌∙◌, subst, ◌≢◌, inl, inr, Bool, true,
  false, not, ◌&&◌, Option, none, some, List, [], ◌∷◌, map, arith, ℕ_discrete, ltb, leb, ◌==◌,
  if◌then◌else◌, Bool-cases, ne→==, length, take,
}
use mathlib.Core.Option.{some-injective}
use cpp_ipc_dds.Control.{Ident, Nack, NackBitmap, reset_window, is_missing}
use cpp_ipc_dds.Control.Window.{IsWindow, is_missing-reset_window, in_window-reset_window}
use cpp_ipc_dds.NackSend.{
  is_lost, list_missing, send_nack_for_missing, scanned, span_of, fill_window,
  send_nack_bitmap_for_missing, nothing, page_list, send_nack_auto, sent_list, sent_map, use_bitmap,
}
use cpp_ipc_dds.NackSend.Scans.{lost_and_got, scanned-Scanned, fill_window_lem}

-- All lost pages among the `left` pages from `i` on.
abbrev pub lost_pages : List ℕ → ℕ → ℕ → List ℕ
lost_pages received i zero = []
lost_pages received i (suc left) =
    let rest = lost_pages received (i + 1) left in if is_lost received i then i ∷ rest else rest

-- The explicit list names the first lost pages, as many as it has room for.
list_missing_lem :
    (received : List ℕ) (i left room : ℕ)
    → list_missing received i left room ≡ take room (lost_pages received i left)
unfolding list_missing
list_missing_lem received i zero zero = refl
list_missing_lem received i zero (suc room) = refl
list_missing_lem received i (suc left) zero = refl
list_missing_lem received i (suc left) (suc room) = elim (Bool-cases (is_lost received i)) [
  | inl lost ↦ rw lost (ap (λ (r : List ℕ). i ∷ r) (list_missing_lem received (i + 1) left room))
  | inr got ↦ rw got (list_missing_lem received (i + 1) left (suc room))
]

-- What the bitmap NACK reports of page `p`.
abbrev pub Reports : Ident → List ℕ → ℕ → NackBitmap → Type 0
Reports ident received p m =
    IsWindow m
    × (is_missing m p
        ≡ is_lost received p && ltb (p - (scanned ident received).first_missing) 11496)

in_span :
    (l : Bool) (first last p : ℕ)
    → (l ≡ true → (first ≤ p) × (p ≤ last))
    → (leb first p
        && ltb p (first + (last - first + 1))
        && l
        && (leb first p && ltb (p - first) (min (last - first + 1) 11496)))
      ≡ l && ltb (p - first) 11496
in_span false first last p h = ground arith
in_span true first last p h = ground (arith, (h refl).0, (h refl).1)

filled_Reports :
    (ident : Ident) (received : List ℕ) (empty : NackBitmap) (p : ℕ)
    → 1 ≤ p
    → p ≤ ident.page_cnt
    → Reports ident received p (
        fill_window received
          (scanned ident received).first_missing
          (span_of (scanned ident received))
          (reset_window empty
            (scanned ident received).first_missing
            (span_of (scanned ident received))))
filled_Reports ident received empty p h1 h2 =
    let s = scanned ident received in
    let v = scanned-Scanned ident received in
    let fresh = is_missing-reset_window empty s.first_missing (span_of s) p in
    let filled =
      fill_window_lem received s.first_missing (span_of s)
        (reset_window empty s.first_missing (span_of s)) p fresh.0 in
    (
      filled.0,
      filled.1
          ∙ rw (fresh.1, in_window-reset_window empty s.first_missing (span_of s) p)
              (in_span (is_lost received p) s.first_missing s.last_missing p
                (λ lost. let found = v.all_lost p h1 (omega arith) lost in (found.1, found.2))),
    )

-- The bitmap NACK that is sent reports exactly those pages of the message that are lost and less
-- than 11496 pages behind the first lost one.
pub send_nack_bitmap_for_missing_lem :
    (ident : Ident) (received : List ℕ) (m : NackBitmap) (p : ℕ)
    → 1 ≤ p
    → p ≤ ident.page_cnt
    → send_nack_bitmap_for_missing ident received ≡ some m
    → IsWindow m
      × (is_missing m p
          ≡ is_lost received p && ltb (p - (scanned ident received).first_missing) 11496)
unfolding send_nack_bitmap_for_missing
send_nack_bitmap_for_missing_lem ident received m p h1 h2 e =
    by_first ((scanned ident received).first_missing == 0) e
  where
    sent : NackBitmap
    sent =
        fill_window received (scanned ident received).first_missing
          (span_of (scanned ident received))
          (reset_window (record { ident = ident; base_page = 0; bit_cnt = 0; bitmap = [] })
            (scanned ident received).first_missing (span_of (scanned ident received)))

    by_first : (b : Bool) → (if b then none else some sent) ≡ some m → Reports ident received p m
    by_first true e' = cc
    by_first false e' =
        subst (λ (x : NackBitmap). Reports ident received p x) (some-injective _ _ e')
          (filled_Reports ident received _ p h1 h2)

abbrev pub first_lost : Ident → List ℕ → Nack
first_lost ident xs = record { ident = ident; missing_pages = take 256 xs }

no_pages :
    (n : ℕ) (xs : List ℕ) (m : Nack)
    → (if length (take (suc n) xs) == 0 then none else some m)
      ≡ (if length xs == 0 then none else some m)
no_pages n [] m = refl
no_pages n (x ∷ xs) m =
    rw (ne→== (suc (length (take n xs))) 0 (omega arith), ne→== (suc (length xs)) 0 (omega arith))
      refl

-- The explicit NACK names the first 256 lost pages in their order, and all if there are no more;
-- it is sent exactly if a page is lost.
pub send_nack_for_missing_lem :
    (ident : Ident) (received : List ℕ)
    → send_nack_for_missing ident received ≡ (
        if length (lost_pages received 1 ident.page_cnt) == 0
        then none
        else some (first_lost ident (lost_pages received 1 ident.page_cnt)))
unfolding send_nack_for_missing
send_nack_for_missing_lem ident received = rw (list_missing_lem received 1 ident.page_cnt 256) (
    no_pages 255 (lost_pages received 1 ident.page_cnt)
      (first_lost ident (lost_pages received 1 ident.page_cnt)))

some_lost_page :
    (received : List ℕ) (i left p : ℕ)
    → i ≤ p
    → p < i + left
    → is_lost received p ≡ true
    → 1 ≤ length (lost_pages received i left)
some_lost_page received i zero p h1 h2 lost = absurd (omega arith)
some_lost_page received i (suc left) p h1 h2 lost = elim (Bool-cases (is_lost received i)) [
  | inl here ↦ rw here (omega arith)
  | inr got ↦ rw got (elim (ℕ_discrete p i) [
    | yes same ↦ absurd (lost_and_got (rw same at lost) got)
    | no differ ↦ some_lost_page received (i + 1) left p (omega arith) (omega arith) lost
  ])
]

some_sent :
    (list : Option Nack) (m : Nack) (map : Option NackBitmap) (peer use_map : Bool) (miss_cnt : ℕ)
    → list ≡ some m
    → miss_cnt ≢ 0
    → (if not peer
        then sent_list list
        else if miss_cnt == 0
        then nothing
        else if use_map
        then sent_map map list
        else sent_list list)
      ≢ nothing
some_sent list m map peer use_map miss_cnt e ne = rw (e, ne→== _ _ ne) (by_case map peer use_map)
  where
    by_case :
        (map : Option NackBitmap) (peer use_map : Bool)
        → (if not peer then page_list m else if use_map then sent_map map (some m) else page_list m)
          ≢ nothing
    by_case map false use_map = λ e. cc
    by_case map true false = λ e. cc
    by_case none true true = λ e. cc
    by_case (some x) true true = λ e. cc

-- A receiver that lacks a page of the message always asks for something, whichever of the two
-- encodings it chooses.
pub send_nack_auto_asks :
    (ident : Ident) (received : List ℕ) (peer_supports_bitmap : Bool) (p : ℕ)
    → 1 ≤ p
    → p ≤ ident.page_cnt
    → is_lost received p ≡ true
    → send_nack_auto ident received peer_supports_bitmap ≢ nothing
unfolding send_nack_auto
send_nack_auto_asks ident received peer p h1 h2 lost =
    let v = scanned-Scanned ident received in
    let found = v.all_lost p h1 (omega arith) lost in
    some_sent (send_nack_for_missing ident received)
      (first_lost ident (lost_pages received 1 ident.page_cnt))
      (send_nack_bitmap_for_missing ident received) peer (use_bitmap ident received)
      (scanned ident received).miss_cnt
      (send_nack_for_missing_lem ident received
        ∙ rw
            (ne→== (length (lost_pages received 1 ident.page_cnt)) 0
              (omega (arith, some_lost_page received 1 ident.page_cnt p h1 (omega arith) lost)))
            refl)
      (omega (arith, v.some_lost found.0))
