-- ===== src/NackSend/Scans.antt =====
-- What the loops over the received flags find: the span of the lost pages, and their bits in a window.
use cpp_ipc_dds.Common.{
  ℕ, zero, suc, ◌+◌, ◌≤◌, ◌<◌, add-zero, ◌≡◌, refl, ◌∙◌, ◌≢◌, inl, inr, Bool, true, false, ◌&&◌,
  ◌||◌, List, arith, ℕ_discrete, ltb, leb, ◌==◌, if◌then◌else◌, Bool-cases,
}
use cpp_ipc_dds.Control.{Ident, NackBitmap, set_missing, is_missing}
use cpp_ipc_dds.Control.Window.{IsWindow, in_window, is_missing-set_missing, in_window-set_missing}
use cpp_ipc_dds.NackSend.{is_lost, Scan, note, scan_missing, scanned, fill_window}

-- What the loop over the pages knows before page `i`.
pub record Scanned (received : List ℕ) (i : ℕ) (s : Scan) : Type 0 where
  pub count : s.first_missing ≡ 0 → s.miss_cnt ≡ 0
  pub some_lost :
      s.first_missing ≢ 0
      → (1 ≤ s.miss_cnt) × (s.first_missing ≤ s.last_missing) × (s.last_missing < i)
  pub all_lost :
      (p : ℕ)
      → 1 ≤ p
      → p < i
      → is_lost received p ≡ true
      → (s.first_missing ≢ 0) × (s.first_missing ≤ p) × (p ≤ s.last_missing)

pub lost_and_got : {b : Bool} → b ≡ true → b ≡ false → ⊥
lost_and_got e e' = cc

scan_step :
    (received : List ℕ) (i : ℕ) (s : Scan)
    → 1 ≤ i
    → Scanned received i s
    → Scanned received (i + 1) (if is_lost received i then note i s else s)
scan_step received i s h v = elim (Bool-cases (is_lost received i)) [
  | inl lost ↦ rw lost (record {
    count = λ e. absurd (ground arith);
    some_lost = λ ne. (omega arith, first_before, omega arith);
    all_lost = λ p h1 h2 e. (
      ground arith,
      elim (ℕ_discrete p i) [
        | yes same ↦ omega (arith, first_before)
        | no before ↦ (let old = v.all_lost p h1 (omega arith) e in ground (arith, old.0, old.1))
      ],
      omega arith,
    );
  })
  | inr got ↦ rw got (record {
    count = v.count;
    some_lost = λ ne. (
      omega (arith, v.some_lost ne),
      omega (arith, v.some_lost ne),
      omega (arith, v.some_lost ne),
    );
    all_lost = λ p h1 h2 e. elim (ℕ_discrete p i) [
      | yes same ↦ absurd (lost_and_got (rw same at e) got)
      | no before ↦ v.all_lost p h1 (omega arith) e
    ];
  })
]
  where
    first_before : (note i s).first_missing ≤ i
    first_before = elim (ℕ_discrete s.first_missing 0) [
      | yes zero_first ↦ ground arith
      | no ne ↦ ground (arith, v.some_lost ne)
    ]

scan_missing-Scanned :
    (received : List ℕ) (i left : ℕ) (s : Scan)
    → 1 ≤ i
    → Scanned received i s
    → Scanned received (i + left) (scan_missing received i left s)
unfolding scan_missing
scan_missing-Scanned received i zero s h v = rw add-zero v
scan_missing-Scanned received i (suc left) s h v =
    let next : i + suc left ≡ i + 1 + left = omega arith in
    rw next
      (scan_missing-Scanned received (i + 1) left _ (omega arith) (scan_step received i s h v))

pub scanned-Scanned :
    (ident : Ident) (received : List ℕ)
    → Scanned received (1 + ident.page_cnt) (scanned ident received)
scanned-Scanned ident received =
    scan_missing-Scanned received 1 ident.page_cnt _ (omega arith) (record {
      count = λ e. refl;
      some_lost = λ ne. absurd (ne refl);
      all_lost = λ p h1 h2 e. absurd (omega arith);
    })

-- One round of the filling loop: page `i` was got, or it is marked now.
skip_round :
    (a l b : Bool) (i left p : ℕ)
    → (p ≡ i → l ≡ false)
    → (a || (leb (i + 1) p && ltb p (i + 1 + left) && l && b))
      ≡ a || (leb i p && ltb p (i + suc left) && l && b)
skip_round a l b i left p h = elim (ℕ_discrete p i) [
  | yes same ↦ rw (h same) (ground arith)
  | no differ ↦ ground arith
]

mark_round :
    (a l b bi : Bool) (i left p : ℕ)
    → (p ≡ i → l ≡ true)
    → (p ≡ i → bi ≡ b)
    → ((a || (p == i && bi)) || (leb (i + 1) p && ltb p (i + 1 + left) && l && b))
      ≡ a || (leb i p && ltb p (i + suc left) && l && b)
mark_round a l b bi i left p h h' = elim (ℕ_discrete p i) [
  | yes same ↦ rw (h same, h' same) (ground arith)
  | no differ ↦ ground arith
]

-- A window that is filled from the flags reports the lost pages that lie in it.
pub fill_window_lem :
    (received : List ℕ) (i left : ℕ) (m : NackBitmap) (p : ℕ)
    → IsWindow m
    → IsWindow (fill_window received i left m)
      × (is_missing (fill_window received i left m) p
          ≡ is_missing m p || (leb i p && ltb p (i + left) && is_lost received p && in_window m p))
unfolding fill_window
fill_window_lem received i zero m p w = (w, ground arith)
fill_window_lem received i (suc left) m p w = elim (Bool-cases (is_lost received i)) [
  | inr got ↦ rw got (
      let rest = fill_window_lem received (i + 1) left m p w in
      (
        rest.0,
        rest.1
            ∙ skip_round (is_missing m p) (is_lost received p) (in_window m p) i left p
                (λ e. rw e got),
      ))
  | inl lost ↦ rw lost (
      let marked = is_missing-set_missing m i p w in
      let rest = fill_window_lem received (i + 1) left (set_missing m i) p marked.0 in
      (
        rest.0,
        rest.1
            ∙ rw (marked.1, in_window-set_missing m i p)
                (mark_round (is_missing m p) (is_lost received p) (in_window m p) (in_window m i) i
                  left p (λ e. rw e lost) (λ e. rw e refl)),
      ))
]
