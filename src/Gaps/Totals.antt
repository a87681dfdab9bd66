-- ===== src/Gaps/Totals.antt =====
-- The counted runs are the runs of lost pages.
use cpp_ipc_dds.Common.{
  ℕ, zero, suc, ◌+◌, ◌<◌, max, ◌≡◌, refl, ap, ◌∙◌, inl, inr, Bool, true, false, List, [], ◌∷◌,
  arith, ◌==◌, if◌then◌else◌, Bool-cases, lt→ltb, length,
}
use cpp_ipc_dds.NackSend.{is_lost}
use cpp_ipc_dds.NackSend.Selection.{lost_pages}
use cpp_ipc_dds.Gaps.{GapScan, close_run, scan_gaps, record_fragment_gaps}

-- The list begins with `k`.
unfoldable pub starts : ℕ → List ℕ → Bool
starts k [] = false
starts k (x ∷ xs) = x == k

-- The lengths of runs with `r` more pages in front, which join the first run or do not.
unfoldable pub grow : ℕ → Bool → List ℕ → List ℕ
grow zero joins ys = ys
grow (suc r) true (y ∷ ys) = (suc r + y) ∷ ys
grow (suc r) true [] = suc r ∷ []
grow (suc r) false ys = suc r ∷ ys

-- The lengths of the longest runs of consecutive numbers in an ascending list.
unfoldable pub runs : List ℕ → List ℕ
unfolding grow starts
runs [] = []
runs (x ∷ xs) = grow 1 (starts (x + 1) xs) (runs xs)

grow-grow :
    (r : ℕ) (joins : Bool) (ys : List ℕ) → grow r true (grow 1 joins ys) ≡ grow (suc r) joins ys
unfolding grow
grow-grow zero joins ys = refl
grow-grow (suc r) true (y ∷ ys) = ap (λ (n : ℕ). n ∷ ys) (omega arith)
grow-grow (suc r) true [] = ap (λ (n : ℕ). n ∷ []) (omega arith)
grow-grow (suc r) false ys = ap (λ (n : ℕ). n ∷ ys) (omega arith)

-- `ys` behind `xs`, whose last one stands first, and the greatest of them all.
unfoldable pub behind : List ℕ → List ℕ → List ℕ
behind xs [] = xs
behind xs (y ∷ ys) = behind (y ∷ xs) ys

unfoldable pub greatest : ℕ → List ℕ → ℕ
greatest m [] = m
greatest m (y ∷ ys) = greatest (max m y) ys

-- The scan has counted `ys` more runs, the open one among them.
record Counts (ys : List ℕ) (n : ℕ) (s t : GapScan) : Type 0 where
  gaps : t.gaps ≡ behind s.gaps ys
  local_max : t.local_max ≡ greatest s.local_max ys
  missing : t.missing ≡ s.missing + n

starts_later :
    (received : List ℕ) (k i left : ℕ) → k < i → starts k (lost_pages received i left) ≡ false
unfolding starts
starts_later received k i zero h = refl
starts_later received k i (suc left) h = elim (Bool-cases (is_lost received i)) [
  | inl lost ↦ rw lost (ground (arith, h))
  | inr got ↦ rw got (starts_later received k (i + 1) left (omega (arith, h)))
]

-- A page that has arrived ends the open run.
record Closed (s : GapScan) (ys : List ℕ) (t : GapScan) : Type 0 where
  run : t.run ≡ 0
  gaps : behind t.gaps ys ≡ behind s.gaps (grow s.run false ys)
  local_max : greatest t.local_max ys ≡ greatest s.local_max (grow s.run false ys)
  missing : t.missing ≡ s.missing

close_run-Closed :
    (run missing local_max : ℕ) (gaps ys : List ℕ)
    → let s : GapScan = record {
      run = run;
      missing = missing;
      local_max = local_max;
      gaps = gaps;
    } in
      Closed s ys (close_run s)
unfolding grow behind greatest
close_run-Closed zero m l gs ys = record {
  run = refl;
  gaps = refl;
  local_max = refl;
  missing = refl;
}
close_run-Closed (suc r) m l gs ys =
    rw (lt→ltb 0 (suc r) (omega arith))
      record { run = refl; gaps = refl; local_max = refl; missing = refl }

-- One round of the scan.
step_Counts :
    (lost : Bool) (i : ℕ) (xs : List ℕ) (s t : GapScan)
    → starts i xs ≡ false
    → let s' =
        if lost then record s { run = s.run + 1; missing = s.missing + 1 } else close_run s in
      Counts (grow s'.run (starts (i + 1) xs) (runs xs)) (length xs) s' t
      → let ys = if lost then i ∷ xs else xs in
        Counts (grow s.run (starts i ys) (runs ys)) (length ys) s t
unfolding runs starts
step_Counts true i xs s t new h =
    let own : (i == i) ≡ true = ground arith in
    let one_more : suc s.run ≡ s.run + 1 = omega arith in
    let same : grow s.run true (grow 1 (starts (i + 1) xs) (runs xs))
        ≡ grow (s.run + 1) (starts (i + 1) xs) (runs xs) =
      grow-grow s.run (starts (i + 1) xs) (runs xs)
      ∙ ap (λ (r : ℕ). grow r (starts (i + 1) xs) (runs xs)) one_more in
    rw (own, same)
      record { gaps = h.gaps; local_max = h.local_max; missing = omega (arith, h.missing) }
step_Counts false i xs s t new h =
    let c = close_run-Closed s.run s.missing s.local_max s.gaps (runs xs) in
    let first : grow (close_run s).run (starts (i + 1) xs) (runs xs) ≡ runs xs =
      ap (λ (r : ℕ). grow r (starts (i + 1) xs) (runs xs)) c.run ∙ (unfold grow in refl) in
    rw new record {
      gaps = h.gaps ∙ ap (behind (close_run s).gaps) first ∙ c.gaps;
      local_max = h.local_max ∙ ap (greatest (close_run s).local_max) first ∙ c.local_max;
      missing = omega (arith, h.missing, c.missing);
    }

scan_gaps_lem :
    (received : List ℕ) (i left : ℕ) (s : GapScan)
    → let xs = lost_pages received i left in
      Counts
        (grow s.run (starts i xs) (runs xs))
        (length xs)
        s
        (close_run (scan_gaps received i left s))
unfolding scan_gaps
scan_gaps_lem received i zero s =
    let c = close_run-Closed s.run s.missing s.local_max s.gaps [] in
    unfold behind greatest starts runs in
    record { gaps = c.gaps; local_max = c.local_max; missing = omega (arith, c.missing) }
scan_gaps_lem received i (suc left) s =
    let s' =
      if is_lost received i
      then record s { run = s.run + 1; missing = s.missing + 1 }
      else close_run s in
    step_Counts (is_lost received i) i (lost_pages received (i + 1) left) s
      (close_run (scan_gaps received (i + 1) left s'))
      (starts_later received i (i + 1) left (omega arith)) (scan_gaps_lem received (i + 1) left s')

-- What `record_fragment_gaps` counts are the runs of the lost pages of the message: the list of their
-- lengths, the last run first, has one entry for each longest run of consecutive lost pages; the
-- greatest length and the number of lost pages are reported with it.
pub record_fragment_gaps_lem :
    (received : List ℕ) (page_cnt : ℕ)
    → let s = record_fragment_gaps received page_cnt in
      let lost = lost_pages received 1 page_cnt in
      (s.gaps ≡ behind [] (runs lost))
      × (s.local_max ≡ greatest 0 (runs lost))
      × (s.missing ≡ length lost)
unfolding record_fragment_gaps
record_fragment_gaps_lem received page_cnt =
    let none_yet : GapScan = record { run = 0; missing = 0; local_max = 0; gaps = [] } in
    let h = scan_gaps_lem received 1 page_cnt none_yet in
    unfold grow in (h.gaps, h.local_max, omega (arith, h.missing))
