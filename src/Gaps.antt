-- ===== src/Gaps.antt =====
-- Runs of lost pages in src/dzIPC/common/data_rev.cc: what record_fragment_gaps counts over the
-- receiver's flags, and the runs that a sender counts in the NACKs it gets.
pub mod Totals
mod Tests
use cpp_ipc_dds.Common.{
  ℕ, zero, suc, ◌+◌, max, Bool, false, not, ◌&&◌, ◌||◌, Option, none, some, List, [], ◌∷◌, ltb, leb,
  ◌==◌, ◌/=◌, if◌then◌else◌, u16,
}
use cpp_ipc_dds.Control.{NackBitmap, is_missing}
use cpp_ipc_dds.NackSend.{is_lost}

-- `gap_bucket_of`
pub gap_bucket_of : ℕ → ℕ
gap_bucket_of len =
    if leb len 1
    then 0
    else if leb len 5
    then 1
    else if leb len 15
    then 2
    else if leb len 31
    then 3
    else if leb len 63
    then 4
    else if leb len 255
    then 5
    else 6

-- The locals of `record_fragment_gaps`, and the lengths of the runs that it has counted in
-- `gap_hist` and `gaps_total`, the last one first.
pub record GapScan : Type 0 where
  pub run : ℕ
  pub missing : ℕ
  pub local_max : ℕ
  pub gaps : List ℕ

abbrev pub close_run : GapScan → GapScan
close_run s =
    if ltb 0 s.run
    then record s { gaps = s.run ∷ s.gaps; local_max = max s.local_max s.run; run = 0 }
    else s

-- The loop over the pages from `i` on, with `left` pages to go.
pub scan_gaps : List ℕ → ℕ → ℕ → GapScan → GapScan
scan_gaps received i zero s = s
scan_gaps received i (suc left) s = scan_gaps received (i + 1) left (
    if is_lost received i
    then record s { run = s.run + 1; missing = s.missing + 1 }
    else close_run s)

-- `record_fragment_gaps`, where tracking is on.
pub record_fragment_gaps : List ℕ → ℕ → GapScan
unfolding scan_gaps
record_fragment_gaps received page_cnt =
    close_run
      (scan_gaps received 1 page_cnt (record { run = 0; missing = 0; local_max = 0; gaps = [] }))

-- The loop of `count_bitmap_runs` from `bit` on, with `left` bits to go.
pub bitmap_runs_from : NackBitmap → ℕ → ℕ → ℕ → Bool → ℕ
bitmap_runs_from nb page_cnt bit zero prev_missing = 0
bitmap_runs_from nb page_cnt bit (suc left) prev_missing =
    let page_id = nb.base_page + bit in
    let missing = is_missing nb (u16 page_id) in
    let rest = bitmap_runs_from nb page_cnt (bit + 1) left missing in
    if page_id == 0 || ltb page_cnt page_id
    then 0
    else if missing && not prev_missing
    then rest + 1
    else rest

pub count_bitmap_runs : NackBitmap → ℕ → ℕ
unfolding bitmap_runs_from
count_bitmap_runs nb page_cnt = bitmap_runs_from nb page_cnt 0 nb.bit_cnt false

-- The loop of `count_explicit_runs`, with `prev` where there was a page before.
pub explicit_runs_from : ℕ → Option ℕ → List ℕ → ℕ
explicit_runs_from page_cnt prev [] = 0
explicit_runs_from page_cnt prev (page ∷ pages) =
    let skipped = explicit_runs_from page_cnt prev pages in
    let rest = explicit_runs_from page_cnt (some page) pages in
    if page == 0 || ltb page_cnt page then skipped else elim prev [
      | none ↦ rest + 1
      | some before ↦ if page /= u16 (before + 1) then rest + 1 else rest
    ]

pub count_explicit_runs : List ℕ → ℕ → ℕ
unfolding explicit_runs_from
count_explicit_runs pages page_cnt = explicit_runs_from page_cnt none pages
