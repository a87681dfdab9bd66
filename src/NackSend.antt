-- ===== src/NackSend.antt =====
-- What a receiver asks for again: the NACK part of src/dzIPC/common/data_rev.cc. `received` is the
-- list of its flags, index 0 unused. The frames are the results; sending and counting are left out.
pub mod Scans
pub mod Selection
mod Tests
use cpp_ipc_dds.Common.{
  ℕ, zero, suc, ◌+◌, ◌-◌, ◌*◌, ◌/◌, min, Bool, not, ◌&&◌, ◌||◌, Option, none, some, List, [], ◌∷◌,
  ltb, ◌==◌, if◌then◌else◌, length, get_or,
}
use cpp_ipc_dds.Control.{
  Ident, Nack, NackBitmap, max_missing_pages, max_bitmap_bits, reset_window, set_missing,
}

-- `received[i] == 0`
abbrev pub is_lost : List ℕ → ℕ → Bool
is_lost received i = get_or received i 1 == 0

-- The loop of `send_nack_for_missing` from page `i` on, with `left` pages to go and room for `room`
-- numbers: it stops when the list is full.
pub list_missing : List ℕ → ℕ → ℕ → ℕ → List ℕ
list_missing received i zero room = []
list_missing received i (suc left) zero = []
list_missing received i (suc left) (suc room) =
    if is_lost received i
    then i ∷ list_missing received (i + 1) left room
    else list_missing received (i + 1) left (suc room)

-- `send_nack_for_missing`; `none` where it sends nothing.
pub send_nack_for_missing : Ident → List ℕ → Option Nack
unfolding list_missing
send_nack_for_missing ident received =
    let pages = list_missing received 1 ident.page_cnt max_missing_pages in
    if length pages == 0 then none else some (record { ident = ident; missing_pages = pages })

-- The locals `miss_cnt`, `first_missing` and `last_missing`.
pub record Scan : Type 0 where
  pub miss_cnt : ℕ
  pub first_missing : ℕ
  pub last_missing : ℕ

abbrev pub note : ℕ → Scan → Scan
note i s = record {
  miss_cnt = s.miss_cnt + 1;
  first_missing = if s.first_missing == 0 then i else s.first_missing;
  last_missing = i;
}

-- The loop over all pages, from `i` on with `left` pages to go.
pub scan_missing : List ℕ → ℕ → ℕ → Scan → Scan
scan_missing received i zero s = s
scan_missing received i (suc left) s =
    scan_missing received (i + 1) left (if is_lost received i then note i s else s)

abbrev pub scanned : Ident → List ℕ → Scan
scanned ident received =
    scan_missing received 1 ident.page_cnt
      (record { miss_cnt = 0; first_missing = 0; last_missing = 0 })

-- The loop that fills the window.
pub fill_window : List ℕ → ℕ → ℕ → NackBitmap → NackBitmap
fill_window received i zero m = m
fill_window received i (suc left) m =
    fill_window received (i + 1) left (if is_lost received i then set_missing m i else m)

-- `send_nack_bitmap_for_missing`; `none` where it returns false.
pub send_nack_bitmap_for_missing : Ident → List ℕ → Option NackBitmap
send_nack_bitmap_for_missing ident received =
    let s = scanned ident received in
    let span = s.last_missing - s.first_missing + 1 in
    let empty : NackBitmap = record { ident = ident; base_page = 0; bit_cnt = 0; bitmap = [] } in
    if s.first_missing == 0
    then none
    else some (fill_window received s.first_missing span (reset_window empty s.first_missing span))

-- The loop that counts the lost pages inside the window.
pub count_window : List ℕ → ℕ → ℕ → ℕ
count_window received i zero = 0
count_window received i (suc left) =
    let rest = count_window received (i + 1) left in if is_lost received i then rest + 1 else rest

-- What `send_nack_auto` sends.
pub data Sent : Type 0 where
  nothing : Sent
  page_list : Nack → Sent
  page_map : NackBitmap → Sent

abbrev pub sent_list : Option Nack → Sent
sent_list none = nothing
sent_list (some m) = page_list m

abbrev pub sent_map : Option NackBitmap → Option Nack → Sent
sent_map none fallback = sent_list fallback
sent_map (some m) fallback = page_map m

-- The numbers that `send_nack_auto` compares.
abbrev pub span_of : Scan → ℕ
span_of s = s.last_missing - s.first_missing + 1

abbrev pub bitmap_cover : Ident → List ℕ → ℕ
bitmap_cover ident received =
    let s = scanned ident received in
    if ltb max_bitmap_bits (span_of s)
    then count_window received s.first_missing
        (min (min (span_of s) max_bitmap_bits) (ident.page_cnt + 1 - s.first_missing))
    else s.miss_cnt

abbrev pub use_bitmap : Ident → List ℕ → Bool
use_bitmap ident received =
    let s = scanned ident received in
    let bitmap_bytes = (min (span_of s) max_bitmap_bits + 7) / 8 in
    let list_cover = min s.miss_cnt max_missing_pages in
    ltb list_cover (bitmap_cover ident received)
    || (bitmap_cover ident received == list_cover && ltb bitmap_bytes (list_cover * 2))

-- `send_nack_auto`
pub send_nack_auto : Ident → List ℕ → Bool → Sent
send_nack_auto ident received peer_supports_bitmap =
    let list = sent_list (send_nack_for_missing ident received) in
    if not peer_supports_bitmap
    then list
    else if (scanned ident received).miss_cnt == 0
    then nothing
    else if use_bitmap ident received
    then sent_map (send_nack_bitmap_for_missing ident received)
        (send_nack_for_missing ident received)
    else list
