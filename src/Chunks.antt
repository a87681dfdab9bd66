-- ===== src/Chunks.antt =====
-- Datagrams of src/dzIPC/common/data_rev.cc: a framed stream is cut into datagrams of at most 1472
-- bytes, each of which ends in its tail, and the receiver puts them together again. A buffer is the
-- list of its bytes.
pub mod Bounds
pub mod Pages
pub mod Split
pub mod Reassembly
pub mod Sender
pub mod Arrival
pub mod Receipt
pub mod Delivery
mod Tests
use cpp_ipc_dds.Common.{
  ℕ, zero, suc, ◌+◌, ◌-◌, ◌*◌, ◌/◌, ◌%◌, ◌^◌, Bool, true, false, ◌&&◌, ◌||◌, Option, none, some,
  List, [], ◌∷◌, ltb, leb, ◌==◌, ◌/=◌, if◌then◌else◌, length, get_or, set, take, drop, replicate,
  overwrite, u8, u16,
}
use cpp_ipc_dds.Framing.{TailMsg, be16, be32}

-- `UDP_MAX_SIZE` and `MAX_RECV_TOTAL_SIZE`; `TAIL_SIZE` is 12.
abbrev pub udp_max_size : ℕ
udp_max_size = 1472

abbrev pub max_recv_total_size : ℕ
max_recv_total_size = 64 * 1024 * 1024

-- `chunk_meta`
pub record ChunkMeta : Type 0 where
  pub page_cnt : ℕ
  pub total_size : ℕ
  pub msg_id : ℕ
  pub sequence : ℕ

-- `parse_tail`; `none` where the function returns false.
pub parse_tail : List ℕ → Option TailMsg
parse_tail buf =
    let n = length buf in
    if ltb n 12
    then none
    else some (record {
      page_cnt = be16 buf (n - 12);
      now_page = be16 buf (n - 10);
      total_size = be32 buf (n - 8);
      msg_id = be32 buf (n - 4);
    })

-- `write_now_page`, without its assertion, which a release build drops.
pub write_now_page : List ℕ → ℕ → List ℕ
write_now_page chunk now_page =
    let n = length chunk in
    if ltb n 12
    then chunk
    else set (set chunk (n - 10) (u8 (now_page / 2 ^ 8))) (n - 9) (u8 now_page)

-- `valid_chunk_meta`. Page count and total size are small enough for the size_t arithmetic.
pub valid_chunk_meta : TailMsg → Bool
valid_chunk_meta tail =
    if tail.page_cnt == 0 || ltb tail.total_size 12
    then false
    else if ltb max_recv_total_size tail.total_size
    then false
    else let max_total = tail.page_cnt * udp_max_size in
      let min_total = if tail.page_cnt == 0 then 12 else (tail.page_cnt - 1) * udp_max_size + 12 in
      leb min_total tail.total_size && leb tail.total_size max_total

-- `expected_page_size`, with the wrap-around of size_t.
pub expected_page_size : ChunkMeta → ℕ → ℕ
expected_page_size meta now_page =
    if now_page == meta.page_cnt
    then (meta.total_size + 2 ^ 64 - (now_page - 1) * udp_max_size) % 2 ^ 64
    else udp_max_size

-- The receiver's buffers `assembled`, `received` (index 0 is unused) and `received_cnt`.
pub record Assembly : Type 0 where
  pub assembled : List ℕ
  pub received : List ℕ
  pub received_cnt : ℕ

-- The buffers of `recv_chunk_common_impl` before the first page.
abbrev pub empty_assembly : ChunkMeta → Assembly
empty_assembly meta = record {
  assembled = replicate meta.total_size 0;
  received = replicate (meta.page_cnt + 1) 0;
  received_cnt = 0;
}

-- The part of `place_page` behind its tests.
pub store_page : List ℕ → ℕ → Assembly → Assembly
store_page frame now_page a = record {
  assembled = overwrite a.assembled ((now_page - 1) * udp_max_size) frame;
  received = set a.received now_page 1;
  received_cnt = a.received_cnt + 1;
}

-- The tests of `place_page` on a tail that was parsed.
pub accepts : List ℕ → TailMsg → ChunkMeta → Bool
unfolding expected_page_size
accepts frame tail meta =
    if tail.page_cnt /= meta.page_cnt
      || tail.total_size /= meta.total_size
      || tail.msg_id /= meta.msg_id
    then false
    else if tail.now_page == 0 || ltb meta.page_cnt tail.now_page
    then false
    else length frame == expected_page_size meta tail.now_page

-- `place_page`. A read of `received` out of range is 1 here: `Bounds` shows that there is none.
pub place_page : List ℕ → ChunkMeta → Assembly → Bool × Assembly
unfolding parse_tail accepts store_page
place_page frame meta a = elim (parse_tail frame) [
  | none ↦ (false, a)
  | some tail ↦
      if accepts frame tail meta
      then if get_or a.received tail.now_page 1 /= 0
        then (true, a)
        else (true, store_page frame tail.now_page a)
      else (false, a)
]

-- The calls of `place_page` on the datagrams that arrive, in their order.
pub place_pages : ChunkMeta → List (List ℕ) → Assembly → Assembly
unfolding place_page
place_pages meta [] a = a
place_pages meta (frame ∷ frames) a = place_pages meta frames (place_page frame meta a).1

-- The loop of `chunk_send_ex` that cuts the stream into views of at most 1472 bytes. The fuel is the
-- length of the stream: each round takes a byte at least.
pub split_from : ℕ → List ℕ → List (List ℕ)
split_from fuel [] = []
split_from zero (x ∷ xs) = []
split_from (suc fuel) (x ∷ xs) =
    take udp_max_size (x ∷ xs) ∷ split_from fuel (drop udp_max_size (x ∷ xs))

pub split_chunks : List ℕ → List (List ℕ)
unfolding split_from
split_chunks stream = split_from (length stream) stream

-- The loop of `chunk_send_ex` that numbers the datagrams from `i + 1` on; `none` where it returns
-- FailedInvalidArgument.
pub number_chunks : ℕ → List (List ℕ) → Option (List (List ℕ))
number_chunks i [] = some []
number_chunks i (c ∷ cs) =
    let rest = number_chunks (i + 1) cs in
    if ltb (length c) 12
    then none
    else elim rest [ none ↦ none | some ds ↦ some (write_now_page c (u16 (i + 1)) ∷ ds) ]

-- The checks of `chunk_send_ex` on the tail of the first datagram, once all are numbered.
pub check_tail : Option TailMsg → List (List ℕ) → Option (List (List ℕ))
check_tail none ds = none
check_tail (some tail) ds =
    if valid_chunk_meta tail && tail.page_cnt == length ds then some ds else none

pub checked : List (List ℕ) → Option (List (List ℕ))
checked [] = none
checked (d ∷ ds) = check_tail (parse_tail d) (d ∷ ds)

-- `chunk_send_ex` up to the first send: the datagrams of a stream, or `none` for
-- FailedInvalidArgument.
pub prepare_chunks : List ℕ → Option (List (List ℕ))
prepare_chunks stream =
    if ltb (length stream) 12
    then none
    else elim (number_chunks 0 (split_chunks stream)) [ none ↦ none | some ds ↦ checked ds ]
