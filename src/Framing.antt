-- ===== src/Framing.antt =====
-- The framing of include/ipc_msg/ipc_msg_base/ipc_msg_base.hpp (class IpcMsgBase): a payload is cut
-- into pages of 1460 bytes, and each page is followed by a tail of 12 bytes. A buffer is the list
-- of its bytes. Offsets and lengths are uint32_t, page numbers uint16_t.
pub mod Stream
pub mod Copy
pub mod Write
pub mod Read
pub mod Tail
pub mod RoundTrip
pub mod Safety
mod Tests
use cpp_ipc_dds.Common.{
  ℕ, zero, suc, ◌+◌, ◌-◌, ◌*◌, ◌/◌, ◌%◌, ◌^◌, min, Bool, true, false, not, ◌&&◌, ◌||◌, List, [],
  ◌∷◌, ◌++◌, ltb, leb, ◌==◌, if◌then◌else◌, length, get_or, replicate, slice, overwrite, u8, u16,
  u32, u64, sub32,
}

-- `IPC_MSG_MAX_SIZE` and `TAIL_MSG_SIZE`
abbrev pub page_data : ℕ
page_data = 1460

abbrev pub tail_size : ℕ
tail_size = 12

-- `ipc_tail_msg`
pub record TailMsg : Type 0 where
  pub page_cnt : ℕ
  pub now_page : ℕ
  pub total_size : ℕ
  pub msg_id : ℕ

-- The members of a message object that the framing reads: `_total_size`, `_total_page_cnt` and
-- `dz_ipc_msg_id`.
pub record MsgBase : Type 0 where
  pub total_size : ℕ
  pub total_page_cnt : ℕ
  pub msg_id : ℕ

-- `size_info`
pub record SizeInfo : Type 0 where
  pub page_cnt : ℕ
  pub total_size : ℕ

abbrev pub correct_total_size : ℕ → SizeInfo
correct_total_size len =
    let total_page = u16 (u16 (len / page_data) + 1) in
    record { page_cnt = total_page; total_size = u32 (len + total_page * tail_size) }

-- What `add_tail_msg` writes, high byte first.
abbrev pub tail_bytes : MsgBase → ℕ → List ℕ
tail_bytes b page =
    u8 (b.total_page_cnt / 2 ^ 8)
    ∷ u8 b.total_page_cnt
    ∷ u8 (page / 2 ^ 8)
    ∷ u8 page
    ∷ u8 (b.total_size / 2 ^ 24)
    ∷ u8 (b.total_size / 2 ^ 16)
    ∷ u8 (b.total_size / 2 ^ 8)
    ∷ u8 b.total_size
    ∷ u8 (b.msg_id / 2 ^ 24)
    ∷ u8 (b.msg_id / 2 ^ 16)
    ∷ u8 (b.msg_id / 2 ^ 8)
    ∷ u8 b.msg_id
    ∷ []

-- `add_tail_msg(dst + at, page)`
unfoldable pub add_tail_msg : MsgBase → List ℕ → ℕ → ℕ → List ℕ
add_tail_msg b buf at page = overwrite buf at (tail_bytes b page)

-- The bytes `buf[i]`, `buf[i + 1]` and `buf[i .. i + 3]` as numbers, high byte first.
abbrev pub be16 : List ℕ → ℕ → ℕ
be16 buf i = get_or buf i 0 * 2 ^ 8 + get_or buf (i + 1) 0

abbrev pub be32 : List ℕ → ℕ → ℕ
be32 buf i =
    get_or buf i 0 * 2 ^ 24
    + get_or buf (i + 1) 0 * 2 ^ 16
    + get_or buf (i + 2) 0 * 2 ^ 8
    + get_or buf (i + 3) 0

-- `check_id(data, expected_id)`
unfoldable pub check_id : List ℕ → ℕ → Bool
check_id buf expected = if ltb (length buf) 12 then false else be32 buf (length buf - 4) == expected

-- `get_tail_msg`: an empty buffer gives the zero tail. Of a buffer of 1 to 11 bytes the source reads
-- what stands in front of it; here the positions stop at 0, and no theorem speaks of such buffers.
pub get_tail_msg : List ℕ → TailMsg
get_tail_msg buf =
    let n = length buf in
    if ltb 0 n
    then record {
      page_cnt = be16 buf (n - 12);
      now_page = be16 buf (n - 10);
      total_size = be32 buf (n - 8);
      msg_id = be32 buf (n - 4);
    }
    else record { page_cnt = 0; now_page = 0; total_size = 0; msg_id = 0 }

-- Where a serializer stands: the allocated buffer, and its locals `page` and `offset`.
pub record Out : Type 0 where
  pub buf : List ℕ
  pub page : ℕ
  pub offset : ℕ

-- The `for` loop of `adapt_memcpy_tos`, with `cut` rounds left. `has` never exceeds the length of
-- the source, since a round copies at most what is left.
unfoldable pub tos_cut : MsgBase → List ℕ → ℕ → ℕ → ℕ → Out → ℕ × Out
unfolding add_tail_msg
tos_cut b src zero pure has o = (has, o)
tos_cut b src (suc cut) pure has o =
    let copy = min (page_data - pure % page_data) (length src - has) in
    let filled = overwrite o.buf o.offset (slice src has copy) in
    let behind = u32 (o.offset + copy) in
    let page = u16 (o.page + 1) in
    tos_cut b src cut (u32 (pure + copy)) (has + copy) (record {
      buf = add_tail_msg b filled behind page;
      page = page;
      offset = u32 (behind + tail_size);
    })

-- `adapt_memcpy_tos(dst, src, page, offset, local_data_len)` with the source as a list.
unfoldable pub adapt_memcpy_tos : MsgBase → List ℕ → Out → Out
unfolding tos_cut
adapt_memcpy_tos b src o =
    let pure = (o.offset + 2 ^ 32 + tail_size - o.page * tail_size) % 2 ^ 32 in
    let cut = sub32 (u32 (pure + length src) / page_data) (pure / page_data) in
    let (has, o') = tos_cut b src cut pure 0 o in
    let remaining = length src - has in
    if ltb 0 remaining
    then record o' {
      buf = overwrite o'.buf o'.offset (slice src has remaining);
      offset = u32 (o'.offset + remaining);
    }
    else o'

-- `serialize_data_cut`: the message object with its sizes set. The buffer that it allocates has
-- `total_size` bytes with any contents.
abbrev pub serialize_data_cut : ℕ → MsgBase → MsgBase
serialize_data_cut len b =
    let s = correct_total_size len in
    record b { total_size = s.total_size; total_page_cnt = s.page_cnt }

-- The calls of a generated serializer: one `adapt_memcpy_tos` for each field, then the last tail.
unfoldable pub serialize_fields : MsgBase → List (List ℕ) → Out → List ℕ
unfolding adapt_memcpy_tos add_tail_msg
serialize_fields b [] o = add_tail_msg b o.buf o.offset o.page
serialize_fields b (f ∷ fs) o = serialize_fields b fs (adapt_memcpy_tos b f o)

-- Where a deserializer stands: `offset`, and the flag `_deser_overflow`.
pub record Cursor : Type 0 where
  pub offset : ℕ
  pub overflow : Bool

-- `tods_in_range(at, len)`
abbrev pub tods_in_range : ℕ → ℕ → ℕ → Bool
tods_in_range total at len = leb at total && leb len (total - at)

-- The `for` loop of `adapt_memcpy_tods`, with `cut` rounds left. It returns the bytes written to
-- `dst` so far, with a flag that tells whether it returned from the function.
unfoldable pub tods_cut : MsgBase → List ℕ → ℕ → ℕ → ℕ → List ℕ → Cursor → List ℕ × Cursor × Bool
tods_cut b src len zero pure dst c = (dst, c, false)
tods_cut b src len (suc cut) pure dst c =
    let copy = min (page_data - pure % page_data) (len - length dst) in
    let more =
      tods_cut b src len cut (u32 (pure + copy)) (dst ++ slice src c.offset copy)
        (record c { offset = u32 (c.offset + copy + tail_size) }) in
    if tods_in_range b.total_size c.offset copy
    then more
    else (dst ++ replicate (len - length dst) 0, record c { overflow = true }, true)

-- The copy of `adapt_memcpy_tods` behind the loop.
unfoldable pub tods_rest : MsgBase → List ℕ → ℕ → List ℕ → Cursor → List ℕ × Cursor
tods_rest b src len dst c =
    let remaining = len - length dst in
    if ltb 0 remaining
    then if tods_in_range b.total_size c.offset remaining
      then (dst ++ slice src c.offset remaining, record c { offset = u32 (c.offset + remaining) })
      else (dst ++ replicate remaining 0, record c { overflow = true })
    else (dst, c)

-- `adapt_memcpy_tods(dst, src, offset, local_data_len)`: what it leaves in the `len` bytes of `dst`.
-- The null pointers that it refuses first do not occur in this model.
unfoldable pub adapt_memcpy_tods : MsgBase → List ℕ → ℕ → Cursor → List ℕ × Cursor
unfolding tods_cut tods_rest
adapt_memcpy_tods b src len c =
    let passed = c.offset / (page_data + tail_size) in
    let pure = c.offset - passed * tail_size in
    let cut = sub32 (u32 (pure + len) / page_data) (pure / page_data) in
    let (dst, c', stopped) = tods_cut b src len cut pure [] c in
    if stopped then (dst, c') else tods_rest b src len dst c'

-- `deserialize_data_cut`, which also clears the overflow flag.
abbrev pub deserialize_data_cut : ℕ → MsgBase → MsgBase
deserialize_data_cut len b = record b {
  total_size = len;
  total_page_cnt = u16 (u16 (len / (page_data + tail_size)) + 1);
}

-- `tods_count_ok(at, count, min_elem_size)`, with `count` as the bit pattern of an int64_t; a
-- refusal also sets the overflow flag.
pub tods_count_ok : MsgBase → ℕ → ℕ → ℕ → Cursor → Bool × Cursor
tods_count_ok b at count elem c =
    let need = u64 (count * (if ltb 0 elem then elem else 1)) in
    if leb (2 ^ 63) count
    then (false, record c { overflow = true })
    else if ltb 0xFFFFFFFF need || not (tods_in_range b.total_size at need)
    then (false, record c { overflow = true })
    else (true, c)

-- `to_pure_offset`
abbrev pub to_pure_offset : ℕ → ℕ
to_pure_offset offset = offset - offset / (page_data + tail_size) * tail_size

-- `region_is_contiguous`
pub region_is_contiguous : ℕ → ℕ → Bool
region_is_contiguous offset len = ltb (u32 (to_pure_offset offset % page_data + len)) page_data

-- The calls of a deserializer: one `adapt_memcpy_tods` for each field, given the lengths.
pub deserialize_fields : MsgBase → List ℕ → List ℕ → Cursor → List (List ℕ) × Cursor
unfolding adapt_memcpy_tods
deserialize_fields b src [] c = ([], c)
deserialize_fields b src (len ∷ lens) c =
    let (f, c') = adapt_memcpy_tods b src len c in
    let (fs, c'') = deserialize_fields b src lens c' in (f ∷ fs, c'')
