-- ===== src/DzFlat.antt =====
-- The flat segments of include/ipc_msg/ipc_msg_base/dzflat.h: a header of 32 bytes, the root record of
-- the message, and an area of variable length to which `Writer` appends and in which `Reader` looks
-- up what a `VarRef` names. A segment is the list of its bytes; a null pointer is the empty list.
pub mod Header
pub mod Append
pub mod Strings
pub mod Bounds
mod Tests
use cpp_ipc_dds.Common.{
  ℕ, ◌+◌, ◌-◌, ◌*◌, ◌/◌, ◌^◌, Bool, true, false, not, ◌&&◌, ◌||◌, Option, none, some, List, [],
  ◌++◌, ltb, leb, ◌==◌, ◌/=◌, if◌then◌else◌, length, take, replicate, slice, overwrite, u32,
  le_bytes, of_le,
}

-- `kMagic`
abbrev pub magic : ℕ
magic = 0x4C465A44

-- `kLayoutVer`
abbrev pub layout_ver : ℕ
layout_ver = 1

-- `align_up`
abbrev pub align_up : ℕ → ℕ
align_up n = u32 (n + 7) / 8 * 8

-- The members of `SegHeader` in the order of their bytes.
abbrev pub header_bytes : ℕ → ℕ → ℕ → ℕ → List ℕ
header_bytes schema_hash root_size total_size msg_id =
    le_bytes 4 magic
    ++ (le_bytes 4 schema_hash
        ++ (le_bytes 4 32
            ++ (le_bytes 4 root_size
                ++ (le_bytes 4 total_size
                    ++ (le_bytes 2 layout_ver
                        ++ (le_bytes 2 0 ++ (le_bytes 4 msg_id ++ le_bytes 4 0)))))))

-- `write_header`
unfoldable pub write_header : List ℕ → ℕ → ℕ → ℕ → ℕ → List ℕ
write_header seg schema_hash root_size total_size msg_id =
    overwrite seg 0 (header_bytes schema_hash root_size total_size msg_id)

-- Members of the header of a segment: those of `SegHeader` that the code reads.
abbrev pub magic_of : List ℕ → ℕ
magic_of p = of_le (slice p 0 4)

abbrev pub schema_hash_of : List ℕ → ℕ
schema_hash_of p = of_le (slice p 4 4)

abbrev pub root_off_of : List ℕ → ℕ
root_off_of p = of_le (slice p 8 4)

abbrev pub root_size_of : List ℕ → ℕ
root_size_of p = of_le (slice p 12 4)

abbrev pub total_size_of : List ℕ → ℕ
total_size_of p = of_le (slice p 16 4)

abbrev pub layout_ver_of : List ℕ → ℕ
layout_ver_of p = of_le (slice p 20 2)

abbrev pub msg_id_of : List ℕ → ℕ
msg_id_of p = of_le (slice p 24 4)

-- `has_dzflat_magic`
unfoldable pub has_dzflat_magic : List ℕ → Bool
has_dzflat_magic p = leb 4 (length p) && magic_of p == magic

-- `looks_like_dzflat`
unfoldable pub looks_like_dzflat : List ℕ → Bool
looks_like_dzflat p =
    leb 32 (length p)
    && (magic_of p == magic
        && (layout_ver_of p == layout_ver
            && (leb (total_size_of p) (length p) && root_off_of p == 32)))

-- `IpcMsgBase::dzflat_peek_msg_id`
unfoldable pub dzflat_peek_msg_id : List ℕ → Option ℕ
unfolding looks_like_dzflat
dzflat_peek_msg_id p = if looks_like_dzflat p then some (msg_id_of p) else none

-- `Reader`; one that is not valid is `none` where it is made.
pub record Reader : Type 0 where
  pub seg : List ℕ
  pub size : ℕ

-- `bind_segment`
unfoldable pub bind_segment : List ℕ → ℕ → ℕ → Option Reader
unfolding looks_like_dzflat
bind_segment p expect_hash root_size =
    if not (looks_like_dzflat p)
    then none
    else if schema_hash_of p /= expect_hash
    then none
    else if root_size_of p /= root_size
    then none
    else if ltb (total_size_of p) (32 + root_size)
    then none
    else some (record { seg = p; size = total_size_of p })

-- `VarRef`
pub record VarRef : Type 0 where
  pub off : ℕ
  pub cnt : ℕ

-- `Reader::in_bounds`
unfoldable pub in_bounds : Reader → ℕ → ℕ → ℕ → Bool
in_bounds rd off cnt stride =
    if off == 0
    then false
    else if leb rd.size off
    then false
    else if stride /= 0 && ltb ((rd.size - off) / stride) cnt
    then false
    else true

-- `Reader::as_span<T>` with `stride` for sizeof(T): the bytes of the elements.
unfoldable pub as_span : Reader → ℕ → VarRef → List ℕ
unfolding in_bounds
as_span rd stride r =
    if r.cnt == 0
    then []
    else if not (in_bounds rd r.off r.cnt stride)
    then []
    else slice rd.seg r.off (r.cnt * stride)

-- `Reader::as_string`
unfoldable pub as_string : Reader → VarRef → List ℕ
unfolding in_bounds
as_string rd r =
    if r.cnt == 0
    then []
    else if not (in_bounds rd r.off r.cnt 1)
    then []
    else slice rd.seg r.off r.cnt

-- `Reader::elem_at<T>`: the offset of the element.
unfoldable pub elem_at : Reader → ℕ → VarRef → ℕ → Option ℕ
unfolding in_bounds
elem_at rd stride r i =
    if leb r.cnt i
    then none
    else if not (in_bounds rd r.off r.cnt stride)
    then none
    else some (r.off + i * stride)

-- `Writer`
pub record Writer : Type 0 where
  pub seg : List ℕ
  pub cap : ℕ
  pub cur : ℕ
  pub ok : Bool

-- `Writer::reserve`
unfoldable pub reserve : ℕ → Writer → ℕ × Writer
reserve bytes w =
    let start = align_up w.cur in
    if ltb start w.cur || (ltb w.cap bytes || ltb (w.cap - bytes) start)
    then (0, record w { ok = false })
    else (
      start,
      record w {
        seg =
            if ltb w.cur start then overwrite w.seg w.cur (replicate (start - w.cur) 0) else w.seg;
        cur = start + bytes;
      },
    )

abbrev pub empty_ref : VarRef
empty_ref = record { off = 0; cnt = 0 }

-- `alloc_array<T>`: the reference; the span is the memory that it names.
unfoldable pub alloc_array : ℕ → ℕ → Writer → VarRef × Writer
unfolding reserve
alloc_array stride n w =
    let r = reserve (n * stride) w in
    if n == 0
    then (empty_ref, w)
    else if ltb ((2 ^ 32 - 1) / stride) n
    then (empty_ref, w)
    else if r.0 == 0
    then (empty_ref, r.1)
    else (record { off = r.0; cnt = n }, r.1)

-- `put_string`: the reference, the result, and the writer.
unfoldable pub put_string : List ℕ → Writer → (VarRef × Bool) × Writer
unfolding reserve
put_string sv w =
    let n = u32 (length sv) in
    let r = reserve n w in
    if n == 0 then ((empty_ref, true), w) else if r.0 == 0 then ((empty_ref, false), r.1) else (
      (record { off = r.0; cnt = n }, true),
      record r.1 { seg = overwrite r.1.seg r.0 (take n sv) },
    )

-- `varlen_start`
abbrev pub varlen_start : ℕ → ℕ
varlen_start root_size = align_up (u32 (32 + root_size))
