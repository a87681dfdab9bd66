-- ===== src/DzFlat/Header.antt =====
-- What `write_header` writes is recognized by its own type only.
use cpp_ipc_dds.Common.{
  ℕ, ◌+◌, ◌^◌, ◌≤◌, ◌<◌, ◌≡◌, refl, true, ◌&&◌, none, some, List, arith, ◌==◌, if◌then◌else◌,
  le→leb, length, drop, length-append, length-overwrite, overwrite_zero,
}
use cpp_ipc_dds.Control.Frames.{of_le-le_bytes}
use cpp_ipc_dds.DzFlat.{
  magic, header_bytes, write_header, magic_of, schema_hash_of, root_off_of, root_size_of,
  total_size_of, layout_ver_of, msg_id_of, looks_like_dzflat, dzflat_peek_msg_id, bind_segment,
}

-- The members as they are read back.
pub record Headed (h r t m : ℕ) (p : List ℕ) : Type 0 where
  pub magic_lem : magic_of p ≡ magic
  pub hash : schema_hash_of p ≡ h
  pub root_off : root_off_of p ≡ 32
  pub root_size : root_size_of p ≡ r
  pub total : total_size_of p ≡ t
  pub layout : layout_ver_of p ≡ 1
  pub id : msg_id_of p ≡ m
  pub long : 32 ≤ length p

pub write_header-Headed :
    (seg : List ℕ) (schema_hash root_size total_size msg_id : ℕ)
    → 32 ≤ length seg
    → schema_hash < 2 ^ 32
    → root_size < 2 ^ 32
    → total_size < 2 ^ 32
    → msg_id < 2 ^ 32
    → Headed schema_hash root_size total_size msg_id
        (write_header seg schema_hash root_size total_size msg_id)
unfolding write_header
write_header-Headed seg h r t m long hh hr ht hm =
    rw (overwrite_zero seg (header_bytes h r t m) long) record {
      magic_lem = refl;
      hash = of_le-le_bytes 4 h hh;
      root_off = refl;
      root_size = of_le-le_bytes 4 r hr;
      total = of_le-le_bytes 4 t ht;
      layout = refl;
      id = of_le-le_bytes 4 m hm;
      long = omega (arith, length-append (header_bytes h r t m) (drop 32 seg));
    }

pub Headed-looks :
    {h r t m : ℕ} {p : List ℕ} → Headed h r t m p → t ≤ length p → looks_like_dzflat p ≡ true
unfolding looks_like_dzflat
Headed-looks {h} {r} {t} {m} {p} e fits =
    rw
      (
        le→leb 32 (length p) e.long,
        e.magic_lem,
        e.layout,
        e.total,
        le→leb t (length p) fits,
        e.root_off,
      )
      refl

pub length-write_header :
    (seg : List ℕ) (h r t m : ℕ) → length (write_header seg h r t m) ≡ length seg
unfolding write_header
length-write_header seg h r t m = length-overwrite seg 0 (header_bytes h r t m)

-- A segment of `total_size` bytes, the header and the root among them, that begins with a
-- written header of 32-bit members, is bound by a reader of the same schema hash and the same
-- root size, with its bytes, and refused to every other; and its message id is the one that was
-- written.
pub bind_segment-write_header :
    (seg : List ℕ) (schema_hash root_size total_size msg_id expect_hash expect_size : ℕ)
    → schema_hash < 2 ^ 32
    → msg_id < 2 ^ 32
    → 32 + root_size ≤ total_size
    → total_size ≤ length seg
    → total_size < 2 ^ 32
    → let p = write_header seg schema_hash root_size total_size msg_id in
      (bind_segment p expect_hash expect_size ≡ (
        if schema_hash == expect_hash && root_size == expect_size
        then some (record { seg = p; size = total_size })
        else none))
      × (dzflat_peek_msg_id p ≡ some msg_id)
unfolding bind_segment dzflat_peek_msg_id
bind_segment-write_header seg h r t m h' r' hh hm hr ht hw =
    let p = write_header seg h r t m in
    let e : Headed h r t m p =
      write_header-Headed seg h r t m (omega arith) hh (omega arith) hw hm in
    let looks : looks_like_dzflat p ≡ true =
      Headed-looks e (omega (arith, length-write_header seg h r t m)) in
    (rw (looks, e.hash, e.root_size, e.total) (ground (arith, hr)), rw (looks, e.id) refl)
