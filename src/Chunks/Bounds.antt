-- ===== src/Chunks/Bounds.antt =====
-- Any datagram at all, from anybody: no step of the reassembly leaves its buffers.
use cpp_ipc_dds.Common.{
  ℕ, ◌+◌, ◌-◌, ◌*◌, ◌≤◌, ◌<◌, ◌≡◌, refl, ◌∙◌, ◌≢◌, inl, inr, Bool, true, false, Option, none, some,
  List, arith, ◌/=◌, if◌then◌else◌, Bool-cases, length, get_or, length-set, length-replicate,
  length-overwrite,
}
use cpp_ipc_dds.Framing.{TailMsg}
use cpp_ipc_dds.Chunks.{
  ChunkMeta, Assembly, parse_tail, valid_chunk_meta, expected_page_size, accepts, place_page,
  store_page, empty_assembly,
}

-- What `valid_chunk_meta` lets through: the total size is that of `page_cnt` pages, the last one
-- with a tail at least, and the page numbers are far from the end of uint16_t, so that the loops
-- `for (uint16_t i = 1; i <= page_cnt; ++i)` end.
pub valid_chunk_meta_bounds :
    (tail : TailMsg)
    → valid_chunk_meta tail ≡ true
    → (1 ≤ tail.page_cnt)
      × ((tail.page_cnt - 1) * 1472 + 12 ≤ tail.total_size)
      × (tail.total_size ≤ tail.page_cnt * 1472)
      × (tail.page_cnt ≤ 45591)
unfolding valid_chunk_meta
valid_chunk_meta_bounds tail h = ground arith

-- The sizes that `valid_chunk_meta` has checked.
pub record IsSized (meta : ChunkMeta) : Type 0 where
  pub some_page : 1 ≤ meta.page_cnt
  pub least : (meta.page_cnt - 1) * 1472 + 12 ≤ meta.total_size
  pub most : meta.total_size ≤ meta.page_cnt * 1472
  pub few : meta.page_cnt ≤ 45591

-- The buffers have the sizes that the receiver allocated.
pub record Allocated (meta : ChunkMeta) (a : Assembly) : Type 0 where
  pub bytes : length a.assembled ≡ meta.total_size
  pub flags : length a.received ≡ meta.page_cnt + 1

pub empty_assembly-Allocated : (meta : ChunkMeta) → Allocated meta (empty_assembly meta)
empty_assembly-Allocated meta = record {
  bytes = length-replicate meta.total_size 0;
  flags = length-replicate (meta.page_cnt + 1) 0;
}

-- What a datagram that passes the tests of `place_page` is known to be.
pub accepts_lem :
    (frame : List ℕ) (tail : TailMsg) (meta : ChunkMeta)
    → IsSized meta
    → accepts frame tail meta ≡ true
    → (1 ≤ tail.now_page)
      × (tail.now_page ≤ meta.page_cnt)
      × ((tail.now_page - 1) * 1472 + length frame ≤ meta.total_size)
      × (length frame ≤ 1472)
unfolding accepts expected_page_size
accepts_lem frame tail meta s h = ground arith

-- The ways out of `place_page`.
pub data Placed (frame : List ℕ) (meta : ChunkMeta) (a : Assembly) : Bool × Assembly → Type 0 where
  refused :
      ((tail : TailMsg) → parse_tail frame ≡ some tail → accepts frame tail meta ≡ false)
      → Placed frame meta a (false, a)
  again :
      (tail : TailMsg)
      → parse_tail frame ≡ some tail
      → accepts frame tail meta ≡ true
      → get_or a.received tail.now_page 1 ≢ 0
      → Placed frame meta a (true, a)
  stored :
      (tail : TailMsg)
      → parse_tail frame ≡ some tail
      → accepts frame tail meta ≡ true
      → get_or a.received tail.now_page 1 ≡ 0
      → Placed frame meta a (true, store_page frame tail.now_page a)

module _ (frame : List ℕ) (meta : ChunkMeta) (a : Assembly) where
  by_flag :
      (tail : TailMsg)
      → parse_tail frame ≡ some tail
      → accepts frame tail meta ≡ true
      → (b : Bool) → (get_or a.received tail.now_page 1 /= 0) ≡ b
      → Placed frame meta a (if b then (true, a) else (true, store_page frame tail.now_page a))
  by_flag tail p acc true e = again tail p acc (ground arith)
  by_flag tail p acc false e = stored tail p acc (ground arith)

  by_tail :
      (o : Option TailMsg)
      → parse_tail frame ≡ o
      → Placed frame meta a (elim o [
        | none ↦ (false, a)
        | some tail ↦
            if accepts frame tail meta
            then if get_or a.received tail.now_page 1 /= 0
              then (true, a)
              else (true, store_page frame tail.now_page a)
            else (false, a)
      ])
  by_tail none p = refused (λ tail e. cc)
  by_tail (some tail) p = elim (Bool-cases (accepts frame tail meta)) [
    | inl acc ↦ rw acc (by_flag tail p acc _ refl)
    | inr ref ↦ rw ref (refused (λ other e. cc))
  ]

  pub place_page-Placed : Placed frame meta a (place_page frame meta a)
  unfolding place_page
  place_page-Placed = by_tail (parse_tail frame) refl

Placed-Allocated :
    {frame : List ℕ} {meta : ChunkMeta} {a : Assembly} {r : Bool × Assembly}
    → Placed frame meta a r
    → Allocated meta a
    → Allocated meta r.1
unfolding store_page
Placed-Allocated (refused ref) v = v
Placed-Allocated (again tail p acc set_flag) v = v
Placed-Allocated {frame} {meta} {a} (stored tail p acc free) v = record {
  bytes = length-overwrite a.assembled ((tail.now_page - 1) * 1472) frame ∙ v.bytes;
  flags = length-set a.received tail.now_page 1 ∙ v.flags;
}

pub place_page-Allocated :
    (frame : List ℕ) (meta : ChunkMeta) (a : Assembly)
    → Allocated meta a
    → Allocated meta (place_page frame meta a).1
place_page-Allocated frame meta a v = Placed-Allocated (place_page-Placed frame meta a) v

-- Where an accepted datagram is written, and which flag it sets.
abbrev pub InBounds : List ℕ → Assembly → Type 0
InBounds frame a =
    (tail : TailMsg) × (parse_tail frame ≡ some tail)
    × ((tail.now_page - 1) * 1472 + length frame ≤ length a.assembled)
    × (1 ≤ tail.now_page)
    × (tail.now_page < length a.received)

Placed-InBounds :
    {frame : List ℕ} {meta : ChunkMeta} {a : Assembly} {r : Bool × Assembly}
    → Placed frame meta a r
    → IsSized meta
    → Allocated meta a
    → r.0 ≡ true
    → InBounds frame a
Placed-InBounds (refused ref) s v e = cc
Placed-InBounds {frame} {meta} (again tail p acc set_flag) s v e = (
  tail,
  p,
  omega (arith, v.bytes, accepts_lem frame tail meta s acc),
  omega (arith, accepts_lem frame tail meta s acc),
  omega (arith, v.flags, accepts_lem frame tail meta s acc),
)
Placed-InBounds {frame} {meta} (stored tail p acc free) s v e = (
  tail,
  p,
  omega (arith, v.bytes, accepts_lem frame tail meta s acc),
  omega (arith, accepts_lem frame tail meta s acc),
  omega (arith, v.flags, accepts_lem frame tail meta s acc),
)

-- A datagram that `place_page` accepts, whatever its bytes are, lies at its place inside
-- `assembled`, and its flag inside `received`, once `valid_chunk_meta` has passed on the sizes.
pub place_page-InBounds :
    (frame : List ℕ) (meta : ChunkMeta) (a : Assembly)
    → IsSized meta
    → Allocated meta a
    → (place_page frame meta a).0 ≡ true
    → InBounds frame a
place_page-InBounds frame meta a s v e = Placed-InBounds (place_page-Placed frame meta a) s v e
