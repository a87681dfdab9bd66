-- ===== src/Chunks/Arrival.antt =====
-- The flags and the counter of the receiver: when every page has arrived, they say so.
use cpp_ipc_dds.Common.{
  ℕ, zero, suc, ◌+◌, ◌<◌, ◌≡◌, refl, sym, ap, ◌∙◌, subst, ◌≢◌, ◌⊎◌, inl, inr, Bool, true, some,
  List, [], ◌∷◌, arith, dec_lt, ℕ_discrete, length, get_or, set, drop, length-drop, get_or-set_self,
  get_or-set_ne, get_or-drop,
}
use cpp_ipc_dds.Framing.{TailMsg}
use native.Mathlib.Numerals.{add-one}
use cpp_ipc_dds.Chunks.{
  ChunkMeta, Assembly, parse_tail, expected_page_size, accepts, store_page, place_page, place_pages,
  empty_assembly,
}
use cpp_ipc_dds.Chunks.Pages.{page, length-page_inner, length-page_last, marks_all}
use cpp_ipc_dds.Chunks.Bounds.{
  Allocated, accepts_lem, Placed, refused, again, stored, place_page-Placed, place_page-Allocated,
  empty_assembly-Allocated,
}
use cpp_ipc_dds.Chunks.Reassembly.{
  IsMessage, AllGenuine, Collects, place_pages-Collects, empty_assembly-Collects,
}

-- The flag of page `i + 1` is set.
abbrev pub Flagged : Assembly → ℕ → Type 0
Flagged a i = get_or a.received (i + 1) 0 ≢ 0

-- `frame` is among the datagrams that arrive.
abbrev pub Among : List ℕ → List (List ℕ) → Type 0
Among frame [] = ⊥
Among frame (f ∷ fs) = (f ≡ frame) ⊎ Among frame fs

flag_default : (xs : List ℕ) (k : ℕ) → get_or xs k 1 ≡ 0 → get_or xs k 0 ≡ 0
flag_default [] k h = refl
flag_default (x ∷ xs) zero h = h
flag_default (x ∷ xs) (suc k) h = flag_default xs k h

flag_set : (xs : List ℕ) (k : ℕ) → k < length xs → get_or xs k 1 ≢ 0 → get_or xs k 0 ≢ 0
flag_set [] k lt h = absurd (omega arith)
flag_set (x ∷ xs) zero lt h = h
flag_set (x ∷ xs) (suc k) lt h = flag_set xs k (omega arith) h

flag_at : (xs : List ℕ) (i : ℕ) → get_or xs (i + 1) 0 ≢ 0 → get_or (drop 1 xs) i 0 ≢ 0
flag_at xs i h = rw (get_or-drop xs i 0, ← add-one i) h

-- A set flag stays set.
store_page-Flagged :
    (frame : List ℕ) (n : ℕ) (a : Assembly) (i : ℕ)
    → get_or a.received n 1 ≡ 0
    → Flagged a i
    → Flagged (store_page frame n a) i
unfolding store_page
store_page-Flagged frame n a i free f = elim (ℕ_discrete n (i + 1)) [
  | yes e ↦ absurd (f (rw e at (flag_default a.received n free)))
  | no ne ↦ rw (get_or-set_ne a.received n (i + 1) 1 0 ne) f
]

Placed-Flagged :
    (frame : List ℕ) (meta : ChunkMeta) (a : Assembly) {r : Bool × Assembly} (i : ℕ)
    → Placed frame meta a r
    → Flagged a i
    → Flagged r.1 i
Placed-Flagged frame meta a i (refused ref) f = f
Placed-Flagged frame meta a i (again tail p acc set_flag) f = f
Placed-Flagged frame meta a i (stored tail p acc free) f =
    store_page-Flagged frame tail.now_page a i free f

place_pages-Flagged :
    (meta : ChunkMeta) (frames : List (List ℕ)) (a : Assembly) (i : ℕ)
    → Flagged a i
    → Flagged (place_pages meta frames a) i
unfolding place_pages
place_pages-Flagged meta [] a i f = f
place_pages-Flagged meta (frame ∷ frames) a i f =
    place_pages-Flagged meta frames (place_page frame meta a).1 i
      (Placed-Flagged frame meta a i (place_page-Placed frame meta a) f)

-- A datagram that passes the tests has its flag set.
store_page-sets :
    (frame : List ℕ) (n : ℕ) (a : Assembly) (i : ℕ)
    → n ≡ i + 1
    → n < length a.received
    → Flagged (store_page frame n a) i
unfolding store_page
store_page-sets frame n a i e lt =
    let here : get_or (set a.received n 1) n 0 ≢ 0 =
      rw (get_or-set_self a.received n 1 0 lt) (omega arith) in
    subst (λ (k : ℕ). get_or (set a.received n 1) k 0 ≢ 0) e here

sets_flag :
    (frame : List ℕ) (tail : TailMsg) (meta : ChunkMeta) (a : Assembly) (i : ℕ)
    {r : Bool × Assembly}
    → Placed frame meta a r
    → parse_tail frame ≡ some tail
    → accepts frame tail meta ≡ true
    → tail.now_page ≡ i + 1
    → tail.now_page < length a.received
    → Flagged r.1 i
sets_flag frame tail meta a i (refused ref) p acc e lt = absurd (let bad = ref tail p in cc)
sets_flag frame tail meta a i (again t q acc' set_flag) p acc e lt =
    let same : t ≡ tail = cc in
    let there : t.now_page ≡ i + 1 = ap (λ (x : TailMsg). x.now_page) same ∙ e in
    flag_set a.received (i + 1) (omega arith) (λ z. set_flag (rw there z))
sets_flag frame tail meta a i (stored t q acc' free) p acc e lt =
    let same : t ≡ tail = cc in
    let there : t.now_page ≡ tail.now_page = ap (λ (x : TailMsg). x.now_page) same in
    store_page-sets frame t.now_page a i (there ∙ e) (omega arith)

-- Every page of the message passes the tests.
accepts_page :
    {meta : ChunkMeta} {pages : List (List ℕ)} (m : IsMessage meta pages) (i : ℕ) (tail : TailMsg)
    → i < length pages
    → tail.page_cnt ≡ meta.page_cnt
    → tail.total_size ≡ meta.total_size
    → tail.msg_id ≡ meta.msg_id
    → tail.now_page ≡ i + 1
    → accepts (page pages i) tail meta ≡ true
unfolding accepts expected_page_size
accepts_page {meta} {pages} m i tail h e1 e2 e3 e4 = elim (dec_lt (i + 1) (length pages)) [
  | yes inner ↦ ground (arith, h, e1, e2, e3, e4, m.count, length-page_inner pages i m.full inner)
  | no last ↦ ground (
    arith,
    h,
    e1,
    e2,
    e3,
    e4,
    m.count,
    m.sized.most,
    m.sized.few,
    m.total,
    length-page_last pages i m.full (omega arith),
  )
]

-- The datagram of page `i + 1` arrives, so its flag is set in the end.
arrived :
    {meta : ChunkMeta} {pages : List (List ℕ)} (m : IsMessage meta pages) (frames : List (List ℕ))
    (a : Assembly) (i : ℕ) (tail : TailMsg)
    → parse_tail (page pages i) ≡ some tail
    → accepts (page pages i) tail meta ≡ true
    → tail.now_page ≡ i + 1
    → Allocated meta a
    → Among (page pages i) frames
    → Flagged (place_pages meta frames a) i
unfolding place_pages
arrived m [] a i tail p acc n v among = absurd among
arrived {meta} {pages} m (frame ∷ frames) a i tail p acc n v (inl e) =
    place_pages-Flagged meta frames (place_page frame meta a).1 i (
      subst (λ (f : List ℕ). Flagged (place_page f meta a).1 i) (sym e)
        (sets_flag (page pages i) tail meta a i (place_page-Placed (page pages i) meta a) p acc n
          (omega (arith, v.flags, accepts_lem (page pages i) tail meta m.sized acc))))
arrived {meta} m (frame ∷ frames) a i tail p acc n v (inr rest) =
    arrived m frames (place_page frame meta a).1 i tail p acc n
      (place_page-Allocated frame meta a v) rest

-- The pages carry tails that say what they are.
abbrev pub Tailed : ChunkMeta → List (List ℕ) → Type 0
Tailed meta pages =
    (i : ℕ)
    → i < length pages
    → parse_tail (page pages i)
      ≡ some (record {
        page_cnt = meta.page_cnt;
        now_page = i + 1;
        total_size = meta.total_size;
        msg_id = meta.msg_id;
      })

-- When every page is among the datagrams that arrive, the counter reaches the page count, whatever
-- else arrives with them.
pub place_pages_counts :
    (meta : ChunkMeta) (pages frames : List (List ℕ))
    → IsMessage meta pages
    → Tailed meta pages
    → AllGenuine meta pages frames
    → ((i : ℕ) → i < length pages → Among (page pages i) frames)
    → (place_pages meta frames (empty_assembly meta)).received_cnt ≡ meta.page_cnt
place_pages_counts meta pages frames m tails g every = omega (
  arith,
  v.counted,
  v.allocated.flags,
  length-drop 1 (place_pages meta frames (empty_assembly meta)).received,
  marks_all (drop 1 (place_pages meta frames (empty_assembly meta)).received) flags,
)
  where
    v : Collects meta pages (place_pages meta frames (empty_assembly meta))
    v = place_pages-Collects m frames (empty_assembly meta) g (empty_assembly-Collects meta pages)

    flagged : (i : ℕ) → i < length pages → Flagged (place_pages meta frames (empty_assembly meta)) i
    flagged i h =
        arrived m frames (empty_assembly meta) i _ (tails i h)
          (accepts_page m i _ h refl refl refl refl) refl (empty_assembly-Allocated meta)
          (every i h)

    flags :
        (i : ℕ)
        → i < length (drop 1 (place_pages meta frames (empty_assembly meta)).received)
        → get_or (drop 1 (place_pages meta frames (empty_assembly meta)).received) i 0 ≢ 0
    flags i lt = flag_at (place_pages meta frames (empty_assembly meta)).received i (
        flagged i (
          omega (
            arith,
            v.allocated.flags,
            m.count,
            length-drop 1 (place_pages meta frames (empty_assembly meta)).received,
          )))
