-- ===== src/Chunks/Reassembly.antt =====
-- The datagrams of one message, in any order and any number of times, give back its stream.
use cpp_ipc_dds.Common.{
  ℕ, zero, suc, ◌+◌, ◌-◌, ◌*◌, ◌≤◌, ◌<◌, ◌≡◌, refl, sym, ap, ◌∙◌, subst, ◌≢◌, Bool, true, some,
  List, [], ◌∷◌, arith, dec_lt, ℕ_discrete, length, get_or, set, drop, replicate, concat, slice,
  overwrite, length-set, length-drop, length-overwrite, slice-overwrite_self,
  slice-overwrite_before, slice-overwrite_behind, get_or-set_ne, drop-set, get_or-drop,
}
use cpp_ipc_dds.Framing.{TailMsg}
use native.Mathlib.Numerals.{add-one}
use cpp_ipc_dds.Chunks.Pages.{
  Full, page, length-page, rebuild, marks, marks-set, marks_full, marks-replicate,
}
use cpp_ipc_dds.Chunks.{
  ChunkMeta, Assembly, parse_tail, accepts, store_page, place_page, place_pages, empty_assembly,
}
use cpp_ipc_dds.Chunks.Bounds.{
  IsSized, Allocated, empty_assembly-Allocated, accepts_lem, Placed, refused, again, stored,
  place_page-Placed,
}

-- A datagram that passes the tests of `place_page` is the page that it says it is. Others may
-- arrive too: they are refused.
abbrev pub Genuine : ChunkMeta → List (List ℕ) → List ℕ → Type 0
Genuine meta pages frame =
    (tail : TailMsg)
    → parse_tail frame ≡ some tail
    → accepts frame tail meta ≡ true
    → frame ≡ page pages (tail.now_page - 1)

abbrev pub AllGenuine : ChunkMeta → List (List ℕ) → List (List ℕ) → Type 0
AllGenuine meta pages [] = Unit
AllGenuine meta pages (frame ∷ frames) = Genuine meta pages frame × AllGenuine meta pages frames

-- The pages are those of a message with this meta data.
pub record IsMessage (meta : ChunkMeta) (pages : List (List ℕ)) : Type 0 where
  pub sized : IsSized meta
  pub count : length pages ≡ meta.page_cnt
  pub total : length (concat pages) ≡ meta.total_size
  pub full : Full pages

-- A page whose flag is set stands at its place, and the flags are counted.
pub record Collects (meta : ChunkMeta) (pages : List (List ℕ)) (a : Assembly) : Type 0 where
  pub allocated : Allocated meta a
  pub held :
      (i : ℕ)
      → i < length pages
      → get_or a.received (suc i) 0 ≢ 0
      → slice a.assembled (i * 1472) (length (page pages i)) ≡ page pages i
  pub counted : a.received_cnt ≡ marks (drop 1 a.received)

pub empty_assembly-Collects :
    (meta : ChunkMeta) (pages : List (List ℕ)) → Collects meta pages (empty_assembly meta)
empty_assembly-Collects meta pages = record {
  allocated = empty_assembly-Allocated meta;
  held = λ i lt flag. absurd (flag (no_flag (meta.page_cnt + 1) (suc i)));
  counted = rw add-one (sym (marks-replicate meta.page_cnt));
}
  where
    no_flag : (n i : ℕ) → get_or {A = ℕ} (replicate n 0) i 0 ≡ 0
    no_flag zero i = refl
    no_flag (suc n) zero = refl
    no_flag (suc n) (suc i) = no_flag n i

module _ {meta : ChunkMeta} {pages : List (List ℕ)} (m : IsMessage meta pages) where
  -- The page `j` is stored at its place, and its flag was not set.
  store_at :
      (j : ℕ) (a : Assembly)
      → j * 1472 + length (page pages j) ≤ meta.total_size
      → get_or a.received (suc j) 1 ≡ 0
      → Collects meta pages a
      → (i : ℕ) → i < length pages
      → get_or (set a.received (suc j) 1) (suc i) 0 ≢ 0
      → slice (overwrite a.assembled (j * 1472) (page pages j)) (i * 1472) (length (page pages i))
        ≡ page pages i
  store_at j a fits free v i ilt flag = elim (ℕ_discrete i j) [
    | yes e ↦ rw e (
        slice-overwrite_self a.assembled (j * 1472) (page pages j)
          (omega (arith, v.allocated.bytes)))
    | no ne ↦ elim (dec_lt i j) [
      | yes below ↦
          slice-overwrite_before a.assembled (j * 1472) (page pages j) (i * 1472)
            (length (page pages i)) (omega (arith, length-page pages i m.full))
          ∙ v.held i ilt (old ne)
      | no above ↦
          slice-overwrite_behind a.assembled (j * 1472) (page pages j) (i * 1472)
            (length (page pages i)) (omega (arith, length-page pages j m.full))
          ∙ v.held i ilt (old ne)
    ]
  ]
    where
      old : i ≢ j → get_or a.received (suc i) 0 ≢ 0
      old ne = rw (get_or-set_ne a.received (suc j) (suc i) 1 0 (omega arith)) at flag

  store_page-Collects :
      (j : ℕ) (a : Assembly)
      → j * 1472 + length (page pages j) ≤ meta.total_size
      → get_or a.received (suc j) 1 ≡ 0
      → Collects meta pages a
      → Collects meta pages (store_page (page pages j) (suc j) a)
  unfolding store_page
  store_page-Collects j a fits free v =
      let place : suc j - 1 ≡ j = omega arith in
      rw place (record {
        allocated = record {
          bytes = length-overwrite a.assembled (j * 1472) (page pages j) ∙ v.allocated.bytes;
          flags = length-set a.received (suc j) 1 ∙ v.allocated.flags;
        };
        held = store_at j a fits free v;
        counted =
            rw
              (
                drop-set a.received j 1,
                marks-set (drop 1 a.received) j (get_or-drop a.received j 1 ∙ free),
                v.counted,
              )
              refl;
      })

  Placed-Collects :
      (frame : List ℕ) (a : Assembly) {r : Bool × Assembly}
      → Placed frame meta a r
      → Genuine meta pages frame
      → Collects meta pages a
      → Collects meta pages r.1
  Placed-Collects frame a (refused ref) g v = v
  Placed-Collects frame a (again tail p acc set_flag) g v = v
  Placed-Collects frame a (stored tail p acc free) g v =
      let known = accepts_lem frame tail meta m.sized acc in
      let number : suc (tail.now_page - 1) ≡ tail.now_page = omega (arith, known) in
      let stored_page =
        store_page-Collects (tail.now_page - 1) a (omega (arith, known, ap length (g tail p acc)))
          (rw number free) v in
      subst (λ (n : ℕ). Collects meta pages (store_page frame n a)) number
        (subst (λ f. Collects meta pages (store_page f (suc (tail.now_page - 1)) a))
          (sym (g tail p acc)) stored_page)

  -- Whatever arrives, in whatever order, the receiver collects the pages of the message.
  pub place_pages-Collects :
      (frames : List (List ℕ)) (a : Assembly)
      → AllGenuine meta pages frames
      → Collects meta pages a
      → Collects meta pages (place_pages meta frames a)
  unfolding place_pages
  place_pages-Collects [] a g v = v
  place_pages-Collects (frame ∷ frames) a g v =
      place_pages-Collects frames (place_page frame meta a).1 g.1
        (Placed-Collects frame a (place_page-Placed frame meta a) g.0 v)

  collected_all :
      (a : Assembly)
      → Collects meta pages a
      → meta.page_cnt ≤ a.received_cnt
      → a.assembled ≡ concat pages
  collected_all a v done =
      rebuild pages a.assembled m.full (v.allocated.bytes ∙ sym m.total) (λ i lt. v.held i lt (
        rw get_or-drop at (
          marks_full (drop 1 a.received) i
            (omega (arith, v.counted, v.allocated.flags, length-drop 1 a.received))
            (omega (arith, v.allocated.flags, m.count, length-drop 1 a.received)))))

-- The receiver starts with empty buffers and takes any datagrams in any order: the pages of the
-- message, repeated or not, and others that do not pass for one of them. When its counter reaches
-- the page count, the buffer is the stream that was cut into the pages.
pub place_pages_complete :
    (meta : ChunkMeta) (pages frames : List (List ℕ))
    → IsMessage meta pages
    → AllGenuine meta pages frames
    → meta.page_cnt ≤ (place_pages meta frames (empty_assembly meta)).received_cnt
    → (place_pages meta frames (empty_assembly meta)).assembled ≡ concat pages
place_pages_complete meta pages frames m g done =
    collected_all m _
      (place_pages-Collects m frames (empty_assembly meta) g (empty_assembly-Collects meta pages))
      done
