-- ===== src/Chunks/Receipt.antt =====
-- What arrives of a message at the receiver, and what the receiver has in its buffer then.
use cpp_ipc_dds.Common.{
  ℕ, ◌+◌, ◌-◌, ◌<◌, zero-add, ◌≡◌, refl, sym, ap, ◌∙◌, false, some, List, [], ◌∷◌, ◌++◌, arith,
  length, concat, length-append,
}
use cpp_ipc_dds.Framing.{TailMsg, MsgBase, tail_bytes}
use cpp_ipc_dds.Framing.Stream.{framed, framed_len, length-framed}
use cpp_ipc_dds.Chunks.{ChunkMeta, parse_tail, accepts, place_pages, empty_assembly}
use cpp_ipc_dds.Chunks.Pages.{page}
use cpp_ipc_dds.Chunks.Split.{
  Blocks, framed-joined, concat-pages_of, length-pages_of, pages_of-Full,
}
use cpp_ipc_dds.Chunks.Sender.{Sendable, datagrams, length-Blocks, parse_tail-datagrams}
use cpp_ipc_dds.Chunks.Reassembly.{IsMessage, Genuine, AllGenuine, place_pages_complete}
use cpp_ipc_dds.Chunks.Arrival.{Among, Tailed, place_pages_counts}

-- What the receiver knows of a message before its first page: the meta data of a heartbeat or of
-- a first datagram.
abbrev pub announced : MsgBase → ℕ → ChunkMeta
announced b sequence = record {
  page_cnt = b.total_page_cnt;
  total_size = b.total_size;
  msg_id = b.msg_id;
  sequence = sequence;
}

-- A datagram that arrives: one of the message, or one that the tests of `place_page` refuse.
pub data Arrives (meta : ChunkMeta) (pages : List (List ℕ)) (frame : List ℕ) : Type 0 where
  sent : (i : ℕ) → i < length pages → page pages i ≡ frame → Arrives meta pages frame
  foreign :
      ((tail : TailMsg) → parse_tail frame ≡ some tail → accepts frame tail meta ≡ false)
      → Arrives meta pages frame

abbrev pub AllArrive : ChunkMeta → List (List ℕ) → List (List ℕ) → Type 0
AllArrive meta pages [] = Unit
AllArrive meta pages (frame ∷ frames) = Arrives meta pages frame × AllArrive meta pages frames

Arrives-Genuine :
    {meta : ChunkMeta} {pages : List (List ℕ)} {frame : List ℕ}
    → Tailed meta pages
    → Arrives meta pages frame
    → Genuine meta pages frame
Arrives-Genuine tails (foreign ref) tail p acc = absurd (let bad = ref tail p in cc)
Arrives-Genuine {meta} {pages} tails (sent i h e) tail p acc =
    let said = tails i h in
    let same : record {
      page_cnt = meta.page_cnt;
      now_page = i + 1;
      total_size = meta.total_size;
      msg_id = meta.msg_id;
    }
        ≡ tail =
      cc in
    let number : i ≡ tail.now_page - 1 = omega (arith, ap (λ (x : TailMsg). x.now_page) same) in
    sym e ∙ ap (page pages) number

pub AllArrive-Genuine :
    (meta : ChunkMeta) (pages frames : List (List ℕ))
    → Tailed meta pages
    → AllArrive meta pages frames
    → AllGenuine meta pages frames
AllArrive-Genuine meta pages [] tails all = tt
AllArrive-Genuine meta pages (frame ∷ frames) tails all =
    (Arrives-Genuine tails all.0, AllArrive-Genuine meta pages frames tails all.1)

module _ (b : MsgBase) (sequence : ℕ) (bs : List (List ℕ)) (v : Blocks bs)
    (s : Sendable b (concat bs)) where
  pub datagrams-Tailed : Tailed (announced b sequence) (datagrams b bs)
  datagrams-Tailed i h =
      parse_tail-datagrams b bs v s i
        (omega (arith, length-pages_of (tail_bytes b) (λ p. refl) (tail_bytes b (length bs)) 0 bs))

  datagrams-concat :
      concat (datagrams b bs) ≡ framed (tail_bytes b) 0 (concat bs) ++ tail_bytes b (length bs)
  datagrams-concat =
      concat-pages_of (tail_bytes b) (λ p. refl) (tail_bytes b (length bs)) 0 bs v
      ∙ sym (framed-joined (tail_bytes b) (λ p. refl) (tail_bytes b (length bs)) 0 bs v)

  length-datagrams : length (concat (datagrams b bs)) ≡ b.total_size
  length-datagrams = omega (
    arith,
    s.total,
    ap length datagrams-concat,
    length-append (framed (tail_bytes b) 0 (concat bs)) (tail_bytes b (length bs)),
    length-framed (tail_bytes b) 0 (concat bs) (λ p. refl),
    ap framed_len (zero-add (length (concat bs))),
  )

  pub datagrams-IsMessage : IsMessage (announced b sequence) (datagrams b bs)
  datagrams-IsMessage = record {
    sized = record {
      some_page = omega (arith, s.pages);
      least = omega (arith, s.pages, s.total);
      most = omega (arith, s.pages, s.total);
      few = omega (arith, s.pages, s.total, s.small);
    };
    count = omega (
      arith,
      s.pages,
      length-Blocks bs v,
      length-pages_of (tail_bytes b) (λ p. refl) (tail_bytes b (length bs)) 0 bs,
    );
    total = length-datagrams;
    full = pages_of-Full (tail_bytes b) (λ p. refl) (tail_bytes b (length bs)) 0 bs v refl;
  }

  pub received :
      (frames : List (List ℕ))
      → AllArrive (announced b sequence) (datagrams b bs) frames
      → ((i : ℕ) → i < length (datagrams b bs) → Among (page (datagrams b bs) i) frames)
      → let a = place_pages (announced b sequence) frames (empty_assembly (announced b sequence)) in
        (a.received_cnt ≡ b.total_page_cnt)
        × (a.assembled ≡ framed (tail_bytes b) 0 (concat bs) ++ tail_bytes b (length bs))
  received frames arrive every =
      let g =
        AllArrive-Genuine (announced b sequence) (datagrams b bs) frames datagrams-Tailed arrive in
      let counts =
        place_pages_counts (announced b sequence) (datagrams b bs) frames datagrams-IsMessage
          datagrams-Tailed g every in
      (
        counts,
        place_pages_complete (announced b sequence) (datagrams b bs) frames datagrams-IsMessage g
              (omega (arith, counts))
            ∙ datagrams-concat,
      )
