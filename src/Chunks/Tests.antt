-- ===== src/Chunks/Tests.antt =====
-- The theorems about the datagrams at a message of two pages.
use cpp_ipc_dds.Common.{
  ℕ, zero, suc, ◌≤◌, ◌<◌, ◌≡◌, refl, inl, inr, true, false, some, List, [], ◌∷◌, ◌++◌, arith,
  length, replicate, concat,
}
use cpp_ipc_dds.Framing.{
  MsgBase, TailMsg, tail_bytes, serialize_data_cut, serialize_fields, adapt_memcpy_tos, tos_cut,
  add_tail_msg, deserialize_data_cut, deserialize_fields,
}
use cpp_ipc_dds.Framing.Stream.{framed_len}
use cpp_ipc_dds.Framing.RoundTrip.{lengths}
use cpp_ipc_dds.Chunks.{
  ChunkMeta, parse_tail, expected_page_size, store_page, valid_chunk_meta, accepts, place_page,
  place_pages, empty_assembly, prepare_chunks, split_from, split_chunks, number_chunks, check_tail,
  checked, write_now_page,
}
use cpp_ipc_dds.Chunks.Delivery.{delivery, prepare_chunks-serialize_fields}
use cpp_ipc_dds.Chunks.Receipt.{announced, sent, foreign, AllArrive, AllArrive-Genuine}
use cpp_ipc_dds.Chunks.Pages.{page}
use cpp_ipc_dds.Chunks.Bounds.{InBounds, empty_assembly-Allocated, place_page-InBounds}
use cpp_ipc_dds.Chunks.Reassembly.{IsMessage, AllGenuine, place_pages_complete}
use cpp_ipc_dds.Chunks.Arrival.{Among, Tailed}

abbrev fresh_base : MsgBase
fresh_base = record { total_size = 0; total_page_cnt = 0; msg_id = 7 }

abbrev two_fields : List (List ℕ)
two_fields = replicate 1461 7 ∷ (1 ∷ 2 ∷ []) ∷ []

abbrev sent_base : MsgBase
sent_base = serialize_data_cut 1463 fresh_base

abbrev first_page : List ℕ
first_page = replicate 1460 7 ++ tail_bytes sent_base 1

abbrev second_page : List ℕ
second_page = (7 ∷ 1 ∷ 2 ∷ []) ++ tail_bytes sent_base 2

abbrev two_pages : List (List ℕ)
two_pages = first_page ∷ second_page ∷ []

two_pages_sent :
    prepare_chunks (
      serialize_fields sent_base two_fields
        (record { buf = replicate 1487 0; page = 1; offset = 0 }))
    ≡ some two_pages
unfolding prepare_chunks split_chunks split_from number_chunks checked check_tail parse_tail
    valid_chunk_meta write_now_page serialize_fields adapt_memcpy_tos tos_cut add_tail_msg
two_pages_sent = refl

abbrev two_meta : ChunkMeta
two_meta = announced sent_base 5

-- The second page arrives first and twice, with an empty datagram between.
abbrev arrivals : List (List ℕ)
arrivals = second_page ∷ [] ∷ first_page ∷ second_page ∷ []

empty_refused : (tail : TailMsg) → parse_tail [] ≡ some tail → accepts [] tail two_meta ≡ false
unfolding parse_tail
empty_refused tail e = cc

arrivals-AllArrive : AllArrive two_meta two_pages arrivals
arrivals-AllArrive = (
  sent 1 (omega arith) refl,
  (foreign empty_refused, (sent 0 (omega arith) refl, (sent 1 (omega arith) refl, tt))),
)

every_page : (i : ℕ) → i < length two_pages → Among (page two_pages i) arrivals
every_page zero h = inr (inr (inl refl))
every_page (suc zero) h = inl refl
every_page (suc (suc i)) h = absurd (omega arith)

delivery_example :
    let a = place_pages two_meta arrivals (empty_assembly two_meta) in
    (a.received_cnt ≡ 2)
    × (deserialize_fields
          (deserialize_data_cut (length a.assembled) fresh_base)
          a.assembled
          (lengths two_fields)
          (record { offset = 0; overflow = false })
        ≡ (two_fields, record { offset = framed_len 1463; overflow = false }))
delivery_example =
    delivery fresh_base fresh_base 5 two_fields (replicate 1487 0) two_pages arrivals (omega arith)
      (omega arith) refl two_pages_sent arrivals-AllArrive every_page

prepare_chunks-serialize_fields_example :
    (ds : List (List ℕ)) × (prepare_chunks (
        serialize_fields sent_base two_fields
          (record { buf = replicate 1487 0; page = 1; offset = 0 }))
      ≡ some ds)
    × IsMessage (announced sent_base 0) ds
prepare_chunks-serialize_fields_example =
    prepare_chunks-serialize_fields fresh_base two_fields (replicate 1487 0) (omega arith)
      (omega arith) refl

two_pages-IsMessage : IsMessage two_meta two_pages
two_pages-IsMessage = record {
  sized = record {
    some_page = omega arith;
    least = omega arith;
    most = omega arith;
    few = omega arith;
  };
  count = refl;
  total = refl;
  full = (refl, omega arith);
}

two_pages-Tailed : Tailed two_meta two_pages
unfolding parse_tail
two_pages-Tailed zero h = refl
two_pages-Tailed (suc zero) h = refl
two_pages-Tailed (suc (suc i)) h = absurd (omega arith)

arrivals-AllGenuine : AllGenuine two_meta two_pages arrivals
arrivals-AllGenuine =
    AllArrive-Genuine two_meta two_pages arrivals two_pages-Tailed arrivals-AllArrive

both_received : 2 ≤ (place_pages two_meta arrivals (empty_assembly two_meta)).received_cnt
unfolding place_pages place_page parse_tail accepts expected_page_size store_page
both_received = omega arith

place_pages_complete_example :
    (place_pages two_meta arrivals (empty_assembly two_meta)).assembled ≡ concat two_pages
place_pages_complete_example =
    place_pages_complete two_meta two_pages arrivals two_pages-IsMessage arrivals-AllGenuine
      both_received

second_accepted : (place_page second_page two_meta (empty_assembly two_meta)).0 ≡ true
unfolding place_page parse_tail accepts expected_page_size store_page
second_accepted = refl

place_page-InBounds_example : InBounds second_page (empty_assembly two_meta)
place_page-InBounds_example =
    place_page-InBounds second_page two_meta (empty_assembly two_meta) two_pages-IsMessage.sized
      (empty_assembly-Allocated two_meta) second_accepted

abbrev two_tail : TailMsg
two_tail = record { page_cnt = 2; now_page = 1; total_size = 1487; msg_id = 7 }

two_tail_valid : valid_chunk_meta two_tail ≡ true
unfolding valid_chunk_meta
two_tail_valid = refl
