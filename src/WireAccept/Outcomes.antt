-- ===== src/WireAccept/Outcomes.antt =====
-- The outcomes of `AcceptWire`, for every message class.
use cpp_ipc_dds.Common.{
  ℕ, ◌+◌, ◌-◌, ◌≤◌, ◌≡◌, refl, ap, ◌≢◌, inl, inr, Bool, true, false, List, arith, leb, ◌==◌, ◌/=◌,
  if◌then◌else◌, Bool-cases, length, u64,
}
use cpp_ipc_dds.Framing.{be32, check_id}
use cpp_ipc_dds.DzFlat.{
  layout_ver, layout_ver_of, total_size_of, root_off_of, msg_id_of, magic_of, magic,
  looks_like_dzflat, has_dzflat_magic, dzflat_peek_msg_id,
}
use cpp_ipc_dds.WireAccept.{
  DzFlatRxEvent, dzflat_accepted, dzflat_id_skipped, dzflat_header_bad, dzflat_schema_drop,
  tlv_accepted, tlv_id_skipped, tlv_corrupt_drop, DzFlatRxStats, note_dzflat_rx, Sink, Accepted,
  other_id, accept_wire,
}

-- The events that report a message that is taken.
unfoldable pub takes : DzFlatRxEvent → Bool
takes dzflat_accepted = true
takes tlv_accepted = true
takes dzflat_id_skipped = false
takes dzflat_header_bad = false
takes dzflat_schema_drop = false
takes tlv_id_skipped = false
takes tlv_corrupt_drop = false

-- A well-formed segment: the header fits, and its members agree with the buffer.
pub record IsSegment (raw : List ℕ) : Type 0 where
  pub long : 32 ≤ length raw
  pub begins : magic_of raw ≡ magic
  pub layout : layout_ver_of raw ≡ layout_ver
  pub fits : total_size_of raw ≤ length raw
  pub root : root_off_of raw ≡ 32

-- The first four bytes are the magic number, and the last four are the id of a serialized message.
abbrev pub Begins : List ℕ → Type 0
Begins raw = (4 ≤ length raw) × (magic_of raw ≡ magic)

abbrev pub EndsWith : List ℕ → ℕ → Type 0
EndsWith raw id = (12 ≤ length raw) × (be32 raw (length raw - 4) ≡ id)

-- Why an event is reported, and the object `o` that is left in place of `s`.
unfoldable pub Cause {ℓ} : {S : Type ℓ} → Sink S → List ℕ → ℕ → S → S → DzFlatRxEvent → Type ℓ
Cause sink raw expected s o dzflat_accepted =
    IsSegment raw × (msg_id_of raw ≡ expected) × (sink.dzflat_read raw s ≡ (true, o))
Cause sink raw expected s o dzflat_schema_drop =
    IsSegment raw × (msg_id_of raw ≡ expected) × (sink.dzflat_read raw s ≡ (false, o))
Cause sink raw expected s o dzflat_id_skipped = IsSegment raw × (msg_id_of raw ≢ expected) × (o ≡ s)
Cause sink raw expected s o dzflat_header_bad = Begins raw × ¬ IsSegment raw × (o ≡ s)
Cause sink raw expected s o tlv_id_skipped = ¬ Begins raw × ¬ EndsWith raw expected × (o ≡ s)
Cause sink raw expected s o tlv_accepted =
    ¬ Begins raw
    × EndsWith raw expected
    × (o ≡ sink.deserialize_into raw s)
    × (sink.deserialize_ok o ≡ true)
Cause sink raw expected s o tlv_corrupt_drop =
    ¬ Begins raw
    × EndsWith raw expected
    × (o ≡ sink.deserialize_into raw s)
    × (sink.deserialize_ok o ≡ false)

-- The counter of an event, and its number.
unfoldable pub count_of : DzFlatRxEvent → DzFlatRxStats → ℕ
count_of dzflat_accepted st = st.dzflat_accepted_cnt
count_of dzflat_id_skipped st = st.dzflat_id_skipped_cnt
count_of dzflat_header_bad st = st.dzflat_header_bad_cnt
count_of dzflat_schema_drop st = st.dzflat_schema_drop_cnt
count_of tlv_accepted st = st.tlv_accepted_cnt
count_of tlv_id_skipped st = st.tlv_id_skipped_cnt
count_of tlv_corrupt_drop st = st.tlv_corrupt_drop_cnt

unfoldable pub number : DzFlatRxEvent → ℕ
number dzflat_accepted = 0
number dzflat_id_skipped = 1
number dzflat_header_bad = 2
number dzflat_schema_drop = 3
number tlv_accepted = 4
number tlv_id_skipped = 5
number tlv_corrupt_drop = 6

note_counts :
    (e e' : DzFlatRxEvent) (st : DzFlatRxStats)
    → count_of e' (note_dzflat_rx e st)
      ≡ (if number e == number e' then u64 (count_of e' st + 1) else count_of e' st)
unfolding count_of number note_dzflat_rx
note_counts e e' st = ground arith

-- The event, with its cause; its counter goes up by one, the others stay, and the result agrees.
pub record Reported {ℓ} (S : Type ℓ) (sink : Sink S) (raw : List ℕ) (expected : ℕ)
    (st : DzFlatRxStats) (s : S) (r : Accepted S) : Type ℓ where
  pub event : DzFlatRxEvent
  pub counted :
      (e : DzFlatRxEvent)
      → count_of e r.stats
        ≡ (if number event == number e then u64 (count_of e st + 1) else count_of e st)
  pub told : r.result ≡ takes event
  pub cause : Cause sink raw expected s r.object event

pub looks-magic : (p : List ℕ) → looks_like_dzflat p ≡ true → has_dzflat_magic p ≡ true
unfolding looks_like_dzflat has_dzflat_magic
looks-magic p h =
    let m : (magic_of p == magic) ≡ true = ground (arith, h) in
    let n : leb 4 (length p) ≡ true = ground (arith, h) in rw (m, n) refl

pub not_magic-looks : (p : List ℕ) → has_dzflat_magic p ≡ false → looks_like_dzflat p ≡ false
not_magic-looks p h = elim (Bool-cases (looks_like_dzflat p)) [
  | inl looks ↦ absurd (ground (arith, h, looks-magic p looks))
  | inr e ↦ e
]

-- What the tests of the code say of the bytes.
looks→IsSegment : (p : List ℕ) → looks_like_dzflat p ≡ true → IsSegment p
unfolding looks_like_dzflat
looks→IsSegment p h = record {
  long = ground (arith, h);
  begins = ground (arith, h);
  layout = ground (arith, h);
  fits = ground (arith, h);
  root = ground (arith, h);
}

not_looks→not_IsSegment : (p : List ℕ) → looks_like_dzflat p ≡ false → ¬ IsSegment p
unfolding looks_like_dzflat
not_looks→not_IsSegment p h g = ground (arith, h, g.long, g.begins, g.layout, g.fits, g.root)

has→Begins : (p : List ℕ) → has_dzflat_magic p ≡ true → Begins p
unfolding has_dzflat_magic
has→Begins p h = (ground (arith, h), ground (arith, h))

not_has→not_Begins : (p : List ℕ) → has_dzflat_magic p ≡ false → ¬ Begins p
unfolding has_dzflat_magic
not_has→not_Begins p h g = ground (arith, h, g.0, g.1)

check→EndsWith : (p : List ℕ) (id : ℕ) → check_id p id ≡ true → EndsWith p id
unfolding check_id
check→EndsWith p id h = (ground (arith, h), ground (arith, h))

not_check→not_EndsWith : (p : List ℕ) (id : ℕ) → check_id p id ≡ false → ¬ EndsWith p id
unfolding check_id
not_check→not_EndsWith p id h g = ground (arith, h, g.0, g.1)

other_lem :
    (p : List ℕ) (id : ℕ)
    → looks_like_dzflat p ≡ true
    → other_id (dzflat_peek_msg_id p) id ≡ msg_id_of p /= id
unfolding dzflat_peek_msg_id
other_lem p id h = rw h refl

-- A call of `AcceptWire`, for any message class, counts exactly one event, and returns true exactly if it is one
-- of the two that report a message that is taken. The event has its cause in the bytes: a well-formed segment with the expected id is
-- given to `dzflat_read`, whose result decides between taken and schema dropped; with another id it is
-- skipped. A buffer that begins with the magic number and is no such segment is a bad header. Of the
-- other buffers one that ends with the expected id is deserialized, and taken or dropped as
-- `deserialize_ok` says; any other one is skipped. What is skipped, or has a bad header, leaves the
-- object as it was.
pub accept_wire-Reported {ℓ} :
    {S : Type ℓ} (sink : Sink S) (raw : List ℕ) (expected : ℕ) (st : DzFlatRxStats) (s : S)
    → Reported S sink raw expected st s (accept_wire sink raw expected st s)
unfolding accept_wire takes Cause
accept_wire-Reported {S} sink raw expected st s = elim (Bool-cases (looks_like_dzflat raw)) [
  | inl looks ↦ segment looks
  | inr not_flat ↦ elim (Bool-cases (has_dzflat_magic raw)) [
    | inl has ↦
        rw (not_flat, has)
          record {
            event = dzflat_header_bad;
            counted = λ e. note_counts dzflat_header_bad e st;
            told = refl;
            cause = (has→Begins raw has, not_looks→not_IsSegment raw not_flat, refl);
          }
    | inr tlv ↦ elim (Bool-cases (check_id raw expected)) [
      | inr other ↦
          rw (not_flat, tlv, other)
            record {
              event = tlv_id_skipped;
              counted = λ e. note_counts tlv_id_skipped e st;
              told = refl;
              cause = (not_has→not_Begins raw tlv, not_check→not_EndsWith raw expected other, refl);
            }
      | inl same ↦ elim (Bool-cases (sink.deserialize_ok (sink.deserialize_into raw s))) [
        | inl ok ↦
            rw (not_flat, tlv, same, ok)
              record {
                event = tlv_accepted;
                counted = λ e. note_counts tlv_accepted e st;
                told = refl;
                cause = (not_has→not_Begins raw tlv, check→EndsWith raw expected same, refl, ok);
              }
        | inr bad ↦
            rw (not_flat, tlv, same, bad)
              record {
                event = tlv_corrupt_drop;
                counted = λ e. note_counts tlv_corrupt_drop e st;
                told = refl;
                cause = (not_has→not_Begins raw tlv, check→EndsWith raw expected same, refl, bad);
              }
      ]
    ]
  ]
]
  where
    segment :
        looks_like_dzflat raw ≡ true
        → Reported S sink raw expected st s (accept_wire sink raw expected st s)
    segment looks = elim (Bool-cases (msg_id_of raw /= expected)) [
      | inl other ↦
          rw (looks, other_lem raw expected looks, other)
            record {
              event = dzflat_id_skipped;
              counted = λ e. note_counts dzflat_id_skipped e st;
              told = refl;
              cause = (looks→IsSegment raw looks, (λ e. ground (arith, other, e)), refl);
            }
      | inr same ↦
          let id : msg_id_of raw ≡ expected = ground (arith, same) in
          elim (Bool-cases (sink.dzflat_read raw s).0) [
            | inl read ↦
                rw (looks, other_lem raw expected looks, same, read)
                  record {
                    event = dzflat_accepted;
                    counted = λ e. note_counts dzflat_accepted e st;
                    told = refl;
                    cause = (
                      looks→IsSegment raw looks,
                      id,
                      ap (λ b. (b, (sink.dzflat_read raw s).1)) read,
                    );
                  }
            | inr bad ↦
                rw (looks, other_lem raw expected looks, same, bad)
                  record {
                    event = dzflat_schema_drop;
                    counted = λ e. note_counts dzflat_schema_drop e st;
                    told = refl;
                    cause = (
                      looks→IsSegment raw looks,
                      id,
                      ap (λ b. (b, (sink.dzflat_read raw s).1)) bad,
                    );
                  }
          ]
    ]
