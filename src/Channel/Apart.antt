-- ===== src/Channel/Apart.antt =====
-- Fragments of other messages in between change nothing.
use cpp_ipc_dds.Common.{
  ℕ, ◌+◌, ◌-◌, ◌^◌, ◌≤◌, ◌<◌, min, max, ◌≡◌, refl, sym, ap, ap₂, ◌∙◌, subst, ◌≢◌, inl, inr, false,
  ◌||◌, Option, none, some, List, [], ◌∷◌, ◌++◌, arith, ltb, leb, ◌==◌, if◌then◌else◌, Bool-cases,
  ==_iff, ne→==, length, u32,
}
use cpp_ipc_dds.Control.Frames.{Allocates}
use cpp_ipc_dds.Channel.{
  Fragment, send_fragments, Cached, Cache, find, update, erase, collect, clean, Round, message,
  failed, next, recv_first, recv_later, recv_found, recv_round, returned, recv_all,
}
use cpp_ipc_dds.Channel.Whole.{recv_all-send_fragments}

-- The fragments, and the messages, with one id.
unfoldable pub of_id : ℕ → List Fragment → List Fragment
of_id j [] = []
of_id j (m ∷ ms) = let rest = of_id j ms in if m.id == j then m ∷ rest else rest

unfoldable pub messages_of : ℕ → List (ℕ × List ℕ) → List (ℕ × List ℕ)
messages_of j [] = []
messages_of j ((i, bytes) ∷ xs) =
    let rest = messages_of j xs in if i == j then (i, bytes) ∷ rest else rest

-- Ids that the clean-up of the cache takes for neighbours.
abbrev pub AreNear : ℕ → List Fragment → Type 0
AreNear base [] = Unit
AreNear base (m ∷ ms) = (base ≤ m.id) × (m.id ≤ base + 8192) × AreNear base ms

abbrev KeysNear : ℕ → Cache → Type 0
KeysNear base [] = Unit
KeysNear base ((i, c) ∷ rc) = (base ≤ i) × (i ≤ base + 8192) × KeysNear base rc

collect_near :
    (base id : ℕ) (rc : Cache)
    → base ≤ id
    → id ≤ base + 8192
    → KeysNear base rc
    → collect id rc ≡ rc
unfolding collect
collect_near base id [] low high near = refl
collect_near base id ((i, c) ∷ rc) low high near =
    let kept : ltb 8192 (max id i - min id i) ≡ false = ground arith in
    rw (kept, collect_near base id rc low high near.2) refl

clean_near :
    (base id : ℕ) (rc : Cache) → base ≤ id → id ≤ base + 8192 → KeysNear base rc → clean id rc ≡ rc
clean_near base id rc low high near = elim (Bool-cases (ltb 1024 (length rc))) [
  | inl many ↦ rw many (collect_near base id rc low high near)
  | inr few ↦ rw few refl
]

update-KeysNear :
    (base id : ℕ) (c : Cached) (rc : Cache) → KeysNear base rc → KeysNear base (update id c rc)
unfolding update
update-KeysNear base id c [] near = tt
update-KeysNear base id c ((i, d) ∷ rc) near = ground (arith, update-KeysNear base id c rc near.2)

erase-KeysNear : (base id : ℕ) (rc : Cache) → KeysNear base rc → KeysNear base (erase id rc)
unfolding erase
erase-KeysNear base id [] near = tt
erase-KeysNear base id ((i, d) ∷ rc) near = ground (arith, erase-KeysNear base id rc near.2)

find-update_self :
    (id : ℕ) (c d : Cached) (rc : Cache) → find id rc ≡ some d → find id (update id c rc) ≡ some c
unfolding find update
find-update_self id c d [] h = cc
find-update_self id c d ((i, e) ∷ rc) h = ground (arith, find-update_self id c d rc)

find-update_ne : (id j : ℕ) (c : Cached) (rc : Cache) → id ≢ j → find j (update id c rc) ≡ find j rc
unfolding find update
find-update_ne id j c [] ne = refl
find-update_ne id j c ((i, e) ∷ rc) ne = ground (arith, ne, find-update_ne id j c rc ne)

find-erase_self : (id : ℕ) (rc : Cache) → find id (erase id rc) ≡ none
unfolding find erase
find-erase_self id [] = refl
find-erase_self id ((i, e) ∷ rc) = ground (arith, find-erase_self id rc)

find-erase_ne : (id j : ℕ) (rc : Cache) → id ≢ j → find j (erase id rc) ≡ find j rc
unfolding find erase
find-erase_ne id j [] ne = refl
find-erase_ne id j ((i, e) ∷ rc) ne = ground (arith, ne, find-erase_ne id j rc ne)

module _ (malloc : ℕ → List ℕ) (base : ℕ) (m : Fragment) (low : base ≤ m.id)
    (high : m.id ≤ base + 8192) where
  recv_found-KeysNear :
      (size : ℕ) (o : Option Cached) (rc : Cache)
      → KeysNear base rc
      → KeysNear base (recv_found malloc m size o rc).1
  unfolding recv_found recv_first recv_later
  recv_found-KeysNear size none rc near = elim (Bool-cases (leb size 64)) [
    | inl short ↦ rw short near
    | inr long ↦ rw (long, clean_near base m.id rc low high near) (low, high, near)
  ]
  recv_found-KeysNear size (some c) rc near =
      elim (Bool-cases (m.remain == 0 || leb (2 ^ 31) m.remain)) [
        | inl ends ↦ rw ends (erase-KeysNear base m.id rc near)
        | inr more ↦ rw more (update-KeysNear base m.id _ rc near)
      ]

  -- Another id keeps its entry.
  recv_found_ne :
      (j size : ℕ) (o : Option Cached) (rc : Cache)
      → m.id ≢ j
      → KeysNear base rc
      → find j (recv_found malloc m size o rc).1 ≡ find j rc
  unfolding recv_found recv_first recv_later
  recv_found_ne j size none rc ne near = elim (Bool-cases (leb size 64)) [
    | inl short ↦ rw short refl
    | inr long ↦
        rw (long, clean_near base m.id rc low high near) (unfold find in rw (ne→== m.id j ne) refl)
  ]
  recv_found_ne j size (some c) rc ne near =
      elim (Bool-cases (m.remain == 0 || leb (2 ^ 31) m.remain)) [
        | inl ends ↦ rw ends (find-erase_ne m.id j rc ne)
        | inr more ↦ rw more (find-update_ne m.id j _ rc ne)
      ]

  -- Two caches with the same entry for the id of the fragment: the round ends alike, and they agree
  -- again.
  recv_found_same :
      (size : ℕ) (o : Option Cached) (rc rc' : Cache)
      → find m.id rc ≡ o
      → find m.id rc' ≡ o
      → ((recv_found malloc m size o rc).0 ≡ (recv_found malloc m size o rc').0)
        × (find m.id (recv_found malloc m size o rc).1
            ≡ find m.id (recv_found malloc m size o rc').1)
  unfolding recv_found recv_first recv_later
  recv_found_same size none rc rc' e e' = elim (Bool-cases (leb size 64)) [
    | inl short ↦ rw short (refl, e ∙ sym e')
    | inr long ↦ rw long (refl, unfold find in rw ((==_iff m.id m.id).1 refl) refl)
  ]
  recv_found_same size (some c) rc rc' e e' =
      elim (Bool-cases (m.remain == 0 || leb (2 ^ 31) m.remain)) [
        | inl ends ↦ rw ends (refl, find-erase_self m.id rc ∙ sym (find-erase_self m.id rc'))
        | inr more ↦
            rw more (refl, find-update_self m.id _ c rc e ∙ sym (find-update_self m.id _ c rc' e'))
      ]

  recv_round-KeysNear : (rc : Cache) → KeysNear base rc → KeysNear base (recv_round malloc m rc).1
  unfolding recv_round
  recv_round-KeysNear rc near =
      let size : ℕ = u32 (64 + m.remain) in
      elim (Bool-cases (size == 0 || leb (2 ^ 31) size)) [
        | inl bad ↦ rw bad near
        | inr fine ↦ rw fine (recv_found-KeysNear size (find m.id rc) rc near)
      ]

  recv_round_ne :
      (j : ℕ) (rc : Cache)
      → m.id ≢ j
      → KeysNear base rc
      → find j (recv_round malloc m rc).1 ≡ find j rc
  unfolding recv_round
  recv_round_ne j rc ne near =
      let size : ℕ = u32 (64 + m.remain) in
      elim (Bool-cases (size == 0 || leb (2 ^ 31) size)) [
        | inl bad ↦ rw bad refl
        | inr fine ↦ rw fine (recv_found_ne j size (find m.id rc) rc ne near)
      ]

  recv_round_same :
      (rc rc' : Cache)
      → find m.id rc ≡ find m.id rc'
      → ((recv_round malloc m rc).0 ≡ (recv_round malloc m rc').0)
        × (find m.id (recv_round malloc m rc).1 ≡ find m.id (recv_round malloc m rc').1)
  unfolding recv_round
  recv_round_same rc rc' e =
      let size : ℕ = u32 (64 + m.remain) in
      elim (Bool-cases (size == 0 || leb (2 ^ 31) size)) [
        | inl bad ↦ rw bad (refl, e)
        | inr fine ↦ rw (fine, e) (recv_found_same size (find m.id rc') rc rc' e refl)
      ]

messages_of-returned :
    (j : ℕ) (r : Round) (xs : List (ℕ × List ℕ))
    → messages_of j (returned j r ++ xs) ≡ returned j r ++ messages_of j xs
unfolding messages_of
messages_of-returned j (message bytes) xs = rw ((==_iff j j).1 refl) refl
messages_of-returned j failed xs = refl
messages_of-returned j next xs = refl

messages_of-returned_ne :
    (i j : ℕ) (r : Round) (xs : List (ℕ × List ℕ))
    → i ≢ j
    → messages_of j (returned i r ++ xs) ≡ messages_of j xs
unfolding messages_of
messages_of-returned_ne i j (message bytes) xs ne = rw (ne→== i j ne) refl
messages_of-returned_ne i j failed xs ne = refl
messages_of-returned_ne i j next xs ne = refl

-- The messages of one id depend on its own fragments only.
recv_all_apart :
    (malloc : ℕ → List ℕ) (base j : ℕ) (ms : List Fragment) (rc rc' : Cache)
    → AreNear base ms
    → KeysNear base rc
    → find j rc ≡ find j rc'
    → messages_of j (recv_all malloc ms rc).0 ≡ (recv_all malloc (of_id j ms) rc').0
unfolding recv_all of_id
recv_all_apart malloc base j [] rc rc' near keys e = unfold messages_of in refl
recv_all_apart malloc base j (m ∷ ms) rc rc' near keys e = elim (Bool-cases (m.id == j)) [
  | inl own ↦
      let id_eq : m.id ≡ j = (==_iff m.id j).0 own in
      rw own (
        subst
          (λ j.
            find j rc ≡ find j rc'
            → messages_of j (
                returned m.id (recv_round malloc m rc).0
                ++ (recv_all malloc ms (recv_round malloc m rc).1).0)
              ≡ (recv_all malloc (m ∷ of_id j ms) rc').0)
          id_eq
          (λ same.
            let r = recv_round_same malloc base m near.0 near.1 rc rc' same in
            messages_of-returned m.id (recv_round malloc m rc).0 _
            ∙ ap₂ (λ x y. returned m.id x ++ y) r.0
                (recv_all_apart malloc base m.id ms (recv_round malloc m rc).1
                  (recv_round malloc m rc').1 near.2
                  (recv_round-KeysNear malloc base m near.0 near.1 rc keys) r.1))
          e)
  | inr other ↦
      let ne : m.id ≢ j = λ id_eq. ground (arith, other, id_eq) in
      rw other (
        messages_of-returned_ne m.id j (recv_round malloc m rc).0 _ ne
        ∙ recv_all_apart malloc base j ms (recv_round malloc m rc).1 rc' near.2
            (recv_round-KeysNear malloc base m near.0 near.1 rc keys)
            (recv_round_ne malloc base m near.0 near.1 j rc ne keys ∙ e))
]

-- The fragments of any number of messages, whose ids lie within 8192, arrive in any order. If those
-- of one id are the fragments of a message of fewer than 2^31 bytes, in order, then exactly that
-- message is returned under this id, whole and once.
pub recv_all_delivers :
    (malloc : ℕ → List ℕ) (base j : ℕ) (bytes : List ℕ) (ms : List Fragment)
    → Allocates malloc
    → AreNear base ms
    → 0 < length bytes
    → length bytes < 2 ^ 31
    → of_id j ms ≡ send_fragments j bytes
    → messages_of j (recv_all malloc ms []).0 ≡ (j, bytes) ∷ []
recv_all_delivers malloc base j bytes ms fresh near pos few own =
    recv_all_apart malloc base j ms [] [] near tt refl
    ∙ ap (λ fs. (recv_all malloc fs []).0) own
    ∙ ap (λ r. r.0) (recv_all-send_fragments malloc j bytes fresh pos few)
