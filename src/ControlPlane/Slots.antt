-- ===== src/ControlPlane/Slots.antt =====
-- What the operations on the table of slots leave of the slot of a subscriber.
use cpp_ipc_dds.Common.{
  ℕ, zero, suc, ◌+◌, ◌-◌, ◌<◌, ◌≡◌, refl, inl, inr, Bool, true, false, not, ◌&&◌, ◌||◌, some, List,
  [], ◌∷◌, arith, ltb, ◌==◌, ◌/=◌, Bool-cases, length, replicate,
}
use cpp_ipc_dds.Connections.{Mask, bits_and, bits_or, is_zero}
use cpp_ipc_dds.ControlPlane.{free_slot, PeerSlot, acquire_from, change, is_stale, collect_from}

-- Two masks without a bit in common.
abbrev pub Apart : Mask → Mask → Type 0
Apart a cc = is_zero (bits_and a cc) ≡ true

pub zeros-Apart : (n : ℕ) (cc : Mask) → Apart (replicate n false) cc
unfolding is_zero bits_and
zeros-Apart zero cc = refl
zeros-Apart (suc n) [] = refl
zeros-Apart (suc n) (x ∷ cc) = zeros-Apart n cc

bits_or-Apart : (a b cc : Mask) → Apart a cc → Apart b cc → Apart (bits_or a b) cc
unfolding is_zero bits_and bits_or
bits_or-Apart [] b cc h k = refl
bits_or-Apart (x ∷ a) [] cc h k = refl
bits_or-Apart (x ∷ a) (y ∷ b) [] h k = refl
bits_or-Apart (true ∷ a) (true ∷ b) (false ∷ cc) h k = bits_or-Apart a b cc h k
bits_or-Apart (true ∷ a) (false ∷ b) (false ∷ cc) h k = bits_or-Apart a b cc h k
bits_or-Apart (false ∷ a) (true ∷ b) (false ∷ cc) h k = bits_or-Apart a b cc h k
bits_or-Apart (false ∷ a) (false ∷ b) (z ∷ cc) h k = bits_or-Apart a b cc h k
bits_or-Apart (true ∷ a) (y ∷ b) (true ∷ cc) h k = absurd (ground (arith, h))
bits_or-Apart (false ∷ a) (true ∷ b) (true ∷ cc) h k = absurd (ground (arith, k))

-- No slot has a bit of `cc`.
unfoldable pub NoneHas : Mask → List PeerSlot → Type 0
NoneHas cc [] = Unit
NoneHas cc (p ∷ ps) = Apart p.cc_id cc × NoneHas cc ps

pub replicate-NoneHas : (n : ℕ) (cc : Mask) → NoneHas cc (replicate n free_slot)
unfolding NoneHas
replicate-NoneHas zero cc = tt
replicate-NoneHas (suc n) cc = (zeros-Apart 32 cc, replicate-NoneHas n cc)

-- The slot `i` is the one that has `cc`, and it has shown life at `h`.
unfoldable pub Holds : ℕ → Mask → ℕ → List PeerSlot → Type 0
Holds i cc h [] = ⊥
Holds zero cc h (p ∷ ps) = (p.in_use ≡ 1) × (p.cc_id ≡ cc) × (p.heartbeat_ns ≡ h) × NoneHas cc ps
Holds (suc i) cc h (p ∷ ps) = Apart p.cc_id cc × Holds i cc h ps

young_kept : (a b : Bool) → (a && (b && not true)) ≡ false
young_kept true true = refl
young_kept true false = refl
young_kept false b = refl

module _ (timeout_ns now : ℕ) (cc : Mask) where
  collect-NoneHas :
      (ps : List PeerSlot) (stale : Mask)
      → Apart stale cc
      → NoneHas cc ps
      → let r = collect_from timeout_ns now stale ps in Apart r.0 cc × NoneHas cc r.1
  unfolding collect_from NoneHas
  collect-NoneHas [] stale h n = (h, tt)
  collect-NoneHas (p ∷ ps) stale h n = elim (Bool-cases (is_stale timeout_ns now p)) [
    | inl dead ↦
        let r =
          collect-NoneHas ps (bits_or stale p.cc_id) (bits_or-Apart stale p.cc_id cc h n.0) n.1 in
        rw dead (r.0, (zeros-Apart 32 cc, r.1))
    | inr keep ↦ let r = collect-NoneHas ps stale h n.1 in rw keep (r.0, (n.0, r.1))
  ]

  pub collect-Holds :
      (i h : ℕ) (ps : List PeerSlot) (stale : Mask)
      → now - h < timeout_ns
      → Apart stale cc
      → Holds i cc h ps
      → let r = collect_from timeout_ns now stale ps in Apart r.0 cc × Holds i cc h r.1
  unfolding collect_from Holds
  collect-Holds i h [] stale t a v = elim v [ ]
  collect-Holds zero h (p ∷ ps) stale t a v =
      let young : ltb (now - p.heartbeat_ns) timeout_ns ≡ true = ground (arith, t, v.2) in
      let keep : is_stale timeout_ns now p ≡ false =
        unfold is_stale in
        rw young (young_kept (p.in_use /= 0) (not (is_zero p.cc_id || p.heartbeat_ns == 0))) in
      let r = collect-NoneHas ps stale a v.3 in rw keep (r.0, (v.0, v.1, v.2, r.1))
  collect-Holds (suc i) h (p ∷ ps) stale t a v = elim (Bool-cases (is_stale timeout_ns now p)) [
    | inl dead ↦
        let r =
          collect-Holds i h ps (bits_or stale p.cc_id) t (bits_or-Apart stale p.cc_id cc a v.0)
            v.1 in
        rw dead (r.0, (zeros-Apart 32 cc, r.1))
    | inr keep ↦ let r = collect-Holds i h ps stale t a v.1 in rw keep (r.0, (v.0, r.1))
  ]

module _ (generation : ℕ) (cc' : Mask) (current_pid now : ℕ) (cc : Mask)
    (apart : Apart cc' cc) where
  acquire-NoneHas :
      (k : ℕ) (ps : List PeerSlot)
      → NoneHas cc ps
      → NoneHas cc (acquire_from k generation cc' current_pid now ps).1
  unfolding acquire_from NoneHas
  acquire-NoneHas k [] n = tt
  acquire-NoneHas k (p ∷ ps) n = elim (Bool-cases (p.in_use == 0)) [
    | inl free ↦ rw free (apart, n.1)
    | inr used ↦ rw used (n.0, acquire-NoneHas (k + 1) ps n.1)
  ]

  pub acquire-Holds :
      (i h k : ℕ) (ps : List PeerSlot)
      → Holds i cc h ps
      → Holds i cc h (acquire_from k generation cc' current_pid now ps).1
  unfolding acquire_from Holds
  acquire-Holds i h k [] v = elim v [ ]
  acquire-Holds zero h k (p ∷ ps) v =
      let used : (p.in_use == 0) ≡ false = ground (arith, v.0) in
      rw used (v.0, v.1, v.2, acquire-NoneHas (k + 1) ps v.3)
  acquire-Holds (suc i) h k (p ∷ ps) v = elim (Bool-cases (p.in_use == 0)) [
    | inl free ↦ rw free (apart, v.1)
    | inr used ↦ rw used (v.0, acquire-Holds i h (k + 1) ps v.1)
  ]

-- A slot that `acquire_from` gives holds the new peer.
pub acquired :
    (generation : ℕ) (cc : Mask) (current_pid now k i : ℕ) (ps : List PeerSlot)
    → NoneHas cc ps
    → (acquire_from k generation cc current_pid now ps).0 ≡ some i
    → (j : ℕ) × (i ≡ k + j)
      × (j < length ps)
      × Holds j cc now (acquire_from k generation cc current_pid now ps).1
unfolding acquire_from Holds NoneHas
acquired g cc pid now k i [] n e = absurd (ground (arith, e))
acquired g cc pid now k i (p ∷ ps) n e = elim (Bool-cases (p.in_use == 0)) [
  | inl free ↦
      let same : k ≡ i = ground (arith, rw free at e) in
      rw free (0, omega (arith, same), omega arith, (refl, refl, refl, n.1))
  | inr used ↦
      let r = acquired g cc pid now (k + 1) i ps n.1 (rw used at e) in
      rw used (suc r.0, omega (arith, r.1), omega (arith, r.2), (n.0, r.3))
]

-- A change of the slot `j`.
module _ (f : PeerSlot → PeerSlot) (cc : Mask)
    (same : (p : PeerSlot) → Apart p.cc_id cc → Apart (f p).cc_id cc) where
  change-NoneHas : (j : ℕ) (ps : List PeerSlot) → NoneHas cc ps → NoneHas cc (change j f ps)
  unfolding change NoneHas
  change-NoneHas j [] n = tt
  change-NoneHas zero (p ∷ ps) n = (same p n.0, n.1)
  change-NoneHas (suc j) (p ∷ ps) n = (n.0, change-NoneHas j ps n.1)

  pub change-Holds :
      (i j h : ℕ) (ps : List PeerSlot)
      → (j == i) ≡ false
      → Holds i cc h ps
      → Holds i cc h (change j f ps)
  unfolding change Holds
  change-Holds i j h [] ne v = elim v [ ]
  change-Holds zero zero h (p ∷ ps) ne v = absurd (ground (arith, ne))
  change-Holds zero (suc j) h (p ∷ ps) ne v = (v.0, v.1, v.2, change-NoneHas j ps v.3)
  change-Holds (suc i) zero h (p ∷ ps) ne v = (same p v.0, v.1)
  change-Holds (suc i) (suc j) h (p ∷ ps) ne v =
      (v.0, change-Holds i j h ps (ground (arith, ne)) v.1)

pub beats-Holds :
    (i h now : ℕ) (cc : Mask) (ps : List PeerSlot)
    → Holds i cc h ps
    → Holds i cc now (change i (λ p. record p { heartbeat_ns = now }) ps)
unfolding change Holds
beats-Holds i h now cc [] v = elim v [ ]
beats-Holds zero h now cc (p ∷ ps) v = (v.0, v.1, refl, v.3)
beats-Holds (suc i) h now cc (p ∷ ps) v = (v.0, beats-Holds i h now cc ps v.1)
