-- ===== src/ControlPlane/Owner.antt =====
-- Who owns a topic, and for how long what belongs to an old generation counts.
use cpp_ipc_dds.Common.{
  ℕ, ◌+◌, ◌%◌, ◌^◌, ◌<◌, ◌≡◌, refl, ◌∙◌, inl, inr, Bool, true, false, ◌&&◌, none, some, List, [],
  ◌∷◌, arith, ◌==◌, ◌/=◌, if◌then◌else◌, Bool-cases, length,
}
use cpp_ipc_dds.ControlPlane.{
  is_empty, PeerSlot, TopicControl, topic_control_magic, initialize_if_needed, begin_rebuild,
  add_peer, remove_peer, acquire_peer_slot, peer_heartbeat, release_peer_slot, collect_stale_peers,
  mapped, occupied_by_other, Call, rebuild, publish, stop, beat, join, leave, acquire, peer_beat,
  release, collect, call, calls,
}

unfoldable pub is_rebuild : Call → Bool
is_rebuild (rebuild current_pid now) = true
is_rebuild _ = false

-- Nobody begins a rebuild.
unfoldable pub NoRebuild : List Call → Type 0
unfolding is_rebuild
NoRebuild [] = Unit
NoRebuild (o ∷ os) = (is_rebuild o ≡ false) × NoRebuild os

-- What stays until the next rebuild.
record Keeps (c c' : TopicControl) : Type 0 where
  magic : c'.magic ≡ c.magic
  generation : c'.generation ≡ c.generation
  owner_pid : c'.owner_pid ≡ c.owner_pid
  begun : is_empty c'.state ≡ true → is_empty c.state ≡ true

Keeps-refl : (c : TopicControl) → Keeps c c
Keeps-refl c = record { magic = refl; generation = refl; owner_pid = refl; begun = λ e. e }

Keeps-trans : {a b c : TopicControl} → Keeps a b → Keeps b c → Keeps a c
Keeps-trans h k = record {
  magic = k.magic ∙ h.magic;
  generation = k.generation ∙ h.generation;
  owner_pid = k.owner_pid ∙ h.owner_pid;
  begun = λ e. h.begun (k.begun e);
}

-- A test between two planes that both keep it.
Keeps-if : (c a b : TopicControl) (t : Bool) → Keeps c a → Keeps c b → Keeps c (if t then a else b)
Keeps-if c a b true h k = h
Keeps-if c a b false h k = k

Keeps-if_second :
    {A : Type 0} (c : TopicControl) (a b : A × TopicControl) (t : Bool)
    → Keeps c a.1
    → Keeps c b.1
    → Keeps c (if t then a else b).1
Keeps-if_second c a b true h k = h
Keeps-if_second c a b false h k = k

-- What only counts or changes slots.
counted :
    (c : TopicControl) (n : ℕ) (ps : List PeerSlot)
    → Keeps c (record c { peer_count = n; peers = ps })
counted c n ps = record { magic = refl; generation = refl; owner_pid = refl; begun = λ e. e }

call-Keeps : (o : Call) (c : TopicControl) → is_rebuild o ≡ false → Keeps c (call o c)
unfolding call is_rebuild is_empty
call-Keeps (rebuild current_pid now) c h = absurd (ground (arith, h))
call-Keeps (publish now) c h = record {
  magic = refl;
  generation = refl;
  owner_pid = refl;
  begun = λ e. absurd (ground (arith, e));
}
call-Keeps (stop now) c h = record {
  magic = refl;
  generation = refl;
  owner_pid = refl;
  begun = λ e. absurd (ground (arith, e));
}
call-Keeps (beat now) c h = record {
  magic = refl;
  generation = refl;
  owner_pid = refl;
  begun = λ e. e;
}
call-Keeps (join generation) c h =
    unfold add_peer in Keeps-if_second c _ _ _ (Keeps-refl c) (counted c _ _)
call-Keeps (leave generation) c h =
    unfold remove_peer in Keeps-if c _ _ _ (Keeps-refl c) (counted c _ _)
call-Keeps (acquire generation cc_id current_pid now) c h =
    unfold acquire_peer_slot in Keeps-if_second c _ _ _ (Keeps-refl c) (counted c _ _)
call-Keeps (peer_beat none now) c h = unfold peer_heartbeat in Keeps-refl c
call-Keeps (peer_beat (some j) now) c h =
    unfold peer_heartbeat in Keeps-if c _ _ _ (Keeps-refl c) (counted c _ _)
call-Keeps (release none) c h = unfold release_peer_slot in Keeps-refl c
call-Keeps (release (some j)) c h =
    unfold release_peer_slot in Keeps-if c _ _ _ (Keeps-refl c) (counted c _ _)
call-Keeps (collect timeout_ns now) c h =
    unfold collect_stale_peers in Keeps-if_second c _ _ _ (Keeps-refl c) (counted c _ _)

calls-Keeps : (os : List Call) (c : TopicControl) → NoRebuild os → Keeps c (calls os c)
unfolding calls NoRebuild
calls-Keeps [] c h = Keeps-refl c
calls-Keeps (o ∷ os) c h = Keeps-trans (call-Keeps o c h.0) (calls-Keeps os (call o c) h.1)

initialize_if_needed-magic :
    (now : ℕ) (c : TopicControl) → (initialize_if_needed now c).magic ≡ topic_control_magic
unfolding initialize_if_needed
initialize_if_needed-magic now c = elim (Bool-cases (c.magic == topic_control_magic)) [
  | inl own ↦ rw own (ground (arith, own))
  | inr fresh ↦ rw fresh refl
]

-- Behind a rebuild, and through any calls up to the next one, add_peer and remove_peer with the
-- generation before it, a number below 2 ^ 32, change nothing, and add_peer returns false.
pub begin_rebuild_expires :
    (current_pid now : ℕ) (c : TopicControl) (os : List Call)
    → c.generation < 2 ^ 32
    → NoRebuild os
    → let c' = calls os (begin_rebuild current_pid now c).1 in
      (add_peer c.generation c' ≡ (false, c')) × (remove_peer c.generation c' ≡ c')
unfolding add_peer remove_peer
begin_rebuild_expires pid now c os few quiet =
    let c' = calls os (begin_rebuild pid now c).1 in
    let k = calls-Keeps os (begin_rebuild pid now c).1 quiet in
    let next : (begin_rebuild pid now c).1.generation ≡ (c.generation + 1) % 2 ^ 32 =
      unfold begin_rebuild in refl in
    let old : (c.generation /= c'.generation) ≡ true = ground (arith, few, k.generation ∙ next) in
    rw old (elim (Bool-cases (c.generation == 0)) [
      | inl no_generation ↦ rw no_generation (refl, refl)
      | inr some_generation ↦ rw some_generation (refl, refl)
    ])

-- Behind a rebuild of an initialized segment, and through any calls up to the next one, a
-- process with a positive id that asks for a name that is not empty finds the topic occupied
-- exactly if it is not the owner itself and the owner lives.
pub begin_rebuild_occupies :
    (pid_alive : ℕ → Bool) (name : List ℕ) (current_pid self_pid now start : ℕ) (c : TopicControl)
    (os : List Call)
    → 0 < length name
    → 0 < self_pid
    → NoRebuild os
    → let c' = calls os (begin_rebuild current_pid now (initialize_if_needed start c)).1 in
      occupied_by_other pid_alive name self_pid (mapped c')
      ≡ current_pid /= self_pid && pid_alive current_pid
unfolding occupied_by_other
begin_rebuild_occupies alive name pid self now start c os named some_pid quiet =
    let c0 = begin_rebuild pid now (initialize_if_needed start c) in
    let c' = calls os c0.1 in
    let k = calls-Keeps os c0.1 quiet in
    let owner : c'.owner_pid ≡ pid = k.owner_pid ∙ (unfold begin_rebuild in refl) in
    let magic : c'.magic ≡ topic_control_magic =
      k.magic ∙ (unfold begin_rebuild in initialize_if_needed-magic start c) in
    let begun : is_empty c'.state ≡ false = elim (Bool-cases (is_empty c'.state)) [
      | inl e ↦ absurd (unfold begin_rebuild is_empty in ground (arith, k.begun e))
      | inr e ↦ e
    ] in
    let has_name : (length name == 0) ≡ false = ground (arith, named) in
    let has_pid : (self == 0) ≡ false = ground (arith, some_pid) in
    rw (has_name, has_pid, magic, begun, owner)
      (elim (Bool-cases (alive pid)) [
        | inl lives ↦ rw lives (ground arith)
        | inr dead ↦ rw dead (ground arith)
      ])
