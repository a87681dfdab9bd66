-- ===== src/ControlPlane/Alive.antt =====
-- A subscriber that shows in time that it lives is never collected.
use cpp_ipc_dds.Common.{
  ℕ, ◌-◌, ◌<◌, ◌≡◌, refl, subst, inl, inr, false, not, ◌||◌, none, some, List, [], ◌∷◌, arith, leb,
  ◌==◌, ◌/=◌, if◌then◌else◌, Bool-cases, length,
}
use cpp_ipc_dds.Connections.{Mask, is_zero}
use cpp_ipc_dds.ControlPlane.{
  is_ready, TopicControl, no_cc, free_slot, add_peer, remove_peer, acquire_from, acquire_peer_slot,
  peer_heartbeat, release_peer_slot, collect_stale_peers, Call, rebuild, publish, stop, beat, join,
  leave, acquire, peer_beat, release, collect, call, calls,
}
use cpp_ipc_dds.ControlPlane.Slots.{
  Apart, zeros-Apart, NoneHas, Holds, collect-Holds, acquire-Holds, acquired, change-Holds,
  beats-Holds,
}

add_peer-peers : (generation : ℕ) (c : TopicControl) → (add_peer generation c).1.peers ≡ c.peers
unfolding add_peer
add_peer-peers g c = elim (Bool-cases (g == 0 || (g /= c.generation || not (is_ready c.state)))) [
  | inl refused ↦ rw refused refl
  | inr counted ↦ rw counted refl
]

remove_peer-peers : (generation : ℕ) (c : TopicControl) → (remove_peer generation c).peers ≡ c.peers
unfolding remove_peer
remove_peer-peers g c = elim (Bool-cases (g == 0 || g /= c.generation)) [
  | inl refused ↦ rw refused refl
  | inr counted ↦ rw counted refl
]

acquire_peer_slot-Holds :
    (i : ℕ) (cc : Mask) (h generation : ℕ) (cc' : Mask) (current_pid now : ℕ) (c : TopicControl)
    → Apart cc' cc
    → Holds i cc h c.peers
    → Holds i cc h (acquire_peer_slot generation cc' current_pid now c).1.peers
unfolding acquire_peer_slot
acquire_peer_slot-Holds i cc h g cc' pid now c apart v = elim (Bool-cases (is_zero cc')) [
  | inl no_bits ↦ rw no_bits v
  | inr bits ↦ rw bits (acquire-Holds g cc' pid now cc apart i h 0 c.peers v)
]

peer_heartbeat-Holds :
    (i : ℕ) (cc : Mask) (h j now : ℕ) (c : TopicControl)
    → i < 64
    → Holds i cc h c.peers
    → Holds i cc (if j == i then now else h) (peer_heartbeat (some j) now c).peers
unfolding peer_heartbeat
peer_heartbeat-Holds i cc h j now c few v = elim (Bool-cases (j == i)) [
  | inl own ↦
      let e : j ≡ i = ground (arith, own) in
      let inside : leb 64 j ≡ false = ground (arith, e, few) in
      rw (own, inside, e) (beats-Holds i h now cc c.peers v)
  | inr other ↦ elim (Bool-cases (leb 64 j)) [
    | inl outside ↦ rw (other, outside) v
    | inr inside ↦
        rw (other, inside)
          (change-Holds (λ p. record p { heartbeat_ns = now }) cc (λ p a. a) i j h c.peers other v)
  ]
]

release_peer_slot-Holds :
    (i : ℕ) (cc : Mask) (h j : ℕ) (c : TopicControl)
    → (j == i) ≡ false
    → Holds i cc h c.peers
    → Holds i cc h (release_peer_slot (some j) c).peers
unfolding release_peer_slot
release_peer_slot-Holds i cc h j c other v = elim (Bool-cases (leb 64 j)) [
  | inl outside ↦ rw outside v
  | inr inside ↦
      rw inside (change-Holds (λ p. free_slot) cc (λ p a. zeros-Apart 32 cc) i j h c.peers other v)
]

collect_stale_peers-Holds :
    (i : ℕ) (cc : Mask) (h timeout_ns now : ℕ) (c : TopicControl)
    → now - h < timeout_ns
    → Holds i cc h c.peers
    → let r = collect_stale_peers timeout_ns now c in Apart r.0 cc × Holds i cc h r.1.peers
unfolding collect_stale_peers
collect_stale_peers-Holds i cc h t now c young v =
    let on : (t == 0) ≡ false = ground (arith, young) in
    rw on (collect-Holds t now cc i h c.peers no_cc young (zeros-Apart 32 cc) v)

-- From the last sign of life at `h`: the calls of the others get other bits, the slot is released by
-- nobody, and each round of collection comes before the time is over.
unfoldable pub Lively : ℕ → Mask → ℕ → List Call → Type 0
Lively i cc h [] = Unit
Lively i cc h (rebuild current_pid now ∷ os) = ⊥
Lively i cc h (publish now ∷ os) = Lively i cc h os
Lively i cc h (stop now ∷ os) = Lively i cc h os
Lively i cc h (beat now ∷ os) = Lively i cc h os
Lively i cc h (join generation ∷ os) = Lively i cc h os
Lively i cc h (leave generation ∷ os) = Lively i cc h os
Lively i cc h (acquire generation cc' current_pid now ∷ os) = Apart cc' cc × Lively i cc h os
Lively i cc h (peer_beat none now ∷ os) = Lively i cc h os
Lively i cc h (peer_beat (some j) now ∷ os) = Lively i cc (if j == i then now else h) os
Lively i cc h (release none ∷ os) = Lively i cc h os
Lively i cc h (release (some j) ∷ os) = ((j == i) ≡ false) × Lively i cc h os
Lively i cc h (collect timeout_ns now ∷ os) = (now - h < timeout_ns) × Lively i cc h os

-- The masks that the rounds of collection return take no bit of `cc`.
unfoldable pub Spared : Mask → List Call → TopicControl → Type 0
unfolding call collect_stale_peers
Spared cc [] c = Unit
Spared cc (collect timeout_ns now ∷ os) c =
    Apart (collect_stale_peers timeout_ns now c).0 cc
    × Spared cc os (call (collect timeout_ns now) c)
Spared cc (o ∷ os) c = Spared cc os (call o c)

-- It is still in its slot, and was not collected.
unfoldable pub Stays : ℕ → Mask → List Call → TopicControl → Type 0
unfolding Spared Holds calls
Stays i cc os c = Spared cc os c × ((h : ℕ) × Holds i cc h (calls os c).peers)

stays :
    (i : ℕ) (cc : Mask) (h : ℕ) (os : List Call) (c : TopicControl)
    → i < 64
    → Holds i cc h c.peers
    → Lively i cc h os
    → Stays i cc os c
unfolding Stays Spared calls call Lively
stays i cc h [] c few v l = (tt, (h, v))
stays i cc h (rebuild current_pid now ∷ os) c few v l = elim l [ ]
stays i cc h (publish now ∷ os) c few v l = stays i cc h os _ few v l
stays i cc h (stop now ∷ os) c few v l = stays i cc h os _ few v l
stays i cc h (beat now ∷ os) c few v l = stays i cc h os _ few v l
stays i cc h (join generation ∷ os) c few v l =
    stays i cc h os (add_peer generation c).1 few (rw (add_peer-peers generation c) v) l
stays i cc h (leave generation ∷ os) c few v l =
    stays i cc h os (remove_peer generation c) few (rw (remove_peer-peers generation c) v) l
stays i cc h (acquire generation cc' current_pid now ∷ os) c few v l =
    stays i cc h os (acquire_peer_slot generation cc' current_pid now c).1 few
      (acquire_peer_slot-Holds i cc h generation cc' current_pid now c l.0 v) l.1
stays i cc h (peer_beat none now ∷ os) c few v l =
    stays i cc h os (peer_heartbeat none now c) few (unfold peer_heartbeat in v) l
stays i cc h (peer_beat (some j) now ∷ os) c few v l =
    stays i cc (if j == i then now else h) os (peer_heartbeat (some j) now c) few
      (peer_heartbeat-Holds i cc h j now c few v) l
stays i cc h (release none ∷ os) c few v l =
    stays i cc h os (release_peer_slot none c) few (unfold release_peer_slot in v) l
stays i cc h (release (some j) ∷ os) c few v l =
    stays i cc h os (release_peer_slot (some j) c) few (release_peer_slot-Holds i cc h j c l.0 v)
      l.1
stays i cc h (collect timeout_ns now ∷ os) c few v l =
    let r = collect_stale_peers-Holds i cc h timeout_ns now c l.0 v in
    let rest = stays i cc h os (collect_stale_peers timeout_ns now c).1 few r.1 l.1 in
    ((r.0, rest.0), rest.1)

-- Among the 64 slots no peer has one of the connection bits of a subscriber, and the subscriber
-- is given the slot `i` at `now`. Then, through any calls among which each round of collection
-- comes before the time-out behind its last heartbeat, later subscribers have other bits, nobody
-- begins a rebuild and nobody releases its slot, it keeps the slot, and no mask that a round
-- returns has one of its bits.
pub acquire_peer_slot-Stays :
    (generation : ℕ) (cc : Mask) (current_pid now i : ℕ) (os : List Call) (c : TopicControl)
    → NoneHas cc c.peers
    → length c.peers ≡ 64
    → (acquire_peer_slot generation cc current_pid now c).0 ≡ some i
    → Lively i cc now os
    → Stays i cc os (acquire_peer_slot generation cc current_pid now c).1
unfolding acquire_peer_slot
acquire_peer_slot-Stays g cc pid now i os c none_has size given lively =
    elim (Bool-cases (is_zero cc)) [
      | inl no_bits ↦ absurd (ground (arith, rw no_bits at given))
      | inr bits ↦
          let r = acquired g cc pid now 0 i c.peers none_has (rw bits at given) in
          let same : r.0 ≡ i = omega (arith, r.1) in
          rw bits (
            stays i cc now os _ (omega (arith, same, r.2, size))
              (subst (λ j. Holds j cc now (acquire_from 0 g cc pid now c.peers).1) same r.3) lively)
    ]
