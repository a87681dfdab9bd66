-- ===== src/ControlPlane/Tests.antt =====
-- A topic with two subscribers.
use cpp_ipc_dds.Common.{
  ◌≡◌, refl, true, false, ◌&&◌, some, List, [], ◌∷◌, map, arith, leb, ◌/=◌, replicate,
}
use cpp_ipc_dds.Connections.{Mask, bits_and, is_zero}
use cpp_ipc_dds.ControlPlane.{
  call, change, rebuild, release_peer_slot, acquire_from, empty, TopicControl, topic_control_magic,
  free_slot, initialize_if_needed, begin_rebuild, add_peer, remove_peer, collect_stale_peers,
  acquire_peer_slot, mapped, occupied_by_other, Call, publish, join, acquire, peer_beat, release,
  collect, calls,
}
use cpp_ipc_dds.ControlPlane.Slots.{replicate-NoneHas}
use cpp_ipc_dds.ControlPlane.Alive.{Lively, Stays, acquire_peer_slot-Stays}
use cpp_ipc_dds.ControlPlane.Owner.{
  is_rebuild, NoRebuild, begin_rebuild_expires, begin_rebuild_occupies,
}

abbrev new_control : TopicControl
new_control = record {
  magic = topic_control_magic;
  generation = 4;
  state = empty;
  owner_pid = 0;
  heartbeat_ns = 0;
  peer_count = 0;
  peers = replicate 64 free_slot;
}

-- The bits of the first two connections.
abbrev first_cc : Mask
first_cc = true ∷ replicate 31 false

abbrev second_cc : Mask
second_cc = false ∷ true ∷ replicate 30 false

-- The second subscriber comes, the first one shows life at 900, and the rounds at 700 and 1500 take none.
abbrev busy : List Call
busy =
    acquire 4 second_cc 71 200
    ∷ collect 1000 700
    ∷ peer_beat (some 0) 900
    ∷ collect 1000 1500
    ∷ release (some 1)
    ∷ []

given : (acquire_peer_slot 4 first_cc 70 100 new_control).0 ≡ some 0
unfolding acquire_peer_slot
given = refl

busy-Lively : Lively 0 first_cc 100 busy
unfolding Lively is_zero bits_and
busy-Lively = (refl, (omega arith, (omega arith, (refl, tt))))

acquire_peer_slot-Stays_example :
    Stays 0 first_cc busy (acquire_peer_slot 4 first_cc 70 100 new_control).1
acquire_peer_slot-Stays_example =
    acquire_peer_slot-Stays 4 first_cc 70 100 0 busy new_control (replicate-NoneHas 64 first_cc)
      refl given busy-Lively

-- A round behind the time-out collects the first subscriber.
collected_run :
    (collect_stale_peers 1000 1100 (acquire_peer_slot 4 first_cc 70 100 new_control).1).0 ≡ first_cc
unfolding acquire_peer_slot collect_stale_peers
collected_run = refl

abbrev quiet : List Call
quiet = publish 20 ∷ join 5 ∷ acquire 5 second_cc 71 30 ∷ []

quiet-NoRebuild : NoRebuild quiet
unfolding NoRebuild is_rebuild
quiet-NoRebuild = (refl, (refl, (refl, tt)))

begin_rebuild_expires_example :
    let c' = calls quiet (begin_rebuild 70 10 new_control).1 in
    (add_peer new_control.generation c' ≡ (false, c'))
    × (remove_peer new_control.generation c' ≡ c')
begin_rebuild_expires_example =
    begin_rebuild_expires 70 10 new_control quiet (omega arith) quiet-NoRebuild

begin_rebuild_occupies_example :
    let c' = calls quiet (begin_rebuild 70 10 (initialize_if_needed 5 new_control)).1 in
    occupied_by_other (λ pid. leb pid 75) (b't' ∷ []) 71 (mapped c') ≡ 70 /= 71 && leb 70 75
begin_rebuild_occupies_example =
    begin_rebuild_occupies (λ pid. leb pid 75) (b't' ∷ []) 70 71 10 5 new_control quiet
      (omega arith) (omega arith) quiet-NoRebuild

-- Two subscribers, a rebuild, and the second one is back before the first one releases the slot that it had before the
-- rebuild: the second one has no slot then.
abbrev late_release : List Call
late_release =
    acquire 4 first_cc 70 100
    ∷ acquire 4 second_cc 71 110
    ∷ rebuild 60 200
    ∷ release (some 1)
    ∷ acquire 5 second_cc 71 210
    ∷ release (some 0)
    ∷ acquire 5 first_cc 70 220
    ∷ []

late_release_run : map (λ p. p.pid) (calls late_release new_control).peers ≡ 70 ∷ replicate 63 0
unfolding calls call acquire_peer_slot acquire_from is_zero begin_rebuild release_peer_slot change
late_release_run = refl
