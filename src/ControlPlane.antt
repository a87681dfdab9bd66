-- ===== src/ControlPlane.antt =====
-- The control segment of a topic, src/dzIPC/common/control_plane.cc (TopicControlPlane,
-- occupied_by_other): who owns the topic, its generation, and the slots by which subscribers show that
-- they live. A plane is open here (`control_` is not null). The clock and the process id are
-- arguments; a slot below 0 is `none`.
pub mod Slots
pub mod Alive
pub mod Owner
mod Tests
use cpp_ipc_dds.Common.{
  ℕ, zero, suc, ◌+◌, ◌-◌, Bool, true, false, not, ◌&&◌, ◌||◌, Option, none, some, List, [], ◌∷◌,
  ltb, leb, ◌==◌, ◌/=◌, if◌then◌else◌, length, replicate, u32,
}
use cpp_ipc_dds.Connections.{Mask, bits_or, is_zero}

-- `TopicState`
pub data TopicState : Type 0 where
  empty : TopicState
  clearing : TopicState
  ready : TopicState
  stopping : TopicState

-- Comparisons with Ready and with Empty.
unfoldable pub is_ready : TopicState → Bool
is_ready ready = true
is_ready _ = false

unfoldable pub is_empty : TopicState → Bool
is_empty empty = true
is_empty _ = false

-- `PeerSlot`
pub record PeerSlot : Type 0 where
  pub in_use : ℕ
  pub cc_id : Mask
  pub pid : ℕ
  pub generation : ℕ
  pub heartbeat_ns : ℕ

-- `TopicControl`
pub record TopicControl : Type 0 where
  pub magic : ℕ
  pub generation : ℕ
  pub state : TopicState
  pub owner_pid : ℕ
  pub heartbeat_ns : ℕ
  pub peer_count : ℕ
  pub peers : List PeerSlot

-- `kTopicControlMagic` and `kMaxPeerSlots`
abbrev pub topic_control_magic : ℕ
topic_control_magic = 0x445A4351

abbrev pub max_peer_slots : ℕ
max_peer_slots = 64

abbrev pub no_cc : Mask
no_cc = replicate 32 false

-- A slot whose members are cleared.
abbrev pub free_slot : PeerSlot
free_slot = record { in_use = 0; cc_id = no_cc; pid = 0; generation = 0; heartbeat_ns = 0 }

-- `clear_all_peer_slots`
abbrev pub clear_all_peer_slots : TopicControl → TopicControl
clear_all_peer_slots c = record c { peers = replicate max_peer_slots free_slot }

-- `initialize_if_needed`
unfoldable pub initialize_if_needed : ℕ → TopicControl → TopicControl
initialize_if_needed now c = if c.magic == topic_control_magic then c else record {
  magic = topic_control_magic;
  generation = 0;
  state = empty;
  owner_pid = 0;
  heartbeat_ns = now;
  peer_count = 0;
  peers = replicate max_peer_slots free_slot;
}

-- `begin_rebuild`: the new generation. Behind the wait for the peers the counter is cleared, whatever they
-- left in it; `now` is the time behind the wait.
unfoldable pub begin_rebuild : ℕ → ℕ → TopicControl → ℕ × TopicControl
begin_rebuild current_pid now c =
    let next = u32 (c.generation + 1) in
    (
      next,
      record c {
        generation = next;
        state = clearing;
        owner_pid = current_pid;
        heartbeat_ns = now;
        peer_count = 0;
        peers = replicate max_peer_slots free_slot;
      },
    )

-- `set_ready`, `set_stopping` and `heartbeat`
abbrev pub set_ready : ℕ → TopicControl → TopicControl
set_ready now c = record c { heartbeat_ns = now; state = ready }

abbrev pub set_stopping : ℕ → TopicControl → TopicControl
set_stopping now c = record c { heartbeat_ns = now; state = stopping }

abbrev pub heartbeat : ℕ → TopicControl → TopicControl
heartbeat now c = record c { heartbeat_ns = now }

-- `add_peer`
unfoldable pub add_peer : ℕ → TopicControl → Bool × TopicControl
unfolding is_ready
add_peer generation c =
    if generation == 0 || (generation /= c.generation || not (is_ready c.state))
    then (false, c)
    else (true, record c { peer_count = u32 (c.peer_count + 1) })

-- `remove_peer`; the compare-exchange loop is one step.
unfoldable pub remove_peer : ℕ → TopicControl → TopicControl
remove_peer generation c =
    if generation == 0 || generation /= c.generation
    then c
    else record c { peer_count = c.peer_count - 1 }

-- The loop of `acquire_peer_slot` from the slot `i` on.
unfoldable pub acquire_from : ℕ → ℕ → Mask → ℕ → ℕ → List PeerSlot → Option ℕ × List PeerSlot
acquire_from i generation cc_id current_pid now [] = (none, [])
acquire_from i generation cc_id current_pid now (p ∷ ps) =
    let rest = acquire_from (i + 1) generation cc_id current_pid now ps in
    if p.in_use == 0
    then (
      some i,
      record {
        in_use = 1;
        cc_id = cc_id;
        pid = current_pid;
        generation = generation;
        heartbeat_ns = now;
      }
          ∷ ps,
    )
    else (rest.0, p ∷ rest.1)

-- `acquire_peer_slot`
unfoldable pub acquire_peer_slot : ℕ → Mask → ℕ → ℕ → TopicControl → Option ℕ × TopicControl
unfolding acquire_from is_zero
acquire_peer_slot generation cc_id current_pid now c =
    let r = acquire_from 0 generation cc_id current_pid now c.peers in
    if is_zero cc_id then (none, c) else (r.0, record c { peers = r.1 })

-- `peers[slot]` is changed.
unfoldable pub change {ℓ} : {A : Type ℓ} → ℕ → (A → A) → List A → List A
change i f [] = []
change zero f (x ∷ xs) = f x ∷ xs
change (suc i) f (x ∷ xs) = x ∷ change i f xs

abbrev pub at_slot : Option ℕ → (PeerSlot → PeerSlot) → TopicControl → TopicControl
at_slot none f c = c
at_slot (some slot) f c =
    if leb max_peer_slots slot then c else record c { peers = change slot f c.peers }

-- `peer_heartbeat` and `release_peer_slot`
unfoldable pub peer_heartbeat : Option ℕ → ℕ → TopicControl → TopicControl
unfolding change
peer_heartbeat slot now c = at_slot slot (λ p. record p { heartbeat_ns = now }) c

unfoldable pub release_peer_slot : Option ℕ → TopicControl → TopicControl
unfolding change
release_peer_slot slot c = at_slot slot (λ p. free_slot) c

-- The slots that `collect_stale_peers` does not pass over.
unfoldable pub is_stale : ℕ → ℕ → PeerSlot → Bool
unfolding is_zero
is_stale timeout_ns now p =
    p.in_use /= 0
    && (not (is_zero p.cc_id || p.heartbeat_ns == 0) && not (ltb (now - p.heartbeat_ns) timeout_ns))

-- Its loop, with `stale` so far.
unfoldable pub collect_from : ℕ → ℕ → Mask → List PeerSlot → Mask × List PeerSlot
unfolding is_stale bits_or
collect_from timeout_ns now stale [] = (stale, [])
collect_from timeout_ns now stale (p ∷ ps) =
    let dead = is_stale timeout_ns now p in
    let rest = collect_from timeout_ns now (if dead then bits_or stale p.cc_id else stale) ps in
    (rest.0, (if dead then free_slot else p) ∷ rest.1)

-- `collect_stale_peers`. A heartbeat behind `now` gives a negative age in the code and 0 here, and both are
-- less than a positive time-out.
unfoldable pub collect_stale_peers : ℕ → ℕ → TopicControl → Mask × TopicControl
unfolding collect_from
collect_stale_peers timeout_ns now c =
    let r = collect_from timeout_ns now no_cc c.peers in
    if timeout_ns == 0 then (no_cc, c) else (r.0, record c { peers = r.1 })

-- What `occupied_by_other` finds behind the name of a segment.
pub data Segment : Type 0 where
  absent : Segment
  unreadable : Segment
  mapped : TopicControl → Segment

-- `occupied_by_other`; `pid_alive` asks the operating system, and a self_pid that is not positive is 0.
unfoldable pub occupied_by_other : (ℕ → Bool) → List ℕ → ℕ → Segment → Bool
unfolding is_empty
occupied_by_other pid_alive name self_pid seg =
    if length name == 0 || self_pid == 0 then true else by_segment seg
  where
    by_segment : Segment → Bool
    by_segment absent = false
    by_segment unreadable = true
    by_segment (mapped c) =
        if c.magic == topic_control_magic
        then if is_empty c.state
          then false
          else if c.owner_pid == self_pid
          then false
          else if not (pid_alive c.owner_pid)
          then false
          else true
        else true

-- The calls of all processes on one plane.
pub data Call : Type 0 where
  rebuild : ℕ → ℕ → Call
  publish : ℕ → Call
  stop : ℕ → Call
  beat : ℕ → Call
  join : ℕ → Call
  leave : ℕ → Call
  acquire : ℕ → Mask → ℕ → ℕ → Call
  peer_beat : Option ℕ → ℕ → Call
  release : Option ℕ → Call
  collect : ℕ → ℕ → Call

unfoldable pub call : Call → TopicControl → TopicControl
unfolding begin_rebuild add_peer remove_peer acquire_peer_slot peer_heartbeat release_peer_slot
    collect_stale_peers
call (rebuild current_pid now) c = (begin_rebuild current_pid now c).1
call (publish now) c = set_ready now c
call (stop now) c = set_stopping now c
call (beat now) c = heartbeat now c
call (join generation) c = (add_peer generation c).1
call (leave generation) c = remove_peer generation c
call (acquire generation cc_id current_pid now) c =
    (acquire_peer_slot generation cc_id current_pid now c).1
call (peer_beat slot now) c = peer_heartbeat slot now c
call (release slot) c = release_peer_slot slot c
call (collect timeout_ns now) c = (collect_stale_peers timeout_ns now c).1

unfoldable pub calls : List Call → TopicControl → TopicControl
unfolding call
calls [] c = c
calls (o ∷ os) c = calls os (call o c)
