-- ===== src/Ring.antt =====
-- The ring between one sender and one receiver, src/libipc/prod_cons.h
-- (prod_cons_impl<single, single, unicast>): the atomic operations of `push` and `pop` in any
-- interleaving. The indices rd_ and wt_ are uint32_t, of which `index_of` keeps the low byte; a slot
-- holds a number that stands for its bytes. Memory is sequentially consistent here.
pub mod Order
pub mod Refusals
mod Tests
use cpp_ipc_dds.Common.{
  ℕ, ◌+◌, List, [], ◌∷◌, ◌++◌, ◌==◌, if◌then◌else◌, get_or, set, replicate, u8, u32, sub32,
}

-- `index_of`, and the number of slots.
abbrev pub index_of : ℕ → ℕ
index_of c = u8 c

abbrev pub ring_slots : ℕ
ring_slots = 256

-- The sender between its calls; in `push` of a value: behind the load of wt_ with `cur_wt`, behind
-- the test for a full ring, behind the write of the slot.
pub data Sender : Type 0 where
  idle : Sender
  loaded : ℕ → ℕ → Sender
  passed : ℕ → ℕ → Sender
  written : ℕ → Sender

-- The receiver between its calls; in `pop`: behind the load of rd_ with `cur_rd`, behind the test for
-- an empty ring, behind the read of the slot with the value.
pub data Receiver : Type 0 where
  idle : Receiver
  loaded : ℕ → Receiver
  passed : ℕ → Receiver
  copied : ℕ → Receiver

-- The shared memory, both threads, and what was pushed with the result true and popped so far.
pub record System : Type 0 where
  pub wt : ℕ
  pub rd : ℕ
  pub slots : List ℕ
  pub sender : Sender
  pub receiver : Receiver
  pub pushed : List ℕ
  pub popped : List ℕ

-- The next operation of `push(value)`.
sender_step : ℕ → Sender → System → System
sender_step value idle s = record s { sender = loaded value (index_of s.wt) }
sender_step value (loaded v cur_wt) s =
    if cur_wt == index_of (sub32 s.rd 1)
    then record s { sender = idle }
    else record s { sender = passed v cur_wt }
sender_step value (passed v cur_wt) s = record s {
  slots = set s.slots cur_wt v;
  sender = written v;
}
sender_step value (written v) s = record s {
  wt = u32 (s.wt + 1);
  sender = idle;
  pushed = s.pushed ++ v ∷ [];
}

-- The next operation of `pop`.
receiver_step : Receiver → System → System
receiver_step idle s = record s { receiver = loaded (index_of s.rd) }
receiver_step (loaded cur_rd) s =
    if cur_rd == index_of s.wt
    then record s { receiver = idle }
    else record s { receiver = passed cur_rd }
receiver_step (passed cur_rd) s = record s { receiver = copied (get_or s.slots cur_rd 0) }
receiver_step (copied v) s = record s {
  rd = u32 (s.rd + 1);
  receiver = idle;
  popped = s.popped ++ v ∷ [];
}

-- Who moves: the sender, which begins to push the value if it is idle, or the receiver.
pub data Turn : Type 0 where
  send : ℕ → Turn
  receive : Turn

pub step : Turn → System → System
unfolding sender_step receiver_step
step (send value) s = sender_step value s.sender s
step receive s = receiver_step s.receiver s

pub run : List Turn → System → System
unfolding step
run [] s = s
run (t ∷ ts) s = run ts (step t s)

-- An empty ring: the memory is zero.
abbrev pub start : System
start = record {
  wt = 0;
  rd = 0;
  slots = replicate ring_slots 0;
  sender = idle;
  receiver = idle;
  pushed = [];
  popped = [];
}
