-- ===== src/Lib.antt =====
-- Verification library of Cpp-IPC-DDS. The socket side of dzIPC: how a message becomes datagrams, how
-- a receiver puts them together again, and the control frames that ask for lost ones. The messages
-- without a generated class. The shared-memory side: locks, rings, queues and fragments.
--
-- The parts, and the code that they model:
--   Framing    include/ipc_msg/ipc_msg_base/ipc_msg_base.hpp (IpcMsgBase): the payload is cut into
--              pages of 1460 bytes, each followed by a tail of 12 bytes; the copy loops
--              adapt_memcpy_tos and adapt_memcpy_tods, the sizes and the tails.
--   Chunks     src/dzIPC/common/data_rev.cc: chunk_send_ex up to its first send (cut, number,
--              check), and the receiver's place_page with its buffers.
--   Control    include/ipc_msg/ipc_msg_base/udp_rtps_ack_msg.hpp: NACK, bitmap NACK, ACK, ACK with
--              feedback, heartbeat.
--   Handshake  include/ipc_msg/ipc_msg_base/udp_id_init_msg.hpp: the handshake message.
--   NackSend   src/dzIPC/common/data_rev.cc: send_nack_for_missing,
--              send_nack_bitmap_for_missing, send_nack_auto.
--   Rate       src/dzIPC/common/data_rev.cc: effective_rate_bps and adapt_rate_dctcp, by which the
--              sender's rate follows the loss that ACKs and NACKs report.
--   Gaps       src/dzIPC/common/data_rev.cc: the runs of lost pages that both sides count.
--   IdPool     src/libipc/utility/id_pool.h: the free list of identifiers.
--   Generic    include/ipc_msg/ipc_msg_base/generic_message.hpp (GenericMessage): named fields, their
--              setters and getters, and the serialization that describes itself. Parse is its
--              deserialize.
--   RwLock     include/libipc/rw_lock.h (rw_lock): the spin lock for readers and writers.
--   Ring       src/libipc/prod_cons.h (prod_cons_impl, single and unicast): push and pop.
--   Queue      include/dzIPC/common/circularqueue.h (CircularQueue): the bounded queue of messages.
--   Channel    src/libipc/ipc.cpp: the fragments of send, and the cache of recv.
--   Connections
--              src/libipc/circ/elem_def.h (conn_head<P, true>): the mask of receivers.
--   Storage    src/libipc/ipc.cpp: the chunks for large messages and their masks of receivers, from
--              acquire_storage to recycle_storage and discard_storage; Sizes: the size classes.
--   Crc        src/dzIPC/common/crc32c.cc: the checksum of payloads, by a table and by instructions.
--   DzFlat     include/ipc_msg/ipc_msg_base/dzflat.h: segments that are read in place, their headers,
--              Writer and Reader.
--   WireAccept src/dzIPC/common/wire_accept.cc (AcceptWire): which format a received buffer has, and
--              what of it is taken, with the counters of src/dzIPC/common/nodelet_config.cc.
--   ControlPlane
--              src/dzIPC/common/control_plane.cc (TopicControlPlane, occupied_by_other): the owner of
--              a topic, its generation, and the slots of its subscribers.
--   Registry   src/dzIPC/common/local_pub_sub_registry.cc (LocalPubSubRegistry): the queues of the
--              own process for each channel.
--   Common     shared names, lists over the native numbers, machine words.
-- A serializer is a list of fields, one adapt_memcpy_tos for each; the generated serializers, and
-- those of Control and Handshake, are such lists. Chunks cuts the stream that Framing writes, and
-- Framing reads the buffer that Chunks fills. Control and Handshake serialize with Framing;
-- NackSend fills the messages of Control from the flags of Chunks. Generic serializes with Framing
-- and reads with its own copy of the loops. Channel stands on a ring that keeps the order. Storage
-- takes its ids from IdPool and its masks from Connections. WireAccept decides with DzFlat and Framing
-- which format a buffer has, and fills the message of Generic. ControlPlane collects connections of
-- Connections whose subscribers no longer show that they live.
--
-- RwLock, Ring and Storage are run by schedules: a list that says who makes the next atomic
-- operation, so that every interleaving is a schedule. Memory is sequentially consistent there. A
-- position in the code between two atomic operations is a constructor of the thread's state.
--
-- A buffer is the list of its bytes. uint8_t, uint16_t, uint32_t and size_t are natural numbers
-- with the wrap-around written out where the code can reach it. State that the code keeps in
-- members or reference parameters is a record that a function takes and returns (Out, Cursor,
-- Assembly). The `for` loops of the copy functions run over the number of rounds that the code
-- computes before them. Fuel is given to `split_from` and to the loop of Generic's deserialize, the
-- length of the stream, since each round takes a byte or more; and to the loops of Queue, where one
-- round for try_enqueue and try_dequeue and two for push are enough with two cells or more; 47
-- rounds to loan_size_class, each of which doubles the capacity; a round for each bit to
-- conn_count. Memory that the code allocates holds any bytes: `mem`, or `malloc n` with the
-- hypothesis `Allocates` that it has n bytes. The host is little-endian.
--
-- Not modelled: sockets, threads and time (the rounds and deadlines around these functions), the
-- delay line for experiments in the rate control, the statistics counters, where the CRC of a
-- payload is taken and compared, the tables of strings and the generated roots of the zero-copy
-- segments. Of the shared-memory side: the mapping of memory, waiting, the broadcast rings and those
-- with several senders or receivers, the bytes of the chunks, interleavings inside an operation of
-- the control plane, and several threads on one CircularQueue.
pub mod Common
pub mod Framing
pub mod Chunks
pub mod Control
pub mod Handshake
pub mod NackSend
pub mod Rate
pub mod IdPool
pub mod Gaps
pub mod Generic
pub mod RwLock
pub mod Ring
pub mod Queue
pub mod Channel
pub mod Connections
pub mod Storage
pub mod Crc
pub mod DzFlat
pub mod WireAccept
pub mod ControlPlane
pub mod Registry
