-- ===== src/Lib.antt =====
-- rabbitstreamer, a peer-to-peer streaming system: capture servers send the blocks of a channel
-- to super peers; a tracker tells peers and super peers of each other and of the intervals of
-- blocks that each of them has; peers ask super peers for blocks.
--
-- What is modelled, and where:
--   Prelude: Boolean tests, lists, `uint32_t` arithmetic, and `Result`, which is a value or a
--     fault that stops the process: a failed `assert`, an access outside of an allocated array,
--     or a division by 0.
--   IntervalArray (core/interval_array.h): the sets of block numbers that the tracker keeps.
--     `AddInterval` is `add_interval`, `DelInterval` is `del_interval`, and so on. An array is
--     the list of its valid entries; sums and differences wrap at 2 ^ 32. A loop that ends in a
--     recursive call is a scan, with the arguments of that call as its result. The overlapping
--     `memcpy` of `SafeInsert` is taken for a `memmove`.
--   Streamer (core/streamer.h, core/streamer.cpp): the cursor over the bytes of a message.
--     `read_char`, `write_int` and the others keep their names. The memory is split where the
--     cursor stands.
--   CoreStruct (core/core_struct.h): the structures in messages, and their bytes.
--   Message (core/message.h, core/message.cpp): one module for each class that extends
--     `RsMessage`, with `parse`, `pack_submsg` and `reserve_pack_size`; `RsMessage::pack`; and
--     how a connector opens a packet, over the memory of the receive buffer: the packet and
--     what an earlier one left behind it.
--   Dispatch (protocol/tracker/tracker_np_connector.cpp,
--     protocol/tracker/tracker_sp_connector.cpp): the `switch` of the two `handle_udp_packet`,
--     up to the parsed message. The listener (core/udp_listener.cpp) stores each packet at the
--     start of one buffer: `run` of NpTracker/Peers and of SpTracker/Invariant.
--   ReceiveBuffer (core/buffer.h, core/buffer.cpp, `RsSocket::read` of core/socket.cpp): the
--     buffer of a connection, with `fill_buffer`. Pointers are offsets into it.
--   Socket (core/socket.h, core/socket.cpp): the time limits and the counts of bytes of a
--     socket.
--   BufferQueue (protocol/common/buffer_queue.h, protocol/common/buffer_queue.cpp): the ring of
--     blocks of a channel. A `media_buffer *` is an index into the ring. What the caller of
--     `queue_buffer` stores through it is taken as it is; the one caller, `put_block` of
--     CaptureServer, checks the size.
--   StdMap: `std::map`, and the order of its keys by `strncasecmp`.
--   SourceManager (protocol/sp/sp_source_manager.h, protocol/sp/sp_source_manager.cpp): the
--     channels of a super peer, a map from hashes to rings.
--   StreamManager (protocol/tracker/tracker_streamer_manager.h,
--     protocol/tracker/tracker_streamer_manager.cpp, `ChannelNode` of core/struct_define.h):
--     the super peers that the tracker knows, a map from UUIDs to nodes. The overloads of
--     `get_cp_address` are `get_other_addresses` and `get_cp_address`.
--   NpCoordinator (protocol/tracker/tracker_np_manager.h,
--     protocol/tracker/tracker_np_manager.cpp, `NPNode` of core/struct_define.h): the peers
--     that the tracker knows, and `get_np_address`, which chooses the peers that another one is
--     sent to.
--   Uuid: `generate_uuid` of the two connectors of the tracker.
--   NpTracker (protocol/tracker/tracker_np_connector.h,
--     protocol/tracker/tracker_np_connector.cpp, `IsNatIP` of core/core_struct.h): the handlers
--     of the packets of peers. The state has both managers; a handler gives the new state and
--     the packet that it sends.
--   SpTracker (protocol/tracker/tracker_sp_connector.h,
--     protocol/tracker/tracker_sp_connector.cpp): the same for the packets of super peers.
--   TrackerClient (protocol/sp/sp_tracker_connector.h, protocol/sp/sp_tracker_connector.cpp):
--     the other end, a super peer that registers at the tracker and reports its channels.
--   MessageReader: the start of `loop` of protocol/sp/sp_cs_connector.cpp and of
--     protocol/sp/sp_np_connector.cpp, which take a message from a receive buffer alike; and
--     `get_as_type` of protocol/sp/sp_cs_connector.h.
--   CaptureServer (protocol/sp/sp_cs_connector.h, protocol/sp/sp_cs_connector.cpp): the
--     messages of a capture server, which create a channel, give it its header and fill it with
--     blocks.
--   PeerServer (protocol/sp/sp_np_connector.h, protocol/sp/sp_np_connector.cpp, `thread_loop`
--     of core/thread.cpp): the requests of peers for blocks. A call gives the packets that it
--     writes.
--   Timer (core/timer.h, core/timer.cpp), SystemTime (core/system_time.h, core/system_time.cpp)
--     and BitrateCalculator (core/bitrate_calculator.h, core/bitrate_calculator.cpp): the
--     timers of a process, its clock, and the bit rate of a connection.
--
-- How the parts interact: a message is parsed and packed through the streamer, and the
-- structures in it are copied through `CoreStruct`. The tracker takes a packet for a message by
-- its type (`Dispatch`), and its handlers (`NpTracker`, `SpTracker`) change what the managers
-- hold. What a super peer sends and receives of this is in `TrackerClient`; the two ends are
-- put together in TrackerClient/Handshake and TrackerClient/Resources. A capture server's
-- connection collects bytes in a receive buffer, from which the super peer takes messages
-- (`MessageReader`); `CaptureServer` puts each block into the ring of its channel with
-- `queue_block` and `set_block_available`, and `PeerServer` takes it out with `dequeue_block`
-- for the peers that ask for it. The way of a block from the one connection to the other is in
-- PeerServer/Relay.
--
-- Bounds: `add_interval` allows one round more than there are entries, since each recursive
-- call follows the removal of an entry; `del_interval` one more than twice as many, since a
-- call may also follow the shortening of an entry. `fill_loop` allows as many rounds as bytes
-- are asked for, since a read that succeeds brings a byte. `rounds` of `NpCoordinator` allows
-- one round more than there are groups of peers, since a round that goes on uses up a group
-- where `rand` is not 0. The theorems show that these are enough.
--
-- Conventions: what a handler takes from outside is a record `Outside`: the clock, `rand`, the
-- address of the sender, what newly allocated memory and fields that the source leaves unset
-- hold, and the digest of third_party/md5. The library st is a parameter, by what `st_read` may
-- return, with the bytes that are still to come on the connection. Singletons are part of the
-- state. What is written to a socket or sent is a result of the call, and whether the library
-- takes all of it does not matter to the source. Numbers of the type `int` that the source
-- never makes negative are natural numbers.
--
-- Not modelled: the start and the stop of threads, listeners and connections, which are
-- wrappers of the library st; loggers and other output; `CopyIntervalArray`, which sorts with
-- `std::sort`; the applications, which set up the parts; third_party.
pub mod Prelude
pub mod IntervalArray
pub mod Streamer
pub mod CoreStruct
pub mod Message
pub mod Dispatch
pub mod BufferQueue
pub mod ReceiveBuffer
pub mod MessageReader
pub mod Socket
pub mod StdMap
pub mod SourceManager
pub mod CaptureServer
pub mod PeerServer
pub mod StreamManager
pub mod NpCoordinator
pub mod Timer
pub mod SystemTime
pub mod BitrateCalculator
pub mod Uuid
pub mod NpTracker
pub mod SpTracker
pub mod TrackerClient
