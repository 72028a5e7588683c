-- ===== src/Lib.antt =====
-- vstreamer sends H.264 video over a lossy link. The sender splits an access unit into RTP
-- datagrams (src/core/rtp_h264.cpp), groups the datagrams into blocks with parity shards
-- (src/core/rs_block_erasure.cpp) and puts a sequence number before each shard
-- (src/core/stream_header.hpp). The receiver counts the gaps in the sequence numbers
-- (src/core/sequence_gap.hpp), restores the blocks, hands their packets out in order, joins the RTP
-- payloads to access units, and reports its counters back (src/core/stream_telemetry.hpp).
--
-- Which file models what:
--   Base: what the others share. A pointer with its length is a List of bytes, a call that can fail
--     is an Outcome (a value, a negative errno, or `fault` for an access outside an array), and a
--     method is an Act, a function from the object's state to the new state and the outcome.
--   Rtp, src/core/rtp_h264.hpp and rtp_h264.cpp: Annexb holds the split at start codes
--     (parse_annexb_nals), Packer the class rtp_h264_packer, Depacketizer the class
--     rtp_h264_depacketizer, each with a function per method. Datagram, InOrder, Delivery, Safety and
--     Overrun are proofs: a datagram read back, one step of the depacketizer on datagrams in order,
--     the way of a unit and of an access unit across the link, the reads of the parser, and the size of
--     the fragment buffer.
--   Fec, src/core/rs_block_erasure.hpp and rs_block_erasure.cpp: Ring and Header hold the ids and
--     the header of a shard, Codec and Decode the blocks (encode_block, decode_block,
--     gen_decode_matrix), Sender the sending half of the class, Receiver its receiving half: the
--     state, the emit queue (Emit), the moves of the ring and the timeouts (Resync) and the way of a
--     shard (Air). Systematic, Pending, Complete and the rest of Receiver are proofs.
--   Rtp.Pay and Rtp.Depay, src/components/rtp_h264_pay.cpp and rtp_h264_depay.cpp: the components
--     around the packer and the depacketizer, with their queues and their settings (configure, whose
--     numbers KeyUtil reads).
--   StreamHeader, SequenceGap and Telemetry: the three headers of src/core with these names.
--   Buffers, src/core/shared_sized_buffer.hpp and buffer_pool.cpp: a heap of storages, the views of
--     them (a View is `store`, `off` and `len`), and Pool with its blocks. Loans, Moves and
--     Lending follow the blocks over a run of acquisitions and returns.
--   Queues, src/apps/common/queues.hpp: the bounded queues between threads. A method is one step
--     under its mutex, and a wait is an outcome of its own (`waits`). Journal is what they promise,
--     Threads the steps of any number of threads, Stopped the end of a program.
--   LinkEmulator, src/apps/stream_sdl_test/link_emulator.cpp: the relay that limits the rate and loses
--     datagrams, by direction, with the end of the socket in its state (`sent`).
--   HostUtil, src/core/host_util.hpp: a host and its port; strtol is a parameter.
--   CpuMap, src/apps/common/cpu_map.cpp: the processors of the stages, read from the environment.
--   Level, src/core/h264_level.cpp, and KeyUtil, src/core/key_util.hpp: the H.264 level, and decimal
--     integers.
--
-- How the code is read. Integers are natural numbers with the wrap-around of their width written
-- out. A null pointer is not modelled: the code refuses one where it takes a pointer. The `mtu` and
-- `fps` of the packer, and the `int` arguments of the shard header, are not negative. The clock of the
-- erasure code is an argument, in nanoseconds, and a call reads it once. A hash map is a list of
-- pairs, and a walk over it goes in the order of the list. A view of a buffer is its bytes. The
-- object rs_block_erasure is split into its sender and its receiver; the counter of blocks, which
-- both halves write, is kept by each. A buffer's reference count is not modelled: that the last view
-- of a block goes is a step of its own. What a condition variable waits for is the predicate of the
-- wait, found true, false, or false at the end of the time. Rates of the emulator are whole kbit/s,
-- losses hundredths of a percent. The number that the packer's constructor makes of the process and
-- the time is an argument (`seed`). Where decode_block leaves the cache of its tables the receiver is
-- marked as `faulted`, and its state says nothing from there on.
--
-- Fuel. scan_nals takes a byte at least in each round and has the number of bytes; send_fragments
-- and append_aggregated have the number of bytes too. make_room takes a block away in each round and
-- has the number of blocks. The loop of the depayloader's input hands out one access unit in each
-- round and has three more rounds than units wait. The loops over queues are recursion on the queue.
-- parse_tokens and parse_entries take a byte at least in each round and have the number of bytes.
-- The rounds of run_emit_engine and maybe_give_up_head have as many as
-- there are blocks, and one more for the wait for a later block and one for the last round.
--
-- ISA-L is a parameter (the record Isal of Fec/Codec): its matrices and its coding are not
-- interpreted.
--
-- Not modelled: the devices, the codecs and the display (src/components), sockets and threads
-- (stream_sender.cpp, stream_receiver.cpp, src/apps but for the queues, the processor map and the
-- emulator's relay), the resolver's calls, and the metrics, which call drivers and the system; the
-- queries, which print counters; numbers in other bases and floating point
-- (key_parse_i64_auto, key_parse_double); the test pictures and the conversion of pixels
-- (src/core/noise_fft2.cpp, pix_convert.cpp); the random start id of the constructor of
-- rs_block_erasure.
mod Base
pub mod Telemetry
pub mod StreamHeader
pub mod SequenceGap
pub mod Rtp
pub mod Queues
pub mod Level
pub mod KeyUtil
pub mod CpuMap
pub mod HostUtil
pub mod Buffers
pub mod LinkEmulator
pub mod Fec
