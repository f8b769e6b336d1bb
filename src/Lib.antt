-- ===== src/Lib.antt =====
-- vt-ferry carries VideoToolbox calls of a guest over a byte stream to a worker on the host. The guest's
-- shim writes requests, the broker bridges the stream, and the worker answers each request from a
-- backend: VideoToolbox itself, or the in-memory backend that the tests of the guest run against. Here
-- are the in-memory backend with the wire structs, the loop of the worker that serves a connection from
-- any backend, the guest's end of that connection, the decode side of the backend on VideoToolbox, and the
-- directory of the surfaces that the launcher allocates, and their allocation.
--
-- Prelude: tests, vectors and their laws. `find_first` is Rust's iter().position() with the element at
--   that index, `modify_first` the write through that index, `retain` Vec::retain and filter,
--   `remove_first` Vec::remove at that index.
-- Protocol (crates/vt-ferry-protocol/src/lib.rs): the codes (Codes), and each #[repr(C)] struct with the
--   layout of its scalars (Header, Sessions, Buffers, Outputs). The crate bytemuck is a parameter, the
--   interface `Wire.Bytemuck`; `LittleEndian.little_endian` fills it.
-- Mock (crates/vt-ferry-worker/src/mock.rs): the structs of the backend (State), buffer layouts
--   (PixelLayout), read_pod and write_pod (Transfer), the find_*_idx lookups and the slots of a pool
--   (Handles), and the arms of `dispatch` as `on_<opcode>` (SessionOps, PoolOps, BufferOps, EncodeOps,
--   OutputOps), which Dispatch puts together. An `Outcome` is the backend after the request, the status
--   in the response header, the response buffer and the returned Result<usize, ()>. An arm is a chain of
--   checks; a failed check ends it with its status. The proofs stand in Ensures (postconditions of such
--   chains), Invariant, Refusal, Bytes and Slots (the bytes of one slot), Contents, ReadBack, Queue,
--   Encoding (a frame from its request to the dequeue of its output), Lifecycle, Samples, Fits (the response buffer), Counters and Runs (a whole connection), Ending and
--   GiveBack.
-- Server (crates/vt-ferry-worker/src/server.rs): the stream of a client (Stream), the trait Backend of
--   backend.rs as an interface (Backend), and handle_connection (Connection): `serve_one` is one
--   iteration of its loop and `serve_rounds` the loop. Answers describes what a connection sends without
--   streams and buffers; Closing is about its end; InMemory fills the interface with the in-memory
--   backend.
-- Transport (crates/vt-ferry-shim/src/transport.rs): the guest's end of the stream. A socket and the
--   environment of the process are interfaces; `Transport` is the statics of the file. Sending has the
--   request and its reply, poisoning and the heartbeat; Calls, Buffers, Chunks, Releases and Frames have
--   the calls of the guest. An i32 error stands as its bits. Terminal is about a stream that fails
--   and the transport after it; Worker puts the server at the other end of the socket, Rounds and Delivery
--   are about a request then, Oversize about one that is too long, and Deferral about the releases put off.
-- Real (crates/vt-ferry-worker/src/vt_real.rs): the decode side of the backend on VideoToolbox. Frameworks is
--   what it calls of VideoToolbox, CoreMedia and CoreVideo, as an interface over a state `World`; Maps has
--   its hash maps, as functions; State the backend and the queue of decoded frames, Sessions the arms that
--   create, set up and destroy a session, Encoded those that take frames to decode, Decoded the callback of
--   the decoder with the arms that give its frames out, and Pixels the two copies of a pixel buffer. An arm
--   without a response payload is the status and the backend. Assembly, Fifo, Failures, Frames,
--   Rows and Ranges are the proofs.
-- Shim (crates/vt-ferry-shim/src/runtime.rs): the objects of the shim over a memory, whose reads fail where
--   no object is, and the counters of the process (Runtime). The finalize hooks are a parameter. Counting
--   compares the reference counts with a plain count. Records has the parsers of decoder configuration
--   records in crates/vt-ferry-shim/src/coremedia.rs; Avcc and Hvcc write the records and are
--   the proofs.
-- Directory (crates/vt-ferry-worker/src/iosurface_pool_directory.rs): the entries and their claims, load
--   over the parsed specs, with take_by_id of iosurface_bridge.rs.
-- Broker (crates/vt-ferry-broker/src/pool.rs): slot sizes, allocate_pools with its early returns and the
--   drops that they cause as a log of calls, and register_ports. The IOSurface and Mach frameworks are a
--   record of functions; the name of a region is kept as the numbers that are printed into it.
-- Examples: a small backend, and each theorem applied at it.
--
-- Numbers are natural numbers: casts and additions of u32 and u64 wrap explicitly, as in a release build,
-- and subtraction stops at 0, where the source has saturating_sub or a test before it. The two loops of
-- the backend run on the rounds that are left: 24 at most to fill a NAL unit, and the clamped batch
-- size to dequeue outputs; no round is left undone. The loop of a connection runs on a number of
-- iterations, and one more than the bytes of its stream is enough.
--
-- Not modelled: the encode side of the backend on VideoToolbox and its arms that read decoded frames out,
-- the IOSurface bridge (foreign frameworks), the C entry points of the guest's shim (raw pointers), the
-- sockets and processes of the broker, logs, probes and the scripts that patch ffmpeg.
pub mod Prelude
pub mod Protocol
pub mod Mock
pub mod Server
pub mod Transport
pub mod Directory
pub mod Broker
pub mod Examples
pub mod Real
pub mod Shim
