-- ===== src/Lib.antt =====
-- Elio is a C++20 library of coroutines: a scheduler, synchronisation primitives, I/O, and
-- protocols (HTTP, WebSocket, RPC) on top. This library models the parts of it that decide without
-- the operating system, and proves what makes them right. All sources named here are under
-- include/elio.
--
-- The parts and where they are modelled:
--
-- Http/WebSocket is http/websocket_frame.hpp. `Opcode`, `Header`, `Mask` and `Encode` are the codec
-- of a frame (parse_frame_header, apply_mask, generate_mask_key, encode_frame and the encoders of
-- one kind of frame); `Utf8` is is_valid_utf8 and `Close` the close payload. `Parser` is
-- frame_parser::process_buffer: its loop is `process_buffer`, one turn is `round`, and the checks
-- of a turn, the removal of the frame from the buffer and the delivery of its payload are functions
-- of their own, in the order of the code. `Queues` is how a connection takes messages and control
-- frames out. A FrameParser is the class's fields; bytes are numbers. The loop runs on fuel, one
-- more than the bytes in the buffer; each turn that goes on removes a frame of at least two bytes.
-- What the system gives as randomness is the argument `Entropy`.
--
-- Http/Text, Http/Url and Http/Headers are parts of http/http_common.hpp: the tests of tokens,
-- names and values of headers; url_encode and url_decode; and the class headers with both of its
-- maps, each a list of entries that is searched without regard to case. `Maps` has the laws of such
-- a map, and `Agree` how the joined value of a name and its field lines go together, which `Adding`
-- and `Invariant` show of every change; `ContentLength` is about that one header.
--
-- Http/Targets is the methods, request targets, versions and CONNECT authorities of
-- http/http_common.hpp, with inet_pton as the argument `is_ipv6`. Http/Parser is
-- http/http_parser.hpp: `Lines` and `Chunks` read lines and chunk sizes, and `Request` is the class
-- request_parser, whose members apart from buffer_ are the record Fields; `Parse` has its functions on
-- the buffer and the loop of parse. That loop and the one of parse_headers run on fuel, one more
-- than the bytes in the buffer: every turn that goes on consumes a byte at least, or is the last.
-- `States` is what is known in each state of the parser, `Steps` and `Rounds` that every function
-- keeps it, `Cut` and the modules below it what more input changes, and `Reached` is about the parsers
-- that a program can hold. `Response` is response_decoder, and its `Decode` has decode with its events
-- and the class response_parser, whose loop runs on fuel, two more than twice the bytes in the buffer:
-- every round that goes on consumes a byte. `Bytes` is a reference that goes byte by byte; `Events`,
-- `Rounds`, `Rest` and `Reached` set it against decode and parse, `Counted` is what holds of a body
-- whose end is counted, and `Adding` is about a field line. Sizes are taken to be below 2 ^ 64, as
-- those of the strings are.
--
-- Sync/WakeState is sync/detail/wake_state.hpp, which decides whether a wait ends by completion
-- or by cancellation. Threads are interleaved at its atomic steps. Sync/Semaphore is
-- sync/semaphore.hpp: the count, the queue of waiters, and the waiters, which use the wake state.
-- A section under the mutex is one step; the token's callback, which takes no mutex, comes
-- between the steps of a waiter by Boolean arguments, with its two atomic steps (request_cancel
-- and schedule_claimed) as one, which `Runs` of Sync/WakeState keeps apart. Other threads come
-- between operations, and between a release and the scheduling of each waiter that it granted a
-- permit.
--
-- Sync/Mutex is sync/mutex.hpp, with the same waiters. `Clients` runs any number of clients on one
-- mutex: each does what co_await does with the waiter's await_ready, await_suspend and
-- await_resume, an owner unlocks, and a thread that was returned a waiter schedules it at any later
-- time. The exchange before the lock of await_suspend_non_cancellable, the part under the lock, and
-- the scheduling are steps of their own; await_ready is one step but for the token's callback.
-- Every wait is a client with a number of its own, so that a wake state, which the code shares by
-- pointer, is that of its client. `Fits` is what holds of a waiter at each phase of its client.
-- `Claims` and `Recover` are about the hand-over of the mutex, `Positions` and `Local` about a step
-- of one client, and `Entering`, `Claiming`, `Publishing`, `Waiting`, `Resuming`, `Rewaking` and
-- `Leaving` go through the steps; `Exclusion` and `Handoff` say what follows.
--
-- Sync/Ring is sync/lockfree_ring.hpp for a capacity of 2 ^ k. A thread stands at one of the atomic
-- accesses of try_push and try_pop, with its local variables, and `advance` is its next step;
-- `Threads` interleaves any number of threads in any order. `Windows`, `Effects`, `Work` and
-- `Invariant` are what holds of slots and threads; `Queue` is the bounded queue that the ring is to
-- be, and `Refusals` when a thread is turned away. The read of a slot's value and its reset are one
-- step, since no other thread looks at a slot that a thread has claimed. The weak exchange may fail
-- without cause. The counters are words of 64 bits, and are taken to stay below 2 ^ 63: a run has
-- that many steps at most.
--
-- Rpc/Buffer is buffer_view and buffer_writer of rpc/rpc_buffer.hpp, with the byte order of
-- rpc/rpc_endian.hpp. Rpc/Protocol is the frame header, its validation and the request identifiers
-- of rpc/rpc_protocol.hpp, with the builders of frames and the parsers of payloads in
-- Rpc/Protocol/Build. The header is written and read by the buffers, and so are payloads:
-- Rpc/Buffer/Fields has serialize and deserialize of rpc/rpc_types.hpp for structs of unsigned
-- integers, strings and bytes. `run` of Rpc/Buffer/Reader goes on after a call that throws, from the
-- position where the code then stands.
--
-- Prelude has the shared names, Boolean tests, lists measured by machine numbers, and bits. Modules
-- named Tests hold runs on small inputs and instances of the theorems.
--
-- Not modelled: the coroutine types, whose control flow the compiler makes; the scheduler, the I/O
-- backends, sockets, TLS, HTTP/2, RDMA, signals and timers, which call the system or other
-- libraries; HTTP messages, URLs and the paths in them, the other synchronisation primitives, the
-- queues of the scheduler, the hashes and the server-sent events. Memory orders are not modelled:
-- an atomic step is seen by all threads at once. Allocation failures are not modelled.
pub mod Prelude
pub mod Http
pub mod Rpc
pub mod Sync
