-- ===== src/Lib.antt =====
-- Razor RPC: a framework of streams between a client and a server (stream/), a transport over TCP
-- (transport/tcp/) and an API layer over both (src/). A client numbers its tasks, writes each as a
-- request (a header of 32 bytes, the action's string, the message, the blob), keeps it in a timer,
-- and hands it on when the response with its number arrives (a header of 20 bytes, the message, the
-- blob or an error), when the time is up, or when the connection breaks. A pool keeps a connection
-- to one address; a failover pool selects among pools and retries.
--
-- The parts, and where they are:
-- - Error: stream/src/error.rs. `RpcIntErr`, `EncodedErr`, `RpcErrCodec` and its implementations.
-- - Layout: what the headers ask of the package zerocopy, as a parameter.
-- - Proto: stream/src/proto.rs. `ReqHead` and `RespHead`; Proto/Request is `ReqHead::encode`,
--   Proto/Response is `RespHead::encode`, `encode_internal` and `_encode_error`.
-- - Task: the traits of stream/src/client/task.rs and stream/src/server/task.rs, as records.
-- - Collections: the part of BTreeMap and VecDeque that the timer uses.
-- - Timer: stream/src/client/timer.rs, `ClientTaskTimer`, one function per method.
-- - Codec: codec/src, `MsgpCodec` over the package rmp_serde.
-- - Buffer: stream/src/buffer.rs, `AllocateBuf::reserve` of the four types.
-- - Stream: stream/src/client/stream.rs and throttler.rs, the sending half of `ClientStream` and the
--   clean-up at the end of `receive_loop`; Stream/Receive is `recv_one_resp`, `recv_some` and the poll
--   with the tick; Stream/Flow lets sender, receiver and tick move in any order, and Stream/Numbers,
--   Conserve, Moves, Keeps and Once follow every task through it.
-- - Tcp: transport/tcp/src. Tcp/Server is `read_req`, `write_resp` and `write_resp_internal`;
--   Tcp/Client is `write_req` and `read_resp` with the functions below it; Tcp/Writes is about what
--   they send.
-- - Pool: stream/src/client/pool.rs, the state of `ConnPoolInner` and its operations;
--   Pool/Workers is its workers as steps, with Pool/Workers/Tasks and Monitor about all orders of them.
-- - Server: stream/src/server. The channels of the connections and `RespNoti`; Server/Task is
--   `ServerTaskVariant` and `ServerTaskVariantFull`, Server/Dispatch is `DispatchClosure`, Server/Loop
--   is a connection's reader and writer, Server/Connection their steps in any order, and
--   Server/Pipeline a client's requests one behind the other;
--   Server/Close is `RpcServer` with `listen` and `close`;
--   Server/Graceful is `GracefulServer`, with Server/Decimal for the text of descriptors.
-- - Failover: stream/src/client/failover.rs, `FailoverPool`, `ClusterConfig`, `FailoverFacts` and
--   `FailoverTask`.
-- - Api: src/client/task.rs, `APIClientReq` and `process_res`, and the rounds of `FailoverPool::call`
--   in src/client/mod.rs; Api/Server is src/server/task.rs and the dispatch of src/server/dispatch.rs;
--   Api/Service is src/server/service.rs with the code of `#[service]` and `#[service_mux_struct]`;
--   Api/Calls is the two calls of src/client/mod.rs, Api/Remote what an answer becomes at the caller,
--   and Api/Wire a call byte by byte on the connection.
-- - Macros: stream/macros/src. Macros/ClientTask is `#[client_task]`, Macros/ClientEnum
--   `#[client_task_enum]` and Macros/ServerEnum `#[server_task_enum]`; Macros/Generated is the code of
--   the first. Macros/Syntax is what they read of the package syn.
--   Macros/Endpoint is `#[endpoint_async]` and Macros/Service `#[service]` of macros/src.
-- - Tests: the theorems at concrete tasks, timers, streams and pools.
--
-- Conventions. Bytes and machine integers are natural numbers, signed ones ℤ; a width is written out
-- as `% 2 ^ w`, as a release build wraps. Text is its UTF-8 bytes. `Result` has a third constructor
-- for a panic. A method that changes its object returns the new state; what it hands to
-- `error_handle` or `done` is a list, in order. A future that waits is a poll that is pending, or an
-- outcome that waits with the task in hand. What arrives on a connection is the list of the bytes
-- that come before it closes or a read's time runs out. The receiver runs on a schedule of its
-- rounds, the server's reader on the number of headers before it is stopped, and its writer on the
-- batches that it finds, so none of them needs fuel. The clean-up loop of the receiver runs on fuel
-- for its rounds: one round is enough if the counter is right. The wait of a server's close runs on
-- fuel, of which the seconds of its time limit and two more are enough.
--
-- Not modelled: the packages (zerocopy, crossfire, orb, io_buffer, nix, rmp_serde, syn), which are
-- parameters or lists here; logging, and how errors are displayed; the connecting and accepting of
-- sockets; the scheduling of the runtime, so that a method of the timer, the stream or a pool is one
-- step; the processes and the names of files of a restart; the Debug
-- code that the macros of tasks generate, and what implements From and Deref.
pub mod Prelude
pub mod Error
pub mod Layout
pub mod Proto
pub mod Task
pub mod Codec
pub mod Buffer
pub mod Collections
pub mod Timer
pub mod Stream
pub mod Pool
pub mod Server
pub mod Failover
pub mod Macros
pub mod Api
pub mod Tests
pub mod Tcp
