-- ===== src/Lib.antt =====
-- A model of the library of Unix domain stream sockets (include/pqrs/unix_domain_stream.hpp).
--
-- The program is a set of headers. A `client` (client.hpp) and a `server` (server.hpp) each own a
-- state object that two threads use: the dispatcher, on which all callbacks of the user run, and
-- the one I/O thread of impl/runtime.hpp. Either thread hands functions to the other. A connection
-- is a `peer` (impl/peer.hpp), which reads and writes the frames of impl/protocol.hpp and enqueues
-- its signals to the dispatcher; its owner's slots post what must happen on the I/O thread. Requests
-- that wait for a response are in a `request_manager` (impl/request_manager.hpp), and a
-- `notification_scope` (impl/notification_scope.hpp) drops the notifications of sessions that have
-- ended.
--
-- Files and sources, under include/pqrs/unix_domain_stream/:
--   Options            options.hpp
--   Protocol           impl/protocol.hpp; a byte string is a list of numbers
--   NotificationScope  impl/notification_scope.hpp
--   RequestManager     impl/request_manager.hpp
--   Peer               impl/peer.hpp: Peer/State (members, signals, close), Peer/Write, Peer/Read,
--                      Peer/Timers, and Peer/Events, the relation of what can happen to a peer;
--                      Peer/Stream has the socket as a list of bytes, for the read loop alone
--   Credentials        peer_credentials.hpp, impl/credentials.hpp
--   Client             client.hpp: Client/State, Client/Connection, Client/Requests, Client/Tasks,
--                      Client/Api (the calls of the owner), Client/Facade (the public class) and
--                      Client/Events
--   Runtime            impl/runtime.hpp, the owners of socket files
--   Server             server.hpp: Server/State, Server/Acceptor, Server/Peers,
--                      Server/HealthCheck, Server/Tasks, Server/Api, Server/Facade and Server/Events
--   Debounce           the times of the debounced tasks of client.hpp and server.hpp, over any step
--                      function; Client/Load and Server/Attempts count what begins an attempt,
--                      Client/Failures and Server/Reports what leads to a report of its failure
--   Link               impl/peer.hpp at both ends of a connection, one direction of it: Link/Steps
--                      has the steps of the two peers and of the bytes between them, Link/Flush the
--                      completions of outstanding writes and reads as functions
--   Example            example/main.cpp, a program with a server and a client: Example/Output (what it
--                      prints), Example/App (its members, calls and slots) and Example/Events
--   Prelude            lists, Boolean tests and error codes that the others share
--   Tests              runs on concrete inputs
-- A function keeps its name from the source, without the trailing underscore of a member. A lambda
-- has the name of what it does: `connect_on_io` is what `connect` posts to the I/O thread, and
-- `on_connect` is the handler of the asynchronous connect. A guard in the source is a condition in
-- the model, in the same order, and an early return is a branch.
--
-- State and threads. A state object is a record, and a function that changes it returns the new
-- record. A closure handed to a thread is a constructor that holds what the closure captures
-- (`IoTask`, `Task`, `Notice`); it waits in a list, and the event `io_runs` or `task_runs` runs any
-- of those that wait, so that every interleaving of the two threads, also those that their queues
-- exclude, is a list of events. Calls on sockets, timers and peers are recorded in `calls`, signals
-- of the user in `signals`. A shared object is a number, fresh from `next_handle`, and two pointers
-- are equal when their numbers are.
--
-- Integers. Request ids, peer ids and generations wrap around at 2^64, body sizes on the wire at
-- 2^32, and the sums of size limits at 2^64. Durations are natural numbers of milliseconds.
-- Everything is structural recursion, so no fuel is needed.
--
-- The environment. asio, the dispatcher, the signals of nod and the file system are not under
-- include/. Their answers are arguments: the error code and the bytes of a completed operation, the
-- error of an endpoint, the resolved path. Which operation completes, and when, is the choice of the
-- event; `Enabled` of Peer/Events says what the model relies on: an operation that completes was
-- outstanding, a read fills a buffer of the size that was given, and `operation_aborted` follows
-- the closing of the socket. The user's `verify_peer` is an argument. `keeps_time` of Debounce says
-- what the pace of the retries relies on: a debounced task runs its function once for the wait that was
-- begun last, when that has passed and was not cancelled. Elsewhere its function may run at any time.
--
-- The example. Its calls on the server and the client are the events of those that stand for calls;
-- no other calls happen there. A slot runs at the end of the handler that emits its signal, since no
-- slot calls the object whose handler has something left to do.
--
-- Not modelled: when the last owner of an object releases it (a `weak_self` that does not lock), the
-- thread and the `io_context` of impl/runtime.hpp, impl/asio_helper.hpp, whose error is an argument of
-- the attempts that call it, and the signal handler and the dispatcher of the example's `main`. The
-- order in which a hash map is traversed is that of a list.
pub mod Prelude
pub mod Options
pub mod Protocol
pub mod NotificationScope
pub mod RequestManager
pub mod Peer
pub mod Credentials
pub mod Client
pub mod Runtime
pub mod Server
pub mod Debounce
pub mod Link
pub mod Example
pub mod Tests
