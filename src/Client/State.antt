-- ===== src/Client/State.antt =====
-- client.hpp, `client_state`: its members, and what it hands to others.
-- Sockets and peers are shared objects, which the client compares by identity: a number from
-- `next_handle` names each. `io_tasks` are the functions posted to the I/O thread that have not run,
-- `tasks` those enqueued to the dispatcher; a closure is a constructor with what it captures.
-- `connects`, `slots` and `timers` are the handlers that wait for a connect, a peer or a request's
-- timer. `calls` holds the calls on sockets, peers and the reconnect task, oldest first, and `signals`
-- what the user was told. A `weak_self` that no longer locks is after the end of the state modelled.
use cpp_unix_domain_stream.Prelude.{
  ℕ, Bool, true, false, Option, none, List, [], ◌∷◌, ◌++◌, if◌then◌else◌, ErrorCode,
}
use cpp_unix_domain_stream.Options.{ClientOptions}
use cpp_unix_domain_stream.Credentials.{PeerCredentials}
use cpp_unix_domain_stream.NotificationScope.{NotificationScope, Token, initial_scope}
use cpp_unix_domain_stream.RequestManager.{RequestManager, initial_manager}

pub data ClientSignal : Type 0 where
  connected peer_verification_failed : PeerCredentials → ClientSignal
  connect_failed error_occurred : ErrorCode → ClientSignal
  closed : ClientSignal
  received : List ℕ → ClientSignal
  request_received : ℕ → List ℕ → ClientSignal
  -- A request's callback, called with `not_connected`.
  not_connected_callback : ℕ → ClientSignal

-- A function given to `notification_scope_.enqueue`.
pub data Notice : Type 0 where
  notify_connect_failed : ErrorCode → Notice
  verify : ℕ → PeerCredentials → Notice
  notify_verification_failed : PeerCredentials → Notice
  notify_received : List ℕ → Notice
  notify_request_received : ℕ → List ℕ → Notice
  notify_error : ErrorCode → Notice
  notify_closed : Notice
  notify_connected : PeerCredentials → Notice
  reconnects : Notice

pub data Task : Type 0 where
  start_task stop_task invalidate_task : Task
  scoped : Token → Notice → Task
  not_connected_task : ℕ → Task

pub data IoTask : Type 0 where
  connect_io : Token → IoTask
  stop_io : IoTask
  invalidate_io : Token → IoTask
  shutdown_io keep_alive_io : IoTask
  send_io : List ℕ → IoTask
  respond_io : ℕ → List ℕ → IoTask
  request_io : List ℕ → ℕ → ℕ → IoTask
  connected_socket_io : ℕ → PeerCredentials → Bool → Token → IoTask
  received_io : ℕ → List ℕ → Token → IoTask
  request_received_io : ℕ → ℕ → List ℕ → Token → IoTask
  response_received_io : ℕ → ℕ → List ℕ → IoTask
  error_io : ℕ → ErrorCode → Token → IoTask
  closed_io : ℕ → Token → IoTask
  connected_io : ℕ → PeerCredentials → Token → IoTask

pub data Call : Type 0 where
  socket_connect socket_close : ℕ → Call
  peer_start peer_close peer_disconnect_slots : ℕ → Call
  peer_send : ℕ → List ℕ → Call
  peer_send_request peer_send_response : ℕ → ℕ → List ℕ → Call
  start_timer : ℕ → ℕ → Call
  debounce_after : ℕ → Call
  debounce_cancel : Call
  disconnect_all_slots : Call

pub record Client : Type 0 where
  pub options : ClientOptions
  pub scope : NotificationScope
  pub manager : RequestManager
  pub connecting_socket : Option ℕ
  pub peer : Option ℕ
  pub shutdown_started : Bool
  pub attached : Bool
  pub next_handle : ℕ
  pub io_tasks : List IoTask
  pub tasks : List Task
  pub connects : List (ℕ × Token)
  pub slots : List (ℕ × Token)
  pub timers : List (ℕ × Token)
  pub calls : List Call
  pub signals : List ClientSignal

unfoldable pub new_client : ClientOptions → Client
unfolding initial_scope initial_manager
new_client options = record {
  options = options;
  scope = initial_scope;
  manager = initial_manager;
  connecting_socket = none;
  peer = none;
  shutdown_started = false;
  attached = true;
  next_handle = 0;
  io_tasks = [];
  tasks = [];
  connects = [];
  slots = [];
  timers = [];
  calls = [];
  signals = [];
}

-- `asio::post(io_ctx_, …)`
abbrev pub post : IoTask → Client → Client
post t c = record c { io_tasks = c.io_tasks ++ (t ∷ []) }

-- `enqueue_to_dispatcher`, which does nothing once the client is detached.
abbrev pub enqueue : Task → Client → Client
enqueue t c = if c.attached then record c { tasks = c.tasks ++ (t ∷ []) } else c

abbrev pub do_call : Call → Client → Client
do_call k c = record c { calls = c.calls ++ (k ∷ []) }

abbrev pub emit : ClientSignal → Client → Client
emit s c = record c { signals = c.signals ++ (s ∷ []) }
