-- ===== src/Server/State.antt =====
-- server.hpp, `server_state`: its members, and what it hands to others.
-- As for the client: numbers from `next_handle` name sockets, peers, timers and acceptors; `io_tasks`
-- and `tasks` are the functions that wait on the two threads; `accepts`, `slots`, `closings`, `timers`,
-- `probe_timers`, `probe_connects` and `probe_slots` are the handlers that wait for an event; `calls`
-- and `signals` are what was called and emitted, oldest first. `self` names the server in `runtime`.
use cpp_unix_domain_stream.Prelude.{
  ℕ, Bool, true, false, Option, none, List, [], ◌∷◌, ◌++◌, if◌then◌else◌, ErrorCode,
}
use cpp_unix_domain_stream.Options.{ServerOptions}
use cpp_unix_domain_stream.Credentials.{PeerCredentials}
use cpp_unix_domain_stream.NotificationScope.{NotificationScope, Token, initial_scope}
use cpp_unix_domain_stream.RequestManager.{RequestManager, initial_manager}
use cpp_unix_domain_stream.Runtime.{Runtime}

pub data ServerSignal : Type 0 where
  bound : ServerSignal
  bind_failed : ErrorCode → ServerSignal
  closed : ServerSignal
  peer_connected : ℕ → PeerCredentials → ServerSignal
  peer_closed : ℕ → ServerSignal
  peer_error_occurred : ℕ → ErrorCode → ServerSignal
  received : ℕ → List ℕ → ServerSignal
  request_received : ℕ → ℕ → List ℕ → ServerSignal
  not_connected_callback : ℕ → ServerSignal

-- A function given to `notification_scope_.enqueue`.
pub data Notice : Type 0 where
  notify_bound : Notice
  notify_bind_failed : ErrorCode → Notice
  notify_closed : Notice
  verify : ℕ → PeerCredentials → Notice

pub data Task : Type 0 where
  start_task stop_task : Task
  scoped : Token → Notice → Task
  received_task : ℕ → List ℕ → Task
  request_received_task : ℕ → ℕ → List ℕ → Task
  error_task : ℕ → ErrorCode → Task
  peer_closed_task : ℕ → Task
  not_connected_task : ℕ → Task

pub data IoTask : Type 0 where
  bind_io : Token → IoTask
  stop_io shutdown_io keep_alive_io : IoTask
  send_io : ℕ → List ℕ → IoTask
  respond_io : ℕ → ℕ → List ℕ → IoTask
  request_io : ℕ → List ℕ → ℕ → ℕ → IoTask
  close_peer_io : ℕ → IoTask
  response_received_io : ℕ → ℕ → ℕ → List ℕ → IoTask
  error_io : ℕ → ErrorCode → IoTask
  closed_io : ℕ → IoTask
  health_check_io : Token → IoTask
  health_check_done_io : ℕ → Token → IoTask
  health_check_failed_io : ErrorCode → ℕ → Token → IoTask

pub data Call : Type 0 where
  acceptor_open acceptor_accept acceptor_close : ℕ → Call
  socket_connect socket_close : ℕ → Call
  peer_start peer_close peer_send_health_check peer_disconnect_slots : ℕ → Call
  peer_send : ℕ → List ℕ → Call
  peer_send_request peer_send_response : ℕ → ℕ → List ℕ → Call
  start_timer : ℕ → ℕ → Call
  timer_cancel : ℕ → Call
  retry_after : ℕ → Call
  retry_cancel : Call
  health_check_timer_start : ℕ → Call
  health_check_timer_stop : Call
  disconnect_all_slots : Call

-- A peer's handlers: its id and handle, the credentials of its process and the token of its accept.
pub record Slot : Type 0 where
  pub id : ℕ
  pub peer : ℕ
  pub credentials : PeerCredentials
  pub token : Token

-- A health check's handlers: its socket or peer, its timer and its token.
pub record Probe : Type 0 where
  pub object : ℕ
  pub timeout : ℕ
  pub token : Token

pub record Server : Type 0 where
  pub self : ℕ
  pub socket_file_path : ℕ
  pub options : ServerOptions
  pub scope : NotificationScope
  pub manager : RequestManager
  pub runtime : Runtime
  pub acceptor : Option ℕ
  pub bound_socket_file_path : Option ℕ
  pub peers : List (ℕ × ℕ)
  pub exposed_peer_ids : List ℕ
  pub health_check_peer : Option ℕ
  pub health_check_timeout : Option ℕ
  pub next_peer_id : ℕ
  pub shutdown_started : Bool
  pub attached : Bool
  pub next_handle : ℕ
  pub io_tasks : List IoTask
  pub tasks : List Task
  pub accepts : List Token
  pub slots : List Slot
  pub closings : List ℕ
  pub timers : List (ℕ × ℕ)
  pub probe_timers : List Probe
  pub probe_connects : List Probe
  pub probe_slots : List Probe
  pub calls : List Call
  pub signals : List ServerSignal

unfoldable pub new_server : ℕ → ℕ → ServerOptions → Runtime → Server
unfolding initial_scope initial_manager
new_server self socket_file_path options runtime = record {
  self = self;
  socket_file_path = socket_file_path;
  options = options;
  scope = initial_scope;
  manager = initial_manager;
  runtime = runtime;
  acceptor = none;
  bound_socket_file_path = none;
  peers = [];
  exposed_peer_ids = [];
  health_check_peer = none;
  health_check_timeout = none;
  next_peer_id = 0;
  shutdown_started = false;
  attached = true;
  next_handle = 0;
  io_tasks = [];
  tasks = [];
  accepts = [];
  slots = [];
  closings = [];
  timers = [];
  probe_timers = [];
  probe_connects = [];
  probe_slots = [];
  calls = [];
  signals = [];
}

-- `asio::post(io_ctx_, …)`
abbrev pub post : IoTask → Server → Server
post t s = record s { io_tasks = s.io_tasks ++ (t ∷ []) }

-- `enqueue_to_dispatcher`, which does nothing once the server is detached.
abbrev pub enqueue : Task → Server → Server
enqueue t s = if s.attached then record s { tasks = s.tasks ++ (t ∷ []) } else s

abbrev pub do_call : Call → Server → Server
do_call k s = record s { calls = s.calls ++ (k ∷ []) }

abbrev pub emit : ServerSignal → Server → Server
emit signal s = record s { signals = s.signals ++ (signal ∷ []) }
