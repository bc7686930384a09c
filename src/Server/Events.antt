-- ===== src/Server/Events.antt =====
-- server.hpp: everything that can happen to a server, as for the client: users' calls, waiting tasks
-- in any order, and the completions of accepts, closes, timers and health checks. Peers emit signals
-- in any order and number.
use cpp_unix_domain_stream.Prelude.{
  ℕ, Bool, none, some, List, [], ◌∷◌, get_elem?, erase_idx, ErrorCode,
}
use cpp_unix_domain_stream.Credentials.{PeerCredentials}
use cpp_unix_domain_stream.Peer.State.{Signal}
use cpp_unix_domain_stream.Server.Api
use cpp_unix_domain_stream.Server.State.{Server}
use cpp_unix_domain_stream.Server.Acceptor.{BindResults, on_accept}
use cpp_unix_domain_stream.Server.Peers.{enqueue_peer_closed, on_request_timer, peer_slot}
use cpp_unix_domain_stream.Server.HealthCheck.{
  socket_path_health_check, on_probe_timer, on_probe_connect, probe_slot,
}
use cpp_unix_domain_stream.Server.Tasks.{run_task, run_io, on_bind_retry, async_shutdown}

pub data Event : Type 0 where
  async_start async_stop async_shuts_down : Event
  async_send : ℕ → List ℕ → Event
  async_respond : ℕ → ℕ → List ℕ → Event
  async_request : ℕ → List ℕ → ℕ → ℕ → Event
  async_request_by_default : ℕ → List ℕ → ℕ → Event
  async_close_peer : ℕ → Event
  io_runs : ℕ → BindResults → Event
  task_runs : ℕ → Event
  accept_completes : ℕ → ErrorCode → ℕ → PeerCredentials → Event
  peer_emits : ℕ → Signal → Event
  close_completes : ℕ → Event
  timer_fires : ℕ → ErrorCode → Event
  probe_timer_fires : ℕ → ErrorCode → Event
  probe_connects_done : ℕ → ErrorCode → Event
  probe_emits : ℕ → Signal → Event
  health_check_fires bind_retry_fires : Event

-- The first argument is the user's `verify_peer`. A position where nothing waits does nothing.
unfoldable pub step : (PeerCredentials → Bool) → Server → Event → Server
step verify_peer s async_start = Api.async_start s
step verify_peer s async_stop = Api.async_stop s
step verify_peer s async_shuts_down = async_shutdown s
step verify_peer s (async_send id bytes) = Api.async_send id bytes s
step verify_peer s (async_respond id request_id bytes) = Api.async_respond id request_id bytes s
step verify_peer s (async_request id bytes timeout callback) =
    Api.async_request id bytes timeout callback s
step verify_peer s (async_request_by_default id bytes callback) =
    Api.async_request_by_default id bytes callback s
step verify_peer s (async_close_peer id) = Api.async_close_peer id s
step verify_peer s (io_runs i r) = elim (get_elem? s.io_tasks i) [
  | none ↦ s
  | some t ↦ run_io r t (record s { io_tasks = erase_idx s.io_tasks i })
]
step verify_peer s (task_runs i) = elim (get_elem? s.tasks i) [
  | none ↦ s
  | some t ↦ run_task verify_peer t (record s { tasks = erase_idx s.tasks i })
]
step verify_peer s (accept_completes i e socket credentials) = elim (get_elem? s.accepts i) [
  | none ↦ s
  | some token ↦ on_accept token e socket credentials (record s { accepts = erase_idx s.accepts i })
]
step verify_peer s (peer_emits i signal) = elim (get_elem? s.slots i) [
  | none ↦ s
  | some k ↦ peer_slot k signal s
]
step verify_peer s (close_completes i) = elim (get_elem? s.closings i) [
  | none ↦ s
  | some id ↦ enqueue_peer_closed id (record s { closings = erase_idx s.closings i })
]
step verify_peer s (timer_fires i e) = elim (get_elem? s.timers i) [
  | none ↦ s
  | some (id, peer_id) ↦ on_request_timer id peer_id e (record s { timers = erase_idx s.timers i })
]
step verify_peer s (probe_timer_fires i e) = elim (get_elem? s.probe_timers i) [
  | none ↦ s
  | some k ↦ on_probe_timer k e (record s { probe_timers = erase_idx s.probe_timers i })
]
step verify_peer s (probe_connects_done i e) = elim (get_elem? s.probe_connects i) [
  | none ↦ s
  | some k ↦ on_probe_connect k e (record s { probe_connects = erase_idx s.probe_connects i })
]
step verify_peer s (probe_emits i signal) = elim (get_elem? s.probe_slots i) [
  | none ↦ s
  | some k ↦ probe_slot k signal s
]
step verify_peer s health_check_fires = socket_path_health_check s
step verify_peer s bind_retry_fires = on_bind_retry s

unfoldable pub run : (PeerCredentials → Bool) → Server → List Event → Server
run verify_peer s [] = s
run verify_peer s (e ∷ es) = run verify_peer (step verify_peer s e) es
