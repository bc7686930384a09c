-- ===== src/Client/Events.antt =====
-- client.hpp: everything that can happen to a client. A user's call posts or enqueues; otherwise a
-- task that waits runs, in any order, or a connect, a peer or a timer calls the handler that waits
-- for it. Peers emit signals in any order and number.
use cpp_unix_domain_stream.Prelude.{
  ℕ, Bool, none, some, List, [], ◌∷◌, get_elem?, erase_idx, ErrorCode,
}
use cpp_unix_domain_stream.Credentials.{PeerCredentials}
use cpp_unix_domain_stream.NotificationScope.{Token}
use cpp_unix_domain_stream.Peer.State.{Signal}
use cpp_unix_domain_stream.Client.Api
use cpp_unix_domain_stream.Client.State.{
  Client, received_io, request_received_io, response_received_io, error_io, closed_io, post,
}
use cpp_unix_domain_stream.Client.Connection.{on_connect, on_reconnect}
use cpp_unix_domain_stream.Client.Requests.{on_request_timer}
use cpp_unix_domain_stream.Client.Tasks.{run_task, run_io, async_shutdown}

pub data Event : Type 0 where
  async_start async_stop async_invalidate_connection async_shuts_down : Event
  async_send : List ℕ → Event
  async_respond : ℕ → List ℕ → Event
  async_request : List ℕ → ℕ → ℕ → Event
  async_request_by_default : List ℕ → ℕ → Event
  io_runs : ℕ → ErrorCode → Event
  task_runs : ℕ → Event
  connect_completes : ℕ → ErrorCode → PeerCredentials → Event
  peer_emits : ℕ → Signal → Event
  timer_fires : ℕ → ErrorCode → Event
  reconnect_fires : Event

-- The slots that `handle_connected_socket` connects to the signals of peer `p`. A client's peer has
-- none for `ready` and `health_check_response_received`.
unfoldable pub peer_slot : ℕ → Token → Signal → Client → Client
peer_slot p token Signal.ready c = c
peer_slot p token (Signal.received bytes) c = post (received_io p bytes token) c
peer_slot p token (Signal.request_received id bytes) c =
    post (request_received_io p id bytes token) c
peer_slot p token (Signal.response_received id bytes) c = post (response_received_io p id bytes) c
peer_slot p token Signal.health_check_response_received c = c
peer_slot p token (Signal.error_occurred e) c = post (error_io p e token) c
peer_slot p token Signal.closed c = post (closed_io p token) c

-- The first argument is the user's `verify_peer`. A position where nothing waits does nothing.
unfoldable pub step : (PeerCredentials → Bool) → Client → Event → Client
step verify_peer c async_start = Api.async_start c
step verify_peer c async_stop = Api.async_stop c
step verify_peer c async_invalidate_connection = Api.async_invalidate_connection c
step verify_peer c async_shuts_down = async_shutdown c
step verify_peer c (async_send bytes) = Api.async_send bytes c
step verify_peer c (async_respond id bytes) = Api.async_respond id bytes c
step verify_peer c (async_request bytes timeout callback) =
    Api.async_request bytes timeout callback c
step verify_peer c (async_request_by_default bytes callback) =
    Api.async_request_by_default bytes callback c
step verify_peer c (io_runs i endpoint_error) = elim (get_elem? c.io_tasks i) [
  | none ↦ c
  | some t ↦ run_io endpoint_error t (record c { io_tasks = erase_idx c.io_tasks i })
]
step verify_peer c (task_runs i) = elim (get_elem? c.tasks i) [
  | none ↦ c
  | some t ↦ run_task verify_peer t (record c { tasks = erase_idx c.tasks i })
]
step verify_peer c (connect_completes i e credentials) = elim (get_elem? c.connects i) [
  | none ↦ c
  | some (socket, token) ↦
      on_connect socket token e credentials (record c { connects = erase_idx c.connects i })
]
step verify_peer c (peer_emits i signal) = elim (get_elem? c.slots i) [
  | none ↦ c
  | some (p, token) ↦ peer_slot p token signal c
]
step verify_peer c (timer_fires i e) = elim (get_elem? c.timers i) [
  | none ↦ c
  | some (id, token) ↦ on_request_timer id token e (record c { timers = erase_idx c.timers i })
]
step verify_peer c reconnect_fires = on_reconnect c

unfoldable pub run : (PeerCredentials → Bool) → Client → List Event → Client
run verify_peer c [] = c
run verify_peer c (e ∷ es) = run verify_peer (step verify_peer c e) es
