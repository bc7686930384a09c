-- ===== src/Server/Tasks.antt =====
-- server.hpp: what runs on the I/O thread and on the dispatcher, task by task, and the shutdown.
use cpp_unix_domain_stream.Prelude.{
  ℕ, Bool, true, false, not, Option, none, some, List, [], ◌∷◌, if◌then◌else◌,
}
use cpp_unix_domain_stream.Credentials.{PeerCredentials}
use cpp_unix_domain_stream.NotificationScope
use cpp_unix_domain_stream.NotificationScope.{Token, deliver}
use cpp_unix_domain_stream.Server.State
use cpp_unix_domain_stream.Server.State.{
  Server, Notice, notify_bound, notify_bind_failed, notify_closed, verify, Task, start_task,
  stop_task, scoped, received_task, request_received_task, error_task, peer_closed_task,
  not_connected_task, IoTask, bind_io, stop_io, shutdown_io, keep_alive_io, send_io, respond_io,
  request_io, close_peer_io, response_received_io, error_io, closed_io, health_check_io,
  health_check_done_io, health_check_failed_io, not_connected_callback, peer_disconnect_slots,
  retry_cancel, health_check_timer_stop, disconnect_all_slots, post, do_call, emit,
}
use cpp_unix_domain_stream.Server.Acceptor.{
  BindResults, bind, bind_on_io, close_acceptor, schedule_bind_retry,
}
use cpp_unix_domain_stream.Server.Peers.{
  contains, insert_id, notify_peer_closed, close_peer, close_all_peers, send_on_io, respond_on_io,
  send_request, response_received_on_io, error_on_io, closed_on_io,
}
use cpp_unix_domain_stream.Server.HealthCheck.{
  start_socket_path_health_check_timer, close_socket_path_health_check_peer,
  handle_socket_path_health_check_failed, health_check_on_io, health_check_done_on_io,
}

-- What the function of a notification does, if the token that it was enqueued with is still current.
-- `verify_peer` is the user's function.
unfoldable pub run_notice : (PeerCredentials → Bool) → Notice → Server → Server
run_notice verify_peer notify_bound s = start_socket_path_health_check_timer (emit State.bound s)
run_notice verify_peer (notify_bind_failed e) s = schedule_bind_retry (emit (State.bind_failed e) s)
run_notice verify_peer notify_closed s = schedule_bind_retry (emit State.closed s)
run_notice verify_peer (verify id credentials) s =
    if verify_peer credentials
    then emit (State.peer_connected id credentials)
        (record s { exposed_peer_ids = insert_id id s.exposed_peer_ids })
    else post (close_peer_io id) s

-- Notifications about a peer reach the user only while the peer is exposed.
unfoldable pub if_exposed : ℕ → State.ServerSignal → Server → Server
if_exposed id signal s = if contains id s.exposed_peer_ids then emit signal s else s

-- `stop`, on the dispatcher.
unfoldable pub stop : Server → Server
stop s = post stop_io (
    do_call health_check_timer_stop (
      do_call retry_cancel
        (record s { scope = NotificationScope.stop s.scope; exposed_peer_ids = [] })))

-- The function given to the bind retry task.
unfoldable pub on_bind_retry : Server → Server
on_bind_retry s = if not s.scope.running then s else bind s

-- A task of the dispatcher.
unfoldable pub run_task : (PeerCredentials → Bool) → Task → Server → Server
run_task verify_peer start_task s = bind (record s { scope = NotificationScope.start s.scope })
run_task verify_peer stop_task s = stop s
run_task verify_peer (scoped token notice) s =
    deliver s.scope token (run_notice verify_peer notice) s
run_task verify_peer (received_task id bytes) s = if_exposed id (State.received id bytes) s
run_task verify_peer (request_received_task id request_id bytes) s =
    if_exposed id (State.request_received id request_id bytes) s
run_task verify_peer (error_task id e) s = if_exposed id (State.peer_error_occurred id e) s
run_task verify_peer (peer_closed_task id) s = notify_peer_closed id s
run_task verify_peer (not_connected_task callback) s = emit (not_connected_callback callback) s

unfoldable pub stop_on_io : Server → Server
stop_on_io s = close_socket_path_health_check_peer (close_all_peers (close_acceptor s))

-- `disconnect_all_signal_slots` on every peer.
unfoldable pub disconnect_peers : List (ℕ × ℕ) → Server → Server
disconnect_peers [] s = s
disconnect_peers ((id, p) ∷ rest) s = disconnect_peers rest (do_call (peer_disconnect_slots p) s)

unfoldable pub disconnect_health_check_peer : Option ℕ → Server → Server
disconnect_health_check_peer none s = s
disconnect_health_check_peer (some p) s = do_call (peer_disconnect_slots p) s

unfoldable pub shutdown_on_io : Server → Server
shutdown_on_io s =
    let t = close_acceptor s in
    let u = close_all_peers (disconnect_peers t.peers t) in
    post keep_alive_io
      (close_socket_path_health_check_peer (disconnect_health_check_peer u.health_check_peer u))

-- `async_shutdown`. Detaching drops the tasks that have not run, then runs its function.
unfoldable pub async_shutdown : Server → Server
async_shutdown s =
    if s.shutdown_started
    then s
    else post shutdown_io (
        do_call disconnect_all_slots (
          do_call health_check_timer_stop (
            do_call retry_cancel (record s {
              shutdown_started = true;
              attached = false;
              tasks = [];
              scope = NotificationScope.stop s.scope;
              exposed_peer_ids = [];
            }))))

-- A function posted to the I/O thread. The results are those of a bind attempt; a health check uses
-- their endpoint error.
unfoldable pub run_io : BindResults → IoTask → Server → Server
run_io r (bind_io token) s = bind_on_io token r s
run_io r stop_io s = stop_on_io s
run_io r shutdown_io s = shutdown_on_io s
run_io r keep_alive_io s = s
run_io r (send_io id bytes) s = send_on_io id bytes s
run_io r (respond_io id request_id bytes) s = respond_on_io id request_id bytes s
run_io r (request_io id bytes timeout callback) s = send_request id bytes timeout callback s
run_io r (close_peer_io id) s = close_peer id s
run_io r (response_received_io id p request_id bytes) s =
    response_received_on_io id p request_id bytes s
run_io r (error_io id e) s = error_on_io id e s
run_io r (closed_io id) s = closed_on_io id s
run_io r (health_check_io token) s = health_check_on_io token r.endpoint_error s
run_io r (health_check_done_io timeout token) s = health_check_done_on_io timeout token s
run_io r (health_check_failed_io e timeout token) s =
    handle_socket_path_health_check_failed token timeout s
