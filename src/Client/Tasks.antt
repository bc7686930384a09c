-- ===== src/Client/Tasks.antt =====
-- client.hpp: what runs on the I/O thread and on the dispatcher, task by task, and the shutdown.
use cpp_unix_domain_stream.Prelude.{
  ℕ, Bool, true, false, Option, none, some, [], if◌then◌else◌, ErrorCode, operation_aborted,
}
use cpp_unix_domain_stream.Credentials.{PeerCredentials}
use cpp_unix_domain_stream.NotificationScope
use cpp_unix_domain_stream.NotificationScope.{Token, deliver}
use cpp_unix_domain_stream.Client.State
use cpp_unix_domain_stream.Client.State.{
  Client, Notice, notify_connect_failed, verify, notify_verification_failed, notify_received,
  notify_request_received, notify_error, notify_closed, notify_connected, reconnects, Task,
  start_task, stop_task, invalidate_task, scoped, not_connected_task, IoTask, connect_io, stop_io,
  invalidate_io, shutdown_io, keep_alive_io, send_io, respond_io, request_io, connected_socket_io,
  received_io, request_received_io, response_received_io, error_io, closed_io, connected_io,
  not_connected_callback, peer_disconnect_slots, debounce_cancel, disconnect_all_slots, post,
  do_call, emit,
}
use cpp_unix_domain_stream.Client.Connection.{
  connect, connect_on_io, schedule_reconnect, close_connecting_socket, close_peer, stop, stop_on_io,
  invalidate_connection, invalidate_on_io, handle_connected_socket,
}
use cpp_unix_domain_stream.Client.Requests.{
  send_request, send_on_io, respond_on_io, received_on_io, request_received_on_io,
  response_received_on_io, error_on_io, closed_on_io, connected_on_io,
}

-- What the function of a notification does, if the token that it was enqueued with is still current.
-- `verify_peer` is the user's function.
unfoldable pub run_notice : (PeerCredentials → Bool) → Token → Notice → Client → Client
run_notice verify_peer token (notify_connect_failed e) c =
    schedule_reconnect (emit (State.connect_failed e) c)
run_notice verify_peer token (verify socket credentials) c =
    post (connected_socket_io socket credentials (verify_peer credentials) token) c
run_notice verify_peer token (notify_verification_failed credentials) c =
    schedule_reconnect (emit (State.peer_verification_failed credentials) c)
run_notice verify_peer token (notify_received bytes) c = emit (State.received bytes) c
run_notice verify_peer token (notify_request_received id bytes) c =
    emit (State.request_received id bytes) c
run_notice verify_peer token (notify_error e) c = emit (State.error_occurred e) c
run_notice verify_peer token notify_closed c = schedule_reconnect (emit State.closed c)
run_notice verify_peer token (notify_connected credentials) c = emit (State.connected credentials) c
run_notice verify_peer token reconnects c = schedule_reconnect c

-- A task of the dispatcher.
unfoldable pub run_task : (PeerCredentials → Bool) → Task → Client → Client
run_task verify_peer start_task c = connect (record c { scope = NotificationScope.start c.scope })
run_task verify_peer stop_task c = stop c
run_task verify_peer invalidate_task c = invalidate_connection c
run_task verify_peer (scoped token notice) c =
    deliver c.scope token (run_notice verify_peer token notice) c
run_task verify_peer (not_connected_task callback) c = emit (not_connected_callback callback) c

-- `peer_->disconnect_all_signal_slots()`, if there is a peer.
unfoldable pub disconnect_peer : Option ℕ → Client → Client
disconnect_peer none c = c
disconnect_peer (some p) c = do_call (peer_disconnect_slots p) c

unfoldable pub shutdown_on_io : Client → Client
shutdown_on_io c =
    let d = close_connecting_socket c in
    post keep_alive_io (close_peer operation_aborted (disconnect_peer d.peer d)).0

-- `async_shutdown`. Detaching drops the tasks that have not run, then runs its function.
unfoldable pub async_shutdown : Client → Client
async_shutdown c =
    if c.shutdown_started
    then c
    else post shutdown_io (
        do_call disconnect_all_slots (
          do_call debounce_cancel (record c {
            shutdown_started = true;
            attached = false;
            tasks = [];
            scope = NotificationScope.stop c.scope;
          })))

-- A function posted to the I/O thread. The error is that of `make_endpoint`, for a connect attempt.
unfoldable pub run_io : ErrorCode → IoTask → Client → Client
run_io endpoint_error (connect_io token) c = connect_on_io token endpoint_error c
run_io endpoint_error stop_io c = stop_on_io c
run_io endpoint_error (invalidate_io token) c = invalidate_on_io token c
run_io endpoint_error shutdown_io c = shutdown_on_io c
run_io endpoint_error keep_alive_io c = c
run_io endpoint_error (send_io bytes) c = send_on_io bytes c
run_io endpoint_error (respond_io id bytes) c = respond_on_io id bytes c
run_io endpoint_error (request_io bytes timeout callback) c = send_request bytes timeout callback c
run_io endpoint_error (connected_socket_io socket credentials verified token) c =
    handle_connected_socket socket credentials verified token c
run_io endpoint_error (received_io p bytes token) c = received_on_io p bytes token c
run_io endpoint_error (request_received_io p id bytes token) c =
    request_received_on_io p id bytes token c
run_io endpoint_error (response_received_io p id bytes) c = response_received_on_io p id bytes c
run_io endpoint_error (error_io p e token) c = error_on_io p e token c
run_io endpoint_error (closed_io p token) c = closed_on_io p token c
run_io endpoint_error (connected_io p credentials token) c = connected_on_io p credentials token c
