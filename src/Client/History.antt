-- ===== src/Client/History.antt =====
-- client.hpp: the connecting socket, the peer and the pending requests, over all events.
use cpp_unix_domain_stream.Prelude.{Bool, List, arith, ErrorCode, operation_aborted, erase_idx}
use cpp_unix_domain_stream.Credentials.{PeerCredentials}
use cpp_unix_domain_stream.Options.{ClientOptions}
use cpp_unix_domain_stream.Client.State.{Client, IoTask, new_client}
use cpp_unix_domain_stream.Client.Connection.{
  connect, on_reconnect, close_connecting_socket, stop_on_io, invalidate_on_io,
}
use cpp_unix_domain_stream.Client.Requests.{send_on_io, respond_on_io, connected_on_io}
use cpp_unix_domain_stream.Client.Tasks.{run_io, shutdown_on_io, disconnect_peer}
use cpp_unix_domain_stream.Client.Events.{Event, run}
use cpp_unix_domain_stream.Client.Induction.{Keeps, run-Keeps}
use cpp_unix_domain_stream.Client.Session.{
  IsSession, close_connecting_socket-IsSession, close_peer-IsSession, connect_on_io-IsSession,
  on_connect-IsSession, handle_connected_socket-IsSession, send_request-IsSession,
  on_request_timer-IsSession, run_task-IsSession, async_shutdown-IsSession,
  received_on_io-IsSession, request_received_on_io-IsSession, response_received_on_io-IsSession,
  error_on_io-IsSession, closed_on_io-IsSession, disconnect_peer-IsSession,
}

run_io-IsSession :
    (e : ErrorCode) (t : IoTask) (c : Client) → IsSession c → IsSession (run_io e t c)
unfolding run_io stop_on_io invalidate_on_io shutdown_on_io send_on_io respond_on_io connected_on_io
run_io-IsSession e (IoTask.connect_io token) c v = connect_on_io-IsSession token e c v
run_io-IsSession e IoTask.stop_io c v =
    close_peer-IsSession operation_aborted (close_connecting_socket c)
      (close_connecting_socket-IsSession c v)
run_io-IsSession e (IoTask.invalidate_io token) c v = ground (
  arith,
  close_peer-IsSession operation_aborted (close_connecting_socket c)
      (close_connecting_socket-IsSession c v),
)
run_io-IsSession e IoTask.shutdown_io c v =
    let d = close_connecting_socket c in
    close_peer-IsSession operation_aborted (disconnect_peer d.peer d)
      (disconnect_peer-IsSession d.peer d (close_connecting_socket-IsSession c v))
run_io-IsSession e IoTask.keep_alive_io c v = v
run_io-IsSession e (IoTask.send_io bytes) c v = ground arith
run_io-IsSession e (IoTask.respond_io id bytes) c v = ground arith
run_io-IsSession e (IoTask.request_io bytes timeout callback) c v =
    send_request-IsSession bytes timeout callback c v
run_io-IsSession e (IoTask.connected_socket_io socket credentials verified token) c v =
    handle_connected_socket-IsSession socket credentials verified token c v
run_io-IsSession e (IoTask.received_io p bytes token) c v =
    received_on_io-IsSession p bytes token c v
run_io-IsSession e (IoTask.request_received_io p id bytes token) c v =
    request_received_on_io-IsSession p id bytes token c v
run_io-IsSession e (IoTask.response_received_io p id bytes) c v =
    response_received_on_io-IsSession p id bytes c v
run_io-IsSession e (IoTask.error_io p e' token) c v = error_on_io-IsSession p e' token c v
run_io-IsSession e (IoTask.closed_io p token) c v = closed_on_io-IsSession p token c v
run_io-IsSession e (IoTask.connected_io p credentials token) c v = ground arith

-- Every handler keeps the session well formed.
pub Keeps-IsSession : (verify_peer : PeerCredentials → Bool) → Keeps verify_peer IsSession
Keeps-IsSession verify_peer = record {
  enqueues = λ c t v. ground arith;
  posts = λ c t v. v;
  shuts_down = async_shutdown-IsSession;
  runs_io = λ c i e t v. run_io-IsSession e t (record c { io_tasks = erase_idx c.io_tasks i }) v;
  runs_task =
      λ c i t h v. run_task-IsSession verify_peer t (record c { tasks = erase_idx c.tasks i }) v;
  connects = λ c i socket token e credentials v.
      on_connect-IsSession socket token e credentials
        (record c { connects = erase_idx c.connects i }) v;
  times_out = λ c i id token e v.
      on_request_timer-IsSession id token e (record c { timers = erase_idx c.timers i }) v;
  reconnects = λ c v. unfold on_reconnect connect in ground arith;
}

-- After any sequence of events from a new client, whatever the user's `verify_peer` answers: it does
-- not hold both a socket that is connecting and a peer, and without a peer no request is pending.
pub client-IsSession :
    (verify_peer : PeerCredentials → Bool) (options : ClientOptions) (es : List Event)
    → IsSession (run verify_peer (new_client options) es)
client-IsSession verify_peer options es =
    run-Keeps verify_peer IsSession (Keeps-IsSession verify_peer) (new_client options) es
      (unfold new_client in ground arith)
