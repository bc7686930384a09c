-- ===== src/Client/Stop.antt =====
-- client.hpp: `stop`, and the functions that may still wait after it.
use cpp_unix_domain_stream.Prelude.{
  ℕ, ◌≡◌, refl, Bool, false, none, [], arith, ErrorCode, operation_aborted,
}
use cpp_unix_domain_stream.Credentials.{PeerCredentials}
use cpp_unix_domain_stream.NotificationScope
use cpp_unix_domain_stream.NotificationScope.{Token, deliver, is_current}
use cpp_unix_domain_stream.RequestManager.Ids.{pending-complete_all}
use cpp_unix_domain_stream.Client.State.{Client, Notice, scoped, socket_close, do_call}
use cpp_unix_domain_stream.Client.Connection.{
  connect_on_io, on_connect, on_reconnect, close_connecting_socket, close_peer, stop, stop_on_io,
  handle_connected_socket,
}
use cpp_unix_domain_stream.Client.Tasks.{run_task}
use cpp_unix_domain_stream.Client.Session.{IsSession}

-- The state that a stop leaves.
pub record IsStopped (c : Client) : Type 0 where
  pub not_running : c.scope.running ≡ false
  pub no_socket : c.connecting_socket ≡ none
  pub no_peer : c.peer ≡ none
  pub no_requests : c.manager.pending_requests ≡ []

-- What the functions that may still wait do to a client that ignores them: nothing, but for the
-- closing of a socket that no longer belongs to it.
pub record Ignores (c : Client) : Type 0 where
  pub no_notice :
      (verify_peer : PeerCredentials → Bool) (token : Token) (notice : Notice)
      → run_task verify_peer (scoped token notice) c ≡ c
  pub no_connect : (token : Token) (e : ErrorCode) → connect_on_io token e c ≡ c
  pub no_reconnect : on_reconnect c ≡ c
  pub late_connect :
      (socket : ℕ) (token : Token) (e : ErrorCode) (credentials : PeerCredentials)
      → on_connect socket token e credentials c ≡ do_call (socket_close socket) c
  pub late_verified :
      (socket : ℕ) (credentials : PeerCredentials) (verified : Bool) (token : Token)
      → handle_connected_socket socket credentials verified token c
        ≡ do_call (socket_close socket) c

stopped-Ignores : (c : Client) → IsStopped c → Ignores c
unfolding run_task deliver is_current connect_on_io on_reconnect on_connect handle_connected_socket
stopped-Ignores c h = record {
  no_notice = λ verify_peer token notice. ground arith;
  no_connect = λ token e. ground arith;
  no_reconnect = ground arith;
  late_connect = λ socket token e credentials. ground arith;
  late_verified = λ socket credentials verified token. ground arith;
}

stop_on_io-IsStopped :
    (c : Client) → c.scope.running ≡ false → IsSession c → IsStopped (stop_on_io c)
unfolding stop_on_io close_peer close_connecting_socket
stop_on_io-IsStopped c h v = ground (arith, pending-complete_all operation_aborted c.manager)

-- A stop, on the dispatcher and then on the I/O thread, leaves a client that satisfied `IsSession` with
-- neither a connect attempt nor a peer nor a pending request. The notifications that still wait then,
-- whatever their tokens, the posted connect attempts, the reconnect task and the completions of connects
-- change nothing, except that a late socket is closed.
pub client_stop :
    (c : Client) → IsSession c → let d = stop_on_io (stop c) in IsStopped d × Ignores d
client_stop c v =
    let d =
      stop_on_io-IsStopped (stop c) (unfold stop NotificationScope.stop in refl)
        (unfold stop in v) in
    (d, stopped-Ignores (stop_on_io (stop c)) d)
