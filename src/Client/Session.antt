-- ===== src/Client/Session.antt =====
-- client.hpp: the connecting socket, the peer and the pending requests, handler by handler.
use cpp_unix_domain_stream.Prelude.{
  ℕ, ◌≡◌, Bool, Option, none, some, List, [], ◌⊎◌, arith, ErrorCode, connection_reset, success,
}
use cpp_unix_domain_stream.Credentials.{PeerCredentials}
use cpp_unix_domain_stream.NotificationScope.{Token, deliver}
use cpp_unix_domain_stream.RequestManager.{PendingRequest, on_timer}
use cpp_unix_domain_stream.RequestManager.Empty.{complete-empty, on_timer-empty}
use cpp_unix_domain_stream.RequestManager.Ids.{pending-complete_all}
use cpp_unix_domain_stream.Client.State.{Client, Notice, Task, scoped}
use cpp_unix_domain_stream.Client.Connection.{
  connect, connect_on_io, on_connect, schedule_reconnect, close_connecting_socket, close_peer, stop,
  invalidate_connection, handle_connected_socket,
}
use cpp_unix_domain_stream.Client.Requests.{
  send_request, received_on_io, request_received_on_io, response_received_on_io, error_on_io,
  closed_on_io, on_request_timer, on_request_timeout,
}
use cpp_unix_domain_stream.Client.Tasks.{run_task, run_notice, async_shutdown, disconnect_peer}

pub record Session (connecting_socket peer : Option ℕ) (pending : List (ℕ × PendingRequest))
    : Type 0 where
  pub exclusive : (connecting_socket ≡ none) ⊎ (peer ≡ none)
  pub answerable : peer ≡ none → pending ≡ []

abbrev pub IsSession : Client → Type 0
IsSession c = Session c.connecting_socket c.peer c.manager.pending_requests

pub connect-IsSession : (c : Client) → IsSession c → IsSession (connect c)
unfolding connect
connect-IsSession c v = v

schedule_reconnect-IsSession : (c : Client) → IsSession c → IsSession (schedule_reconnect c)
unfolding schedule_reconnect
schedule_reconnect-IsSession c v = ground arith

pub close_connecting_socket-IsSession :
    (c : Client) → IsSession c → IsSession (close_connecting_socket c)
unfolding close_connecting_socket
close_connecting_socket-IsSession c v = ground arith

pub close_peer-IsSession : (e : ErrorCode) (c : Client) → IsSession c → IsSession (close_peer e c).0
unfolding close_peer
close_peer-IsSession e c v = ground (arith, pending-complete_all e c.manager)

pub connect_on_io-IsSession :
    (token : Token) (e : ErrorCode) (c : Client) → IsSession c → IsSession (connect_on_io token e c)
unfolding connect_on_io
connect_on_io-IsSession token e c v = ground arith

pub on_connect-IsSession :
    (socket : ℕ) (token : Token) (e : ErrorCode) (credentials : PeerCredentials) (c : Client)
    → IsSession c
    → IsSession (on_connect socket token e credentials c)
unfolding on_connect
on_connect-IsSession socket token e credentials c v = ground arith

pub handle_connected_socket-IsSession :
    (socket : ℕ) (credentials : PeerCredentials) (verified : Bool) (token : Token) (c : Client)
    → IsSession c
    → IsSession (handle_connected_socket socket credentials verified token c)
unfolding handle_connected_socket
handle_connected_socket-IsSession socket credentials verified token c v = ground arith

pub send_request-IsSession :
    (bytes : List ℕ) (timeout callback : ℕ) (c : Client)
    → IsSession c
    → IsSession (send_request bytes timeout callback c)
unfolding send_request
send_request-IsSession bytes timeout callback c v = ground arith

on_request_timeout-IsSession :
    (token : Token) (c : Client) → IsSession c → IsSession (on_request_timeout token c)
unfolding on_request_timeout
on_request_timeout-IsSession token c v = ground (arith, close_peer-IsSession connection_reset c v)

pub on_request_timer-IsSession :
    (id : ℕ) (token : Token) (e : ErrorCode) (c : Client)
    → IsSession c
    → IsSession (on_request_timer id token e c)
unfolding on_request_timer
on_request_timer-IsSession id token e c v =
    let d = record c { manager = (on_timer id e c.manager).0 } in
    let w : IsSession d = record {
      exclusive = v.exclusive;
      answerable = λ h. on_timer-empty id e c.manager (v.answerable h);
    } in
    ground (arith, w, on_request_timeout-IsSession token d w)

run_notice-IsSession :
    (verify_peer : PeerCredentials → Bool) (token : Token) (notice : Notice) (c : Client)
    → IsSession c
    → IsSession (run_notice verify_peer token notice c)
unfolding run_notice schedule_reconnect
run_notice-IsSession verify_peer token (Notice.verify socket credentials) c v = v
run_notice-IsSession verify_peer token notice c v = ground arith

pub run_task-IsSession :
    (verify_peer : PeerCredentials → Bool) (t : Task) (c : Client)
    → IsSession c
    → IsSession (run_task verify_peer t c)
unfolding run_task deliver connect stop invalidate_connection
run_task-IsSession verify_peer (scoped token notice) c v =
    ground (arith, run_notice-IsSession verify_peer token notice c v)
run_task-IsSession verify_peer t c v = v

pub async_shutdown-IsSession : (c : Client) → IsSession c → IsSession (async_shutdown c)
unfolding async_shutdown
async_shutdown-IsSession c v = ground arith

pub received_on_io-IsSession :
    (p : ℕ) (bytes : List ℕ) (token : Token) (c : Client)
    → IsSession c
    → IsSession (received_on_io p bytes token c)
unfolding received_on_io
received_on_io-IsSession p bytes token c v = ground arith

pub request_received_on_io-IsSession :
    (p id : ℕ) (bytes : List ℕ) (token : Token) (c : Client)
    → IsSession c
    → IsSession (request_received_on_io p id bytes token c)
unfolding request_received_on_io
request_received_on_io-IsSession p id bytes token c v = ground arith

pub response_received_on_io-IsSession :
    (p id : ℕ) (bytes : List ℕ) (c : Client)
    → IsSession c
    → IsSession (response_received_on_io p id bytes c)
unfolding response_received_on_io
response_received_on_io-IsSession p id bytes c v =
    ground (arith, complete-empty id success (some bytes) c.manager)

pub error_on_io-IsSession :
    (p : ℕ) (e : ErrorCode) (token : Token) (c : Client)
    → IsSession c
    → IsSession (error_on_io p e token c)
unfolding error_on_io
error_on_io-IsSession p e token c v = ground (arith, pending-complete_all e c.manager)

pub closed_on_io-IsSession :
    (p : ℕ) (token : Token) (c : Client) → IsSession c → IsSession (closed_on_io p token c)
unfolding closed_on_io
closed_on_io-IsSession p token c v = ground (arith, pending-complete_all connection_reset c.manager)

pub disconnect_peer-IsSession :
    (p : Option ℕ) (c : Client) → IsSession c → IsSession (disconnect_peer p c)
unfolding disconnect_peer
disconnect_peer-IsSession none c v = v
disconnect_peer-IsSession (some p) c v = v
