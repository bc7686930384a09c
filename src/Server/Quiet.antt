-- ===== src/Server/Quiet.antt =====
-- server.hpp: what runs on the I/O thread, and the state that only the dispatcher uses.
use cpp_unix_domain_stream.Prelude.{
  ℕ, ◌+◌, ◌≡◌, false, Option, none, some, List, [], ◌∷◌, arith, ErrorCode, operation_aborted,
}
use cpp_unix_domain_stream.Credentials.{PeerCredentials}
use cpp_unix_domain_stream.NotificationScope.{Token}
use cpp_unix_domain_stream.RequestManager.{complete_all, on_timer}
use cpp_unix_domain_stream.Runtime.{remove_socket_file_path, set_socket_file_path_owner}
use cpp_unix_domain_stream.Peer.State.{Signal}
use cpp_unix_domain_stream.Server.State
use cpp_unix_domain_stream.Server.State.{
  Server, Slot, Probe, IoTask, do_call, acceptor_open, acceptor_close, peer_close, peer_start,
  timer_cancel, socket_close, peer_disconnect_slots,
}
use cpp_unix_domain_stream.Server.Acceptor.{
  BindResults, release_path, close_acceptor, handle_bind_failed, accept, listen, open_and_bind,
  bind_on_io, handle_accepted_socket, on_accept,
}
use cpp_unix_domain_stream.Server.Peers.{
  close_peer, close_peers, close_all_peers, send_on_io, respond_on_io, send_request,
  on_request_timer, response_received_on_io, error_on_io, closed_on_io, peer_slot,
  enqueue_peer_closed,
}
use cpp_unix_domain_stream.Server.HealthCheck.{
  close_socket_path_health_check_peer, handle_socket_path_health_check_failed, health_check_on_io,
  on_probe_timer, on_probe_connect, probe_slot, health_check_done_on_io,
}
use cpp_unix_domain_stream.Server.Tasks.{
  stop_on_io, disconnect_peers, disconnect_health_check_peer, shutdown_on_io, run_io,
}

abbrev pub Quiet : Server → Server → Type 0
Quiet s t =
    (t.exposed_peer_ids ≡ s.exposed_peer_ids)
    × (t.signals ≡ s.signals)
    × (t.attached ≡ s.attached)
    × (t.scope ≡ s.scope)
    × (t.shutdown_started ≡ s.shutdown_started)
    × (s.attached ≡ false → t.tasks ≡ s.tasks)

-- `b` after `a`.
then-Quiet : (s t u : Server) → Quiet s t → Quiet t u → Quiet s u
then-Quiet s t u a b = ground (arith, a, b)

release_path-Quiet : (s : Server) → Quiet s (release_path s)
unfolding release_path
release_path-Quiet s = ground arith

close_acceptor-Quiet : (s : Server) → Quiet s (close_acceptor s)
unfolding close_acceptor
close_acceptor-Quiet s = ground arith

handle_bind_failed-Quiet :
    (e : ErrorCode) (token : Token) (s : Server) → Quiet s (handle_bind_failed e token s)
unfolding handle_bind_failed
handle_bind_failed-Quiet e token s = ground (arith, close_acceptor-Quiet s)

accept-Quiet : (token : Token) (s : Server) → Quiet s (accept token s)
unfolding accept
accept-Quiet token s = ground arith

listen-Quiet : (token : Token) (r : BindResults) (s : Server) → Quiet s (listen token r s)
unfolding listen
listen-Quiet token r s = ground (
  arith,
  handle_bind_failed-Quiet r.listen_error token s,
  accept-Quiet token (State.enqueue (State.scoped token State.notify_bound) s),
)

open_and_bind-Quiet :
    (token : Token) (r : BindResults) (s : Server) → Quiet s (open_and_bind token r s)
unfolding open_and_bind
open_and_bind-Quiet token r s = ground (
  arith,
  handle_bind_failed-Quiet r.open_error token s,
  handle_bind_failed-Quiet r.bind_error token s,
  listen-Quiet token r (record s {
    bound_socket_file_path = some r.resolved;
    runtime = set_socket_file_path_owner r.resolved s.self s.runtime;
  }),
)

bind_on_io-Quiet : (token : Token) (r : BindResults) (s : Server) → Quiet s (bind_on_io token r s)
unfolding bind_on_io
bind_on_io-Quiet token r s =
    let t = do_call (acceptor_open s.next_handle) (record s {
      runtime = remove_socket_file_path s.socket_file_path r.key s.runtime;
      acceptor = some s.next_handle;
      next_handle = s.next_handle + 1;
    }) in
    ground (arith, handle_bind_failed-Quiet r.endpoint_error token s, open_and_bind-Quiet token r t)

handle_accepted_socket-Quiet :
    (socket : ℕ) (credentials : PeerCredentials) (token : Token) (s : Server)
    → Quiet s (handle_accepted_socket socket credentials token s)
unfolding handle_accepted_socket accept
handle_accepted_socket-Quiet socket credentials token s = ground arith

pub on_accept-Quiet :
    (token : Token) (e : ErrorCode) (socket : ℕ) (credentials : PeerCredentials) (s : Server)
    → Quiet s (on_accept token e socket credentials s)
unfolding on_accept
on_accept-Quiet token e socket credentials s =
    ground (arith, close_acceptor-Quiet s, handle_accepted_socket-Quiet socket credentials token s)

close_peer-Quiet : (id : ℕ) (s : Server) → Quiet s (close_peer id s)
unfolding close_peer
close_peer-Quiet id s = ground arith

close_peers-Quiet : (peers : List (ℕ × ℕ)) (s : Server) → Quiet s (close_peers peers s)
unfolding close_peers
close_peers-Quiet [] s = ground arith
close_peers-Quiet ((id, p) ∷ rest) s = close_peers-Quiet rest (do_call (peer_close p) s)

close_all_peers-Quiet : (s : Server) → Quiet s (close_all_peers s)
unfolding close_all_peers
close_all_peers-Quiet s =
    close_peers-Quiet s.peers (record s { manager = complete_all operation_aborted s.manager })

pub on_request_timer-Quiet :
    (id peer_id : ℕ) (e : ErrorCode) (s : Server) → Quiet s (on_request_timer id peer_id e s)
unfolding on_request_timer
on_request_timer-Quiet id peer_id e s =
    ground (arith, close_peer-Quiet peer_id (record s { manager = (on_timer id e s.manager).0 }))

pub peer_slot-Quiet : (k : Slot) (signal : Signal) (s : Server) → Quiet s (peer_slot k signal s)
unfolding peer_slot enqueue_peer_closed
peer_slot-Quiet k Signal.ready s = ground arith
peer_slot-Quiet k _ s = ground arith

close_health_check-Quiet : (s : Server) → Quiet s (close_socket_path_health_check_peer s)
unfolding close_socket_path_health_check_peer
close_health_check-Quiet s = ground arith

failed_health_check-Quiet :
    (token : Token) (timeout : ℕ) (s : Server)
    → Quiet s (handle_socket_path_health_check_failed token timeout s)
unfolding handle_socket_path_health_check_failed
failed_health_check-Quiet token timeout s = ground (
  arith,
  close_health_check-Quiet s,
  close_acceptor-Quiet (close_socket_path_health_check_peer s),
)

health_check_on_io-Quiet :
    (token : Token) (e : ErrorCode) (s : Server) → Quiet s (health_check_on_io token e s)
unfolding health_check_on_io
health_check_on_io-Quiet token e s = ground (
  arith,
  failed_health_check-Quiet token s.next_handle
      (record s { health_check_timeout = some s.next_handle; next_handle = s.next_handle + 1 }),
)

pub on_probe_timer-Quiet : (k : Probe) (e : ErrorCode) (s : Server) → Quiet s (on_probe_timer k e s)
unfolding on_probe_timer
on_probe_timer-Quiet k e s =
    ground (arith, failed_health_check-Quiet k.token k.timeout (do_call (socket_close k.object) s))

pub on_probe_connect-Quiet :
    (k : Probe) (e : ErrorCode) (s : Server) → Quiet s (on_probe_connect k e s)
unfolding on_probe_connect
on_probe_connect-Quiet k e s =
    ground (arith, failed_health_check-Quiet k.token k.timeout (do_call (timer_cancel k.timeout) s))

pub probe_slot-Quiet : (k : Probe) (signal : Signal) (s : Server) → Quiet s (probe_slot k signal s)
unfolding probe_slot
probe_slot-Quiet k Signal.ready s = ground arith
probe_slot-Quiet k _ s = ground arith

disconnect_peers-Quiet : (peers : List (ℕ × ℕ)) (s : Server) → Quiet s (disconnect_peers peers s)
unfolding disconnect_peers
disconnect_peers-Quiet [] s = ground arith
disconnect_peers-Quiet ((id, p) ∷ rest) s =
    disconnect_peers-Quiet rest (do_call (peer_disconnect_slots p) s)

disconnect_health_check-Quiet :
    (p : Option ℕ) (s : Server) → Quiet s (disconnect_health_check_peer p s)
unfolding disconnect_health_check_peer
disconnect_health_check-Quiet none s = ground arith
disconnect_health_check-Quiet (some p) s = ground arith

pub shutdown_on_io-Quiet : (s : Server) → Quiet s (shutdown_on_io s)
unfolding shutdown_on_io
shutdown_on_io-Quiet s =
    let t = close_acceptor s in
    let d = disconnect_peers t.peers t in
    let u = close_all_peers d in
    let w = disconnect_health_check_peer u.health_check_peer u in
    let x = close_socket_path_health_check_peer w in
    then-Quiet s t x (close_acceptor-Quiet s) (
      then-Quiet t d x (disconnect_peers-Quiet t.peers t) (
        then-Quiet d u x (close_all_peers-Quiet d) (
          then-Quiet u w x (disconnect_health_check-Quiet u.health_check_peer u)
            (close_health_check-Quiet w))))

stop_on_io-Quiet : (s : Server) → Quiet s (stop_on_io s)
unfolding stop_on_io
stop_on_io-Quiet s =
    let t = close_acceptor s in
    let u = close_all_peers t in
    then-Quiet s t (close_socket_path_health_check_peer u) (close_acceptor-Quiet s) (
      then-Quiet t u (close_socket_path_health_check_peer u) (close_all_peers-Quiet t)
        (close_health_check-Quiet u))

-- Every function posted to the I/O thread leaves the exposed peers and the signals alone.
pub run_io-Quiet : (r : BindResults) (t : IoTask) (s : Server) → Quiet s (run_io r t s)
unfolding run_io send_on_io respond_on_io send_request response_received_on_io error_on_io
    closed_on_io health_check_done_on_io
run_io-Quiet r (IoTask.bind_io token) s = bind_on_io-Quiet token r s
run_io-Quiet r IoTask.stop_io s = stop_on_io-Quiet s
run_io-Quiet r IoTask.shutdown_io s = shutdown_on_io-Quiet s
run_io-Quiet r (IoTask.close_peer_io id) s = close_peer-Quiet id s
run_io-Quiet r (IoTask.health_check_io token) s = health_check_on_io-Quiet token r.endpoint_error s
run_io-Quiet r (IoTask.health_check_done_io timeout token) s =
    ground (arith, close_health_check-Quiet s)
run_io-Quiet r (IoTask.health_check_failed_io e timeout token) s =
    failed_health_check-Quiet token timeout s
run_io-Quiet r _ s = ground arith
