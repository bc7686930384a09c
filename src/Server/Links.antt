-- ===== src/Server/Links.antt =====
-- The handlers of server.hpp and what the server holds: the peers that requests wait for, the acceptor
-- of a bound socket file, the timer of a health check.
use cpp_unix_domain_stream.Prelude.{
  ℕ, ◌+◌, ◌≡◌, refl, true, Option, none, some, List, [], ◌∷◌, ◌⊎◌, inr, is_some, arith, ErrorCode,
  operation_aborted,
}
use cpp_unix_domain_stream.Credentials.{PeerCredentials}
use cpp_unix_domain_stream.NotificationScope.{Token}
use cpp_unix_domain_stream.RequestManager.{PendingRequest, complete_all, on_timer}
use cpp_unix_domain_stream.RequestManager.Ids.{pending-complete_all}
use cpp_unix_domain_stream.Runtime.{remove_socket_file_path, set_socket_file_path_owner}
use cpp_unix_domain_stream.Peer.State.{Signal}
use cpp_unix_domain_stream.Server.State
use cpp_unix_domain_stream.Server.State.{
  Server, Slot, Probe, Notice, Task, IoTask, new_server, do_call, acceptor_open, acceptor_close,
  peer_close, peer_start, timer_cancel, socket_close, peer_disconnect_slots,
}
use cpp_unix_domain_stream.Server.Acceptor.{
  BindResults, release_path, close_acceptor, handle_bind_failed, accept, listen, open_and_bind,
  bind_on_io, handle_accepted_socket, on_accept, next_id,
}
use cpp_unix_domain_stream.Server.Peers.{
  close_peer, close_peers, close_all_peers, on_request_timer, peer_slot, enqueue_peer_closed,
}
use cpp_unix_domain_stream.Server.HealthCheck.{
  close_socket_path_health_check_peer, reset_health_check_timeout,
  handle_socket_path_health_check_failed, health_check_on_io, on_probe_timer, on_probe_connect,
  probe_slot, is_current_socket_path_health_check,
}
use cpp_unix_domain_stream.Server.Waiting.{
  Waiting, emplace-Waiting, on_timer-Waiting, complete_peer-Waiting-erase,
}

pub record Linked (acceptor bound probe probe_timeout : Option ℕ) (peers : List (ℕ × ℕ))
    (pending : List (ℕ × PendingRequest)) : Type 0 where
  pub accepting : (bound ≡ none) ⊎ (is_some acceptor ≡ true)
  pub timed : (probe ≡ none) ⊎ (is_some probe_timeout ≡ true)
  pub waiting : Waiting peers pending

abbrev pub IsLinked : Server → Type 0
IsLinked s =
    Linked s.acceptor s.bound_socket_file_path s.health_check_peer s.health_check_timeout s.peers
      s.manager.pending_requests

pub close_acceptor-IsLinked : (s : Server) → IsLinked s → IsLinked (close_acceptor s)
unfolding close_acceptor release_path
close_acceptor-IsLinked s v = ground arith

handle_bind_failed-IsLinked :
    (e : ErrorCode) (token : Token) (s : Server)
    → IsLinked s
    → IsLinked (handle_bind_failed e token s)
unfolding handle_bind_failed
handle_bind_failed-IsLinked e token s v = ground (arith, close_acceptor-IsLinked s v)

accept-IsLinked : (token : Token) (s : Server) → IsLinked s → IsLinked (accept token s)
unfolding accept
accept-IsLinked token s v = ground arith

listen-IsLinked :
    (token : Token) (r : BindResults) (s : Server) → IsLinked s → IsLinked (listen token r s)
unfolding listen
listen-IsLinked token r s v = ground (
  arith,
  handle_bind_failed-IsLinked r.listen_error token s v,
  accept-IsLinked token (State.enqueue (State.scoped token State.notify_bound) s),
)

open_and_bind-IsLinked :
    (token : Token) (r : BindResults) (s : Server)
    → is_some s.acceptor ≡ true
    → IsLinked s
    → IsLinked (open_and_bind token r s)
unfolding open_and_bind
open_and_bind-IsLinked token r s h v =
    let t = record s {
      bound_socket_file_path = some r.resolved;
      runtime = set_socket_file_path_owner r.resolved s.self s.runtime;
    } in
    let w : IsLinked t = record { accepting = inr h; timed = v.timed; waiting = v.waiting } in
    ground (
      arith,
      handle_bind_failed-IsLinked r.open_error token s v,
      handle_bind_failed-IsLinked r.bind_error token s v,
      listen-IsLinked token r t w,
    )

pub bind_on_io-IsLinked :
    (token : Token) (r : BindResults) (s : Server) → IsLinked s → IsLinked (bind_on_io token r s)
unfolding bind_on_io
bind_on_io-IsLinked token r s v =
    let t = do_call (acceptor_open s.next_handle) (record s {
      runtime = remove_socket_file_path s.socket_file_path r.key s.runtime;
      acceptor = some s.next_handle;
      next_handle = s.next_handle + 1;
    }) in
    let w : IsLinked t = record { accepting = inr refl; timed = v.timed; waiting = v.waiting } in
    ground (
      arith,
      handle_bind_failed-IsLinked r.endpoint_error token s v,
      open_and_bind-IsLinked token r t refl w,
    )

handle_accepted_socket-IsLinked :
    (socket : ℕ) (credentials : PeerCredentials) (token : Token) (s : Server)
    → IsLinked s
    → IsLinked (handle_accepted_socket socket credentials token s)
unfolding handle_accepted_socket accept
handle_accepted_socket-IsLinked socket credentials token s v =
    ground (
      arith,
      emplace-Waiting (next_id s) s.next_handle s.peers s.manager.pending_requests v.waiting,
    )

pub on_accept-IsLinked :
    (token : Token) (e : ErrorCode) (socket : ℕ) (credentials : PeerCredentials) (s : Server)
    → IsLinked s
    → IsLinked (on_accept token e socket credentials s)
unfolding on_accept
on_accept-IsLinked token e socket credentials s v = ground (
  arith,
  close_acceptor-IsLinked s v,
  handle_accepted_socket-IsLinked socket credentials token s v,
)

pub close_peer-IsLinked : (id : ℕ) (s : Server) → IsLinked s → IsLinked (close_peer id s)
unfolding close_peer
close_peer-IsLinked id s v =
    ground (arith, complete_peer-Waiting-erase id operation_aborted s.peers s.manager v.waiting)

-- The peers of the map change by being closed only in the calls made.
close_peers-IsLinked :
    (peers : List (ℕ × ℕ)) (s : Server)
    → IsLinked s
    → s.manager.pending_requests ≡ []
    → let t = close_peers peers s in IsLinked t × (t.manager.pending_requests ≡ [])
unfolding close_peers
close_peers-IsLinked [] s v h = (v, h)
close_peers-IsLinked ((id, p) ∷ rest) s v h =
    close_peers-IsLinked rest (do_call (peer_close p) s) v h

pub close_all_peers-IsLinked : (s : Server) → IsLinked s → IsLinked (close_all_peers s)
unfolding close_all_peers
close_all_peers-IsLinked s v =
    let t = record s { manager = complete_all operation_aborted s.manager } in
    let none_pending = pending-complete_all operation_aborted s.manager in
    let w : IsLinked t = record {
      accepting = v.accepting;
      timed = v.timed;
      waiting = rw none_pending tt;
    } in
    let (u, h) = close_peers-IsLinked s.peers t w none_pending in
    record { accepting = u.accepting; timed = u.timed; waiting = rw h tt }

pub on_request_timer-IsLinked :
    (id peer_id : ℕ) (e : ErrorCode) (s : Server)
    → IsLinked s
    → IsLinked (on_request_timer id peer_id e s)
unfolding on_request_timer
on_request_timer-IsLinked id peer_id e s v =
    let t = record s { manager = (on_timer id e s.manager).0 } in
    let w : IsLinked t = record {
      accepting = v.accepting;
      timed = v.timed;
      waiting = on_timer-Waiting id e s.peers s.manager v.waiting;
    } in
    ground (arith, close_peer-IsLinked peer_id t w)

pub peer_slot-IsLinked :
    (k : Slot) (signal : Signal) (s : Server) → IsLinked s → IsLinked (peer_slot k signal s)
unfolding peer_slot enqueue_peer_closed
peer_slot-IsLinked k Signal.ready s v = ground arith
peer_slot-IsLinked k _ s v = ground arith

pub close_health_check-IsLinked :
    (s : Server) → IsLinked s → IsLinked (close_socket_path_health_check_peer s)
unfolding close_socket_path_health_check_peer reset_health_check_timeout
close_health_check-IsLinked s v = ground arith

pub failed_health_check-IsLinked :
    (token : Token) (timeout : ℕ) (s : Server)
    → IsLinked s
    → IsLinked (handle_socket_path_health_check_failed token timeout s)
unfolding handle_socket_path_health_check_failed
failed_health_check-IsLinked token timeout s v = ground (
  arith,
  close_acceptor-IsLinked (close_socket_path_health_check_peer s) (close_health_check-IsLinked s v),
)

pub health_check_on_io-IsLinked :
    (token : Token) (e : ErrorCode) (s : Server)
    → IsLinked s
    → IsLinked (health_check_on_io token e s)
unfolding health_check_on_io
health_check_on_io-IsLinked token e s v =
    let t = record s {
      health_check_timeout = some s.next_handle;
      next_handle = s.next_handle + 1;
    } in
    let w : IsLinked t = record {
      accepting = v.accepting;
      timed = inr refl;
      waiting = v.waiting;
    } in
    ground (arith, failed_health_check-IsLinked token s.next_handle t w)

pub on_probe_timer-IsLinked :
    (k : Probe) (e : ErrorCode) (s : Server) → IsLinked s → IsLinked (on_probe_timer k e s)
unfolding on_probe_timer
on_probe_timer-IsLinked k e s v =
    ground
      (arith, failed_health_check-IsLinked k.token k.timeout (do_call (socket_close k.object) s) v)

pub on_probe_connect-IsLinked :
    (k : Probe) (e : ErrorCode) (s : Server) → IsLinked s → IsLinked (on_probe_connect k e s)
unfolding on_probe_connect is_current_socket_path_health_check
on_probe_connect-IsLinked k e s v =
    ground
      (arith, failed_health_check-IsLinked k.token k.timeout (do_call (timer_cancel k.timeout) s) v)

pub probe_slot-IsLinked :
    (k : Probe) (signal : Signal) (s : Server) → IsLinked s → IsLinked (probe_slot k signal s)
unfolding probe_slot
probe_slot-IsLinked k Signal.ready s v = ground arith
probe_slot-IsLinked k _ s v = ground arith
