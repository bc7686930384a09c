-- ===== src/Server/HealthCheck.antt =====
-- server.hpp: the health check of the socket path, a fresh connection to the server's own socket file.
-- The active check is known by its timer.
use cpp_unix_domain_stream.Prelude.{
  ℕ, ◌+◌, Bool, not, ◌&&◌, ◌||◌, none, some, [], ◌∷◌, ◌++◌, if◌then◌else◌, is_this, is_some,
  ErrorCode, eof, is_error,
}
use cpp_unix_domain_stream.Options.{normalize_scheduling_interval}
use cpp_unix_domain_stream.NotificationScope.{Token, capture, is_current}
use cpp_unix_domain_stream.Peer.State.{Signal}
use cpp_unix_domain_stream.Server.State.{
  Server, Probe, notify_closed, scoped, health_check_io, health_check_done_io,
  health_check_failed_io, socket_connect, socket_close, peer_start, peer_close,
  peer_send_health_check, start_timer, timer_cancel, health_check_timer_start, post, enqueue,
  do_call,
}
use cpp_unix_domain_stream.Server.Acceptor.{close_acceptor}

unfoldable pub start_socket_path_health_check_timer : Server → Server
start_socket_path_health_check_timer s =
    if not s.scope.running
    then s
    else do_call
        (health_check_timer_start
          (normalize_scheduling_interval s.options.socket_path_health_check_interval))
        s

unfoldable pub is_current_socket_path_health_check : Token → ℕ → Server → Bool
unfolding is_current
is_current_socket_path_health_check token timeout s =
    is_current s.scope token && is_this s.health_check_timeout timeout

-- The timer part of `close_socket_path_health_check_peer`.
unfoldable pub reset_health_check_timeout : Server → Server
reset_health_check_timeout s = elim s.health_check_timeout [
  | none ↦ s
  | some t ↦ do_call (timer_cancel t) (record s { health_check_timeout = none })
]

unfoldable pub close_socket_path_health_check_peer : Server → Server
unfolding reset_health_check_timeout
close_socket_path_health_check_peer s =
    let t = reset_health_check_timeout s in
    elim t.health_check_peer [
      | none ↦ t
      | some p ↦ do_call (peer_close p) (record t { health_check_peer = none })
    ]

unfoldable pub handle_socket_path_health_check_failed : Token → ℕ → Server → Server
handle_socket_path_health_check_failed token timeout s =
    if not (is_current_socket_path_health_check token timeout s)
    then s
    else enqueue (scoped token notify_closed)
        (close_acceptor (close_socket_path_health_check_peer s))

-- The function of the periodic timer.
unfoldable pub socket_path_health_check : Server → Server
socket_path_health_check s = post (health_check_io (capture s.scope)) s

-- The posted check. The error is that of `make_endpoint`.
unfoldable pub health_check_on_io : Token → ErrorCode → Server → Server
health_check_on_io token endpoint_error s =
    if not (is_current s.scope token) || not (is_some s.acceptor) || is_some s.health_check_timeout
    then s
    else let t = s.next_handle in
      let u = record s { health_check_timeout = some t; next_handle = t + 1 } in
      if is_error endpoint_error
      then handle_socket_path_health_check_failed token t u
      else let probe : Probe = record { object = t + 1; timeout = t; token = token } in
        do_call (socket_connect (t + 1)) (
          do_call (start_timer t u.options.socket_path_health_check_timeout) (record u {
            next_handle = t + 2;
            probe_timers = u.probe_timers ++ (probe ∷ []);
            probe_connects = u.probe_connects ++ (probe ∷ []);
          }))

-- The handler of the check's timer: a cancelled timer closes the socket too.
unfoldable pub on_probe_timer : Probe → ErrorCode → Server → Server
on_probe_timer k error_code s =
    let t = do_call (socket_close k.object) s in
    if is_error error_code then t else handle_socket_path_health_check_failed k.token k.timeout t

-- The completion handler of the check's `async_connect`.
unfoldable pub on_probe_connect : Probe → ErrorCode → Server → Server
on_probe_connect k error_code s =
    if not (is_current_socket_path_health_check k.token k.timeout s)
    then do_call (socket_close k.object) (do_call (timer_cancel k.timeout) s)
    else if is_error error_code
    then handle_socket_path_health_check_failed k.token k.timeout
        (do_call (timer_cancel k.timeout) s)
    else let p = s.next_handle in
      do_call (peer_send_health_check p) (
        do_call (peer_start p) (record s {
          next_handle = p + 1;
          health_check_peer = some p;
          probe_slots =
              s.probe_slots ++ (record { object = p; timeout = k.timeout; token = k.token } ∷ []);
        }))

-- The slots of the check's peer, which run on the dispatcher.
unfoldable pub probe_slot : Probe → Signal → Server → Server
probe_slot k Signal.health_check_response_received s =
    if is_current s.scope k.token then post (health_check_done_io k.timeout k.token) s else s
probe_slot k (Signal.error_occurred e) s =
    if is_current s.scope k.token then post (health_check_failed_io e k.timeout k.token) s else s
probe_slot k Signal.closed s =
    if is_current s.scope k.token then post (health_check_failed_io eof k.timeout k.token) s else s
probe_slot k _ s = s

-- What the slot of the response posts.
unfoldable pub health_check_done_on_io : ℕ → Token → Server → Server
health_check_done_on_io timeout token s =
    if is_current_socket_path_health_check token timeout s
    then close_socket_path_health_check_peer s
    else s
