-- ===== src/Server/Attempts.antt =====
-- server.hpp: the attempts to bind, in the handlers of the I/O thread.
use cpp_unix_domain_stream.Prelude.{
  ℕ, ◌+◌, true, if◌then◌else◌, ◌≤◌, Bool, false, Option, some, List, [], ◌∷◌, count, count-append,
  arith, ErrorCode, operation_aborted,
}
use cpp_unix_domain_stream.NotificationScope.{Token}
use cpp_unix_domain_stream.Runtime.{set_socket_file_path_owner, remove_socket_file_path}
use cpp_unix_domain_stream.RequestManager.{complete_all}
use cpp_unix_domain_stream.Server.State.{
  Call, Server, Task, IoTask, do_call, acceptor_open, peer_close, peer_disconnect_slots,
}
use cpp_unix_domain_stream.Server.Acceptor.{
  BindResults, bind_on_io, accept, close_acceptor, release_path, open_and_bind, listen,
  handle_bind_failed,
}
use cpp_unix_domain_stream.Server.Peers.{close_peers, close_all_peers}
use cpp_unix_domain_stream.Server.HealthCheck.{
  handle_socket_path_health_check_failed, close_socket_path_health_check_peer,
  reset_health_check_timeout,
}
use cpp_unix_domain_stream.Server.Tasks.{disconnect_peers, disconnect_health_check_peer}
use cpp_unix_domain_stream.Server.Events.{Event}

abbrev pub is_attempt : Call → Bool
is_attempt (acceptor_open a) = true
is_attempt _ = false

abbrev pub is_bind : IoTask → Bool
is_bind (IoTask.bind_io token) = true
is_bind _ = false

abbrev pub is_start : Task → Bool
is_start Task.start_task = true
is_start _ = false

-- A user's call of `async_start`.
abbrev pub starts : Event → Bool
starts Event.async_start = true
starts _ = false

-- A run of the bind retry task's function.
abbrev pub retries : Event → Bool
retries Event.bind_retry_fires = true
retries _ = false

-- The attempts begun, and those under way on the I/O thread and on the dispatcher.
abbrev pub load : Server → ℕ
load s = count is_attempt s.calls + (count is_bind s.io_tasks + count is_start s.tasks)

abbrev pub one : Bool → ℕ
one b = if b then 1 else 0

close_peers-load : (peers : List (ℕ × ℕ)) (s : Server) → load (close_peers peers s) ≤ load s
unfolding close_peers
close_peers-load [] s = omega arith
close_peers-load ((id, p) ∷ rest) s = grind (
  arith,
  close_peers-load rest (do_call (peer_close p) s),
  count-append is_attempt s.calls (peer_close p ∷ []),
)

pub disconnect_peers-load :
    (peers : List (ℕ × ℕ)) (s : Server) → load (disconnect_peers peers s) ≤ load s
unfolding disconnect_peers
disconnect_peers-load [] s = omega arith
disconnect_peers-load ((id, p) ∷ rest) s = grind (
  arith,
  disconnect_peers-load rest (do_call (peer_disconnect_slots p) s),
  count-append is_attempt s.calls (peer_disconnect_slots p ∷ []),
)

pub close_acceptor-load : (s : Server) → load (close_acceptor s) ≤ load s
unfolding close_acceptor release_path
close_acceptor-load s =
    grind (arith, count-append is_attempt, count-append is_bind, count-append is_start)

pub close_all_peers-load : (s : Server) → load (close_all_peers s) ≤ load s
unfolding close_all_peers
close_all_peers-load s =
    close_peers-load s.peers (record s { manager = complete_all operation_aborted s.manager })

pub close_health_check-load : (s : Server) → load (close_socket_path_health_check_peer s) ≤ load s
unfolding close_socket_path_health_check_peer reset_health_check_timeout
close_health_check-load s =
    grind (arith, count-append is_attempt, count-append is_bind, count-append is_start)

pub disconnect_health_check-load :
    (p : Option ℕ) (s : Server) → load (disconnect_health_check_peer p s) ≤ load s
unfolding disconnect_health_check_peer
disconnect_health_check-load p s =
    grind (arith, count-append is_attempt, count-append is_bind, count-append is_start)

pub failed_health_check-load :
    (token : Token) (timeout : ℕ) (s : Server)
    → load (handle_socket_path_health_check_failed token timeout s) ≤ load s
unfolding handle_socket_path_health_check_failed
failed_health_check-load token timeout s = grind (
  arith,
  close_health_check-load s,
  close_acceptor-load (close_socket_path_health_check_peer s),
  count-append is_start,
)

handle_bind_failed-load :
    (e : ErrorCode) (token : Token) (s : Server) → load (handle_bind_failed e token s) ≤ load s
unfolding handle_bind_failed
handle_bind_failed-load e token s = grind (arith, close_acceptor-load s, count-append is_start)

accept-load : (token : Token) (s : Server) → load (accept token s) ≤ load s
unfolding accept
accept-load token s =
    grind (arith, count-append is_attempt, count-append is_bind, count-append is_start)

listen-load : (token : Token) (r : BindResults) (s : Server) → load (listen token r s) ≤ load s
unfolding listen
listen-load token r s = grind (
  arith,
  handle_bind_failed-load r.listen_error token s,
  accept-load token,
  count-append is_start,
)

open_and_bind-load :
    (token : Token) (r : BindResults) (s : Server) → load (open_and_bind token r s) ≤ load s
unfolding open_and_bind
open_and_bind-load token r s = ground (
  arith,
  handle_bind_failed-load r.open_error token s,
  handle_bind_failed-load r.bind_error token s,
  listen-load token r (record s {
    bound_socket_file_path = some r.resolved;
    runtime = set_socket_file_path_owner r.resolved s.self s.runtime;
  }),
)

pub bind_on_io-load :
    (token : Token) (r : BindResults) (s : Server) → load (bind_on_io token r s) ≤ load s + 1
unfolding bind_on_io
bind_on_io-load token r s =
    let t = do_call (acceptor_open s.next_handle) (record s {
      runtime = remove_socket_file_path s.socket_file_path r.key s.runtime;
      acceptor = some s.next_handle;
      next_handle = s.next_handle + 1;
    }) in
    ground (
      arith,
      handle_bind_failed-load r.endpoint_error token s,
      open_and_bind-load token r t,
      count-append is_attempt s.calls (acceptor_open s.next_handle ∷ []),
    )
