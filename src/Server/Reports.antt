-- ===== src/Server/Reports.antt =====
-- server.hpp: the reports of failures to bind, in the handlers of the I/O thread.
use cpp_unix_domain_stream.Prelude.{
  ℕ, ◌+◌, true, if◌then◌else◌, ◌≤◌, Bool, false, Option, some, List, [], ◌∷◌, count, count-append,
  arith, ErrorCode, operation_aborted,
}
use cpp_unix_domain_stream.NotificationScope.{Token}
use cpp_unix_domain_stream.Runtime.{set_socket_file_path_owner, remove_socket_file_path}
use cpp_unix_domain_stream.RequestManager.{complete_all}
use cpp_unix_domain_stream.Server.State
use cpp_unix_domain_stream.Server.State.{
  Call, Server, Slot, Probe, Task, IoTask, do_call, acceptor_open, peer_close,
  peer_disconnect_slots,
}
use cpp_unix_domain_stream.Server.Acceptor.{
  BindResults, bind_on_io, accept, close_acceptor, release_path, open_and_bind, listen,
  handle_bind_failed,
}
use cpp_unix_domain_stream.Server.Peers.{close_peers, close_all_peers}
use cpp_unix_domain_stream.Server.HealthCheck.{
  handle_socket_path_health_check_failed, close_socket_path_health_check_peer,
  reset_health_check_timeout,
}
use cpp_unix_domain_stream.Server.Tasks.{disconnect_peers, disconnect_health_check_peer}

abbrev pub is_failure : State.ServerSignal → Bool
is_failure (State.bind_failed e) = true
is_failure _ = false

abbrev pub is_failing : Task → Bool
is_failing Task.start_task = true
is_failing (State.scoped token (State.notify_bind_failed e)) = true
is_failing _ = false

abbrev pub is_bind : IoTask → Bool
is_bind (IoTask.bind_io token) = true
is_bind _ = false

-- The failures reported, and the attempts under way or not reported yet.
abbrev pub failures : Server → ℕ
failures s = count is_failure s.signals + (count is_failing s.tasks + count is_bind s.io_tasks)

abbrev pub one : Bool → ℕ
one b = if b then 1 else 0

close_peers-failures :
    (peers : List (ℕ × ℕ)) (s : Server) → failures (close_peers peers s) ≤ failures s
unfolding close_peers
close_peers-failures [] s = omega arith
close_peers-failures ((id, p) ∷ rest) s =
    grind (arith, close_peers-failures rest (do_call (peer_close p) s))

pub disconnect_peers-failures :
    (peers : List (ℕ × ℕ)) (s : Server) → failures (disconnect_peers peers s) ≤ failures s
unfolding disconnect_peers
disconnect_peers-failures [] s = omega arith
disconnect_peers-failures ((id, p) ∷ rest) s =
    grind (arith, disconnect_peers-failures rest (do_call (peer_disconnect_slots p) s))

pub close_acceptor-failures : (s : Server) → failures (close_acceptor s) ≤ failures s
unfolding close_acceptor release_path
close_acceptor-failures s =
    grind (arith, count-append is_failure, count-append is_failing, count-append is_bind)

pub close_all_peers-failures : (s : Server) → failures (close_all_peers s) ≤ failures s
unfolding close_all_peers
close_all_peers-failures s =
    close_peers-failures s.peers (record s { manager = complete_all operation_aborted s.manager })

pub close_health_check-failures :
    (s : Server) → failures (close_socket_path_health_check_peer s) ≤ failures s
unfolding close_socket_path_health_check_peer reset_health_check_timeout
close_health_check-failures s =
    grind (arith, count-append is_failure, count-append is_failing, count-append is_bind)

pub disconnect_health_check-failures :
    (p : Option ℕ) (s : Server) → failures (disconnect_health_check_peer p s) ≤ failures s
unfolding disconnect_health_check_peer
disconnect_health_check-failures p s =
    grind (arith, count-append is_failure, count-append is_failing, count-append is_bind)

pub failed_health_check-failures :
    (token : Token) (timeout : ℕ) (s : Server)
    → failures (handle_socket_path_health_check_failed token timeout s) ≤ failures s
unfolding handle_socket_path_health_check_failed
failed_health_check-failures token timeout s = grind (
  arith,
  close_health_check-failures s,
  close_acceptor-failures (close_socket_path_health_check_peer s),
  count-append is_failure,
  count-append is_failing,
  count-append is_bind,
)

handle_bind_failed-failures :
    (e : ErrorCode) (token : Token) (s : Server)
    → failures (handle_bind_failed e token s) ≤ failures s + 1
unfolding handle_bind_failed
handle_bind_failed-failures e token s = grind (
  arith,
  close_acceptor-failures s,
  count-append is_failure,
  count-append is_failing,
  count-append is_bind,
)

accept-failures : (token : Token) (s : Server) → failures (accept token s) ≤ failures s
unfolding accept
accept-failures token s =
    grind (arith, count-append is_failure, count-append is_failing, count-append is_bind)

listen-failures :
    (token : Token) (r : BindResults) (s : Server) → failures (listen token r s) ≤ failures s + 1
unfolding listen
listen-failures token r s = grind (
  arith,
  handle_bind_failed-failures r.listen_error token s,
  accept-failures token,
  count-append is_failure,
  count-append is_failing,
  count-append is_bind,
)

open_and_bind-failures :
    (token : Token) (r : BindResults) (s : Server)
    → failures (open_and_bind token r s) ≤ failures s + 1
unfolding open_and_bind
open_and_bind-failures token r s = ground (
  arith,
  handle_bind_failed-failures r.open_error token s,
  handle_bind_failed-failures r.bind_error token s,
  listen-failures token r (record s {
    bound_socket_file_path = some r.resolved;
    runtime = set_socket_file_path_owner r.resolved s.self s.runtime;
  }),
)

pub bind_on_io-failures :
    (token : Token) (r : BindResults) (s : Server)
    → failures (bind_on_io token r s) ≤ failures s + 1
unfolding bind_on_io
bind_on_io-failures token r s =
    let t = do_call (acceptor_open s.next_handle) (record s {
      runtime = remove_socket_file_path s.socket_file_path r.key s.runtime;
      acceptor = some s.next_handle;
      next_handle = s.next_handle + 1;
    }) in
    ground (
      arith,
      handle_bind_failed-failures r.endpoint_error token s,
      open_and_bind-failures token r t,
    )
