-- ===== src/Server/Failures.antt =====
-- server.hpp: what makes a server report that it failed to bind.
use cpp_unix_domain_stream.Prelude.{
  ℕ, ◌+◌, inl, inr, get_elem?, Option-cases, count-erase_idx, ◌≤◌, Bool, List, [], ◌∷◌, count,
  count-append, arith, ErrorCode, erase_idx,
}
use cpp_unix_domain_stream.Options.{normalize_scheduling_interval}
use cpp_unix_domain_stream.Credentials.{PeerCredentials}
use cpp_unix_domain_stream.NotificationScope.{Token, deliver}
use cpp_unix_domain_stream.Server.Attempts.{starts, retries}
use cpp_unix_domain_stream.Server.State.{Server, Slot, Probe, Task, IoTask}
use cpp_unix_domain_stream.Server.Acceptor.{
  BindResults, bind, on_accept, handle_accepted_socket, accept, close_acceptor, schedule_bind_retry,
}
use cpp_unix_domain_stream.Server.Peers.{
  on_request_timer, close_peer, close_all_peers, send_on_io, respond_on_io, send_request,
  response_received_on_io, error_on_io, closed_on_io, peer_slot, enqueue_peer_closed,
  notify_peer_closed,
}
use cpp_unix_domain_stream.Server.HealthCheck.{
  on_probe_timer, on_probe_connect, probe_slot, health_check_on_io, health_check_done_on_io,
  close_socket_path_health_check_peer, start_socket_path_health_check_timer,
  socket_path_health_check,
}
use cpp_unix_domain_stream.Server.Tasks.{
  run_task, run_notice, run_io, stop, stop_on_io, shutdown_on_io, disconnect_peers,
  disconnect_health_check_peer, async_shutdown, on_bind_retry, if_exposed,
}
use cpp_unix_domain_stream.Peer.State.{Signal}
use cpp_unix_domain_stream.Server.Events.{Event, step, run}
use cpp_unix_domain_stream.Server.Reports.{
  is_failure, is_failing, is_bind, failures, one, disconnect_peers-failures,
  close_acceptor-failures, close_all_peers-failures, close_health_check-failures,
  disconnect_health_check-failures, failed_health_check-failures, bind_on_io-failures,
}

on_accept-failures :
    (token : Token) (e : ErrorCode) (socket : ℕ) (credentials : PeerCredentials) (s : Server)
    → failures (on_accept token e socket credentials s) ≤ failures s
unfolding on_accept handle_accepted_socket accept
on_accept-failures token e socket credentials s = grind (
  arith,
  count-append is_failure,
  count-append is_failing,
  count-append is_bind,
  close_acceptor-failures,
)

health_check_on_io-failures :
    (token : Token) (e : ErrorCode) (s : Server)
    → failures (health_check_on_io token e s) ≤ failures s
unfolding health_check_on_io
health_check_on_io-failures token e s = grind (
  arith,
  count-append is_failure,
  count-append is_failing,
  count-append is_bind,
  failed_health_check-failures,
)

stop_on_io-failures : (s : Server) → failures (stop_on_io s) ≤ failures s
unfolding stop_on_io
stop_on_io-failures s =
    let t = close_acceptor s in
    let a = close_acceptor-failures s in
    let b = close_all_peers-failures t in
    let c = close_health_check-failures (close_all_peers t) in omega arith

shutdown_on_io-failures : (s : Server) → failures (shutdown_on_io s) ≤ failures s
unfolding shutdown_on_io
shutdown_on_io-failures s =
    let t = close_acceptor s in
    let d = disconnect_peers t.peers t in
    let u = close_all_peers d in
    let v = disconnect_health_check_peer u.health_check_peer u in
    grind (
      arith,
      close_acceptor-failures s,
      disconnect_peers-failures t.peers t,
      close_all_peers-failures d,
      disconnect_health_check-failures u.health_check_peer u,
      close_health_check-failures v,
      count-append is_bind (close_socket_path_health_check_peer v).io_tasks
          (IoTask.keep_alive_io ∷ []),
    )

run_io-failures :
    (r : BindResults) (t : IoTask) (s : Server)
    → failures (run_io r t s) ≤ failures s + one (is_bind t)
unfolding run_io send_on_io respond_on_io send_request response_received_on_io error_on_io
    closed_on_io health_check_done_on_io close_peer
run_io-failures r (IoTask.bind_io token) s = bind_on_io-failures token r s
run_io-failures r IoTask.stop_io s = omega (arith, stop_on_io-failures s)
run_io-failures r IoTask.shutdown_io s = omega (arith, shutdown_on_io-failures s)
run_io-failures r (IoTask.health_check_io token) s =
    omega (arith, health_check_on_io-failures token r.endpoint_error s)
run_io-failures r (IoTask.health_check_done_io timeout token) s =
    ground (arith, close_health_check-failures s)
run_io-failures r (IoTask.health_check_failed_io e timeout token) s =
    omega (arith, failed_health_check-failures token timeout s)
run_io-failures r _ s =
    grind (arith, count-append is_failure, count-append is_failing, count-append is_bind)

run_task-failures :
    (verify_peer : PeerCredentials → Bool) (t : Task) (s : Server)
    → failures (run_task verify_peer t s) ≤ failures s + one (is_failing t)
unfolding run_task run_notice deliver bind stop if_exposed notify_peer_closed schedule_bind_retry
    start_socket_path_health_check_timer normalize_scheduling_interval
run_task-failures verify_peer t s =
    grind (arith, count-append is_failure, count-append is_failing, count-append is_bind)

timer-failures :
    (id peer_id : ℕ) (e : ErrorCode) (s : Server)
    → failures (on_request_timer id peer_id e s) ≤ failures s
unfolding on_request_timer close_peer
timer-failures id peer_id e s =
    grind (arith, count-append is_failure, count-append is_failing, count-append is_bind)

probe_timer-failures :
    (k : Probe) (e : ErrorCode) (s : Server) → failures (on_probe_timer k e s) ≤ failures s
unfolding on_probe_timer
probe_timer-failures k e s = grind (
  arith,
  count-append is_failure,
  count-append is_failing,
  count-append is_bind,
  failed_health_check-failures,
)

probe_connect-failures :
    (k : Probe) (e : ErrorCode) (s : Server) → failures (on_probe_connect k e s) ≤ failures s
unfolding on_probe_connect
probe_connect-failures k e s = grind (
  arith,
  count-append is_failure,
  count-append is_failing,
  count-append is_bind,
  failed_health_check-failures,
)

shutdown-failures : (s : Server) → failures (async_shutdown s) ≤ failures s
unfolding async_shutdown
shutdown-failures s =
    grind (arith, count-append is_failure, count-append is_failing, count-append is_bind)

peer_slot-failures :
    (k : Slot) (signal : Signal) (s : Server) → failures (peer_slot k signal s) ≤ failures s
unfolding peer_slot enqueue_peer_closed
peer_slot-failures k signal s =
    grind (arith, count-append is_failure, count-append is_failing, count-append is_bind)

probe_slot-failures :
    (k : Probe) (signal : Signal) (s : Server) → failures (probe_slot k signal s) ≤ failures s
unfolding probe_slot
probe_slot-failures k signal s =
    grind (arith, count-append is_failure, count-append is_failing, count-append is_bind)

step-failures :
    (verify_peer : PeerCredentials → Bool) (s : Server) (e : Event)
    → failures (step verify_peer s e) ≤ failures s + (one (starts e) + one (retries e))
unfolding step
step-failures verify_peer s (Event.io_runs i r) = elim (Option-cases (get_elem? s.io_tasks i)) [
  | inl h ↦ rw (h, step) (omega arith)
  | inr (t, h) ↦
      rw (h, step)
        (ground (
          arith,
          run_io-failures r t (record s { io_tasks = erase_idx s.io_tasks i }),
          count-erase_idx is_bind s.io_tasks i t h,
        ))
]
step-failures verify_peer s (Event.task_runs i) = elim (Option-cases (get_elem? s.tasks i)) [
  | inl h ↦ rw (h, step) (omega arith)
  | inr (t, h) ↦
      rw (h, step)
        (ground (
          arith,
          run_task-failures verify_peer t (record s { tasks = erase_idx s.tasks i }),
          count-erase_idx is_failing s.tasks i t h,
        ))
]
step-failures verify_peer s (Event.accept_completes i e socket credentials) =
    elim (Option-cases (get_elem? s.accepts i)) [
      | inl h ↦ rw (h, step) (omega arith)
      | inr (token, h) ↦
          rw (h, step)
            (ground (
              arith,
              on_accept-failures token e socket credentials
                  (record s { accepts = erase_idx s.accepts i }),
            ))
    ]
step-failures verify_peer s (Event.peer_emits i signal) =
    elim (Option-cases (get_elem? s.slots i)) [
      | inl h ↦ rw (h, step) (omega arith)
      | inr (k, h) ↦ rw (h, step) (ground (arith, peer_slot-failures k signal s))
    ]
step-failures verify_peer s (Event.close_completes i) =
    elim (Option-cases (get_elem? s.closings i)) [
      | inl h ↦ rw (h, step) (omega arith)
      | inr (id, h) ↦
          rw (h, step)
            (unfold enqueue_peer_closed in
              grind (arith, count-append is_failure, count-append is_failing, count-append is_bind))
    ]
step-failures verify_peer s (Event.timer_fires i e) = elim (Option-cases (get_elem? s.timers i)) [
  | inl h ↦ rw (h, step) (omega arith)
  | inr ((id, peer_id), h) ↦
      rw (h, step)
        (ground (arith, timer-failures id peer_id e (record s { timers = erase_idx s.timers i })))
]
step-failures verify_peer s (Event.probe_timer_fires i e) =
    elim (Option-cases (get_elem? s.probe_timers i)) [
      | inl h ↦ rw (h, step) (omega arith)
      | inr (k, h) ↦
          rw (h, step)
            (ground (
              arith,
              probe_timer-failures k e (record s { probe_timers = erase_idx s.probe_timers i }),
            ))
    ]
step-failures verify_peer s (Event.probe_connects_done i e) =
    elim (Option-cases (get_elem? s.probe_connects i)) [
      | inl h ↦ rw (h, step) (omega arith)
      | inr (k, h) ↦
          rw (h, step)
            (ground (
              arith,
              probe_connect-failures k e
                  (record s { probe_connects = erase_idx s.probe_connects i }),
            ))
    ]
step-failures verify_peer s (Event.probe_emits i signal) =
    elim (Option-cases (get_elem? s.probe_slots i)) [
      | inl h ↦ rw (h, step) (omega arith)
      | inr (k, h) ↦ rw (h, step) (ground (arith, probe_slot-failures k signal s))
    ]
step-failures verify_peer s Event.async_shuts_down = ground (arith, shutdown-failures s)
step-failures verify_peer s Event.bind_retry_fires =
    unfold on_bind_retry bind in
    grind (arith, count-append is_failure, count-append is_failing, count-append is_bind)
step-failures verify_peer s Event.health_check_fires =
    unfold socket_path_health_check in
    grind (arith, count-append is_failure, count-append is_failing, count-append is_bind)
step-failures verify_peer s e =
    grind (arith, count-append is_failure, count-append is_failing, count-append is_bind)

pub run-failures :
    (verify_peer : PeerCredentials → Bool) (s : Server) (es : List Event)
    → failures (run verify_peer s es) ≤ failures s + (count starts es + count retries es)
unfolding run
run-failures verify_peer s [] = omega arith
run-failures verify_peer s (e ∷ es) =
    ground
      (arith, step-failures verify_peer s e, run-failures verify_peer (step verify_peer s e) es)
