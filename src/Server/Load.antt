-- ===== src/Server/Load.antt =====
-- server.hpp: what makes a server try to bind.
use cpp_unix_domain_stream.Prelude.{
  ℕ, ◌+◌, inl, inr, get_elem?, Option-cases, count-erase_idx, ◌≤◌, Bool, List, [], ◌∷◌, count,
  count-append, arith, ErrorCode, erase_idx,
}
use cpp_unix_domain_stream.Options.{normalize_scheduling_interval}
use cpp_unix_domain_stream.Credentials.{PeerCredentials}
use cpp_unix_domain_stream.NotificationScope.{Token, deliver}
use cpp_unix_domain_stream.Server.State.{Server, Slot, Probe, Task, IoTask}
use cpp_unix_domain_stream.Server.Acceptor.{
  BindResults, bind, on_accept, handle_accepted_socket, accept, close_acceptor, schedule_bind_retry,
}
use cpp_unix_domain_stream.Server.Peers.{
  on_request_timer, close_peer, close_all_peers, send_on_io, respond_on_io, send_request,
  response_received_on_io, error_on_io, closed_on_io, peer_slot, enqueue_peer_closed,
  notify_peer_closed,
}
use cpp_unix_domain_stream.Server.HealthCheck.{
  on_probe_timer, on_probe_connect, probe_slot, health_check_on_io, health_check_done_on_io,
  close_socket_path_health_check_peer, start_socket_path_health_check_timer,
  socket_path_health_check,
}
use cpp_unix_domain_stream.Server.Tasks.{
  run_task, run_notice, run_io, stop, stop_on_io, shutdown_on_io, disconnect_peers,
  disconnect_health_check_peer, async_shutdown, on_bind_retry, if_exposed,
}
use cpp_unix_domain_stream.Peer.State.{Signal}
use cpp_unix_domain_stream.Server.Events.{Event, step, run}
use cpp_unix_domain_stream.Server.Attempts.{
  is_attempt, is_bind, is_start, starts, retries, load, one, disconnect_peers-load,
  close_acceptor-load, close_all_peers-load, close_health_check-load, disconnect_health_check-load,
  failed_health_check-load, bind_on_io-load,
}

on_accept-load :
    (token : Token) (e : ErrorCode) (socket : ℕ) (credentials : PeerCredentials) (s : Server)
    → load (on_accept token e socket credentials s) ≤ load s
unfolding on_accept handle_accepted_socket accept
on_accept-load token e socket credentials s = grind (
  arith,
  count-append is_attempt,
  count-append is_bind,
  count-append is_start,
  close_acceptor-load,
)

health_check_on_io-load :
    (token : Token) (e : ErrorCode) (s : Server) → load (health_check_on_io token e s) ≤ load s
unfolding health_check_on_io
health_check_on_io-load token e s = grind (
  arith,
  count-append is_attempt,
  count-append is_bind,
  count-append is_start,
  failed_health_check-load,
)

stop_on_io-load : (s : Server) → load (stop_on_io s) ≤ load s
unfolding stop_on_io
stop_on_io-load s =
    let t = close_acceptor s in
    let a = close_acceptor-load s in
    let b = close_all_peers-load t in
    let c = close_health_check-load (close_all_peers t) in omega arith

shutdown_on_io-load : (s : Server) → load (shutdown_on_io s) ≤ load s
unfolding shutdown_on_io
shutdown_on_io-load s =
    let t = close_acceptor s in
    let d = disconnect_peers t.peers t in
    let u = close_all_peers d in
    let v = disconnect_health_check_peer u.health_check_peer u in
    grind (
      arith,
      close_acceptor-load s,
      disconnect_peers-load t.peers t,
      close_all_peers-load d,
      disconnect_health_check-load u.health_check_peer u,
      close_health_check-load v,
      count-append is_bind (close_socket_path_health_check_peer v).io_tasks
          (IoTask.keep_alive_io ∷ []),
    )

run_io-load :
    (r : BindResults) (t : IoTask) (s : Server) → load (run_io r t s) ≤ load s + one (is_bind t)
unfolding run_io send_on_io respond_on_io send_request response_received_on_io error_on_io
    closed_on_io health_check_done_on_io close_peer
run_io-load r (IoTask.bind_io token) s = bind_on_io-load token r s
run_io-load r IoTask.stop_io s = omega (arith, stop_on_io-load s)
run_io-load r IoTask.shutdown_io s = omega (arith, shutdown_on_io-load s)
run_io-load r (IoTask.health_check_io token) s =
    omega (arith, health_check_on_io-load token r.endpoint_error s)
run_io-load r (IoTask.health_check_done_io timeout token) s =
    ground (arith, close_health_check-load s)
run_io-load r (IoTask.health_check_failed_io e timeout token) s =
    omega (arith, failed_health_check-load token timeout s)
run_io-load r _ s =
    grind (arith, count-append is_attempt, count-append is_bind, count-append is_start)

run_task-load :
    (verify_peer : PeerCredentials → Bool) (t : Task) (s : Server)
    → load (run_task verify_peer t s) ≤ load s + one (is_start t)
unfolding run_task run_notice deliver bind stop if_exposed notify_peer_closed schedule_bind_retry
    start_socket_path_health_check_timer normalize_scheduling_interval
run_task-load verify_peer t s =
    grind (arith, count-append is_attempt, count-append is_bind, count-append is_start)

timer-load :
    (id peer_id : ℕ) (e : ErrorCode) (s : Server) → load (on_request_timer id peer_id e s) ≤ load s
unfolding on_request_timer close_peer
timer-load id peer_id e s =
    grind (arith, count-append is_attempt, count-append is_bind, count-append is_start)

probe_timer-load : (k : Probe) (e : ErrorCode) (s : Server) → load (on_probe_timer k e s) ≤ load s
unfolding on_probe_timer
probe_timer-load k e s = grind (
  arith,
  count-append is_attempt,
  count-append is_bind,
  count-append is_start,
  failed_health_check-load,
)

probe_connect-load :
    (k : Probe) (e : ErrorCode) (s : Server) → load (on_probe_connect k e s) ≤ load s
unfolding on_probe_connect
probe_connect-load k e s = grind (
  arith,
  count-append is_attempt,
  count-append is_bind,
  count-append is_start,
  failed_health_check-load,
)

shutdown-load : (s : Server) → load (async_shutdown s) ≤ load s
unfolding async_shutdown
shutdown-load s =
    grind (arith, count-append is_attempt, count-append is_bind, count-append is_start)

peer_slot-load : (k : Slot) (signal : Signal) (s : Server) → load (peer_slot k signal s) ≤ load s
unfolding peer_slot enqueue_peer_closed
peer_slot-load k signal s = grind (arith, count-append is_bind, count-append is_start)

probe_slot-load : (k : Probe) (signal : Signal) (s : Server) → load (probe_slot k signal s) ≤ load s
unfolding probe_slot
probe_slot-load k signal s = grind (arith, count-append is_bind)

step-load :
    (verify_peer : PeerCredentials → Bool) (s : Server) (e : Event)
    → load (step verify_peer s e) ≤ load s + (one (starts e) + one (retries e))
unfolding step
step-load verify_peer s (Event.io_runs i r) = elim (Option-cases (get_elem? s.io_tasks i)) [
  | inl h ↦ rw (h, step) (omega arith)
  | inr (t, h) ↦
      rw (h, step)
        (ground (
          arith,
          run_io-load r t (record s { io_tasks = erase_idx s.io_tasks i }),
          count-erase_idx is_bind s.io_tasks i t h,
        ))
]
step-load verify_peer s (Event.task_runs i) = elim (Option-cases (get_elem? s.tasks i)) [
  | inl h ↦ rw (h, step) (omega arith)
  | inr (t, h) ↦
      rw (h, step)
        (ground (
          arith,
          run_task-load verify_peer t (record s { tasks = erase_idx s.tasks i }),
          count-erase_idx is_start s.tasks i t h,
        ))
]
step-load verify_peer s (Event.accept_completes i e socket credentials) =
    elim (Option-cases (get_elem? s.accepts i)) [
      | inl h ↦ rw (h, step) (omega arith)
      | inr (token, h) ↦
          rw (h, step)
            (ground (
              arith,
              on_accept-load token e socket credentials
                  (record s { accepts = erase_idx s.accepts i }),
            ))
    ]
step-load verify_peer s (Event.peer_emits i signal) = elim (Option-cases (get_elem? s.slots i)) [
  | inl h ↦ rw (h, step) (omega arith)
  | inr (k, h) ↦ rw (h, step) (ground (arith, peer_slot-load k signal s))
]
step-load verify_peer s (Event.close_completes i) = elim (Option-cases (get_elem? s.closings i)) [
  | inl h ↦ rw (h, step) (omega arith)
  | inr (id, h) ↦ rw (h, step) (unfold enqueue_peer_closed in grind (arith, count-append is_start))
]
step-load verify_peer s (Event.timer_fires i e) = elim (Option-cases (get_elem? s.timers i)) [
  | inl h ↦ rw (h, step) (omega arith)
  | inr ((id, peer_id), h) ↦
      rw (h, step)
        (ground (arith, timer-load id peer_id e (record s { timers = erase_idx s.timers i })))
]
step-load verify_peer s (Event.probe_timer_fires i e) =
    elim (Option-cases (get_elem? s.probe_timers i)) [
      | inl h ↦ rw (h, step) (omega arith)
      | inr (k, h) ↦
          rw (h, step)
            (ground (
              arith,
              probe_timer-load k e (record s { probe_timers = erase_idx s.probe_timers i }),
            ))
    ]
step-load verify_peer s (Event.probe_connects_done i e) =
    elim (Option-cases (get_elem? s.probe_connects i)) [
      | inl h ↦ rw (h, step) (omega arith)
      | inr (k, h) ↦
          rw (h, step)
            (ground (
              arith,
              probe_connect-load k e (record s { probe_connects = erase_idx s.probe_connects i }),
            ))
    ]
step-load verify_peer s (Event.probe_emits i signal) =
    elim (Option-cases (get_elem? s.probe_slots i)) [
      | inl h ↦ rw (h, step) (omega arith)
      | inr (k, h) ↦ rw (h, step) (ground (arith, probe_slot-load k signal s))
    ]
step-load verify_peer s Event.async_shuts_down = ground (arith, shutdown-load s)
step-load verify_peer s Event.bind_retry_fires =
    unfold on_bind_retry bind in grind (arith, count-append is_bind)
step-load verify_peer s Event.health_check_fires =
    unfold socket_path_health_check in grind (arith, count-append is_bind)
step-load verify_peer s e = grind (arith, count-append is_bind, count-append is_start)

-- The attempts of a run are no more than the calls of `async_start` and the runs of the bind retry
-- task's function in it.
pub run-load :
    (verify_peer : PeerCredentials → Bool) (s : Server) (es : List Event)
    → load (run verify_peer s es) ≤ load s + (count starts es + count retries es)
unfolding run
run-load verify_peer s [] = omega arith
run-load verify_peer s (e ∷ es) =
    ground (arith, step-load verify_peer s e, run-load verify_peer (step verify_peer s e) es)
