-- ===== src/Client/Load.antt =====
-- client.hpp: what makes a client try to connect.
use cpp_unix_domain_stream.Prelude.{
  ℕ, ◌+◌, ◌≤◌, Bool, true, false, List, [], ◌∷◌, inl, inr, count, count-append, count-erase_idx,
  arith, ErrorCode, get_elem?, erase_idx, Option-cases, if◌then◌else◌,
}
use cpp_unix_domain_stream.Peer.State.{Signal}
use cpp_unix_domain_stream.Credentials.{PeerCredentials}
use cpp_unix_domain_stream.NotificationScope.{Token, deliver}
use cpp_unix_domain_stream.Client.State.{
  Client, Task, start_task, IoTask, connect_io, Call, socket_connect,
}
use cpp_unix_domain_stream.Client.Connection.{
  connect_on_io, on_connect, on_reconnect, close_connecting_socket, close_peer, stop_on_io,
  invalidate_on_io, connect, stop, invalidate_connection, schedule_reconnect,
  handle_connected_socket,
}
use cpp_unix_domain_stream.Client.Requests.{
  send_request, on_request_timeout, on_request_timer, send_on_io, respond_on_io, received_on_io,
  request_received_on_io, response_received_on_io, error_on_io, closed_on_io, connected_on_io,
}
use cpp_unix_domain_stream.Client.Tasks.{
  run_task, run_notice, run_io, shutdown_on_io, disconnect_peer, async_shutdown,
}
use cpp_unix_domain_stream.Client.Events.{
  Event, step, run, peer_slot, async_start, async_shuts_down, io_runs, task_runs, connect_completes,
  peer_emits, timer_fires, reconnect_fires,
}

abbrev pub is_attempt : Call → Bool
is_attempt (socket_connect socket) = true
is_attempt _ = false

abbrev is_connect : IoTask → Bool
is_connect (connect_io token) = true
is_connect _ = false

abbrev is_start : Task → Bool
is_start start_task = true
is_start _ = false

-- A user's call of `async_start`.
abbrev pub starts : Event → Bool
starts async_start = true
starts _ = false

-- A run of the reconnect task's function.
abbrev pub reconnects : Event → Bool
reconnects reconnect_fires = true
reconnects _ = false

-- The attempts begun, and those under way on the I/O thread and on the dispatcher.
abbrev pub load : Client → ℕ
load c = count is_attempt c.calls + (count is_connect c.io_tasks + count is_start c.tasks)

abbrev one : Bool → ℕ
one b = if b then 1 else 0

run_io-load :
    (e : ErrorCode) (t : IoTask) (c : Client) → load (run_io e t c) ≤ load c + one (is_connect t)
unfolding run_io stop_on_io shutdown_on_io invalidate_on_io disconnect_peer connect_on_io send_on_io
    respond_on_io send_request handle_connected_socket received_on_io request_received_on_io
    response_received_on_io error_on_io closed_on_io connected_on_io close_peer
    close_connecting_socket
run_io-load e t c =
    grind (arith, count-append is_attempt, count-append is_connect, count-append is_start)

run_task-load :
    (verify_peer : PeerCredentials → Bool) (t : Task) (c : Client)
    → load (run_task verify_peer t c) ≤ load c + one (is_start t)
unfolding run_task run_notice deliver connect stop invalidate_connection schedule_reconnect
run_task-load verify_peer t c =
    grind (arith, count-append is_attempt, count-append is_connect, count-append is_start)

on_connect-load :
    (socket : ℕ) (token : Token) (e : ErrorCode) (credentials : PeerCredentials) (c : Client)
    → load (on_connect socket token e credentials c) ≤ load c
unfolding on_connect
on_connect-load socket token e credentials c =
    grind (arith, count-append is_attempt, count-append is_start)

timer-load :
    (id : ℕ) (token : Token) (e : ErrorCode) (c : Client)
    → load (on_request_timer id token e c) ≤ load c
unfolding on_request_timer on_request_timeout close_peer
timer-load id token e c = grind (arith, count-append is_attempt, count-append is_start)

shutdown-load : (c : Client) → load (async_shutdown c) ≤ load c
unfolding async_shutdown
shutdown-load c = grind (arith, count-append is_attempt, count-append is_connect)

peer_slot-load :
    (p : ℕ) (token : Token) (s : Signal) (c : Client) → load (peer_slot p token s c) ≤ load c
unfolding peer_slot
peer_slot-load p token s c = grind (arith, count-append is_connect)

step-load :
    (verify_peer : PeerCredentials → Bool) (c : Client) (e : Event)
    → load (step verify_peer c e) ≤ load c + (one (starts e) + one (reconnects e))
unfolding step
step-load verify_peer c (io_runs i e) = elim (Option-cases (get_elem? c.io_tasks i)) [
  | inl h ↦ rw (h, step) (omega arith)
  | inr (t, h) ↦
      rw (h, step)
        (ground (
          arith,
          run_io-load e t (record c { io_tasks = erase_idx c.io_tasks i }),
          count-erase_idx is_connect c.io_tasks i t h,
        ))
]
step-load verify_peer c (task_runs i) = elim (Option-cases (get_elem? c.tasks i)) [
  | inl h ↦ rw (h, step) (omega arith)
  | inr (t, h) ↦
      rw (h, step)
        (ground (
          arith,
          run_task-load verify_peer t (record c { tasks = erase_idx c.tasks i }),
          count-erase_idx is_start c.tasks i t h,
        ))
]
step-load verify_peer c (connect_completes i e credentials) =
    elim (Option-cases (get_elem? c.connects i)) [
      | inl h ↦ rw (h, step) (omega arith)
      | inr ((socket, token), h) ↦
          rw (h, step)
            (ground (
              arith,
              on_connect-load socket token e credentials
                  (record c { connects = erase_idx c.connects i }),
            ))
    ]
step-load verify_peer c (peer_emits i signal) = elim (Option-cases (get_elem? c.slots i)) [
  | inl h ↦ rw (h, step) (omega arith)
  | inr ((p, token), h) ↦ rw (h, step) (ground (arith, peer_slot-load p token signal c))
]
step-load verify_peer c (timer_fires i e) = elim (Option-cases (get_elem? c.timers i)) [
  | inl h ↦ rw (h, step) (omega arith)
  | inr ((id, token), h) ↦
      rw (h, step)
        (ground (arith, timer-load id token e (record c { timers = erase_idx c.timers i })))
]
step-load verify_peer c async_shuts_down = ground (arith, shutdown-load c)
step-load verify_peer c reconnect_fires =
    unfold on_reconnect connect in grind (arith, count-append is_connect)
step-load verify_peer c e = grind (arith, count-append is_connect, count-append is_start)

-- The attempts of a run are no more than the calls of `async_start` and the runs of the reconnect
-- task's function in it.
pub run-load :
    (verify_peer : PeerCredentials → Bool) (c : Client) (es : List Event)
    → load (run verify_peer c es) ≤ load c + (count starts es + count reconnects es)
unfolding run
run-load verify_peer c [] = omega arith
run-load verify_peer c (e ∷ es) =
    ground (arith, step-load verify_peer c e, run-load verify_peer (step verify_peer c e) es)
