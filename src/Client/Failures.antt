-- ===== src/Client/Failures.antt =====
-- client.hpp: what makes a client report that it failed to connect.
use cpp_unix_domain_stream.Prelude.{
  ℕ, ◌+◌, ◌≤◌, Bool, true, false, List, [], ◌∷◌, inl, inr, count, count-append, count-erase_idx,
  arith, ErrorCode, get_elem?, erase_idx, Option-cases, if◌then◌else◌,
}
use cpp_unix_domain_stream.Peer.State.{Signal}
use cpp_unix_domain_stream.Credentials.{PeerCredentials}
use cpp_unix_domain_stream.NotificationScope.{Token, deliver}
use cpp_unix_domain_stream.Client.State.{
  Client, Task, start_task, scoped, notify_connect_failed, ClientSignal, connect_failed, IoTask,
  connect_io,
}
use cpp_unix_domain_stream.Client.Connection.{
  connect_on_io, on_connect, on_reconnect, close_connecting_socket, close_peer, stop_on_io,
  invalidate_on_io, connect, stop, invalidate_connection, schedule_reconnect,
  handle_connected_socket,
}
use cpp_unix_domain_stream.Client.Requests.{
  send_request, on_request_timeout, on_request_timer, send_on_io, respond_on_io, received_on_io,
  request_received_on_io, response_received_on_io, error_on_io, closed_on_io, connected_on_io,
}
use cpp_unix_domain_stream.Client.Tasks.{
  run_task, run_notice, run_io, shutdown_on_io, disconnect_peer, async_shutdown,
}
use cpp_unix_domain_stream.Client.Load.{starts, reconnects}
use cpp_unix_domain_stream.Client.Events.{
  Event, step, run, peer_slot, async_shuts_down, io_runs, task_runs, connect_completes, peer_emits,
  timer_fires, reconnect_fires,
}

abbrev pub is_failure : ClientSignal → Bool
is_failure (connect_failed e) = true
is_failure _ = false

abbrev is_failing : Task → Bool
is_failing start_task = true
is_failing (scoped token (notify_connect_failed e)) = true
is_failing _ = false

abbrev is_connect : IoTask → Bool
is_connect (connect_io token) = true
is_connect _ = false

abbrev is_pending : ℕ × Token → Bool
is_pending (socket, token) = true

-- The failures reported, and the attempts under way or not reported yet.
abbrev pub failures : Client → ℕ
failures c =
    count is_failure c.signals
    + (count is_failing c.tasks + (count is_connect c.io_tasks + count is_pending c.connects))

abbrev one : Bool → ℕ
one b = if b then 1 else 0

run_io-failures :
    (e : ErrorCode) (t : IoTask) (c : Client)
    → failures (run_io e t c) ≤ failures c + one (is_connect t)
unfolding run_io stop_on_io shutdown_on_io invalidate_on_io disconnect_peer connect_on_io send_on_io
    respond_on_io send_request handle_connected_socket received_on_io request_received_on_io
    response_received_on_io error_on_io closed_on_io connected_on_io close_peer
    close_connecting_socket
run_io-failures e t c = grind (
  arith,
  count-append is_failure,
  count-append is_failing,
  count-append is_connect,
  count-append is_pending,
)

run_task-failures :
    (verify_peer : PeerCredentials → Bool) (t : Task) (c : Client)
    → failures (run_task verify_peer t c) ≤ failures c + one (is_failing t)
unfolding run_task run_notice deliver connect stop invalidate_connection schedule_reconnect
run_task-failures verify_peer t c = grind (
  arith,
  count-append is_failure,
  count-append is_failing,
  count-append is_connect,
  count-append is_pending,
)

on_connect-failures :
    (socket : ℕ) (token : Token) (e : ErrorCode) (credentials : PeerCredentials) (c : Client)
    → failures (on_connect socket token e credentials c) ≤ failures c + 1
unfolding on_connect
on_connect-failures socket token e credentials c = grind (
  arith,
  count-append is_failure,
  count-append is_failing,
  count-append is_connect,
  count-append is_pending,
)

timer-failures :
    (id : ℕ) (token : Token) (e : ErrorCode) (c : Client)
    → failures (on_request_timer id token e c) ≤ failures c
unfolding on_request_timer on_request_timeout close_peer
timer-failures id token e c = grind (
  arith,
  count-append is_failure,
  count-append is_failing,
  count-append is_connect,
  count-append is_pending,
)

shutdown-failures : (c : Client) → failures (async_shutdown c) ≤ failures c
unfolding async_shutdown
shutdown-failures c = grind (
  arith,
  count-append is_failure,
  count-append is_failing,
  count-append is_connect,
  count-append is_pending,
)

peer_slot-failures :
    (p : ℕ) (token : Token) (s : Signal) (c : Client)
    → failures (peer_slot p token s c) ≤ failures c
unfolding peer_slot
peer_slot-failures p token s c = grind (
  arith,
  count-append is_failure,
  count-append is_failing,
  count-append is_connect,
  count-append is_pending,
)

step-failures :
    (verify_peer : PeerCredentials → Bool) (c : Client) (e : Event)
    → failures (step verify_peer c e) ≤ failures c + (one (starts e) + one (reconnects e))
unfolding step
step-failures verify_peer c (io_runs i e) = elim (Option-cases (get_elem? c.io_tasks i)) [
  | inl h ↦ rw (h, step) (omega arith)
  | inr (t, h) ↦
      rw (h, step)
        (ground (
          arith,
          run_io-failures e t (record c { io_tasks = erase_idx c.io_tasks i }),
          count-erase_idx is_connect c.io_tasks i t h,
        ))
]
step-failures verify_peer c (task_runs i) = elim (Option-cases (get_elem? c.tasks i)) [
  | inl h ↦ rw (h, step) (omega arith)
  | inr (t, h) ↦
      rw (h, step)
        (ground (
          arith,
          run_task-failures verify_peer t (record c { tasks = erase_idx c.tasks i }),
          count-erase_idx is_failing c.tasks i t h,
        ))
]
step-failures verify_peer c (connect_completes i e credentials) =
    elim (Option-cases (get_elem? c.connects i)) [
      | inl h ↦ rw (h, step) (omega arith)
      | inr ((socket, token), h) ↦
          rw (h, step)
            (ground (
              arith,
              on_connect-failures socket token e credentials
                  (record c { connects = erase_idx c.connects i }),
              count-erase_idx is_pending c.connects i (socket, token) h,
            ))
    ]
step-failures verify_peer c (peer_emits i signal) = elim (Option-cases (get_elem? c.slots i)) [
  | inl h ↦ rw (h, step) (omega arith)
  | inr ((p, token), h) ↦ rw (h, step) (ground (arith, peer_slot-failures p token signal c))
]
step-failures verify_peer c (timer_fires i e) = elim (Option-cases (get_elem? c.timers i)) [
  | inl h ↦ rw (h, step) (omega arith)
  | inr ((id, token), h) ↦
      rw (h, step)
        (ground (arith, timer-failures id token e (record c { timers = erase_idx c.timers i })))
]
step-failures verify_peer c async_shuts_down = ground (arith, shutdown-failures c)
step-failures verify_peer c reconnect_fires =
    unfold on_reconnect connect in
    grind (
      arith,
      count-append is_failure,
      count-append is_failing,
      count-append is_connect,
      count-append is_pending,
    )
step-failures verify_peer c e = grind (
  arith,
  count-append is_failure,
  count-append is_failing,
  count-append is_connect,
  count-append is_pending,
)

pub run-failures :
    (verify_peer : PeerCredentials → Bool) (c : Client) (es : List Event)
    → failures (run verify_peer c es) ≤ failures c + (count starts es + count reconnects es)
unfolding run
run-failures verify_peer c [] = omega arith
run-failures verify_peer c (e ∷ es) =
    ground
      (arith, step-failures verify_peer c e, run-failures verify_peer (step verify_peer c e) es)
