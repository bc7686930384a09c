-- ===== src/Tests/Client.antt =====
-- client.hpp on a concrete history.
use cpp_unix_domain_stream.Prelude.{
  ℕ, ◌+◌, ◌*◌, ◌≤◌, true, none, count, ◌⊎◌, ◌≡◌, refl, List, [], ◌∷◌, some, success, eof,
}
use cpp_unix_domain_stream.Options.{
  ClientOptions, normalize_scheduling_interval, client_options, default_common_parameters,
}
use cpp_unix_domain_stream.Credentials.{PeerCredentials, default_verify_peer}
use cpp_unix_domain_stream.NotificationScope
use cpp_unix_domain_stream.NotificationScope.{is_current, deliver, capture, initial_scope}
use cpp_unix_domain_stream.RequestManager.{
  initial_manager, complete_all, complete_all_loop, add, emplace, find,
}
use cpp_unix_domain_stream.Peer.State
use cpp_unix_domain_stream.Client.State.{
  Client, connected, received, error_occurred, closed, new_client,
}
use cpp_unix_domain_stream.Client.Connection.{
  connect, connect_on_io, on_connect, handle_connected_socket, schedule_reconnect, stop, stop_on_io,
  on_reconnect,
}
use cpp_unix_domain_stream.Client.Requests.{
  received_on_io, connected_on_io, error_on_io, closed_on_io, send_request,
}
use cpp_unix_domain_stream.Client.Tasks.{run_task, run_io, run_notice}
use cpp_unix_domain_stream.Client.Events.{
  Event, run, step, peer_slot, async_start, async_request, io_runs, task_runs, connect_completes,
  peer_emits, timer_fires, reconnect_fires,
}
use cpp_unix_domain_stream.Client.Session.{IsSession}
use cpp_unix_domain_stream.Client.History.{client-IsSession}
use cpp_unix_domain_stream.Client.Facade.{make_client, destroy_client}
use cpp_unix_domain_stream.Client.Tasks.{shutdown_on_io}
use cpp_unix_domain_stream.Client.Shutdown.{client_shutdown}
use cpp_unix_domain_stream.Client.Release.{Kept, Announced, client_release}
use cpp_unix_domain_stream.Client.Pace.{is_timed, client_pace}
use cpp_unix_domain_stream.Client.Failures.{is_failure, failures}
use cpp_unix_domain_stream.Client.Load.{is_attempt, starts, load}
use cpp_unix_domain_stream.Debounce.{events, elapsed}
use cpp_unix_domain_stream.Client.Stop.{IsStopped, Ignores, client_stop}

abbrev process : PeerCredentials
process = record { pid = some 100; uid = some 501; gid = some 20 }

-- The client connects, sends a request and receives a byte.
abbrev one_message : List Event
one_message =
    async_start
    ∷ task_runs 0
    ∷ io_runs 0 success
    ∷ connect_completes 0 success process
    ∷ task_runs 0
    ∷ io_runs 0 success
    ∷ io_runs 0 success
    ∷ async_request (3 ∷ []) 500 40
    ∷ io_runs 0 success
    ∷ peer_emits 0 (State.received (7 ∷ []))
    ∷ io_runs 0 success
    ∷ task_runs 0
    ∷ task_runs 0
    ∷ []

-- Then the connection ends.
abbrev one_session : List Event
one_session =
    async_start
    ∷ task_runs 0
    ∷ io_runs 0 success
    ∷ connect_completes 0 success process
    ∷ task_runs 0
    ∷ io_runs 0 success
    ∷ io_runs 0 success
    ∷ task_runs 0
    ∷ peer_emits 0 (State.received (7 ∷ []))
    ∷ peer_emits 0 (State.error_occurred eof)
    ∷ peer_emits 0 State.closed
    ∷ io_runs 0 success
    ∷ io_runs 0 success
    ∷ io_runs 0 success
    ∷ task_runs 0
    ∷ task_runs 0
    ∷ task_runs 0
    ∷ []

one_session_signals :
    (run default_verify_peer
      (new_client (client_options default_common_parameters))
      one_session).signals
    ≡ connected process ∷ received (7 ∷ []) ∷ error_occurred eof ∷ closed ∷ []
unfolding run step new_client run_task connect run_io connect_on_io is_current
    NotificationScope.start on_connect deliver run_notice handle_connected_socket connected_on_io
    peer_slot received_on_io error_on_io closed_on_io complete_all complete_all_loop
    schedule_reconnect normalize_scheduling_interval initial_scope initial_manager capture
one_session_signals = refl

client-IsSession_example :
    IsSession
      (run default_verify_peer (new_client (client_options default_common_parameters)) one_session)
client-IsSession_example =
    client-IsSession default_verify_peer (client_options default_common_parameters) one_session

-- The client that has a peer and a pending request.
abbrev busy : Client
busy = run default_verify_peer (new_client (client_options default_common_parameters)) one_message

client_stop_example : let d = stop_on_io (stop busy) in IsStopped d × Ignores d
client_stop_example =
    client_stop busy
      (client-IsSession default_verify_peer (client_options default_common_parameters) one_message)

busy_peer : busy.peer ≡ some 1
unfolding run step new_client run_task connect run_io connect_on_io is_current
    NotificationScope.start on_connect deliver run_notice handle_connected_socket connected_on_io
    peer_slot received_on_io send_request add emplace find complete_all complete_all_loop
    normalize_scheduling_interval initial_scope initial_manager capture
busy_peer = refl

-- The request's timer expires.
client_release_example :
    Kept 1 busy (step default_verify_peer busy (timer_fires 0 success))
    ⊎ Announced 1 busy (timer_fires 0 success)
client_release_example =
    client_release default_verify_peer (client_options default_common_parameters) one_message
      (timer_fires 0 success) 1 busy_peer

-- A second answer comes after the destruction, and the peer closes after the shutdown has run.
abbrev late_message : List Event
late_message = peer_emits 0 (State.received (9 ∷ [])) ∷ io_runs 0 success ∷ task_runs 0 ∷ []

abbrev late_close : List Event
late_close = peer_emits 0 State.closed ∷ io_runs 0 success ∷ task_runs 0 ∷ async_start ∷ []

client_shutdown_example :
    let c =
      run default_verify_peer
        (make_client (client_options default_common_parameters)).state
        one_message in
    let d = run default_verify_peer (destroy_client (record { state = c })) late_message in
    let e = run default_verify_peer (shutdown_on_io d) late_close in
    (d.signals ≡ c.signals) × (e.signals ≡ c.signals) × IsStopped e
client_shutdown_example =
    client_shutdown default_verify_peer (client_options default_common_parameters) one_message
      late_message late_close

-- Reconnects as fast as possible.
abbrev eager_options : ClientOptions
eager_options = record (client_options default_common_parameters) { reconnect_interval = 0 }

-- The server is away: the first attempt fails, and 100 ms later the client tries again.
abbrev two_attempts : List (ℕ × Event)
two_attempts =
    (0, async_start)
    ∷ (1, task_runs 0)
    ∷ (1, io_runs 0 success)
    ∷ (2, connect_completes 0 eof process)
    ∷ (0, task_runs 0)
    ∷ (100, reconnect_fires)
    ∷ (3, io_runs 0 success)
    ∷ []

two_attempts-is_timed :
    is_timed default_verify_peer (new_client eager_options) 0 none two_attempts ≡ true
unfolding step new_client run_task connect run_io connect_on_io is_current NotificationScope.start
    on_connect deliver run_notice schedule_reconnect normalize_scheduling_interval on_reconnect
    initial_scope capture
two_attempts-is_timed = refl

two_attempts_calls :
    count is_attempt
      (run default_verify_peer (new_client eager_options) (events two_attempts)).calls
    ≡ 2
unfolding run step new_client run_task connect run_io connect_on_io is_current
    NotificationScope.start on_connect deliver run_notice schedule_reconnect
    normalize_scheduling_interval on_reconnect initial_scope capture
two_attempts_calls = refl

client_pace_example :
    let c = run default_verify_peer (new_client eager_options) [] in
    let d = run default_verify_peer c (events two_attempts) in
    (100 * count is_attempt d.calls
      ≤ 100 * (load c + count starts (events two_attempts) + 1) + elapsed two_attempts)
    × (100 * count is_failure d.signals
        ≤ 100 * (failures c + count starts (events two_attempts) + 1) + elapsed two_attempts)
client_pace_example =
    client_pace default_verify_peer eager_options [] 0 none two_attempts
      (unfold run in two_attempts-is_timed)
