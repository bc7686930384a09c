-- ===== src/Tests/Server.antt =====
-- server.hpp and impl/runtime.hpp on concrete histories.
use cpp_unix_domain_stream.Prelude.{
  ℕ, ◌+◌, ◌*◌, count, eof, false, ◌⊎◌, suc, ◌≤◌, ◌==◌, if◌then◌else◌, length, none, true, All,
  arith, ◌≡◌, refl, List, [], ◌∷◌, some, success,
}
use cpp_unix_domain_stream.Options.{
  ServerOptions, normalize_scheduling_interval, server_options, default_common_parameters,
}
use cpp_unix_domain_stream.Credentials.{PeerCredentials, default_verify_peer}
use cpp_unix_domain_stream.Peer.State
use cpp_unix_domain_stream.NotificationScope
use cpp_unix_domain_stream.NotificationScope.{is_current, deliver, capture, initial_scope}
use cpp_unix_domain_stream.RequestManager.{initial_manager, complete_peer, complete_peer_loop}
use cpp_unix_domain_stream.Runtime.{
  owner_of, remove_socket_file_path_if_owned, Runtime, erase, remove_socket_file_path,
  set_socket_file_path_owner,
}
use cpp_unix_domain_stream.Server.Acceptor
use cpp_unix_domain_stream.Server.Peers.{
  peer_slot, contains, insert_id, erase_id, enqueue_peer_closed, notify_peer_closed, closed_on_io,
}
use cpp_unix_domain_stream.Server.Tasks.{on_bind_retry, run_task, run_io, run_notice, if_exposed}
use cpp_unix_domain_stream.Server.HealthCheck.{start_socket_path_health_check_timer}
use cpp_unix_domain_stream.Server.State.{
  Server, bound, peer_connected, received, peer_closed, new_server,
}
use cpp_unix_domain_stream.Server.Acceptor.{
  BindResults, bind, bind_on_io, open_and_bind, listen, accept, on_accept, handle_accepted_socket,
  emplace, find, handle_bind_failed, release_path, schedule_bind_retry,
}
use cpp_unix_domain_stream.Server.Events.{
  Event, run, step, async_start, io_runs, task_runs, accept_completes, peer_emits, async_request,
}
use cpp_unix_domain_stream.Server.Session.{server-IsLinked}
use cpp_unix_domain_stream.Server.Links.{IsLinked}
use cpp_unix_domain_stream.Server.Tasks.{async_shutdown, stop, stop_on_io, shutdown_on_io}
use cpp_unix_domain_stream.Server.Facade.{make_server, destroy_server}
use cpp_unix_domain_stream.Server.Shutdown.{server_shutdown}
use cpp_unix_domain_stream.Server.Spared.{removals}
use cpp_unix_domain_stream.Server.Sharing.{ever_binds_at, server_sharing}
use mathlib.Core.List.{Sublist}
use cpp_unix_domain_stream.Server.Lined.{told}
use cpp_unix_domain_stream.Server.Order.{IsInTurn, emitted, server_order}
use cpp_unix_domain_stream.Server.Unmoved.{closes}
use cpp_unix_domain_stream.Server.Release.{AnnouncedIn, server_release}
use cpp_unix_domain_stream.Server.Acceptor.{next_id}
use cpp_unix_domain_stream.Server.Ids.{server_accepts}
use cpp_unix_domain_stream.Server.Peers.{send_request, close_all_peers, close_peers}
use cpp_unix_domain_stream.Server.HealthCheck.{close_socket_path_health_check_peer}
use cpp_unix_domain_stream.Server.Acceptor.{close_acceptor}
use cpp_unix_domain_stream.RequestManager
use cpp_unix_domain_stream.RequestManager.{add}
use cpp_unix_domain_stream.Server.Pace.{is_timed, server_pace}
use cpp_unix_domain_stream.Server.Reports.{is_failure, failures}
use cpp_unix_domain_stream.Server.Attempts.{is_attempt, starts, load}
use cpp_unix_domain_stream.Debounce.{events, elapsed}
use cpp_unix_domain_stream.Server.Stop.{IsStopped}
use cpp_unix_domain_stream.Server.Exposure.{IsExposure}
use cpp_unix_domain_stream.Server.History.{server-IsExposure}

abbrev no_errors : BindResults
no_errors = record {
  endpoint_error = success;
  key = 5;
  resolved = 5;
  open_error = success;
  bind_error = success;
  listen_error = success;
}

abbrev process : PeerCredentials
process = record { pid = some 100; uid = some 501; gid = some 20 }

abbrev fresh_runtime : Runtime
fresh_runtime = record { socket_file_path_owners = []; removed = [] }

-- The server binds; a peer connects, sends two bytes and leaves.
abbrev one_visit : List Event
one_visit =
    async_start
    ∷ task_runs 0
    ∷ io_runs 0 no_errors
    ∷ task_runs 0
    ∷ accept_completes 0 success 9 process
    ∷ peer_emits 0 State.ready
    ∷ peer_emits 0 (State.received (7 ∷ 8 ∷ []))
    ∷ task_runs 0
    ∷ task_runs 0
    ∷ peer_emits 0 State.closed
    ∷ io_runs 0 no_errors
    ∷ task_runs 0
    ∷ []

one_visit_signals :
    (run default_verify_peer
      (new_server 1 5 (server_options default_common_parameters) fresh_runtime)
      one_visit).signals
    ≡ bound ∷ peer_connected 1 process ∷ received 1 (7 ∷ 8 ∷ []) ∷ peer_closed 1 ∷ []
unfolding run step new_server run_task bind run_io bind_on_io is_current NotificationScope.start
    open_and_bind listen accept deliver run_notice start_socket_path_health_check_timer on_accept
    handle_accepted_socket peer_slot capture initial_scope normalize_scheduling_interval
    initial_manager erase remove_socket_file_path set_socket_file_path_owner emplace find contains
    insert_id erase_id enqueue_peer_closed notify_peer_closed if_exposed closed_on_io complete_peer
    complete_peer_loop Acceptor.erase
one_visit_signals = refl

server-IsExposure_example : IsExposure default_verify_peer 1 (
    run default_verify_peer
      (new_server 1 5 (server_options default_common_parameters) fresh_runtime)
      one_visit)
server-IsExposure_example =
    server-IsExposure default_verify_peer 1 1 5 (server_options default_common_parameters)
      fresh_runtime one_visit

-- The peer is accepted, and asked something that it has not answered.
abbrev one_request : List Event
one_request =
    async_start
    ∷ task_runs 0
    ∷ io_runs 0 no_errors
    ∷ accept_completes 0 success 9 process
    ∷ async_request 1 (7 ∷ []) 500 40
    ∷ io_runs 0 no_errors
    ∷ []

server-IsLinked_example : IsLinked (
    run default_verify_peer
      (new_server 1 5 (server_options default_common_parameters) fresh_runtime)
      one_request)
server-IsLinked_example =
    server-IsLinked default_verify_peer 1 5 (server_options default_common_parameters) fresh_runtime
      one_request

-- The server with a peer that it waits for.
abbrev busy : Server
busy =
    run default_verify_peer
      (new_server 1 5 (server_options default_common_parameters) fresh_runtime) one_request

-- The peer answers after the destruction, and closes after the shutdown has run.
abbrev late_message : List Event
late_message = peer_emits 0 (State.received (9 ∷ [])) ∷ task_runs 0 ∷ []

abbrev late_close : List Event
late_close = peer_emits 0 State.closed ∷ io_runs 0 no_errors ∷ task_runs 0 ∷ async_start ∷ []

server_shutdown_example :
    let s =
      run default_verify_peer
        (make_server 1 5 (server_options default_common_parameters) fresh_runtime).state
        one_request in
    let t = run default_verify_peer (destroy_server (record { state = s })) late_message in
    let u = run default_verify_peer (shutdown_on_io t) late_close in
    (t.signals ≡ s.signals) × (u.signals ≡ s.signals) × IsStopped u
server_shutdown_example =
    server_shutdown default_verify_peer 1 5 (server_options default_common_parameters) fresh_runtime
      one_request late_message late_close

-- Binds again as fast as possible.
abbrev eager_options : ServerOptions
eager_options = record (server_options default_common_parameters) { bind_retry_interval = 0 }

-- The first attempt to listen fails, and 100 ms later the server tries again.
abbrev two_attempts : List (ℕ × Event)
two_attempts =
    (0, async_start)
    ∷ (1, task_runs 0)
    ∷ (1, io_runs 0 (record no_errors { listen_error = eof }))
    ∷ (2, task_runs 0)
    ∷ (100, Event.bind_retry_fires)
    ∷ (3, io_runs 0 no_errors)
    ∷ []

two_attempts-is_timed :
    is_timed default_verify_peer (new_server 1 5 eager_options fresh_runtime) 0 none two_attempts
    ≡ true
unfolding step new_server run_task bind run_io bind_on_io is_current NotificationScope.start
    open_and_bind listen accept handle_bind_failed close_acceptor release_path deliver run_notice
    schedule_bind_retry on_bind_retry capture initial_scope normalize_scheduling_interval
    remove_socket_file_path set_socket_file_path_owner remove_socket_file_path_if_owned owner_of
two_attempts-is_timed = refl

server_pace_example :
    let s = run default_verify_peer (new_server 1 5 eager_options fresh_runtime) [] in
    let t = run default_verify_peer s (events two_attempts) in
    (100 * count is_attempt t.calls
      ≤ 100 * (load s + count starts (events two_attempts) + 1) + elapsed two_attempts)
    × (100 * count is_failure t.signals
        ≤ 100 * (failures s + count starts (events two_attempts) + 1) + elapsed two_attempts)
server_pace_example =
    server_pace default_verify_peer 1 5 eager_options fresh_runtime [] 0 none two_attempts
      (unfold run in two_attempts-is_timed)

busy_peer : find 1 busy.peers ≡ some 1
unfolding run step new_server run_task bind run_io bind_on_io is_current NotificationScope.start
    open_and_bind listen accept deliver run_notice start_socket_path_health_check_timer on_accept
    handle_accepted_socket peer_slot capture initial_scope normalize_scheduling_interval
    initial_manager erase remove_socket_file_path set_socket_file_path_owner emplace find
    send_request add RequestManager.emplace RequestManager.find
busy_peer = refl

-- A stop runs, and the peer is closed.
abbrev a_stop : List Event
a_stop = Event.async_stop ∷ task_runs 1 ∷ io_runs 0 no_errors ∷ []

server_release_example :
    let t = run default_verify_peer busy a_stop in
    (find 1 t.peers ≡ some 1)
    ⊎ (suc (closes 1 busy) ≤ closes 1 t)
    ⊎ AnnouncedIn default_verify_peer 1 busy a_stop
server_release_example = server_release default_verify_peer 1 1 busy a_stop busy_peer

-- The server is bound and has accepted one peer; a second one comes.
abbrev one_peer : List Event
one_peer =
    async_start ∷ task_runs 0 ∷ io_runs 0 no_errors ∷ accept_completes 0 success 9 process ∷ []

abbrev with_peer : Server
with_peer =
    run default_verify_peer
      (new_server 1 5 (server_options default_common_parameters) fresh_runtime) one_peer

with_peer-current : (length with_peer.slots ≡ 1) × (is_current with_peer.scope 0 ≡ true)
unfolding run step new_server run_task bind run_io bind_on_io is_current NotificationScope.start
    open_and_bind listen accept on_accept handle_accepted_socket capture initial_scope
    initial_manager erase remove_socket_file_path set_socket_file_path_owner emplace find
with_peer-current = (refl, refl)

server_accepts_example :
    let t = on_accept 0 success 10 process with_peer in
    (find (next_id with_peer) with_peer.peers ≡ none)
    × (find 2 t.peers
        ≡ (if next_id with_peer == 2 then some with_peer.next_handle else find 2 with_peer.peers))
server_accepts_example =
    server_accepts default_verify_peer 1 5 (server_options default_common_parameters) fresh_runtime
      one_peer 0 10 2 process (omega (arith, with_peer-current.0)) with_peer-current.1

one_visit-IsInTurn : All IsInTurn one_visit
one_visit-IsInTurn =
    (tt, (refl, (tt, (refl, (tt, (tt, (tt, (refl, (refl, (tt, (tt, (refl, tt))))))))))))

server_order_example :
    let s = new_server 1 5 (server_options default_common_parameters) fresh_runtime in
    Sublist
      (told 1 (run default_verify_peer s one_visit))
      (emitted default_verify_peer 1 s one_visit)
server_order_example =
    server_order default_verify_peer 1 5 (server_options default_common_parameters) fresh_runtime
      one_visit 1 one_visit-IsInTurn

-- The server has bound its path; another server, 2, has taken it over since.
abbrev taken_over : Server
taken_over = let s = with_peer in record s { runtime = set_socket_file_path_owner 5 2 s.runtime }

-- It stops, and is destroyed.
abbrev an_end : List Event
an_end =
    Event.async_stop
    ∷ task_runs 1
    ∷ io_runs 0 no_errors
    ∷ Event.async_shuts_down
    ∷ io_runs 0 no_errors
    ∷ []

taken_over-state :
    (taken_over.self ≡ 1)
    × (owner_of 5 taken_over.runtime.socket_file_path_owners ≡ some 2)
    × (taken_over.bound_socket_file_path ≡ some 5)
    × (ever_binds_at default_verify_peer 5 taken_over an_end ≡ false)
unfolding owner_of run step new_server run_task bind run_io bind_on_io is_current
    NotificationScope.start open_and_bind listen accept on_accept handle_accepted_socket capture
    initial_scope initial_manager erase remove_socket_file_path set_socket_file_path_owner emplace
    find stop stop_on_io deliver async_shutdown close_socket_path_health_check_peer close_all_peers
    close_peers close_acceptor
taken_over-state = (refl, refl, refl, refl)

server_sharing_example :
    let t = run default_verify_peer taken_over an_end in
    (owner_of 5 t.runtime.socket_file_path_owners ≡ some 2)
    × (removals 5 t.runtime ≡ removals 5 taken_over.runtime)
server_sharing_example =
    server_sharing default_verify_peer 5 2 taken_over an_end (omega (arith, taken_over-state.0))
      taken_over-state.1 taken_over-state.3
