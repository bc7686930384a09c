-- ===== src/Tests/Example.antt =====
-- example/main.cpp on a concrete history.
use cpp_unix_domain_stream.Prelude.{ℕ, ◌≡◌, refl, List, [], ◌∷◌, ◌++◌, some, success, map}
use cpp_unix_domain_stream.Options.{normalize_scheduling_interval}
use cpp_unix_domain_stream.Credentials.{PeerCredentials}
use cpp_unix_domain_stream.NotificationScope
use cpp_unix_domain_stream.NotificationScope.{is_current, deliver, capture, initial_scope}
use cpp_unix_domain_stream.RequestManager.{initial_manager}
use cpp_unix_domain_stream.Runtime
use cpp_unix_domain_stream.Runtime.{Runtime, remove_socket_file_path, set_socket_file_path_owner}
use cpp_unix_domain_stream.Peer.State
use cpp_unix_domain_stream.Client.State.{new_client}
use cpp_unix_domain_stream.Client.Connection.{
  connect, connect_on_io, on_connect, handle_connected_socket,
}
use cpp_unix_domain_stream.Client.Requests.{connected_on_io}
use cpp_unix_domain_stream.Client.Tasks
use cpp_unix_domain_stream.Client.Events.{Event as ClientEvent, step as step_of_client}
use cpp_unix_domain_stream.Server.State.{new_server}
use cpp_unix_domain_stream.Server.Acceptor.{
  BindResults, bind, bind_on_io, open_and_bind, listen, accept, on_accept, handle_accepted_socket,
  emplace, find,
}
use cpp_unix_domain_stream.Server.Peers.{peer_slot, contains, insert_id}
use cpp_unix_domain_stream.Server.Tasks.{run_task, run_io, run_notice, if_exposed}
use cpp_unix_domain_stream.Server.HealthCheck.{start_socket_path_health_check_timer}
use cpp_unix_domain_stream.Server.Events.{Event as ServerEvent, step as step_of_server}
use cpp_unix_domain_stream.Example.Output.{text, number, byte, endl, output_received_data}
use cpp_unix_domain_stream.Example.App.{
  response_for, App, make_app, main_server_options, main_client_options, async_start, destroy_app,
  call_server, call_client, call_client_all, initial_messages, send_initial_messages,
  on_server_signal, on_client_signal, on_server_signals, on_client_signals,
}
use cpp_unix_domain_stream.Example.Events.{
  AppEvent, server_does, client_does, server_handles, client_handles, step, run,
}
use cpp_unix_domain_stream.Example.End.{app_end}
use cpp_unix_domain_stream.Example.Listing.{output_received_data_lem}

abbrev no_errors : BindResults
no_errors = record {
  endpoint_error = success;
  key = 0;
  resolved = 0;
  open_error = success;
  bind_error = success;
  listen_error = success;
}

abbrev process : PeerCredentials
process = record { pid = some 100; uid = some 501; gid = some 20 }

abbrev fresh_runtime : Runtime
fresh_runtime = record { socket_file_path_owners = []; removed = [] }

abbrev started : App
started = async_start (make_app main_server_options main_client_options fresh_runtime)

-- The server binds, the client connects, and the server receives a byte of it.
abbrev first_message : List AppEvent
first_message =
    server_does (ServerEvent.task_runs 0)
    ∷ server_does (ServerEvent.io_runs 0 no_errors)
    ∷ server_does (ServerEvent.task_runs 0)
    ∷ client_does (ClientEvent.task_runs 0)
    ∷ client_does (ClientEvent.io_runs 0 success)
    ∷ client_does (ClientEvent.connect_completes 0 success process)
    ∷ client_does (ClientEvent.task_runs 0)
    ∷ client_does (ClientEvent.io_runs 0 success)
    ∷ client_does (ClientEvent.io_runs 0 success)
    ∷ client_does (ClientEvent.task_runs 0)
    ∷ server_does (ServerEvent.accept_completes 0 success 9 process)
    ∷ server_does (ServerEvent.peer_emits 0 State.ready)
    ∷ server_does (ServerEvent.task_runs 0)
    ∷ server_does (ServerEvent.peer_emits 0 (State.received (49 ∷ [])))
    ∷ server_does (ServerEvent.task_runs 0)
    ∷ []

first_message_calls :
    ((run started first_message).server_calls
      ≡ ServerEvent.async_start ∷ ServerEvent.async_send 1 (49 ∷ []) ∷ [])
    × ((run started first_message).client_calls ≡ ClientEvent.async_start ∷ initial_messages)
unfolding run step async_start make_app server_handles client_handles step_of_server step_of_client
    call_server call_client call_client_all initial_messages send_initial_messages on_server_signal
    on_client_signal on_server_signals on_client_signals new_client new_server run_task bind run_io
    bind_on_io is_current NotificationScope.start open_and_bind listen accept deliver run_notice
    start_socket_path_health_check_timer on_accept handle_accepted_socket peer_slot capture
    initial_scope normalize_scheduling_interval initial_manager Runtime.erase
    remove_socket_file_path set_socket_file_path_owner emplace find contains insert_id if_exposed
    Tasks.run_task Tasks.run_io Tasks.run_notice connect connect_on_io on_connect
    handle_connected_socket connected_on_io
first_message_calls = (refl, refl)

-- Another byte comes after the end.
abbrev late_message : List AppEvent
late_message =
    server_does (ServerEvent.peer_emits 0 (State.received (50 ∷ [])))
    ∷ server_does (ServerEvent.task_runs 0)
    ∷ []

app_end_example :
    let a = run started first_message in
    let b = run (destroy_app a) late_message in
    (b.server.signals ≡ a.server.signals)
    × (b.client.signals ≡ a.client.signals)
    × (b.server_calls ≡ a.server_calls)
    × (b.client_calls ≡ a.client_calls)
    × (b.output ≡ a.output)
app_end_example =
    app_end main_server_options main_client_options fresh_runtime first_message late_message

abbrev ten_letters : List ℕ
ten_letters = 97 ∷ 98 ∷ 99 ∷ 100 ∷ 101 ∷ 102 ∷ 103 ∷ 104 ∷ 105 ∷ 106 ∷ []

-- 41 bytes, all of which are printed.
abbrev letters : List ℕ
letters = ten_letters ++ (ten_letters ++ (ten_letters ++ (ten_letters ++ (97 ∷ []))))

output_received_data_lem_example :
    output_received_data letters
    ≡ text "buffer: `"
      ∷ (map byte letters ++ (text "... (" ∷ number 41 ∷ text "bytes)" ∷ text "`" ∷ endl ∷ []))
output_received_data_lem_example = output_received_data_lem letters

-- "response for A"
response_for_bytes :
    response_for (65 ∷ [])
    ≡ 114 ∷ 101 ∷ 115 ∷ 112 ∷ 111 ∷ 110 ∷ 115 ∷ 101 ∷ 32 ∷ 102 ∷ 111 ∷ 114 ∷ 32 ∷ 65 ∷ []
unfolding response_for
response_for_bytes = refl
