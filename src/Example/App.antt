-- ===== src/Example/App.antt =====
-- example/main.cpp: `example_app`, what it owns, and the slots that it connects in its constructor.
-- `server_calls` and `client_calls` hold the calls that the program has made, oldest first, as the
-- events of the server and of the client that they are. The socket path is 0, the server's name in the
-- runtime too. `waiting_callbacks` are the completions that the client's manager has handed to the
-- dispatcher and that have not run. The labels of the requests' callbacks are their numbers.
use Prim.Native.String.{String}
use cpp_unix_domain_stream.Prelude.{
  ℕ, ◌*◌, Bool, true, false, none, List, [], ◌∷◌, ◌++◌, ◌==◌, if◌then◌else◌, length, ErrorCode,
  zero, suc,
}
use cpp_unix_domain_stream.Options.{
  CommonParameters, default_common_parameters, ClientOptions, ServerOptions, client_options,
  server_options,
}
use cpp_unix_domain_stream.Credentials.{PeerCredentials, default_verify_peer}
use cpp_unix_domain_stream.RequestManager.{Completion}
use cpp_unix_domain_stream.Runtime.{Runtime}
use cpp_unix_domain_stream.Client.State.{Client, ClientSignal}
use cpp_unix_domain_stream.Client.Facade.{make_client, destroy_client}
use cpp_unix_domain_stream.Client.Events.{Event as ClientEvent, step as step_of_client}
use cpp_unix_domain_stream.Server.State.{Server, ServerSignal}
use cpp_unix_domain_stream.Server.Facade.{make_server, destroy_server}
use cpp_unix_domain_stream.Server.Events.{Event as ServerEvent, step as step_of_server}
use cpp_unix_domain_stream.Example.Output.{
  Piece, text, number, message, endl, make_buffer, output_received_data, output_peer_credentials,
  output_async_request_result,
}

pub record App : Type 0 where
  pub server : Server
  pub client : Client
  pub initial_messages_sent : Bool
  pub waiting_callbacks : List Completion
  pub server_calls : List ServerEvent
  pub client_calls : List ClientEvent
  pub output : List Piece

-- The parameters with which `main` fills both option structs.
abbrev main_parameters : CommonParameters
main_parameters = record default_common_parameters { max_send_queue_size = 128 }

abbrev pub main_server_options : ServerOptions
main_server_options = server_options main_parameters

abbrev pub main_client_options : ClientOptions
main_client_options = client_options main_parameters

-- The function that the server is given to verify its peers.
abbrev pub verify_peer : PeerCredentials → Bool
verify_peer _ = true

unfoldable pub make_app : ServerOptions → ClientOptions → Runtime → App
make_app server_opts client_opts runtime = record {
  server = (make_server 0 0 server_opts runtime).state;
  client = (make_client client_opts).state;
  initial_messages_sent = false;
  waiting_callbacks = [];
  server_calls = [];
  client_calls = [];
  output = [];
}

-- A call on the server, which is an event of it.
unfoldable pub call_server : ServerEvent → App → App
call_server e a = record a {
  server = step_of_server verify_peer a.server e;
  server_calls = a.server_calls ++ (e ∷ []);
}

unfoldable pub call_client : ClientEvent → App → App
call_client e a = record a {
  client = step_of_client default_verify_peer a.client e;
  client_calls = a.client_calls ++ (e ∷ []);
}

unfoldable pub call_client_all : List ClientEvent → App → App
unfolding call_client
call_client_all [] a = a
call_client_all (e ∷ es) a = call_client_all es (call_client e a)

-- `std::vector<uint8_t>(n, c)`
unfoldable pub repeated : ℕ → ℕ → List ℕ
repeated zero c = []
repeated (suc n) c = c ∷ repeated n c

abbrev pub print : List Piece → App → App
print pieces a = record a { output = a.output ++ pieces }

-- `make_buffer("response for ")`, then the buffer.
unfoldable pub response_for : List ℕ → List ℕ
response_for buffer = make_buffer "response for " ++ buffer

-- What is sent once the client is connected for the first time.
unfoldable pub initial_messages : List ClientEvent
initial_messages =
    ClientEvent.async_send (49 ∷ [])
    ∷ ClientEvent.async_send (49 ∷ 50 ∷ [])
    ∷ ClientEvent.async_send (repeated (30 * 1024) 51)
    ∷ ClientEvent.async_send (make_buffer "Type control-c to quit.")
    ∷ ClientEvent.async_request_by_default (make_buffer "request 1") 1
    ∷ ClientEvent.async_request_by_default (make_buffer "request 2") 2
    ∷ []

unfoldable pub send_initial_messages : App → App
unfolding call_client_all initial_messages
send_initial_messages a =
    if a.initial_messages_sent
    then a
    else call_client_all initial_messages (record a { initial_messages_sent = true })

-- The slots of the server's signals. What the function that verifies a peer prints, comes right before
-- its `peer_connected`.
unfoldable pub on_server_signal : ServerSignal → App → App
unfolding call_server call_client output_received_data output_peer_credentials response_for
on_server_signal ServerSignal.bound a =
    call_client ClientEvent.async_start (print (text "server bound" ∷ endl ∷ []) a)
on_server_signal (ServerSignal.bind_failed e) a =
    print (text "server bind_failed:" ∷ message e ∷ endl ∷ []) a
on_server_signal ServerSignal.closed a = print (text "server closed" ∷ endl ∷ []) a
on_server_signal (ServerSignal.peer_connected id credentials) a =
    print
      ((text "server verify_peer" ∷ endl ∷ output_peer_credentials credentials)
        ++ ((text "server peer_connected peer_id:" ∷ number id ∷ endl ∷ [])
            ++ output_peer_credentials credentials))
      a
on_server_signal (ServerSignal.peer_closed id) a =
    print (text "server peer_closed peer_id:" ∷ number id ∷ endl ∷ []) a
on_server_signal (ServerSignal.peer_error_occurred id e) a =
    print
      (text "server peer_error_occurred peer_id:" ∷ number id ∷ text " " ∷ message e ∷ endl ∷ []) a
on_server_signal (ServerSignal.received id buffer) a =
    call_server (ServerEvent.async_send id buffer) (
      print
        ((text "server received peer_id:"
            ∷ number id
            ∷ text " size:"
            ∷ number (length buffer)
            ∷ endl
            ∷ [])
          ++ output_received_data buffer)
        a)
on_server_signal (ServerSignal.request_received id request_id buffer) a =
    call_server (ServerEvent.async_respond id request_id (response_for buffer)) (
      print
        ((text "server request_received peer_id:"
            ∷ number id
            ∷ text " request_id:"
            ∷ number request_id
            ∷ text " size:"
            ∷ number (length buffer)
            ∷ endl
            ∷ [])
          ++ output_received_data buffer)
        a)
on_server_signal (ServerSignal.not_connected_callback callback) a = a

abbrev label : ℕ → String
label callback = if callback == 1 then "client async_request 1" else "client async_request 2"

-- The slots of the client's signals, and the callbacks of its requests.
unfoldable pub on_client_signal : ClientSignal → App → App
unfolding call_client send_initial_messages output_received_data output_peer_credentials
    response_for output_async_request_result
on_client_signal (ClientSignal.connected credentials) a =
    send_initial_messages
      (print ((text "client connected" ∷ endl ∷ []) ++ output_peer_credentials credentials) a)
on_client_signal (ClientSignal.connect_failed e) a =
    print (text "client connect_failed:" ∷ message e ∷ endl ∷ []) a
on_client_signal (ClientSignal.peer_verification_failed credentials) a =
    print
      ((text "client peer_verification_failed" ∷ endl ∷ []) ++ output_peer_credentials credentials)
      a
on_client_signal ClientSignal.closed a = print (text "client closed" ∷ endl ∷ []) a
on_client_signal (ClientSignal.error_occurred e) a =
    print (text "client error_occurred:" ∷ message e ∷ endl ∷ []) a
on_client_signal (ClientSignal.received buffer) a =
    print
      ((text "client received size:" ∷ number (length buffer) ∷ endl ∷ [])
        ++ output_received_data buffer)
      a
on_client_signal (ClientSignal.request_received request_id buffer) a =
    call_client (ClientEvent.async_respond request_id (response_for buffer)) (
      print
        ((text "client request_received request_id:"
            ∷ number request_id
            ∷ text " size:"
            ∷ number (length buffer)
            ∷ endl
            ∷ [])
          ++ output_received_data buffer)
        a)
on_client_signal (ClientSignal.not_connected_callback callback) a =
    print (output_async_request_result (label callback) ErrorCode.not_connected none) a

-- A callback that runs on the dispatcher.
unfoldable pub on_completion : Completion → App → App
unfolding output_async_request_result
on_completion k a = print (output_async_request_result (label k.callback) k.error_code k.body) a

unfoldable pub on_server_signals : List ServerSignal → App → App
unfolding on_server_signal
on_server_signals [] a = a
on_server_signals (s ∷ rest) a = on_server_signals rest (on_server_signal s a)

unfoldable pub on_client_signals : List ClientSignal → App → App
unfolding on_client_signal
on_client_signals [] a = a
on_client_signals (s ∷ rest) a = on_client_signals rest (on_client_signal s a)

-- `async_start`
unfoldable pub async_start : App → App
unfolding call_server
async_start a = call_server ServerEvent.async_start a

-- The destructor: the server's first, then the client's, which drops the callbacks that wait.
unfoldable pub destroy_app : App → App
destroy_app a = record a {
  server = destroy_server (record { state = a.server });
  client = destroy_client (record { state = a.client });
  waiting_callbacks = [];
}
