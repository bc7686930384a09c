-- ===== src/Example/Events.antt =====
-- example/main.cpp: everything that happens to the program. Its server and its client step as they do
-- in server.hpp and client.hpp, but for the calls, which only the program makes. A slot runs in the
-- emission of its signal. Here it runs at the end of the handler that emits: no slot calls the object
-- whose handler has something left to do.
use cpp_unix_domain_stream.Prelude.{
  ℕ, none, some, get_elem?, erase_idx, ◌++◌, Bool, true, false, List, [], ◌∷◌, if◌then◌else◌,
  length, drop,
}
use cpp_unix_domain_stream.Credentials.{default_verify_peer}
use cpp_unix_domain_stream.Client.Events.{Event as ClientEvent, step as step_of_client}
use cpp_unix_domain_stream.Server.Events.{Event as ServerEvent, step as step_of_server}
use cpp_unix_domain_stream.Example.App.{
  App, verify_peer, on_server_signals, on_client_signals, on_completion,
}

pub data AppEvent : Type 0 where
  server_does : ServerEvent → AppEvent
  client_does : ClientEvent → AppEvent
  callback_runs : ℕ → AppEvent

-- Whether the event is a call by the owner of the server, or its destruction.
abbrev pub is_server_call : ServerEvent → Bool
is_server_call ServerEvent.async_start = true
is_server_call ServerEvent.async_stop = true
is_server_call ServerEvent.async_shuts_down = true
is_server_call (ServerEvent.async_send id bytes) = true
is_server_call (ServerEvent.async_respond id request_id bytes) = true
is_server_call (ServerEvent.async_request id bytes timeout callback) = true
is_server_call (ServerEvent.async_request_by_default id bytes callback) = true
is_server_call (ServerEvent.async_close_peer id) = true
is_server_call _ = false

abbrev pub is_client_call : ClientEvent → Bool
is_client_call ClientEvent.async_start = true
is_client_call ClientEvent.async_stop = true
is_client_call ClientEvent.async_invalidate_connection = true
is_client_call ClientEvent.async_shuts_down = true
is_client_call (ClientEvent.async_send bytes) = true
is_client_call (ClientEvent.async_respond id bytes) = true
is_client_call (ClientEvent.async_request bytes timeout callback) = true
is_client_call (ClientEvent.async_request_by_default bytes callback) = true
is_client_call _ = false

-- The server handles an event; then the slots of the signals that it has emitted run.
unfoldable pub server_handles : ServerEvent → App → App
unfolding on_server_signals
server_handles e a =
    let s = step_of_server verify_peer a.server e in
    on_server_signals (drop (length a.server.signals) s.signals) (record a { server = s })

-- Likewise; the callbacks that the client completes wait for the dispatcher, unless it is detached.
unfoldable pub client_handles : ClientEvent → App → App
unfolding on_client_signals
client_handles e a =
    let c = step_of_client default_verify_peer a.client e in
    let completed = drop (length a.client.manager.completions) c.manager.completions in
    on_client_signals (drop (length a.client.signals) c.signals) (record a {
      client = c;
      waiting_callbacks = a.waiting_callbacks ++ (if c.attached then completed else []);
    })

unfoldable pub step : App → AppEvent → App
unfolding server_handles client_handles on_completion
step a (server_does e) = if is_server_call e then a else server_handles e a
step a (client_does e) = if is_client_call e then a else client_handles e a
step a (callback_runs i) = elim (get_elem? a.waiting_callbacks i) [
  | none ↦ a
  | some k ↦ on_completion k (record a { waiting_callbacks = erase_idx a.waiting_callbacks i })
]

unfoldable pub run : App → List AppEvent → App
run a [] = a
run a (e ∷ es) = run (step a e) es
