-- ===== src/Example/Replies.antt =====
-- example/main.cpp: which calls the program makes, for which signals.
use cpp_unix_domain_stream.Prelude.{
  ◌≡◌, refl, sym, ◌∙◌, Bool, true, false, List, [], ◌∷◌, ◌++◌, ltb, count, count-append, filterb,
  filterb-append, filterb-keep, filterb-skip, concat_map, concat_map-last, if◌then◌else◌, arith,
}
use mathlib.Core.List.{append_assoc, append-nil}
use cpp_unix_domain_stream.Client.State.{ClientSignal}
use cpp_unix_domain_stream.Client.Events.{Event as ClientEvent}
use cpp_unix_domain_stream.Server.State.{ServerSignal}
use cpp_unix_domain_stream.Server.Events.{Event as ServerEvent}
use cpp_unix_domain_stream.Example.App.{
  App, call_server, call_client, call_client_all, initial_messages, response_for,
  send_initial_messages, on_server_signal, on_client_signal, on_server_signals, on_client_signals,
}

-- The server's answer to a signal, and the start of the client for it.
abbrev pub server_reply : ServerSignal → List ServerEvent
server_reply (ServerSignal.received id buffer) = ServerEvent.async_send id buffer ∷ []
server_reply (ServerSignal.request_received id request_id buffer) =
    ServerEvent.async_respond id request_id (response_for buffer) ∷ []
server_reply _ = []

abbrev pub start_for : ServerSignal → List ClientEvent
start_for ServerSignal.bound = ClientEvent.async_start ∷ []
start_for _ = []

abbrev pub client_reply : ClientSignal → List ClientEvent
client_reply (ClientSignal.request_received request_id buffer) =
    ClientEvent.async_respond request_id (response_for buffer) ∷ []
client_reply _ = []

abbrev pub is_connected : ClientSignal → Bool
is_connected (ClientSignal.connected credentials) = true
is_connected _ = false

abbrev pub is_start : ClientEvent → Bool
is_start ClientEvent.async_start = true
is_start _ = false

abbrev pub is_respond : ClientEvent → Bool
is_respond (ClientEvent.async_respond id bytes) = true
is_respond _ = false

-- A message, or a request.
abbrev pub is_message : ClientEvent → Bool
is_message (ClientEvent.async_send bytes) = true
is_message (ClientEvent.async_request_by_default bytes callback) = true
is_message _ = false

-- The calls are those for these signals of the server and of the client.
pub record IsAnswered (told : List ServerSignal) (told_client : List ClientSignal) (a : App)
    : Type 0 where
  pub answers : a.server_calls ≡ ServerEvent.async_start ∷ concat_map server_reply told
  pub starts : filterb is_start a.client_calls ≡ concat_map start_for told
  pub client_answers : filterb is_respond a.client_calls ≡ concat_map client_reply told_client
  pub messages :
      filterb is_message a.client_calls
      ≡ (if ltb 0 (count is_connected told_client) then initial_messages else [])
  pub once : a.initial_messages_sent ≡ ltb 0 (count is_connected told_client)

module _ (told : List ServerSignal) (told_client : List ClientSignal) where
  on_server_signal-IsAnswered :
      (s : ServerSignal) (a : App)
      → IsAnswered told told_client a
      → IsAnswered (told ++ (s ∷ [])) told_client (on_server_signal s a)
  unfolding on_server_signal call_server call_client
  on_server_signal-IsAnswered s a v = ground (
    arith,
    concat_map-last server_reply told s,
    concat_map-last start_for told s,
    filterb-keep is_start a.client_calls ClientEvent.async_start refl,
    filterb-skip is_respond a.client_calls ClientEvent.async_start refl,
    filterb-skip is_message a.client_calls ClientEvent.async_start refl,
    append-nil (concat_map server_reply told),
    append-nil (concat_map start_for told),
  )

client_calls-call_client_all :
    (es : List ClientEvent) (a : App) → (call_client_all es a).client_calls ≡ a.client_calls ++ es
unfolding call_client_all call_client
client_calls-call_client_all [] a = sym (append-nil a.client_calls)
client_calls-call_client_all (e ∷ es) a =
    client_calls-call_client_all es (call_client e a) ∙ append_assoc a.client_calls (e ∷ []) es

call_client_all-others :
    (es : List ClientEvent) (a : App)
    → ((call_client_all es a).server_calls ≡ a.server_calls)
      × ((call_client_all es a).initial_messages_sent ≡ a.initial_messages_sent)
unfolding call_client_all call_client
call_client_all-others [] a = (refl, refl)
call_client_all-others (e ∷ es) a = call_client_all-others es (call_client e a)

initial_messages-filters :
    (filterb is_message initial_messages ≡ initial_messages)
    × (filterb is_start initial_messages ≡ [])
    × (filterb is_respond initial_messages ≡ [])
unfolding initial_messages
initial_messages-filters = (refl, refl, refl)

module _ (told : List ServerSignal) (told_client : List ClientSignal) where
  on_client_signal-IsAnswered :
      (s : ClientSignal) (a : App)
      → IsAnswered told told_client a
      → IsAnswered told (told_client ++ (s ∷ [])) (on_client_signal s a)
  unfolding on_client_signal call_client send_initial_messages
  on_client_signal-IsAnswered (ClientSignal.connected credentials) a v = ground (
    arith,
    concat_map-last client_reply told_client (ClientSignal.connected credentials),
    count-append is_connected told_client (ClientSignal.connected credentials ∷ []),
    append-nil (concat_map client_reply told_client),
    filterb-append is_start a.client_calls initial_messages,
    filterb-append is_respond a.client_calls initial_messages,
    filterb-append is_message a.client_calls initial_messages,
    initial_messages-filters,
    append-nil (filterb is_start a.client_calls),
    append-nil (filterb is_respond a.client_calls),
    client_calls-call_client_all initial_messages
        (record a { initial_messages_sent = true; output = _ }),
    call_client_all-others initial_messages (record a { initial_messages_sent = true; output = _ }),
  )
  on_client_signal-IsAnswered (ClientSignal.request_received id buffer) a v =
      let call = ClientEvent.async_respond id (response_for buffer) in
      ground (
        arith,
        concat_map-last client_reply told_client (ClientSignal.request_received id buffer),
        count-append is_connected told_client (ClientSignal.request_received id buffer ∷ []),
        filterb-skip is_start a.client_calls call refl,
        filterb-keep is_respond a.client_calls call refl,
        filterb-skip is_message a.client_calls call refl,
      )
  on_client_signal-IsAnswered s a v = ground (
    arith,
    concat_map-last client_reply told_client s,
    count-append is_connected told_client (s ∷ []),
    append-nil (concat_map client_reply told_client),
  )

pub on_server_signals-IsAnswered :
    (told new : List ServerSignal) (told_client : List ClientSignal) (a : App)
    → IsAnswered told told_client a
    → IsAnswered (told ++ new) told_client (on_server_signals new a)
unfolding on_server_signals
on_server_signals-IsAnswered told [] told_client a v = rw (append-nil told) v
on_server_signals-IsAnswered told (s ∷ new) told_client a v =
    rw⁻¹ (append_assoc told (s ∷ []) new) (
      on_server_signals-IsAnswered (told ++ (s ∷ [])) new told_client (on_server_signal s a)
        (on_server_signal-IsAnswered told told_client s a v))

pub on_client_signals-IsAnswered :
    (told : List ServerSignal) (told_client new : List ClientSignal) (a : App)
    → IsAnswered told told_client a
    → IsAnswered told (told_client ++ new) (on_client_signals new a)
unfolding on_client_signals
on_client_signals-IsAnswered told told_client [] a v = rw (append-nil told_client) v
on_client_signals-IsAnswered told told_client (s ∷ new) a v =
    rw⁻¹ (append_assoc told_client (s ∷ []) new) (
      on_client_signals-IsAnswered told (told_client ++ (s ∷ [])) new (on_client_signal s a)
        (on_client_signal-IsAnswered told told_client s a v))
