-- ===== src/Example/Lived.antt =====
-- example/main.cpp: the slots' calls as events of the server and of the client.
use cpp_unix_domain_stream.Prelude.{
  ◌≡◌, refl, sym, ap, ◌∙◌, true, List, [], ◌∷◌, ◌++◌, All, filterb, filterb-append, inl, inr,
  Bool-cases, arith,
}
use cpp_unix_domain_stream.Credentials.{default_verify_peer}
use cpp_unix_domain_stream.RequestManager.{Completion}
use cpp_unix_domain_stream.Client.State.{Client, ClientSignal}
use cpp_unix_domain_stream.Client.Events.{
  Event as ClientEvent, step as step_of_client, run as run_of_client,
}
use cpp_unix_domain_stream.Server.State.{Server, ServerSignal}
use cpp_unix_domain_stream.Server.Events.{
  Event as ServerEvent, step as step_of_server, run as run_of_server,
}
use cpp_unix_domain_stream.Example.Output.{Piece}
use cpp_unix_domain_stream.Example.App.{
  App, print, verify_peer, call_server, call_client, call_client_all, initial_messages,
  send_initial_messages, on_server_signal, on_client_signal, on_completion, response_for,
  on_server_signals, on_client_signals,
}
use cpp_unix_domain_stream.Example.Events.{is_server_call, is_client_call}

run_of_server-append :
    (s : Server) (es : List ServerEvent) (e : ServerEvent)
    → run_of_server verify_peer s (es ++ (e ∷ []))
      ≡ step_of_server verify_peer (run_of_server verify_peer s es) e
unfolding run_of_server
run_of_server-append s [] e = refl
run_of_server-append s (d ∷ es) e = run_of_server-append (step_of_server verify_peer s d) es e

run_of_client-append :
    (c : Client) (es : List ClientEvent) (e : ClientEvent)
    → run_of_client default_verify_peer c (es ++ (e ∷ []))
      ≡ step_of_client default_verify_peer (run_of_client default_verify_peer c es) e
unfolding run_of_client
run_of_client-append c [] e = refl
run_of_client-append c (d ∷ es) e =
    run_of_client-append (step_of_client default_verify_peer c d) es e

-- From `old` on, the server went through events, and the calls among them are `calls`.
abbrev pub ServerLived : Server → Server → List ServerEvent → Type 0
ServerLived old s calls =
    (es : List ServerEvent) × (s ≡ run_of_server verify_peer old es)
    × (filterb is_server_call es ≡ calls)

abbrev pub ClientLived : Client → Client → List ClientEvent → Type 0
ClientLived old c calls =
    (es : List ClientEvent) × (c ≡ run_of_client default_verify_peer old es)
    × (filterb is_client_call es ≡ calls)

module _ (old : Server) (old_client : Client) where
  pub step-ServerLived :
      (s : Server) (calls more : List ServerEvent) (e : ServerEvent)
      → calls ++ filterb is_server_call (e ∷ []) ≡ more
      → ServerLived old s calls
      → ServerLived old (step_of_server verify_peer s e) more
  step-ServerLived s calls more e k (es, h, g) = (
    es ++ (e ∷ []),
    ap (λ x. step_of_server verify_peer x e) h ∙ sym (run_of_server-append old es e),
    filterb-append is_server_call es (e ∷ [])
        ∙ ap (λ x. x ++ filterb is_server_call (e ∷ [])) g
        ∙ k,
  )

  pub step-ClientLived :
      (c : Client) (calls more : List ClientEvent) (e : ClientEvent)
      → calls ++ filterb is_client_call (e ∷ []) ≡ more
      → ClientLived old_client c calls
      → ClientLived old_client (step_of_client default_verify_peer c e) more
  step-ClientLived c calls more e k (es, h, g) = (
    es ++ (e ∷ []),
    ap (λ x. step_of_client default_verify_peer x e) h ∙ sym (run_of_client-append old_client es e),
    filterb-append is_client_call es (e ∷ [])
        ∙ ap (λ x. x ++ filterb is_client_call (e ∷ [])) g
        ∙ k,
  )

  -- Both have lived so, and the program has made their calls.
  unfoldable pub HasLived : App → Type 0
  HasLived a =
      ServerLived old a.server a.server_calls × ClientLived old_client a.client a.client_calls

  pub call_server-HasLived :
      (e : ServerEvent) (a : App)
      → is_server_call e ≡ true
      → HasLived a
      → HasLived (call_server e a)
  unfolding HasLived call_server
  call_server-HasLived e a h v = (
    step-ServerLived a.server a.server_calls (a.server_calls ++ (e ∷ [])) e (ground arith) v.0,
    v.1,
  )

  call_client-HasLived :
      (e : ClientEvent) (a : App)
      → is_client_call e ≡ true
      → HasLived a
      → HasLived (call_client e a)
  unfolding HasLived call_client
  call_client-HasLived e a h v = (
    v.0,
    step-ClientLived a.client a.client_calls (a.client_calls ++ (e ∷ [])) e (ground arith) v.1,
  )

  call_client_all-HasLived :
      (es : List ClientEvent) (a : App)
      → All (λ e. is_client_call e ≡ true) es
      → HasLived a
      → HasLived (call_client_all es a)
  unfolding call_client_all
  call_client_all-HasLived [] a h v = v
  call_client_all-HasLived (e ∷ es) a h v =
      call_client_all-HasLived es (call_client e a) h.1 (call_client-HasLived e a h.0 v)

  send_initial_messages-HasLived : (a : App) → HasLived a → HasLived (send_initial_messages a)
  unfolding send_initial_messages HasLived
  send_initial_messages-HasLived a v = elim (Bool-cases a.initial_messages_sent) [
    | inl h ↦ rw (h) v
    | inr h ↦ rw (h) (
        call_client_all-HasLived initial_messages (record a { initial_messages_sent = true })
          (unfold initial_messages in (refl, (refl, (refl, (refl, (refl, (refl, tt))))))) v)
  ]

  print-HasLived : (pieces : List Piece) (a : App) → HasLived a → HasLived (print pieces a)
  unfolding HasLived
  print-HasLived pieces a v = v

  on_server_signal-HasLived :
      (signal : ServerSignal) (a : App) → HasLived a → HasLived (on_server_signal signal a)
  unfolding on_server_signal
  on_server_signal-HasLived ServerSignal.bound a v =
      call_client-HasLived ClientEvent.async_start _ refl (print-HasLived _ a v)
  on_server_signal-HasLived (ServerSignal.received id buffer) a v =
      call_server-HasLived (ServerEvent.async_send id buffer) _ refl (print-HasLived _ a v)
  on_server_signal-HasLived (ServerSignal.request_received id request_id buffer) a v =
      call_server-HasLived (ServerEvent.async_respond id request_id (response_for buffer)) _ refl
        (print-HasLived _ a v)
  on_server_signal-HasLived (ServerSignal.bind_failed e) a v = print-HasLived _ a v
  on_server_signal-HasLived ServerSignal.closed a v = print-HasLived _ a v
  on_server_signal-HasLived (ServerSignal.peer_connected id credentials) a v = print-HasLived _ a v
  on_server_signal-HasLived (ServerSignal.peer_closed id) a v = print-HasLived _ a v
  on_server_signal-HasLived (ServerSignal.peer_error_occurred id e) a v = print-HasLived _ a v
  on_server_signal-HasLived (ServerSignal.not_connected_callback callback) a v = v

  on_client_signal-HasLived :
      (signal : ClientSignal) (a : App) → HasLived a → HasLived (on_client_signal signal a)
  unfolding on_client_signal
  on_client_signal-HasLived (ClientSignal.connected credentials) a v =
      send_initial_messages-HasLived _ (print-HasLived _ a v)
  on_client_signal-HasLived (ClientSignal.request_received request_id buffer) a v =
      call_client-HasLived (ClientEvent.async_respond request_id (response_for buffer)) _ refl
        (print-HasLived _ a v)
  on_client_signal-HasLived (ClientSignal.connect_failed e) a v = print-HasLived _ a v
  on_client_signal-HasLived (ClientSignal.peer_verification_failed k) a v = print-HasLived _ a v
  on_client_signal-HasLived ClientSignal.closed a v = print-HasLived _ a v
  on_client_signal-HasLived (ClientSignal.error_occurred e) a v = print-HasLived _ a v
  on_client_signal-HasLived (ClientSignal.received buffer) a v = print-HasLived _ a v
  on_client_signal-HasLived (ClientSignal.not_connected_callback k) a v = print-HasLived _ a v

  pub on_server_signals-HasLived :
      (signals : List ServerSignal) (a : App) → HasLived a → HasLived (on_server_signals signals a)
  unfolding on_server_signals
  on_server_signals-HasLived [] a v = v
  on_server_signals-HasLived (s ∷ rest) a v =
      on_server_signals-HasLived rest (on_server_signal s a) (on_server_signal-HasLived s a v)

  pub on_client_signals-HasLived :
      (signals : List ClientSignal) (a : App) → HasLived a → HasLived (on_client_signals signals a)
  unfolding on_client_signals
  on_client_signals-HasLived [] a v = v
  on_client_signals-HasLived (s ∷ rest) a v =
      on_client_signals-HasLived rest (on_client_signal s a) (on_client_signal-HasLived s a v)

  pub on_completion-HasLived :
      (k : Completion) (a : App) → HasLived a → HasLived (on_completion k a)
  unfolding on_completion
  on_completion-HasLived k a v = print-HasLived _ a v
