-- ===== src/Example/Calls.antt =====
-- example/main.cpp: the server and the client of the program, as a user of the library sees them.
use cpp_unix_domain_stream.Prelude.{
  ◌≡◌, refl, false, List, [], ◌∷◌, ◌++◌, length, drop, inl, inr, Bool-cases, Option-cases,
  get_elem?, erase_idx, if◌then◌else◌,
}
use mathlib.Core.List.{append-nil}
use cpp_unix_domain_stream.Options.{ClientOptions, ServerOptions}
use cpp_unix_domain_stream.Credentials.{default_verify_peer}
use cpp_unix_domain_stream.Runtime.{Runtime}
use cpp_unix_domain_stream.Client.State.{Client, new_client}
use cpp_unix_domain_stream.Client.Events.{
  Event as ClientEvent, step as step_of_client, run as run_of_client,
}
use cpp_unix_domain_stream.Server.State.{Server, new_server}
use cpp_unix_domain_stream.Server.Events.{
  Event as ServerEvent, step as step_of_server, run as run_of_server,
}
use cpp_unix_domain_stream.Example.App.{App, verify_peer, make_app, async_start}
use cpp_unix_domain_stream.Example.Events.{
  AppEvent, server_does, client_does, callback_runs, is_server_call, is_client_call, server_handles,
  client_handles, step, run,
}
use cpp_unix_domain_stream.Example.Lived.{
  ServerLived, ClientLived, step-ServerLived, step-ClientLived, HasLived, call_server-HasLived,
  on_server_signals-HasLived, on_client_signals-HasLived, on_completion-HasLived,
}

module _ (old : Server) (old_client : Client) where
  server_handles-HasLived :
      (e : ServerEvent) (a : App)
      → is_server_call e ≡ false
      → HasLived old old_client a
      → HasLived old old_client (server_handles e a)
  unfolding server_handles HasLived
  server_handles-HasLived e a h v =
      let s = step_of_server verify_peer a.server e in
      on_server_signals-HasLived old old_client (drop (length a.server.signals) s.signals)
        (record a { server = s })
        (
          step-ServerLived old old_client a.server a.server_calls a.server_calls e
              (rw (h) (append-nil a.server_calls)) v.0,
          v.1,
        )

  client_handles-HasLived :
      (e : ClientEvent) (a : App)
      → is_client_call e ≡ false
      → HasLived old old_client a
      → HasLived old old_client (client_handles e a)
  unfolding client_handles HasLived
  client_handles-HasLived e a h v =
      let c = step_of_client default_verify_peer a.client e in
      let completed = drop (length a.client.manager.completions) c.manager.completions in
      on_client_signals-HasLived old old_client (drop (length a.client.signals) c.signals)
        (record a {
          client = c;
          waiting_callbacks = a.waiting_callbacks ++ (if c.attached then completed else []);
        })
        (
          v.0,
          step-ClientLived old old_client a.client a.client_calls a.client_calls e
              (rw (h) (append-nil a.client_calls)) v.1,
        )

  step-HasLived :
      (a : App) (e : AppEvent) → HasLived old old_client a → HasLived old old_client (step a e)
  unfolding step
  step-HasLived a (server_does e) v = elim (Bool-cases (is_server_call e)) [
    | inl h ↦ rw (h) v
    | inr h ↦ rw (h) (server_handles-HasLived e a h v)
  ]
  step-HasLived a (client_does e) v = elim (Bool-cases (is_client_call e)) [
    | inl h ↦ rw (h) v
    | inr h ↦ rw (h) (client_handles-HasLived e a h v)
  ]
  step-HasLived a (callback_runs i) v = elim (Option-cases (get_elem? a.waiting_callbacks i)) [
    | inl h ↦ rw (h, step) v
    | inr (k, h) ↦
        rw (h, step)
          (on_completion-HasLived old old_client k
            (record a { waiting_callbacks = erase_idx a.waiting_callbacks i })
            (unfold HasLived in v))
  ]

  run-HasLived :
      (a : App) (es : List AppEvent)
      → HasLived old old_client a
      → HasLived old old_client (run a es)
  unfolding run
  run-HasLived a [] v = v
  run-HasLived a (e ∷ es) v = run-HasLived (step a e) es (step-HasLived a e v)

-- Whatever happens to the program from its start, its server is one that went through events from its
-- creation, of which the owner's calls are those that the program made, in their order, and so is its
-- client: what holds of them after any events holds in the program.
pub app_lived :
    (server_opts : ServerOptions) (client_opts : ClientOptions) (runtime : Runtime)
    (es : List AppEvent)
    → let a = run (async_start (make_app server_opts client_opts runtime)) es in
      ServerLived (new_server 0 0 server_opts runtime) a.server a.server_calls
      × ClientLived (new_client client_opts) a.client a.client_calls
unfolding HasLived
app_lived server_opts client_opts runtime es =
    let old = new_server 0 0 server_opts runtime in
    let old_client = new_client client_opts in
    let a = make_app server_opts client_opts runtime in
    run-HasLived old old_client (async_start a) es (
      unfold async_start in
      call_server-HasLived old old_client ServerEvent.async_start a refl
        (unfold make_app run_of_server run_of_client in (([], refl, refl), ([], refl, refl))))
