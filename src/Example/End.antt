-- ===== src/Example/End.antt =====
-- example/main.cpp: the destructor of `example_app`, and what may still happen to its server and client.
use cpp_unix_domain_stream.Prelude.{
  none, get_elem?, ◌≡◌, refl, sym, ap, ◌∙◌, List, [], ◌∷◌, length, drop, drop-append, inl, inr,
  Bool-cases,
}
use mathlib.Core.List.{append-nil}
use cpp_unix_domain_stream.Options.{ClientOptions, ServerOptions}
use cpp_unix_domain_stream.Credentials.{default_verify_peer}
use cpp_unix_domain_stream.Runtime.{Runtime}
use cpp_unix_domain_stream.Client.State.{Client, ClientSignal, new_client}
use cpp_unix_domain_stream.Client.Events.{
  Event as ClientEvent, step as step_of_client, run as run_of_client,
}
use cpp_unix_domain_stream.Client.Induction.{run-Keeps as run_of_client-Keeps}
use cpp_unix_domain_stream.Client.Shutdown.{
  IsDetached as IsClientDetached, Keeps-IsDetached as Keeps-IsClientDetached,
  IsConsistent as IsClientConsistent, Keeps-IsConsistent as Keeps-IsClientConsistent,
  shutdown-IsDetached as shutdown-IsClientDetached,
}
use cpp_unix_domain_stream.Server.State.{Server, ServerSignal, new_server}
use cpp_unix_domain_stream.Server.Events.{
  Event as ServerEvent, step as step_of_server, run as run_of_server,
}
use cpp_unix_domain_stream.Server.Induction.{run-Keeps as run_of_server-Keeps}
use cpp_unix_domain_stream.Server.Detached.{
  IsDetached, Keeps-IsDetached, IsConsistent, Keeps-IsConsistent, shutdown-IsDetached,
}
use cpp_unix_domain_stream.Example.Output.{Piece}
use cpp_unix_domain_stream.Example.App.{
  App, verify_peer, make_app, async_start, destroy_app, on_server_signals, on_client_signals,
}
use cpp_unix_domain_stream.Example.Events.{
  AppEvent, server_does, client_does, callback_runs, is_server_call, is_client_call, server_handles,
  client_handles, step, run,
}
use cpp_unix_domain_stream.Example.Calls.{app_lived}

drop-length {ℓ} : {A : Type ℓ} (xs ys : List A) → ys ≡ xs → drop (length xs) ys ≡ []
drop-length xs ys h = ap (drop (length xs)) (h ∙ sym (append-nil xs)) ∙ drop-append xs []

step_of_server-IsDetached :
    (told : List ServerSignal) (e : ServerEvent) (s : Server)
    → IsDetached told s
    → IsDetached told (step_of_server verify_peer s e)
step_of_server-IsDetached told e s v =
    unfold run_of_server in
    run_of_server-Keeps verify_peer (IsDetached told) (Keeps-IsDetached told verify_peer) s (e ∷ [])
      v

step_of_client-IsDetached :
    (told : List ClientSignal) (e : ClientEvent) (c : Client)
    → IsClientDetached told c
    → IsClientDetached told (step_of_client default_verify_peer c e)
step_of_client-IsDetached told e c v =
    unfold run_of_client in
    run_of_client-Keeps default_verify_peer (IsClientDetached told)
      (Keeps-IsClientDetached told default_verify_peer) c (e ∷ []) v

-- Both are detached, no callback waits, and the calls are these.
pub record IsOver (told : List ServerSignal) (told_client : List ClientSignal)
    (calls : List ServerEvent) (client_calls : List ClientEvent) (output : List Piece) (a : App)
    : Type 0 where
  pub server_detached : IsDetached told a.server
  pub client_detached : IsClientDetached told_client a.client
  pub same_calls : a.server_calls ≡ calls
  pub same_client_calls : a.client_calls ≡ client_calls
  pub same_output : a.output ≡ output
  pub no_callbacks : a.waiting_callbacks ≡ []

module _ (told : List ServerSignal) (told_client : List ClientSignal) (calls : List ServerEvent)
    (client_calls : List ClientEvent) (output : List Piece) where
  abbrev Over : App → Type 0
  Over a = IsOver told told_client calls client_calls output a

  server_handles-Over : (e : ServerEvent) (a : App) → Over a → Over (server_handles e a)
  unfolding server_handles on_server_signals
  server_handles-Over e a v =
      let s = step_of_server verify_peer a.server e in
      let d = step_of_server-IsDetached told e a.server v.server_detached in
      let h = drop-length a.server.signals s.signals (d.silent ∙ sym v.server_detached.silent) in
      simp (h) (record {
        server_detached = d;
        client_detached = v.client_detached;
        same_calls = v.same_calls;
        same_client_calls = v.same_client_calls;
        same_output = v.same_output;
        no_callbacks = v.no_callbacks;
      })

  client_handles-Over : (e : ClientEvent) (a : App) → Over a → Over (client_handles e a)
  unfolding client_handles on_client_signals
  client_handles-Over e a v =
      let c = step_of_client default_verify_peer a.client e in
      let d = step_of_client-IsDetached told_client e a.client v.client_detached in
      let h = drop-length a.client.signals c.signals (d.silent ∙ sym v.client_detached.silent) in
      simp (h) (record {
        server_detached = v.server_detached;
        client_detached = d;
        same_calls = v.same_calls;
        same_client_calls = v.same_client_calls;
        same_output = v.same_output;
        no_callbacks = simp (d.detached, append-nil, v.no_callbacks) refl;
      })

  run-Over : (a : App) (es : List AppEvent) → Over a → Over (run a es)
  unfolding run step
  run-Over a [] v = v
  run-Over a (server_does e ∷ es) v = elim (Bool-cases (is_server_call e)) [
    | inl h ↦ rw (h) (run-Over a es v)
    | inr h ↦ rw (h) (run-Over (server_handles e a) es (server_handles-Over e a v))
  ]
  run-Over a (client_does e ∷ es) v = elim (Bool-cases (is_client_call e)) [
    | inl h ↦ rw (h) (run-Over a es v)
    | inr h ↦ rw (h) (run-Over (client_handles e a) es (client_handles-Over e a v))
  ]
  run-Over a (callback_runs i ∷ es) v =
      let h : get_elem? a.waiting_callbacks i ≡ none = ap (λ ks. get_elem? ks i) v.no_callbacks in
      rw (h, step) (run-Over a es v)

destroy_app-IsOver :
    (server_opts : ServerOptions) (client_opts : ClientOptions) (runtime : Runtime)
    (es : List AppEvent)
    → let a = run (async_start (make_app server_opts client_opts runtime)) es in
      IsOver a.server.signals a.client.signals a.server_calls a.client_calls a.output
        (destroy_app a)
unfolding destroy_app
destroy_app-IsOver server_opts client_opts runtime es =
    let a = run (async_start (make_app server_opts client_opts runtime)) es in
    let (lived, client_lived) = app_lived server_opts client_opts runtime es in
    let old = new_server 0 0 server_opts runtime in
    let v =
      run_of_server-Keeps verify_peer IsConsistent (Keeps-IsConsistent verify_peer) old lived.0
        (unfold new_server in inl refl) in
    let w =
      run_of_client-Keeps default_verify_peer IsClientConsistent
        (Keeps-IsClientConsistent default_verify_peer) (new_client client_opts) client_lived.0
        (unfold new_client in inl refl) in
    record {
      server_detached = shutdown-IsDetached a.server (rw (lived.1) v);
      client_detached = shutdown-IsClientDetached a.client (rw (client_lived.1) w);
      same_calls = refl;
      same_client_calls = refl;
      same_output = refl;
      no_callbacks = refl;
    }

-- After the destruction of the program's object, at any time, whatever may still happen to its server
-- and its client: no signal of either reaches a slot, and the object makes no call and prints nothing.
pub app_end :
    (server_opts : ServerOptions) (client_opts : ClientOptions) (runtime : Runtime)
    (before after : List AppEvent)
    → let a = run (async_start (make_app server_opts client_opts runtime)) before in
      let b = run (destroy_app a) after in
      (b.server.signals ≡ a.server.signals)
      × (b.client.signals ≡ a.client.signals)
      × (b.server_calls ≡ a.server_calls)
      × (b.client_calls ≡ a.client_calls)
      × (b.output ≡ a.output)
app_end server_opts client_opts runtime before after =
    let a = run (async_start (make_app server_opts client_opts runtime)) before in
    let v =
      run-Over a.server.signals a.client.signals a.server_calls a.client_calls a.output
        (destroy_app a) after (destroy_app-IsOver server_opts client_opts runtime before) in
    (
      v.server_detached.silent, v.client_detached.silent, v.same_calls, v.same_client_calls,
      v.same_output,
    )
