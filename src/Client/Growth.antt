-- ===== src/Client/Growth.antt =====
-- client.hpp: what the user was told is never taken back.
use cpp_unix_domain_stream.Prelude.{
  ◌≡◌, sym, ap, ◌∙◌, Bool, List, [], ◌∷◌, ◌++◌, ◌⊎◌, inl, inr, arith, ErrorCode, erase_idx,
}
use mathlib.Core.List.{append_assoc, append-nil}
use cpp_unix_domain_stream.Credentials.{PeerCredentials}
use cpp_unix_domain_stream.NotificationScope.{deliver}
use cpp_unix_domain_stream.Client.State
use cpp_unix_domain_stream.Client.State.{Client, ClientSignal, Notice, Task, IoTask}
use cpp_unix_domain_stream.Client.Connection.{
  connect_on_io, on_connect, on_reconnect, close_connecting_socket, close_peer, stop_on_io,
  invalidate_on_io, connect, stop, invalidate_connection, schedule_reconnect,
  handle_connected_socket,
}
use cpp_unix_domain_stream.Client.Requests.{
  send_request, on_request_timeout, on_request_timer, send_on_io, respond_on_io, received_on_io,
  request_received_on_io, response_received_on_io, error_on_io, closed_on_io, connected_on_io,
}
use cpp_unix_domain_stream.Client.Tasks.{
  run_task, run_notice, run_io, shutdown_on_io, disconnect_peer, async_shutdown,
}
use cpp_unix_domain_stream.Client.Events.{Event, step, run}
use cpp_unix_domain_stream.Client.Induction.{Keeps, run-Keeps}

-- The user was told `old`, and perhaps more since.
abbrev pub HasGrown : List ClientSignal → Client → Type 0
HasGrown old c = (new : List ClientSignal) × (c.signals ≡ old ++ new)

run_io-signals : (e : ErrorCode) (t : IoTask) (c : Client) → (run_io e t c).signals ≡ c.signals
unfolding run_io stop_on_io shutdown_on_io invalidate_on_io disconnect_peer connect_on_io send_on_io
    respond_on_io send_request handle_connected_socket received_on_io request_received_on_io
    response_received_on_io error_on_io closed_on_io connected_on_io close_peer
    close_connecting_socket
run_io-signals e t c = ground arith

-- What the task emits, if it emits something.
abbrev emission : Task → ClientSignal
emission (Task.scoped token (Notice.notify_connect_failed e)) = ClientSignal.connect_failed e
emission (Task.scoped token (Notice.notify_verification_failed k)) =
    ClientSignal.peer_verification_failed k
emission (Task.scoped token (Notice.notify_received bytes)) = ClientSignal.received bytes
emission (Task.scoped token (Notice.notify_request_received id bytes)) =
    ClientSignal.request_received id bytes
emission (Task.scoped token (Notice.notify_error e)) = ClientSignal.error_occurred e
emission (Task.scoped token (Notice.notify_connected k)) = ClientSignal.connected k
emission (Task.not_connected_task callback) = ClientSignal.not_connected_callback callback
emission _ = ClientSignal.closed

run_task-signals :
    (verify_peer : PeerCredentials → Bool) (t : Task) (c : Client)
    → ((run_task verify_peer t c).signals ≡ c.signals)
      ⊎ ((run_task verify_peer t c).signals ≡ c.signals ++ (emission t ∷ []))
unfolding run_task run_notice deliver connect stop invalidate_connection schedule_reconnect
run_task-signals verify_peer t c = ground arith

module _ (old : List ClientSignal) where
  emit-HasGrown :
      (c d : Client) (more : List ClientSignal)
      → (d.signals ≡ c.signals) ⊎ (d.signals ≡ c.signals ++ more)
      → HasGrown old c
      → HasGrown old d
  emit-HasGrown c d more h (new, g) = elim h [
    | inl k ↦ (new, k ∙ g)
    | inr k ↦ (new ++ more, k ∙ ap (λ xs. xs ++ more) g ∙ append_assoc old new more)
  ]

  same-HasGrown : (c d : Client) → d.signals ≡ c.signals → HasGrown old c → HasGrown old d
  same-HasGrown c d h v = emit-HasGrown c d [] (inl h) v

  Keeps-HasGrown : (verify_peer : PeerCredentials → Bool) → Keeps verify_peer (HasGrown old)
  Keeps-HasGrown verify_peer = record {
    enqueues = λ c t v. same-HasGrown c (State.enqueue t c) (ground arith) v;
    posts = λ c t v. v;
    shuts_down =
        λ c v. same-HasGrown c (async_shutdown c) (unfold async_shutdown in ground arith) v;
    runs_io = λ c i e t v.
        let d = record c { io_tasks = erase_idx c.io_tasks i } in
        same-HasGrown d (run_io e t d) (run_io-signals e t d) v;
    runs_task = λ c i t h v.
        let d = record c { tasks = erase_idx c.tasks i } in
        emit-HasGrown d (run_task verify_peer t d) (emission t ∷ [])
          (run_task-signals verify_peer t d) v;
    connects = λ c i socket token e credentials v.
        let d = record c { connects = erase_idx c.connects i } in
        same-HasGrown d (on_connect socket token e credentials d)
          (unfold on_connect in ground arith) v;
    times_out = λ c i id token e v.
        let d = record c { timers = erase_idx c.timers i } in
        same-HasGrown d (on_request_timer id token e d)
          (unfold on_request_timer on_request_timeout close_peer in ground arith) v;
    reconnects =
        λ c v. same-HasGrown c (on_reconnect c) (unfold on_reconnect connect in ground arith) v;
  }

-- An event adds to what the user was told.
pub step-HasGrown :
    (verify_peer : PeerCredentials → Bool) (c : Client) (e : Event)
    → HasGrown c.signals (step verify_peer c e)
step-HasGrown verify_peer c e =
    unfold run in
    run-Keeps verify_peer (HasGrown c.signals) (Keeps-HasGrown c.signals verify_peer) c (e ∷ [])
      ([], sym (append-nil c.signals))
