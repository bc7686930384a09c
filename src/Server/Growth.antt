-- ===== src/Server/Growth.antt =====
-- server.hpp: what the user was told is never taken back.
use cpp_unix_domain_stream.Prelude.{
  ◌≡◌, sym, ap, ◌∙◌, Bool, List, [], ◌∷◌, ◌++◌, ◌⊎◌, inl, inr, arith, erase_idx,
}
use mathlib.Core.List.{append_assoc, append-nil}
use cpp_unix_domain_stream.Credentials.{PeerCredentials}
use cpp_unix_domain_stream.NotificationScope.{deliver}
use cpp_unix_domain_stream.Server.State
use cpp_unix_domain_stream.Server.State.{Server, ServerSignal, Notice, Task}
use cpp_unix_domain_stream.Server.Acceptor.{bind, on_accept, schedule_bind_retry}
use cpp_unix_domain_stream.Server.Peers.{
  on_request_timer, peer_slot, enqueue_peer_closed, notify_peer_closed,
}
use cpp_unix_domain_stream.Server.HealthCheck.{
  on_probe_timer, on_probe_connect, probe_slot, start_socket_path_health_check_timer,
}
use cpp_unix_domain_stream.Server.Tasks.{
  run_task, run_notice, run_io, stop, async_shutdown, on_bind_retry, if_exposed,
}
use cpp_unix_domain_stream.Server.Events.{Event, step, run}
use cpp_unix_domain_stream.Server.Induction.{Keeps, run-Keeps}
use cpp_unix_domain_stream.Server.Quiet.{
  run_io-Quiet, on_accept-Quiet, peer_slot-Quiet, on_request_timer-Quiet, on_probe_timer-Quiet,
  on_probe_connect-Quiet, probe_slot-Quiet,
}

-- The user was told `old`, and perhaps more since.
abbrev pub HasGrown : List ServerSignal → Server → Type 0
HasGrown old s = (new : List ServerSignal) × (s.signals ≡ old ++ new)

-- What the task emits, if it emits something.
abbrev pub emission : Task → ServerSignal
emission (Task.scoped token Notice.notify_bound) = ServerSignal.bound
emission (Task.scoped token (Notice.notify_bind_failed e)) = ServerSignal.bind_failed e
emission (Task.scoped token (Notice.verify id k)) = ServerSignal.peer_connected id k
emission (Task.received_task id bytes) = ServerSignal.received id bytes
emission (Task.request_received_task id request_id bytes) =
    ServerSignal.request_received id request_id bytes
emission (Task.error_task id e) = ServerSignal.peer_error_occurred id e
emission (Task.peer_closed_task id) = ServerSignal.peer_closed id
emission (Task.not_connected_task callback) = ServerSignal.not_connected_callback callback
emission _ = ServerSignal.closed

pub run_task-signals :
    (verify_peer : PeerCredentials → Bool) (t : Task) (s : Server)
    → ((run_task verify_peer t s).signals ≡ s.signals)
      ⊎ ((run_task verify_peer t s).signals ≡ s.signals ++ (emission t ∷ []))
unfolding run_task run_notice deliver bind stop if_exposed notify_peer_closed schedule_bind_retry
    start_socket_path_health_check_timer
run_task-signals verify_peer t s = ground arith

module _ (old : List ServerSignal) where
  emit-HasGrown :
      (s t : Server) (more : List ServerSignal)
      → (t.signals ≡ s.signals) ⊎ (t.signals ≡ s.signals ++ more)
      → HasGrown old s
      → HasGrown old t
  emit-HasGrown s t more h (new, g) = elim h [
    | inl k ↦ (new, k ∙ g)
    | inr k ↦ (new ++ more, k ∙ ap (λ xs. xs ++ more) g ∙ append_assoc old new more)
  ]

  same-HasGrown : (s t : Server) → t.signals ≡ s.signals → HasGrown old s → HasGrown old t
  same-HasGrown s t h v = emit-HasGrown s t [] (inl h) v

  Keeps-HasGrown : (verify_peer : PeerCredentials → Bool) → Keeps verify_peer (HasGrown old)
  Keeps-HasGrown verify_peer = record {
    enqueues = λ s t v. same-HasGrown s (State.enqueue t s) (ground arith) v;
    posts = λ s t v. v;
    shuts_down =
        λ s v. same-HasGrown s (async_shutdown s) (unfold async_shutdown in ground arith) v;
    runs_io = λ s i r t a v.
        let u = record s { io_tasks = erase_idx s.io_tasks i } in
        same-HasGrown u (run_io r t u) (run_io-Quiet r t u).1 v;
    runs_task = λ s i t h v.
        let u = record s { tasks = erase_idx s.tasks i } in
        emit-HasGrown u (run_task verify_peer t u) (emission t ∷ [])
          (run_task-signals verify_peer t u) v;
    accepts = λ s i token e socket credentials v.
        let u = record s { accepts = erase_idx s.accepts i } in
        same-HasGrown u (on_accept token e socket credentials u)
          (on_accept-Quiet token e socket credentials u).1 v;
    peer_emits =
        λ s k signal v. same-HasGrown s (peer_slot k signal s) (peer_slot-Quiet k signal s).1 v;
    closes = λ s i id v.
        let u = record s { closings = erase_idx s.closings i } in
        same-HasGrown u (enqueue_peer_closed id u) (unfold enqueue_peer_closed in ground arith) v;
    times_out = λ s i id peer_id e v.
        let u = record s { timers = erase_idx s.timers i } in
        same-HasGrown u (on_request_timer id peer_id e u) (on_request_timer-Quiet id peer_id e u).1
          v;
    probe_times_out = λ s i k e v.
        let u = record s { probe_timers = erase_idx s.probe_timers i } in
        same-HasGrown u (on_probe_timer k e u) (on_probe_timer-Quiet k e u).1 v;
    probe_connects = λ s i k e v.
        let u = record s { probe_connects = erase_idx s.probe_connects i } in
        same-HasGrown u (on_probe_connect k e u) (on_probe_connect-Quiet k e u).1 v;
    probe_emits =
        λ s k signal v. same-HasGrown s (probe_slot k signal s) (probe_slot-Quiet k signal s).1 v;
    retries =
        λ s v. same-HasGrown s (on_bind_retry s) (unfold on_bind_retry bind in ground arith) v;
  }

-- An event adds to what the user was told.
pub step-HasGrown :
    (verify_peer : PeerCredentials → Bool) (s : Server) (e : Event)
    → HasGrown s.signals (step verify_peer s e)
step-HasGrown verify_peer s e =
    unfold run in
    run-Keeps verify_peer (HasGrown s.signals) (Keeps-HasGrown s.signals verify_peer) s (e ∷ [])
      ([], sym (append-nil s.signals))
