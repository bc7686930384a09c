-- ===== src/Server/Detached.antt =====
-- server.hpp: a server that `async_shutdown` has detached from its dispatcher, over all handlers.
use cpp_unix_domain_stream.Prelude.{
  ℕ, ◌≡◌, ap, ◌∙◌, Bool, true, false, some, List, [], ◌⊎◌, inl, inr, arith, get_elem?, erase_idx,
}
use cpp_unix_domain_stream.Credentials.{PeerCredentials}
use cpp_unix_domain_stream.NotificationScope
use cpp_unix_domain_stream.NotificationScope.{Token, is_current, deliver}
use cpp_unix_domain_stream.Server.State.{Server, ServerSignal, Task}
use cpp_unix_domain_stream.Server.Acceptor.{bind, on_accept, schedule_bind_retry}
use cpp_unix_domain_stream.Server.Peers.{
  on_request_timer, peer_slot, enqueue_peer_closed, notify_peer_closed,
}
use cpp_unix_domain_stream.Server.HealthCheck.{
  on_probe_timer, on_probe_connect, probe_slot, start_socket_path_health_check_timer,
}
use cpp_unix_domain_stream.Server.Tasks.{
  run_task, run_notice, run_io, stop, async_shutdown, on_bind_retry, if_exposed,
}
use cpp_unix_domain_stream.Server.Induction.{Keeps}
use cpp_unix_domain_stream.Server.Quiet.{
  Quiet, run_io-Quiet, on_accept-Quiet, peer_slot-Quiet, on_request_timer-Quiet,
  on_probe_timer-Quiet, on_probe_connect-Quiet, probe_slot-Quiet,
}

-- Detached from the dispatcher, with nothing left to run on it, having emitted `signals`.
pub record IsDetached (signals : List ServerSignal) (s : Server) : Type 0 where
  pub detached : s.attached ≡ false
  pub no_tasks : s.tasks ≡ []
  pub not_running : s.scope.running ≡ false
  pub shutting_down : s.shutdown_started ≡ true
  pub no_exposed : s.exposed_peer_ids ≡ []
  pub silent : s.signals ≡ signals

module _ (signals : List ServerSignal) where
  pub Quiet-IsDetached : (s t : Server) → Quiet s t → IsDetached signals s → IsDetached signals t
  Quiet-IsDetached s t q v = ground (arith, q)

  pub no_task :
      (i : ℕ) (t : Task) (s : Server) → IsDetached signals s → ¬ (get_elem? s.tasks i ≡ some t)
  no_task i t s v h = let none_there = ap (λ ts. get_elem? ts i) v.no_tasks in absurd cc

  pub Keeps-IsDetached :
      (verify_peer : PeerCredentials → Bool) → Keeps verify_peer (IsDetached signals)
  Keeps-IsDetached verify_peer = record {
    enqueues = λ s t v. ground arith;
    posts = λ s t v. ground arith;
    shuts_down = λ s v. unfold async_shutdown in ground arith;
    runs_io = λ s i r t a v.
        let u = record s { io_tasks = erase_idx s.io_tasks i } in
        Quiet-IsDetached u (run_io r t u) (run_io-Quiet r t u) (ground arith);
    runs_task = λ s i t h v. absurd (no_task i t s v h);
    accepts = λ s i token e socket credentials v.
        let u = record s { accepts = erase_idx s.accepts i } in
        Quiet-IsDetached u (on_accept token e socket credentials u)
          (on_accept-Quiet token e socket credentials u) (ground arith);
    peer_emits =
        λ s k signal v. Quiet-IsDetached s (peer_slot k signal s) (peer_slot-Quiet k signal s) v;
    closes = λ s i id v. unfold enqueue_peer_closed in ground arith;
    times_out = λ s i id peer_id e v.
        let u = record s { timers = erase_idx s.timers i } in
        Quiet-IsDetached u (on_request_timer id peer_id e u) (on_request_timer-Quiet id peer_id e u)
          (ground arith);
    probe_times_out = λ s i k e v.
        let u = record s { probe_timers = erase_idx s.probe_timers i } in
        Quiet-IsDetached u (on_probe_timer k e u) (on_probe_timer-Quiet k e u) (ground arith);
    probe_connects = λ s i k e v.
        let u = record s { probe_connects = erase_idx s.probe_connects i } in
        Quiet-IsDetached u (on_probe_connect k e u) (on_probe_connect-Quiet k e u) (ground arith);
    probe_emits =
        λ s k signal v. Quiet-IsDetached s (probe_slot k signal s) (probe_slot-Quiet k signal s) v;
    retries = λ s v. unfold on_bind_retry in ground arith;
  }

run_task-flag :
    (verify_peer : PeerCredentials → Bool) (t : Task) (s : Server)
    → (run_task verify_peer t s).shutdown_started ≡ s.shutdown_started
unfolding run_task run_notice deliver bind stop if_exposed notify_peer_closed schedule_bind_retry
    start_socket_path_health_check_timer
run_task-flag verify_peer t s = ground arith

-- A server that has begun to shut down is detached.
abbrev pub IsConsistent : Server → Type 0
IsConsistent s = (s.shutdown_started ≡ false) ⊎ IsDetached s.signals s

IsDetached-IsConsistent :
    (signals : List ServerSignal) (s : Server) → IsDetached signals s → IsConsistent s
IsDetached-IsConsistent signals s v = ground arith

Quiet-IsConsistent : (s t : Server) → Quiet s t → IsConsistent s → IsConsistent t
Quiet-IsConsistent s t q v = ground (arith, q)

run_task-IsConsistent :
    (verify_peer : PeerCredentials → Bool) (i : ℕ) (t : Task) (s : Server)
    → get_elem? s.tasks i ≡ some t
    → IsConsistent s
    → IsConsistent (run_task verify_peer t (record s { tasks = erase_idx s.tasks i }))
run_task-IsConsistent verify_peer i t s h (inl f) =
    inl (run_task-flag verify_peer t (record s { tasks = erase_idx s.tasks i }) ∙ f)
run_task-IsConsistent verify_peer i t s h (inr w) = absurd (no_task s.signals i t s w h)

pub shutdown-IsDetached : (s : Server) → IsConsistent s → IsDetached s.signals (async_shutdown s)
unfolding async_shutdown NotificationScope.stop
shutdown-IsDetached s v = ground arith

pub Keeps-IsConsistent : (verify_peer : PeerCredentials → Bool) → Keeps verify_peer IsConsistent
Keeps-IsConsistent verify_peer = record {
  enqueues = λ s t v. ground arith;
  posts = λ s t v. ground arith;
  shuts_down =
      λ s v. IsDetached-IsConsistent s.signals (async_shutdown s) (shutdown-IsDetached s v);
  runs_io = λ s i r t a v.
      let u = record s { io_tasks = erase_idx s.io_tasks i } in
      Quiet-IsConsistent u (run_io r t u) (run_io-Quiet r t u) (ground arith);
  runs_task = λ s i t h v. run_task-IsConsistent verify_peer i t s h v;
  accepts = λ s i token e socket credentials v.
      let u = record s { accepts = erase_idx s.accepts i } in
      Quiet-IsConsistent u (on_accept token e socket credentials u)
        (on_accept-Quiet token e socket credentials u) (ground arith);
  peer_emits =
      λ s k signal v. Quiet-IsConsistent s (peer_slot k signal s) (peer_slot-Quiet k signal s) v;
  closes = λ s i id v. unfold enqueue_peer_closed in ground arith;
  times_out = λ s i id peer_id e v.
      let u = record s { timers = erase_idx s.timers i } in
      Quiet-IsConsistent u (on_request_timer id peer_id e u) (on_request_timer-Quiet id peer_id e u)
        (ground arith);
  probe_times_out = λ s i k e v.
      let u = record s { probe_timers = erase_idx s.probe_timers i } in
      Quiet-IsConsistent u (on_probe_timer k e u) (on_probe_timer-Quiet k e u) (ground arith);
  probe_connects = λ s i k e v.
      let u = record s { probe_connects = erase_idx s.probe_connects i } in
      Quiet-IsConsistent u (on_probe_connect k e u) (on_probe_connect-Quiet k e u) (ground arith);
  probe_emits =
      λ s k signal v. Quiet-IsConsistent s (probe_slot k signal s) (probe_slot-Quiet k signal s) v;
  retries = λ s v. unfold on_bind_retry bind in ground arith;
}
