-- ===== src/Server/Sharing.antt =====
-- server.hpp and impl/runtime.hpp: what a server does to the socket file of another one.
use cpp_unix_domain_stream.Prelude.{
  ◌==◌, ◌||◌, false, none, [], ◌∷◌, inl, inr, get_elem?, Option-cases, ℕ, ◌+◌, ◌≡◌, ◌≢◌, refl, Bool,
  some, List, arith, ErrorCode, erase_idx,
}
use cpp_unix_domain_stream.Credentials.{PeerCredentials}
use cpp_unix_domain_stream.NotificationScope.{Token, deliver}
use cpp_unix_domain_stream.Runtime.{owner_of}
use cpp_unix_domain_stream.Server.State.{
  Server, Probe, Task, IoTask, do_call, socket_close, timer_cancel,
}
use cpp_unix_domain_stream.Server.Acceptor.{BindResults, bind, close_acceptor, schedule_bind_retry}
use cpp_unix_domain_stream.Server.Peers.{
  on_request_timer, close_peer, close_all_peers, send_on_io, respond_on_io, send_request,
  response_received_on_io, error_on_io, closed_on_io, peer_slot, enqueue_peer_closed,
  notify_peer_closed,
}
use cpp_unix_domain_stream.Server.HealthCheck.{
  on_probe_timer, on_probe_connect, probe_slot, health_check_on_io, health_check_done_on_io,
  start_socket_path_health_check_timer,
}
use cpp_unix_domain_stream.Server.Tasks.{
  run_task, run_notice, run_io, stop, stop_on_io, shutdown_on_io, disconnect_peers,
  disconnect_health_check_peer, async_shutdown, on_bind_retry, if_exposed,
}
use cpp_unix_domain_stream.Server.Events.{Event, step, run, io_runs}
use cpp_unix_domain_stream.Server.Induction.{KeepsIf, run-KeepsIf, AnswersIn}
use cpp_unix_domain_stream.Server.Spared.{
  Spared, removals, on_accept-IsSpared, bind_on_io-IsSpared, close_acceptor-IsSpared,
  disconnect_peers-IsSpared, close_all_peers-IsSpared, close_health_check-IsSpared,
  failed_health_check-IsSpared,
}

-- Whether the posted function is a bind attempt at `p`: of a server at `p`, or with a stale file whose
-- key is `p`, or one that resolves its path to `p`.
abbrev pub binds_at : ℕ → BindResults → Server → IoTask → Bool
binds_at p r s (IoTask.bind_io token) = s.socket_file_path == p || r.key == p || r.resolved == p
binds_at p r s _ = false

abbrev pub runs_bind_at : ℕ → Server → Event → Bool
runs_bind_at p s (io_runs i r) = elim (get_elem? s.io_tasks i) [
  | none ↦ false
  | some t ↦ binds_at p r s t
]
runs_bind_at p s _ = false

-- Whether one of the events runs such an attempt.
abbrev pub ever_binds_at : (PeerCredentials → Bool) → ℕ → Server → List Event → Bool
ever_binds_at verify_peer p s [] = false
ever_binds_at verify_peer p s (e ∷ es) =
    runs_bind_at p s e || ever_binds_at verify_peer p (step verify_peer s e) es

module _ (p owner self n : ℕ) (other : self ≢ owner) where
  abbrev IsSpared : Server → Type 0
  IsSpared s = Spared p owner self n s

  stop_on_io-IsSpared : (s : Server) → IsSpared s → IsSpared (stop_on_io s)
  unfolding stop_on_io
  stop_on_io-IsSpared s v =
      let t = close_acceptor s in
      let u = close_all_peers t in
      close_health_check-IsSpared p owner self n other u (
        close_all_peers-IsSpared p owner self n other t
          (close_acceptor-IsSpared p owner self n other s v))

  shutdown_on_io-IsSpared : (s : Server) → IsSpared s → IsSpared (shutdown_on_io s)
  unfolding shutdown_on_io disconnect_health_check_peer
  shutdown_on_io-IsSpared s v =
      let t = close_acceptor s in
      let d = disconnect_peers t.peers t in
      let u = close_all_peers d in
      let w = disconnect_health_check_peer u.health_check_peer u in
      let closed = close_all_peers-IsSpared p owner self n other d (
        disconnect_peers-IsSpared p owner self n other t.peers t
          (close_acceptor-IsSpared p owner self n other s v)) in
      ground (arith, close_health_check-IsSpared p owner self n other w (ground (arith, closed)))

  health_check_on_io-IsSpared :
      (token : Token) (e : ErrorCode) (s : Server)
      → IsSpared s
      → IsSpared (health_check_on_io token e s)
  unfolding health_check_on_io
  health_check_on_io-IsSpared token e s v =
      let t = s.next_handle in
      let u = record s { health_check_timeout = some t; next_handle = t + 1 } in
      ground (arith, failed_health_check-IsSpared p owner self n other token t u (ground arith))

  run_io-IsSpared :
      (r : BindResults) (t : IoTask) (s : Server)
      → binds_at p r s t ≡ false
      → IsSpared s
      → IsSpared (run_io r t s)
  unfolding run_io send_on_io respond_on_io send_request response_received_on_io error_on_io
      closed_on_io health_check_done_on_io close_peer
  run_io-IsSpared r (IoTask.bind_io token) s h v =
      bind_on_io-IsSpared p owner self n other token r s (ground arith) v
  run_io-IsSpared r IoTask.stop_io s h v = stop_on_io-IsSpared s v
  run_io-IsSpared r IoTask.shutdown_io s h v = shutdown_on_io-IsSpared s v
  run_io-IsSpared r (IoTask.health_check_io token) s h v =
      health_check_on_io-IsSpared token r.endpoint_error s v
  run_io-IsSpared r (IoTask.health_check_done_io timeout token) s h v =
      ground (arith, close_health_check-IsSpared p owner self n other s v)
  run_io-IsSpared r (IoTask.health_check_failed_io e timeout token) s h v =
      failed_health_check-IsSpared p owner self n other token timeout s v
  run_io-IsSpared r _ s h v = ground arith

  timer-IsSpared :
      (id peer_id : ℕ) (e : ErrorCode) (s : Server)
      → IsSpared s
      → IsSpared (on_request_timer id peer_id e s)
  unfolding on_request_timer close_peer
  timer-IsSpared id peer_id e s v = ground arith

  probe_timer-IsSpared :
      (k : Probe) (e : ErrorCode) (s : Server) → IsSpared s → IsSpared (on_probe_timer k e s)
  unfolding on_probe_timer
  probe_timer-IsSpared k e s v =
      let t = do_call (socket_close k.object) s in
      ground (
        arith,
        failed_health_check-IsSpared p owner self n other k.token k.timeout t (ground arith),
      )

  probe_connect-IsSpared :
      (k : Probe) (e : ErrorCode) (s : Server) → IsSpared s → IsSpared (on_probe_connect k e s)
  unfolding on_probe_connect
  probe_connect-IsSpared k e s v =
      let t = do_call (timer_cancel k.timeout) s in
      ground (
        arith,
        failed_health_check-IsSpared p owner self n other k.token k.timeout t (ground arith),
      )

  run_task-IsSpared :
      (verify_peer : PeerCredentials → Bool) (t : Task) (s : Server)
      → IsSpared s
      → IsSpared (run_task verify_peer t s)
  unfolding run_task run_notice deliver bind stop if_exposed notify_peer_closed schedule_bind_retry
      start_socket_path_health_check_timer
  run_task-IsSpared verify_peer t s v = ground arith

  -- All events but the runs of posted functions.
  KeepsIf-IsSpared : (verify_peer : PeerCredentials → Bool) → KeepsIf verify_peer (λ r. ⊥) IsSpared
  KeepsIf-IsSpared verify_peer = record {
    enqueues = λ s t v. ground arith;
    posts = λ s t v. ground arith;
    shuts_down = λ s v. unfold async_shutdown in ground arith;
    runs_io = λ s i r t a v. absurd a;
    runs_task = λ s i t h v.
        run_task-IsSpared verify_peer t (record s { tasks = erase_idx s.tasks i }) (ground arith);
    accepts = λ s i token e socket credentials v.
        on_accept-IsSpared p owner self n other token e socket credentials
          (record s { accepts = erase_idx s.accepts i }) (ground arith);
    peer_emits = λ s k signal v. unfold peer_slot enqueue_peer_closed in ground arith;
    closes = λ s i id v. unfold enqueue_peer_closed in ground arith;
    times_out = λ s i id peer_id e v.
        timer-IsSpared id peer_id e (record s { timers = erase_idx s.timers i }) (ground arith);
    probe_times_out = λ s i k e v.
        probe_timer-IsSpared k e (record s { probe_timers = erase_idx s.probe_timers i })
          (ground arith);
    probe_connects = λ s i k e v.
        probe_connect-IsSpared k e (record s { probe_connects = erase_idx s.probe_connects i })
          (ground arith);
    probe_emits = λ s k signal v. unfold probe_slot in ground arith;
    retries = λ s v. unfold on_bind_retry bind in ground arith;
  }

  other_step-IsSpared :
      (verify_peer : PeerCredentials → Bool) (s : Server) (e : Event)
      → AnswersIn (λ r. ⊥) e
      → IsSpared s
      → IsSpared (step verify_peer s e)
  other_step-IsSpared verify_peer s e a v =
      unfold run in
      run-KeepsIf verify_peer (λ r. ⊥) IsSpared (KeepsIf-IsSpared verify_peer) s (e ∷ []) (a, tt) v

  step-IsSpared :
      (verify_peer : PeerCredentials → Bool) (s : Server) (e : Event)
      → runs_bind_at p s e ≡ false
      → IsSpared s
      → IsSpared (step verify_peer s e)
  unfolding step
  step-IsSpared verify_peer s (io_runs i r) h v = elim (Option-cases (get_elem? s.io_tasks i)) [
    | inl g ↦ rw (g, step) v
    | inr (t, g) ↦
        let u = record s { io_tasks = erase_idx s.io_tasks i } in
        rw (g, step) (run_io-IsSpared r t u (ground arith) (ground arith))
  ]
  step-IsSpared verify_peer s e h v = other_step-IsSpared verify_peer s e tt v

  run-IsSpared :
      (verify_peer : PeerCredentials → Bool) (s : Server) (es : List Event)
      → ever_binds_at verify_peer p s es ≡ false
      → IsSpared s
      → IsSpared (run verify_peer s es)
  unfolding run
  run-IsSpared verify_peer s [] h v = v
  run-IsSpared verify_peer s (e ∷ es) h v =
      run-IsSpared verify_peer (step verify_peer s e) es (ground arith)
        (step-IsSpared verify_peer s e (ground arith) v)

-- From any state of a server in which a path `p` belongs to another server, also one in which it holds
-- `p` as the path that it has bound, since the other server took `p` over: as long as the server makes
-- no bind attempt at `p`, whatever happens, `p` still belongs to the other server, and the file there is
-- not removed once more. This holds for failed health checks, stops, the shutdown and failed accepts.
pub server_sharing :
    (verify_peer : PeerCredentials → Bool) (p owner : ℕ) (s : Server) (es : List Event)
    → s.self ≢ owner
    → owner_of p s.runtime.socket_file_path_owners ≡ some owner
    → ever_binds_at verify_peer p s es ≡ false
    → let t = run verify_peer s es in
      (owner_of p t.runtime.socket_file_path_owners ≡ some owner)
      × (removals p t.runtime ≡ removals p s.runtime)
server_sharing verify_peer p owner s es other h a =
    (run-IsSpared p owner s.self (removals p s.runtime) other verify_peer s es a
      (record { same_self = refl; owned = (h, refl) })).owned
