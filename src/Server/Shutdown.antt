-- ===== src/Server/Shutdown.antt =====
-- server.hpp: `async_shutdown`, which the destructor of a server calls, and everything that may still run.
use cpp_unix_domain_stream.Prelude.{
  ℕ, ◌≡◌, refl, ◌∙◌, Bool, Option, none, some, List, [], ◌∷◌, inl, arith, ErrorCode, success,
  operation_aborted, connection_reset, erase_idx,
}
use cpp_unix_domain_stream.Options.{ServerOptions}
use cpp_unix_domain_stream.Credentials.{PeerCredentials}
use cpp_unix_domain_stream.NotificationScope.{is_current}
use cpp_unix_domain_stream.Runtime.{Runtime}
use cpp_unix_domain_stream.RequestManager.Ids.{pending-complete_all}
use cpp_unix_domain_stream.RequestManager.Empty.{
  complete_peer-empty, complete_of_peer-empty, on_timer-empty,
}
use cpp_unix_domain_stream.Server.State.{
  do_call, peer_disconnect_slots, Server, ServerSignal, Probe, IoTask, new_server,
}
use cpp_unix_domain_stream.Server.Acceptor.{
  BindResults, on_accept, close_acceptor, release_path, find, erase,
}
use cpp_unix_domain_stream.Server.Peers.{
  on_request_timer, close_peer, close_peers, close_all_peers, send_on_io, respond_on_io,
  send_request, response_received_on_io, error_on_io, closed_on_io, peer_slot, enqueue_peer_closed,
}
use cpp_unix_domain_stream.Server.HealthCheck.{
  on_probe_timer, on_probe_connect, probe_slot, health_check_done_on_io,
  handle_socket_path_health_check_failed, is_current_socket_path_health_check,
  close_socket_path_health_check_peer, reset_health_check_timeout,
}
use cpp_unix_domain_stream.Server.Tasks.{
  run_io, stop_on_io, shutdown_on_io, disconnect_peers, disconnect_health_check_peer,
  async_shutdown, on_bind_retry,
}
use cpp_unix_domain_stream.Server.Facade.{make_server, destroy_server}
use cpp_unix_domain_stream.Server.Events.{Event, run}
use cpp_unix_domain_stream.Server.Induction.{Keeps, run-Keeps}
use cpp_unix_domain_stream.Server.Quiet.{shutdown_on_io-Quiet}
use cpp_unix_domain_stream.Server.Stop.{
  IsStopped, stopped-Ignores, Kept, Emptied, close_acceptor-lem, close_all_peers-Emptied,
  close_health_check-IsStopped,
}
use cpp_unix_domain_stream.Server.Detached.{
  IsDetached, Quiet-IsDetached, no_task, Keeps-IsDetached, IsConsistent, Keeps-IsConsistent,
  shutdown-IsDetached,
}

module _ (signals : List ServerSignal) where
  -- And it holds no acceptor, no peer, no request and no health check.
  abbrev pub IsGone : Server → Type 0
  IsGone s = IsDetached signals s × IsStopped s

  stop_on_io-IsStopped : (s : Server) → IsStopped s → IsStopped (stop_on_io s)
  unfolding stop_on_io close_all_peers close_peers close_acceptor release_path
      close_socket_path_health_check_peer reset_health_check_timeout
  stop_on_io-IsStopped s v = ground (arith, pending-complete_all operation_aborted s.manager)

  shutdown_on_io-IsStopped : (s : Server) → IsStopped s → IsStopped (shutdown_on_io s)
  unfolding shutdown_on_io disconnect_peers disconnect_health_check_peer close_all_peers close_peers
      close_acceptor release_path close_socket_path_health_check_peer reset_health_check_timeout
  shutdown_on_io-IsStopped s v = ground (arith, pending-complete_all operation_aborted s.manager)

  run_io-IsStopped :
      (r : BindResults) (t : IoTask) (s : Server) → IsStopped s → IsStopped (run_io r t s)
  unfolding run_io
  run_io-IsStopped r (IoTask.bind_io token) s v = rw ((stopped-Ignores s v).no_bind token r) v
  run_io-IsStopped r IoTask.stop_io s v = stop_on_io-IsStopped s v
  run_io-IsStopped r IoTask.shutdown_io s v = shutdown_on_io-IsStopped s v
  run_io-IsStopped r (IoTask.health_check_io token) s v =
      rw ((stopped-Ignores s v).no_check token r.endpoint_error) v
  run_io-IsStopped r (IoTask.health_check_done_io timeout token) s v =
      unfold health_check_done_on_io is_current_socket_path_health_check in ground arith
  run_io-IsStopped r (IoTask.health_check_failed_io e timeout token) s v =
      rw ((stopped-Ignores s v).no_failed_check token timeout) v
  run_io-IsStopped r (IoTask.response_received_io id p request_id bytes) s v =
      unfold response_received_on_io in
      ground (arith, complete_of_peer-empty id request_id success (some bytes) s.manager)
  run_io-IsStopped r (IoTask.error_io id e) s v =
      unfold error_on_io in ground (arith, complete_peer-empty id e s.manager)
  run_io-IsStopped r (IoTask.closed_io id) s v =
      unfold closed_on_io erase in ground (arith, complete_peer-empty id connection_reset s.manager)
  run_io-IsStopped r t s v =
      unfold send_on_io respond_on_io send_request close_peer find in ground arith

  timer-IsStopped :
      (id peer_id : ℕ) (e : ErrorCode) (s : Server)
      → IsStopped s
      → IsStopped (on_request_timer id peer_id e s)
  unfolding on_request_timer close_peer find
  timer-IsStopped id peer_id e s v = ground (arith, on_timer-empty id e s.manager)

  probe_timer-IsStopped :
      (k : Probe) (e : ErrorCode) (s : Server) → IsStopped s → IsStopped (on_probe_timer k e s)
  unfolding on_probe_timer handle_socket_path_health_check_failed
      is_current_socket_path_health_check
  probe_timer-IsStopped k e s v = ground arith

  probe_connect-IsStopped :
      (k : Probe) (e : ErrorCode) (s : Server) → IsStopped s → IsStopped (on_probe_connect k e s)
  unfolding on_probe_connect is_current_socket_path_health_check
  probe_connect-IsStopped k e s v = ground arith

  Keeps-IsGone : (verify_peer : PeerCredentials → Bool) → Keeps verify_peer IsGone
  Keeps-IsGone verify_peer =
      let d = Keeps-IsDetached signals verify_peer in
      record {
        enqueues = λ s t v. (d.enqueues s t v.0, ground arith);
        posts = λ s t v. (d.posts s t v.0, ground arith);
        shuts_down = λ s v. (d.shuts_down s v.0, unfold async_shutdown in ground arith);
        runs_io = λ s i r t a v. (
          d.runs_io s i r t a v.0,
          run_io-IsStopped r t (record s { io_tasks = erase_idx s.io_tasks i }) (ground arith),
        );
        runs_task = λ s i t h v. absurd (no_task signals i t s v.0 h);
        accepts = λ s i token e socket credentials v. (
          d.accepts s i token e socket credentials v.0,
          unfold on_accept is_current in ground arith,
        );
        peer_emits = λ s k signal v.
            (d.peer_emits s k signal v.0, unfold peer_slot enqueue_peer_closed in ground arith);
        closes = λ s i id v. (d.closes s i id v.0, unfold enqueue_peer_closed in ground arith);
        times_out = λ s i id peer_id e v. (
          d.times_out s i id peer_id e v.0,
          timer-IsStopped id peer_id e (record s { timers = erase_idx s.timers i }) (ground arith),
        );
        probe_times_out = λ s i k e v. (
          d.probe_times_out s i k e v.0,
          probe_timer-IsStopped k e (record s { probe_timers = erase_idx s.probe_timers i })
              (ground arith),
        );
        probe_connects = λ s i k e v. (
          d.probe_connects s i k e v.0,
          probe_connect-IsStopped k e (record s { probe_connects = erase_idx s.probe_connects i })
              (ground arith),
        );
        probe_emits =
            λ s k signal v. (d.probe_emits s k signal v.0, unfold probe_slot in ground arith);
        retries = λ s v. (d.retries s v.0, unfold on_bind_retry in ground arith);
      }

disconnect_peers-Kept : (peers : List (ℕ × ℕ)) (s : Server) → Kept s (disconnect_peers peers s)
unfolding disconnect_peers
disconnect_peers-Kept [] s = (refl, refl, refl, refl, refl)
disconnect_peers-Kept ((id, p) ∷ rest) s =
    disconnect_peers-Kept rest (do_call (peer_disconnect_slots p) s)

disconnect_health_check-Emptied :
    (p : Option ℕ) (s t : Server) → Emptied s t → Emptied s (disconnect_health_check_peer p t)
unfolding disconnect_health_check_peer
disconnect_health_check-Emptied none s t v = v
disconnect_health_check-Emptied (some p) s t v = v

shutdown_on_io-IsGone :
    (signals : List ServerSignal) (s : Server)
    → IsDetached signals s
    → IsGone signals (shutdown_on_io s)
unfolding shutdown_on_io
shutdown_on_io-IsGone signals s v =
    let t = close_acceptor s in
    let d = disconnect_peers t.peers t in
    let u = close_all_peers d in
    let w = disconnect_health_check_peer u.health_check_peer u in
    let (scope, exposed, acceptor, path) = close_acceptor-lem s in
    let (e, f, g, h, i) = disconnect_peers-Kept t.peers t in
    let x = close_health_check-IsStopped s w v.not_running v.no_exposed (
      disconnect_health_check-Emptied u.health_check_peer s u
        (close_all_peers-Emptied s d (e ∙ scope) (f ∙ exposed) (g ∙ acceptor) (h ∙ path))) in
    (Quiet-IsDetached signals s (shutdown_on_io s) (shutdown_on_io-Quiet s) v, ground (arith, x))

-- A new server goes through any events, is destroyed, and goes through any events; then the function
-- that its destruction posted runs, and any events follow. Whatever the user's `verify_peer` answers,
-- from the destruction on no signal of the user is emitted, and in the end the server holds no
-- acceptor, no bound socket file, no peer, no pending request and no health check.
pub server_shutdown :
    (verify_peer : PeerCredentials → Bool) (self path : ℕ) (options : ServerOptions)
    (runtime : Runtime) (before between after : List Event)
    → let s = run verify_peer (make_server self path options runtime).state before in
      let t = run verify_peer (destroy_server (record { state = s })) between in
      let u = run verify_peer (shutdown_on_io t) after in
      (t.signals ≡ s.signals) × (u.signals ≡ s.signals) × IsStopped u
server_shutdown verify_peer self path options runtime before between after =
    let s = run verify_peer (new_server self path options runtime) before in
    let v =
      run-Keeps verify_peer IsConsistent (Keeps-IsConsistent verify_peer)
        (new_server self path options runtime) before (unfold new_server in inl refl) in
    let w =
      run-Keeps verify_peer (IsDetached s.signals) (Keeps-IsDetached s.signals verify_peer)
        (async_shutdown s) between (shutdown-IsDetached s v) in
    let t = run verify_peer (async_shutdown s) between in
    let x =
      run-Keeps verify_peer (IsGone s.signals) (Keeps-IsGone s.signals verify_peer)
        (shutdown_on_io t) after (shutdown_on_io-IsGone s.signals t w) in
    (w.silent, x.0.silent, x.1)
