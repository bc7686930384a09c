-- ===== src/Server/History.antt =====
-- server.hpp: the signals about one peer, over the tasks and events of the server.
use cpp_unix_domain_stream.Prelude.{
  ℕ, refl, Bool, List, arith, inl, inr, Bool-cases, ==_iff, erase_idx,
}
use cpp_unix_domain_stream.Credentials.{PeerCredentials}
use cpp_unix_domain_stream.NotificationScope.{deliver, is_current}
use cpp_unix_domain_stream.Server.State.{
  Server, peer_error_occurred, received, request_received, not_connected_callback, Task, start_task,
  stop_task, scoped, received_task, request_received_task, error_task, peer_closed_task,
  not_connected_task, new_server,
}
use cpp_unix_domain_stream.Server.Peers.{enqueue_peer_closed, peer_slot, on_request_timer}
use cpp_unix_domain_stream.Server.Tasks.{run_task, run_io, stop, on_bind_retry, async_shutdown}
use cpp_unix_domain_stream.Server.Quiet.{
  Quiet, run_io-Quiet, on_accept-Quiet, peer_slot-Quiet, on_request_timer-Quiet,
  on_probe_timer-Quiet, on_probe_connect-Quiet, probe_slot-Quiet,
}
use cpp_unix_domain_stream.Server.Events.{Event, run}
use cpp_unix_domain_stream.Server.Induction.{Keeps, run-Keeps}
use cpp_unix_domain_stream.Options.{ServerOptions}
use cpp_unix_domain_stream.Runtime.{Runtime}
use cpp_unix_domain_stream.Server.HealthCheck.{on_probe_timer, on_probe_connect, probe_slot}
use cpp_unix_domain_stream.Server.Acceptor.{bind, on_accept}
use cpp_unix_domain_stream.Server.Exposure.{
  IsExposure, emit-IsExposure, if_exposed-IsExposure, notify_peer_closed-IsExposure,
  run_notice-IsExposure,
}

run_task-IsExposure :
    (verify_peer : PeerCredentials → Bool) (id : ℕ) (t : Task) (s : Server)
    → IsExposure verify_peer id s
    → IsExposure verify_peer id (run_task verify_peer t s)
unfolding run_task deliver bind stop
run_task-IsExposure verify_peer id start_task s v = v
run_task-IsExposure verify_peer id stop_task s v = record {
  accounted = omega (arith, v.accounted);
  announced = v.announced;
  accepted = v.accepted;
}
run_task-IsExposure verify_peer id (scoped token notice) s v =
    elim (Bool-cases (is_current s.scope token)) [
      | inl h ↦ rw h (run_notice-IsExposure verify_peer id notice s v)
      | inr h ↦ rw h v
    ]
run_task-IsExposure verify_peer id (received_task i bytes) s v =
    if_exposed-IsExposure verify_peer id i (received i bytes) s refl refl tt
      (λ h. (==_iff i id).0 h) v
run_task-IsExposure verify_peer id (request_received_task i request_id bytes) s v =
    if_exposed-IsExposure verify_peer id i (request_received i request_id bytes) s refl refl tt
      (λ h. (==_iff i id).0 h) v
run_task-IsExposure verify_peer id (error_task i e) s v =
    if_exposed-IsExposure verify_peer id i (peer_error_occurred i e) s refl refl tt
      (λ h. (==_iff i id).0 h) v
run_task-IsExposure verify_peer id (peer_closed_task i) s v =
    notify_peer_closed-IsExposure verify_peer id i s v
run_task-IsExposure verify_peer id (not_connected_task callback) s v =
    emit-IsExposure verify_peer id (not_connected_callback callback) s refl refl tt (λ h. cc) v

Quiet-IsExposure :
    (verify_peer : PeerCredentials → Bool) (id : ℕ) (s t : Server)
    → Quiet s t
    → IsExposure verify_peer id s
    → IsExposure verify_peer id t
Quiet-IsExposure verify_peer id s t q v = rw (q.0, q.1) v

-- Every handler keeps what the user learnt of each peer in order.
Keeps-IsExposure :
    (verify_peer : PeerCredentials → Bool) (id : ℕ) → Keeps verify_peer (IsExposure verify_peer id)
Keeps-IsExposure verify_peer id =
    let quietly = Quiet-IsExposure verify_peer id in
    record {
      enqueues = λ s t v. ground arith;
      posts = λ s t v. v;
      shuts_down = λ s v. unfold async_shutdown in ground arith;
      runs_io = λ s i r t a v.
          let u = record s { io_tasks = erase_idx s.io_tasks i } in
          quietly u (run_io r t u) (run_io-Quiet r t u) v;
      runs_task = λ s i t h v.
          run_task-IsExposure verify_peer id t (record s { tasks = erase_idx s.tasks i }) v;
      accepts = λ s i token e socket credentials v.
          let u = record s { accepts = erase_idx s.accepts i } in
          quietly u (on_accept token e socket credentials u)
            (on_accept-Quiet token e socket credentials u) v;
      peer_emits = λ s k signal v. quietly s (peer_slot k signal s) (peer_slot-Quiet k signal s) v;
      closes = λ s i peer_id v. unfold enqueue_peer_closed in ground arith;
      times_out = λ s i request_id peer_id e v.
          let u = record s { timers = erase_idx s.timers i } in
          quietly u (on_request_timer request_id peer_id e u)
            (on_request_timer-Quiet request_id peer_id e u) v;
      probe_times_out = λ s i k e v.
          let u = record s { probe_timers = erase_idx s.probe_timers i } in
          quietly u (on_probe_timer k e u) (on_probe_timer-Quiet k e u) v;
      probe_connects = λ s i k e v.
          let u = record s { probe_connects = erase_idx s.probe_connects i } in
          quietly u (on_probe_connect k e u) (on_probe_connect-Quiet k e u) v;
      probe_emits =
          λ s k signal v. quietly s (probe_slot k signal s) (probe_slot-Quiet k signal s) v;
      retries = λ s v. unfold on_bind_retry bind in ground arith;
    }

-- After any sequence of events from a new server, whatever its peers send, for each peer id: the user
-- was told `peer_closed` at most as often as `peer_connected`, and strictly less often while the peer
-- is exposed; no message, error or close of the peer came before its `peer_connected`; and each
-- `peer_connected` carried credentials that `verify_peer` accepts.
pub server-IsExposure :
    (verify_peer : PeerCredentials → Bool) (id self path : ℕ) (options : ServerOptions)
    (runtime : Runtime) (es : List Event)
    → IsExposure verify_peer id (run verify_peer (new_server self path options runtime) es)
server-IsExposure verify_peer id self path options runtime es =
    run-Keeps verify_peer (IsExposure verify_peer id) (Keeps-IsExposure verify_peer id)
      (new_server self path options runtime) es (unfold new_server in ground arith)
