-- ===== src/Server/Session.antt =====
-- server.hpp: what the server holds between two events.
use cpp_unix_domain_stream.Prelude.{
  ℕ, ◌≡◌, Bool, true, Option, none, some, List, [], ◌∷◌, is_some, arith, success, connection_reset,
  erase_idx,
}
use cpp_unix_domain_stream.Credentials.{PeerCredentials}
use cpp_unix_domain_stream.NotificationScope.{deliver}
use cpp_unix_domain_stream.Options.{ServerOptions}
use cpp_unix_domain_stream.RequestManager.{initial_manager}
use cpp_unix_domain_stream.Runtime.{Runtime}
use cpp_unix_domain_stream.Server.State.{
  Server, Notice, Task, IoTask, new_server, do_call, peer_disconnect_slots,
}
use cpp_unix_domain_stream.Server.Acceptor.{
  BindResults, find, close_acceptor, schedule_bind_retry, bind,
}
use cpp_unix_domain_stream.Server.Peers.{
  close_all_peers, send_on_io, respond_on_io, send_request, response_received_on_io, error_on_io,
  closed_on_io, enqueue_peer_closed, notify_peer_closed,
}
use cpp_unix_domain_stream.Server.HealthCheck.{
  health_check_done_on_io, start_socket_path_health_check_timer,
}
use cpp_unix_domain_stream.Server.Tasks.{
  stop, stop_on_io, disconnect_peers, disconnect_health_check_peer, shutdown_on_io, async_shutdown,
  run_io, run_task, run_notice, if_exposed, on_bind_retry,
}
use cpp_unix_domain_stream.Server.Events.{Event, run}
use cpp_unix_domain_stream.Server.Induction.{Keeps, run-Keeps}
use cpp_unix_domain_stream.Server.Waiting.{
  complete_of_peer-Waiting, complete_peer-Waiting, complete_peer-Waiting-erase, add-Waiting,
}
use cpp_unix_domain_stream.Server.Links.{
  IsLinked, close_acceptor-IsLinked, bind_on_io-IsLinked, on_accept-IsLinked, close_peer-IsLinked,
  close_all_peers-IsLinked, on_request_timer-IsLinked, peer_slot-IsLinked,
  close_health_check-IsLinked, failed_health_check-IsLinked, health_check_on_io-IsLinked,
  on_probe_timer-IsLinked, on_probe_connect-IsLinked, probe_slot-IsLinked,
}

disconnect_peers-IsLinked :
    (peers : List (ℕ × ℕ)) (s : Server) → IsLinked s → IsLinked (disconnect_peers peers s)
unfolding disconnect_peers
disconnect_peers-IsLinked [] s v = v
disconnect_peers-IsLinked ((id, p) ∷ rest) s v =
    disconnect_peers-IsLinked rest (do_call (peer_disconnect_slots p) s) v

disconnect_health_check-IsLinked :
    (p : Option ℕ) (s : Server) → IsLinked s → IsLinked (disconnect_health_check_peer p s)
unfolding disconnect_health_check_peer
disconnect_health_check-IsLinked none s v = v
disconnect_health_check-IsLinked (some p) s v = v

shutdown_on_io-IsLinked : (s : Server) → IsLinked s → IsLinked (shutdown_on_io s)
unfolding shutdown_on_io
shutdown_on_io-IsLinked s v =
    let t = close_acceptor s in
    let d = disconnect_peers t.peers t in
    let u = close_all_peers d in
    close_health_check-IsLinked (disconnect_health_check_peer u.health_check_peer u) (
      disconnect_health_check-IsLinked u.health_check_peer u (
        close_all_peers-IsLinked d
          (disconnect_peers-IsLinked t.peers t (close_acceptor-IsLinked s v))))

stop_on_io-IsLinked : (s : Server) → IsLinked s → IsLinked (stop_on_io s)
unfolding stop_on_io
stop_on_io-IsLinked s v =
    close_health_check-IsLinked (close_all_peers (close_acceptor s))
      (close_all_peers-IsLinked (close_acceptor s) (close_acceptor-IsLinked s v))

send_request-IsLinked :
    (peer_id : ℕ) (bytes : List ℕ) (timeout callback : ℕ) (s : Server)
    → IsLinked s
    → IsLinked (send_request peer_id bytes timeout callback s)
unfolding send_request
send_request-IsLinked peer_id bytes timeout callback s v = ground (
  arith,
  λ (h : is_some (find peer_id s.peers) ≡ true).
      add-Waiting peer_id callback s.peers s.manager h v.waiting,
)

run_io-IsLinked : (r : BindResults) (t : IoTask) (s : Server) → IsLinked s → IsLinked (run_io r t s)
unfolding run_io send_on_io respond_on_io response_received_on_io error_on_io closed_on_io
    health_check_done_on_io
run_io-IsLinked r (IoTask.bind_io token) s v = bind_on_io-IsLinked token r s v
run_io-IsLinked r IoTask.stop_io s v = stop_on_io-IsLinked s v
run_io-IsLinked r IoTask.shutdown_io s v = shutdown_on_io-IsLinked s v
run_io-IsLinked r (IoTask.request_io id bytes timeout callback) s v =
    send_request-IsLinked id bytes timeout callback s v
run_io-IsLinked r (IoTask.close_peer_io id) s v = close_peer-IsLinked id s v
run_io-IsLinked r (IoTask.response_received_io id p request_id bytes) s v =
    ground (
      arith,
      complete_of_peer-Waiting id request_id success (some bytes) s.peers s.manager v.waiting,
    )
run_io-IsLinked r (IoTask.error_io id e) s v =
    ground (arith, complete_peer-Waiting id e s.peers s.manager v.waiting)
run_io-IsLinked r (IoTask.closed_io id) s v =
    ground (arith, complete_peer-Waiting-erase id connection_reset s.peers s.manager v.waiting)
run_io-IsLinked r (IoTask.health_check_io token) s v =
    health_check_on_io-IsLinked token r.endpoint_error s v
run_io-IsLinked r (IoTask.health_check_done_io timeout token) s v =
    ground (arith, close_health_check-IsLinked s v)
run_io-IsLinked r (IoTask.health_check_failed_io e timeout token) s v =
    failed_health_check-IsLinked token timeout s v
run_io-IsLinked r _ s v = ground arith

run_notice-IsLinked :
    (verify_peer : PeerCredentials → Bool) (notice : Notice) (s : Server)
    → IsLinked s
    → IsLinked (run_notice verify_peer notice s)
unfolding run_notice start_socket_path_health_check_timer schedule_bind_retry
run_notice-IsLinked verify_peer notice s v = ground arith

run_task-IsLinked :
    (verify_peer : PeerCredentials → Bool) (t : Task) (s : Server)
    → IsLinked s
    → IsLinked (run_task verify_peer t s)
unfolding run_task deliver bind stop if_exposed notify_peer_closed
run_task-IsLinked verify_peer (Task.scoped token notice) s v =
    ground (arith, run_notice-IsLinked verify_peer notice s v)
run_task-IsLinked verify_peer t s v = ground arith

async_shutdown-IsLinked : (s : Server) → IsLinked s → IsLinked (async_shutdown s)
unfolding async_shutdown
async_shutdown-IsLinked s v = ground arith

-- Every handler keeps what the server holds linked.
Keeps-IsLinked : (verify_peer : PeerCredentials → Bool) → Keeps verify_peer IsLinked
Keeps-IsLinked verify_peer = record {
  enqueues = λ s t v. ground arith;
  posts = λ s t v. ground arith;
  shuts_down = async_shutdown-IsLinked;
  runs_io = λ s i r t a v. run_io-IsLinked r t (record s { io_tasks = erase_idx s.io_tasks i }) v;
  runs_task =
      λ s i t h v. run_task-IsLinked verify_peer t (record s { tasks = erase_idx s.tasks i }) v;
  accepts = λ s i token e socket credentials v.
      on_accept-IsLinked token e socket credentials (record s { accepts = erase_idx s.accepts i })
        v;
  peer_emits = λ s k signal v. peer_slot-IsLinked k signal s v;
  closes = λ s i id v. unfold enqueue_peer_closed in ground arith;
  times_out = λ s i id peer_id e v.
      on_request_timer-IsLinked id peer_id e (record s { timers = erase_idx s.timers i }) v;
  probe_times_out = λ s i k e v.
      on_probe_timer-IsLinked k e (record s { probe_timers = erase_idx s.probe_timers i }) v;
  probe_connects = λ s i k e v.
      on_probe_connect-IsLinked k e (record s { probe_connects = erase_idx s.probe_connects i }) v;
  probe_emits = λ s k signal v. probe_slot-IsLinked k signal s v;
  retries = λ s v. unfold on_bind_retry bind in ground arith;
}

-- After any sequence of events from a new server: each pending request is for a peer of the map of
-- peers, so that its close fails the request; a socket file is bound only while there is an acceptor;
-- and there is a health check's peer only while there is the check's timer.
pub server-IsLinked :
    (verify_peer : PeerCredentials → Bool) (self path : ℕ) (options : ServerOptions)
    (runtime : Runtime) (es : List Event)
    → IsLinked (run verify_peer (new_server self path options runtime) es)
server-IsLinked verify_peer self path options runtime es =
    run-Keeps verify_peer IsLinked (Keeps-IsLinked verify_peer)
      (new_server self path options runtime) es (unfold new_server initial_manager in ground arith)
