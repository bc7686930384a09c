-- ===== src/Server/Pace.antt =====
-- server.hpp: the delays of the bind retry.
use cpp_unix_domain_stream.Prelude.{
  ℕ, ◌+◌, ◌*◌, ◌≡◌, ◌≤◌, refl, true, ◌∙◌, Bool, false, Option, some, List, [], ◌∷◌, ltb, count,
  count-append, All, arith, ErrorCode, operation_aborted, erase_idx,
}
use cpp_unix_domain_stream.Debounce.{
  Wait, begins, ends, other_call, IsLongWait, keeps_time, events, elapsed, fires_apart,
}
use cpp_unix_domain_stream.Options.{ServerOptions, normalize_scheduling_interval}
use cpp_unix_domain_stream.Credentials.{PeerCredentials}
use cpp_unix_domain_stream.NotificationScope.{Token, deliver}
use cpp_unix_domain_stream.Runtime.{Runtime, set_socket_file_path_owner, remove_socket_file_path}
use cpp_unix_domain_stream.RequestManager.{complete_all}
use cpp_unix_domain_stream.Server.State
use cpp_unix_domain_stream.Server.State.{
  Call, retry_after, retry_cancel, Server, Slot, Probe, Task, IoTask, new_server, do_call,
  acceptor_open, acceptor_close, peer_close, socket_close, timer_cancel, peer_disconnect_slots,
}
use cpp_unix_domain_stream.Server.Acceptor.{
  BindResults, bind, bind_on_io, on_accept, handle_accepted_socket, accept, close_acceptor,
  release_path, open_and_bind, listen, handle_bind_failed, schedule_bind_retry,
}
use cpp_unix_domain_stream.Server.Peers.{
  on_request_timer, close_peer, close_peers, close_all_peers, send_on_io, respond_on_io,
  send_request, response_received_on_io, error_on_io, closed_on_io, peer_slot, enqueue_peer_closed,
  notify_peer_closed,
}
use cpp_unix_domain_stream.Server.HealthCheck.{
  on_probe_timer, on_probe_connect, probe_slot, health_check_on_io, health_check_done_on_io,
  handle_socket_path_health_check_failed, close_socket_path_health_check_peer,
  reset_health_check_timeout, start_socket_path_health_check_timer,
}
use cpp_unix_domain_stream.Server.Tasks.{
  run_task, run_notice, run_io, stop, stop_on_io, shutdown_on_io, disconnect_peers,
  disconnect_health_check_peer, async_shutdown, on_bind_retry, if_exposed,
}
use cpp_unix_domain_stream.Server.Events.{Event, step, run}
use cpp_unix_domain_stream.Server.Induction.{Keeps, run-Keeps}
use cpp_unix_domain_stream.Server.Reports.{is_failure, failures}
use cpp_unix_domain_stream.Server.Failures.{run-failures}
use cpp_unix_domain_stream.Server.Attempts.{is_attempt, starts, retries, load}
use cpp_unix_domain_stream.Server.Load.{run-load}

abbrev is_hasty : Call → Bool
is_hasty (retry_after n) = ltb n 100
is_hasty _ = false

-- How many waits of the bind retry are shorter than 100 ms.
abbrev pub hasty : Server → ℕ
hasty s = count is_hasty s.calls

close_peers-hasty : (peers : List (ℕ × ℕ)) (s : Server) → hasty (close_peers peers s) ≡ hasty s
unfolding close_peers
close_peers-hasty [] s = refl
close_peers-hasty ((id, p) ∷ rest) s =
    close_peers-hasty rest (do_call (peer_close p) s) ∙ grind (arith, count-append is_hasty)

disconnect_peers-hasty :
    (peers : List (ℕ × ℕ)) (s : Server) → hasty (disconnect_peers peers s) ≡ hasty s
unfolding disconnect_peers
disconnect_peers-hasty [] s = refl
disconnect_peers-hasty ((id, p) ∷ rest) s =
    disconnect_peers-hasty rest (do_call (peer_disconnect_slots p) s)
    ∙ grind (arith, count-append is_hasty)

close_acceptor-hasty : (s : Server) → hasty (close_acceptor s) ≡ hasty s
unfolding close_acceptor release_path
close_acceptor-hasty s = grind (arith, count-append is_hasty)

close_all_peers-hasty : (s : Server) → hasty (close_all_peers s) ≡ hasty s
unfolding close_all_peers
close_all_peers-hasty s =
    close_peers-hasty s.peers (record s { manager = complete_all operation_aborted s.manager })

close_health_check-hasty : (s : Server) → hasty (close_socket_path_health_check_peer s) ≡ hasty s
unfolding close_socket_path_health_check_peer reset_health_check_timeout
close_health_check-hasty s = grind (arith, count-append is_hasty)

disconnect_health_check-hasty :
    (p : Option ℕ) (s : Server) → hasty (disconnect_health_check_peer p s) ≡ hasty s
unfolding disconnect_health_check_peer
disconnect_health_check-hasty p s = grind (arith, count-append is_hasty)

failed_health_check-hasty :
    (token : Token) (timeout : ℕ) (s : Server)
    → hasty (handle_socket_path_health_check_failed token timeout s) ≡ hasty s
unfolding handle_socket_path_health_check_failed
failed_health_check-hasty token timeout s = ground (
  arith,
  close_health_check-hasty s,
  close_acceptor-hasty (close_socket_path_health_check_peer s),
)

handle_bind_failed-hasty :
    (e : ErrorCode) (token : Token) (s : Server) → hasty (handle_bind_failed e token s) ≡ hasty s
unfolding handle_bind_failed
handle_bind_failed-hasty e token s = ground (arith, close_acceptor-hasty s)

accept-hasty : (token : Token) (s : Server) → hasty (accept token s) ≡ hasty s
unfolding accept
accept-hasty token s = grind (arith, count-append is_hasty)

listen-hasty : (token : Token) (r : BindResults) (s : Server) → hasty (listen token r s) ≡ hasty s
unfolding listen
listen-hasty token r s = ground (
  arith,
  handle_bind_failed-hasty r.listen_error token s,
  accept-hasty token (State.enqueue (State.scoped token State.notify_bound) s),
)

open_and_bind-hasty :
    (token : Token) (r : BindResults) (s : Server) → hasty (open_and_bind token r s) ≡ hasty s
unfolding open_and_bind
open_and_bind-hasty token r s = ground (
  arith,
  handle_bind_failed-hasty r.open_error token s,
  handle_bind_failed-hasty r.bind_error token s,
  listen-hasty token r (record s {
    bound_socket_file_path = some r.resolved;
    runtime = set_socket_file_path_owner r.resolved s.self s.runtime;
  }),
)

bind_on_io-hasty :
    (token : Token) (r : BindResults) (s : Server) → hasty (bind_on_io token r s) ≡ hasty s
unfolding bind_on_io
bind_on_io-hasty token r s =
    let t = do_call (acceptor_open s.next_handle) (record s {
      runtime = remove_socket_file_path s.socket_file_path r.key s.runtime;
      acceptor = some s.next_handle;
      next_handle = s.next_handle + 1;
    }) in
    ground (
      arith,
      handle_bind_failed-hasty r.endpoint_error token s,
      open_and_bind-hasty token r t,
      count-append is_hasty s.calls (acceptor_open s.next_handle ∷ []),
    )

on_accept-hasty :
    (token : Token) (e : ErrorCode) (socket : ℕ) (credentials : PeerCredentials) (s : Server)
    → hasty (on_accept token e socket credentials s) ≡ hasty s
unfolding on_accept handle_accepted_socket accept
on_accept-hasty token e socket credentials s =
    grind (arith, count-append is_hasty, close_acceptor-hasty)

health_check_on_io-hasty :
    (token : Token) (e : ErrorCode) (s : Server) → hasty (health_check_on_io token e s) ≡ hasty s
unfolding health_check_on_io
health_check_on_io-hasty token e s = grind (arith, count-append is_hasty, failed_health_check-hasty)

stop_on_io-hasty : (s : Server) → hasty (stop_on_io s) ≡ hasty s
unfolding stop_on_io
stop_on_io-hasty s =
    let t = close_acceptor s in
    close_health_check-hasty (close_all_peers t) ∙ close_all_peers-hasty t ∙ close_acceptor-hasty s

shutdown_on_io-hasty : (s : Server) → hasty (shutdown_on_io s) ≡ hasty s
unfolding shutdown_on_io
shutdown_on_io-hasty s =
    let t = close_acceptor s in
    let d = disconnect_peers t.peers t in
    let u = close_all_peers d in
    close_health_check-hasty (disconnect_health_check_peer u.health_check_peer u)
    ∙ disconnect_health_check-hasty u.health_check_peer u
    ∙ close_all_peers-hasty d
    ∙ disconnect_peers-hasty t.peers t
    ∙ close_acceptor-hasty s

run_io-hasty : (r : BindResults) (t : IoTask) (s : Server) → hasty (run_io r t s) ≡ hasty s
unfolding run_io send_on_io respond_on_io send_request response_received_on_io error_on_io
    closed_on_io health_check_done_on_io close_peer
run_io-hasty r (IoTask.bind_io token) s = bind_on_io-hasty token r s
run_io-hasty r IoTask.stop_io s = stop_on_io-hasty s
run_io-hasty r IoTask.shutdown_io s = shutdown_on_io-hasty s
run_io-hasty r (IoTask.health_check_io token) s = health_check_on_io-hasty token r.endpoint_error s
run_io-hasty r (IoTask.health_check_done_io timeout token) s =
    ground (arith, close_health_check-hasty s)
run_io-hasty r (IoTask.health_check_failed_io e timeout token) s =
    failed_health_check-hasty token timeout s
run_io-hasty r _ s = grind (arith, count-append is_hasty)

run_task-hasty :
    (verify_peer : PeerCredentials → Bool) (t : Task) (s : Server)
    → hasty (run_task verify_peer t s) ≡ hasty s
unfolding run_task run_notice deliver bind stop if_exposed notify_peer_closed schedule_bind_retry
    start_socket_path_health_check_timer normalize_scheduling_interval
run_task-hasty verify_peer t s = grind (arith, count-append is_hasty)

timer-hasty :
    (id peer_id : ℕ) (e : ErrorCode) (s : Server)
    → hasty (on_request_timer id peer_id e s) ≡ hasty s
unfolding on_request_timer close_peer
timer-hasty id peer_id e s = grind (arith, count-append is_hasty)

probe_timer-hasty :
    (k : Probe) (e : ErrorCode) (s : Server) → hasty (on_probe_timer k e s) ≡ hasty s
unfolding on_probe_timer
probe_timer-hasty k e s = grind (arith, count-append is_hasty, failed_health_check-hasty)

probe_connect-hasty :
    (k : Probe) (e : ErrorCode) (s : Server) → hasty (on_probe_connect k e s) ≡ hasty s
unfolding on_probe_connect
probe_connect-hasty k e s = grind (arith, count-append is_hasty, failed_health_check-hasty)

shutdown-hasty : (s : Server) → hasty (async_shutdown s) ≡ hasty s
unfolding async_shutdown
shutdown-hasty s = grind (arith, count-append is_hasty)

IsPatient : Server → Type 0
IsPatient s = hasty s ≡ 0

Keeps-IsPatient : (verify_peer : PeerCredentials → Bool) → Keeps verify_peer IsPatient
unfolding IsPatient
Keeps-IsPatient verify_peer = record {
  enqueues = λ s t v. ground arith;
  posts = λ s t v. v;
  shuts_down = λ s v. shutdown-hasty s ∙ v;
  runs_io = λ s i r t a v. run_io-hasty r t (record s { io_tasks = erase_idx s.io_tasks i }) ∙ v;
  runs_task =
      λ s i t h v. run_task-hasty verify_peer t (record s { tasks = erase_idx s.tasks i }) ∙ v;
  accepts = λ s i token e socket credentials v.
      on_accept-hasty token e socket credentials (record s { accepts = erase_idx s.accepts i }) ∙ v;
  peer_emits = λ s k signal v. unfold peer_slot enqueue_peer_closed in ground arith;
  closes = λ s i id v. unfold enqueue_peer_closed in ground arith;
  times_out = λ s i id peer_id e v.
      timer-hasty id peer_id e (record s { timers = erase_idx s.timers i }) ∙ v;
  probe_times_out = λ s i k e v.
      probe_timer-hasty k e (record s { probe_timers = erase_idx s.probe_timers i }) ∙ v;
  probe_connects = λ s i k e v.
      probe_connect-hasty k e (record s { probe_connects = erase_idx s.probe_connects i }) ∙ v;
  probe_emits = λ s k signal v. unfold probe_slot in ground arith;
  retries = λ s v. unfold on_bind_retry bind in ground arith;
}

abbrev pub wait_of : Call → Wait
wait_of (retry_after n) = begins n
wait_of retry_cancel = ends
wait_of _ = other_call

all-IsLong :
    (calls : List Call) → count is_hasty calls ≡ 0 → All (λ k. IsLongWait (wait_of k)) calls
all-IsLong [] h = tt
all-IsLong (retry_after n ∷ rest) h = (ground arith, all-IsLong rest (ground arith))
all-IsLong (retry_cancel ∷ rest) h = (tt, all-IsLong rest h)
all-IsLong (k ∷ rest) h = (tt, all-IsLong rest h)

step-IsPatient :
    (verify_peer : PeerCredentials → Bool) (s : Server) (e : Event)
    → IsPatient s
    → IsPatient (step verify_peer s e)
unfolding run
step-IsPatient verify_peer s e =
    run-Keeps verify_peer IsPatient (Keeps-IsPatient verify_peer) s (e ∷ [])

-- The times of the events `es`, of a server that is `s` at `now`, are those of its bind retry task.
abbrev pub is_timed : (PeerCredentials → Bool) → Server → ℕ → Option ℕ → List (ℕ × Event) → Bool
is_timed verify_peer s now due es =
    keeps_time (step verify_peer) (λ t. t.calls) wait_of retries s now due es

-- After any events of a new server, however small its `bind_retry_interval` is, in any further
-- events, where the bind retry task runs its function only when the wait that was begun last has passed
-- and was not cancelled: the server opens no more acceptors to bind than it had opened or had bind
-- attempts under way, one for each call of `async_start`, one for the wait that was pending, and one
-- for each 100 ms. And it reports no more failures to bind than it had reported or had attempts under
-- way, with the same allowance.
pub server_pace :
    (verify_peer : PeerCredentials → Bool) (self path : ℕ) (options : ServerOptions)
    (runtime : Runtime) (before : List Event) (now : ℕ) (due : Option ℕ) (es : List (ℕ × Event))
    → is_timed verify_peer
        (run verify_peer (new_server self path options runtime) before)
        now
        due
        es
      ≡ true
    → let s = run verify_peer (new_server self path options runtime) before in
      let t = run verify_peer s (events es) in
      (100 * count is_attempt t.calls ≤ 100 * (load s + count starts (events es) + 1) + elapsed es)
      × (100 * count is_failure t.signals
          ≤ 100 * (failures s + count starts (events es) + 1) + elapsed es)
server_pace verify_peer self path options runtime before now due es h =
    let s = run verify_peer (new_server self path options runtime) before in
    let v =
      run-Keeps verify_peer IsPatient (Keeps-IsPatient verify_peer)
        (new_server self path options runtime) before (unfold IsPatient new_server in refl) in
    let fires =
      fires_apart (step verify_peer) (λ t. t.calls) wait_of retries IsPatient
        (step-IsPatient verify_peer) (λ t w. unfold IsPatient in all-IsLong t.calls w) s now due es
        v h in
    let begun = run-load verify_peer s (events es) in
    let failed = run-failures verify_peer s (events es) in (omega arith, omega arith)
