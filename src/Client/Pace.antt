-- ===== src/Client/Pace.antt =====
-- client.hpp: the delays of the reconnect task.
use cpp_unix_domain_stream.Prelude.{
  ℕ, ◌+◌, ◌*◌, ◌≡◌, ◌≤◌, refl, Bool, true, false, Option, List, [], ◌∷◌, ltb, count, count-append,
  All, arith, ◌∙◌, ErrorCode, erase_idx,
}
use cpp_unix_domain_stream.Debounce.{
  Wait, begins, ends, other_call, IsLongWait, keeps_time, events, elapsed, fires_apart,
}
use cpp_unix_domain_stream.Options.{ClientOptions, normalize_scheduling_interval}
use cpp_unix_domain_stream.Credentials.{PeerCredentials}
use cpp_unix_domain_stream.NotificationScope.{Token, deliver}
use cpp_unix_domain_stream.Client.State.{
  Client, Task, IoTask, Call, new_client, debounce_after, debounce_cancel,
}
use cpp_unix_domain_stream.Client.Connection.{
  connect_on_io, on_connect, on_reconnect, close_connecting_socket, close_peer, stop_on_io,
  invalidate_on_io, connect, stop, invalidate_connection, schedule_reconnect,
  handle_connected_socket,
}
use cpp_unix_domain_stream.Client.Requests.{
  send_request, on_request_timeout, on_request_timer, send_on_io, respond_on_io, received_on_io,
  request_received_on_io, response_received_on_io, error_on_io, closed_on_io, connected_on_io,
}
use cpp_unix_domain_stream.Client.Tasks.{
  run_task, run_notice, run_io, shutdown_on_io, disconnect_peer, async_shutdown,
}
use cpp_unix_domain_stream.Client.Events.{Event, step, run}
use cpp_unix_domain_stream.Client.Induction.{Keeps, step-Keeps, run-Keeps}
use cpp_unix_domain_stream.Client.Failures.{is_failure, failures, run-failures}
use cpp_unix_domain_stream.Client.Load.{is_attempt, starts, reconnects, load, run-load}

abbrev is_hasty : Call → Bool
is_hasty (debounce_after n) = ltb n 100
is_hasty _ = false

-- How many waits of the reconnect task are shorter than 100 ms.
abbrev pub hasty : Client → ℕ
hasty c = count is_hasty c.calls

run_io-hasty : (e : ErrorCode) (t : IoTask) (c : Client) → hasty (run_io e t c) ≡ hasty c
unfolding run_io stop_on_io shutdown_on_io invalidate_on_io disconnect_peer connect_on_io send_on_io
    respond_on_io send_request handle_connected_socket received_on_io request_received_on_io
    response_received_on_io error_on_io closed_on_io connected_on_io close_peer
    close_connecting_socket
run_io-hasty e t c = grind (arith, count-append is_hasty)

run_task-hasty :
    (verify_peer : PeerCredentials → Bool) (t : Task) (c : Client)
    → hasty (run_task verify_peer t c) ≡ hasty c
unfolding run_task run_notice deliver connect stop invalidate_connection schedule_reconnect
    normalize_scheduling_interval
run_task-hasty verify_peer t c = grind (arith, count-append is_hasty)

on_connect-hasty :
    (socket : ℕ) (token : Token) (e : ErrorCode) (credentials : PeerCredentials) (c : Client)
    → hasty (on_connect socket token e credentials c) ≡ hasty c
unfolding on_connect
on_connect-hasty socket token e credentials c = grind (arith, count-append is_hasty)

timer-hasty :
    (id : ℕ) (token : Token) (e : ErrorCode) (c : Client)
    → hasty (on_request_timer id token e c) ≡ hasty c
unfolding on_request_timer on_request_timeout close_peer
timer-hasty id token e c = grind (arith, count-append is_hasty)

shutdown-hasty : (c : Client) → hasty (async_shutdown c) ≡ hasty c
unfolding async_shutdown
shutdown-hasty c = grind (arith, count-append is_hasty)

IsPatient : Client → Type 0
IsPatient c = hasty c ≡ 0

Keeps-IsPatient : (verify_peer : PeerCredentials → Bool) → Keeps verify_peer IsPatient
unfolding IsPatient
Keeps-IsPatient verify_peer = record {
  enqueues = λ c t v. ground arith;
  posts = λ c t v. v;
  shuts_down = λ c v. shutdown-hasty c ∙ v;
  runs_io = λ c i e t v. run_io-hasty e t (record c { io_tasks = erase_idx c.io_tasks i }) ∙ v;
  runs_task =
      λ c i t h v. run_task-hasty verify_peer t (record c { tasks = erase_idx c.tasks i }) ∙ v;
  connects = λ c i socket token e credentials v.
      on_connect-hasty socket token e credentials (record c { connects = erase_idx c.connects i })
      ∙ v;
  times_out =
      λ c i id token e v. timer-hasty id token e (record c { timers = erase_idx c.timers i }) ∙ v;
  reconnects = λ c v. unfold on_reconnect connect in ground arith;
}

abbrev pub wait_of : Call → Wait
wait_of (debounce_after n) = begins n
wait_of debounce_cancel = ends
wait_of _ = other_call

all-IsLong :
    (calls : List Call) → count is_hasty calls ≡ 0 → All (λ k. IsLongWait (wait_of k)) calls
all-IsLong [] h = tt
all-IsLong (debounce_after n ∷ rest) h = (ground arith, all-IsLong rest (ground arith))
all-IsLong (debounce_cancel ∷ rest) h = (tt, all-IsLong rest h)
all-IsLong (k ∷ rest) h = (tt, all-IsLong rest h)

step-IsPatient :
    (verify_peer : PeerCredentials → Bool) (c : Client) (e : Event)
    → IsPatient c
    → IsPatient (step verify_peer c e)
step-IsPatient verify_peer c e = step-Keeps verify_peer IsPatient (Keeps-IsPatient verify_peer) c e

-- The times of the events `es`, of a client that is `c` at `now`, are those of its reconnect task.
abbrev pub is_timed : (PeerCredentials → Bool) → Client → ℕ → Option ℕ → List (ℕ × Event) → Bool
is_timed verify_peer c now due es =
    keeps_time (step verify_peer) (λ d. d.calls) wait_of reconnects c now due es

-- After any events of a new client, however small its `reconnect_interval` is, in any further
-- events, where the reconnect task runs its function only when the wait that was begun last has passed
-- and was not cancelled: the client connects no more sockets than it had connected or had attempts
-- under way, one for each call of `async_start`, one for the wait that was pending, and one for each
-- 100 ms. And it reports no more failures to connect than it had reported or had attempts under way,
-- with the same allowance.
pub client_pace :
    (verify_peer : PeerCredentials → Bool) (options : ClientOptions) (before : List Event) (now : ℕ)
    (due : Option ℕ) (es : List (ℕ × Event))
    → is_timed verify_peer (run verify_peer (new_client options) before) now due es ≡ true
    → let c = run verify_peer (new_client options) before in
      let d = run verify_peer c (events es) in
      (100 * count is_attempt d.calls ≤ 100 * (load c + count starts (events es) + 1) + elapsed es)
      × (100 * count is_failure d.signals
          ≤ 100 * (failures c + count starts (events es) + 1) + elapsed es)
client_pace verify_peer options before now due es h =
    let c = run verify_peer (new_client options) before in
    let v =
      run-Keeps verify_peer IsPatient (Keeps-IsPatient verify_peer) (new_client options) before
        (unfold IsPatient new_client in refl) in
    let fires =
      fires_apart (step verify_peer) (λ d. d.calls) wait_of reconnects IsPatient
        (step-IsPatient verify_peer) (λ d w. unfold IsPatient in all-IsLong d.calls w) c now due es
        v h in
    let begun = run-load verify_peer c (events es) in
    let failed = run-failures verify_peer c (events es) in (omega arith, omega arith)
