-- ===== src/Client/Shutdown.antt =====
-- client.hpp: `async_shutdown`, which the destructor of a client calls, and everything that may still run.
use cpp_unix_domain_stream.Prelude.{
  ℕ, ◌≡◌, refl, ◌∙◌, Bool, true, false, none, some, List, [], ◌⊎◌, inl, inr, arith, ErrorCode,
  success, operation_aborted, get_elem?, erase_idx, ap,
}
use cpp_unix_domain_stream.Options.{ClientOptions}
use cpp_unix_domain_stream.Credentials.{PeerCredentials}
use cpp_unix_domain_stream.NotificationScope
use cpp_unix_domain_stream.NotificationScope.{Token, is_current, deliver, initial_scope}
use cpp_unix_domain_stream.RequestManager.Ids.{pending-complete_all}
use cpp_unix_domain_stream.Client.State.{Client, ClientSignal, Task, IoTask, new_client}
use cpp_unix_domain_stream.Client.Connection.{
  connect_on_io, on_connect, on_reconnect, close_connecting_socket, close_peer, stop_on_io,
  invalidate_on_io, connect, stop, invalidate_connection, schedule_reconnect,
  handle_connected_socket,
}
use cpp_unix_domain_stream.Client.Requests.{
  send_request, on_request_timeout, on_request_timer, send_on_io, respond_on_io, received_on_io,
  request_received_on_io, response_received_on_io, error_on_io, closed_on_io, connected_on_io,
}
use cpp_unix_domain_stream.Client.Tasks.{
  run_task, run_notice, run_io, shutdown_on_io, disconnect_peer, async_shutdown,
}
use cpp_unix_domain_stream.Client.Facade.{make_client, destroy_client}
use cpp_unix_domain_stream.Client.Events.{Event, run}
use cpp_unix_domain_stream.Client.Induction.{Keeps, run-Keeps}
use cpp_unix_domain_stream.Client.History.{client-IsSession, Keeps-IsSession}
use cpp_unix_domain_stream.Client.Session.{IsSession, async_shutdown-IsSession}
use cpp_unix_domain_stream.RequestManager.Empty.{complete-empty, on_timer-empty}
use cpp_unix_domain_stream.Client.Stop.{IsStopped}

-- Detached from the dispatcher, with nothing left to run on it, having emitted `signals`.
pub record IsDetached (signals : List ClientSignal) (c : Client) : Type 0 where
  pub detached : c.attached ≡ false
  pub no_tasks : c.tasks ≡ []
  pub not_running : c.scope.running ≡ false
  pub shutting_down : c.shutdown_started ≡ true
  pub silent : c.signals ≡ signals

module _ (signals : List ClientSignal) where
  close-IsDetached :
      (e : ErrorCode) (c : Client)
      → IsDetached signals c
      → IsDetached signals (close_peer e (close_connecting_socket c)).0
  unfolding close_peer close_connecting_socket
  close-IsDetached e c v = ground arith

  run_io-IsDetached :
      (e : ErrorCode) (t : IoTask) (c : Client)
      → IsDetached signals c
      → IsDetached signals (run_io e t c)
  unfolding run_io stop_on_io shutdown_on_io invalidate_on_io disconnect_peer connect_on_io
      send_on_io respond_on_io send_request handle_connected_socket received_on_io
      request_received_on_io response_received_on_io error_on_io closed_on_io connected_on_io
      close_peer close_connecting_socket
  run_io-IsDetached e t c v = ground arith

  timer-IsDetached :
      (id : ℕ) (token : Token) (e : ErrorCode) (c : Client)
      → IsDetached signals c
      → IsDetached signals (on_request_timer id token e c)
  unfolding on_request_timer on_request_timeout close_peer
  timer-IsDetached id token e c v = ground arith

  no_task :
      (i : ℕ) (t : Task) (c : Client) → IsDetached signals c → ¬ (get_elem? c.tasks i ≡ some t)
  no_task i t c v h = let none_there = ap (λ ts. get_elem? ts i) v.no_tasks in absurd cc

  pub Keeps-IsDetached :
      (verify_peer : PeerCredentials → Bool) → Keeps verify_peer (IsDetached signals)
  Keeps-IsDetached verify_peer = record {
    enqueues = λ c t v. ground arith;
    posts = λ c t v. ground arith;
    shuts_down = λ c v. unfold async_shutdown in ground arith;
    runs_io = λ c i e t v.
        run_io-IsDetached e t (record c { io_tasks = erase_idx c.io_tasks i }) (ground arith);
    runs_task = λ c i t h v. absurd (no_task i t c v h);
    connects = λ c i socket token e credentials v. unfold on_connect in ground arith;
    times_out = λ c i id token e v.
        timer-IsDetached id token e (record c { timers = erase_idx c.timers i }) (ground arith);
    reconnects = λ c v. unfold on_reconnect in ground arith;
  }

  -- And it holds no socket, no peer and no request.
  abbrev pub IsGone : Client → Type 0
  IsGone c = IsDetached signals c × IsStopped c

  run_io-IsGone : (e : ErrorCode) (t : IoTask) (c : Client) → IsGone c → IsStopped (run_io e t c)
  unfolding run_io stop_on_io shutdown_on_io invalidate_on_io disconnect_peer connect_on_io
      send_on_io respond_on_io send_request handle_connected_socket received_on_io
      request_received_on_io response_received_on_io error_on_io closed_on_io connected_on_io
      close_peer close_connecting_socket is_current
  run_io-IsGone e (IoTask.response_received_io p id bytes) c v =
      ground (arith, complete-empty id success (some bytes) c.manager)
  run_io-IsGone e t c v = ground arith

  timer-IsGone :
      (id : ℕ) (token : Token) (e : ErrorCode) (c : Client)
      → IsGone c
      → IsStopped (on_request_timer id token e c)
  unfolding on_request_timer on_request_timeout close_peer
  timer-IsGone id token e c v = ground (arith, on_timer-empty id e c.manager)

  Keeps-IsGone : (verify_peer : PeerCredentials → Bool) → Keeps verify_peer IsGone
  Keeps-IsGone verify_peer =
      let d = Keeps-IsDetached verify_peer in
      record {
        enqueues = λ c t v. (d.enqueues c t v.0, ground arith);
        posts = λ c t v. (d.posts c t v.0, ground arith);
        shuts_down = λ c v. (d.shuts_down c v.0, unfold async_shutdown in ground arith);
        runs_io = λ c i e t v. (
          d.runs_io c i e t v.0,
          run_io-IsGone e t (record c { io_tasks = erase_idx c.io_tasks i }) (ground arith),
        );
        runs_task = λ c i t h v. absurd (no_task i t c v.0 h);
        connects = λ c i socket token e credentials v.
            (d.connects c i socket token e credentials v.0, unfold on_connect in ground arith);
        times_out = λ c i id token e v. (
          d.times_out c i id token e v.0,
          timer-IsGone id token e (record c { timers = erase_idx c.timers i }) (ground arith),
        );
        reconnects = λ c v. (d.reconnects c v.0, unfold on_reconnect in ground arith);
      }

-- A client that has begun to shut down is detached.
abbrev pub IsConsistent : Client → Type 0
IsConsistent c = (c.shutdown_started ≡ false) ⊎ IsDetached c.signals c

IsDetached-IsConsistent :
    (signals : List ClientSignal) (c : Client) → IsDetached signals c → IsConsistent c
IsDetached-IsConsistent signals c v = ground arith

flag-IsConsistent :
    (c d : Client)
    → d.shutdown_started ≡ c.shutdown_started
    → (IsDetached c.signals c → IsDetached c.signals d)
    → IsConsistent c
    → IsConsistent d
flag-IsConsistent c d h k v = elim v [
  | inl f ↦ inl (h ∙ f)
  | inr w ↦ IsDetached-IsConsistent c.signals d (k w)
]

run_io-flag :
    (e : ErrorCode) (t : IoTask) (c : Client) → (run_io e t c).shutdown_started ≡ c.shutdown_started
unfolding run_io stop_on_io shutdown_on_io invalidate_on_io disconnect_peer connect_on_io send_on_io
    respond_on_io send_request handle_connected_socket received_on_io request_received_on_io
    response_received_on_io error_on_io closed_on_io connected_on_io close_peer
    close_connecting_socket
run_io-flag e t c = ground arith

run_task-flag :
    (verify_peer : PeerCredentials → Bool) (t : Task) (c : Client)
    → (run_task verify_peer t c).shutdown_started ≡ c.shutdown_started
unfolding run_task run_notice deliver connect stop invalidate_connection schedule_reconnect
run_task-flag verify_peer t c = ground arith

pub shutdown-IsDetached : (c : Client) → IsConsistent c → IsDetached c.signals (async_shutdown c)
unfolding async_shutdown NotificationScope.stop
shutdown-IsDetached c h = ground arith

pub Keeps-IsConsistent : (verify_peer : PeerCredentials → Bool) → Keeps verify_peer IsConsistent
Keeps-IsConsistent verify_peer =
    let k = λ (c : Client). Keeps-IsDetached c.signals verify_peer in
    record {
      enqueues = λ c t v. ground arith;
      posts = λ c t v. ground arith;
      shuts_down =
          λ c v. IsDetached-IsConsistent c.signals (async_shutdown c) (shutdown-IsDetached c v);
      runs_io = λ c i e t v.
          let d = record c { io_tasks = erase_idx c.io_tasks i } in
          flag-IsConsistent c (run_io e t d) (run_io-flag e t d) ((k c).runs_io c i e t) v;
      runs_task = λ c i t h v.
          let d = record c { tasks = erase_idx c.tasks i } in
          flag-IsConsistent c (run_task verify_peer t d) (run_task-flag verify_peer t d)
            ((k c).runs_task c i t h) v;
      connects = λ c i socket token e credentials v. unfold on_connect in ground arith;
      times_out =
          λ c i id token e v. unfold on_request_timer on_request_timeout close_peer in ground arith;
      reconnects = λ c v. unfold on_reconnect connect in ground arith;
    }

shutdown_on_io-IsGone :
    (signals : List ClientSignal) (c : Client)
    → IsDetached signals c
    → (c.peer ≡ none → c.manager.pending_requests ≡ [])
    → IsGone signals (shutdown_on_io c)
unfolding shutdown_on_io close_peer close_connecting_socket disconnect_peer
shutdown_on_io-IsGone signals c v h =
    ground (arith, pending-complete_all operation_aborted c.manager)

-- A new client goes through any events, is destroyed, and goes through any events; then the function
-- that its destruction posted runs, and any events follow. Whatever the user's `verify_peer` answers,
-- from the destruction on no signal of the user is emitted, and in the end the client holds no socket,
-- no peer and no pending request.
pub client_shutdown :
    (verify_peer : PeerCredentials → Bool) (options : ClientOptions)
    (before between after : List Event)
    → let c = run verify_peer (make_client options).state before in
      let d = run verify_peer (destroy_client (record { state = c })) between in
      let e = run verify_peer (shutdown_on_io d) after in
      (d.signals ≡ c.signals) × (e.signals ≡ c.signals) × IsStopped e
client_shutdown verify_peer options before between after =
    let c = run verify_peer (new_client options) before in
    let v =
      run-Keeps verify_peer IsConsistent (Keeps-IsConsistent verify_peer) (new_client options)
        before (unfold new_client in inl refl) in
    let w =
      run-Keeps verify_peer (IsDetached c.signals) (Keeps-IsDetached c.signals verify_peer)
        (async_shutdown c) between (shutdown-IsDetached c v) in
    let d = run verify_peer (async_shutdown c) between in
    let s =
      run-Keeps verify_peer IsSession (Keeps-IsSession verify_peer) (async_shutdown c) between
        (async_shutdown-IsSession c (client-IsSession verify_peer options before)) in
    let u =
      run-Keeps verify_peer (IsGone c.signals) (Keeps-IsGone c.signals verify_peer)
        (shutdown_on_io d) after (shutdown_on_io-IsGone c.signals d w s.answerable) in
    (w.silent, u.0.silent, u.1)
