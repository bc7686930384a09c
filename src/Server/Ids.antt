-- ===== src/Server/Ids.antt =====
-- server.hpp: the ids of the peers, which `next_peer_id_` counts on a uint64_t.
use cpp_unix_domain_stream.Prelude.{
  ℕ, ◌+◌, ◌%◌, ◌^◌, ◌≡◌, ◌≤◌, ◌<◌, refl, Bool, true, none, some, List, [], ◌∷◌, ◌==◌, if◌then◌else◌,
  length, length-append, All, erase_idx, arith, ErrorCode, success, operation_aborted,
}
use cpp_unix_domain_stream.Options.{ServerOptions}
use cpp_unix_domain_stream.Credentials.{PeerCredentials}
use cpp_unix_domain_stream.NotificationScope.{Token, is_current}
use cpp_unix_domain_stream.RequestManager.{on_timer, complete_all}
use cpp_unix_domain_stream.Runtime.{Runtime}
use cpp_unix_domain_stream.Server.State.{Server, Slot, IoTask, new_server, do_call, peer_close}
use cpp_unix_domain_stream.Server.Acceptor.{
  BindResults, on_accept, handle_accepted_socket, accept, bind, bind_on_io, close_acceptor, find,
  erase, emplace, next_id,
}
use cpp_unix_domain_stream.Server.Peers.{
  close_peer, close_peers, close_all_peers, closed_on_io, on_request_timer, send_on_io,
  respond_on_io, send_request, response_received_on_io, error_on_io, peer_slot, enqueue_peer_closed,
}
use cpp_unix_domain_stream.Server.HealthCheck.{
  on_probe_timer, on_probe_connect, probe_slot, close_socket_path_health_check_peer,
  health_check_on_io, health_check_done_on_io, handle_socket_path_health_check_failed,
}
use cpp_unix_domain_stream.Server.Tasks.{
  run_task, run_io, stop_on_io, shutdown_on_io, disconnect_peers, disconnect_health_check_peer,
  async_shutdown, on_bind_retry,
}
use cpp_unix_domain_stream.Server.Events.{Event, run}
use cpp_unix_domain_stream.Server.Induction.{Keeps, run-Keeps}
use cpp_unix_domain_stream.Server.Unmoved.{
  Unmoved, then-Unmoved, close_acceptor-Unmoved, disconnect_peers-Unmoved,
  disconnect_health_check-Unmoved, close_health_check-Unmoved, failed_health_check-Unmoved,
  bind_on_io-Unmoved, health_check_on_io-Unmoved, probe_timer-Unmoved, probe_connect-Unmoved,
  run_task-Unmoved, shutdown-Unmoved,
}

-- No id is greater than `n`.
UpTo : ℕ → List (ℕ × ℕ) → Type 0
UpTo n peers = All (λ k. k.0 ≤ n) peers

UpTo-erase : (n k : ℕ) (peers : List (ℕ × ℕ)) → UpTo n peers → UpTo n (erase k peers)
unfolding UpTo erase
UpTo-erase n k [] v = tt
UpTo-erase n k ((j, q) ∷ rest) v = ground (arith, UpTo-erase n k rest v.1)

UpTo-more : (n : ℕ) (peers : List (ℕ × ℕ)) → UpTo n peers → UpTo (n + 1) peers
unfolding UpTo
UpTo-more n [] v = tt
UpTo-more n ((j, q) ∷ rest) v = (omega (arith, v.0), UpTo-more n rest v.1)

UpTo-emplace :
    (n k q : ℕ) (peers : List (ℕ × ℕ)) → k ≤ n → UpTo n peers → UpTo n (emplace k q peers)
unfolding UpTo emplace
UpTo-emplace n k q peers h v = ground arith

find-UpTo : (n k : ℕ) (peers : List (ℕ × ℕ)) → UpTo n peers → n < k → find k peers ≡ none
unfolding UpTo find
find-UpTo n k [] v h = refl
find-UpTo n k ((j, q) ∷ rest) v h = ground (arith, find-UpTo n k rest v.1 h)

-- The counter is the number of the peers so far, on a uint64_t, and no id is greater than that number.
record IsCounted (s : Server) : Type 0 where
  counted : s.next_peer_id ≡ length s.slots % 2 ^ 64
  up_to : UpTo (length s.slots) s.peers

Unmoved-IsCounted : (s t : Server) → Unmoved 0 s t → IsCounted s → IsCounted t
Unmoved-IsCounted s t u v = ground (arith, u)

close_peers-counter :
    (peers : List (ℕ × ℕ)) (s : Server)
    → ((close_peers peers s).slots ≡ s.slots)
      × ((close_peers peers s).next_peer_id ≡ s.next_peer_id)
unfolding close_peers
close_peers-counter [] s = (refl, refl)
close_peers-counter ((k, q) ∷ rest) s = close_peers-counter rest (do_call (peer_close q) s)

on_accept-IsCounted :
    (token : Token) (e : ErrorCode) (socket : ℕ) (credentials : PeerCredentials) (s : Server)
    → IsCounted s
    → IsCounted (on_accept token e socket credentials s)
unfolding on_accept handle_accepted_socket accept
on_accept-IsCounted token e socket credentials s v =
    let slot : Slot = record {
      id = next_id s;
      peer = s.next_handle;
      credentials = credentials;
      token = token;
    } in
    ground (
      arith,
      length-append s.slots (slot ∷ []),
      UpTo-emplace (length s.slots + 1) (next_id s) s.next_handle s.peers,
      UpTo-more (length s.slots) s.peers,
      close_acceptor-Unmoved 0 s,
    )

close_all_peers-IsCounted : (s : Server) → IsCounted s → IsCounted (close_all_peers s)
unfolding close_all_peers UpTo
close_all_peers-IsCounted s v = ground (
  arith,
  close_peers-counter s.peers (record s { manager = complete_all operation_aborted s.manager }),
)

close_peer-IsCounted : (k : ℕ) (s : Server) → IsCounted s → IsCounted (close_peer k s)
unfolding close_peer
close_peer-IsCounted k s v = ground (arith, UpTo-erase (length s.slots) k s.peers)

timer-IsCounted :
    (id peer_id : ℕ) (e : ErrorCode) (s : Server)
    → IsCounted s
    → IsCounted (on_request_timer id peer_id e s)
unfolding on_request_timer
timer-IsCounted id peer_id e s v =
    ground
      (arith, close_peer-IsCounted peer_id (record s { manager = (on_timer id e s.manager).0 }))

stop_on_io-IsCounted : (s : Server) → IsCounted s → IsCounted (stop_on_io s)
unfolding stop_on_io
stop_on_io-IsCounted s v =
    let t = close_acceptor s in
    let u = close_all_peers t in
    Unmoved-IsCounted u (close_socket_path_health_check_peer u) (close_health_check-Unmoved 0 u)
      (close_all_peers-IsCounted t (Unmoved-IsCounted s t (close_acceptor-Unmoved 0 s) v))

shutdown_on_io-IsCounted : (s : Server) → IsCounted s → IsCounted (shutdown_on_io s)
unfolding shutdown_on_io
shutdown_on_io-IsCounted s v =
    let t = close_acceptor s in
    let d = disconnect_peers t.peers t in
    let u = close_all_peers d in
    let w = disconnect_health_check_peer u.health_check_peer u in
    let x =
      Unmoved-IsCounted u (close_socket_path_health_check_peer w)
        (then-Unmoved 0 u w (close_socket_path_health_check_peer w)
          (disconnect_health_check-Unmoved 0 u.health_check_peer u)
          (close_health_check-Unmoved 0 w))
        (close_all_peers-IsCounted d (
          Unmoved-IsCounted s d
            (then-Unmoved 0 s t d (close_acceptor-Unmoved 0 s)
              (disconnect_peers-Unmoved 0 t.peers t))
            v)) in
    record { counted = x.counted; up_to = x.up_to }

run_io-IsCounted :
    (r : BindResults) (t : IoTask) (s : Server) → IsCounted s → IsCounted (run_io r t s)
unfolding run_io send_on_io respond_on_io send_request response_received_on_io error_on_io
    closed_on_io health_check_done_on_io
run_io-IsCounted r (IoTask.bind_io token) s v =
    Unmoved-IsCounted s (bind_on_io token r s) (bind_on_io-Unmoved 0 token r s) v
run_io-IsCounted r IoTask.stop_io s v = stop_on_io-IsCounted s v
run_io-IsCounted r IoTask.shutdown_io s v = shutdown_on_io-IsCounted s v
run_io-IsCounted r (IoTask.close_peer_io k) s v = close_peer-IsCounted k s v
run_io-IsCounted r (IoTask.health_check_io token) s v =
    Unmoved-IsCounted s (health_check_on_io token r.endpoint_error s)
      (health_check_on_io-Unmoved 0 token r.endpoint_error s) v
run_io-IsCounted r (IoTask.health_check_done_io timeout token) s v =
    ground (arith, close_health_check-Unmoved 0 s)
run_io-IsCounted r (IoTask.health_check_failed_io e timeout token) s v =
    Unmoved-IsCounted s (handle_socket_path_health_check_failed token timeout s)
      (failed_health_check-Unmoved 0 token timeout s) v
run_io-IsCounted r (IoTask.closed_io k) s v = ground (arith, UpTo-erase (length s.slots) k s.peers)
run_io-IsCounted r _ s v = ground arith

Keeps-IsCounted : (verify_peer : PeerCredentials → Bool) → Keeps verify_peer IsCounted
Keeps-IsCounted verify_peer = record {
  enqueues = λ s t v. ground arith;
  posts = λ s t v. ground arith;
  shuts_down = λ s v. Unmoved-IsCounted s (async_shutdown s) (shutdown-Unmoved 0 s) v;
  runs_io = λ s i r t a v.
      run_io-IsCounted r t (record s { io_tasks = erase_idx s.io_tasks i }) (ground arith);
  runs_task = λ s i t h v.
      let u = record s { tasks = erase_idx s.tasks i } in
      Unmoved-IsCounted u (run_task verify_peer t u) (run_task-Unmoved 0 verify_peer t u)
        (ground arith);
  accepts = λ s i token e socket credentials v.
      on_accept-IsCounted token e socket credentials (record s { accepts = erase_idx s.accepts i })
        (ground arith);
  peer_emits = λ s k signal v. unfold peer_slot enqueue_peer_closed in ground arith;
  closes = λ s i id v. unfold enqueue_peer_closed in ground arith;
  times_out = λ s i id peer_id e v.
      timer-IsCounted id peer_id e (record s { timers = erase_idx s.timers i }) (ground arith);
  probe_times_out = λ s i k e v.
      let u = record s { probe_timers = erase_idx s.probe_timers i } in
      Unmoved-IsCounted u (on_probe_timer k e u) (probe_timer-Unmoved 0 k e u) (ground arith);
  probe_connects = λ s i k e v.
      let u = record s { probe_connects = erase_idx s.probe_connects i } in
      Unmoved-IsCounted u (on_probe_connect k e u) (probe_connect-Unmoved 0 k e u) (ground arith);
  probe_emits = λ s k signal v. unfold probe_slot in ground arith;
  retries = λ s v. unfold on_bind_retry bind in ground arith;
}

new_server-IsCounted :
    (self path : ℕ) (options : ServerOptions) (runtime : Runtime)
    → IsCounted (new_server self path options runtime)
unfolding new_server UpTo
new_server-IsCounted self path options runtime = ground arith

-- After any events of a new server that has accepted fewer than 2^64 - 1 peers: no peer of the map has
-- the next id, and an accept whose token is current enters the new peer under it, while the entries of
-- all other ids stay.
pub server_accepts :
    (verify_peer : PeerCredentials → Bool) (self path : ℕ) (options : ServerOptions)
    (runtime : Runtime) (es : List Event) (token : Token) (socket k : ℕ)
    (credentials : PeerCredentials)
    → length (run verify_peer (new_server self path options runtime) es).slots + 1 < 2 ^ 64
    → is_current (run verify_peer (new_server self path options runtime) es).scope token ≡ true
    → let s = run verify_peer (new_server self path options runtime) es in
      let t = on_accept token success socket credentials s in
      (find (next_id s) s.peers ≡ none)
      × (find k t.peers ≡ (if next_id s == k then some s.next_handle else find k s.peers))
unfolding on_accept handle_accepted_socket accept emplace
server_accepts verify_peer self path options runtime es token socket k credentials h c =
    let s = run verify_peer (new_server self path options runtime) es in
    let v =
      run-Keeps verify_peer IsCounted (Keeps-IsCounted verify_peer)
        (new_server self path options runtime) es
        (new_server-IsCounted self path options runtime) in
    let f = find-UpTo (length s.slots) (next_id s) s.peers v.up_to (omega (arith, v.counted)) in
    (f, unfold find in ground arith)
