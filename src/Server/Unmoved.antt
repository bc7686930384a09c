-- ===== src/Server/Unmoved.antt =====
-- server.hpp: the handlers that neither add a peer nor remove one.
use cpp_unix_domain_stream.Prelude.{
  ℕ, ◌+◌, ◌≡◌, ◌≤◌, Bool, false, Option, some, List, [], ◌∷◌, ◌==◌, count, count-append, arith,
  ErrorCode,
}
use cpp_unix_domain_stream.Credentials.{PeerCredentials}
use cpp_unix_domain_stream.NotificationScope.{Token, deliver}
use cpp_unix_domain_stream.Runtime.{set_socket_file_path_owner, remove_socket_file_path}
use cpp_unix_domain_stream.Server.State
use cpp_unix_domain_stream.Server.State.{
  Call, Server, Probe, Task, IoTask, do_call, acceptor_open, peer_close, peer_disconnect_slots,
}
use cpp_unix_domain_stream.Server.Acceptor.{
  BindResults, bind_on_io, listen, open_and_bind, handle_bind_failed, close_acceptor, release_path,
  accept, bind, schedule_bind_retry,
}
use cpp_unix_domain_stream.Server.Peers.{notify_peer_closed}
use cpp_unix_domain_stream.Server.HealthCheck.{
  on_probe_timer, on_probe_connect, health_check_on_io, handle_socket_path_health_check_failed,
  close_socket_path_health_check_peer, reset_health_check_timeout,
  start_socket_path_health_check_timer,
}
use cpp_unix_domain_stream.Server.Tasks.{
  run_task, run_notice, stop, async_shutdown, if_exposed, disconnect_peers,
  disconnect_health_check_peer,
}

abbrev pub is_close_of : ℕ → Call → Bool
is_close_of p (peer_close q) = q == p
is_close_of p _ = false

-- How often the server has closed peer `p`.
abbrev pub closes : ℕ → Server → ℕ
closes p s = count (is_close_of p) s.calls

module _ (p : ℕ) where
  -- The peers, their handlers and the counter of their ids are as before, and what was called stays
  -- called.
  abbrev pub Unmoved : Server → Server → Type 0
  Unmoved s t =
      (t.peers ≡ s.peers)
      × (t.slots ≡ s.slots)
      × (t.next_peer_id ≡ s.next_peer_id)
      × (closes p s ≤ closes p t)

  pub then-Unmoved : (s t u : Server) → Unmoved s t → Unmoved t u → Unmoved s u
  then-Unmoved s t u a b = ground (arith, a, b)

  pub close_acceptor-Unmoved : (s : Server) → Unmoved s (close_acceptor s)
  unfolding close_acceptor release_path
  close_acceptor-Unmoved s = grind (arith, count-append (is_close_of p))

  pub disconnect_peers-Unmoved :
      (peers : List (ℕ × ℕ)) (s : Server) → Unmoved s (disconnect_peers peers s)
  unfolding disconnect_peers
  disconnect_peers-Unmoved [] s = ground arith
  disconnect_peers-Unmoved ((k, q) ∷ rest) s =
      let t = do_call (peer_disconnect_slots q) s in
      then-Unmoved s t (disconnect_peers rest t) (grind (arith, count-append (is_close_of p)))
        (disconnect_peers-Unmoved rest t)

  pub disconnect_health_check-Unmoved :
      (q : Option ℕ) (s : Server) → Unmoved s (disconnect_health_check_peer q s)
  unfolding disconnect_health_check_peer
  disconnect_health_check-Unmoved q s = grind (arith, count-append (is_close_of p))

  pub close_health_check-Unmoved : (s : Server) → Unmoved s (close_socket_path_health_check_peer s)
  unfolding close_socket_path_health_check_peer reset_health_check_timeout
  close_health_check-Unmoved s = grind (arith, count-append (is_close_of p))

  pub failed_health_check-Unmoved :
      (token : Token) (timeout : ℕ) (s : Server)
      → Unmoved s (handle_socket_path_health_check_failed token timeout s)
  unfolding handle_socket_path_health_check_failed
  failed_health_check-Unmoved token timeout s = ground (
    arith,
    close_health_check-Unmoved s,
    close_acceptor-Unmoved (close_socket_path_health_check_peer s),
  )

  pub handle_bind_failed-Unmoved :
      (e : ErrorCode) (token : Token) (s : Server) → Unmoved s (handle_bind_failed e token s)
  unfolding handle_bind_failed
  handle_bind_failed-Unmoved e token s = ground (arith, close_acceptor-Unmoved s)

  pub accept-Unmoved : (token : Token) (s : Server) → Unmoved s (accept token s)
  unfolding accept
  accept-Unmoved token s = grind (arith, count-append (is_close_of p))

  pub listen-Unmoved : (token : Token) (r : BindResults) (s : Server) → Unmoved s (listen token r s)
  unfolding listen
  listen-Unmoved token r s = ground (
    arith,
    handle_bind_failed-Unmoved r.listen_error token s,
    accept-Unmoved token (State.enqueue (State.scoped token State.notify_bound) s),
  )

  pub open_and_bind-Unmoved :
      (token : Token) (r : BindResults) (s : Server) → Unmoved s (open_and_bind token r s)
  unfolding open_and_bind
  open_and_bind-Unmoved token r s = ground (
    arith,
    handle_bind_failed-Unmoved r.open_error token s,
    handle_bind_failed-Unmoved r.bind_error token s,
    listen-Unmoved token r (record s {
      bound_socket_file_path = some r.resolved;
      runtime = set_socket_file_path_owner r.resolved s.self s.runtime;
    }),
  )

  pub bind_on_io-Unmoved :
      (token : Token) (r : BindResults) (s : Server) → Unmoved s (bind_on_io token r s)
  unfolding bind_on_io
  bind_on_io-Unmoved token r s =
      let t = do_call (acceptor_open s.next_handle) (record s {
        runtime = remove_socket_file_path s.socket_file_path r.key s.runtime;
        acceptor = some s.next_handle;
        next_handle = s.next_handle + 1;
      }) in
      ground (
        arith,
        handle_bind_failed-Unmoved r.endpoint_error token s,
        open_and_bind-Unmoved token r t,
        count-append (is_close_of p) s.calls (acceptor_open s.next_handle ∷ []),
      )

  pub health_check_on_io-Unmoved :
      (token : Token) (e : ErrorCode) (s : Server) → Unmoved s (health_check_on_io token e s)
  unfolding health_check_on_io
  health_check_on_io-Unmoved token e s =
      grind (arith, count-append (is_close_of p), failed_health_check-Unmoved)

  pub probe_timer-Unmoved :
      (k : Probe) (e : ErrorCode) (s : Server) → Unmoved s (on_probe_timer k e s)
  unfolding on_probe_timer
  probe_timer-Unmoved k e s =
      grind (arith, count-append (is_close_of p), failed_health_check-Unmoved)

  pub probe_connect-Unmoved :
      (k : Probe) (e : ErrorCode) (s : Server) → Unmoved s (on_probe_connect k e s)
  unfolding on_probe_connect
  probe_connect-Unmoved k e s =
      grind (arith, count-append (is_close_of p), failed_health_check-Unmoved)

  pub run_task-Unmoved :
      (verify_peer : PeerCredentials → Bool) (t : Task) (s : Server)
      → Unmoved s (run_task verify_peer t s)
  unfolding run_task run_notice deliver bind stop if_exposed notify_peer_closed schedule_bind_retry
      start_socket_path_health_check_timer
  run_task-Unmoved verify_peer t s = grind (arith, count-append (is_close_of p))

  pub shutdown-Unmoved : (s : Server) → Unmoved s (async_shutdown s)
  unfolding async_shutdown
  shutdown-Unmoved s = grind (arith, count-append (is_close_of p))
