-- ===== src/Server/Line.antt =====
-- server.hpp: the messages of one peer that wait on the dispatcher, which only that peer adds.
use cpp_unix_domain_stream.Prelude.{
  ℕ, ◌+◌, ◌≡◌, refl, ◌∙◌, Option, some, List, [], ◌∷◌, ◌==◌, if◌then◌else◌, concat_map,
  concat_map-skip, arith, ErrorCode, operation_aborted,
}
use cpp_unix_domain_stream.Credentials.{PeerCredentials}
use cpp_unix_domain_stream.NotificationScope.{Token}
use cpp_unix_domain_stream.RequestManager.{complete_all}
use cpp_unix_domain_stream.Runtime.{set_socket_file_path_owner, remove_socket_file_path}
use cpp_unix_domain_stream.Server.State.{
  Server, ServerSignal, Probe, Notice, Task, IoTask, do_call, acceptor_open, socket_close,
  timer_cancel, peer_close, peer_disconnect_slots, enqueue,
}
use cpp_unix_domain_stream.Server.Acceptor.{
  BindResults, bind_on_io, listen, open_and_bind, handle_bind_failed, close_acceptor, release_path,
  accept, on_accept, handle_accepted_socket,
}
use cpp_unix_domain_stream.Server.Peers.{
  close_peer, close_peers, close_all_peers, send_on_io, respond_on_io, send_request,
  on_request_timer, response_received_on_io, error_on_io, closed_on_io,
}
use cpp_unix_domain_stream.Server.HealthCheck.{
  on_probe_timer, on_probe_connect, health_check_on_io, health_check_done_on_io,
  handle_socket_path_health_check_failed, close_socket_path_health_check_peer,
  reset_health_check_timeout,
}
use cpp_unix_domain_stream.Server.Tasks.{
  run_io, stop_on_io, shutdown_on_io, disconnect_peers, disconnect_health_check_peer,
}

-- What the task tells the user of the peer with that id, if the peer is exposed: a message, a request
-- or an error.
abbrev pub message_in : ℕ → Task → List ServerSignal
message_in id (Task.received_task k bytes) =
    if k == id then ServerSignal.received k bytes ∷ [] else []
message_in id (Task.request_received_task k request_id bytes) =
    if k == id then ServerSignal.request_received k request_id bytes ∷ [] else []
message_in id (Task.error_task k e) =
    if k == id then ServerSignal.peer_error_occurred k e ∷ [] else []
message_in id _ = []

-- In order.
abbrev pub waiting : ℕ → Server → List ServerSignal
waiting id s = concat_map (message_in id) s.tasks

module _ (id : ℕ) where
  -- Nothing of the peer was added or taken.
  abbrev pub Calm : Server → Server → Type 0
  Calm s t = waiting id t ≡ waiting id s

  pub waiting-enqueue : (t : Task) (s : Server) → message_in id t ≡ [] → Calm s (enqueue t s)
  waiting-enqueue t s h = ground (arith, concat_map-skip (message_in id) s.tasks t h)

  close_acceptor-Calm : (s : Server) → Calm s (close_acceptor s)
  unfolding close_acceptor release_path
  close_acceptor-Calm s = ground arith

  disconnect_peers-Calm : (peers : List (ℕ × ℕ)) (s : Server) → Calm s (disconnect_peers peers s)
  unfolding disconnect_peers
  disconnect_peers-Calm [] s = refl
  disconnect_peers-Calm ((k, q) ∷ rest) s =
      disconnect_peers-Calm rest (do_call (peer_disconnect_slots q) s)

  close_peers-Calm : (peers : List (ℕ × ℕ)) (s : Server) → Calm s (close_peers peers s)
  unfolding close_peers
  close_peers-Calm [] s = refl
  close_peers-Calm ((k, q) ∷ rest) s = close_peers-Calm rest (do_call (peer_close q) s)

  close_all_peers-Calm : (s : Server) → Calm s (close_all_peers s)
  unfolding close_all_peers
  close_all_peers-Calm s =
      close_peers-Calm s.peers (record s { manager = complete_all operation_aborted s.manager })

  disconnect_health_check-Calm :
      (q : Option ℕ) (s : Server) → Calm s (disconnect_health_check_peer q s)
  unfolding disconnect_health_check_peer
  disconnect_health_check-Calm q s = ground arith

  close_health_check-Calm : (s : Server) → Calm s (close_socket_path_health_check_peer s)
  unfolding close_socket_path_health_check_peer reset_health_check_timeout
  close_health_check-Calm s = ground arith

  failed_health_check-Calm :
      (token : Token) (timeout : ℕ) (s : Server)
      → Calm s (handle_socket_path_health_check_failed token timeout s)
  unfolding handle_socket_path_health_check_failed
  failed_health_check-Calm token timeout s =
      let t = close_socket_path_health_check_peer s in
      ground (
        arith,
        close_health_check-Calm s,
        close_acceptor-Calm t,
        waiting-enqueue (Task.scoped token Notice.notify_closed) (close_acceptor t) refl,
      )

  handle_bind_failed-Calm :
      (e : ErrorCode) (token : Token) (s : Server) → Calm s (handle_bind_failed e token s)
  unfolding handle_bind_failed
  handle_bind_failed-Calm e token s =
      waiting-enqueue (Task.scoped token (Notice.notify_bind_failed e)) (close_acceptor s) refl
      ∙ close_acceptor-Calm s

  accept-Calm : (token : Token) (s : Server) → Calm s (accept token s)
  unfolding accept
  accept-Calm token s = ground arith

  listen-Calm : (token : Token) (r : BindResults) (s : Server) → Calm s (listen token r s)
  unfolding listen
  listen-Calm token r s =
      let t = enqueue (Task.scoped token Notice.notify_bound) s in
      ground (
        arith,
        handle_bind_failed-Calm r.listen_error token s,
        accept-Calm token t,
        waiting-enqueue (Task.scoped token Notice.notify_bound) s refl,
      )

  open_and_bind-Calm :
      (token : Token) (r : BindResults) (s : Server) → Calm s (open_and_bind token r s)
  unfolding open_and_bind
  open_and_bind-Calm token r s = ground (
    arith,
    handle_bind_failed-Calm r.open_error token s,
    handle_bind_failed-Calm r.bind_error token s,
    listen-Calm token r (record s {
      bound_socket_file_path = some r.resolved;
      runtime = set_socket_file_path_owner r.resolved s.self s.runtime;
    }),
  )

  bind_on_io-Calm : (token : Token) (r : BindResults) (s : Server) → Calm s (bind_on_io token r s)
  unfolding bind_on_io
  bind_on_io-Calm token r s =
      let t = do_call (acceptor_open s.next_handle) (record s {
        runtime = remove_socket_file_path s.socket_file_path r.key s.runtime;
        acceptor = some s.next_handle;
        next_handle = s.next_handle + 1;
      }) in
      ground (arith, handle_bind_failed-Calm r.endpoint_error token s, open_and_bind-Calm token r t)

  pub on_accept-Calm :
      (token : Token) (e : ErrorCode) (socket : ℕ) (credentials : PeerCredentials) (s : Server)
      → Calm s (on_accept token e socket credentials s)
  unfolding on_accept handle_accepted_socket accept
  on_accept-Calm token e socket credentials s = ground (
    arith,
    close_acceptor-Calm s,
    waiting-enqueue (Task.scoped token Notice.notify_closed) (close_acceptor s) refl,
  )

  health_check_on_io-Calm :
      (token : Token) (e : ErrorCode) (s : Server) → Calm s (health_check_on_io token e s)
  unfolding health_check_on_io
  health_check_on_io-Calm token e s = ground (
    arith,
    failed_health_check-Calm token s.next_handle
        (record s { health_check_timeout = some s.next_handle; next_handle = s.next_handle + 1 }),
  )

  pub probe_timer-Calm : (k : Probe) (e : ErrorCode) (s : Server) → Calm s (on_probe_timer k e s)
  unfolding on_probe_timer
  probe_timer-Calm k e s =
      ground (arith, failed_health_check-Calm k.token k.timeout (do_call (socket_close k.object) s))

  pub probe_connect-Calm :
      (k : Probe) (e : ErrorCode) (s : Server) → Calm s (on_probe_connect k e s)
  unfolding on_probe_connect
  probe_connect-Calm k e s =
      ground
        (arith, failed_health_check-Calm k.token k.timeout (do_call (timer_cancel k.timeout) s))

  pub timer-Calm :
      (i peer_id : ℕ) (e : ErrorCode) (s : Server) → Calm s (on_request_timer i peer_id e s)
  unfolding on_request_timer close_peer
  timer-Calm i peer_id e s = ground arith

  stop_on_io-Calm : (s : Server) → Calm s (stop_on_io s)
  unfolding stop_on_io
  stop_on_io-Calm s =
      let t = close_acceptor s in
      close_health_check-Calm (close_all_peers t) ∙ close_all_peers-Calm t ∙ close_acceptor-Calm s

  shutdown_on_io-Calm : (s : Server) → Calm s (shutdown_on_io s)
  unfolding shutdown_on_io
  shutdown_on_io-Calm s =
      let t = close_acceptor s in
      let d = disconnect_peers t.peers t in
      let u = close_all_peers d in
      close_health_check-Calm (disconnect_health_check_peer u.health_check_peer u)
      ∙ disconnect_health_check-Calm u.health_check_peer u
      ∙ close_all_peers-Calm d
      ∙ disconnect_peers-Calm t.peers t
      ∙ close_acceptor-Calm s

  pub run_io-Calm : (r : BindResults) (t : IoTask) (s : Server) → Calm s (run_io r t s)
  unfolding run_io send_on_io respond_on_io send_request response_received_on_io error_on_io
      closed_on_io health_check_done_on_io close_peer
  run_io-Calm r (IoTask.bind_io token) s = bind_on_io-Calm token r s
  run_io-Calm r IoTask.stop_io s = stop_on_io-Calm s
  run_io-Calm r IoTask.shutdown_io s = shutdown_on_io-Calm s
  run_io-Calm r (IoTask.request_io k bytes timeout callback) s =
      ground (arith, waiting-enqueue (Task.not_connected_task callback) s refl)
  run_io-Calm r (IoTask.health_check_io token) s = health_check_on_io-Calm token r.endpoint_error s
  run_io-Calm r (IoTask.health_check_done_io timeout token) s =
      ground (arith, close_health_check-Calm s)
  run_io-Calm r (IoTask.health_check_failed_io e timeout token) s =
      failed_health_check-Calm token timeout s
  run_io-Calm r _ s = ground arith
