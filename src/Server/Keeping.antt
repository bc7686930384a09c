-- ===== src/Server/Keeping.antt =====
-- server.hpp: how the handlers keep the entry of one peer in the map of peers, or close that peer.
use cpp_unix_domain_stream.Prelude.{
  ℕ, suc, ◌≡◌, ◌≤◌, some, List, [], ◌∷◌, ◌⊎◌, inl, inr, ◌==◌, count-append, arith, ErrorCode,
  operation_aborted, Bool-cases, Option-cases, ==_iff, ap,
}
use cpp_unix_domain_stream.Credentials.{PeerCredentials}
use cpp_unix_domain_stream.NotificationScope.{Token}
use cpp_unix_domain_stream.RequestManager.{complete_all, on_timer}
use cpp_unix_domain_stream.Server.State.{Server, IoTask, do_call, peer_close}
use cpp_unix_domain_stream.Server.Acceptor.{
  BindResults, bind_on_io, close_acceptor, accept, on_accept, handle_accepted_socket, find, emplace,
  next_id,
}
use cpp_unix_domain_stream.Server.Waiting.{find-erase}
use cpp_unix_domain_stream.Server.Peers.{
  close_peer, close_peers, close_all_peers, send_on_io, respond_on_io, send_request,
  on_request_timer, response_received_on_io, error_on_io, closed_on_io,
}
use cpp_unix_domain_stream.Server.HealthCheck.{
  health_check_on_io, health_check_done_on_io, handle_socket_path_health_check_failed,
  close_socket_path_health_check_peer,
}
use cpp_unix_domain_stream.Server.Tasks.{
  run_io, stop_on_io, shutdown_on_io, disconnect_peers, disconnect_health_check_peer,
}
use cpp_unix_domain_stream.Server.Unmoved.{
  is_close_of, closes, Unmoved, then-Unmoved, close_acceptor-Unmoved, disconnect_peers-Unmoved,
  disconnect_health_check-Unmoved, close_health_check-Unmoved, failed_health_check-Unmoved,
  bind_on_io-Unmoved, health_check_on_io-Unmoved,
}

find-emplace :
    (id p k q : ℕ) (peers : List (ℕ × ℕ))
    → find id peers ≡ some p
    → find id (emplace k q peers) ≡ some p
unfolding find emplace
find-emplace id p k q peers h = ground arith

module _ (id p n : ℕ) where
  -- The peer `p` is still in the map under its id, or it was closed more than `n` times.
  abbrev pub Keeping : Server → Type 0
  Keeping s = ((find id s.peers ≡ some p) × (n ≤ closes p s)) ⊎ (suc n ≤ closes p s)

  pub Unmoved-Keeping : (s t : Server) → Unmoved p s t → Keeping s → Keeping t
  Unmoved-Keeping s t u v = ground (arith, u)

  close_peers-closes :
      (peers : List (ℕ × ℕ)) (s : Server) → closes p s ≤ closes p (close_peers peers s)
  unfolding close_peers
  close_peers-closes [] s = omega arith
  close_peers-closes ((k, q) ∷ rest) s = ground (
    arith,
    close_peers-closes rest (do_call (peer_close q) s),
    count-append (is_close_of p) s.calls (peer_close q ∷ []),
  )

  close_peers-found :
      (peers : List (ℕ × ℕ)) (s : Server)
      → find id peers ≡ some p
      → suc (closes p s) ≤ closes p (close_peers peers s)
  unfolding close_peers find
  close_peers-found [] s h = absurd cc
  close_peers-found ((k, q) ∷ rest) s h = ground (
    arith,
    close_peers-closes rest (do_call (peer_close q) s),
    close_peers-found rest (do_call (peer_close q) s),
    count-append (is_close_of p) s.calls (peer_close q ∷ []),
  )

  close_all_peers-Keeping : (s : Server) → Keeping s → Keeping (close_all_peers s)
  unfolding close_all_peers
  close_all_peers-Keeping s v =
      let t = record s { manager = complete_all operation_aborted s.manager } in
      ground (arith, close_peers-closes s.peers t, close_peers-found s.peers t)

  close_peer-Keeping : (k : ℕ) (s : Server) → Keeping s → Keeping (close_peer k s)
  unfolding close_peer
  close_peer-Keeping k s v = elim (Option-cases (find k s.peers)) [
    | inl h ↦ rw (h, close_peer) v
    | inr (q, h) ↦ ground (
      arith,
      ==_iff k id,
      find-erase id k s.peers,
      count-append (is_close_of p) s.calls (peer_close q ∷ []),
    )
  ]

  pub on_accept-Keeping :
      (token : Token) (e : ErrorCode) (socket : ℕ) (credentials : PeerCredentials) (s : Server)
      → Keeping s
      → Keeping (on_accept token e socket credentials s)
  unfolding on_accept handle_accepted_socket accept
  on_accept-Keeping token e socket credentials s v = grind (
    arith,
    count-append (is_close_of p),
    find-emplace id p (next_id s) s.next_handle s.peers,
    close_acceptor-Unmoved p,
  )

  pub timer-Keeping :
      (i peer_id : ℕ) (e : ErrorCode) (s : Server)
      → Keeping s
      → Keeping (on_request_timer i peer_id e s)
  unfolding on_request_timer
  timer-Keeping i peer_id e s v =
      ground (arith, close_peer-Keeping peer_id (record s { manager = (on_timer i e s.manager).0 }))

  stop_on_io-Keeping : (s : Server) → Keeping s → Keeping (stop_on_io s)
  unfolding stop_on_io
  stop_on_io-Keeping s v =
      let t = close_acceptor s in
      let u = close_all_peers t in
      Unmoved-Keeping u (close_socket_path_health_check_peer u) (close_health_check-Unmoved p u)
        (close_all_peers-Keeping t (Unmoved-Keeping s t (close_acceptor-Unmoved p s) v))

  shutdown_on_io-Keeping : (s : Server) → Keeping s → Keeping (shutdown_on_io s)
  unfolding shutdown_on_io
  shutdown_on_io-Keeping s v =
      let t = close_acceptor s in
      let d = disconnect_peers t.peers t in
      let u = close_all_peers d in
      let w = disconnect_health_check_peer u.health_check_peer u in
      Unmoved-Keeping u (close_socket_path_health_check_peer w)
        (then-Unmoved p u w (close_socket_path_health_check_peer w)
          (disconnect_health_check-Unmoved p u.health_check_peer u)
          (close_health_check-Unmoved p w))
        (close_all_peers-Keeping d (
          Unmoved-Keeping s d
            (then-Unmoved p s t d (close_acceptor-Unmoved p s)
              (disconnect_peers-Unmoved p t.peers t))
            v))

  -- Every function posted to the I/O thread, but the one that a peer's own `closed` has posted.
  pub run_io-Keeping :
      (r : BindResults) (t : IoTask) (s : Server)
      → Keeping s
      → Keeping (run_io r t s) ⊎ (t ≡ IoTask.closed_io id)
  unfolding run_io send_on_io respond_on_io send_request response_received_on_io error_on_io
      health_check_done_on_io
  run_io-Keeping r (IoTask.bind_io token) s v =
      inl (Unmoved-Keeping s (bind_on_io token r s) (bind_on_io-Unmoved p token r s) v)
  run_io-Keeping r IoTask.stop_io s v = inl (stop_on_io-Keeping s v)
  run_io-Keeping r IoTask.shutdown_io s v = inl (shutdown_on_io-Keeping s v)
  run_io-Keeping r (IoTask.close_peer_io k) s v = inl (close_peer-Keeping k s v)
  run_io-Keeping r (IoTask.health_check_io token) s v = inl (
      Unmoved-Keeping s (health_check_on_io token r.endpoint_error s)
        (health_check_on_io-Unmoved p token r.endpoint_error s) v)
  run_io-Keeping r (IoTask.health_check_done_io timeout token) s v =
      inl (ground (arith, close_health_check-Unmoved p s))
  run_io-Keeping r (IoTask.health_check_failed_io e timeout token) s v = inl (
      Unmoved-Keeping s (handle_socket_path_health_check_failed token timeout s)
        (failed_health_check-Unmoved p token timeout s) v)
  run_io-Keeping r (IoTask.closed_io k) s v = elim (Bool-cases (k == id)) [
    | inl h ↦ inr (ap IoTask.closed_io ((==_iff k id).0 h))
    | inr h ↦ inl (unfold closed_on_io in ground (arith, find-erase id k s.peers))
  ]
  run_io-Keeping r IoTask.keep_alive_io s v = inl v
  run_io-Keeping r (IoTask.send_io k bytes) s v = inl (grind (arith, count-append (is_close_of p)))
  run_io-Keeping r (IoTask.respond_io k i bytes) s v =
      inl (grind (arith, count-append (is_close_of p)))
  run_io-Keeping r (IoTask.request_io k bytes timeout callback) s v =
      inl (grind (arith, count-append (is_close_of p)))
  run_io-Keeping r (IoTask.response_received_io k q i bytes) s v = inl (ground arith)
  run_io-Keeping r (IoTask.error_io k e) s v = inl (ground arith)
