-- ===== src/Server/Stop.antt =====
-- server.hpp: `stop`, and the functions that may still wait after it.
use cpp_unix_domain_stream.Prelude.{
  ℕ, ◌≡◌, refl, ◌∙◌, Bool, false, none, List, [], ◌∷◌, arith, ErrorCode, operation_aborted,
}
use cpp_unix_domain_stream.Credentials.{PeerCredentials}
use cpp_unix_domain_stream.NotificationScope
use cpp_unix_domain_stream.NotificationScope.{NotificationScope, Token, deliver, is_current}
use cpp_unix_domain_stream.RequestManager.{complete_all}
use cpp_unix_domain_stream.RequestManager.Ids.{pending-complete_all}
use cpp_unix_domain_stream.Server.State.{
  Server, ServerSignal, Notice, scoped, socket_close, peer_close, do_call,
}
use cpp_unix_domain_stream.Server.Acceptor.{
  BindResults, release_path, close_acceptor, bind_on_io, on_accept,
}
use cpp_unix_domain_stream.Server.Peers.{contains, close_peers, close_all_peers, notify_peer_closed}
use cpp_unix_domain_stream.Server.HealthCheck.{
  close_socket_path_health_check_peer, reset_health_check_timeout,
  handle_socket_path_health_check_failed, is_current_socket_path_health_check, health_check_on_io,
}
use cpp_unix_domain_stream.Server.Tasks.{if_exposed, on_bind_retry, run_task}

-- The state that a stop leaves.
pub record IsStopped (s : Server) : Type 0 where
  pub not_running : s.scope.running ≡ false
  pub no_exposed_peers : s.exposed_peer_ids ≡ []
  pub no_acceptor : s.acceptor ≡ none
  pub no_path : s.bound_socket_file_path ≡ none
  pub no_peers : s.peers ≡ []
  pub no_requests : s.manager.pending_requests ≡ []
  pub no_health_check : s.health_check_peer ≡ none
  pub no_timeout : s.health_check_timeout ≡ none

-- What the functions that may still wait do to a server that ignores them: nothing, but for the
-- closing of a socket that was accepted late.
pub record Ignores (s : Server) : Type 0 where
  pub no_notice :
      (verify_peer : PeerCredentials → Bool) (token : Token) (notice : Notice)
      → run_task verify_peer (scoped token notice) s ≡ s
  pub no_message : (id : ℕ) (signal : ServerSignal) → if_exposed id signal s ≡ s
  pub no_peer_closed : (id : ℕ) → notify_peer_closed id s ≡ s
  pub no_bind : (token : Token) (r : BindResults) → bind_on_io token r s ≡ s
  pub no_retry : on_bind_retry s ≡ s
  pub no_accept :
      (token : Token) (e : ErrorCode) (socket : ℕ) (credentials : PeerCredentials)
      → on_accept token e socket credentials s ≡ do_call (socket_close socket) s
  pub no_check : (token : Token) (e : ErrorCode) → health_check_on_io token e s ≡ s
  pub no_failed_check :
      (token : Token) (timeout : ℕ) → handle_socket_path_health_check_failed token timeout s ≡ s

pub stopped-Ignores : (s : Server) → IsStopped s → Ignores s
unfolding run_task deliver is_current if_exposed contains notify_peer_closed bind_on_io
    on_bind_retry on_accept health_check_on_io handle_socket_path_health_check_failed
    is_current_socket_path_health_check
stopped-Ignores s h = record {
  no_notice = λ verify_peer token notice. ground arith;
  no_message = λ id signal. ground arith;
  no_peer_closed = λ id. ground arith;
  no_bind = λ token r. ground arith;
  no_retry = ground arith;
  no_accept = λ token e socket credentials. ground arith;
  no_check = λ token e. ground arith;
  no_failed_check = λ token timeout. ground arith;
}

-- The closes leave the rest of the state as it was.
abbrev pub Kept : Server → Server → Type 0
Kept s t =
    (t.scope ≡ s.scope)
    × (t.exposed_peer_ids ≡ s.exposed_peer_ids)
    × (t.acceptor ≡ s.acceptor)
    × (t.bound_socket_file_path ≡ s.bound_socket_file_path)
    × (t.manager ≡ s.manager)

close_peers-Kept : (peers : List (ℕ × ℕ)) (s : Server) → Kept s (close_peers peers s)
unfolding close_peers
close_peers-Kept [] s = (refl, refl, refl, refl, refl)
close_peers-Kept ((id, p) ∷ rest) s = close_peers-Kept rest (do_call (peer_close p) s)

-- Without an acceptor and its path, without peers and their requests.
abbrev pub Emptied : Server → Server → Type 0
Emptied s t =
    (t.scope ≡ s.scope)
    × (t.exposed_peer_ids ≡ s.exposed_peer_ids)
    × (t.acceptor ≡ none)
    × (t.bound_socket_file_path ≡ none)
    × (t.peers ≡ [])
    × (t.manager.pending_requests ≡ [])

pub close_acceptor-lem :
    (s : Server)
    → let t = close_acceptor s in
      (t.scope ≡ s.scope)
      × (t.exposed_peer_ids ≡ s.exposed_peer_ids)
      × (t.acceptor ≡ none)
      × (t.bound_socket_file_path ≡ none)
unfolding close_acceptor release_path
close_acceptor-lem s = ground arith

pub close_all_peers-Emptied :
    (s t : Server)
    → t.scope ≡ s.scope
    → t.exposed_peer_ids ≡ s.exposed_peer_ids
    → t.acceptor ≡ none
    → t.bound_socket_file_path ≡ none
    → Emptied s (close_all_peers t)
unfolding close_all_peers
close_all_peers-Emptied s t a b c d =
    let u = record t { manager = complete_all operation_aborted t.manager } in
    let (e, f, g, h, i) = close_peers-Kept t.peers u in
    (e ∙ a, f ∙ b, g ∙ c, h ∙ d, refl, rw i (pending-complete_all operation_aborted t.manager))

pub close_health_check-IsStopped :
    (s t : Server)
    → s.scope.running ≡ false
    → s.exposed_peer_ids ≡ []
    → Emptied s t
    → IsStopped (close_socket_path_health_check_peer t)
unfolding close_socket_path_health_check_peer reset_health_check_timeout
close_health_check-IsStopped s t a b (c, d, e, f, g, h) = ground arith
