-- ===== src/Server/Spared.antt =====
-- server.hpp and impl/runtime.hpp: the socket file of another server, over binding, accepting and closing.
use cpp_unix_domain_stream.Prelude.{
  ℕ, ◌+◌, ◌≡◌, ◌≢◌, sym, ◌∙◌, none, some, List, [], ◌∷◌, ◌==◌, count, arith, ErrorCode,
  operation_aborted, Option-cases, inl, inr,
}
use cpp_unix_domain_stream.Credentials.{PeerCredentials}
use cpp_unix_domain_stream.NotificationScope.{Token}
use cpp_unix_domain_stream.Runtime.{
  Runtime, owner_of, set_socket_file_path_owner, remove_socket_file_path,
  remove_socket_file_path_if_owned,
}
use cpp_unix_domain_stream.Runtime.Ownership.{
  Use, takes, clears, cleans, perform, Spares, Spares-step,
}
use cpp_unix_domain_stream.RequestManager.{complete_all}
use cpp_unix_domain_stream.Server.State
use cpp_unix_domain_stream.Server.State.{
  Server, Slot, Probe, Task, IoTask, new_server, do_call, acceptor_open, acceptor_close, peer_close,
  socket_close, timer_cancel, peer_disconnect_slots,
}
use cpp_unix_domain_stream.Server.Acceptor.{
  BindResults, bind_on_io, on_accept, handle_accepted_socket, accept, close_acceptor, release_path,
  open_and_bind, listen, handle_bind_failed,
}
use cpp_unix_domain_stream.Server.Peers.{close_peers, close_all_peers}
use cpp_unix_domain_stream.Server.HealthCheck.{
  handle_socket_path_health_check_failed, close_socket_path_health_check_peer,
  reset_health_check_timeout,
}
use cpp_unix_domain_stream.Server.Tasks.{disconnect_peers}

-- How often `std::filesystem::remove` was called on `p`.
abbrev pub removals : ℕ → Runtime → ℕ
removals p r = count (λ q. q == p) r.removed

-- Neither the server's path nor the stale file's key nor the path that is bound is `p`.
abbrev pub Elsewhere : ℕ → BindResults → Server → Type 0
Elsewhere p r s = (s.socket_file_path ≢ p) × (r.key ≢ p) × (r.resolved ≢ p)

-- `p` still belongs to `owner`, and the file there was removed `n` times.
abbrev pub Owned : ℕ → ℕ → ℕ → Runtime → Type 0
Owned p owner n r = (owner_of p r.socket_file_path_owners ≡ some owner) × (removals p r ≡ n)

pub record Spared (p owner self n : ℕ) (s : Server) : Type 0 where
  pub same_self : s.self ≡ self
  pub owned : Owned p owner n s.runtime

module _ (p owner self n : ℕ) (other : self ≢ owner) where
  abbrev pub IsSpared : Server → Type 0
  IsSpared s = Spared p owner self n s

  use-Owned :
      (u : Use) (r : Runtime) → Spares p owner u → Owned p owner n r → Owned p owner n (perform r u)
  use-Owned u r h (a, b) = let (c, d) = Spares-step p owner r u h a in (c, d ∙ b)

  cleans-Owned :
      (k : ℕ) (s : Server)
      → IsSpared s
      → Owned p owner n (remove_socket_file_path_if_owned k s.self s.runtime)
  cleans-Owned k s v =
      unfold perform in
      use-Owned (cleans k s.self) s.runtime (λ h. other (sym v.same_self ∙ h)) v.owned

  clears-Owned :
      (key : ℕ) (s : Server)
      → s.socket_file_path ≢ p
      → key ≢ p
      → IsSpared s
      → Owned p owner n (remove_socket_file_path s.socket_file_path key s.runtime)
  clears-Owned key s apart h v =
      unfold perform in use-Owned (clears s.socket_file_path key) s.runtime (apart, h) v.owned

  takes-Owned :
      (k : ℕ) (s : Server)
      → k ≢ p
      → IsSpared s
      → Owned p owner n (set_socket_file_path_owner k s.self s.runtime)
  takes-Owned k s h v = unfold perform in use-Owned (takes k s.self) s.runtime h v.owned

  release_path-IsSpared : (s : Server) → IsSpared s → IsSpared (release_path s)
  unfolding release_path
  release_path-IsSpared s v = elim (Option-cases s.bound_socket_file_path) [
    | inl h ↦ ground arith
    | inr (k, h) ↦ ground (arith, cleans-Owned k s v)
  ]

  pub close_acceptor-IsSpared : (s : Server) → IsSpared s → IsSpared (close_acceptor s)
  unfolding close_acceptor
  close_acceptor-IsSpared s v = elim (Option-cases s.acceptor) [
    | inl h ↦ ground (arith, release_path-IsSpared s v)
    | inr (a, h) ↦
        let t = do_call (acceptor_close a) (record s { acceptor = none }) in
        ground (arith, release_path-IsSpared t (ground arith))
  ]

  handle_bind_failed-IsSpared :
      (e : ErrorCode) (token : Token) (s : Server)
      → IsSpared s
      → IsSpared (handle_bind_failed e token s)
  unfolding handle_bind_failed
  handle_bind_failed-IsSpared e token s v = ground (arith, close_acceptor-IsSpared s v)

  accept-IsSpared : (token : Token) (s : Server) → IsSpared s → IsSpared (accept token s)
  unfolding accept
  accept-IsSpared token s v = ground arith

  listen-IsSpared :
      (token : Token) (r : BindResults) (s : Server) → IsSpared s → IsSpared (listen token r s)
  unfolding listen
  listen-IsSpared token r s v = ground (
    arith,
    handle_bind_failed-IsSpared r.listen_error token s v,
    accept-IsSpared token (State.enqueue (State.scoped token State.notify_bound) s) (ground arith),
  )

  open_and_bind-IsSpared :
      (token : Token) (r : BindResults) (s : Server)
      → r.resolved ≢ p
      → IsSpared s
      → IsSpared (open_and_bind token r s)
  unfolding open_and_bind
  open_and_bind-IsSpared token r s h v =
      let t = record s {
        bound_socket_file_path = some r.resolved;
        runtime = set_socket_file_path_owner r.resolved s.self s.runtime;
      } in
      let w : IsSpared t = record {
        same_self = v.same_self;
        owned = takes-Owned r.resolved s h v;
      } in
      ground (
        arith,
        handle_bind_failed-IsSpared r.open_error token s v,
        handle_bind_failed-IsSpared r.bind_error token s v,
        listen-IsSpared token r t w,
      )

  pub bind_on_io-IsSpared :
      (token : Token) (r : BindResults) (s : Server)
      → Elsewhere p r s
      → IsSpared s
      → IsSpared (bind_on_io token r s)
  unfolding bind_on_io
  bind_on_io-IsSpared token r s h v =
      let t = do_call (acceptor_open s.next_handle) (record s {
        runtime = remove_socket_file_path s.socket_file_path r.key s.runtime;
        acceptor = some s.next_handle;
        next_handle = s.next_handle + 1;
      }) in
      let w : IsSpared t = record {
        same_self = v.same_self;
        owned = clears-Owned r.key s h.0 h.1 v;
      } in
      ground (
        arith,
        handle_bind_failed-IsSpared r.endpoint_error token s v,
        open_and_bind-IsSpared token r t h.2 w,
      )

  pub on_accept-IsSpared :
      (token : Token) (e : ErrorCode) (socket : ℕ) (credentials : PeerCredentials) (s : Server)
      → IsSpared s
      → IsSpared (on_accept token e socket credentials s)
  unfolding on_accept handle_accepted_socket accept
  on_accept-IsSpared token e socket credentials s v = ground (arith, close_acceptor-IsSpared s v)

  close_peers-IsSpared :
      (peers : List (ℕ × ℕ)) (s : Server) → IsSpared s → IsSpared (close_peers peers s)
  unfolding close_peers
  close_peers-IsSpared [] s v = v
  close_peers-IsSpared ((id, k) ∷ rest) s v =
      close_peers-IsSpared rest (do_call (peer_close k) s) (ground arith)

  pub disconnect_peers-IsSpared :
      (peers : List (ℕ × ℕ)) (s : Server) → IsSpared s → IsSpared (disconnect_peers peers s)
  unfolding disconnect_peers
  disconnect_peers-IsSpared [] s v = v
  disconnect_peers-IsSpared ((id, k) ∷ rest) s v =
      disconnect_peers-IsSpared rest (do_call (peer_disconnect_slots k) s) (ground arith)

  pub close_all_peers-IsSpared : (s : Server) → IsSpared s → IsSpared (close_all_peers s)
  unfolding close_all_peers
  close_all_peers-IsSpared s v =
      let t = record s { manager = complete_all operation_aborted s.manager } in
      let w = close_peers-IsSpared s.peers t (ground arith) in ground (arith, w)

  pub close_health_check-IsSpared :
      (s : Server) → IsSpared s → IsSpared (close_socket_path_health_check_peer s)
  unfolding close_socket_path_health_check_peer reset_health_check_timeout
  close_health_check-IsSpared s v = ground arith

  pub failed_health_check-IsSpared :
      (token : Token) (timeout : ℕ) (s : Server)
      → IsSpared s
      → IsSpared (handle_socket_path_health_check_failed token timeout s)
  unfolding handle_socket_path_health_check_failed
  failed_health_check-IsSpared token timeout s v =
      let t = close_socket_path_health_check_peer s in
      ground (arith, close_acceptor-IsSpared t (close_health_check-IsSpared s v))
