-- ===== src/Server/Acceptor.antt =====
-- server.hpp: binding the socket file, accepting connections, and closing the acceptor.
use cpp_unix_domain_stream.Prelude.{
  ℕ, ◌+◌, ◌%◌, ◌^◌, not, ◌||◌, Option, none, some, List, [], ◌∷◌, ◌++◌, ◌==◌, if◌then◌else◌,
  is_some, ErrorCode, is_error, is_aborted,
}
use cpp_unix_domain_stream.Options.{normalize_scheduling_interval}
use cpp_unix_domain_stream.Credentials.{PeerCredentials}
use cpp_unix_domain_stream.NotificationScope.{Token, capture, is_current}
use cpp_unix_domain_stream.Runtime.{
  set_socket_file_path_owner, remove_socket_file_path, remove_socket_file_path_if_owned,
}
use cpp_unix_domain_stream.Server.State.{
  Server, notify_bound, notify_bind_failed, notify_closed, scoped, bind_io, acceptor_open,
  acceptor_accept, acceptor_close, socket_close, peer_start, retry_after, health_check_timer_stop,
  post, enqueue, do_call,
}

-- `unordered_map` over peer ids, as an association list.
unfoldable pub find : ℕ → List (ℕ × ℕ) → Option ℕ
find id [] = none
find id ((k, p) ∷ rest) = if k == id then some p else find id rest

unfoldable pub erase : ℕ → List (ℕ × ℕ) → List (ℕ × ℕ)
erase id [] = []
erase id ((k, p) ∷ rest) = let others = erase id rest in if k == id then others else (k, p) ∷ others

unfoldable pub emplace : ℕ → ℕ → List (ℕ × ℕ) → List (ℕ × ℕ)
unfolding find
emplace id p peers = if is_some (find id peers) then peers else (id, p) ∷ peers

-- The file part of `close_acceptor`.
unfoldable pub release_path : Server → Server
release_path s = elim s.bound_socket_file_path [
  | none ↦ s
  | some path ↦ record s {
    runtime = remove_socket_file_path_if_owned path s.self s.runtime;
    bound_socket_file_path = none;
  }
]

unfoldable pub close_acceptor : Server → Server
unfolding release_path
close_acceptor s = elim s.acceptor [
  | none ↦ release_path s
  | some a ↦ release_path (do_call (acceptor_close a) (record s { acceptor = none }))
]

unfoldable pub schedule_bind_retry : Server → Server
schedule_bind_retry s =
    let t = do_call health_check_timer_stop s in
    if not t.scope.running
    then t
    else do_call (retry_after (normalize_scheduling_interval t.options.bind_retry_interval)) t

unfoldable pub handle_bind_failed : ErrorCode → Token → Server → Server
handle_bind_failed error_code token s =
    enqueue (scoped token (notify_bind_failed error_code)) (close_acceptor s)

unfoldable pub accept : Token → Server → Server
accept token s = elim s.acceptor [
  | none ↦ s
  | some a ↦
      if not (is_current s.scope token)
      then s
      else do_call (acceptor_accept a) (record s { accepts = s.accepts ++ (token ∷ []) })
]

-- What the calls of one bind attempt report: the errors of `make_endpoint`, `open`, `bind` and
-- `listen`, and the key of the socket path before and after the stale file is removed.
pub record BindResults : Type 0 where
  pub endpoint_error : ErrorCode
  pub key : ℕ
  pub resolved : ℕ
  pub open_error : ErrorCode
  pub bind_error : ErrorCode
  pub listen_error : ErrorCode

-- Posts the bind attempt.
unfoldable pub bind : Server → Server
unfolding capture
bind s = post (bind_io (capture s.scope)) s

-- From `listen` on.
unfoldable pub listen : Token → BindResults → Server → Server
listen token r s =
    if is_error r.listen_error
    then handle_bind_failed r.listen_error token s
    else accept token (enqueue (scoped token notify_bound) s)

-- From `open` on, with a new acceptor.
unfoldable pub open_and_bind : Token → BindResults → Server → Server
open_and_bind token r s =
    if is_error r.open_error
    then handle_bind_failed r.open_error token s
    else if is_error r.bind_error
    then handle_bind_failed r.bind_error token s
    else listen token r (record s {
      bound_socket_file_path = some r.resolved;
      runtime = set_socket_file_path_owner r.resolved s.self s.runtime;
    })

-- The posted attempt.
unfoldable pub bind_on_io : Token → BindResults → Server → Server
bind_on_io token r s =
    if not (is_current s.scope token) || is_some s.acceptor
    then s
    else if is_error r.endpoint_error
    then handle_bind_failed r.endpoint_error token s
    else open_and_bind token r (
        do_call (acceptor_open s.next_handle) (record s {
          runtime = remove_socket_file_path s.socket_file_path r.key s.runtime;
          acceptor = some s.next_handle;
          next_handle = s.next_handle + 1;
        }))

-- The id of the next peer: `++next_peer_id_` on a uint64_t.
abbrev pub next_id : Server → ℕ
next_id s = (s.next_peer_id + 1) % 2 ^ 64

unfoldable pub handle_accepted_socket : ℕ → PeerCredentials → Token → Server → Server
handle_accepted_socket socket credentials token s =
    if not (is_current s.scope token)
    then do_call (socket_close socket) s
    else let id = next_id s in
      let p = s.next_handle in
      accept token (
        do_call (peer_start p) (record s {
          next_peer_id = id;
          next_handle = p + 1;
          peers = emplace id p s.peers;
          slots =
              s.slots
              ++ (record { id = id; peer = p; credentials = credentials; token = token } ∷ []);
        }))

-- The completion handler of `async_accept`, with the accepted socket and its peer's credentials.
unfoldable pub on_accept : Token → ErrorCode → ℕ → PeerCredentials → Server → Server
on_accept token error_code socket credentials s =
    if not (is_current s.scope token)
    then do_call (socket_close socket) s
    else if is_error error_code
    then (if is_aborted error_code
        then s
        else enqueue (scoped token notify_closed) (close_acceptor s))
    else handle_accepted_socket socket credentials token s
