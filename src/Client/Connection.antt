-- ===== src/Client/Connection.antt =====
-- client.hpp: connecting, reconnecting, stopping and closing.
use cpp_unix_domain_stream.Prelude.{
  ℕ, ◌+◌, Bool, true, false, not, ◌||◌, none, some, [], ◌∷◌, ◌++◌, if◌then◌else◌, is_this, is_some,
  ErrorCode, operation_aborted, is_error,
}
use cpp_unix_domain_stream.Options.{normalize_scheduling_interval}
use cpp_unix_domain_stream.Credentials.{PeerCredentials}
use cpp_unix_domain_stream.NotificationScope
use cpp_unix_domain_stream.NotificationScope.{Token, capture, is_current}
use cpp_unix_domain_stream.RequestManager.{complete_all}
use cpp_unix_domain_stream.Client.State.{
  Client, notify_connect_failed, verify, notify_verification_failed, reconnects, scoped, connect_io,
  stop_io, invalidate_io, connected_io, socket_connect, socket_close, peer_start, peer_close,
  debounce_after, debounce_cancel, post, enqueue, do_call,
}

-- Posts the connect attempt.
unfoldable pub connect : Client → Client
unfolding capture
connect c = post (connect_io (capture c.scope)) c

-- The posted attempt. The error is that of `make_endpoint` on the socket path.
unfoldable pub connect_on_io : Token → ErrorCode → Client → Client
connect_on_io token endpoint_error c =
    if not (is_current c.scope token) || is_some c.connecting_socket || is_some c.peer
    then c
    else if is_error endpoint_error
    then enqueue (scoped token (notify_connect_failed endpoint_error)) c
    else do_call (socket_connect c.next_handle) (record c {
      next_handle = c.next_handle + 1;
      connecting_socket = some c.next_handle;
      connects = c.connects ++ ((c.next_handle, token) ∷ []);
    })

-- The completion handler of `async_connect`.
unfoldable pub on_connect : ℕ → Token → ErrorCode → PeerCredentials → Client → Client
on_connect socket token error_code credentials c =
    if not c.scope.running || not (is_this c.connecting_socket socket)
    then do_call (socket_close socket) c
    else if is_error error_code
    then enqueue (scoped token (notify_connect_failed error_code))
        (record c { connecting_socket = none })
    else if c.attached
    then enqueue (scoped token (verify socket credentials)) c
    else do_call (socket_close socket) (record c { connecting_socket = none })

unfoldable pub schedule_reconnect : Client → Client
schedule_reconnect c =
    if not c.scope.running
    then c
    else do_call (debounce_after (normalize_scheduling_interval c.options.reconnect_interval)) c

-- The function given to the reconnect task.
unfoldable pub on_reconnect : Client → Client
on_reconnect c = if not c.scope.running then c else connect c

unfoldable pub close_connecting_socket : Client → Client
close_connecting_socket c = elim c.connecting_socket [
  | none ↦ c
  | some socket ↦ do_call (socket_close socket) (record c { connecting_socket = none })
]

-- Also says whether there was a peer.
unfoldable pub close_peer : ErrorCode → Client → Client × Bool
close_peer error_code c = elim c.peer [
  | none ↦ (c, false)
  | some p ↦ (
    do_call (peer_close p) (record c { manager = complete_all error_code c.manager; peer = none }),
    true,
  )
]

-- `stop`, on the dispatcher.
unfoldable pub stop : Client → Client
stop c =
    post stop_io (do_call debounce_cancel (record c { scope = NotificationScope.stop c.scope }))

unfoldable pub stop_on_io : Client → Client
stop_on_io c = (close_peer operation_aborted (close_connecting_socket c)).0

-- `invalidate_connection`, on the dispatcher.
unfoldable pub invalidate_connection : Client → Client
invalidate_connection c =
    let scope = NotificationScope.invalidate c.scope in
    post (invalidate_io (capture scope)) (do_call debounce_cancel (record c { scope = scope }))

unfoldable pub invalidate_on_io : Token → Client → Client
invalidate_on_io token c =
    enqueue (scoped token reconnects) (close_peer operation_aborted (close_connecting_socket c)).0

unfoldable pub handle_connected_socket : ℕ → PeerCredentials → Bool → Token → Client → Client
handle_connected_socket socket credentials verified token c =
    if not (is_this c.connecting_socket socket)
    then do_call (socket_close socket) c
    else let d = record c { connecting_socket = none } in
      if not (is_current d.scope token)
      then do_call (socket_close socket) d
      else if not verified
      then enqueue (scoped token (notify_verification_failed credentials))
          (do_call (socket_close socket) d)
      else let p = d.next_handle in
        post (connected_io p credentials token) (
          do_call (peer_start p)
            (record d { next_handle = p + 1; peer = some p; slots = d.slots ++ ((p, token) ∷ []) }))
