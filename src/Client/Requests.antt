-- ===== src/Client/Requests.antt =====
-- client.hpp: requests, and the functions that a peer's signals post.
use cpp_unix_domain_stream.Prelude.{
  ℕ, none, some, List, [], ◌∷◌, ◌++◌, if◌then◌else◌, is_this, ErrorCode, success, connection_reset,
}
use cpp_unix_domain_stream.Credentials.{PeerCredentials}
use cpp_unix_domain_stream.NotificationScope.{Token, capture}
use cpp_unix_domain_stream.RequestManager.{add, complete, complete_all, on_timer}
use cpp_unix_domain_stream.Client.State.{
  Client, notify_received, notify_request_received, notify_error, notify_closed, notify_connected,
  scoped, not_connected_task, peer_send, peer_send_request, peer_send_response, start_timer,
  enqueue, do_call,
}
use cpp_unix_domain_stream.Client.Connection.{close_peer}

unfoldable pub send_request : List ℕ → ℕ → ℕ → Client → Client
send_request bytes timeout callback c = elim c.peer [
  | none ↦ enqueue (not_connected_task callback) c
  | some p ↦
      let (manager, id) = add none callback c.manager in
      do_call (peer_send_request p id bytes) (
        do_call (start_timer id timeout)
          (record c { manager = manager; timers = c.timers ++ ((id, capture c.scope) ∷ []) }))
]

-- The timeout callback of a request, with the token captured when it was sent.
unfoldable pub on_request_timeout : Token → Client → Client
on_request_timeout token c =
    if c.options.common_parameters.invalidate_connection_on_request_error
    then (let (d, had_peer) = close_peer connection_reset c in
        if had_peer then enqueue (scoped token notify_closed) d else d)
    else c

-- The handler of a request's timer.
unfoldable pub on_request_timer : ℕ → Token → ErrorCode → Client → Client
on_request_timer id token error_code c =
    let (manager, expired) = on_timer id error_code c.manager in
    let d = record c { manager = manager } in if expired then on_request_timeout token d else d

unfoldable pub send_on_io : List ℕ → Client → Client
send_on_io bytes c = elim c.peer [ none ↦ c | some p ↦ do_call (peer_send p bytes) c ]

unfoldable pub respond_on_io : ℕ → List ℕ → Client → Client
respond_on_io id bytes c = elim c.peer [
  | none ↦ c
  | some p ↦ do_call (peer_send_response p id bytes) c
]

-- In each function that a slot of peer `p` posts: `self->peer_ != p` returns.
unfoldable pub received_on_io : ℕ → List ℕ → Token → Client → Client
received_on_io p bytes token c =
    if is_this c.peer p then enqueue (scoped token (notify_received bytes)) c else c

unfoldable pub request_received_on_io : ℕ → ℕ → List ℕ → Token → Client → Client
request_received_on_io p id bytes token c =
    if is_this c.peer p then enqueue (scoped token (notify_request_received id bytes)) c else c

unfoldable pub response_received_on_io : ℕ → ℕ → List ℕ → Client → Client
response_received_on_io p id bytes c =
    if is_this c.peer p
    then record c { manager = complete id success (some bytes) c.manager }
    else c

unfoldable pub error_on_io : ℕ → ErrorCode → Token → Client → Client
error_on_io p error_code token c =
    if is_this c.peer p
    then enqueue (scoped token (notify_error error_code))
        (record c { manager = complete_all error_code c.manager })
    else c

unfoldable pub closed_on_io : ℕ → Token → Client → Client
closed_on_io p token c =
    if is_this c.peer p
    then enqueue (scoped token notify_closed)
        (record c { manager = complete_all connection_reset c.manager; peer = none })
    else c

unfoldable pub connected_on_io : ℕ → PeerCredentials → Token → Client → Client
connected_on_io p credentials token c =
    if is_this c.peer p then enqueue (scoped token (notify_connected credentials)) c else c
