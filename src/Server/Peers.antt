-- ===== src/Server/Peers.antt =====
-- server.hpp: sending to peers, closing them, and what their signals do.
use cpp_unix_domain_stream.Prelude.{
  ℕ, Bool, false, none, some, List, [], ◌∷◌, ◌++◌, ◌==◌, ◌||◌, if◌then◌else◌, is_this, ErrorCode,
  success, operation_aborted, connection_reset,
}
use cpp_unix_domain_stream.RequestManager.{
  add, complete_of_peer, complete_peer, complete_all, on_timer,
}
use cpp_unix_domain_stream.Peer.State.{Signal}
use cpp_unix_domain_stream.Server.State.{
  Server, Slot, verify, scoped, received_task, request_received_task, error_task, peer_closed_task,
  not_connected_task, response_received_io, error_io, closed_io, peer_closed, peer_close, peer_send,
  peer_send_request, peer_send_response, start_timer, post, enqueue, do_call, emit,
}
use cpp_unix_domain_stream.Server.Acceptor.{find, erase}

-- `exposed_peer_ids_`, a set.
unfoldable pub contains : ℕ → List ℕ → Bool
contains id [] = false
contains id (x ∷ xs) = x == id || contains id xs

unfoldable pub insert_id : ℕ → List ℕ → List ℕ
insert_id id ids = if contains id ids then ids else id ∷ ids

unfoldable pub erase_id : ℕ → List ℕ → List ℕ
erase_id id [] = []
erase_id id (x ∷ xs) = if x == id then xs else x ∷ erase_id id xs

unfoldable pub enqueue_peer_closed : ℕ → Server → Server
enqueue_peer_closed id s = enqueue (peer_closed_task id) s

-- The enqueued function.
unfoldable pub notify_peer_closed : ℕ → Server → Server
notify_peer_closed id s =
    if contains id s.exposed_peer_ids
    then emit (peer_closed id) (record s { exposed_peer_ids = erase_id id s.exposed_peer_ids })
    else s

-- The completion of `async_close`, which enqueues `peer_closed`, waits in `closings`.
unfoldable pub close_peer : ℕ → Server → Server
close_peer id s = elim (find id s.peers) [
  | none ↦ s
  | some p ↦ do_call (peer_close p) (record s {
    manager = complete_peer id operation_aborted s.manager;
    closings = s.closings ++ (id ∷ []);
    peers = erase id s.peers;
  })
]

-- The loop of `close_all_peers`.
unfoldable pub close_peers : List (ℕ × ℕ) → Server → Server
close_peers [] s = s
close_peers ((id, p) ∷ rest) s = close_peers rest (do_call (peer_close p) s)

unfoldable pub close_all_peers : Server → Server
close_all_peers s =
    let t = close_peers s.peers (record s { manager = complete_all operation_aborted s.manager }) in
    record t { peers = [] }

unfoldable pub send_on_io : ℕ → List ℕ → Server → Server
send_on_io id bytes s = elim (find id s.peers) [ none ↦ s | some p ↦ do_call (peer_send p bytes) s ]

unfoldable pub respond_on_io : ℕ → ℕ → List ℕ → Server → Server
respond_on_io id request_id bytes s = elim (find id s.peers) [
  | none ↦ s
  | some p ↦ do_call (peer_send_response p request_id bytes) s
]

-- `async_request` on the I/O thread, with `send_request`.
unfoldable pub send_request : ℕ → List ℕ → ℕ → ℕ → Server → Server
send_request peer_id bytes timeout callback s = elim (find peer_id s.peers) [
  | none ↦ enqueue (not_connected_task callback) s
  | some p ↦
      let (manager, id) = add (some peer_id) callback s.manager in
      do_call (peer_send_request p id bytes) (
        do_call (start_timer id timeout)
          (record s { manager = manager; timers = s.timers ++ ((id, peer_id) ∷ []) }))
]

-- The handler of a request's timer, with the timeout callback of `send_request`.
unfoldable pub on_request_timer : ℕ → ℕ → ErrorCode → Server → Server
on_request_timer id peer_id error_code s =
    let (manager, expired) = on_timer id error_code s.manager in
    let t = record s { manager = manager } in
    if expired
    then (if t.options.common_parameters.invalidate_connection_on_request_error
        then close_peer peer_id t
        else t)
    else t

unfoldable pub response_received_on_io : ℕ → ℕ → ℕ → List ℕ → Server → Server
response_received_on_io id p request_id bytes s =
    if is_this (find id s.peers) p
    then record s { manager = complete_of_peer id request_id success (some bytes) s.manager }
    else s

unfoldable pub error_on_io : ℕ → ErrorCode → Server → Server
error_on_io id error_code s = record s { manager = complete_peer id error_code s.manager }

unfoldable pub closed_on_io : ℕ → Server → Server
closed_on_io id s = record s {
  manager = complete_peer id connection_reset s.manager;
  peers = erase id s.peers;
}

-- The slots that `handle_accepted_socket` connects to a peer's signals; they run on the dispatcher.
unfoldable pub peer_slot : Slot → Signal → Server → Server
peer_slot k Signal.ready s = enqueue (scoped k.token (verify k.id k.credentials)) s
peer_slot k (Signal.received bytes) s = enqueue (received_task k.id bytes) s
peer_slot k (Signal.request_received request_id bytes) s =
    enqueue (request_received_task k.id request_id bytes) s
peer_slot k (Signal.response_received request_id bytes) s =
    post (response_received_io k.id k.peer request_id bytes) s
peer_slot k Signal.health_check_response_received s = s
peer_slot k (Signal.error_occurred e) s = enqueue (error_task k.id e) (post (error_io k.id e) s)
peer_slot k Signal.closed s = enqueue_peer_closed k.id (post (closed_io k.id) s)
