-- ===== src/Peer/Read.antt =====
-- impl/peer.hpp: the read loop, a header and a body in turn.
use cpp_unix_domain_stream.Prelude.{
  ℕ, zero, suc, ◌+◌, true, not, ◌&&◌, ◌||◌, Option, none, some, List, [], ◌∷◌, ltb, ◌==◌,
  if◌then◌else◌, length, get_or, drop, ErrorCode, message_size, operation_not_supported,
  invalid_argument, is_error, is_eof,
}
use cpp_unix_domain_stream.Protocol.{
  MessageType, heartbeat, user_data, health_check, health_check_response, request, response,
  message_type, header_size, type_size, request_id_size, decode_uint32, decode_uint64,
  make_health_check_response_frame,
}
use cpp_unix_domain_stream.Peer.State.{
  Peer, Signal, received, request_received, response_received, health_check_response_received,
  header_read, body_read, no_read, emit, close, handle_error, ensure_ready,
}
use cpp_unix_domain_stream.Peer.Write.{max_body, max_request_body, push_frame}

unfoldable pub start_read_deadline : Peer → Peer
start_read_deadline p = record p { read_deadline = some p.options.read_timeout }

unfoldable pub refresh_heartbeat_deadline : Peer → Peer
refresh_heartbeat_deadline p = record p { heartbeat_deadline = some p.options.heartbeat_timeout }

unfoldable pub read_header : Peer → Peer
read_header p =
    if not p.is_open then p else record (start_read_deadline p) { read_op = header_read }

-- `vector::resize`
abbrev pub resize : ℕ → List ℕ → List ℕ
resize zero bytes = []
resize (suc n) [] = 0 ∷ resize n []
resize (suc n) (b ∷ bytes) = b ∷ resize n bytes

unfoldable pub read_body : Peer → Peer
read_body p = record (start_read_deadline p) { read_op = body_read }

-- The completion handler of the header's `async_read`; `header` is what the read left in
-- `read_header_`.
unfoldable pub on_read_header : ErrorCode → ℕ → List ℕ → Peer → Peer
on_read_header error_code bytes_transferred header p =
    let q = record p { read_deadline = none; read_op = no_read } in
    if is_error error_code
    then if is_eof error_code && bytes_transferred == 0 then close q else handle_error error_code q
    else if not (bytes_transferred == header_size)
    then handle_error message_size q
    else let body_size = decode_uint32 header in
      if ltb body_size type_size || ltb (max_request_body q.options.max_message_size) body_size
      then handle_error message_size q
      else read_body (record q { read_body = resize body_size q.read_body })

-- The bodies of requests and responses; the first argument makes the signal.
unfoldable pub handle_request_response : (ℕ → List ℕ → Signal) → Peer → Peer
handle_request_response signal p =
    let q = ensure_ready p in
    if ltb (length q.read_body) (type_size + request_id_size)
      || ltb (max_request_body q.options.max_message_size) (length q.read_body)
    then handle_error message_size q
    else read_header (
        emit
          (signal (decode_uint64 q.read_body type_size)
            (drop (type_size + request_id_size) q.read_body))
          q)

-- The `switch` of `read_body` on the type of the body that was read.
unfoldable pub handle_body : Option MessageType → Peer → Peer
handle_body (some heartbeat) p = read_header p
handle_body (some user_data) p =
    let q = ensure_ready p in
    if ltb (max_body q.options.max_message_size) (length q.read_body)
    then handle_error message_size q
    else read_header (emit (received (drop type_size q.read_body)) q)
handle_body (some request) p = handle_request_response request_received p
handle_body (some response) p = handle_request_response response_received p
handle_body (some health_check) p =
    if p.is_ready
    then handle_error operation_not_supported p
    else push_frame make_health_check_response_frame (record p { close_after_write = true })
handle_body (some health_check_response) p = read_header (emit health_check_response_received p)
handle_body none p = handle_error invalid_argument p

-- The completion handler of the body's `async_read`; `body` is what the read left in `read_body_`.
unfoldable pub on_read_body : ErrorCode → ℕ → List ℕ → Peer → Peer
on_read_body error_code bytes_transferred body p =
    let q = record p { read_deadline = none; read_op = no_read; read_body = body } in
    if is_error error_code
    then handle_error error_code q
    else if not (bytes_transferred == length q.read_body)
    then handle_error message_size q
    else handle_body (message_type (get_or q.read_body 0 0)) (refresh_heartbeat_deadline q)
