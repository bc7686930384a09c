-- ===== src/Peer/Write.antt =====
-- impl/peer.hpp: the write queue. One write is outstanding at a time, of the front of the queue.
use cpp_unix_domain_stream.Prelude.{
  ℕ, ◌+◌, Bool, false, not, ◌&&◌, ◌||◌, Option, none, some, List, [], ◌∷◌, ◌++◌, ltb, leb, ◌==◌,
  if◌then◌else◌, length, get_or, take, head?, tail, is_empty, ErrorCode, no_buffer_space, is_error,
}
use cpp_unix_domain_stream.Protocol.{
  MessageType, heartbeat, user_data, health_check, health_check_response, request, response,
  message_type, header_size, type_size, request_id_size, decode_uint32, u64,
}
use cpp_unix_domain_stream.Peer.State.{Peer, close, handle_error}

-- The limits on a body: `max_message_size + type_size (+ request_id_size)` on size_t.
abbrev pub max_body : ℕ → ℕ
max_body max_message_size = u64 (max_message_size + type_size)

abbrev pub max_request_body : ℕ → ℕ
max_request_body max_message_size = u64 (max_message_size + type_size + request_id_size)

-- The `switch` of `valid_outgoing_frame` on the frame's type.
abbrev pub valid_body_size : Option MessageType → ℕ → ℕ → Bool
valid_body_size (some request) max body_size =
    leb (type_size + request_id_size) body_size && leb body_size (max_request_body max)
valid_body_size (some response) max body_size =
    leb (type_size + request_id_size) body_size && leb body_size (max_request_body max)
valid_body_size (some heartbeat) max body_size = leb body_size (max_body max)
valid_body_size (some user_data) max body_size = leb body_size (max_body max)
valid_body_size (some health_check) max body_size = leb body_size (max_body max)
valid_body_size (some health_check_response) max body_size = leb body_size (max_body max)
valid_body_size none max body_size = false

-- The first argument is `max_message_size`.
unfoldable pub valid_outgoing_frame : ℕ → List ℕ → Bool
valid_outgoing_frame max frame =
    if ltb (length frame) (header_size + type_size)
    then false
    else let body_size = decode_uint32 (take header_size frame) in
      if not (length frame == header_size + body_size) || ltb body_size type_size
      then false
      else valid_body_size (message_type (get_or frame header_size 0)) max body_size

unfoldable pub write : Peer → Peer
write p =
    if not p.is_open || is_empty p.write_queue
    then p
    else record p { write_deadline = some p.options.write_timeout; write_op = head? p.write_queue }

unfoldable pub push_frame : List ℕ → Peer → Peer
push_frame frame p =
    if not p.is_open
    then p
    else if not (valid_outgoing_frame p.options.max_message_size frame)
        || leb p.options.max_send_queue_size (length p.write_queue)
    then handle_error no_buffer_space p
    else let q = record p { write_queue = p.write_queue ++ (frame ∷ []) } in
      if is_empty p.write_queue then write q else q

-- The completion handler of `async_write`.
unfoldable pub on_write : ErrorCode → Peer → Peer
on_write error_code p =
    let q = record p { write_deadline = none; write_op = none } in
    if is_error error_code
    then handle_error error_code q
    else let r = record q { write_queue = tail q.write_queue } in
      if is_empty r.write_queue && r.close_after_write then close r else write r
