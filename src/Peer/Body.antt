-- ===== src/Peer/Body.antt =====
-- impl/peer.hpp: the buffer of the body that is being read.
use cpp_unix_domain_stream.Prelude.{
  ℕ, zero, suc, ◌+◌, ◌≤◌, ◌≡◌, refl, ap, true, Option, none, some, List, [], ◌∷◌, ◌++◌, length,
  tail, drop, get_or, ErrorCode, arith,
}
use cpp_unix_domain_stream.Protocol.{
  MessageType, heartbeat, user_data, health_check, health_check_response, request, response,
  decode_uint64, type_size, request_id_size, make_health_check_response_frame, make_heartbeat_frame,
  message_type, decode_uint32,
}
use cpp_unix_domain_stream.Options.{CommonParameters}
use cpp_unix_domain_stream.Peer.State.{
  Peer, Signal, received, request_received, response_received, health_check_response_received,
  error_occurred, emit, close, handle_error, ensure_ready, new_peer, no_read, ReadOp, body_read,
}
use cpp_unix_domain_stream.Peer.Write.{push_frame, write, on_write, max_request_body}
use cpp_unix_domain_stream.Peer.Read.{
  read_header, read_body, on_read_header, handle_request_response, handle_body, on_read_body,
  refresh_heartbeat_deadline, start_read_deadline, resize,
}
use cpp_unix_domain_stream.Peer.Timers.{
  start, on_heartbeat_timer, on_heartbeat_deadline, on_read_deadline, on_write_deadline,
  on_ready_deadline, start_heartbeat_timer, start_ready_deadline,
}
use cpp_unix_domain_stream.Peer.Events.{
  Event, step, Reach, here, next, starts, closes, pushes, header_done, body_done, write_done,
  heartbeat_fires, deadline_fires, read_fires, write_fires, ready_fires,
}

pub record Body (options : CommonParameters) (own : CommonParameters) (op : ReadOp)
    (buffer : List ℕ) : Type 0 where
  pub same_options : own ≡ options
  pub sized :
      op ≡ body_read
      → (type_size ≤ length buffer) × (length buffer ≤ max_request_body options.max_message_size)

abbrev pub BodyInv : CommonParameters → Peer → Type 0
BodyInv options p = Body options p.options p.read_op p.read_body

length-resize : (n : ℕ) (bytes : List ℕ) → length (resize n bytes) ≡ n
length-resize zero bytes = refl
length-resize (suc n) [] = ap suc (length-resize n [])
length-resize (suc n) (b ∷ bytes) = ap suc (length-resize n bytes)

module _ (options : CommonParameters) where
  close-BodyInv : (p : Peer) → BodyInv options p → BodyInv options (close p)
  unfolding close
  close-BodyInv p v = ground arith

  handle_error-BodyInv :
      (e : ErrorCode) (p : Peer) → BodyInv options p → BodyInv options (handle_error e p)
  unfolding handle_error
  handle_error-BodyInv e p v = ground (arith, close-BodyInv (emit (error_occurred e) p) v)

  ensure_ready-BodyInv : (p : Peer) → BodyInv options p → BodyInv options (ensure_ready p)
  unfolding ensure_ready
  ensure_ready-BodyInv p v = ground arith

  write-BodyInv : (p : Peer) → BodyInv options p → BodyInv options (write p)
  unfolding write
  write-BodyInv p v = ground arith

  push_frame-BodyInv :
      (frame : List ℕ) (p : Peer) → BodyInv options p → BodyInv options (push_frame frame p)
  unfolding push_frame
  push_frame-BodyInv frame p v = ground (
    arith,
    handle_error-BodyInv ErrorCode.no_buffer_space p v,
    write-BodyInv (record p { write_queue = p.write_queue ++ (frame ∷ []) }) v,
  )

  on_write-BodyInv : (e : ErrorCode) (p : Peer) → BodyInv options p → BodyInv options (on_write e p)
  unfolding on_write
  on_write-BodyInv e p v =
      let q = record p { write_deadline = none; write_op = none } in
      let r = record q { write_queue = tail q.write_queue } in
      ground (arith, handle_error-BodyInv e q v, close-BodyInv r v, write-BodyInv r v)

  read_header-BodyInv : (p : Peer) → BodyInv options p → BodyInv options (read_header p)
  unfolding read_header start_read_deadline
  read_header-BodyInv p v = ground arith

  on_read_header-BodyInv :
      (e : ErrorCode) (n : ℕ) (header : List ℕ) (p : Peer)
      → BodyInv options p
      → BodyInv options (on_read_header e n header p)
  unfolding on_read_header read_body start_read_deadline
  on_read_header-BodyInv e n header p v =
      let q = record p { read_deadline = none; read_op = no_read } in
      let w : BodyInv options q = record { same_options = v.same_options; sized = λ h. cc } in
      ground (
        arith,
        close-BodyInv q w,
        handle_error-BodyInv e q w,
        handle_error-BodyInv ErrorCode.message_size q w,
        length-resize (decode_uint32 header) p.read_body,
      )

  handle_request_response-BodyInv :
      (signal : ℕ → List ℕ → Signal) (p : Peer)
      → BodyInv options p
      → BodyInv options (handle_request_response signal p)
  unfolding handle_request_response
  handle_request_response-BodyInv signal p v =
      let q = ensure_ready p in
      let w = ensure_ready-BodyInv p v in
      let s =
        signal (decode_uint64 q.read_body type_size)
          (drop (type_size + request_id_size) q.read_body) in
      ground
        (arith, handle_error-BodyInv ErrorCode.message_size q w, read_header-BodyInv (emit s q) w)

  handle_body-BodyInv :
      (type : Option MessageType) (p : Peer)
      → BodyInv options p
      → BodyInv options (handle_body type p)
  unfolding handle_body
  handle_body-BodyInv (some heartbeat) p v = read_header-BodyInv p v
  handle_body-BodyInv (some user_data) p v =
      let q = ensure_ready p in
      let w = ensure_ready-BodyInv p v in
      ground (
        arith,
        handle_error-BodyInv ErrorCode.message_size q w,
        read_header-BodyInv (emit (received (drop type_size q.read_body)) q) w,
      )
  handle_body-BodyInv (some request) p v = handle_request_response-BodyInv request_received p v
  handle_body-BodyInv (some response) p v = handle_request_response-BodyInv response_received p v
  handle_body-BodyInv (some health_check) p v = ground (
    arith,
    handle_error-BodyInv ErrorCode.operation_not_supported p v,
    push_frame-BodyInv make_health_check_response_frame (record p { close_after_write = true }) v,
  )
  handle_body-BodyInv (some health_check_response) p v =
      read_header-BodyInv (emit health_check_response_received p) v
  handle_body-BodyInv none p v = handle_error-BodyInv ErrorCode.invalid_argument p v

  on_read_body-BodyInv :
      (e : ErrorCode) (n : ℕ) (body : List ℕ) (p : Peer)
      → BodyInv options p
      → BodyInv options (on_read_body e n body p)
  unfolding on_read_body refresh_heartbeat_deadline
  on_read_body-BodyInv e n body p v =
      let q = record p { read_deadline = none; read_op = no_read; read_body = body } in
      let w : BodyInv options q = record { same_options = v.same_options; sized = λ h. cc } in
      ground (
        arith,
        handle_error-BodyInv e q w,
        handle_error-BodyInv ErrorCode.message_size q w,
        handle_body-BodyInv (message_type (get_or body 0 0)) (refresh_heartbeat_deadline q) w,
      )

  on_heartbeat_timer-BodyInv :
      (e : ErrorCode) (p : Peer) → BodyInv options p → BodyInv options (on_heartbeat_timer e p)
  unfolding on_heartbeat_timer start_heartbeat_timer
  on_heartbeat_timer-BodyInv e p v =
      ground
        (arith, push_frame-BodyInv make_heartbeat_frame (record p { heartbeat_timer = none }) v)

  -- Every event keeps the read buffer within its limits.
  pub step-BodyInv : (p : Peer) (e : Event) → BodyInv options p → BodyInv options (step p e)
  unfolding step on_heartbeat_deadline on_read_deadline on_write_deadline on_ready_deadline
  step-BodyInv p starts v =
      unfold start start_ready_deadline start_heartbeat_timer refresh_heartbeat_deadline in
      read_header-BodyInv
        (refresh_heartbeat_deadline (start_heartbeat_timer (start_ready_deadline p))) v
  step-BodyInv p closes v = close-BodyInv p v
  step-BodyInv p (pushes frame) v = push_frame-BodyInv frame p v
  step-BodyInv p (header_done e n header) v = on_read_header-BodyInv e n header p v
  step-BodyInv p (body_done e n body) v = on_read_body-BodyInv e n body p v
  step-BodyInv p (write_done e) v = on_write-BodyInv e p v
  step-BodyInv p (heartbeat_fires e) v = on_heartbeat_timer-BodyInv e p v
  step-BodyInv p (deadline_fires e) v =
      ground
        (arith, handle_error-BodyInv ErrorCode.timed_out (record p { heartbeat_deadline = none }) v)
  step-BodyInv p (read_fires e) v =
      ground (arith, handle_error-BodyInv ErrorCode.timed_out (record p { read_deadline = none }) v)
  step-BodyInv p (write_fires e) v =
      ground
        (arith, handle_error-BodyInv ErrorCode.timed_out (record p { write_deadline = none }) v)
  step-BodyInv p (ready_fires e) v =
      ground (arith, ensure_ready-BodyInv (record p { ready_deadline = none }) v)

  Reach-BodyInv : {p q : Peer} → BodyInv options p → Reach p q → BodyInv options q
  Reach-BodyInv v here = v
  Reach-BodyInv v (next {q = q} r e h) = step-BodyInv q e (Reach-BodyInv v r)

new_peer-BodyInv : (options : CommonParameters) → BodyInv options (new_peer options)
unfolding new_peer
new_peer-BodyInv options = record { same_options = refl; sized = λ h. cc }

-- Whatever happens to a new peer, its options stay, and while a body is being read its buffer holds
-- at least the type byte and at most `max_message_size + type_size + request_id_size` bytes, a sum on
-- size_t, whatever size the other end announced.
pub peer_body :
    (options : CommonParameters) (q : Peer) → Reach (new_peer options) q → BodyInv options q
peer_body options q r = Reach-BodyInv options (new_peer-BodyInv options) r
