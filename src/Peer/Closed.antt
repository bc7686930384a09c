-- ===== src/Peer/Closed.antt =====
-- impl/peer.hpp: the handlers that still run after the socket was closed.
use cpp_unix_domain_stream.Prelude.{
  ℕ, ◌≤◌, ◌≡◌, refl, true, false, Option, none, some, List, ◌⊎◌, inr, length, length-tail, get_or,
  arith, ErrorCode, success,
}
use cpp_unix_domain_stream.Options.{normalize_scheduling_interval}
use cpp_unix_domain_stream.Protocol.{
  MessageType, heartbeat, user_data, health_check, health_check_response, request, response,
  message_type,
}
use cpp_unix_domain_stream.Peer.State.{
  Peer, no_read, Signal, close, close_socket, handle_error, ensure_ready,
}
use cpp_unix_domain_stream.Peer.Write.{push_frame, write, on_write}
use cpp_unix_domain_stream.Peer.Read.{
  read_header, read_body, on_read_header, handle_request_response, handle_body, on_read_body,
  refresh_heartbeat_deadline, start_read_deadline,
}
use cpp_unix_domain_stream.Peer.Timers.{
  start, on_heartbeat_timer, on_heartbeat_deadline, on_read_deadline, on_write_deadline,
  on_ready_deadline, start_heartbeat_timer, start_ready_deadline,
}
use cpp_unix_domain_stream.Peer.Events.{
  Event, step, Reach, here, next, header_done, body_done, write_done,
}

-- A closed peer with at most `limit` frames in its queue and no outstanding write but `op`.
pub record Closed (limit : ℕ) (op : Option (List ℕ)) (p : Peer) : Type 0 where
  pub shut : p.is_open ≡ false
  pub shrinking : length p.write_queue ≤ limit
  pub no_new_write : (p.write_op ≡ none) ⊎ (p.write_op ≡ op)

module _ (limit : ℕ) (op : Option (List ℕ)) where
  handle_error-Closed :
      (e : ErrorCode) (p : Peer) → Closed limit op p → Closed limit op (handle_error e p)
  unfolding handle_error close close_socket
  handle_error-Closed e p v = ground arith

  ensure_ready-Closed : (p : Peer) → Closed limit op p → Closed limit op (ensure_ready p)
  unfolding ensure_ready
  ensure_ready-Closed p v = ground arith

  on_write-Closed : (e : ErrorCode) (p : Peer) → Closed limit op p → Closed limit op (on_write e p)
  unfolding on_write write close close_socket
  on_write-Closed e p v = ground (
    arith,
    length-tail p.write_queue,
    handle_error-Closed e (record p { write_deadline = none; write_op = none }),
  )

  on_read_header-Closed :
      (e : ErrorCode) (n : ℕ) (header : List ℕ) (p : Peer)
      → Closed limit op p
      → Closed limit op (on_read_header e n header p)
  unfolding on_read_header read_body start_read_deadline close close_socket handle_error
  on_read_header-Closed e n header p v = ground arith

  handle_request_response-Closed :
      (signal : ℕ → List ℕ → Signal) (p : Peer)
      → Closed limit op p
      → Closed limit op (handle_request_response signal p)
  unfolding handle_request_response read_header handle_error close close_socket
  handle_request_response-Closed signal p v = ground (arith, ensure_ready-Closed p v)

  handle_body-Closed :
      (type : Option MessageType) (p : Peer)
      → Closed limit op p
      → Closed limit op (handle_body type p)
  unfolding handle_body read_header push_frame
  handle_body-Closed (some request) p v = handle_request_response-Closed Signal.request_received p v
  handle_body-Closed (some response) p v =
      handle_request_response-Closed Signal.response_received p v
  handle_body-Closed (some heartbeat) p v = ground arith
  handle_body-Closed (some user_data) p v =
      ground (
        arith,
        ensure_ready-Closed p v,
        handle_error-Closed ErrorCode.message_size (ensure_ready p),
      )
  handle_body-Closed (some health_check) p v =
      ground (arith, handle_error-Closed ErrorCode.operation_not_supported p v)
  handle_body-Closed (some health_check_response) p v = ground arith
  handle_body-Closed none p v = handle_error-Closed ErrorCode.invalid_argument p v

  on_read_body-Closed :
      (e : ErrorCode) (n : ℕ) (body : List ℕ) (p : Peer)
      → Closed limit op p
      → Closed limit op (on_read_body e n body p)
  unfolding on_read_body refresh_heartbeat_deadline
  on_read_body-Closed e n body p v =
      let q = record p { read_deadline = none; read_op = no_read; read_body = body } in
      let w : Closed limit op q = record {
        shut = v.shut;
        shrinking = v.shrinking;
        no_new_write = v.no_new_write;
      } in
      let r = refresh_heartbeat_deadline q in
      let x : Closed limit op r = record {
        shut = v.shut;
        shrinking = v.shrinking;
        no_new_write = v.no_new_write;
      } in
      ground (
        arith,
        handle_error-Closed e q w,
        handle_error-Closed ErrorCode.message_size q w,
        handle_body-Closed (message_type (get_or body 0 0)) r x,
      )

  pub step-Closed : (p : Peer) (e : Event) → Closed limit op p → Closed limit op (step p e)
  unfolding step start start_ready_deadline start_heartbeat_timer refresh_heartbeat_deadline
      read_header close close_socket push_frame on_heartbeat_timer on_heartbeat_deadline
      on_read_deadline on_write_deadline on_ready_deadline handle_error ensure_ready
  step-Closed p (header_done e n header) v = on_read_header-Closed e n header p v
  step-Closed p (body_done e n body) v = on_read_body-Closed e n body p v
  step-Closed p (write_done e) v = on_write-Closed e p v
  step-Closed p _ v = ground arith

  Reach-Closed : {p q : Peer} → Closed limit op p → Reach p q → Closed limit op q
  Reach-Closed v here = v
  Reach-Closed v (next {q = q} r e h) = step-Closed q e (Reach-Closed v r)

-- Whatever happens to a closed peer, it stays closed, its write queue does not grow, and no write is
-- outstanding but the one that was when it was closed.
pub peer-Closed :
    (p q : Peer) → p.is_open ≡ false → Reach p q → Closed (length p.write_queue) p.write_op q
peer-Closed p q h r =
    Reach-Closed (length p.write_queue) p.write_op
      (record { shut = h; shrinking = omega arith; no_new_write = inr refl }) r

-- When the heartbeat timer of an open peer with a full write queue expires, the peer is closed, and its
-- heartbeat timer is waiting again.
pub heartbeat_of_full_queue :
    (p : Peer)
    → p.is_open ≡ true
    → p.options.max_send_queue_size ≤ length p.write_queue
    → let q = on_heartbeat_timer success p in
      (q.is_open ≡ false)
      × (q.heartbeat_timer ≡ some (normalize_scheduling_interval p.options.heartbeat_interval))
unfolding on_heartbeat_timer push_frame handle_error close close_socket start_heartbeat_timer
heartbeat_of_full_queue p h f = ground arith

-- When the read of a heartbeat's body that had completed is handled after the peer was closed, the
-- peer's heartbeat deadline is waiting again, and the peer stays closed.
pub late_heartbeat :
    (p : Peer) (body : List ℕ)
    → p.is_open ≡ false
    → message_type (get_or body 0 0) ≡ some heartbeat
    → let q = on_read_body success (length body) body p in
      (q.is_open ≡ false) × (q.heartbeat_deadline ≡ some p.options.heartbeat_timeout)
unfolding on_read_body refresh_heartbeat_deadline handle_body read_header
late_heartbeat p body h t = ground arith
