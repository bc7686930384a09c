-- ===== src/Link/Sender.antt =====
-- impl/peer.hpp: the write queue of the sending end as bytes, over each of its handlers.
use cpp_unix_domain_stream.Prelude.{
  ℕ, ◌≡◌, refl, ap, sym, ◌∙◌, true, false, not, ◌&&◌, Option, none, some, List, [], ◌∷◌, ◌++◌,
  if◌then◌else◌, get_or, concat, ErrorCode, arith,
}
use mathlib.Core.List.{append-nil, append_assoc}
use cpp_unix_domain_stream.Protocol.{
  MessageType, heartbeat, user_data, health_check, health_check_response, request, response,
  message_type,
}
use cpp_unix_domain_stream.Peer.State.{
  Peer, Signal, no_read, close, close_socket, handle_error, ensure_ready, emit,
}
use cpp_unix_domain_stream.Peer.Write.{push_frame, write}
use cpp_unix_domain_stream.Peer.Read.{
  read_header, read_body, on_read_header, handle_request_response, handle_body, on_read_body,
  refresh_heartbeat_deadline, start_read_deadline,
}
use cpp_unix_domain_stream.Peer.Timers.{
  start, on_heartbeat_timer, on_heartbeat_deadline, on_read_deadline, on_write_deadline,
  on_ready_deadline, start_heartbeat_timer, start_ready_deadline,
}
use cpp_unix_domain_stream.Peer.Events.{
  Event, step, starts, closes, pushes, write_done, header_done, body_done, heartbeat_fires,
  deadline_fires, read_fires, write_fires, ready_fires,
}
use cpp_unix_domain_stream.Peer.Messages.{beat}
use cpp_unix_domain_stream.Link.Packets.{Packet, carries, check_answer, frame, stream}
use cpp_unix_domain_stream.Link.Steps.{accepted, pushed, is_health_check, SenderEvent}

concat-snoc :
    (xss : List (List ℕ)) (xs : List ℕ) → concat (xss ++ (xs ∷ [])) ≡ concat xss ++ (xs ++ [])
concat-snoc [] xs = refl
concat-snoc (x ∷ xss) xs =
    ap (λ r. x ++ r) (concat-snoc xss xs) ∙ sym (append_assoc x (concat xss) (xs ++ []))

handle_error-queue : (e : ErrorCode) (p : Peer) → (handle_error e p).write_queue ≡ p.write_queue
unfolding handle_error close close_socket
handle_error-queue e p = ground arith

ensure_ready-queue : (p : Peer) → (ensure_ready p).write_queue ≡ p.write_queue
unfolding ensure_ready
ensure_ready-queue p = ground arith

write-queue : (p : Peer) → (write p).write_queue ≡ p.write_queue
unfolding write
write-queue p = ground arith

read_header-queue : (p : Peer) → (read_header p).write_queue ≡ p.write_queue
unfolding read_header start_read_deadline
read_header-queue p = ground arith

-- A push appends the frame that it accepts, and nothing else.
pub push_frame-concat :
    (m : Packet) (p : Peer)
    → concat (push_frame (frame m) p).write_queue ≡ concat p.write_queue ++ stream (accepted p m)
unfolding push_frame
push_frame-concat m p =
    let q = record p { write_queue = p.write_queue ++ (frame m ∷ []) } in
    ground (
      arith,
      handle_error-queue ErrorCode.no_buffer_space p,
      write-queue q,
      concat-snoc p.write_queue (frame m),
      append-nil (concat p.write_queue),
    )

handle_request_response-queue :
    (signal : ℕ → List ℕ → Signal) (p : Peer)
    → (handle_request_response signal p).write_queue ≡ p.write_queue
unfolding handle_request_response read_header start_read_deadline
handle_request_response-queue signal p =
    ground (arith, ensure_ready-queue p, handle_error-queue ErrorCode.message_size (ensure_ready p))

-- The answer to a health check is the only frame that reading a body pushes.
handle_body-concat :
    (type : Option MessageType) (p : Peer)
    → concat (handle_body type p).write_queue
      ≡ concat p.write_queue
        ++ stream (if is_health_check type && not p.is_ready then accepted p check_answer else [])
unfolding handle_body
handle_body-concat (some heartbeat) p =
    ap concat (read_header-queue p) ∙ sym (append-nil (concat p.write_queue))
handle_body-concat (some user_data) p =
    unfold read_header start_read_deadline in
    ground (
      arith,
      ensure_ready-queue p,
      handle_error-queue ErrorCode.message_size (ensure_ready p),
      append-nil (concat p.write_queue),
    )
handle_body-concat (some request) p =
    ap concat (handle_request_response-queue Signal.request_received p)
    ∙ sym (append-nil (concat p.write_queue))
handle_body-concat (some response) p =
    ap concat (handle_request_response-queue Signal.response_received p)
    ∙ sym (append-nil (concat p.write_queue))
handle_body-concat (some health_check) p = ground (
  arith,
  handle_error-queue ErrorCode.operation_not_supported p,
  push_frame-concat check_answer (record p { close_after_write = true }),
  append-nil (concat p.write_queue),
)
handle_body-concat (some health_check_response) p =
    ap concat (read_header-queue (emit Signal.health_check_response_received p))
    ∙ sym (append-nil (concat p.write_queue))
handle_body-concat none p =
    ap concat (handle_error-queue ErrorCode.invalid_argument p)
    ∙ sym (append-nil (concat p.write_queue))

on_read_body-concat :
    (e : ErrorCode) (n : ℕ) (bytes : List ℕ) (p : Peer)
    → concat (on_read_body e n bytes p).write_queue
      ≡ concat p.write_queue ++ stream (pushed p (body_done e n bytes))
unfolding on_read_body refresh_heartbeat_deadline
on_read_body-concat e n bytes p =
    let q = record p { read_deadline = none; read_op = no_read; read_body = bytes } in
    ground (
      arith,
      handle_error-queue e q,
      handle_error-queue ErrorCode.message_size q,
      handle_body-concat (message_type (get_or bytes 0 0)) (refresh_heartbeat_deadline q),
      append-nil (concat p.write_queue),
    )

on_read_header-queue :
    (e : ErrorCode) (n : ℕ) (header : List ℕ) (p : Peer)
    → (on_read_header e n header p).write_queue ≡ p.write_queue
unfolding on_read_header read_body start_read_deadline close close_socket handle_error
on_read_header-queue e n header p = ground arith

on_heartbeat_timer-concat :
    (e : ErrorCode) (p : Peer)
    → concat (on_heartbeat_timer e p).write_queue
      ≡ concat p.write_queue ++ stream (pushed p (heartbeat_fires e))
unfolding on_heartbeat_timer start_heartbeat_timer
on_heartbeat_timer-concat e p = ground (
  arith,
  push_frame-concat (carries beat) (record p { heartbeat_timer = none }),
  append-nil (concat p.write_queue),
)

-- Every handler of the sending end appends the packets that it pushes to the write queue, and takes
-- nothing out.
pub step-concat :
    (p : Peer) (e : Event)
    → SenderEvent e
    → concat (step p e).write_queue ≡ concat p.write_queue ++ stream (pushed p e)
unfolding step on_heartbeat_deadline on_read_deadline on_write_deadline on_ready_deadline close
    close_socket handle_error ensure_ready start start_ready_deadline start_heartbeat_timer
    refresh_heartbeat_deadline read_header start_read_deadline
step-concat p (pushes bytes) s = elim s [ ]
step-concat p (write_done e) s = elim s [ ]
step-concat p (body_done e n bytes) s = on_read_body-concat e n bytes p
step-concat p (heartbeat_fires e) s = on_heartbeat_timer-concat e p
step-concat p (header_done e n header) s =
    ap concat (on_read_header-queue e n header p) ∙ sym (append-nil (concat p.write_queue))
step-concat p starts s = ground (arith, append-nil (concat p.write_queue))
step-concat p closes s = ground (arith, append-nil (concat p.write_queue))
step-concat p (deadline_fires e) s = ground (arith, append-nil (concat p.write_queue))
step-concat p (read_fires e) s = ground (arith, append-nil (concat p.write_queue))
step-concat p (write_fires e) s = ground (arith, append-nil (concat p.write_queue))
step-concat p (ready_fires e) s = ground (arith, append-nil (concat p.write_queue))

-- A closed peer accepts nothing.
pub closed-pushed : (p : Peer) (e : Event) → p.is_open ≡ false → pushed p e ≡ []
closed-pushed p (heartbeat_fires e) h = ground arith
closed-pushed p (body_done e n bytes) h = ground arith
closed-pushed p _ h = refl
