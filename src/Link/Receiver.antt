-- ===== src/Link/Receiver.antt =====
-- impl/peer.hpp: the outstanding read of the receiving end and the messages that its signals hand over,
-- over each of its handlers.
use cpp_unix_domain_stream.Prelude.{
  ℕ, ◌+◌, ◌^◌, ◌<◌, ◌≡◌, refl, ap, ◌∙◌, true, ◌⊎◌, none, List, [], ◌∷◌, ◌++◌, length, tail,
  ErrorCode, is_error, success, arith,
}
use mathlib.Core.List.{append-nil}
use cpp_unix_domain_stream.Protocol.{
  encode_uint64, message_type, make_heartbeat_frame, make_health_check_response_frame,
}
use cpp_unix_domain_stream.Peer.State.{
  Peer, Signal, no_read, header_read, ready, closed, error_occurred, received, request_received,
  response_received, health_check_response_received, close, close_socket, handle_error,
  ensure_ready, emit,
}
use cpp_unix_domain_stream.Peer.Write.{push_frame, write, on_write}
use cpp_unix_domain_stream.Peer.Read.{
  read_header, on_read_header, handle_body, on_read_body, start_read_deadline,
}
use cpp_unix_domain_stream.Peer.Timers.{
  on_heartbeat_timer, on_heartbeat_deadline, on_read_deadline, on_write_deadline, on_ready_deadline,
  start_heartbeat_timer,
}
use cpp_unix_domain_stream.Peer.Events.{
  Event, step, starts, closes, pushes, header_done, body_done, write_done, heartbeat_fires,
  deadline_fires, read_fires, write_fires, ready_fires,
}
use cpp_unix_domain_stream.Peer.Messages.{beat, user, asks, answers}
use cpp_unix_domain_stream.Peer.Receive.{after_reads, on_read_body_ok, handle_user, handle_request}
use cpp_unix_domain_stream.Link.Packets.{
  Packet, carries, check, check_answer, body, message, all_handed, handed-append, HasId, FitsIn,
  KeepsReading,
}
use cpp_unix_domain_stream.Link.Steps.{ReceiverEvent}

-- `q` follows `p` with the same outstanding read and without a new message.
abbrev pub Same : Peer → Peer → Type 0
Same p q =
    (q.read_op ≡ p.read_op)
    × (q.read_body ≡ p.read_body)
    × (all_handed q.signals ≡ all_handed p.signals)

emit-handed :
    (s : Signal) (p : Peer)
    → all_handed (s ∷ []) ≡ []
    → all_handed (emit s p).signals ≡ all_handed p.signals
emit-handed s p h =
    handed-append p.signals (s ∷ [])
    ∙ ap (λ ms. all_handed p.signals ++ ms) h
    ∙ append-nil (all_handed p.signals)

close-Same : (p : Peer) → Same p (close p)
unfolding close close_socket
close-Same p = ground (arith, emit-handed closed p refl)

handle_error-Same : (e : ErrorCode) (p : Peer) → Same p (handle_error e p)
unfolding handle_error
handle_error-Same e p =
    ground (arith, close-Same (emit (error_occurred e) p), emit-handed (error_occurred e) p refl)

ensure_ready-Same : (p : Peer) → Same p (ensure_ready p)
unfolding ensure_ready
ensure_ready-Same p = ground (arith, emit-handed ready p refl)

ensure_ready-open : (p : Peer) → (ensure_ready p).is_open ≡ p.is_open
unfolding ensure_ready
ensure_ready-open p = ground arith

push_frame-Same : (bytes : List ℕ) (p : Peer) → Same p (push_frame bytes p)
unfolding push_frame write
push_frame-Same bytes p = ground (arith, handle_error-Same ErrorCode.no_buffer_space p)

on_write-Same : (e : ErrorCode) (p : Peer) → Same p (on_write e p)
unfolding on_write write
on_write-Same e p =
    let q = record p { write_deadline = none; write_op = none } in
    ground
      (arith, handle_error-Same e q, close-Same (record q { write_queue = tail q.write_queue }))

on_heartbeat_timer-Same : (e : ErrorCode) (p : Peer) → Same p (on_heartbeat_timer e p)
unfolding on_heartbeat_timer start_heartbeat_timer
on_heartbeat_timer-Same e p =
    ground (arith, push_frame-Same make_heartbeat_frame (record p { heartbeat_timer = none }))

-- The handlers that do not complete a read leave the outstanding read alone and hand over no message.
pub step-Same : (p : Peer) (e : Event) → ReceiverEvent e → Same p (step p e)
unfolding step on_heartbeat_deadline on_read_deadline on_write_deadline on_ready_deadline
step-Same p starts s = elim s [ ]
step-Same p (header_done e n header) s = elim s [ ]
step-Same p (body_done e n bytes) s = elim s [ ]
step-Same p closes s = close-Same p
step-Same p (pushes bytes) s = push_frame-Same bytes p
step-Same p (write_done e) s = on_write-Same e p
step-Same p (heartbeat_fires e) s = on_heartbeat_timer-Same e p
step-Same p (deadline_fires e) s =
    ground (arith, handle_error-Same ErrorCode.timed_out (record p { heartbeat_deadline = none }))
step-Same p (read_fires e) s =
    ground (arith, handle_error-Same ErrorCode.timed_out (record p { read_deadline = none }))
step-Same p (write_fires e) s =
    ground (arith, handle_error-Same ErrorCode.timed_out (record p { write_deadline = none }))
step-Same p (ready_fires e) s =
    ground (arith, ensure_ready-Same (record p { ready_deadline = none }))

-- A read that fails ends the read loop and hands over no message.
abbrev pub Stopped : Peer → Peer → Type 0
Stopped p q = (q.read_op ≡ no_read) × (all_handed q.signals ≡ all_handed p.signals)

pub on_read_header-Stopped :
    (e : ErrorCode) (n : ℕ) (header : List ℕ) (p : Peer)
    → is_error e ≡ true
    → Stopped p (on_read_header e n header p)
unfolding on_read_header
on_read_header-Stopped e n header p h =
    let q = record p { read_deadline = none; read_op = no_read } in
    ground (arith, close-Same q, handle_error-Same e q)

pub on_read_body-Stopped :
    (e : ErrorCode) (n : ℕ) (bytes : List ℕ) (p : Peer)
    → is_error e ≡ true
    → Stopped p (on_read_body e n bytes p)
unfolding on_read_body
on_read_body-Stopped e n bytes p h =
    let q = record p { read_deadline = none; read_op = no_read; read_body = bytes } in
    ground (arith, handle_error-Same e q)

-- `q` has handed over the message of `m`, and reads the next header or has stopped.
abbrev pub Took : Packet → Peer → Peer → Type 0
Took m p q =
    ((q.read_op ≡ header_read) ⊎ (q.read_op ≡ no_read))
    × (all_handed q.signals ≡ all_handed p.signals ++ message m)
    × (KeepsReading m → p.is_open ≡ true → (q.read_op ≡ header_read) × (q.is_open ≡ true))

read_header-Took :
    (m : Packet) (s : Signal) (p : Peer)
    → p.read_op ≡ no_read
    → all_handed (s ∷ []) ≡ message m
    → Took m p (read_header (emit s (ensure_ready p)))
unfolding read_header start_read_deadline
read_header-Took m s p h k = ground (
  arith,
  ensure_ready-Same p,
  ensure_ready-open p,
  handed-append (ensure_ready p).signals (s ∷ []),
)

-- When the body of a packet that fits has been read, its message is handed over, and nothing else.
pub on_read_body-Took :
    (m : Packet) (p : Peer)
    → p.options.max_message_size + 9 < 2 ^ 32
    → HasId m
    → FitsIn p.options.max_message_size m
    → Took m p (on_read_body success (length (body m)) (body m) p)
unfolding handle_body message_type
on_read_body-Took (carries beat) p h i f =
    rw (on_read_body_ok (0 ∷ []) p, append-nil (all_handed p.signals))
      (unfold read_header start_read_deadline in ground arith)
on_read_body-Took (carries (user bytes)) p h i f =
    rw (on_read_body_ok (1 ∷ bytes) p, handle_user bytes p f h)
      (read_header-Took (carries (user bytes)) (received bytes) (after_reads (1 ∷ bytes) p) refl
        refl)
on_read_body-Took (carries (asks id bytes)) p h i f =
    let b = 4 ∷ (encode_uint64 id ++ bytes) in
    rw (on_read_body_ok b p, handle_request request_received 4 id bytes p f.0 f.1 h)
      (read_header-Took (carries (asks id bytes)) (request_received id bytes) (after_reads b p) refl
        refl)
on_read_body-Took (carries (answers id bytes)) p h i f =
    let b = 5 ∷ (encode_uint64 id ++ bytes) in
    rw (on_read_body_ok b p, handle_request response_received 5 id bytes p f.0 f.1 h)
      (read_header-Took (carries (answers id bytes)) (response_received id bytes) (after_reads b p)
        refl refl)
on_read_body-Took check p h i f =
    let q = after_reads (2 ∷ []) p in
    rw (on_read_body_ok (2 ∷ []) p, append-nil (all_handed p.signals))
      (ground (
        arith,
        handle_error-Same ErrorCode.operation_not_supported q,
        push_frame-Same make_health_check_response_frame (record q { close_after_write = true }),
      ))
on_read_body-Took check_answer p h i f =
    let q = after_reads (3 ∷ []) p in
    rw (on_read_body_ok (3 ∷ []) p, append-nil (all_handed p.signals))
      (unfold read_header start_read_deadline in
        ground (arith, emit-handed health_check_response_received q refl))
