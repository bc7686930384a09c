-- ===== src/Peer/Queue.antt =====
-- impl/peer.hpp: the write queue and the outstanding write.
use cpp_unix_domain_stream.Prelude.{
  ℕ, ◌+◌, ◌≤◌, ◌≡◌, refl, Bool, true, false, ◌⊎◌, Option, none, some, List, [], ◌∷◌, ◌++◌, leb,
  length, length-append, length-tail, All, All-append, head?, tail, is_empty, drop, get_or,
  ErrorCode, is_aborted, is_error, arith, inl, inr, Bool-cases,
}
use cpp_unix_domain_stream.Protocol.{
  MessageType, heartbeat, user_data, health_check, health_check_response, request, response,
  decode_uint64, type_size, request_id_size, make_health_check_response_frame, make_heartbeat_frame,
  message_type,
}
use cpp_unix_domain_stream.Options.{CommonParameters}
use cpp_unix_domain_stream.Peer.State.{
  Peer, Signal, received, request_received, response_received, health_check_response_received,
  error_occurred, emit, close, handle_error, ensure_ready, new_peer, no_read,
}
use cpp_unix_domain_stream.Peer.Write.{push_frame, write, on_write, valid_outgoing_frame}
use cpp_unix_domain_stream.Peer.Read.{
  read_header, read_body, on_read_header, handle_request_response, handle_body, on_read_body,
  refresh_heartbeat_deadline, start_read_deadline,
}
use cpp_unix_domain_stream.Peer.Timers.{
  start, on_heartbeat_timer, on_heartbeat_deadline, on_read_deadline, on_write_deadline,
  on_ready_deadline, start_heartbeat_timer, start_ready_deadline,
}
use cpp_unix_domain_stream.Peer.Events.{
  Event, step, Enabled, Reach, here, next, starts, closes, pushes, header_done, body_done,
  write_done, heartbeat_fires, deadline_fires, read_fires, write_fires, ready_fires,
}

abbrev pub IsValidFrame : ℕ → List ℕ → Type 0
IsValidFrame max frame = valid_outgoing_frame max frame ≡ true

pub record Queue (is_open : Bool) (max limit : ℕ) (queue : List (List ℕ)) (op : Option (List ℕ))
    : Type 0 where
  pub bounded : length queue ≤ limit
  pub frames_valid : All (IsValidFrame max) queue
  pub writing : (op ≡ head? queue) ⊎ ((op ≡ none) × (is_open ≡ false))

abbrev pub QueueInv : Peer → Type 0
QueueInv p =
    Queue p.is_open p.options.max_message_size p.options.max_send_queue_size p.write_queue
      p.write_op

close-QueueInv :
    (p : Peer)
    → ((p.write_op ≡ head? p.write_queue) ⊎ (p.write_op ≡ none))
    → length p.write_queue ≤ p.options.max_send_queue_size
    → All (IsValidFrame p.options.max_message_size) p.write_queue
    → QueueInv (close p)
unfolding close
close-QueueInv p w b f = ground arith

handle_error-QueueInv : (e : ErrorCode) (p : Peer) → QueueInv p → QueueInv (handle_error e p)
unfolding handle_error
handle_error-QueueInv e p v = ground (arith, close-QueueInv (emit (error_occurred e) p))

ensure_ready-QueueInv : (p : Peer) → QueueInv p → QueueInv (ensure_ready p)
unfolding ensure_ready
ensure_ready-QueueInv p v = ground arith

-- The first write of a queue starts when its frame is pushed.
write-QueueInv :
    (p : Peer)
    → length p.write_queue ≤ p.options.max_send_queue_size
    → All (IsValidFrame p.options.max_message_size) p.write_queue
    → p.write_op ≡ none
    → QueueInv (write p)
unfolding write
write-QueueInv p b f w = elim (Bool-cases p.is_open) [
  | inl o ↦
      elim p.write_queue as (λ queue. p.write_queue ≡ queue → QueueInv (write p)) [
        | [] ↦ λ e. ground arith
        | x ∷ xs ↦ λ e. ground arith
      ]
        refl
  | inr o ↦ ground arith
]

append_one-bounded :
    (frame : List ℕ) (queue : List (List ℕ)) (limit : ℕ)
    → leb limit (length queue) ≡ false
    → length (queue ++ (frame ∷ [])) ≤ limit
append_one-bounded frame queue limit h = ground (arith, length-append queue (frame ∷ []))

head?-append :
    (queue : List (List ℕ)) (frame : List ℕ)
    → is_empty queue ≡ false
    → head? (queue ++ (frame ∷ [])) ≡ head? queue
head?-append [] frame h = cc
head?-append (x ∷ xs) frame h = refl

push_frame-QueueInv : (frame : List ℕ) (p : Peer) → QueueInv p → QueueInv (push_frame frame p)
unfolding push_frame
push_frame-QueueInv frame p v =
    let q = record p { write_queue = p.write_queue ++ (frame ∷ []) } in
    ground (
      arith,
      handle_error-QueueInv ErrorCode.no_buffer_space p v,
      append_one-bounded frame p.write_queue p.options.max_send_queue_size,
      λ (h : IsValidFrame p.options.max_message_size frame).
          All-append (IsValidFrame p.options.max_message_size) p.write_queue (frame ∷ [])
            v.frames_valid (h, tt),
      write-QueueInv q,
      head?-append p.write_queue frame,
    )

tail-All :
    (max : ℕ) (queue : List (List ℕ))
    → All (IsValidFrame max) queue
    → All (IsValidFrame max) (tail queue)
tail-All max [] f = tt
tail-All max (x ∷ xs) f = f.1

fail_write-QueueInv :
    (e : ErrorCode) (p : Peer)
    → length p.write_queue ≤ p.options.max_send_queue_size
    → All (IsValidFrame p.options.max_message_size) p.write_queue
    → p.write_op ≡ none
    → (is_aborted e ≡ true → p.is_open ≡ false)
    → QueueInv (handle_error e p)
unfolding handle_error
fail_write-QueueInv e p b f w h = ground (arith, close-QueueInv (emit (error_occurred e) p))

on_write-QueueInv :
    (e : ErrorCode) (p : Peer) → Enabled p (write_done e) → QueueInv p → QueueInv (on_write e p)
unfolding on_write
on_write-QueueInv e p h v =
    let q = record p { write_deadline = none; write_op = none } in
    let r = record q { write_queue = tail q.write_queue } in
    let fewer = length-tail p.write_queue in
    let rest = tail-All p.options.max_message_size p.write_queue v.frames_valid in
    elim (Bool-cases (is_error e)) [
      | inl t ↦ rw t (fail_write-QueueInv e q v.bounded v.frames_valid refl h.1)
      | inr t ↦ rw t (
          ground (
            arith,
            close-QueueInv r (inr refl) (omega arith) rest,
            write-QueueInv r (omega arith) rest refl,
          ))
    ]

read_header-QueueInv : (p : Peer) → QueueInv p → QueueInv (read_header p)
unfolding read_header start_read_deadline
read_header-QueueInv p v = ground arith

on_read_header-QueueInv :
    (e : ErrorCode) (n : ℕ) (header : List ℕ) (p : Peer)
    → QueueInv p
    → QueueInv (on_read_header e n header p)
unfolding on_read_header read_body start_read_deadline
on_read_header-QueueInv e n header p v =
    let q = record p { read_deadline = none; read_op = no_read } in
    ground (
      arith,
      close-QueueInv q,
      handle_error-QueueInv e q v,
      handle_error-QueueInv ErrorCode.message_size q v,
    )

handle_request_response-QueueInv :
    (signal : ℕ → List ℕ → Signal) (p : Peer)
    → QueueInv p
    → QueueInv (handle_request_response signal p)
unfolding handle_request_response
handle_request_response-QueueInv signal p v =
    let q = ensure_ready p in
    let w = ensure_ready-QueueInv p v in
    let s =
      signal (decode_uint64 q.read_body type_size)
        (drop (type_size + request_id_size) q.read_body) in
    ground
      (arith, handle_error-QueueInv ErrorCode.message_size q w, read_header-QueueInv (emit s q) w)

handle_body-QueueInv :
    (type : Option MessageType) (p : Peer) → QueueInv p → QueueInv (handle_body type p)
unfolding handle_body
handle_body-QueueInv (some heartbeat) p v = read_header-QueueInv p v
handle_body-QueueInv (some user_data) p v =
    let q = ensure_ready p in
    let w = ensure_ready-QueueInv p v in
    ground (
      arith,
      handle_error-QueueInv ErrorCode.message_size q w,
      read_header-QueueInv (emit (received (drop type_size q.read_body)) q) w,
    )
handle_body-QueueInv (some request) p v = handle_request_response-QueueInv request_received p v
handle_body-QueueInv (some response) p v = handle_request_response-QueueInv response_received p v
handle_body-QueueInv (some health_check) p v = ground (
  arith,
  handle_error-QueueInv ErrorCode.operation_not_supported p v,
  push_frame-QueueInv make_health_check_response_frame (record p { close_after_write = true }) v,
)
handle_body-QueueInv (some health_check_response) p v =
    read_header-QueueInv (emit health_check_response_received p) v
handle_body-QueueInv none p v = handle_error-QueueInv ErrorCode.invalid_argument p v

on_read_body-QueueInv :
    (e : ErrorCode) (n : ℕ) (body : List ℕ) (p : Peer)
    → QueueInv p
    → QueueInv (on_read_body e n body p)
unfolding on_read_body refresh_heartbeat_deadline
on_read_body-QueueInv e n body p v =
    let q = record p { read_deadline = none; read_op = no_read; read_body = body } in
    ground (
      arith,
      handle_error-QueueInv e q v,
      handle_error-QueueInv ErrorCode.message_size q v,
      handle_body-QueueInv (message_type (get_or body 0 0)) (refresh_heartbeat_deadline q) v,
    )

on_heartbeat_timer-QueueInv :
    (e : ErrorCode) (p : Peer) → QueueInv p → QueueInv (on_heartbeat_timer e p)
unfolding on_heartbeat_timer start_heartbeat_timer
on_heartbeat_timer-QueueInv e p v =
    ground (arith, push_frame-QueueInv make_heartbeat_frame (record p { heartbeat_timer = none }) v)

-- Every event that can happen keeps the write queue well formed.
pub step-QueueInv : (p : Peer) (e : Event) → Enabled p e → QueueInv p → QueueInv (step p e)
unfolding step on_heartbeat_deadline on_read_deadline on_write_deadline on_ready_deadline
step-QueueInv p starts h v =
    unfold start start_ready_deadline start_heartbeat_timer refresh_heartbeat_deadline in
    read_header-QueueInv
      (refresh_heartbeat_deadline (start_heartbeat_timer (start_ready_deadline p))) v
step-QueueInv p closes h v = ground (arith, close-QueueInv p)
step-QueueInv p (pushes frame) h v = push_frame-QueueInv frame p v
step-QueueInv p (header_done e n header) h v = on_read_header-QueueInv e n header p v
step-QueueInv p (body_done e n body) h v = on_read_body-QueueInv e n body p v
step-QueueInv p (write_done e) h v = on_write-QueueInv e p h v
step-QueueInv p (heartbeat_fires e) h v = on_heartbeat_timer-QueueInv e p v
step-QueueInv p (deadline_fires e) h v =
    ground
      (arith, handle_error-QueueInv ErrorCode.timed_out (record p { heartbeat_deadline = none }) v)
step-QueueInv p (read_fires e) h v =
    ground (arith, handle_error-QueueInv ErrorCode.timed_out (record p { read_deadline = none }) v)
step-QueueInv p (write_fires e) h v =
    ground (arith, handle_error-QueueInv ErrorCode.timed_out (record p { write_deadline = none }) v)
step-QueueInv p (ready_fires e) h v =
    ground (arith, ensure_ready-QueueInv (record p { ready_deadline = none }) v)

new_peer-QueueInv : (options : CommonParameters) → QueueInv (new_peer options)
unfolding new_peer
new_peer-QueueInv options = ground arith

Reach-QueueInv : {p q : Peer} → QueueInv p → Reach p q → QueueInv q
Reach-QueueInv v here = v
Reach-QueueInv v (next {q = q} r e h) = step-QueueInv q e h (Reach-QueueInv v r)

-- Whatever happens to a new peer, its write queue never holds more frames than `max_send_queue_size`,
-- holds only frames that `valid_outgoing_frame` accepts, and as long as the socket is open the
-- outstanding write is of its front, and there is none exactly when it is empty.
pub peer_queue : (options : CommonParameters) (q : Peer) → Reach (new_peer options) q → QueueInv q
peer_queue options q r = Reach-QueueInv (new_peer-QueueInv options) r
