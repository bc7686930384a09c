-- ===== src/Peer/Signals.antt =====
-- impl/peer.hpp: the order and number of a peer's signals.
use cpp_unix_domain_stream.Prelude.{
  ℕ, ◌+◌, ◌≡◌, refl, Bool, true, false, not, Option, none, some, List, [], ◌∷◌, ◌++◌, ltb,
  if◌then◌else◌, tail, drop, get_or, count, count-append, ErrorCode, arith,
}
use cpp_unix_domain_stream.Protocol.{
  MessageType, heartbeat, user_data, health_check, health_check_response, request, response,
  decode_uint64, type_size, request_id_size, make_health_check_response_frame, make_heartbeat_frame,
  message_type,
}
use cpp_unix_domain_stream.Options.{CommonParameters}
use cpp_unix_domain_stream.Peer.State.{
  Peer, Signal, received, request_received, response_received, health_check_response_received,
  ready, closed, error_occurred, emit, close, handle_error, ensure_ready, new_peer, no_read,
}
use cpp_unix_domain_stream.Peer.Write.{push_frame, write, on_write}
use cpp_unix_domain_stream.Peer.Read.{
  read_header, read_body, on_read_header, handle_request_response, handle_body, on_read_body,
  refresh_heartbeat_deadline, start_read_deadline,
}
use cpp_unix_domain_stream.Peer.Timers.{
  start, on_heartbeat_timer, on_heartbeat_deadline, on_read_deadline, on_write_deadline,
  on_ready_deadline, start_heartbeat_timer, start_ready_deadline,
}
use cpp_unix_domain_stream.Peer.Events.{
  Event, step, Reach, here, next, starts, closes, pushes, header_done, body_done, write_done,
  heartbeat_fires, deadline_fires, read_fires, write_fires, ready_fires,
}

abbrev pub is_ready_signal : Signal → Bool
is_ready_signal ready = true
is_ready_signal _ = false

abbrev pub is_closed : Signal → Bool
is_closed closed = true
is_closed _ = false

-- A message from the other end's user.
abbrev pub is_message : Signal → Bool
is_message (received _) = true
is_message (request_received _ _) = true
is_message (response_received _ _) = true
is_message _ = false

-- How many messages come before the first `ready`.
abbrev pub early_messages : List Signal → ℕ
early_messages [] = 0
early_messages (ready ∷ rest) = 0
early_messages (s ∷ rest) = (if is_message s then 1 else 0) + early_messages rest

early_messages-append :
    (xs : List Signal) (s : Signal)
    → early_messages (xs ++ (s ∷ [])) ≡ (
        if ltb 0 (count is_ready_signal xs)
        then early_messages xs
        else early_messages xs + (if is_message s then 1 else 0))
early_messages-append [] s = ground arith
early_messages-append (x ∷ xs) s = ground (arith, early_messages-append xs s)

pub record InOrder (is_open closed_on_executor is_ready : Bool) (signals : List Signal)
    : Type 0 where
  pub closed_flag : closed_on_executor ≡ not is_open
  pub closed_once : count is_closed signals ≡ (if is_open then 0 else 1)
  pub ready_once : count is_ready_signal signals ≡ (if is_ready then 1 else 0)
  pub ready_first : early_messages signals ≡ 0

abbrev pub SignalsInOrder : Peer → Type 0
SignalsInOrder p = InOrder p.is_open p.closed_on_executor p.is_ready p.signals

emit-InOrder :
    (s : Signal) (p : Peer)
    → is_closed s ≡ false
    → is_ready_signal s ≡ false
    → (is_message s ≡ true → p.is_ready ≡ true)
    → SignalsInOrder p
    → SignalsInOrder (emit s p)
emit-InOrder s p hc hr hm v = ground (
  arith,
  early_messages-append p.signals s,
  count-append is_closed p.signals (s ∷ []),
  count-append is_ready_signal p.signals (s ∷ []),
)

pub close-InOrder : (p : Peer) → SignalsInOrder p → SignalsInOrder (close p)
unfolding close
close-InOrder p v = ground (
  arith,
  early_messages-append p.signals closed,
  count-append is_closed p.signals (closed ∷ []),
  count-append is_ready_signal p.signals (closed ∷ []),
)

handle_error-InOrder :
    (e : ErrorCode) (p : Peer) → SignalsInOrder p → SignalsInOrder (handle_error e p)
unfolding handle_error
handle_error-InOrder e p v =
    ground (arith, close-InOrder (emit (error_occurred e) p), emit-InOrder (error_occurred e) p)

ensure_ready-InOrder : (p : Peer) → SignalsInOrder p → SignalsInOrder (ensure_ready p)
unfolding ensure_ready
ensure_ready-InOrder p v = ground (
  arith,
  early_messages-append p.signals ready,
  count-append is_closed p.signals (ready ∷ []),
  count-append is_ready_signal p.signals (ready ∷ []),
)

is_ready-ensure_ready : (p : Peer) → (ensure_ready p).is_ready ≡ true
unfolding ensure_ready
is_ready-ensure_ready p = ground arith

write-InOrder : (p : Peer) → SignalsInOrder p → SignalsInOrder (write p)
unfolding write
write-InOrder p v = ground arith

push_frame-InOrder :
    (frame : List ℕ) (p : Peer) → SignalsInOrder p → SignalsInOrder (push_frame frame p)
unfolding push_frame
push_frame-InOrder frame p v = ground (
  arith,
  handle_error-InOrder ErrorCode.no_buffer_space p v,
  write-InOrder (record p { write_queue = p.write_queue ++ (frame ∷ []) }) v,
)

on_write-InOrder : (e : ErrorCode) (p : Peer) → SignalsInOrder p → SignalsInOrder (on_write e p)
unfolding on_write
on_write-InOrder e p v =
    let q = record p { write_deadline = none; write_op = none } in
    let r = record q { write_queue = tail q.write_queue } in
    ground (arith, handle_error-InOrder e q v, close-InOrder r v, write-InOrder r v)

read_header-InOrder : (p : Peer) → SignalsInOrder p → SignalsInOrder (read_header p)
unfolding read_header start_read_deadline
read_header-InOrder p v = ground arith

on_read_header-InOrder :
    (e : ErrorCode) (n : ℕ) (header : List ℕ) (p : Peer)
    → SignalsInOrder p
    → SignalsInOrder (on_read_header e n header p)
unfolding on_read_header read_body start_read_deadline
on_read_header-InOrder e n header p v =
    let q = record p { read_deadline = none; read_op = no_read } in
    ground (
      arith,
      close-InOrder q v,
      handle_error-InOrder e q v,
      handle_error-InOrder ErrorCode.message_size q v,
    )

handle_request_response-InOrder :
    (signal : ℕ → List ℕ → Signal) (p : Peer)
    → ((id : ℕ) (bytes : List ℕ)
        → (is_closed (signal id bytes) ≡ false) × (is_ready_signal (signal id bytes) ≡ false))
    → SignalsInOrder p
    → SignalsInOrder (handle_request_response signal p)
unfolding handle_request_response
handle_request_response-InOrder signal p h v =
    let q = ensure_ready p in
    let w = ensure_ready-InOrder p v in
    let id = decode_uint64 q.read_body type_size in
    let bytes = drop (type_size + request_id_size) q.read_body in
    ground (
      arith,
      handle_error-InOrder ErrorCode.message_size q w,
      read_header-InOrder (emit (signal id bytes) q) (
          emit-InOrder (signal id bytes) q (h id bytes).0 (h id bytes).1
            (λ _. is_ready-ensure_ready p) w),
    )

handle_body-InOrder :
    (type : Option MessageType) (p : Peer) → SignalsInOrder p → SignalsInOrder (handle_body type p)
unfolding handle_body
handle_body-InOrder (some heartbeat) p v = read_header-InOrder p v
handle_body-InOrder (some user_data) p v =
    let q = ensure_ready p in
    let w = ensure_ready-InOrder p v in
    let bytes = drop type_size q.read_body in
    ground (
      arith,
      handle_error-InOrder ErrorCode.message_size q w,
      read_header-InOrder (emit (received bytes) q)
          (emit-InOrder (received bytes) q refl refl (λ _. is_ready-ensure_ready p) w),
    )
handle_body-InOrder (some request) p v =
    handle_request_response-InOrder request_received p (λ _ _. (refl, refl)) v
handle_body-InOrder (some response) p v =
    handle_request_response-InOrder response_received p (λ _ _. (refl, refl)) v
handle_body-InOrder (some health_check) p v = ground (
  arith,
  handle_error-InOrder ErrorCode.operation_not_supported p v,
  push_frame-InOrder make_health_check_response_frame (record p { close_after_write = true }) v,
)
handle_body-InOrder (some health_check_response) p v =
    read_header-InOrder (emit health_check_response_received p)
      (emit-InOrder health_check_response_received p refl refl (λ h. cc) v)
handle_body-InOrder none p v = handle_error-InOrder ErrorCode.invalid_argument p v

on_read_body-InOrder :
    (e : ErrorCode) (n : ℕ) (body : List ℕ) (p : Peer)
    → SignalsInOrder p
    → SignalsInOrder (on_read_body e n body p)
unfolding on_read_body refresh_heartbeat_deadline
on_read_body-InOrder e n body p v =
    let q = record p { read_deadline = none; read_op = no_read; read_body = body } in
    ground (
      arith,
      handle_error-InOrder e q v,
      handle_error-InOrder ErrorCode.message_size q v,
      handle_body-InOrder (message_type (get_or body 0 0)) (refresh_heartbeat_deadline q) v,
    )

on_heartbeat_timer-InOrder :
    (e : ErrorCode) (p : Peer) → SignalsInOrder p → SignalsInOrder (on_heartbeat_timer e p)
unfolding on_heartbeat_timer start_heartbeat_timer
on_heartbeat_timer-InOrder e p v =
    ground (arith, push_frame-InOrder make_heartbeat_frame (record p { heartbeat_timer = none }) v)

-- Every event keeps the signals in order.
pub step-InOrder : (p : Peer) (e : Event) → SignalsInOrder p → SignalsInOrder (step p e)
unfolding step on_heartbeat_deadline on_read_deadline on_write_deadline on_ready_deadline
step-InOrder p starts v =
    unfold start start_ready_deadline start_heartbeat_timer refresh_heartbeat_deadline in
    read_header-InOrder
      (refresh_heartbeat_deadline (start_heartbeat_timer (start_ready_deadline p))) v
step-InOrder p closes v = close-InOrder p v
step-InOrder p (pushes frame) v = push_frame-InOrder frame p v
step-InOrder p (header_done e n header) v = on_read_header-InOrder e n header p v
step-InOrder p (body_done e n body) v = on_read_body-InOrder e n body p v
step-InOrder p (write_done e) v = on_write-InOrder e p v
step-InOrder p (heartbeat_fires e) v = on_heartbeat_timer-InOrder e p v
step-InOrder p (deadline_fires e) v =
    ground
      (arith, handle_error-InOrder ErrorCode.timed_out (record p { heartbeat_deadline = none }) v)
step-InOrder p (read_fires e) v =
    ground (arith, handle_error-InOrder ErrorCode.timed_out (record p { read_deadline = none }) v)
step-InOrder p (write_fires e) v =
    ground (arith, handle_error-InOrder ErrorCode.timed_out (record p { write_deadline = none }) v)
step-InOrder p (ready_fires e) v =
    ground (arith, ensure_ready-InOrder (record p { ready_deadline = none }) v)

pub new_peer-InOrder : (options : CommonParameters) → SignalsInOrder (new_peer options)
unfolding new_peer
new_peer-InOrder options = ground arith

pub Reach-InOrder : {p q : Peer} → SignalsInOrder p → Reach p q → SignalsInOrder q
Reach-InOrder v here = v
Reach-InOrder v (next {q = q} r e h) = step-InOrder q e (Reach-InOrder v r)

-- Whatever happens to a new peer, it has emitted `closed` once if its socket is closed and never
-- otherwise, `ready` once if it is ready and never otherwise, and no message before `ready`.
pub peer_signals :
    (options : CommonParameters) (q : Peer) → Reach (new_peer options) q → SignalsInOrder q
peer_signals options q r = Reach-InOrder (new_peer-InOrder options) r
