-- ===== src/Tests/Peer.antt =====
-- impl/peer.hpp on concrete messages and histories.
use cpp_unix_domain_stream.Prelude.{
  if◌then◌else◌, ltb, count, ◌≡◌, refl, ◌++◌, false, some, length, List, [], ◌∷◌, leb, success,
  arith,
}
use cpp_unix_domain_stream.Options.{normalize_scheduling_interval, default_common_parameters}
use cpp_unix_domain_stream.Protocol.{
  make_health_check_frame, make_health_check_response_frame, encode_uint32, decode_uint32,
  make_user_data_frame, make_frame, message_type,
}
use cpp_unix_domain_stream.Peer.State.{
  closed, health_check_response_received, Peer, new_peer, close, close_socket, header_read, ready,
  received, request_received,
}
use cpp_unix_domain_stream.Peer.Write.{on_write, valid_outgoing_frame, push_frame, write}
use cpp_unix_domain_stream.Peer.Read.{
  on_read_body, read_header, start_read_deadline, refresh_heartbeat_deadline,
}
use cpp_unix_domain_stream.Peer.Timers.{
  on_heartbeat_timer, start, start_ready_deadline, start_heartbeat_timer,
}
use cpp_unix_domain_stream.Peer.Events.{
  heartbeat_fires, step, Reach, here, next, starts, closes, pushes, header_done,
}
use cpp_unix_domain_stream.Peer.Messages.{Message, beat, user, asks, frame}
use cpp_unix_domain_stream.Peer.Receive.{IsReading, receive, announce}
use cpp_unix_domain_stream.Peer.Stream.{stream, turns, reads, turns_lem}
use cpp_unix_domain_stream.Peer.Check.{answer_health_check, receive_health_check_response}
use cpp_unix_domain_stream.Peer.Send.{payload_size, frame_valid}
use cpp_unix_domain_stream.Peer.Signals.{SignalsInOrder, peer_signals}
use cpp_unix_domain_stream.Peer.State.{destroy_peer, aborts, detaches}
use cpp_unix_domain_stream.Peer.Signals.{is_closed, is_ready_signal, is_message}
use cpp_unix_domain_stream.Peer.Unannounced.{later, at_once}
use cpp_unix_domain_stream.Peer.Destruction.{peer_destruction}
use cpp_unix_domain_stream.Peer.Queue.{QueueInv, peer_queue}
use cpp_unix_domain_stream.Peer.Closed.{
  Closed, peer-Closed, heartbeat_of_full_queue, late_heartbeat,
}
use cpp_unix_domain_stream.Peer.Body.{BodyInv, peer_body}

-- A new peer that waits for its first header.
abbrev listening : Peer
listening = record (new_peer default_common_parameters) { read_op = header_read }

abbrev three_messages : List Message
three_messages = beat ∷ user (7 ∷ 8 ∷ []) ∷ asks 3 (9 ∷ []) ∷ []

turns_lem_example :
    let (left, q) =
      turns (reads three_messages) (stream three_messages ++ (0 ∷ 0 ∷ [])) listening in
    (left ≡ 0 ∷ 0 ∷ [])
    × IsReading q
    × (q.signals ≡ listening.signals ++ announce listening.is_ready three_messages)
turns_lem_example =
    turns_lem three_messages (0 ∷ 0 ∷ []) listening
      (unfold new_peer in record { open_socket = refl; waits_header = refl; small = omega arith })
      (unfold new_peer in (tt, (omega arith, ((omega arith, omega arith), tt))))

three_signals :
    announce false three_messages ≡ ready ∷ received (7 ∷ 8 ∷ []) ∷ request_received 3 (9 ∷ []) ∷ []
three_signals = refl

frame_valid_example :
    valid_outgoing_frame 4 (frame (asks 3 (9 ∷ []))) ≡ leb (payload_size (asks 3 (9 ∷ []))) 4
frame_valid_example = frame_valid 4 (asks 3 (9 ∷ [])) (omega arith)

-- A peer that starts, sends a byte, and reads a header that announces two bytes.
abbrev started : Peer
started = step (new_peer default_common_parameters) starts

abbrev sending : Peer
sending = step started (pushes (make_user_data_frame (7 ∷ [])))

abbrev reading : Peer
reading = step sending (header_done success 4 (0 ∷ 0 ∷ 0 ∷ 2 ∷ []))

reading-Reach : Reach (new_peer default_common_parameters) reading
unfolding step new_peer start start_ready_deadline start_heartbeat_timer refresh_heartbeat_deadline
    read_header start_read_deadline push_frame valid_outgoing_frame decode_uint32 encode_uint32
    make_user_data_frame make_frame message_type write
reading-Reach =
    next (next (next here starts tt) (pushes (make_user_data_frame (7 ∷ []))) tt)
      (header_done success 4 (0 ∷ 0 ∷ 0 ∷ 2 ∷ [])) (refl, refl, λ h. cc)

peer_signals_example : SignalsInOrder reading
peer_signals_example = peer_signals default_common_parameters reading reading-Reach

peer_queue_example : QueueInv reading
peer_queue_example = peer_queue default_common_parameters reading reading-Reach

peer_body_example : BodyInv default_common_parameters reading
peer_body_example = peer_body default_common_parameters reading reading-Reach

-- A peer that was closed while its first header was being read.
abbrev closed_peer : Peer
closed_peer = step started closes

closed_peer-Reach : Reach closed_peer (step closed_peer (pushes (make_user_data_frame (7 ∷ []))))
closed_peer-Reach = next here (pushes (make_user_data_frame (7 ∷ []))) tt

peer-Closed_example :
    Closed
      (length closed_peer.write_queue)
      closed_peer.write_op
      (step closed_peer (pushes (make_user_data_frame (7 ∷ []))))
peer-Closed_example =
    peer-Closed closed_peer (step closed_peer (pushes (make_user_data_frame (7 ∷ []))))
      (unfold step close close_socket in ground arith) closed_peer-Reach

-- A peer whose queue may hold no frame.
abbrev full : Peer
full = new_peer (record default_common_parameters { max_send_queue_size = 0 })

heartbeat_of_full_queue_example :
    let q = on_heartbeat_timer success full in
    (q.is_open ≡ false)
    × (q.heartbeat_timer ≡ some (normalize_scheduling_interval full.options.heartbeat_interval))
heartbeat_of_full_queue_example =
    heartbeat_of_full_queue full (unfold new_peer in refl) (unfold new_peer in omega arith)

abbrev shut : Peer
shut = record (new_peer default_common_parameters) { is_open = false }

late_heartbeat_example :
    let q = on_read_body success 1 (0 ∷ []) shut in
    (q.is_open ≡ false) × (q.heartbeat_deadline ≡ some shut.options.heartbeat_timeout)
late_heartbeat_example = late_heartbeat shut (0 ∷ []) refl (unfold message_type in refl)

listening-IsReading : IsReading listening
unfolding new_peer
listening-IsReading = record { open_socket = refl; waits_header = refl; small = omega arith }

-- After the health check its heartbeat timer expires, and then the response is written.
abbrev checked : Peer
checked = receive make_health_check_frame listening

abbrev checked_later : Peer
checked_later = step checked (heartbeat_fires success)

answer_health_check_example :
    let q = receive make_health_check_frame listening in
    (q.write_op ≡ some make_health_check_response_frame)
    × ((on_write success q).is_open ≡ false)
    × ((on_write success q).is_ready ≡ false)
    × ((on_write success q).signals ≡ listening.signals ++ (closed ∷ []))
    × (checked_later.is_ready ≡ false)
    × (count is_ready_signal checked_later.signals ≡ count is_ready_signal listening.signals)
    × (count is_message checked_later.signals ≡ count is_message listening.signals)
answer_health_check_example =
    answer_health_check listening checked_later listening-IsReading (unfold new_peer in refl)
      (unfold new_peer in refl) (unfold new_peer in omega arith)
      (later at_once (heartbeat_fires success) tt refl)

receive_health_check_response_example :
    let q = receive make_health_check_response_frame listening in
    IsReading q × (q.signals ≡ listening.signals ++ (health_check_response_received ∷ []))
receive_health_check_response_example = receive_health_check_response listening listening-IsReading

-- A peer that has started, and is closed before its heartbeat timer is handled.
abbrev ticking : Peer
ticking = step (new_peer default_common_parameters) starts

peer_destruction_example :
    let q = ticking in
    let r = step (close q) (heartbeat_fires success) in
    (destroy_peer q ≡ (if ltb 0 (count is_closed q.signals) then detaches else aborts))
    × (destroy_peer r ≡ detaches)
peer_destruction_example =
    peer_destruction default_common_parameters ticking
      (step (close ticking) (heartbeat_fires success)) (next here starts tt)
      (next here (heartbeat_fires success) tt)
