-- ===== src/Peer/Check.antt =====
-- impl/peer.hpp: a health check, from its frame to its answer.
use cpp_unix_domain_stream.Prelude.{
  count, ℕ, ◌+◌, ◌^◌, ◌<◌, ◌≤◌, ◌≡◌, refl, true, false, some, [], ◌∷◌, ◌++◌, arith, success,
}
use cpp_unix_domain_stream.Protocol.{
  make_frame, make_health_check_frame, make_health_check_response_frame, message_type,
  encode_uint32, decode_uint32, u32,
}
use cpp_unix_domain_stream.Peer.State.{
  Peer, closed, health_check_response_received, close, close_socket,
}
use cpp_unix_domain_stream.Peer.Write.{push_frame, write, on_write, valid_outgoing_frame}
use cpp_unix_domain_stream.Peer.Read.{handle_body, read_header, start_read_deadline}
use cpp_unix_domain_stream.Peer.Signals.{is_ready_signal, is_message}
use cpp_unix_domain_stream.Peer.Receive.{IsReading, receive, receive_frame, after_reads}
use cpp_unix_domain_stream.Peer.Unannounced.{
  Follows, IsUnannounced, push_frame-IsUnannounced, Follows-IsUnannounced,
}

pub health_check_frame : make_health_check_frame ≡ encode_uint32 (u32 1) ++ (2 ∷ [])
unfolding make_health_check_frame make_frame
health_check_frame = refl

pub response_frame : make_health_check_response_frame ≡ encode_uint32 (u32 1) ++ (3 ∷ [])
unfolding make_health_check_response_frame make_frame
response_frame = refl

response_valid :
    (max : ℕ) → max + 9 < 2 ^ 32 → valid_outgoing_frame max make_health_check_response_frame ≡ true
unfolding valid_outgoing_frame make_health_check_response_frame make_frame encode_uint32
    decode_uint32 message_type
response_valid max h = ground arith

answer_of_check :
    (p : Peer)
    → IsReading p
    → p.is_ready ≡ false
    → p.write_queue ≡ []
    → 1 ≤ p.options.max_send_queue_size
    → let q = receive make_health_check_frame p in
      (q.write_op ≡ some make_health_check_response_frame)
      × ((on_write success q).is_open ≡ false)
      × ((on_write success q).is_ready ≡ false)
      × ((on_write success q).signals ≡ p.signals ++ (closed ∷ []))
unfolding handle_body push_frame write on_write close close_socket message_type
answer_of_check p r a b h =
    rw (health_check_frame, receive_frame (2 ∷ []) p (omega arith) (omega arith) (omega arith))
      (ground (arith, response_valid p.options.max_message_size r.small))

receive_check-IsUnannounced :
    (p : Peer)
    → IsReading p
    → p.is_ready ≡ false
    → IsUnannounced
        (count is_ready_signal p.signals)
        (count is_message p.signals)
        (receive make_health_check_frame p)
unfolding handle_body message_type
receive_check-IsUnannounced p r a =
    let q = record (after_reads (2 ∷ []) p) { close_after_write = true } in
    let v =
      push_frame-IsUnannounced (count is_ready_signal p.signals) (count is_message p.signals)
        make_health_check_response_frame q
        (record { no_more = refl; not_ready = a; readies_so_far = refl; messages_so_far = refl }) in
    rw (health_check_frame, receive_frame (2 ∷ []) p (omega arith) (omega arith) (omega arith))
      (ground (arith, v))

-- A peer that waits for a header, is not ready and has nothing to write, whose limit is below 2^32 - 9
-- and whose queue may hold a frame, answers a health check with one response, still without `ready`.
-- If the next event is that this is written, it emits `closed` and nothing else. And whatever happens
-- after the health check, in any order, as long as the peer is not started again and its ready deadline
-- does not expire, it does not become ready, and emits neither `ready` nor a message.
pub answer_health_check :
    (p r : Peer)
    → IsReading p
    → p.is_ready ≡ false
    → p.write_queue ≡ []
    → 1 ≤ p.options.max_send_queue_size
    → Follows (receive make_health_check_frame p) r
    → let q = receive make_health_check_frame p in
      (q.write_op ≡ some make_health_check_response_frame)
      × ((on_write success q).is_open ≡ false)
      × ((on_write success q).is_ready ≡ false)
      × ((on_write success q).signals ≡ p.signals ++ (closed ∷ []))
      × (r.is_ready ≡ false)
      × (count is_ready_signal r.signals ≡ count is_ready_signal p.signals)
      × (count is_message r.signals ≡ count is_message p.signals)
answer_health_check p r reading a b h f =
    let w = answer_of_check p reading a b h in
    let v =
      Follows-IsUnannounced (count is_ready_signal p.signals) (count is_message p.signals)
        (receive_check-IsUnannounced p reading a) f in
    (w.0, w.1, w.2, w.3, v.not_ready, v.readies_so_far, v.messages_so_far)

-- At the other end, a peer that waits for a header and whose limit is below 2^32 - 9 turns the response
-- into `health_check_response_received`, and waits for the next header.
pub receive_health_check_response :
    (p : Peer)
    → IsReading p
    → let q = receive make_health_check_response_frame p in
      IsReading q × (q.signals ≡ p.signals ++ (health_check_response_received ∷ []))
unfolding handle_body read_header start_read_deadline message_type
receive_health_check_response p r =
    rw (response_frame, receive_frame (3 ∷ []) p (omega arith) (omega arith) (omega arith))
      (ground arith)
