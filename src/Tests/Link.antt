-- ===== src/Tests/Link.antt =====
-- impl/peer.hpp at both ends of a connection: two messages, the first of which is partly read.
use cpp_unix_domain_stream.Prelude.{◌*◌, ◌≡◌, refl, List, [], ◌∷◌, ◌++◌, length, success, arith}
use cpp_unix_domain_stream.Options.{default_common_parameters}
use cpp_unix_domain_stream.Protocol.{
  make_user_data_frame, make_request_frame, encode_uint64, make_frame, encode_uint32, decode_uint32,
  message_type,
}
use cpp_unix_domain_stream.Peer.State.{new_peer}
use cpp_unix_domain_stream.Peer.Write.{push_frame, write, on_write, valid_outgoing_frame}
use cpp_unix_domain_stream.Peer.Read.{
  on_read_header, read_body, read_header, start_read_deadline, refresh_heartbeat_deadline,
}
use cpp_unix_domain_stream.Peer.Timers.{start, start_ready_deadline, start_heartbeat_timer}
use cpp_unix_domain_stream.Peer.Messages.{user, asks}
use cpp_unix_domain_stream.Peer.Stream.{turn}
use cpp_unix_domain_stream.Link.Packets.{Packet, carries, frame, messages, all_handed}
use cpp_unix_domain_stream.Link.Steps.{
  Link, new_link, accepted, sends, writes, reads, Reach, here, next,
}
use cpp_unix_domain_stream.Link.Writing.{Fair}
use cpp_unix_domain_stream.Link.Order.{link_order}
use cpp_unix_domain_stream.Link.Flush.{flush, receive_from}
use cpp_unix_domain_stream.Link.Drain.{link_drain}

abbrev new_pair : Link
new_pair = new_link default_common_parameters default_common_parameters

abbrev send : Packet → Link → Link
send m l = record l { sender = push_frame (frame m) l.sender; sent = l.sent ++ accepted l.sender m }

abbrev first : Packet
first = carries (user (7 ∷ 8 ∷ []))

abbrev second : Packet
second = carries (asks 3 (9 ∷ []))

-- Both messages are queued, and the first is written.
abbrev written : Link
written =
    let l = send second (send first new_pair) in
    record l { sender = on_write success l.sender; wire = l.wire ++ frame first }

abbrev half_read : Link
half_read =
    let (wire, receiver) = turn written.receiver.read_op written.wire written.receiver in
    record written { wire = wire; receiver = receiver }

fair : Fair default_common_parameters default_common_parameters
fair = record { within = omega arith; small = omega arith }

half_read-Reach : Reach new_pair half_read
unfolding push_frame write new_link start new_peer start_ready_deadline start_heartbeat_timer
    refresh_heartbeat_deadline read_header start_read_deadline make_user_data_frame make_frame
    encode_uint32 valid_outgoing_frame decode_uint32 message_type make_request_frame encode_uint64
half_read-Reach =
    next
      (next
        (next (next here (sends new_pair first tt))
          (sends (send first new_pair) second (omega arith)))
        (writes (send second (send first new_pair)) (frame first) refl))
      (reads written)

link_order_example :
    (rest : List Packet) × (messages half_read.sent
      ≡ all_handed half_read.receiver.signals ++ messages rest)
link_order_example =
    link_order default_common_parameters default_common_parameters half_read fair half_read-Reach

link_drain_example :
    let l' =
      receive_from
        (2 * length half_read.sent)
        (flush (length half_read.sender.write_queue) half_read) in
    Reach new_pair l'
    × (l'.sent ≡ half_read.sent)
    × (l'.sender.write_queue ≡ [])
    × (l'.wire ≡ [])
    × (all_handed l'.receiver.signals ≡ messages half_read.sent)
unfolding push_frame write on_write new_link start new_peer start_ready_deadline
    start_heartbeat_timer refresh_heartbeat_deadline read_header start_read_deadline
    make_user_data_frame make_frame encode_uint32 valid_outgoing_frame decode_uint32 message_type
    on_read_header read_body make_request_frame encode_uint64
link_drain_example =
    link_drain default_common_parameters default_common_parameters half_read fair half_read-Reach
      refl refl (λ e. cc) (tt, (tt, tt))
