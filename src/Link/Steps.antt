-- ===== src/Link/Steps.antt =====
-- impl/peer.hpp at both ends of a connection. The sending end accepts packets, runs its other handlers
-- and completes its writes; the receiving end reads what was written and runs its other handlers.
use cpp_unix_domain_stream.Prelude.{
  ℕ, ◌≡◌, Bool, true, false, not, ◌&&◌, Option, some, List, [], ◌∷◌, ◌++◌, leb, ◌==◌, if◌then◌else◌,
  length, get_or, take, ErrorCode, is_error, is_aborted, success,
}
use cpp_unix_domain_stream.Options.{CommonParameters}
use cpp_unix_domain_stream.Protocol.{MessageType, health_check, message_type}
use cpp_unix_domain_stream.Peer.State.{Peer, new_peer}
use cpp_unix_domain_stream.Peer.Write.{valid_outgoing_frame, push_frame, on_write}
use cpp_unix_domain_stream.Peer.Timers.{start}
use cpp_unix_domain_stream.Peer.Events
use cpp_unix_domain_stream.Peer.Events.{
  Event, Enabled, starts, closes, pushes, header_done, body_done, write_done, heartbeat_fires,
}
use cpp_unix_domain_stream.Peer.Messages.{beat}
use cpp_unix_domain_stream.Peer.Stream.{turn}
use cpp_unix_domain_stream.Link.Packets.{Packet, carries, check_answer, frame, HasId}

pub record Link : Type 0 where
  pub sender : Peer
  pub receiver : Peer
  -- Written and not yet read.
  pub wire : List ℕ
  -- The packets that the sender has accepted, oldest first.
  pub sent : List Packet

-- Both ends have started.
unfoldable pub new_link : CommonParameters → CommonParameters → Link
new_link ours theirs = record {
  sender = start (new_peer ours);
  receiver = start (new_peer theirs);
  wire = [];
  sent = [];
}

-- Whether `push_frame` appends the frame to the write queue.
abbrev pub accepts : Peer → List ℕ → Bool
accepts p bytes =
    p.is_open
    && valid_outgoing_frame p.options.max_message_size bytes
    && not (leb p.options.max_send_queue_size (length p.write_queue))

abbrev pub accepted : Peer → Packet → List Packet
accepted p m = if accepts p (frame m) then m ∷ [] else []

abbrev pub is_health_check : Option MessageType → Bool
is_health_check (some health_check) = true
is_health_check _ = false

-- The packet that a handler of the peer itself pushes: a heartbeat, or the answer to a health check.
abbrev pub pushed : Peer → Event → List Packet
pushed p (heartbeat_fires e) = if is_error e then [] else accepted p (carries beat)
pushed p (body_done e n bytes) =
    if not (is_error e)
      && (n == length bytes)
      && is_health_check (message_type (get_or bytes 0 0))
      && not p.is_ready
    then accepted p check_answer
    else []
pushed p _ = []

-- An event of the sending end that neither pushes a frame of its owner nor completes a write.
abbrev pub SenderEvent : Event → Type 0
SenderEvent (pushes _) = ⊥
SenderEvent (write_done _) = ⊥
SenderEvent _ = Unit {0}

-- An event of the receiving end that neither starts it nor completes a read.
abbrev pub ReceiverEvent : Event → Type 0
ReceiverEvent starts = ⊥
ReceiverEvent (header_done _ _ _) = ⊥
ReceiverEvent (body_done _ _ _) = ⊥
ReceiverEvent _ = Unit {0}

pub data Step : Link → Link → Type 0 where
  sends :
      (l : Link) (m : Packet)
      → HasId m
      → Step l (record l {
        sender = push_frame (frame m) l.sender;
        sent = l.sent ++ accepted l.sender m;
      })
  sender_runs :
      (l : Link) (e : Event)
      → SenderEvent e
      → Enabled l.sender e
      → Step l (record l { sender = Events.step l.sender e; sent = l.sent ++ pushed l.sender e })
  writes :
      (l : Link) (buffer : List ℕ)
      → l.sender.write_op ≡ some buffer
      → Step l (record l { sender = on_write success l.sender; wire = l.wire ++ buffer })
  -- A write that fails may have written a part of its buffer.
  write_fails :
      (l : Link) (buffer : List ℕ) (e : ErrorCode) (n : ℕ)
      → l.sender.write_op ≡ some buffer
      → is_error e ≡ true
      → (is_aborted e ≡ true → l.sender.is_open ≡ false)
      → Step l (record l { sender = on_write e l.sender; wire = l.wire ++ take n buffer })
  -- A read completes when its bytes are there.
  reads :
      (l : Link)
      → Step l (
          let (wire, receiver) = turn l.receiver.read_op l.wire l.receiver in
          record l { wire = wire; receiver = receiver })
  header_fails :
      (l : Link) (e : ErrorCode) (n : ℕ) (header : List ℕ)
      → is_error e ≡ true
      → Step l (record l { receiver = Events.step l.receiver (header_done e n header) })
  body_fails :
      (l : Link) (e : ErrorCode) (n : ℕ) (bytes : List ℕ)
      → is_error e ≡ true
      → Step l (record l { receiver = Events.step l.receiver (body_done e n bytes) })
  receiver_runs :
      (l : Link) (e : Event)
      → ReceiverEvent e
      → Step l (record l { receiver = Events.step l.receiver e })

pub data Reach (l : Link) : Link → Type 0 where
  here : Reach l l
  next : {l' l'' : Link} → Reach l l' → Step l' l'' → Reach l l''
