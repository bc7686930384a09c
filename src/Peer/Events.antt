-- ===== src/Peer/Events.antt =====
-- impl/peer.hpp: everything that can happen to a peer, one event at a time.
-- The executor is single-threaded, so an event is one handler run. Which operations complete, when
-- and how, is up to the environment, within `Enabled`.
use cpp_unix_domain_stream.Prelude.{ℕ, true, false, ◌≡◌, some, List, length, ErrorCode, is_aborted}
use cpp_unix_domain_stream.Protocol.{header_size}
use cpp_unix_domain_stream.Peer.State.{Peer, header_read, body_read, close}
use cpp_unix_domain_stream.Peer.Write.{push_frame, on_write}
use cpp_unix_domain_stream.Peer.Read.{on_read_header, on_read_body}
use cpp_unix_domain_stream.Peer.Timers.{
  start, on_heartbeat_timer, on_heartbeat_deadline, on_read_deadline, on_write_deadline,
  on_ready_deadline,
}

pub data Event : Type 0 where
  starts closes : Event
  pushes : List ℕ → Event
  header_done body_done : ErrorCode → ℕ → List ℕ → Event
  write_done : ErrorCode → Event
  heartbeat_fires deadline_fires read_fires write_fires ready_fires : ErrorCode → Event

unfoldable pub step : Peer → Event → Peer
step p starts = start p
step p closes = close p
step p (pushes frame) = push_frame frame p
step p (header_done e n header) = on_read_header e n header p
step p (body_done e n body) = on_read_body e n body p
step p (write_done e) = on_write e p
step p (heartbeat_fires e) = on_heartbeat_timer e p
step p (deadline_fires e) = on_heartbeat_deadline e p
step p (read_fires e) = on_read_deadline e p
step p (write_fires e) = on_write_deadline e p
step p (ready_fires e) = on_ready_deadline e p

-- What asio promises of a completion: its operation was outstanding, a read fills its buffer's size,
-- and `operation_aborted` is reported only after the socket was closed.
abbrev pub Enabled : Peer → Event → Type 0
Enabled p (header_done e n header) =
    (p.read_op ≡ header_read)
    × (length header ≡ header_size)
    × (is_aborted e ≡ true → p.is_open ≡ false)
Enabled p (body_done e n body) =
    (p.read_op ≡ body_read)
    × (length body ≡ length p.read_body)
    × (is_aborted e ≡ true → p.is_open ≡ false)
Enabled p (write_done e) =
    ((buffer : List ℕ) × (p.write_op ≡ some buffer)) × (is_aborted e ≡ true → p.is_open ≡ false)
Enabled p _ = Unit {0}

-- The peers that can follow `p`.
pub data Reach (p : Peer) : Peer → Type 0 where
  here : Reach p p
  next : {q : Peer} → Reach p q → (e : Event) → Enabled q e → Reach p (step q e)
