-- ===== src/Peer/Unannounced.antt =====
-- impl/peer.hpp: a peer that reads no more and is not ready, until its ready deadline expires.
use cpp_unix_domain_stream.Prelude.{
  Bool, not, none, List, tail, count, count-append, is_error, ErrorCode, ℕ, ◌≡◌, refl, true, false,
  [], ◌∷◌, arith,
}
use cpp_unix_domain_stream.Protocol.{make_heartbeat_frame}
use cpp_unix_domain_stream.Peer.State.{
  Peer, Signal, closed, close, close_socket, emit, error_occurred, handle_error, no_read,
}
use cpp_unix_domain_stream.Peer.Write.{push_frame, write, on_write}
use cpp_unix_domain_stream.Peer.Timers.{
  on_heartbeat_timer, start_heartbeat_timer, on_heartbeat_deadline, on_read_deadline,
  on_write_deadline, on_ready_deadline,
}
use cpp_unix_domain_stream.Peer.Events.{Event, step, Enabled}
use cpp_unix_domain_stream.Peer.Signals.{is_ready_signal, is_message}

-- The events that may announce a peer which reads no more: a start, and the expiry of its ready
-- deadline.
abbrev pub may_announce : Event → Bool
may_announce Event.starts = true
may_announce (Event.ready_fires e) = not (is_error e)
may_announce _ = false

-- The peers that can follow `p` without such an event.
pub data Follows (p : Peer) : Peer → Type 0 where
  at_once : Follows p p
  later :
      {q : Peer}
      → Follows p q
      → (e : Event) → Enabled q e
      → may_announce e ≡ false
      → Follows p (step q e)

-- It reads no more, is not ready, and has emitted so many `ready` and so many messages.
pub record IsUnannounced (readies messages : ℕ) (p : Peer) : Type 0 where
  pub no_more : p.read_op ≡ no_read
  pub not_ready : p.is_ready ≡ false
  pub readies_so_far : count is_ready_signal p.signals ≡ readies
  pub messages_so_far : count is_message p.signals ≡ messages

module _ (readies messages : ℕ) where
  emit-IsUnannounced :
      (s : Signal) (p : Peer)
      → is_ready_signal s ≡ false
      → is_message s ≡ false
      → IsUnannounced readies messages p
      → IsUnannounced readies messages (emit s p)
  emit-IsUnannounced s p h g v = ground (
    arith,
    count-append is_ready_signal p.signals (s ∷ []),
    count-append is_message p.signals (s ∷ []),
  )

  close-IsUnannounced :
      (p : Peer) → IsUnannounced readies messages p → IsUnannounced readies messages (close p)
  unfolding close close_socket
  close-IsUnannounced p v = ground (arith, emit-IsUnannounced closed (close_socket p) refl refl)

  handle_error-IsUnannounced :
      (e : ErrorCode) (p : Peer)
      → IsUnannounced readies messages p
      → IsUnannounced readies messages (handle_error e p)
  unfolding handle_error
  handle_error-IsUnannounced e p v = ground (
    arith,
    close-IsUnannounced (emit (error_occurred e) p)
        (emit-IsUnannounced (error_occurred e) p refl refl v),
  )

  pub push_frame-IsUnannounced :
      (frame : List ℕ) (p : Peer)
      → IsUnannounced readies messages p
      → IsUnannounced readies messages (push_frame frame p)
  unfolding push_frame write
  push_frame-IsUnannounced frame p v =
      ground (arith, handle_error-IsUnannounced ErrorCode.no_buffer_space p v)

  on_write-IsUnannounced :
      (e : ErrorCode) (p : Peer)
      → IsUnannounced readies messages p
      → IsUnannounced readies messages (on_write e p)
  unfolding on_write write
  on_write-IsUnannounced e p v =
      let q = record p { write_deadline = none; write_op = none } in
      ground (
        arith,
        handle_error-IsUnannounced e q (ground arith),
        close-IsUnannounced (record q { write_queue = tail q.write_queue }) (ground arith),
      )

  step-IsUnannounced :
      (p : Peer) (e : Event)
      → Enabled p e
      → may_announce e ≡ false
      → IsUnannounced readies messages p
      → IsUnannounced readies messages (step p e)
  unfolding step on_heartbeat_timer start_heartbeat_timer on_heartbeat_deadline on_read_deadline
      on_write_deadline on_ready_deadline
  step-IsUnannounced p Event.starts a h v = absurd cc
  step-IsUnannounced p Event.closes a h v = close-IsUnannounced p v
  step-IsUnannounced p (Event.pushes frame) a h v = push_frame-IsUnannounced frame p v
  step-IsUnannounced p (Event.header_done e n header) a h v =
      let c = a.0 in let d = v.no_more in absurd cc
  step-IsUnannounced p (Event.body_done e n body) a h v =
      let c = a.0 in let d = v.no_more in absurd cc
  step-IsUnannounced p (Event.write_done e) a h v = on_write-IsUnannounced e p v
  step-IsUnannounced p (Event.heartbeat_fires e) a h v = ground (
    arith,
    push_frame-IsUnannounced make_heartbeat_frame (record p { heartbeat_timer = none })
        (ground arith),
  )
  step-IsUnannounced p (Event.deadline_fires e) a h v = ground (
    arith,
    handle_error-IsUnannounced ErrorCode.timed_out (record p { heartbeat_deadline = none })
        (ground arith),
  )
  step-IsUnannounced p (Event.read_fires e) a h v = ground (
    arith,
    handle_error-IsUnannounced ErrorCode.timed_out (record p { read_deadline = none })
        (ground arith),
  )
  step-IsUnannounced p (Event.write_fires e) a h v = ground (
    arith,
    handle_error-IsUnannounced ErrorCode.timed_out (record p { write_deadline = none })
        (ground arith),
  )
  step-IsUnannounced p (Event.ready_fires e) a h v = ground arith

  pub Follows-IsUnannounced :
      {p q : Peer}
      → IsUnannounced readies messages p
      → Follows p q
      → IsUnannounced readies messages q
  Follows-IsUnannounced v at_once = v
  Follows-IsUnannounced v (later {q = q} f e a h) =
      step-IsUnannounced q e a h (Follows-IsUnannounced v f)
