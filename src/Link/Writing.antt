-- ===== src/Link/Writing.antt =====
-- impl/peer.hpp at both ends of a connection: what the sending end does with the accepted packets.
use cpp_unix_domain_stream.Prelude.{
  ℕ, ◌+◌, ◌^◌, ◌<◌, ◌≤◌, ◌≡◌, ap, sym, ◌∙◌, true, false, inl, inr, none, some, List, [], ◌∷◌, ◌++◌,
  length, take, drop, head?, tail, concat, take-drop, All, ErrorCode, is_error, is_aborted, success,
  arith, Bool-cases,
}
use mathlib.Core.List.{append_assoc}
use cpp_unix_domain_stream.Options.{CommonParameters}
use cpp_unix_domain_stream.Peer.State.{Peer, close, close_socket, handle_error}
use cpp_unix_domain_stream.Peer.Write.{push_frame, on_write, write}
use cpp_unix_domain_stream.Peer.Events
use cpp_unix_domain_stream.Peer.Events.{
  Event, Enabled, pushes, write_done, header_done, body_done, heartbeat_fires,
}
use cpp_unix_domain_stream.Peer.Queue.{step-QueueInv}
use cpp_unix_domain_stream.Peer.Body.{step-BodyInv}
use cpp_unix_domain_stream.Peer.Closed.{step-Closed}
use cpp_unix_domain_stream.Peer.Messages.{beat}
use cpp_unix_domain_stream.Link.Packets.{
  Packet, carries, check_answer, frame, HasId, FitsIn, valid-FitsIn,
}
use cpp_unix_domain_stream.Link.Steps.{Link, accepted, pushed, accepts, SenderEvent}
use cpp_unix_domain_stream.Link.Sender.{push_frame-concat, step-concat, closed-pushed}
use cpp_unix_domain_stream.Link.Fifo.{Fifo, accept-Fifo, write-Fifo}

-- What the two ends must agree on: what our limit lets through, the other end's takes.
pub record Fair (ours theirs : CommonParameters) : Type 0 where
  pub within : ours.max_message_size ≤ theirs.max_message_size
  pub small : theirs.max_message_size + 9 < 2 ^ 32

head?-cons : {b : List ℕ} (queue : List (List ℕ)) → head? queue ≡ some b → queue ≡ b ∷ tail queue
head?-cons [] h = cc
head?-cons (x ∷ xs) h = cc

on_write-success : (p : Peer) → (on_write success p).write_queue ≡ tail p.write_queue
unfolding on_write write close close_socket
on_write-success p = ground arith

on_write-fails :
    (e : ErrorCode) (p : Peer)
    → is_error e ≡ true
    → (is_aborted e ≡ true → p.is_open ≡ false)
    → ((on_write e p).write_op ≡ none) × ((on_write e p).is_open ≡ false)
unfolding on_write handle_error close close_socket
on_write-fails e p h g = ground arith

module _ (ours theirs : CommonParameters) (fair : Fair ours theirs) where
  -- The packets that are accepted have an id in range, and fit the other end.
  abbrev Good : List Packet → Type 0
  Good ms = All HasId ms × All (FitsIn theirs.max_message_size) ms

  accepted-Good : (p : Peer) (m : Packet) → p.options ≡ ours → HasId m → Good (accepted p m)
  accepted-Good p m o i = elim (Bool-cases (accepts p (frame m))) [
    | inl h ↦ rw h (
      (i, tt),
      (
        valid-FitsIn p.options.max_message_size theirs.max_message_size m (rw o fair.within)
            fair.small i (ground arith),
        tt,
      ),
    )
    | inr h ↦ rw h (tt, tt)
  ]

  pushed-Good : (p : Peer) (e : Event) → p.options ≡ ours → Good (pushed p e)
  pushed-Good p (heartbeat_fires e) o = ground (arith, accepted-Good p (carries beat) o tt)
  pushed-Good p (body_done e n bytes) o = ground (arith, accepted-Good p check_answer o tt)
  pushed-Good p _ o = (tt, tt)

  module _ (l : Link) (v : Fifo ours theirs l) where
    pub sends-Fifo :
        (m : Packet)
        → HasId m
        → Fifo ours theirs (record l {
          sender = push_frame (frame m) l.sender;
          sent = l.sent ++ accepted l.sender m;
        })
    sends-Fifo m i =
        let (ids, fit) = accepted-Good l.sender m v.own.same_options i in
        accept-Fifo ours theirs l v (push_frame (frame m) l.sender) (accepted l.sender m)
          (unfold Events.step in step-QueueInv l.sender (pushes (frame m)) tt v.queue)
          (unfold Events.step in step-BodyInv ours l.sender (pushes (frame m)) v.own) ids fit
          (push_frame-concat m l.sender) (λ h. unfold push_frame in ground arith)

    pub sender_runs-Fifo :
        (e : Event)
        → SenderEvent e
        → Enabled l.sender e
        → Fifo ours theirs
            (record l { sender = Events.step l.sender e; sent = l.sent ++ pushed l.sender e })
    sender_runs-Fifo e s h =
        let (ids, fit) = pushed-Good l.sender e v.own.same_options in
        accept-Fifo ours theirs l v (Events.step l.sender e) (pushed l.sender e)
          (step-QueueInv l.sender e h v.queue) (step-BodyInv ours l.sender e v.own) ids fit
          (step-concat l.sender e s)
          (λ k.
            let c =
              step-Closed (length l.sender.write_queue) none l.sender e
                (record { shut = k.1; shrinking = omega arith; no_new_write = inl k.0 }) in
            (closed-pushed l.sender e k.1, ground arith, c.shut))

    -- The outstanding write is of the front of what is missing.
    missing_front :
        (buffer : List ℕ)
        → l.sender.write_op ≡ some buffer
        → v.missing ≡ buffer ++ concat (tail l.sender.write_queue)
    missing_front buffer h = elim v.queue.writing [
      | inl w ↦ elim v.unwritten [
        | inl e ↦ e ∙ ap concat (head?-cons l.sender.write_queue (sym w ∙ h))
        | inr q ↦ absurd cc
      ]
      | inr q ↦ absurd cc
    ]

    pub writes-Fifo :
        (buffer : List ℕ)
        → l.sender.write_op ≡ some buffer
        → Fifo ours theirs
            (record l { sender = on_write success l.sender; wire = l.wire ++ buffer })
    writes-Fifo buffer h =
        write-Fifo ours theirs l v (on_write success l.sender) buffer
          (concat (tail l.sender.write_queue))
          (unfold Events.step in
            step-QueueInv l.sender (write_done success) ((buffer, h), λ k. absurd cc) v.queue)
          (unfold Events.step in step-BodyInv ours l.sender (write_done success) v.own)
          (missing_front buffer h) (inl (ap concat (sym (on_write-success l.sender))))

    pub write_fails-Fifo :
        (buffer : List ℕ) (e : ErrorCode) (n : ℕ)
        → l.sender.write_op ≡ some buffer
        → is_error e ≡ true
        → (is_aborted e ≡ true → l.sender.is_open ≡ false)
        → Fifo ours theirs
            (record l { sender = on_write e l.sender; wire = l.wire ++ take n buffer })
    write_fails-Fifo buffer e n h f g =
        write-Fifo ours theirs l v (on_write e l.sender) (take n buffer)
          (drop n buffer ++ concat (tail l.sender.write_queue))
          (unfold Events.step in step-QueueInv l.sender (write_done e) ((buffer, h), g) v.queue)
          (unfold Events.step in step-BodyInv ours l.sender (write_done e) v.own)
          (missing_front buffer h
            ∙ ap (λ b. b ++ concat (tail l.sender.write_queue)) (sym (take-drop n buffer))
            ∙ append_assoc (take n buffer) (drop n buffer) (concat (tail l.sender.write_queue)))
          (inr (on_write-fails e l.sender f g))
