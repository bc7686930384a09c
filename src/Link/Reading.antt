-- ===== src/Link/Reading.antt =====
-- impl/peer.hpp at both ends of a connection: what the receiving end does with the bytes on the wire.
use cpp_unix_domain_stream.Prelude.{
  ℕ, ◌+◌, ◌^◌, ◌<◌, ◌≤◌, ◌≡◌, refl, ap, sym, ◌∙◌, true, inl, inr, none, List, [], ◌∷◌, ◌++◌, length,
  length-append, take, drop, take-append, drop-append, take-append_of_le, drop-append_of_le, All,
  ErrorCode, is_error, success, arith, Bool-cases, ltb,
}
use mathlib.Core.Path.{subst}
use mathlib.Core.List.{append_assoc}
use cpp_unix_domain_stream.Options.{CommonParameters}
use cpp_unix_domain_stream.Protocol.{header_size, encode_uint32, u32}
use cpp_unix_domain_stream.Peer.State.{Peer, ReadOp, no_read, header_read, body_read}
use cpp_unix_domain_stream.Peer.Read.{
  on_read_header, on_read_body, read_body, start_read_deadline, resize,
}
use cpp_unix_domain_stream.Peer.Events
use cpp_unix_domain_stream.Peer.Events.{Event, header_done, body_done}
use cpp_unix_domain_stream.Peer.Body.{BodyInv, step-BodyInv}
use cpp_unix_domain_stream.Peer.Receive.{on_read_header_ok}
use cpp_unix_domain_stream.Peer.Stream.{turn, length-resize}
use cpp_unix_domain_stream.Link.Packets.{Packet, body, frame_body, sizes, stream, HasId, FitsIn}
use cpp_unix_domain_stream.Link.Steps.{Link, ReceiverEvent}
use cpp_unix_domain_stream.Link.Receiver.{
  step-Same, Stopped, on_read_header-Stopped, on_read_body-Stopped, Took, on_read_body-Took,
}
use cpp_unix_domain_stream.Link.Fifo.{Unread, Fifo, read-Fifo, take-Fifo}

-- The bytes at the front.
front :
    (b more wire missing : List ℕ)
    → wire ++ missing ≡ b ++ more
    → length b ≤ length wire
    → (take (length b) wire ≡ b) × (drop (length b) wire ++ missing ≡ more)
front b more wire missing e h = (
  sym (take-append_of_le (length b) wire missing h) ∙ ap (take (length b)) e ∙ take-append b more,
  sym (drop-append_of_le (length b) wire missing h) ∙ ap (drop (length b)) e ∙ drop-append b more,
)

header_front :
    (value : ℕ) (more wire missing : List ℕ)
    → wire ++ missing ≡ encode_uint32 value ++ more
    → 4 ≤ length wire
    → (take 4 wire ≡ encode_uint32 value) × (drop 4 wire ++ missing ≡ more)
unfolding encode_uint32
header_front value more wire missing e h = front (encode_uint32 value) more wire missing e h

module _ (ours theirs : CommonParameters) (small : theirs.max_message_size + 9 < 2 ^ 32) (l : Link)
    (v : Fifo ours theirs l) where
  -- A receiver whose read loop has ended.
  failed_read-Fifo :
      (r : Peer)
      → BodyInv theirs r
      → Stopped l.receiver r
      → Fifo ours theirs (record l { receiver = r })
  failed_read-Fifo r b s = read-Fifo ours theirs l v r l.wire b s.1 (rw s.0 tt)

  pub header_fails-Fifo :
      (e : ErrorCode) (n : ℕ) (header : List ℕ)
      → is_error e ≡ true
      → Fifo ours theirs (record l { receiver = Events.step l.receiver (header_done e n header) })
  header_fails-Fifo e n header h =
      failed_read-Fifo (Events.step l.receiver (header_done e n header))
        (step-BodyInv theirs l.receiver (header_done e n header) v.other)
        (unfold Events.step in on_read_header-Stopped e n header l.receiver h)

  pub body_fails-Fifo :
      (e : ErrorCode) (n : ℕ) (bytes : List ℕ)
      → is_error e ≡ true
      → Fifo ours theirs (record l { receiver = Events.step l.receiver (body_done e n bytes) })
  body_fails-Fifo e n bytes h =
      failed_read-Fifo (Events.step l.receiver (body_done e n bytes))
        (step-BodyInv theirs l.receiver (body_done e n bytes) v.other)
        (unfold Events.step in on_read_body-Stopped e n bytes l.receiver h)

  pub receiver_runs-Fifo :
      (e : Event)
      → ReceiverEvent e
      → Fifo ours theirs (record l { receiver = Events.step l.receiver e })
  receiver_runs-Fifo e s =
      let (op, buffer, h) = step-Same l.receiver e s in
      read-Fifo ours theirs l v (Events.step l.receiver e) l.wire
        (step-BodyInv theirs l.receiver e v.other) h (rw (op, buffer) v.unread)

  -- What is left of the stream when the next header, or the body of `m`, is read.
  at_header :
      (rest : List Packet)
      → v.rest ≡ rest
      → l.receiver.read_op ≡ header_read
      → l.wire ++ v.missing ≡ stream rest
  at_header rest e o =
      subst (λ op. Unread op (length l.receiver.read_body) (l.wire ++ v.missing) v.rest) o v.unread
      ∙ ap stream e

  at_body :
      (rest : List Packet)
      → v.rest ≡ rest
      → l.receiver.read_op ≡ body_read
      → Unread body_read (length l.receiver.read_body) (l.wire ++ v.missing) rest
  at_body rest e o =
      subst (Unread body_read (length l.receiver.read_body) (l.wire ++ v.missing)) e (
        subst (λ op. Unread op (length l.receiver.read_body) (l.wire ++ v.missing) v.rest) o
          v.unread)

  first_fits :
      (m : Packet) (rest : List Packet) → v.rest ≡ m ∷ rest → FitsIn theirs.max_message_size m
  first_fits m rest e = (subst (All (FitsIn theirs.max_message_size)) e v.fit).0

  -- The peer whose buffer has the size that the header announced.
  abbrev reading : Packet → Peer
  reading m = read_body (record l.receiver {
    read_deadline = none;
    read_op = no_read;
    read_body = resize (length (body m)) l.receiver.read_body;
  })

  header_of_front :
      (m : Packet) (rest : List Packet)
      → v.rest ≡ m ∷ rest
      → l.receiver.read_op ≡ header_read
      → header_size ≤ length l.wire
      → (on_read_header success header_size (take header_size l.wire) l.receiver ≡ reading m)
        × (drop header_size l.wire ++ v.missing ≡ body m ++ stream rest)
  header_of_front m rest e o h =
      let value = u32 (length (body m)) in
      let (front, more) =
        header_front value (body m ++ stream rest) l.wire v.missing
          (at_header (m ∷ rest) e o
            ∙ ap (λ f. f ++ stream rest) (frame_body m)
            ∙ append_assoc (encode_uint32 value) (body m) (stream rest))
          h in
      let (least, most, small_body) = sizes theirs.max_message_size m small (first_fits m rest e) in
      (
        ap (λ b. on_read_header success header_size b l.receiver) front
            ∙ on_read_header_ok (body m) l.receiver least (rw v.other.same_options most) small_body,
        more,
      )

  -- The outstanding read of a header, when its bytes are there.
  header_turn :
      (rest : List Packet)
      → v.rest ≡ rest
      → l.receiver.read_op ≡ header_read
      → header_size ≤ length l.wire
      → Fifo ours theirs (record l {
        receiver = on_read_header success header_size (take header_size l.wire) l.receiver;
        wire = drop header_size l.wire;
      })
  header_turn [] e o h =
      let u = at_header [] e o in
      absurd (ground (arith, ap length u, length-append l.wire v.missing))
  header_turn (m ∷ rest) e o h =
      let (next, more) = header_of_front m rest e o h in
      let r = on_read_header success header_size (take header_size l.wire) l.receiver in
      read-Fifo ours theirs l v r (drop header_size l.wire)
        (unfold Events.step in
          step-BodyInv theirs l.receiver (header_done success header_size (take header_size l.wire))
            v.other)
        (rw next (unfold read_body start_read_deadline in refl))
        (subst (Unread r.read_op (length r.read_body) (drop header_size l.wire ++ v.missing))
          (sym e)
          (rw next (
            unfold read_body start_read_deadline in
            (more, length-resize (length (body m)) l.receiver.read_body))))

  body_of_front :
      (m : Packet) (rest : List Packet)
      → v.rest ≡ m ∷ rest
      → l.receiver.read_op ≡ body_read
      → length l.receiver.read_body ≤ length l.wire
      → let n = length l.receiver.read_body in
        (on_read_body success n (take n l.wire) l.receiver
          ≡ on_read_body success (length (body m)) (body m) l.receiver)
        × (drop n l.wire ++ v.missing ≡ stream rest)
  body_of_front m rest e o h =
      let (bytes, same) = at_body (m ∷ rest) e o in
      let (first, more) = front (body m) (stream rest) l.wire v.missing bytes (omega arith) in
      (rw (same, first) refl, rw same more)

  -- The outstanding read of a body, when its bytes are there.
  body_turn :
      (rest : List Packet)
      → v.rest ≡ rest
      → l.receiver.read_op ≡ body_read
      → length l.receiver.read_body ≤ length l.wire
      → let n = length l.receiver.read_body in
        Fifo ours theirs (record l {
          receiver = on_read_body success n (take n l.wire) l.receiver;
          wire = drop n l.wire;
        })
  body_turn [] e o h = absurd (at_body [] e o)
  body_turn (m ∷ rest) e o h =
      let (next, more) = body_of_front m rest e o h in
      let n = length l.receiver.read_body in
      let r = on_read_body success n (take n l.wire) l.receiver in
      let (op, handed, keeps) : Took m l.receiver r = rw next (
        on_read_body-Took m l.receiver (rw v.other.same_options small) (subst (All HasId) e v.ids).0
          (rw v.other.same_options (first_fits m rest e))) in
      take-Fifo ours theirs l v r (drop n l.wire) m rest e
        (unfold Events.step in
          step-BodyInv theirs l.receiver (body_done success n (take n l.wire)) v.other)
        handed (elim op [ inl f ↦ rw f more | inr f ↦ rw f tt ])

  pub reads-Fifo :
      (op : ReadOp)
      → l.receiver.read_op ≡ op
      → let (wire, receiver) = turn op l.wire l.receiver in
        Fifo ours theirs (record l { wire = wire; receiver = receiver })
  reads-Fifo no_read o = v
  reads-Fifo header_read o = elim (Bool-cases (ltb (length l.wire) header_size)) [
    | inl h ↦ rw h v
    | inr h ↦ rw h (header_turn v.rest refl o (ground arith))
  ]
  reads-Fifo body_read o = elim (Bool-cases (ltb (length l.wire) (length l.receiver.read_body))) [
    | inl h ↦ rw h v
    | inr h ↦ rw h (body_turn v.rest refl o (ground arith))
  ]
