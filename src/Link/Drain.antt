-- ===== src/Link/Drain.antt =====
-- impl/peer.hpp at both ends of a connection: what the sender has accepted once its queue has been
-- written and the wire has been read.
use cpp_unix_domain_stream.Prelude.{
  ℕ, zero, suc, ◌+◌, ◌*◌, ◌^◌, ◌<◌, ◌≤◌, ◌≡◌, refl, ap, sym, ◌∙◌, true, inl, inr, List, [], ◌∷◌,
  ◌++◌, length, length-append, head?, concat, All, All-right, success, arith,
}
use mathlib.Core.Path.{subst}
use mathlib.Core.List.{append-nil, append_assoc}
use cpp_unix_domain_stream.Options.{CommonParameters}
use cpp_unix_domain_stream.Peer.State.{Peer, ReadOp, no_read, header_read, body_read}
use cpp_unix_domain_stream.Peer.Read.{on_read_body, read_body, start_read_deadline}
use cpp_unix_domain_stream.Peer.Events
use cpp_unix_domain_stream.Peer.Events.{Event, body_done, header_done}
use cpp_unix_domain_stream.Peer.Queue.{QueueInv}
use cpp_unix_domain_stream.Peer.Body.{BodyInv, step-BodyInv}
use cpp_unix_domain_stream.Peer.Stream.{
  turn, turns, turns-frame_body, turn_body, reading, length-resize,
}
use cpp_unix_domain_stream.Link.Packets.{
  Packet, frame, body, frame_body, sizes, stream, message, messages, messages-append, all_handed,
  HasId, FitsIn, KeepsReading,
}
use cpp_unix_domain_stream.Link.Steps.{Link, Reach, new_link}
use cpp_unix_domain_stream.Link.Receiver.{on_read_body-Took}
use cpp_unix_domain_stream.Link.Fifo.{Unread}
use cpp_unix_domain_stream.Link.Writing.{Fair}
use cpp_unix_domain_stream.Link.Flush.{
  flush, receive_from, flush_lem, flush-Reach, receive_from-Reach,
}
use cpp_unix_domain_stream.Link.Order.{Reach-Fifo, new_link-Fifo}

module _ (theirs : CommonParameters) (small : theirs.max_message_size + 9 < 2 ^ 32) where
  -- What reading the whole stream of `rest` comes to.
  abbrev pub ReadAll : ℕ → List ℕ → Peer → List Packet → Type 0
  ReadAll n wire p rest =
      let (left, q) = turns n wire p in
      (left ≡ [])
      × (q.is_open ≡ true)
      × (all_handed q.signals ≡ all_handed p.signals ++ messages rest)

  abbrev Ready : List Packet → Type 0
  Ready ms = All HasId ms × All (FitsIn theirs.max_message_size) ms × All KeepsReading ms

  -- The body of a packet that keeps the read loop going.
  body_lem :
      (m : Packet) (p : Peer)
      → BodyInv theirs p
      → p.is_open ≡ true
      → Ready (m ∷ [])
      → let q = on_read_body success (length (body m)) (body m) p in
        BodyInv theirs q
        × (q.is_open ≡ true)
        × (q.read_op ≡ header_read)
        × (all_handed q.signals ≡ all_handed p.signals ++ message m)
  body_lem m p b o g =
      let (op, handed, keeps) =
        on_read_body-Took m p (rw b.same_options small) g.0.0 (rw b.same_options g.1.0) in
      let (next_read, stays) = keeps g.2.0 o in
      (
        unfold Events.step in
            step-BodyInv theirs p (body_done success (length (body m)) (body m)) b,
        stays,
        next_read,
        handed,
      )

  reading-BodyInv :
      (m : Packet) (p : Peer)
      → BodyInv theirs p
      → FitsIn theirs.max_message_size m
      → BodyInv theirs (reading (body m) p)
  unfolding read_body start_read_deadline
  reading-BodyInv m p b f =
      let (least, most, small_body) = sizes theirs.max_message_size m small f in
      record {
        same_options = b.same_options;
        sized = λ h. rw (length-resize (length (body m)) p.read_body) (least, most);
      }

  turns_packets :
      (n : ℕ) (rest : List Packet) (p : Peer)
      → BodyInv theirs p
      → p.is_open ≡ true
      → p.read_op ≡ header_read
      → Ready rest
      → 2 * length rest ≤ n
      → ReadAll n (stream rest) p rest
  unfolding turns read_body start_read_deadline
  turns_packets zero [] p b o h g k = (refl, o, sym (append-nil (all_handed p.signals)))
  turns_packets zero (m ∷ rest) p b o h g k = absurd (omega arith)
  turns_packets (suc n) [] p b o h g k =
      let first = ap (λ op. let (left, q) = turn op [] p in turns n left q) h in
      rw first (turns_packets n [] p b o h g (omega arith))
  turns_packets (suc zero) (m ∷ rest) p b o h g k = absurd (omega arith)
  turns_packets (suc (suc n)) (m ∷ rest) p b o h g k =
      let (least, most, small_body) = sizes theirs.max_message_size m small g.1.0 in
      let r = reading (body m) p in
      let (b', o', h', now) =
        body_lem m r (reading-BodyInv m p b g.1.0) o ((g.0.0, tt), (g.1.0, tt), (g.2.0, tt)) in
      let q = on_read_body success (length (body m)) (body m) r in
      let (left, stays, all) =
        turns_packets n rest q b' o' h' (g.0.1, g.1.1, g.2.1) (omega arith) in
      rw
        (turns-frame_body (frame m) (body m) (stream rest) p (frame_body m) h least
          (rw b.same_options most) small_body n)
        (
          left,
          stays,
          all
              ∙ ap (λ ms. ms ++ messages rest) now
              ∙ append_assoc (all_handed p.signals) (message m) (messages rest),
        )

  -- The same when the body of the first packet is being read.
  pub turns-Unread :
      (op : ReadOp) (n : ℕ) (rest : List Packet) (bytes : List ℕ) (p : Peer)
      → p.read_op ≡ op
      → ¬ (op ≡ no_read)
      → BodyInv theirs p
      → p.is_open ≡ true
      → Unread op (length p.read_body) bytes rest
      → Ready rest
      → 2 * length rest ≤ n
      → ReadAll n bytes p rest
  unfolding turns
  turns-Unread no_read n rest bytes p e r b o u g k = absurd (r refl)
  turns-Unread header_read n rest bytes p e r b o u g k = rw u (turns_packets n rest p b o e g k)
  turns-Unread body_read n [] bytes p e r b o u g k = absurd u
  turns-Unread body_read zero (m ∷ rest) bytes p e r b o u g k = absurd (omega arith)
  turns-Unread body_read (suc n) (m ∷ rest) bytes p e r b o u g k =
      let (b', o', h', now) = body_lem m p b o ((g.0.0, tt), (g.1.0, tt), (g.2.0, tt)) in
      let q = on_read_body success (length (body m)) (body m) p in
      let (left, stays, all) =
        turns_packets n rest q b' o' h' (g.0.1, g.1.1, g.2.1) (omega arith) in
      let first =
        ap (λ op. let (left, q) = turn op bytes p in turns n left q) e
        ∙ ap (λ bytes. let (left, q) = turn body_read bytes p in turns n left q) u.0
        ∙ ap (λ (s : List ℕ × Peer). turns n s.0 s.1) (turn_body (body m) (stream rest) p u.1) in
      rw first (
        left,
        stays,
        all
            ∙ ap (λ ms. ms ++ messages rest) now
            ∙ append_assoc (all_handed p.signals) (message m) (messages rest),
      )

front_written :
    (l : Link)
    → QueueInv l.sender
    → l.sender.is_open ≡ true
    → l.sender.write_op ≡ head? l.sender.write_queue
front_written l v o = elim v.writing [ inl h ↦ h | inr h ↦ absurd cc ]

-- At any time after both ends of a new connection have started, while both are open and the receiver is
-- reading, if what the sender's limit lets through the receiver's takes (itself below 2^32 - 9) and
-- the sender has accepted no health check: once as many writes as frames are queued have succeeded,
-- and two reads for each accepted packet have been given the chance to complete, nothing is queued,
-- nothing is on the wire, and the receiver has handed over all the messages that the sender had
-- accepted, in order.
pub link_drain :
    (ours theirs : CommonParameters) (l : Link)
    → Fair ours theirs
    → Reach (new_link ours theirs) l
    → l.sender.is_open ≡ true
    → l.receiver.is_open ≡ true
    → ¬ (l.receiver.read_op ≡ no_read)
    → All KeepsReading l.sent
    → let l' = receive_from (2 * length l.sent) (flush (length l.sender.write_queue) l) in
      Reach (new_link ours theirs) l'
      × (l'.sent ≡ l.sent)
      × (l'.sender.write_queue ≡ [])
      × (l'.wire ≡ [])
      × (all_handed l'.receiver.signals ≡ messages l.sent)
unfolding receive_from
link_drain ours theirs l fair r o p h k =
    let v = Reach-Fifo ours theirs fair (new_link-Fifo ours theirs) r in
    let writing = front_written l v.queue o in
    let s = flush (length l.sender.write_queue) l in
    let n = 2 * length l.sent in
    let (wire, receiver, sent, empty) = flush_lem l.sender.write_queue l refl writing (inl o) in
    let left : v.missing ≡ concat l.sender.write_queue = elim v.unwritten [
      | inl e ↦ e
      | inr q ↦ absurd cc
    ] in
    let sizes = ap length v.split ∙ length-append v.taken v.rest in
    let all =
      turns-Unread theirs fair.small l.receiver.read_op n v.rest (l.wire ++ v.missing) l.receiver
        refl h v.other p v.unread
        (v.ids, v.fit, All-right KeepsReading v.taken v.rest (subst (All KeepsReading) v.split k))
        (omega arith) in
    let (none_left, still, handed) =
      subst (λ q. ReadAll theirs fair.small n s.wire q v.rest) (sym receiver)
        (subst (λ bytes. ReadAll theirs fair.small n bytes l.receiver v.rest)
          (ap (λ b. l.wire ++ b) left ∙ sym wire) all) in
    (
      receive_from-Reach n s (flush-Reach (length l.sender.write_queue) l r),
      sent,
      empty,
      none_left,
      handed
          ∙ ap (λ q. all_handed q.signals ++ messages v.rest) receiver
          ∙ ap (λ ms. ms ++ messages v.rest) v.delivered
          ∙ sym (messages-append v.taken v.rest)
          ∙ ap messages (sym v.split),
    )
