-- ===== src/Link/Order.antt =====
-- impl/peer.hpp at both ends of a connection: the order of the packets.
use cpp_unix_domain_stream.Prelude.{◌≡◌, refl, ap, sym, ◌∙◌, List, [], ◌++◌, inl, arith}
use cpp_unix_domain_stream.Options.{CommonParameters}
use cpp_unix_domain_stream.Peer.State.{new_peer}
use cpp_unix_domain_stream.Peer.Read.{read_header, start_read_deadline, refresh_heartbeat_deadline}
use cpp_unix_domain_stream.Peer.Timers.{start, start_heartbeat_timer, start_ready_deadline}
use cpp_unix_domain_stream.Link.Packets.{Packet, messages, messages-append, all_handed}
use cpp_unix_domain_stream.Link.Steps.{
  Link, new_link, Step, sends, sender_runs, writes, write_fails, reads, header_fails, body_fails,
  receiver_runs, Reach, here, next,
}
use cpp_unix_domain_stream.Link.Fifo.{Fifo}
use cpp_unix_domain_stream.Link.Writing.{
  Fair, sends-Fifo, sender_runs-Fifo, writes-Fifo, write_fails-Fifo,
}
use cpp_unix_domain_stream.Link.Reading.{
  header_fails-Fifo, body_fails-Fifo, receiver_runs-Fifo, reads-Fifo,
}

module _ (ours theirs : CommonParameters) (fair : Fair ours theirs) where
  step-Fifo : {l l' : Link} → Step l l' → Fifo ours theirs l → Fifo ours theirs l'
  step-Fifo (sends l m i) v = sends-Fifo ours theirs fair l v m i
  step-Fifo (sender_runs l e s h) v = sender_runs-Fifo ours theirs fair l v e s h
  step-Fifo (writes l buffer h) v = writes-Fifo ours theirs fair l v buffer h
  step-Fifo (write_fails l buffer e n h f g) v =
      write_fails-Fifo ours theirs fair l v buffer e n h f g
  step-Fifo (reads l) v = reads-Fifo ours theirs fair.small l v l.receiver.read_op refl
  step-Fifo (header_fails l e n header h) v =
      header_fails-Fifo ours theirs fair.small l v e n header h
  step-Fifo (body_fails l e n bytes h) v = body_fails-Fifo ours theirs fair.small l v e n bytes h
  step-Fifo (receiver_runs l e s) v = receiver_runs-Fifo ours theirs fair.small l v e s

  pub Reach-Fifo : {l l' : Link} → Fifo ours theirs l → Reach l l' → Fifo ours theirs l'
  Reach-Fifo v here = v
  Reach-Fifo v (next r s) = step-Fifo s (Reach-Fifo v r)

pub new_link-Fifo : (ours theirs : CommonParameters) → Fifo ours theirs (new_link ours theirs)
unfolding new_link start new_peer start_ready_deadline start_heartbeat_timer
    refresh_heartbeat_deadline read_header start_read_deadline
new_link-Fifo ours theirs = record {
  queue = record { bounded = omega arith; frames_valid = tt; writing = inl refl };
  own = record { same_options = refl; sized = λ h. cc };
  other = record { same_options = refl; sized = λ h. cc };
  taken = [];
  rest = [];
  missing = [];
  split = refl;
  delivered = refl;
  ids = tt;
  fit = tt;
  unread = refl;
  unwritten = inl refl;
}

-- Whatever happens at both ends of a new connection, each handler and each completion, failed and
-- partial writes included, if what the sender's limit lets through the receiver's takes (itself below
-- 2^32 - 9), the messages that the receiver has handed to its user are those of the packets that the
-- sender has accepted, in the order in which it accepted them, without the last ones: nothing is
-- lost in between, nothing comes twice and nothing else comes.
pub link_order :
    (ours theirs : CommonParameters) (l : Link)
    → Fair ours theirs
    → Reach (new_link ours theirs) l
    → (rest : List Packet) × (messages l.sent ≡ all_handed l.receiver.signals ++ messages rest)
link_order ours theirs l fair r =
    let v = Reach-Fifo ours theirs fair (new_link-Fifo ours theirs) r in
    (
      v.rest,
      ap messages v.split
          ∙ messages-append v.taken v.rest
          ∙ ap (λ ms. ms ++ messages v.rest) (sym v.delivered),
    )
