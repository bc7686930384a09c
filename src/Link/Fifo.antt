-- ===== src/Link/Fifo.antt =====
-- impl/peer.hpp at both ends of a connection: where each accepted packet is.
use cpp_unix_domain_stream.Prelude.{
  ℕ, ◌≡◌, ap, sym, ◌∙◌, false, ◌⊎◌, inl, inr, none, List, [], ◌∷◌, ◌++◌, length, concat, All,
  All-append,
}
use mathlib.Core.Path.{subst}
use mathlib.Core.List.{append-nil, append_assoc}
use cpp_unix_domain_stream.Options.{CommonParameters}
use cpp_unix_domain_stream.Peer.State.{Peer, ReadOp, no_read, header_read, body_read}
use cpp_unix_domain_stream.Peer.Queue.{QueueInv}
use cpp_unix_domain_stream.Peer.Body.{BodyInv}
use cpp_unix_domain_stream.Link.Packets.{
  Packet, body, stream, stream-append, message, messages, messages-append, all_handed, HasId,
  FitsIn,
}
use cpp_unix_domain_stream.Link.Steps.{Link}

-- The bytes on the wire and those still to be written hold `rest`, but for what the receiver has
-- already taken of its first packet.
abbrev pub Unread : ReadOp → ℕ → List ℕ → List Packet → Type 0
Unread no_read n bytes rest = Unit {0}
Unread header_read n bytes rest = bytes ≡ stream rest
Unread body_read n bytes [] = ⊥
Unread body_read n bytes (m ∷ rest) = (bytes ≡ body m ++ stream rest) × (n ≡ length (body m))

pub record Fifo (ours theirs : CommonParameters) (l : Link) : Type 0 where
  pub queue : QueueInv l.sender
  pub own : BodyInv ours l.sender
  pub other : BodyInv theirs l.receiver
  -- The packets that the receiver has taken, and the others.
  pub taken : List Packet
  pub rest : List Packet
  pub missing : List ℕ
  pub split : l.sent ≡ taken ++ rest
  pub delivered : all_handed l.receiver.signals ≡ messages taken
  pub ids : All HasId rest
  pub fit : All (FitsIn theirs.max_message_size) rest
  pub unread : Unread l.receiver.read_op (length l.receiver.read_body) (l.wire ++ missing) rest
  pub unwritten :
      (missing ≡ concat l.sender.write_queue)
      ⊎ ((l.sender.write_op ≡ none) × (l.sender.is_open ≡ false))

Unread-append :
    (op : ReadOp) (n : ℕ) (bytes : List ℕ) (rest ms : List Packet)
    → Unread op n bytes rest
    → Unread op n (bytes ++ stream ms) (rest ++ ms)
Unread-append no_read n bytes rest ms u = tt
Unread-append header_read n bytes rest ms u =
    ap (λ b. b ++ stream ms) u ∙ sym (stream-append rest ms)
Unread-append body_read n bytes [] ms u = absurd u
Unread-append body_read n bytes (m ∷ rest) ms u = (
  ap (λ b. b ++ stream ms) u.0
      ∙ append_assoc (body m) (stream rest) (stream ms)
      ∙ ap (λ b. body m ++ b) (sym (stream-append rest ms)),
  u.1,
)

module _ (ours theirs : CommonParameters) (l : Link) (v : Fifo ours theirs l) where
  -- The sender accepts `ms`, and writes nothing.
  pub accept-Fifo :
      (s : Peer) (ms : List Packet)
      → QueueInv s
      → BodyInv ours s
      → All HasId ms
      → All (FitsIn theirs.max_message_size) ms
      → concat s.write_queue ≡ concat l.sender.write_queue ++ stream ms
      → ((l.sender.write_op ≡ none) × (l.sender.is_open ≡ false)
          → (ms ≡ []) × (s.write_op ≡ none) × (s.is_open ≡ false))
      → Fifo ours theirs (record l { sender = s; sent = l.sent ++ ms })
  accept-Fifo s ms q b ids fit e quiet = record {
    queue = q;
    own = b;
    other = v.other;
    taken = v.taken;
    rest = v.rest ++ ms;
    missing = v.missing ++ stream ms;
    split = ap (λ ps. ps ++ ms) v.split ∙ append_assoc v.taken v.rest ms;
    delivered = v.delivered;
    ids = All-append HasId v.rest ms v.ids ids;
    fit = All-append (FitsIn theirs.max_message_size) v.rest ms v.fit fit;
    unread = rw (← append_assoc l.wire v.missing (stream ms)) (
        Unread-append l.receiver.read_op (length l.receiver.read_body) (l.wire ++ v.missing) v.rest
          ms v.unread);
    unwritten = elim v.unwritten [
      | inl h ↦ inl (ap (λ b. b ++ stream ms) h ∙ sym e)
      | inr h ↦ inr ((quiet h).1, (quiet h).2)
    ];
  }

  -- The sender writes `part` of what is missing.
  pub write-Fifo :
      (s : Peer) (part missing : List ℕ)
      → QueueInv s
      → BodyInv ours s
      → v.missing ≡ part ++ missing
      → (missing ≡ concat s.write_queue) ⊎ ((s.write_op ≡ none) × (s.is_open ≡ false))
      → Fifo ours theirs (record l { sender = s; wire = l.wire ++ part })
  write-Fifo s part missing q b e u = record {
    queue = q;
    own = b;
    other = v.other;
    taken = v.taken;
    rest = v.rest;
    missing = missing;
    split = v.split;
    delivered = v.delivered;
    ids = v.ids;
    fit = v.fit;
    unread = rw (append_assoc l.wire part missing, ← e) v.unread;
    unwritten = u;
  }

  -- The receiver reads nothing, or a part of its next packet.
  pub read-Fifo :
      (r : Peer) (wire : List ℕ)
      → BodyInv theirs r
      → all_handed r.signals ≡ all_handed l.receiver.signals
      → Unread r.read_op (length r.read_body) (wire ++ v.missing) v.rest
      → Fifo ours theirs (record l { receiver = r; wire = wire })
  read-Fifo r wire b h u = record {
    queue = v.queue;
    own = v.own;
    other = b;
    taken = v.taken;
    rest = v.rest;
    missing = v.missing;
    split = v.split;
    delivered = h ∙ v.delivered;
    ids = v.ids;
    fit = v.fit;
    unread = u;
    unwritten = v.unwritten;
  }

  -- The receiver takes its next packet.
  pub take-Fifo :
      (r : Peer) (wire : List ℕ) (m : Packet) (rest : List Packet)
      → v.rest ≡ m ∷ rest
      → BodyInv theirs r
      → all_handed r.signals ≡ all_handed l.receiver.signals ++ message m
      → Unread r.read_op (length r.read_body) (wire ++ v.missing) rest
      → Fifo ours theirs (record l { receiver = r; wire = wire })
  take-Fifo r wire m rest e b h u = record {
    queue = v.queue;
    own = v.own;
    other = b;
    taken = v.taken ++ (m ∷ []);
    rest = rest;
    missing = v.missing;
    split = v.split ∙ ap (λ ps. v.taken ++ ps) e ∙ sym (append_assoc v.taken (m ∷ []) rest);
    delivered =
        h
        ∙ ap (λ ms. ms ++ message m) v.delivered
        ∙ ap (λ ms. messages v.taken ++ ms) (sym (append-nil (message m)))
        ∙ sym (messages-append v.taken (m ∷ []));
    ids = (subst (All HasId) e v.ids).1;
    fit = (subst (All (FitsIn theirs.max_message_size)) e v.fit).1;
    unread = u;
    unwritten = v.unwritten;
  }
