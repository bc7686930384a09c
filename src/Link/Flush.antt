-- ===== src/Link/Flush.antt =====
-- impl/peer.hpp at both ends of a connection: the writes that empty the sender's queue, and reads of
-- what is on the wire.
use cpp_unix_domain_stream.Prelude.{
  ℕ, zero, suc, ◌≡◌, refl, ap, sym, ◌∙◌, true, ◌⊎◌, inl, inr, Option, none, some, List, [], ◌∷◌,
  ◌++◌, length, head?, concat, success, arith,
}
use mathlib.Core.List.{append-nil, append_assoc}
use cpp_unix_domain_stream.Peer.State.{Peer, close, close_socket}
use cpp_unix_domain_stream.Peer.Write.{on_write, write}
use cpp_unix_domain_stream.Peer.Stream.{turn, turns}
use cpp_unix_domain_stream.Link.Steps.{Link, writes, reads, Reach, next}

-- The outstanding write, when it succeeds.
abbrev pub complete_write : Option (List ℕ) → Link → Link
complete_write none l = l
complete_write (some buffer) l = record l {
  sender = on_write success l.sender;
  wire = l.wire ++ buffer;
}

unfoldable pub flush : ℕ → Link → Link
flush zero l = l
flush (suc n) l = flush n (complete_write l.sender.write_op l)

unfoldable pub receive_from : ℕ → Link → Link
receive_from n l =
    let (wire, receiver) = turns n l.wire l.receiver in
    record l { wire = wire; receiver = receiver }

complete_write-Reach :
    {a : Link} (op : Option (List ℕ)) (l : Link)
    → l.sender.write_op ≡ op
    → Reach a l
    → Reach a (complete_write op l)
complete_write-Reach none l e r = r
complete_write-Reach (some buffer) l e r = next r (writes l buffer e)

pub flush-Reach : {a : Link} (n : ℕ) (l : Link) → Reach a l → Reach a (flush n l)
unfolding flush
flush-Reach zero l r = r
flush-Reach (suc n) l r =
    flush-Reach n (complete_write l.sender.write_op l)
      (complete_write-Reach l.sender.write_op l refl r)

pub receive_from-Reach : {a : Link} (n : ℕ) (l : Link) → Reach a l → Reach a (receive_from n l)
unfolding receive_from turns
receive_from-Reach zero l r = r
receive_from-Reach (suc n) l r =
    let (wire, receiver) = turn l.receiver.read_op l.wire l.receiver in
    receive_from-Reach n (record l { wire = wire; receiver = receiver }) (next r (reads l))

on_write-front :
    (buffer : List ℕ) (queue : List (List ℕ)) (p : Peer)
    → p.write_queue ≡ buffer ∷ queue
    → p.is_open ≡ true
    → let q = on_write success p in
      (q.write_queue ≡ queue) × (q.write_op ≡ head? queue) × ((q.is_open ≡ true) ⊎ (queue ≡ []))
unfolding on_write write close close_socket
on_write-front buffer queue p e o = ground arith

pub flush_lem :
    (queue : List (List ℕ)) (l : Link)
    → l.sender.write_queue ≡ queue
    → l.sender.write_op ≡ head? queue
    → (l.sender.is_open ≡ true) ⊎ (queue ≡ [])
    → let l' = flush (length queue) l in
      (l'.wire ≡ l.wire ++ concat queue)
      × (l'.receiver ≡ l.receiver)
      × (l'.sent ≡ l.sent)
      × (l'.sender.write_queue ≡ [])
unfolding flush
flush_lem [] l e h o = (sym (append-nil l.wire), refl, refl, e)
flush_lem (b ∷ queue) l e h o =
    let open_socket : l.sender.is_open ≡ true = elim o [ inl t ↦ t | inr t ↦ absurd cc ] in
    let (left, writing, still) = on_write-front b queue l.sender e open_socket in
    let next = record l { sender = on_write success l.sender; wire = l.wire ++ b } in
    let (wire, receiver, sent, empty) = flush_lem queue next left writing still in
    let first = ap (λ op. flush (length queue) (complete_write op l)) h in
    rw first (wire ∙ append_assoc l.wire b (concat queue), receiver, sent, empty)
