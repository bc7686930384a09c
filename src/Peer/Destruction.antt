-- ===== src/Peer/Destruction.antt =====
-- impl/peer.hpp: the destructor of a peer, which insists on an earlier close.
use cpp_unix_domain_stream.Prelude.{◌≡◌, false, ltb, if◌then◌else◌, count, arith}
use cpp_unix_domain_stream.Options.{CommonParameters}
use cpp_unix_domain_stream.Peer.State.{Peer, aborts, detaches, destroy_peer, close, new_peer}
use cpp_unix_domain_stream.Peer.Events.{Reach}
use cpp_unix_domain_stream.Peer.Signals.{
  is_closed, SignalsInOrder, close-InOrder, new_peer-InOrder, Reach-InOrder,
}
use cpp_unix_domain_stream.Peer.Closed.{peer-Closed}

closed-close : (p : Peer) → (close p).is_open ≡ false
unfolding close
closed-close p = ground arith

destroy_peer-closed : (p : Peer) → SignalsInOrder p → p.is_open ≡ false → destroy_peer p ≡ detaches
unfolding destroy_peer
destroy_peer-closed p v h = ground (arith, v)

destroy_peer-signals :
    (p : Peer)
    → SignalsInOrder p
    → destroy_peer p ≡ (if ltb 0 (count is_closed p.signals) then detaches else aborts)
unfolding destroy_peer
destroy_peer-signals p v = ground (arith, v)

-- Whatever happens to a new peer, its destruction aborts exactly when the peer has not emitted
-- `closed`; after a close, whatever happens then, its destruction does not abort.
pub peer_destruction :
    (options : CommonParameters) (q r : Peer)
    → Reach (new_peer options) q
    → Reach (close q) r
    → (destroy_peer q ≡ (if ltb 0 (count is_closed q.signals) then detaches else aborts))
      × (destroy_peer r ≡ detaches)
peer_destruction options q r before after =
    let v = Reach-InOrder (new_peer-InOrder options) before in
    let c = peer-Closed (close q) r (closed-close q) after in
    (
      destroy_peer-signals q v,
      destroy_peer-closed r (Reach-InOrder (close-InOrder q v) after) c.shut,
    )
