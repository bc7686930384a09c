-- ===== src/RequestManager/Empty.antt =====
-- impl/request_manager.hpp: a manager without pending requests.
use cpp_unix_domain_stream.Prelude.{ℕ, ◌≡◌, ap, Option, none, List, [], arith, ErrorCode}
use cpp_unix_domain_stream.RequestManager.{
  RequestManager, complete, complete_of_peer, complete_peer, complete_peer_loop, on_timer, find,
  remove, complete_request,
}

-- A completion finds nothing.
pub complete-empty :
    (id : ℕ) (e : ErrorCode) (body : Option (List ℕ)) (m : RequestManager)
    → m.pending_requests ≡ []
    → (complete id e body m).pending_requests ≡ []
unfolding complete complete_request find remove
complete-empty id e body m h = ground arith

pub complete_of_peer-empty :
    (peer id : ℕ) (e : ErrorCode) (body : Option (List ℕ)) (m : RequestManager)
    → m.pending_requests ≡ []
    → (complete_of_peer peer id e body m).pending_requests ≡ []
unfolding complete_of_peer
complete_of_peer-empty peer id e body m h = ground (arith, complete-empty id e body m h)

pub complete_peer-empty :
    (id : ℕ) (e : ErrorCode) (m : RequestManager)
    → m.pending_requests ≡ []
    → (complete_peer id e m).pending_requests ≡ []
unfolding complete_peer complete_peer_loop
complete_peer-empty id e m h = ap (λ ps. (complete_peer_loop id e ps m).pending_requests) h

pub on_timer-empty :
    (id : ℕ) (e : ErrorCode) (m : RequestManager)
    → m.pending_requests ≡ []
    → (on_timer id e m).0.pending_requests ≡ []
unfolding on_timer
on_timer-empty id e m h = ground (arith, complete-empty id ErrorCode.timed_out none m h)
