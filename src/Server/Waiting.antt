-- ===== src/Server/Waiting.antt =====
-- impl/request_manager.hpp as server.hpp uses it: pending requests and the map of peers.
use cpp_unix_domain_stream.Prelude.{
  ℕ, ◌≡◌, Bool, true, false, not, Option, none, some, List, [], ◌∷◌, ◌==◌, if◌then◌else◌, filterb,
  is_this, is_some, ErrorCode, arith, Option-cases, inl, inr,
}
use cpp_unix_domain_stream.RequestManager.{
  PendingRequest, RequestManager, add, remove, complete, complete_request, complete_of_peer,
  complete_peer, on_timer,
}
use cpp_unix_domain_stream.RequestManager
use cpp_unix_domain_stream.RequestManager.Ids.{pending-complete_peer_loop}
use cpp_unix_domain_stream.Server.Acceptor.{find, erase, emplace}

-- Whether the request is for a peer of the map.
abbrev pub is_known : List (ℕ × ℕ) → Option ℕ → Bool
is_known peers none = false
is_known peers (some id) = is_some (find id peers)

abbrev pub Waiting : List (ℕ × ℕ) → List (ℕ × PendingRequest) → Type 0
Waiting peers [] = Unit {0}
Waiting peers ((k, r) ∷ rest) = (is_known peers r.peer_id_value ≡ true) × Waiting peers rest

pub find-erase :
    (i id : ℕ) (peers : List (ℕ × ℕ))
    → find i (erase id peers) ≡ (if id == i then none else find i peers)
unfolding find erase
find-erase i id [] = ground arith
find-erase i id ((k, p) ∷ rest) = ground (arith, find-erase i id rest)

is_known-erase :
    (id : ℕ) (o : Option ℕ) (peers : List (ℕ × ℕ))
    → is_known peers o ≡ true
    → is_this o id ≡ false
    → is_known (erase id peers) o ≡ true
is_known-erase id none peers h g = cc
is_known-erase id (some i) peers h g = ground (arith, find-erase i id peers)

pub filterb-Waiting :
    (id : ℕ) (peers : List (ℕ × ℕ)) (pending : List (ℕ × PendingRequest))
    → Waiting peers pending
    → Waiting (erase id peers) (filterb (λ x. not (is_this x.1.peer_id_value id)) pending)
filterb-Waiting id peers [] w = tt
filterb-Waiting id peers ((k, r) ∷ rest) w =
    ground (arith, filterb-Waiting id peers rest w.1, is_known-erase id r.peer_id_value peers w.0)

filterb-Waiting_same :
    (p : ℕ × PendingRequest → Bool) (peers : List (ℕ × ℕ)) (pending : List (ℕ × PendingRequest))
    → Waiting peers pending
    → Waiting peers (filterb p pending)
filterb-Waiting_same p peers [] w = tt
filterb-Waiting_same p peers ((k, r) ∷ rest) w =
    ground (arith, filterb-Waiting_same p peers rest w.1)

is_known-emplace :
    (id p : ℕ) (o : Option ℕ) (peers : List (ℕ × ℕ))
    → is_known peers o ≡ true
    → is_known (emplace id p peers) o ≡ true
unfolding emplace find
is_known-emplace id p none peers h = h
is_known-emplace id p (some i) peers h = ground arith

pub emplace-Waiting :
    (id p : ℕ) (peers : List (ℕ × ℕ)) (pending : List (ℕ × PendingRequest))
    → Waiting peers pending
    → Waiting (emplace id p peers) pending
emplace-Waiting id p peers [] w = tt
emplace-Waiting id p peers ((k, r) ∷ rest) w =
    (is_known-emplace id p r.peer_id_value peers w.0, emplace-Waiting id p peers rest w.1)

remove-Waiting :
    (id : ℕ) (peers : List (ℕ × ℕ)) (pending : List (ℕ × PendingRequest))
    → Waiting peers pending
    → Waiting peers (remove id pending)
unfolding remove
remove-Waiting id peers [] w = tt
remove-Waiting id peers ((k, r) ∷ rest) w = ground (arith, remove-Waiting id peers rest w.1)

complete-Waiting :
    (id : ℕ) (e : ErrorCode) (body : Option (List ℕ)) (peers : List (ℕ × ℕ)) (m : RequestManager)
    → Waiting peers m.pending_requests
    → Waiting peers (complete id e body m).pending_requests
unfolding complete complete_request
complete-Waiting id e body peers m w =
    elim (Option-cases (RequestManager.find id m.pending_requests)) [
      | inl h ↦ rw (h, complete) w
      | inr (r, h) ↦ rw (h, complete) (remove-Waiting id peers m.pending_requests w)
    ]

pub complete_of_peer-Waiting :
    (peer id : ℕ) (e : ErrorCode) (body : Option (List ℕ)) (peers : List (ℕ × ℕ))
    (m : RequestManager)
    → Waiting peers m.pending_requests
    → Waiting peers (complete_of_peer peer id e body m).pending_requests
unfolding complete_of_peer
complete_of_peer-Waiting peer id e body peers m w =
    ground (arith, complete-Waiting id e body peers m w)

pub on_timer-Waiting :
    (id : ℕ) (e : ErrorCode) (peers : List (ℕ × ℕ)) (m : RequestManager)
    → Waiting peers m.pending_requests
    → Waiting peers (on_timer id e m).0.pending_requests
unfolding on_timer
on_timer-Waiting id e peers m w =
    ground (arith, complete-Waiting id ErrorCode.timed_out none peers m w)

pub complete_peer-Waiting :
    (id : ℕ) (e : ErrorCode) (peers : List (ℕ × ℕ)) (m : RequestManager)
    → Waiting peers m.pending_requests
    → Waiting peers (complete_peer id e m).pending_requests
unfolding complete_peer
complete_peer-Waiting id e peers m w =
    rw (pending-complete_peer_loop id e m.pending_requests m)
      (filterb-Waiting_same (λ x. not (is_this x.1.peer_id_value id)) peers m.pending_requests w)

-- The peer leaves the map when its requests are failed.
pub complete_peer-Waiting-erase :
    (id : ℕ) (e : ErrorCode) (peers : List (ℕ × ℕ)) (m : RequestManager)
    → Waiting peers m.pending_requests
    → Waiting (erase id peers) (complete_peer id e m).pending_requests
unfolding complete_peer
complete_peer-Waiting-erase id e peers m w =
    rw (pending-complete_peer_loop id e m.pending_requests m)
      (filterb-Waiting id peers m.pending_requests w)

pub add-Waiting :
    (peer callback : ℕ) (peers : List (ℕ × ℕ)) (m : RequestManager)
    → is_known peers (some peer) ≡ true
    → Waiting peers m.pending_requests
    → Waiting peers (add (some peer) callback m).0.pending_requests
unfolding add RequestManager.emplace
add-Waiting peer callback peers m h w = ground arith
