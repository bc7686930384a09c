-- ===== src/RequestManager/Ids.antt =====
-- impl/request_manager.hpp: the ids in the map of pending requests.
use cpp_unix_domain_stream.Prelude.{
  ℕ, ◌+◌, ◌^◌, ◌≤◌, ◌<◌, ◌≡◌, refl, Bool, Option, none, List, [], ◌∷◌, filterb, not, ap, ErrorCode,
  arith, is_this, Option-cases, ◌⊎◌, inl, inr, Bool-cases,
}
use cpp_unix_domain_stream.RequestManager.{
  PendingRequest, RequestManager, find, remove, emplace, next_id, add, complete_request, complete,
  complete_of_peer, complete_peer_loop, complete_peer, complete_all_loop, complete_all, on_timer,
  belongs_to,
}
use cpp_unix_domain_stream.RequestManager.Calls.{
  ManagerCall, adds, completes, completes_of_peer, completes_peer, completes_all, timer_fires, call,
}

-- The ids fall along the list and stay under the bound: `add` puts each new one in front.
abbrev pub Descends : ℕ → List (ℕ × PendingRequest) → Type 0
Descends n [] = Unit {0}
Descends n ((k, r) ∷ rest) = (k < n) × Descends k rest

abbrev pub IsFresh : RequestManager → Type 0
IsFresh m = Descends (m.next_request_id + 1) m.pending_requests

Descends-mono :
    (m n : ℕ) (pending : List (ℕ × PendingRequest))
    → m ≤ n
    → Descends m pending
    → Descends n pending
Descends-mono m n [] h f = tt
Descends-mono m n ((k, r) ∷ rest) h f = (omega arith, f.1)

pub find_above :
    (id n : ℕ) (pending : List (ℕ × PendingRequest))
    → Descends n pending
    → n ≤ id
    → find id pending ≡ none
unfolding find
find_above id n [] f h = refl
find_above id n ((k, r) ∷ rest) f h = ground (arith, find_above id k rest f.1)

pub find-remove :
    (id n : ℕ) (pending : List (ℕ × PendingRequest))
    → Descends n pending
    → find id (remove id pending) ≡ none
unfolding find remove
find-remove id n [] f = refl
find-remove id n ((k, r) ∷ rest) f =
    ground (arith, find_above id k rest f.1, find-remove id k rest f.1)

remove-Descends :
    (id n : ℕ) (pending : List (ℕ × PendingRequest))
    → Descends n pending
    → Descends n (remove id pending)
unfolding remove
remove-Descends id n [] f = tt
remove-Descends id n ((k, r) ∷ rest) f =
    ground (arith, remove-Descends id k rest f.1, Descends-mono k n rest)

filterb-Descends :
    (p : ℕ × PendingRequest → Bool) (n : ℕ) (pending : List (ℕ × PendingRequest))
    → Descends n pending
    → Descends n (filterb p pending)
filterb-Descends p n [] f = tt
filterb-Descends p n ((k, r) ∷ rest) f =
    ground (arith, filterb-Descends p k rest f.1, Descends-mono k n (filterb p rest))

-- The loop keeps exactly the requests of the other peers, in their order.
pub pending-complete_peer_loop :
    (peer : ℕ) (e : ErrorCode) (pending : List (ℕ × PendingRequest)) (m : RequestManager)
    → (complete_peer_loop peer e pending m).pending_requests
      ≡ filterb (λ x. not (is_this x.1.peer_id_value peer)) pending
unfolding complete_peer_loop
pending-complete_peer_loop peer e [] m = refl
pending-complete_peer_loop peer e ((k, r) ∷ rest) m =
    elim (Bool-cases (is_this r.peer_id_value peer)) [
      | inl h ↦ rw h (pending-complete_peer_loop peer e rest (complete_request r e none m))
      | inr h ↦ rw h (ap (◌∷◌ (k, r)) (pending-complete_peer_loop peer e rest m))
    ]

next-complete_peer_loop :
    (peer : ℕ) (e : ErrorCode) (pending : List (ℕ × PendingRequest)) (m : RequestManager)
    → (complete_peer_loop peer e pending m).next_request_id ≡ m.next_request_id
unfolding complete_peer_loop complete_request
next-complete_peer_loop peer e [] m = refl
next-complete_peer_loop peer e ((k, r) ∷ rest) m =
    elim (Bool-cases (is_this r.peer_id_value peer)) [
      | inl h ↦ rw h (next-complete_peer_loop peer e rest (complete_request r e none m))
      | inr h ↦ rw h (next-complete_peer_loop peer e rest m)
    ]

pub pending-complete_all_loop :
    (e : ErrorCode) (pending : List (ℕ × PendingRequest)) (m : RequestManager)
    → (complete_all_loop e pending m).pending_requests ≡ m.pending_requests
unfolding complete_all_loop complete_request
pending-complete_all_loop e [] m = refl
pending-complete_all_loop e ((k, r) ∷ rest) m =
    pending-complete_all_loop e rest (complete_request r e none m)

pub pending-complete_all :
    (e : ErrorCode) (m : RequestManager) → (complete_all e m).pending_requests ≡ []
unfolding complete_all
pending-complete_all e m =
    pending-complete_all_loop e m.pending_requests (record m { pending_requests = [] })

next-complete_all_loop :
    (e : ErrorCode) (pending : List (ℕ × PendingRequest)) (m : RequestManager)
    → (complete_all_loop e pending m).next_request_id ≡ m.next_request_id
unfolding complete_all_loop complete_request
next-complete_all_loop e [] m = refl
next-complete_all_loop e ((k, r) ∷ rest) m =
    next-complete_all_loop e rest (complete_request r e none m)

next-complete :
    (id : ℕ) (e : ErrorCode) (body : Option (List ℕ)) (m : RequestManager)
    → (complete id e body m).next_request_id ≡ m.next_request_id
unfolding complete
next-complete id e body m = ground arith

-- Only `add` gives out an id, and it gives out the next one.
pub next-call :
    (m : RequestManager) (k : ManagerCall)
    → m.next_request_id + 1 < 2 ^ 64
    → (m.next_request_id ≤ (call m k).next_request_id)
      × ((call m k).next_request_id ≤ m.next_request_id + 1)
unfolding call complete_of_peer complete_peer complete_all on_timer add
next-call m (adds peer callback) h = omega arith
next-call m (completes id e body) h = omega (arith, next-complete id e body m)
next-call m (completes_of_peer peer id e body) h = ground (arith, next-complete id e body m)
next-call m (completes_peer peer e) h =
    omega (arith, next-complete_peer_loop peer e m.pending_requests m)
next-call m (completes_all e) h =
    omega (arith, next-complete_all_loop e m.pending_requests (record m { pending_requests = [] }))
next-call m (timer_fires id e) h = ground (arith, next-complete id ErrorCode.timed_out none m)

complete-Descends :
    (n id : ℕ) (e : ErrorCode) (body : Option (List ℕ)) (m : RequestManager)
    → Descends n m.pending_requests
    → Descends n (complete id e body m).pending_requests
unfolding complete complete_request
complete-Descends n id e body m f = elim (Option-cases (find id m.pending_requests)) [
  | inl h ↦ rw (h, complete) f
  | inr (r, h) ↦ rw (h, complete) (remove-Descends id n m.pending_requests f)
]

on_timer_cases :
    (id : ℕ) (e : ErrorCode) (m : RequestManager)
    → ((on_timer id e m).0 ≡ complete id ErrorCode.timed_out none m) ⊎ ((on_timer id e m).0 ≡ m)
unfolding on_timer
on_timer_cases id e m = ground arith

-- Every call keeps the ids of the map distinct and given out.
pub call-IsFresh :
    (m : RequestManager) (k : ManagerCall)
    → IsFresh m
    → m.next_request_id + 1 < 2 ^ 64
    → IsFresh (call m k)
unfolding call complete_of_peer complete_peer complete_all
call-IsFresh m (adds peer callback) f h =
    unfold add in
    rw (find_above (next_id m) (m.next_request_id + 1) m.pending_requests f (omega arith), emplace)
      (
        omega arith,
        Descends-mono (m.next_request_id + 1) (next_id m) m.pending_requests (omega arith) f,
      )
call-IsFresh m (completes id e body) f h =
    rw (next-complete id e body m) (complete-Descends (m.next_request_id + 1) id e body m f)
call-IsFresh m (completes_of_peer peer id e body) f h =
    elim (Bool-cases (belongs_to (find id m.pending_requests) peer)) [
      | inl t ↦
          rw (t, next-complete id e body m)
            (complete-Descends (m.next_request_id + 1) id e body m f)
      | inr t ↦ rw t f
    ]
call-IsFresh m (completes_peer peer e) f h =
    rw
      (
        pending-complete_peer_loop peer e m.pending_requests m,
        next-complete_peer_loop peer e m.pending_requests m,
      )
      (filterb-Descends _ (m.next_request_id + 1) m.pending_requests f)
call-IsFresh m (completes_all e) f h =
    rw (pending-complete_all_loop e m.pending_requests (record m { pending_requests = [] })) tt
call-IsFresh m (timer_fires id e) f h = elim (on_timer_cases id e m) [
  | inl t ↦
      rw (t, next-complete id ErrorCode.timed_out none m)
        (complete-Descends (m.next_request_id + 1) id ErrorCode.timed_out none m f)
  | inr t ↦ rw t f
]
