-- ===== src/RequestManager/Accounting.antt =====
-- impl/request_manager.hpp: how often callbacks are registered, pending and called.
use cpp_unix_domain_stream.Prelude.{
  ℕ, ◌+◌, ◌^◌, ◌<◌, ◌≡◌, refl, false, Option, none, some, List, [], ◌∷◌, ◌++◌, ◌==◌, if◌then◌else◌,
  length, count, count-append, filterb, not, sym, map, ◌∙◌, ErrorCode, arith, is_this, Option-cases,
  inl, inr, Bool-cases,
}
use cpp_unix_domain_stream.RequestManager.{
  PendingRequest, Completion, RequestManager, find, remove, next_id, add, complete_request,
  complete, complete_of_peer, complete_peer_loop, complete_peer, complete_all_loop, complete_all,
  on_timer,
}
use mathlib.Core.List.{append-nil, append_assoc}
use cpp_unix_domain_stream.RequestManager.Calls.{
  ManagerCall, adds, completes, completes_of_peer, completes_peer, completes_all, timer_fires, call,
  calls,
}
use cpp_unix_domain_stream.RequestManager.Ids.{
  IsFresh, find_above, find-remove, pending-complete_peer_loop, pending-complete_all_loop,
  next-call, call-IsFresh,
}

abbrev pub pending_of : ℕ → List (ℕ × PendingRequest) → ℕ
pending_of c = count (λ e. e.1.callback == c)

abbrev pub completed_of : ℕ → List Completion → ℕ
completed_of c = count (λ d. d.callback == c)

-- How often callback `c` was called or is still owed a call.
abbrev pub owed : ℕ → RequestManager → ℕ
owed c m = completed_of c m.completions + pending_of c m.pending_requests

-- How often a history registers callback `c`.
abbrev pub registered : ℕ → List ManagerCall → ℕ
registered c [] = 0
registered c (adds peer callback ∷ cs) = (if callback == c then 1 else 0) + registered c cs
registered c (_ ∷ cs) = registered c cs

pending_of-remove :
    (c id : ℕ) (pending : List (ℕ × PendingRequest)) (r : PendingRequest)
    → find id pending ≡ some r
    → pending_of c pending ≡ (if r.callback == c then 1 else 0) + pending_of c (remove id pending)
unfolding find remove
pending_of-remove c id [] r h = cc
pending_of-remove c id ((k, x) ∷ rest) r h = ground (arith, pending_of-remove c id rest r)

completed_of-complete_request :
    (c : ℕ) (r : PendingRequest) (e : ErrorCode) (body : Option (List ℕ)) (m : RequestManager)
    → completed_of c (complete_request r e body m).completions
      ≡ (if r.callback == c then 1 else 0) + completed_of c m.completions
unfolding complete_request
completed_of-complete_request c r e body m = ground (
  arith,
  count-append (λ (d : Completion). d.callback == c) m.completions
      (record { callback = r.callback; error_code = e; body = body } ∷ []),
)

owed-complete :
    (c id : ℕ) (e : ErrorCode) (body : Option (List ℕ)) (m : RequestManager)
    → owed c (complete id e body m) ≡ owed c m
unfolding complete
owed-complete c id e body m = elim (Option-cases (find id m.pending_requests)) [
  | inl h ↦ rw (h, complete)
  | inr (r, h) ↦
      rw (h, complete)
        (omega (
          arith,
          completed_of-complete_request c r e body
              (record m { pending_requests = remove id m.pending_requests }),
          pending_of-remove c id m.pending_requests r h,
        ))
]

owed-complete_peer_loop :
    (c peer : ℕ) (e : ErrorCode) (pending : List (ℕ × PendingRequest)) (m : RequestManager)
    → owed c (complete_peer_loop peer e pending m)
      ≡ completed_of c m.completions + pending_of c pending
unfolding complete_peer_loop
owed-complete_peer_loop c peer e [] m = refl
owed-complete_peer_loop c peer e ((k, r) ∷ rest) m =
    elim (Bool-cases (is_this r.peer_id_value peer)) [
      | inl h ↦ rw h (
          ground (
            arith,
            owed-complete_peer_loop c peer e rest (complete_request r e none m),
            completed_of-complete_request c r e none m,
          ))
      | inr h ↦ rw h (ground (arith, owed-complete_peer_loop c peer e rest m))
    ]

completed_of-complete_all_loop :
    (c : ℕ) (e : ErrorCode) (pending : List (ℕ × PendingRequest)) (m : RequestManager)
    → completed_of c (complete_all_loop e pending m).completions
      ≡ completed_of c m.completions + pending_of c pending
unfolding complete_all_loop
completed_of-complete_all_loop c e [] m = omega arith
completed_of-complete_all_loop c e ((k, r) ∷ rest) m = ground (
  arith,
  completed_of-complete_all_loop c e rest (complete_request r e none m),
  completed_of-complete_request c r e none m,
)

owed-complete_all :
    (c : ℕ) (e : ErrorCode) (m : RequestManager) → owed c (complete_all e m) ≡ owed c m
unfolding complete_all
owed-complete_all c e m =
    rw (pending-complete_all_loop e m.pending_requests (record m { pending_requests = [] })) (
      omega (
        arith,
        completed_of-complete_all_loop c e m.pending_requests (record m { pending_requests = [] }),
      ))

owed-add :
    (c : ℕ) (peer : Option ℕ) (callback : ℕ) (m : RequestManager)
    → IsFresh m
    → m.next_request_id + 1 < 2 ^ 64
    → owed c (add peer callback m).0 ≡ (if callback == c then 1 else 0) + owed c m
unfolding add
owed-add c peer callback m f h =
    rw (find_above (next_id m) (m.next_request_id + 1) m.pending_requests f (omega arith), add)
      (ground arith)

owed-call :
    (c : ℕ) (m : RequestManager) (k : ManagerCall)
    → IsFresh m
    → m.next_request_id + 1 < 2 ^ 64
    → owed c (call m k) ≡ registered c (k ∷ []) + owed c m
unfolding call complete_of_peer complete_peer on_timer
owed-call c m (adds peer callback) f h = omega (arith, owed-add c peer callback m f h)
owed-call c m (completes id e body) f h = omega (arith, owed-complete c id e body m)
owed-call c m (completes_of_peer peer id e body) f h = ground (arith, owed-complete c id e body m)
owed-call c m (completes_peer peer e) f h =
    omega (arith, owed-complete_peer_loop c peer e m.pending_requests m)
owed-call c m (completes_all e) f h = omega (arith, owed-complete_all c e m)
owed-call c m (timer_fires id e) f h = ground (arith, owed-complete c id ErrorCode.timed_out none m)

-- Over any history of calls that starts from a manager whose ids are fresh, and that is shorter than
-- the ids left, a callback has been called or is pending as often as before, and once more for each
-- time that it was registered: no completion is lost and none is made twice.
pub owed-calls :
    (c : ℕ) (m : RequestManager) (cs : List ManagerCall)
    → IsFresh m
    → m.next_request_id + length cs < 2 ^ 64
    → owed c (calls m cs) ≡ registered c cs + owed c m
unfolding calls
owed-calls c m [] f h = omega arith
owed-calls c m (k ∷ cs) f h = ground (
  arith,
  owed-call c m k f (omega arith),
  owed-calls c (call m k) cs (call-IsFresh m k f (omega arith))
      (omega (arith, next-call m k (omega arith))),
)

-- The completions of a list of requests that fail.
abbrev pub failures : ErrorCode → List (ℕ × PendingRequest) → List Completion
failures e = map λ x. record { callback = x.1.callback; error_code = e; body = none }

completions-complete_peer_loop :
    (peer : ℕ) (e : ErrorCode) (pending : List (ℕ × PendingRequest)) (m : RequestManager)
    → (complete_peer_loop peer e pending m).completions
      ≡ m.completions ++ failures e (filterb (λ x. is_this x.1.peer_id_value peer) pending)
unfolding complete_peer_loop complete_request
completions-complete_peer_loop peer e [] m = sym (append-nil m.completions)
completions-complete_peer_loop peer e ((k, r) ∷ rest) m =
    elim (Bool-cases (is_this r.peer_id_value peer)) [
      | inl h ↦ rw h (
          completions-complete_peer_loop peer e rest (complete_request r e none m)
          ∙ append_assoc m.completions _ _)
      | inr h ↦ rw h (completions-complete_peer_loop peer e rest m)
    ]

find-complete :
    (id : ℕ) (e : ErrorCode) (body : Option (List ℕ)) (m : RequestManager)
    → IsFresh m
    → find id (complete id e body m).pending_requests ≡ none
unfolding complete complete_request
find-complete id e body m f = elim (Option-cases (find id m.pending_requests)) [
  | inl h ↦ rw (h, complete) h
  | inr (r, h) ↦ rw (h, complete) (find-remove id (m.next_request_id + 1) m.pending_requests f)
]

-- What `complete_peer` does: the pending requests of the other peers stay, in order, and the callback
-- of each request of the peer is called with the error and no body.
pub complete_peer_lem :
    (peer : ℕ) (e : ErrorCode) (m : RequestManager)
    → ((complete_peer peer e m).pending_requests
        ≡ filterb (λ x. not (is_this x.1.peer_id_value peer)) m.pending_requests)
      × ((complete_peer peer e m).completions
          ≡ m.completions
            ++ failures e (filterb (λ x. is_this x.1.peer_id_value peer) m.pending_requests))
unfolding complete_peer
complete_peer_lem peer e m = (
  pending-complete_peer_loop peer e m.pending_requests m,
  completions-complete_peer_loop peer e m.pending_requests m,
)

-- Once a request of a manager whose ids are fresh is completed, its timer and late responses find
-- nothing: neither changes the manager, and the owner's timeout callback is not called.
pub complete_once :
    (id : ℕ) (e late : ErrorCode) (body late_body : Option (List ℕ)) (m : RequestManager)
    → IsFresh m
    → let m' = complete id e body m in
      (on_timer id late m' ≡ (m', false)) × (complete id late late_body m' ≡ m')
complete_once id e late body late_body m f =
    let gone = find-complete id e body m f in
    (unfold on_timer in ground (arith, gone), unfold complete in rw (gone, complete))
