-- ===== src/RequestManager.antt =====
-- impl/request_manager.hpp: requests that wait for a response.
-- `std::unordered_map` is an association list; its iteration order is the order of the list.
-- `completions` holds the callbacks handed to the dispatcher, each with its arguments, the oldest
-- first; `cancelled_timers` the timers on which `cancel` was called. A callback, which the program
-- only stores and calls, is a number that names it, and so is a timer.
pub mod Calls
pub mod Ids
pub mod Empty
pub mod Accounting
use cpp_unix_domain_stream.Prelude.{
  ℕ, ◌+◌, ◌%◌, ◌^◌, Bool, true, false, not, ◌&&◌, Option, none, some, List, [], ◌∷◌, ◌++◌, ◌==◌,
  if◌then◌else◌, is_this, is_some, ErrorCode, success, timed_out, is_error,
}

pub record PendingRequest : Type 0 where
  pub peer_id_value : Option ℕ
  pub callback : ℕ
  pub timer : ℕ

pub record Completion : Type 0 where
  pub callback : ℕ
  pub error_code : ErrorCode
  pub body : Option (List ℕ)

pub record RequestManager : Type 0 where
  pub next_request_id : ℕ
  pub pending_requests : List (ℕ × PendingRequest)
  pub completions : List Completion
  pub cancelled_timers : List ℕ

unfoldable pub initial_manager : RequestManager
initial_manager = record {
  next_request_id = 0;
  pending_requests = [];
  completions = [];
  cancelled_timers = [];
}

unfoldable pub find : ℕ → List (ℕ × PendingRequest) → Option PendingRequest
find id [] = none
find id ((k, r) ∷ rest) = if k == id then some r else find id rest

unfoldable pub remove : ℕ → List (ℕ × PendingRequest) → List (ℕ × PendingRequest)
remove id [] = []
remove id ((k, r) ∷ rest) = if k == id then rest else (k, r) ∷ remove id rest

-- `emplace`: an id that is present already keeps its request.
unfoldable pub emplace : ℕ → PendingRequest → List (ℕ × PendingRequest) → List (ℕ × PendingRequest)
unfolding find
emplace id r pending = if is_some (find id pending) then pending else (id, r) ∷ pending

-- The id of the request that `add` registers next: `++next_request_id_` on a uint64_t.
abbrev pub next_id : RequestManager → ℕ
next_id m = (m.next_request_id + 1) % 2 ^ 64

-- Also returns the id. The new timer is named by it.
unfoldable pub add : Option ℕ → ℕ → RequestManager → RequestManager × ℕ
unfolding emplace
add peer_id_value callback m =
    let id = next_id m in
    (
      record m {
        next_request_id = id;
        pending_requests =
            emplace id (record { peer_id_value = peer_id_value; callback = callback; timer = id })
              m.pending_requests;
      },
      id,
    )

unfoldable pub complete_request :
    PendingRequest → ErrorCode → Option (List ℕ) → RequestManager → RequestManager
complete_request r error_code body m = record m {
  cancelled_timers = m.cancelled_timers ++ (r.timer ∷ []);
  completions =
      m.completions
      ++ (record { callback = r.callback; error_code = error_code; body = body } ∷ []);
}

-- `complete(id, …)`
unfoldable pub complete : ℕ → ErrorCode → Option (List ℕ) → RequestManager → RequestManager
unfolding find remove complete_request
complete id error_code body m = elim (find id m.pending_requests) [
  | none ↦ m
  | some r ↦
      complete_request r error_code body
        (record m { pending_requests = remove id m.pending_requests })
]

-- Whether `it->second.peer_id_value == id`.
abbrev pub belongs_to : Option PendingRequest → ℕ → Bool
belongs_to none peer = false
belongs_to (some r) peer = is_this r.peer_id_value peer

-- `complete(peer_id_value, id, …)`
unfoldable pub complete_of_peer :
    ℕ → ℕ → ErrorCode → Option (List ℕ) → RequestManager → RequestManager
unfolding complete find
complete_of_peer peer id error_code body m =
    if belongs_to (find id m.pending_requests) peer then complete id error_code body m else m

-- The loop of `complete_peer` over the map: a request of the peer is taken out and completed, any
-- other stays.
unfoldable pub complete_peer_loop :
    ℕ → ErrorCode → List (ℕ × PendingRequest) → RequestManager → RequestManager
unfolding complete_request
complete_peer_loop peer error_code [] m = record m { pending_requests = [] }
complete_peer_loop peer error_code ((k, r) ∷ rest) m =
    let hit = is_this r.peer_id_value peer in
    let m' =
      complete_peer_loop peer error_code rest
        (if hit then complete_request r error_code none m else m) in
    if hit then m' else record m' { pending_requests = (k, r) ∷ m'.pending_requests }

unfoldable pub complete_peer : ℕ → ErrorCode → RequestManager → RequestManager
unfolding complete_peer_loop
complete_peer peer error_code m = complete_peer_loop peer error_code m.pending_requests m

-- The loop of `complete_all` over the requests exchanged out of the map.
unfoldable pub complete_all_loop :
    ErrorCode → List (ℕ × PendingRequest) → RequestManager → RequestManager
unfolding complete_request
complete_all_loop error_code [] m = m
complete_all_loop error_code ((k, r) ∷ rest) m =
    complete_all_loop error_code rest (complete_request r error_code none m)

unfoldable pub complete_all : ErrorCode → RequestManager → RequestManager
unfolding complete_all_loop
complete_all error_code m =
    complete_all_loop error_code m.pending_requests (record m { pending_requests = [] })

-- The handler of a request's timer. The flag says whether the owner's `timeout_callback` is called.
unfoldable pub on_timer : ℕ → ErrorCode → RequestManager → RequestManager × Bool
unfolding complete find
on_timer id error_code m =
    if not (is_error error_code) && is_some (find id m.pending_requests)
    then (complete id timed_out none m, true)
    else (m, false)
