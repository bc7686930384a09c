-- ===== src/Server/Exposure.antt =====
-- server.hpp: the signals about one peer and the set of exposed peers, handler by handler.
use cpp_unix_domain_stream.Prelude.{
  ℕ, suc, ◌+◌, ◌≤◌, ◌<◌, ◌≡◌, refl, Bool, true, false, List, [], ◌∷◌, ◌++◌, ◌==◌, ltb,
  if◌then◌else◌, count, count-append, All, All-append, arith, inl, inr, Bool-cases, ==_iff,
}
use cpp_unix_domain_stream.Credentials.{PeerCredentials}
use cpp_unix_domain_stream.Server.State.{
  Server, ServerSignal, bound, bind_failed, closed, peer_connected, peer_closed,
  peer_error_occurred, received, request_received, emit, Notice, notify_bound, notify_bind_failed,
  notify_closed, verify,
}
use cpp_unix_domain_stream.Server.Peers.{contains, insert_id, erase_id, notify_peer_closed}
use cpp_unix_domain_stream.Server.Tasks.{if_exposed, run_notice}
use cpp_unix_domain_stream.Server.HealthCheck.{start_socket_path_health_check_timer}
use cpp_unix_domain_stream.Server.Acceptor.{schedule_bind_retry}

abbrev pub connects : ℕ → ServerSignal → Bool
connects id (peer_connected i _) = i == id
connects id _ = false

abbrev pub closes : ℕ → ServerSignal → Bool
closes id (peer_closed i) = i == id
closes id _ = false

-- A signal about the peer that only a connected peer may have.
abbrev pub concerns : ℕ → ServerSignal → Bool
concerns id (peer_closed i) = i == id
concerns id (peer_error_occurred i _) = i == id
concerns id (received i _) = i == id
concerns id (request_received i _ _) = i == id
concerns id _ = false

-- How many signals concern the peer before its first `peer_connected`.
abbrev pub early : ℕ → List ServerSignal → ℕ
early id [] = 0
early id (s ∷ rest) =
    let later = early id rest in
    if connects id s then 0 else (if concerns id s then suc later else later)

-- The credentials of a `peer_connected` were accepted.
abbrev pub Accepted : (PeerCredentials → Bool) → ServerSignal → Type 0
Accepted verify_peer (peer_connected i credentials) = verify_peer credentials ≡ true
Accepted verify_peer _ = Unit {0}

pub record Exposure (verify_peer : PeerCredentials → Bool) (id : ℕ) (exposed : List ℕ)
    (signals : List ServerSignal) : Type 0 where
  pub accounted :
      count (λ i. i == id) exposed + count (closes id) signals ≤ count (connects id) signals
  pub announced : early id signals ≡ 0
  pub accepted : All (Accepted verify_peer) signals

abbrev pub IsExposure : (PeerCredentials → Bool) → ℕ → Server → Type 0
IsExposure verify_peer id s = Exposure verify_peer id s.exposed_peer_ids s.signals

early-append :
    (id : ℕ) (xs : List ServerSignal) (s : ServerSignal)
    → early id (xs ++ (s ∷ [])) ≡ (
        if ltb 0 (count (connects id) xs)
        then early id xs
        else (if connects id s
            then early id xs
            else early id xs + (if concerns id s then 1 else 0)))
early-append id [] s = ground arith
early-append id (x ∷ xs) s = ground (arith, early-append id xs s)

contains-count : (id : ℕ) (ids : List ℕ) → contains id ids ≡ ltb 0 (count (λ i. i == id) ids)
unfolding contains
contains-count id [] = ground arith
contains-count id (x ∷ xs) = ground (arith, contains-count id xs)

count-erase_id :
    (id j : ℕ) (ids : List ℕ)
    → contains j ids ≡ true
    → count (λ i. i == id) (erase_id j ids) + (if j == id then 1 else 0) ≡ count (λ i. i == id) ids
unfolding erase_id contains
count-erase_id id j [] h = cc
count-erase_id id j (x ∷ xs) h = ground (arith, count-erase_id id j xs)

count-insert_id :
    (id j : ℕ) (ids : List ℕ)
    → count (λ i. i == id) (insert_id j ids) ≤ count (λ i. i == id) ids + (if j == id then 1 else 0)
unfolding insert_id
count-insert_id id j ids = ground arith

exposed_same :
    (id i : ℕ) (ids : List ℕ)
    → contains i ids ≡ true
    → (i == id) ≡ true
    → 0 < count (λ j. j == id) ids
exposed_same id i ids h e =
    let same : i ≡ id = (==_iff i id).0 e in rw (← same) (ground (arith, contains-count i ids))

-- A signal that is no `peer_connected` or `peer_closed`, and concerns an exposed peer if any.
pub emit-IsExposure :
    (verify_peer : PeerCredentials → Bool) (id : ℕ) (signal : ServerSignal) (s : Server)
    → connects id signal ≡ false
    → closes id signal ≡ false
    → Accepted verify_peer signal
    → (concerns id signal ≡ true → 0 < count (λ i. i == id) s.exposed_peer_ids)
    → IsExposure verify_peer id s
    → IsExposure verify_peer id (emit signal s)
emit-IsExposure verify_peer id signal s a b c d v = record {
  accounted = ground (
    arith,
    count-append (connects id) s.signals (signal ∷ []),
    count-append (closes id) s.signals (signal ∷ []),
  );
  announced = ground (arith, early-append id s.signals signal, d);
  accepted = All-append (Accepted verify_peer) s.signals (signal ∷ []) v.accepted (c, tt);
}

pub if_exposed-IsExposure :
    (verify_peer : PeerCredentials → Bool) (id i : ℕ) (signal : ServerSignal) (s : Server)
    → connects id signal ≡ false
    → closes id signal ≡ false
    → Accepted verify_peer signal
    → (concerns id signal ≡ true → i ≡ id)
    → IsExposure verify_peer id s
    → IsExposure verify_peer id (if_exposed i signal s)
unfolding if_exposed
if_exposed-IsExposure verify_peer id i signal s a b c d v =
    elim (Bool-cases (contains i s.exposed_peer_ids)) [
      | inl h ↦ rw h (
          emit-IsExposure verify_peer id signal s a b c
            (λ t. rw (← d t) (ground (arith, contains-count i s.exposed_peer_ids))) v)
      | inr h ↦ rw h v
    ]

pub notify_peer_closed-IsExposure :
    (verify_peer : PeerCredentials → Bool) (id i : ℕ) (s : Server)
    → IsExposure verify_peer id s
    → IsExposure verify_peer id (notify_peer_closed i s)
unfolding notify_peer_closed
notify_peer_closed-IsExposure verify_peer id i s v =
    elim (Bool-cases (contains i s.exposed_peer_ids)) [
      | inl h ↦ rw h (record {
        accounted = ground (
          arith,
          count-append (connects id) s.signals (peer_closed i ∷ []),
          count-append (closes id) s.signals (peer_closed i ∷ []),
          count-erase_id id i s.exposed_peer_ids h,
        );
        announced = ground (
          arith,
          early-append id s.signals (peer_closed i),
          contains-count i s.exposed_peer_ids,
          exposed_same id i s.exposed_peer_ids h,
        );
        accepted =
            All-append (Accepted verify_peer) s.signals (peer_closed i ∷ []) v.accepted (tt, tt);
      })
      | inr h ↦ rw h v
    ]

pub run_notice-IsExposure :
    (verify_peer : PeerCredentials → Bool) (id : ℕ) (notice : Notice) (s : Server)
    → IsExposure verify_peer id s
    → IsExposure verify_peer id (run_notice verify_peer notice s)
unfolding run_notice start_socket_path_health_check_timer schedule_bind_retry
run_notice-IsExposure verify_peer id notify_bound s v =
    ground (arith, emit-IsExposure verify_peer id bound s refl refl tt (λ h. cc) v)
run_notice-IsExposure verify_peer id (notify_bind_failed e) s v =
    ground (arith, emit-IsExposure verify_peer id (bind_failed e) s refl refl tt (λ h. cc) v)
run_notice-IsExposure verify_peer id notify_closed s v =
    ground (arith, emit-IsExposure verify_peer id closed s refl refl tt (λ h. cc) v)
run_notice-IsExposure verify_peer id (verify i credentials) s v =
    elim (Bool-cases (verify_peer credentials)) [
      | inl h ↦ rw h (record {
        accounted = ground (
          arith,
          count-append (connects id) s.signals (peer_connected i credentials ∷ []),
          count-append (closes id) s.signals (peer_connected i credentials ∷ []),
          count-insert_id id i s.exposed_peer_ids,
        );
        announced = ground (arith, early-append id s.signals (peer_connected i credentials));
        accepted =
            All-append (Accepted verify_peer) s.signals (peer_connected i credentials ∷ [])
              v.accepted (h, tt);
      })
      | inr h ↦ rw h v
    ]
